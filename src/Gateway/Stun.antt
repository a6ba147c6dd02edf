-- ===== src/Gateway/Stun.antt =====
-- Who may join: the checks of a binding request and the route that a nomination sets up
-- (`check_stun_message` and `add_endpoint` of src/handlers/gateway.rs).
use sfu.Prelude.{
  ◌≡◌, ◌↔◌, ◌⊎◌, inl, inr, Bool, true, false, none, some, [], Text, arith, Option-cases, nat_eq,
  list_eq,
}
use sfu.Prelude.HashMap.{get, get-adjust_found, get-insert_self}
use sfu.Prelude.Results.{ok, err, Result-cases}
use sfu.Crates.{Crates, ice_controlled, ice_controlling, priority, use_candidate}
use sfu.Types.{FourTuple, TransportContext, Instant, four_tuple, tuple_eq}
use sfu.Endpoint
use sfu.Endpoint.{Endpoint, new_transport}
use sfu.Endpoint.Credentials.{Candidate}
use sfu.Session
use sfu.Session.{Session}
use sfu.States
use sfu.States.{ServerStates, find_candidate, update_session}
use sfu.States.Routes.{Leads}
use sfu.Gateway.Binding.{check_role, has_ice_attribute, check_stun_message, add_endpoint}

role_sound :
    (c : Crates) (request : c.StunMessage)
    → check_role c request ≡ ok tt
    → (c.contains request priority ≡ true)
      × (((c.contains request ice_controlling ≡ true) × (c.contains request ice_controlled ≡ false))
          ⊎ ((c.contains request ice_controlling ≡ false)
              × (c.contains request ice_controlled ≡ true)
              × (c.contains request use_candidate ≡ false)))
unfolding check_role
role_sound c request h = ground arith

module _ {c : Crates} where
  -- What a connectivity check shows: a known user name, a priority, one ICE role, no nomination by
  -- the controlled side, and the password that belongs to the name.
  pub record IsAuthentic (s : ServerStates c) (request : c.StunMessage) (candidate : Candidate)
      (checked : c.StunMessage) : Type 0 where
    pub name : Text
    pub named : c.get_username request ≡ ok name
    pub has_priority : c.contains request priority ≡ true
    pub one_role :
        (((c.contains request ice_controlling ≡ true)
          × (c.contains request ice_controlled ≡ false)))
        ⊎ ((c.contains request ice_controlling ≡ false)
            × (c.contains request ice_controlled ≡ true)
            × (c.contains request use_candidate ≡ false))
    pub known : find_candidate name s ≡ some candidate
    pub signed :
        c.integrity_check candidate.local_conn_cred.ice_params.password request ≡ ok checked

  role_complete :
      (s : ServerStates c) (request : c.StunMessage) (candidate : Candidate)
      (checked : c.StunMessage)
      → IsAuthentic s request candidate checked
      → check_role c request ≡ ok tt
  unfolding check_role
  role_complete s request candidate checked a = ground (arith, a.has_priority, a.one_role)

  -- The check of a binding request returns a candidate exactly when the request is authentic for it.
  pub check_stun_accepts :
      (s : ServerStates c) (request : c.StunMessage) (candidate : Candidate)
      (checked : c.StunMessage)
      → (check_stun_message s request ≡ ok (some candidate, checked))
        ↔ IsAuthentic s request candidate checked
  unfolding check_stun_message
  check_stun_accepts s request candidate checked = (
    λ h. elim (Result-cases (c.get_username request)) [
      | inl (e, x) ↦ absurd (ground arith)
      | inr (name, x) ↦ elim (Result-cases (check_role c request)) [
        | inl (e, y) ↦ absurd (ground arith)
        | inr (u, y) ↦
            let (p, q) = role_sound c request (ground arith) in
            record {
              name = name;
              named = x;
              has_priority = p;
              one_role = q;
              known = ground arith;
              signed = ground arith;
            }
      ]
    ],
    λ a. ground (arith, a.named, a.known, a.signed, role_complete s request candidate checked a),
  )

  -- The check returns no candidate, and the request as it is, exactly when the request has no user
  -- name and none of the attributes of a connectivity check.
  check_stun_anonymous :
      (s : ServerStates c) (request checked : c.StunMessage)
      → (check_stun_message s request ≡ ok (none, checked)) ↔ (
          ((e : sfu.Prelude.Results.Error) × (c.get_username request ≡ err e))
          × (has_ice_attribute c request ≡ false)
          × (checked ≡ request))
  unfolding check_stun_message
  check_stun_anonymous s request checked = (
    λ h. elim (Result-cases (c.get_username request)) [
      | inl (e, x) ↦ ((e, x), ground arith, ground arith)
      | inr (name, x) ↦ absurd (ground arith)
    ],
    λ ((e, x), y, z). ground arith,
  )

  -- The endpoint has the transport already.
  abbrev pub has_joined : Candidate → FourTuple → Session c → Bool
  has_joined candidate ft session = elim (get candidate.endpoint_id session.endpoints) [
    | none ↦ false
    | some e ↦ Endpoint.has_transport e ft
  ]

  session_join :
      (clock : Instant) (candidate : Candidate) (ft : FourTuple) (session : Session c)
      → has_joined candidate ft session ≡ false
      → (e : Endpoint c) × (get candidate.endpoint_id
            (Session.add_endpoint clock candidate ft session).1.endpoints
          ≡ some e)
        × (get ft e.transports ≡ some (Session.opened clock candidate ft session))
  unfolding Session.add_endpoint new_transport Endpoint.new_endpoint Endpoint.add_transport
      Endpoint.set_remote_description Endpoint.set_local_description
  session_join clock candidate ft session h =
      elim (Option-cases (get candidate.endpoint_id session.endpoints)) [
        | inl e ↦ (
          Session.first_endpoint clock candidate ft session,
          rw (e, Session.add_endpoint) (get-insert_self _ _ session.endpoints),
          get-insert_self ft _ [],
        )
        | inr (endpoint, e) ↦ (
          Endpoint.add_transport endpoint (Session.opened clock candidate ft session),
          ground (
            arith,
            e,
            get-adjust_found candidate.endpoint_id
                (λ x. Endpoint.add_transport x (Session.opened clock candidate ft session))
                session.endpoints e,
          ),
          get-insert_self ft _ endpoint.transports,
        )
      ]

  -- The state after a nomination that opens a transport.
  abbrev pub nominated :
      Instant → Candidate → FourTuple → Session c → ServerStates c → ServerStates c
  nominated clock candidate ft session s =
      States.add_endpoint ft candidate.session_id candidate.endpoint_id (
        update_session candidate.session_id
          (λ _. (Session.add_endpoint clock candidate ft session).1) s)

  pub nominated_lem :
      (clock : Instant) (request : c.StunMessage) (candidate : Candidate) (ctx : TransportContext)
      (s : ServerStates c) (session : Session c)
      → get candidate.session_id s.sessions ≡ some session
      → c.contains request use_candidate ≡ true
      → has_joined candidate (four_tuple ctx) session ≡ false
      → (add_endpoint clock request candidate ctx s).1
        ≡ nominated clock candidate (four_tuple ctx) session s
  unfolding add_endpoint
  nominated_lem clock request candidate ctx s session h k n = ground (arith, h, k, n)

  -- Where the session of a candidate is there, a nomination of the candidate on a transport that its
  -- endpoint does not have opens that transport, and the addresses lead to it.
  pub nomination_joins :
      (clock : Instant) (request : c.StunMessage) (candidate : Candidate) (ctx : TransportContext)
      (s : ServerStates c) (session : Session c)
      → get candidate.session_id s.sessions ≡ some session
      → c.contains request use_candidate ≡ true
      → has_joined candidate (four_tuple ctx) session ≡ false
      → Leads
          (four_tuple ctx)
          (add_endpoint clock request candidate ctx s).1
          candidate.session_id
          candidate.endpoint_id
          (Session.opened clock candidate (four_tuple ctx) session)
  unfolding States.add_endpoint update_session
  nomination_joins clock request candidate ctx s session h k n =
      let (e, p, q) = session_join clock candidate (four_tuple ctx) session n in
      rw (nominated_lem clock request candidate ctx s session h k n) (record {
        session = (Session.add_endpoint clock candidate (four_tuple ctx) session).1;
        endpoint = e;
        routed = get-insert_self (four_tuple ctx) _ s.endpoints;
        in_sessions = get-adjust_found candidate.session_id _ s.sessions h;
        in_session = p;
        in_endpoint = q;
      })

  -- A request that nominates nothing, or nominates a transport that is there, or whose session is not
  -- there, changes nothing.
  pub no_nomination_keeps :
      (clock : Instant) (request : c.StunMessage) (candidate : Candidate) (ctx : TransportContext)
      (s : ServerStates c)
      → ((session : Session c)
          → get candidate.session_id s.sessions ≡ some session
          → (c.contains request use_candidate ≡ false)
            ⊎ (has_joined candidate (four_tuple ctx) session ≡ true))
      → (add_endpoint clock request candidate ctx s).1 ≡ s
  unfolding add_endpoint
  no_nomination_keeps clock request candidate ctx s h =
      elim (Option-cases (get candidate.session_id s.sessions)) [
        | inl e ↦ rw (e, add_endpoint)
        | inr (session, e) ↦ ground (arith, e, h session e)
      ]
