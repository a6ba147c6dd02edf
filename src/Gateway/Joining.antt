-- ===== src/Gateway/Joining.antt =====
-- How an endpoint joins, from its offer to its packets: `accept_offer` of src/server/states.rs, and then
-- `check_stun_message`, `add_endpoint` and the forwarding of src/handlers/gateway.rs.
use sfu.Prelude.{
  list_eq, ◌≡◌, refl, ◌≢◌, inl, inr, true, false, Option, some, List, arith, Option-cases,
  Bool-cases, ◌==◌, nat_eq, nat_beq_iff, ◌∙◌,
}
use sfu.Prelude.HashMap.{get, insert, get-insert, get-insert_self, get-adjust}
use sfu.Prelude.Results.{ok}
use sfu.Crates.{Crates, use_candidate}
use sfu.Types.{
  SessionId, EndpointId, FourTuple, TransportContext, Instant, UserName, four_tuple, tuple_eq,
  tuple_beq_iff,
}
use sfu.Sdp.{SessionDescription, ParsedDescription}
use sfu.Certificate.{DtlsFingerprint}
use sfu.Endpoint
use sfu.Endpoint.{Endpoint, Transport}
use sfu.Endpoint.Credentials.{
  Candidate, ConnectionCredentials, IceParameters, from_sdp, new_credentials, username,
}
use sfu.Session
use sfu.Session.{Session}
use sfu.States
use sfu.States.{
  ServerStates, accept_offer, add_candidate, answer_in, create_session, find_candidate,
  first_fingerprints, has_endpoint_in, update_session,
}
use sfu.States.Offers.{read_offer, offered, accept_offer_lem, offer_of_new_lem}
use sfu.States.Routes.{Leads}
use sfu.Gateway.Binding.{check_role, check_stun_message, add_endpoint}
use sfu.Gateway.Stun.{has_joined, nominated_lem}

module _ {c : Crates} where
  check_stun_finds :
      (s : ServerStates c) (request checked : c.StunMessage) (candidate : Candidate)
      (name : UserName)
      → c.get_username request ≡ ok name
      → check_role c request ≡ ok tt
      → find_candidate name s ≡ some candidate
      → c.integrity_check candidate.local_conn_cred.ice_params.password request ≡ ok checked
      → check_stun_message s request ≡ ok (some candidate, checked)
  unfolding check_stun_message
  check_stun_finds s request checked candidate name n r f i = ground (arith, n, r, f, i)

module _ {c : Crates} (random : IceParameters) (clock : Instant) where
  -- Where an offer of an endpoint that has not joined is read and answered, a binding request that has the
  -- user name of the offer, a consistent role and the integrity of the password in the answer is
  -- accepted for the candidate of that offer.
  pub accepted_offer_checks :
      (sid : SessionId) (eid : EndpointId) (ft : Option FourTuple)
      (offer answer : SessionDescription) (s : ServerStates c) (parsed : ParsedDescription)
      (remote : ConnectionCredentials) (fingerprints : List DtlsFingerprint)
      (request checked : c.StunMessage)
      → c.sdp_unmarshal offer.sdp ≡ ok parsed
      → from_sdp c parsed ≡ ok remote
      → first_fingerprints s ≡ ok fingerprints
      → has_endpoint_in sid eid (create_session sid s) ≡ false
      → answer_in sid eid
          (read_offer offer parsed)
          (new_credentials random fingerprints remote.dtls_params.role).ice_params
          (create_session sid s)
        ≡ ok answer
      → c.get_username request
        ≡ ok (
            username (
              offered random clock sid eid remote fingerprints
                (read_offer offer parsed)
                answer
                (create_session sid s)))
      → check_role c request ≡ ok tt
      → c.integrity_check random.password request ≡ ok checked
      → check_stun_message (accept_offer random clock sid eid ft offer s).1 request
        ≡ ok (
          some (
              offered random clock sid eid remote fingerprints
                (read_offer offer parsed)
                answer
                (create_session sid s)),
          checked,
        )
  unfolding add_candidate new_credentials
  accepted_offer_checks sid eid ft offer answer s parsed remote fingerprints request checked p r f n
        h name role signed =
      rw
        (
          accept_offer_lem random clock sid eid ft offer s parsed remote fingerprints p r f n,
          offer_of_new_lem random clock sid eid remote fingerprints (read_offer offer parsed) answer
              (create_session sid s) h,
        )
        (check_stun_finds _ request checked
          (offered random clock sid eid remote fingerprints (read_offer offer parsed) answer
            (create_session sid s))
          _ name role (get-insert_self _ _ (create_session sid s).candidates) signed)

tuple_ne : (a b : FourTuple) → a ≢ b → (a == b) ≡ false
tuple_ne a b ne = ground (arith, tuple_beq_iff a b)

module _ {c : Crates} where
  -- What `add_endpoint` of a session does to an endpoint that is there: every other transport stays.
  add_endpoint_keeps :
      (clock : Instant) (candidate : Candidate) (ft ft' : FourTuple) (session : Session c)
      (eid : EndpointId) (endpoint : Endpoint c) (t : Transport c)
      → ft ≢ ft'
      → get eid session.endpoints ≡ some endpoint
      → get ft' endpoint.transports ≡ some t
      → (e : Endpoint c) × (get eid (Session.add_endpoint clock candidate ft session).1.endpoints
          ≡ some e)
        × (get ft' e.transports ≡ some t)
  unfolding Session.add_endpoint Endpoint.add_transport Session.opened Endpoint.new_transport
  add_endpoint_keeps clock candidate ft ft' session eid endpoint t ne here there =
      elim (Option-cases (get candidate.endpoint_id session.endpoints)) [
        | inl e ↦ (
          endpoint,
          ground (
            arith,
            e,
            here,
            nat_beq_iff candidate.endpoint_id eid,
            get-insert candidate.endpoint_id eid (Session.first_endpoint clock candidate ft session)
                session.endpoints,
          ),
          there,
        )
        | inr (known, e) ↦ elim (Bool-cases (Endpoint.has_transport known ft)) [
          | inl old ↦ (endpoint, rw (e, old, Session.add_endpoint) here, there)
          | inr new ↦ elim (Bool-cases (candidate.endpoint_id == eid)) [
            | inr other ↦ (
              endpoint,
              rw (e, new, Session.add_endpoint)
                  (get-adjust candidate.endpoint_id eid _ session.endpoints ∙ rw other here),
              there,
            )
            | inl same ↦ (
              Endpoint.add_transport endpoint (Session.opened clock candidate ft session),
              rw (e, new, Session.add_endpoint)
                  (get-adjust candidate.endpoint_id eid _ session.endpoints ∙ rw (same, here) refl),
              get-insert ft ft' _ endpoint.transports ∙ rw (tuple_ne ft ft' ne) there,
            )
          ]
        ]
      ]

  -- A nomination that opens a transport keeps the route to every other transport.
  pub nomination_spares :
      (clock : Instant) (request : c.StunMessage) (candidate : Candidate) (ctx : TransportContext)
      (ft : FourTuple) (s : ServerStates c) (session : Session c) (sid : SessionId)
      (eid : EndpointId) (t : Transport c)
      → get candidate.session_id s.sessions ≡ some session
      → c.contains request use_candidate ≡ true
      → has_joined candidate (four_tuple ctx) session ≡ false
      → four_tuple ctx ≢ ft
      → Leads ft s sid eid t
      → Leads ft (add_endpoint clock request candidate ctx s).1 sid eid t
  unfolding States.add_endpoint update_session
  nomination_spares clock request candidate ctx ft s session sid eid t h k n ne l =
      rw (nominated_lem clock request candidate ctx s session h k n)
        (elim (Bool-cases (candidate.session_id == sid)) [
          | inr other ↦ record {
            session = l.session;
            endpoint = l.endpoint;
            routed = routed;
            in_sessions = get-adjust candidate.session_id sid _ s.sessions ∙ rw other l.in_sessions;
            in_session = l.in_session;
            in_endpoint = l.in_endpoint;
          }
          | inl same ↦
              let (e, p, q) =
                add_endpoint_keeps clock candidate (four_tuple ctx) ft session eid l.endpoint t ne
                  (rw (found_twice same) at l.in_session) l.in_endpoint in
              record {
                session = (Session.add_endpoint clock candidate (four_tuple ctx) session).1;
                endpoint = e;
                routed = routed;
                in_sessions =
                    get-adjust candidate.session_id sid _ s.sessions
                    ∙ rw (same, l.in_sessions) refl;
                in_session = p;
                in_endpoint = q;
              }
        ])
    where
      routed :
          get ft (insert (four_tuple ctx) (candidate.session_id, candidate.endpoint_id) s.endpoints)
          ≡ some (sid, eid)
      routed =
          get-insert (four_tuple ctx) ft _ s.endpoints
          ∙ rw (tuple_ne (four_tuple ctx) ft ne) l.routed

      found_twice : (candidate.session_id == sid) ≡ true → l.session ≡ session
      found_twice same = ground (arith, h, l.in_sessions)
