-- ===== src/States/Removal.antt =====
-- What `remove_transport` of src/server/states.rs takes away and what it leaves, the route among it.
use sfu.Prelude.{
  ◌≡◌, refl, ◌≢◌, inl, inr, Bool, true, false, Option, none, some, [], ◌∷◌, arith, Option-cases,
  Bool-cases, ◌==◌, nat_eq, ◌∙◌, is_empty, if◌then◌else◌,
}
use sfu.Prelude.HashMap.{
  HashMap, get, adjust, remove, get-adjust, get-remove, get-remove_self, get-adjust_found,
}
use sfu.Prelude.Results.{Error, err, session_not_found, endpoint_not_found, transport_not_found}
use sfu.Crates.{Crates}
use sfu.Types.{SessionId, EndpointId, FourTuple, tuple_eq, tuple_beq_iff}
use sfu.Endpoint
use sfu.Endpoint.{Endpoint, Transport}
use sfu.Session.{Session}
use sfu.States.{
  ServerStates, find_endpoint, get_endpoint, get_transport, remove_transport, drop_transport,
  drop_endpoint, forget_candidate, update_endpoint,
}
use sfu.States.Routes.{Leads, update_endpoint-Leads}

-- A map with an entry is not empty.
get-is_empty {ℓ κ} :
    {K : Type ℓ} {V : Type κ} ⦃e : sfu.Prelude.PartialEq K⦄ (k : K) (m : HashMap K V) {v : V}
    → get k m ≡ some v
    → is_empty m ≡ false
unfolding get
get-is_empty k [] h = cc
get-is_empty k (x ∷ m) h = refl

module _ {c : Crates} where
  -- Candidates are on no route.
  forget_candidate-Leads :
      (o : Option (Transport c)) (ft : FourTuple) (s : ServerStates c) (sid : SessionId)
      (eid : EndpointId) (t : Transport c)
      → Leads ft s sid eid t
      → Leads ft (forget_candidate o s) sid eid t
  unfolding forget_candidate
  forget_candidate-Leads none ft s sid eid t l = l
  forget_candidate-Leads (some u) ft s sid eid t l = record {
    session = l.session;
    endpoint = l.endpoint;
    routed = l.routed;
    in_sessions = l.in_sessions;
    in_session = l.in_session;
    in_endpoint = l.in_endpoint;
  }

  get-remove_ne :
      (ft ft' : FourTuple) (m : HashMap FourTuple (Transport c))
      → ft ≢ ft'
      → get ft' (remove ft m) ≡ get ft' m
  get-remove_ne ft ft' m ne = ground (arith, get-remove ft ft' m, tuple_beq_iff ft ft')

  module _ (ft ft' : FourTuple) (s : ServerStates c) (sid sid' : SessionId) (eid eid' : EndpointId)
      (session : Session c) (endpoint : Endpoint c) (t : Transport c) (ne : ft ≢ ft')
      (there : get sid s.sessions ≡ some session) (here : get eid session.endpoints ≡ some endpoint)
      (l : Leads ft' s sid' eid' t) where
    abbrev without : Session c → Session c
    without x = record x { endpoints = remove eid x.endpoints }

    -- The endpoint that is dropped is another one: it has no transport but the removed one.
    elsewhere :
        is_empty (remove ft endpoint.transports) ≡ true
        → (sid == sid') ≡ true
        → (eid == eid') ≡ false
    elsewhere empty same = elim (Bool-cases (eid == eid')) [
      | inr other ↦ other
      | inl h ↦ ground (
        arith,
        there,
        here,
        l.in_sessions,
        l.in_session,
        get-is_empty ft' (remove ft l.endpoint.transports)
            (get-remove_ne ft ft' l.endpoint.transports ne ∙ l.in_endpoint),
      )
    ]

    still_routed : get ft' (remove ft s.endpoints) ≡ some (sid', eid')
    still_routed = ground (arith, get-remove ft ft' s.endpoints, tuple_beq_iff ft ft', l.routed)

    -- In another session nothing changes, whether the session is dropped or not.
    drop_apart :
        (last : Bool)
        → (sid == sid') ≡ false
        → get sid' (if last then remove sid s.sessions else adjust sid without s.sessions)
          ≡ some l.session
    drop_apart true apart = get-remove sid sid' s.sessions ∙ rw apart l.in_sessions
    drop_apart false apart = get-adjust sid sid' without s.sessions ∙ rw apart l.in_sessions

    kept : (eid == eid') ≡ false → get eid' (remove eid l.session.endpoints) ≡ some l.endpoint
    kept other = get-remove eid eid' l.session.endpoints ∙ rw other l.in_session

    -- In the same session the other endpoint stays, so the session does.
    drop_beside :
        (sid == sid') ≡ true
        → (eid == eid') ≡ false
        → get sid' (
            if is_empty (remove eid session.endpoints)
            then remove sid s.sessions
            else adjust sid without s.sessions)
          ≡ some (without l.session)
    drop_beside same other = ground (
      arith,
      there,
      l.in_sessions,
      get-is_empty eid' (remove eid l.session.endpoints) (kept other),
      get-adjust_found sid' without s.sessions l.in_sessions,
    )

    drop_endpoint-Leads :
        is_empty (remove ft endpoint.transports) ≡ true
        → Leads ft' (drop_endpoint sid eid ft session s) sid' eid' t
    unfolding drop_endpoint
    drop_endpoint-Leads empty = elim (Bool-cases (sid == sid')) [
      | inr apart ↦ record {
        session = l.session;
        endpoint = l.endpoint;
        routed = still_routed;
        in_sessions = drop_apart (is_empty (remove eid session.endpoints)) apart;
        in_session = l.in_session;
        in_endpoint = l.in_endpoint;
      }
      | inl same ↦ record {
        session = without l.session;
        endpoint = l.endpoint;
        routed = still_routed;
        in_sessions = drop_beside same (elsewhere empty same);
        in_session = kept (elsewhere empty same);
        in_endpoint = l.in_endpoint;
      }
    ]

    drop_transport-Leads : Leads ft' (drop_transport sid eid ft session endpoint s) sid' eid' t
    unfolding drop_transport Endpoint.remove_transport
    drop_transport-Leads = by_emptiness (is_empty (remove ft endpoint.transports)) refl
      where
        by_emptiness :
            (b : Bool)
            → is_empty (remove ft endpoint.transports) ≡ b
            → Leads ft'
                (if b
                  then drop_endpoint sid eid ft session s
                  else update_endpoint sid eid (λ e. (Endpoint.remove_transport e ft).1) s)
                sid'
                eid'
                t
        by_emptiness true e = drop_endpoint-Leads e
        by_emptiness false e =
            update_endpoint-Leads sid eid (λ e. (Endpoint.remove_transport e ft).1) ft' s sid' eid'
              t (λ e. get-remove_ne ft ft' e.transports ne) l

module _ {c : Crates} where
  -- Removing a transport leaves the route to every other transport as it was.
  pub remove_transport-Leads :
      (ft ft' : FourTuple) (s : ServerStates c) (sid : SessionId) (eid : EndpointId)
      (t : Transport c)
      → ft ≢ ft'
      → Leads ft' s sid eid t
      → Leads ft' (remove_transport ft s) sid eid t
  unfolding remove_transport
  remove_transport-Leads ft ft' s sid eid t ne l = elim (Option-cases (find_endpoint ft s)) [
    | inl e ↦ rw (e, remove_transport) l
    | inr (ids, e) ↦ elim (Option-cases (get ids.0 s.sessions)) [
      | inl e' ↦ rw (e, e', remove_transport) l
      | inr (session, e') ↦ elim (Option-cases (get ids.1 session.endpoints)) [
        | inl e'' ↦ rw (e, e', e'', remove_transport) l
        | inr (endpoint, e'') ↦
            rw (e, e', e'', remove_transport)
              (forget_candidate-Leads _ ft' _ sid eid t
                (drop_transport-Leads ft ft' s ids.0 sid ids.1 eid session endpoint t ne e' e'' l))
      ]
    ]
  ]

  forget_candidate_lem :
      (o : Option (Transport c)) (ft : FourTuple) (s : ServerStates c)
      → (find_endpoint ft (forget_candidate o s) ≡ find_endpoint ft s)
        × (get_transport ft (forget_candidate o s) ≡ get_transport ft s)
  unfolding forget_candidate get_transport
  forget_candidate_lem none ft s = (refl, refl)
  forget_candidate_lem (some t) ft s = (refl, refl)

  unrouted :
      (ft : FourTuple) (s : ServerStates c)
      → find_endpoint ft s ≡ none
      → get_transport ft s ≡ err endpoint_not_found
  unfolding get_transport
  unrouted ft s e = ground arith

  sessionless :
      (ft : FourTuple) (s : ServerStates c) (ids : SessionId × EndpointId)
      → find_endpoint ft s ≡ some ids
      → get ids.0 s.sessions ≡ none
      → get_transport ft s ≡ err session_not_found
  unfolding get_transport
  sessionless ft s ids e e' = ground arith

  endless :
      (ft : FourTuple) (s : ServerStates c) (ids : SessionId × EndpointId) (session : Session c)
      → find_endpoint ft s ≡ some ids
      → get ids.0 s.sessions ≡ some session
      → get ids.1 session.endpoints ≡ none
      → get_transport ft s ≡ err endpoint_not_found
  unfolding get_transport
  endless ft s ids session e e' e'' = ground arith

  -- Three ends of `remove_transport`: the endpoint goes, or it stays without the transport.
  dropped :
      (ft : FourTuple) (s : ServerStates c) (sid : SessionId) (eid : EndpointId)
      (session : Session c)
      → get_transport ft (drop_endpoint sid eid ft session s) ≡ err endpoint_not_found
  unfolding drop_endpoint get_transport
  dropped ft s sid eid session = rw (get-remove_self ft s.endpoints, get_transport, get_endpoint)

  module _ (ft : FourTuple) (s : ServerStates c) (sid : SessionId) (eid : EndpointId)
      (session : Session c) (endpoint : Endpoint c) (routed : find_endpoint ft s ≡ some (sid, eid))
      (there : get sid s.sessions ≡ some session)
      (here : get eid session.endpoints ≡ some endpoint) where
    abbrev take_out : Endpoint c → Endpoint c
    take_out e = (Endpoint.remove_transport e ft).1

    stored : get_transport ft (update_endpoint sid eid take_out s) ≡ err transport_not_found
    unfolding update_endpoint get_transport Endpoint.remove_transport
    stored = ground (
      arith,
      routed,
      get-adjust_found sid
          (λ (x : Session c). record x { endpoints = adjust eid take_out x.endpoints }) s.sessions
          there,
      get-adjust_found eid take_out session.endpoints here,
      get-remove_self ft endpoint.transports,
    )

    dropped_or_stored :
        (b : Bool)
        → (e : Error) × (get_transport ft
              (if b then drop_endpoint sid eid ft session s else update_endpoint sid eid take_out s)
            ≡ err e)
    dropped_or_stored true = (endpoint_not_found, dropped ft s sid eid session)
    dropped_or_stored false = (transport_not_found, stored)

  -- The transport itself is on no route afterwards, whatever was found on the way to it.
  pub remove_transport_gone :
      (ft : FourTuple) (s : ServerStates c)
      → (e : Error) × (get_transport ft (remove_transport ft s) ≡ err e)
  unfolding remove_transport drop_transport
  remove_transport_gone ft s = elim (Option-cases (find_endpoint ft s)) [
    | inl e ↦ (endpoint_not_found, rw (e, remove_transport) (unrouted ft s e))
    | inr (ids, e) ↦ elim (Option-cases (get ids.0 s.sessions)) [
      | inl e' ↦ (session_not_found, rw (e, e', remove_transport) (sessionless ft s ids e e'))
      | inr (session, e') ↦ elim (Option-cases (get ids.1 session.endpoints)) [
        | inl e'' ↦ (
          endpoint_not_found,
          rw (e, e', e'', remove_transport) (endless ft s ids session e e' e''),
        )
        | inr (endpoint, e'') ↦
            let (x, h) =
              dropped_or_stored ft s ids.0 ids.1 session endpoint e e' e''
                (is_empty (Endpoint.remove_transport endpoint ft).1.transports) in
            (x, rw (e, e', e'', remove_transport) ((forget_candidate_lem _ ft _).1 ∙ h))
      ]
    ]
  ]

  -- Where the endpoint keeps another transport, the route of the removed one stays behind, and
  -- leads to no transport.
  pub remove_transport_leaves_route :
      (ft : FourTuple) (s : ServerStates c) (sid : SessionId) (eid : EndpointId) (t : Transport c)
      (l : Leads ft s sid eid t)
      → is_empty (remove ft l.endpoint.transports) ≡ false
      → (find_endpoint ft (remove_transport ft s) ≡ some (sid, eid))
        × (get_transport ft (remove_transport ft s) ≡ err transport_not_found)
  unfolding remove_transport drop_transport Endpoint.remove_transport
  remove_transport_leaves_route ft s sid eid t l more =
      rw (l.routed, l.in_sessions, l.in_session, remove_transport)
        (rw (more, drop_transport)
          (
            (forget_candidate_lem _ ft _).0 ∙ l.routed,
            (forget_candidate_lem _ ft _).1
                ∙ stored ft s sid eid l.session l.endpoint l.routed l.in_sessions l.in_session,
          ))
