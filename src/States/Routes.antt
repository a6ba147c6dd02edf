-- ===== src/States/Routes.antt =====
-- The route from a pair of addresses through the session and the endpoint to the transport, which
-- `get_mut_transport` of src/server/states.rs follows.
use sfu.Prelude.{
  ◌≡◌, ◌≢◌, refl, sym, ne_false, inl, inr, some, arith, Option-cases, nat_eq, Bool-cases, ◌==◌, ◌∙◌,
}
use sfu.Prelude.HashMap.{get, adjust, get-adjust}
use sfu.Prelude.Results.{ok}
use sfu.Crates.{Crates}
use sfu.Types.{SessionId, EndpointId, FourTuple, tuple_eq}
use sfu.Endpoint.{Endpoint, Transport}
use sfu.Session.{Session}
use sfu.States.{
  ServerStates, find_endpoint, get_endpoint, get_transport, update_endpoint, update_transport,
}

module _ {c : Crates} where
  -- Every link of the route.
  pub record Leads (ft : FourTuple) (s : ServerStates c) (sid : SessionId) (eid : EndpointId)
      (t : Transport c) : Type 0 where
    pub session : Session c
    pub endpoint : Endpoint c
    pub routed : find_endpoint ft s ≡ some (sid, eid)
    pub in_sessions : get sid s.sessions ≡ some session
    pub in_session : get eid session.endpoints ≡ some endpoint
    pub in_endpoint : get ft endpoint.transports ≡ some t

  pub get_transport_of_Leads :
      (ft : FourTuple) (s : ServerStates c) (sid : SessionId) (eid : EndpointId) (t : Transport c)
      → Leads ft s sid eid t
      → get_transport ft s ≡ ok (sid, eid, t)
  unfolding get_transport
  get_transport_of_Leads ft s sid eid t l =
      ground (arith, l.routed, l.in_sessions, l.in_session, l.in_endpoint)

  pub get_endpoint_of_Leads :
      (ft : FourTuple) (s : ServerStates c) (sid : SessionId) (eid : EndpointId) (t : Transport c)
      (l : Leads ft s sid eid t)
      → get_endpoint ft s ≡ ok (sid, eid, l.endpoint)
  unfolding get_endpoint
  get_endpoint_of_Leads ft s sid eid t l = ground (arith, l.routed, l.in_sessions, l.in_session)

  -- The links one after another: each look-up found something, or the result were an error.
  pub Leads_of_get_transport :
      (ft : FourTuple) (s : ServerStates c) (sid : SessionId) (eid : EndpointId) (t : Transport c)
      → get_transport ft s ≡ ok (sid, eid, t)
      → Leads ft s sid eid t
  unfolding get_transport
  Leads_of_get_transport ft s sid eid t h = elim (Option-cases (find_endpoint ft s)) [
    | inl e ↦ absurd (ground arith)
    | inr (ids, e) ↦ elim (Option-cases (get ids.0 s.sessions)) [
      | inl e' ↦ absurd (ground arith)
      | inr (session, e') ↦ elim (Option-cases (get ids.1 session.endpoints)) [
        | inl e'' ↦ absurd (ground arith)
        | inr (endpoint, e'') ↦ record {
          session = session;
          endpoint = endpoint;
          routed = ground arith;
          in_sessions = ground arith;
          in_session = ground arith;
          in_endpoint = ground arith;
        }
      ]
    ]
  ]

module _ {c : Crates} where
  -- A write to an endpoint keeps every route on which it leaves the transport alone.
  pub update_endpoint-Leads :
      (sid : SessionId) (eid : EndpointId) (f : Endpoint c → Endpoint c) (ft : FourTuple)
      (s : ServerStates c) (sid' : SessionId) (eid' : EndpointId) (t : Transport c)
      → ((e : Endpoint c) → get ft (f e).transports ≡ get ft e.transports)
      → Leads ft s sid' eid' t
      → Leads ft (update_endpoint sid eid f s) sid' eid' t
  unfolding update_endpoint
  update_endpoint-Leads sid eid f ft s sid' eid' t keep l = elim (Bool-cases (sid == sid')) [
    | inr other ↦ record {
      session = l.session;
      endpoint = l.endpoint;
      routed = l.routed;
      in_sessions = get-adjust sid sid' F s.sessions ∙ rw other l.in_sessions;
      in_session = l.in_session;
      in_endpoint = l.in_endpoint;
    }
    | inl same ↦ elim (Bool-cases (eid == eid')) [
      | inr other ↦ record {
        session = F l.session;
        endpoint = l.endpoint;
        routed = l.routed;
        in_sessions = get-adjust sid sid' F s.sessions ∙ rw (same, l.in_sessions);
        in_session = get-adjust eid eid' f l.session.endpoints ∙ rw other l.in_session;
        in_endpoint = l.in_endpoint;
      }
      | inl here ↦ record {
        session = F l.session;
        endpoint = f l.endpoint;
        routed = l.routed;
        in_sessions = get-adjust sid sid' F s.sessions ∙ rw (same, l.in_sessions);
        in_session = get-adjust eid eid' f l.session.endpoints ∙ rw (here, l.in_session);
        in_endpoint = keep l.endpoint ∙ l.in_endpoint;
      }
    ]
  ]
    where
      F : Session c → Session c
      F session = record session { endpoints = adjust eid f session.endpoints }

  -- A write to a transport.
  pub update_transport-Leads :
      (sid : SessionId) (eid : EndpointId) (key : FourTuple) (f : Transport c → Transport c)
      (s : ServerStates c) (ft : FourTuple) (sid' : SessionId) (eid' : EndpointId) (t : Transport c)
      → ft ≢ key
      → Leads ft s sid' eid' t
      → Leads ft (update_transport sid eid key f s) sid' eid' t
  unfolding update_transport
  update_transport-Leads sid eid key f s ft sid' eid' t other l =
      update_endpoint-Leads sid eid _ ft s sid' eid' t
        (λ e. get-adjust key ft f e.transports ∙ rw (ne_false key ft (λ x. other (sym x))) refl) l
