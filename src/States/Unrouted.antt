-- ===== src/States/Unrouted.antt =====
-- Removing a transport brings none back (`remove_transport` of src/server/states.rs).
use sfu.Prelude.{
  ◌≡◌, inl, inr, Bool, true, false, Option, none, some, arith, Option-cases, Bool-cases, ◌==◌,
  nat_eq, is_empty, if◌then◌else◌, PartialEq,
}
use sfu.Prelude.HashMap.{HashMap, get, adjust, remove, get-remove, get-adjust}
use sfu.Crates.{Crates}
use sfu.Types.{SessionId, EndpointId, FourTuple, tuple_eq}
use sfu.Endpoint
use sfu.Endpoint.{Endpoint, Transport}
use sfu.Session.{Session}
use sfu.States.{
  ServerStates, find_endpoint, remove_transport, drop_transport, drop_endpoint, forget_candidate,
  update_endpoint,
}
use sfu.States.Routes.{Leads}

module _ {ℓ κ} {K : Type ℓ} {V : Type κ} ⦃e : PartialEq K⦄ where
  get-remove_inv :
      (k j : K) (m : HashMap K V) (v : V) → get j (remove k m) ≡ some v → get j m ≡ some v
  get-remove_inv k j m v h = ground (arith, get-remove k j m)

  get-adjust_inv :
      (k j : K) (f : V → V) (m : HashMap K V) (v : V)
      → get j (adjust k f m) ≡ some v
      → (w : V) × (get j m ≡ some w) × (v ≡ (if k == j then f w else w))
  get-adjust_inv k j f m v h = elim (Option-cases (get j m)) [
    | inl n ↦ absurd (ground (arith, n, get-adjust k j f m))
    | inr (w, s) ↦ (w, s, ground (arith, s, get-adjust k j f m))
  ]

module _ {c : Crates} where
  update_endpoint-Leads_inv :
      (sid : SessionId) (eid : EndpointId) (ft ft' : FourTuple) (s : ServerStates c)
      (sid' : SessionId) (eid' : EndpointId) (t : Transport c)
      → Leads ft' (update_endpoint sid eid (λ e. (Endpoint.remove_transport e ft).1) s) sid' eid' t
      → Leads ft' s sid' eid' t
  unfolding update_endpoint Endpoint.remove_transport
  update_endpoint-Leads_inv sid eid ft ft' s sid' eid' t l =
      let (session, in_sessions, e) =
        get-adjust_inv sid sid' F s.sessions l.session l.in_sessions in
      elim (Bool-cases (sid == sid')) [
        | inr other ↦ record {
          session = session;
          endpoint = l.endpoint;
          routed = l.routed;
          in_sessions = in_sessions;
          in_session = rw (rw other at e) at l.in_session;
          in_endpoint = l.in_endpoint;
        }
        | inl same ↦
            let here : get eid' (adjust eid G session.endpoints) ≡ some l.endpoint =
              rw (rw same at e) at l.in_session in
            let (endpoint, in_session, d) =
              get-adjust_inv eid eid' G session.endpoints l.endpoint here in
            record {
              session = session;
              endpoint = endpoint;
              routed = l.routed;
              in_sessions = in_sessions;
              in_session = in_session;
              in_endpoint = kept endpoint (eid == eid') d;
            }
      ]
    where
      G : Endpoint c → Endpoint c
      G e = (Endpoint.remove_transport e ft).1

      F : Session c → Session c
      F session = record session { endpoints = adjust eid G session.endpoints }

      kept :
          (endpoint : Endpoint c) (b : Bool)
          → l.endpoint ≡ (if b then G endpoint else endpoint)
          → get ft' endpoint.transports ≡ some t
      kept endpoint true d = get-remove_inv ft ft' endpoint.transports t (rw d at l.in_endpoint)
      kept endpoint false d = rw d at l.in_endpoint

  drop_endpoint-Leads_inv :
      (sid : SessionId) (eid : EndpointId) (ft ft' : FourTuple) (session : Session c)
      (s : ServerStates c) (sid' : SessionId) (eid' : EndpointId) (t : Transport c)
      → Leads ft' (drop_endpoint sid eid ft session s) sid' eid' t
      → Leads ft' s sid' eid' t
  unfolding drop_endpoint
  drop_endpoint-Leads_inv sid eid ft ft' session s sid' eid' t l =
      elim (Bool-cases (is_empty (remove eid session.endpoints))) [
        | inl last ↦ record {
          session = l.session;
          endpoint = l.endpoint;
          routed = routed;
          in_sessions = get-remove_inv sid sid' s.sessions l.session (rw last at l.in_sessions);
          in_session = l.in_session;
          in_endpoint = l.in_endpoint;
        }
        | inr more ↦
            let (before, in_sessions, e) =
              get-adjust_inv sid sid' F s.sessions l.session (rw more at l.in_sessions) in
            record {
              session = before;
              endpoint = l.endpoint;
              routed = routed;
              in_sessions = in_sessions;
              in_session = kept before (sid == sid') e;
              in_endpoint = l.in_endpoint;
            }
      ]
    where
      F : Session c → Session c
      F x = record x { endpoints = remove eid x.endpoints }

      routed : find_endpoint ft' s ≡ some (sid', eid')
      routed = get-remove_inv ft ft' s.endpoints (sid', eid') l.routed

      kept :
          (before : Session c) (b : Bool)
          → l.session ≡ (if b then F before else before)
          → get eid' before.endpoints ≡ some l.endpoint
      kept before true d =
          get-remove_inv eid eid' before.endpoints l.endpoint (rw d at l.in_session)
      kept before false d = rw d at l.in_session

  forget_candidate-Leads_inv :
      (o : Option (Transport c)) (ft : FourTuple) (s : ServerStates c) (sid : SessionId)
      (eid : EndpointId) (t : Transport c)
      → Leads ft (forget_candidate o s) sid eid t
      → Leads ft s sid eid t
  unfolding forget_candidate
  forget_candidate-Leads_inv none ft s sid eid t l = l
  forget_candidate-Leads_inv (some x) ft s sid eid t l = record {
    session = l.session;
    endpoint = l.endpoint;
    routed = l.routed;
    in_sessions = l.in_sessions;
    in_session = l.in_session;
    in_endpoint = l.in_endpoint;
  }

  drop_transport-Leads_inv :
      (sid : SessionId) (eid : EndpointId) (ft ft' : FourTuple) (session : Session c)
      (endpoint : Endpoint c) (s : ServerStates c) (sid' : SessionId) (eid' : EndpointId)
      (t : Transport c)
      → Leads ft' (drop_transport sid eid ft session endpoint s) sid' eid' t
      → Leads ft' s sid' eid' t
  unfolding drop_transport
  drop_transport-Leads_inv sid eid ft ft' session endpoint s sid' eid' t l =
      by_emptiness (is_empty (Endpoint.remove_transport endpoint ft).1.transports) l
    where
      by_emptiness :
          (b : Bool)
          → Leads ft'
              (if b
                then drop_endpoint sid eid ft session s
                else update_endpoint sid eid (λ e. (Endpoint.remove_transport e ft).1) s)
              sid'
              eid'
              t
          → Leads ft' s sid' eid' t
      by_emptiness true k = drop_endpoint-Leads_inv sid eid ft ft' session s sid' eid' t k
      by_emptiness false k = update_endpoint-Leads_inv sid eid ft ft' s sid' eid' t k

  -- A route that is there after a transport was removed was there before.
  pub remove_transport-Leads_inv :
      (ft ft' : FourTuple) (s : ServerStates c) (sid : SessionId) (eid : EndpointId)
      (t : Transport c)
      → Leads ft' (remove_transport ft s) sid eid t
      → Leads ft' s sid eid t
  unfolding remove_transport
  remove_transport-Leads_inv ft ft' s sid eid t l = elim (Option-cases (find_endpoint ft s)) [
    | inl e ↦ rw (e, remove_transport) at l
    | inr (ids, e) ↦ elim (Option-cases (get ids.0 s.sessions)) [
      | inl e' ↦ rw (e, e', remove_transport) at l
      | inr (session, e') ↦ elim (Option-cases (get ids.1 session.endpoints)) [
        | inl e'' ↦ rw (e, e', e'', remove_transport) at l
        | inr (endpoint, e'') ↦
            drop_transport-Leads_inv ids.0 ids.1 ft ft' session endpoint s sid eid t (
              forget_candidate-Leads_inv _ ft' _ sid eid t (rw (e, e', e'', remove_transport) at l))
      ]
    ]
  ]
