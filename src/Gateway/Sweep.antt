-- ===== src/Gateway/Sweep.antt =====
-- What the sweep of `handle_timeout` of src/handlers/gateway.rs takes away.
use sfu.Prelude.{
  ℕ, nat_eq, ◌-◌, ◌≤◌, ◌≡◌, inl, inr, true, List, [], ◌∷◌, In, In-flat_map, arith, leb, sym,
}
use sfu.Prelude.HashMap.{In-get}
use sfu.Prelude.Results.{Error, ok, err, Result-cases}
use sfu.Crates.{Crates}
use sfu.Types.{SessionId, EndpointId, FourTuple, Instant, tuple_eq}
use sfu.Endpoint.{Transport}
use sfu.States.{ServerStates, get_transport, remove_transport}
use sfu.States.Routes.{Leads, get_transport_of_Leads, Leads_of_get_transport}
use sfu.States.Removal.{remove_transport_gone}
use sfu.States.Unrouted.{remove_transport-Leads_inv}
use sfu.Gateway.{Gateway, idle_in, idle_transports, remove_transports, handle_timeout}

module _ {c : Crates} where
  -- The addresses lead to no transport.
  abbrev IsGone : FourTuple → ServerStates c → Type 0
  IsGone ft s = (e : Error) × (get_transport ft s ≡ err e)

  remove_transport-IsGone :
      (x ft : FourTuple) (s : ServerStates c) → IsGone ft s → IsGone ft (remove_transport x s)
  remove_transport-IsGone x ft s (e, h) =
      elim (Result-cases (get_transport ft (remove_transport x s))) [
        | inl gone ↦ gone
        | inr ((sid, eid, t), k) ↦ absurd (
            clash sid eid t e
              (get_transport_of_Leads ft s sid eid t (
                remove_transport-Leads_inv x ft s sid eid t
                  (Leads_of_get_transport ft (remove_transport x s) sid eid t k)))
              h)
      ]
    where
      clash :
          (sid : SessionId) (eid : EndpointId) (t : Transport c) (e : Error)
          → get_transport ft s ≡ ok (sid, eid, t)
          → get_transport ft s ≡ err e
          → ⊥
      clash sid eid t e k h = ground arith

  remove_transports-IsGone :
      (fts : List FourTuple) (ft : FourTuple) (s : ServerStates c)
      → IsGone ft s
      → IsGone ft (remove_transports fts s)
  unfolding remove_transports
  remove_transports-IsGone [] ft s gone = gone
  remove_transports-IsGone (x ∷ fts) ft s gone =
      remove_transports-IsGone fts ft _ (remove_transport-IsGone x ft s gone)

  all-IsGone :
      (fts : List FourTuple) (ft : FourTuple) (s : ServerStates c)
      → In ft fts
      → IsGone ft (remove_transports fts s)
  unfolding remove_transports
  all-IsGone [] ft s i = elim i [ ]
  all-IsGone (x ∷ fts) ft s (inl e) =
      remove_transports-IsGone fts ft (remove_transport x s) (rw e (remove_transport_gone x s))
  all-IsGone (x ∷ fts) ft s (inr i) = all-IsGone fts ft (remove_transport x s) i

  idle_transports-In :
      (limit : Instant) (ft : FourTuple) (s : ServerStates c) (sid : SessionId) (eid : EndpointId)
      (t : Transport c)
      → Leads ft s sid eid t
      → t.four_tuple ≡ ft
      → t.last_activity ≤ limit
      → In ft (idle_transports limit s)
  unfolding idle_transports idle_in
  idle_transports-In limit ft s sid eid t l own idle =
      In-flat_map _ (sid, l.session) ft s.sessions (In-get sid l.session s.sessions l.in_sessions)
        (In-flat_map _ (eid, l.endpoint) ft l.session.endpoints
          (In-get eid l.endpoint l.session.endpoints l.in_session)
          (In-flat_map _ (ft, t) ft l.endpoint.transports
            (In-get ft t l.endpoint.transports l.in_endpoint)
            (rw (is_idle t.last_activity limit idle) (inl (sym own)))))
    where
      is_idle : (a b : ℕ) → a ≤ b → leb a b ≡ true
      is_idle a b h = ground arith

  -- Once the time of the sweep has come, a transport that stands under its own addresses and had no
  -- activity within the idle time is removed: the addresses lead to no transport afterwards.
  pub handle_timeout_removes :
      (now : Instant) (g : Gateway c) (ft : FourTuple) (sid : SessionId) (eid : EndpointId)
      (t : Transport c)
      → g.next_timeout ≤ now
      → Leads ft g.states sid eid t
      → t.four_tuple ≡ ft
      → t.last_activity ≤ now - g.idle_timeout
      → (e : Error) × (get_transport ft (handle_timeout now g).states ≡ err e)
  unfolding handle_timeout
  handle_timeout_removes now g ft sid eid t due l own idle =
      rw (is_due g.next_timeout now due, handle_timeout)
        (all-IsGone _ ft g.states
          (idle_transports-In (now - g.idle_timeout) ft g.states sid eid t l own idle))
    where
      is_due : (a b : ℕ) → a ≤ b → leb a b ≡ true
      is_due a b h = ground arith
