-- ===== src/Gateway/Timeout.antt =====
-- The sweep of idle transports (`handle_timeout` and `poll_timeout` of src/handlers/gateway.rs).
use sfu.Prelude.{
  ◌-◌, ◌<◌, ◌≡◌, refl, ◌≢◌, List, [], ◌∷◌, arith, In, inl, inr, In-flat_map_inv, In-if_single, leb,
  Bool-cases,
}
use sfu.Crates.{Crates}
use sfu.Types.{SessionId, EndpointId, FourTuple, Instant}
use sfu.Endpoint.{Endpoint, Transport}
use sfu.Session.{Session}
use sfu.States.{ServerStates}
use sfu.States.Routes.{Leads}
use sfu.States.Removal.{remove_transport-Leads}
use sfu.Gateway.{Gateway, idle_in, idle_transports, remove_transports, handle_timeout}

module _ {c : Crates} where
  remove_transports-Leads :
      (fts : List FourTuple) (ft : FourTuple) (s : ServerStates c) (sid : SessionId)
      (eid : EndpointId) (t : Transport c)
      → ((x : FourTuple) → In x fts → x ≢ ft)
      → Leads ft s sid eid t
      → Leads ft (remove_transports fts s) sid eid t
  unfolding remove_transports
  remove_transports-Leads [] ft s sid eid t others l = l
  remove_transports-Leads (x ∷ fts) ft s sid eid t others l =
      remove_transports-Leads fts ft _ sid eid t (λ y i. others y (inr i))
        (remove_transport-Leads x ft s sid eid t (others x (inl refl)) l)

  -- Whatever transport of the server claims to be `ft` was active after `limit`.
  abbrev pub IsRecent : Instant → FourTuple → ServerStates c → Type 0
  IsRecent limit ft s =
      (x : SessionId × Session c) (y : EndpointId × Endpoint c) (z : FourTuple × Transport c)
      → In x s.sessions
      → In y x.1.endpoints
      → In z y.1.transports
      → z.1.four_tuple ≡ ft
      → limit < z.1.last_activity

  idle_transports-ne :
      (limit : Instant) (ft : FourTuple) (s : ServerStates c)
      → IsRecent limit ft s
      → (x : FourTuple) → In x (idle_transports limit s)
      → x ≢ ft
  unfolding idle_transports idle_in
  idle_transports-ne limit ft s recent x i e =
      let (a, ia, ra) = In-flat_map_inv _ x s.sessions i in
      let (b, ib, rb) = In-flat_map_inv _ x a.1.endpoints ra in
      let (d, id, rd) = In-flat_map_inv _ x b.1.transports rb in
      let (idle, here) = In-if_single _ x _ rd in
      let late : limit < d.1.last_activity = recent a b d ia ib id (ground arith) in ground arith

  -- Where every transport with these addresses was active within the idle time, the route to the
  -- transport is kept through `handle_timeout`, whatever other transports it removes.
  pub handle_timeout_spares :
      (now : Instant) (g : Gateway c) (ft : FourTuple) (sid : SessionId) (eid : EndpointId)
      (t : Transport c)
      → Leads ft g.states sid eid t
      → IsRecent (now - g.idle_timeout) ft g.states
      → Leads ft (handle_timeout now g).states sid eid t
  unfolding handle_timeout
  handle_timeout_spares now g ft sid eid t l recent = elim (Bool-cases (leb g.next_timeout now)) [
    | inl due ↦
        rw (due, handle_timeout)
          (remove_transports-Leads _ ft g.states sid eid t
            (idle_transports-ne (now - g.idle_timeout) ft g.states recent) l)
    | inr early ↦ rw (early, handle_timeout) l
  ]
