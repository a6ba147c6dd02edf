-- ===== src/Gateway/Forward.antt =====
-- Selective forwarding: who gets a packet (`handle_rtp_message`, `handle_rtcp_message` and
-- `get_other_media_transport_contexts` of src/handlers/gateway.rs).
use sfu.Prelude.{
  ◌≡◌, refl, ◌≢◌, ◌↔◌, inl, inr, true, some, List, [], ◌∷◌, ◌++◌, map, arith, ◌==◌, nat_eq, In,
  In-map, In-map_inv, In-flat_map, In-flat_map_inv, In-if_single, In-if_else, beq_ne, ne_beq,
  Bool-cases, ap, ◌∙◌,
}
use sfu.Prelude.HashMap.{HashMap, get, adjust, get-adjust_found}
use sfu.Prelude.Results.{Error, ok, err}
use sfu.Crates.{Crates}
use sfu.Types.{SessionId, EndpointId, FourTuple, TransportContext, Instant, four_tuple, tuple_eq}
use sfu.Messages.{TaggedMessageEvent, rtp, RtpMessageEvent}
use sfu.Endpoint
use sfu.Endpoint.{Endpoint, Transport, keep_alive}
use sfu.Session.{Session}
use sfu.States.{find_endpoint, ServerStates, get_transport, update_transport, with_transport}
use sfu.Gateway.Peers.{context_of, ready_contexts, media_peers, get_other_media_transport_contexts}
use sfu.Gateway.{forward}
use sfu.States.Routes.{Leads, get_transport_of_Leads}

module _ {c : Crates} where
  -- A transport of another endpoint of the session that can encrypt, as the packet is addressed to it.
  pub record IsPeer (ctx : TransportContext) (eid : EndpointId) (session : Session c)
      (t : TransportContext) : Type 0 where
    pub id : EndpointId
    pub endpoint : Endpoint c
    pub key : FourTuple
    pub transport : Transport c
    pub in_session : In (id, endpoint) session.endpoints
    pub is_other : id ≢ eid
    pub in_endpoint : In (key, transport) endpoint.transports
    pub is_ready : Endpoint.is_local_srtp_context_ready transport ≡ true
    pub addressed : t ≡ context_of ctx key

  ready_contexts-In :
      (ctx : TransportContext) (ft : FourTuple) (t : Transport c)
      (ts : HashMap FourTuple (Transport c))
      → In (ft, t) ts
      → Endpoint.is_local_srtp_context_ready t ≡ true
      → In (context_of ctx ft) (ready_contexts ctx ts)
  unfolding ready_contexts
  ready_contexts-In ctx ft t ts i r = In-flat_map _ (ft, t) _ ts i (rw r (inl refl))

  ready_contexts-In_inv :
      (ctx x : TransportContext) (ts : HashMap FourTuple (Transport c))
      → In x (ready_contexts ctx ts)
      → (a : FourTuple × Transport c) × In a ts
        × (Endpoint.is_local_srtp_context_ready a.1 ≡ true)
        × (x ≡ context_of ctx a.0)
  unfolding ready_contexts
  ready_contexts-In_inv ctx x ts i =
      let (a, m, k) = In-flat_map_inv _ x ts i in let (r, e) = In-if_single _ x _ k in (a, m, r, e)

  pub media_peers-adjust :
      (ctx : TransportContext) (eid : EndpointId) (f : Endpoint c → Endpoint c)
      (es : HashMap EndpointId (Endpoint c))
      → media_peers ctx eid (adjust eid f es) ≡ media_peers ctx eid es
  unfolding media_peers adjust
  media_peers-adjust ctx eid f [] = refl
  media_peers-adjust ctx eid f ((id, e) ∷ es) = elim (Bool-cases (id == eid)) [
    | inl h ↦ rw (h, h)
    | inr h ↦
        rw (h, h) (ap (λ l. ready_contexts ctx e.transports ++ l) (media_peers-adjust ctx eid f es))
  ]

  pub media_peers-IsPeer :
      (ctx : TransportContext) (eid : EndpointId) (session : Session c) (t : TransportContext)
      → In t (media_peers ctx eid session.endpoints) ↔ IsPeer ctx eid session t
  unfolding media_peers
  media_peers-IsPeer ctx eid session t = (
    λ i.
        let (e, m, k) = In-flat_map_inv _ t session.endpoints i in
        let (other, r) = In-if_else (e.0 == eid) t _ k in
        let (a, n, ready, x) = ready_contexts-In_inv ctx t e.1.transports r in
        record {
          id = e.0;
          endpoint = e.1;
          key = a.0;
          transport = a.1;
          in_session = m;
          is_other = beq_ne e.0 eid other;
          in_endpoint = n;
          is_ready = ready;
          addressed = x;
        },
    λ p.
        In-flat_map _ (p.id, p.endpoint) t session.endpoints p.in_session
          (rw (ne_beq p.id eid p.is_other, p.addressed)
            (ready_contexts-In ctx p.key p.transport p.endpoint.transports p.in_endpoint
              p.is_ready)),
  )

  -- The messages that a packet causes, given the peers.
  abbrev pub sent :
      Instant → RtpMessageEvent c → List TransportContext → List (TaggedMessageEvent c)
  sent now event = map (λ t. record { now = now; transport = t; message = rtp event })

  peers_of_route :
      (ctx : TransportContext) (s : ServerStates c) (sid : SessionId) (eid : EndpointId)
      (session : Session c)
      → find_endpoint (four_tuple ctx) s ≡ some (sid, eid)
      → get sid s.sessions ≡ some session
      → get_other_media_transport_contexts ctx s ≡ ok (media_peers ctx eid session.endpoints)
  unfolding get_other_media_transport_contexts
  peers_of_route ctx s sid eid session h k = ground arith

  module _ (ctx : TransportContext) (s : ServerStates c) (sid : SessionId) (eid : EndpointId)
      (t : Transport c) (l : Leads (four_tuple ctx) s sid eid t)
      (f : Transport c → Transport c) where
    with_transport_ok :
        with_transport (four_tuple ctx) f s ≡ (ok tt, update_transport sid eid (four_tuple ctx) f s)
    unfolding with_transport
    with_transport_ok = ground (arith, get_transport_of_Leads (four_tuple ctx) s sid eid t l)

    peers_after :
        get_other_media_transport_contexts ctx (update_transport sid eid (four_tuple ctx) f s)
        ≡ ok (media_peers ctx eid l.session.endpoints)
    unfolding update_transport
    peers_after =
        peers_of_route ctx (update_transport sid eid (four_tuple ctx) f s) sid eid _ l.routed
          (get-adjust_found sid _ s.sessions l.in_sessions)
        ∙ ap ok (media_peers-adjust ctx eid _ l.session.endpoints)

  pub forward_ok :
      (clock now : Instant) (ctx : TransportContext) (event : RtpMessageEvent c)
      (s : ServerStates c) (sid : SessionId) (eid : EndpointId) (t : Transport c)
      (l : Leads (four_tuple ctx) s sid eid t)
      → forward clock now ctx event s ≡ (
        ok (sent now event (media_peers ctx eid l.session.endpoints)),
        update_transport sid eid (four_tuple ctx) (keep_alive clock) s,
      )
  unfolding forward
  forward_ok clock now ctx event s sid eid t l = ground (
    arith,
    with_transport_ok ctx s sid eid t l (keep_alive clock),
    peers_after ctx s sid eid t l (keep_alive clock),
  )

  -- A packet that arrives on a routed transport is sent, unchanged, to the transports of the other
  -- endpoints of the session that can encrypt, and to no other place; the transport that it came on
  -- is marked as active, and nothing else changes.
  pub forward_reaches_peers :
      (clock now : Instant) (ctx : TransportContext) (event : RtpMessageEvent c)
      (s : ServerStates c) (sid : SessionId) (eid : EndpointId) (t : Transport c)
      (l : Leads (four_tuple ctx) s sid eid t)
      → (messages : List (TaggedMessageEvent c)) × (forward clock now ctx event s
          ≡ (ok messages, update_transport sid eid (four_tuple ctx) (keep_alive clock) s))
        × ((m : TaggedMessageEvent c)
            → In m messages ↔ (
                (to : TransportContext) × IsPeer ctx eid l.session to
                × (m ≡ record { now = now; transport = to; message = rtp event })))
  forward_reaches_peers clock now ctx event s sid eid t l = (
    sent now event (media_peers ctx eid l.session.endpoints),
    forward_ok clock now ctx event s sid eid t l,
    λ m. (
      λ i.
          let (to, p, e) = In-map_inv _ m (media_peers ctx eid l.session.endpoints) i in
          (to, (media_peers-IsPeer ctx eid l.session to).0 p, e),
      λ (to, p, e). rw e (
          In-map _ to (media_peers ctx eid l.session.endpoints)
            ((media_peers-IsPeer ctx eid l.session to).1 p)),
    ),
  )

  -- A packet on addresses that lead to no transport is refused with the error of the look-up: nothing
  -- is sent and nothing changes.
  forward_unrouted :
      (clock now : Instant) (ctx : TransportContext) (event : RtpMessageEvent c)
      (s : ServerStates c) (e : Error)
      → get_transport (four_tuple ctx) s ≡ err e
      → forward clock now ctx event s ≡ (err e, s)
  unfolding forward
  forward_unrouted clock now ctx event s e h = ground arith
