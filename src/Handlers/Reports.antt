-- ===== src/Handlers/Reports.antt =====
-- What src/handlers/interceptor.rs passes on: RTCP only as the chain of interceptors lets it, every other
-- message as it is, and what is written in the order in which it came.
use sfu.Prelude.{
  ◌≡◌, refl, sym, ap, Bool-cases, ◌↔◌, inl, inr, true, false, Option, none, some, List, [], ◌∷◌,
  ◌++◌, In, In-flat_map_inv, append_nil, is_empty,
}
use sfu.Prelude.Results.{Result-cases}
use sfu.Crates.{Crates, PacketType}
use sfu.Types.{FourTuple, four_tuple, SessionId, EndpointId}
use sfu.Messages.{TaggedMessageEvent, rtp, RtpMessageEvent}
use sfu.Interceptor.{Interceptor, no_op, sender_report, receiver_report}
use sfu.Interceptor.Chain
use sfu.Interceptor.Chain.{InterceptorEvent, forwarded}
use sfu.Interceptor.Forwarding.{read_rtcp, write_silent}
use sfu.Endpoint.{Transport}
use sfu.States.{ServerStates, get_endpoint}
use sfu.States.Routes.{Leads, update_endpoint-Leads}
use sfu.Handlers.DataChannel.{pop_front}
use sfu.Handlers.Interceptors.{
  InterceptorHandler, inbounds, outbounds, on_interceptor, read_media, handle_read, is_media,
  is_rtcp, write_media, queue_upstream, poll_write,
}

module _ {c : Crates} where
  -- A message that came in: the event of the chain that it stands for.
  In-inbounds :
      (m : TaggedMessageEvent c) (es : List (InterceptorEvent c))
      → In m (inbounds es)
      → In (InterceptorEvent.inbound m) es
  unfolding inbounds
  In-inbounds m es i = let (e, k, j) = In-flat_map_inv _ m es i in this e k j
    where
      this :
          (e : InterceptorEvent c)
          → In e es
          → In m (elim e [ InterceptorEvent.inbound x ↦ x ∷ [] | _ ↦ [] ])
          → In (InterceptorEvent.inbound m) es
      this (InterceptorEvent.inbound x) k (inl f) = rw f k
      this (InterceptorEvent.inbound x) k (inr n) = elim n [ ]
      this (InterceptorEvent.outbound x) k j = elim j [ ]
      this (InterceptorEvent.error x) k j = elim j [ ]

  inbound_inj :
      (m n : TaggedMessageEvent c) → InterceptorEvent.inbound m ≡ InterceptorEvent.inbound n → m ≡ n
  inbound_inj m n e = cc

  -- RTCP that comes in goes no further itself: each message that is passed on has those of its packets
  -- that are neither receiver reports nor transport specific feedback, at least one.
  pub handle_read_rtcp :
      (msg m : TaggedMessageEvent c) (ps : List c.RtcpPacket) (h : InterceptorHandler c)
      → msg.message ≡ rtp (RtpMessageEvent.rtcp ps)
      → In m (handle_read msg h).0.reads
      → (qs : List c.RtcpPacket) × (m ≡ record msg { message = rtp (RtpMessageEvent.rtcp qs) })
        × (is_empty qs ≡ false)
        × ((p : c.RtcpPacket) → In p qs ↔ (In p ps × (c.packet_type p ≡ PacketType.other)))
  unfolding handle_read read_media on_interceptor is_media is_rtcp
  handle_read_rtcp msg m ps h e i =
      let media : is_media msg.message ≡ true = ap is_media e in
      let ends : is_rtcp msg.message ≡ true = ap is_rtcp e in
      elim (Result-cases (get_endpoint (four_tuple msg.transport) h.states)) [
        | inl (x, k) ↦ elim (rw (handle_read, media, ends, read_media, on_interceptor, k) at i) [ ]
        | inr ((sid, eid, endpoint), k) ↦
            let (qs, f, n, each) =
              read_rtcp (InterceptorEvent.inbound m) msg ps endpoint.interceptor e (
                In-inbounds m (Chain.read msg endpoint.interceptor).0
                  (rw (handle_read, media, ends, read_media, on_interceptor, k) at i)) in
            (qs, inbound_inj m _ f, n, each)
      ]

  pub read_nothing :
      (msg : TaggedMessageEvent c) (i : Interceptor c)
      → forwarded msg ≡ []
      → (Chain.read msg i).0 ≡ []
  unfolding Chain.read
  read_nothing msg no_op h = refl
  read_nothing msg (sender_report next) h = rw (h, read_nothing msg next h) refl
  read_nothing msg (receiver_report interval eto streams next) h = read_nothing msg next h

  on_interceptor-Leads :
      (call : Interceptor c → List (InterceptorEvent c) × Interceptor c) (key : FourTuple)
      (s : ServerStates c) (ft : FourTuple) (sid : SessionId) (eid : EndpointId) (t : Transport c)
      → Leads ft s sid eid t
      → Leads ft (on_interceptor call key s).1 sid eid t
  unfolding on_interceptor
  on_interceptor-Leads call key s ft sid eid t l = elim (Result-cases (get_endpoint key s)) [
    | inl (x, k) ↦ rw (on_interceptor, k) l
    | inr ((sid', eid', endpoint), k) ↦
        rw (on_interceptor, k) (update_endpoint-Leads sid' eid' _ ft s sid eid t (λ e. refl) l)
  ]

  -- A media packet that comes in goes on as it is, alone, also when no endpoint is found; the chain
  -- queues nothing for it, and every transport is on its route as before.
  handle_read_media :
      (msg : TaggedMessageEvent c) (p : c.RtpPacket) (h : InterceptorHandler c) (ft : FourTuple)
      (sid : SessionId) (eid : EndpointId) (t : Transport c)
      → msg.message ≡ rtp (RtpMessageEvent.packet p)
      → Leads ft h.states sid eid t
      → ((handle_read msg h).0.reads ≡ msg ∷ [])
        × ((handle_read msg h).1.transmits ≡ h.transmits)
        × Leads ft (handle_read msg h).1.states sid eid t
  unfolding handle_read read_media on_interceptor is_media is_rtcp forwarded inbounds outbounds
  handle_read_media msg p h ft sid eid t e l =
      let media : is_media msg.message ≡ true = ap is_media e in
      let goes : is_rtcp msg.message ≡ false = ap is_rtcp e in
      let kept =
        on_interceptor-Leads (Chain.read msg) (four_tuple msg.transport) h.states ft sid eid t l in
      elim (Result-cases (get_endpoint (four_tuple msg.transport) h.states)) [
        | inl (x, k) ↦
            rw (handle_read, media, goes, read_media, on_interceptor, k) (refl, refl, kept)
        | inr ((sid', eid', endpoint), k) ↦
            rw
              (
                handle_read,
                media,
                goes,
                read_media,
                on_interceptor,
                k,
                read_nothing msg endpoint.interceptor (nothing p e),
              )
              (refl, append_nil h.transmits, kept)
      ]
    where
      nothing :
          (p : c.RtpPacket) → msg.message ≡ rtp (RtpMessageEvent.packet p) → forwarded msg ≡ []
      nothing p e = rw (forwarded, e) refl

  unfoldable pub upstream_list : Option (TaggedMessageEvent c) → List (TaggedMessageEvent c)
  upstream_list none = []
  upstream_list (some msg) = msg ∷ []

  queued :
      (upstream : Option (TaggedMessageEvent c)) (h : InterceptorHandler c)
      → (queue_upstream upstream h).1.transmits ≡ h.transmits ++ upstream_list upstream
  unfolding queue_upstream write_media on_interceptor outbounds upstream_list
  queued none h = sym (append_nil h.transmits)
  queued (some msg) h = elim (Bool-cases (is_media msg.message)) [
    | inr m ↦ rw (queue_upstream, m) refl
    | inl m ↦ elim (Result-cases (get_endpoint (four_tuple msg.transport) h.states)) [
      | inl (x, k) ↦ rw (queue_upstream, m, write_media, on_interceptor, k) refl
      | inr ((sid, eid, endpoint), k) ↦
          rw
            (
              queue_upstream,
              m,
              write_media,
              on_interceptor,
              k,
              write_silent msg endpoint.interceptor,
            )
            (ap (λ l. l ++ msg ∷ []) (append_nil h.transmits))
    ]
  ]

  -- What is written leaves in order: the handler queues it behind what it has, adds nothing to it, and
  -- gives the front of the queue.
  pub poll_write_fifo :
      (upstream : Option (TaggedMessageEvent c)) (h : InterceptorHandler c)
      → ((poll_write upstream h).0, (poll_write upstream h).2.transmits)
        ≡ pop_front (h.transmits ++ upstream_list upstream)
  unfolding poll_write
  poll_write_fifo upstream h = ap pop_front (queued upstream h)
