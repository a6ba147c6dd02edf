-- ===== src/Pipeline/Sent.antt =====
-- The way of a media packet out of the gateway and through all the handlers.
use sfu.Prelude.{ℕ, none, ◌≡◌, ap, some, List, [], ◌∷◌}
use sfu.Prelude.Results.{Error, ok, err}
use sfu.Crates.{Crates}
use sfu.Types.{TransportContext, SessionId, EndpointId, Instant, four_tuple, tuple_eq}
use sfu.Messages.{TaggedMessageEvent, RtpMessageEvent}
use sfu.Endpoint.{Transport}
use sfu.States.{ServerStates, update_endpoint, update_transport}
use sfu.States.Routes.{Leads}
use sfu.Demuxer
use sfu.Handlers.Srtp.{encrypted}
use sfu.Pipeline.{Pipeline}
use sfu.Pipeline.Writes.{
  waiting, written_by, poll_one, gateway_pops, interceptor_writes, srtp_encrypts, srtp_refuses,
  channel_hands, sctp_hands, dtls_hands, stun_hands, channel_idle, sctp_idle, dtls_idle, stun_idle,
}
use sfu.Pipeline.Steps.{event, after_write, update_endpoint-Leads_self}
use sfu.Pipeline.Out.{
  Writer, poll_transmit, poll_through, writers, stun_writer, dtls_writer, sctp_writer,
  data_channel_writer, srtp_writer, interceptor_writer, gateway_writer,
}

module _ {c : Crates} where
  abbrev media_writers : List (Writer c)
  media_writers = srtp_writer ∷ interceptor_writer ∷ gateway_writer ∷ []

  -- What the handler of SRTP writes goes out as it is, where the handlers before it have nothing to send.
  bytes_leave :
      (now : Instant) (ctx : TransportContext) (rest : List (TaggedMessageEvent c))
      (p q : Pipeline c) (bytes : List ℕ)
      → poll_through media_writers q
        ≡ (some (event now ctx (RtpMessageEvent.raw bytes)), [], waiting rest p)
      → poll_transmit q
        ≡ (some (record { now = now; transport = ctx; message = bytes }), [], waiting rest p)
  unfolding poll_transmit writers Demuxer.poll_write Demuxer.raw_bytes
  bytes_leave now ctx rest p q bytes e =
      let raw = some (event now ctx (RtpMessageEvent.raw bytes)) in
      let r : Pipeline c = waiting rest p in
      let e3 =
        poll_one data_channel_writer media_writers raw raw q r r e
          (channel_hands now ctx rest p bytes) in
      let e4 =
        poll_one sctp_writer (data_channel_writer ∷ media_writers) raw raw q r r e3
          (sctp_hands now ctx rest p bytes) in
      let e5 =
        poll_one dtls_writer (sctp_writer ∷ data_channel_writer ∷ media_writers) raw raw q r r e4
          (dtls_hands now ctx rest p bytes) in
      let e6 =
        poll_one stun_writer (dtls_writer ∷ sctp_writer ∷ data_channel_writer ∷ media_writers) raw
          raw q r r e5 (stun_hands now ctx rest p bytes) in
      ap (λ (front, es, r). (Demuxer.poll_write front, es, r)) e6

  nothing_leaves :
      (rest : List (TaggedMessageEvent c)) (p q : Pipeline c) (x : Error)
      → poll_through media_writers q ≡ (none, x ∷ [], waiting rest p)
      → poll_transmit q ≡ (none, x ∷ [], waiting rest p)
  unfolding poll_transmit writers Demuxer.poll_write
  nothing_leaves rest p q x e =
      let r : Pipeline c = waiting rest p in
      let e3 = poll_one data_channel_writer media_writers none none q r r e (channel_idle rest p) in
      let e4 =
        poll_one sctp_writer (data_channel_writer ∷ media_writers) none none q r r e3
          (sctp_idle rest p) in
      let e5 =
        poll_one dtls_writer (sctp_writer ∷ data_channel_writer ∷ media_writers) none none q r r e4
          (dtls_idle rest p) in
      let e6 =
        poll_one stun_writer (dtls_writer ∷ sctp_writer ∷ data_channel_writer ∷ media_writers) none
          none q r r e5 (stun_idle rest p) in
      ap (λ (front, es, r). (Demuxer.poll_write front, es, r)) e6

  module _ (now : Instant) (ctx : TransportContext) (packet : c.RtpPacket)
      (rest : List (TaggedMessageEvent c)) (p : Pipeline c) (sid : SessionId) (eid : EndpointId)
      (t t' : Transport c) (l : Leads (four_tuple ctx) p.states sid eid t) where
    abbrev plain : TaggedMessageEvent c
    plain = event now ctx (RtpMessageEvent.packet packet)

    -- The packet comes from the gateway to the handler of SRTP.
    reaches_srtp :
        (states : ServerStates c) × Leads (four_tuple ctx) states sid eid t
        × (poll_through (interceptor_writer ∷ gateway_writer ∷ []) (waiting (plain ∷ rest) p)
            ≡ (some plain, [], waiting rest (record p { states = states })))
    reaches_srtp =
        let f = written_by now ctx packet sid eid t t' p.states l in
        let (l1, _) = update_endpoint-Leads_self ctx sid eid f p.states t t l l.in_endpoint in
        (
          update_endpoint sid eid f p.states,
          l1,
          poll_one interceptor_writer (gateway_writer ∷ []) (some plain) (some plain)
              (waiting (plain ∷ rest) p) (waiting rest p)
              (waiting rest (record p { states = update_endpoint sid eid f p.states }))
              (gateway_pops now ctx packet sid eid t t' rest p)
              (interceptor_writes now ctx packet sid eid t t' rest p l),
        )

    -- Where only the gateway has messages to send, and the first is a media packet for a routed transport
    -- that can encrypt it, the pipeline sends the encrypted bytes to that transport, without an exception:
    -- the other messages wait in their order, and the transport stays on its route with its context moved
    -- on.
    pub queued_media_leaves_encrypted :
        (bytes : List ℕ)
        → encrypted (RtpMessageEvent.packet packet) t ≡ (ok bytes, t')
        → (states : ServerStates c) × (poll_transmit (waiting (plain ∷ rest) p) ≡ (
          some (record { now = now; transport = ctx; message = bytes }),
          [],
          waiting rest (record p { states = states }),
        ))
          × Leads (four_tuple ctx) states sid eid t'
    queued_media_leaves_encrypted bytes d =
        let (s1, l1, e1) = reaches_srtp in
        let p1 : Pipeline c = record p { states = s1 } in
        let s2 = update_transport sid eid (four_tuple ctx) (λ _. t') s1 in
        let p2 : Pipeline c = record p { states = s2 } in
        let (l2, _) = after_write now ctx p1 sid eid t t' l1 (λ _. t') in
        (
          s2,
          bytes_leave now ctx rest p2 (waiting (plain ∷ rest) p) bytes (
              poll_one srtp_writer (interceptor_writer ∷ gateway_writer ∷ []) (some plain)
                (some (event now ctx (RtpMessageEvent.raw bytes))) (waiting (plain ∷ rest) p)
                (waiting rest p1) (waiting rest p2) e1
                (srtp_encrypts now ctx packet sid eid t t' rest p1 bytes l1 d)),
          l2,
        )

    -- Where only the gateway has messages to send, and the first is a media packet that its routed
    -- transport fails to encrypt, the pipeline gives no datagram and fires the error, although the other
    -- messages wait.
    pub refused_media_hides_queue :
        (x : Error)
        → encrypted (RtpMessageEvent.packet packet) t ≡ (err x, t')
        → (states : ServerStates c) × (poll_transmit (waiting (plain ∷ rest) p)
            ≡ (none, x ∷ [], waiting rest (record p { states = states })))
          × Leads (four_tuple ctx) states sid eid t'
    refused_media_hides_queue x d =
        let (s1, l1, e1) = reaches_srtp in
        let p1 : Pipeline c = record p { states = s1 } in
        let s2 = update_transport sid eid (four_tuple ctx) (λ _. t') s1 in
        let p2 : Pipeline c = record p { states = s2 } in
        let (l2, _) = after_write now ctx p1 sid eid t t' l1 (λ _. t') in
        (
          s2,
          nothing_leaves rest p2 (waiting (plain ∷ rest) p) x (
              poll_one srtp_writer (interceptor_writer ∷ gateway_writer ∷ []) (some plain) none
                (waiting (plain ∷ rest) p) (waiting rest p1) (waiting rest p2) e1
                (srtp_refuses now ctx packet sid eid t t' rest p1 x l1 d)),
          l2,
        )
