-- ===== src/Pipeline/Media.antt =====
-- The way of a media packet through all the handlers.
use sfu.Prelude.{ℕ, ◌≤◌, ◌≡◌, ◌∙◌, ◌↔◌, some, List, [], ◌∷◌, ◌++◌, In, nat_eq, In-map, In-map_inv}
use sfu.Prelude.Results.{ok}
use sfu.Crates.{Crates}
use sfu.Types.{TransportContext, SessionId, EndpointId, Instant, four_tuple, tuple_eq}
use sfu.Messages.{TaggedBytesMut, TaggedMessageEvent, rtp, RtpMessageEvent}
use sfu.Endpoint.{Transport, keep_alive}
use sfu.Endpoint.Credentials.{IceParameters}
use sfu.States.{ServerStates, update_endpoint, update_transport}
use sfu.States.Routes.{Leads}
use sfu.Gateway.Forward.{IsPeer}
use sfu.Gateway.Peers.{media_peers}
use sfu.Gateway.Forward.{sent, media_peers-IsPeer}
use sfu.Handlers.Srtp.{decrypted}
use sfu.Pipeline.{
  Pipeline, Handler, read, build_pipeline, stun_handler, dtls_handler, sctp_handler,
  data_channel_handler, srtp_handler, interceptor_handler, gateway_handler,
}
use sfu.Pipeline.Steps.{
  event, through_one, stun_passes, dtls_passes, sctp_passes, channel_passes, srtp_decrypts, read_by,
  interceptor_passes, gateway_sends, after_write, demuxes, update_endpoint-Leads_self,
}

module _ {c : Crates} where
  -- A datagram in the range of RTP that comes in on a routed transport, and is decrypted to a media
  -- packet, goes through all the handlers without an exception and in any amount of fuel: the
  -- gateway queues the packet, unchanged, for the transports of the other endpoints of the session that can
  -- encrypt, and for no other place; the other queues stay, and the transport stays on its route
  -- with its context moved on and its activity marked.
  pub media_reaches_peers :
      (fuel : ℕ) (random : IceParameters) (clock : Instant) (datagram : TaggedBytesMut) (b : ℕ)
      (buf : List ℕ) (packet : c.RtpPacket) (p : Pipeline c) (sid : SessionId) (eid : EndpointId)
      (t t' : Transport c) (l : Leads (four_tuple datagram.transport) p.states sid eid t)
      → datagram.message ≡ b ∷ buf
      → 128 ≤ b
      → b ≤ 191
      → decrypted datagram.message t ≡ (ok (RtpMessageEvent.packet packet), t')
      → (messages : List (TaggedMessageEvent c)) × (states : ServerStates c) × (read fuel random
            clock datagram p
          ≡ some (
            [],
            record p { states = states; gateway_transmits = p.gateway_transmits ++ messages },
          ))
        × ((m : TaggedMessageEvent c)
            → In m messages ↔ (
                (to : TransportContext) × IsPeer datagram.transport eid l.session to
                × (m ≡ record {
                  now = datagram.now;
                  transport = to;
                  message = rtp (RtpMessageEvent.packet packet);
                })))
        × Leads (four_tuple datagram.transport) states sid eid (keep_alive clock t')
  unfolding read build_pipeline
  media_reaches_peers fuel random clock datagram b buf packet p sid eid t t' l e low high d =
      let now = datagram.now in
      let ctx = datagram.transport in
      let raw = event now ctx (RtpMessageEvent.raw datagram.message) in
      let msg = event now ctx (RtpMessageEvent.packet packet) in
      let (l1, k1) = after_write now ctx p sid eid t t' l (λ _. t') in
      let p1 : Pipeline c = record p {
        states = update_transport sid eid (four_tuple ctx) (λ _. t') p.states;
      } in
      let (l2, k2) =
        update_endpoint-Leads_self ctx sid eid (read_by now ctx p1 sid eid t' t' l1 msg) p1.states
          t' t' l1 l1.in_endpoint in
      let p2 : Pipeline c = record p1 {
        states = update_endpoint sid eid (read_by now ctx p1 sid eid t' t' l1 msg) p1.states;
      } in
      let (l3, _) = after_write now ctx p2 sid eid t' t' l2 (keep_alive clock) in
      let peers = media_peers ctx eid l.session.endpoints in
      let last : List (Handler c) = gateway_handler random clock ∷ [] in
      let media : List (Handler c) = srtp_handler ∷ interceptor_handler ∷ last in
      let later : List (Handler c) = sctp_handler fuel ∷ data_channel_handler ∷ media in
      let end = rw (k2 ∙ k1) at (gateway_sends now ctx p2 sid eid t' t' l2 random clock packet) in
      (
        sent now (RtpMessageEvent.packet packet) peers,
        update_transport sid eid (four_tuple ctx) (keep_alive clock) p2.states,
        rw (read, demuxes datagram b buf e low high)
            (through_one stun_handler (dtls_handler ∷ later) raw raw p p _ (stun_passes now ctx p _)
              (through_one dtls_handler later raw raw p p _ (dtls_passes now ctx p _) (
                through_one (sctp_handler fuel) (data_channel_handler ∷ media) raw raw p p _
                  (sctp_passes now ctx p fuel _)
                  (through_one data_channel_handler media raw raw p p _ (channel_passes now ctx p _)
                    (through_one srtp_handler (interceptor_handler ∷ last) raw msg p p1 _
                      (srtp_decrypts now ctx p sid eid t t' l datagram.message packet d)
                      (through_one interceptor_handler last msg msg p1 p2 _
                        (interceptor_passes now ctx p1 sid eid t' t' l1 packet) end)))))),
        λ m. (
          λ i.
              let (to, q, x) = In-map_inv _ m peers i in
              (to, (media_peers-IsPeer ctx eid l.session to).0 q, x),
          λ (to, q, x). rw x (In-map _ to peers ((media_peers-IsPeer ctx eid l.session to).1 q)),
        ),
        l3,
      )
