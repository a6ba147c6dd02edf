-- ===== src/Pipeline/Steps.antt =====
-- What each handler does with a media packet and the datagram that it comes in.
use sfu.Prelude.{ℕ, ◌≤◌, ◌≡◌, refl, ap, some, List, [], ◌∷◌, ◌++◌, arith, nat_eq, append_nil}
use sfu.Prelude.HashMap.{get, adjust, get-adjust_found}
use sfu.Prelude.Results.{ok}
use sfu.Crates.{Crates}
use sfu.Types.{TransportContext, SessionId, EndpointId, Instant, four_tuple, tuple_eq}
use sfu.Messages.{TaggedBytesMut, TaggedMessageEvent, rtp, RtpMessageEvent}
use sfu.Endpoint.{Endpoint, Transport, keep_alive}
use sfu.Endpoint.Credentials.{IceParameters}
use sfu.States.{ServerStates, update_endpoint, update_transport}
use sfu.Interceptor.Chain
use sfu.Handlers.Reports.{read_nothing}
use sfu.States.Routes.{Leads, get_transport_of_Leads, get_endpoint_of_Leads}
use sfu.Demuxer
use sfu.Gateway
use sfu.Gateway.Peers.{media_peers}
use sfu.Handlers.Stun.{fire_read}
use sfu.Handlers.Srtp
use sfu.Handlers.Stun
use sfu.Handlers.Dtls
use sfu.Handlers.Sctp.Read
use sfu.Handlers.DataChannel
use sfu.Gateway.Forward.{media_peers-adjust, forward_ok, sent}
use sfu.Handlers.Srtp.{decrypted, on_transport}
use sfu.Handlers.Interceptors
use sfu.Handlers.Interceptors.{on_interceptor}
use sfu.Pipeline.{
  Pipeline, Handler, through, hand_on, stun_handler, dtls_handler, sctp_handler,
  data_channel_handler, srtp_handler, interceptor_handler, gateway_handler,
}

module _ {c : Crates} where
  -- A handler that fires one message.
  pub through_one :
      (handler : Handler c) (handlers : List (Handler c)) (msg out : TaggedMessageEvent c)
      (p q r : Pipeline c)
      → handler msg p ≡ some (fire_read out, q)
      → through handlers out q ≡ some ([], r)
      → through (handler ∷ handlers) msg p ≡ some ([], r)
  unfolding through hand_on
  through_one handler handlers msg out p q r e k = rw (through, e, hand_on, k) refl

  -- The route after a write to its endpoint that sets the transport, with the peers that it has.
  pub update_endpoint-Leads_self :
      (ctx : TransportContext) (sid : SessionId) (eid : EndpointId) (f : Endpoint c → Endpoint c)
      (s : ServerStates c) (t t' : Transport c) (l : Leads (four_tuple ctx) s sid eid t)
      → get (four_tuple ctx) (f l.endpoint).transports ≡ some t'
      → (l' : Leads (four_tuple ctx) (update_endpoint sid eid f s) sid eid t') × (media_peers ctx
            eid l'.session.endpoints
          ≡ media_peers ctx eid l.session.endpoints)
  unfolding update_endpoint
  update_endpoint-Leads_self ctx sid eid f s t t' l h = (
    record {
      session = record l.session { endpoints = adjust eid f l.session.endpoints };
      endpoint = f l.endpoint;
      routed = l.routed;
      in_sessions = get-adjust_found sid _ s.sessions l.in_sessions;
      in_session = get-adjust_found eid f l.session.endpoints l.in_session;
      in_endpoint = h;
    },
    media_peers-adjust ctx eid f l.session.endpoints,
  )

  abbrev pub event : Instant → TransportContext → RtpMessageEvent c → TaggedMessageEvent c
  event now ctx m = record { now = now; transport = ctx; message = rtp m }

  module _ (now : Instant) (ctx : TransportContext) (p : Pipeline c) where
    pub stun_passes :
        (m : RtpMessageEvent c)
        → stun_handler (event now ctx m) p ≡ some (fire_read (event now ctx m), p)
    unfolding stun_handler Stun.handle_read
    stun_passes m = refl

    pub dtls_passes :
        (m : RtpMessageEvent c)
        → dtls_handler (event now ctx m) p ≡ some (fire_read (event now ctx m), p)
    unfolding dtls_handler Dtls.handle_read
    dtls_passes m = refl

    pub sctp_passes :
        (fuel : ℕ) (m : RtpMessageEvent c)
        → sctp_handler fuel (event now ctx m) p ≡ some (fire_read (event now ctx m), p)
    unfolding sctp_handler Read.handle_read
    sctp_passes fuel m = refl

    pub channel_passes :
        (m : RtpMessageEvent c)
        → data_channel_handler (event now ctx m) p ≡ some (fire_read (event now ctx m), p)
    unfolding data_channel_handler DataChannel.handle_read
    channel_passes m = refl

    module _ (sid : SessionId) (eid : EndpointId) (t t' : Transport c)
        (l : Leads (four_tuple ctx) p.states sid eid t) where
      decrypts :
          (bytes : List ℕ) (m : RtpMessageEvent c)
          → decrypted bytes t ≡ (ok m, t')
          → on_transport (four_tuple ctx) (decrypted bytes) p.states
            ≡ (ok m, update_transport sid eid (four_tuple ctx) (λ _. t') p.states)
      unfolding on_transport
      decrypts bytes m d =
          rw (on_transport, get_transport_of_Leads (four_tuple ctx) p.states sid eid t l, d) refl

      pub srtp_decrypts :
          (bytes : List ℕ) (packet : c.RtpPacket)
          → decrypted bytes t ≡ (ok (RtpMessageEvent.packet packet), t')
          → srtp_handler (event now ctx (RtpMessageEvent.raw bytes)) p
            ≡ some (
              fire_read (event now ctx (RtpMessageEvent.packet packet)),
              record p { states = update_transport sid eid (four_tuple ctx) (λ _. t') p.states },
            )
      unfolding srtp_handler Srtp.handle_read
      srtp_decrypts bytes packet d =
          let k = decrypts bytes (RtpMessageEvent.packet packet) d in
          rw (srtp_handler, Srtp.handle_read, k, k) refl

      abbrev pub read_by : TaggedMessageEvent c → Endpoint c → Endpoint c
      read_by msg e = record e { interceptor = (Chain.read msg l.endpoint.interceptor).1 }

      reads_nothing :
          (packet : c.RtpPacket)
          → on_interceptor
              (Chain.read (event now ctx (RtpMessageEvent.packet packet)))
              (four_tuple ctx)
              p.states
            ≡ (
              ok [],
              update_endpoint sid eid
                  (read_by (event now ctx (RtpMessageEvent.packet packet)))
                  p.states,
            )
      unfolding on_interceptor Chain.forwarded
      reads_nothing packet =
          rw
            (
              on_interceptor,
              get_endpoint_of_Leads (four_tuple ctx) p.states sid eid t l,
              read_nothing (event now ctx (RtpMessageEvent.packet packet)) l.endpoint.interceptor
                  refl,
            )
            refl

      pub interceptor_passes :
          (packet : c.RtpPacket)
          → interceptor_handler (event now ctx (RtpMessageEvent.packet packet)) p
            ≡ some (
              fire_read (event now ctx (RtpMessageEvent.packet packet)),
              record p {
                states =
                    update_endpoint sid eid
                      (read_by (event now ctx (RtpMessageEvent.packet packet)))
                      p.states;
              },
            )
      unfolding interceptor_handler Interceptors.handle_read Interceptors.read_media
          Interceptors.is_media Interceptors.is_rtcp Interceptors.inbounds Interceptors.outbounds
          Interceptors.errors
      interceptor_passes packet =
          let k = reads_nothing packet in
          rw (interceptor_handler, Interceptors.handle_read, Interceptors.read_media, k, k)
            (ap
              (λ xs. some (
                fire_read (event now ctx (RtpMessageEvent.packet packet)),
                record p {
                  states =
                      update_endpoint sid eid
                        (read_by (event now ctx (RtpMessageEvent.packet packet))) p.states;
                  interceptor_transmits = xs;
                },
              ))
              (append_nil p.interceptor_transmits))

      pub gateway_sends :
          (random : IceParameters) (clock : Instant) (packet : c.RtpPacket)
          → through
              (gateway_handler random clock ∷ [])
              (event now ctx (RtpMessageEvent.packet packet))
              p
            ≡ some (
              [],
              record p {
                states = update_transport sid eid (four_tuple ctx) (keep_alive clock) p.states;
                gateway_transmits =
                    p.gateway_transmits
                    ++ sent now
                        (RtpMessageEvent.packet packet)
                        (media_peers ctx eid l.session.endpoints);
              },
            )
      unfolding through hand_on gateway_handler Gateway.handle_read Gateway.dispatch
      gateway_sends random clock packet =
          let k = forward_ok clock now ctx (RtpMessageEvent.packet packet) p.states sid eid t l in
          rw (through, gateway_handler, Gateway.handle_read, Gateway.dispatch, k, k) refl

      -- The route after a write to the transport.
      pub after_write :
          (f : Transport c → Transport c)
          → (l' : Leads
              (four_tuple ctx)
              (update_transport sid eid (four_tuple ctx) f p.states)
              sid
              eid
              (f t))
            × (media_peers ctx eid l'.session.endpoints ≡ media_peers ctx eid l.session.endpoints)
      unfolding update_transport
      after_write f =
          update_endpoint-Leads_self ctx sid eid _ p.states t (f t) l
            (get-adjust_found (four_tuple ctx) f l.endpoint.transports l.in_endpoint)

  pub demuxes :
      (datagram : TaggedBytesMut) (b : ℕ) (buf : List ℕ)
      → datagram.message ≡ b ∷ buf
      → 128 ≤ b
      → b ≤ 191
      → Demuxer.handle_read {c = c} datagram
        ≡ some (event datagram.now datagram.transport (RtpMessageEvent.raw datagram.message))
  unfolding Demuxer.handle_read Demuxer.match_dtls Demuxer.match_srtp Demuxer.match_range
  demuxes datagram b buf e low high = ground (arith, e)
