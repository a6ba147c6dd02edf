-- ===== src/Pipeline/Writes.antt =====
-- What each handler writes of a media packet and the bytes that it is encrypted to.
use sfu.Prelude.{ℕ, Option, none, ◌≡◌, refl, some, List, [], ◌∷◌, ◌++◌}
use sfu.Prelude.Results.{Result, Error, ok, err}
use sfu.Crates.{Crates}
use sfu.Types.{TransportContext, SessionId, EndpointId, Instant, four_tuple, tuple_eq}
use sfu.Messages.{TaggedMessageEvent, RtpMessageEvent}
use sfu.Endpoint.{Transport, Endpoint}
use sfu.States.{ServerStates, update_endpoint, update_transport}
use sfu.States.Routes.{Leads, get_transport_of_Leads, get_endpoint_of_Leads}
use sfu.Interceptor.Chain
use sfu.Interceptor.Forwarding.{write_silent}
use sfu.Gateway
use sfu.Handlers.Stun
use sfu.Handlers.Dtls
use sfu.Handlers.Sctp
use sfu.Handlers.DataChannel
use sfu.Handlers.Srtp
use sfu.Handlers.Srtp.{encrypted, on_transport}
use sfu.Handlers.Interceptors
use sfu.Handlers.Interceptors.{on_interceptor}
use sfu.Pipeline.{Pipeline}
use sfu.Pipeline.Steps.{event}
use sfu.Pipeline.Out.{
  Writer, poll_through, stun_writer, dtls_writer, sctp_writer, data_channel_writer, srtp_writer,
  interceptor_writer, gateway_writer,
}

module _ {c : Crates} where
  -- The pipeline in which only the gateway has messages to send.
  abbrev pub waiting : List (TaggedMessageEvent c) → Pipeline c → Pipeline c
  waiting messages p = record p {
    dtls_transmits = [];
    sctp_transmits = [];
    channel_transmits = [];
    interceptor_transmits = [];
    gateway_transmits = messages;
  }

  -- A handler on what the handler after it gives.
  pub poll_one :
      {es fs : List Error} (writer : Writer c) (ws : List (Writer c))
      (upstream front : Option (TaggedMessageEvent c)) (p q r : Pipeline c)
      → poll_through ws p ≡ (upstream, es, q)
      → writer upstream q ≡ (front, fs, r)
      → poll_through (writer ∷ ws) p ≡ (front, es ++ fs, r)
  unfolding poll_through
  poll_one writer ws upstream front p q r e k = rw (poll_through, e, k) refl

  module _ (now : Instant) (ctx : TransportContext) (packet : c.RtpPacket) (sid : SessionId)
      (eid : EndpointId) (t t' : Transport c) where
    abbrev pub msg : TaggedMessageEvent c
    msg = event now ctx (RtpMessageEvent.packet packet)

    abbrev pub written_by :
        (s : ServerStates c) → Leads (four_tuple ctx) s sid eid t → Endpoint c → Endpoint c
    written_by s l e = record e { interceptor = l.endpoint.interceptor }

    -- The chain of the endpoint has nothing to add to the packet.
    interceptor_silent :
        (s : ServerStates c) (l : Leads (four_tuple ctx) s sid eid t)
        → on_interceptor (Chain.write msg) (four_tuple ctx) s
          ≡ (ok [], update_endpoint sid eid (written_by s l) s)
    unfolding on_interceptor
    interceptor_silent s l =
        rw
          (
            on_interceptor,
            get_endpoint_of_Leads (four_tuple ctx) s sid eid t l,
            write_silent msg l.endpoint.interceptor,
          )
          refl

    encrypts :
        (s : ServerStates c) (r : Result (List ℕ))
        → Leads (four_tuple ctx) s sid eid t
        → encrypted (RtpMessageEvent.packet packet) t ≡ (r, t')
        → on_transport (four_tuple ctx) (encrypted (RtpMessageEvent.packet packet)) s
          ≡ (r, update_transport sid eid (four_tuple ctx) (λ _. t') s)
    unfolding on_transport
    encrypts s r l d =
        rw (on_transport, get_transport_of_Leads (four_tuple ctx) s sid eid t l, d) refl

    pub gateway_pops :
        (rest : List (TaggedMessageEvent c)) (p : Pipeline c)
        → poll_through (gateway_writer ∷ []) (waiting (msg ∷ rest) p)
          ≡ (some msg, [], waiting rest p)
    unfolding poll_through gateway_writer Gateway.poll_write
    gateway_pops rest p = refl

    pub interceptor_writes :
        (rest : List (TaggedMessageEvent c)) (p : Pipeline c)
        (l : Leads (four_tuple ctx) p.states sid eid t)
        → interceptor_writer (some msg) (waiting rest p) ≡ (
          some msg,
          [],
          waiting rest
              (record p { states = update_endpoint sid eid (written_by p.states l) p.states }),
        )
    unfolding interceptor_writer Interceptors.poll_write Interceptors.queue_upstream
        Interceptors.write_media Interceptors.is_media Interceptors.outbounds Interceptors.errors
        DataChannel.pop_front
    interceptor_writes rest p l =
        let k = interceptor_silent p.states l in
        rw
          (
            interceptor_writer, Interceptors.poll_write, Interceptors.queue_upstream,
            Interceptors.write_media, k, k,
          )
          refl

    pub srtp_encrypts :
        (rest : List (TaggedMessageEvent c)) (p : Pipeline c) (bytes : List ℕ)
        → Leads (four_tuple ctx) p.states sid eid t
        → encrypted (RtpMessageEvent.packet packet) t ≡ (ok bytes, t')
        → srtp_writer (some msg) (waiting rest p) ≡ (
          some (event now ctx (RtpMessageEvent.raw bytes)),
          [],
          waiting rest
              (record p { states = update_transport sid eid (four_tuple ctx) (λ _. t') p.states }),
        )
    unfolding srtp_writer Srtp.poll_write
    srtp_encrypts rest p bytes l d =
        let k = encrypts p.states (ok bytes) l d in rw (srtp_writer, Srtp.poll_write, k, k) refl

    pub srtp_refuses :
        (rest : List (TaggedMessageEvent c)) (p : Pipeline c) (x : Error)
        → Leads (four_tuple ctx) p.states sid eid t
        → encrypted (RtpMessageEvent.packet packet) t ≡ (err x, t')
        → srtp_writer (some msg) (waiting rest p) ≡ (
          none,
          x ∷ [],
          waiting rest
              (record p { states = update_transport sid eid (four_tuple ctx) (λ _. t') p.states }),
        )
    unfolding srtp_writer Srtp.poll_write
    srtp_refuses rest p x l d =
        let k = encrypts p.states (err x) l d in rw (srtp_writer, Srtp.poll_write, k, k) refl

  module _ (now : Instant) (ctx : TransportContext) (rest : List (TaggedMessageEvent c))
      (p : Pipeline c) (bytes : List ℕ) where
    abbrev pub raw : TaggedMessageEvent c
    raw = event now ctx (RtpMessageEvent.raw bytes)

    -- The handlers before that of SRTP write the bytes as they are.
    pub channel_hands :
        data_channel_writer (some raw) (waiting rest p) ≡ (some raw, [], waiting rest p)
    unfolding data_channel_writer DataChannel.poll_write DataChannel.written DataChannel.pop_front
    channel_hands = refl

    pub sctp_hands : sctp_writer (some raw) (waiting rest p) ≡ (some raw, [], waiting rest p)
    unfolding sctp_writer Sctp.poll_write Sctp.queue_upstream DataChannel.pop_front
    sctp_hands = refl

    pub dtls_hands : dtls_writer (some raw) (waiting rest p) ≡ (some raw, [], waiting rest p)
    unfolding dtls_writer Dtls.poll_write Dtls.queue_upstream DataChannel.pop_front
    dtls_hands = refl

    pub stun_hands : stun_writer (some raw) (waiting rest p) ≡ (some raw, [], waiting rest p)
    unfolding stun_writer Stun.poll_write
    stun_hands = refl

  module _ (rest : List (TaggedMessageEvent c)) (p : Pipeline c) where
    pub channel_idle : data_channel_writer none (waiting rest p) ≡ (none, [], waiting rest p)
    unfolding data_channel_writer DataChannel.poll_write DataChannel.pop_front
    channel_idle = refl

    pub sctp_idle : sctp_writer none (waiting rest p) ≡ (none, [], waiting rest p)
    unfolding sctp_writer Sctp.poll_write Sctp.queue_upstream DataChannel.pop_front
    sctp_idle = refl

    pub dtls_idle : dtls_writer none (waiting rest p) ≡ (none, [], waiting rest p)
    unfolding dtls_writer Dtls.poll_write Dtls.queue_upstream DataChannel.pop_front
    dtls_idle = refl

    pub stun_idle : stun_writer none (waiting rest p) ≡ (none, [], waiting rest p)
    unfolding stun_writer Stun.poll_write
    stun_idle = refl
