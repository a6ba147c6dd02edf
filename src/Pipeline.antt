-- ===== src/Pipeline.antt =====
-- The order of the handlers, which `build_pipeline` of examples/sync_signal/mod.rs sets, over the states that
-- they share. What a handler fires goes to the handler after it, as the crate retty has it.
pub mod Steps
pub mod Media
pub mod Out
pub mod Writes
pub mod Sent
use sfu.Prelude.{ℕ, Option, none, some, List, [], ◌∷◌, ◌++◌}
use sfu.Prelude.Results.{Error}
use sfu.Crates.{Crates}
use sfu.Types.{SocketAddr, Instant}
use sfu.Messages.{TaggedBytesMut, TaggedMessageEvent}
use sfu.Endpoint.Credentials.{IceParameters}
use sfu.States.{ServerStates}
use sfu.Demuxer
use sfu.Gateway
use sfu.Handlers.Stun
use sfu.Handlers.Stun.{Fired}
use sfu.Handlers.Dtls
use sfu.Handlers.Sctp.Read
use sfu.Handlers.DataChannel
use sfu.Handlers.Srtp
use sfu.Handlers.Interceptors

-- The shared states, and what each handler keeps beside them.
pub record Pipeline (c : Crates) : Type 0 where
  pub local_addr : SocketAddr
  pub states : ServerStates c
  pub dtls_transmits : List (TaggedMessageEvent c)
  pub internal_buffer : List ℕ
  pub sctp_transmits : List (TaggedMessageEvent c)
  pub channel_transmits : List (TaggedMessageEvent c)
  pub interceptor_transmits : List (TaggedMessageEvent c)
  pub gateway_transmits : List (TaggedMessageEvent c)
  pub next_timeout : Instant
  pub idle_timeout : ℕ

-- `handle_read` of a handler; `none` is a run of the SCTP handler that lacks fuel.
abbrev pub Handler : Crates → Type 0
Handler c = TaggedMessageEvent c → Pipeline c → Option (Fired c × Pipeline c)

abbrev exceptions_of : Option Error → List Error
exceptions_of none = []
exceptions_of (some e) = e ∷ []

module _ {c : Crates} where
  unfoldable pub stun_handler : Handler c
  unfolding Stun.handle_read
  stun_handler msg p = some (Stun.handle_read msg, p)

  unfoldable pub dtls_handler : Handler c
  unfolding Dtls.handle_read
  dtls_handler msg p =
      let (fired, h) =
        Dtls.handle_read msg
          (record { local_addr = p.local_addr; states = p.states; transmits = p.dtls_transmits }) in
      some (fired, record p { states = h.states; dtls_transmits = h.transmits })

  unfoldable pub sctp_handler : ℕ → Handler c
  unfolding Read.handle_read
  sctp_handler fuel msg p =
      elim (Read.handle_read fuel msg (record {
        local_addr = p.local_addr;
        states = p.states;
        internal_buffer = p.internal_buffer;
        transmits = p.sctp_transmits;
      })) [
        | none ↦ none
        | some (fired, h) ↦
            some (fired, record p { states = h.states; sctp_transmits = h.transmits })
      ]

  unfoldable pub data_channel_handler : Handler c
  unfolding DataChannel.handle_read
  data_channel_handler msg p =
      let (fired, h) = DataChannel.handle_read msg (record { transmits = p.channel_transmits }) in
      some (fired, record p { channel_transmits = h.transmits })

  unfoldable pub srtp_handler : Handler c
  unfolding Srtp.handle_read
  srtp_handler msg p =
      let (fired, states) = Srtp.handle_read msg p.states in
      some (fired, record p { states = states })

  unfoldable pub interceptor_handler : Handler c
  unfolding Interceptors.handle_read
  interceptor_handler msg p =
      let (fired, h) =
        Interceptors.handle_read msg
          (record { states = p.states; transmits = p.interceptor_transmits }) in
      some (fired, record p { states = h.states; interceptor_transmits = h.transmits })

  unfoldable pub gateway_handler : IceParameters → Instant → Handler c
  unfolding Gateway.handle_read
  gateway_handler random clock msg p =
      let (e, g) = Gateway.handle_read random clock msg (record {
        states = p.states;
        transmits = p.gateway_transmits;
        next_timeout = p.next_timeout;
        idle_timeout = p.idle_timeout;
      }) in
      some (
        record { reads = []; exceptions = exceptions_of e },
        record p { states = g.states; gateway_transmits = g.transmits },
      )

  -- The handlers behind the demultiplexer, in the order of `build_pipeline`. The last one, which takes the
  -- exceptions, is given no message.
  unfoldable pub build_pipeline : ℕ → IceParameters → Instant → List (Handler c)
  unfolding stun_handler dtls_handler sctp_handler data_channel_handler srtp_handler
      interceptor_handler gateway_handler
  build_pipeline fuel random clock =
      stun_handler
      ∷ dtls_handler
      ∷ sctp_handler fuel
      ∷ data_channel_handler
      ∷ srtp_handler
      ∷ interceptor_handler
      ∷ gateway_handler random clock
      ∷ []

  -- The messages that a handler fires, one after another, through what follows.
  unfoldable pub hand_on :
      (TaggedMessageEvent c → Pipeline c → Option (List Error × Pipeline c))
      → List (TaggedMessageEvent c)
      → Pipeline c
      → Option (List Error × Pipeline c)
  hand_on next [] p = some ([], p)
  hand_on next (m ∷ ms) p = elim (next m p) [
    | none ↦ none
    | some (es, q) ↦ elim (hand_on next ms q) [ none ↦ none | some (fs, r) ↦ some (es ++ fs, r) ]
  ]

  -- The exceptions that are fired on the way, and the pipeline afterwards.
  unfoldable pub through :
      List (Handler c) → TaggedMessageEvent c → Pipeline c → Option (List Error × Pipeline c)
  unfolding hand_on
  through [] msg p = some ([], p)
  through (handler ∷ handlers) msg p = elim (handler msg p) [
    | none ↦ none
    | some (fired, q) ↦ elim (hand_on (through handlers) fired.reads q) [
      | none ↦ none
      | some (es, r) ↦ some (fired.exceptions ++ es, r)
    ]
  ]

  -- A datagram that comes in.
  unfoldable pub read :
      ℕ → IceParameters → Instant → TaggedBytesMut → Pipeline c → Option (List Error × Pipeline c)
  unfolding build_pipeline through Demuxer.handle_read
  read fuel random clock datagram p = elim (Demuxer.handle_read {c = c} datagram) [
    | none ↦ some ([], p)
    | some msg ↦ through (build_pipeline fuel random clock) msg p
  ]
