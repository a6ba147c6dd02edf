-- ===== src/Gateway.antt =====
-- src/handlers/gateway.rs: the handler at the end of the pipeline, which answers binding requests,
-- negotiates over data channels, forwards media and drops idle transports.
pub mod Peers
pub mod Channel
pub mod Binding
pub mod Forward
pub mod Stun
pub mod Timeout
pub mod Sweep
pub mod Joining
use sfu.Prelude.{
  ℕ, ◌+◌, ◌-◌, Option, none, some, List, [], ◌∷◌, ◌++◌, map, if◌then◌else◌, nat_eq, list_eq, leb,
  ltb, flat_map,
}
use sfu.Prelude.HashMap.{HashMap}
use sfu.Prelude.Results.{Error, ok, err}
use sfu.Prelude.Actions.{Action, ◌>>=◌, ◌>>◌, pure, lift}
use sfu.Crates.{Crates}
use sfu.Types.{FourTuple, TransportContext, Instant, four_tuple, tuple_eq}
use sfu.Messages.{
  TaggedMessageEvent, MessageEvent, stun, dtls, rtp, StunMessageEvent, DtlsMessageEvent,
  RtpMessageEvent,
}
use sfu.Direction.{direction_eq}
use sfu.Endpoint
use sfu.Endpoint.{Endpoint, Transport}
use sfu.Endpoint.Credentials.{IceParameters}
use sfu.Session
use sfu.States
use sfu.States.{remove_transport, ServerStates, with_transport}
use sfu.Gateway.Peers.{get_other_media_transport_contexts}
use sfu.Gateway.Channel.{handle_dtls_message}
use sfu.Gateway.Binding.{handle_stun_message}

pub record Gateway (c : Crates) : Type 0 where
  pub states : ServerStates c
  pub transmits : List (TaggedMessageEvent c)
  pub next_timeout : Instant
  pub idle_timeout : ℕ

module _ {c : Crates} where
  -- GatewayHandler::new
  unfoldable pub new_gateway : Instant → ServerStates c → Gateway c
  new_gateway clock states = record {
    states = states;
    transmits = [];
    next_timeout = clock + states.server_config.idle_timeout;
    idle_timeout = states.server_config.idle_timeout;
  }

  -- `handle_rtp_message` and `handle_rtcp_message` differ in the event that they send on.
  unfoldable pub forward :
      Instant
      → Instant
      → TransportContext
      → RtpMessageEvent c
      → Action (ServerStates c) (List (TaggedMessageEvent c))
  unfolding with_transport get_other_media_transport_contexts
  forward clock now ctx event = do
    with_transport (four_tuple ctx) (Endpoint.keep_alive clock)
    peers ← λ s. lift (get_other_media_transport_contexts ctx s) s
    pure (map (λ t. record { now = now; transport = t; message = rtp event }) peers)

  -- `try_read` of `handle_read`: an event that the gateway does not know is dropped.
  unfoldable pub dispatch :
      IceParameters
      → Instant
      → Instant
      → TransportContext
      → MessageEvent c
      → Action (ServerStates c) (List (TaggedMessageEvent c))
  unfolding forward
  dispatch random clock now ctx (stun (StunMessageEvent.message m)) =
      handle_stun_message clock now ctx m
  dispatch random clock now ctx (dtls (DtlsMessageEvent.data_channel m)) =
      handle_dtls_message random clock now ctx m
  dispatch random clock now ctx (rtp (RtpMessageEvent.packet p)) =
      forward clock now ctx (RtpMessageEvent.packet p)
  dispatch random clock now ctx (rtp (RtpMessageEvent.rtcp ps)) =
      forward clock now ctx (RtpMessageEvent.rtcp ps)
  dispatch random clock now ctx _ = pure []

  -- The error is the exception that is fired, if one is.
  unfoldable pub handle_read :
      IceParameters → Instant → TaggedMessageEvent c → Gateway c → Option Error × Gateway c
  unfolding dispatch
  handle_read random clock msg self =
      let (r, states') = dispatch random clock msg.now msg.transport msg.message self.states in
      elim r [
        | ok messages ↦
            (none, record self { states = states'; transmits = self.transmits ++ messages })
        | err e ↦ (some e, record self { states = states' })
      ]

  unfoldable pub idle_in : Instant → HashMap FourTuple (Transport c) → List FourTuple
  idle_in limit = flat_map (λ t. if leb t.1.last_activity limit then t.1.four_tuple ∷ [] else [])

  -- The transports with no activity since `limit`.
  unfoldable pub idle_transports : Instant → ServerStates c → List FourTuple
  unfolding idle_in
  idle_transports limit self =
      flat_map (λ s. flat_map (λ e. idle_in limit e.1.transports) s.1.endpoints) self.sessions

  unfoldable pub remove_transports : List FourTuple → ServerStates c → ServerStates c
  remove_transports [] self = self
  remove_transports (ft ∷ fts) self = remove_transports fts (remove_transport ft self)

  -- `now.sub(idle_timeout)`: the clock stands far above the timeout, as the source takes it to.
  unfoldable pub handle_timeout : Instant → Gateway c → Gateway c
  unfolding idle_transports remove_transports
  handle_timeout now self =
      if leb self.next_timeout now
      then record self {
        states =
            remove_transports (idle_transports (now - self.idle_timeout) self.states) self.states;
        next_timeout = self.next_timeout + self.idle_timeout;
      }
      else self

  -- `poll_timeout`: the deadline that is asked of the timer.
  unfoldable pub poll_timeout : Gateway c → Instant → Instant
  poll_timeout self eto = if ltb self.next_timeout eto then self.next_timeout else eto

  -- `poll_write` on what the next handler has to write.
  unfoldable pub poll_write :
      Option (TaggedMessageEvent c) → Gateway c → Option (TaggedMessageEvent c) × Gateway c
  poll_write upstream self = elim queue [
    | [] ↦ (none, record self { transmits = [] })
    | msg ∷ rest ↦ (some msg, record self { transmits = rest })
  ]
    where
      queue : List (TaggedMessageEvent c)
      queue = elim upstream [ none ↦ self.transmits | some msg ↦ self.transmits ++ msg ∷ [] ]
