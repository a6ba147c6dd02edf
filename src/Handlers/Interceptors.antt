-- ===== src/Handlers/Interceptors.antt =====
-- src/handlers/interceptor.rs: every media message goes past the chain of interceptors of its endpoint;
-- RTCP ends here, but for what the chain passes on.
use sfu.Prelude.{
  Bool, true, false, Option, none, some, List, [], ◌∷◌, ◌++◌, map, flat_map, if◌then◌else◌, nat_eq,
}
use sfu.Prelude.HashMap.{HashMap, keys}
use sfu.Prelude.Results.{Result, Error, ok, err}
use sfu.Crates.{Crates}
use sfu.Types.{FourTuple, four_tuple, SessionId, EndpointId, Instant}
use sfu.Messages.{TaggedMessageEvent, MessageEvent, rtp, RtpMessageEvent}
use sfu.Interceptor.{Interceptor}
use sfu.Interceptor.Chain
use sfu.Interceptor.Chain.{InterceptorEvent}
use sfu.Endpoint.{Endpoint}
use sfu.Session.{Session}
use sfu.States.{ServerStates, get_endpoint, update_endpoint}
use sfu.Handlers.Stun.{Fired, fire_read, fire_exception}
use sfu.Handlers.DataChannel.{pop_front}

pub record InterceptorHandler (c : Crates) : Type 0 where
  pub states : ServerStates c
  pub transmits : List (TaggedMessageEvent c)

module _ {c : Crates} where
  unfoldable pub is_media : MessageEvent c → Bool
  is_media (rtp (RtpMessageEvent.packet p)) = true
  is_media (rtp (RtpMessageEvent.rtcp ps)) = true
  is_media m = false

  unfoldable pub is_rtcp : MessageEvent c → Bool
  is_rtcp (rtp (RtpMessageEvent.rtcp ps)) = true
  is_rtcp m = false

  unfoldable pub inbounds : List (InterceptorEvent c) → List (TaggedMessageEvent c)
  inbounds = flat_map λ e. elim e [ InterceptorEvent.inbound m ↦ m ∷ [] | _ ↦ [] ]

  unfoldable pub outbounds : List (InterceptorEvent c) → List (TaggedMessageEvent c)
  outbounds = flat_map λ e. elim e [ InterceptorEvent.outbound m ↦ m ∷ [] | _ ↦ [] ]

  unfoldable pub errors : List (InterceptorEvent c) → List Error
  errors = flat_map λ e. elim e [ InterceptorEvent.error x ↦ x ∷ [] | _ ↦ [] ]

  -- `get_mut_endpoint(&four_tuple)?` and a call of its interceptor.
  unfoldable pub on_interceptor :
      (Interceptor c → List (InterceptorEvent c) × Interceptor c)
      → FourTuple
      → ServerStates c
      → Result (List (InterceptorEvent c)) × ServerStates c
  on_interceptor call key self = elim (get_endpoint key self) [
    | err e ↦ (err e, self)
    | ok (sid, eid, endpoint) ↦ (
      ok (call endpoint.interceptor).0,
      update_endpoint sid eid (λ e. record e { interceptor = (call endpoint.interceptor).1 }) self,
    )
  ]

  -- The part of `handle_read` for media messages; inbound messages come before the message itself.
  unfoldable pub read_media :
      TaggedMessageEvent c → InterceptorHandler c → Fired c × InterceptorHandler c
  unfolding on_interceptor inbounds outbounds errors
  read_media msg self =
      let (r, states') = on_interceptor (Chain.read msg) (four_tuple msg.transport) self.states in
      elim r [
        | ok events ↦ (
          record { reads = inbounds events; exceptions = errors events },
          record { states = states'; transmits = self.transmits ++ outbounds events },
        )
        | err e ↦ (fire_exception c e, record self { states = states' })
      ]

  unfoldable pub handle_read :
      TaggedMessageEvent c → InterceptorHandler c → Fired c × InterceptorHandler c
  unfolding read_media is_media is_rtcp
  handle_read msg self =
      if is_media msg.message
      then (let (fired, self') = read_media msg self in
          if is_rtcp msg.message
          then (fired, self')
          else (record fired { reads = fired.reads ++ msg ∷ [] }, self'))
      else (fire_read msg, self)

  -- The chains of all endpoints, with what they have to send.
  unfoldable pub timed_endpoint : Instant → Endpoint c → List (InterceptorEvent c) × Endpoint c
  timed_endpoint now endpoint =
      let (events, chain) =
        Chain.handle_timeout now (keys endpoint.transports) endpoint.interceptor in
      (events, record endpoint { interceptor = chain })

  unfoldable pub timed_session : Instant → Session c → List (InterceptorEvent c) × Session c
  unfolding timed_endpoint
  timed_session now session = (
    flat_map (λ e. (timed_endpoint now e.1).0) session.endpoints,
    record session { endpoints = map (λ e. (e.0, (timed_endpoint now e.1).1)) session.endpoints },
  )

  -- `handle_timeout`: an inbound message has no place here and is dropped.
  unfoldable pub handle_timeout : Instant → InterceptorHandler c → List Error × InterceptorHandler c
  unfolding timed_session outbounds errors
  handle_timeout now self =
      let events = flat_map (λ s. (timed_session now s.1).0) self.states.sessions in
      (
        errors events,
        record {
          states = record self.states {
            sessions = map (λ s. (s.0, (timed_session now s.1).1)) self.states.sessions;
          };
          transmits = self.transmits ++ outbounds events;
        },
      )

  unfoldable pub poll_endpoints : HashMap EndpointId (Endpoint c) → Instant → Instant
  poll_endpoints [] eto = eto
  poll_endpoints (e ∷ es) eto = poll_endpoints es (Chain.poll_timeout e.1.interceptor eto)

  unfoldable pub poll_sessions : HashMap SessionId (Session c) → Instant → Instant
  unfolding poll_endpoints
  poll_sessions [] eto = eto
  poll_sessions (s ∷ ss) eto = poll_sessions ss (poll_endpoints s.1.endpoints eto)

  unfoldable pub poll_timeout : InterceptorHandler c → Instant → Instant
  unfolding poll_sessions
  poll_timeout self eto = poll_sessions self.states.sessions eto

  -- What the chain has to send when `msg` is written, and the errors.
  unfoldable pub write_media :
      TaggedMessageEvent c → InterceptorHandler c → List Error × InterceptorHandler c
  unfolding on_interceptor outbounds errors
  write_media msg self =
      let (r, states') = on_interceptor (Chain.write msg) (four_tuple msg.transport) self.states in
      elim r [
        | ok events ↦ (
          errors events,
          record { states = states'; transmits = self.transmits ++ outbounds events },
        )
        | err e ↦ (e ∷ [], record self { states = states' })
      ]

  unfoldable pub queue_upstream :
      Option (TaggedMessageEvent c) → InterceptorHandler c → List Error × InterceptorHandler c
  unfolding write_media is_media
  queue_upstream none self = ([], self)
  queue_upstream (some msg) self =
      let (es, self') = if is_media msg.message then write_media msg self else ([], self) in
      (es, record self' { transmits = self'.transmits ++ msg ∷ [] })

  unfoldable pub poll_write :
      Option (TaggedMessageEvent c)
      → InterceptorHandler c
      → Option (TaggedMessageEvent c) × List Error × InterceptorHandler c
  unfolding queue_upstream pop_front
  poll_write upstream self =
      let (es, self') = queue_upstream upstream self in
      let (front, rest) = pop_front self'.transmits in
      (front, es, record self' { transmits = rest })
