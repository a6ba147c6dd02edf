-- ===== src/Handlers/Sctp.antt =====
-- src/handlers/sctp.rs: messages of data channels are written to the SCTP association that they name, and
-- what the associations of a transport have to send waits in the queue of the handler.
use sfu.Prelude.{
  ℕ, Option, none, some, List, [], ◌∷◌, ◌++◌, map, flat_map, if◌then◌else◌, nat_eq, ltb, length,
}
use sfu.Prelude.HashMap.{HashMap, get, adjust, remove}
use sfu.Prelude.Results.{Result, Error, ok, err, outbound_packet_too_large, association_not_existed}
use sfu.Crates.{Crates, PayloadProtocolIdentifier, SctpTransmit, raw_encode, partial_decode}
use sfu.Types.{FourTuple, SocketAddr, Instant, SessionId, EndpointId, four_tuple}
use sfu.Messages.{
  TaggedMessageEvent, dtls, DtlsMessageEvent, DataChannelMessage, DataChannelMessageType,
  DataChannelMessageParams,
}
use sfu.Endpoint.{Endpoint, Transport}
use sfu.Session.{Session}
use sfu.States.{ServerStates}
use sfu.Handlers.DataChannel.{pop_front}
use sfu.Handlers.Srtp.{on_transport}
pub mod Read
pub mod Ends
pub mod Delivery

pub record SctpHandler (c : Crates) : Type 0 where
  pub local_addr : SocketAddr
  pub states : ServerStates c
  pub internal_buffer : List ℕ
  pub transmits : List (TaggedMessageEvent c)

abbrev pub single : SctpTransmit → List ℕ → SctpTransmit
single transmit content = record transmit { payload = raw_encode (content ∷ []) }

unfoldable pub split_transmit : SctpTransmit → List SctpTransmit
split_transmit transmit = elim transmit.payload [
  | raw_encode contents ↦ map (single transmit) contents
  | partial_decode ↦ []
]

unfoldable pub to_data_message_type : PayloadProtocolIdentifier → DataChannelMessageType
to_data_message_type PayloadProtocolIdentifier.dcep = DataChannelMessageType.control
to_data_message_type PayloadProtocolIdentifier.string = DataChannelMessageType.text
to_data_message_type PayloadProtocolIdentifier.string_empty = DataChannelMessageType.text
to_data_message_type PayloadProtocolIdentifier.binary = DataChannelMessageType.binary
to_data_message_type PayloadProtocolIdentifier.binary_empty = DataChannelMessageType.binary
to_data_message_type PayloadProtocolIdentifier.unknown = DataChannelMessageType.untyped

unfoldable pub to_ppid : DataChannelMessageType → ℕ → PayloadProtocolIdentifier
to_ppid DataChannelMessageType.text length =
    if ltb 0 length
    then PayloadProtocolIdentifier.string
    else PayloadProtocolIdentifier.string_empty
to_ppid DataChannelMessageType.binary length =
    if ltb 0 length
    then PayloadProtocolIdentifier.binary
    else PayloadProtocolIdentifier.binary_empty
to_ppid _ length = PayloadProtocolIdentifier.dcep

unfoldable pub set_params :
    (c : Crates)
    → ℕ
    → Option DataChannelMessageParams
    → c.Association
    → Result (Unit {0}) × c.Association
set_params c id none conn = (ok tt, conn)
set_params c id (some p) conn =
    c.set_reliability_params id p.unordered p.reliability_type p.reliability_parameter conn

-- The write to the stream of a message; the first error ends it.
unfoldable pub write_stream :
    (c : Crates) → DataChannelMessage → c.Association → Result (Unit {0}) × c.Association
unfolding set_params to_ppid
write_stream c m conn =
    let (r, opened) = c.open_stream m.stream_id conn in
    elim r [
      | err e ↦ (err e, opened)
      | ok _ ↦
          let (q, set) = set_params c m.stream_id m.params opened in
          elim q [
            | err e ↦ (err e, set)
            | ok _ ↦
                c.write_with_ppi m.stream_id m.payload
                  (to_ppid m.data_message_type (length m.payload)) set
          ]
    ]

-- The associations of a transport after a time-out, what they send and their events for the endpoint.
unfoldable pub timed_associations :
    (c : Crates)
    → Instant
    → HashMap ℕ c.Association
    → List SctpTransmit × List (ℕ × c.SctpEndpointEvent) × HashMap ℕ c.Association
unfolding split_transmit
timed_associations c now [] = ([], [], [])
timed_associations c now ((ch, conn) ∷ rest) =
    let (events, polled) =
      c.association_poll_endpoint_events (c.association_handle_timeout now conn) in
    let (xs, drained) = c.association_poll_transmits now polled in
    let (ys, es, conns) = timed_associations c now rest in
    (flat_map split_transmit xs ++ ys, map (λ e. (ch, e)) events ++ es, (ch, drained) ∷ conns)

unfoldable pub poll_associations : (c : Crates) → HashMap ℕ c.Association → Instant → Instant
poll_associations c [] eto = eto
poll_associations c ((ch, conn) ∷ rest) eto =
    poll_associations c rest (elim (c.association_poll_timeout conn) [
      | none ↦ eto
      | some timeout ↦ if ltb timeout eto then timeout else eto
    ])

module _ {c : Crates} where
  -- What a transmit adds to the queue.
  unfoldable pub outbound : SocketAddr → SctpTransmit → List (TaggedMessageEvent c)
  outbound local_addr transmit = elim transmit.payload [
    | raw_encode raw_data ↦
        map
          (λ raw. record {
            now = transmit.now;
            transport = record {
              local_addr = local_addr;
              peer_addr = transmit.remote;
              ecn = transmit.ecn;
            };
            message = dtls (DtlsMessageEvent.raw raw);
          })
          raw_data
    | partial_decode ↦ []
  ]

  -- The endpoint takes each event, and the association that it comes from goes.
  unfoldable pub handle_endpoint_events : List (ℕ × c.SctpEndpointEvent) → Transport c → Transport c
  handle_endpoint_events [] transport = transport
  handle_endpoint_events ((ch, event) ∷ events) transport =
      handle_endpoint_events events (record transport {
        sctp_endpoint = c.sctp_handle_event ch event transport.sctp_endpoint;
        sctp_associations = remove ch transport.sctp_associations;
      })

  unfoldable pub timed_transport : Instant → Transport c → List SctpTransmit × Transport c
  unfolding timed_associations handle_endpoint_events
  timed_transport now transport =
      let (transmits, events, conns) = timed_associations c now transport.sctp_associations in
      (transmits, handle_endpoint_events events (record transport { sctp_associations = conns }))

  unfoldable pub timed_endpoint : Instant → Endpoint c → List SctpTransmit × Endpoint c
  unfolding timed_transport
  timed_endpoint now endpoint = (
    flat_map (λ t. (timed_transport now t.1).0) endpoint.transports,
    record endpoint {
      transports = map (λ t. (t.0, (timed_transport now t.1).1)) endpoint.transports;
    },
  )

  unfoldable pub timed_session : Instant → Session c → List SctpTransmit × Session c
  unfolding timed_endpoint
  timed_session now session = (
    flat_map (λ e. (timed_endpoint now e.1).0) session.endpoints,
    record session { endpoints = map (λ e. (e.0, (timed_endpoint now e.1).1)) session.endpoints },
  )

  unfoldable pub handle_timeout : Instant → SctpHandler c → SctpHandler c
  unfolding timed_session outbound
  handle_timeout now self = record self {
    states = record self.states {
      sessions = map (λ s. (s.0, (timed_session now s.1).1)) self.states.sessions;
    };
    transmits =
        self.transmits
        ++ flat_map (outbound self.local_addr)
            (flat_map (λ s. (timed_session now s.1).0) self.states.sessions);
  }

  unfoldable pub poll_transports : HashMap FourTuple (Transport c) → Instant → Instant
  unfolding poll_associations
  poll_transports [] eto = eto
  poll_transports (t ∷ ts) eto = poll_transports ts (poll_associations c t.1.sctp_associations eto)

  unfoldable pub poll_endpoints : HashMap EndpointId (Endpoint c) → Instant → Instant
  unfolding poll_transports
  poll_endpoints [] eto = eto
  poll_endpoints (e ∷ es) eto = poll_endpoints es (poll_transports e.1.transports eto)

  unfoldable pub poll_sessions : HashMap SessionId (Session c) → Instant → Instant
  unfolding poll_endpoints
  poll_sessions [] eto = eto
  poll_sessions (s ∷ ss) eto = poll_sessions ss (poll_endpoints s.1.endpoints eto)

  unfoldable pub poll_timeout : SctpHandler c → Instant → Instant
  unfolding poll_sessions
  poll_timeout self eto = poll_sessions self.states.sessions eto

  -- `try_write` on the transport of the message.
  unfoldable pub write_step :
      Instant → DataChannelMessage → Transport c → Result (List SctpTransmit) × Transport c
  unfolding write_stream split_transmit
  write_step now m transport = elim (get m.association_handle transport.sctp_associations) [
    | none ↦ (err association_not_existed, transport)
    | some conn ↦
        let (r, written) = write_stream c m conn in
        elim r [
          | err e ↦ (
            err e,
            record transport {
              sctp_associations =
                  adjust m.association_handle (λ _. written) transport.sctp_associations;
            },
          )
          | ok _ ↦
              let (xs, drained) = c.association_poll_transmits now written in
              (
                ok (flat_map split_transmit xs),
                record transport {
                  sctp_associations =
                      adjust m.association_handle (λ _. drained) transport.sctp_associations;
                },
              )
        ]
  ]

  -- `try_write`: a message that is too large touches no transport.
  unfoldable pub try_write :
      Instant
      → FourTuple
      → DataChannelMessage
      → ServerStates c
      → Result (List SctpTransmit) × ServerStates c
  unfolding on_transport write_step
  try_write now key m states =
      if ltb (c.max_message_size states.server_config.sctp_server_config) (length m.payload)
      then (err outbound_packet_too_large, states)
      else on_transport key (write_step now m) states

  -- What a message to write does to the queue, and the exceptions.
  unfoldable pub queue_upstream :
      Option (TaggedMessageEvent c) → SctpHandler c → List Error × SctpHandler c
  unfolding try_write outbound
  queue_upstream none self = ([], self)
  queue_upstream (some msg) self = elim msg.message [
    | dtls m ↦ elim m [
      | DtlsMessageEvent.sctp message ↦
          let (r, states') = try_write msg.now (four_tuple msg.transport) message self.states in
          elim r [
            | ok transmits ↦ (
              [],
              record self {
                states = states';
                transmits = self.transmits ++ flat_map (outbound self.local_addr) transmits;
              },
            )
            | err e ↦ (e ∷ [], record self { states = states' })
          ]
      | _ ↦ ([], record self { transmits = self.transmits ++ msg ∷ [] })
    ]
    | _ ↦ ([], record self { transmits = self.transmits ++ msg ∷ [] })
  ]

  unfoldable pub poll_write :
      Option (TaggedMessageEvent c)
      → SctpHandler c
      → Option (TaggedMessageEvent c) × List Error × SctpHandler c
  unfolding queue_upstream pop_front
  poll_write upstream self =
      let (es, self') = queue_upstream upstream self in
      let (front, rest) = pop_front self'.transmits in
      (front, es, record self' { transmits = rest })
