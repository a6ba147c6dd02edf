-- ===== src/Handlers/Sctp/Read.antt =====
-- src/handlers/sctp.rs: a datagram that DTLS has decrypted goes to the SCTP endpoint of its transport, and the
-- associations are polled until they have nothing more. The polls run on fuel: `none` is a run that lacks it.
use sfu.Prelude.{
  ℕ, zero, suc, Option, none, some, List, [], ◌∷◌, ◌++◌, map, flat_map, if◌then◌else◌, nat_eq, ◌==◌,
  length,
}
use sfu.Prelude.HashMap.{HashMap, insert}
use sfu.Prelude.Results.{Result, ok, err, ◌>>=◌}
use sfu.Crates.{
  Crates, SctpTransmit, SctpEvent, readable, DatagramEvent, new_association, association_event,
}
use sfu.Types.{TransportContext, Instant, four_tuple}
use sfu.Messages.{TaggedMessageEvent, dtls, DtlsMessageEvent, DataChannelMessage}
use sfu.Endpoint.{Transport}
use sfu.States.{get_transport, update_transport}
use sfu.Handlers.Stun.{Fired, fire_read, fire_exception}
use sfu.Handlers.Sctp
use sfu.Handlers.Sctp.{SctpHandler, split_transmit, to_data_message_type, handle_endpoint_events}

pub data SctpMessage : Type 0 where
  inbound : DataChannelMessage → SctpMessage
  outbound : SctpTransmit → SctpMessage

abbrev pub transmit_of : SctpMessage → List SctpTransmit
transmit_of (SctpMessage.inbound m) = []
transmit_of (SctpMessage.outbound x) = x ∷ []

module _ (c : Crates) where
  -- What a loop gives: the error that ends it, or its messages, and the association.
  abbrev pub Polled : Type 0
  Polled = Option (Result (List SctpMessage) × c.Association)

  abbrev pub before : List SctpMessage → Polled → Polled
  before ms none = none
  before ms (some (r, conn)) = some (r >>= λ ns. ok (ms ++ ns), conn)

  unfoldable pub inbound_message : ℕ → ℕ → c.Chunks → List ℕ → SctpMessage
  unfolding to_data_message_type
  inbound_message ch id chunks payload = SctpMessage.inbound (record {
    association_handle = ch;
    stream_id = id;
    data_message_type = to_data_message_type (c.chunks_ppi chunks);
    params = none;
    payload = payload;
  })

  -- `while let Some(chunks) = stream.read_sctp()?`
  unfoldable pub read_stream : ℕ → ℕ → ℕ → ℕ → c.Association → Polled
  unfolding inbound_message
  read_stream zero size ch id conn = none
  read_stream (suc fuel) size ch id conn =
      let (r, rest) = c.read_sctp id conn in
      elim r [
        | err e ↦ some (err e, rest)
        | ok found ↦ elim found [
          | none ↦ some (ok [], rest)
          | some chunks ↦ elim (c.chunks_read size chunks) [
            | err e ↦ some (err e, rest)
            | ok payload ↦
                before (inbound_message ch id chunks payload ∷ [])
                  (read_stream fuel size ch id rest)
          ]
        ]
      ]

  -- The rest of a loop after one of its rounds, which may have ended it.
  unfoldable pub and_then : Polled → (c.Association → Polled) → Polled
  and_then none rest = none
  and_then (some (err e, conn)) rest = some (err e, conn)
  and_then (some (ok ms, conn)) rest = before ms (rest conn)

  -- A readable stream is opened and read to its end.
  unfoldable pub handle_stream_event : ℕ → ℕ → ℕ → SctpEvent → c.Association → Polled
  unfolding read_stream
  handle_stream_event fuel size ch (readable id) conn =
      let (r, opened) = c.open_stream id conn in
      elim r [ err e ↦ some (err e, opened) | ok _ ↦ read_stream fuel size ch id opened ]
  handle_stream_event fuel size ch SctpEvent.other conn = some (ok [], conn)

  -- `while let Some(event) = conn.poll()`
  unfoldable pub poll_events : ℕ → ℕ → ℕ → c.Association → Polled
  unfolding and_then handle_stream_event
  poll_events zero size ch conn = none
  poll_events (suc fuel) size ch conn =
      let (event, rest) = c.association_poll conn in
      elim event [
        | none ↦ some (ok [], rest)
        | some e ↦
            and_then (handle_stream_event fuel size ch e rest) (λ a. poll_events fuel size ch a)
      ]

  -- The event of the datagram, where it is for this association.
  unfoldable pub handle_event :
      Option (ℕ × c.SctpAssociationEvent) → ℕ → c.Association → c.Association
  handle_event none ch conn = conn
  handle_event (some (event_ch, event)) ch conn =
      if ch == event_ch then c.association_handle_event event conn else conn

  abbrev pub Events : Type 0
  Events = List (ℕ × c.SctpEndpointEvent)

  -- One association after another; the first error leaves the later ones as they are.
  unfoldable pub read_associations :
      ℕ
      → ℕ
      → Instant
      → Option (ℕ × c.SctpAssociationEvent)
      → HashMap ℕ c.Association
      → Option (Result (List SctpMessage × Events) × HashMap ℕ c.Association)
  unfolding handle_event poll_events split_transmit
  read_associations fuel size now event [] = some (ok ([], []), [])
  read_associations fuel size now event ((ch, conn) ∷ rest) =
      elim (poll_events fuel size ch (handle_event event ch conn)) [
        | none ↦ none
        | some (r, polled) ↦ elim r [
          | err e ↦ some (err e, (ch, polled) ∷ rest)
          | ok ms ↦
              let (events, noted) = c.association_poll_endpoint_events polled in
              let (xs, drained) = c.association_poll_transmits now noted in
              elim (read_associations fuel size now event rest) [
                | none ↦ none
                | some (s, conns) ↦ some (
                  s >>= λ (ns, es). ok (
                    ms ++ (map SctpMessage.outbound (flat_map split_transmit xs) ++ ns),
                    map (λ e. (ch, e)) events ++ es,
                  ),
                  (ch, drained) ∷ conns,
                )
              ]
        ]
      ]

  -- The associations and the event for one of them, of what the endpoint makes of a datagram.
  unfoldable pub take_event :
      Option (ℕ × DatagramEvent c.Association c.SctpAssociationEvent)
      → HashMap ℕ c.Association
      → HashMap ℕ c.Association × Option (ℕ × c.SctpAssociationEvent)
  take_event none conns = (conns, none)
  take_event (some (ch, new_association conn)) conns = (insert ch conn conns, none)
  take_event (some (ch, association_event event)) conns = (conns, some (ch, event))

  -- `try_read` on a transport.
  unfoldable pub read_step :
      ℕ
      → ℕ
      → Instant
      → TransportContext
      → List ℕ
      → Transport c
      → Option (Result (List SctpMessage) × Transport c)
  unfolding take_event read_associations handle_endpoint_events
  read_step fuel size now ctx bytes transport =
      let (event, endpoint) =
        c.sctp_handle now ctx.peer_addr (some ctx.local_addr.ip) ctx.ecn bytes
          transport.sctp_endpoint in
      let (conns, for_one) = take_event event transport.sctp_associations in
      elim (read_associations fuel size now for_one conns) [
        | none ↦ none
        | some (r, polled) ↦
            let read : Transport c = record transport {
              sctp_endpoint = endpoint;
              sctp_associations = polled;
            } in
            some (elim r [
              | err e ↦ (err e, read)
              | ok (messages, events) ↦ (ok messages, handle_endpoint_events events read)
            ])
      ]

module _ {c : Crates} where
  abbrev pub read_of : TaggedMessageEvent c → SctpMessage → List (TaggedMessageEvent c)
  read_of msg (SctpMessage.inbound m) = record msg { message = dtls (DtlsMessageEvent.sctp m) } ∷ []
  read_of msg (SctpMessage.outbound x) = []

  -- The messages that were read, in their order, to the next handler and to the queue.
  unfoldable pub deliver :
      TaggedMessageEvent c → Result (List SctpMessage) → SctpHandler c → Fired c × SctpHandler c
  unfolding Sctp.outbound
  deliver msg (err e) self = (fire_exception c e, self)
  deliver msg (ok messages) self = (
    record { reads = flat_map (read_of msg) messages; exceptions = [] },
    record self {
      transmits =
          self.transmits
          ++ flat_map (Sctp.outbound self.local_addr) (flat_map transmit_of messages);
    },
  )

  unfoldable pub handle_read :
      ℕ → TaggedMessageEvent c → SctpHandler c → Option (Fired c × SctpHandler c)
  unfolding read_step deliver
  handle_read fuel msg self = elim msg.message [
    | dtls m ↦ elim m [
      | DtlsMessageEvent.raw bytes ↦ elim (get_transport (four_tuple msg.transport) self.states) [
        | err e ↦ some (fire_exception c e, self)
        | ok (sid, eid, transport) ↦
            elim (read_step c fuel (length self.internal_buffer) msg.now msg.transport bytes
              transport) [
                | none ↦ none
                | some (r, transport') ↦ some (
                    deliver msg r (record self {
                      states =
                          update_transport sid eid (four_tuple msg.transport) (λ _. transport')
                            self.states;
                    }))
              ]
      ]
      | _ ↦ some (fire_read msg, self)
    ]
    | _ ↦ some (fire_read msg, self)
  ]
