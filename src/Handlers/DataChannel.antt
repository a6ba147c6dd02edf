-- ===== src/Handlers/DataChannel.antt =====
-- src/handlers/datachannel.rs: the data channel protocol between SCTP messages and the messages of the
-- application. An acknowledgement waits in the queue of the handler.
use sfu.Prelude.{ℕ, Bool, true, false, Option, none, some, List, [], ◌∷◌, ◌++◌, if◌then◌else◌}
use sfu.Prelude.Results.{Result, ok, err, ◌>>=◌}
use sfu.Crates.{Crates, ChannelType, ReliabilityType}
use sfu.Messages.{
  TaggedMessageEvent, dtls, DtlsMessageEvent, DataChannelMessage, DataChannelMessageType,
  ApplicationMessage, DataChannelEvent,
}
use sfu.Handlers.Stun.{Fired, fire_read, fire_exception, fire_nothing}

pub record DataChannelHandler (c : Crates) : Type 0 where
  pub transmits : List (TaggedMessageEvent c)

unfoldable pub get_reliability_params : ChannelType → Bool × ReliabilityType
get_reliability_params ChannelType.reliable = (false, ReliabilityType.reliable)
get_reliability_params ChannelType.reliable_unordered = (true, ReliabilityType.reliable)
get_reliability_params ChannelType.partial_reliable_rexmit = (false, ReliabilityType.rexmit)
get_reliability_params ChannelType.partial_reliable_rexmit_unordered =
    (true, ReliabilityType.rexmit)
get_reliability_params ChannelType.partial_reliable_timed = (false, ReliabilityType.timed)
get_reliability_params ChannelType.partial_reliable_timed_unordered = (true, ReliabilityType.timed)

unfoldable pub is_control : DataChannelMessageType → Bool
is_control DataChannelMessageType.control = true
is_control _ = false

-- `pop_front` after what is written has joined the queue.
unfoldable pub pop_front {ℓ} : {A : Type ℓ} → List A → Option A × List A
pop_front [] = (none, [])
pop_front (x ∷ xs) = (some x, xs)

-- The answer to an open message, by the parameters of the channel.
unfoldable pub acknowledge : (c : Crates) → DataChannelMessage → List ℕ → Result DataChannelMessage
unfolding get_reliability_params
acknowledge c m rest = c.data_channel_open_unmarshal rest >>= λ opened.
    c.data_channel_ack_marshal >>= λ payload. ok (record {
      association_handle = m.association_handle;
      stream_id = m.stream_id;
      data_message_type = DataChannelMessageType.control;
      params = some (record {
        unordered = (get_reliability_params opened.0).0;
        reliability_type = (get_reliability_params opened.0).1;
        reliability_parameter = opened.1;
      });
      payload = payload;
    })

abbrev pub application : DataChannelMessage → DataChannelEvent → ApplicationMessage
application m event = record {
  association_handle = m.association_handle;
  stream_id = m.stream_id;
  data_channel_event = event;
}

-- `try_read`: the message to the application and the message to the peer.
unfoldable pub try_read :
    (c : Crates)
    → DataChannelMessage
    → Result (Option ApplicationMessage × Option DataChannelMessage)
unfolding is_control acknowledge
try_read c m =
    if is_control m.data_message_type
    then (c.message_type_is_open m.payload >>= λ (is_open, rest).
        if is_open
        then (acknowledge c m rest >>= λ ack.
            ok (some (application m DataChannelEvent.opened), some ack))
        else ok (none, none))
    else ok (some (application m (DataChannelEvent.message m.payload)), none)

module _ {c : Crates} where
  abbrev with_message : TaggedMessageEvent c → DtlsMessageEvent → TaggedMessageEvent c
  with_message msg m = record msg { message = dtls m }

  abbrev to_peer : TaggedMessageEvent c → Option DataChannelMessage → List (TaggedMessageEvent c)
  to_peer msg none = []
  to_peer msg (some m) = with_message msg (DtlsMessageEvent.sctp m) ∷ []

  abbrev to_application : TaggedMessageEvent c → Option ApplicationMessage → Fired c
  to_application msg none = fire_nothing c
  to_application msg (some m) = fire_read (with_message msg (DtlsMessageEvent.data_channel m))

  unfoldable pub handle_read :
      TaggedMessageEvent c → DataChannelHandler c → Fired c × DataChannelHandler c
  unfolding try_read
  handle_read msg self = elim msg.message [
    | dtls m ↦ elim m [
      | DtlsMessageEvent.sctp message ↦ elim (try_read c message) [
        | ok (inbound, outbound) ↦ (
          to_application msg inbound,
          record { transmits = self.transmits ++ to_peer msg outbound },
        )
        | err e ↦ (fire_exception c e, self)
      ]
      | _ ↦ (fire_read msg, self)
    ]
    | _ ↦ (fire_read msg, self)
  ]

  -- What a message to write adds to the queue; an event that is no message is dropped.
  unfoldable pub written : TaggedMessageEvent c → List (TaggedMessageEvent c)
  written msg = elim msg.message [
    | dtls m ↦ elim m [
      | DtlsMessageEvent.data_channel message ↦ elim message.data_channel_event [
        | DataChannelEvent.message payload ↦
            with_message msg (
              DtlsMessageEvent.sctp (record {
                association_handle = message.association_handle;
                stream_id = message.stream_id;
                data_message_type = DataChannelMessageType.text;
                params = none;
                payload = payload;
              }))
            ∷ []
        | _ ↦ []
      ]
      | _ ↦ msg ∷ []
    ]
    | _ ↦ msg ∷ []
  ]

  unfoldable pub poll_write :
      Option (TaggedMessageEvent c)
      → DataChannelHandler c
      → Option (TaggedMessageEvent c) × DataChannelHandler c
  unfolding written pop_front
  poll_write upstream self =
      let (front, rest) =
        pop_front (self.transmits ++ elim upstream [ none ↦ [] | some msg ↦ written msg ]) in
      (front, record { transmits = rest })
