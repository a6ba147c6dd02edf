-- ===== src/Handlers/Channels.antt =====
-- The opening of data channels in src/handlers/datachannel.rs.
use sfu.Prelude.{
  ℕ, ◌≡◌, refl, ◌⊎◌, inl, inr, true, false, some, List, [], ◌∷◌, ◌++◌, Bool-cases, append_nil,
}
use sfu.Prelude.Results.{Error, Result-cases, ok, err}
use sfu.Crates.{Crates, ChannelType}
use sfu.Messages.{
  TaggedMessageEvent, dtls, DtlsMessageEvent, DataChannelMessage, DataChannelMessageType,
  DataChannelMessageParams, DataChannelEvent,
}
use sfu.Handlers.Stun.{fire_read, fire_exception, fire_nothing}
use sfu.Handlers.DataChannel.{
  DataChannelHandler, application, try_read, acknowledge, is_control, handle_read,
  get_reliability_params,
}

-- The acknowledgement of an open message, whose channel has these parameters.
abbrev pub ack_of : DataChannelMessage → DataChannelMessageParams → List ℕ → DataChannelMessage
ack_of m params payload = record m {
  data_message_type = DataChannelMessageType.control;
  params = some params;
  payload = payload;
}

module _ {c : Crates} where
  -- The message opened a channel: the application is told, and the acknowledgement waits at the end.
  pub record Opens (msg : TaggedMessageEvent c) (m : DataChannelMessage) (h : DataChannelHandler c)
      : Type 0 where
    pub kind : ChannelType
    pub parameter : ℕ
    pub rest : List ℕ
    pub payload : List ℕ
    pub control : is_control m.data_message_type ≡ true
    pub is_open : c.message_type_is_open m.payload ≡ ok (true, rest)
    pub parsed : c.data_channel_open_unmarshal rest ≡ ok (kind, parameter)
    pub acked : c.data_channel_ack_marshal ≡ ok payload
    pub told :
        (handle_read msg h).0
        ≡ fire_read (record msg {
          message = dtls (DtlsMessageEvent.data_channel (application m DataChannelEvent.opened));
        })
    pub queued :
        (handle_read msg h).1.transmits
        ≡ h.transmits
          ++ record msg {
            message = dtls (
                DtlsMessageEvent.sctp (
                  ack_of m
                    (record {
                      unordered = (get_reliability_params kind).0;
                      reliability_type = (get_reliability_params kind).1;
                      reliability_parameter = parameter;
                    })
                    payload));
          }
            ∷ []

  -- A message that is no control message goes on to the application with its payload.
  unfoldable pub GoesOn : TaggedMessageEvent c → DataChannelMessage → DataChannelHandler c → Type 0
  GoesOn msg m h =
      (is_control m.data_message_type ≡ false)
      × ((handle_read msg h).1.transmits ≡ h.transmits)
      × ((handle_read msg h).0
          ≡ fire_read (record msg {
            message = dtls (
                DtlsMessageEvent.data_channel (application m (DataChannelEvent.message m.payload)));
          }))

  -- A control message that opens nothing is dropped.
  unfoldable pub Dropped : TaggedMessageEvent c → DataChannelMessage → DataChannelHandler c → Type 0
  Dropped msg m h =
      (is_control m.data_message_type ≡ true)
      × ((rest : List ℕ) × (c.message_type_is_open m.payload ≡ ok (false, rest)))
      × ((handle_read msg h).1.transmits ≡ h.transmits)
      × ((handle_read msg h).0 ≡ fire_nothing c)

  -- A control message that cannot be read, or an open message that cannot be parsed or acknowledged, is an
  -- exception with the error of that step.
  unfoldable pub Fails : TaggedMessageEvent c → DataChannelMessage → DataChannelHandler c → Type 0
  Fails msg m h =
      (is_control m.data_message_type ≡ true)
      × ((handle_read msg h).1.transmits ≡ h.transmits)
      × ((e : Error) × ((handle_read msg h).0 ≡ fire_exception c e)
          × ((c.message_type_is_open m.payload ≡ err e)
              ⊎ ((rest : List ℕ) × (c.message_type_is_open m.payload ≡ ok (true, rest))
                  × ((c.data_channel_open_unmarshal rest ≡ err e)
                      ⊎ (c.data_channel_ack_marshal ≡ err e)))))

  -- A message from SCTP goes on just if it is no control message. A control message that opens a channel is
  -- told to the application and acknowledged, with the parameters of the channel; one that opens nothing is
  -- dropped; one that cannot be read, parsed or acknowledged is an exception. Only an acknowledgement is
  -- queued.
  pub handle_read_acknowledges :
      (msg : TaggedMessageEvent c) (m : DataChannelMessage) (h : DataChannelHandler c)
      → msg.message ≡ dtls (DtlsMessageEvent.sctp m)
      → Opens msg m h ⊎ GoesOn msg m h ⊎ Dropped msg m h ⊎ Fails msg m h
  unfolding handle_read GoesOn Dropped Fails
  handle_read_acknowledges msg m h e = elim (Bool-cases (is_control m.data_message_type)) [
    | inr k ↦ inr (
        inl (
          k,
          rw (handle_read, e, try_read, k) (append_nil h.transmits),
          rw (handle_read, e, try_read, k) refl,
        ))
    | inl k ↦ elim (Result-cases (c.message_type_is_open m.payload)) [
      | inl (x, d) ↦ inr (
          inr (
            inr (
              k,
              rw (handle_read, e, try_read, k, d) refl,
              (x, rw (handle_read, e, try_read, k, d) refl, inl d),
            )))
      | inr ((false, rest), d) ↦ inr (
          inr (
            inl (
              k,
              (rest, d),
              rw (handle_read, e, try_read, k, d) (append_nil h.transmits),
              rw (handle_read, e, try_read, k, d) refl,
            )))
      | inr ((true, rest), d) ↦ elim (Result-cases (c.data_channel_open_unmarshal rest)) [
        | inl (x, p) ↦ inr (
            inr (
              inr (
                k,
                rw (handle_read, e, try_read, k, d, acknowledge, p) refl,
                (x, rw (handle_read, e, try_read, k, d, acknowledge, p) refl, inr (rest, d, inl p)),
              )))
        | inr ((kind, parameter), p) ↦ elim (Result-cases c.data_channel_ack_marshal) [
          | inl (x, a) ↦ inr (
              inr (
                inr (
                  k,
                  rw (handle_read, e, try_read, k, d, acknowledge, p, a) refl,
                  (
                    x,
                    rw (handle_read, e, try_read, k, d, acknowledge, p, a) refl,
                    inr (rest, d, inr a),
                  ),
                )))
          | inr (payload, a) ↦ inl (record {
            kind = kind;
            parameter = parameter;
            rest = rest;
            payload = payload;
            control = k;
            is_open = d;
            parsed = p;
            acked = a;
            told = rw (handle_read, e, try_read, k, d, acknowledge, p, a) refl;
            queued = rw (handle_read, e, try_read, k, d, acknowledge, p, a) refl;
          })
        ]
      ]
    ]
  ]
