-- ===== src/Examples/Associations.antt =====
-- The theorems on messages of data channels, with an association on one of the transports of `Examples`.
use sfu.Prelude.{ℕ, zero, suc, ◌<◌, ◌≤◌, ◌≡◌, ◌⊎◌, refl, none, some, List, [], ◌∷◌, arith}
use sfu.Prelude.HashMap.{get, insert}
use sfu.Prelude.Results.{association_not_existed, ok, Result}
use sfu.Crates.{SctpTransmit, SctpEvent, raw_encode}
use sfu.Messages.{
  TaggedMessageEvent, dtls, DtlsMessageEvent, DataChannelMessage, DataChannelMessageType,
}
use sfu.Endpoint.{Transport}
use sfu.States.{ServerStates, update_transport, get_transport, get_endpoint}
use sfu.States.Routes.{Leads}
use sfu.Handlers.Sctp
use sfu.Handlers.Sctp.{SctpHandler}
use sfu.Handlers.Stun.{Fired}
use sfu.Handlers.Sctp.Read
use sfu.Handlers.Sctp.Read.{SctpMessage}
use sfu.Handlers.Sctp.Ends.{Drains, enough_for}
use sfu.Handlers.Sctp.Delivery.{Delivers, enough_on, handle_read-Delivers}
use sfu.Handlers.Streams.{Refused, Accepted, poll_write_checks}
use sfu.Examples.{crates, context, tuple, transport, endpoint, session, states}
use sfu.Examples.Pipeline.{arrived}

abbrev associated_transport : Transport crates
associated_transport = record (transport 20 7) { sctp_associations = (4, 3) ∷ [] }

abbrev associated : ServerStates crates
associated = record states {
  sessions =
      (
        1,
        record session {
          endpoints =
              (
                7,
                record (endpoint 20 7) {
                  transports =
                      (tuple 20, record (transport 20 7) { sctp_associations = (4, 3) ∷ [] }) ∷ [];
                },
              )
              ∷ (8, endpoint 30 8)
              ∷ [];
        },
      )
      ∷ [];
}

abbrev sctp_handler : SctpHandler crates
sctp_handler = record {
  local_addr = (tuple 20).local_addr;
  states = associated;
  internal_buffer = [];
  transmits = [];
}

abbrev greeting : DataChannelMessage
greeting = record {
  association_handle = 4;
  stream_id = 2;
  data_message_type = DataChannelMessageType.text;
  params = none;
  payload = 104 ∷ 105 ∷ [];
}

abbrev writing : TaggedMessageEvent crates
writing = arrived (dtls (DtlsMessageEvent.sctp greeting))

abbrev route_aside : Leads (tuple 30) associated 1 8 (transport 30 8)
unfolding get
route_aside = record {
  session = record session {
    endpoints =
        (
          7,
          record (endpoint 20 7) {
            transports =
                (tuple 20, record (transport 20 7) { sctp_associations = (4, 3) ∷ [] }) ∷ [];
          },
        )
        ∷ (8, endpoint 30 8)
        ∷ [];
  };
  endpoint = endpoint 30 8;
  routed = refl;
  in_sessions = refl;
  in_session = refl;
  in_endpoint = refl;
}

no_exception : (Sctp.poll_write (some writing) sctp_handler).1 ≡ []
unfolding Sctp.poll_write Sctp.queue_upstream Sctp.try_write Sctp.write_step Sctp.write_stream
    Sctp.set_params get_transport get_endpoint get
no_exception = refl

unknown_association :
    (Sctp.poll_write
      (some (arrived (dtls (DtlsMessageEvent.sctp (record greeting { association_handle = 5 })))))
      sctp_handler).1
    ≡ association_not_existed ∷ []
unfolding Sctp.poll_write Sctp.queue_upstream Sctp.try_write Sctp.write_step Sctp.write_stream
    Sctp.set_params get_transport get_endpoint get
unknown_association = refl

poll_write_checks_example :
    Refused writing greeting sctp_handler ⊎ Accepted writing greeting sctp_handler
poll_write_checks_example = poll_write_checks writing greeting sctp_handler refl

abbrev two_packets : SctpTransmit
two_packets = record {
  now = 5;
  remote = (tuple 20).peer_addr;
  payload = raw_encode ((1 ∷ []) ∷ (2 ∷ 3 ∷ []) ∷ []);
  ecn = none;
  local_ip = none;
}

polled_lowers :
    (n : ℕ) (e : SctpEvent)
    → (crates.association_poll n).0 ≡ some e
    → (crates.association_poll n).1 < n
polled_lowers zero e h = absurd (ground arith)
polled_lowers (suc n) e h = omega arith

polled_keeps : (n : ℕ) → (crates.association_poll n).0 ≡ none → (crates.association_poll n).1 ≤ n
polled_keeps zero h = omega arith
polled_keeps (suc n) h = omega arith

chunk_keeps : (id n : ℕ) → (crates.read_sctp id n).1 ≤ n
chunk_keeps id zero = omega arith
chunk_keeps id (suc n) = omega arith

chunk_lowers :
    (id n : ℕ) (chunks : List ℕ)
    → (crates.read_sctp id n).0 ≡ ok (some chunks)
    → (crates.read_sctp id n).1 < n
chunk_lowers id zero chunks h = absurd (ground arith)
chunk_lowers id (suc n) chunks h = omega arith

abbrev draining : Drains crates
draining = record {
  size = λ n. n;
  poll_lowers = polled_lowers;
  poll_none_keeps = polled_keeps;
  open_keeps = λ id n. omega arith;
  read_keeps = chunk_keeps;
  read_lowers = chunk_lowers;
}

abbrev decrypted : TaggedMessageEvent crates
decrypted = arrived (dtls (DtlsMessageEvent.raw (0 ∷ [])))

abbrev route_to_association : Leads (tuple 20) associated 1 7 associated_transport
unfolding get
route_to_association = record {
  session = route_aside.session;
  endpoint = record (endpoint 20 7) {
    transports = (tuple 20, record (transport 20 7) { sctp_associations = (4, 3) ∷ [] }) ∷ [];
  };
  routed = refl;
  in_sessions = refl;
  in_session = refl;
  in_endpoint = refl;
}

handle_read-Delivers_example :
    (fired : Fired crates) × (h' : SctpHandler crates) × (Read.handle_read 9 decrypted sctp_handler
      ≡ some (fired, h'))
    × ((r : Result (List SctpMessage)) × (with_association : Transport crates) × (Read.read_step
            crates 9 0 99
            (context 20)
            (0 ∷ [])
            associated_transport
          ≡ some (r, with_association))
        × Delivers decrypted sctp_handler r fired h'.transmits
        × (h'.states ≡ update_transport 1 7 (tuple 20) (λ _. with_association) associated))
unfolding enough_on Read.take_event insert enough_for
handle_read-Delivers_example =
    handle_read-Delivers draining 9 decrypted (0 ∷ []) sctp_handler 1 7 associated_transport refl
      route_to_association (omega arith)
