-- ===== src/Gateway/Channel.antt =====
-- src/handlers/gateway.rs: data channels, on which offers and answers are exchanged.
use sfu.Prelude.{
  ℕ, false, not, none, some, List, [], ◌∷◌, ◌++◌, if◌then◌else◌, ◌==◌, nat_eq, list_eq, codes,
  is_empty,
}
use sfu.Prelude.HashMap.{HashMap, get, adjust}
use sfu.Prelude.Results.{
  ok, err, other, client_transport_not_set, endpoint_not_found, transport_not_found,
}
use sfu.Prelude.Actions.{Action, ◌>>=◌, ◌>>◌, pure, raise, lift, gets, or_raise}
use sfu.Crates.{Crates}
use sfu.Types.{SessionId, EndpointId, TransportContext, Instant, four_tuple, tuple_eq, Mid}
use sfu.Messages.{TaggedMessageEvent, dtls, DtlsMessageEvent, ApplicationMessage, DataChannelEvent}
use sfu.Direction.{Direction, direction_eq}
use sfu.SdpType.{SdpType, offer, answer}
use sfu.Sdp.{SessionDescription}
use sfu.Codec.{Transceiver}
use sfu.Endpoint
use sfu.Endpoint.{Endpoint}
use sfu.Endpoint.Credentials.{IceParameters}
use sfu.Session
use sfu.Session.{Session, other_mid, add_transceiver}
use sfu.Session.Describe.{create_offer}
use sfu.States.{
  in_session, ServerStates, find_endpoint, update_endpoint, accept_offer, accept_answer,
}
use sfu.Gateway.Peers.{ChannelPeer, route, get_other_datachannel_transport_contexts}

-- The other endpoints' received transceivers, as this endpoint is to send them.
resend : EndpointId → HashMap Mid Transceiver → List Transceiver
resend other_id [] = []
resend other_id ((mid, t) ∷ ts) =
    if t.direction == Direction.recvonly
    then record t { mid = other_mid other_id mid; direction = Direction.sendonly }
      ∷ resend other_id ts
    else resend other_id ts

module _ {c : Crates} where
  -- An offer for an endpoint, sent on its data channel. `set_local_description` of an offer writes
  -- nothing; the flag is cleared before anything can fail.
  unfoldable pub create_offer_message_event :
      Instant → TransportContext → ℕ → ℕ → Action (ServerStates c) (TaggedMessageEvent c)
  unfolding route update_endpoint in_session
  create_offer_message_event now ctx association_handle stream_id self = elim (route ctx self) [
    | err e ↦ (err e, self)
    | ok (sid, eid, session) ↦ elim (get eid session.endpoints) [
      | none ↦ (err endpoint_not_found, self)
      | some endpoint ↦
          let cleared =
            update_endpoint sid eid (λ e. Endpoint.set_renegotiation_needed e false) self in
          let session' = record session {
            endpoints =
                adjust eid (λ e. Endpoint.set_renegotiation_needed e false) session.endpoints;
          } in
          elim endpoint.remote_description [
            | none ↦ (err (other (codes "remote_description is not set")), cleared)
            | some remote ↦ elim (get (four_tuple ctx) endpoint.transports) [
              | none ↦ (err transport_not_found, cleared)
              | some transport ↦
                  elim (create_offer eid remote transport.candidate.local_conn_cred.ice_params
                    session') [
                      | err e ↦ (err e, cleared)
                      | ok made ↦
                          (do
                            in_session sid (Session.set_local_description eid made)
                            text ← lift (c.description_to_json made)
                            pure (record {
                              now = now;
                              transport = ctx;
                              message = dtls (
                                  DtlsMessageEvent.data_channel (record {
                                    association_handle = association_handle;
                                    stream_id = stream_id;
                                    data_channel_event = DataChannelEvent.message text;
                                  }));
                            }))
                            cleared
                    ]
            ]
          ]
    ]
  ]

  unfoldable pub new_transceivers : EndpointId → HashMap EndpointId (Endpoint c) → List Transceiver
  unfolding resend
  new_transceivers eid [] = []
  new_transceivers eid ((id, e) ∷ es) =
      if id == eid
      then new_transceivers eid es
      else resend id e.transceivers ++ new_transceivers eid es

  unfoldable pub add_transceivers : List Transceiver → Endpoint c → Endpoint c
  add_transceivers [] self = self
  add_transceivers (t ∷ ts) self = add_transceivers ts (add_transceiver t self)

  unfoldable pub handle_datachannel_open :
      Instant → TransportContext → ℕ → ℕ → Action (ServerStates c) (List (TaggedMessageEvent c))
  unfolding route new_transceivers add_transceivers update_endpoint
  handle_datachannel_open now ctx association_handle stream_id self = elim (route ctx self) [
    | err e ↦ (err e, self)
    | ok (sid, eid, session) ↦ elim (get eid session.endpoints) [
      | none ↦ (err endpoint_not_found, self)
      | some endpoint ↦ elim (get (four_tuple ctx) endpoint.transports) [
        | none ↦ (err transport_not_found, self)
        | some transport ↦
            let news = new_transceivers eid session.endpoints in
            let opened =
              update_endpoint sid eid
                (λ e. add_transceivers news (
                  Endpoint.set_renegotiation_needed
                    (record e {
                      transports =
                          adjust (four_tuple ctx)
                            (λ t.
                              Endpoint.set_association_handle_and_stream_id t association_handle
                                stream_id)
                            e.transports;
                    })
                    (not (is_empty news))))
                self in
            if is_empty news
            then (ok [], opened)
            else (create_offer_message_event now ctx association_handle stream_id >>= λ m.
                  pure (m ∷ []))
                opened
      ]
    ]
  ]

  -- The offers that the peers with a set flag are due.
  unfoldable pub offer_to_peers :
      Instant → List ChannelPeer → Action (ServerStates c) (List (TaggedMessageEvent c))
  unfolding create_offer_message_event
  offer_to_peers now [] = pure []
  offer_to_peers now (p ∷ ps) =
      if p.is_renegotiation_needed
      then (create_offer_message_event now p.context p.association_handle p.stream_id >>= λ m.
          offer_to_peers now ps >>= λ ms. pure (m ∷ ms))
      else offer_to_peers now ps

  module _ (random : IceParameters) (clock : Instant) where
    offer_request :
        Instant
        → TransportContext
        → ℕ
        → ℕ
        → SessionId
        → EndpointId
        → SessionDescription
        → Action (ServerStates c) (List (TaggedMessageEvent c))
    unfolding accept_offer get_other_datachannel_transport_contexts offer_to_peers
    offer_request now ctx association_handle stream_id sid eid request = do
      answered ← accept_offer random clock sid eid (some (four_tuple ctx)) request
      text ← lift (c.description_to_json answered)
      peers ← λ s. lift (get_other_datachannel_transport_contexts ctx s) s
      offers ← offer_to_peers now peers
      pure (
          record {
            now = now;
            transport = ctx;
            message = dtls (
                DtlsMessageEvent.data_channel (record {
                  association_handle = association_handle;
                  stream_id = stream_id;
                  data_channel_event = DataChannelEvent.message text;
                }));
          }
          ∷ offers)

    request_of :
        SdpType
        → Instant
        → TransportContext
        → ℕ
        → ℕ
        → SessionId
        → EndpointId
        → SessionDescription
        → Action (ServerStates c) (List (TaggedMessageEvent c))
    unfolding offer_request accept_answer
    request_of offer now ctx handle stream sid eid request =
        offer_request now ctx handle stream sid eid request
    request_of answer now ctx handle stream sid eid request =
        accept_answer sid eid request >> pure []
    request_of _ now ctx handle stream sid eid request =
        raise (other (codes "Unsupported SDP type"))

    unfoldable pub handle_datachannel_message :
        Instant
        → TransportContext
        → ℕ
        → ℕ
        → List ℕ
        → Action (ServerStates c) (List (TaggedMessageEvent c))
    unfolding request_of
    handle_datachannel_message now ctx handle stream payload = do
      request_sdp_str ← lift (c.from_utf8 payload)
      request ← lift (c.description_from_json request_sdp_str)
      found ← gets (find_endpoint (four_tuple ctx))
      ids ← or_raise client_transport_not_set found
      request_of request.sdp_type now ctx handle stream ids.0 ids.1 request

    -- `handle_dtls_message`; a close changes nothing.
    unfoldable pub handle_dtls_message :
        Instant
        → TransportContext
        → ApplicationMessage
        → Action (ServerStates c) (List (TaggedMessageEvent c))
    unfolding handle_datachannel_open handle_datachannel_message
    handle_dtls_message now ctx message = elim message.data_channel_event [
      | DataChannelEvent.opened ↦
          handle_datachannel_open now ctx message.association_handle message.stream_id
      | DataChannelEvent.message payload ↦
          handle_datachannel_message now ctx message.association_handle message.stream_id payload
      | DataChannelEvent.closed ↦ pure []
    ]
