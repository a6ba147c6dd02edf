-- ===== src/Gateway/Peers.antt =====
-- src/handlers/gateway.rs: the endpoint that a message belongs to and the other endpoints of its session.
use sfu.Prelude.{ℕ, Bool, none, some, List, [], ◌∷◌, if◌then◌else◌, ◌==◌, nat_eq, list_eq, flat_map}
use sfu.Prelude.HashMap.{HashMap, get}
use sfu.Prelude.Results.{Result, ok, err, client_transport_not_set, session_not_found}
use sfu.Crates.{Crates}
use sfu.Types.{SessionId, EndpointId, FourTuple, TransportContext, four_tuple, tuple_eq}
use sfu.Direction.{direction_eq}
use sfu.Endpoint
use sfu.Endpoint.{Endpoint, Transport}
use sfu.Session.{Session}
use sfu.States.{ServerStates, find_endpoint}

-- A peer that has a data channel: where it is, its channel, and whether an offer is due.
pub record ChannelPeer : Type 0 where
  pub context : TransportContext
  pub association_handle : ℕ
  pub stream_id : ℕ
  pub is_renegotiation_needed : Bool

abbrev pub context_of : TransportContext → FourTuple → TransportContext
context_of ctx ft = record { local_addr = ft.local_addr; peer_addr = ft.peer_addr; ecn = ctx.ecn }

module _ {c : Crates} where
  -- `find_endpoint(..).ok_or(ErrClientTransportNotSet)?` and the session that it names.
  unfoldable pub route :
      TransportContext → ServerStates c → Result (SessionId × EndpointId × Session c)
  route ctx self = elim (find_endpoint (four_tuple ctx) self) [
    | none ↦ err client_transport_not_set
    | some (sid, eid) ↦ elim (get sid self.sessions) [
      | none ↦ err session_not_found
      | some session ↦ ok (sid, eid, session)
    ]
  ]

  unfoldable pub ready_contexts :
      TransportContext → HashMap FourTuple (Transport c) → List TransportContext
  ready_contexts ctx =
      flat_map
        (λ t. if Endpoint.is_local_srtp_context_ready t.1 then context_of ctx t.0 ∷ [] else [])

  unfoldable pub media_peers :
      TransportContext → EndpointId → HashMap EndpointId (Endpoint c) → List TransportContext
  media_peers ctx eid = flat_map (λ e. if e.0 == eid then [] else ready_contexts ctx e.1.transports)

  unfoldable pub get_other_media_transport_contexts :
      TransportContext → ServerStates c → Result (List TransportContext)
  unfolding route media_peers ready_contexts
  get_other_media_transport_contexts ctx self = elim (route ctx self) [
    | err e ↦ err e
    | ok (sid, eid, session) ↦ ok (media_peers ctx eid session.endpoints)
  ]

  channel_of : TransportContext → Bool → FourTuple → Transport c → List ChannelPeer
  channel_of ctx needed ft t = elim t.association_handle [
    | none ↦ []
    | some handle ↦ elim t.stream_id [
      | none ↦ []
      | some stream ↦
          record {
            context = context_of ctx ft;
            association_handle = handle;
            stream_id = stream;
            is_renegotiation_needed = needed;
          }
          ∷ []
    ]
  ]

  unfoldable pub get_other_datachannel_transport_contexts :
      TransportContext → ServerStates c → Result (List ChannelPeer)
  unfolding route channel_of
  get_other_datachannel_transport_contexts ctx self = elim (route ctx self) [
    | err e ↦ err e
    | ok (sid, eid, session) ↦ ok (
        flat_map
          (λ o.
            if o.0 == eid
            then []
            else flat_map (λ t. channel_of ctx o.1.is_renegotiation_needed t.0 t.1) o.1.transports)
          session.endpoints)
  ]
