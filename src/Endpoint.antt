-- ===== src/Endpoint.antt =====
-- src/endpoint/mod.rs and transport.rs: the transports of an endpoint and its transceivers.
pub mod Credentials
use sfu.Prelude.{ℕ, Bool, false, Option, none, some, List, [], is_some}
use sfu.Prelude.HashMap.{HashMap, get, insert, remove, contains_key}
use sfu.Crates.{Crates}
use sfu.Types.{EndpointId, FourTuple, Instant, Mid, tuple_eq}
use sfu.Sdp.{SessionDescription}
use sfu.Codec.{Transceiver}
use sfu.Interceptor.{Interceptor}
use sfu.Config.{ServerConfig}
use Credentials.{Candidate}

pub record Transport (c : Crates) : Type 0 where
  pub four_tuple : FourTuple
  pub last_activity : Instant
  pub candidate : Candidate
  pub dtls_endpoint : c.DtlsEndpoint
  pub sctp_endpoint : c.SctpEndpoint
  pub sctp_associations : HashMap ℕ c.Association
  pub association_handle : Option ℕ
  pub stream_id : Option ℕ
  pub local_srtp_context : Option c.SrtpContext
  pub remote_srtp_context : Option c.SrtpContext

pub record Endpoint (c : Crates) : Type 0 where
  pub endpoint_id : EndpointId
  pub interceptor : Interceptor c
  pub is_renegotiation_needed : Bool
  pub remote_description : Option SessionDescription
  pub local_description : Option SessionDescription
  pub transports : HashMap FourTuple (Transport c)
  pub mids : List Mid
  pub transceivers : HashMap Mid Transceiver

module _ {c : Crates} where
  -- Transport::new; `clock` is `Instant::now()`.
  unfoldable pub new_transport : Instant → FourTuple → Candidate → ServerConfig c → Transport c
  new_transport clock four_tuple candidate config = record {
    four_tuple = four_tuple;
    last_activity = clock;
    candidate = candidate;
    dtls_endpoint = c.dtls_endpoint_new config.dtls_handshake_config;
    sctp_endpoint = c.sctp_endpoint_new config.sctp_endpoint_config config.sctp_server_config;
    sctp_associations = [];
    association_handle = none;
    stream_id = none;
    local_srtp_context = none;
    remote_srtp_context = none;
  }

  unfoldable pub set_association_handle_and_stream_id : Transport c → ℕ → ℕ → Transport c
  set_association_handle_and_stream_id self handle stream = record self {
    association_handle = some handle;
    stream_id = some stream;
  }

  unfoldable pub set_srtp_contexts : Transport c → c.SrtpContext → c.SrtpContext → Transport c
  set_srtp_contexts self local remote = record self {
    local_srtp_context = some local;
    remote_srtp_context = some remote;
  }

  abbrev pub is_local_srtp_context_ready : Transport c → Bool
  is_local_srtp_context_ready self = is_some self.local_srtp_context

  unfoldable pub keep_alive : Instant → Transport c → Transport c
  keep_alive clock self = record self { last_activity = clock }

  -- Endpoint::new
  unfoldable pub new_endpoint : EndpointId → Interceptor c → Endpoint c
  new_endpoint endpoint_id interceptor = record {
    endpoint_id = endpoint_id;
    interceptor = interceptor;
    is_renegotiation_needed = false;
    remote_description = none;
    local_description = none;
    transports = [];
    mids = [];
    transceivers = [];
  }

  unfoldable pub add_transport : Endpoint c → Transport c → Endpoint c
  add_transport self t = record self { transports = insert t.four_tuple t self.transports }

  unfoldable pub remove_transport : Endpoint c → FourTuple → Option (Transport c) × Endpoint c
  remove_transport self key =
      (get key self.transports, record self { transports = remove key self.transports })

  abbrev pub has_transport : Endpoint c → FourTuple → Bool
  has_transport self key = contains_key key self.transports

  unfoldable pub set_remote_description : Endpoint c → SessionDescription → Endpoint c
  set_remote_description self description = record self { remote_description = some description }

  unfoldable pub set_local_description : Endpoint c → SessionDescription → Endpoint c
  set_local_description self description = record self { local_description = some description }

  unfoldable pub set_renegotiation_needed : Endpoint c → Bool → Endpoint c
  set_renegotiation_needed self needed = record self { is_renegotiation_needed = needed }
