-- ===== src/Examples.antt =====
-- One session with two endpoints and a candidate, on which the theorems are applied; the other crates
-- are stood in for by small functions.
pub mod Joining
pub mod Routing
pub mod Negotiating
pub mod Streams
pub mod Pipeline
pub mod Associations
pub mod Journey
pub mod Signals
pub mod Codecs
use sfu.Prelude.{
  ℕ, Bool, true, false, Option, none, some, List, [], ◌∷◌, ◌++◌, Text, codes, if◌then◌else◌, ◌==◌,
  list_eq, nat_eq, zero, suc, ◌+◌, ◌-◌, ◌*◌, ◌/◌, ◌%◌, ◌^◌, length, leb,
}
use sfu.Prelude.Results.{Result, ok, err, other, alert_fatal_or_close}
use sfu.Crates.{
  Crates, PacketType, SctpEvent, new_association, PayloadProtocolIdentifier, ChannelType,
  SrtpProtectionProfile, StunAttribute, ice_controlling, priority, use_candidate,
}
use sfu.Types.{SocketAddr, FourTuple, TransportContext, EndpointId}
use sfu.Sdp.{MediaDescription, ParsedDescription, SessionDescription}
use sfu.SdpType.{SdpType}
use sfu.Media.{MediaConfig}
use sfu.Config.{ServerConfig}
use sfu.Interceptor.{Interceptor}
use sfu.Endpoint.{Transport, Endpoint}
use sfu.Endpoint.Credentials.{Candidate, ConnectionCredentials, DtlsRole, IceParameters}
use sfu.Session.{Session}
use sfu.States.{ServerStates}
use sfu.Gateway.{Gateway}

-- The requests: a nomination by the controlling side, a check that nominates nothing, and a plain request
-- with no attribute.
pub data Request : Type 0 where
  nomination check plain : Request

abbrev has_attribute : Request → StunAttribute → Bool
has_attribute nomination ice_controlling = true
has_attribute nomination priority = true
has_attribute nomination use_candidate = true
has_attribute check ice_controlling = true
has_attribute check priority = true
has_attribute _ _ = false

abbrev user_name_of : Request → Result Text
user_name_of plain = err (other (codes "no user name"))
user_name_of _ = ok (codes "ours:them")

abbrev blank_media : Text → MediaDescription
blank_media name = record {
  media_name = record { media = name; port = 9; protos = []; formats = [] };
  attributes = [];
}

abbrev blank_session : ParsedDescription
blank_session = record {
  origin = record { session_id = 0; session_version = 0 };
  attributes = [];
  media_descriptions = [];
}

-- The offer that is parsed from every text: ice credentials, a fingerprint and no media.
abbrev pub parsed_offer : ParsedDescription
parsed_offer = record blank_session { media_descriptions = blank_media (codes "application") ∷ [] }

abbrev media_attribute_of : Text → MediaDescription → Option (Option Text)
media_attribute_of key m =
    some (some (if key == codes "fingerprint" then codes "sha-256 0A" else codes "them"))

-- An association is the number of chunks that wait in its one stream; an event is polled while there are any.
abbrev pub polled : ℕ → Option SctpEvent × ℕ
polled zero = (none, zero)
polled (suc n) = (some (SctpEvent.readable 2), n)

abbrev pub chunk_of : ℕ → ℕ → Result (Option (List ℕ)) × ℕ
chunk_of id zero = (ok none, zero)
chunk_of id (suc n) = (ok (some (n ∷ [])), n)

abbrev pub crates : Crates
crates = record {
  RtpPacket = ℕ;
  RtcpPacket = ℕ;
  packet_ssrc = λ p. 5;
  sequence_number = λ p. p;
  timestamp = λ p. p;
  packet_type = λ p. elim p [
    | zero ↦ PacketType.receiver_report
    | suc n ↦ if n == 0 then PacketType.transport_specific_feedback else PacketType.other
  ];
  as_sender_report = λ p. none;
  box_receiver_report = λ r. 0;
  rtp_unmarshal = λ bytes. ok (length bytes);
  rtp_marshal = λ p. elim p [ zero ↦ err (other (codes "no packet")) | suc n ↦ ok (suc n ∷ []) ];
  rtcp_unmarshal = λ bytes. ok bytes;
  rtcp_marshal = λ ps. ok ps;
  is_rtcp = λ bytes. elim bytes [ [] ↦ false | b ∷ _ ↦ leb 192 b ];
  message_type_is_open =
      λ bytes. elim bytes [ [] ↦ err (other (codes "short")) | b ∷ bs ↦ ok (b == 3, bs) ];
  data_channel_open_unmarshal = λ bytes. ok (ChannelType.reliable, 0);
  data_channel_ack_marshal = ok (2 ∷ []);
  StunMessage = Request;
  TransactionId = ℕ;
  stun_decode = λ bytes. ok check;
  stun_encode = λ m. [];
  contains = has_attribute;
  transaction_id = λ m. 0;
  get_username = user_name_of;
  integrity_check = λ password m. ok m;
  integrity_add_to = λ password m. ok m;
  fingerprint_add_to = λ m. ok m;
  build_binding_success = λ id ip port. ok plain;
  from_utf8 = λ bytes. ok bytes;
  description_from_json =
      λ text. ok (record { sdp_type = SdpType.offer; sdp = text; parsed = none });
  description_to_json = λ d. ok d.sdp;
  sdp_unmarshal = λ text. elim text [ [] ↦ err (other (codes "empty")) | _ ∷ _ ↦ ok parsed_offer ];
  sdp_marshal = λ d. codes "sdp";
  new_jsep_session_description = λ b. blank_session;
  new_jsep_media_description = blank_media;
  with_value_attribute = λ key value m. m;
  with_property_attribute = λ key m. m;
  with_ice_credentials = λ name password m. m;
  with_fingerprint = λ algorithm value m. m;
  with_codec = λ payload name rate channels fmtp m. m;
  with_extmap = λ e m. m;
  with_media_source = λ ssrc cname stream label m. m;
  with_media = λ m d. record d { media_descriptions = m ∷ d.media_descriptions };
  session_with_value_attribute = λ key value d. d;
  session_with_property_attribute = λ key d. d;
  session_with_fingerprint = λ algorithm value d. d;
  session_attribute = λ key d. none;
  media_attribute = media_attribute_of;
  attr_key_connection_setup = codes "setup";
  attr_key_ext_map = codes "extmap";
  attr_key_group = codes "group";
  attr_key_icelite = codes "ice-lite";
  attr_key_mid = codes "mid";
  attr_key_rtcpmux = codes "rtcp-mux";
  attr_key_rtcprsize = codes "rtcp-rsize";
  role_to_string = λ role. codes "passive";
  get_codec_for_payload_type = λ d payload. err (other (codes "no codec"));
  extmap_unmarshal = λ a. err (other (codes "no extension"));
  transport_cc_uri = codes "transport-wide-cc";
  url_parse = λ text. ok text;
  ip_to_string = λ ip. [];
  to_uppercase = λ text. text;
  to_lowercase = λ text. text;
  hex_decode = λ text. ok text;
  sha256 = λ bytes. 10 ∷ [];
  pem_encode = λ tag contents. contents ++ 10 ∷ [];
  pem_parse = λ text. ok (codes "EXPIRES", text);
  checked_after_epoch = λ n. some (n * 1_000_000_000);
  PrivateKey = Unit;
  dtls_from_pem = λ text. ok (record { certificate = text ∷ []; private_key = tt });
  dtls_serialize_pem = λ d. 7 ∷ [];
  DtlsConfig = Unit;
  DtlsEndpoint = Unit;
  SctpEndpointConfig = Unit;
  SctpServerConfig = Unit;
  dtls_config_default = tt;
  sctp_endpoint_config_default = tt;
  sctp_server_config_default = tt;
  dtls_endpoint_new = λ config. config;
  dtls_read = λ now remote ip ecn bytes e. (err alert_fatal_or_close, e);
  dtls_write = λ remote bytes e. (ok tt, e);
  get_connections_keys = λ e. [];
  dtls_handle_timeout = λ remote now e. e;
  dtls_poll_timeout = λ remote e eto. eto;
  dtls_poll_transmits = λ e. ([], e);
  DtlsState = Unit;
  get_connection_state = λ remote e. none;
  srtp_protection_profile = λ s. SrtpProtectionProfile.other;
  SctpEndpoint = Unit;
  sctp_endpoint_new = λ endpoint server. endpoint;
  sctp_port = λ config. 5000;
  max_message_size = λ config. 65536;
  Association = ℕ;
  open_stream = λ id a. (ok tt, a);
  set_reliability_params = λ id unordered kind parameter a. (ok tt, a);
  write_with_ppi = λ id bytes ppi a. (ok tt, a);
  SctpAssociationEvent = Unit;
  sctp_handle = λ now remote ip ecn bytes e. (some (4, new_association 2), e);
  association_handle_event = λ event a. a;
  association_poll = polled;
  Chunks = List ℕ;
  chunks_ppi = λ chunks. PayloadProtocolIdentifier.string;
  chunks_read = λ size chunks. ok chunks;
  read_sctp = chunk_of;
  association_handle_timeout = λ now a. a;
  association_poll_timeout = λ a. none;
  association_poll_transmits = λ now a. ([], a);
  SctpEndpointEvent = Unit;
  association_poll_endpoint_events = λ a. ([], a);
  sctp_handle_event = λ ch event e. e;
  SrtpContext = Unit;
  ContextOption = ℕ;
  extract_session_keys = λ profile s. err (other (codes "no keys"));
  srtp_replay_protection = λ n. n;
  srtcp_replay_protection = λ n. n;
  srtp_context_new = λ key salt profile rtp rtcp. ok tt;
  decrypt_rtp = λ bytes context. (ok bytes, context);
  decrypt_rtcp = λ bytes context. (ok bytes, context);
  encrypt_rtp = λ bytes context. (ok bytes, context);
  encrypt_rtcp = λ bytes context. (ok bytes, context);
  from_secs = λ n. n;
  F64 = ℕ;
  as_secs_f64 = λ n. n;
  to_f64 = λ n. n;
  add_f64 = λ a b. a + b;
  sub_f64 = λ a b. a - b;
  mul_f64 = λ a b. a * b;
  div_f64 = λ a b. a / b;
  abs_f64 = λ a. a;
  as_u8 = λ a. a % 256;
  as_u32 = λ a. a % 2 ^ 32;
}

abbrev pub media_config : MediaConfig
media_config = record {
  registry = [];
  negotiated_video = false;
  negotiated_audio = false;
  video_codecs = [];
  audio_codecs = [];
  negotiated_video_codecs = [];
  negotiated_audio_codecs = [];
  header_extensions = [];
  proposed_header_extensions = [];
  negotiated_header_extensions = [];
}

abbrev server_config : ServerConfig crates
server_config = record {
  certificates =
      record {
        dtls_certificate = record { certificate = (1 ∷ []) ∷ []; private_key = tt };
        expires = 0;
      }
      ∷ [];
  dtls_handshake_config = tt;
  sctp_endpoint_config = tt;
  sctp_server_config = tt;
  media_config = media_config;
  idle_timeout = 30;
}

abbrev server_addr : SocketAddr
server_addr = record { ip = 1; port = 3478 }

abbrev pub context : ℕ → TransportContext
context n = record {
  local_addr = server_addr;
  peer_addr = record { ip = n; port = 5000 };
  ecn = none;
}

abbrev pub tuple : ℕ → FourTuple
tuple n = record { local_addr = server_addr; peer_addr = record { ip = n; port = 5000 } }

abbrev pub description : SdpType → SessionDescription
description sdp_type = record { sdp_type = sdp_type; sdp = codes "sdp"; parsed = some parsed_offer }

abbrev pub ours : IceParameters
ours = record { username_fragment = codes "ours"; password = codes "password" }

abbrev credentials : Text → ConnectionCredentials
credentials name = record {
  ice_params = record { username_fragment = name; password = codes "password" };
  dtls_params = record { role = DtlsRole.client; fingerprints = [] };
}

abbrev pub candidate : EndpointId → Candidate
candidate endpoint_id = record {
  session_id = 1;
  endpoint_id = endpoint_id;
  remote_conn_cred = credentials (codes "them");
  local_conn_cred = credentials (codes "ours");
  remote_description = description SdpType.offer;
  local_description = description SdpType.answer;
  expired_time = 100;
}

abbrev pub transport : ℕ → EndpointId → Transport crates
transport n endpoint_id = record {
  four_tuple = tuple n;
  last_activity = 90;
  candidate = candidate endpoint_id;
  dtls_endpoint = tt;
  sctp_endpoint = tt;
  sctp_associations = [];
  association_handle = none;
  stream_id = none;
  local_srtp_context = some tt;
  remote_srtp_context = some tt;
}

abbrev pub endpoint : ℕ → EndpointId → Endpoint crates
endpoint n endpoint_id = record {
  endpoint_id = endpoint_id;
  interceptor = Interceptor.no_op;
  is_renegotiation_needed = false;
  remote_description = none;
  local_description = none;
  transports = (tuple n, transport n endpoint_id) ∷ [];
  mids = [];
  transceivers = [];
}

abbrev pub session : Session crates
session = record {
  session_config = record { server_config = server_config; local_addr = server_addr };
  session_id = 1;
  endpoints = (7, endpoint 20 7) ∷ (8, endpoint 30 8) ∷ [];
}

-- Endpoint 7 is at 20, endpoint 8 at 30, and endpoint 9 has yet to join.
abbrev pub states : ServerStates crates
states = record {
  server_config = server_config;
  local_addr = server_addr;
  sessions = (1, session) ∷ [];
  endpoints = (tuple 20, (1, 7)) ∷ (tuple 30, (1, 8)) ∷ [];
  candidates = (codes "ours:them", candidate 9) ∷ [];
}

-- Endpoint 7 has a second transport, at 21.
abbrev pub endpoint_with_two : Endpoint crates
endpoint_with_two = record (endpoint 20 7) {
  transports = (tuple 20, transport 20 7) ∷ (tuple 21, transport 21 7) ∷ [];
}

abbrev pub session_with_two : Session crates
session_with_two = record session { endpoints = (7, endpoint_with_two) ∷ (8, endpoint 30 8) ∷ [] }

abbrev pub states_with_two : ServerStates crates
states_with_two = record states {
  sessions = (1, session_with_two) ∷ [];
  endpoints = (tuple 20, (1, 7)) ∷ (tuple 21, (1, 7)) ∷ (tuple 30, (1, 8)) ∷ [];
}

abbrev pub gateway : Gateway crates
gateway = record { states = states; transmits = []; next_timeout = 95; idle_timeout = 30 }
