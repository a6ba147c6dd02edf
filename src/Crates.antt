-- ===== src/Crates.antt =====
-- The crates that the program calls and does not contain, as one parameter: their types are unknown
-- and their functions are arguments of the model. An error of theirs is given as the error that
-- the caller passes on.
use sfu.Prelude.{ℕ, Bool, Option, List, Text}
use sfu.Prelude.Results.{Result}
use sfu.Types.{SocketAddr, Instant}
use sfu.Sdp.{
  Attribute, MediaDescription, ParsedDescription, ConnectionRole, ExtMap, SdpCodec,
  SessionDescription,
}

-- The attributes of a STUN message that the code asks for.
pub data StunAttribute : Type 0 where
  ice_controlled ice_controlling network_cost priority use_candidate : StunAttribute

-- rtcp::header::PacketType, at the two types that the code compares with.
pub data PacketType : Type 0 where
  receiver_report transport_specific_feedback other : PacketType

-- rtcp::sender_report::SenderReport, at the fields that are read.
pub record SenderReport : Type 0 where
  pub ssrc : ℕ  -- u32
  pub ntp_time : ℕ  -- u64

-- rtcp::reception_report::ReceptionReport
pub record ReceptionReport : Type 0 where
  pub ssrc : ℕ  -- u32
  pub last_sequence_number : ℕ  -- u32
  pub last_sender_report : ℕ  -- u32
  pub fraction_lost : ℕ  -- u8
  pub total_lost : ℕ  -- u32
  pub delay : ℕ  -- u32
  pub jitter : ℕ  -- u32

-- rtcp::receiver_report::ReceiverReport with the other fields at their defaults.
pub record ReceiverReport : Type 0 where
  pub ssrc : ℕ  -- u32
  pub reports : List ReceptionReport

-- dtls::extension::extension_use_srtp::SrtpProtectionProfile, at the profiles that the code takes.
pub data SrtpProtectionProfile : Type 0 where
  srtp_aes128_cm_hmac_sha1_80 srtp_aead_aes_128_gcm other : SrtpProtectionProfile

-- srtp::protection_profile::ProtectionProfile, at the profiles that the code asks for.
pub data ProtectionProfile : Type 0 where
  aes128_cm_hmac_sha1_80 aead_aes_128_gcm : ProtectionProfile

-- srtp::config::Config with its keys; an option is the type of its parameter.
pub record SrtpConfig (ContextOption : Type 0) : Type 0 where
  pub local_master_key : List ℕ
  pub local_master_salt : List ℕ
  pub remote_master_key : List ℕ
  pub remote_master_salt : List ℕ
  pub profile : ProtectionProfile
  pub local_rtp_options : Option ContextOption
  pub local_rtcp_options : Option ContextOption
  pub remote_rtp_options : Option ContextOption
  pub remote_rtcp_options : Option ContextOption

-- dtls::endpoint::EndpointEvent
pub data DtlsEvent : Type 0 where
  handshake_complete : DtlsEvent
  application_data : List ℕ → DtlsEvent

-- dtls::Transmit
pub record DtlsTransmit : Type 0 where
  pub now : Instant
  pub remote : SocketAddr
  pub ecn : Option ℕ
  pub payload : List ℕ

-- datachannel::message::message_channel_open::ChannelType
pub data ChannelType : Type 0 where
  reliable reliable_unordered partial_reliable_rexmit : ChannelType
  partial_reliable_rexmit_unordered partial_reliable_timed : ChannelType
  partial_reliable_timed_unordered : ChannelType

-- sctp::ReliabilityType
pub data ReliabilityType : Type 0 where
  reliable rexmit timed : ReliabilityType

-- sctp::PayloadProtocolIdentifier
pub data PayloadProtocolIdentifier : Type 0 where
  dcep string binary string_empty binary_empty unknown : PayloadProtocolIdentifier

-- sctp::Payload; what a partial decode holds is not read.
pub data Payload : Type 0 where
  raw_encode : List (List ℕ) → Payload
  partial_decode : Payload

-- sctp::Transmit
pub record SctpTransmit : Type 0 where
  pub now : Instant
  pub remote : SocketAddr
  pub payload : Payload
  pub ecn : Option ℕ
  pub local_ip : Option ℕ

-- dtls::crypto::Certificate: the DER bytes of its chain and its key.
pub record DtlsCertificate (PrivateKey : Type 0) : Type 0 where
  pub certificate : List (List ℕ)
  pub private_key : PrivateKey

-- sctp::Event, at the event that is read.
pub data SctpEvent : Type 0 where
  readable : ℕ → SctpEvent
  other : SctpEvent

-- sctp::DatagramEvent
pub data DatagramEvent (Association Event : Type 0) : Type 0 where
  new_association : Association → DatagramEvent Association Event
  association_event : Event → DatagramEvent Association Event

pub record Crates : Type 1 where
  -- rtc-rtp and rtc-rtcp
  pub RtpPacket : Type 0
  pub RtcpPacket : Type 0
  -- The fields of `packet.header`: u32, u16 and u32.
  pub packet_ssrc : RtpPacket → ℕ
  pub sequence_number : RtpPacket → ℕ
  pub timestamp : RtpPacket → ℕ
  pub packet_type : RtcpPacket → PacketType
  -- `as_any().downcast_ref()`, and a report in its box.
  pub as_sender_report : RtcpPacket → Option SenderReport
  pub box_receiver_report : ReceiverReport → RtcpPacket
  pub rtp_unmarshal : List ℕ → Result RtpPacket
  pub rtp_marshal : RtpPacket → Result (List ℕ)
  pub rtcp_unmarshal : List ℕ → Result (List RtcpPacket)
  pub rtcp_marshal : List RtcpPacket → Result (List ℕ)
  -- shared::util::is_rtcp
  pub is_rtcp : List ℕ → Bool
  -- rtc-datachannel: MessageType::unmarshal tells an open message from the others and leaves the rest of
  -- the buffer; DataChannelOpen::unmarshal of the rest gives the channel type and its parameter.
  pub message_type_is_open : List ℕ → Result (Bool × List ℕ)
  pub data_channel_open_unmarshal : List ℕ → Result (ChannelType × ℕ)
  pub data_channel_ack_marshal : Result (List ℕ)
  -- rtc-stun
  pub StunMessage : Type 0
  pub TransactionId : Type 0
  pub stun_decode : List ℕ → Result StunMessage
  pub stun_encode : StunMessage → List ℕ
  pub contains : StunMessage → StunAttribute → Bool
  pub transaction_id : StunMessage → TransactionId
  -- TextAttribute::get_from_as(request, ATTR_USERNAME)
  pub get_username : StunMessage → Result Text
  -- MessageIntegrity::new_short_term_integrity(password).check(request)
  pub integrity_check : Text → StunMessage → Result StunMessage
  pub integrity_add_to : Text → StunMessage → Result StunMessage
  pub fingerprint_add_to : StunMessage → Result StunMessage
  -- Message::new() with build(&[BINDING_SUCCESS, id, XorMappedAddress { ip, port }])
  pub build_binding_success : TransactionId → ℕ → ℕ → Result StunMessage
  -- String::from_utf8, serde_json::from_str and to_string, at RTCSessionDescription
  pub from_utf8 : List ℕ → Result Text
  pub description_from_json : Text → Result SessionDescription
  pub description_to_json : SessionDescription → Result Text
  -- rtc-sdp
  pub sdp_unmarshal : Text → Result ParsedDescription
  pub sdp_marshal : ParsedDescription → Text
  pub new_jsep_session_description : Bool → ParsedDescription
  pub new_jsep_media_description : Text → MediaDescription
  pub with_value_attribute : Text → Text → MediaDescription → MediaDescription
  pub with_property_attribute : Text → MediaDescription → MediaDescription
  pub with_ice_credentials : Text → Text → MediaDescription → MediaDescription
  pub with_fingerprint : Text → Text → MediaDescription → MediaDescription
  pub with_codec : ℕ → Text → ℕ → ℕ → Text → MediaDescription → MediaDescription
  pub with_extmap : ExtMap → MediaDescription → MediaDescription
  pub with_media_source : ℕ → Text → Text → Text → MediaDescription → MediaDescription
  pub with_media : MediaDescription → ParsedDescription → ParsedDescription
  pub session_with_value_attribute : Text → Text → ParsedDescription → ParsedDescription
  pub session_with_property_attribute : Text → ParsedDescription → ParsedDescription
  pub session_with_fingerprint : Text → Text → ParsedDescription → ParsedDescription
  pub session_attribute : Text → ParsedDescription → Option Text
  pub media_attribute : Text → MediaDescription → Option (Option Text)
  -- sdp::description::session::ATTR_KEY_*
  pub attr_key_connection_setup : Text
  pub attr_key_ext_map : Text
  pub attr_key_group : Text
  pub attr_key_icelite : Text
  pub attr_key_mid : Text
  pub attr_key_rtcpmux : Text
  pub attr_key_rtcprsize : Text
  pub role_to_string : ConnectionRole → Text
  pub get_codec_for_payload_type : ParsedDescription → ℕ → Result SdpCodec
  -- ExtMap::unmarshal of the printed attribute
  pub extmap_unmarshal : Attribute → Result ExtMap
  -- sdp::extmap::TRANSPORT_CC_URI
  pub transport_cc_uri : Text
  -- url::Url::parse, printed again
  pub url_parse : Text → Result Text
  -- the address in the form that `ip()` prints, and str::to_uppercase
  pub ip_to_string : ℕ → Text
  pub to_uppercase : Text → Text
  pub to_lowercase : Text → Text
  -- hex::decode
  pub hex_decode : Text → Result (List ℕ)
  -- sha2::Sha256
  pub sha256 : List ℕ → List ℕ
  -- pem::encode of a block with a tag, pem::parse, and UNIX_EPOCH.checked_add(Duration::from_secs(n)) in
  -- nanoseconds
  pub pem_encode : Text → List ℕ → Text
  pub pem_parse : Text → Result (Text × List ℕ)
  pub checked_after_epoch : ℕ → Option ℕ
  -- rtc-dtls, rtc-sctp and rtc-srtp
  pub PrivateKey : Type 0
  pub dtls_from_pem : Text → Result (DtlsCertificate PrivateKey)
  pub dtls_serialize_pem : DtlsCertificate PrivateKey → Text
  pub DtlsConfig : Type 0
  pub DtlsEndpoint : Type 0
  pub SctpEndpointConfig : Type 0
  pub SctpServerConfig : Type 0
  -- the `default()` of the three configurations
  pub dtls_config_default : DtlsConfig
  pub sctp_endpoint_config_default : SctpEndpointConfig
  pub sctp_server_config_default : SctpServerConfig
  pub dtls_endpoint_new : DtlsConfig → DtlsEndpoint
  -- endpoint.read(now, remote, local_ip, ecn, data)
  pub dtls_read :
      Instant
      → SocketAddr
      → Option ℕ
      → Option ℕ
      → List ℕ
      → DtlsEndpoint
      → Result (List DtlsEvent) × DtlsEndpoint
  pub dtls_write : SocketAddr → List ℕ → DtlsEndpoint → Result (Unit {0}) × DtlsEndpoint
  pub get_connections_keys : DtlsEndpoint → List SocketAddr
  pub dtls_handle_timeout : SocketAddr → Instant → DtlsEndpoint → DtlsEndpoint
  -- `poll_timeout` at the deadline so far.
  pub dtls_poll_timeout : SocketAddr → DtlsEndpoint → Instant → Instant
  -- `poll_transmit` until it gives nothing.
  pub dtls_poll_transmits : DtlsEndpoint → List DtlsTransmit × DtlsEndpoint
  pub DtlsState : Type 0
  pub get_connection_state : SocketAddr → DtlsEndpoint → Option DtlsState
  pub srtp_protection_profile : DtlsState → SrtpProtectionProfile
  pub SctpEndpoint : Type 0
  pub sctp_endpoint_new : SctpEndpointConfig → SctpServerConfig → SctpEndpoint
  pub sctp_port : SctpServerConfig → ℕ
  pub max_message_size : SctpServerConfig → ℕ
  pub Association : Type 0
  -- The methods of an association, also through the stream that `conn.stream(id)` borrows from it.
  pub open_stream : ℕ → Association → Result (Unit {0}) × Association
  pub set_reliability_params :
      ℕ → Bool → ReliabilityType → ℕ → Association → Result (Unit {0}) × Association
  pub write_with_ppi :
      ℕ → List ℕ → PayloadProtocolIdentifier → Association → Result (Unit {0}) × Association
  pub SctpAssociationEvent : Type 0
  -- endpoint.handle(now, remote, local_ip, ecn, data)
  pub sctp_handle :
      Instant
      → SocketAddr
      → Option ℕ
      → Option ℕ
      → List ℕ
      → SctpEndpoint
      → Option (ℕ × DatagramEvent Association SctpAssociationEvent) × SctpEndpoint
  pub association_handle_event : SctpAssociationEvent → Association → Association
  pub association_poll : Association → Option SctpEvent × Association
  pub Chunks : Type 0
  pub chunks_ppi : Chunks → PayloadProtocolIdentifier
  -- What `chunks.read` writes to a buffer of a size.
  pub chunks_read : ℕ → Chunks → Result (List ℕ)
  pub read_sctp : ℕ → Association → Result (Option Chunks) × Association
  pub association_handle_timeout : Instant → Association → Association
  pub association_poll_timeout : Association → Option Instant
  -- `poll_transmit` and `poll_endpoint_event` until they give nothing.
  pub association_poll_transmits : Instant → Association → List SctpTransmit × Association
  pub SctpEndpointEvent : Type 0
  pub association_poll_endpoint_events : Association → List SctpEndpointEvent × Association
  pub sctp_handle_event : ℕ → SctpEndpointEvent → SctpEndpoint → SctpEndpoint
  pub SrtpContext : Type 0
  pub ContextOption : Type 0
  -- Config { profile, .. } with `extract_session_keys_from_dtls(state, false)`
  pub extract_session_keys : ProtectionProfile → DtlsState → Result (SrtpConfig ContextOption)
  pub srtp_replay_protection : ℕ → ContextOption
  pub srtcp_replay_protection : ℕ → ContextOption
  pub srtp_context_new :
      List ℕ
      → List ℕ
      → ProtectionProfile
      → Option ContextOption
      → Option ContextOption
      → Result SrtpContext
  -- Each call moves the context on, also when it fails.
  pub decrypt_rtp : List ℕ → SrtpContext → Result (List ℕ) × SrtpContext
  pub decrypt_rtcp : List ℕ → SrtpContext → Result (List ℕ) × SrtpContext
  pub encrypt_rtp : List ℕ → SrtpContext → Result (List ℕ) × SrtpContext
  pub encrypt_rtcp : List ℕ → SrtpContext → Result (List ℕ) × SrtpContext
  -- std::time::Duration::from_secs, in the unit of `Instant`
  pub from_secs : ℕ → ℕ
  -- f64, with `as f64` of an unsigned number and the casts back
  pub F64 : Type 0
  pub as_secs_f64 : ℕ → F64  -- Duration::as_secs_f64
  pub to_f64 : ℕ → F64
  pub add_f64 : F64 → F64 → F64
  pub sub_f64 : F64 → F64 → F64
  pub mul_f64 : F64 → F64 → F64
  pub div_f64 : F64 → F64 → F64
  pub abs_f64 : F64 → F64
  pub as_u8 : F64 → ℕ
  pub as_u32 : F64 → ℕ
