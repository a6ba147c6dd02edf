-- ===== src/Messages.antt =====
-- src/messages.rs: the events that pass between the handlers of the pipeline.
use sfu.Prelude.{ℕ, Bool, Option, List}
use sfu.Crates.{Crates, ReliabilityType}
use sfu.Types.{TransportContext, Instant}

-- retty::transport::TaggedBytesMut
pub record TaggedBytesMut : Type 0 where
  pub now : Instant
  pub transport : TransportContext
  pub message : List ℕ

pub data DataChannelMessageType : Type 0 where
  untyped control binary text : DataChannelMessageType

pub record DataChannelMessageParams : Type 0 where
  pub unordered : Bool
  pub reliability_type : ReliabilityType
  pub reliability_parameter : ℕ

pub data DataChannelEvent : Type 0 where
  opened closed : DataChannelEvent
  message : List ℕ → DataChannelEvent

pub record DataChannelMessage : Type 0 where
  pub association_handle : ℕ
  pub stream_id : ℕ
  pub data_message_type : DataChannelMessageType
  pub params : Option DataChannelMessageParams
  pub payload : List ℕ

pub record ApplicationMessage : Type 0 where
  pub association_handle : ℕ
  pub stream_id : ℕ
  pub data_channel_event : DataChannelEvent

pub data StunMessageEvent (c : Crates) : Type 0 where
  raw : List ℕ → StunMessageEvent c
  message : c.StunMessage → StunMessageEvent c

pub data DtlsMessageEvent : Type 0 where
  raw : List ℕ → DtlsMessageEvent
  sctp : DataChannelMessage → DtlsMessageEvent
  data_channel : ApplicationMessage → DtlsMessageEvent

pub data RtpMessageEvent (c : Crates) : Type 0 where
  raw : List ℕ → RtpMessageEvent c
  packet : c.RtpPacket → RtpMessageEvent c
  rtcp : List c.RtcpPacket → RtpMessageEvent c

pub data MessageEvent (c : Crates) : Type 0 where
  stun : StunMessageEvent c → MessageEvent c
  dtls : DtlsMessageEvent → MessageEvent c
  rtp : RtpMessageEvent c → MessageEvent c

pub record TaggedMessageEvent (c : Crates) : Type 0 where
  pub now : Instant
  pub transport : TransportContext
  pub message : MessageEvent c
