-- ===== src/Codec.antt =====
-- src/description/rtp_codec.rs and rtp_transceiver.rs: codecs, RTP parameters and transceivers.
pub mod Fmtp
pub mod Search
use sfu.Prelude.{
  ℕ, true, Option, List, PartialEq, ◌==◌, ◌≡◌, ◌↔◌, arith, if◌then◌else◌, Text, codes, nat_eq,
  list_eq,
}
use sfu.Prelude.Int.{ℤ}
use sfu.Types.{Mid}
use sfu.Direction.{Direction}

-- RTPCodecType
pub data CodecType : Type 0 where
  unspecified audio video : CodecType

abbrev pub number : CodecType → ℕ
number unspecified = 0
number audio = 1
number video = 2

pub number_iff : (s t : CodecType) → ((number s == number t) ≡ true) ↔ (s ≡ t)
number_iff s t = ground arith

instance abbrev pub codec_type_eq : PartialEq CodecType
codec_type_eq = record { equal = λ s t. number s == number t; equal_iff = number_iff }

-- impl From<&str>
unfoldable pub from_str : Text → CodecType
from_str raw =
    if raw == codes "audio" then audio else if raw == codes "video" then video else unspecified

-- impl From<u8>
unfoldable pub from_u8 : ℕ → CodecType
from_u8 v = if v == 1 then audio else if v == 2 then video else unspecified

-- impl Display
unfoldable pub to_string : CodecType → Text
to_string audio = codes "audio"
to_string video = codes "video"
to_string unspecified = codes "Unspecified"

-- RTCPFeedback
pub record RtcpFeedback : Type 0 where
  pub typ : Text
  pub parameter : Text

-- RTCRtpCodecCapability
pub record CodecCapability : Type 0 where
  pub mime_type : Text
  pub clock_rate : ℕ  -- u32
  pub channels : ℕ  -- u16
  pub sdp_fmtp_line : Text
  pub rtcp_feedbacks : List RtcpFeedback

-- RTCRtpCodecParameters
pub record CodecParameters : Type 0 where
  pub capability : CodecCapability
  pub payload_type : ℕ  -- u8
  pub stats_id : ℕ

-- RTCRtpHeaderExtensionParameters
pub record HeaderExtensionParameters : Type 0 where
  pub uri : Text
  pub id : ℤ

-- RTCRtpParameters
pub record RtpParameters : Type 0 where
  pub header_extensions : List HeaderExtensionParameters
  pub codecs : List CodecParameters

pub record MediaStreamId : Type 0 where
  pub stream_id : Text
  pub track_id : Text

pub record SsrcGroup : Type 0 where
  pub name : Text
  pub ssrcs : List ℕ

-- RTCRtpSender
pub record RtpSender : Type 0 where
  pub cname : Text
  pub msid : MediaStreamId
  pub ssrcs : List ℕ
  pub ssrc_groups : List SsrcGroup

-- RTCRtpTransceiver
pub record Transceiver : Type 0 where
  pub mid : Mid
  pub sender : Option RtpSender
  pub direction : Direction
  pub current_direction : Direction
  pub rtp_params : RtpParameters
  pub kind : CodecType

unfoldable pub set_current_direction : Transceiver → Direction → Transceiver
set_current_direction self d = record self { current_direction = d }
