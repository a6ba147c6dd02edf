-- ===== src/Sdp.antt =====
-- The types of the crate rtc-sdp that the code takes apart, with the fields that it reads or fills
-- with more than a constant, and RTCSessionDescription of src/description/mod.rs.
use sfu.Prelude.{ℕ, Option, List, Text}
use sfu.Prelude.Int.{ℤ}
use sfu.SdpType.{SdpType}

pub record Attribute : Type 0 where
  pub key : Text
  pub value : Option Text

pub record MediaName : Type 0 where
  pub media : Text
  pub port : ℕ
  pub protos : List Text
  pub formats : List Text

pub record MediaDescription : Type 0 where
  pub media_name : MediaName
  pub attributes : List Attribute

pub record Origin : Type 0 where
  pub session_id : ℕ
  pub session_version : ℕ

-- sdp::SessionDescription
pub record ParsedDescription : Type 0 where
  pub origin : Origin
  pub attributes : List Attribute
  pub media_descriptions : List MediaDescription

-- sdp::util::ConnectionRole
pub data ConnectionRole : Type 0 where
  unspecified active passive actpass : ConnectionRole

pub record ExtMap : Type 0 where
  pub value : ℤ
  pub uri : Option Text

-- sdp::util::Codec
pub record SdpCodec : Type 0 where
  pub name : Text
  pub clock_rate : ℕ
  pub encoding_parameters : Text
  pub fmtp : Text
  pub rtcp_feedback : List Text

-- RTCSessionDescription
pub record SessionDescription : Type 0 where
  pub sdp_type : SdpType
  pub sdp : Text
  pub parsed : Option ParsedDescription
