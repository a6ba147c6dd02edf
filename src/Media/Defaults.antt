-- ===== src/Media/Defaults.antt =====
-- src/configs/media_config.rs: the codecs and interceptors that are registered by default.
use sfu.Prelude.{ℕ, false, List, [], ◌∷◌, none, true, Text, codes}
use sfu.Prelude.Results.{Result, ok, err, ◌>>=◌}
use sfu.Codec.{CodecType, CodecParameters}
use sfu.Media.{MediaConfig, register_codec}
use sfu.Interceptor.{ReportBuilder, add}

abbrev mime_type_h264 : Text
mime_type_h264 = codes "video/H264"

abbrev mime_type_opus : Text
mime_type_opus = codes "audio/opus"

abbrev mime_type_vp8 : Text
mime_type_vp8 = codes "video/VP8"

abbrev mime_type_vp9 : Text
mime_type_vp9 = codes "video/VP9"

abbrev mime_type_av1 : Text
mime_type_av1 = codes "video/AV1"

abbrev mime_type_g722 : Text
mime_type_g722 = codes "audio/G722"

abbrev mime_type_pcmu : Text
mime_type_pcmu = codes "audio/PCMU"

abbrev mime_type_pcma : Text
mime_type_pcma = codes "audio/PCMA"

-- One entry of the tables: the lists of feedback are empty, and the rest is at its default.
abbrev parameters : Text → ℕ → ℕ → Text → ℕ → CodecParameters
parameters mime_type clock_rate channels sdp_fmtp_line payload_type = record {
  capability = record {
    mime_type = mime_type;
    clock_rate = clock_rate;
    channels = channels;
    sdp_fmtp_line = sdp_fmtp_line;
    rtcp_feedbacks = [];
  };
  payload_type = payload_type;
  stats_id = 0;
}

unfoldable pub default_audio_codecs : List CodecParameters
default_audio_codecs =
    parameters mime_type_opus 48000 2 (codes "minptime=10;useinbandfec=1") 111
    ∷ parameters mime_type_g722 8000 0 [] 9
    ∷ parameters mime_type_pcmu 8000 0 [] 0
    ∷ parameters mime_type_pcma 8000 0 [] 8
    ∷ []

unfoldable pub default_video_codecs : List CodecParameters
default_video_codecs =
    parameters mime_type_vp8 90000 0 [] 96
    ∷ parameters mime_type_vp9 90000 0 (codes "profile-id=0") 98
    ∷ parameters mime_type_vp9 90000 0 (codes "profile-id=1") 100
    ∷ parameters mime_type_h264 90000 0
        (codes "level-asymmetry-allowed=1;packetization-mode=1;profile-level-id=42001f") 102
    ∷ parameters mime_type_h264 90000 0
        (codes "level-asymmetry-allowed=1;packetization-mode=0;profile-level-id=42001f") 127
    ∷ parameters mime_type_h264 90000 0
        (codes "level-asymmetry-allowed=1;packetization-mode=1;profile-level-id=42e01f") 125
    ∷ parameters mime_type_h264 90000 0
        (codes "level-asymmetry-allowed=1;packetization-mode=0;profile-level-id=42e01f") 108
    ∷ parameters mime_type_h264 90000 0
        (codes "level-asymmetry-allowed=1;packetization-mode=0;profile-level-id=42001f") 127
    ∷ parameters mime_type_h264 90000 0
        (codes "level-asymmetry-allowed=1;packetization-mode=1;profile-level-id=640032") 123
    ∷ parameters mime_type_av1 90000 0 (codes "profile-id=0") 41
    ∷ parameters (codes "video/ulpfec") 90000 0 [] 116
    ∷ []

-- `for codec in codecs { self.register_codec(codec, typ)? }`
unfoldable pub register_all : List CodecParameters → CodecType → MediaConfig → Result MediaConfig
unfolding register_codec
register_all [] typ self = ok self
register_all (codec ∷ codecs) typ self =
    register_codec self codec typ >>= λ self'. register_all codecs typ self'

unfoldable pub register_default_codecs : MediaConfig → Result MediaConfig
unfolding register_all default_audio_codecs default_video_codecs
register_default_codecs self = register_all default_audio_codecs CodecType.audio self >>= λ self'.
    register_all default_video_codecs CodecType.video self'

-- SenderReport::builder and ReceiverReport::builder.
abbrev sender_builder : ReportBuilder
sender_builder = record { is_rr = false; interval = none }

abbrev receiver_builder : ReportBuilder
receiver_builder = record { is_rr = true; interval = none }

unfoldable pub configure_rtcp_reports : MediaConfig → MediaConfig
unfolding add
configure_rtcp_reports self = record self {
  registry = add (add self.registry sender_builder) receiver_builder;
}

unfoldable pub register_default_interceptors : MediaConfig → Result MediaConfig
unfolding configure_rtcp_reports
register_default_interceptors self = ok (configure_rtcp_reports self)

-- `let _ =` on the result of a method that leaves the state where it fails.
abbrev or_kept : MediaConfig → Result MediaConfig → MediaConfig
or_kept self (ok self') = self'
or_kept self (err e) = self

-- impl Default
unfoldable pub default : MediaConfig
unfolding register_default_codecs register_default_interceptors
default =
    let registered = or_kept empty (register_default_codecs empty) in
    or_kept registered (register_default_interceptors registered)
  where
    empty : MediaConfig
    empty = record {
      registry = [];
      negotiated_video = false;
      negotiated_audio = false;
      video_codecs = [];
      audio_codecs = [];
      negotiated_video_codecs = [];
      negotiated_audio_codecs = [];
      header_extensions = [];
      proposed_header_extensions = [];
      negotiated_header_extensions = [];
    }

unfoldable pub clone_to : MediaConfig → MediaConfig
unfolding default
clone_to self = record default {
  video_codecs = self.video_codecs;
  audio_codecs = self.audio_codecs;
  header_extensions = self.header_extensions;
}
