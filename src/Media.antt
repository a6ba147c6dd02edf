-- ===== src/Media.antt =====
-- src/configs/media_config.rs: the codecs and header extensions of the server, registered and
-- negotiated.
pub mod Codecs
pub mod Extensions
pub mod Remote
pub mod Assigned
pub mod Defaults
pub mod Registered
pub mod Feedback
use sfu.Prelude.{
  ℕ, Bool, true, false, not, ◌&&◌, ◌||◌, Option, none, some, List, [], ◌∷◌, ◌++◌, map,
  if◌then◌else◌, ◌==◌, nat_eq, list_eq, Text, codes, any, find, length, ltb,
}
use sfu.Prelude.HashMap.{HashMap, keys}
use sfu.Prelude.Int.{ℤ, pos, int_eq}
use sfu.Prelude.Results.{Result, Error, ok, err, other}
use sfu.Direction
use sfu.Direction.{Direction, direction_eq, has_send, has_recv}
use sfu.Codec.{
  CodecType, CodecParameters, HeaderExtensionParameters, RtpParameters, RtcpFeedback, codec_type_eq,
}
use sfu.Interceptor.{Registry}

-- RTCRtpHeaderExtension
pub record HeaderExtension : Type 0 where
  pub uri : Text
  pub is_audio : Bool
  pub is_video : Bool
  pub allowed_direction : Option Direction

pub record MediaConfig : Type 0 where
  pub registry : Registry
  pub negotiated_video : Bool
  pub negotiated_audio : Bool
  pub video_codecs : List CodecParameters
  pub audio_codecs : List CodecParameters
  pub negotiated_video_codecs : List CodecParameters
  pub negotiated_audio_codecs : List CodecParameters
  pub header_extensions : List HeaderExtension
  pub proposed_header_extensions : HashMap ℤ HeaderExtension
  pub negotiated_header_extensions : HashMap ℤ HeaderExtension

-- VALID_EXT_IDS, the range 1..15, and its `end`.
abbrev pub valid_ext_ids : List ℤ
valid_ext_ids = map pos (1 ∷ 2 ∷ 3 ∷ 4 ∷ 5 ∷ 6 ∷ 7 ∷ 8 ∷ 9 ∷ 10 ∷ 11 ∷ 12 ∷ 13 ∷ 14 ∷ [])

abbrev pub valid_ext_ids_end : ℕ
valid_ext_ids_end = 15

unfoldable pub is_matching_direction : HeaderExtension → Direction → Bool
is_matching_direction self dir = elim self.allowed_direction [
  | none ↦ true
  | some allowed ↦
      (allowed == Direction.inactive && dir == Direction.inactive)
      || (has_send allowed && has_send dir)
      || (has_recv allowed && has_recv dir)
]

unfoldable pub add_codec : List CodecParameters → CodecParameters → List CodecParameters
add_codec codecs codec = if any same codecs then codecs else codecs ++ codec ∷ []
  where
    same : CodecParameters → Bool
    same c =
        c.capability.mime_type == codec.capability.mime_type && c.payload_type == codec.payload_type

unfoldable pub register_codec : MediaConfig → CodecParameters → CodecType → Result MediaConfig
unfolding add_codec
register_codec self codec CodecType.audio =
    ok (record self { audio_codecs = add_codec self.audio_codecs codec })
register_codec self codec CodecType.video =
    ok (record self { video_codecs = add_codec self.video_codecs codec })
register_codec self codec CodecType.unspecified = err (other (codes "ErrUnknownType"))

-- The found or new extension, marked for the codec type: `ext` in `register_header_extension`.
mark : CodecType → Text → HeaderExtension → HeaderExtension
mark CodecType.audio uri ext = record ext { is_audio = true; uri = uri }
mark CodecType.video uri ext = record ext { is_video = true; uri = uri }
mark CodecType.unspecified uri ext = record ext { uri = uri }

direction_beq : Option Direction → Option Direction → Bool
direction_beq none none = true
direction_beq (some d) (some e) = d == e
direction_beq _ _ = false

-- `iter_mut().find(..)` and the writes to what it finds.
unfoldable pub mark_first : CodecType → Text → List HeaderExtension → List HeaderExtension
unfolding mark
mark_first typ uri [] = []
mark_first typ uri (e ∷ es) =
    if e.uri == uri then mark typ uri e ∷ es else e ∷ mark_first typ uri es

-- The second part is the state that is left behind, also where the direction is refused.
unfoldable pub register_header_extension :
    MediaConfig → Text → CodecType → Option Direction → Result (Unit {0}) × MediaConfig
unfolding mark mark_first direction_beq
register_header_extension self uri typ allowed =
    elim (find (λ ext. ext.uri == uri) self.header_extensions) [
      | some ext ↦ (
        if direction_beq ext.allowed_direction allowed then ok tt else err invalid_direction,
        record self { header_extensions = mark_first typ uri self.header_extensions },
      )
      | none ↦
          if ltb valid_ext_ids_end (length self.header_extensions)
          then (err (other (codes "ErrRegisterHeaderExtensionNoFreeID")), self)
          else (
            ok tt,
            record self {
              header_extensions =
                  self.header_extensions
                  ++ mark typ uri (record {
                    uri = [];
                    is_audio = false;
                    is_video = false;
                    allowed_direction = allowed;
                  })
                    ∷ [];
            },
          )
    ]
  where
    invalid_direction : Error
    invalid_direction = other (codes "ErrRegisterHeaderExtensionInvalidDirection")

push_feedback : RtcpFeedback → CodecParameters → CodecParameters
push_feedback feedback c = record c {
  capability = record c.capability {
    rtcp_feedbacks = c.capability.rtcp_feedbacks ++ feedback ∷ [];
  };
}

unfoldable pub register_rtcp_feedback : MediaConfig → RtcpFeedback → CodecType → MediaConfig
unfolding push_feedback
register_rtcp_feedback self feedback CodecType.video = record self {
  video_codecs = map (push_feedback feedback) self.video_codecs;
}
register_rtcp_feedback self feedback CodecType.audio = record self {
  audio_codecs = map (push_feedback feedback) self.audio_codecs;
}
register_rtcp_feedback self feedback CodecType.unspecified = self

unfoldable pub get_header_extension_id : MediaConfig → Text → ℤ × Bool × Bool
get_header_extension_id self uri =
    elim (find (λ e. uri == e.1.uri) self.negotiated_header_extensions) [
      | none ↦ (pos 0, false, false)
      | some (id, h) ↦ (id, h.is_audio, h.is_video)
    ]

unfoldable pub get_codec_by_payload : MediaConfig → ℕ → Result (CodecParameters × CodecType)
get_codec_by_payload self payload_type =
    elim (find (λ codec. codec.payload_type == payload_type) self.negotiated_video_codecs) [
      | some codec ↦ ok (codec, CodecType.video)
      | none ↦
          elim (find (λ codec. codec.payload_type == payload_type) self.negotiated_audio_codecs) [
            | some codec ↦ ok (codec, CodecType.audio)
            | none ↦ err (other (codes "ErrCodecNotFound"))
          ]
    ]

unfoldable pub push_codecs : MediaConfig → List CodecParameters → CodecType → MediaConfig
unfolding add_codec
push_codecs self [] typ = self
push_codecs self (codec ∷ codecs) CodecType.audio =
    push_codecs
      (record self { negotiated_audio_codecs = add_codec self.negotiated_audio_codecs codec })
      codecs CodecType.audio
push_codecs self (codec ∷ codecs) CodecType.video =
    push_codecs
      (record self { negotiated_video_codecs = add_codec self.negotiated_video_codecs codec })
      codecs CodecType.video
push_codecs self (codec ∷ codecs) CodecType.unspecified = self

unfoldable pub get_codecs_by_kind : MediaConfig → CodecType → List CodecParameters
get_codecs_by_kind self CodecType.video =
    if self.negotiated_video then self.negotiated_video_codecs else self.video_codecs
get_codecs_by_kind self CodecType.audio =
    if self.negotiated_audio then self.negotiated_audio_codecs else self.audio_codecs
get_codecs_by_kind self CodecType.unspecified = []

-- `e.is_audio && typ == Audio || e.is_video && typ == Video`
abbrev pub for_kind : CodecType → HeaderExtension → Bool
for_kind typ e = (e.is_audio && typ == CodecType.audio) || (e.is_video && typ == CodecType.video)

abbrev pub is_negotiated : MediaConfig → CodecType → Bool
is_negotiated self typ =
    (self.negotiated_video && typ == CodecType.video)
    || (self.negotiated_audio && typ == CodecType.audio)

abbrev negotiated_for :
    (HeaderExtension → Bool) → HashMap ℤ HeaderExtension → List HeaderExtensionParameters
negotiated_for p [] = []
negotiated_for p ((id, e) ∷ es) =
    if p e then record { uri = e.uri; id = id } ∷ negotiated_for p es else negotiated_for p es

abbrev pub is_free : MediaConfig → ℤ → Bool
is_free self id =
    not (any (λ nid. nid == id) (keys self.negotiated_header_extensions))
    && not (any (λ pid. pid == id) (keys self.proposed_header_extensions))

-- An identifier that is neither negotiated nor proposed.
unfoldable pub free_id : MediaConfig → Option ℤ
free_id self = find (is_free self) valid_ext_ids

abbrev pub with_uri : Text → ℤ × HeaderExtension → Bool
with_uri uri e = e.1.uri == uri

-- The identifier of one relevant extension: negotiated, else proposed, else a free one.
unfoldable pub extension_id : MediaConfig → HeaderExtension → List HeaderExtensionParameters
unfolding free_id
extension_id self ext = elim (find (with_uri ext.uri) self.negotiated_header_extensions) [
  | some (id, e) ↦ record { uri = e.uri; id = id } ∷ []
  | none ↦ elim (find (with_uri ext.uri) self.proposed_header_extensions) [
    | some (id, e) ↦ record { uri = e.uri; id = id } ∷ []
    | none ↦ elim (free_id self) [ some id ↦ record { uri = ext.uri; id = id } ∷ [] | none ↦ [] ]
  ]
]

unfoldable pub extensions_for :
    MediaConfig → CodecType → Direction → List HeaderExtension → List HeaderExtensionParameters
unfolding extension_id is_matching_direction
extensions_for self typ direction [] = []
extensions_for self typ direction (ext ∷ exts) =
    if is_matching_direction ext direction && for_kind typ ext
    then extension_id self ext ++ extensions_for self typ direction exts
    else extensions_for self typ direction exts

unfoldable pub get_rtp_parameters_by_kind : MediaConfig → CodecType → Direction → RtpParameters
unfolding extensions_for is_matching_direction get_codecs_by_kind
get_rtp_parameters_by_kind self typ direction = record {
  header_extensions =
      if is_negotiated self typ
      then negotiated_for (λ e. is_matching_direction e direction && for_kind typ e)
          self.negotiated_header_extensions
      else extensions_for self typ direction self.header_extensions;
  codecs = get_codecs_by_kind self typ;
}

unfoldable pub get_rtp_parameters_by_payload_type : MediaConfig → ℕ → Result RtpParameters
unfolding get_codec_by_payload
get_rtp_parameters_by_payload_type self payload_type =
    elim (get_codec_by_payload self payload_type) [
      | err e ↦ err e
      | ok (codec, typ) ↦ ok (record {
        header_extensions = negotiated_for (for_kind typ) self.negotiated_header_extensions;
        codecs = codec ∷ [];
      })
    ]
