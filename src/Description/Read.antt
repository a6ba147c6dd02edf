-- ===== src/Description/Read.antt =====
-- src/description/mod.rs: what a media section of a parsed description says.
use sfu.Prelude.{
  ℕ, ◌+◌, ◌^◌, Bool, false, Option, none, some, List, [], ◌∷◌, ◌++◌, map, if◌then◌else◌, ◌==◌,
  nat_eq, list_eq, Text, codes, any, find,
}
use sfu.Prelude.HashMap.{HashMap, insert}
use sfu.Prelude.Results.{Result, ok, err, other, ◌>>=◌, map_results, ok_or}
use sfu.Prelude.Strings.{split, split_whitespace, contains, last?, parse_unsigned}
use sfu.Crates.{Crates}
use sfu.Direction
use sfu.Direction.{Direction, direction_eq}
use sfu.Sdp.{Attribute, MediaDescription, ParsedDescription, SessionDescription, Origin, SdpCodec}
use sfu.Codec.{MediaStreamId, SsrcGroup, CodecParameters, RtcpFeedback, HeaderExtensionParameters}

abbrev pub media_section_application : Text
media_section_application = codes "application"

abbrev mid_of : List Attribute → Option Text
mid_of [] = none
mid_of (attr ∷ attrs) = if attr.key == codes "mid" then attr.value else mid_of attrs

unfoldable pub get_mid_value : MediaDescription → Option Text
get_mid_value media = mid_of media.attributes

abbrev direction_of : List Attribute → Direction
direction_of [] = Direction.unspecified
direction_of (a ∷ attrs) =
    if Direction.from_str a.key == Direction.unspecified
    then direction_of attrs
    else Direction.from_str a.key

unfoldable pub get_peer_direction : MediaDescription → Direction
get_peer_direction media = direction_of media.attributes

-- The value of an attribute with this key and a value.
abbrev value_at : Text → Attribute → Option Text
value_at key a = if a.key == key then a.value else none

abbrev cname_in : Attribute → Option Text
cname_in a = elim (value_at (codes "ssrc") a) [
  | none ↦ none
  | some value ↦ if contains (codes "cname") value then last? (split b':' value) else none
]

abbrev first_some {ℓ κ} : {A : Type ℓ} {B : Type κ} → (A → Option B) → List A → Option B
first_some f [] = none
first_some f (x ∷ xs) = elim (f x) [ none ↦ first_some f xs | some y ↦ some y ]

unfoldable pub get_cname : MediaDescription → Option Text
get_cname media = first_some cname_in media.attributes

abbrev two_fields : List Text → Option MediaStreamId
two_fields (s ∷ t ∷ []) = some (record { stream_id = s; track_id = t })
two_fields fields = none

abbrev msid_after : Option Text → Option MediaStreamId
msid_after none = none
msid_after (some msid) = two_fields (split_whitespace msid)

abbrev msid_in : Attribute → Option MediaStreamId
msid_in a = if a.key == codes "msid" then msid_after a.value else elim (value_at (codes "ssrc") a) [
  | none ↦ none
  | some value ↦
      if contains (codes "msid") value then msid_after (last? (split b':' value)) else none
]

unfoldable pub get_msid : MediaDescription → Option MediaStreamId
get_msid media = first_some msid_in media.attributes

abbrev pub parse_u32 : Text → Result ℕ
parse_u32 s = ok_or (other (codes "ParseIntError")) (parse_unsigned (2 ^ 32) s)

abbrev pub parse_u8 : Text → Result ℕ
parse_u8 s = ok_or (other (codes "ParseIntError")) (parse_unsigned 256 s)

-- The `ssrc-group` lines: a name and at least two numbers.
abbrev group_of : List Text → Result (List SsrcGroup)
group_of (name ∷ a ∷ b ∷ rest) = map_results parse_u32 (a ∷ b ∷ rest) >>= λ ssrcs.
    ok (record { name = name; ssrcs = ssrcs } ∷ [])
group_of fields = ok []

abbrev groups_in : Attribute → Result (List SsrcGroup)
groups_in a = elim (value_at (codes "ssrc-group") a) [
  | none ↦ ok []
  | some value ↦ group_of (split_whitespace value)
]

abbrev groups_of : List Attribute → Result (List SsrcGroup)
groups_of [] = ok []
groups_of (a ∷ attrs) = groups_in a >>= λ gs. groups_of attrs >>= λ rest. ok (gs ++ rest)

unfoldable pub get_ssrc_groups : MediaDescription → Result (List SsrcGroup)
get_ssrc_groups media = groups_of media.attributes

-- The first field of an `ssrc` line, added where it is new.
abbrev add_ssrc : List ℕ → List Text → Result (List ℕ)
add_ssrc ssrcs [] = ok ssrcs
add_ssrc ssrcs (field ∷ fields) = parse_u32 field >>= λ ssrc.
    ok (if any (λ s. s == ssrc) ssrcs then ssrcs else ssrcs ++ ssrc ∷ [])

abbrev ssrcs_from : List ℕ → List Attribute → Result (List ℕ)
ssrcs_from ssrcs [] = ok ssrcs
ssrcs_from ssrcs (a ∷ attrs) = elim (value_at (codes "ssrc") a) [
  | none ↦ ssrcs_from ssrcs attrs
  | some value ↦ add_ssrc ssrcs (split_whitespace value) >>= λ found. ssrcs_from found attrs
]

unfoldable pub get_ssrcs : MediaDescription → Result (List ℕ)
get_ssrcs media = ssrcs_from [] media.attributes

-- The simulcast layers: the first word of each `rid` line, with the line.
abbrev rids_from : HashMap Text Text → List Attribute → HashMap Text Text
rids_from rids [] = rids
rids_from rids (a ∷ attrs) = elim (value_at (codes "rid") a) [
  | none ↦ rids_from rids attrs
  | some value ↦ elim (split b' ' value) [
    | [] ↦ rids_from rids attrs
    | name ∷ rest ↦ rids_from (insert name value rids) attrs
  ]
]

unfoldable pub get_rids : MediaDescription → HashMap Text Text
get_rids media = rids_from [] media.attributes

abbrev is_application : MediaDescription → Bool
is_application m = m.media_name.media == media_section_application

unfoldable pub have_application_media_section : ParsedDescription → Bool
have_application_media_section desc = any is_application desc.media_descriptions

unfoldable pub have_data_channel : SessionDescription → Option MediaDescription
have_data_channel desc = elim desc.parsed [
  | none ↦ none
  | some parsed ↦ find is_application parsed.media_descriptions
]

unfoldable pub update_sdp_origin : Origin → ParsedDescription → Origin × ParsedDescription
update_sdp_origin origin d = if origin.session_version == 0 then (d.origin, d) else (
  record origin { session_version = origin.session_version + 1 },
  record d {
    origin = record {
      session_id = origin.session_id;
      session_version = d.origin.session_version + 1;
    };
  },
)

module _ (c : Crates) where
  unfoldable pub get_by_mid : Text → SessionDescription → Option MediaDescription
  get_by_mid search_mid desc = elim desc.parsed [
    | none ↦ none
    | some parsed ↦ find has_mid parsed.media_descriptions
  ]
    where
      has_mid : MediaDescription → Bool
      has_mid m = elim (c.media_attribute c.attr_key_mid m) [
        | none ↦ false
        | some none ↦ false
        | some (some mid) ↦ mid == search_mid
      ]

  feedback_entry : Text → RtcpFeedback
  feedback_entry raw = elim (split b' ' raw) [
    | [] ↦ record { typ = []; parameter = [] }
    | typ ∷ [] ↦ record { typ = typ; parameter = [] }
    | typ ∷ parameter ∷ [] ↦ record { typ = typ; parameter = parameter }
    | typ ∷ parameter ∷ more ∷ rest ↦ record { typ = typ; parameter = [] }
  ]

  codec_parameters : MediaDescription → ℕ → SdpCodec → CodecParameters
  unfolding feedback_entry
  codec_parameters m payload_type codec = record {
    capability = record {
      mime_type = m.media_name.media ++ (codes "/" ++ codec.name);
      clock_rate = codec.clock_rate;
      channels = elim (parse_unsigned (2 ^ 16) codec.encoding_parameters) [ none ↦ 0 | some n ↦ n ];
      sdp_fmtp_line = codec.fmtp;
      rtcp_feedbacks = map feedback_entry codec.rtcp_feedback;
    };
    payload_type = payload_type;
    stats_id = 0;
  }

  -- A payload type 0 that no attribute describes is skipped, any other is an error.
  codec_of : MediaDescription → Text → Result (List CodecParameters)
  unfolding codec_parameters
  codec_of m payload_str = parse_u8 payload_str >>= λ payload_type.
      elim (c.get_codec_for_payload_type (alone m) payload_type) [
        | ok codec ↦ ok (codec_parameters m payload_type codec ∷ [])
        | err e ↦ if payload_type == 0 then ok [] else err e
      ]
    where
      alone : MediaDescription → ParsedDescription
      alone m = record {
        origin = record { session_id = 0; session_version = 0 };
        attributes = [];
        media_descriptions = m ∷ [];
      }

  codecs_from : MediaDescription → List Text → Result (List CodecParameters)
  unfolding codec_of
  codecs_from m [] = ok []
  codecs_from m (f ∷ formats) =
      codec_of m f >>= λ here. codecs_from m formats >>= λ rest. ok (here ++ rest)

  unfoldable pub codecs_from_media_description : MediaDescription → Result (List CodecParameters)
  unfolding codecs_from
  codecs_from_media_description m = codecs_from m m.media_name.formats

  extensions_from : List Attribute → Result (List HeaderExtensionParameters)
  extensions_from [] = ok []
  extensions_from (a ∷ attrs) =
      if a.key == c.attr_key_ext_map
      then (c.extmap_unmarshal a >>= λ e. extensions_from attrs >>= λ rest.
          ok (elim e.uri [ none ↦ rest | some uri ↦ record { uri = uri; id = e.value } ∷ rest ]))
      else extensions_from attrs

  unfoldable pub rtp_extensions_from_media_description :
      MediaDescription → Result (List HeaderExtensionParameters)
  unfolding extensions_from
  rtp_extensions_from_media_description m = extensions_from m.attributes
