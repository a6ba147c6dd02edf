-- ===== src/Media/Remote.antt =====
-- The negotiation of src/configs/media_config.rs with a remote description: which of its codecs are taken
-- over, and the identifiers of the header extensions.
use sfu.Prelude.{
  ℕ, true, not, ◌&&◌, ◌||◌, none, some, List, [], ◌∷◌, ◌++◌, ◌==◌, if◌then◌else◌, nat_eq, list_eq,
  codes, any, find, is_empty, Text,
}
use sfu.Prelude.HashMap.{get, insert, remove, adjust}
use sfu.Prelude.Int.{ℤ, int_eq}
use sfu.Prelude.Results.{Result, ok, err, ◌>>=◌}
use sfu.Crates.{Crates}
use sfu.Sdp.{MediaDescription, ParsedDescription}
use sfu.Codec.{CodecType, audio, video, CodecParameters, HeaderExtensionParameters, codec_type_eq}
use sfu.Codec.Fmtp.{parse, parameter}
use sfu.Codec.Search.{CodecMatch, no_match, partial, exact, codec_parameters_fuzzy_search}
use sfu.Description.Read.{
  codecs_from_media_description, rtp_extensions_from_media_description, parse_u8,
}
use sfu.Media.{MediaConfig, HeaderExtension, push_codecs}

-- Where the codec that `apt` names stands among the matches so far.
unfoldable pub apt_match : ℕ → List CodecParameters → List CodecParameters → CodecMatch
apt_match payload_type exacts partials =
    if any (λ codec. codec.payload_type == payload_type) exacts
    then exact
    else if any (λ codec. codec.payload_type == payload_type) partials
    then partial
    else no_match

-- A codec for another one matches as that one does at best.
unfoldable pub limited : CodecMatch → CodecMatch → CodecMatch
limited no_match found = no_match
limited partial exact = partial
limited partial found = found
limited exact found = found

unfoldable pub match_remote_codec :
    (c : Crates)
    → CodecParameters
    → CodecType
    → List CodecParameters
    → List CodecParameters
    → MediaConfig
    → Result CodecMatch
unfolding apt_match limited
match_remote_codec c remote typ exacts partials self =
    let codecs = if typ == audio then self.audio_codecs else self.video_codecs in
    let found = (codec_parameters_fuzzy_search c remote codecs).1 in
    elim (parameter (parse c remote.capability.mime_type remote.capability.sdp_fmtp_line)
      (codes "apt")) [
        | none ↦ ok found
        | some apt ↦ parse_u8 apt >>= λ payload_type.
            ok (limited (apt_match payload_type exacts partials) found)
      ]

-- The loop over the codecs of a media section, with the matches so far.
unfoldable pub match_codecs :
    (c : Crates)
    → CodecType
    → List CodecParameters
    → List CodecParameters
    → List CodecParameters
    → MediaConfig
    → Result (List CodecParameters × List CodecParameters)
unfolding match_remote_codec
match_codecs c typ [] exacts partials self = ok (exacts, partials)
match_codecs c typ (codec ∷ codecs) exacts partials self =
    match_remote_codec c codec typ exacts partials self >>= λ m. elim m [
      | exact ↦ match_codecs c typ codecs (exacts ++ codec ∷ []) partials self
      | partial ↦ match_codecs c typ codecs exacts (partials ++ codec ∷ []) self
      | no_match ↦ match_codecs c typ codecs exacts partials self
    ]

unfoldable pub widen : CodecType → HeaderExtension → HeaderExtension
widen typ ext = record ext {
  is_video = ext.is_video || (typ == video);
  is_audio = ext.is_audio || (typ == audio);
}

-- The body of the loop, at one local extension: an identifier that is taken is not assigned again.
unfoldable pub update_for : ℤ → Text → CodecType → HeaderExtension → MediaConfig → MediaConfig
unfolding widen
update_for id uri typ local self =
    if local.uri == uri
    then record self {
      negotiated_header_extensions =
          elim (find (λ e. e.1.uri == uri) self.negotiated_header_extensions) [
            | some (nid, ext) ↦
                if nid == id
                then adjust id (widen typ) self.negotiated_header_extensions
                else self.negotiated_header_extensions
            | none ↦ elim (get id self.negotiated_header_extensions) [
              | some prev ↦ self.negotiated_header_extensions
              | none ↦
                  insert id
                    (record {
                      uri = uri;
                      is_audio = local.is_audio && (typ == audio);
                      is_video = local.is_video && (typ == video);
                      allowed_direction = local.allowed_direction;
                    })
                    self.negotiated_header_extensions
            ]
          ];
      proposed_header_extensions = remove id self.proposed_header_extensions;
    }
    else self

unfoldable pub update_for_all :
    ℤ → Text → CodecType → List HeaderExtension → MediaConfig → MediaConfig
unfolding update_for
update_for_all id uri typ [] self = self
update_for_all id uri typ (local ∷ locals) self =
    update_for_all id uri typ locals (update_for id uri typ local self)

-- It never fails.
unfoldable pub update_header_extension : ℤ → Text → CodecType → MediaConfig → MediaConfig
unfolding update_for_all
update_header_extension id uri typ self = update_for_all id uri typ self.header_extensions self

unfoldable pub update_extensions :
    List HeaderExtensionParameters → CodecType → MediaConfig → MediaConfig
unfolding update_header_extension
update_extensions [] typ self = self
update_extensions (e ∷ es) typ self =
    update_extensions es typ (update_header_extension e.id e.uri typ self)

-- A media section whose kind has been claimed: exact matches, else partial ones, are negotiated, and only
-- then its header extensions.
unfoldable pub take_over :
    (c : Crates) → MediaDescription → CodecType → MediaConfig → Result (Unit {0}) × MediaConfig
unfolding match_codecs update_extensions push_codecs
take_over c media typ self =
    elim (codecs_from_media_description c media >>= λ codecs.
    match_codecs c typ codecs [] [] self) [
      | err e ↦ (err e, self)
      | ok (exacts, partials) ↦
          if is_empty exacts && is_empty partials
          then (ok tt, self)
          else (let pushed = push_codecs self (if is_empty exacts then partials else exacts) typ in
              elim (rtp_extensions_from_media_description c media) [
                | err e ↦ (err e, pushed)
                | ok extensions ↦ (ok tt, update_extensions extensions typ pushed)
              ])
    ]

-- The first section of each kind counts; the kind is marked as negotiated before the section is read.
unfoldable pub update_media :
    (c : Crates) → MediaDescription → MediaConfig → Result (Unit {0}) × MediaConfig
unfolding take_over
update_media c media self =
    if not self.negotiated_audio && (c.to_lowercase media.media_name.media == codes "audio")
    then take_over c media audio (record self { negotiated_audio = true })
    else if not self.negotiated_video && (c.to_lowercase media.media_name.media == codes "video")
    then take_over c media video (record self { negotiated_video = true })
    else (ok tt, self)

unfoldable pub update_medias :
    (c : Crates) → List MediaDescription → MediaConfig → Result (Unit {0}) × MediaConfig
unfolding update_media
update_medias c [] self = (ok tt, self)
update_medias c (media ∷ medias) self =
    let (r, self') = update_media c media self in
    elim r [ err e ↦ (err e, self') | ok _ ↦ update_medias c medias self' ]

unfoldable pub update_from_remote_description :
    (c : Crates) → ParsedDescription → MediaConfig → Result (Unit {0}) × MediaConfig
unfolding update_medias
update_from_remote_description c desc self = update_medias c desc.media_descriptions self
