-- ===== src/Media/Assigned.antt =====
-- Header extensions that src/configs/media_config.rs has negotiated stay what they are.
use sfu.Prelude.{
  ◌≡◌, refl, ◌∙◌, inl, inr, true, ◌||◌, ◌&&◌, none, some, List, [], ◌∷◌, arith, Option-cases,
  Bool-cases, ◌==◌, find, Text, list_eq, nat_eq, is_empty, codes, not,
}
use sfu.Prelude.HashMap.{get, insert, adjust, get-insert, get-adjust}
use sfu.Prelude.Int.{ℤ, int_eq, int_beq_iff}
use sfu.Prelude.Results.{Result-cases, ◌>>=◌}
use sfu.Crates.{Crates}
use sfu.Sdp.{MediaDescription, ParsedDescription}
use sfu.Codec.{CodecType, audio, video, CodecParameters, HeaderExtensionParameters}
use sfu.Description.Read.{codecs_from_media_description, rtp_extensions_from_media_description}
use sfu.Media.{MediaConfig, HeaderExtension, push_codecs}
use sfu.Media.Remote.{
  widen, update_for, update_for_all, update_header_extension, update_extensions, match_codecs,
  take_over, update_media, update_medias, update_from_remote_description,
}

-- The same extension, for at least the kinds of media that it was for.
pub record Widens (old new : HeaderExtension) : Type 0 where
  pub same_uri : new.uri ≡ old.uri
  pub same_direction : new.allowed_direction ≡ old.allowed_direction
  pub still_audio : (old.is_audio || new.is_audio) ≡ new.is_audio
  pub still_video : (old.is_video || new.is_video) ≡ new.is_video

Widens-refl : (e : HeaderExtension) → Widens e e
Widens-refl e = record {
  same_uri = refl;
  same_direction = refl;
  still_audio = ground arith;
  still_video = ground arith;
}

Widens-widen : (typ : CodecType) (old e : HeaderExtension) → Widens old e → Widens old (widen typ e)
unfolding widen
Widens-widen typ old e w = record {
  same_uri = w.same_uri;
  same_direction = w.same_direction;
  still_audio = ground (arith, w.still_audio);
  still_video = ground (arith, w.still_video);
}

-- The identifier stands for the extension, or for a wider one.
pub Assigned : ℤ → HeaderExtension → MediaConfig → Type 0
Assigned id old self =
    (e : HeaderExtension) × (get id self.negotiated_header_extensions ≡ some e) × Widens old e

adjust-Assigned :
    (id key : ℤ) (typ : CodecType) (old : HeaderExtension) (self : MediaConfig)
    → Assigned id old self
    → Assigned id old (record self {
      negotiated_header_extensions = adjust key (widen typ) self.negotiated_header_extensions;
    })
unfolding Assigned
adjust-Assigned id key typ old self (e, h, w) = elim (Bool-cases (key == id)) [
  | inl k ↦ (
    widen typ e,
    get-adjust key id (widen typ) self.negotiated_header_extensions ∙ rw (k, h) refl,
    Widens-widen typ old e w,
  )
  | inr k ↦ (e, get-adjust key id (widen typ) self.negotiated_header_extensions ∙ rw (k, h) refl, w)
]

insert-Assigned :
    (id key : ℤ) (new old : HeaderExtension) (self : MediaConfig)
    → get key self.negotiated_header_extensions ≡ none
    → Assigned id old self
    → Assigned id old (record self {
      negotiated_header_extensions = insert key new self.negotiated_header_extensions;
    })
unfolding Assigned
insert-Assigned id key new old self free (e, h, w) = elim (Bool-cases (key == id)) [
  | inl k ↦
      absurd (let same : key ≡ id = (int_beq_iff key id).0 k in let free' = rw same at free in cc)
  | inr k ↦ (e, get-insert key id new self.negotiated_header_extensions ∙ rw (k, h) refl, w)
]

update_for-Assigned :
    (id key : ℤ) (uri : Text) (typ : CodecType) (old local : HeaderExtension) (self : MediaConfig)
    → Assigned id old self
    → Assigned id old (update_for key uri typ local self)
unfolding update_for Assigned
update_for-Assigned id key uri typ old local self h = elim (Bool-cases (local.uri == uri)) [
  | inr u ↦ rw (update_for, u) h
  | inl u ↦ elim (Option-cases (find (λ e. e.1.uri == uri) self.negotiated_header_extensions)) [
    | inr ((nid, ext), f) ↦ elim (Bool-cases (nid == key)) [
      | inl k ↦ rw (update_for, u, f, k) (adjust-Assigned id key typ old self h)
      | inr k ↦ rw (update_for, u, f, k) h
    ]
    | inl f ↦ elim (Option-cases (get key self.negotiated_header_extensions)) [
      | inr (prev, g) ↦ rw (update_for, u, f, g) h
      | inl g ↦ rw (update_for, u, f, g) (insert-Assigned id key _ old self g h)
    ]
  ]
]

update_for_all-Assigned :
    (id key : ℤ) (uri : Text) (typ : CodecType) (old : HeaderExtension)
    (locals : List HeaderExtension) (self : MediaConfig)
    → Assigned id old self
    → Assigned id old (update_for_all key uri typ locals self)
unfolding update_for_all
update_for_all-Assigned id key uri typ old [] self h = h
update_for_all-Assigned id key uri typ old (local ∷ locals) self h =
    update_for_all-Assigned id key uri typ old locals (update_for key uri typ local self)
      (update_for-Assigned id key uri typ old local self h)

update_extensions-Assigned :
    (id : ℤ) (typ : CodecType) (old : HeaderExtension) (es : List HeaderExtensionParameters)
    (self : MediaConfig)
    → Assigned id old self
    → Assigned id old (update_extensions es typ self)
unfolding update_extensions update_header_extension
update_extensions-Assigned id typ old [] self h = h
update_extensions-Assigned id typ old (e ∷ es) self h =
    update_extensions-Assigned id typ old es (update_header_extension e.id e.uri typ self)
      (update_for_all-Assigned id e.id e.uri typ old self.header_extensions self h)

push_codecs-Assigned :
    (id : ℤ) (typ : CodecType) (old : HeaderExtension) (codecs : List CodecParameters)
    (self : MediaConfig)
    → Assigned id old self
    → Assigned id old (push_codecs self codecs typ)
unfolding push_codecs Assigned
push_codecs-Assigned id typ old [] self h = h
push_codecs-Assigned id CodecType.audio old (x ∷ xs) self h =
    push_codecs-Assigned id CodecType.audio old xs _ h
push_codecs-Assigned id CodecType.video old (x ∷ xs) self h =
    push_codecs-Assigned id CodecType.video old xs _ h
push_codecs-Assigned id CodecType.unspecified old (x ∷ xs) self h = h

take_over-Assigned :
    (c : Crates) (media : MediaDescription) (id : ℤ) (typ : CodecType) (old : HeaderExtension)
    (self : MediaConfig)
    → Assigned id old self
    → Assigned id old (take_over c media typ self).1
unfolding take_over
take_over-Assigned c media id typ old self h =
    elim (Result-cases
      (codecs_from_media_description c media >>= λ codecs. match_codecs c typ codecs [] [] self)) [
        | inl (e, k) ↦ rw (take_over, k) h
        | inr ((exacts, partials), k) ↦ elim (Bool-cases (is_empty exacts && is_empty partials)) [
          | inl n ↦ rw (take_over, k, n) h
          | inr n ↦ elim (Result-cases (rtp_extensions_from_media_description c media)) [
            | inl (e, x) ↦ rw (take_over, k, n, x) (push_codecs-Assigned id typ old _ self h)
            | inr (es, x) ↦
                rw (take_over, k, n, x)
                  (update_extensions-Assigned id typ old es _
                    (push_codecs-Assigned id typ old _ self h))
          ]
        ]
      ]

update_media-Assigned :
    (c : Crates) (media : MediaDescription) (id : ℤ) (old : HeaderExtension) (self : MediaConfig)
    → Assigned id old self
    → Assigned id old (update_media c media self).1
unfolding update_media Assigned
update_media-Assigned c media id old self h =
    elim (Bool-cases
      (not self.negotiated_audio && (c.to_lowercase media.media_name.media == codes "audio"))) [
        | inl a ↦
            rw (update_media, a)
              (take_over-Assigned c media id audio old (record self { negotiated_audio = true }) h)
        | inr a ↦
            elim (Bool-cases (
              not self.negotiated_video
              && (c.to_lowercase media.media_name.media == codes "video"))) [
                | inl v ↦
                    rw (update_media, a, v)
                      (take_over-Assigned c media id video old
                        (record self { negotiated_video = true }) h)
                | inr v ↦ rw (update_media, a, v) h
              ]
      ]

update_medias-Assigned :
    (c : Crates) (id : ℤ) (old : HeaderExtension) (medias : List MediaDescription)
    (self : MediaConfig)
    → Assigned id old self
    → Assigned id old (update_medias c medias self).1
unfolding update_medias
update_medias-Assigned c id old [] self h = h
update_medias-Assigned c id old (media ∷ medias) self h =
    elim (Result-cases (update_media c media self).0) [
      | inl (e, k) ↦ rw (update_medias, k) (update_media-Assigned c media id old self h)
      | inr (u, k) ↦
          rw (update_medias, k)
            (update_medias-Assigned c id old medias (update_media c media self).1
              (update_media-Assigned c media id old self h))
    ]

-- An identifier of a header extension that is negotiated stands for the same extension after any
-- remote description, read to the end or refused on the way, and for no fewer kinds of media.
pub update_from_remote_description-Assigned :
    (c : Crates) (desc : ParsedDescription) (id : ℤ) (old : HeaderExtension) (self : MediaConfig)
    → get id self.negotiated_header_extensions ≡ some old
    → Assigned id old (update_from_remote_description c desc self).1
unfolding update_from_remote_description Assigned
update_from_remote_description-Assigned c desc id old self h =
    update_medias-Assigned c id old desc.media_descriptions self (old, h, Widens-refl old)
