-- ===== src/Media/Extensions.antt =====
-- The identifiers of header extensions, as `register_header_extension` and
-- `get_rtp_parameters_by_kind` of src/configs/media_config.rs give them out.
use sfu.Prelude.{
  ℕ, ◌≤◌, ◌≡◌, refl, inl, inr, Bool, true, false, not, ◌&&◌, Option, none, some, List, [], ◌∷◌,
  arith, In, In-append_right, any, find, Option-cases, Bool-cases, ◌==◌, list_eq, nat_eq, length,
  length-append, ltb, Text,
}
use sfu.Prelude.HashMap.{keys}
use sfu.Prelude.Int.{ℤ, int_eq}
use sfu.Codec.{CodecType, HeaderExtensionParameters}
use sfu.Direction.{Direction}
use sfu.Media.{
  MediaConfig, HeaderExtension, valid_ext_ids, free_id, is_free, extension_id, extensions_for,
  with_uri, for_kind, is_negotiated, is_matching_direction, get_rtp_parameters_by_kind,
  register_header_extension, mark_first,
}

find-In :
    {A : Type 0} (p : A → Bool) (xs : List A) (x : A) → find p xs ≡ some x → In x xs × (p x ≡ true)
find-In p [] x h = cc
find-In p (y ∷ ys) x h = elim (Bool-cases (p y)) [
  | inl e ↦ (inl (ground arith), ground arith)
  | inr e ↦ let (i, k) = find-In p ys x (ground arith) in (inr i, k)
]

ltb_fails : (a b : ℕ) → ltb a b ≡ false → b ≤ a
ltb_fails a b h = ground arith

both_not : (a b : Bool) → (not a && not b) ≡ true → (a ≡ false) × (b ≡ false)
both_not a b h = ground arith

-- An identifier that is given out as free is a valid one, and neither negotiated nor proposed.
free_id_unused :
    (m : MediaConfig) (id : ℤ)
    → free_id m ≡ some id
    → In id valid_ext_ids
      × (any (λ x. x == id) (keys m.negotiated_header_extensions) ≡ false)
      × (any (λ x. x == id) (keys m.proposed_header_extensions) ≡ false)
unfolding free_id
free_id_unused m id h =
    let (i, k) = find-In (is_free m) valid_ext_ids id h in let (x, y) = both_not _ _ k in (i, x, y)

extension_id_new :
    (m : MediaConfig) (a : HeaderExtension) (id : ℤ)
    → find (with_uri a.uri) m.negotiated_header_extensions ≡ none
    → find (with_uri a.uri) m.proposed_header_extensions ≡ none
    → free_id m ≡ some id
    → extension_id m a ≡ record { uri = a.uri; id = id } ∷ []
unfolding extension_id
extension_id_new m a id ha ka h = ground arith

-- An extension of the configuration that matches has its identifier among those of the section.
extensions_for-In :
    (m : MediaConfig) (typ : CodecType) (direction : Direction) (a : HeaderExtension)
    (exts : List HeaderExtension) (p : HeaderExtensionParameters)
    → In a exts
    → (is_matching_direction a direction && for_kind typ a) ≡ true
    → extension_id m a ≡ p ∷ []
    → In p (extensions_for m typ direction exts)
unfolding extensions_for
extensions_for-In m typ direction a [] p i r e = elim i [ ]
extensions_for-In m typ direction a (x ∷ exts) p (inl q) r e =
    let r' : (is_matching_direction x direction && for_kind typ x) ≡ true = rw q at r in
    let e' : extension_id m x ≡ p ∷ [] = rw q at e in rw (extensions_for, r', e') (inl refl)
extensions_for-In m typ direction a (x ∷ exts) p (inr i) r e =
    let later = extensions_for-In m typ direction a exts p i r e in
    elim (Bool-cases (is_matching_direction x direction && for_kind typ x)) [
      | inl t ↦
          rw (extensions_for, t)
            (In-append_right p (extension_id m x) (extensions_for m typ direction exts) later)
      | inr t ↦ rw (extensions_for, t) later
    ]

-- The parameters for a kind and a direction of which nothing is negotiated give two extensions of the
-- configuration, which match and are neither negotiated nor proposed, one and the same identifier, if one
-- is free.
pub new_extensions_share_id :
    (m : MediaConfig) (typ : CodecType) (direction : Direction) (a b : HeaderExtension) (id : ℤ)
    → is_negotiated m typ ≡ false
    → In a m.header_extensions
    → In b m.header_extensions
    → (is_matching_direction a direction && for_kind typ a) ≡ true
    → (is_matching_direction b direction && for_kind typ b) ≡ true
    → find (with_uri a.uri) m.negotiated_header_extensions ≡ none
    → find (with_uri b.uri) m.negotiated_header_extensions ≡ none
    → find (with_uri a.uri) m.proposed_header_extensions ≡ none
    → find (with_uri b.uri) m.proposed_header_extensions ≡ none
    → free_id m ≡ some id
    → In
        (record { uri = a.uri; id = id })
        (get_rtp_parameters_by_kind m typ direction).header_extensions
      × In
          (record { uri = b.uri; id = id })
          (get_rtp_parameters_by_kind m typ direction).header_extensions
unfolding get_rtp_parameters_by_kind
new_extensions_share_id m typ direction a b id n ia ib ra rb ha hb ka kb h =
    rw (get_rtp_parameters_by_kind, n)
      (
        extensions_for-In m typ direction a m.header_extensions _ ia ra
            (extension_id_new m a id ha ka h),
        extensions_for-In m typ direction b m.header_extensions _ ib rb
            (extension_id_new m b id hb kb h),
      )

length-mark_first :
    (typ : CodecType) (uri : Text) (es : List HeaderExtension)
    → length (mark_first typ uri es) ≡ length es
unfolding mark_first
length-mark_first typ uri [] = refl
length-mark_first typ uri (e ∷ es) = ground (arith, length-mark_first typ uri es)

-- Whatever is registered, no more than sixteen extensions are kept.
register_header_extension_bound :
    (m : MediaConfig) (uri : Text) (typ : CodecType) (allowed : Option Direction)
    → length m.header_extensions ≤ 16
    → length (register_header_extension m uri typ allowed).1.header_extensions ≤ 16
unfolding register_header_extension
register_header_extension_bound m uri typ allowed h =
    elim (Option-cases (find (λ ext. ext.uri == uri) m.header_extensions)) [
      | inr (ext, e) ↦
          rw (e, register_header_extension) (rw (length-mark_first typ uri m.header_extensions) h)
      | inl e ↦ elim (Bool-cases (ltb 15 (length m.header_extensions))) [
        | inl full ↦ rw (e, full, register_header_extension) h
        | inr room ↦
            rw (e, room, register_header_extension)
              (rw (length-append m.header_extensions _) (omega (arith, ltb_fails 15 _ room)))
      ]
    ]
