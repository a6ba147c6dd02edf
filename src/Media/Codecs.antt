-- ===== src/Media/Codecs.antt =====
-- The lists of codecs that `add_codec`, `register_codec` and `push_codecs` of src/configs/media_config.rs build.
use sfu.Prelude.{
  ◌≡◌, refl, Bool, true, false, ◌&&◌, ◌||◌, List, [], ◌∷◌, ◌++◌, arith, any, Bool-cases, ◌==◌,
  nat_eq, list_eq, beq_refl, inl, inr,
}
use sfu.Codec.{CodecParameters}
use sfu.Media.{add_codec}

-- Two codecs that `add_codec` takes for one.
abbrev pub same_codec : CodecParameters → CodecParameters → Bool
same_codec codec c =
    c.capability.mime_type == codec.capability.mime_type && c.payload_type == codec.payload_type

-- No codec of the list stands in it twice.
abbrev pub AllDifferent : List CodecParameters → Type 0
AllDifferent [] = Unit
AllDifferent (c ∷ cs) = (any (λ d. same_codec d c) cs ≡ false) × AllDifferent cs

pub any-append :
    {A : Type 0} (p : A → Bool) (xs ys : List A) → any p (xs ++ ys) ≡ (any p xs || any p ys)
any-append p [] ys = refl
any-append p (x ∷ xs) ys = ground (arith, any-append p xs ys)

append-AllDifferent :
    (cs : List CodecParameters) (codec : CodecParameters)
    → AllDifferent cs
    → any (same_codec codec) cs ≡ false
    → AllDifferent (cs ++ codec ∷ [])
append-AllDifferent [] codec d h = (refl, tt)
append-AllDifferent (c ∷ cs) codec d h = (
  ground (arith, any-append (λ d. same_codec d c) cs (codec ∷ []), d.0),
  append-AllDifferent cs codec d.1 (ground arith),
)

pub add_codec_there :
    (cs : List CodecParameters) (codec : CodecParameters)
    → any (same_codec codec) cs ≡ true
    → add_codec cs codec ≡ cs
unfolding add_codec
add_codec_there cs codec h = rw h refl

pub add_codec_new :
    (cs : List CodecParameters) (codec : CodecParameters)
    → any (same_codec codec) cs ≡ false
    → add_codec cs codec ≡ cs ++ codec ∷ []
unfolding add_codec
add_codec_new cs codec h = rw h refl

same_codec_refl : (codec : CodecParameters) → same_codec codec codec ≡ true
same_codec_refl codec = rw (beq_refl codec.capability.mime_type, beq_refl codec.payload_type) refl

has_appended :
    (cs : List CodecParameters) (codec : CodecParameters)
    → any (same_codec codec) (cs ++ codec ∷ []) ≡ true
has_appended cs codec =
    ground (arith, any-append (same_codec codec) cs (codec ∷ []), same_codec_refl codec)

-- Adding a codec keeps the list free of repetitions and keeps the codecs that were there; the codec is there
-- afterwards, so that adding it again changes nothing.
pub add_codec-AllDifferent :
    (cs : List CodecParameters) (codec : CodecParameters)
    → AllDifferent cs
    → AllDifferent (add_codec cs codec)
      × (any (same_codec codec) (add_codec cs codec) ≡ true)
      × (add_codec (add_codec cs codec) codec ≡ add_codec cs codec)
add_codec-AllDifferent cs codec d = elim (Bool-cases (any (same_codec codec) cs)) [
  | inl h ↦ rw (add_codec_there cs codec h) (d, h, add_codec_there cs codec h)
  | inr h ↦ rw (add_codec_new cs codec h) (
    append-AllDifferent cs codec d h,
    has_appended cs codec,
    add_codec_there (cs ++ codec ∷ []) codec (has_appended cs codec),
  )
]
