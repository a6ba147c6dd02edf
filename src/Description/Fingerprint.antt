-- ===== src/Description/Fingerprint.antt =====
-- src/description/mod.rs: session descriptions made of a text, and the fingerprint that a description has.
use sfu.Prelude.{
  ◌≡◌, refl, ◌↔◌, sym, ◌∙◌, ap, Bool, true, ◌&&◌, Option, none, some, List, [], ◌∷◌, ◌++◌, In, inl,
  inr, flat_map, if◌then◌else◌, ◌==◌, list_eq, nat_eq, Text, codes, arith, Bool-cases,
}
use sfu.Prelude.Results.{Result, ok, err, other, ◌>>=◌}
use sfu.Prelude.Strings.{split, join, join-split}
use sfu.Crates.{Crates}
use sfu.SdpType.{SdpType}
use sfu.Sdp.{MediaDescription, ParsedDescription, SessionDescription}

abbrev to_list {ℓ} : {A : Type ℓ} → Option A → List A
to_list none = []
to_list (some a) = a ∷ []

unfoldable pub all_equal : Text → List Text → Bool
all_equal first [] = true
all_equal first (f ∷ fs) = (f == first) && all_equal first fs

abbrev of_parts : List Text → Result (Text × Text)
of_parts (algorithm ∷ value ∷ []) = ok (value, algorithm)
of_parts parts = err (other (codes "ErrSessionDescriptionInvalidFingerprint"))

-- The value and the algorithm.
unfoldable pub parse_fingerprint : Text → Result (Text × Text)
parse_fingerprint text = of_parts (split 32 text)

two_parts :
    (parts : List Text) (value algorithm : Text)
    → of_parts parts ≡ ok (value, algorithm)
    → parts ≡ algorithm ∷ value ∷ []
two_parts [] value algorithm h = absurd (ground arith)
two_parts (a ∷ []) value algorithm h = absurd (ground arith)
two_parts (a ∷ v ∷ []) value algorithm h = ground arith
two_parts (a ∷ v ∷ w ∷ parts) value algorithm h = absurd (ground arith)

parse_fingerprint_lem :
    (text value algorithm : Text)
    → parse_fingerprint text ≡ ok (value, algorithm)
    → text ≡ algorithm ++ (32 ∷ value)
unfolding parse_fingerprint join
parse_fingerprint_lem text value algorithm h =
    sym (join-split 32 text) ∙ ap (join (32 ∷ [])) (two_parts (split 32 text) value algorithm h)

all_equal_lem :
    (first : Text) (fs : List Text) (g : Text) → all_equal first fs ≡ true → In g fs → g ≡ first
unfolding all_equal
all_equal_lem first [] g h i = elim i [ ]
all_equal_lem first (f ∷ fs) g h (inl e) = e ∙ (list_eq.equal_iff f first).0 (ground arith)
all_equal_lem first (f ∷ fs) g h (inr i) = all_equal_lem first fs g (ground arith) i

module _ (c : Crates) where
  -- RTCSessionDescription::unmarshal
  unfoldable pub unmarshal : SessionDescription → Result ParsedDescription
  unmarshal self = c.sdp_unmarshal self.sdp

  -- RTCSessionDescription::answer, offer and pranswer differ in the type.
  unfoldable pub new_description : SdpType → Text → Result SessionDescription
  unfolding unmarshal
  new_description sdp_type sdp =
      let desc : SessionDescription = record { sdp_type = sdp_type; sdp = sdp; parsed = none } in
      unmarshal desc >>= λ parsed. ok (record desc { parsed = some parsed })

  abbrev of_media : MediaDescription → List Text
  of_media m = elim (c.media_attribute (codes "fingerprint") m) [ none ↦ [] | some o ↦ to_list o ]

  unfoldable pub fingerprints : ParsedDescription → List Text
  fingerprints desc =
      to_list (c.session_attribute (codes "fingerprint") desc)
      ++ flat_map of_media desc.media_descriptions

  unfoldable pub extract_fingerprint : ParsedDescription → Result (Text × Text)
  unfolding fingerprints all_equal parse_fingerprint
  extract_fingerprint desc = elim (fingerprints desc) [
    | [] ↦ err (other (codes "ErrSessionDescriptionNoFingerprint"))
    | first ∷ rest ↦
        if all_equal first rest
        then parse_fingerprint first
        else err (other (codes "ErrSessionDescriptionConflictingFingerprints"))
  ]

  -- The fingerprint that is extracted is the one of the description: the texts of its attributes, of which
  -- there is one at least, are all the algorithm, a space and the value.
  pub extract_fingerprint_lem :
      (desc : ParsedDescription) (value algorithm g : Text)
      → extract_fingerprint desc ≡ ok (value, algorithm)
      → In g (fingerprints desc) ↔ (g ≡ algorithm ++ (32 ∷ value))
  unfolding extract_fingerprint
  extract_fingerprint_lem desc value algorithm g h = by_list (fingerprints desc) refl
    where
      by_list :
          (fs : List Text)
          → fingerprints desc ≡ fs
          → In g (fingerprints desc) ↔ (g ≡ algorithm ++ (32 ∷ value))
      by_list [] e = absurd (let h' = rw (extract_fingerprint, e) at h in ground arith)
      by_list (f ∷ fs) e = elim (Bool-cases (all_equal f fs)) [
        | inr k ↦ absurd (let h' = rw (extract_fingerprint, e, k) at h in ground arith)
        | inl k ↦
            let x = parse_fingerprint_lem f value algorithm (rw (extract_fingerprint, e, k) at h) in
            rw e (
              λ i. elim i [ inl q ↦ q ∙ x | inr q ↦ all_equal_lem f fs g k q ∙ x ],
              λ q. inl (q ∙ sym x),
            )
      ]
