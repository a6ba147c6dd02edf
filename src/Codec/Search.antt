-- ===== src/Codec/Search.antt =====
-- `codec_parameters_fuzzy_search` of src/description/rtp_codec.rs: an exact match if there is one, else the
-- first codec of the same mime type.
use sfu.Prelude.{
  ℕ, codes, ◌≡◌, refl, Bool, true, false, none, some, List, [], ◌==◌, nat_eq, list_eq, find, any,
  find-some, find-none, ◌&&◌, inl, inr, beq_sym, Option-cases, In, arith,
}
use sfu.Prelude.HashMap.{get}
use sfu.Crates.{Crates}
use sfu.Codec.{CodecParameters}
use sfu.Codec.Fmtp.{
  Fmtp, h264, generic, parse, match_fmtp, Parameters, fmtp_consist, agrees_in, both_have,
  profile_level_id_matches, profile_of,
}

pub data CodecMatch : Type 0 where
  no_match partial exact : CodecMatch

-- RTCRtpCodecParameters::default()
abbrev pub default_codec : CodecParameters
default_codec = record {
  capability = record {
    mime_type = [];
    clock_rate = 0;
    channels = 0;
    sdp_fmtp_line = [];
    rtcp_feedbacks = [];
  };
  payload_type = 0;
  stats_id = 0;
}

module _ (c : Crates) where
  abbrev pub fmtp_of : CodecParameters → Fmtp
  fmtp_of codec = parse c codec.capability.mime_type codec.capability.sdp_fmtp_line

  abbrev pub matches : CodecParameters → CodecParameters → Bool
  matches needle codec = match_fmtp c (fmtp_of needle) (fmtp_of codec)

  abbrev pub same_mime : CodecParameters → CodecParameters → Bool
  same_mime needle codec =
      c.to_uppercase codec.capability.mime_type == c.to_uppercase needle.capability.mime_type

  unfoldable pub codec_parameters_fuzzy_search :
      CodecParameters → List CodecParameters → CodecParameters × CodecMatch
  codec_parameters_fuzzy_search needle haystack = elim (find (matches needle) haystack) [
    | some codec ↦ (codec, CodecMatch.exact)
    | none ↦ elim (find (same_mime needle) haystack) [
      | some codec ↦ (codec, CodecMatch.partial)
      | none ↦ (default_codec, CodecMatch.no_match)
    ]
  ]

  agrees_and : (a b : Bool) → (a && b) ≡ (b && a)
  agrees_and a b = ground arith

  profile_symmetric :
      (a b : List ℕ) → profile_level_id_matches c a b ≡ profile_level_id_matches c b a
  unfolding profile_level_id_matches
  profile_symmetric a b = elim (Option-cases (profile_of c a)) [
    | inl h ↦ elim (Option-cases (profile_of c b)) [
      | inl k ↦ rw (profile_level_id_matches, h, k) refl
      | inr (y, k) ↦ rw (profile_level_id_matches, h, k, h) refl
    ]
    | inr (x, h) ↦ elim (Option-cases (profile_of c b)) [
      | inl k ↦ rw (profile_level_id_matches, h, k) refl
      | inr (y, k) ↦
          rw (profile_level_id_matches, h, k) (ground (arith, beq_sym x.0 y.0, beq_sym x.1 y.1))
    ]
  ]

  both_have_symmetric :
      (key : List ℕ) (test : List ℕ → List ℕ → Bool) (a b : Parameters)
      → ((x y : List ℕ) → test x y ≡ test y x)
      → both_have c key test a b ≡ both_have c key test b a
  unfolding both_have
  both_have_symmetric key test a b s = elim (Option-cases (get key a)) [
    | inl h ↦ elim (Option-cases (get key b)) [
      | inl k ↦ rw (both_have, h, k) refl
      | inr (y, k) ↦ rw (both_have, h, k, h) refl
    ]
    | inr (x, h) ↦ elim (Option-cases (get key b)) [
      | inl k ↦ rw (both_have, h, k) refl
      | inr (y, k) ↦ rw (both_have, h, k, h) (s x y)
    ]
  ]

  -- Whether two sets of format parameters match does not depend on which of them is asked.
  match_fmtp_symmetric : (f g : Fmtp) → match_fmtp c f g ≡ match_fmtp c g f
  unfolding match_fmtp fmtp_consist
  match_fmtp_symmetric (h264 a) (h264 b) =
      rw
        (
          both_have_symmetric (codes "packetization-mode") (λ x y. x == y) a b (λ x y. beq_sym x y),
          both_have_symmetric (codes "profile-level-id") (profile_level_id_matches c) a b
              profile_symmetric,
        )
        refl
  match_fmtp_symmetric (h264 a) (generic n b) = refl
  match_fmtp_symmetric (generic m a) (h264 b) = refl
  match_fmtp_symmetric (generic m a) (generic n b) =
      rw
        (
          beq_sym (c.to_lowercase m) (c.to_lowercase n),
          agrees_and (agrees_in c a b) (agrees_in c b a),
        )
        refl

  -- What a search has to find: a codec with matching parameters, or with the same mime type where none of
  -- the list has matching parameters, or nothing where none has either.
  unfoldable pub Found :
      CodecParameters → List CodecParameters → CodecParameters → CodecMatch → Type 0
  Found needle haystack codec CodecMatch.exact = In codec haystack × (matches needle codec ≡ true)
  Found needle haystack codec CodecMatch.partial =
      In codec haystack × (same_mime needle codec ≡ true) × (any (matches needle) haystack ≡ false)
  Found needle haystack codec CodecMatch.no_match =
      (any (matches needle) haystack ≡ false) × (any (same_mime needle) haystack ≡ false)

  -- The search finds what it has to: see `Found`.
  pub codec_parameters_fuzzy_search-Found :
      (needle : CodecParameters) (haystack : List CodecParameters)
      → Found needle haystack
          (codec_parameters_fuzzy_search needle haystack).0
          (codec_parameters_fuzzy_search needle haystack).1
  unfolding Found codec_parameters_fuzzy_search
  codec_parameters_fuzzy_search-Found needle haystack =
      elim (Option-cases (find (matches needle) haystack)) [
        | inr (x, h) ↦ rw (codec_parameters_fuzzy_search, h) (find-some _ x haystack h)
        | inl h ↦ elim (Option-cases (find (same_mime needle) haystack)) [
          | inr (x, k) ↦
              let (m, t) = find-some _ x haystack k in
              rw (codec_parameters_fuzzy_search, h, k) (m, t, find-none _ haystack h)
          | inl k ↦
              rw (codec_parameters_fuzzy_search, h, k)
                (find-none _ haystack h, find-none _ haystack k)
        ]
      ]
