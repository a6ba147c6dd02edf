-- ===== src/Session/Offers.antt =====
-- The media sections that `generate_matched_sdp` of src/session/mod.rs puts into an offer.
use sfu.Prelude.{
  ◌≡◌, ◌≢◌, refl, ◌⊎◌, inl, inr, Bool, true, false, Option, List, [], ◌∷◌, ◌++◌, arith, any, ◌||◌,
  In, Bool-cases, Option-cases, ◌==◌, list_eq, nat_eq, sym, ◌∙◌, beq_refl, subst,
}
use sfu.Prelude.HashMap.{HashMap, contains_key}
use sfu.Prelude.Results.{Result, Error, ok, err, Result-cases}
use sfu.Types.{Mid}
use sfu.Direction.{Direction, direction_eq}
use sfu.Sdp.{MediaDescription, ParsedDescription}
use sfu.Codec
use sfu.Codec.{Transceiver, CodecType, codec_type_eq}
use sfu.Description.Write.{MediaSection}
use sfu.Description.Read.{get_mid_value, get_peer_direction, media_section_application}
use sfu.Session.Describe.{
  Matched, match_media, match_medias, media_sections, nothing_matched, remote_sections, unmatched,
  with_application, plain_section,
}

-- The sections have the mid.
abbrev pub covers : Mid → List MediaSection → Bool
covers mid = any (λ section. section.mid == mid)

abbrev pub has_data : List MediaSection → Bool
has_data = any (λ section. section.is_data)

any-append :
    {A : Type 0} (p : A → Bool) (xs ys : List A) → any p (xs ++ ys) ≡ (any p xs || any p ys)
any-append p [] ys = refl
any-append p (x ∷ xs) ys = ground (arith, any-append p xs ys)

-- What the loop keeps: a matched mid has a section, and the flag tells of a section for data.
record IsSound (m : Matched) : Type 0 where
  covered : (mid : Mid) → any (λ x. x == mid) m.matched ≡ true → covers mid m.media_sections ≡ true
  data_known : m.have_application ≡ true → has_data m.media_sections ≡ true

abbrev with_section : MediaSection → Matched → Matched
with_section section m = record m { media_sections = m.media_sections ++ section ∷ [] }

with_data-IsSound :
    (mid : Mid) (m : Matched)
    → IsSound m
    → IsSound (record (with_section (plain_section mid true) m) { have_application = true })
with_data-IsSound mid m s = record {
  covered = λ k h.
      any-append (λ x. x.mid == k) m.media_sections (plain_section mid true ∷ [])
      ∙ rw (s.covered k h) refl;
  data_known =
      λ h. any-append (λ x. x.is_data) m.media_sections (plain_section mid true ∷ []) ∙ or_true _;
}
  where
    or_true : (b : Bool) → (b || true) ≡ true
    or_true true = refl
    or_true false = refl

with_media-IsSound :
    (section : MediaSection) (m : Matched)
    → IsSound m
    → IsSound (record (with_section section m) { matched = m.matched ++ section.mid ∷ [] })
with_media-IsSound section m s = record {
  covered = λ k h.
      any-append (λ x. x.mid == k) m.media_sections (section ∷ [])
      ∙ either _ _ (section.mid == k) (s.covered k)
          (sym (any-append (λ x. x == k) m.matched (section.mid ∷ [])) ∙ h);
  data_known =
      λ h. any-append (λ x. x.is_data) m.media_sections (section ∷ []) ∙ rw (s.data_known h) refl;
}
  where
    either :
        (a b x : Bool)
        → (a ≡ true → b ≡ true)
        → (a || (x || false)) ≡ true
        → (b || (x || false)) ≡ true
    either a b x f h = ground arith

match_media-IsSound :
    (ts : HashMap Mid Transceiver) (b : Bool) (media : MediaDescription) (mid : Mid)
    (m m' : Matched)
    → IsSound m
    → match_media ts b media mid m ≡ ok m'
    → IsSound m'
unfolding match_media
match_media-IsSound ts b media mid m m' s h =
    elim (Bool-cases (media.media_name.media == media_section_application)) [
      | inl app ↦ subst IsSound (same _ _ (rw (app, match_media) at h)) (with_data-IsSound mid m s)
      | inr k ↦
          elim (Bool-cases (
            Codec.from_str media.media_name.media == CodecType.unspecified
            || get_peer_direction media == Direction.unspecified)) [
              | inl skipped ↦ subst IsSound (same _ _ (rw (k, skipped, match_media) at h)) s
              | inr taken ↦ elim (Bool-cases (contains_key mid ts)) [
                | inl known ↦
                    subst IsSound (same _ _ (rw (k, taken, known, match_media) at h))
                      (with_media-IsSound _ m s)
                | inr new ↦ absurd (ground arith)
              ]
            ]
    ]
  where
    same : (x y : Matched) → Result.ok x ≡ ok y → x ≡ y
    same x y e = ground arith

match_medias-IsSound :
    (ts : HashMap Mid Transceiver) (b : Bool) (ms : List MediaDescription) (m m' : Matched)
    → IsSound m
    → match_medias ts b ms m ≡ ok m'
    → IsSound m'
unfolding match_medias
match_medias-IsSound ts b [] m m' s h = subst IsSound (ground arith) s
match_medias-IsSound ts b (x ∷ ms) m m' s h = elim (Option-cases (get_mid_value x)) [
  | inl e ↦ match_medias-IsSound ts b ms m m' s (rw (e, match_medias) at h)
  | inr ([], e) ↦ absurd (ground arith)
  | inr (d ∷ mid, e) ↦ elim (Result-cases (match_media ts b x (d ∷ mid) m)) [
    | inl (y, k) ↦ absurd (ground arith)
    | inr (m'', k) ↦
        match_medias-IsSound ts b ms m'' m' (match_media-IsSound ts b x (d ∷ mid) m m'' s k)
          (rw (e, k, match_medias) at h)
  ]
]

unmatched-covers :
    (matched mids : List Mid) (mid : Mid)
    → In mid mids
    → (any (λ x. x == mid) matched ≡ true) ⊎ (covers mid (unmatched matched mids) ≡ true)
unmatched-covers matched [] mid i = elim i [ ]
unmatched-covers matched (m ∷ mids) mid (inl e) = elim (Bool-cases (any (λ x. x == m) matched)) [
  | inl h ↦ inl (rw e h)
  | inr h ↦ inr (rw (h, e, beq_refl m) refl)
]
unmatched-covers matched (m ∷ mids) mid (inr i) = elim (unmatched-covers matched mids mid i) [
  | inl h ↦ inl h
  | inr h ↦ inr (elim (Bool-cases (any (λ x. x == m) matched)) [
    | inl k ↦ rw k h
    | inr k ↦ rw k (ground arith)
  ])
]

with_application-has_data :
    (b : Bool) (xs : List MediaSection)
    → (b ≡ true → has_data xs ≡ true)
    → has_data (with_application b xs) ≡ true
with_application-has_data true xs h = h refl
with_application-has_data false xs h =
    any-append (λ x. x.is_data) xs (plain_section _ true ∷ []) ∙ ground arith

with_application-covers :
    (b : Bool) (xs : List MediaSection) (mid : Mid)
    → covers mid xs ≡ true
    → covers mid (with_application b xs) ≡ true
with_application-covers true xs mid h = h
with_application-covers false xs mid h =
    any-append (λ x. x.mid == mid) xs (plain_section _ true ∷ []) ∙ rw h refl

-- The sections of an offer, from what the loop collected.
abbrev completed : List Mid → Matched → List MediaSection
completed mids m =
    with_application m.have_application (m.media_sections ++ unmatched m.matched mids)

completed_lem :
    (mids : List Mid) (m : Matched)
    → IsSound m
    → ((mid : Mid) → In mid mids → covers mid (completed mids m) ≡ true)
      × (has_data (completed mids m) ≡ true)
completed_lem mids m s = (
  λ mid i.
      with_application-covers m.have_application (m.media_sections ++ unmatched m.matched mids) mid
        (any-append (λ x. x.mid == mid) m.media_sections (unmatched m.matched mids)
          ∙ one_covers mid (unmatched-covers m.matched mids mid i)),
  with_application-has_data m.have_application (m.media_sections ++ unmatched m.matched mids) (λ h.
      any-append (λ x. x.is_data) m.media_sections (unmatched m.matched mids)
      ∙ rw (s.data_known h) refl),
)
  where
    or_true : (b : Bool) → (b || true) ≡ true
    or_true true = refl
    or_true false = refl

    one_covers :
        (mid : Mid)
        → (any (λ x. x == mid) m.matched ≡ true) ⊎ (covers mid (unmatched m.matched mids) ≡ true)
        → (covers mid m.media_sections || covers mid (unmatched m.matched mids)) ≡ true
    one_covers mid (inl h) = rw (s.covered mid h) refl
    one_covers mid (inr h) = rw h (or_true _)

nothing_matched-IsSound : IsSound nothing_matched
nothing_matched-IsSound = record { covered = λ mid h. cc; data_known = λ h. cc }

refused :
    (mids : List Mid) (ts : HashMap Mid Transceiver) (parsed : Option ParsedDescription)
    (sections : List MediaSection) (e : Error)
    → match_medias ts true (remote_sections parsed) nothing_matched ≡ err e
    → media_sections mids ts true parsed ≢ ok sections
unfolding media_sections
refused mids ts parsed sections e k = rw (k, media_sections) (λ h. cc)

made :
    (mids : List Mid) (ts : HashMap Mid Transceiver) (parsed : Option ParsedDescription)
    (m : Matched)
    → match_medias ts true (remote_sections parsed) nothing_matched ≡ ok m
    → media_sections mids ts true parsed ≡ ok (completed mids m)
unfolding media_sections
made mids ts parsed m k = rw (k, media_sections) refl

same : (xs ys : List MediaSection) → Result.ok xs ≡ ok ys → xs ≡ ys
same xs ys h = ground arith

media_sections_lem :
    (mids : List Mid) (ts : HashMap Mid Transceiver) (parsed : Option ParsedDescription)
    (sections : List MediaSection)
    → media_sections mids ts true parsed ≡ ok sections
    → (m : Matched) × (match_medias ts true (remote_sections parsed) nothing_matched ≡ ok m)
      × (sections ≡ completed mids m)
media_sections_lem mids ts parsed sections h =
    elim (Result-cases (match_medias ts true (remote_sections parsed) nothing_matched)) [
      | inl (e, k) ↦ absurd (refused mids ts parsed sections e k h)
      | inr (m, k) ↦ (m, k, same _ _ (sym h ∙ made mids ts parsed m k))
    ]

-- The sections that are collected for an offer: one for every mid that is given, and one for data channels.
pub media_sections_complete :
    (mids : List Mid) (ts : HashMap Mid Transceiver) (parsed : Option ParsedDescription)
    (sections : List MediaSection)
    → media_sections mids ts true parsed ≡ ok sections
    → ((mid : Mid) → In mid mids → covers mid sections ≡ true) × (has_data sections ≡ true)
media_sections_complete mids ts parsed sections h =
    let (m, k, e) = media_sections_lem mids ts parsed sections h in
    rw e (
      completed_lem mids m (
        match_medias-IsSound ts true (remote_sections parsed) nothing_matched m
          nothing_matched-IsSound k))
