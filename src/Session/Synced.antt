-- ===== src/Session/Synced.antt =====
-- The mids of one endpoint beside its transceivers, as src/session/mod.rs adds to both.
use sfu.Prelude.{
  ◌≡◌, refl, inl, inr, Bool, true, false, ◌||◌, none, some, List, [], ◌∷◌, ◌++◌, arith, any,
  Bool-cases, Option-cases, ◌==◌, nat_eq, list_eq, sym, ◌∙◌, beq_sym,
}
use sfu.Prelude.HashMap.{HashMap, get, insert, adjust, contains_key, get-insert, get-adjust}
use sfu.Prelude.Results.{ok, Result-cases}
use sfu.Crates.{Crates}
use sfu.Types.{Mid}
use sfu.Direction.{Direction, direction_eq}
use sfu.Sdp.{MediaDescription}
use sfu.Codec.{Transceiver, CodecType, set_current_direction}
use sfu.Endpoint
use sfu.Endpoint.{Endpoint}
use sfu.SdpType.{sdp_type_eq}
use sfu.Session.{
  add_transceiver, offer_to_other, offered_transceiver, negotiated_media, local_medias,
}

abbrev pub has_mid : Mid → List Mid → Bool
has_mid mid = any (λ m. m == mid)

-- No mid is listed twice.
abbrev Distinct : List Mid → Type 0
Distinct [] = Unit
Distinct (m ∷ ms) = (has_mid m ms ≡ false) × Distinct ms

has_mid-append :
    (mid : Mid) (ms : List Mid) (m : Mid)
    → has_mid mid (ms ++ m ∷ []) ≡ (has_mid mid ms || m == mid)
has_mid-append mid [] m = ground arith
has_mid-append mid (x ∷ ms) m = ground (arith, has_mid-append mid ms m)

append-Distinct :
    (ms : List Mid) (m : Mid) → Distinct ms → has_mid m ms ≡ false → Distinct (ms ++ m ∷ [])
append-Distinct [] m d h = (refl, tt)
append-Distinct (x ∷ ms) m d h = (
  ground (arith, has_mid-append x ms m, d.0, beq_sym x m),
  append-Distinct ms m d.1 (ground arith),
)

pub adjust-contains :
    (k mid : Mid) (f : Transceiver → Transceiver) (ts : HashMap Mid Transceiver)
    → contains_key mid (adjust k f ts) ≡ contains_key mid ts
adjust-contains k mid f ts = ground (arith, get-adjust k mid f ts)

insert-contains :
    (k mid : Mid) (t : Transceiver) (ts : HashMap Mid Transceiver)
    → contains_key mid (insert k t ts) ≡ (contains_key mid ts || k == mid)
insert-contains k mid t ts = ground (arith, get-insert k mid t ts)

pub offered_transceiver-mid :
    (c : Crates) (m : MediaDescription) (kind : CodecType) (mid : Mid) (t : Transceiver)
    → offered_transceiver c m kind mid ≡ ok t
    → t.mid ≡ mid
unfolding offered_transceiver
offered_transceiver-mid c m kind mid t h = ground arith

pub local_medias-contains :
    (ms : List MediaDescription) (mid : Mid) (ts : HashMap Mid Transceiver)
    → contains_key mid (local_medias ms ts).1 ≡ contains_key mid ts
unfolding local_medias
local_medias-contains [] mid ts = refl
local_medias-contains (m ∷ ms) mid ts = elim (Result-cases (negotiated_media m)) [
  | inl (e, h) ↦ rw (h, local_medias) refl
  | inr (none, h) ↦ rw (h, local_medias) (local_medias-contains ms mid ts)
  | inr (some (kind, d, k), h) ↦
      rw (h, local_medias)
        (local_medias-contains ms mid _ ∙ adjust-contains k mid (λ t. set_current_direction t d) ts)
]

module _ {c : Crates} where
  -- Each mid is listed once, and the listed ones are those that have a transceiver.
  pub record IsSynced (e : Endpoint c) : Type 0 where
    pub listed : (mid : Mid) → has_mid mid e.mids ≡ contains_key mid e.transceivers
    pub distinct : Distinct e.mids

  pub add_transceiver-IsSynced :
      (t : Transceiver) (e : Endpoint c)
      → contains_key t.mid e.transceivers ≡ false
      → IsSynced e
      → IsSynced (add_transceiver t e)
  unfolding add_transceiver
  add_transceiver-IsSynced t e h s = record {
    listed = λ mid.
        has_mid-append mid e.mids t.mid
        ∙ rw (s.listed mid) refl
        ∙ sym (insert-contains t.mid mid t e.transceivers);
    distinct = append-Distinct e.mids t.mid s.distinct (s.listed t.mid ∙ h);
  }

  flag-IsSynced :
      (b : Bool) (e : Endpoint c) → IsSynced e → IsSynced (Endpoint.set_renegotiation_needed e b)
  unfolding Endpoint.set_renegotiation_needed
  flag-IsSynced b e s = record { listed = s.listed; distinct = s.distinct }

  pub offer_to_other-IsSynced :
      (t : Transceiver) (e : Endpoint c) → IsSynced e → IsSynced (offer_to_other t e)
  unfolding offer_to_other Endpoint.set_renegotiation_needed
  offer_to_other-IsSynced t e s = elim (Option-cases (get t.mid e.transceivers)) [
    | inr (o, h) ↦ elim (Bool-cases (o.direction == t.direction)) [
      | inl same ↦ rw (h, same, offer_to_other) s
      | inr changed ↦
          rw (h, changed, offer_to_other)
            (record {
              listed = λ mid. s.listed mid ∙ sym (adjust-contains t.mid mid _ e.transceivers);
              distinct = s.distinct;
            })
    ]
    | inl h ↦ elim (Bool-cases (t.direction == Direction.sendonly)) [
      | inr kept ↦ rw (h, kept, offer_to_other) s
      | inl sends ↦
          rw (h, sends, offer_to_other)
            (flag-IsSynced true _ (add_transceiver-IsSynced t e (rw h refl) s))
    ]
  ]
