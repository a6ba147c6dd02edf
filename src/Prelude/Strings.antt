-- ===== src/Prelude/Strings.antt =====
-- The methods of Rust's `str` that the code calls, on lists of code points.
use Prim.Native.Nat.{ℕ, zero, suc, ◌+◌, ◌-◌, ◌*◌}
use mathlib.Core.Bool.{Bool, true, false, ◌&&◌, ◌||◌}
use mathlib.Core.Option.{Option, none, some}
use mathlib.Core.List.{List, [], ◌∷◌, ◌++◌, append_assoc}
use mathlib.Core.Path.{◌≡◌, refl, sym, ap, ◌∙◌}
use mathlib.Core.Logic.{inl, inr}
use native.Mathlib.Omega.{arith}
use sfu.Prelude.Tests.{Bool-cases, ◌==◌, nat_eq, if◌then◌else◌, ltb, leb}
use sfu.Prelude.Lists.{length, any, append_nil}
use sfu.Prelude.Texts.{Text, list_eq}

-- char::is_whitespace
pub is_whitespace : ℕ → Bool
is_whitespace c =
    (leb 9 c && leb c 13)
    || (leb 0x2000 c && leb c 0x200A)
    || any (λ w. c == w)
        (32 ∷ 0x85 ∷ 0xA0 ∷ 0x1680 ∷ 0x2028 ∷ 0x2029 ∷ 0x202F ∷ 0x205F ∷ 0x3000 ∷ [])

flush : Text → List Text
flush [] = []
flush (c ∷ s) = (c ∷ s) ∷ []

words_from : Text → Text → List Text
unfolding flush is_whitespace
words_from word [] = flush word
words_from word (c ∷ s) = elim (is_whitespace c) [
  | true ↦ flush word ++ words_from [] s
  | false ↦ words_from (word ++ c ∷ []) s
]

unfoldable pub split_whitespace : Text → List Text
unfolding words_from
split_whitespace = words_from []

fields_from : ℕ → Text → Text → List Text
fields_from sep field [] = field ∷ []
fields_from sep field (c ∷ s) = elim (c == sep) [
  | true ↦ field ∷ fields_from sep [] s
  | false ↦ fields_from sep (field ++ c ∷ []) s
]

-- `split(sep)`: never empty.
unfoldable pub split : ℕ → Text → List Text
unfolding fields_from
split sep = fields_from sep []

unfoldable pub starts_with : Text → Text → Bool
starts_with [] s = true
starts_with (p ∷ ps) [] = false
starts_with (p ∷ ps) (c ∷ s) = (p == c) && starts_with ps s

unfoldable pub contains : Text → Text → Bool
unfolding starts_with
contains p [] = starts_with p []
contains p (c ∷ s) = starts_with p (c ∷ s) || contains p s

abbrev drop : ℕ → Text → Text
drop zero s = s
drop (suc n) [] = []
drop (suc n) (c ∷ s) = drop n s

trim_on : ℕ → Text → Text → Text
unfolding starts_with
trim_on zero p s = s
trim_on (suc fuel) p s = elim (starts_with p s) [
  | true ↦ trim_on fuel p (drop (length p) s)
  | false ↦ s
]

-- `trim_start_matches(p)` for a pattern that is not empty: each round shortens the text.
unfoldable pub trim_start_matches : Text → Text → Text
unfolding trim_on
trim_start_matches p s = trim_on (length s) p s

abbrev pub last? {ℓ} : {A : Type ℓ} → List A → Option A
last? [] = none
last? (x ∷ []) = some x
last? (x ∷ y ∷ xs) = last? (y ∷ xs)

unfoldable pub join : Text → List Text → Text
join sep [] = []
join sep (x ∷ []) = x
join sep (x ∷ y ∷ xs) = x ++ (sep ++ join sep (y ∷ xs))

fields_cons :
    (sep : ℕ) (field s : Text) → (x : Text) × (xs : List Text) × (fields_from sep field s ≡ x ∷ xs)
unfolding fields_from
fields_cons sep field [] = (field, [], refl)
fields_cons sep field (c ∷ s) = elim (Bool-cases (c == sep)) [
  | inl t ↦ (field, fields_from sep [] s, rw (fields_from, t) refl)
  | inr t ↦ let (x, xs, e) = fields_cons sep (field ++ c ∷ []) s in (x, xs, rw (fields_from, t) e)
]

join_fields : (sep : ℕ) (field s : Text) → join (sep ∷ []) (fields_from sep field s) ≡ field ++ s
unfolding fields_from join
join_fields sep field [] = sym (append_nil field)
join_fields sep field (c ∷ s) = elim (Bool-cases (c == sep)) [
  | inl t ↦
      let (x, xs, e) = fields_cons sep [] s in
      let ih : join (sep ∷ []) (x ∷ xs) ≡ s = rw e at (join_fields sep [] s) in
      let p : c ≡ sep = ground (arith, nat_eq.equal_iff c sep) in
      rw (fields_from, t, e) (ap (λ r. field ++ (sep ∷ r)) ih ∙ rw p refl)
  | inr t ↦
      rw (fields_from, t) (join_fields sep (field ++ c ∷ []) s ∙ append_assoc field (c ∷ []) s)
]

-- What `split` takes apart is joined again.
pub join-split : (sep : ℕ) (s : Text) → join (sep ∷ []) (split sep s) ≡ s
unfolding split
join-split sep s = join_fields sep [] s

unfoldable pub digits_value : ℕ → ℕ → Text → Option ℕ
digits_value bound acc [] = some acc
digits_value bound acc (c ∷ s) = elim (leb 48 c && leb c 57 && ltb (acc * 10 + (c - 48)) bound) [
  | true ↦ digits_value bound (acc * 10 + (c - 48)) s
  | false ↦ none
]

-- `parse::<u8>()`, `parse::<u16>()`, `parse::<u32>()`, with `bound` the first number too large: an
-- optional `+`, then at least one digit.
unfoldable pub parse_unsigned : ℕ → Text → Option ℕ
unfolding digits_value
parse_unsigned bound [] = none
parse_unsigned bound (c ∷ []) = digits_value bound 0 (c ∷ [])
parse_unsigned bound (c ∷ d ∷ s) =
    if c == 43 then digits_value bound 0 (d ∷ s) else digits_value bound 0 (c ∷ d ∷ s)

-- `trim()`
trim_start : Text → Text
unfolding is_whitespace
trim_start [] = []
trim_start (c ∷ s) = elim (is_whitespace c) [ true ↦ trim_start s | false ↦ c ∷ s ]

trim_end : Text → Text
unfolding is_whitespace
trim_end [] = []
trim_end (c ∷ s) =
    let rest = trim_end s in
    elim rest [ [] ↦ if is_whitespace c then [] else c ∷ [] | d ∷ ds ↦ c ∷ d ∷ ds ]

unfoldable pub trim : Text → Text
unfolding trim_start trim_end
trim s = trim_end (trim_start s)

-- `splitn(2, sep)`: the text before the first `sep`, and the text after it if there is one.
unfoldable pub split_once : ℕ → Text → Text × Option Text
split_once sep [] = ([], none)
split_once sep (c ∷ s) =
    let (first, rest) = split_once sep s in if c == sep then ([], some s) else (c ∷ first, rest)
