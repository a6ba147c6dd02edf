-- ===== src/Prelude/HashMap.antt =====
-- `std::collections::HashMap` as an association list: iteration follows the list, and what is
-- proved of a loop over a map holds for every order of its entries.
use mathlib.Core.Path.{◌≡◌, refl}
use mathlib.Core.Logic.{inl, inr}
use mathlib.Core.Bool.{Bool}
use mathlib.Core.Option
use mathlib.Core.Option.{Option, none, some}
use mathlib.Core.List.{List, [], ◌∷◌, map}
use native.Mathlib.Omega.{arith}
use sfu.Prelude.Tests.{PartialEq, ◌==◌, if◌then◌else◌, is_some, Bool-cases}
use sfu.Prelude.Lists.{In}

abbrev pub HashMap {ℓ κ} : Type ℓ → Type κ → Type (ℓ ⊔ κ)
HashMap K V = List (K × V)

module _ {ℓ κ} {K : Type ℓ} {V : Type κ} where
  abbrev pub keys : HashMap K V → List K
  keys = map (λ e. e.0)

  abbrev pub values : HashMap K V → List V
  values = map (λ e. e.1)

module _ {ℓ κ} {K : Type ℓ} {V : Type κ} ⦃e : PartialEq K⦄ where
  unfoldable pub get : K → HashMap K V → Option V
  get k [] = none
  get k ((j, v) ∷ m) = if j == k then some v else get k m

  abbrev pub contains_key : K → HashMap K V → Bool
  contains_key k m = is_some (get k m)

  unfoldable pub insert : K → V → HashMap K V → HashMap K V
  insert k v [] = (k, v) ∷ []
  insert k v ((j, w) ∷ m) = if j == k then (k, v) ∷ m else (j, w) ∷ insert k v m

  unfoldable pub remove : K → HashMap K V → HashMap K V
  remove k [] = []
  remove k ((j, w) ∷ m) = if j == k then remove k m else (j, w) ∷ remove k m

  -- A write through the reference that `get_mut` returns.
  unfoldable pub adjust : K → (V → V) → HashMap K V → HashMap K V
  adjust k f [] = []
  adjust k f ((j, w) ∷ m) = if j == k then (j, f w) ∷ m else (j, w) ∷ adjust k f m

  pub get-insert :
      (k j : K) (v : V) (m : HashMap K V)
      → get j (insert k v m) ≡ (if k == j then some v else get j m)
  unfolding get insert
  get-insert k j v [] = refl
  get-insert k j v ((i, w) ∷ m) =
      ground (arith, e.equal_iff k j, e.equal_iff i k, e.equal_iff i j, get-insert k j v m)

  pub get-remove :
      (k j : K) (m : HashMap K V) → get j (remove k m) ≡ (if k == j then none else get j m)
  unfolding get remove
  get-remove k j [] = ground arith
  get-remove k j ((i, w) ∷ m) =
      ground (arith, e.equal_iff k j, e.equal_iff i k, e.equal_iff i j, get-remove k j m)

  pub get-adjust :
      (k j : K) (f : V → V) (m : HashMap K V)
      → get j (adjust k f m) ≡ (if k == j then Option.map f (get j m) else get j m)
  unfolding get adjust
  get-adjust k j f [] = ground arith
  get-adjust k j f ((i, w) ∷ m) =
      ground (arith, e.equal_iff k j, e.equal_iff i k, e.equal_iff i j, get-adjust k j f m)

  get-adjust_self :
      (k : K) (f : V → V) (m : HashMap K V) → get k (adjust k f m) ≡ Option.map f (get k m)
  get-adjust_self k f m = ground (arith, get-adjust k k f m, e.equal_iff k k)

  pub get-adjust_found :
      (k : K) (f : V → V) (m : HashMap K V) {v : V}
      → get k m ≡ some v
      → get k (adjust k f m) ≡ some (f v)
  get-adjust_found k f m h = ground (arith, get-adjust_self k f m)

  pub get-insert_self : (k : K) (v : V) (m : HashMap K V) → get k (insert k v m) ≡ some v
  get-insert_self k v m = ground (arith, get-insert k k v m, e.equal_iff k k)

  pub get-remove_self : (k : K) (m : HashMap K V) → get k (remove k m) ≡ none
  get-remove_self k m = ground (arith, get-remove k k m, e.equal_iff k k)

  pub In-get : (k : K) (v : V) (m : HashMap K V) → get k m ≡ some v → In (k, v) m
  unfolding get
  In-get k v [] h = cc
  In-get k v ((j, w) ∷ m) h = elim (Bool-cases (j == k)) [
    | inl hit ↦ inl (ground (arith, e.equal_iff j k))
    | inr miss ↦ inr (In-get k v m (ground arith))
  ]
