-- ===== src/Prelude/Lists.antt =====
-- Lists measured by native numbers, membership and predicates by recursion.
use Prim.Native.Nat.{ℕ, zero, suc, ◌+◌, ◌<◌}
use mathlib.Core.Path.{◌≡◌, refl, ap, sym, subst}
use mathlib.Core.Logic.{◌⊎◌, ◌≢◌, inl, inr}
use mathlib.Core.Bool.{Bool, true, false, ◌||◌}
use mathlib.Core.Option.{Option, none, some}
use mathlib.Core.List.{List, [], ◌∷◌, ◌++◌, map}
use native.Mathlib.Omega.{arith}
use sfu.Prelude.Tests.{if◌then◌else◌, Bool-cases}

-- The type with no value, at every level.
pub data Never {ℓ} : Type ℓ where

module _ {ℓ} {A : Type ℓ} where
  abbrev pub length : List A → ℕ
  length [] = 0
  length (x ∷ xs) = suc (length xs)

  abbrev pub is_empty : List A → Bool
  is_empty [] = true
  is_empty (x ∷ xs) = false

  abbrev pub head? : List A → Option A
  head? [] = none
  head? (x ∷ xs) = some x

  -- `iter().any`, `iter().find`, and a `retain`.
  abbrev pub any : (A → Bool) → List A → Bool
  any p [] = false
  any p (x ∷ xs) = p x || any p xs

  abbrev pub find : (A → Bool) → List A → Option A
  find p [] = none
  find p (x ∷ xs) = if p x then some x else find p xs

  -- `xs[i]` and a write to it; the value out of range is `d`, and a write there is no write.
  abbrev pub get_or : A → ℕ → List A → A
  get_or d i [] = d
  get_or d zero (x ∷ xs) = x
  get_or d (suc i) (x ∷ xs) = get_or d i xs

  abbrev pub update_at : ℕ → (A → A) → List A → List A
  update_at i f [] = []
  update_at zero f (x ∷ xs) = f x ∷ xs
  update_at (suc i) f (x ∷ xs) = x ∷ update_at i f xs

  abbrev pub replicate : ℕ → A → List A
  replicate zero x = []
  replicate (suc n) x = x ∷ replicate n x

  -- Membership by recursion, with its position kept.
  abbrev pub In : A → List A → Type ℓ
  In a [] = Never
  In a (x ∷ xs) = (a ≡ x) ⊎ In a xs

  pub length-append : (xs ys : List A) → length (xs ++ ys) ≡ length xs + length ys
  length-append [] ys = omega arith
  length-append (x ∷ xs) ys = omega (arith, length-append xs ys)

  pub length-update_at : (i : ℕ) (f : A → A) (xs : List A) → length (update_at i f xs) ≡ length xs
  length-update_at i f [] = refl
  length-update_at zero f (x ∷ xs) = refl
  length-update_at (suc i) f (x ∷ xs) = ap suc (length-update_at i f xs)

  pub get_or-update_at_same :
      (d : A) (i : ℕ) (f : A → A) (xs : List A)
      → i < length xs
      → get_or d i (update_at i f xs) ≡ f (get_or d i xs)
  get_or-update_at_same d i f [] h = absurd (omega arith)
  get_or-update_at_same d zero f (x ∷ xs) h = refl
  get_or-update_at_same d (suc i) f (x ∷ xs) h = get_or-update_at_same d i f xs (omega arith)

  pub get_or-update_at_other :
      (d : A) (i j : ℕ) (f : A → A) (xs : List A)
      → i ≢ j
      → get_or d j (update_at i f xs) ≡ get_or d j xs
  get_or-update_at_other d i j f [] h = refl
  get_or-update_at_other d zero zero f (x ∷ xs) h = absurd (h refl)
  get_or-update_at_other d zero (suc j) f (x ∷ xs) h = refl
  get_or-update_at_other d (suc i) zero f (x ∷ xs) h = refl
  get_or-update_at_other d (suc i) (suc j) f (x ∷ xs) h =
      get_or-update_at_other d i j f xs (λ e. h (ap suc e))

  pub get_or-replicate : (d : A) (n i : ℕ) → get_or d i (replicate n d) ≡ d
  get_or-replicate d zero i = refl
  get_or-replicate d (suc n) zero = refl
  get_or-replicate d (suc n) (suc i) = get_or-replicate d n i

  pub append_nil : (xs : List A) → xs ++ [] ≡ xs
  append_nil [] = refl
  append_nil (x ∷ xs) = ap (λ l. x ∷ l) (append_nil xs)

  pub In-append_left : (a : A) (xs ys : List A) → In a xs → In a (xs ++ ys)
  In-append_left a [] ys h = elim h [ ]
  In-append_left a (x ∷ xs) ys (inl e) = inl e
  In-append_left a (x ∷ xs) ys (inr h) = inr (In-append_left a xs ys h)

  pub In-append_right : (a : A) (xs ys : List A) → In a ys → In a (xs ++ ys)
  In-append_right a [] ys h = h
  In-append_right a (x ∷ xs) ys h = inr (In-append_right a xs ys h)

  pub In-append : (a : A) (xs ys : List A) → In a (xs ++ ys) → In a xs ⊎ In a ys
  In-append a [] ys h = inr h
  In-append a (x ∷ xs) ys (inl e) = inl (inl e)
  In-append a (x ∷ xs) ys (inr h) = elim (In-append a xs ys h) [
    | inl l ↦ inl (inr l)
    | inr r ↦ inr r
  ]

module _ {ℓ} {A : Type ℓ} where
  pub find-some : (p : A → Bool) (x : A) (xs : List A) → find p xs ≡ some x → In x xs × (p x ≡ true)
  find-some p x [] h = cc
  find-some p x (y ∷ ys) h = elim (Bool-cases (p y)) [
    | inl t ↦ found t (rw t at h)
    | inr f ↦ let (m, t) = find-some p x ys (rw f at h) in (inr m, t)
  ]
    where
      found : p y ≡ true → some y ≡ some x → In x (y ∷ ys) × (p x ≡ true)
      found t e = let e' : y ≡ x = cc in (inl (sym e'), subst (λ z. p z ≡ true) e' t)

  pub find-none : (p : A → Bool) (xs : List A) → find p xs ≡ none → any p xs ≡ false
  find-none p [] h = refl
  find-none p (y ∷ ys) h = elim (Bool-cases (p y)) [
    | inl t ↦ absurd (let h' = rw t at h in ground arith)
    | inr f ↦ rw f (find-none p ys (rw f at h))
  ]

  -- Membership in a list that a test chooses.
  pub In-if_single : (b : Bool) (x y : A) → In x (if b then y ∷ [] else []) → (b ≡ true) × (x ≡ y)
  In-if_single true x y (inl e) = (refl, e)
  In-if_single true x y (inr i) = elim i [ ]
  In-if_single false x y i = elim i [ ]

  pub In-if_else :
      (b : Bool) (x : A) (ys : List A) → In x (if b then [] else ys) → (b ≡ false) × In x ys
  In-if_else true x ys i = elim i [ ]
  In-if_else false x ys i = (refl, i)

module _ {ℓ κ} {A : Type ℓ} {B : Type κ} where
  -- A loop that pushes the results of each round.
  abbrev pub flat_map : (A → List B) → List A → List B
  flat_map f [] = []
  flat_map f (x ∷ xs) = f x ++ flat_map f xs

  pub In-flat_map :
      (f : A → List B) (a : A) (b : B) (xs : List A) → In a xs → In b (f a) → In b (flat_map f xs)
  In-flat_map f a b [] i h = elim i [ ]
  In-flat_map f a b (x ∷ xs) (inl e) h = In-append_left b (f x) _ (rw e at h)
  In-flat_map f a b (x ∷ xs) (inr i) h = In-append_right b (f x) _ (In-flat_map f a b xs i h)

  pub In-flat_map_inv :
      (f : A → List B) (b : B) (xs : List A) → In b (flat_map f xs) → (a : A) × In a xs × In b (f a)
  In-flat_map_inv f b [] i = elim i [ ]
  In-flat_map_inv f b (x ∷ xs) i = elim (In-append b (f x) (flat_map f xs) i) [
    | inl h ↦ (x, inl refl, h)
    | inr h ↦ let (a, m, k) = In-flat_map_inv f b xs h in (a, inr m, k)
  ]

  pub In-map : (f : A → B) (a : A) (xs : List A) → In a xs → In (f a) (map f xs)
  In-map f a [] i = elim i [ ]
  In-map f a (x ∷ xs) (inl e) = inl (ap f e)
  In-map f a (x ∷ xs) (inr i) = inr (In-map f a xs i)

  pub In-map_inv :
      (f : A → B) (b : B) (xs : List A) → In b (map f xs) → (a : A) × In a xs × (b ≡ f a)
  In-map_inv f b [] i = elim i [ ]
  In-map_inv f b (x ∷ xs) (inl e) = (x, inl refl, e)
  In-map_inv f b (x ∷ xs) (inr i) = let (a, m, k) = In-map_inv f b xs i in (a, inr m, k)
