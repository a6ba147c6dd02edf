-- ===== src/Prelude/Texts.antt =====
-- Texts as lists of code points, their equality, and the decimal digits that `format!` writes.
use Prim.Native.Nat.{ℕ, zero, suc, ◌+◌, ◌/◌, ◌%◌}
use Prim.Native.Char.{code}
use Prim.Native.String.{String}
use mathlib.Core.Path.{◌≡◌, refl}
use mathlib.Core.Logic.{◌↔◌}
use mathlib.Core.Bool.{Bool, true, false, ◌&&◌}
use mathlib.Core.List.{List, [], ◌∷◌}
use native.Mathlib.Omega.{arith}
use sfu.Prelude.Tests.{PartialEq, ◌==◌, nat_eq, if◌then◌else◌, ltb}

abbrev pub Text : Type 0
Text = List ℕ

abbrev pub codes : String → Text
codes String.[] = []
codes (String.◌∷◌ c s) = code c ∷ codes s

abbrev pub list_beq {ℓ} : {A : Type ℓ} ⦃e : PartialEq A⦄ → List A → List A → Bool
list_beq [] [] = true
list_beq [] (y ∷ ys) = false
list_beq (x ∷ xs) [] = false
list_beq (x ∷ xs) (y ∷ ys) = (x == y) && list_beq xs ys

list_beq_sound {ℓ} :
    {A : Type ℓ} ⦃e : PartialEq A⦄ (xs ys : List A) → list_beq xs ys ≡ true → xs ≡ ys
list_beq_sound [] [] h = refl
list_beq_sound [] (y ∷ ys) h = cc
list_beq_sound (x ∷ xs) [] h = cc
list_beq_sound ⦃e⦄ (x ∷ xs) (y ∷ ys) h = ground (arith, e.equal_iff x y, list_beq_sound xs ys)

list_beq_self {ℓ} : {A : Type ℓ} ⦃e : PartialEq A⦄ (xs : List A) → list_beq xs xs ≡ true
list_beq_self [] = refl
list_beq_self ⦃e⦄ (x ∷ xs) = ground (arith, e.equal_iff x x, list_beq_self xs)

pub list_beq_iff {ℓ} :
    {A : Type ℓ} ⦃e : PartialEq A⦄ (xs ys : List A) → (list_beq xs ys ≡ true) ↔ (xs ≡ ys)
list_beq_iff xs ys = (list_beq_sound xs ys, λ h. rw h (list_beq_self ys))

instance abbrev pub list_eq {ℓ} : {A : Type ℓ} ⦃e : PartialEq A⦄ → PartialEq (List A)
list_eq = record { equal = list_beq; equal_iff = list_beq_iff }

-- The decimal digits of `n`, on fuel; a number has fewer digits than `n + 1`.
digits_from : ℕ → ℕ → Text → Text
digits_from zero n acc = acc
digits_from (suc fuel) n acc =
    let rest = digits_from fuel (n / 10) ((48 + n % 10) ∷ acc) in
    if ltb n 10 then (48 + n) ∷ acc else rest

pub decimal : ℕ → Text
unfolding digits_from
decimal n = digits_from (suc n) n []
