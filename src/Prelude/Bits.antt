-- ===== src/Prelude/Bits.antt =====
-- The bits of a machine word, read from its value: `|`, `&` and `^` act on each bit by itself.
use Prim.Native.Nat.{
  ℕ, zero, suc, ◌+◌, ◌-◌, ◌*◌, ◌/◌, ◌%◌, ◌^◌, ◌≤◌, ◌<◌, min, max, bit_and, bit_or, bit_xor, digits,
  differ, bit_and-bitwise, bit_or-bitwise, bit_xor-bitwise,
}
use mathlib.Core.Path.{◌≡◌, refl, ap, sym, ◌∙◌}
use mathlib.Core.Bool.{Bool, false, not, ◌&&◌, ◌||◌}
use native.Mathlib.Nat.{pow-suc, one-le-pow}
use native.Mathlib.Omega.{arith}
use mathlib.Core.Logic.{◌≢◌, inl, inr}
use sfu.Prelude.Tests.{if◌then◌else◌, nat_beq, Bool-cases}

unfoldable pub bit_at : ℕ → ℕ → ℕ
bit_at w zero = w % 2
bit_at w (suc k) = bit_at (w / 2) k

pub bit_at_le : (w k : ℕ) → bit_at w k ≤ 1
unfolding bit_at
bit_at_le w zero = omega arith
bit_at_le w (suc k) = bit_at_le (w / 2) k

pub bit_at-zero : (k : ℕ) → bit_at 0 k ≡ 0
unfolding bit_at
bit_at-zero zero = refl
bit_at-zero (suc k) = bit_at-zero k

-- The lowest digit of a number, and the digits above it.
double_low : (q r : ℕ) → r ≤ 1 → bit_at (q * 2 + r) 0 ≡ r
unfolding bit_at
double_low q r h = omega arith

double_high : (q r k : ℕ) → r ≤ 1 → bit_at (q * 2 + r) (suc k) ≡ bit_at q k
unfolding bit_at
double_high q r k h = ap (λ w. bit_at w k) (halved q r h)
  where
    halved : (q r : ℕ) → r ≤ 1 → (q * 2 + r) / 2 ≡ q
    halved q r h = omega arith

-- One proof for the three operations: `z` is what is left when the first number has run out.
module _ (z : ℕ → ℕ) (f : ℕ → ℕ → ℕ) (digit : (a b : ℕ) → f (a % 2) (b % 2) ≤ 1)
    (rest : (b k : ℕ) → bit_at (z b) k ≡ f 0 (bit_at b k)) where
  bit_at-digits : (k n a b : ℕ) → a ≤ n → bit_at (digits z f n a b) k ≡ f (bit_at a k) (bit_at b k)
  unfolding bit_at
  bit_at-digits k zero zero b h = rw (bit_at-zero k) (rest b k)
  bit_at-digits k zero (suc a) b h = absurd (omega arith)
  bit_at-digits k (suc n) zero b h = rw (bit_at-zero k) (rest b k)
  bit_at-digits zero (suc n) (suc a) b h = double_low _ _ (digit (suc a) b)
  bit_at-digits (suc k) (suc n) (suc a) b h =
      double_high (digits z f n (suc a / 2) (b / 2)) _ k (digit (suc a) b)
      ∙ bit_at-digits k n (suc a / 2) (b / 2) (omega arith)

differ_le : (x y : ℕ) → x ≤ 1 → y ≤ 1 → differ x y ≤ 1
differ_le zero y p q = q
differ_le (suc zero) zero p q = p
differ_le (suc zero) (suc zero) p q = omega arith
differ_le (suc zero) (suc (suc y)) p q = absurd (omega arith)
differ_le (suc (suc x)) y p q = absurd (omega arith)

pub bit_at-bit_and : (a b k : ℕ) → bit_at (bit_and a b) k ≡ min (bit_at a k) (bit_at b k)
bit_at-bit_and a b k = simp bit_and-bitwise (
    bit_at-digits (λ _. 0) min (λ x y. omega arith) (λ x j. omega (arith, bit_at-zero j)) k a a b
      (omega arith))

pub bit_at-bit_or : (a b k : ℕ) → bit_at (bit_or a b) k ≡ max (bit_at a k) (bit_at b k)
bit_at-bit_or a b k =
    simp bit_or-bitwise
      (bit_at-digits (λ x. x) max (λ x y. omega arith) (λ x j. omega arith) k a a b (omega arith))

pub bit_at-bit_xor : (a b k : ℕ) → bit_at (bit_xor a b) k ≡ differ (bit_at a k) (bit_at b k)
bit_at-bit_xor a b k = simp bit_xor-bitwise (
    bit_at-digits (λ x. x) differ (λ x y. differ_le (x % 2) (y % 2) (omega arith) (omega arith))
      (λ x j. refl) k a a b (omega arith))

-- `1 << j` has one bit.
power_half : (j : ℕ) → 2 ^ suc j / 2 ≡ 2 ^ j
power_half j = omega (arith, pow-suc 2 j)

pub bit_at-power : (j k : ℕ) → bit_at (2 ^ j) k ≡ (if nat_beq j k then 1 else 0)
unfolding bit_at
bit_at-power zero zero = refl
bit_at-power zero (suc k) = ground (arith, bit_at-zero k)
bit_at-power (suc j) zero = ground (arith, pow-suc 2 j)
bit_at-power (suc j) (suc k) = ground (arith, power_half j, bit_at-power j k)

-- Two numbers with the same bits are one.
same_bits : (n a b : ℕ) → a ≤ n → b ≤ n → ((k : ℕ) → bit_at a k ≡ bit_at b k) → a ≡ b
unfolding bit_at
same_bits zero a b p q h = omega arith
same_bits (suc n) a b p q h = elim (Bool-cases (nat_beq (a + b) 0)) [
  | inl none ↦ ground arith
  | inr some ↦
      omega (arith, h 0, same_bits n (a / 2) (b / 2) (ground arith) (ground arith) (λ k. h (suc k)))
]

bits_equal : (a b : ℕ) → ((k : ℕ) → bit_at a k ≡ bit_at b k) → a ≡ b
bits_equal a b h = same_bits (a + b) a b (omega arith) (omega arith) h

-- The test of a bit by `&` with `1 << k`.
pub bit_and-power_set : (w k : ℕ) → bit_at w k ≡ 1 → bit_and w (2 ^ k) ≢ 0
bit_and-power_set w k h e =
    ground
      (arith, bit_at-bit_and w (2 ^ k) k, bit_at-power k k, bit_at-zero k, ap (λ x. bit_at x k) e)

pub bit_and-power_clear : (w k : ℕ) → bit_at w k ≡ 0 → bit_and w (2 ^ k) ≡ 0
bit_and-power_clear w k h =
    bits_equal _ 0 λ j. ground (arith, bit_at-bit_and w (2 ^ k) j, bit_at-power k j, bit_at-zero j)

-- Fields that do not overlap: `|` is a sum.
bit_or_half : (a b : ℕ) → bit_or a b / 2 ≡ bit_or (a / 2) (b / 2)
unfolding bit_at
bit_or_half a b =
    bits_equal _ _ λ k. bit_at-bit_or a b (suc k) ∙ sym (bit_at-bit_or (a / 2) (b / 2) k)

bit_or-zero : (a : ℕ) → bit_or a 0 ≡ a
bit_or-zero a = bits_equal _ a λ k. omega (arith, bit_at-bit_or a 0 k, bit_at-zero k)

shifted : (q k : ℕ) → q * 2 ^ suc k ≡ 2 * (q * 2 ^ k)
shifted q k = omega (arith, ap (λ x. q * x) (pow-suc 2 k))

pub bit_or-shifted : (k q r : ℕ) → r < 2 ^ k → bit_or (q * 2 ^ k) r ≡ q * 2 ^ k + r
unfolding bit_at
bit_or-shifted zero q zero h = bit_or-zero (q * 1) ∙ omega arith
bit_or-shifted zero q (suc r) h = absurd (omega arith)
bit_or-shifted (suc k) q r h = omega (
  arith,
  shifted q k,
  pow-suc 2 k,
  bit_or_half (q * 2 ^ suc k) r,
  ap (λ x. bit_or x (r / 2)) (half_shifted q k),
  bit_at-bit_or (q * 2 ^ suc k) r 0,
  bit_or-shifted k q (r / 2) (omega (arith, pow-suc 2 k)),
)
  where
    half_shifted : (q k : ℕ) → q * 2 ^ suc k / 2 ≡ q * 2 ^ k
    half_shifted q k = omega (arith, shifted q k)

-- The tests and the masks of a bit map.
ones : (n k : ℕ) → k < n → bit_at (2 ^ n - 1) k ≡ 1
unfolding bit_at
ones zero k h = absurd (omega arith)
ones (suc n) zero h = omega (arith, pow-suc 2 n, one-le-pow n 2)
ones (suc n) (suc k) h = ap (λ w. bit_at w k) (halved n) ∙ ones n k (omega arith)
  where
    halved : (n : ℕ) → (2 ^ suc n - 1) / 2 ≡ 2 ^ n - 1
    halved n = omega (arith, pow-suc 2 n, one-le-pow n 2)

abbrev pub is_set : ℕ → ℕ → Bool
is_set w k = not (nat_beq (bit_and w (2 ^ k)) 0)

is_set-bit_at : (w k : ℕ) → is_set w k ≡ nat_beq (bit_at w k) 1
is_set-bit_at w k = ground (arith, bit_at_le w k, bit_and-power_set w k, bit_and-power_clear w k)

pub is_set-bit_or : (w j k : ℕ) → is_set (bit_or w (2 ^ j)) k ≡ (nat_beq j k || is_set w k)
is_set-bit_or w j k =
    rw (is_set-bit_at (bit_or w (2 ^ j)) k, is_set-bit_at w k, bit_at-bit_or w (2 ^ j) k)
      (ground (arith, bit_at-power j k, bit_at_le w k))

pub is_set-bit_and :
    (n w j k : ℕ)
    → k < n
    → is_set (bit_and w (bit_xor (2 ^ n - 1) (2 ^ j))) k ≡ (not (nat_beq j k) && is_set w k)
is_set-bit_and n w j k h =
    rw
      (
        is_set-bit_at (bit_and w (bit_xor (2 ^ n - 1) (2 ^ j))) k,
        is_set-bit_at w k,
        bit_at-bit_and w (bit_xor (2 ^ n - 1) (2 ^ j)) k,
        bit_at-bit_xor (2 ^ n - 1) (2 ^ j) k,
        ones n k h,
        bit_at-power j k,
      )
      (ground (arith, bit_at_le w k))

pub is_set_zero : (k : ℕ) → is_set 0 k ≡ false
is_set_zero k = ground (arith, is_set-bit_at 0 k, bit_at-zero k)
