-- ===== src/Interceptor/Slots.antt =====
-- The bit map of src/interceptors/report/receiver_stream.rs as a set of sequence numbers modulo 128,
-- and what each operation does to that set.
use sfu.Prelude.{
  ℕ, zero, suc, ◌+◌, ◌-◌, ◌/◌, ◌%◌, ◌^◌, ◌≤◌, ◌<◌, bit_or, bit_and, bit_xor, ◌≡◌, refl, ap, ◌∙◌,
  Bool, true, false, not, ◌&&◌, ◌||◌, arith, nat_beq, List, length, get_or, update_at,
  get_or-update_at_same, get_or-update_at_other, length-update_at, beq_ne, Bool-cases, inl, inr,
}
use sfu.Prelude.Int.{pos}
use sfu.Prelude.Bits.{is_set, is_set-bit_or, is_set-bit_and}
use sfu.Crates.{Crates}
use sfu.Interceptor.Stream.{
  ReceiverStream, set_received, del_received, get_received, position, del_range,
}

-- Two sequence numbers that the map does not tell apart.
abbrev pub same_slot : ℕ → ℕ → Bool
same_slot a b = nat_beq (a % 128) (b % 128)

-- The set, as the test of membership.
abbrev pub Slots : Type 0
Slots = ℕ → Bool

abbrev pub add_slot : ℕ → Slots → Slots
add_slot a s q = same_slot a q || s q

abbrev pub remove_slot : ℕ → Slots → Slots
remove_slot a s q = not (same_slot a q) && s q

slot_word : (a b : ℕ) → nat_beq (a / 64) (b / 64) ≡ false → nat_beq a b ≡ false
slot_word a b h = ground arith

slot_bit : (a b : ℕ) → a / 64 ≡ b / 64 → nat_beq (a % 64) (b % 64) ≡ nat_beq a b
slot_bit a b h = ground arith

-- Both writes change one word, at the bit of the position.
is_set-update_at :
    (ws : List ℕ) (p q : ℕ) (f : ℕ → ℕ) (g : Bool → Bool → Bool)
    → p / 64 < length ws
    → ((w k : ℕ) → k < 64 → is_set (f w) k ≡ g (nat_beq (p % 64) k) (is_set w k))
    → ((x : Bool) → g false x ≡ x)
    → is_set (get_or 0 (q / 64) (update_at (p / 64) f ws)) (q % 64)
      ≡ g (nat_beq p q) (is_set (get_or 0 (q / 64) ws) (q % 64))
is_set-update_at ws p q f g n hf hg = elim (Bool-cases (nat_beq (p / 64) (q / 64))) [
  | inl e ↦ same (ground arith)
  | inr e ↦
      rw
        (
          get_or-update_at_other 0 (p / 64) (q / 64) f ws (beq_ne _ _ e),
          slot_word p q e,
          hg (is_set (get_or 0 (q / 64) ws) (q % 64)),
        )
        refl
]
  where
    same :
        p / 64 ≡ q / 64
        → is_set (get_or 0 (q / 64) (update_at (p / 64) f ws)) (q % 64)
          ≡ g (nat_beq p q) (is_set (get_or 0 (q / 64) ws) (q % 64))
    same e =
        rw
          (
            ← e,
            get_or-update_at_same 0 (p / 64) f ws n,
            hf (get_or 0 (p / 64) ws) (q % 64) (omega arith),
            slot_bit p q e,
          )
          refl

-- The test at a stream of 128 words.
test_at : List ℕ → ℕ → Bool
test_at ws b = is_set (get_or 0 (b % 128 / 64) ws) (b % 128 % 64)

-- Out go the numbers `i`, `i + 1` and so on, `n` of them.
unfoldable pub remove_range : ℕ → ℕ → Slots → Slots
remove_range zero i s = s
remove_range (suc n) i s = remove_range n (i + 1) (remove_slot (i % 65536) s)

remove_range_out : (n i q : ℕ) (s : Slots) → s q ≡ false → remove_range n i s q ≡ false
unfolding remove_range
remove_range_out zero i q s h = h
remove_range_out (suc n) i q s h =
    remove_range_out n (i + 1) q (remove_slot (i % 65536) s) (ground arith)

pub remove_range_hit :
    (n i q m : ℕ) (s : Slots)
    → i ≤ m
    → m < i + n
    → i + n ≤ 65536
    → same_slot m q ≡ true
    → remove_range n i s q ≡ false
unfolding remove_range
remove_range_hit zero i q m s p r t h = absurd (omega arith)
remove_range_hit (suc n) i q m s p r t h = elim (Bool-cases (nat_beq i m)) [
  | inl e ↦ remove_range_out n (i + 1) q (remove_slot (i % 65536) s) (ground arith)
  | inr e ↦
      remove_range_hit n (i + 1) q m (remove_slot (i % 65536) s) (ground arith) (omega arith)
        (omega arith) h
]

pub remove_range_miss :
    (n i q : ℕ) (s : Slots)
    → i + n ≤ 65536
    → ((m : ℕ) → i ≤ m → m < i + n → same_slot m q ≡ false)
    → remove_range n i s q ≡ s q
unfolding remove_range
remove_range_miss zero i q s t h = refl
remove_range_miss (suc n) i q s t h =
    remove_range_miss n (i + 1) q (remove_slot (i % 65536) s) (omega arith)
      (λ m p r. h m (omega arith) (omega arith))
    ∙ ground (arith, h i (omega arith) (omega arith))

-- The set after a loop depends on the elements alone.
pub remove_range_ext :
    (n i q : ℕ) (s t : Slots) → s q ≡ t q → remove_range n i s q ≡ remove_range n i t q
unfolding remove_range
remove_range_ext zero i q s t h = h
remove_range_ext (suc n) i q s t h =
    remove_range_ext n (i + 1) q _ _ (ap (λ x. not (same_slot (i % 65536) q) && x) h)

module _ {c : Crates} where
  pub length-set_received :
      (a : ℕ) (s : ReceiverStream c) → length (set_received a s).packets ≡ length s.packets
  unfolding set_received
  length-set_received a s = length-update_at _ _ s.packets

  pub length-del_received :
      (a : ℕ) (s : ReceiverStream c) → length (del_received a s).packets ≡ length s.packets
  unfolding del_received
  length-del_received a s = length-update_at _ _ s.packets

  get_received_lem :
      (b : ℕ) (s : ReceiverStream c)
      → length s.packets ≡ 128
      → get_received s b ≡ test_at s.packets b
  unfolding get_received position test_at
  get_received_lem b s n = ap (λ l. is_set (get_or 0 (b % l / 64) s.packets) (b % l % 64)) n

  packets-set_received :
      (a : ℕ) (s : ReceiverStream c)
      → length s.packets ≡ 128
      → (set_received a s).packets
        ≡ update_at (a % 128 / 64) (λ w. bit_or w (2 ^ (a % 128 % 64))) s.packets
  unfolding set_received position
  packets-set_received a s n =
      ap (λ l. update_at (a % l / 64) (λ w. bit_or w (2 ^ (a % l % 64))) s.packets) n

  packets-del_received :
      (a : ℕ) (s : ReceiverStream c)
      → length s.packets ≡ 128
      → (del_received a s).packets
        ≡ update_at
            (a % 128 / 64)
            (λ w. bit_and w (bit_xor (2 ^ 64 - 1) (2 ^ (a % 128 % 64))))
            s.packets
  unfolding del_received position
  packets-del_received a s n =
      ap
        (λ l.
          update_at (a % l / 64) (λ w. bit_and w (bit_xor (2 ^ 64 - 1) (2 ^ (a % l % 64))))
            s.packets)
        n

  pub get_received-set_received :
      (a b : ℕ) (s : ReceiverStream c)
      → length s.packets ≡ 128
      → get_received (set_received a s) b ≡ add_slot a (get_received s) b
  unfolding test_at
  get_received-set_received a b s n =
      rw
        (
          get_received_lem b (set_received a s) (length-set_received a s ∙ n),
          packets-set_received a s n,
          get_received_lem b s n,
        )
        (is_set-update_at s.packets (a % 128) (b % 128) _ ◌||◌ (omega arith)
          (λ w k h. is_set-bit_or w (a % 128 % 64) k) (λ x. refl))

  pub get_received-del_received :
      (a b : ℕ) (s : ReceiverStream c)
      → length s.packets ≡ 128
      → get_received (del_received a s) b ≡ remove_slot a (get_received s) b
  unfolding test_at
  get_received-del_received a b s n =
      rw
        (
          get_received_lem b (del_received a s) (length-del_received a s ∙ n),
          packets-del_received a s n,
          get_received_lem b s n,
        )
        (is_set-update_at s.packets (a % 128) (b % 128) _ (λ x y. not x && y) (omega arith)
          (λ w k h. is_set-bit_and 64 w (a % 128 % 64) k h) (λ x. refl))

  pub length-del_range :
      (n i : ℕ) (s : ReceiverStream c) → length (del_range n (pos i) s).packets ≡ length s.packets
  unfolding del_range
  length-del_range zero i s = refl
  length-del_range (suc n) i s =
      length-del_range n (i + 1) (del_received (i % 65536) s) ∙ length-del_received (i % 65536) s

  pub get_received-del_range :
      (n i b : ℕ) (s : ReceiverStream c)
      → length s.packets ≡ 128
      → get_received (del_range n (pos i) s) b ≡ remove_range n i (get_received s) b
  unfolding del_range remove_range
  get_received-del_range zero i b s h = refl
  get_received-del_range (suc n) i b s h =
      get_received-del_range n (i + 1) b (del_received (i % 65536) s)
        (length-del_received (i % 65536) s ∙ h)
      ∙ remove_range_ext n (i + 1) b _ _ (get_received-del_received (i % 65536) b s h)
