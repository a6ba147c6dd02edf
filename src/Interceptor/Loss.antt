-- ===== src/Interceptor/Loss.antt =====
-- The count of lost packets of src/interceptors/report/receiver_stream.rs.
use sfu.Prelude.{
  ℕ, zero, suc, ◌+◌, ◌-◌, ◌%◌, ◌≤◌, ◌<◌, ◌*◌, ◌^◌, min, bit_or, nat_beq_iff, [], ◌∷◌, ◌≡◌, ◌≢◌,
  refl, ◌∙◌, Bool, arith, nat_beq, if◌then◌else◌, Bool-cases, inl, inr, ap,
}
use sfu.Prelude.Int.{ℤ, pos, ◌-ℤ◌, as_u16, as_u32}
use sfu.Prelude.Bits.{bit_or-shifted}
use sfu.Types.{Instant}
use sfu.Crates.{Crates, ReceptionReport}
use sfu.Interceptor.Stream.{
  ReceiverStream, Scan, scan_lost, lost_between, cap, get_received, lost_since_report,
  total_since_report, generate_report,
}

-- How many of the `n` numbers from `i` on, modulo 2^16, are not marked.
abbrev pub missing : (ℕ → Bool) → ℕ → ℕ → ℕ
missing received zero i = 0
missing received (suc n) i = (if received i then 0 else 1) + missing received n ((i + 1) % 65536)

scan_lost_lem :
    (fuel n : ℕ) (received : ℕ → Bool) (last i ret : ℕ)
    → n < 65536
    → n ≤ fuel
    → i < 65536
    → (i + n) % 65536 ≡ last
    → scan_lost fuel received last (record { i = i; ret = ret })
      ≡ record { i = last; ret = ret + missing received n i }
unfolding scan_lost
scan_lost_lem zero zero received last i ret b f p e = ground arith
scan_lost_lem (suc fuel) zero received last i ret b f p e = ground arith
scan_lost_lem zero (suc n) received last i ret b f p e = absurd (omega arith)
scan_lost_lem (suc fuel) (suc n) received last i ret b f p e = elim (Bool-cases (nat_beq i last)) [
  | inl hit ↦ absurd (ground arith)
  | inr miss ↦
      rw (scan_lost, miss)
        (scan_lost_lem fuel n received last ((i + 1) % 65536) (if received i then ret else ret + 1)
            (omega arith) (omega arith) (omega arith) (omega arith)
          ∙ ap (λ r. record { i = last; ret = r }) (ground arith))
]

-- How far the loop has to go.
abbrev pub distance : ℕ → ℕ → ℕ
distance i last = (last + 65536 - i) % 65536

-- The loop over a u16 that wraps ends by its test, at `last`, within a round for every u16, and has counted
-- each number from `i` up to `last`, modulo 2^16 and without `last`, that is not marked.
pub scan_lost_ends :
    (received : ℕ → Bool) (last i ret : ℕ)
    → last < 65536
    → i < 65536
    → scan_lost 65536 received last (record { i = i; ret = ret })
      ≡ record { i = last; ret = ret + missing received (distance i last) i }
scan_lost_ends received last i ret h k =
    scan_lost_lem 65536 (distance i last) received last i ret (omega arith) (omega arith) k
      (omega arith)

missing_le : (received : ℕ → Bool) (n i : ℕ) → missing received n i ≤ n
missing_le received zero i = omega arith
missing_le received (suc n) i = ground (arith, missing_le received n ((i + 1) % 65536))

mod_small : (n : ℕ) → n < 65536 → n % 65536 ≡ n
mod_small n h = omega arith

-- The numbers after `p`, up to `last` and without it, that are not marked.
abbrev pub unmarked : (ℕ → Bool) → ℕ → ℕ → ℕ
unmarked received p last =
    if nat_beq last p
    then 0
    else missing received (distance ((p + 1) % 65536) last) ((p + 1) % 65536)

lost_between_lem :
    (received : ℕ → Bool) (p last : ℕ)
    → last < 65536
    → lost_between received (pos last) (pos p) ≡ unmarked received p last
unfolding lost_between
lost_between_lem received p last h = rw (mod_small last h) (
    ap (λ (x : Scan). if nat_beq last p then 0 else x.ret)
      (scan_lost_ends received last ((p + 1) % 65536) 0 h (omega arith))
    ∙ ground arith)

lost_between_self :
    (received : ℕ → Bool) (last : ℕ) → lost_between received (pos last) (pos last) ≡ 0
unfolding lost_between
lost_between_self received last = rw ((nat_beq_iff last last).1 refl) refl

unmarked_le : (received : ℕ → Bool) (p last : ℕ) → unmarked received p last ≤ 65535
unmarked_le received p last =
    ground (arith, missing_le received (distance ((p + 1) % 65536) last) ((p + 1) % 65536))

cap_lem : (t n : ℕ) → t ≤ 0xFFFFFF → n ≤ 65535 → cap ((t + n) % 4294967296) ≡ min (t + n) 0xFFFFFF
unfolding cap
cap_lem t n h k = ground arith

number_lem :
    (cycles last : ℕ) (n : ℤ)
    → n ≡ pos last
    → last < 65536
    → bit_or (cycles * 2 ^ 16) (as_u32 n) ≡ cycles * 2 ^ 16 + last
number_lem cycles last n e h =
    ap (λ x. bit_or (cycles * 2 ^ 16) (as_u32 x)) e
    ∙ ap (bit_or (cycles * 2 ^ 16)) (word last h)
    ∙ bit_or-shifted 16 cycles last h
  where
    word : (n : ℕ) → n < 65536 → n % 4294967296 ≡ n
    word n h = omega arith

unmarked_bound :
    (received : ℕ → Bool) (p last : ℕ)
    → last < 65536
    → p < 65536
    → last ≢ p
    → unmarked received p last < as_u16 (pos last -ℤ pos p)
unmarked_bound received p last h k d =
    ground (arith, missing_le received (distance ((p + 1) % 65536) last) ((p + 1) % 65536))

module _ {c : Crates} where
  lost_since_report_lem :
      (s : ReceiverStream c) (p last : ℕ)
      → s.last_seq_num ≡ pos last
      → s.last_report_seq_num ≡ pos p
      → last < 65536
      → lost_since_report s ≡ unmarked (get_received s) p last
  unfolding lost_since_report
  lost_since_report_lem s p last e r h =
      (λ i. lost_between (get_received s) (e i) (r i)) ∙ lost_between_lem (get_received s) p last h

  total_since_report_lem :
      (s : ReceiverStream c) (p last : ℕ)
      → s.last_seq_num ≡ pos last
      → s.last_report_seq_num ≡ pos p
      → total_since_report s ≡ as_u16 (pos last -ℤ pos p)
  unfolding total_since_report
  total_since_report_lem s p last e r = λ i. as_u16 (e i -ℤ r i)

  lost_again :
      (now : Instant) (s : ReceiverStream c) (last : ℕ)
      → s.last_seq_num ≡ pos last
      → lost_since_report (generate_report now s).1 ≡ 0
  unfolding lost_since_report generate_report
  lost_again now s last e =
      (λ i. lost_between (get_received (generate_report now s).1) (e i) (e i))
      ∙ lost_between_self _ last

  -- A report on a stream that has reported up to `p` and has had packets since then: the count of the lost
  -- is that of the numbers not marked, below the count of all since then; the total is the sum, held
  -- to 24 bits; the last number stands below the cycles; and a second report at once finds none lost.
  pub generate_report_lem :
      (now : Instant) (s : ReceiverStream c) (p last : ℕ)
      → s.last_seq_num ≡ pos last
      → s.last_report_seq_num ≡ pos p
      → last < 65536
      → p < 65536
      → last ≢ p
      → s.total_lost ≤ 0xFFFFFF
      → (lost_since_report s ≡ unmarked (get_received s) p last)
        × (lost_since_report s < total_since_report s)
        × ((r : ReceptionReport) × ((generate_report now s).0.reports ≡ r ∷ [])
            × (r.total_lost ≡ min (s.total_lost + lost_since_report s) 0xFFFFFF)
            × (r.last_sequence_number ≡ s.seq_num_cycles * 2 ^ 16 + last))
        × ((generate_report now s).1.total_lost ≡ min (s.total_lost + lost_since_report s) 0xFFFFFF)
        × (lost_since_report (generate_report now s).1 ≡ 0)
  unfolding generate_report
  generate_report_lem now s p last e r h k d t = (
    lost_since_report_lem s p last e r h,
    omega (
      arith,
      lost_since_report_lem s p last e r h,
      total_since_report_lem s p last e r,
      unmarked_bound (get_received s) p last h k d,
    ),
    (_, refl, capped, number_lem s.seq_num_cycles last s.last_seq_num e h),
    capped,
    lost_again now s last e,
  )
    where
      capped :
          cap ((s.total_lost + lost_since_report s) % 4294967296)
          ≡ min (s.total_lost + lost_since_report s) 0xFFFFFF
      capped =
          cap_lem s.total_lost (lost_since_report s) t (
            omega
              (arith, lost_since_report_lem s p last e r h, unmarked_le (get_received s) p last))
