-- ===== src/Interceptor/Gaps.antt =====
-- Whole runs of packets through src/interceptors/report/receiver_stream.rs, and what the bit map holds
-- after a gap.
use sfu.Prelude.{
  ℕ, zero, suc, any, ◌≤◌, ◌+◌, ◌-◌, ◌<◌, ◌≡◌, refl, ◌∙◌, true, false, List, [], ◌∷◌, map, arith,
  leb, length, Bool-cases, subst, inl, inr,
}
use sfu.Prelude.Int.{pos}
use sfu.Crates.{Crates}
use sfu.Types.{Instant}
use sfu.Interceptor.Stream.{ReceiverStream, process_rtp, get_received, new_stream}
use sfu.Interceptor.Slots.{Slots, add_slot, remove_range, remove_range_hit, remove_range_miss}
use sfu.Interceptor.Arrivals.{
  Arrivals, arrive, ahead, no_arrival, Refines, process_rtp-Refines, new_stream-Refines,
}

abbrev pub arrive_all : List ℕ → Arrivals → Arrivals
arrive_all [] a = a
arrive_all (seq ∷ seqs) a = arrive_all seqs (arrive seq a)

module _ {c : Crates} where
  abbrev pub process_all : List (Instant × c.RtpPacket) → ReceiverStream c → ReceiverStream c
  process_all [] s = s
  process_all ((now, pkt) ∷ pkts) s = process_all pkts (process_rtp now pkt s)

  process_all-Refines :
      (pkts : List (Instant × c.RtpPacket)) (s : ReceiverStream c) (a : Arrivals)
      → Refines s a
      → Refines (process_all pkts s) (arrive_all (map (λ p. c.sequence_number p.1) pkts) a)
  process_all-Refines [] s a h = h
  process_all-Refines ((now, pkt) ∷ pkts) s a h =
      process_all-Refines pkts (process_rtp now pkt s) (arrive (c.sequence_number pkt) a)
        (process_rtp-Refines now pkt s a h)

-- A new stream and any packets in any order: the words of the bit map hold the set of the
-- description, modulo 128, and `last_seq_num` is its last number.
pub receive-Refines :
    (c : Crates) (random clock ssrc rate : ℕ) (pkts : List (Instant × c.RtpPacket))
    → Refines
        (process_all {c = c} pkts (new_stream random clock ssrc rate))
        (arrive_all (map (λ p. c.sequence_number p.1) pkts) no_arrival)
receive-Refines c random clock ssrc rate pkts =
    process_all-Refines {c = c} pkts (new_stream random clock ssrc rate) no_arrival
      (new_stream-Refines c random clock ssrc rate)

-- `n` numbers from one on.
abbrev pub numbers : (n from : ℕ) → List ℕ
numbers zero from = []
numbers (suc n) from = from ∷ numbers n (suc from)

ahead_between :
    (seq last m : ℕ) (s : Slots)
    → seq < 65536
    → last < m
    → m < seq
    → remove_range (seq - (last + 1)) (last + 1) s m ≡ false
ahead_between seq last m s b p r =
    remove_range_hit (seq - (last + 1)) (last + 1) m m s (omega arith) (omega arith) (omega arith)
      (ground arith)

ahead_self :
    (seq last : ℕ) (s : Slots)
    → seq < 65536
    → last < seq
    → remove_range (seq - (last + 1)) (last + 1) (add_slot seq s) seq ≡ leb (seq - last) 128
ahead_self seq last s b p = elim (Bool-cases (leb (seq - last) 128)) [
  | inl near ↦
      remove_range_miss (seq - (last + 1)) (last + 1) seq (add_slot seq s) (omega arith)
        (λ m q r. ground arith)
      ∙ ground arith
  | inr far ↦
      remove_range_hit (seq - (last + 1)) (last + 1) seq (seq - 128) (add_slot seq s) (ground arith)
        (omega arith) (omega arith) (ground arith)
      ∙ ground arith
]

arrive_after :
    (seq last : ℕ) (s : Slots)
    → last < seq
    → arrive seq (record { any = true; slots = s; last = last })
      ≡ ahead seq (record { any = true; slots = s; last = last })
unfolding arrive
arrive_after seq last s p = ground arith

module _ {c : Crates} where
  after_gap :
      (now : Instant) (pkt : c.RtpPacket) (s : ReceiverStream c) (last q : ℕ)
      → length s.packets ≡ 128
      → s.started ≡ true
      → s.last_seq_num ≡ pos last
      → last < c.sequence_number pkt
      → get_received (process_rtp now pkt s) q
        ≡ remove_range
            (c.sequence_number pkt - (last + 1))
            (last + 1)
            (add_slot (c.sequence_number pkt) (get_received s))
            q
  unfolding Refines ahead
  after_gap now pkt s last q n b e p =
      (subst (Refines (process_rtp now pkt s))
          (arrive_after (c.sequence_number pkt) last (get_received s) p)
          (process_rtp-Refines now pkt s
            (record { any = true; slots = get_received s; last = last }) (n, b, e, λ q. refl))).3
        q

  gap_missing :
      (now : Instant) (pkt : c.RtpPacket) (s : ReceiverStream c) (last n from : ℕ)
      → length s.packets ≡ 128
      → s.started ≡ true
      → s.last_seq_num ≡ pos last
      → c.sequence_number pkt < 65536
      → last < from
      → from + n ≤ c.sequence_number pkt
      → any (get_received (process_rtp now pkt s)) (numbers n from) ≡ false
  gap_missing now pkt s last zero from p b e q f g = refl
  gap_missing now pkt s last (suc n) from p b e q f g =
      let first : get_received (process_rtp now pkt s) from ≡ false =
        after_gap now pkt s last from p b e (omega arith)
        ∙ ahead_between (c.sequence_number pkt) last from _ q f (omega arith) in
      rw first (gap_missing now pkt s last n (suc from) p b e q (omega arith) (omega arith))

  -- A packet whose number is above the last one, without the wrap of a u16, and may be the next one: none of
  -- the numbers between the two is marked as received, and the packet itself is marked as received just if it
  -- is at most 128 numbers ahead.
  pub process_rtp_gap :
      (now : Instant) (pkt : c.RtpPacket) (s : ReceiverStream c) (last : ℕ)
      → length s.packets ≡ 128
      → s.started ≡ true
      → s.last_seq_num ≡ pos last
      → c.sequence_number pkt < 65536
      → last < c.sequence_number pkt
      → (get_received (process_rtp now pkt s) (c.sequence_number pkt)
          ≡ leb (c.sequence_number pkt - last) 128)
        × (any
              (get_received (process_rtp now pkt s))
              (numbers (c.sequence_number pkt - (last + 1)) (last + 1))
            ≡ false)
  process_rtp_gap now pkt s last n b e q f = (
    after_gap now pkt s last _ n b e f
        ∙ ahead_self (c.sequence_number pkt) last (get_received s) q f,
    gap_missing now pkt s last (c.sequence_number pkt - (last + 1)) (last + 1) n b e q (omega arith)
        (omega arith),
  )
