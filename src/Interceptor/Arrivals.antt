-- ===== src/Interceptor/Arrivals.antt =====
-- src/interceptors/report/receiver_stream.rs against a description of it: a set of sequence numbers
-- modulo 128 and the last number, with no word, no mask and no signed number.
use sfu.Prelude.{
  ℕ, suc, ◌+◌, ◌-◌, zero, ◌/◌, ◌%◌, ◌≡◌, refl, sym, ap, ◌∙◌, Bool, true, false, not, ◌&&◌, ◌||◌,
  arith, leb, length, if◌then◌else◌, Bool-cases, inl, inr, subst, get_or, get_or-replicate,
}
use sfu.Prelude.Int.{ℤ, pos, negsuc, ◌+ℤ◌, int_ltb, rounds, diff}
use sfu.Prelude.Bits.{is_set, is_set_zero}
use sfu.Crates.{Crates}
use sfu.Types.{Instant}
use sfu.Interceptor.Stream.{
  ReceiverStream, process_rtp, advance, first_frame, count_cycle, set_received, get_received,
  del_range, new_stream, position,
}
use sfu.Interceptor.Slots.{
  Slots, same_slot, add_slot, remove_range, get_received-set_received, get_received-del_range,
  length-set_received, length-del_range, remove_range_ext,
}

pub record Arrivals : Type 0 where
  pub any : Bool
  pub slots : Slots
  pub last : ℕ

abbrev pub no_arrival : Arrivals
no_arrival = record { any = false; slots = λ q. false; last = 0 }

-- The packet `seq`: of those after the last one, the numbers between are taken for missing.
unfoldable pub ahead : ℕ → Arrivals → Arrivals
ahead seq a = record {
  any = true;
  slots = remove_range (seq - (a.last + 1)) (a.last + 1) (add_slot seq a.slots);
  last = seq;
}

-- Not after the last one, and less than 4096 numbers before it.
abbrev late : ℕ → ℕ → Bool
late seq last = leb seq last && leb last (seq + 4095)

unfoldable pub arrive : ℕ → Arrivals → Arrivals
unfolding ahead
arrive seq a =
    if not a.any
    then record { any = true; slots = add_slot seq a.slots; last = seq }
    else if late seq a.last
    then record a { slots = add_slot seq a.slots }
    else ahead seq a

late_lem :
    (seq last : ℕ)
    → (not (int_ltb (diff seq last) (negsuc 4094)) && not (int_ltb (pos 0) (diff seq last)))
      ≡ late seq last
late_lem seq last = ground arith

rounds_lem : (last seq : ℕ) → rounds (pos last +ℤ pos 1) (pos seq) ≡ seq - (last + 1)
rounds_lem last seq = ground arith

module _ {c : Crates} where
  -- A stream has what the description has.
  unfoldable pub Refines : ReceiverStream c → Arrivals → Type 0
  Refines s a =
      (length s.packets ≡ 128)
      × (s.started ≡ a.any)
      × (s.last_seq_num ≡ pos a.last)
      × ((q : ℕ) → get_received s q ≡ a.slots q)

  last_seq-set_received :
      (seq : ℕ) (s : ReceiverStream c) (a : Arrivals)
      → Refines s a
      → (set_received seq s).last_seq_num ≡ pos a.last
  unfolding Refines set_received
  last_seq-set_received seq s a h = h.2

  started-set_received : (seq : ℕ) (s : ReceiverStream c) → (set_received seq s).started ≡ s.started
  unfolding set_received
  started-set_received seq s = refl

  -- What `advance` does in its two cases.
  advance-late :
      (seq : ℕ) (s : ReceiverStream c) (last : ℕ)
      → s.last_seq_num ≡ pos last
      → late seq last ≡ true
      → advance seq s ≡ s
  unfolding advance
  advance-late seq s last e h = rw (e, late_lem seq last, h) refl

  advance_ahead :
      (seq : ℕ) (s : ReceiverStream c) (last : ℕ)
      → s.last_seq_num ≡ pos last
      → late seq last ≡ false
      → advance seq s
        ≡ record (del_range (seq - (last + 1)) (pos (last + 1)) (count_cycle (diff seq last) s)) {
          last_seq_num = pos seq;
        }
  unfolding advance
  advance_ahead seq s last e h = rw (e, late_lem seq last, h, rounds_lem last seq) refl

  packets-count_cycle : (d : ℤ) (s : ReceiverStream c) → (count_cycle d s).packets ≡ s.packets
  unfolding count_cycle
  packets-count_cycle d s = ground arith

  started-count_cycle : (d : ℤ) (s : ReceiverStream c) → (count_cycle d s).started ≡ s.started
  unfolding count_cycle
  started-count_cycle d s = ground arith

  started-del_range : (n : ℕ) (i : ℤ) (s : ReceiverStream c) → (del_range n i s).started ≡ s.started
  unfolding del_range
  started-del_range zero i s = refl
  started-del_range (suc n) i s = started-del_range n (i +ℤ pos 1) _

  -- `get_received` reads the words alone.
  get_received_ext :
      (s t : ReceiverStream c) (q : ℕ) → s.packets ≡ t.packets → get_received s q ≡ get_received t q
  unfolding get_received
  get_received_ext s t q e =
      ap (λ ws. is_set (get_or 0 (q % length ws / 64) ws) (q % length ws % 64)) e

  marked :
      (seq : ℕ) (s : ReceiverStream c) (a : Arrivals) (q : ℕ)
      → Refines s a
      → get_received (set_received seq s) q ≡ add_slot seq a.slots q
  unfolding Refines
  marked seq s a q (n, _, _, same) =
      get_received-set_received seq q s n ∙ ap (λ x. same_slot seq q || x) (same q)

  first_frame-Refines :
      (seq : ℕ) (s : ReceiverStream c) (a : Arrivals)
      → Refines s a
      → a.any ≡ false
      → Refines (first_frame seq s) (arrive seq a)
  unfolding Refines first_frame arrive
  first_frame-Refines seq s a h n = rw n (
    length-set_received seq s ∙ h.0,
    refl,
    refl,
    λ q. get_received_ext _ (set_received seq s) q refl ∙ marked seq s a q h,
  )

  late-Refines :
      (seq : ℕ) (s : ReceiverStream c) (a : Arrivals)
      → Refines s a
      → Refines (set_received seq s) (record a { slots = add_slot seq a.slots })
  unfolding Refines set_received
  late-Refines seq s a h = (length-set_received seq s ∙ h.0, h.1, h.2, λ q. marked seq s a q h)

  ahead-Refines :
      (seq : ℕ) (s : ReceiverStream c) (a : Arrivals)
      → Refines s a
      → a.any ≡ true
      → Refines
          (record (del_range
            (seq - (a.last + 1))
            (pos (a.last + 1))
            (count_cycle (diff seq a.last) (set_received seq s))) { last_seq_num = pos seq })
          (ahead seq a)
  unfolding Refines ahead
  ahead-Refines seq s a h n = (
    length-del_range (seq - (a.last + 1)) (a.last + 1) counted ∙ length_counted,
    started-del_range (seq - (a.last + 1)) (pos (a.last + 1)) counted
        ∙ started-count_cycle (diff seq a.last) (set_received seq s)
        ∙ started-set_received seq s
        ∙ h.1
        ∙ n,
    refl,
    λ q.
        get_received_ext _ (del_range (seq - (a.last + 1)) (pos (a.last + 1)) counted) q refl
        ∙ get_received-del_range (seq - (a.last + 1)) (a.last + 1) q counted length_counted
        ∙ remove_range_ext (seq - (a.last + 1)) (a.last + 1) q _ _ (
            get_received_ext counted (set_received seq s) q
              (packets-count_cycle (diff seq a.last) (set_received seq s))
            ∙ marked seq s a q h),
  )
    where
      counted : ReceiverStream c
      counted = count_cycle (diff seq a.last) (set_received seq s)

      length_counted : length counted.packets ≡ 128
      length_counted =
          ap length (packets-count_cycle (diff seq a.last) (set_received seq s))
          ∙ length-set_received seq s
          ∙ h.0

  advance-Refines :
      (seq : ℕ) (s : ReceiverStream c) (a : Arrivals)
      → Refines s a
      → a.any ≡ true
      → Refines (advance seq (set_received seq s)) (arrive seq a)
  unfolding arrive
  advance-Refines seq s a h n = elim (Bool-cases (late seq a.last)) [
    | inl l ↦
        subst (λ s'. Refines s' (arrive seq a))
          (sym (advance-late seq (set_received seq s) a.last (last_seq-set_received seq s a h) l))
          (rw (n, l)
            (subst
              (λ b.
                Refines (set_received seq s) (record a { any = b; slots = add_slot seq a.slots }))
              n (late-Refines seq s a h)))
    | inr l ↦
        subst (λ s'. Refines s' (arrive seq a))
          (sym (advance_ahead seq (set_received seq s) a.last (last_seq-set_received seq s a h) l))
          (rw (n, l) (ahead-Refines seq s a h n))
  ]

  -- The description reads three fields of the stream.
  Refines-ext :
      (s t : ReceiverStream c) (a : Arrivals)
      → s.packets ≡ t.packets
      → s.started ≡ t.started
      → s.last_seq_num ≡ t.last_seq_num
      → Refines s a
      → Refines t a
  unfolding Refines
  Refines-ext s t a p b l h = (
    ap length (sym p) ∙ h.0,
    sym b ∙ h.1,
    sym l ∙ h.2,
    λ q. get_received_ext t s q (sym p) ∙ h.3 q,
  )

  started_any : (s : ReceiverStream c) (a : Arrivals) → Refines s a → s.started ≡ a.any
  unfolding Refines
  started_any s a h = h.1

  -- A stream keeps to the description, packet by packet.
  pub process_rtp-Refines :
      (now : Instant) (pkt : c.RtpPacket) (s : ReceiverStream c) (a : Arrivals)
      → Refines s a
      → Refines (process_rtp now pkt s) (arrive (c.sequence_number pkt) a)
  unfolding process_rtp
  process_rtp-Refines now pkt s a h = elim (Bool-cases s.started) [
    | inl b ↦ rw b (
        Refines-ext (advance (c.sequence_number pkt) (set_received (c.sequence_number pkt) s)) _ _
          refl refl refl
          (advance-Refines (c.sequence_number pkt) s a h (sym (started_any s a h) ∙ b)))
    | inr b ↦ rw b (
        Refines-ext (first_frame (c.sequence_number pkt) s) _ _ refl refl refl
          (first_frame-Refines (c.sequence_number pkt) s a h (sym (started_any s a h) ∙ b)))
  ]

pub new_stream-Refines :
    (c : Crates) (random clock ssrc rate : ℕ)
    → Refines (new_stream {c = c} random clock ssrc rate) no_arrival
unfolding Refines new_stream get_received position
new_stream-Refines c random clock ssrc rate = (
  refl,
  refl,
  refl,
  λ q. rw (get_or-replicate {A = ℕ} 0 128 (q % 128 / 64)) (is_set_zero (q % 128 % 64)),
)
