-- ===== src/Interceptor/Stream.antt =====
-- src/interceptors/report/receiver_stream.rs: what a receiver report tells of one stream. A bit for
-- each of the last packets says whether the packet came.
use sfu.Prelude.{
  ℕ, zero, suc, ◌+◌, ◌-◌, ◌*◌, ◌/◌, ◌%◌, ◌^◌, bit_or, bit_and, bit_xor, Bool, true, false, not,
  ◌&&◌, List, [], ◌∷◌, if◌then◌else◌, nat_beq, leb, length, get_or, update_at, replicate,
}
use sfu.Prelude.Int.{ℤ, pos, negsuc, ◌+ℤ◌, ◌-ℤ◌, int_ltb, int_beq, as_u16, as_u32, rounds}
use sfu.Crates.{Crates, SenderReport, ReceiverReport}
use sfu.Types.{Instant}

pub record ReceiverStream (c : Crates) : Type 0 where
  pub ssrc : ℕ  -- u32
  pub receiver_ssrc : ℕ  -- u32
  pub clock_rate : c.F64
  pub packets : List ℕ  -- u64 each
  pub started : Bool
  pub seq_num_cycles : ℕ  -- u16
  pub last_seq_num : ℤ  -- i32
  pub last_report_seq_num : ℤ  -- i32
  pub last_rtp_time_rtp : ℕ  -- u32
  pub last_rtp_time_time : Instant
  pub jitter : c.F64
  pub last_sender_report : ℕ  -- u32
  pub last_sender_report_time : Instant
  pub total_lost : ℕ  -- u32

-- The state of a `while` loop that counts: the loop variable and the count.
pub record Scan : Type 0 where
  pub i : ℕ  -- u16
  pub ret : ℕ  -- u32

-- `while i != last`; the fuel is a bound on the rounds.
unfoldable pub scan_lost : ℕ → (ℕ → Bool) → ℕ → Scan → Scan
scan_lost zero received last s = s
scan_lost (suc fuel) received last s = elim (nat_beq s.i last) [
  | true ↦ s
  | false ↦
      scan_lost fuel received last
        (record { i = (s.i + 1) % 65536; ret = if received s.i then s.ret else s.ret + 1 })
]

-- With a round for every u16 the loop ends by its test.
unfoldable pub lost_between : (ℕ → Bool) → ℤ → ℤ → ℕ
lost_between received last report =
    if int_beq last report
    then 0
    else (scan_lost 65536 received (as_u16 last)
        (record { i = as_u16 (report +ℤ pos 1); ret = 0 })).ret

-- Up to 24 bits.
unfoldable pub cap : ℕ → ℕ
cap n = if leb n 0xFFFFFF then n else 0xFFFFFF

module _ {c : Crates} where
  -- ReceiverStream::new; `random` is the identifier drawn and `clock` is `Instant::now()`.
  unfoldable pub new_stream : ℕ → Instant → ℕ → ℕ → ReceiverStream c
  new_stream random clock ssrc clock_rate = record {
    ssrc = ssrc;
    receiver_ssrc = random;
    clock_rate = c.to_f64 clock_rate;
    packets = replicate 128 0;
    started = false;
    seq_num_cycles = 0;
    last_seq_num = pos 0;
    last_report_seq_num = pos 0;
    last_rtp_time_rtp = 0;
    last_rtp_time_time = clock;
    jitter = c.to_f64 0;
    last_sender_report = 0;
    last_sender_report_time = clock;
    total_lost = 0;
  }

  unfoldable pub position : ReceiverStream c → ℕ → ℕ
  position self seq = seq % length self.packets

  unfoldable pub set_received : ℕ → ReceiverStream c → ReceiverStream c
  unfolding position
  set_received seq self = record self {
    packets =
        update_at (position self seq / 64) (λ w. bit_or w (2 ^ (position self seq % 64)))
          self.packets;
  }

  unfoldable pub del_received : ℕ → ReceiverStream c → ReceiverStream c
  unfolding position
  del_received seq self = record self {
    packets =
        update_at (position self seq / 64)
          (λ w. bit_and w (bit_xor (2 ^ 64 - 1) (2 ^ (position self seq % 64)))) self.packets;
  }

  unfoldable pub get_received : ReceiverStream c → ℕ → Bool
  unfolding position
  get_received self seq = not (
      nat_beq
        (bit_and (get_or 0 (position self seq / 64) self.packets) (2 ^ (position self seq % 64))) 0)

  -- `for i in last_seq_num + 1..seq`, by the number of rounds.
  unfoldable pub del_range : ℕ → ℤ → ReceiverStream c → ReceiverStream c
  unfolding del_received
  del_range zero i self = self
  del_range (suc n) i self = del_range n (i +ℤ pos 1) (del_received (as_u16 i) self)

  unfoldable pub count_cycle : ℤ → ReceiverStream c → ReceiverStream c
  count_cycle d self =
      if int_ltb d (negsuc 4094)
      then record self { seq_num_cycles = (self.seq_num_cycles + 1) % 65536 }
      else self

  -- A packet that is not late, that is with `diff` not in -0x0FFF..=0, is the last one now.
  unfoldable pub advance : ℕ → ReceiverStream c → ReceiverStream c
  unfolding del_range count_cycle
  advance seq self =
      let d = pos seq -ℤ self.last_seq_num in
      if not (int_ltb d (negsuc 4094)) && not (int_ltb (pos 0) d)
      then self
      else record (del_range (rounds (self.last_seq_num +ℤ pos 1) (pos seq))
          (self.last_seq_num +ℤ pos 1) (count_cycle d self)) { last_seq_num = pos seq }

  unfoldable pub next_jitter : Instant → ℕ → ReceiverStream c → c.F64
  next_jitter now timestamp self =
      c.add_f64 self.jitter (c.div_f64 (c.sub_f64 (c.abs_f64 d) self.jitter) (c.to_f64 16))
    where
      d : c.F64
      d =
          c.sub_f64 (c.mul_f64 (c.as_secs_f64 (now - self.last_rtp_time_time)) self.clock_rate)
            (c.sub_f64 (c.to_f64 timestamp) (c.to_f64 self.last_rtp_time_rtp))

  unfoldable pub first_frame : ℕ → ReceiverStream c → ReceiverStream c
  unfolding set_received
  first_frame seq self = record (set_received seq self) {
    started = true;
    last_seq_num = pos seq;
    last_report_seq_num = pos seq -ℤ pos 1;
  }

  unfoldable pub process_rtp : Instant → c.RtpPacket → ReceiverStream c → ReceiverStream c
  unfolding first_frame set_received advance next_jitter
  process_rtp now pkt self =
      record (elim self.started [
        | false ↦ first_frame (c.sequence_number pkt) self
        | true ↦
            record (advance (c.sequence_number pkt) (set_received (c.sequence_number pkt) self)) {
              jitter = next_jitter now (c.timestamp pkt) self;
            }
      ]) { last_rtp_time_rtp = c.timestamp pkt; last_rtp_time_time = now }

  unfoldable pub process_sender_report :
      Instant → SenderReport → ReceiverStream c → ReceiverStream c
  process_sender_report now sr self = record self {
    last_sender_report = (sr.ntp_time / 65536) % 4294967296;
    last_sender_report_time = now;
  }

  unfoldable pub total_since_report : ReceiverStream c → ℕ
  total_since_report self = as_u16 (self.last_seq_num -ℤ self.last_report_seq_num)

  unfoldable pub lost_since_report : ReceiverStream c → ℕ
  lost_since_report self =
      lost_between (get_received self) self.last_seq_num self.last_report_seq_num

  unfoldable pub generate_report : Instant → ReceiverStream c → ReceiverReport × ReceiverStream c
  unfolding total_since_report lost_since_report cap
  generate_report now self =
      let lost = lost_since_report self in
      let total = cap ((self.total_lost + lost) % 4294967296) in
      (
        record {
          ssrc = self.receiver_ssrc;
          reports =
              record {
                ssrc = self.ssrc;
                last_sequence_number =
                    bit_or (self.seq_num_cycles * 2 ^ 16) (as_u32 self.last_seq_num);
                last_sender_report = self.last_sender_report;
                fraction_lost = c.as_u8 (
                    c.div_f64 (c.to_f64 ((cap lost * 256) % 4294967296))
                      (c.to_f64 (total_since_report self)));
                total_lost = total;
                delay = c.as_u32 (
                    c.mul_f64 (c.as_secs_f64 (now - self.last_sender_report_time))
                      (c.to_f64 65536));
                jitter = c.as_u32 self.jitter;
              }
              ∷ [];
        },
        record self { total_lost = total; last_report_seq_num = self.last_seq_num },
      )
