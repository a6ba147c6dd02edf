-- ===== src/Examples/Streams.antt =====
-- The theorems on receiver streams and the chain of interceptors, on small streams.
use sfu.Prelude.{
  any, ◌+◌, ◌*◌, ◌^◌, ◌≤◌, ◌<◌, min, ◌≡◌, refl, true, false, none, [], ◌∷◌, arith, nat_beq,
  replicate,
}
use sfu.Prelude.Int.{pos}
use sfu.Crates.{ReceptionReport}
use sfu.Interceptor.{Interceptor, no_op, sender_report, receiver_report, Registry, build}
use sfu.Interceptor.Stream.{
  ReceiverStream, scan_lost, get_received, process_rtp, lost_since_report, total_since_report,
  generate_report, new_stream,
}
use sfu.Interceptor.Arrivals.{Refines, no_arrival}
use sfu.Interceptor.Gaps.{arrive_all, process_all, numbers, receive-Refines, process_rtp_gap}
use sfu.Interceptor.Loss.{unmarked, scan_lost_ends, generate_report_lem}
use sfu.Interceptor.Chain.{handle_timeout, poll_timeout}
use sfu.Interceptor.Timers.{start, Ticking, handle_timeout_silent, handle_timeout_later}
use sfu.Examples.{crates, tuple}

-- The last packet was 13, and the last report went up to 9.
abbrev stream : ReceiverStream crates
stream = record {
  ssrc = 5;
  receiver_ssrc = 9;
  clock_rate = 90000;
  packets = replicate 128 0;
  started = true;
  seq_num_cycles = 2;
  last_seq_num = pos 13;
  last_report_seq_num = pos 9;
  last_rtp_time_rtp = 0;
  last_rtp_time_time = 0;
  jitter = 0;
  last_sender_report = 0;
  last_sender_report_time = 0;
  total_lost = 4;
}

abbrev registry : Registry
registry = record { is_rr = true; interval = none } ∷ record { is_rr = false; interval = none } ∷ []

receive-Refines_example :
    Refines
      (process_all ((1, 10) ∷ (2, 13) ∷ (3, 11) ∷ []) (new_stream {c = crates} 9 0 5 90000))
      (arrive_all (10 ∷ 13 ∷ 11 ∷ []) no_arrival)
receive-Refines_example = receive-Refines crates 9 0 5 90000 ((1, 10) ∷ (2, 13) ∷ (3, 11) ∷ [])

-- The packet 200 is 187 numbers ahead, and is not marked as received.
process_rtp_gap_example :
    (get_received (process_rtp {c = crates} 5 200 stream) 200 ≡ false)
    × (any (get_received (process_rtp {c = crates} 5 200 stream)) (numbers 186 14) ≡ false)
process_rtp_gap_example =
    process_rtp_gap {c = crates} 5 200 stream 13 refl refl refl (omega arith) (omega arith)

scan_lost_ends_example :
    scan_lost 65536 (λ n. nat_beq n 65535) 1 (record { i = 65534; ret = 0 })
    ≡ record { i = 1; ret = 2 }
scan_lost_ends_example = scan_lost_ends (λ n. nat_beq n 65535) 1 65534 0 (omega arith) (omega arith)

generate_report_lem_example :
    (lost_since_report stream ≡ unmarked (get_received stream) 9 13)
    × (lost_since_report stream < total_since_report stream)
    × ((r : ReceptionReport) × ((generate_report 7 stream).0.reports ≡ r ∷ [])
        × (r.total_lost ≡ min (4 + lost_since_report stream) 0xFFFFFF)
        × (r.last_sequence_number ≡ 2 * 2 ^ 16 + 13))
    × ((generate_report 7 stream).1.total_lost ≡ min (4 + lost_since_report stream) 0xFFFFFF)
    × (lost_since_report (generate_report 7 stream).1 ≡ 0)
generate_report_lem_example =
    generate_report_lem {c = crates} 7 stream 9 13 refl refl (omega arith) (omega arith)
      (ground arith) (omega arith)

handle_timeout_silent_example :
    (handle_timeout 50 (tuple 20 ∷ []) (build {c = crates} 3 registry)).0 ≡ []
handle_timeout_silent_example =
    handle_timeout_silent crates 3 50 registry (tuple 20 ∷ []) (build 3 registry) start

abbrev chain : Interceptor crates
chain = receiver_report 10 40 ((5, stream) ∷ []) (sender_report no_op)

chain-Ticking : Ticking chain
unfolding Ticking
chain-Ticking = (omega arith, tt)

handle_timeout_later_example :
    (50 < poll_timeout (handle_timeout 50 (tuple 20 ∷ []) chain).1 100)
    × (poll_timeout (handle_timeout 50 (tuple 20 ∷ []) chain).1 100 ≤ 100)
handle_timeout_later_example =
    handle_timeout_later 50 100 (tuple 20 ∷ []) chain chain-Ticking (omega arith)
