-- ===== src/Interceptor/Chain.antt =====
-- src/interceptors/mod.rs, report/sender_report.rs and report/receiver_report.rs: what the chain of
-- interceptors does with a message and with the time. An interceptor calls the next one itself.
use sfu.Prelude.{
  ℕ, ◌+◌, Bool, true, false, none, some, List, [], ◌∷◌, ◌++◌, map, if◌then◌else◌, leb, ltb,
  flat_map, is_empty, nat_eq,
}
use sfu.Prelude.HashMap.{HashMap, adjust, values}
use sfu.Prelude.Results.{Error}
use sfu.Crates.{Crates, PacketType, receiver_report, transport_specific_feedback}
use sfu.Types.{FourTuple, Instant}
use sfu.Messages.{TaggedMessageEvent, rtp, RtpMessageEvent}
use sfu.Interceptor.{Interceptor, no_op, sender_report}
use sfu.Interceptor.Stream.{ReceiverStream, process_rtp, process_sender_report, generate_report}

pub data InterceptorEvent (c : Crates) : Type 0 where
  inbound : TaggedMessageEvent c → InterceptorEvent c
  outbound : TaggedMessageEvent c → InterceptorEvent c
  error : Error → InterceptorEvent c

-- The reports from hop to hop, which are not forwarded.
unfoldable pub is_hop_by_hop : PacketType → Bool
is_hop_by_hop receiver_report = true
is_hop_by_hop transport_specific_feedback = true
is_hop_by_hop PacketType.other = false

-- `inbound_rtcp_packets`
unfoldable pub end_to_end : (c : Crates) → List c.RtcpPacket → List c.RtcpPacket
unfolding is_hop_by_hop
end_to_end c [] = []
end_to_end c (p ∷ ps) =
    if is_hop_by_hop (c.packet_type p) then end_to_end c ps else p ∷ end_to_end c ps

module _ {c : Crates} where
  -- What SenderReport::read adds to the events of the next interceptor.
  unfoldable pub forwarded : TaggedMessageEvent c → List (InterceptorEvent c)
  unfolding end_to_end
  forwarded msg = elim msg.message [
    | rtp m ↦ elim m [
      | RtpMessageEvent.rtcp ps ↦
          if is_empty (end_to_end c ps)
          then []
          else InterceptorEvent.inbound (record {
            now = msg.now;
            transport = msg.transport;
            message = rtp (RtpMessageEvent.rtcp (end_to_end c ps));
          })
            ∷ []
      | _ ↦ []
    ]
    | _ ↦ []
  ]

  -- The sender reports of a message, each to the stream that it is about.
  unfoldable pub observe_rtcp :
      Instant → List c.RtcpPacket → HashMap ℕ (ReceiverStream c) → HashMap ℕ (ReceiverStream c)
  observe_rtcp now [] streams = streams
  observe_rtcp now (p ∷ ps) streams = observe_rtcp now ps (elim (c.as_sender_report p) [
    | none ↦ streams
    | some sr ↦ adjust sr.ssrc (process_sender_report now sr) streams
  ])

  -- What ReceiverReport::read does to its streams.
  unfoldable pub observe :
      TaggedMessageEvent c → HashMap ℕ (ReceiverStream c) → HashMap ℕ (ReceiverStream c)
  unfolding observe_rtcp
  observe msg streams = elim msg.message [
    | rtp m ↦ elim m [
      | RtpMessageEvent.rtcp ps ↦ observe_rtcp msg.now ps streams
      | RtpMessageEvent.packet p ↦ adjust (c.packet_ssrc p) (process_rtp msg.now p) streams
      | _ ↦ streams
    ]
    | _ ↦ streams
  ]

  unfoldable pub read :
      TaggedMessageEvent c → Interceptor c → List (InterceptorEvent c) × Interceptor c
  unfolding forwarded observe
  read msg no_op = ([], no_op)
  read msg (sender_report next) =
      let (events, next') = read msg next in (forwarded msg ++ events, sender_report next')
  read msg (Interceptor.receiver_report interval eto streams next) =
      let (events, next') = read msg next in
      (events, Interceptor.receiver_report interval eto (observe msg streams) next')

  -- No interceptor overrides `write`, which asks the next one.
  unfoldable pub write :
      TaggedMessageEvent c → Interceptor c → List (InterceptorEvent c) × Interceptor c
  write msg no_op = ([], no_op)
  write msg (sender_report next) =
      let (events, next') = write msg next in (events, sender_report next')
  write msg (Interceptor.receiver_report interval eto streams next) =
      let (events, next') = write msg next in
      (events, Interceptor.receiver_report interval eto streams next')

  -- The report on a stream, to every transport.
  unfoldable pub report_to : Instant → List FourTuple → ReceiverStream c → List (InterceptorEvent c)
  unfolding generate_report
  report_to now four_tuples stream =
      map
        (λ ft. InterceptorEvent.outbound (record {
          now = now;
          transport = record { local_addr = ft.local_addr; peer_addr = ft.peer_addr; ecn = none };
          message =
              rtp
                (RtpMessageEvent.rtcp (c.box_receiver_report (generate_report now stream).0 ∷ []));
        }))
        four_tuples

  unfoldable pub handle_timeout :
      Instant → List FourTuple → Interceptor c → List (InterceptorEvent c) × Interceptor c
  unfolding report_to
  handle_timeout now four_tuples no_op = ([], no_op)
  handle_timeout now four_tuples (sender_report next) =
      let (events, next') = handle_timeout now four_tuples next in (events, sender_report next')
  handle_timeout now four_tuples (Interceptor.receiver_report interval eto streams next) =
      let (events, next') = handle_timeout now four_tuples next in
      if leb eto now
      then (
        flat_map (report_to now four_tuples) (values streams) ++ events,
        Interceptor.receiver_report interval (now + interval)
            (map (λ s. (s.0, (generate_report now s.1).1)) streams) next',
      )
      else (events, Interceptor.receiver_report interval eto streams next')

  unfoldable pub poll_timeout : Interceptor c → Instant → Instant
  poll_timeout no_op eto = eto
  poll_timeout (sender_report next) eto = poll_timeout next eto
  poll_timeout (Interceptor.receiver_report interval own streams next) eto =
      poll_timeout next (if ltb own eto then own else eto)
