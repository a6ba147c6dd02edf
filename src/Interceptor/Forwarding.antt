-- ===== src/Interceptor/Forwarding.antt =====
-- Which packets the chain of src/interceptors passes on.
use sfu.Prelude.{
  arith, ◌≡◌, refl, sym, ap, ◌∙◌, ◌↔◌, inl, inr, false, List, [], ◌∷◌, In, In-append, Bool-cases,
  is_empty,
}
use sfu.Crates.{Crates, PacketType}
use sfu.Messages.{TaggedMessageEvent, rtp, RtpMessageEvent}
use sfu.Interceptor.{Interceptor, no_op, sender_report, receiver_report}
use sfu.Interceptor.Chain.{InterceptorEvent, read, write, forwarded, end_to_end, is_hop_by_hop}

is_hop_by_hop-other : (t : PacketType) → is_hop_by_hop t ≡ false → t ≡ PacketType.other
unfolding is_hop_by_hop
is_hop_by_hop-other PacketType.receiver_report h = absurd (ground arith)
is_hop_by_hop-other PacketType.transport_specific_feedback h = absurd (ground arith)
is_hop_by_hop-other PacketType.other h = refl

module _ (c : Crates) where
  end_to_end_sound :
      (p : c.RtcpPacket) (ps : List c.RtcpPacket)
      → In p (end_to_end c ps)
      → In p ps × (is_hop_by_hop (c.packet_type p) ≡ false)
  unfolding end_to_end
  end_to_end_sound p [] i = elim i [ ]
  end_to_end_sound p (q ∷ ps) i = elim (Bool-cases (is_hop_by_hop (c.packet_type q))) [
    | inl h ↦ let (m, k) = end_to_end_sound p ps (rw h at i) in (inr m, k)
    | inr h ↦ elim (rw h at i) [
      | inl e ↦ (inl e, ap (λ x. is_hop_by_hop (c.packet_type x)) e ∙ h)
      | inr m ↦ let (m', k) = end_to_end_sound p ps m in (inr m', k)
    ]
  ]

  end_to_end_complete :
      (p : c.RtcpPacket) (ps : List c.RtcpPacket)
      → In p ps
      → is_hop_by_hop (c.packet_type p) ≡ false
      → In p (end_to_end c ps)
  unfolding end_to_end
  end_to_end_complete p [] i h = elim i [ ]
  end_to_end_complete p (q ∷ ps) (inl e) h =
      rw (ap (λ x. is_hop_by_hop (c.packet_type x)) (sym e) ∙ h) (inl e)
  end_to_end_complete p (q ∷ ps) (inr i) h = elim (Bool-cases (is_hop_by_hop (c.packet_type q))) [
    | inl k ↦ rw k (end_to_end_complete p ps i h)
    | inr k ↦ rw k (inr (end_to_end_complete p ps i h))
  ]

module _ {c : Crates} where
  pub In-read :
      (e : InterceptorEvent c) (msg : TaggedMessageEvent c) (i : Interceptor c)
      → In e (read msg i).0
      → In e (forwarded msg)
  unfolding read
  In-read e msg no_op m = elim m [ ]
  In-read e msg (sender_report next) m = elim (In-append e (forwarded msg) (read msg next).0 m) [
    | inl l ↦ l
    | inr r ↦ In-read e msg next r
  ]
  In-read e msg (receiver_report interval eto streams next) m = In-read e msg next m

  pub write_silent : (msg : TaggedMessageEvent c) (i : Interceptor c) → write msg i ≡ ([], i)
  unfolding write
  write_silent msg no_op = refl
  write_silent msg (sender_report next) = rw (write_silent msg next) refl
  write_silent msg (receiver_report interval eto streams next) = rw (write_silent msg next) refl

  -- Whatever chain reads a message of RTCP packets, each event is an inbound message on the same
  -- transport with the packets of the message that are neither receiver reports nor transport specific
  -- feedback, at least one of them.
  pub read_rtcp :
      (e : InterceptorEvent c) (msg : TaggedMessageEvent c) (ps : List c.RtcpPacket)
      (i : Interceptor c)
      → msg.message ≡ rtp (RtpMessageEvent.rtcp ps)
      → In e (read msg i).0
      → (qs : List c.RtcpPacket) × (e
          ≡ InterceptorEvent.inbound (record msg { message = rtp (RtpMessageEvent.rtcp qs) }))
        × (is_empty qs ≡ false)
        × ((p : c.RtcpPacket) → In p qs ↔ (In p ps × (c.packet_type p ≡ PacketType.other)))
  unfolding forwarded is_hop_by_hop
  read_rtcp e msg ps i h m = elim (Bool-cases (is_empty (end_to_end c ps))) [
    | inl k ↦ elim (rw (h, k) at (In-read e msg i m)) [ ]
    | inr k ↦ elim (rw (h, k) at (In-read e msg i m)) [
      | inl f ↦ (
        end_to_end c ps,
        f,
        k,
        λ p. (
          λ i. let (a, b) = end_to_end_sound c p ps i in (a, is_hop_by_hop-other _ b),
          λ (a, b). end_to_end_complete c p ps a (ap is_hop_by_hop b),
        ),
      )
      | inr n ↦ elim n [ ]
    ]
  ]
