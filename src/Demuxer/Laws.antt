-- ===== src/Demuxer/Laws.antt =====
-- How src/handlers/demuxer.rs sorts datagrams on the way in and unwraps them on the way out.
use sfu.Prelude.{
  ℕ, ◌≤◌, ◌<◌, ◌≡◌, ◌↔◌, ◌⊎◌, inl, inr, Bool, true, false, none, some, List, ◌∷◌, arith, is_empty,
  Bool-cases, if◌then◌else◌,
}
use sfu.Crates.{Crates}
use sfu.Messages.{
  TaggedBytesMut, TaggedMessageEvent, MessageEvent, stun, dtls, rtp, StunMessageEvent,
  DtlsMessageEvent, RtpMessageEvent,
}
use sfu.Demuxer.{handle_read, poll_write, raw_bytes, match_dtls, match_srtp, match_range}

-- A datagram that is not empty leaves the demultiplexer as it came in, and an empty one does not.
poll_write-handle_read :
    (c : Crates) (msg : TaggedBytesMut)
    → poll_write (handle_read {c = c} msg) ≡ (if is_empty msg.message then none else some msg)
unfolding poll_write handle_read raw_bytes
poll_write-handle_read c msg = ground arith

module _ {c : Crates} where
  abbrev pub is_dtls : MessageEvent c → Bool
  is_dtls (dtls m) = true
  is_dtls m = false

  abbrev pub is_rtp : MessageEvent c → Bool
  is_rtp (rtp m) = true
  is_rtp m = false

  abbrev pub is_stun : MessageEvent c → Bool
  is_stun (stun m) = true
  is_stun m = false

  -- The first byte of a datagram says where it goes: 20 to 63 to DTLS, 128 to 191 to RTP and RTCP, and
  -- any other to STUN, so that no datagram with a byte is dropped.
  handle_read_classifies :
      (msg : TaggedBytesMut) (b : ℕ) (buf : List ℕ)
      → msg.message ≡ b ∷ buf
      → (m : TaggedMessageEvent c) × (handle_read msg ≡ some m)
        × ((is_dtls m.message ≡ true) ↔ ((20 ≤ b) × (b ≤ 63)))
        × ((is_rtp m.message ≡ true) ↔ ((128 ≤ b) × (b ≤ 191)))
        × ((is_stun m.message ≡ true) ↔ ((b < 20) ⊎ ((63 < b) × (b < 128)) ⊎ (191 < b)))
  unfolding handle_read match_dtls match_srtp match_range
  handle_read_classifies msg b buf h = elim (Bool-cases (match_dtls (b ∷ buf))) [
    | inl d ↦ (
      record {
        now = msg.now;
        transport = msg.transport;
        message = dtls (DtlsMessageEvent.raw msg.message);
      },
      ground (arith, h, d),
      ground arith,
      ground arith,
      ground arith,
    )
    | inr d ↦ elim (Bool-cases (match_srtp (b ∷ buf))) [
      | inl r ↦ (
        record {
          now = msg.now;
          transport = msg.transport;
          message = rtp (RtpMessageEvent.raw msg.message);
        },
        ground (arith, h, d, r),
        ground arith,
        ground arith,
        ground arith,
      )
      | inr r ↦ (
        record {
          now = msg.now;
          transport = msg.transport;
          message = stun (StunMessageEvent.raw msg.message);
        },
        ground (arith, h, d, r),
        ground arith,
        ground arith,
        ground arith,
      )
    ]
  ]
