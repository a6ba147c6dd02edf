-- ===== src/Demuxer.antt =====
-- src/handlers/demuxer.rs: the first byte of a datagram says which protocol it belongs to. The events
-- of src/messages.rs stand in `Messages`.
pub mod Laws
use sfu.Prelude.{
  ℕ, Bool, false, ◌&&◌, List, [], ◌∷◌, Option, none, some, leb, if◌then◌else◌, is_empty,
}
use sfu.Crates.{Crates}
use sfu.Messages.{
  TaggedBytesMut, TaggedMessageEvent, MessageEvent, stun, dtls, rtp, StunMessageEvent,
  DtlsMessageEvent, RtpMessageEvent,
}

unfoldable pub match_range : ℕ → ℕ → List ℕ → Bool
match_range lower upper [] = false
match_range lower upper (b ∷ buf) = leb lower b && leb b upper

unfoldable pub match_dtls : List ℕ → Bool
unfolding match_range
match_dtls b = match_range 20 63 b

unfoldable pub match_srtp : List ℕ → Bool
unfolding match_range
match_srtp b = match_range 128 191 b

module _ {c : Crates} where
  -- What `handle_read` passes on by `ctx.fire_read`; an empty datagram is dropped.
  unfoldable pub handle_read : TaggedBytesMut → Option (TaggedMessageEvent c)
  unfolding match_dtls match_srtp
  handle_read msg =
      if is_empty msg.message
      then none
      else if match_dtls msg.message
      then fire (dtls (DtlsMessageEvent.raw msg.message))
      else if match_srtp msg.message
      then fire (rtp (RtpMessageEvent.raw msg.message))
      else fire (stun (StunMessageEvent.raw msg.message))
    where
      fire : MessageEvent c → Option (TaggedMessageEvent c)
      fire m = some (record { now = msg.now; transport = msg.transport; message = m })

  unfoldable pub raw_bytes : MessageEvent c → Option (List ℕ)
  raw_bytes (stun (StunMessageEvent.raw message)) = some message
  raw_bytes (dtls (DtlsMessageEvent.raw message)) = some message
  raw_bytes (rtp (RtpMessageEvent.raw message)) = some message
  raw_bytes m = none

  -- `poll_write` on what `ctx.fire_poll_write` returns.
  unfoldable pub poll_write : Option (TaggedMessageEvent c) → Option TaggedBytesMut
  unfolding raw_bytes
  poll_write none = none
  poll_write (some msg) = elim (raw_bytes msg.message) [
    | none ↦ none
    | some message ↦ some (record { now = msg.now; transport = msg.transport; message = message })
  ]
