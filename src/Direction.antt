-- ===== src/Direction.antt =====
-- src/description/rtp_transceiver_direction.rs
pub mod Laws
use sfu.Prelude.{
  ℕ, Bool, true, false, ◌&&◌, PartialEq, ◌==◌, ◌≡◌, ◌↔◌, arith, if◌then◌else◌, Text, codes, nat_eq,
  list_eq,
}

-- RTCRtpTransceiverDirection
pub data Direction : Type 0 where
  unspecified sendrecv sendonly recvonly inactive : Direction

-- The derived `PartialEq`, by the constructors' numbers.
abbrev pub number : Direction → ℕ
number unspecified = 0
number sendrecv = 1
number sendonly = 2
number recvonly = 3
number inactive = 4

pub number_iff : (d e : Direction) → ((number d == number e) ≡ true) ↔ (d ≡ e)
number_iff d e = ground arith

instance abbrev pub direction_eq : PartialEq Direction
direction_eq = record { equal = λ d e. number d == number e; equal_iff = number_iff }

-- impl From<&str>
unfoldable pub from_str : Text → Direction
from_str raw =
    if raw == codes "sendrecv"
    then sendrecv
    else if raw == codes "sendonly"
    then sendonly
    else if raw == codes "recvonly"
    then recvonly
    else if raw == codes "inactive"
    then inactive
    else unspecified

-- impl From<u8>
unfoldable pub from_u8 : ℕ → Direction
from_u8 v =
    if v == 1
    then sendrecv
    else if v == 2
    then sendonly
    else if v == 3
    then recvonly
    else if v == 4
    then inactive
    else unspecified

-- impl Display
unfoldable pub to_string : Direction → Text
to_string sendrecv = codes "sendrecv"
to_string sendonly = codes "sendonly"
to_string recvonly = codes "recvonly"
to_string inactive = codes "inactive"
to_string unspecified = codes "Unspecified"

unfoldable pub reverse : Direction → Direction
reverse sendonly = recvonly
reverse recvonly = sendonly
reverse d = d

unfoldable pub from_send_recv : Bool → Bool → Direction
from_send_recv true true = sendrecv
from_send_recv true false = sendonly
from_send_recv false true = recvonly
from_send_recv false false = inactive

unfoldable pub has_send : Direction → Bool
has_send sendrecv = true
has_send sendonly = true
has_send d = false

unfoldable pub has_recv : Direction → Bool
has_recv sendrecv = true
has_recv recvonly = true
has_recv d = false

unfoldable pub intersect : Direction → Direction → Direction
unfolding from_send_recv has_send has_recv
intersect self other =
    from_send_recv (has_send self && has_send other) (has_recv self && has_recv other)
