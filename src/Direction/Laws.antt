-- ===== src/Direction/Laws.antt =====
-- Round trips of the printed and numbered directions, and intersection as a meet.
use sfu.Prelude.{◌≡◌, ◌&&◌, refl, arith}
use sfu.Direction.{
  Direction, unspecified, sendrecv, sendonly, recvonly, inactive, number, from_str, from_u8,
  to_string, reverse, has_send, has_recv, intersect,
}

-- Every direction, printed into an attribute and read back, is the same direction; so is every
-- direction sent as its number.
pub direction_round_trips :
    (d : Direction) → (from_str (to_string d) ≡ d) × (from_u8 (number d) ≡ d)
unfolding from_str from_u8 to_string
direction_round_trips unspecified = (refl, refl)
direction_round_trips sendrecv = (refl, refl)
direction_round_trips sendonly = (refl, refl)
direction_round_trips recvonly = (refl, refl)
direction_round_trips inactive = (refl, refl)

-- What an intersection sends and receives is what both directions send and receive, and
-- intersecting again with either of the two changes nothing.
pub intersect_meet :
    (d e : Direction)
    → (has_send (intersect d e) ≡ (has_send d && has_send e))
      × (has_recv (intersect d e) ≡ (has_recv d && has_recv e))
      × (intersect (intersect d e) e ≡ intersect d e)
      × (intersect d e ≡ intersect e d)
unfolding intersect
intersect_meet d e = ground arith

-- Seen from the other peer, sending is receiving; and the peers' views of an intersection agree:
-- the reverse of an intersection is the intersection of the reverses.
pub reverse_swaps :
    (d e : Direction)
    → (has_send (reverse d) ≡ has_recv d)
      × (has_recv (reverse d) ≡ has_send d)
      × (reverse (intersect d e) ≡ intersect (reverse d) (reverse e))
unfolding reverse intersect
reverse_swaps d e = ground arith
