-- ===== src/Description/Answers.antt =====
-- The direction that `add_transceiver_sdp` of src/description/mod.rs gives a section of an answer.
use sfu.Prelude.{◌≡◌, ◌≢◌, true, some, arith}
use sfu.Direction.{Direction, has_send, has_recv, reverse, intersect}
use sfu.Description.Write.{section_direction}

-- Where the offer has a direction, a section of the answer sends only if the offer receives and the
-- transceiver sends, and receives only if the offer sends and the transceiver receives.
section_direction_answers :
    (offered transceiver : Direction)
    → offered ≢ Direction.unspecified
    → (has_send (section_direction (some offered) transceiver) ≡ true
        → (has_recv offered ≡ true) × (has_send transceiver ≡ true))
      × (has_recv (section_direction (some offered) transceiver) ≡ true
          → (has_send offered ≡ true) × (has_recv transceiver ≡ true))
unfolding section_direction reverse intersect
section_direction_answers offered transceiver h = ground arith
