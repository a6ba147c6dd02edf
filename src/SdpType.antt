-- ===== src/SdpType.antt =====
-- src/description/sdp_type.rs
use sfu.Prelude.{
  ℕ, true, PartialEq, ◌==◌, ◌≡◌, ◌↔◌, refl, arith, if◌then◌else◌, Text, codes, nat_eq, list_eq,
}

-- RTCSdpType
pub data SdpType : Type 0 where
  unspecified offer pranswer answer rollback : SdpType

abbrev pub number : SdpType → ℕ
number unspecified = 0
number offer = 1
number pranswer = 2
number answer = 3
number rollback = 4

pub number_iff : (s t : SdpType) → ((number s == number t) ≡ true) ↔ (s ≡ t)
number_iff s t = ground arith

instance abbrev pub sdp_type_eq : PartialEq SdpType
sdp_type_eq = record { equal = λ s t. number s == number t; equal_iff = number_iff }

-- impl From<&str>
unfoldable pub from_str : Text → SdpType
from_str raw =
    if raw == codes "offer"
    then offer
    else if raw == codes "pranswer"
    then pranswer
    else if raw == codes "answer"
    then answer
    else if raw == codes "rollback"
    then rollback
    else unspecified

-- impl Display
unfoldable pub to_string : SdpType → Text
to_string offer = codes "offer"
to_string pranswer = codes "pranswer"
to_string answer = codes "answer"
to_string rollback = codes "rollback"
to_string unspecified = codes "Unspecified"

-- Every type of a session description, printed and read back, is the same type.
pub sdp_type_round_trips : (t : SdpType) → from_str (to_string t) ≡ t
unfolding from_str to_string
sdp_type_round_trips unspecified = refl
sdp_type_round_trips offer = refl
sdp_type_round_trips pranswer = refl
sdp_type_round_trips answer = refl
sdp_type_round_trips rollback = refl
