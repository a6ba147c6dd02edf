-- ===== src/Codec/Fmtp.antt =====
-- src/description/fmtp: the format parameters of a codec, and whether two of them agree.
use sfu.Prelude.{
  ℕ, Bool, true, false, ◌&&◌, Option, none, some, List, [], ◌∷◌, ◌==◌, if◌then◌else◌, nat_eq,
  list_eq, Text, codes,
}
use sfu.Prelude.HashMap.{HashMap, get, insert}
use sfu.Prelude.Results.{ok, err}
use sfu.Prelude.Strings.{split, split_once, trim}
use sfu.Crates.{Crates}

abbrev pub Parameters : Type 0
Parameters = HashMap Text Text

-- `Box<dyn Fmtp>`: H264Fmtp, and GenericFmtp with its mime type.
pub data Fmtp : Type 0 where
  h264 : Parameters → Fmtp
  generic : Text → Parameters → Fmtp

module _ (c : Crates) where
  -- One `key=value`, or a key alone.
  unfoldable pub add_parameter : Text → Parameters → Parameters
  add_parameter p parameters =
      let (key, value) = split_once 61 (trim p) in
      insert (c.to_lowercase key) (elim value [ none ↦ [] | some v ↦ v ]) parameters

  unfoldable pub add_parameters : List Text → Parameters → Parameters
  unfolding add_parameter
  add_parameters [] parameters = parameters
  add_parameters (p ∷ ps) parameters = add_parameters ps (add_parameter p parameters)

  unfoldable pub parse : Text → Text → Fmtp
  unfolding add_parameters
  parse mime_type line =
      let parameters = add_parameters (split 59 line) [] in
      if c.to_uppercase mime_type == c.to_uppercase (codes "video/h264")
      then h264 parameters
      else generic mime_type parameters

  -- One of the two loops of `fmtp_consist`: the values of `a` under the keys that `b` has.
  unfoldable pub agrees_in : Parameters → Parameters → Bool
  agrees_in [] b = true
  agrees_in ((k, v) ∷ a) b = elim (get k b) [
    | none ↦ agrees_in a b
    | some vb ↦ (c.to_uppercase vb == c.to_uppercase v) && agrees_in a b
  ]

  unfoldable pub fmtp_consist : Parameters → Parameters → Bool
  unfolding agrees_in
  fmtp_consist a b = agrees_in a b && agrees_in b a

  -- The first two bytes; `aa.len() < 2` refuses shorter ones.
  unfoldable pub profile_of : Text → Option (ℕ × ℕ)
  profile_of s = elim (c.hex_decode s) [
    | err e ↦ none
    | ok bytes ↦ elim bytes [ x ∷ rest ↦ elim rest [ y ∷ _ ↦ some (x, y) | [] ↦ none ] | [] ↦ none ]
  ]

  unfoldable pub profile_level_id_matches : Text → Text → Bool
  unfolding profile_of
  profile_level_id_matches a b = elim (profile_of a) [
    | none ↦ false
    | some (a0, a1) ↦ elim (profile_of b) [
      | none ↦ false
      | some (b0, b1) ↦ (a0 == b0) && (a1 == b1)
    ]
  ]

  -- A parameter that both must have, compared.
  unfoldable pub both_have : Text → (Text → Text → Bool) → Parameters → Parameters → Bool
  both_have key test a b = elim (get key a) [
    | none ↦ false
    | some x ↦ elim (get key b) [ none ↦ false | some y ↦ test x y ]
  ]

  unfoldable pub match_fmtp : Fmtp → Fmtp → Bool
  unfolding fmtp_consist profile_level_id_matches both_have
  match_fmtp (generic m a) (generic n b) =
      (c.to_lowercase m == c.to_lowercase n) && fmtp_consist a b
  match_fmtp (h264 a) (h264 b) =
      both_have (codes "packetization-mode") (λ x y. x == y) a b
      && both_have (codes "profile-level-id") profile_level_id_matches a b
  match_fmtp _ _ = false

unfoldable pub parameter : Fmtp → Text → Option Text
parameter (h264 a) key = get key a
parameter (generic m a) key = get key a
