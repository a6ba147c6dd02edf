-- ===== src/Prelude/Results.antt =====
-- `shared::error::Result` with the errors that the modelled code raises.
use mathlib.Core.Path.{◌≡◌, refl}
use mathlib.Core.Logic.{◌⊎◌, inl, inr}
use mathlib.Core.List.{List, [], ◌∷◌}
use mathlib.Core.Option.{Option, none, some}
use sfu.Prelude.Texts.{Text}

-- `other` is `Error::Other` with a message that the code writes out; the messages about an
-- identifier are named.
pub data Error : Type 0 where
  client_transport_not_set attribute_not_found alert_fatal_or_close : Error
  association_not_existed outbound_packet_too_large invalid_certificate : Error
  no_such_srtp_profile : Error
  other invalid_pem : Text → Error
  session_not_found endpoint_not_found transport_not_found : Error
  remote_srtp_context_not_set local_srtp_context_not_set : Error

pub data Result {ℓ} (A : Type ℓ) : Type ℓ where
  ok : A → Result A
  err : Error → Result A

pub Result-cases {ℓ} :
    {A : Type ℓ} (r : Result A) → ((e : Error) × (r ≡ err e)) ⊎ ((a : A) × (r ≡ ok a))
Result-cases (err e) = inl (e, refl)
Result-cases (ok a) = inr (a, refl)

infixl 5 ◌>>=◌
abbrev pub ◌>>=◌ {ℓ κ} : {A : Type ℓ} {B : Type κ} → Result A → (A → Result B) → Result B
ok a >>= f = f a
err e >>= f = err e

-- `iter().map(f).collect::<Result<Vec<_>>>()`, and a loop that stops at the first error.
pub map_results {ℓ κ} : {A : Type ℓ} {B : Type κ} → (A → Result B) → List A → Result (List B)
map_results f [] = ok []
map_results f (x ∷ xs) = f x >>= λ y. map_results f xs >>= λ ys. ok (y ∷ ys)

abbrev pub ok_or {ℓ} : {A : Type ℓ} → Error → Option A → Result A
ok_or e none = err e
ok_or e (some a) = ok a
