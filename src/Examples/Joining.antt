-- ===== src/Examples/Joining.antt =====
-- The theorems on offers and binding requests, by which endpoint 9 of `Examples` joins.
use sfu.Prelude.{◌≡◌, refl, ◌↔◌, none, some, List, [], ◌∷◌}
use sfu.Prelude.HashMap.{get, insert}
use sfu.Prelude.Strings.{split_whitespace}
use sfu.Description.Read.{get_mid_value}
use sfu.Description.Write.{populate_sdp}
use sfu.Prelude.Results.{Result, ok, err}
use sfu.Endpoint.Credentials.{new_credentials, Candidate, ConnectionCredentials, from_sdp, username}
use sfu.Messages.{TaggedBytesMut}
use sfu.Session
use sfu.Session.{Session}
use sfu.SdpType.{SdpType}
use sfu.Sdp.{SessionDescription}
use sfu.Certificate.{DtlsFingerprint, try_from}
use sfu.States.{first_fingerprints, answer_in, create_session, find_candidate, accept_offer}
use sfu.States.Routes.{Leads}
use sfu.States.Offers.{accept_offer_waits, read_offer, offered}
use sfu.Gateway.Joining.{accepted_offer_checks}
use sfu.Gateway.Binding.{check_role, check_stun_message, add_endpoint}
use sfu.Gateway.Stun.{IsAuthentic, check_stun_accepts, nomination_joins}
use sfu.Examples.{
  nomination, crates, context, tuple, session, states, candidate, description, ours, parsed_offer,
}

check_stun_accepts_example :
    (check_stun_message states nomination ≡ ok (some (candidate 9), nomination))
    ↔ IsAuthentic states nomination (candidate 9) nomination
check_stun_accepts_example = check_stun_accepts states nomination (candidate 9) nomination

nomination_joins_example :
    Leads
      (tuple 40)
      (add_endpoint 95 nomination (candidate 9) (context 40) states).1
      1
      9
      (Session.opened 95 (candidate 9) (tuple 40) session)
unfolding get
nomination_joins_example =
    nomination_joins 95 nomination (candidate 9) (context 40) states session refl refl refl

abbrev datagram : TaggedBytesMut
datagram = record { now = 5; transport = context 20; message = 22 ∷ 254 ∷ [] }

abbrev value_or : {A : Type 0} → A → Result A → A
value_or d (ok a) = a
value_or d (err e) = d

abbrev offer : SessionDescription
offer = record (description SdpType.offer) { parsed = none }

abbrev remote : ConnectionCredentials
remote = value_or (candidate 9).remote_conn_cred (from_sdp crates parsed_offer)

abbrev fingerprints : List DtlsFingerprint
fingerprints = value_or [] (first_fingerprints states)

abbrev answer : SessionDescription
answer =
    value_or offer (answer_in 2 9 (read_offer offer parsed_offer) ours (create_session 2 states))

accept_offer_waits_example :
    (made : Candidate) × ((accept_offer ours 95 2 9 none offer states).0 ≡ ok answer)
    × (find_candidate (username made) (accept_offer ours 95 2 9 none offer states).1 ≡ some made)
    × (made.session_id ≡ 2)
    × (made.endpoint_id ≡ 9)
    × (made.local_description ≡ answer)
    × (made.remote_conn_cred ≡ remote)
    × (made.local_conn_cred.ice_params ≡ ours)
unfolding get from_sdp try_from split_whitespace first_fingerprints create_session insert
    Session.new_session answer_in get_mid_value populate_sdp
accept_offer_waits_example =
    accept_offer_waits ours 95 2 9 none offer answer states parsed_offer remote fingerprints refl
      refl refl refl refl

abbrev made_candidate : Candidate
made_candidate =
    offered ours 95 2 9 remote fingerprints (read_offer offer parsed_offer) answer
      (create_session 2 states)

accepted_offer_checks_example :
    check_stun_message (accept_offer ours 95 2 9 none offer states).1 nomination
    ≡ ok (some made_candidate, nomination)
unfolding get from_sdp try_from split_whitespace first_fingerprints create_session insert
    Session.new_session answer_in get_mid_value populate_sdp username new_credentials check_role
accepted_offer_checks_example =
    accepted_offer_checks ours 95 2 9 none offer answer states parsed_offer remote fingerprints
      nomination nomination refl refl refl refl refl refl refl refl
