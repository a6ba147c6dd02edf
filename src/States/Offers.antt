-- ===== src/States/Offers.antt =====
-- What `accept_offer` of src/server/states.rs leaves for an endpoint that is to join.
use sfu.Prelude.{◌≡◌, refl, inl, inr, ap, false, Option, some, List, arith, nat_eq, list_eq, ◌+◌}
use sfu.Prelude.HashMap.{get-insert_self}
use sfu.Prelude.Results.{Result, Error, ok, err, Result-cases, ◌>>=◌}
use sfu.Crates.{Crates}
use sfu.Types.{SessionId, EndpointId, FourTuple, Instant}
use sfu.Sdp.{SessionDescription, ParsedDescription}
use sfu.Certificate.{DtlsFingerprint}
use sfu.Endpoint.Credentials.{
  Candidate, ConnectionCredentials, IceParameters, from_sdp, new_credentials, username,
}
use sfu.States.{
  ServerStates, create_session, add_candidate, find_candidate, has_endpoint_in, answer_in,
  first_fingerprints, offer_of_new, accept_offer,
}

-- The offer as it is kept.
abbrev pub read_offer : SessionDescription → ParsedDescription → SessionDescription
read_offer offer parsed = record offer { parsed = some parsed }

abbrev the_err : (A : Type 0) → Error → Result A
the_err A e = err e

module _ {c : Crates} (random : IceParameters) (clock : Instant) where
  -- The candidate of an offer.
  abbrev pub offered :
      SessionId
      → EndpointId
      → ConnectionCredentials
      → List DtlsFingerprint
      → SessionDescription
      → SessionDescription
      → ServerStates c
      → Candidate
  offered sid eid remote fingerprints offer answer s = record {
    session_id = sid;
    endpoint_id = eid;
    remote_conn_cred = remote;
    local_conn_cred = new_credentials random fingerprints remote.dtls_params.role;
    remote_description = offer;
    local_description = answer;
    expired_time = clock + s.server_config.idle_timeout;
  }

  pub offer_of_new_lem :
      (sid : SessionId) (eid : EndpointId) (remote : ConnectionCredentials)
      (fingerprints : List DtlsFingerprint) (offer answer : SessionDescription) (s : ServerStates c)
      → answer_in sid eid offer
          (new_credentials random fingerprints remote.dtls_params.role).ice_params
          s
        ≡ ok answer
      → offer_of_new random clock sid eid remote fingerprints offer s
        ≡ (ok answer, add_candidate (offered sid eid remote fingerprints offer answer s) s)
  unfolding offer_of_new
  offer_of_new_lem sid eid remote fingerprints offer answer s h = ground (arith, h)

  pub accept_offer_lem :
      (sid : SessionId) (eid : EndpointId) (four_tuple : Option FourTuple)
      (offer : SessionDescription) (s : ServerStates c) (parsed : ParsedDescription)
      (remote : ConnectionCredentials) (fingerprints : List DtlsFingerprint)
      → c.sdp_unmarshal offer.sdp ≡ ok parsed
      → from_sdp c parsed ≡ ok remote
      → first_fingerprints s ≡ ok fingerprints
      → has_endpoint_in sid eid (create_session sid s) ≡ false
      → accept_offer random clock sid eid four_tuple offer s
        ≡ offer_of_new random clock sid eid remote fingerprints
            (read_offer offer parsed)
            (create_session sid s)
  unfolding accept_offer
  accept_offer_lem sid eid four_tuple offer s parsed remote fingerprints p r f n =
      rw (p, r, f, n) refl

  -- Where an offer can be read, the server has a certificate, the endpoint has not joined and the
  -- session makes an answer, the offer is answered with it, and a candidate with that answer and the
  -- credentials of both sides is found under its user name.
  pub accept_offer_waits :
      (sid : SessionId) (eid : EndpointId) (four_tuple : Option FourTuple)
      (offer answer : SessionDescription) (s : ServerStates c) (parsed : ParsedDescription)
      (remote : ConnectionCredentials) (fingerprints : List DtlsFingerprint)
      → c.sdp_unmarshal offer.sdp ≡ ok parsed
      → from_sdp c parsed ≡ ok remote
      → first_fingerprints s ≡ ok fingerprints
      → has_endpoint_in sid eid (create_session sid s) ≡ false
      → answer_in sid eid
          (read_offer offer parsed)
          (new_credentials random fingerprints remote.dtls_params.role).ice_params
          (create_session sid s)
        ≡ ok answer
      → (candidate : Candidate) × ((accept_offer random clock sid eid four_tuple offer s).0
          ≡ ok answer)
        × (find_candidate
              (username candidate)
              (accept_offer random clock sid eid four_tuple offer s).1
            ≡ some candidate)
        × (candidate.session_id ≡ sid)
        × (candidate.endpoint_id ≡ eid)
        × (candidate.local_description ≡ answer)
        × (candidate.remote_conn_cred ≡ remote)
        × (candidate.local_conn_cred.ice_params ≡ random)
  unfolding add_candidate new_credentials
  accept_offer_waits sid eid four_tuple offer answer s parsed remote fingerprints p r f n h =
      rw
        (
          accept_offer_lem sid eid four_tuple offer s parsed remote fingerprints p r f n,
          offer_of_new_lem sid eid remote fingerprints (read_offer offer parsed) answer
              (create_session sid s) h,
        )
        (
          offered sid eid remote fingerprints (read_offer offer parsed) answer
              (create_session sid s),
          refl,
          get-insert_self _ _ (create_session sid s).candidates,
          refl,
          refl,
          refl,
          refl,
          refl,
        )

  -- An offer that cannot be read, or has no credentials, is refused and changes nothing.
  accept_offer_unread :
      (sid : SessionId) (eid : EndpointId) (four_tuple : Option FourTuple)
      (offer : SessionDescription) (s : ServerStates c) (e : Error)
      → (c.sdp_unmarshal offer.sdp >>= from_sdp c) ≡ err e
      → accept_offer random clock sid eid four_tuple offer s ≡ (err e, s)
  unfolding accept_offer
  accept_offer_unread sid eid four_tuple offer s e h =
      elim (Result-cases (c.sdp_unmarshal offer.sdp)) [
        | inl (x, p) ↦ rw p (ap (λ z. (z, s)) (wrong x e (rw p at h)))
        | inr (parsed, p) ↦ elim (Result-cases (from_sdp c parsed)) [
          | inl (x, q) ↦ rw (p, q) (ap (λ z. (z, s)) (wrong x e (rw (p, q) at h)))
          | inr (remote, q) ↦ absurd (ground (arith, p, q))
        ]
      ]
    where
      wrong :
          (x e : Error)
          → the_err ConnectionCredentials x ≡ err e
          → the_err SessionDescription x ≡ err e
      wrong x e h = ground arith
