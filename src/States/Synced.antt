-- ===== src/States/Synced.antt =====
-- The mids and transceivers of every session through `accept_offer` and `accept_answer` of
-- src/server/states.rs.
use sfu.Prelude.{
  ◌≡◌, ◌⊎◌, subst, sym, inl, inr, true, false, Option, some, List, Option-cases, Bool-cases, arith,
  ◌==◌, nat_eq,
}
use sfu.Prelude.HashMap.{get, adjust, insert, get-adjust, get-insert}
use sfu.Prelude.Results.{Result, Error, ok, err, Result-cases}
use sfu.Prelude.Actions.{Action, ◌>>=◌, lift, pure}
use sfu.Crates.{Crates}
use sfu.Types.{SessionId, EndpointId, FourTuple, Instant}
use sfu.Sdp.{SessionDescription}
use sfu.Certificate.{DtlsFingerprint}
use sfu.Endpoint.Credentials.{IceParameters, ConnectionCredentials, from_sdp}
use sfu.Session
use sfu.Session.{Session}
use sfu.Session.Negotiation.{
  AllSynced, set_remote_description-AllSynced, set_local_description-AllSynced,
}
use sfu.States.Offers.{read_offer}
use sfu.States.{
  ServerStates, create_session, in_session, update_session, accept_answer, accept_offer,
  offer_of_known, offer_of_new, has_endpoint_in, known_credentials, answer_in, first_fingerprints,
  add_candidate,
}

bind_err :
    {S A B : Type 0} (m : Action S A) (f : A → Action S B) (s : S) {e : Error}
    → (m s).0 ≡ err e
    → (m >>= f) s ≡ (err e, (m s).1)
bind_err m f s h = ground (arith, h)

bind_ok :
    {S A B : Type 0} (m : Action S A) (f : A → Action S B) (s : S) {a : A}
    → (m s).0 ≡ ok a
    → (m >>= f) s ≡ f a (m s).1
bind_ok m f s h = ground (arith, h)

some_same : {A : Type 0} {a b : A} → some a ≡ some b → a ≡ b
some_same h = cc

module _ {c : Crates} where
  -- Every session that can be found has its endpoints synced.
  abbrev pub SessionsSynced : ServerStates c → Type 0
  SessionsSynced s =
      (sid : SessionId) (session : Session c)
      → get sid s.sessions ≡ some session
      → AllSynced session

  -- An action that keeps the sessions synced, whatever it returns.
  abbrev Keeps : {A : Type 0} → Action (ServerStates c) A → Type 0
  Keeps m = (s : ServerStates c) → SessionsSynced s → SessionsSynced (m s).1

  bind-Keeps :
      {A B : Type 0} (m : Action (ServerStates c) A) (f : A → Action (ServerStates c) B)
      → Keeps m
      → ((a : A) → Keeps (f a))
      → Keeps (m >>= f)
  bind-Keeps m f k l s h = elim (Result-cases (m s).0) [
    | inl (e, x) ↦ subst (λ p. SessionsSynced p.1) (sym (bind_err m f s x)) (k s h)
    | inr (a, x) ↦ subst (λ p. SessionsSynced p.1) (sym (bind_ok m f s x)) (l a (m s).1 (k s h))
  ]

  create_session-Keeps :
      (sid : SessionId) (s : ServerStates c)
      → SessionsSynced s
      → SessionsSynced (create_session sid s)
  unfolding create_session Session.new_session
  create_session-Keeps sid s h = elim (Option-cases (get sid s.sessions)) [
    | inr (old, e) ↦ rw (e, create_session) h
    | inl e ↦ rw (e, create_session) (λ i session k. fresh i session (Bool-cases (sid == i)) k)
  ]
    where
      made : Session c
      made =
          Session.new_session
            (record { server_config = s.server_config; local_addr = s.local_addr }) sid

      fresh :
          (i : SessionId) (session : Session c)
          → ((sid == i) ≡ true) ⊎ ((sid == i) ≡ false)
          → get i (insert sid made s.sessions) ≡ some session
          → AllSynced session
      fresh i session (inl same) k =
          subst AllSynced (some_same (rw (get-insert sid i made s.sessions, same) at k)) tt
      fresh i session (inr other) k =
          h i session (rw (get-insert sid i made s.sessions, other) at k)

  in_session-Keeps :
      (sid : SessionId) (f : Session c → Result (Unit {0}) × Session c)
      → ((session : Session c) → AllSynced session → AllSynced (f session).1)
      → Keeps (in_session sid f)
  unfolding in_session update_session
  in_session-Keeps sid f k s h = elim (Option-cases (get sid s.sessions)) [
    | inl e ↦ rw (e, in_session) h
    | inr (session, e) ↦
        rw (e, in_session) (λ i x g. written session e i x (Bool-cases (sid == i)) g)
  ]
    where
      changed :
          (session : Session c)
          → get sid s.sessions ≡ some session
          → (i : SessionId) (x : Session c) → (sid == i) ≡ true
          → get i (adjust sid (λ _. (f session).1) s.sessions) ≡ some x
          → (f session).1 ≡ x
      changed session e i x same g =
          ground (arith, get-adjust sid i (λ _. (f session).1) s.sessions)

      written :
          (session : Session c)
          → get sid s.sessions ≡ some session
          → (i : SessionId) (x : Session c) → ((sid == i) ≡ true) ⊎ ((sid == i) ≡ false)
          → get i (adjust sid (λ _. (f session).1) s.sessions) ≡ some x
          → AllSynced x
      written session e i x (inr other) g =
          h i x (rw (get-adjust sid i (λ _. (f session).1) s.sessions, other) at g)
      written session e i x (inl same) g =
          subst AllSynced (changed session e i x same g) (k session (h sid session e))

  -- Where every session is synced, an answer, taken or refused at any step, leaves every one synced.
  accept_answer-SessionsSynced :
      (sid : SessionId) (eid : EndpointId) (answer : SessionDescription) (s : ServerStates c)
      → SessionsSynced s
      → SessionsSynced (accept_answer sid eid answer s).1
  unfolding accept_answer
  accept_answer-SessionsSynced sid eid answer s h =
      elim (Result-cases (c.sdp_unmarshal answer.sdp)) [
        | inl (x, e) ↦ rw (e, accept_answer) h
        | inr (parsed, e) ↦ elim (Bool-cases (has_endpoint_in sid eid (create_session sid s))) [
          | inl k ↦
              rw (e, k, accept_answer)
                (in_session-Keeps sid _
                  (set_remote_description-AllSynced eid (record answer { parsed = some parsed }))
                  (create_session sid s) (create_session-Keeps sid s h))
          | inr k ↦ rw (e, k, accept_answer) (create_session-Keeps sid s h)
        ]
      ]

  module _ (random : IceParameters) (clock : Instant) where
    offer_of_known-Keeps :
        (sid : SessionId) (eid : EndpointId) (ft : Option FourTuple) (offer : SessionDescription)
        → Keeps (offer_of_known random clock sid eid ft offer)
    unfolding offer_of_known
    offer_of_known-Keeps sid eid ft offer =
        bind-Keeps (in_session sid (Session.set_remote_description eid offer)) (λ _. answered)
          (in_session-Keeps sid _ (set_remote_description-AllSynced eid offer))
          (λ _.
            bind-Keeps (λ s. lift (known_credentials sid eid ft s) s) rest (λ s h. h)
              (λ local.
                bind-Keeps (λ s. lift (answer_in sid eid offer local.ice_params s) s) last
                  (λ s h. h)
                  (λ answer.
                    bind-Keeps (in_session sid (Session.set_local_description eid answer))
                      (λ _. pure answer)
                      (in_session-Keeps sid _ (set_local_description-AllSynced eid answer))
                      (λ _ s h. h))))
      where
        last : SessionDescription → Action (ServerStates c) SessionDescription
        last answer = in_session sid (Session.set_local_description eid answer) >>= λ _. pure answer

        rest : ConnectionCredentials → Action (ServerStates c) SessionDescription
        rest local = (λ s. lift (answer_in sid eid offer local.ice_params s) s) >>= last

        answered : Action (ServerStates c) SessionDescription
        answered = (λ s. lift (known_credentials sid eid ft s) s) >>= rest

    offer_of_new-sessions :
        (sid : SessionId) (eid : EndpointId) (remote : ConnectionCredentials)
        (fingerprints : List DtlsFingerprint) (offer : SessionDescription) (s : ServerStates c)
        → (offer_of_new random clock sid eid remote fingerprints offer s).1.sessions ≡ s.sessions
    unfolding offer_of_new add_candidate
    offer_of_new-sessions sid eid remote fingerprints offer s = ground arith

    offer_of_new-Keeps :
        (sid : SessionId) (eid : EndpointId) (remote : ConnectionCredentials)
        (fingerprints : List DtlsFingerprint) (offer : SessionDescription)
        → Keeps (offer_of_new random clock sid eid remote fingerprints offer)
    offer_of_new-Keeps sid eid remote fingerprints offer s h i x k =
        h i x (rw (offer_of_new-sessions sid eid remote fingerprints offer s) at k)

    -- Where every session is synced, an offer, taken or refused at any step, leaves every one synced.
    pub accept_offer-SessionsSynced :
        (sid : SessionId) (eid : EndpointId) (ft : Option FourTuple) (offer : SessionDescription)
        (s : ServerStates c)
        → SessionsSynced s
        → SessionsSynced (accept_offer random clock sid eid ft offer s).1
    unfolding accept_offer
    accept_offer-SessionsSynced sid eid ft offer s h =
        elim (Result-cases (c.sdp_unmarshal offer.sdp)) [
          | inl (x, e) ↦ rw (e, accept_offer) h
          | inr (parsed, e) ↦ elim (Result-cases (from_sdp c parsed)) [
            | inl (x, f) ↦ rw (e, f, accept_offer) h
            | inr (remote, f) ↦ elim (Result-cases (first_fingerprints s)) [
              | inl (x, g) ↦ rw (e, f, g, accept_offer) h
              | inr (fingerprints, g) ↦
                  elim (Bool-cases (has_endpoint_in sid eid (create_session sid s))) [
                    | inl k ↦
                        rw (e, f, g, k, accept_offer)
                          (offer_of_known-Keeps sid eid ft (read_offer offer parsed)
                            (create_session sid s) (create_session-Keeps sid s h))
                    | inr k ↦
                        rw (e, f, g, k, accept_offer)
                          (offer_of_new-Keeps sid eid remote fingerprints (read_offer offer parsed)
                            (create_session sid s) (create_session-Keeps sid s h))
                  ]
            ]
          ]
        ]
