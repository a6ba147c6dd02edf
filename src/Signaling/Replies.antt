-- ===== src/Signaling/Replies.antt =====
-- What a media server answers to the web server (`handle_signaling_message` of examples/async_signal/mod.rs).
use sfu.Prelude.{ℕ, ◌≡◌, ◌⊎◌, refl, inl, inr, Bool, true, false, none, List, [], ◌∷◌, Text}
use sfu.Prelude.Results.{Error, Result-cases}
use sfu.Crates.{Crates}
use sfu.Types.{SessionId, EndpointId, Instant}
use sfu.Endpoint.Credentials.{IceParameters}
use sfu.States.{ServerStates, accept_offer}
use sfu.States.Synced.{SessionsSynced, accept_offer-SessionsSynced}
use sfu.Signaling.{
  SignalingProtocolMessage, handle_signaling_message, handle_offer_message, handle_answer_message,
  handle_leave_message, try_offer, handle_all,
}

abbrev pub session_of : SignalingProtocolMessage → SessionId
session_of (SignalingProtocolMessage.ok sid eid) = sid
session_of (SignalingProtocolMessage.leave sid eid) = sid
session_of (SignalingProtocolMessage.join sid) = sid
session_of (SignalingProtocolMessage.err sid eid bytes) = sid
session_of (SignalingProtocolMessage.offer sid eid bytes) = sid
session_of (SignalingProtocolMessage.answer sid eid bytes) = sid
session_of (SignalingProtocolMessage.trickle sid eid bytes) = sid

-- The endpoint of a message, which is the one that joins where it asks for one.
abbrev pub endpoint_of : EndpointId → SignalingProtocolMessage → EndpointId
endpoint_of joined (SignalingProtocolMessage.ok sid eid) = eid
endpoint_of joined (SignalingProtocolMessage.leave sid eid) = eid
endpoint_of joined (SignalingProtocolMessage.join sid) = joined
endpoint_of joined (SignalingProtocolMessage.err sid eid bytes) = eid
endpoint_of joined (SignalingProtocolMessage.offer sid eid bytes) = eid
endpoint_of joined (SignalingProtocolMessage.answer sid eid bytes) = eid
endpoint_of joined (SignalingProtocolMessage.trickle sid eid bytes) = eid

abbrev pub is_offer : SignalingProtocolMessage → Bool
is_offer (SignalingProtocolMessage.offer sid eid bytes) = true
is_offer m = false

abbrev pub is_answer : SignalingProtocolMessage → Bool
is_answer (SignalingProtocolMessage.answer sid eid bytes) = true
is_answer m = false

answer_reply :
    (c : Crates) (info_enabled : Bool) (error_to_string : Error → Text) (joined : EndpointId)
    (sid : SessionId) (eid : EndpointId) (bytes : List ℕ)
    → (session_of (handle_answer_message c info_enabled error_to_string sid eid bytes) ≡ sid)
      × (endpoint_of joined (handle_answer_message c info_enabled error_to_string sid eid bytes)
          ≡ eid)
      × (is_answer (handle_answer_message c info_enabled error_to_string sid eid bytes) ≡ false)
unfolding handle_answer_message
answer_reply c false error_to_string joined sid eid bytes = (refl, refl, refl)
answer_reply c true error_to_string joined sid eid bytes = elim (Result-cases (c.from_utf8 bytes)) [
  | inl (e, l) ↦ rw (handle_answer_message, l) (refl, refl, refl)
  | inr (t, l) ↦ rw (handle_answer_message, l) (refl, refl, refl)
]

module _ {c : Crates} (info_enabled : Bool) (random : IceParameters) (clock : Instant)
    (error_to_string : Error → Text) where
  -- The reply to a message is addressed to the session and the endpoint of the message, or to the endpoint
  -- that joins; only an offer is answered by an answer, and only an offer changes the server.
  pub handle_signaling_message_lem :
      (joined : EndpointId) (m : SignalingProtocolMessage) (s : ServerStates c)
      → (session_of
            (handle_signaling_message info_enabled random clock error_to_string joined m s).0
          ≡ session_of m)
        × (endpoint_of joined
              (handle_signaling_message info_enabled random clock error_to_string joined m s).0
            ≡ endpoint_of joined m)
        × ((is_offer m ≡ true)
            ⊎ ((is_answer
                    (handle_signaling_message info_enabled random clock error_to_string joined m
                      s).0
                  ≡ false)
                × ((handle_signaling_message info_enabled random clock error_to_string joined m s).1
                    ≡ s)))
  unfolding handle_signaling_message handle_leave_message handle_offer_message handle_answer_message
  handle_signaling_message_lem joined (SignalingProtocolMessage.ok sid eid) s =
      (refl, refl, inr (refl, refl))
  handle_signaling_message_lem joined (SignalingProtocolMessage.err sid eid bytes) s =
      (refl, refl, inr (refl, refl))
  handle_signaling_message_lem joined (SignalingProtocolMessage.trickle sid eid bytes) s =
      (refl, refl, inr (refl, refl))
  handle_signaling_message_lem joined (SignalingProtocolMessage.leave sid eid) s =
      (refl, refl, inr (refl, refl))
  handle_signaling_message_lem joined (SignalingProtocolMessage.join sid) s =
      (refl, refl, inr (refl, refl))
  handle_signaling_message_lem joined (SignalingProtocolMessage.answer sid eid bytes) s =
      let (x, y, z) = answer_reply c info_enabled error_to_string joined sid eid bytes in
      (x, y, inr (z, refl))
  handle_signaling_message_lem joined (SignalingProtocolMessage.offer sid eid bytes) s =
      elim (Result-cases (try_offer random clock error_to_string sid eid bytes s).0) [
        | inl (e, k) ↦ rw (handle_signaling_message, handle_offer_message, k) (refl, refl, inl refl)
        | inr (t, k) ↦ rw (handle_signaling_message, handle_offer_message, k) (refl, refl, inl refl)
      ]

  try_offer-SessionsSynced :
      (sid : SessionId) (eid : EndpointId) (bytes : List ℕ) (s : ServerStates c)
      → SessionsSynced s
      → SessionsSynced (try_offer random clock error_to_string sid eid bytes s).1
  unfolding try_offer
  try_offer-SessionsSynced sid eid bytes s h = elim (Result-cases (c.from_utf8 bytes)) [
    | inl (e, k) ↦ rw (try_offer, k) h
    | inr (text, k) ↦ elim (Result-cases (c.description_from_json text)) [
      | inl (e, l) ↦ rw (try_offer, k, l) h
      | inr (d, l) ↦
          let synced = accept_offer-SessionsSynced random clock sid eid none d s h in
          elim (Result-cases (accept_offer random clock sid eid none d s).0) [
            | inl (e, m) ↦ rw (try_offer, k, l, m) synced
            | inr (a, m) ↦ rw (try_offer, k, l, m) synced
          ]
    ]
  ]

  step-SessionsSynced :
      (joined : EndpointId) (m : SignalingProtocolMessage) (s : ServerStates c)
      → SessionsSynced s
      → SessionsSynced
          (handle_signaling_message info_enabled random clock error_to_string joined m s).1
  unfolding handle_signaling_message handle_offer_message
  step-SessionsSynced joined (SignalingProtocolMessage.offer sid eid bytes) s h =
      let synced = try_offer-SessionsSynced sid eid bytes s h in
      elim (Result-cases (try_offer random clock error_to_string sid eid bytes s).0) [
        | inl (e, k) ↦ rw (handle_signaling_message, handle_offer_message, k) synced
        | inr (t, k) ↦ rw (handle_signaling_message, handle_offer_message, k) synced
      ]
  step-SessionsSynced joined (SignalingProtocolMessage.ok sid eid) s h = h
  step-SessionsSynced joined (SignalingProtocolMessage.err sid eid bytes) s h = h
  step-SessionsSynced joined (SignalingProtocolMessage.trickle sid eid bytes) s h = h
  step-SessionsSynced joined (SignalingProtocolMessage.leave sid eid) s h = h
  step-SessionsSynced joined (SignalingProtocolMessage.join sid) s h = h
  step-SessionsSynced joined (SignalingProtocolMessage.answer sid eid bytes) s h = h

  -- Whatever messages come from the web server, in whatever order: where every session was synced, every one
  -- is afterwards.
  pub handle_all-SessionsSynced :
      (ms : List (EndpointId × SignalingProtocolMessage)) (s : ServerStates c)
      → SessionsSynced s
      → SessionsSynced (handle_all info_enabled random clock error_to_string ms s)
  unfolding handle_all
  handle_all-SessionsSynced [] s h = h
  handle_all-SessionsSynced ((joined, m) ∷ ms) s h =
      handle_all-SessionsSynced ms
        (handle_signaling_message info_enabled random clock error_to_string joined m s).1
        (step-SessionsSynced joined m s h)
