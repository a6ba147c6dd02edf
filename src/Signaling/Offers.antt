-- ===== src/Signaling/Offers.antt =====
-- A request of the web with an offer, through the thread of the session's media server and back
-- (`remote_handler` and `handle_signaling_message` of examples/async_signal/mod.rs).
use sfu.Prelude.{
  ℕ, Bool, false, ltb, length, ◌≡◌, refl, ◌∙◌, ap, inl, inr, Bool-cases, Option, some, List, [],
  ◌∷◌, Text, codes, arith, ◌==◌, nat_eq,
}
use mathlib.Core.Option
use sfu.Prelude.HashMap.{HashMap, keys, get}
use sfu.Prelude.Results.{Result, Error, Result-cases}
use sfu.Prelude.Strings.{split}
use sfu.Crates.{Crates}
use sfu.Types.{EndpointId, Instant}
use sfu.Endpoint.Credentials.{IceParameters}
use sfu.States.{ServerStates}
use sfu.Signaling.{
  SignalingProtocolMessage, handle_signaling_message, handle_offer_message, try_offer,
}
use sfu.Signaling.Ports.{port_for, port_for-In}
use sfu.Signaling.Requests.{get_key}
use sfu.Signaling.Routing.{
  Thread, Method, Outcome, Response, remote_handler, routed, bad_request, event_base, posted,
  by_method, parse_u64, with_endpoint, guarded, is_no_number, is_endpoint_route, segment, number,
  reply_to_offer,
}

-- What the web server makes of the result of `try_handle`.
abbrev pub response_to : (Error → Text) → Result Text → Response
response_to error_to_string (Result.ok answer_str) = record { status = 200; body = answer_str }
response_to error_to_string (Result.err e) = record { status = 500; body = error_to_string e }

routed_offer :
    (m : HashMap ℕ Thread) (first third fourth : Text) (rest : List Text) (bytes : List ℕ)
    (sid eid : ℕ) (thread : Thread)
    → parse_u64 third ≡ some sid
    → parse_u64 fourth ≡ some eid
    → event_base m sid ≡ some thread
    → routed m Method.method_post (first ∷ codes "offer" ∷ third ∷ fourth ∷ rest) (some bytes)
      ≡ Outcome.responded (reply_to_offer (thread (SignalingProtocolMessage.offer sid eid bytes)))
unfolding routed guarded bad_request is_no_number is_endpoint_route segment number posted by_method
    with_endpoint
routed_offer m first third fourth rest bytes sid eid thread is_sid is_eid base =
    let long : ltb (length (first ∷ codes "offer" ∷ third ∷ fourth ∷ rest)) 3 ≡ false =
      ground arith in
    let four : ltb (length (first ∷ codes "offer" ∷ third ∷ fourth ∷ rest)) 4 ≡ false =
      ground arith in
    rw (routed, bad_request, is_no_number, is_endpoint_route, long, four, is_sid, is_eid)
      (rw (guarded, is_sid, base) (rw (with_endpoint, is_eid) refl))

module _ {c : Crates} (info_enabled : Bool) (random : IceParameters) (clock : Instant)
    (error_to_string : Error → Text) (joined : EndpointId) where
  -- The thread of a media server that is in the given state when the message comes.
  abbrev pub thread_of : ServerStates c → Thread
  thread_of self =
      λ m. some (handle_signaling_message info_enabled random clock error_to_string joined m self).0

  abbrev pub serve : HashMap ℕ (ServerStates c) → HashMap ℕ Thread
  serve [] = []
  serve ((port, self) ∷ servers) = (port, thread_of self) ∷ serve servers

  keys-serve : (servers : HashMap ℕ (ServerStates c)) → keys (serve servers) ≡ keys servers
  keys-serve [] = refl
  keys-serve ((port, self) ∷ servers) = ap (λ ks. port ∷ ks) (keys-serve servers)

  get-serve :
      (port : ℕ) (servers : HashMap ℕ (ServerStates c))
      → get port (serve servers) ≡ Option.map thread_of (get port servers)
  unfolding get
  get-serve port [] = refl
  get-serve port ((p, s) ∷ servers) = elim (Bool-cases (p == port)) [
    | inl t ↦ rw (get, t) refl
    | inr t ↦ rw (get, t) (get-serve port servers)
  ]

  event_base-serve :
      (servers : HashMap ℕ (ServerStates c)) (sid port : ℕ) (self : ServerStates c)
      → port_for (keys servers) sid ≡ some port
      → get port servers ≡ some self
      → event_base (serve servers) sid ≡ some (thread_of self)
  unfolding event_base
  event_base-serve servers sid port self e found =
      rw (event_base, keys-serve servers, e, get-serve port servers, found) refl

  offer-response :
      (sid eid : ℕ) (bytes : List ℕ) (self : ServerStates c)
      → reply_to_offer
          (some (handle_offer_message random clock error_to_string sid eid bytes self).0)
        ≡ response_to error_to_string (try_offer random clock error_to_string sid eid bytes self).0
  unfolding handle_offer_message
  offer-response sid eid bytes self =
      elim (Result-cases (try_offer random clock error_to_string sid eid bytes self).0) [
        | inl (e, k) ↦ rw (handle_offer_message, k) refl
        | inr (t, k) ↦ rw (handle_offer_message, k) refl
      ]

  -- An offer that is posted under a session and an endpoint is given to the media server of the session, and
  -- the response has its answer as the body, or the text of its error with the status 500.
  pub remote_handler_offer :
      (p : ℕ) (s : ServerStates c) (servers : HashMap ℕ (ServerStates c)) (page : Option (List ℕ))
      (path first third fourth : Text) (rest : List Text) (bytes : List ℕ) (sid eid : ℕ)
      → split 47 path ≡ first ∷ codes "offer" ∷ third ∷ fourth ∷ rest
      → parse_u64 third ≡ some sid
      → parse_u64 fourth ≡ some eid
      → (port : ℕ) × (self : ServerStates c) × (port_for (p ∷ keys servers) sid ≡ some port)
        × (get port ((p, s) ∷ servers) ≡ some self)
        × (remote_handler (serve ((p, s) ∷ servers)) page Method.method_post path (some bytes)
            ≡ Outcome.responded (
                response_to error_to_string
                  (try_offer random clock error_to_string sid eid bytes self).0))
  unfolding remote_handler handle_signaling_message
  remote_handler_offer p s servers page path first third fourth rest bytes sid eid cut is_sid
        is_eid =
      let (port, e, i) = port_for-In p (keys servers) sid in
      let (self, found) = get_key port ((p, s) ∷ servers) i in
      let base = event_base-serve ((p, s) ∷ servers) sid port self e found in
      (
        port,
        self,
        e,
        found,
        ap (λ q. routed (serve ((p, s) ∷ servers)) Method.method_post q (some bytes)) cut
            ∙ routed_offer (serve ((p, s) ∷ servers)) first third fourth rest bytes sid eid
                (thread_of self) is_sid is_eid base
            ∙ ap Outcome.responded (offer-response sid eid bytes self),
      )
