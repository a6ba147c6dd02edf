-- ===== src/Signaling.antt =====
-- examples/async_signal/mod.rs and examples/sync_signal/mod.rs: the messages between the web server and the
-- threads of the media servers, and what a media server answers. The message of an error is a text; the
-- channel that takes the reply is open.
pub mod Replies
pub mod Routing
pub mod Web
pub mod Ports
pub mod Requests
pub mod Offers
use sfu.Prelude.{ℕ, Bool, true, false, none, List, [], ◌∷◌, Text, codes}
use sfu.Prelude.Results.{Error, Result}
use sfu.Prelude.Actions.{Action, ◌>>=◌, ◌>>◌, lift}
use sfu.Crates.{Crates}
use sfu.Types.{SessionId, EndpointId, Instant}
use sfu.Endpoint.Credentials.{IceParameters}
use sfu.States.{ServerStates, accept_offer}

-- SignalingProtocolMessage of async_signal; the one of sync_signal has no `join` and no `trickle`.
pub data SignalingProtocolMessage : Type 0 where
  ok leave : SessionId → EndpointId → SignalingProtocolMessage
  join : SessionId → SignalingProtocolMessage
  err offer answer trickle : SessionId → EndpointId → List ℕ → SignalingProtocolMessage

abbrev invalid_request : SessionId → EndpointId → SignalingProtocolMessage
invalid_request session_id endpoint_id =
    SignalingProtocolMessage.err session_id endpoint_id (codes "Invalid Request")

-- The text is decoded as an argument of `info!`, whose arguments are evaluated only where the level is on.
unfoldable pub handle_answer_message :
    (c : Crates)
    → (info_enabled : Bool) → (Error → Text)
    → SessionId
    → EndpointId
    → List ℕ
    → SignalingProtocolMessage
handle_answer_message c false error_to_string session_id endpoint_id bytes =
    SignalingProtocolMessage.ok session_id endpoint_id
handle_answer_message c true error_to_string session_id endpoint_id bytes =
    elim (c.from_utf8 bytes) [
      | Result.ok _ ↦ SignalingProtocolMessage.ok session_id endpoint_id
      | Result.err e ↦ SignalingProtocolMessage.err session_id endpoint_id (error_to_string e)
    ]

unfoldable pub handle_leave_message : SessionId → EndpointId → SignalingProtocolMessage
handle_leave_message session_id endpoint_id = SignalingProtocolMessage.ok session_id endpoint_id

module _ {c : Crates} (random : IceParameters) (clock : Instant)
    (error_to_string : Error → Text) where
  -- `try_handle` of handle_offer_message
  unfoldable pub try_offer : SessionId → EndpointId → List ℕ → Action (ServerStates c) Text
  unfolding accept_offer
  try_offer session_id endpoint_id bytes = do
    offer_str ← lift (c.from_utf8 bytes)
    offer_sdp ← lift (c.description_from_json offer_str)
    answered ← accept_offer random clock session_id endpoint_id none offer_sdp
    lift (c.description_to_json answered)

  unfoldable pub handle_offer_message :
      SessionId → EndpointId → List ℕ → ServerStates c → SignalingProtocolMessage × ServerStates c
  unfolding try_offer
  handle_offer_message session_id endpoint_id bytes self =
      let (r, self') = try_offer session_id endpoint_id bytes self in
      elim r [
        | Result.ok answer_str ↦
            (SignalingProtocolMessage.answer session_id endpoint_id answer_str, self')
        | Result.err e ↦
            (SignalingProtocolMessage.err session_id endpoint_id (error_to_string e), self')
      ]

module _ {c : Crates} (info_enabled : Bool) (random : IceParameters) (clock : Instant)
    (error_to_string : Error → Text) where
  -- handle_signaling_message of async_signal, with the random identifier of an endpoint that joins.
  unfoldable pub handle_signaling_message :
      EndpointId
      → SignalingProtocolMessage
      → ServerStates c
      → SignalingProtocolMessage × ServerStates c
  unfolding handle_offer_message handle_answer_message handle_leave_message
  handle_signaling_message joined (SignalingProtocolMessage.join sid) self =
      (SignalingProtocolMessage.ok sid joined, self)
  handle_signaling_message joined (SignalingProtocolMessage.offer sid eid bytes) self =
      handle_offer_message random clock error_to_string sid eid bytes self
  handle_signaling_message joined (SignalingProtocolMessage.answer sid eid bytes) self =
      (handle_answer_message c info_enabled error_to_string sid eid bytes, self)
  handle_signaling_message joined (SignalingProtocolMessage.leave sid eid) self =
      (handle_leave_message sid eid, self)
  handle_signaling_message joined (SignalingProtocolMessage.ok sid eid) self =
      (invalid_request sid eid, self)
  handle_signaling_message joined (SignalingProtocolMessage.err sid eid reason) self =
      (invalid_request sid eid, self)
  handle_signaling_message joined (SignalingProtocolMessage.trickle sid eid bytes) self =
      (invalid_request sid eid, self)

  -- The messages that a media server takes from its channel, one after another.
  unfoldable pub handle_all :
      List (EndpointId × SignalingProtocolMessage) → ServerStates c → ServerStates c
  unfolding handle_signaling_message
  handle_all [] self = self
  handle_all ((joined, m) ∷ ms) self = handle_all ms (handle_signaling_message joined m self).1
