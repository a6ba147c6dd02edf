-- ===== src/Examples/Signals.antt =====
-- The theorems on the requests of the web and the messages to the media servers.
use mathlib.Core.List.{Permᴰ}
use sfu.Prelude.{
  ℕ, ◌≡◌, ◌≢◌, ◌⊎◌, refl, true, false, some, none, List, [], ◌∷◌, In, Text, codes, nat_eq,
}
use sfu.Prelude.HashMap.{get}
use sfu.Prelude.Results.{Error}
use sfu.States.{ServerStates}
use sfu.States.Synced.{SessionsSynced}
use sfu.Prelude.Strings.{split, parse_unsigned}
use sfu.Signaling.{SignalingProtocolMessage, handle_signaling_message, handle_all, try_offer}
use sfu.Signaling.Replies.{
  session_of, endpoint_of, is_offer, is_answer, handle_signaling_message_lem,
  handle_all-SessionsSynced,
}
use sfu.Signaling.Ports.{port_for, port_for_stable}
use sfu.Signaling.Routing.{Thread, Method, Outcome, remote_handler}
use sfu.Signaling.Requests.{remote_handler_never_panics}
use sfu.Signaling.Offers.{serve, response_to, remote_handler_offer}
use sfu.Examples.{crates, ours, states}
use sfu.Examples.Negotiating.{states-SessionsSynced}

abbrev text_of : Error → Text
text_of e = codes "error"

abbrev an_offer : SignalingProtocolMessage
an_offer = SignalingProtocolMessage.offer 1 8 (codes "{}")

handle_signaling_message_lem_example :
    (session_of (handle_signaling_message true ours 95 text_of 9 an_offer states).0 ≡ 1)
    × (endpoint_of 9 (handle_signaling_message true ours 95 text_of 9 an_offer states).0 ≡ 8)
    × ((is_offer an_offer ≡ true)
        ⊎ ((is_answer (handle_signaling_message true ours 95 text_of 9 an_offer states).0 ≡ false)
            × ((handle_signaling_message true ours 95 text_of 9 an_offer states).1 ≡ states)))
handle_signaling_message_lem_example =
    handle_signaling_message_lem true ours 95 text_of 9 an_offer states

abbrev messages : List (ℕ × SignalingProtocolMessage)
messages =
    (8, SignalingProtocolMessage.join 1)
    ∷ (0, SignalingProtocolMessage.offer 1 8 (codes "{}"))
    ∷ (0, SignalingProtocolMessage.offer 2 8 (codes "{}"))
    ∷ (0, SignalingProtocolMessage.leave 1 8)
    ∷ []

handle_all-SessionsSynced_example : SessionsSynced (handle_all true ours 95 text_of messages states)
handle_all-SessionsSynced_example =
    handle_all-SessionsSynced true ours 95 text_of messages states states-SessionsSynced

port_for_stable_example :
    (p : ℕ) × (port_for (3479 ∷ 3478 ∷ []) 5 ≡ some p)
    × (port_for (3478 ∷ 3479 ∷ []) 5 ≡ some p)
    × In p (3478 ∷ 3479 ∷ [])
port_for_stable_example =
    port_for_stable 3478 (3479 ∷ []) (3479 ∷ 3478 ∷ []) 5 ∣ Permᴰ.swap refl refl ∣₁

abbrev closed : Thread
closed m = none

remote_handler_never_panics_example :
    remote_handler ((3478, closed) ∷ []) none Method.method_post (codes "/leave/1/2") none
    ≢ Outcome.panicked
remote_handler_never_panics_example =
    remote_handler_never_panics 3478 closed [] none Method.method_post (codes "/leave/1/2") none

abbrev offer_path : Text
offer_path = codes "/offer/5/8"

remote_handler_offer_example :
    (port : ℕ) × (self : ServerStates crates) × (port_for (3478 ∷ 3479 ∷ []) 5 ≡ some port)
    × (get port ((3478, states) ∷ (3479, states) ∷ []) ≡ some self)
    × (remote_handler
          (serve true ours 95 text_of 9 ((3478, states) ∷ (3479, states) ∷ []))
          none
          Method.method_post
          offer_path
          (some (codes "{}"))
        ≡ Outcome.responded
            (response_to text_of (try_offer ours 95 text_of 5 8 (codes "{}") self).0))
unfolding split parse_unsigned
remote_handler_offer_example =
    remote_handler_offer true ours 95 text_of 9 3478 states ((3479, states) ∷ []) none offer_path []
      (codes "5") (codes "8") [] (codes "{}") 5 8 refl refl refl
