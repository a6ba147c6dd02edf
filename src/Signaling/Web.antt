-- ===== src/Signaling/Web.antt =====
-- The requests of the web: `web_request` of examples/sync_signal/mod.rs.
use sfu.Prelude.{
  ℕ, Bool, true, false, if◌then◌else◌, ◌==◌, not, Option, none, some, List, Text, codes, length,
  list_eq, nat_eq,
}
use sfu.Prelude.HashMap.{HashMap, keys, get}
use sfu.Prelude.Strings.{split}
use sfu.Signaling.{SignalingProtocolMessage}
use sfu.Signaling.Ports.{port_for}
use sfu.Signaling.Routing.{
  Thread, Method, Outcome, status_only, segment, is_no_number, or_else, number, with_endpoint,
}

-- The reply to an offer in web_request, which expects the channel to be open.
abbrev pub answered : Option SignalingProtocolMessage → Outcome
answered none = Outcome.panicked
answered (some (SignalingProtocolMessage.answer sid eid answer_sdp)) =
    Outcome.responded (record { status = 200; body = answer_sdp })
answered (some other) = Outcome.responded (status_only 404)

-- The path of web_request: what the guard finds.
unfoldable pub bad_web_request : List Text → Option Bool
unfolding is_no_number
bad_web_request path =
    or_else (some (not (length path == 4))) (or_else (is_no_number path 2) (is_no_number path 3))

-- What web_request does once the session has a port.
unfoldable pub offered :
    HashMap ℕ Thread → List Text → Option (List ℕ) → (session_id port : ℕ) → Outcome
unfolding get segment with_endpoint
offered media_port_thread_map path none session_id port = Outcome.panicked
offered media_port_thread_map path (some offer_sdp) session_id port =
    elim (get port media_port_thread_map) [
      | none ↦ Outcome.responded (status_only 406)
      | some tx ↦ with_endpoint path (λ endpoint_id. elim (segment path 1) [
        | none ↦ Outcome.panicked
        | some name ↦
            if name == codes "offer"
            then answered (tx (SignalingProtocolMessage.offer session_id endpoint_id offer_sdp))
            else Outcome.responded (status_only 200)
      ])
    ]

unfoldable pub web_request :
    HashMap ℕ Thread → (page : List ℕ) → Method → (url : Text) → (body : Option (List ℕ)) → Outcome
unfolding port_for number bad_web_request offered
web_request media_port_thread_map page Method.method_get url body =
    Outcome.responded (record { status = 200; body = page })
web_request media_port_thread_map page m url body =
    let path = split 47 url in
    elim (bad_web_request path) [
      | none ↦ Outcome.panicked
      | some true ↦ Outcome.responded (status_only 400)
      | some false ↦ elim (number path 2) [
        | none ↦ Outcome.panicked
        | some session_id ↦ elim (port_for (keys media_port_thread_map) session_id) [
          | none ↦ Outcome.panicked
          | some port ↦ offered media_port_thread_map path body session_id port
        ]
      ]
    ]
