-- ===== src/Signaling/Routing.antt =====
-- The requests of the web: `remote_handler` of examples/async_signal/mod.rs. A thread is the reply that its
-- channel gives to a message, and `none` where the channel is closed; the chat page and the body of a request
-- are `none` where they cannot be read.
use sfu.Prelude.{
  ℕ, zero, suc, Bool, true, false, ◌∷◌, ◌^◌, ◌||◌, if◌then◌else◌, ltb, ◌==◌, not, Option, none,
  some, List, [], Text, codes, length, is_some, decimal, list_eq, nat_eq,
}
use sfu.Prelude.HashMap.{HashMap, keys, get}
use sfu.Prelude.Strings.{split, parse_unsigned}
use sfu.Signaling.{SignalingProtocolMessage}
use sfu.Signaling.Ports.{port_for}

abbrev pub Thread : Type 0
Thread = SignalingProtocolMessage → Option SignalingProtocolMessage

pub data Method : Type 0 where
  method_get method_post method_other : Method

pub record Response : Type 0 where
  pub status : ℕ
  pub body : List ℕ

-- What becomes of a request: a response, an error of the connection, or a panic of its task.
pub data Outcome : Type 0 where
  responded : Response → Outcome
  failed panicked : Outcome

abbrev pub status_only : ℕ → Response
status_only status = record { status = status; body = [] }

-- `path[i]`: `none` is the panic of an index out of range.
unfoldable pub segment : List Text → ℕ → Option Text
segment [] i = none
segment (x ∷ xs) zero = some x
segment (x ∷ xs) (suc i) = segment xs i

-- `parse::<u64>()`
abbrev pub parse_u64 : Text → Option ℕ
parse_u64 = parse_unsigned (2 ^ 64)

-- `path[i].parse::<u64>().is_err()`
unfoldable pub is_no_number : List Text → ℕ → Option Bool
unfolding segment
is_no_number path i = elim (segment path i) [
  | none ↦ none
  | some text ↦ some (not (is_some (parse_u64 text)))
]

-- `||` and `&&` evaluate what stands on their right only if they need it: a panic there is met only then.
abbrev pub or_else : Option Bool → Option Bool → Option Bool
or_else none q = none
or_else (some true) q = some true
or_else (some false) q = q

abbrev pub and_also : Option Bool → Option Bool → Option Bool
and_also none q = none
and_also (some true) q = q
and_also (some false) q = some false

abbrev pub names_endpoint : Text → Bool
names_endpoint name = name == codes "offer" || name == codes "answer" || name == codes "leave"

-- The test of `path[1]`.
unfoldable pub is_endpoint_route : List Text → Option Bool
unfolding segment
is_endpoint_route path = elim (segment path 1) [
  | none ↦ none
  | some name ↦ some (names_endpoint name)
]

-- The guard, which panics where it looks at a segment that is not there.
unfoldable pub bad_request : List Text → Option Bool
unfolding is_no_number is_endpoint_route
bad_request path = or_else (some (ltb (length path) 3)) (
    or_else (is_no_number path 2) (
      and_also (is_endpoint_route path)
        (or_else (some (ltb (length path) 4)) (is_no_number path 3))))

-- `path[i].parse::<u64>().unwrap()`
unfoldable pub number : List Text → ℕ → Option ℕ
unfolding segment
number path i = elim (segment path i) [ none ↦ none | some text ↦ parse_u64 text ]

-- The thread that serves a session: `none` where `assert!`, the index or `unwrap()` panics.
unfoldable pub event_base : HashMap ℕ Thread → ℕ → Option Thread
unfolding port_for get
event_base media_port_thread_map session_id =
    elim (port_for (keys media_port_thread_map) session_id) [
      | none ↦ none
      | some port ↦ get port media_port_thread_map
    ]

abbrev pub reply_to_join : Option SignalingProtocolMessage → Response
reply_to_join (some (SignalingProtocolMessage.ok sid eid)) = record {
  status = 200;
  body = decimal eid;
}
reply_to_join (some (SignalingProtocolMessage.err sid eid reason)) = record {
  status = 500;
  body = reason;
}
reply_to_join other = status_only 500

abbrev pub reply_to_offer : Option SignalingProtocolMessage → Response
reply_to_offer (some (SignalingProtocolMessage.answer sid eid answer_sdp)) = record {
  status = 200;
  body = answer_sdp;
}
reply_to_offer (some (SignalingProtocolMessage.err sid eid reason)) = record {
  status = 500;
  body = reason;
}
reply_to_offer other = status_only 500

-- The replies to an answer and to a request to leave.
abbrev pub reply_to_rest : Option SignalingProtocolMessage → Response
reply_to_rest (some (SignalingProtocolMessage.ok sid eid)) = status_only 200
reply_to_rest (some (SignalingProtocolMessage.err sid eid reason)) = record {
  status = 500;
  body = reason;
}
reply_to_rest other = status_only 500

-- `path[3].parse::<u64>().unwrap()`
unfoldable pub with_endpoint : List Text → (ℕ → Outcome) → Outcome
unfolding number
with_endpoint path f = elim (number path 3) [ none ↦ Outcome.panicked | some n ↦ f n ]

-- `hyper::body::to_bytes(req.into_body()).await?`
abbrev pub with_body : Option (List ℕ) → (List ℕ → Outcome) → Outcome
with_body none f = Outcome.failed
with_body (some bytes) f = f bytes

-- The second `match` of remote_handler, on the routes of POST; `name` is `path[1]`.
unfoldable pub posted : Text → List Text → Option (List ℕ) → Thread → ℕ → Outcome
unfolding with_endpoint
posted name path body thread session_id =
    if name == codes "join"
    then Outcome.responded (reply_to_join (thread (SignalingProtocolMessage.join session_id)))
    else (if name == codes "offer"
        then with_endpoint path (λ endpoint_id. with_body body (λ offer_sdp. Outcome.responded (
            reply_to_offer
              (thread (SignalingProtocolMessage.offer session_id endpoint_id offer_sdp)))))
        else (if name == codes "answer"
            then with_endpoint path (λ endpoint_id. with_body body (λ answer_sdp.
              Outcome.responded (
                reply_to_rest
                  (thread (SignalingProtocolMessage.answer session_id endpoint_id answer_sdp)))))
            else (if name == codes "leave"
                then with_endpoint path (λ endpoint_id.
                  Outcome.responded (
                    reply_to_rest (thread (SignalingProtocolMessage.leave session_id endpoint_id))))
                else Outcome.responded (status_only 404))))

unfoldable pub by_method : Method → Text → List Text → Option (List ℕ) → Thread → ℕ → Outcome
unfolding posted
by_method Method.method_post name path body thread session_id =
    posted name path body thread session_id
by_method m name path body thread session_id = Outcome.responded (status_only 404)

-- What comes after the guard.
unfoldable pub guarded : HashMap ℕ Thread → Method → List Text → Option (List ℕ) → Outcome
unfolding number event_base segment by_method
guarded media_port_thread_map method path body = elim (number path 2) [
  | none ↦ Outcome.panicked
  | some session_id ↦ elim (event_base media_port_thread_map session_id) [
    | none ↦ Outcome.panicked
    | some thread ↦ elim (segment path 1) [
      | none ↦ Outcome.panicked
      | some name ↦ by_method method name path body thread session_id
    ]
  ]
]

-- What comes after the chat page.
unfoldable pub routed : HashMap ℕ Thread → Method → List Text → Option (List ℕ) → Outcome
unfolding bad_request guarded
routed media_port_thread_map method path body = elim (bad_request path) [
  | none ↦ Outcome.panicked
  | some true ↦ Outcome.responded (status_only 400)
  | some false ↦ guarded media_port_thread_map method path body
]

abbrev pub is_page : Method → Text → Bool
is_page Method.method_get path = path == codes "/" || path == codes "/index.html"
is_page m path = false

unfoldable pub remote_handler :
    HashMap ℕ Thread
    → (page : Option (List ℕ)) → Method
    → (path : Text) → (body : Option (List ℕ)) → Outcome
unfolding routed
remote_handler media_port_thread_map page method path body =
    if is_page method path
    then Outcome.responded
        (elim page [ none ↦ status_only 404 | some text ↦ record { status = 200; body = text } ])
    else routed media_port_thread_map method (split 47 path) body
