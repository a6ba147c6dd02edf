-- ===== src/Gateway/Binding.antt =====
-- src/handlers/gateway.rs: STUN binding requests, by which an endpoint joins.
use sfu.Prelude.{
  Bool, false, not, ◌||◌, Option, none, some, List, [], ◌∷◌, if◌then◌else◌, nat_eq, list_eq, codes,
  is_some,
}
use sfu.Prelude.HashMap.{get}
use sfu.Prelude.Results.{Result, ok, err, other, session_not_found}
use sfu.Prelude.Actions.{Action, ◌>>=◌, pure, lift}
use sfu.Crates.{Crates, ice_controlled, ice_controlling, network_cost, priority, use_candidate}
use sfu.Types.{TransportContext, Instant, four_tuple, tuple_eq}
use sfu.Messages.{TaggedMessageEvent, stun, StunMessageEvent}
use sfu.Direction.{direction_eq}
use sfu.Endpoint
use sfu.Endpoint.{Endpoint}
use sfu.Endpoint.Credentials.{Candidate}
use sfu.Session
use sfu.Session.{Session}
use sfu.States
use sfu.States.{ServerStates, update_session}

-- The tests on the attributes of a message with a user name.
unfoldable pub check_role : (c : Crates) → c.StunMessage → Result (Unit {0})
check_role c request =
    if not (c.contains request priority)
    then err (other (codes "invalid STUN message without ATTR_PRIORITY"))
    else if c.contains request ice_controlling
    then (if c.contains request ice_controlled
        then err (
            other
              (codes "invalid STUN message with both ATTR_ICE_CONTROLLING and ATTR_ICE_CONTROLLED"))
        else ok tt)
    else if c.contains request ice_controlled
    then (if c.contains request use_candidate
        then err (
            other
              (codes "invalid STUN message with both ATTR_USE_CANDIDATE and ATTR_ICE_CONTROLLED"))
        else ok tt)
    else err
        (other (codes "invalid STUN message without ATTR_ICE_CONTROLLING or ATTR_ICE_CONTROLLED"))

-- Whether a message with no user name has an attribute of a connectivity check.
unfoldable pub has_ice_attribute : (c : Crates) → c.StunMessage → Bool
has_ice_attribute c request =
    c.contains request ice_controlled
    || c.contains request ice_controlling
    || c.contains request network_cost
    || c.contains request priority
    || c.contains request use_candidate

-- The result has the request as `check` leaves it beside the candidate.
binding_success : (c : Crates) → TransportContext → c.StunMessage → Result c.StunMessage
binding_success c ctx request =
    c.build_binding_success (c.transaction_id request) ctx.peer_addr.ip ctx.peer_addr.port

module _ {c : Crates} where
  unfoldable pub check_stun_message :
      ServerStates c → c.StunMessage → Result (Option Candidate × c.StunMessage)
  unfolding check_role has_ice_attribute
  check_stun_message self request = elim (c.get_username request) [
    | ok name ↦ elim (check_role c request) [
      | err e ↦ err e
      | ok _ ↦ elim (States.find_candidate name self) [
        | none ↦ err (other (codes "username not found"))
        | some candidate ↦
            elim (c.integrity_check candidate.local_conn_cred.ice_params.password request) [
              | err e ↦ err e
              | ok request' ↦ ok (some candidate, request')
            ]
      ]
    ]
    | err _ ↦
        if has_ice_attribute c request
        then err (other (codes "unexpected attribute"))
        else ok (none, request)
  ]

  unfoldable pub add_endpoint :
      Instant → c.StunMessage → Candidate → TransportContext → Action (ServerStates c) Bool
  unfolding update_session
  add_endpoint clock request candidate ctx self = elim (get candidate.session_id self.sessions) [
    | none ↦ (err session_not_found, self)
    | some session ↦
        let found = get candidate.endpoint_id session.endpoints in
        let has_transport : Bool = elim found [
          | none ↦ false
          | some e ↦ Endpoint.has_transport e (four_tuple ctx)
        ] in
        if not (c.contains request use_candidate) || has_transport
        then (ok (not (is_some found)), self)
        else (let (known, session') =
              Session.add_endpoint clock candidate (four_tuple ctx) session in
            (
              ok known,
              States.add_endpoint (four_tuple ctx) candidate.session_id candidate.endpoint_id
                  (update_session candidate.session_id (λ _. session') self),
            ))
  ]

  abbrev stun_reply : Instant → TransportContext → c.StunMessage → List (TaggedMessageEvent c)
  stun_reply now ctx response =
      record { now = now; transport = ctx; message = stun (StunMessageEvent.message response) } ∷ []

  unfoldable pub handle_stun_message :
      Instant
      → Instant
      → TransportContext
      → c.StunMessage
      → Action (ServerStates c) (List (TaggedMessageEvent c))
  unfolding check_stun_message add_endpoint binding_success
  handle_stun_message clock now ctx request self = elim (check_stun_message self request) [
    | err e ↦ (err e, self)
    | ok (none, request') ↦ elim (binding_success c ctx request') [
      | err e ↦ (err e, self)
      | ok response ↦ (ok (stun_reply now ctx response), self)
    ]
    | ok (some candidate, request') ↦
        (do
          is_new ← add_endpoint clock request' candidate ctx
          response ← lift (binding_success c ctx request')
          response ←
              lift (c.integrity_add_to candidate.local_conn_cred.ice_params.password response)
          response ← lift (c.fingerprint_add_to response)
          pure (stun_reply now ctx response))
          self
  ]
