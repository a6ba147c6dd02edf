-- ===== src/States.antt =====
-- src/server/states.rs: the sessions of the server, the route from a pair of addresses to an
-- endpoint, and the candidates that wait for their STUN binding request. Metrics are left out.
pub mod Routes
pub mod Removal
pub mod Unrouted
pub mod Synced
pub mod Offers
use sfu.Prelude.{
  ◌+◌, Bool, false, Option, none, some, List, [], if◌then◌else◌, nat_eq, list_eq, codes, head?,
  is_empty,
}
use sfu.Prelude.HashMap.{HashMap, get, insert, remove, contains_key, adjust}
use sfu.Prelude.Results.{
  Result, ok, err, other, invalid_certificate, session_not_found, endpoint_not_found,
  transport_not_found,
}
use sfu.Prelude.Actions.{Action, ◌>>=◌, ◌>>◌, pure, modify, lift, gets}
use sfu.Crates.{Crates}
use sfu.Types.{SessionId, EndpointId, FourTuple, SocketAddr, Instant, UserName, tuple_eq}
use sfu.Sdp.{SessionDescription}
use sfu.Config
use sfu.Certificate.{DtlsFingerprint, get_fingerprints}
use sfu.Config.{ServerConfig}
use sfu.Endpoint.Credentials.{
  Candidate, ConnectionCredentials, IceParameters, from_sdp, new_credentials, username,
}
use sfu.Endpoint
use sfu.Endpoint.{Endpoint, Transport}
use sfu.Session
use sfu.Session.{Session}
use sfu.Session.Describe.{create_answer}

pub record ServerStates (c : Crates) : Type 0 where
  pub server_config : ServerConfig c
  pub local_addr : SocketAddr
  pub sessions : HashMap SessionId (Session c)
  pub endpoints : HashMap FourTuple (SessionId × EndpointId)
  pub candidates : HashMap UserName Candidate

module _ {c : Crates} where
  -- ServerStates::new: the first certificate must have a fingerprint.
  unfoldable pub new_states : ServerConfig c → SocketAddr → Result (ServerStates c)
  new_states config local_addr = elim (head? config.certificates) [
    | none ↦ err invalid_certificate
    | some cert ↦ elim (head? (get_fingerprints c cert)) [
      | none ↦ err invalid_certificate
      | some fingerprint ↦ ok (record {
        server_config = config;
        local_addr = local_addr;
        sessions = [];
        endpoints = [];
        candidates = [];
      })
    ]
  ]

  unfoldable pub create_session : SessionId → ServerStates c → ServerStates c
  create_session session_id self =
      if contains_key session_id self.sessions then self else record self {
        sessions =
            insert session_id
              (Session.new_session
                (record { server_config = self.server_config; local_addr = self.local_addr })
                session_id)
              self.sessions;
      }

  unfoldable pub add_candidate : Candidate → ServerStates c → ServerStates c
  add_candidate candidate self = record self {
    candidates = insert (username candidate) candidate self.candidates;
  }

  unfoldable pub remove_candidate : UserName → ServerStates c → ServerStates c
  remove_candidate name self = record self { candidates = remove name self.candidates }

  abbrev pub find_candidate : UserName → ServerStates c → Option Candidate
  find_candidate name self = get name self.candidates

  unfoldable pub add_endpoint : FourTuple → SessionId → EndpointId → ServerStates c → ServerStates c
  add_endpoint four_tuple session_id endpoint_id self = record self {
    endpoints = insert four_tuple (session_id, endpoint_id) self.endpoints;
  }

  unfoldable pub remove_endpoint : FourTuple → ServerStates c → ServerStates c
  remove_endpoint four_tuple self = record self { endpoints = remove four_tuple self.endpoints }

  abbrev pub find_endpoint : FourTuple → ServerStates c → Option (SessionId × EndpointId)
  find_endpoint four_tuple self = get four_tuple self.endpoints

  -- What `get_mut_endpoint` and `get_mut_transport` find, or the error that they return.
  unfoldable pub get_endpoint :
      FourTuple → ServerStates c → Result (SessionId × EndpointId × Endpoint c)
  get_endpoint four_tuple self = elim (find_endpoint four_tuple self) [
    | none ↦ err endpoint_not_found
    | some (sid, eid) ↦ elim (get sid self.sessions) [
      | none ↦ err session_not_found
      | some session ↦ elim (get eid session.endpoints) [
        | none ↦ err endpoint_not_found
        | some endpoint ↦ ok (sid, eid, endpoint)
      ]
    ]
  ]

  unfoldable pub get_transport :
      FourTuple → ServerStates c → Result (SessionId × EndpointId × Transport c)
  unfolding get_endpoint
  get_transport four_tuple self = elim (get_endpoint four_tuple self) [
    | err e ↦ err e
    | ok (sid, eid, endpoint) ↦ elim (get four_tuple endpoint.transports) [
      | none ↦ err transport_not_found
      | some transport ↦ ok (sid, eid, transport)
    ]
  ]

  -- Writes through the references to a session, an endpoint and a transport.
  unfoldable pub update_session :
      SessionId → (Session c → Session c) → ServerStates c → ServerStates c
  update_session sid f self = record self { sessions = adjust sid f self.sessions }

  unfoldable pub update_endpoint :
      SessionId → EndpointId → (Endpoint c → Endpoint c) → ServerStates c → ServerStates c
  unfolding update_session
  update_endpoint sid eid f =
      update_session sid (λ session. record session { endpoints = adjust eid f session.endpoints })

  unfoldable pub update_transport :
      SessionId
      → EndpointId
      → FourTuple
      → (Transport c → Transport c)
      → ServerStates c
      → ServerStates c
  unfolding update_endpoint
  update_transport sid eid four_tuple f =
      update_endpoint sid eid
        (λ endpoint. record endpoint { transports = adjust four_tuple f endpoint.transports })

  -- `get_mut_transport(four_tuple)?` and a call of a method that writes.
  unfoldable pub with_transport :
      FourTuple → (Transport c → Transport c) → Action (ServerStates c) (Unit {0})
  unfolding get_transport update_transport
  with_transport four_tuple f self = elim (get_transport four_tuple self) [
    | err e ↦ (err e, self)
    | ok (sid, eid, transport) ↦ (ok tt, update_transport sid eid four_tuple f self)
  ]

  -- A method of a session that may fail: the session is left as the method leaves it.
  unfoldable pub in_session :
      SessionId → (Session c → Result (Unit {0}) × Session c) → Action (ServerStates c) (Unit {0})
  unfolding update_session
  in_session sid f self = elim (get sid self.sessions) [
    | none ↦ (err session_not_found, self)
    | some session ↦ let (r, session') = f session in (r, update_session sid (λ _. session') self)
  ]

  -- The candidate of the transport that was taken out, if one was.
  unfoldable pub forget_candidate : Option (Transport c) → ServerStates c → ServerStates c
  unfolding remove_candidate
  forget_candidate none self = self
  forget_candidate (some t) self = remove_candidate (username t.candidate) self

  -- An endpoint with no transport left goes, and so does a session with no endpoint left.
  unfoldable pub drop_endpoint :
      SessionId → EndpointId → FourTuple → Session c → ServerStates c → ServerStates c
  unfolding remove_endpoint
  drop_endpoint sid eid four_tuple session self = remove_endpoint four_tuple (record self {
    sessions =
        if is_empty (remove eid session.endpoints)
        then remove sid self.sessions
        else adjust sid (λ s. record s { endpoints = remove eid s.endpoints }) self.sessions;
  })

  unfoldable pub drop_transport :
      SessionId → EndpointId → FourTuple → Session c → Endpoint c → ServerStates c → ServerStates c
  unfolding drop_endpoint update_endpoint
  drop_transport sid eid four_tuple session endpoint self =
      if is_empty (Endpoint.remove_transport endpoint four_tuple).1.transports
      then drop_endpoint sid eid four_tuple session self
      else update_endpoint sid eid (λ e. (Endpoint.remove_transport e four_tuple).1) self

  unfoldable pub remove_transport : FourTuple → ServerStates c → ServerStates c
  unfolding forget_candidate drop_transport
  remove_transport four_tuple self = elim (find_endpoint four_tuple self) [
    | none ↦ self
    | some (sid, eid) ↦ elim (get sid self.sessions) [
      | none ↦ self
      | some session ↦ elim (get eid session.endpoints) [
        | none ↦ self
        | some endpoint ↦
            forget_candidate (Endpoint.remove_transport endpoint four_tuple).0
              (drop_transport sid eid four_tuple session endpoint self)
      ]
    ]
  ]

  -- The credentials of an endpoint that is there: those of the candidate of its transport.
  unfoldable pub known_credentials :
      SessionId → EndpointId → Option FourTuple → ServerStates c → Result ConnectionCredentials
  known_credentials sid eid four_tuple self = elim (get sid self.sessions) [
    | none ↦ err session_not_found
    | some session ↦ elim (get eid session.endpoints) [
      | none ↦ err endpoint_not_found
      | some endpoint ↦ elim four_tuple [
        | none ↦ err (other (codes "missing FourTuple"))
        | some ft ↦ elim (get ft endpoint.transports) [
          | none ↦ err transport_not_found
          | some transport ↦ ok transport.candidate.local_conn_cred
        ]
      ]
    ]
  ]

  abbrev pub has_endpoint_in : SessionId → EndpointId → ServerStates c → Bool
  has_endpoint_in sid eid self = elim (get sid self.sessions) [
    | none ↦ false
    | some session ↦ Session.has_endpoint session eid
  ]

  unfoldable pub answer_in :
      SessionId
      → EndpointId
      → SessionDescription
      → IceParameters
      → ServerStates c
      → Result SessionDescription
  unfolding create_answer
  answer_in sid eid offer ice_params self = elim (get sid self.sessions) [
    | none ↦ err session_not_found
    | some session ↦ create_answer eid offer ice_params session
  ]

  -- `certificates.first().unwrap()`: `new_states` makes no state without a certificate.
  unfoldable pub first_fingerprints : ServerStates c → Result (List DtlsFingerprint)
  first_fingerprints self = elim (head? self.server_config.certificates) [
    | none ↦ err invalid_certificate
    | some cert ↦ ok (get_fingerprints c cert)
  ]

  -- `random` is the user name fragment and the password that a new endpoint gets.
  module _ (random : IceParameters) (clock : Instant) where
    -- An offer of an endpoint that has joined.
    unfoldable pub offer_of_known :
        SessionId
        → EndpointId
        → Option FourTuple
        → SessionDescription
        → Action (ServerStates c) SessionDescription
    unfolding known_credentials in_session answer_in
    offer_of_known sid eid four_tuple offer = do
      in_session sid (Session.set_remote_description eid offer)
      local ← λ s. lift (known_credentials sid eid four_tuple s) s
      answer ← λ s. lift (answer_in sid eid offer local.ice_params s) s
      in_session sid (Session.set_local_description eid answer)
      pure answer

    -- An offer of an endpoint that is to join: a candidate waits for its binding request.
    unfoldable pub offer_of_new :
        SessionId
        → EndpointId
        → ConnectionCredentials
        → List DtlsFingerprint
        → SessionDescription
        → Action (ServerStates c) SessionDescription
    unfolding add_candidate
    offer_of_new sid eid remote fingerprints offer = do
      let local = new_credentials random fingerprints remote.dtls_params.role
      answer ← λ s. lift (answer_in sid eid offer local.ice_params s) s
      modify λ s.
          add_candidate
            (record {
              session_id = sid;
              endpoint_id = eid;
              remote_conn_cred = remote;
              local_conn_cred = local;
              remote_description = offer;
              local_description = answer;
              expired_time = clock + s.server_config.idle_timeout;
            })
            s
      pure answer

    unfoldable pub accept_offer :
        SessionId
        → EndpointId
        → Option FourTuple
        → SessionDescription
        → Action (ServerStates c) SessionDescription
    unfolding offer_of_known offer_of_new create_session first_fingerprints
    accept_offer sid eid four_tuple offer = do
      parsed ← lift (c.sdp_unmarshal offer.sdp)
      remote ← lift (from_sdp c parsed)
      let parsed_offer : SessionDescription = record offer { parsed = some parsed }
      fingerprints ← λ s. lift (first_fingerprints s) s
      modify (create_session sid)
      known ← gets (has_endpoint_in sid eid)
      if known
          then offer_of_known sid eid four_tuple parsed_offer
          else offer_of_new sid eid remote fingerprints parsed_offer

  unfoldable pub accept_answer :
      SessionId → EndpointId → SessionDescription → Action (ServerStates c) (Unit {0})
  unfolding in_session create_session
  accept_answer sid eid answer = do
    parsed ← lift (c.sdp_unmarshal answer.sdp)
    modify (create_session sid)
    known ← gets (has_endpoint_in sid eid)
    if known
        then in_session sid
            (Session.set_remote_description eid (record answer { parsed = some parsed }))
        else pure tt
