-- ===== src/Handlers/Dtls.antt =====
-- src/handlers/dtls.rs: datagrams are given to the DTLS endpoint of their transport; a handshake gives it the
-- contexts that encrypt media, and a fatal alert takes it away.
use sfu.Prelude.{
  ℕ, Bool, true, false, Option, none, some, List, [], ◌∷◌, ◌++◌, map, flat_map, if◌then◌else◌,
  nat_eq, list_eq,
}
use sfu.Prelude.HashMap.{HashMap}
use sfu.Prelude.Results.{Result, Error, ok, err, ◌>>=◌, alert_fatal_or_close, no_such_srtp_profile}
use sfu.Crates.{
  Crates, DtlsEvent, DtlsTransmit, handshake_complete, application_data, SrtpProtectionProfile,
  ProtectionProfile,
}
use sfu.Types.{FourTuple, SocketAddr, TransportContext, Instant, SessionId, EndpointId, four_tuple}
use sfu.Messages.{TaggedMessageEvent, dtls, DtlsMessageEvent}
use sfu.Endpoint.{Endpoint, Transport, set_srtp_contexts}
use sfu.Session.{Session}
use sfu.States.{ServerStates, remove_transport}
use sfu.Handlers.Stun.{Fired, fire_read, fire_exception, fire_nothing}
use sfu.Handlers.DataChannel.{pop_front}
use sfu.Handlers.Srtp.{on_transport}

pub record DtlsHandler (c : Crates) : Type 0 where
  pub local_addr : SocketAddr
  pub states : ServerStates c
  pub transmits : List (TaggedMessageEvent c)

unfoldable pub is_alert : Error → Bool
is_alert alert_fatal_or_close = true
is_alert _ = false

-- The profile that media get for the one negotiated.
unfoldable pub profile_for : SrtpProtectionProfile → Result ProtectionProfile
profile_for SrtpProtectionProfile.srtp_aes128_cm_hmac_sha1_80 =
    ok ProtectionProfile.aes128_cm_hmac_sha1_80
profile_for SrtpProtectionProfile.srtp_aead_aes_128_gcm = ok ProtectionProfile.aead_aes_128_gcm
profile_for SrtpProtectionProfile.other = err no_such_srtp_profile

abbrev pub or_else : {A : Type 0} → Option A → A → Option A
or_else none d = some d
or_else (some a) d = some a

-- DtlsHandler::update_srtp_contexts: the local and the remote context.
unfoldable pub update_srtp_contexts :
    (c : Crates) → c.DtlsState → Result (c.SrtpContext × c.SrtpContext)
unfolding profile_for
update_srtp_contexts c state = profile_for (c.srtp_protection_profile state) >>= λ profile.
    c.extract_session_keys profile state >>= λ config.
    c.srtp_context_new config.local_master_key config.local_master_salt config.profile
      config.local_rtp_options config.local_rtcp_options
    >>= λ local.
        c.srtp_context_new config.remote_master_key config.remote_master_salt config.profile
          (or_else config.remote_rtp_options (c.srtp_replay_protection 64))
          (or_else config.remote_rtcp_options (c.srtcp_replay_protection 64))
        >>= λ remote. ok (local, remote)

-- The events of a datagram: the contexts of each handshake, and the messages. The first error ends it.
unfoldable pub handle_events :
    (c : Crates)
    → SocketAddr
    → c.DtlsEndpoint
    → List DtlsEvent
    → Result (List (c.SrtpContext × c.SrtpContext) × List (List ℕ))
unfolding update_srtp_contexts
handle_events c peer endpoint [] = ok ([], [])
handle_events c peer endpoint (handshake_complete ∷ events) =
    elim (c.get_connection_state peer endpoint) [
      | none ↦ handle_events c peer endpoint events
      | some state ↦ update_srtp_contexts c state >>= λ pair.
          handle_events c peer endpoint events >>= λ (contexts, messages).
          ok (pair ∷ contexts, messages)
    ]
handle_events c peer endpoint (application_data message ∷ events) =
    handle_events c peer endpoint events >>= λ (contexts, messages).
    ok (contexts, message ∷ messages)

unfoldable pub time_out_all :
    (c : Crates) → Instant → List SocketAddr → c.DtlsEndpoint → c.DtlsEndpoint
time_out_all c now [] endpoint = endpoint
time_out_all c now (remote ∷ remotes) endpoint =
    time_out_all c now remotes (c.dtls_handle_timeout remote now endpoint)

unfoldable pub poll_remotes : (c : Crates) → c.DtlsEndpoint → List SocketAddr → Instant → Instant
poll_remotes c endpoint [] eto = eto
poll_remotes c endpoint (remote ∷ remotes) eto =
    poll_remotes c endpoint remotes (c.dtls_poll_timeout remote endpoint eto)

module _ {c : Crates} where
  abbrev pub outbound : SocketAddr → DtlsTransmit → TaggedMessageEvent c
  outbound local_addr transmit = record {
    now = transmit.now;
    transport = record { local_addr = local_addr; peer_addr = transmit.remote; ecn = transmit.ecn };
    message = dtls (DtlsMessageEvent.raw transmit.payload);
  }

  -- `while let Some(transmit) = dtls_endpoint.poll_transmit()`
  unfoldable pub drain : SocketAddr → Transport c → List (TaggedMessageEvent c) × Transport c
  drain local_addr transport =
      let (transmits, endpoint) = c.dtls_poll_transmits transport.dtls_endpoint in
      (map (outbound local_addr) transmits, record transport { dtls_endpoint = endpoint })

  -- The last pair of contexts counts.
  unfoldable pub set_contexts : List (c.SrtpContext × c.SrtpContext) → Transport c → Transport c
  unfolding set_srtp_contexts
  set_contexts [] transport = transport
  set_contexts ((local, remote) ∷ contexts) transport =
      set_contexts contexts (set_srtp_contexts transport local remote)

  -- `try_read` on a transport: the messages for the next handler and those to send.
  unfoldable pub read_step :
      SocketAddr
      → Instant
      → TransportContext
      → List ℕ
      → Transport c
      → Result (List (List ℕ) × List (TaggedMessageEvent c)) × Transport c
  unfolding handle_events drain set_contexts
  read_step local_addr now ctx bytes transport =
      let (r, endpoint) =
        c.dtls_read now ctx.peer_addr (some ctx.local_addr.ip) ctx.ecn bytes
          transport.dtls_endpoint in
      let read : Transport c = record transport { dtls_endpoint = endpoint } in
      elim (r >>= handle_events c ctx.peer_addr endpoint) [
        | err e ↦ (err e, read)
        | ok (contexts, messages) ↦
            let (transmits, drained) = drain local_addr read in
            (ok (messages, transmits), set_contexts contexts drained)
      ]

  unfoldable pub handle_read : TaggedMessageEvent c → DtlsHandler c → Fired c × DtlsHandler c
  unfolding on_transport read_step is_alert remove_transport
  handle_read msg self = elim msg.message [
    | dtls m ↦ elim m [
      | DtlsMessageEvent.raw bytes ↦
          let (r, states') =
            on_transport (four_tuple msg.transport)
              (read_step self.local_addr msg.now msg.transport bytes) self.states in
          elim r [
            | ok (messages, transmits) ↦ (
              record {
                reads = map (λ b. record msg { message = dtls (DtlsMessageEvent.raw b) }) messages;
                exceptions = [];
              },
              record self { states = states'; transmits = self.transmits ++ transmits },
            )
            | err e ↦
                if is_alert e
                then (
                  fire_nothing c,
                  record self { states = remove_transport (four_tuple msg.transport) states' },
                )
                else (fire_exception c e, record self { states = states' })
          ]
      | _ ↦ (fire_read msg, self)
    ]
    | _ ↦ (fire_read msg, self)
  ]

  unfoldable pub timed_transport :
      SocketAddr → Instant → Transport c → List (TaggedMessageEvent c) × Transport c
  unfolding time_out_all drain
  timed_transport local_addr now transport = drain local_addr (record transport {
    dtls_endpoint =
        time_out_all c now (c.get_connections_keys transport.dtls_endpoint) transport.dtls_endpoint;
  })

  unfoldable pub timed_endpoint :
      SocketAddr → Instant → Endpoint c → List (TaggedMessageEvent c) × Endpoint c
  unfolding timed_transport
  timed_endpoint local_addr now endpoint = (
    flat_map (λ t. (timed_transport local_addr now t.1).0) endpoint.transports,
    record endpoint {
      transports = map (λ t. (t.0, (timed_transport local_addr now t.1).1)) endpoint.transports;
    },
  )

  unfoldable pub timed_session :
      SocketAddr → Instant → Session c → List (TaggedMessageEvent c) × Session c
  unfolding timed_endpoint
  timed_session local_addr now session = (
    flat_map (λ e. (timed_endpoint local_addr now e.1).0) session.endpoints,
    record session {
      endpoints = map (λ e. (e.0, (timed_endpoint local_addr now e.1).1)) session.endpoints;
    },
  )

  unfoldable pub handle_timeout : Instant → DtlsHandler c → DtlsHandler c
  unfolding timed_session
  handle_timeout now self = record self {
    states = record self.states {
      sessions = map (λ s. (s.0, (timed_session self.local_addr now s.1).1)) self.states.sessions;
    };
    transmits =
        self.transmits
        ++ flat_map (λ s. (timed_session self.local_addr now s.1).0) self.states.sessions;
  }

  unfoldable pub poll_transports : HashMap FourTuple (Transport c) → Instant → Instant
  unfolding poll_remotes
  poll_transports [] eto = eto
  poll_transports (t ∷ ts) eto =
      poll_transports ts
        (poll_remotes c t.1.dtls_endpoint (c.get_connections_keys t.1.dtls_endpoint) eto)

  unfoldable pub poll_endpoints : HashMap EndpointId (Endpoint c) → Instant → Instant
  unfolding poll_transports
  poll_endpoints [] eto = eto
  poll_endpoints (e ∷ es) eto = poll_endpoints es (poll_transports e.1.transports eto)

  unfoldable pub poll_sessions : HashMap SessionId (Session c) → Instant → Instant
  unfolding poll_endpoints
  poll_sessions [] eto = eto
  poll_sessions (s ∷ ss) eto = poll_sessions ss (poll_endpoints s.1.endpoints eto)

  unfoldable pub poll_timeout : DtlsHandler c → Instant → Instant
  unfolding poll_sessions
  poll_timeout self eto = poll_sessions self.states.sessions eto

  -- `try_write` on a transport: what there is to send.
  unfoldable pub write_step :
      SocketAddr
      → SocketAddr
      → List ℕ
      → Transport c
      → Result (List (TaggedMessageEvent c)) × Transport c
  unfolding drain
  write_step local_addr peer bytes transport =
      let (r, endpoint) = c.dtls_write peer bytes transport.dtls_endpoint in
      let written : Transport c = record transport { dtls_endpoint = endpoint } in
      elim r [
        | err e ↦ (err e, written)
        | ok _ ↦ let (transmits, drained) = drain local_addr written in (ok transmits, drained)
      ]

  -- What a message to write does to the queue, and the exceptions.
  unfoldable pub queue_upstream :
      Option (TaggedMessageEvent c) → DtlsHandler c → List Error × DtlsHandler c
  unfolding on_transport write_step
  queue_upstream none self = ([], self)
  queue_upstream (some msg) self = elim msg.message [
    | dtls m ↦ elim m [
      | DtlsMessageEvent.raw bytes ↦
          let (r, states') =
            on_transport (four_tuple msg.transport)
              (write_step self.local_addr msg.transport.peer_addr bytes) self.states in
          elim r [
            | ok transmits ↦
                ([], record self { states = states'; transmits = self.transmits ++ transmits })
            | err e ↦ (e ∷ [], record self { states = states' })
          ]
      | _ ↦ ([], record self { transmits = self.transmits ++ msg ∷ [] })
    ]
    | _ ↦ ([], record self { transmits = self.transmits ++ msg ∷ [] })
  ]

  unfoldable pub poll_write :
      Option (TaggedMessageEvent c)
      → DtlsHandler c
      → Option (TaggedMessageEvent c) × List Error × DtlsHandler c
  unfolding queue_upstream pop_front
  poll_write upstream self =
      let (es, self') = queue_upstream upstream self in
      let (front, rest) = pop_front self'.transmits in
      (front, es, record self' { transmits = rest })
