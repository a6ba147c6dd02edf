-- ===== src/Handlers/Streams.antt =====
-- What src/handlers/sctp.rs writes to the streams of an association.
use sfu.Prelude.{
  ◌≡◌, none, ◌<◌, ◌≤◌, refl, ◌⊎◌, inl, inr, some, List, [], ◌∷◌, ◌++◌, arith, Option-cases,
  Bool-cases, false, nat_eq, ltb, length, flat_map,
}
use sfu.Prelude.HashMap.{get, adjust}
use sfu.Prelude.Results.{
  Error, Result-cases, ok, err, outbound_packet_too_large, association_not_existed,
}
use sfu.Crates.{Crates, SctpTransmit}
use sfu.Types.{FourTuple, Instant, four_tuple, SessionId, EndpointId, tuple_eq}
use sfu.Messages.{TaggedMessageEvent, dtls, DtlsMessageEvent, DataChannelMessage}
use sfu.Endpoint.{Transport}
use sfu.States.{ServerStates, get_transport, update_transport}
use sfu.States.Routes.{Leads, Leads_of_get_transport}
use sfu.Handlers.DataChannel.{pop_front}
use sfu.Handlers.Srtp.{on_transport}
use sfu.Handlers.Sctp.{
  SctpHandler, to_ppid, set_params, write_stream, write_step, try_write, poll_write, queue_upstream,
  outbound, split_transmit,
}

-- The association takes the payload on the stream of the message: the stream is opened, its parameters are set,
-- and the payload is written with the identifier for the type of the message, one after another.
pub record Takes (c : Crates) (m : DataChannelMessage) (conn : c.Association) : Type 0 where
  pub opens : (c.open_stream m.stream_id conn).0 ≡ ok tt
  pub sets : (set_params c m.stream_id m.params (c.open_stream m.stream_id conn).1).0 ≡ ok tt
  pub writes :
      (c.write_with_ppi m.stream_id m.payload
        (to_ppid m.data_message_type (length m.payload))
        (set_params c m.stream_id m.params (c.open_stream m.stream_id conn).1).1).0
      ≡ ok tt

-- The association after that.
abbrev pub taken : (c : Crates) → DataChannelMessage → c.Association → c.Association
unfolding set_params
taken c m conn =
    (c.write_with_ppi m.stream_id m.payload (to_ppid m.data_message_type (length m.payload))
      (set_params c m.stream_id m.params (c.open_stream m.stream_id conn).1).1).1

-- What the association has to send then, and the association after it was asked.
abbrev pub sends :
    (c : Crates) → Instant → DataChannelMessage → c.Association → List SctpTransmit × c.Association
sends c now m conn = c.association_poll_transmits now (taken c m conn)

write_stream_lem :
    (c : Crates) (m : DataChannelMessage) (conn : c.Association) (u : Unit {0})
    → (write_stream c m conn).0 ≡ ok u
    → Takes c m conn × ((write_stream c m conn).1 ≡ taken c m conn)
unfolding write_stream
write_stream_lem c m conn u h = elim (Result-cases (c.open_stream m.stream_id conn).0) [
  | inl (e, k) ↦ absurd (let h' = rw (write_stream, k) at h in ground arith)
  | inr (v, k) ↦
      elim (Result-cases (set_params c m.stream_id m.params (c.open_stream m.stream_id conn).1).0) [
        | inl (e, d) ↦ absurd (let h' = rw (write_stream, k, d) at h in ground arith)
        | inr (w, d) ↦ (
          record { opens = k; sets = d; writes = rw (write_stream, k, d) at h },
          rw (write_stream, k, d) refl,
        )
      ]
]

module _ {c : Crates} where
  -- The association that the message names, on the transport of its addresses, took the payload, which is
  -- within the limit: there is no exception, what the association has to send waits behind what waited before,
  -- and only this association of the transport is another one.
  pub record Accepted (msg : TaggedMessageEvent c) (m : DataChannelMessage) (h : SctpHandler c)
      : Type 0 where
    pub sid : SessionId
    pub eid : EndpointId
    pub transport : Transport c
    pub conn : c.Association
    pub silent : (poll_write (some msg) h).1 ≡ []
    pub within : length m.payload ≤ c.max_message_size h.states.server_config.sctp_server_config
    pub route : Leads (four_tuple msg.transport) h.states sid eid transport
    pub named : get m.association_handle transport.sctp_associations ≡ some conn
    pub takes : Takes c m conn
    pub queued :
        ((poll_write (some msg) h).0, (poll_write (some msg) h).2.transmits)
        ≡ pop_front (
            h.transmits
            ++ flat_map
                (outbound {c = c} h.local_addr)
                (flat_map split_transmit (sends c msg.now m conn).0))
    pub moved :
        (poll_write (some msg) h).2.states
        ≡ update_transport sid eid
            (four_tuple msg.transport)
            (λ _. record transport {
              sctp_associations =
                  adjust m.association_handle
                    (λ _. (sends c msg.now m conn).1)
                    transport.sctp_associations;
            })
            h.states

  -- Why a message is refused with an error: its payload is too large, its addresses have no transport, the
  -- transport has no association with its handle, or the write to the stream of the association fails.
  unfoldable pub Reason : TaggedMessageEvent c → DataChannelMessage → SctpHandler c → Error → Type 0
  Reason msg m h e =
      ((c.max_message_size h.states.server_config.sctp_server_config < length m.payload)
        × (e ≡ outbound_packet_too_large))
      ⊎ (get_transport (four_tuple msg.transport) h.states ≡ err e)
      ⊎ ((sid : SessionId) × (eid : EndpointId) × (t : Transport c) × Leads
            (four_tuple msg.transport) h.states sid eid t
          × (((get m.association_handle t.sctp_associations ≡ none) × (e ≡ association_not_existed))
              ⊎ ((conn : c.Association) × (get m.association_handle t.sctp_associations ≡ some conn)
                  × ((write_stream c m conn).0 ≡ err e))))

  -- One exception, and what waited goes on as if nothing had been written.
  unfoldable pub Refused : TaggedMessageEvent c → DataChannelMessage → SctpHandler c → Type 0
  Refused msg m h =
      ((e : Error) × ((poll_write (some msg) h).1 ≡ e ∷ []) × Reason msg m h e)
      × (((poll_write (some msg) h).0, (poll_write (some msg) h).2.transmits)
          ≡ pop_front h.transmits)

  refused :
      (msg : TaggedMessageEvent c) (m : DataChannelMessage) (h : SctpHandler c) (x : Error)
      → msg.message ≡ dtls (DtlsMessageEvent.sctp m)
      → (try_write msg.now (four_tuple msg.transport) m h.states).0 ≡ err x
      → Reason msg m h x
      → Refused msg m h
  unfolding poll_write queue_upstream Refused
  refused msg m h x e k reason = (
    (x, rw (poll_write, queue_upstream, e, k) refl, reason),
    rw (poll_write, queue_upstream, e, k) refl,
  )

  write_step_took :
      (now : Instant) (m : DataChannelMessage) (t : Transport c) (conn : c.Association)
      (u : Unit {0})
      → get m.association_handle t.sctp_associations ≡ some conn
      → (write_stream c m conn).0 ≡ ok u
      → (write_stream c m conn).1 ≡ taken c m conn
      → write_step now m t ≡ (
        ok (flat_map split_transmit (sends c now m conn).0),
        record t {
          sctp_associations =
              adjust m.association_handle (λ _. (sends c now m conn).1) t.sctp_associations;
        },
      )
  unfolding write_step
  write_step_took now m t conn u n w after = rw (write_step, n, w, after) refl

  try_write_took :
      (now : Instant) (key : FourTuple) (m : DataChannelMessage) (s : ServerStates c)
      (sid : SessionId) (eid : EndpointId) (t t' : Transport c) (xs : List SctpTransmit)
      → ltb (c.max_message_size s.server_config.sctp_server_config) (length m.payload) ≡ false
      → get_transport key s ≡ ok (sid, eid, t)
      → write_step now m t ≡ (ok xs, t')
      → try_write now key m s ≡ (ok xs, update_transport sid eid key (λ _. t') s)
  unfolding try_write on_transport
  try_write_took now key m s sid eid t t' xs k g w = rw (try_write, k, on_transport, g, w) refl

  -- A message of a data channel is refused with one exception, for the reason that it names, or the
  -- association that it names, on the transport of its addresses, took its payload on its stream.
  pub poll_write_checks :
      (msg : TaggedMessageEvent c) (m : DataChannelMessage) (h : SctpHandler c)
      → msg.message ≡ dtls (DtlsMessageEvent.sctp m)
      → Refused msg m h ⊎ Accepted msg m h
  unfolding poll_write queue_upstream Reason try_write on_transport write_step
  poll_write_checks msg m h e =
      elim (Bool-cases
        (ltb (c.max_message_size h.states.server_config.sctp_server_config) (length m.payload))) [
          | inl k ↦ inl (
              refused msg m h outbound_packet_too_large e (rw (try_write, k) refl)
                (inl (ground arith, refl)))
          | inr k ↦ elim (Result-cases (get_transport (four_tuple msg.transport) h.states)) [
            | inl (x, g) ↦
                inl (refused msg m h x e (rw (try_write, k, on_transport, g) refl) (inr (inl g)))
            | inr ((sid, eid, t), g) ↦
                let l = Leads_of_get_transport (four_tuple msg.transport) h.states sid eid t g in
                elim (Option-cases (get m.association_handle t.sctp_associations)) [
                  | inl n ↦ inl (
                      refused msg m h association_not_existed e
                        (rw (try_write, k, on_transport, g, write_step, n) refl)
                        (inr (inr (sid, eid, t, l, inl (n, refl)))))
                  | inr (conn, n) ↦ elim (Result-cases (write_stream c m conn).0) [
                    | inl (x, w) ↦ inl (
                        refused msg m h x e
                          (rw (try_write, k, on_transport, g, write_step, n, w) refl)
                          (inr (inr (sid, eid, t, l, inr (conn, n, w)))))
                    | inr (u, w) ↦
                        let (takes, after) = write_stream_lem c m conn u w in
                        let took =
                          try_write_took msg.now (four_tuple msg.transport) m h.states sid eid t _ _
                            k g (write_step_took msg.now m t conn u n w after) in
                        inr (record {
                          sid = sid;
                          eid = eid;
                          transport = t;
                          conn = conn;
                          silent = rw (poll_write, queue_upstream, e, took) refl;
                          within = ground arith;
                          route = l;
                          named = n;
                          takes = takes;
                          queued = rw (poll_write, queue_upstream, e, took) refl;
                          moved = rw (poll_write, queue_upstream, e, took, took) refl;
                        })
                  ]
                ]
          ]
        ]
