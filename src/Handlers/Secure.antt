-- ===== src/Handlers/Secure.antt =====
-- What src/handlers/srtp.rs lets through: nothing undecrypted inwards, nothing in plain outwards.
use sfu.Prelude.{
  ℕ, ◌≡◌, ◌≢◌, refl, ◌⊎◌, inl, inr, Bool, true, false, none, some, List, arith, Option-cases,
  Bool-cases, is_empty,
}
use sfu.Prelude.Results.{Result, Error, Result-cases, ok, err, remote_srtp_context_not_set}
use sfu.Crates.{Crates}
use sfu.Types.{FourTuple, four_tuple, SessionId, EndpointId, tuple_eq}
use sfu.Messages.{TaggedMessageEvent, rtp, RtpMessageEvent}
use sfu.Endpoint.{Transport}
use sfu.States.{ServerStates, get_transport, update_transport}
use sfu.States.Routes.{Leads, Leads_of_get_transport, update_transport-Leads}
use sfu.Handlers.Stun.{fire_read, fire_exception}
use sfu.Handlers.Srtp.{
  unmarshal, decrypt, decrypted, encrypted, on_transport, handle_read, poll_write,
}

-- The context that encrypts, and what it makes of the packet.
unfoldable pub Encrypts : (c : Crates) → c.SrtpContext → List ℕ → Type 0
Encrypts c context bytes =
    (plain : List ℕ) × (((c.encrypt_rtp plain context).0 ≡ ok bytes)
      ⊎ ((c.encrypt_rtcp plain context).0 ≡ ok bytes))

module _ {c : Crates} where
  abbrev pub is_raw : RtpMessageEvent c → Bool
  is_raw (RtpMessageEvent.raw bytes) = true
  is_raw m = false

  unmarshal_plain :
      (b : Bool) (bytes : List ℕ) (m : RtpMessageEvent c)
      → unmarshal c b bytes ≡ ok m
      → is_raw m ≡ false
  unfolding unmarshal
  unmarshal_plain true bytes (RtpMessageEvent.raw r) h =
      elim (Result-cases (c.rtcp_unmarshal bytes)) [
        | inl (e, k) ↦ absurd (ground arith)
        | inr (ps, k) ↦ absurd (ground arith)
      ]
  unmarshal_plain false bytes (RtpMessageEvent.raw r) h =
      elim (Result-cases (c.rtp_unmarshal bytes)) [
        | inl (e, k) ↦ absurd (ground arith)
        | inr (p, k) ↦ absurd (ground arith)
      ]
  unmarshal_plain b bytes (RtpMessageEvent.packet p) h = refl
  unmarshal_plain b bytes (RtpMessageEvent.rtcp ps) h = refl

  encrypted_lem :
      (m : RtpMessageEvent c) (t : Transport c) (bytes : List ℕ)
      → is_raw m ≡ false
      → (encrypted m t).0 ≡ ok bytes
      → (context : c.SrtpContext) × (t.local_srtp_context ≡ some context) × Encrypts c context bytes
  unfolding encrypted Encrypts
  encrypted_lem (RtpMessageEvent.raw r) t bytes p h = absurd (ground arith)
  encrypted_lem (RtpMessageEvent.packet p) t bytes q h = elim (Option-cases t.local_srtp_context) [
    | inl k ↦ absurd (ground arith)
    | inr (context, k) ↦ elim (Result-cases (c.rtp_marshal p)) [
      | inl (e, d) ↦ absurd (let h' = rw (encrypted, k, d) at h in ground arith)
      | inr (plain, d) ↦ (context, k, (plain, inl (rw (encrypted, k, d) at h)))
    ]
  ]
  encrypted_lem (RtpMessageEvent.rtcp ps) t bytes q h = elim (Bool-cases (is_empty ps)) [
    | inl n ↦ absurd (let h' = rw (encrypted, n) at h in ground arith)
    | inr n ↦ elim (Option-cases t.local_srtp_context) [
      | inl k ↦ absurd (let h' = rw (encrypted, n, k) at h in ground arith)
      | inr (context, k) ↦ elim (Result-cases (c.rtcp_marshal ps)) [
        | inl (e, d) ↦ absurd (let h' = rw (encrypted, n, k, d) at h in ground arith)
        | inr (plain, d) ↦ (context, k, (plain, inr (rw (encrypted, n, k, d) at h)))
      ]
    ]
  ]

  pub on_transport_found :
      {A : Type 0} (key : FourTuple) (step : Transport c → Result A × Transport c)
      (s : ServerStates c) (a : A)
      → (on_transport key step s).0 ≡ ok a
      → (sid : SessionId) × (eid : EndpointId) × (t : Transport c) × Leads key s sid eid t
        × ((step t).0 ≡ ok a)
  unfolding on_transport
  on_transport_found key step s a h = elim (Result-cases (get_transport key s)) [
    | inl (e, k) ↦ absurd (let h' = rw (on_transport, k) at h in ground arith)
    | inr ((sid, eid, t), k) ↦
        (sid, eid, t, Leads_of_get_transport key s sid eid t k, rw (on_transport, k) at h)
  ]

  pub on_transport-Leads :
      {A : Type 0} (key : FourTuple) (step : Transport c → Result A × Transport c)
      (s : ServerStates c) (ft : FourTuple) (sid : SessionId) (eid : EndpointId) (t : Transport c)
      → ft ≢ key
      → Leads ft s sid eid t
      → Leads ft (on_transport key step s).1 sid eid t
  unfolding on_transport
  on_transport-Leads key step s ft sid eid t other l = elim (Result-cases (get_transport key s)) [
    | inl (e, k) ↦ rw (on_transport, k) l
    | inr ((sid', eid', t'), k) ↦
        rw (on_transport, k) (update_transport-Leads sid' eid' key _ s ft sid eid t other l)
  ]

  -- The message is what the remote context of the transport makes of the bytes: the packet, or the RTCP
  -- packets, that the decrypted bytes hold; the context of the transport is moved on and no more.
  pub record Opened (msg : TaggedMessageEvent c) (bytes : List ℕ) (s : ServerStates c)
      : Type 0 where
    pub sid : SessionId
    pub eid : EndpointId
    pub transport : Transport c
    pub route : Leads (four_tuple msg.transport) s sid eid transport
    pub context : c.SrtpContext
    pub is_remote : transport.remote_srtp_context ≡ some context
    pub opened : List ℕ
    pub is_opened : (decrypt c (c.is_rtcp bytes) bytes context).0 ≡ ok opened
    pub message : RtpMessageEvent c
    pub held : unmarshal c (c.is_rtcp bytes) opened ≡ ok message
    pub is_plain : is_raw message ≡ false
    pub passed : (handle_read msg s).0 ≡ fire_read (record msg { message = rtp message })
    pub moved :
        (handle_read msg s).1
        ≡ update_transport sid eid
            (four_tuple msg.transport)
            (λ _. record transport {
              remote_srtp_context = some (decrypt c (c.is_rtcp bytes) bytes context).1;
            })
            s

  -- There is no such message: no transport for the addresses, no remote context, bytes that it does not
  -- decrypt, or decrypted bytes that hold no packets; the one exception says which.
  pub record Rejects (msg : TaggedMessageEvent c) (bytes : List ℕ) (s : ServerStates c)
      : Type 0 where
    pub error : Error
    pub passed : (handle_read msg s).0 ≡ fire_exception c error
    pub reason :
        (get_transport (four_tuple msg.transport) s ≡ err error)
        ⊎ ((sid : SessionId) × (eid : EndpointId) × (t : Transport c) × Leads
              (four_tuple msg.transport)
              s
              sid
              eid
              t
            × (((t.remote_srtp_context ≡ none) × (error ≡ remote_srtp_context_not_set))
                ⊎ ((context : c.SrtpContext) × (t.remote_srtp_context ≡ some context)
                    × (((decrypt c (c.is_rtcp bytes) bytes context).0 ≡ err error)
                        ⊎ ((opened : List ℕ) × ((decrypt c (c.is_rtcp bytes) bytes context).0
                              ≡ ok opened)
                            × (unmarshal c (c.is_rtcp bytes) opened ≡ err error))))))

  -- Raw bytes that come in lead to one message on the same transport, which is the packet or the RTCP packets
  -- that its remote context decrypts from them, or to one exception, where that cannot be done.
  pub handle_read_decrypts :
      (msg : TaggedMessageEvent c) (bytes : List ℕ) (s : ServerStates c)
      → msg.message ≡ rtp (RtpMessageEvent.raw bytes)
      → Opened msg bytes s ⊎ Rejects msg bytes s
  unfolding handle_read on_transport decrypted
  handle_read_decrypts msg bytes s h =
      elim (Result-cases (get_transport (four_tuple msg.transport) s)) [
        | inl (e, k) ↦ inr (record {
          error = e;
          passed = rw (handle_read, h, on_transport, k) refl;
          reason = inl k;
        })
        | inr ((sid, eid, t), k) ↦
            let l = Leads_of_get_transport (four_tuple msg.transport) s sid eid t k in
            elim (Option-cases t.remote_srtp_context) [
              | inl n ↦ inr (record {
                error = remote_srtp_context_not_set;
                passed = rw (handle_read, h, on_transport, k, decrypted, n) refl;
                reason = inr (sid, eid, t, l, inl (n, refl));
              })
              | inr (context, n) ↦
                  elim (Result-cases (decrypt c (c.is_rtcp bytes) bytes context).0) [
                    | inl (e, d) ↦ inr (record {
                      error = e;
                      passed = rw (handle_read, h, on_transport, k, decrypted, n, d) refl;
                      reason = inr (sid, eid, t, l, inr (context, n, inl d));
                    })
                    | inr (opened, d) ↦ elim (Result-cases (unmarshal c (c.is_rtcp bytes) opened)) [
                      | inl (e, u) ↦ inr (record {
                        error = e;
                        passed = rw (handle_read, h, on_transport, k, decrypted, n, d, u) refl;
                        reason = inr (sid, eid, t, l, inr (context, n, inr (opened, d, u)));
                      })
                      | inr (m, u) ↦ inl (record {
                        sid = sid;
                        eid = eid;
                        transport = t;
                        route = l;
                        context = context;
                        is_remote = n;
                        opened = opened;
                        is_opened = d;
                        message = m;
                        held = u;
                        is_plain = unmarshal_plain (c.is_rtcp bytes) opened m u;
                        passed = rw (handle_read, h, on_transport, k, decrypted, n, d, u) refl;
                        moved =
                            rw
                              (
                                handle_read, h, on_transport, k, decrypted, n, d, u, on_transport,
                                k, decrypted, n,
                              )
                              refl;
                      })
                    ]
                  ]
            ]
      ]

  -- A packet, or RTCP packets, that is written leaves as bytes that the local context of the
  -- transport of its addresses has encrypted, or not at all.
  pub poll_write_never_plain :
      (msg out : TaggedMessageEvent c) (m : RtpMessageEvent c) (s : ServerStates c)
      → msg.message ≡ rtp m
      → is_raw m ≡ false
      → (poll_write (some msg) s).0 ≡ some out
      → (bytes : List ℕ) × (out ≡ record msg { message = rtp (RtpMessageEvent.raw bytes) })
        × ((sid : SessionId) × (eid : EndpointId) × (t : Transport c) × Leads
              (four_tuple msg.transport)
              s
              sid
              eid
              t
            × ((context : c.SrtpContext) × (t.local_srtp_context ≡ some context)
                × Encrypts c context bytes))
  unfolding poll_write
  poll_write_never_plain msg out m s h p w =
      elim (Result-cases (on_transport (four_tuple msg.transport) (encrypted m) s).0) [
        | inl (e, k) ↦ absurd (let w' = rw (poll_write, h, k) at w in ground arith)
        | inr (bytes, k) ↦
            let (sid, eid, t, l, d) =
              on_transport_found (four_tuple msg.transport) (encrypted m) s bytes k in
            (
              bytes,
              let w' = rw (poll_write, h, k) at w in ground arith,
              (sid, eid, t, l, encrypted_lem m t bytes p d),
            )
      ]
