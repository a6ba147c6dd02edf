-- ===== src/Handlers/Srtp.antt =====
-- src/handlers/srtp.rs: media packets are decrypted with the remote context of their transport and
-- encrypted with the local one. Metrics are left out.
use sfu.Prelude.{
  ℕ, Bool, true, false, Option, none, some, List, [], ◌∷◌, if◌then◌else◌, is_empty, codes,
}
use sfu.Prelude.Results.{
  Result, Error, ok, err, other, ◌>>=◌, remote_srtp_context_not_set, local_srtp_context_not_set,
}
use sfu.Crates.{Crates}
use sfu.Types.{FourTuple, four_tuple}
use sfu.Messages.{TaggedMessageEvent, rtp, RtpMessageEvent}
use sfu.Endpoint.{Transport}
use sfu.States.{ServerStates, get_transport, update_transport}
use sfu.Handlers.Stun.{Fired, fire_read, fire_exception}

-- The packets of a decrypted datagram.
unfoldable pub unmarshal : (c : Crates) → Bool → List ℕ → Result (RtpMessageEvent c)
unmarshal c true bytes = c.rtcp_unmarshal bytes >>= λ packets.
    if is_empty packets
    then err (other (codes "empty rtcp_packets"))
    else ok (RtpMessageEvent.rtcp packets)
unmarshal c false bytes = c.rtp_unmarshal bytes >>= λ packet. ok (RtpMessageEvent.packet packet)

abbrev pub decrypt : (c : Crates) → Bool → List ℕ → c.SrtpContext → Result (List ℕ) × c.SrtpContext
decrypt c rtcp bytes context =
    if rtcp then c.decrypt_rtcp bytes context else c.decrypt_rtp bytes context

module _ {c : Crates} where
  -- `try_read` on a transport: the message, and the transport with its context moved on.
  unfoldable pub decrypted : List ℕ → Transport c → Result (RtpMessageEvent c) × Transport c
  unfolding unmarshal
  decrypted bytes transport = elim transport.remote_srtp_context [
    | none ↦ (err remote_srtp_context_not_set, transport)
    | some context ↦
        let (r, context') = decrypt c (c.is_rtcp bytes) bytes context in
        (
          r >>= unmarshal c (c.is_rtcp bytes),
          record transport { remote_srtp_context = some context' },
        )
  ]

  -- A message marshalled and encrypted; raw bytes go as they are.
  unfoldable pub encrypted : RtpMessageEvent c → Transport c → Result (List ℕ) × Transport c
  encrypted (RtpMessageEvent.rtcp packets) transport =
      if is_empty packets
      then (err (other (codes "empty rtcp_packets")), transport)
      else elim transport.local_srtp_context [
        | none ↦ (err local_srtp_context_not_set, transport)
        | some context ↦ elim (c.rtcp_marshal packets) [
          | err e ↦ (err e, transport)
          | ok bytes ↦
              let (r, context') = c.encrypt_rtcp bytes context in
              (r, record transport { local_srtp_context = some context' })
        ]
      ]
  encrypted (RtpMessageEvent.packet packet) transport = elim transport.local_srtp_context [
    | none ↦ (err local_srtp_context_not_set, transport)
    | some context ↦ elim (c.rtp_marshal packet) [
      | err e ↦ (err e, transport)
      | ok bytes ↦
          let (r, context') = c.encrypt_rtp bytes context in
          (r, record transport { local_srtp_context = some context' })
    ]
  ]
  encrypted (RtpMessageEvent.raw bytes) transport = (ok bytes, transport)

  -- `get_mut_transport(&four_tuple)?` and a step on the transport that is found.
  unfoldable pub on_transport :
      {A : Type 0}
      → FourTuple
      → (Transport c → Result A × Transport c)
      → ServerStates c
      → Result A × ServerStates c
  on_transport key step self = elim (get_transport key self) [
    | err e ↦ (err e, self)
    | ok (sid, eid, transport) ↦
        ((step transport).0, update_transport sid eid key (λ _. (step transport).1) self)
  ]

  unfoldable pub handle_read : TaggedMessageEvent c → ServerStates c → Fired c × ServerStates c
  unfolding on_transport decrypted
  handle_read msg self = elim msg.message [
    | rtp m ↦ elim m [
      | RtpMessageEvent.raw bytes ↦
          let (r, self') = on_transport (four_tuple msg.transport) (decrypted bytes) self in
          elim r [
            | ok message ↦ (fire_read (record msg { message = rtp message }), self')
            | err e ↦ (fire_exception c e, self')
          ]
      | _ ↦ (fire_read msg, self)
    ]
    | _ ↦ (fire_read msg, self)
  ]

  -- `poll_write`: what is written, the exceptions that are fired, and the state.
  unfoldable pub poll_write :
      Option (TaggedMessageEvent c)
      → ServerStates c
      → Option (TaggedMessageEvent c) × List Error × ServerStates c
  unfolding on_transport encrypted
  poll_write none self = (none, [], self)
  poll_write (some msg) self = elim msg.message [
    | rtp m ↦
        let (r, self') = on_transport (four_tuple msg.transport) (encrypted m) self in
        elim r [
          | ok bytes ↦ (some (record msg { message = rtp (RtpMessageEvent.raw bytes) }), [], self')
          | err e ↦ (none, e ∷ [], self')
        ]
    | _ ↦ (some msg, [], self)
  ]
