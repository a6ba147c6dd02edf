-- ===== src/Handlers/Sctp/Delivery.antt =====
-- What src/handlers/sctp.rs passes on and queues when a datagram comes in.
use sfu.Prelude.{
  ℕ, ◌≡◌, ◌≤◌, refl, some, List, [], ◌++◌, In, inl, inr, length, In-flat_map_inv, In-flat_map,
  flat_map, subst, ◌↔◌, Option-cases, arith,
}
use sfu.Prelude.Results.{Result, ok, err}
use sfu.Crates.{Crates}
use sfu.Types.{four_tuple, SessionId, EndpointId}
use sfu.Messages.{TaggedMessageEvent, dtls, DtlsMessageEvent, DataChannelMessage}
use sfu.Endpoint.{Transport}
use sfu.States.{update_transport}
use sfu.States.Routes.{Leads, get_transport_of_Leads}
use sfu.Handlers.Stun.{Fired, fire_exception}
use sfu.Handlers.Sctp.{SctpHandler, outbound}
use sfu.Handlers.Sctp.Read.{
  SctpMessage, transmit_of, read_of, deliver, take_event, read_step, handle_read,
}
use sfu.Handlers.Sctp.Ends.{Drains, enough_for, read_associations-Returns}

module _ {c : Crates} where
  -- The messages in, of what was read, and those out, behind what waits in the queue.
  abbrev pub queue_of : SctpHandler c → List SctpMessage → List (TaggedMessageEvent c)
  queue_of h messages =
      h.transmits ++ flat_map (outbound h.local_addr) (flat_map transmit_of messages)

  -- What was read from the associations is passed on and queued: a message is passed on just if it is one
  -- of a data channel that was read, at the time and on the transport of the datagram, and what is to be sent
  -- joins the queue in its order. An error is one exception, and the queue is as before.
  unfoldable pub Delivers :
      TaggedMessageEvent c
      → SctpHandler c
      → Result (List SctpMessage)
      → Fired c
      → List (TaggedMessageEvent c)
      → Type 0
  Delivers msg h (err e) fired queue = (fired ≡ fire_exception c e) × (queue ≡ h.transmits)
  Delivers msg h (ok messages) fired queue =
      ((out : TaggedMessageEvent c)
        → In out fired.reads ↔ (
            (m : DataChannelMessage) × In (SctpMessage.inbound m) messages
            × (out ≡ record msg { message = dtls (DtlsMessageEvent.sctp m) })))
      × (fired.exceptions ≡ [])
      × (queue ≡ queue_of h messages)

  read_of_lem :
      (msg : TaggedMessageEvent c) (x : SctpMessage) (out : TaggedMessageEvent c)
      → In out (read_of msg x)
      → (m : DataChannelMessage) × (x ≡ SctpMessage.inbound m)
        × (out ≡ record msg { message = dtls (DtlsMessageEvent.sctp m) })
  read_of_lem msg (SctpMessage.inbound m) out i = elim i [
    | inl e ↦ (m, refl, e)
    | inr nowhere ↦ elim nowhere [ ]
  ]
  read_of_lem msg (SctpMessage.outbound x) out i = elim i [ ]

  deliver-Delivers :
      (msg : TaggedMessageEvent c) (r : Result (List SctpMessage)) (h : SctpHandler c)
      → Delivers msg h r (deliver msg r h).0 (deliver msg r h).1.transmits
  unfolding deliver Delivers
  deliver-Delivers msg (err e) h = (refl, refl)
  deliver-Delivers msg (ok messages) h = (
    λ out. (
      λ i.
          let (x, j, k) = In-flat_map_inv (read_of msg) out messages i in
          let (m, is_in, e) = read_of_lem msg x out k in (m, subst (λ y. In y messages) is_in j, e),
      λ (m, j, e). In-flat_map (read_of msg) (SctpMessage.inbound m) out messages j (inl e),
    ),
    refl,
    refl,
  )

  deliver_states :
      (msg : TaggedMessageEvent c) (r : Result (List SctpMessage)) (h : SctpHandler c)
      → (deliver msg r h).1.states ≡ h.states
  unfolding deliver
  deliver_states msg (err e) h = refl
  deliver_states msg (ok messages) h = refl

  -- Fuel that is enough for a datagram on a transport.
  unfoldable pub enough_on : Drains c → TaggedMessageEvent c → List ℕ → Transport c → ℕ
  unfolding enough_for take_event
  enough_on d msg bytes t =
      let came =
        c.sctp_handle msg.now msg.transport.peer_addr (some msg.transport.local_addr.ip)
          msg.transport.ecn bytes t.sctp_endpoint in
      let taken = take_event c came.0 t.sctp_associations in enough_for c d taken.1 taken.0

  read_step-Returns :
      (d : Drains c) (fuel size : ℕ) (msg : TaggedMessageEvent c) (bytes : List ℕ) (t : Transport c)
      → enough_on d msg bytes t ≤ fuel
      → (x : Result (List SctpMessage) × Transport c) × (read_step c fuel size msg.now msg.transport
            bytes t
          ≡ some x)
  unfolding read_step enough_on
  read_step-Returns d fuel size msg bytes t h =
      let came =
        c.sctp_handle msg.now msg.transport.peer_addr (some msg.transport.local_addr.ip)
          msg.transport.ecn bytes t.sctp_endpoint in
      let taken = take_event c came.0 t.sctp_associations in
      let (x, e) = read_associations-Returns c d fuel size msg.now taken.1 taken.0 h in
      elim (Option-cases (read_step c fuel size msg.now msg.transport bytes t)) [
        | inr found ↦ found
        | inl k ↦ absurd (let k' = rw (read_step, e) at k in ground arith)
      ]

  -- Where the associations drain and the fuel is that of the transport of a decrypted datagram, the
  -- handler returns: what it reads from the associations of the transport is passed on and queued, or its
  -- error is fired; and the transport alone is another one, as the read has left it.
  pub handle_read-Delivers :
      (d : Drains c) (fuel : ℕ) (msg : TaggedMessageEvent c) (bytes : List ℕ) (h : SctpHandler c)
      (sid : SessionId) (eid : EndpointId) (t : Transport c)
      → msg.message ≡ dtls (DtlsMessageEvent.raw bytes)
      → Leads (four_tuple msg.transport) h.states sid eid t
      → enough_on d msg bytes t ≤ fuel
      → (fired : Fired c) × (h' : SctpHandler c) × (handle_read fuel msg h ≡ some (fired, h'))
        × ((r : Result (List SctpMessage)) × (t' : Transport c) × (read_step c fuel
                (length h.internal_buffer)
                msg.now
                msg.transport
                bytes
                t
              ≡ some (r, t'))
            × Delivers msg h r fired h'.transmits
            × (h'.states ≡ update_transport sid eid (four_tuple msg.transport) (λ _. t') h.states))
  unfolding handle_read Delivers
  handle_read-Delivers d fuel msg bytes h sid eid t e l enough =
      let ((y, u), r) = read_step-Returns d fuel (length h.internal_buffer) msg bytes t enough in
      let read : SctpHandler c = record h {
        states = update_transport sid eid (four_tuple msg.transport) (λ _. u) h.states;
      } in
      (
        (deliver msg y read).0,
        (deliver msg y read).1,
        rw
            (
              handle_read,
              e,
              get_transport_of_Leads (four_tuple msg.transport) h.states sid eid t l,
              r,
            )
            refl,
        (y, u, r, same y u, deliver_states msg y read),
      )
    where
      same :
          (y : Result (List SctpMessage)) (u : Transport c)
          → Delivers msg h y
              (deliver msg y (record h {
                states = update_transport sid eid (four_tuple msg.transport) (λ _. u) h.states;
              })).0
              (deliver msg y (record h {
                states = update_transport sid eid (four_tuple msg.transport) (λ _. u) h.states;
              })).1.transmits
      same (ok messages) u = deliver-Delivers msg (ok messages) (record h {
        states = update_transport sid eid (four_tuple msg.transport) (λ _. u) h.states;
      })
      same (err x) u = deliver-Delivers msg (err x) (record h {
        states = update_transport sid eid (four_tuple msg.transport) (λ _. u) h.states;
      })
