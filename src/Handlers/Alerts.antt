-- ===== src/Handlers/Alerts.antt =====
-- The end of a DTLS connection in src/handlers/dtls.rs.
use sfu.Prelude.{ℕ, ◌≡◌, refl, List}
use sfu.Prelude.Results.{Error, err, alert_fatal_or_close}
use sfu.Crates.{Crates}
use sfu.Types.{SessionId, EndpointId, four_tuple}
use sfu.Messages.{TaggedMessageEvent, dtls, DtlsMessageEvent}
use sfu.Endpoint.{Transport}
use sfu.States.{get_transport}
use sfu.States.Routes.{Leads, get_transport_of_Leads}
use sfu.States.Removal.{remove_transport_gone}
use sfu.Handlers.Stun.{fire_nothing}
use sfu.Handlers.Srtp.{on_transport}
use sfu.Handlers.Dtls.{DtlsHandler, handle_read, read_step, is_alert}
use sfu.Prelude.{some}

module _ {c : Crates} where
  -- The DTLS endpoint of the transport answers the datagram with a fatal alert.
  unfoldable pub Alerted : TaggedMessageEvent c → List ℕ → Transport c → Type 0
  Alerted msg bytes t =
      (c.dtls_read msg.now msg.transport.peer_addr (some msg.transport.local_addr.ip)
        msg.transport.ecn bytes t.dtls_endpoint).0
      ≡ err alert_fatal_or_close

  read_step-Alerted :
      (h : DtlsHandler c) (msg : TaggedMessageEvent c) (bytes : List ℕ) (t : Transport c)
      → Alerted msg bytes t
      → (read_step h.local_addr msg.now msg.transport bytes t).0 ≡ err alert_fatal_or_close
  unfolding Alerted read_step
  read_step-Alerted h msg bytes t a = rw (read_step, a) refl

  on_transport_at :
      (h : DtlsHandler c) (msg : TaggedMessageEvent c) (bytes : List ℕ) (sid : SessionId)
      (eid : EndpointId) (t : Transport c)
      → Leads (four_tuple msg.transport) h.states sid eid t
      → Alerted msg bytes t
      → (on_transport
          (four_tuple msg.transport)
          (read_step h.local_addr msg.now msg.transport bytes)
          h.states).0
        ≡ err alert_fatal_or_close
  unfolding on_transport
  on_transport_at h msg bytes sid eid t l a =
      rw (on_transport, get_transport_of_Leads (four_tuple msg.transport) h.states sid eid t l)
        (read_step-Alerted h msg bytes t a)

  -- A datagram that the DTLS endpoint of its transport answers with a fatal alert, or with the close
  -- of the connection, ends the transport: no look-up of its addresses finds one, nothing is passed
  -- on, no exception is fired, and what waits to be sent is as before.
  pub handle_read_alert :
      (msg : TaggedMessageEvent c) (bytes : List ℕ) (h : DtlsHandler c) (sid : SessionId)
      (eid : EndpointId) (t : Transport c)
      → msg.message ≡ dtls (DtlsMessageEvent.raw bytes)
      → Leads (four_tuple msg.transport) h.states sid eid t
      → Alerted msg bytes t
      → ((e : Error) × (get_transport (four_tuple msg.transport) (handle_read msg h).1.states
            ≡ err e))
        × ((handle_read msg h).0 ≡ fire_nothing c)
        × ((handle_read msg h).1.transmits ≡ h.transmits)
  unfolding handle_read is_alert
  handle_read_alert msg bytes h sid eid t e l a =
      let k = on_transport_at h msg bytes sid eid t l a in
      let (x, gone) =
        remove_transport_gone (four_tuple msg.transport)
          (on_transport (four_tuple msg.transport)
            (read_step h.local_addr msg.now msg.transport bytes) h.states).1 in
      ((x, rw (handle_read, e, k) gone), rw (handle_read, e, k) refl, rw (handle_read, e, k) refl)
