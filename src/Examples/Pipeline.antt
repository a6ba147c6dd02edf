-- ===== src/Examples/Pipeline.antt =====
-- The theorems on the handlers between the demultiplexer and the gateway, on the session of `Examples`.
use sfu.Prelude.{
  ℕ, ◌≡◌, ◌≢◌, ◌↔◌, ◌⊎◌, refl, ap, inl, false, none, some, List, [], ◌∷◌, In, arith, is_empty,
}
use sfu.Prelude.HashMap.{get}
use sfu.Prelude.Results.{Error, err}
use sfu.Crates.{PacketType}
use sfu.Types.{FourTuple, SessionId, EndpointId}
use sfu.Messages.{
  TaggedMessageEvent, MessageEvent, rtp, dtls, RtpMessageEvent, DtlsMessageEvent,
  DataChannelMessage, DataChannelMessageType,
}
use sfu.Endpoint.{Transport}
use sfu.States.{get_transport, get_endpoint}
use sfu.States.Routes.{Leads}
use sfu.Interceptor.{sender_report, no_op}
use sfu.Interceptor.Chain
use sfu.Interceptor.Chain.{is_hop_by_hop}
use sfu.Handlers.Stun.{fire_nothing}
use sfu.Handlers.Srtp
use sfu.Handlers.Dtls
use sfu.Handlers.Dtls.{DtlsHandler}
use sfu.Handlers.Alerts.{Alerted, handle_read_alert}
use sfu.Handlers.Secure.{Opened, Rejects, Encrypts, handle_read_decrypts, poll_write_never_plain}
use sfu.Handlers.Channels.{Opens, GoesOn, Dropped, Fails, handle_read_acknowledges}
use sfu.Handlers.Interceptors
use sfu.Handlers.Interceptors.{InterceptorHandler}
use sfu.Handlers.Reports.{handle_read_rtcp}
use sfu.Examples.{crates, context, tuple, transport, endpoint, session, states}

abbrev pub arrived : MessageEvent crates → TaggedMessageEvent crates
arrived m = record { now = 99; transport = context 20; message = m }

abbrev pub route_30 : Leads (tuple 30) states 1 8 (transport 30 8)
unfolding get
route_30 = record {
  session = session;
  endpoint = endpoint 30 8;
  routed = refl;
  in_sessions = refl;
  in_session = refl;
  in_endpoint = refl;
}

pub other : tuple 30 ≢ tuple 20
other e = ground (arith, ap (λ (x : FourTuple). x.peer_addr.ip) e)

abbrev datagram : TaggedMessageEvent crates
datagram = arrived (rtp (RtpMessageEvent.raw (128 ∷ [])))

handle_read_decrypts_example :
    Opened datagram (128 ∷ []) states ⊎ Rejects datagram (128 ∷ []) states
handle_read_decrypts_example = handle_read_decrypts datagram (128 ∷ []) states refl

abbrev outgoing : TaggedMessageEvent crates
outgoing = arrived (rtp (RtpMessageEvent.packet 5))

leaves :
    (Srtp.poll_write (some outgoing) states).0 ≡ some (arrived (rtp (RtpMessageEvent.raw (5 ∷ []))))
unfolding Srtp.poll_write get_transport get_endpoint get
leaves = refl

poll_write_never_plain_example :
    (bytes : List ℕ) × (arrived (rtp (RtpMessageEvent.raw (5 ∷ [])))
      ≡ arrived (rtp (RtpMessageEvent.raw bytes)))
    × ((sid : SessionId) × (eid : EndpointId) × (t : Transport crates) × Leads
          (tuple 20)
          states
          sid
          eid
          t
        × ((context : Unit {0}) × (t.local_srtp_context ≡ some context)
            × Encrypts crates context bytes))
poll_write_never_plain_example =
    poll_write_never_plain outgoing (arrived (rtp (RtpMessageEvent.raw (5 ∷ []))))
      (RtpMessageEvent.packet 5) states refl refl leaves

abbrev open_message : DataChannelMessage
open_message = record {
  association_handle = 4;
  stream_id = 2;
  data_message_type = DataChannelMessageType.control;
  params = none;
  payload = 3 ∷ [];
}

abbrev opening : TaggedMessageEvent crates
opening = arrived (dtls (DtlsMessageEvent.sctp open_message))

handle_read_acknowledges_example :
    Opens opening open_message (record { transmits = [] })
    ⊎ GoesOn opening open_message (record { transmits = [] })
    ⊎ Dropped opening open_message (record { transmits = [] })
    ⊎ Fails opening open_message (record { transmits = [] })
handle_read_acknowledges_example =
    handle_read_acknowledges opening open_message (record { transmits = [] }) refl

abbrev interceptor_handler : InterceptorHandler crates
interceptor_handler = record { states = states; transmits = [] }

-- Endpoint 7 with a chain that forwards.
abbrev reporting : InterceptorHandler crates
reporting = record {
  states = record states {
    sessions =
        (
          1,
          record session {
            endpoints =
                (7, record (endpoint 20 7) { interceptor = sender_report no_op })
                ∷ (8, endpoint 30 8)
                ∷ [];
          },
        )
        ∷ [];
  };
  transmits = [];
}

-- A receiver report, a feedback message and another packet.
abbrev reports : TaggedMessageEvent crates
reports = arrived (rtp (RtpMessageEvent.rtcp (0 ∷ 1 ∷ 5 ∷ [])))

abbrev passed : TaggedMessageEvent crates
passed = arrived (rtp (RtpMessageEvent.rtcp (5 ∷ [])))

passes_on : In passed (Interceptors.handle_read reports reporting).0.reads
unfolding Interceptors.handle_read Interceptors.read_media Interceptors.on_interceptor
    Interceptors.is_media Interceptors.is_rtcp Interceptors.inbounds Chain.read Chain.forwarded
    Chain.end_to_end is_hop_by_hop get_endpoint get
passes_on = inl refl

handle_read_rtcp_example :
    (qs : List ℕ) × (passed ≡ arrived (rtp (RtpMessageEvent.rtcp qs)))
    × (is_empty qs ≡ false)
    × ((p : ℕ) → In p qs ↔ (In p (0 ∷ 1 ∷ 5 ∷ []) × (crates.packet_type p ≡ PacketType.other)))
handle_read_rtcp_example = handle_read_rtcp reports passed (0 ∷ 1 ∷ 5 ∷ []) reporting refl passes_on

abbrev pub route_to_20 : Leads (tuple 20) states 1 7 (transport 20 7)
unfolding get
route_to_20 = record {
  session = session;
  endpoint = endpoint 20 7;
  routed = refl;
  in_sessions = refl;
  in_session = refl;
  in_endpoint = refl;
}

abbrev closing : TaggedMessageEvent crates
closing = arrived (dtls (DtlsMessageEvent.raw (21 ∷ [])))

abbrev dtls_handler : DtlsHandler crates
dtls_handler = record { local_addr = (tuple 20).local_addr; states = states; transmits = [] }

closing-Alerted : Alerted closing (21 ∷ []) (transport 20 7)
unfolding Alerted
closing-Alerted = refl

handle_read_alert_example :
    ((e : Error) × (get_transport (tuple 20) (Dtls.handle_read closing dtls_handler).1.states
        ≡ err e))
    × ((Dtls.handle_read closing dtls_handler).0 ≡ fire_nothing crates)
    × ((Dtls.handle_read closing dtls_handler).1.transmits ≡ [])
handle_read_alert_example =
    handle_read_alert closing (21 ∷ []) dtls_handler 1 7 (transport 20 7) refl route_to_20
      closing-Alerted
