-- ===== src/Lib.antt =====
-- A model of a selective forwarding unit for WebRTC: a server that joins browsers to sessions, answers
-- their offers, and forwards the media of each to the others.
--
-- The program is a pipeline of handlers on one socket. A datagram goes up through the demultiplexer
-- (src/handlers/demuxer.rs) and the handlers of STUN, DTLS, SCTP, data channels, SRTP and interceptors to
-- the gateway (src/handlers/gateway.rs), which holds the state of the server (src/server/states.rs); what
-- the gateway queues goes down the same way. The state has sessions (src/session/mod.rs), a session has
-- endpoints (src/endpoint/mod.rs), and an endpoint has transports (src/endpoint/transport.rs) and
-- transceivers. An offer leaves a candidate (src/endpoint/candidate.rs) under a user name; a STUN binding
-- request with that name opens a transport and routes a pair of addresses to it; from then on offers and
-- answers are exchanged on its data channel, media are forwarded, and a sweep removes it when it is idle.
--
-- Files, and the code that they are about:
--   Types, Messages       src/types.rs and src/messages.rs
--   Direction, SdpType    src/description/rtp_transceiver_direction.rs and sdp_type.rs
--   Codec                 src/description/rtp_codec.rs and rtp_transceiver.rs; Fmtp is src/description/fmtp,
--                         and Search the search for a codec by its parameters
--   Sdp, Description      src/description/mod.rs: Read takes media sections apart, Write makes them
--                         (`populate_sdp`, `add_transceiver_sdp`, `add_data_media_section`)
--   Media                 src/configs/media_config.rs; Remote is the negotiation with a description
--   Interceptor           src/interceptors: the registry and the chain that it builds; Stream is
--                         report/receiver_stream.rs, and Chain the reading and the time-outs
--   Certificate           src/server/certificate.rs: fingerprints and PEM
--   Config                src/configs/server_config.rs and session_config.rs
--   Endpoint              src/endpoint: Credentials is candidate.rs
--   Session               src/session/mod.rs: `set_remote_description`, `set_local_description` and
--                         `add_endpoint`; Describe has `create_offer`, `create_answer` and
--                         `generate_matched_sdp`
--   States                src/server/states.rs, method by method
--   Gateway               src/handlers/gateway.rs: Peers finds who gets a message, Channel negotiates on
--                         data channels, Binding answers STUN
--   Demuxer               src/handlers/demuxer.rs
--   Handlers              the other handlers: Stun is src/handlers/stun.rs with exception.rs; Dtls,
--                         Sctp, DataChannel, Srtp and Interceptors are dtls.rs, sctp.rs, datachannel.rs,
--                         srtp.rs and interceptor.rs
--   Pipeline              the order of the handlers, from examples/sync_signal/mod.rs, over the states that they
--                         share; Out is the way out
--   Signaling             the web server and the messages between it and the media servers, from
--                         examples/async_signal/mod.rs, with web_request of examples/sync_signal/mod.rs;
--                         Ports is the choice of the media server, Routing and Web the requests
--   Crates                the crates that the program calls, as one record of types and functions that
--                         every definition which uses one takes as an argument; nothing is assumed of them
--   Prelude               maps, results, actions and texts that the others share
--   Examples              one server on which the theorems are applied
--
-- A method on `&mut self` is a function from the state to a result and the state that it leaves, also
-- where it fails. A map is an association list and its iteration follows the list; texts are lists of
-- code points; an address is a number; instants and durations are natural numbers; `Instant::now()` and
-- random bytes are arguments. The crates' part of a transport (DTLS, SCTP, SRTP) is opaque.
--
-- A handler gives what it fires and the state that it leaves; `Pipeline` hands what a handler fires to the
-- handler after it, as the crate retty does, and asks it for what to write; the time-outs are not composed.
-- Floating point numbers are a parameter.
--
-- Four functions run on fuel: `scan_lost` counts lost packets with a round for every u16, which its loop
-- needs at most; `decimal` prints n with n + 1 steps, each of which divides by ten; `trim_start_matches`
-- has the length of the text as steps, each of which takes a prefix away; and the polls of the SCTP
-- associations, where the fuel that is enough is computed from what the associations hold.
--
-- Not modelled: metrics and logging; the payloaders of the crate rtp; the making of keys and certificates
-- (from_params and from_key_pair of certificate.rs); the time-outs of the pipeline as a whole; the sockets, the
-- tasks and the run loop of the programs of the examples; the tests.
pub mod Prelude
pub mod Types
pub mod Direction
pub mod SdpType
pub mod Codec
pub mod Sdp
pub mod Crates
pub mod Messages
pub mod Demuxer
pub mod Description
pub mod Media
pub mod Interceptor
pub mod Certificate
pub mod Config
pub mod Endpoint
pub mod Session
pub mod States
pub mod Gateway
pub mod Handlers
pub mod Pipeline
pub mod Signaling
pub mod Examples
