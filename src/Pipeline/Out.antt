-- ===== src/Pipeline/Out.antt =====
-- The way out of the pipeline of examples/sync_signal/mod.rs: each handler asks the one after it for what it
-- has to write, as the crate retty has it, and the first one gives a datagram to `write_socket_output`.
use sfu.Prelude.{Option, none, List, [], ◌∷◌, ◌++◌}
use sfu.Prelude.Results.{Error}
use sfu.Crates.{Crates}
use sfu.Messages.{TaggedBytesMut, TaggedMessageEvent}
use sfu.Demuxer
use sfu.Gateway
use sfu.Handlers.Stun
use sfu.Handlers.Dtls
use sfu.Handlers.Sctp
use sfu.Handlers.DataChannel
use sfu.Handlers.Srtp
use sfu.Handlers.Interceptors
use sfu.Pipeline.{Pipeline}

-- `poll_write` of a handler, on what the handler after it gives: what is written, and the exceptions.
abbrev pub Writer : Crates → Type 0
Writer c =
    Option (TaggedMessageEvent c)
    → Pipeline c
    → Option (TaggedMessageEvent c) × List Error × Pipeline c

module _ {c : Crates} where
  unfoldable pub stun_writer : Writer c
  unfolding Stun.poll_write
  stun_writer upstream p = (Stun.poll_write upstream, [], p)

  unfoldable pub dtls_writer : Writer c
  unfolding Dtls.poll_write
  dtls_writer upstream p =
      let (front, es, h) =
        Dtls.poll_write upstream
          (record { local_addr = p.local_addr; states = p.states; transmits = p.dtls_transmits }) in
      (front, es, record p { states = h.states; dtls_transmits = h.transmits })

  unfoldable pub sctp_writer : Writer c
  unfolding Sctp.poll_write
  sctp_writer upstream p =
      let (front, es, h) = Sctp.poll_write upstream (record {
        local_addr = p.local_addr;
        states = p.states;
        internal_buffer = p.internal_buffer;
        transmits = p.sctp_transmits;
      }) in
      (front, es, record p { states = h.states; sctp_transmits = h.transmits })

  unfoldable pub data_channel_writer : Writer c
  unfolding DataChannel.poll_write
  data_channel_writer upstream p =
      let (front, h) =
        DataChannel.poll_write upstream (record { transmits = p.channel_transmits }) in
      (front, [], record p { channel_transmits = h.transmits })

  unfoldable pub srtp_writer : Writer c
  unfolding Srtp.poll_write
  srtp_writer upstream p =
      let (front, es, states) = Srtp.poll_write upstream p.states in
      (front, es, record p { states = states })

  unfoldable pub interceptor_writer : Writer c
  unfolding Interceptors.poll_write
  interceptor_writer upstream p =
      let (front, es, h) =
        Interceptors.poll_write upstream
          (record { states = p.states; transmits = p.interceptor_transmits }) in
      (front, es, record p { states = h.states; interceptor_transmits = h.transmits })

  unfoldable pub gateway_writer : Writer c
  unfolding Gateway.poll_write
  gateway_writer upstream p =
      let (front, g) = Gateway.poll_write upstream (record {
        states = p.states;
        transmits = p.gateway_transmits;
        next_timeout = p.next_timeout;
        idle_timeout = p.idle_timeout;
      }) in
      (front, [], record p { states = g.states; gateway_transmits = g.transmits })

  -- The handlers behind the demultiplexer, in the order of `build_pipeline`.
  unfoldable pub writers : List (Writer c)
  unfolding stun_writer dtls_writer sctp_writer data_channel_writer srtp_writer interceptor_writer
      gateway_writer
  writers =
      stun_writer ∷ dtls_writer ∷ sctp_writer ∷ data_channel_writer ∷ srtp_writer
      ∷ interceptor_writer ∷ gateway_writer ∷ []

  -- Behind the last of them is the handler of exceptions, which has nothing to write.
  unfoldable pub poll_through :
      List (Writer c) → Pipeline c → Option (TaggedMessageEvent c) × List Error × Pipeline c
  unfolding Stun.exception_poll_write
  poll_through [] p = (Stun.exception_poll_write none, [], p)
  poll_through (writer ∷ ws) p =
      let (upstream, es, q) = poll_through ws p in
      let (front, fs, r) = writer upstream q in (front, es ++ fs, r)

  -- A datagram that goes out.
  unfoldable pub poll_transmit : Pipeline c → Option TaggedBytesMut × List Error × Pipeline c
  unfolding writers poll_through Demuxer.poll_write
  poll_transmit p = let (front, es, q) = poll_through writers p in (Demuxer.poll_write front, es, q)
