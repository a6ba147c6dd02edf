-- ===== src/Examples/Journey.antt =====
-- The theorems on the whole pipeline and on what a server starts with.
use sfu.Prelude.{none, ◌≡◌, ◌↔◌, refl, some, List, [], ◌∷◌, ◌++◌, In, arith, codes}
use sfu.Prelude.Results.{ok, err, other}
use sfu.Types.{TransportContext}
use sfu.Messages.{TaggedBytesMut, TaggedMessageEvent, rtp, RtpMessageEvent}
use sfu.Certificate.{Certificate, from_pem, serialize_pem, to_le_bytes}
use sfu.Certificate.Pem.{from_pem-serialize_pem, one_block}
use sfu.Description.Fingerprint.{
  extract_fingerprint, extract_fingerprint_lem, fingerprints, all_equal, parse_fingerprint,
}
use sfu.Prelude.Strings.{split}
use sfu.Media.{MediaConfig}
use sfu.Media.Codecs.{AllDifferent}
use sfu.Media.Defaults.{register_default_codecs, default_audio_codecs, default_video_codecs}
use sfu.Media.Registered.{Registered, Within, register_default_codecs-Registered}
use sfu.States.{ServerStates}
use sfu.States.Routes.{Leads}
use sfu.Endpoint.{keep_alive}
use sfu.Gateway.Forward.{IsPeer}
use sfu.Handlers.Srtp.{decrypted, unmarshal, encrypted}
use sfu.Pipeline.{Pipeline, read}
use sfu.Pipeline.Media.{media_reaches_peers}
use sfu.Pipeline.Out.{poll_transmit}
use sfu.Pipeline.Writes.{waiting}
use sfu.Pipeline.Sent.{queued_media_leaves_encrypted, refused_media_hides_queue}
use sfu.Examples.{crates, context, tuple, transport, states, media_config, ours, parsed_offer}
use sfu.Examples.Pipeline.{route_to_20}

abbrev pipeline : Pipeline crates
pipeline = record {
  local_addr = (tuple 20).local_addr;
  states = states;
  dtls_transmits = [];
  internal_buffer = [];
  sctp_transmits = [];
  channel_transmits = [];
  interceptor_transmits = [];
  gateway_transmits = [];
  next_timeout = 90;
  idle_timeout = 30;
}

abbrev datagram : TaggedBytesMut
datagram = record { now = 99; transport = context 20; message = 128 ∷ [] }

decrypts : decrypted (128 ∷ []) (transport 20 7) ≡ (ok (RtpMessageEvent.packet 1), transport 20 7)
unfolding decrypted unmarshal
decrypts = refl

media_reaches_peers_example :
    (messages : List (TaggedMessageEvent crates)) × (after : ServerStates crates) × (read 0 ours 100
        datagram pipeline
      ≡ some ([], record pipeline { states = after; gateway_transmits = messages }))
    × ((m : TaggedMessageEvent crates)
        → In m messages ↔ (
            (to : TransportContext) × IsPeer (context 20) 7 route_to_20.session to
            × (m ≡ record { now = 99; transport = to; message = rtp (RtpMessageEvent.packet 1) })))
    × Leads (tuple 20) after 1 7 (keep_alive 100 (transport 20 7))
media_reaches_peers_example =
    media_reaches_peers 0 ours 100 datagram 128 [] 1 pipeline 1 7 (transport 20 7) (transport 20 7)
      route_to_20 refl (omega arith) (omega arith) decrypts

register_default_codecs-Registered_example :
    (self' : MediaConfig) × (register_default_codecs media_config ≡ ok self')
    × AllDifferent self'.audio_codecs
    × AllDifferent self'.video_codecs
    × Within media_config.audio_codecs self'.audio_codecs
    × Within media_config.video_codecs self'.video_codecs
    × Registered default_audio_codecs media_config.audio_codecs self'.audio_codecs
    × Registered default_video_codecs media_config.video_codecs self'.video_codecs
    × (register_default_codecs self' ≡ ok self')
register_default_codecs-Registered_example = register_default_codecs-Registered media_config tt tt

abbrev certificate : Certificate crates
certificate = record {
  dtls_certificate = record { certificate = (7 ∷ []) ∷ []; private_key = tt };
  expires = 2_000_000_500;
}

from_pem-serialize_pem_example :
    from_pem crates (serialize_pem crates certificate)
    ≡ some (ok (record certificate { expires = 2_000_000_000 }))
unfolding to_le_bytes one_block
from_pem-serialize_pem_example =
    from_pem-serialize_pem crates certificate (2 ∷ 0 ∷ 0 ∷ 0 ∷ 0 ∷ 0 ∷ 0 ∷ 0 ∷ []) 2_000_000_000
      (omega arith) refl refl refl refl refl

extracted : extract_fingerprint crates parsed_offer ≡ ok (codes "0A", codes "sha-256")
unfolding extract_fingerprint fingerprints all_equal parse_fingerprint split
extracted = refl

extract_fingerprint_lem_example :
    In (codes "sha-256 0A") (fingerprints crates parsed_offer)
    ↔ (codes "sha-256 0A" ≡ codes "sha-256" ++ (32 ∷ codes "0A"))
extract_fingerprint_lem_example =
    extract_fingerprint_lem crates parsed_offer (codes "0A") (codes "sha-256") (codes "sha-256 0A")
      extracted

encrypts : encrypted (RtpMessageEvent.packet 1) (transport 20 7) ≡ (ok (1 ∷ []), transport 20 7)
unfolding encrypted
encrypts = refl

abbrev to_send : TaggedMessageEvent crates
to_send = record { now = 99; transport = context 20; message = rtp (RtpMessageEvent.packet 1) }

queued_media_leaves_encrypted_example :
    (after : ServerStates crates) × (poll_transmit (waiting (to_send ∷ to_send ∷ []) pipeline) ≡ (
      some (record { now = 99; transport = context 20; message = 1 ∷ [] }),
      [],
      waiting (to_send ∷ []) (record pipeline { states = after }),
    ))
    × Leads (tuple 20) after 1 7 (transport 20 7)
queued_media_leaves_encrypted_example =
    queued_media_leaves_encrypted 99 (context 20) 1 (to_send ∷ []) pipeline 1 7 (transport 20 7)
      (transport 20 7) route_to_20 (1 ∷ []) encrypts

abbrev broken : TaggedMessageEvent crates
broken = record { now = 99; transport = context 20; message = rtp (RtpMessageEvent.packet 0) }

refuses :
    encrypted (RtpMessageEvent.packet 0) (transport 20 7)
    ≡ (err (other (codes "no packet")), transport 20 7)
unfolding encrypted
refuses = refl

refused_media_hides_queue_example :
    (after : ServerStates crates) × (poll_transmit (waiting (broken ∷ to_send ∷ []) pipeline) ≡ (
      none,
      other (codes "no packet") ∷ [],
      waiting (to_send ∷ []) (record pipeline { states = after }),
    ))
    × Leads (tuple 20) after 1 7 (transport 20 7)
refused_media_hides_queue_example =
    refused_media_hides_queue 99 (context 20) 0 (to_send ∷ []) pipeline 1 7 (transport 20 7)
      (transport 20 7) route_to_20 (other (codes "no packet")) refuses
