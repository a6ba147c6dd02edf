-- ===== src/Examples/Negotiating.antt =====
-- The theorems on media negotiation and on the codecs and extensions.
use sfu.Prelude.{
  inl, inr, ap, sym, subst, ◌≢◌, ◌≡◌, refl, true, false, none, some, List, [], ◌∷◌, In, Text, codes,
  list_eq, nat_eq,
}
use sfu.Prelude.HashMap.{In-get, get}
use sfu.Prelude.Int.{pos, int_eq}
use sfu.Types.{Mid}
use sfu.Direction.{Direction}
use sfu.SdpType.{SdpType}
use sfu.Sdp.{SessionDescription, ParsedDescription}
use sfu.Codec.{CodecParameters, CodecType}
use sfu.Description.Read.{get_mid_value}
use sfu.Description.Write.{MediaSection, populate_sdp}
use sfu.Session.{Session, set_remote_description}
use sfu.Session.Negotiation.{AllSynced, set_remote_description-AllSynced}
use sfu.Certificate.{Certificate, get_fingerprints}
use sfu.Endpoint.{Endpoint}
use sfu.Endpoint.Credentials.{default_dtls_role_offer, to_connection_role}
use sfu.Prelude.Results.{Result, ok, err}
use sfu.Session.Describe.{
  media_sections, create_offer, generate_matched_sdp, mids_of, transceivers_of, described,
}
use sfu.Session.Offers.{covers, has_data}
use sfu.Session.Offered.{create_offer_complete}
use sfu.Media.{
  MediaConfig, HeaderExtension, free_id, is_matching_direction, get_rtp_parameters_by_kind,
}
use sfu.Media.Extensions.{new_extensions_share_id}
use sfu.States.Synced.{SessionsSynced}
use sfu.Examples.{crates, endpoint, ours, states, session, description, parsed_offer, media_config}

-- An audio section with the mid 0, which is only sent.
abbrev audio_offer : SessionDescription
audio_offer = record (description SdpType.offer) {
  parsed = some (record parsed_offer {
    media_descriptions =
        record {
          media_name = record { media = codes "audio"; port = 9; protos = []; formats = [] };
          attributes =
              record { key = codes "mid"; value = some (codes "0") }
              ∷ record { key = codes "sendonly"; value = none }
              ∷ [];
        }
        ∷ [];
  });
}

session-AllSynced : AllSynced session
unfolding get
session-AllSynced = (
  record { listed = λ mid. refl; distinct = tt },
  (record { listed = λ mid. refl; distinct = tt }, tt),
)

set_remote_description-AllSynced_example :
    AllSynced (set_remote_description 7 audio_offer session).1
set_remote_description-AllSynced_example =
    set_remote_description-AllSynced 7 audio_offer session session-AllSynced

-- Endpoint 7 with one mid, which has an audio transceiver.
abbrev with_audio : Endpoint crates
with_audio = record (endpoint 20 7) {
  mids = codes "0" ∷ [];
  transceivers =
      (
        codes "0",
        record {
          mid = codes "0";
          sender = none;
          direction = Direction.recvonly;
          current_direction = Direction.unspecified;
          rtp_params = record { header_extensions = []; codecs = [] };
          kind = CodecType.audio;
        },
      )
      ∷ [];
}

abbrev session_with_audio : Session crates
session_with_audio = record session { endpoints = (7, with_audio) ∷ [] }

-- The peer has described data channels, with the mid 1.
abbrev data_offer : SessionDescription
data_offer = record (description SdpType.offer) {
  parsed = some (record parsed_offer {
    media_descriptions =
        record {
          media_name = record { media = codes "application"; port = 9; protos = []; formats = [] };
          attributes = record { key = codes "mid"; value = some (codes "1") } ∷ [];
        }
        ∷ [];
  });
}

abbrev value_or : {A : Type 0} → A → Result A → A
value_or d (ok a) = a
value_or d (err e) = d

abbrev offered : SessionDescription
offered = value_or audio_offer (create_offer 7 data_offer ours session_with_audio)

create_offer_complete_example :
    (sections : List MediaSection) × (certificate : Certificate crates) × (d : ParsedDescription)
    × ((mid : Mid) → In mid (codes "0" ∷ []) → covers mid sections ≡ true)
    × (has_data sections ≡ true)
    × (populate_sdp crates
          (crates.new_jsep_session_description false)
          (get_fingerprints crates certificate)
          session.session_config
          ours
          (to_connection_role default_dtls_role_offer)
          sections
          with_audio.transceivers
        ≡ ok d)
    × (offered ≡ described session_with_audio SdpType.offer d)
unfolding create_offer generate_matched_sdp media_sections populate_sdp get mids_of transceivers_of
    get_mid_value get_rtp_parameters_by_kind
create_offer_complete_example =
    create_offer_complete 7 with_audio data_offer ours session_with_audio offered refl refl

abbrev opus : CodecParameters
opus = record {
  capability = record {
    mime_type = codes "audio/opus";
    clock_rate = 48000;
    channels = 2;
    sdp_fmtp_line = [];
    rtcp_feedbacks = [];
  };
  payload_type = 111;
  stats_id = 0;
}

abbrev extension : Text → HeaderExtension
extension uri = record { uri = uri; is_audio = true; is_video = false; allowed_direction = none }

-- The identifiers 1 is negotiated and 2 proposed.
abbrev config : MediaConfig
config = record media_config {
  negotiated_header_extensions = (pos 1, extension (codes "a")) ∷ [];
  proposed_header_extensions = (pos 2, extension (codes "b")) ∷ [];
  header_extensions = extension (codes "c") ∷ extension (codes "d") ∷ [];
}

new_extensions_share_id_example :
    In
      (record { uri = codes "c"; id = pos 3 })
      (get_rtp_parameters_by_kind config CodecType.audio Direction.sendrecv).header_extensions
    × In
        (record { uri = codes "d"; id = pos 3 })
        (get_rtp_parameters_by_kind config CodecType.audio Direction.sendrecv).header_extensions
unfolding free_id is_matching_direction
new_extensions_share_id_example =
    new_extensions_share_id config CodecType.audio Direction.sendrecv (extension (codes "c"))
      (extension (codes "d")) (pos 3) refl (inl refl) (inr (inl refl)) refl refl refl refl refl refl
      refl

specified : Direction.sendonly ≢ Direction.unspecified
specified e = cc

pub states-SessionsSynced : SessionsSynced states
states-SessionsSynced i x k = elim (In-get i x states.sessions k) [
  | inl e ↦ subst AllSynced (sym (ap (λ p. p.1) e)) session-AllSynced
  | inr j ↦ elim j [ ]
]
