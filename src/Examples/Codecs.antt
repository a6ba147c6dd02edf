-- ===== src/Examples/Codecs.antt =====
-- The theorems on format parameters, on the search for codecs and on negotiated header extensions.
use sfu.Prelude.{◌≡◌, refl, true, false, none, some, [], ◌∷◌, codes}
use sfu.Prelude.HashMap.{get}
use sfu.Prelude.Int.{pos, int_eq}
use sfu.Codec.{CodecParameters}
use sfu.Codec.Search.{Found, codec_parameters_fuzzy_search, codec_parameters_fuzzy_search-Found}
use sfu.Media.{MediaConfig, HeaderExtension}
use sfu.Media.Remote.{update_from_remote_description}
use sfu.Media.Assigned.{Assigned, update_from_remote_description-Assigned}
use sfu.Examples.{crates, media_config, parsed_offer}

abbrev opus : CodecParameters
opus = record {
  capability = record {
    mime_type = codes "audio/opus";
    clock_rate = 48000;
    channels = 2;
    sdp_fmtp_line = codes "minptime=10";
    rtcp_feedbacks = [];
  };
  payload_type = 111;
  stats_id = 0;
}

codec_parameters_fuzzy_search-Found_example :
    Found crates opus
      (opus ∷ [])
      (codec_parameters_fuzzy_search crates opus (opus ∷ [])).0
      (codec_parameters_fuzzy_search crates opus (opus ∷ [])).1
codec_parameters_fuzzy_search-Found_example =
    codec_parameters_fuzzy_search-Found crates opus (opus ∷ [])

abbrev level : HeaderExtension
level = record {
  uri = codes "urn:ietf:params:rtp-hdrext:ssrc-audio-level";
  is_audio = true;
  is_video = false;
  allowed_direction = none;
}

abbrev negotiated : MediaConfig
negotiated = record media_config { negotiated_header_extensions = (pos 3, level) ∷ [] }

level_at_3 : get (pos 3) negotiated.negotiated_header_extensions ≡ some level
unfolding get
level_at_3 = refl

update_from_remote_description-Assigned_example :
    Assigned (pos 3) level (update_from_remote_description crates parsed_offer negotiated).1
update_from_remote_description-Assigned_example =
    update_from_remote_description-Assigned crates parsed_offer (pos 3) level negotiated level_at_3
