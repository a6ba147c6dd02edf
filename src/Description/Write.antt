-- ===== src/Description/Write.antt =====
-- src/description/mod.rs: the media sections of an offer or an answer.
use sfu.Prelude.{
  ℕ, Bool, true, false, not, Option, none, some, List, [], ◌∷◌, ◌++◌, map, if◌then◌else◌, ◌==◌,
  nat_eq, list_eq, Text, codes, is_empty, any, decimal, ◌||◌, flat_map,
}
use sfu.Prelude.HashMap.{HashMap, get, keys}
use sfu.Prelude.Results.{Result, ok, err, other, ◌>>=◌}
use sfu.Prelude.Strings.{join, trim_start_matches}
use sfu.Crates.{Crates}
use sfu.Types.{Mid, SocketAddr}
use sfu.Direction
use sfu.Direction.{Direction, direction_eq, reverse, intersect}
use sfu.Sdp.{Attribute, MediaDescription, ParsedDescription, ConnectionRole}
use sfu.Codec
use sfu.Codec.{
  Transceiver, CodecParameters, HeaderExtensionParameters, RtcpFeedback, SsrcGroup, RtpSender,
}
use sfu.Media.{get_codecs_by_kind, get_rtp_parameters_by_kind}
use sfu.Certificate.{DtlsFingerprint}
use sfu.Config.{SessionConfig}
use sfu.Endpoint.Credentials.{IceParameters}
use sfu.Description.Read.{media_section_application}

-- RTCIceGatheringState
pub data IceGatheringState : Type 0 where
  unspecified new gathering complete : IceGatheringState

abbrev is_complete : IceGatheringState → Bool
is_complete complete = true
is_complete state = false

pub record MediaSection : Type 0 where
  pub mid : Mid
  pub is_data : Bool
  pub rid_map : HashMap Text Text
  pub offered_direction : Option Direction

-- The direction of a section: an answer meets what was offered, an offer states the transceiver's.
unfoldable pub section_direction : Option Direction → Direction → Direction
unfolding reverse intersect
section_direction none transceiver = transceiver
section_direction (some Direction.sendonly) transceiver =
    intersect (reverse Direction.sendonly) transceiver
section_direction (some Direction.recvonly) transceiver =
    intersect (reverse Direction.recvonly) transceiver
section_direction (some Direction.sendrecv) transceiver = transceiver
section_direction (some Direction.unspecified) transceiver = transceiver
section_direction (some Direction.inactive) transceiver = Direction.inactive

module _ (c : Crates) where
  append_candidate_if_new : SocketAddr → ℕ → MediaDescription → MediaDescription
  append_candidate_if_new addr component m =
      if any has_it m.attributes then m else c.with_value_attribute (codes "candidate") marshaled m
    where
      marshaled : Text
      marshaled = join (codes " ") (
          codes "1"
          ∷ decimal component
          ∷ codes "UDP"
          ∷ codes "1"
          ∷ c.ip_to_string addr.ip
          ∷ decimal addr.port
          ∷ codes "typ"
          ∷ codes "host"
          ∷ [])

      has_it : Attribute → Bool
      has_it a = elim a.value [ none ↦ false | some value ↦ marshaled == value ]

  -- The function never fails.
  unfoldable pub add_candidate_to_media_descriptions :
      SocketAddr → MediaDescription → IceGatheringState → MediaDescription
  unfolding append_candidate_if_new
  add_candidate_to_media_descriptions candidate m state =
      let m' = append_candidate_if_new candidate 1 m in
      if not (is_complete state) || any (λ a. a.key == codes "end-of-candidates") m'.attributes
      then m'
      else c.with_property_attribute (codes "end-of-candidates") m'

  with_fingerprints : List DtlsFingerprint → MediaDescription → MediaDescription
  with_fingerprints [] m = m
  with_fingerprints (f ∷ fs) m =
      with_fingerprints fs (c.with_fingerprint f.algorithm (c.to_uppercase f.value) m)

  with_candidates : Bool → SessionConfig c → MediaDescription → MediaDescription
  unfolding add_candidate_to_media_descriptions
  with_candidates should_add config m =
      if should_add then add_candidate_to_media_descriptions config.local_addr m complete else m

  -- The ice gathering state is complete at both calls.
  unfoldable pub add_data_media_section :
      List DtlsFingerprint
      → SessionConfig c
      → Bool
      → Mid
      → IceParameters
      → ConnectionRole
      → ParsedDescription
      → ParsedDescription
  unfolding with_fingerprints with_candidates
  add_data_media_section fingerprints config should_add_candidates mid ice_params role d =
      c.with_media
        (with_candidates should_add_candidates config (with_fingerprints fingerprints base)) d
    where
      sctp : c.SctpServerConfig
      sctp = config.server_config.sctp_server_config

      blank : MediaDescription
      blank = record {
        media_name = record {
          media = media_section_application;
          port = 9;
          protos = codes "UDP" ∷ codes "DTLS" ∷ codes "SCTP" ∷ [];
          formats = codes "webrtc-datachannel" ∷ [];
        };
        attributes = [];
      }

      base : MediaDescription
      base = c.with_ice_credentials ice_params.username_fragment ice_params.password (
          c.with_value_attribute (codes "max-message-size") (decimal (c.max_message_size sctp)) (
            c.with_value_attribute (codes "sctp-port") (decimal (c.sctp_port sctp)) (
              c.with_property_attribute (Direction.to_string Direction.sendrecv) (
                c.with_value_attribute c.attr_key_mid mid (
                  c.with_value_attribute c.attr_key_connection_setup (c.role_to_string role)
                    blank)))))

  with_feedbacks : ℕ → List RtcpFeedback → MediaDescription → MediaDescription
  with_feedbacks payload_type [] m = m
  with_feedbacks payload_type (f ∷ fs) m = with_feedbacks payload_type fs (
      c.with_value_attribute (codes "rtcp-fb")
        (join (codes " ") (decimal payload_type ∷ f.typ ∷ f.parameter ∷ [])) m)

  with_codecs : List CodecParameters → MediaDescription → MediaDescription
  unfolding with_feedbacks
  with_codecs [] m = m
  with_codecs (codec ∷ codecs) m = with_codecs codecs (
      with_feedbacks codec.payload_type codec.capability.rtcp_feedbacks (
        c.with_codec codec.payload_type name codec.capability.clock_rate codec.capability.channels
          codec.capability.sdp_fmtp_line m))
    where
      name : Text
      name =
          trim_start_matches (codes "video/")
            (trim_start_matches (codes "audio/") codec.capability.mime_type)

  with_extensions : List HeaderExtensionParameters → MediaDescription → Result MediaDescription
  with_extensions [] m = ok m
  with_extensions (e ∷ es) m = c.url_parse e.uri >>= λ url.
      with_extensions es (c.with_extmap (record { value = e.id; uri = some url }) m)

  with_rids : List Text → MediaDescription → MediaDescription
  with_rids [] m = m
  with_rids (rid ∷ rids) m =
      with_rids rids (c.with_value_attribute (codes "rid") (rid ++ codes " recv") m)

  with_simulcast : HashMap Text Text → MediaDescription → MediaDescription
  unfolding with_rids
  with_simulcast rid_map m =
      if is_empty rid_map
      then m
      else c.with_value_attribute (codes "simulcast")
          (codes "recv " ++ join (codes ";") (keys rid_map)) (with_rids (keys rid_map) m)

  with_ssrc_groups : List SsrcGroup → MediaDescription → MediaDescription
  with_ssrc_groups [] m = m
  with_ssrc_groups (g ∷ gs) m = with_ssrc_groups gs (
      c.with_property_attribute
        (codes "ssrc-group:" ++ (g.name ++ (codes " " ++ join (codes " ") (map decimal g.ssrcs))))
        m)

  with_ssrcs : RtpSender → List ℕ → MediaDescription → MediaDescription
  with_ssrcs sender [] m = m
  with_ssrcs sender (ssrc ∷ ssrcs) m =
      with_ssrcs sender ssrcs
        (c.with_media_source ssrc sender.cname sender.msid.stream_id sender.msid.track_id m)

  -- A section that only sends names its stream.
  with_sender : Direction → Option RtpSender → MediaDescription → Result MediaDescription
  unfolding with_ssrc_groups with_ssrcs
  with_sender Direction.sendonly none m =
      err (other (codes "Sendonly transceiver doesn't have sender set"))
  with_sender Direction.sendonly (some sender) m = ok (
      with_ssrcs sender sender.ssrcs (
        with_ssrc_groups sender.ssrc_groups (
          c.with_property_attribute
            (codes "msid:" ++ (sender.msid.stream_id ++ (codes " " ++ sender.msid.track_id))) m)))
  with_sender direction sender m = ok m

  -- The source returns `true` beside the description on every success.
  unfoldable pub add_transceiver_sdp :
      List DtlsFingerprint
      → IceParameters
      → SessionConfig c
      → MediaSection
      → Transceiver
      → Bool
      → ConnectionRole
      → ParsedDescription
      → Result ParsedDescription
  unfolding with_fingerprints with_candidates with_codecs with_extensions with_simulcast with_sender
      section_direction
  add_transceiver_sdp fingerprints ice_params config section transceiver should_add_candidates role
        d =
      do
        media ← with_extensions extensions (with_codecs codecs head)
        media ← with_sender direction transceiver.sender (
            c.with_property_attribute (Direction.to_string direction)
              (with_simulcast section.rid_map media))
        ok (c.with_media media d)
    where
      codecs : List CodecParameters
      codecs = get_codecs_by_kind config.server_config.media_config transceiver.kind

      extensions : List HeaderExtensionParameters
      extensions =
          (get_rtp_parameters_by_kind config.server_config.media_config transceiver.kind
            transceiver.direction).header_extensions

      direction : Direction
      direction = section_direction section.offered_direction transceiver.direction

      head : MediaDescription
      head = with_candidates should_add_candidates config (
          with_fingerprints fingerprints (
            c.with_property_attribute c.attr_key_rtcprsize (
              c.with_property_attribute c.attr_key_rtcpmux (
                c.with_ice_credentials ice_params.username_fragment ice_params.password (
                  c.with_value_attribute c.attr_key_mid section.mid (
                    c.with_value_attribute c.attr_key_connection_setup (c.role_to_string role)
                      (c.new_jsep_media_description (Codec.to_string transceiver.kind))))))))

  module _ (fingerprints : List DtlsFingerprint) (config : SessionConfig c)
      (ice_params : IceParameters) (role : ConnectionRole)
      (transceivers : HashMap Mid Transceiver) where
    -- One round of the loop of `populate_sdp`; `first` is `i == 0`.
    unfoldable pub add_section : Bool → MediaSection → ParsedDescription → Result ParsedDescription
    unfolding add_data_media_section add_transceiver_sdp
    add_section first m d = elim m.is_data [
      | true ↦ elim (get m.mid transceivers) [
        | some t ↦ err (other (codes "ErrSDPMediaSectionMediaDataChanInvalid"))
        | none ↦ ok (add_data_media_section fingerprints config first m.mid ice_params role d)
      ]
      | false ↦ elim (get m.mid transceivers) [
        | none ↦ err (other (codes "ErrSDPZeroTransceivers"))
        | some t ↦ add_transceiver_sdp fingerprints ice_params config m t first role d
      ]
    ]

    unfoldable pub add_sections :
        Bool → List MediaSection → ParsedDescription → Result ParsedDescription
    unfolding add_section
    add_sections first [] d = ok d
    add_sections first (m ∷ ms) d = add_section first m d >>= λ d'. add_sections false ms d'

  -- The value of the `group` attribute: every section is appended.
  abbrev pub bundle_value : List MediaSection → Text
  bundle_value ms = codes "BUNDLE" ++ flat_map (λ m. codes " " ++ m.mid) ms

  -- Called with `media_description_fingerprint = true` only.
  unfoldable pub populate_sdp :
      ParsedDescription
      → List DtlsFingerprint
      → SessionConfig c
      → IceParameters
      → ConnectionRole
      → List MediaSection
      → HashMap Mid Transceiver
      → Result ParsedDescription
  unfolding add_sections
  populate_sdp d fingerprints config ice_params role media_sections transceivers =
      add_sections fingerprints config ice_params role transceivers true media_sections d >>= λ d'.
      ok (
        c.session_with_value_attribute c.attr_key_group (bundle_value media_sections)
          (c.session_with_property_attribute c.attr_key_icelite d'))
