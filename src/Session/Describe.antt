-- ===== src/Session/Describe.antt =====
-- src/session/mod.rs: `create_offer`, `create_answer` and `generate_matched_sdp`.
use sfu.Prelude.{
  Bool, true, false, ◌||◌, Option, none, some, List, [], ◌∷◌, ◌++◌, if◌then◌else◌, ◌==◌, nat_eq,
  list_eq, codes, decimal, any, head?, length,
}
use sfu.Prelude.HashMap.{HashMap, get, contains_key}
use sfu.Prelude.Results.{Result, ok, err, other, ◌>>=◌, ok_or}
use sfu.Crates.{Crates}
use sfu.Types.{EndpointId, Mid}
use sfu.Direction.{Direction, direction_eq}
use sfu.SdpType.{SdpType}
use sfu.Sdp.{MediaDescription, ParsedDescription, SessionDescription, ConnectionRole}
use sfu.Codec
use sfu.Codec.{CodecType, Transceiver, codec_type_eq}
use sfu.Certificate.{get_fingerprints}
use sfu.Endpoint.Credentials.{IceParameters, default_dtls_role_offer, server, to_connection_role}
use sfu.Description.Read.{
  get_mid_value, get_peer_direction, get_rids, media_section_application, update_sdp_origin,
}
use sfu.Description.Write.{MediaSection, populate_sdp}
use sfu.Session.{Session, missing_mid}

abbrev pub plain_section : Mid → Bool → MediaSection
plain_section mid is_data = record {
  mid = mid;
  is_data = is_data;
  rid_map = [];
  offered_direction = none;
}

-- What the loop over the remote sections collects: the sections, whether one is for data, and the
-- mids that have a transceiver.
pub record Matched : Type 0 where
  pub media_sections : List MediaSection
  pub have_application : Bool
  pub matched : List Mid

unfoldable pub match_media :
    HashMap Mid Transceiver → Bool → MediaDescription → Mid → Matched → Result Matched
match_media transceivers include_unmatched media mid before =
    let kind = Codec.from_str media.media_name.media in
    let direction = get_peer_direction media in
    if media.media_name.media == media_section_application
    then ok (record before {
      media_sections = before.media_sections ++ plain_section mid true ∷ [];
      have_application = true;
    })
    else if kind == CodecType.unspecified || direction == Direction.unspecified
    then ok before
    else if contains_key mid transceivers
    then ok (record before {
      media_sections =
          before.media_sections
          ++ record {
            mid = mid;
            is_data = false;
            rid_map = get_rids media;
            offered_direction = if include_unmatched then none else some direction;
          }
            ∷ [];
      matched = before.matched ++ mid ∷ [];
    })
    else err (other (codes "ErrPeerConnTransceiverMidNil"))

unfoldable pub match_medias :
    HashMap Mid Transceiver → Bool → List MediaDescription → Matched → Result Matched
unfolding match_media
match_medias transceivers include_unmatched [] before = ok before
match_medias transceivers include_unmatched (m ∷ ms) before = elim (get_mid_value m) [
  | none ↦ match_medias transceivers include_unmatched ms before
  | some [] ↦ err missing_mid
  | some (b ∷ mid) ↦ match_media transceivers include_unmatched m (b ∷ mid) before >>= λ after.
      match_medias transceivers include_unmatched ms after
]

abbrev pub unmatched : List Mid → List Mid → List MediaSection
unmatched matched [] = []
unmatched matched (mid ∷ mids) =
    if any (λ m. m == mid) matched
    then unmatched matched mids
    else plain_section mid false ∷ unmatched matched mids

abbrev pub with_application : Bool → List MediaSection → List MediaSection
with_application true sections = sections
with_application false sections = sections ++ plain_section (decimal (length sections)) true ∷ []

abbrev pub nothing_matched : Matched
nothing_matched = record { media_sections = []; have_application = false; matched = [] }

-- The sections of the remote description that the loop goes over.
abbrev pub remote_sections : Option ParsedDescription → List MediaDescription
remote_sections none = []
remote_sections (some d) = d.media_descriptions

-- `media_sections` of `generate_matched_sdp`.
unfoldable pub media_sections :
    List Mid
    → HashMap Mid Transceiver
    → Bool
    → Option ParsedDescription
    → Result (List MediaSection)
unfolding match_medias
media_sections mids transceivers include_unmatched parsed =
    match_medias transceivers include_unmatched (remote_sections parsed) nothing_matched >>= λ m.
    ok (
      if include_unmatched
      then with_application m.have_application (m.media_sections ++ unmatched m.matched mids)
      else m.media_sections)

module _ {c : Crates} where
  -- The mids and the transceivers of an endpoint, or none.
  unfoldable pub mids_of : EndpointId → Session c → List Mid
  mids_of endpoint_id self = elim (get endpoint_id self.endpoints) [ none ↦ [] | some e ↦ e.mids ]

  unfoldable pub transceivers_of : EndpointId → Session c → HashMap Mid Transceiver
  transceivers_of endpoint_id self = elim (get endpoint_id self.endpoints) [
    | none ↦ []
    | some e ↦ e.transceivers
  ]

  unfoldable pub generate_matched_sdp :
      EndpointId
      → SessionDescription
      → IceParameters
      → Bool
      → Bool
      → ConnectionRole
      → Session c
      → Result ParsedDescription
  unfolding media_sections mids_of transceivers_of
  generate_matched_sdp endpoint_id remote ice_params use_identity include_unmatched role self = do
    sections ←
        media_sections (mids_of endpoint_id self) (transceivers_of endpoint_id self)
          include_unmatched remote.parsed
    cert ←
        ok_or (other (codes "ErrNonCertificate"))
          (head? self.session_config.server_config.certificates)
    populate_sdp c (c.new_jsep_session_description use_identity) (get_fingerprints c cert)
        self.session_config ice_params role sections (transceivers_of endpoint_id self)

  abbrev pub described : Session c → SdpType → ParsedDescription → SessionDescription
  described self sdp_type d =
      let stamped : ParsedDescription =
        (update_sdp_origin (record { session_id = 0; session_version = 0 }) d).1 in
      record { sdp_type = sdp_type; sdp = c.sdp_marshal stamped; parsed = some stamped }

  unfoldable pub create_offer :
      EndpointId → SessionDescription → IceParameters → Session c → Result SessionDescription
  unfolding generate_matched_sdp
  create_offer endpoint_id remote ice_params self = do
    d ←
        generate_matched_sdp endpoint_id remote ice_params false true
          (to_connection_role default_dtls_role_offer) self
    ok (described self SdpType.offer d)

  unfoldable pub create_answer :
      EndpointId → SessionDescription → IceParameters → Session c → Result SessionDescription
  unfolding generate_matched_sdp
  create_answer endpoint_id remote ice_params self = do
    d ←
        generate_matched_sdp endpoint_id remote ice_params false false (to_connection_role server)
          self
    ok (described self SdpType.answer d)
