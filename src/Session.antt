-- ===== src/Session.antt =====
-- src/session/mod.rs: the endpoints of one session and the negotiation of their media.
pub mod Synced
pub mod Negotiation
pub mod Offers
pub mod Offered
pub mod Describe
use sfu.Prelude.{
  ℕ, Bool, true, false, ◌||◌, Option, none, some, List, [], ◌∷◌, ◌++◌, map, if◌then◌else◌, ◌==◌,
  nat_eq, list_eq, Text, codes, decimal,
}
use sfu.Prelude.HashMap.{HashMap, get, insert, contains_key, adjust}
use sfu.Prelude.Results.{Result, Error, ok, err, other, endpoint_not_found}
use sfu.Prelude.Actions.{◌>>=◌, ◌>>◌}
use sfu.Crates.{Crates}
use sfu.Types.{SessionId, EndpointId, FourTuple, Instant, Mid, tuple_eq}
use sfu.Direction.{Direction, direction_eq, reverse}
use sfu.SdpType.{SdpType, sdp_type_eq}
use sfu.Sdp.{MediaDescription, SessionDescription}
use sfu.Codec
use sfu.Codec.{
  CodecType, Transceiver, RtpSender, RtpParameters, MediaStreamId, codec_type_eq,
  set_current_direction,
}
use sfu.Interceptor.{build}
use sfu.Config.{SessionConfig}
use sfu.Endpoint.Credentials.{Candidate}
use sfu.Endpoint
use sfu.Endpoint.{Endpoint, Transport}
use sfu.Description.Read.{
  get_mid_value, get_peer_direction, get_cname, get_msid, get_ssrc_groups, get_ssrcs,
  codecs_from_media_description, rtp_extensions_from_media_description, media_section_application,
}

pub record Session (c : Crates) : Type 0 where
  pub session_config : SessionConfig c
  pub session_id : SessionId
  pub endpoints : HashMap EndpointId (Endpoint c)

abbrev pub missing_mid : Error
missing_mid = other (codes "ErrPeerConnRemoteDescriptionWithoutMidValue")

-- What a media section says of a transceiver, where the loops go on with it: `none` is `continue`.
unfoldable pub negotiated_media : MediaDescription → Result (Option (CodecType × Direction × Mid))
negotiated_media media =
    let kind = Codec.from_str media.media_name.media in
    let direction = get_peer_direction media in
    if media.media_name.media == media_section_application
    then ok none
    else if kind == CodecType.unspecified || direction == Direction.unspecified
    then ok none
    else elim (get_mid_value media) [
      | none ↦ ok none
      | some [] ↦ err missing_mid
      | some (b ∷ mid) ↦ ok (some (kind, direction, b ∷ mid))
    ]

-- `format!("{}-{}", endpoint_id, mid_value)`
unfoldable pub other_mid : EndpointId → Mid → Mid
other_mid endpoint_id mid = decimal endpoint_id ++ (codes "-" ++ mid)

sender_of :
    Option Text
    → Option MediaStreamId
    → RtpParameters
    → List ℕ
    → List Codec.SsrcGroup
    → Option RtpSender
sender_of (some cname) (some msid) params ssrcs groups =
    some (record { cname = cname; msid = msid; ssrcs = ssrcs; ssrc_groups = groups })
sender_of _ _ params ssrcs groups = none

-- The transceiver that an offered section describes, before its direction is chosen.
unfoldable pub offered_transceiver :
    Crates → MediaDescription → CodecType → Mid → Result Transceiver
unfolding sender_of
offered_transceiver c media kind mid = elim (get_ssrc_groups media) [
  | err e ↦ err e
  | ok groups ↦ elim (get_ssrcs media) [
    | err e ↦ err e
    | ok ssrcs ↦ elim (codecs_from_media_description c media) [
      | err e ↦ err e
      | ok codecs ↦ elim (rtp_extensions_from_media_description c media) [
        | err e ↦ err e
        | ok extensions ↦
            let params : RtpParameters = record {
              header_extensions = extensions;
              codecs = codecs;
            } in
            ok (record {
              mid = mid;
              sender = sender_of (get_cname media) (get_msid media) params ssrcs groups;
              direction = Direction.unspecified;
              current_direction = Direction.unspecified;
              rtp_params = params;
              kind = kind;
            })
      ]
    ]
  ]
]

unfoldable pub local_direction : Direction → Direction
local_direction Direction.recvonly = Direction.sendonly
local_direction direction = Direction.recvonly

-- One round of the loop of `set_local_description`, on the transceivers of the endpoint.
unfoldable pub local_medias :
    List MediaDescription → HashMap Mid Transceiver → Result (Unit {0}) × HashMap Mid Transceiver
unfolding negotiated_media
local_medias [] ts = (ok tt, ts)
local_medias (m ∷ ms) ts = elim (negotiated_media m) [
  | err e ↦ (err e, ts)
  | ok none ↦ local_medias ms ts
  | ok (some (kind, direction, mid)) ↦
      local_medias ms (adjust mid (λ t. set_current_direction t direction) ts)
]

module _ {c : Crates} where
  unfoldable pub new_session : SessionConfig c → SessionId → Session c
  new_session session_config session_id = record {
    session_config = session_config;
    session_id = session_id;
    endpoints = [];
  }

  abbrev pub has_endpoint : Session c → EndpointId → Bool
  has_endpoint self endpoint_id = contains_key endpoint_id self.endpoints

  -- The transport that a candidate opens, and the endpoint that the first transport makes.
  unfoldable pub opened : Instant → Candidate → FourTuple → Session c → Transport c
  opened clock candidate four_tuple self =
      Endpoint.new_transport clock four_tuple candidate self.session_config.server_config

  unfoldable pub first_endpoint : Instant → Candidate → FourTuple → Session c → Endpoint c
  unfolding opened
  first_endpoint clock candidate four_tuple self =
      Endpoint.set_remote_description
        (Endpoint.set_local_description
          (Endpoint.add_transport
            (Endpoint.new_endpoint candidate.endpoint_id
              (build clock self.session_config.server_config.media_config.registry))
            (opened clock candidate four_tuple self))
          candidate.local_description)
        candidate.remote_description

  -- The Boolean is the result, which the source wraps in `Ok`.
  unfoldable pub add_endpoint : Instant → Candidate → FourTuple → Session c → Bool × Session c
  unfolding opened first_endpoint
  add_endpoint clock candidate four_tuple self = elim (get candidate.endpoint_id self.endpoints) [
    | some endpoint ↦ if Endpoint.has_transport endpoint four_tuple then (true, self) else (
      true,
      record self {
        endpoints =
            adjust candidate.endpoint_id
              (λ e. Endpoint.add_transport e (opened clock candidate four_tuple self))
              self.endpoints;
      },
    )
    | none ↦ (
      false,
      record self {
        endpoints =
            insert candidate.endpoint_id (first_endpoint clock candidate four_tuple self)
              self.endpoints;
      },
    )
  ]

  unfoldable pub add_transceiver : Transceiver → Endpoint c → Endpoint c
  add_transceiver t self = record self {
    mids = self.mids ++ t.mid ∷ [];
    transceivers = insert t.mid t self.transceivers;
  }

  -- What an offered transceiver does to the other endpoints: those that have it follow its
  -- direction, and the others get it if it only sends.
  unfoldable pub offer_to_other : Transceiver → Endpoint c → Endpoint c
  unfolding add_transceiver
  offer_to_other t other_endpoint = elim (get t.mid other_endpoint.transceivers) [
    | some other_transceiver ↦
        if other_transceiver.direction == t.direction
        then other_endpoint
        else Endpoint.set_renegotiation_needed
            (record other_endpoint {
              transceivers =
                  adjust t.mid (λ o. record o { direction = t.direction })
                    other_endpoint.transceivers;
            })
            true
    | none ↦
        if t.direction == Direction.sendonly
        then Endpoint.set_renegotiation_needed (add_transceiver t other_endpoint) true
        else other_endpoint
  ]

  unfoldable pub offer_to_others : EndpointId → Transceiver → Session c → Session c
  unfolding offer_to_other
  offer_to_others endpoint_id t self = record self {
    endpoints =
        map (λ e. (e.0, if e.0 == endpoint_id then e.1 else offer_to_other t e.1)) self.endpoints;
  }

  -- An offered section with a new mid: a transceiver of this endpoint, and what the others get.
  unfoldable pub offer_new_media :
      EndpointId
      → MediaDescription
      → CodecType
      → Direction
      → Mid
      → Session c
      → Result (Unit {0}) × Session c
  unfolding offered_transceiver offer_to_others add_transceiver
  offer_new_media endpoint_id media kind direction mid self =
      elim (offered_transceiver c media kind mid) [
        | err e ↦ (err e, self)
        | ok t ↦
            let own = record self {
              endpoints =
                  adjust endpoint_id
                    (add_transceiver (record t { direction = local_direction direction }))
                    self.endpoints;
            } in
            (
              ok tt,
              offer_to_others endpoint_id
                  (record t { mid = other_mid endpoint_id mid; direction = direction }) own,
            )
      ]

  -- One round of the loop of `set_remote_description`. The endpoint is there: it was tested before
  -- the loop, and no round removes one.
  unfoldable pub remote_media :
      EndpointId → Bool → MediaDescription → Session c → Result (Unit {0}) × Session c
  unfolding negotiated_media offer_new_media
  remote_media endpoint_id we_offer media self = elim (negotiated_media media) [
    | err e ↦ (err e, self)
    | ok none ↦ (ok tt, self)
    | ok (some (kind, direction, mid)) ↦ elim we_offer [
      | true ↦ (
        ok tt,
        record self {
          endpoints =
              adjust endpoint_id
                (λ e. record e {
                  transceivers =
                      adjust mid (λ t. set_current_direction t (reverse direction)) e.transceivers;
                })
                self.endpoints;
        },
      )
      | false ↦ elim (get endpoint_id self.endpoints) [
        | none ↦ (err endpoint_not_found, self)
        | some endpoint ↦
            if contains_key mid endpoint.transceivers
            then (ok tt, self)
            else offer_new_media endpoint_id media kind direction mid self
      ]
    ]
  ]

  unfoldable pub remote_medias :
      EndpointId → Bool → List MediaDescription → Session c → Result (Unit {0}) × Session c
  unfolding remote_media
  remote_medias endpoint_id we_offer [] self = (ok tt, self)
  remote_medias endpoint_id we_offer (m ∷ ms) self =
      let (r, self') = remote_media endpoint_id we_offer m self in
      elim r [ err e ↦ (err e, self') | ok _ ↦ remote_medias endpoint_id we_offer ms self' ]

  unfoldable pub set_remote_description :
      EndpointId → SessionDescription → Session c → Result (Unit {0}) × Session c
  unfolding remote_medias
  set_remote_description endpoint_id description self =
      if has_endpoint self endpoint_id
      then elim description.parsed [
        | none ↦ (err (other (codes "Unparsed remote description")), self)
        | some parsed ↦
            remote_medias endpoint_id (description.sdp_type == SdpType.answer)
              parsed.media_descriptions self
      ]
      else (err endpoint_not_found, self)

  unfoldable pub set_local_description :
      EndpointId → SessionDescription → Session c → Result (Unit {0}) × Session c
  unfolding local_medias
  set_local_description endpoint_id description self = elim description.parsed [
    | none ↦ (err (other (codes "Unparsed local description")), self)
    | some parsed ↦ elim (get endpoint_id self.endpoints) [
      | none ↦ (err endpoint_not_found, self)
      | some endpoint ↦
          if description.sdp_type == SdpType.answer
          then (let (r, ts) = local_medias parsed.media_descriptions endpoint.transceivers in
              (
                r,
                record self {
                  endpoints =
                      adjust endpoint_id (λ e. record e { transceivers = ts }) self.endpoints;
                },
              ))
          else (ok tt, self)
    ]
  ]
