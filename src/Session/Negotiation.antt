-- ===== src/Session/Negotiation.antt =====
-- The list of mids of an endpoint beside its map of transceivers, through the negotiation of
-- src/session/mod.rs. A transceiver whose mid is not listed would be in no offer, and a mid that is listed
-- twice would be two sections of it.
use sfu.Prelude.{
  ◌≡◌, refl, inl, inr, Bool, false, none, some, List, [], ◌∷◌, map, arith, Bool-cases, Option-cases,
  ◌==◌, nat_eq, list_eq, sym, ◌∙◌, if◌then◌else◌,
}
use sfu.Prelude.HashMap.{HashMap, get, insert, adjust, contains_key}
use sfu.Prelude.Results.{Result-cases}
use sfu.Crates.{Crates}
use sfu.Types.{EndpointId, FourTuple, Instant, Mid}
use sfu.Direction.{Direction, direction_eq, reverse}
use sfu.Sdp.{MediaDescription, SessionDescription}
use sfu.Codec.{Transceiver, CodecType, set_current_direction}
use sfu.Endpoint
use sfu.Endpoint.{Endpoint, Transport}
use sfu.Endpoint.Credentials.{Candidate}
use sfu.SdpType.{SdpType, sdp_type_eq}
use sfu.Session
use sfu.Session.Synced.{
  IsSynced, adjust-contains, offered_transceiver-mid, local_medias-contains,
  add_transceiver-IsSynced, offer_to_other-IsSynced,
}
use sfu.Session.{
  Session, first_endpoint, add_transceiver, offer_to_other, offer_to_others, offered_transceiver,
  other_mid, local_direction, negotiated_media, offer_new_media, remote_media, remote_medias,
  set_remote_description, set_local_description, local_medias,
}

module _ {c : Crates} where
  -- Every endpoint of the session is synced.
  abbrev Synced : HashMap EndpointId (Endpoint c) → Type 0
  Synced [] = Unit
  Synced ((id, e) ∷ es) = IsSynced e × Synced es

  abbrev pub AllSynced : Session c → Type 0
  AllSynced session = Synced session.endpoints

  adjust-All :
      (eid : EndpointId) (f : Endpoint c → Endpoint c) (es : HashMap EndpointId (Endpoint c))
      → ((e : Endpoint c) → get eid es ≡ some e → IsSynced e → IsSynced (f e))
      → Synced es
      → Synced (adjust eid f es)
  unfolding adjust get
  adjust-All eid f [] h a = tt
  adjust-All eid f ((id, e) ∷ es) h (s, a) = elim (Bool-cases (id == eid)) [
    | inl hit ↦ rw hit (h e (rw hit refl) s, a)
    | inr miss ↦ rw miss (s, adjust-All eid f es (λ x k. h x (rw miss k)) a)
  ]

  others-All :
      (eid : EndpointId) (t : Transceiver) (es : HashMap EndpointId (Endpoint c))
      → Synced es
      → Synced (map (λ e. (e.0, if e.0 == eid then e.1 else offer_to_other t e.1)) es)
  others-All eid t [] a = tt
  others-All eid t ((id, e) ∷ es) (s, a) = (
    elim (Bool-cases (id == eid)) [
      | inl hit ↦ rw hit s
      | inr miss ↦ rw miss (offer_to_other-IsSynced t e s)
    ],
    others-All eid t es a,
  )

  with_transceivers-IsSynced :
      (k : Mid) (f : Transceiver → Transceiver) (e : Endpoint c)
      → IsSynced e
      → IsSynced (record e { transceivers = adjust k f e.transceivers })
  with_transceivers-IsSynced k f e s = record {
    listed = λ mid. s.listed mid ∙ sym (adjust-contains k mid f e.transceivers);
    distinct = s.distinct;
  }

  offer_new_media-AllSynced :
      (eid : EndpointId) (m : MediaDescription) (kind : CodecType) (d : Direction) (mid : Mid)
      (session : Session c) (endpoint : Endpoint c)
      → get eid session.endpoints ≡ some endpoint
      → contains_key mid endpoint.transceivers ≡ false
      → AllSynced session
      → AllSynced (offer_new_media eid m kind d mid session).1
  unfolding offer_new_media offer_to_others
  offer_new_media-AllSynced eid m kind d mid session endpoint here new a =
      elim (Result-cases (offered_transceiver c m kind mid)) [
        | inl (e, h) ↦ rw (h, offer_new_media) a
        | inr (t, h) ↦
            rw (h, offer_new_media)
              (others-All eid (record t { mid = other_mid eid mid; direction = d }) _
                (adjust-All eid (add_transceiver (record t { direction = local_direction d }))
                  session.endpoints
                  (λ e k s.
                    add_transceiver-IsSynced (record t { direction = local_direction d }) e
                      (ground (arith, offered_transceiver-mid c m kind mid t h)) s)
                  a))
      ]

  remote_media-AllSynced :
      (eid : EndpointId) (we_offer : Bool) (m : MediaDescription) (session : Session c)
      → AllSynced session
      → AllSynced (remote_media eid we_offer m session).1
  unfolding remote_media
  remote_media-AllSynced eid we_offer m session a = elim (Result-cases (negotiated_media m)) [
    | inl (e, h) ↦ rw (h, remote_media) a
    | inr (none, h) ↦ rw (h, remote_media) a
    | inr (some (kind, d, mid), h) ↦ elim (Bool-cases we_offer) [
      | inl ours ↦
          rw (h, ours, remote_media)
            (adjust-All eid _ session.endpoints
              (λ e k s.
                with_transceivers-IsSynced mid (λ t. set_current_direction t (reverse d)) e s)
              a)
      | inr theirs ↦ elim (Option-cases (get eid session.endpoints)) [
        | inl k ↦ rw (h, theirs, k, remote_media) a
        | inr (endpoint, k) ↦ elim (Bool-cases (contains_key mid endpoint.transceivers)) [
          | inl old ↦ rw (h, theirs, k, old, remote_media) a
          | inr new ↦
              rw (h, theirs, k, new, remote_media)
                (offer_new_media-AllSynced eid m kind d mid session endpoint k new a)
        ]
      ]
    ]
  ]

  remote_medias-AllSynced :
      (eid : EndpointId) (we_offer : Bool) (ms : List MediaDescription) (session : Session c)
      → AllSynced session
      → AllSynced (remote_medias eid we_offer ms session).1
  unfolding remote_medias
  remote_medias-AllSynced eid we_offer [] session a = a
  remote_medias-AllSynced eid we_offer (m ∷ ms) session a =
      elim (Result-cases (remote_media eid we_offer m session).0) [
        | inl (e, h) ↦ rw (h, remote_medias) (remote_media-AllSynced eid we_offer m session a)
        | inr (u, h) ↦
            rw (h, remote_medias)
              (remote_medias-AllSynced eid we_offer ms _
                (remote_media-AllSynced eid we_offer m session a))
      ]

  -- Where every endpoint is synced, a remote description, taken or refused half way, leaves every one
  -- synced.
  pub set_remote_description-AllSynced :
      (eid : EndpointId) (d : SessionDescription) (session : Session c)
      → AllSynced session
      → AllSynced (set_remote_description eid d session).1
  unfolding set_remote_description
  set_remote_description-AllSynced eid d session a =
      elim (Option-cases (get eid session.endpoints)) [
        | inl e ↦ rw (e, set_remote_description) a
        | inr (endpoint, e) ↦ elim (Option-cases d.parsed) [
          | inl h ↦ rw (e, h, set_remote_description) a
          | inr (parsed, h) ↦
              rw (e, h, set_remote_description)
                (remote_medias-AllSynced eid _ parsed.media_descriptions session a)
        ]
      ]

  -- Where every endpoint is synced, a local description, taken or refused half way, leaves every one
  -- synced.
  pub set_local_description-AllSynced :
      (eid : EndpointId) (d : SessionDescription) (session : Session c)
      → AllSynced session
      → AllSynced (set_local_description eid d session).1
  unfolding set_local_description
  set_local_description-AllSynced eid d session a = elim (Option-cases d.parsed) [
    | inl h ↦ rw (h, set_local_description) a
    | inr (parsed, h) ↦ elim (Option-cases (get eid session.endpoints)) [
      | inl e ↦ rw (h, e, set_local_description) a
      | inr (endpoint, e) ↦ elim (Bool-cases (d.sdp_type == SdpType.answer)) [
        | inr other ↦ rw (h, e, other, set_local_description) a
        | inl ours ↦
            rw (h, e, ours, set_local_description)
              (adjust-All eid _ session.endpoints
                (λ x k s. written parsed.media_descriptions endpoint x (ground arith) s) a)
      ]
    ]
  ]
    where
      written :
          (ms : List MediaDescription) (endpoint x : Endpoint c)
          → endpoint ≡ x
          → IsSynced x
          → IsSynced (record x { transceivers = (local_medias ms endpoint.transceivers).1 })
      written ms endpoint x same s = record {
        listed = λ mid. s.listed mid ∙ rw same (sym (local_medias-contains ms mid x.transceivers));
        distinct = s.distinct;
      }

  insert-Synced :
      (eid : EndpointId) (e : Endpoint c) (es : HashMap EndpointId (Endpoint c))
      → IsSynced e
      → Synced es
      → Synced (insert eid e es)
  unfolding insert
  insert-Synced eid e [] s a = (s, tt)
  insert-Synced eid e ((id, x) ∷ es) s (sx, a) = elim (Bool-cases (id == eid)) [
    | inl hit ↦ rw hit (s, a)
    | inr miss ↦ rw miss (sx, insert-Synced eid e es s a)
  ]

  first-IsSynced :
      (clock : Instant) (candidate : Candidate) (ft : FourTuple) (session : Session c)
      → IsSynced (first_endpoint clock candidate ft session)
  unfolding first_endpoint Endpoint.new_endpoint Endpoint.add_transport
      Endpoint.set_remote_description Endpoint.set_local_description get
  first-IsSynced clock candidate ft session = record { listed = λ mid. refl; distinct = tt }

  joined-IsSynced :
      (t : Transport c) (e : Endpoint c) → IsSynced e → IsSynced (Endpoint.add_transport e t)
  unfolding Endpoint.add_transport
  joined-IsSynced t e s = record { listed = s.listed; distinct = s.distinct }

  -- Where every endpoint is synced, the joining of an endpoint, or of another transport of it, leaves
  -- every one synced.
  pub add_endpoint-AllSynced :
      (clock : Instant) (candidate : Candidate) (ft : FourTuple) (session : Session c)
      → AllSynced session
      → AllSynced (Session.add_endpoint clock candidate ft session).1
  unfolding Session.add_endpoint
  add_endpoint-AllSynced clock candidate ft session a =
      elim (Option-cases (get candidate.endpoint_id session.endpoints)) [
        | inl e ↦
            rw (e, Session.add_endpoint)
              (insert-Synced candidate.endpoint_id _ session.endpoints
                (first-IsSynced clock candidate ft session) a)
        | inr (endpoint, e) ↦ elim (Bool-cases (Endpoint.has_transport endpoint ft)) [
          | inl there ↦ rw (e, there, Session.add_endpoint) a
          | inr new ↦
              rw (e, new, Session.add_endpoint)
                (adjust-All candidate.endpoint_id _ session.endpoints
                  (λ x k s. joined-IsSynced (Session.opened clock candidate ft session) x s) a)
        ]
      ]
