-- ===== src/Session/Offered.antt =====
-- The offer that `create_offer` of src/session/mod.rs makes of its media sections.
use sfu.Prelude.{
  ◌≡◌, refl, inl, inr, true, false, some, List, In, head?, arith, Option-cases, nat_eq,
}
use sfu.Prelude.HashMap.{get}
use sfu.Prelude.Results.{Result-cases, ok}
use sfu.Crates.{Crates}
use sfu.Types.{EndpointId, Mid}
use sfu.Sdp.{ParsedDescription, SessionDescription, ConnectionRole}
use sfu.SdpType.{SdpType}
use sfu.Certificate.{Certificate, get_fingerprints}
use sfu.Endpoint.{Endpoint}
use sfu.Endpoint.Credentials.{IceParameters, default_dtls_role_offer, to_connection_role}
use sfu.Description.Write.{MediaSection, populate_sdp}
use sfu.Session.{Session}
use sfu.Session.Describe.{
  media_sections, mids_of, transceivers_of, generate_matched_sdp, create_offer, described,
}
use sfu.Session.Offers.{covers, has_data, media_sections_complete}

module _ {c : Crates} where
  -- A description that was made, from its sections.
  record Made (e : Endpoint c) (remote : SessionDescription) (ice_params : IceParameters)
      (role : ConnectionRole) (self : Session c) (d : ParsedDescription) : Type 0 where
    sections : List MediaSection
    certificate : Certificate c
    has_certificate : head? self.session_config.server_config.certificates ≡ some certificate
    made : media_sections e.mids e.transceivers true remote.parsed ≡ ok sections
    written :
        populate_sdp c
          (c.new_jsep_session_description false)
          (get_fingerprints c certificate)
          self.session_config
          ice_params
          role
          sections
          e.transceivers
        ≡ ok d

  generate_matched_sdp-Made :
      (eid : EndpointId) (e : Endpoint c) (remote : SessionDescription) (ice_params : IceParameters)
      (role : ConnectionRole) (self : Session c) (d : ParsedDescription)
      → get eid self.endpoints ≡ some e
      → generate_matched_sdp eid remote ice_params false true role self ≡ ok d
      → Made e remote ice_params role self d
  unfolding generate_matched_sdp mids_of transceivers_of
  generate_matched_sdp-Made eid e remote ice_params role self d g h =
      let mids : mids_of eid self ≡ e.mids = rw (mids_of, g) refl in
      let transceivers : transceivers_of eid self ≡ e.transceivers = rw (transceivers_of, g) refl in
      elim (Result-cases (media_sections e.mids e.transceivers true remote.parsed)) [
        | inl (x, k) ↦
            absurd (let h' = rw (generate_matched_sdp, mids, transceivers, k) at h in ground arith)
        | inr (sections, k) ↦
            elim (Option-cases (head? self.session_config.server_config.certificates)) [
              | inl n ↦ absurd (
                  let h' = rw (generate_matched_sdp, mids, transceivers, k, n) at h in ground arith)
              | inr (certificate, n) ↦ record {
                sections = sections;
                certificate = certificate;
                has_certificate = n;
                made = k;
                written = rw (generate_matched_sdp, mids, transceivers, k, n) at h;
              }
            ]
      ]

  -- An offer that `create_offer` makes for an endpoint of the session is the description that is written from
  -- media sections, of which there is one for every mid of the endpoint and one for data channels.
  pub create_offer_complete :
      (eid : EndpointId) (e : Endpoint c) (remote : SessionDescription) (ice_params : IceParameters)
      (self : Session c) (offer : SessionDescription)
      → get eid self.endpoints ≡ some e
      → create_offer eid remote ice_params self ≡ ok offer
      → (sections : List MediaSection) × (certificate : Certificate c) × (d : ParsedDescription)
        × ((mid : Mid) → In mid e.mids → covers mid sections ≡ true)
        × (has_data sections ≡ true)
        × (populate_sdp c
              (c.new_jsep_session_description false)
              (get_fingerprints c certificate)
              self.session_config
              ice_params
              (to_connection_role default_dtls_role_offer)
              sections
              e.transceivers
            ≡ ok d)
        × (offer ≡ described self SdpType.offer d)
  unfolding create_offer
  create_offer_complete eid e remote ice_params self offer g h =
      elim (Result-cases (
        generate_matched_sdp eid remote ice_params false true
          (to_connection_role default_dtls_role_offer) self)) [
            | inl (x, k) ↦ absurd (let h' = rw (create_offer, k) at h in ground arith)
            | inr (d, k) ↦
                let m =
                  generate_matched_sdp-Made eid e remote ice_params
                    (to_connection_role default_dtls_role_offer) self d g k in
                let (covered, with_data) =
                  media_sections_complete e.mids e.transceivers remote.parsed m.sections m.made in
                (
                  m.sections,
                  m.certificate,
                  d,
                  covered,
                  with_data,
                  m.written,
                  let h' = rw (create_offer, k) at h in ground arith,
                )
          ]
