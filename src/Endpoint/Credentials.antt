-- ===== src/Endpoint/Credentials.antt =====
-- src/endpoint/candidate.rs: DTLS roles, connection credentials and candidates.
use sfu.Prelude.{
  ℕ, Bool, ◌&&◌, Option, none, some, List, [], ◌∷◌, ◌++◌, if◌then◌else◌, ◌==◌, nat_eq, list_eq,
  Text, codes, leb, length,
}
use sfu.Prelude.Results.{Result, ok, err, attribute_not_found, ok_or, ◌>>=◌}
use sfu.Crates.{Crates}
use sfu.Types.{SessionId, EndpointId, UserName, Instant}
use sfu.Sdp.{Attribute, MediaDescription, ParsedDescription, SessionDescription, ConnectionRole}
use sfu.Certificate.{DtlsFingerprint, try_from}

-- DTLSRole
pub data DtlsRole : Type 0 where
  unspecified auto client server : DtlsRole

abbrev role_number : DtlsRole → ℕ
role_number DtlsRole.unspecified = 0
role_number auto = 1
role_number client = 2
role_number server = 3

abbrev pub default_dtls_role_answer : DtlsRole
default_dtls_role_answer = client

abbrev pub default_dtls_role_offer : DtlsRole
default_dtls_role_offer = auto

abbrev role_of_value : Option Text → DtlsRole
role_of_value none = auto
role_of_value (some value) =
    if value == codes "active" then client else if value == codes "passive" then server else auto

-- The role of the first `setup` attribute.
abbrev role_in : List Attribute → Option DtlsRole
role_in [] = none
role_in (a ∷ attrs) = if a.key == codes "setup" then some (role_of_value a.value) else role_in attrs

abbrev role_in_media : List MediaDescription → DtlsRole
role_in_media [] = auto
role_in_media (m ∷ ms) = elim (role_in m.attributes) [ none ↦ role_in_media ms | some r ↦ r ]

-- impl From<&SessionDescription> for DTLSRole
unfoldable pub from_description : ParsedDescription → DtlsRole
from_description d = role_in_media d.media_descriptions

unfoldable pub to_connection_role : DtlsRole → ConnectionRole
to_connection_role client = ConnectionRole.active
to_connection_role server = ConnectionRole.passive
to_connection_role auto = ConnectionRole.actpass
to_connection_role DtlsRole.unspecified = ConnectionRole.unspecified

-- RTCIceParameters
pub record IceParameters : Type 0 where
  pub username_fragment : Text
  pub password : Text

pub record DtlsParameters : Type 0 where
  pub role : DtlsRole
  pub fingerprints : List DtlsFingerprint

pub record ConnectionCredentials : Type 0 where
  pub ice_params : IceParameters
  pub dtls_params : DtlsParameters

-- The random user name fragment and password are arguments.
unfoldable pub new_credentials :
    IceParameters → List DtlsFingerprint → DtlsRole → ConnectionCredentials
new_credentials random fingerprints remote_role = record {
  ice_params = random;
  dtls_params = record {
    role = if role_number remote_role == 3 then client else server;
    fingerprints = fingerprints;
  };
}

-- `len()` counts bytes, as many as code points in the ASCII texts of ICE.
unfoldable pub valid : ConnectionCredentials → Bool
valid self =
    leb 4 (length self.ice_params.username_fragment)
    && leb (length self.ice_params.username_fragment) 256
    && leb 22 (length self.ice_params.password)
    && leb (length self.ice_params.password) 256

module _ (c : Crates) where
  -- `find_map(|m| m.attribute(key)).ok_or(..)?.ok_or(..)?`
  media_value : Text → List MediaDescription → Result Text
  media_value key [] = err attribute_not_found
  media_value key (m ∷ ms) = elim (c.media_attribute key m) [
    | none ↦ media_value key ms
    | some value ↦ ok_or attribute_not_found value
  ]

  fingerprint_of : ParsedDescription → Result DtlsFingerprint
  unfolding media_value
  fingerprint_of sdp = elim (c.session_attribute (codes "fingerprint") sdp) [
    | some fingerprint ↦ try_from fingerprint
    | none ↦ media_value (codes "fingerprint") sdp.media_descriptions >>= try_from
  ]

  unfoldable pub from_sdp : ParsedDescription → Result ConnectionCredentials
  unfolding media_value fingerprint_of
  from_sdp sdp = do
    username_fragment ← media_value (codes "ice-ufrag") sdp.media_descriptions
    password ← media_value (codes "ice-pwd") sdp.media_descriptions
    fingerprint ← fingerprint_of sdp
    ok (record {
      ice_params = record { username_fragment = username_fragment; password = password };
      dtls_params = record { role = from_description sdp; fingerprints = fingerprint ∷ [] };
    })

pub record Candidate : Type 0 where
  pub session_id : SessionId
  pub endpoint_id : EndpointId
  pub remote_conn_cred : ConnectionCredentials
  pub local_conn_cred : ConnectionCredentials
  pub remote_description : SessionDescription
  pub local_description : SessionDescription
  pub expired_time : Instant

-- `{local}:{remote}`
unfoldable pub username : Candidate → UserName
username self =
    self.local_conn_cred.ice_params.username_fragment
    ++ (codes ":" ++ self.remote_conn_cred.ice_params.username_fragment)
