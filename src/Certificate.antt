-- ===== src/Certificate.antt =====
-- src/server/certificate.rs: fingerprints, and the certificate as it is read from and written to PEM.
pub mod Pem
use sfu.Prelude.{
  ℕ, zero, suc, ◌+◌, ◌*◌, ◌/◌, ◌%◌, ◌&&◌, true, false, Option, none, some, List, [], ◌∷◌, ◌++◌, map,
  Text, codes, ltb, if◌then◌else◌, ◌==◌, nat_eq, list_eq,
}
use sfu.Prelude.Strings.{join, split_whitespace}
use sfu.Prelude.Results.{Result, ok, err, other, invalid_pem, ok_or, ◌>>=◌}
use sfu.Crates.{Crates, DtlsCertificate}

-- RTCDtlsFingerprint
pub record DtlsFingerprint : Type 0 where
  pub algorithm : Text
  pub value : Text

-- impl TryFrom<&str>
unfoldable pub try_from : Text → Result DtlsFingerprint
try_from value = elim (split_whitespace value) [
  | algorithm ∷ fingerprint ∷ [] ↦ ok (record { algorithm = algorithm; value = fingerprint })
  | _ ↦ err (other (codes "invalid fingerprint"))
]

abbrev hex_digit : ℕ → ℕ
hex_digit d = if ltb d 10 then 48 + d else 87 + d

-- `{x:02x}`
abbrev hex_byte : ℕ → Text
hex_byte x = hex_digit (x / 16) ∷ hex_digit (x % 16) ∷ []

-- `u64::to_le_bytes`, for any number of bytes, and `u64::from_le_bytes`.
unfoldable pub to_le_bytes : ℕ → ℕ → List ℕ
to_le_bytes zero n = []
to_le_bytes (suc k) n = n % 256 ∷ to_le_bytes k (n / 256)

unfoldable pub from_le_bytes : List ℕ → ℕ
from_le_bytes [] = 0
from_le_bytes (b ∷ bytes) = b + 256 * from_le_bytes bytes

-- `&contents[..n]`, which panics where there are fewer.
unfoldable pub first_bytes : ℕ → List ℕ → Option (List ℕ)
first_bytes zero contents = some []
first_bytes (suc n) [] = none
first_bytes (suc n) (b ∷ contents) = elim (first_bytes n contents) [
  | none ↦ none
  | some bytes ↦ some (b ∷ bytes)
]

unfoldable pub blocks_from : Text → Text → List Text
blocks_from block [] = block ∷ []
blocks_from block (c ∷ []) = (block ++ c ∷ []) ∷ []
blocks_from block (c ∷ d ∷ s) = elim (c == 10 && d == 10) [
  | true ↦ block ∷ blocks_from [] s
  | false ↦ blocks_from (block ++ c ∷ []) (d ∷ s)
]

abbrev pub blank : Text
blank = 10 ∷ 10 ∷ []

abbrev nanos_per_sec : ℕ
nanos_per_sec = 1_000_000_000

module _ (c : Crates) where
  -- RTCCertificate: the time of expiry is in nanoseconds since the epoch.
  pub record Certificate : Type 0 where
    pub dtls_certificate : DtlsCertificate c.PrivateKey
    pub expires : ℕ

  unfoldable pub get_fingerprints : Certificate → List DtlsFingerprint
  get_fingerprints self =
      map
        (λ der. record {
          algorithm = codes "sha-256";
          value = join (codes ":") (map hex_byte (c.sha256 der));
        })
        self.dtls_certificate.certificate

  unfoldable pub from_existing : DtlsCertificate c.PrivateKey → ℕ → Certificate
  from_existing dtls_certificate expires = record {
    dtls_certificate = dtls_certificate;
    expires = expires;
  }

  -- RTCCertificate::from_pem after its first block was parsed; `none` is a panic.
  unfoldable pub with_expiry : Text → List ℕ → List Text → Option (Result Certificate)
  unfolding first_bytes from_le_bytes from_existing
  with_expiry tag contents rest =
      if tag == codes "EXPIRES"
      then elim (first_bytes 8 contents) [
        | none ↦ none
        | some bytes ↦ some (
            ok_or (invalid_pem (codes "failed to calculate SystemTime"))
              (c.checked_after_epoch (from_le_bytes bytes))
            >>= λ expires. c.dtls_from_pem (join blank rest) >>= λ dtls_certificate.
                ok (from_existing dtls_certificate expires))
      ]
      else some (
          err
            (invalid_pem (codes "invalid tag (expected: 'EXPIRES', got '" ++ (tag ++ codes "')"))))

  -- RTCCertificate::from_pem
  unfoldable pub from_pem : Text → Option (Result Certificate)
  unfolding blocks_from with_expiry
  from_pem pem_str = elim (blocks_from [] pem_str) [
    | [] ↦ some (err (invalid_pem (codes "empty PEM")))
    | first ∷ rest ↦ elim (c.pem_parse first) [
      | err e ↦ some (err e)
      | ok (tag, contents) ↦ with_expiry tag contents rest
    ]
  ]

  -- RTCCertificate::serialize_pem
  unfoldable pub serialize_pem : Certificate → Text
  unfolding to_le_bytes
  serialize_pem self =
      c.pem_encode (codes "EXPIRES") (to_le_bytes 8 (self.expires / nanos_per_sec))
      ++ (10 ∷ c.dtls_serialize_pem self.dtls_certificate)
