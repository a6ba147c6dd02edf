-- ===== src/Certificate/Pem.antt =====
-- A certificate that src/server/certificate.rs writes as PEM is read back.
use sfu.Prelude.{
  ℕ, zero, suc, ◌/◌, ◌^◌, ◌<◌, ◌≡◌, refl, sym, ap, ◌∙◌, ◌&&◌, true, false, some, List, [], ◌∷◌,
  ◌++◌, arith, Bool, Bool-cases, inl, inr, codes, Text, ◌==◌, nat_eq, not, append_nil,
}
use native.Mathlib.Numerals.{unary_clauses}
use mathlib.Core.List.{append_assoc}
use sfu.Prelude.Strings.{join}
use sfu.Prelude.Results.{ok}
use sfu.Crates.{Crates, DtlsCertificate}
use sfu.Certificate.{
  Certificate, to_le_bytes, from_le_bytes, first_bytes, blocks_from, blank, nanos_per_sec, from_pem,
  serialize_pem, with_expiry, from_existing,
}

le_bytes_read : (k n : ℕ) → n < 256 ^ k → from_le_bytes (to_le_bytes k n) ≡ n
unfolding to_le_bytes from_le_bytes
le_bytes_read zero n h = omega arith
le_bytes_read (suc k) n h =
    let p = simp unary_clauses at h in omega (arith, le_bytes_read k (n / 256) (omega arith))

first_le_bytes : (k n : ℕ) → first_bytes k (to_le_bytes k n) ≡ some (to_le_bytes k n)
unfolding first_bytes to_le_bytes
first_le_bytes zero n = refl
first_le_bytes (suc k) n = rw (first_bytes, first_le_bytes k (n / 256)) refl

-- No two line feeds stand side by side, and the last character is none.
unfoldable pub one_block : Text → Bool
one_block [] = true
one_block (c ∷ []) = not (c == 10)
one_block (c ∷ d ∷ s) = not (c == 10 && d == 10) && one_block (d ∷ s)

blocks_of_one :
    (block s rest : Text)
    → one_block s ≡ true
    → blocks_from block (s ++ (10 ∷ 10 ∷ rest)) ≡ (block ++ s) ∷ blocks_from [] rest
unfolding blocks_from one_block
blocks_of_one block [] rest h = ap (λ b. b ∷ blocks_from [] rest) (sym (append_nil block))
blocks_of_one block (c ∷ []) rest h =
    let e : (c == 10) ≡ false = ground arith in rw (blocks_from, e) refl
blocks_of_one block (c ∷ d ∷ s) rest h =
    let e : (c == 10 && d == 10) ≡ false = ground arith in
    rw (blocks_from, e)
      (blocks_of_one (block ++ c ∷ []) (d ∷ s) rest (ground arith)
        ∙ ap (λ b. b ∷ blocks_from [] rest) (append_assoc block (c ∷ []) (d ∷ s)))

blocks_cons : (block s : Text) → (b : Text) × (bs : List Text) × (blocks_from block s ≡ b ∷ bs)
unfolding blocks_from
blocks_cons block [] = (block, [], refl)
blocks_cons block (c ∷ []) = (_, [], refl)
blocks_cons block (c ∷ d ∷ s) = elim (Bool-cases (c == 10 && d == 10)) [
  | inl t ↦ (block, blocks_from [] s, rw (blocks_from, t) refl)
  | inr t ↦ let (b, bs, e) = blocks_cons (block ++ c ∷ []) (d ∷ s) in (b, bs, rw (blocks_from, t) e)
]

-- What is taken apart at the blank lines is put together again.
join_blocks : (block s : Text) → join blank (blocks_from block s) ≡ block ++ s
unfolding blocks_from join
join_blocks block [] = sym (append_nil block)
join_blocks block (c ∷ []) = refl
join_blocks block (c ∷ d ∷ s) = elim (Bool-cases (c == 10 && d == 10)) [
  | inl t ↦
      let (b, bs, e) = blocks_cons [] s in
      let ih : join blank (b ∷ bs) ≡ s = rw e at (join_blocks [] s) in
      let p : c ≡ 10 = ground arith in
      let q : d ≡ 10 = ground arith in
      rw (blocks_from, t, e) (ap (λ r. block ++ (10 ∷ 10 ∷ r)) ih ∙ rw (p, q) refl)
  | inr t ↦
      rw (blocks_from, t)
        (join_blocks (block ++ c ∷ []) (d ∷ s) ∙ append_assoc block (c ∷ []) (d ∷ s))
]

with_expiry_lem :
    (c : Crates) (contents bytes : List ℕ) (rest : List Text) (t : ℕ)
    (d : DtlsCertificate c.PrivateKey)
    → first_bytes 8 contents ≡ some bytes
    → c.checked_after_epoch (from_le_bytes bytes) ≡ some t
    → c.dtls_from_pem (join blank rest) ≡ ok d
    → with_expiry c (codes "EXPIRES") contents rest ≡ some (ok (from_existing c d t))
unfolding with_expiry
with_expiry_lem c contents bytes rest t d h k l = ground (arith, h, k, l)

-- A certificate whose expiry is within u64 seconds is read back from its PEM, with the time of expiry that
-- its whole seconds stand for: where the block of the expiry ends in a line feed, has no blank line and
-- is parsed without that line feed, and the block of the DTLS certificate is read back.
pub from_pem-serialize_pem :
    (c : Crates) (self : Certificate c) (first : Text) (expires : ℕ)
    → self.expires / nanos_per_sec < 256 ^ 8
    → c.pem_encode (codes "EXPIRES") (to_le_bytes 8 (self.expires / nanos_per_sec))
      ≡ first ++ 10 ∷ []
    → one_block first ≡ true
    → c.pem_parse first ≡ ok (codes "EXPIRES", to_le_bytes 8 (self.expires / nanos_per_sec))
    → c.checked_after_epoch (self.expires / nanos_per_sec) ≡ some expires
    → c.dtls_from_pem (c.dtls_serialize_pem self.dtls_certificate) ≡ ok self.dtls_certificate
    → from_pem c (serialize_pem c self) ≡ some (ok (record self { expires = expires }))
unfolding from_pem serialize_pem from_existing
from_pem-serialize_pem c self first expires bound encoded one parsed time key =
    let secs = self.expires / nanos_per_sec in
    let rest = c.dtls_serialize_pem self.dtls_certificate in
    let text : serialize_pem c self ≡ first ++ (10 ∷ 10 ∷ rest) =
      ap (λ t. t ++ (10 ∷ rest)) encoded ∙ append_assoc first (10 ∷ []) (10 ∷ rest) in
    ap (from_pem c) text
    ∙ rw (from_pem, blocks_of_one [] first rest one, parsed)
        (with_expiry_lem c (to_le_bytes 8 secs) (to_le_bytes 8 secs) (blocks_from [] rest) expires
          self.dtls_certificate (first_le_bytes 8 secs) (rw (le_bytes_read 8 secs bound) time)
          (rw (join_blocks [] rest) key))
