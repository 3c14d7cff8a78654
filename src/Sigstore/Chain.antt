-- ===== src/Sigstore/Chain.antt =====
-- src/sigstore_verify.rs: the walk from a leaf certificate to a Fulcio root. The X.509 parser and the
-- signature check are given; the embedded certificates are the trust store that the walk is given.
pub mod Laws
use dep_scan.Prelude.{
  List, [], ◌∷◌, Option, none, some, if◌then◌else◌, String, Bool, true, false, not, ◌||◌, any, all,
  str_eq, ◌≡◌, ◌≢◌, refl, arith, In, inl, inr, ◌⊎◌, Bool-cases, eq_iff, is_empty, ◌&&◌,
}
use dep_scan.Prelude.Results.{Result, ok, err, map_err, Bytes, ℤ, Result-cases}
use dep_scan.Prelude.Text.{◌+++◌}

pub record TrustAnchor : Type 0 where
  pub der : Bytes
  pub is_root : Bool
  pub label : String

pub data ChainError : Type 0 where
  unknown_issuer : String → ChainError
  signature_invalid : String → ChainError
  missing_code_signing_eku : ChainError
  malformed_cert : String → ChainError

-- `Display`
unfoldable pub show_chain_error : ChainError → String
show_chain_error (unknown_issuer dn) = "unknown issuer (not in Fulcio trust store): " +++ dn
show_chain_error (signature_invalid link) = "signature invalid on chain link: " +++ link
show_chain_error missing_code_signing_eku =
    "leaf certificate is missing the code-signing EKU (1.3.6.1.5.5.7.3.3); Fulcio leaves must carry this EKU"
show_chain_error (malformed_cert why) = "malformed certificate DER: " +++ why

-- An extension of a certificate, as far as the code looks at it: an extended key usage with its flag
-- for code signing and its other identifiers, a subject alternative name with its URIs (`none` for
-- a name of another form), or any other.
pub data Extension : Type 0 where
  extended_key_usage : Bool → List String → Extension
  subject_alternative_name : List (Option String) → Extension
  other_extension : Extension

pub record X509 (Certificate : Type 0) : Type 0 where
  pub from_der : Bytes → Result Certificate String
  pub subject : Certificate → String
  pub issuer : Certificate → String
  -- each with its object identifier
  pub extensions : Certificate → List (String × Extension)
  -- a child's signature under a parent's public key
  pub verify_signature : Certificate → Certificate → Result Unit String
  pub subject_public_key : Certificate → Bytes
  pub not_before : Certificate → ℤ
  pub not_after : Certificate → ℤ

abbrev is_code_signing : String × Extension → Bool
is_code_signing (oid, extended_key_usage code_signing other) =
    code_signing || any (str_eq "1.3.6.1.5.5.7.3.3") other
is_code_signing (oid, subject_alternative_name names) = false
is_code_signing (oid, other_extension) = false

-- `.filter(|a| a.is_root)`
abbrev pub roots_only : List TrustAnchor → List TrustAnchor
roots_only [] = []
roots_only (a ∷ more) = let rest = roots_only more in if a.is_root then a ∷ rest else rest

module _ {Certificate : Type 0} (x509 : X509 Certificate) where
  unfoldable pub leaf_has_code_signing_eku : Certificate → Bool
  leaf_has_code_signing_eku leaf = any is_code_signing (x509.extensions leaf)

  unfoldable pub has_subject : String → TrustAnchor → Bool
  has_subject dn a = elim (x509.from_der a.der) [
    | ok cert ↦ str_eq (x509.subject cert) dn
    | err e ↦ false
  ]

  unfoldable pub find_anchors_by_subject : List TrustAnchor → String → List TrustAnchor
  unfolding has_subject
  find_anchors_by_subject [] dn = []
  find_anchors_by_subject (a ∷ store) dn =
      let rest = find_anchors_by_subject store dn in if has_subject dn a then a ∷ rest else rest

  unfoldable pub verify_signed_by : Certificate → TrustAnchor → String → Result Unit ChainError
  verify_signed_by child parent link_label = elim (x509.from_der parent.der) [
    | err e ↦
        err (malformed_cert ("embedded anchor " +++ parent.label +++ " failed to parse: " +++ e))
    | ok parent_cert ↦ elim (x509.verify_signature child parent_cert) [
      | ok u ↦ ok tt
      | err e ↦ err (signature_invalid (link_label +++ " (" +++ parent.label +++ "): " +++ e))
    ]
  ]

  abbrev last_error : Option ChainError → String → ChainError
  last_error none dn = unknown_issuer dn
  last_error (some e) dn = e

  -- The loop over the candidate roots, with the last error so far; none at all is an unknown issuer.
  unfoldable pub try_roots :
      Certificate → String → Option ChainError → List TrustAnchor → Result Unit ChainError
  unfolding verify_signed_by
  try_roots intermediate dn last [] = err (last_error last dn)
  try_roots intermediate dn last (root ∷ roots) =
      elim (verify_signed_by intermediate root "intermediate-by-root") [
        | ok u ↦ ok tt
        | err e ↦ try_roots intermediate dn (some e) roots
      ]

  unfoldable pub verify_intermediate_to_root :
      TrustAnchor → List TrustAnchor → Result Unit ChainError
  unfolding try_roots find_anchors_by_subject
  verify_intermediate_to_root parent trust_store = elim (x509.from_der parent.der) [
    | err e ↦
        err (malformed_cert ("embedded anchor " +++ parent.label +++ " failed to parse: " +++ e))
    | ok intermediate ↦
        let dn = x509.issuer intermediate in
        try_roots intermediate dn none (roots_only (find_anchors_by_subject trust_store dn))
  ]

  -- The loop over the candidate parents; the first whose signature verifies decides.
  unfoldable pub try_parents :
      Certificate
      → String
      → List TrustAnchor
      → Option ChainError
      → List TrustAnchor
      → Result Unit ChainError
  unfolding verify_signed_by verify_intermediate_to_root
  try_parents leaf dn trust_store last [] = err (last_error last dn)
  try_parents leaf dn trust_store last (parent ∷ parents) =
      elim (verify_signed_by leaf parent "leaf-by-parent") [
        | ok u ↦ if parent.is_root then ok tt else verify_intermediate_to_root parent trust_store
        | err e ↦ try_parents leaf dn trust_store (some e) parents
      ]

  unfoldable pub verify_fulcio_chain_against : Bytes → List TrustAnchor → Result Unit ChainError
  unfolding leaf_has_code_signing_eku find_anchors_by_subject try_parents
  verify_fulcio_chain_against leaf_der trust_store = elim (x509.from_der leaf_der) [
    | err e ↦ err (malformed_cert ("leaf cert parse failed: " +++ e))
    | ok leaf ↦
        let dn = x509.issuer leaf in
        if not (leaf_has_code_signing_eku leaf)
        then err missing_code_signing_eku
        else try_parents leaf dn trust_store none (find_anchors_by_subject trust_store dn)
  ]
