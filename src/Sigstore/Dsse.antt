-- ===== src/Sigstore/Dsse.antt =====
-- src/sigstore_verify.rs and src/registry/npm_attestation.rs: the verification of one attestation
-- bundle against the digest that a registry published.
pub mod Laws
pub mod Npm
mod Examples
use dep_scan.Prelude.{
  ℕ, ◌++◌, List, [], ◌∷◌, Option, none, some, if◌then◌else◌, String, Bool, true, false, not, any,
  str_eq, lookup, string_eq, length, map_insert,
}
use dep_scan.Prelude.Results.{Result, ok, err, and_then, map_err, Bytes, lt_int}
use dep_scan.Prelude.Text.{◌+++◌, show}
use dep_scan.Prelude.Lines.{as_bytes}
use dep_scan.Policy.Provenance.{VerificationOutcome}
use dep_scan.Sigstore.{
  show_rekor_error, timestamp_before_cert_validity, timestamp_after_cert_validity,
  VerificationMaterial, x509_cert_chain, public_key_hint, DsseSignature, AttestationBundle,
  JsonReader,
}
use dep_scan.Sigstore.Rekor.{RekorServices, decoded_payload, verify_rekor_inclusion}
use dep_scan.Sigstore.Chain.{
  TrustAnchor, X509, show_chain_error, Extension, subject_alternative_name, extended_key_usage,
  other_extension, verify_fulcio_chain_against,
}

pub record SlsaSubject : Type 0 where
  pub name : String
  pub digest : List (String × String)

pub record SlsaStatement : Type 0 where
  pub subjects : List SlsaSubject
  pub predicate_type : String

unfoldable pub subject_digest : SlsaStatement → String → Option String
subject_digest statement algo = elim statement.subjects [
  | [] ↦ none
  | s ∷ more ↦ lookup algo s.digest
]

-- `dsse_pae`
unfoldable pub dsse_pae : String → Bytes → Bytes
dsse_pae payload_type payload =
    as_bytes "DSSEv1 "
    ++ as_bytes (show (length (as_bytes payload_type)))
    ++ as_bytes " "
    ++ as_bytes payload_type
    ++ as_bytes " "
    ++ as_bytes (show (length payload))
    ++ as_bytes " "
    ++ payload

abbrev or_empty : Option String → String
or_empty none = ""
or_empty (some s) = s

-- What the verification calls besides the Rekor part: certificates and the anchors.
pub record SigstoreServices (Json Certificate Ed25519Key P256Key P256Signature : Type 0)
    : Type 0 where
  pub rekor : RekorServices Json Ed25519Key P256Key P256Signature
  pub x509 : X509 Certificate
  pub trust_store : List TrustAnchor

module _ {Json Certificate Ed25519Key P256Key P256Signature : Type 0}
    (services : SigstoreServices Json Certificate Ed25519Key P256Key P256Signature) where
  -- The members of a `digest` object that hold texts.
  abbrev digests : List (String × Json) → List (String × String) → List (String × String)
  digests [] found = found
  digests ((k, v) ∷ members) found =
      digests members
        (elim (services.rekor.json.as_str v) [ none ↦ found | some hex ↦ map_insert k hex found ])

  unfoldable pub parse_subjects : List Json → Result (List SlsaSubject) String
  parse_subjects [] = ok []
  parse_subjects (subj ∷ values) =
      let json = services.rekor.json in
      let rest = parse_subjects values in
      elim (json.as_object (json.index subj "digest")) [
        | none ↦ err "missing 'digest' object in subject"
        | some members ↦ and_then rest (λ more. ok (
            record {
              name = or_empty (json.as_str (json.index subj "name"));
              digest = digests members [];
            }
            ∷ more))
      ]

  unfoldable pub parse_slsa_statement : Bytes → Result SlsaStatement String
  unfolding parse_subjects
  parse_slsa_statement payload =
      let json = services.rekor.json in
      elim (json.from_slice payload) [
        | err e ↦ err ("invalid JSON in SLSA payload: " +++ e)
        | ok raw ↦ elim (json.as_array (json.index raw "subject")) [
          | none ↦ err "missing 'subject' array"
          | some subjects_raw ↦ and_then (parse_subjects subjects_raw) (λ subjects. ok (record {
            subjects = subjects;
            predicate_type = or_empty (json.as_str (json.index raw "predicateType"));
          }))
        ]
      ]

  unfoldable pub extract_leaf_cert_der : VerificationMaterial → Result Bytes String
  extract_leaf_cert_der (x509_cert_chain []) = err "cert chain is empty"
  extract_leaf_cert_der (x509_cert_chain (leaf_b64 ∷ certs)) =
      map_err (λ e. "base64 decode failed: " +++ e) (services.rekor.crypto.base64_decode leaf_b64)
  extract_leaf_cert_der (public_key_hint hint) =
      err "bundle uses a public key hint; cannot verify cert chain"

  -- The first URI among the names.
  abbrev first_uri : List (Option String) → Option String
  first_uri [] = none
  first_uri (none ∷ names) = first_uri names
  first_uri (some uri ∷ names) = some uri

  abbrev alternative_names : String × Extension → List (Option String)
  alternative_names (oid, subject_alternative_name names) =
      if str_eq oid "2.5.29.17" then names else []
  alternative_names (oid, extended_key_usage flag other) = []
  alternative_names (oid, other_extension) = []

  -- The loops over the extensions and their names.
  abbrev find_uri : List (String × Extension) → String
  find_uri [] = ""
  find_uri (e ∷ extensions) = elim (first_uri (alternative_names e)) [
    | some uri ↦ uri
    | none ↦ find_uri extensions
  ]

  unfoldable pub extract_subject_identity : Certificate → String
  extract_subject_identity cert = find_uri (services.x509.extensions cert)

  -- Steps 1 and 2: the payload, once its subject has the expected digest.
  unfoldable pub check_subject : AttestationBundle → String → String → Result Bytes String
  unfolding parse_slsa_statement subject_digest
  check_subject bundle algo expected_hex =
      elim (decoded_payload services.rekor bundle.dsse_envelope) [
        | none ↦ err "failed to base64-decode DSSE payload"
        | some payload ↦ elim (parse_slsa_statement payload) [
          | err e ↦ err ("failed to parse SLSA statement: " +++ e)
          | ok statement ↦ elim (subject_digest statement algo) [
            | none ↦ err ("SLSA predicate has no subject digest for algorithm '" +++ algo +++ "'")
            | some actual ↦
                if not (str_eq actual expected_hex)
                then err (
                    "subject digest mismatch: attestation has " +++ algo +++ ":" +++ actual
                    +++ ", registry served " +++ algo +++ ":" +++ expected_hex)
                else ok payload
          ]
        ]
      ]

  -- Steps 3 to 5: the leaf certificate, once its chain is accepted.
  unfoldable pub check_chain : AttestationBundle → Result Certificate String
  unfolding extract_leaf_cert_der
  check_chain bundle = elim (extract_leaf_cert_der bundle.verification_material) [
    | err e ↦ err ("failed to decode leaf certificate: " +++ e)
    | ok der ↦ elim (services.x509.from_der der) [
      | err e ↦ err ("failed to parse X.509 certificate: " +++ e)
      | ok cert ↦ elim (verify_fulcio_chain_against services.x509 der services.trust_store) [
        | err e ↦ err ("Fulcio chain validation failed: " +++ show_chain_error e)
        | ok u ↦ ok cert
      ]
    ]
  ]

  -- Steps 6 and 7: the first signature, under the certificate's key.
  unfoldable pub check_signature : AttestationBundle → Bytes → Certificate → Result Unit String
  unfolding dsse_pae
  check_signature bundle payload cert =
      let crypto = services.rekor.crypto in
      elim (crypto.p256_key (services.x509.subject_public_key cert)) [
        | err e ↦ err ("certificate public key is not a valid P-256 key: " +++ e)
        | ok key ↦ elim bundle.dsse_envelope.signatures [
          | [] ↦ err "DSSE envelope has no signatures"
          | s ∷ more ↦ elim (crypto.base64_decode s.sig_b64) [
            | err e ↦ err "failed to base64-decode DSSE signature"
            | ok sig_bytes ↦ elim (crypto.p256_from_der sig_bytes) [
              | err e ↦ err ("failed to parse DER signature: " +++ e)
              | ok signature ↦
                  map_err (λ e. "DSSE signature verification failed: " +++ e)
                    (crypto.p256_verify key (dsse_pae bundle.dsse_envelope.payload_type payload)
                      signature)
            ]
          ]
        ]
      ]

  -- Steps 8 and 9: the transparency log, and its time against the certificate's validity.
  unfoldable pub check_log : AttestationBundle → Certificate → Result Unit String
  check_log bundle cert = elim (verify_rekor_inclusion services.rekor bundle) [
    | err e ↦ err ("Rekor verification failed: " +++ show_rekor_error e)
    | ok entry ↦
        let before = services.x509.not_before cert in
        let after = services.x509.not_after cert in
        if lt_int entry.integrated_time before
        then err (
            "Rekor verification failed: "
            +++ show_rekor_error (timestamp_before_cert_validity entry.integrated_time before))
        else if lt_int after entry.integrated_time
        then err (
            "Rekor verification failed: "
            +++ show_rekor_error (timestamp_after_cert_validity entry.integrated_time after))
        else ok tt
  ]

  abbrev is_fulcio_issuer : String × Extension → Bool
  is_fulcio_issuer (oid, e) = str_eq oid "1.3.6.1.4.1.57264.1.1"

  -- The last step: the identity, where the certificate has the extension of its issuer.
  unfoldable pub check_issuer : Certificate → Result String String
  unfolding extract_subject_identity
  check_issuer cert =
      if not (any is_fulcio_issuer (services.x509.extensions cert))
      then err
          "certificate is missing the Fulcio OIDC issuer extension (1.3.6.1.4.1.57264.1.1); certificate was not issued by Fulcio CA"
      else ok (extract_subject_identity cert)

  abbrev outcome : Result String String → VerificationOutcome
  outcome (ok identity) = VerificationOutcome.valid identity
  outcome (err reason) = VerificationOutcome.invalid reason

  unfoldable pub verify_dsse_bundle : AttestationBundle → String → String → VerificationOutcome
  unfolding check_subject check_chain check_signature check_log check_issuer
  verify_dsse_bundle bundle algo expected_hex = outcome (
      and_then (check_subject bundle algo expected_hex) (λ payload.
        and_then (check_chain bundle) (λ cert.
          and_then (check_signature bundle payload cert)
            (λ u. and_then (check_log bundle cert) (λ u. check_issuer cert)))))
