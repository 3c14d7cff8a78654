-- ===== src/Sigstore/Dsse/Laws.antt =====
-- src/sigstore_verify.rs: what a bundle that verifies rests on.
use dep_scan.Prelude.{
  List, ◌∷◌, some, String, false, ◌≡◌, arith, inl, inr, Option-cases, List-cases, eq_iff, sym, ◌∙◌,
  ap,
}
use dep_scan.Prelude.Results.{ok, Result-cases, Bytes, lt_int}
use dep_scan.Policy.Provenance.{VerificationOutcome}
use dep_scan.Sigstore.{AttestationBundle, DsseSignature, RekorEntry}
use dep_scan.Sigstore.Rekor.{decoded_payload, verify_rekor_inclusion}
use dep_scan.Sigstore.Chain.{verify_fulcio_chain_against}
use dep_scan.Sigstore.Chain.Laws.{Chained, verify_fulcio_chain_against-Chained}
use dep_scan.Sigstore.Dsse.{
  SigstoreServices, SlsaStatement, subject_digest, dsse_pae, parse_slsa_statement,
  extract_leaf_cert_der, check_subject, check_chain, check_signature, check_log, verify_dsse_bundle,
}

module _ {Json Certificate Ed25519Key P256Key P256Signature : Type 0}
    (services : SigstoreServices Json Certificate Ed25519Key P256Key P256Signature) where
  -- The bundle's payload states the expected digest for its first subject.
  pub record SubjectMatches (bundle : AttestationBundle) (algo hex : String) (payload : Bytes)
      : Type 0 where
    pub statement : SlsaStatement
    pub decoded : decoded_payload services.rekor bundle.dsse_envelope ≡ some payload
    pub parsed : parse_slsa_statement services payload ≡ ok statement
    pub digest : subject_digest statement algo ≡ some hex

  -- The bundle's certificate chains to a root of the trust store.
  pub record Certified (bundle : AttestationBundle) (cert : Certificate) : Type 0 where
    pub der : Bytes
    pub extracted : extract_leaf_cert_der services bundle.verification_material ≡ ok der
    pub parsed : services.x509.from_der der ≡ ok cert
    pub chained : Chained services.x509 services.trust_store der

  -- The first signature of the bundle is one of its type and payload under the certificate's key.
  pub record Signed (bundle : AttestationBundle) (payload : Bytes) (cert : Certificate)
      : Type 0 where
    pub key : P256Key
    pub first : DsseSignature
    pub more : List DsseSignature
    pub sig_bytes : Bytes
    pub signature : P256Signature
    pub is_key : services.rekor.crypto.p256_key (services.x509.subject_public_key cert) ≡ ok key
    pub signatures : bundle.dsse_envelope.signatures ≡ first ∷ more
    pub decoded : services.rekor.crypto.base64_decode first.sig_b64 ≡ ok sig_bytes
    pub is_der : services.rekor.crypto.p256_from_der sig_bytes ≡ ok signature
    pub verified :
        services.rekor.crypto.p256_verify key
          (dsse_pae bundle.dsse_envelope.payload_type payload)
          signature
        ≡ ok tt

  -- The bundle's one log entry is accepted, with a time within the certificate's validity.
  pub record Logged (bundle : AttestationBundle) (cert : Certificate) : Type 0 where
    pub entry : RekorEntry
    pub accepted : verify_rekor_inclusion services.rekor bundle ≡ ok entry
    pub not_before : lt_int entry.integrated_time (services.x509.not_before cert) ≡ false
    pub not_after : lt_int (services.x509.not_after cert) entry.integrated_time ≡ false

  pub record Verified (bundle : AttestationBundle) (algo hex : String) : Type 0 where
    pub payload : Bytes
    pub cert : Certificate
    pub subject : SubjectMatches bundle algo hex payload
    pub certified : Certified bundle cert
    pub signed : Signed bundle payload cert
    pub logged : Logged bundle cert

  check_subject-SubjectMatches :
      (bundle : AttestationBundle) (algo hex : String) (payload : Bytes)
      → check_subject services bundle algo hex ≡ ok payload
      → SubjectMatches bundle algo hex payload
  unfolding check_subject
  check_subject-SubjectMatches bundle algo hex payload h =
      elim (Option-cases (decoded_payload services.rekor bundle.dsse_envelope)) [
        | inl undecoded ↦ absurd (ground arith)
        | inr (bytes, decoded) ↦ elim (Result-cases (parse_slsa_statement services bytes)) [
          | inr (e, unparsed) ↦ absurd (ground arith)
          | inl (statement, parsed) ↦ elim (Option-cases (subject_digest statement algo)) [
            | inl missing ↦ absurd (ground arith)
            | inr (actual, digest) ↦
                let same : bytes ≡ payload = ground (arith, eq_iff actual hex) in
                record {
                  statement = statement;
                  decoded = decoded ∙ ap some same;
                  parsed = rw (sym same) parsed;
                  digest = ground (arith, eq_iff actual hex);
                }
          ]
        ]
      ]

  check_chain-Certified :
      (bundle : AttestationBundle) (cert : Certificate)
      → check_chain services bundle ≡ ok cert
      → Certified bundle cert
  unfolding check_chain
  check_chain-Certified bundle cert h =
      elim (Result-cases (extract_leaf_cert_der services bundle.verification_material)) [
        | inr (e, missing) ↦ absurd (ground arith)
        | inl (der, extracted) ↦ elim (Result-cases (services.x509.from_der der)) [
          | inr (e, malformed) ↦ absurd (ground arith)
          | inl (c, parsed) ↦
              elim (Result-cases
                (verify_fulcio_chain_against services.x509 der services.trust_store)) [
                  | inr (e, refused) ↦ absurd (ground arith)
                  | inl (tt, accepted) ↦ record {
                    der = der;
                    extracted = extracted;
                    parsed = ground arith;
                    chained =
                        verify_fulcio_chain_against-Chained services.x509 der services.trust_store
                          accepted;
                  }
                ]
        ]
      ]

  check_signature-Signed :
      (bundle : AttestationBundle) (payload : Bytes) (cert : Certificate)
      → check_signature services bundle payload cert ≡ ok tt
      → Signed bundle payload cert
  unfolding check_signature
  check_signature-Signed bundle payload cert h =
      let crypto = services.rekor.crypto in
      elim (Result-cases (crypto.p256_key (services.x509.subject_public_key cert))) [
        | inr (e, keyless) ↦ absurd (ground arith)
        | inl (key, is_key) ↦ elim (List-cases bundle.dsse_envelope.signatures) [
          | inl unsigned ↦ absurd (ground arith)
          | inr (s, more, signatures) ↦ elim (Result-cases (crypto.base64_decode s.sig_b64)) [
            | inr (e, undecoded) ↦ absurd (ground arith)
            | inl (sig_bytes, decoded) ↦ elim (Result-cases (crypto.p256_from_der sig_bytes)) [
              | inr (e, malformed) ↦ absurd (ground arith)
              | inl (signature, is_der) ↦
                  elim (Result-cases (
                    crypto.p256_verify key (dsse_pae bundle.dsse_envelope.payload_type payload)
                      signature)) [
                        | inr (e, refused) ↦ absurd (ground arith)
                        | inl (tt, verified) ↦ record {
                          key = key;
                          first = s;
                          more = more;
                          sig_bytes = sig_bytes;
                          signature = signature;
                          is_key = is_key;
                          signatures = signatures;
                          decoded = decoded;
                          is_der = is_der;
                          verified = verified;
                        }
                      ]
            ]
          ]
        ]
      ]

  check_log-Logged :
      (bundle : AttestationBundle) (cert : Certificate)
      → check_log services bundle cert ≡ ok tt
      → Logged bundle cert
  unfolding check_log
  check_log-Logged bundle cert h =
      elim (Result-cases (verify_rekor_inclusion services.rekor bundle)) [
        | inr (e, refused) ↦ absurd (ground arith)
        | inl (entry, accepted) ↦ record {
          entry = entry;
          accepted = accepted;
          not_before = ground arith;
          not_after = ground arith;
        }
      ]

  -- A bundle that verifies states the expected digest for its first subject, in a payload signed by
  -- the key of a certificate that chains to a root of the trust store, and has one accepted log
  -- entry, whose time lies within the certificate's validity.
  pub verify_dsse_bundle-Verified :
      (bundle : AttestationBundle) (algo hex identity : String)
      → verify_dsse_bundle services bundle algo hex ≡ VerificationOutcome.valid identity
      → Verified bundle algo hex
  unfolding verify_dsse_bundle
  verify_dsse_bundle-Verified bundle algo hex identity h =
      elim (Result-cases (check_subject services bundle algo hex)) [
        | inr (e, refused) ↦ absurd (ground arith)
        | inl (payload, subject) ↦ elim (Result-cases (check_chain services bundle)) [
          | inr (e, refused) ↦ absurd (ground arith)
          | inl (cert, certified) ↦
              elim (Result-cases (check_signature services bundle payload cert)) [
                | inr (e, refused) ↦ absurd (ground arith)
                | inl (tt, signed) ↦ elim (Result-cases (check_log services bundle cert)) [
                  | inr (e, refused) ↦ absurd (ground arith)
                  | inl (tt, logged) ↦ record {
                    payload = payload;
                    cert = cert;
                    subject = check_subject-SubjectMatches bundle algo hex payload subject;
                    certified = check_chain-Certified bundle cert certified;
                    signed = check_signature-Signed bundle payload cert signed;
                    logged = check_log-Logged bundle cert logged;
                  }
                ]
              ]
        ]
      ]
