-- ===== src/Sigstore/Dsse/Npm.antt =====
-- src/policy/npm_provenance.rs with the verifier of src/sigstore_verify.rs in its place
-- (`RealSigstoreVerifier`).
use dep_scan.Prelude.{List, [], ◌∷◌, none, some, String, Bool, ◌≡◌, ◌≢◌, refl, inl, inr, In}
use dep_scan.Policy.{pass}
use dep_scan.Policy.Context.{ScanContext}
use dep_scan.Policy.Provenance.{npm_provenance_evaluate}
use dep_scan.Policy.Provenance.Digest.{HasValid, outcome-cases, Digest}
use dep_scan.Policy.Provenance.Npm.{npm_provenance_evaluate-pass_iff}
use dep_scan.Sigstore.{AttestationBundle}
use dep_scan.Sigstore.Dsse.{SigstoreServices, verify_dsse_bundle}
use dep_scan.Sigstore.Dsse.Laws.{Verified, verify_dsse_bundle-Verified}

module _ {Json Certificate Ed25519Key P256Key P256Signature : Type 0}
    (services : SigstoreServices Json Certificate Ed25519Key P256Key P256Signature) where
  HasValid-Verified :
      (bundles : List AttestationBundle) (algo hex : String)
      → HasValid (verify_dsse_bundle services) bundles algo hex
      → (b : AttestationBundle) × In b bundles × Verified services b algo hex
  HasValid-Verified [] algo hex h = absurd h
  HasValid-Verified (b ∷ bundles) algo hex (inr later) =
      let (c, m, v) = HasValid-Verified bundles algo hex later in (c, inr m, v)
  HasValid-Verified (b ∷ bundles) algo hex (inl here) =
      elim (outcome-cases (verify_dsse_bundle services) (verify_dsse_bundle services b algo hex)) [
        | inl (identity, e) ↦
            (b, inl refl, verify_dsse_bundle-Verified services b algo hex identity e)
        | inr (reason, e) ↦ absurd (rw e at here)
      ]

  -- An npm package whose provenance was queried passes only if one of its bundles states the digest
  -- that the registry published, in a payload signed by a certificate that chains to a root of the
  -- trust store and logged within the certificate's validity.
  pub npm_provenance_evaluate-Verified :
      (require : Bool) (ctx : ScanContext AttestationBundle)
      → npm_provenance_evaluate (verify_dsse_bundle services) require ctx ≡ pass
      → ctx.npm_attestations ≢ none
      → (bundles : List AttestationBundle) × (ctx.npm_attestations ≡ some bundles)
        × ((digest : Digest ctx) × ((b : AttestationBundle) × In b bundles
              × Verified services b digest.algo digest.hex))
  npm_provenance_evaluate-Verified require ctx h queried =
      let (fetched, how) =
        (npm_provenance_evaluate-pass_iff (verify_dsse_bundle services) require ctx).0 h in
      elim how [
        | inl unqueried ↦ absurd (queried unqueried)
        | inr proven ↦ (
          proven.bundles,
          proven.attested,
          (
            proven.digest,
            HasValid-Verified proven.bundles proven.digest.algo proven.digest.hex proven.verified,
          ),
        )
      ]
