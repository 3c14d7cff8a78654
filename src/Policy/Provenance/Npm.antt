-- ===== src/Policy/Provenance/Npm.antt =====
-- src/policy/npm_provenance.rs: what lets an npm package pass.
use dep_scan.Prelude.{
  List, [], ◌∷◌, none, some, ◌≡◌, refl, arith, Option-cases, inl, inr, ◌⊎◌, ◌↔◌, String, Bool,
  false, is_empty, string_eq,
}
use dep_scan.Policy.{pass}
use dep_scan.Policy.Context.{ScanContext}
use dep_scan.Policy.Provenance.{VerificationOutcome, npm_provenance_evaluate}
use dep_scan.Policy.Provenance.Digest.{
  HasValid, failure_reasons-none, Digest, expected_digest-Digest, expected_digest-pass,
}

module _ {Bundle : Type 0} (verify : Bundle → String → String → VerificationOutcome) where
  -- What a queried npm package must show: bundles, a digest, and a bundle that verifies against it.
  pub record NpmProven (ctx : ScanContext Bundle) : Type 0 where
    pub bundles : List Bundle
    pub attested : ctx.npm_attestations ≡ some bundles
    pub digest : Digest ctx
    pub verified : HasValid verify bundles digest.algo digest.hex

  npm-attested :
      (require : Bool) (ctx : ScanContext Bundle) (bundles : List Bundle)
      → ctx.npm_attestation_fetch_error ≡ none
      → ctx.npm_attestations ≡ some bundles
      → npm_provenance_evaluate verify require ctx ≡ pass
      → NpmProven ctx
  unfolding npm_provenance_evaluate
  npm-attested require ctx bundles fetched attested h =
      let empty : is_empty bundles ≡ false = ground arith in
      let (d, k) =
        expected_digest-pass ctx require _ _ _
          (rw (fetched, attested, empty, npm_provenance_evaluate) at h) in
      record {
        bundles = bundles;
        attested = attested;
        digest = d;
        verified = (failure_reasons-none verify bundles d.algo d.hex).0 (ground arith);
      }

  npm-of_NpmProven :
      (require : Bool) (ctx : ScanContext Bundle)
      → ctx.npm_attestation_fetch_error ≡ none
      → (p : NpmProven ctx) → npm_provenance_evaluate verify require ctx ≡ pass
  unfolding npm_provenance_evaluate
  npm-of_NpmProven require ctx fetched p =
      let found = (failure_reasons-none verify p.bundles p.digest.algo p.digest.hex).1 p.verified in
      let some_bundle : is_empty p.bundles ≡ false =
        nonempty p.bundles p.digest.algo p.digest.hex p.verified in
      rw
        (
          fetched,
          p.attested,
          some_bundle,
          expected_digest-Digest ctx require _ _ _ p.digest,
          npm_provenance_evaluate,
        )
        (rw found)
    where
      nonempty :
          (bs : List Bundle) (algo hex : String) → HasValid verify bs algo hex → is_empty bs ≡ false
      nonempty [] algo hex h = absurd h
      nonempty (b ∷ bs) algo hex h = refl

  -- An npm package passes exactly when no fetch failed and either provenance was not queried or a
  -- published bundle verifies against the hash that the registry published, required or not.
  pub npm_provenance_evaluate-pass_iff :
      (require : Bool) (ctx : ScanContext Bundle)
      → (npm_provenance_evaluate verify require ctx ≡ pass) ↔ (
          (ctx.npm_attestation_fetch_error ≡ none)
          × ((ctx.npm_attestations ≡ none) ⊎ NpmProven ctx))
  unfolding npm_provenance_evaluate
  npm_provenance_evaluate-pass_iff require ctx =
      elim (Option-cases ctx.npm_attestation_fetch_error) [
        | inr (e, failed) ↦ ground arith
        | inl fetched ↦ (
          λ h. elim (Option-cases ctx.npm_attestations) [
            | inl unqueried ↦ (fetched, inl unqueried)
            | inr (bundles, attested) ↦
                (fetched, inr (npm-attested require ctx bundles fetched attested h))
          ],
          λ (ok, how). elim how [
            | inl unqueried ↦ rw (fetched, unqueried, npm_provenance_evaluate) refl
            | inr proven ↦ npm-of_NpmProven require ctx fetched proven
          ],
        )
      ]
