-- ===== src/Policy/Provenance/Pypi.antt =====
-- src/policy/pypi_provenance.rs: what lets a PyPI package pass.
use dep_scan.Prelude.{
  ◌∙◌, none, some, ◌≡◌, refl, arith, Option-cases, inl, inr, ◌⊎◌, ◌↔◌, String, ap, Bool, string_eq,
}
use dep_scan.Policy.{pass}
use dep_scan.Policy.Context.{ScanContext}
use dep_scan.Policy.Provenance.{VerificationOutcome, pypi_provenance_evaluate}
use dep_scan.Policy.Provenance.Digest.{
  IsValid, outcome-cases, Digest, expected_digest-Digest, expected_digest-pass,
}

module _ {Bundle : Type 0} (verify : Bundle → String → String → VerificationOutcome) where
  -- What a queried PyPI file must show: its bundle verifies against its published digest.
  pub record PypiProven (ctx : ScanContext Bundle) : Type 0 where
    pub bundle : Bundle
    pub attested : ctx.pypi_attestation ≡ some (some bundle)
    pub digest : Digest ctx
    pub verified : IsValid (verify bundle digest.algo digest.hex)

  pypi-attested :
      (require : Bool) (ctx : ScanContext Bundle) (bundle : Bundle)
      → ctx.pypi_provenance_fetch_error ≡ none
      → ctx.pypi_attestation ≡ some (some bundle)
      → pypi_provenance_evaluate verify require ctx ≡ pass
      → PypiProven ctx
  unfolding pypi_provenance_evaluate
  pypi-attested require ctx bundle fetched attested h =
      let (d, k) =
        expected_digest-pass ctx require _ _ _
          (rw (fetched, attested, pypi_provenance_evaluate) at h) in
      record {
        bundle = bundle;
        attested = attested;
        digest = d;
        verified = elim (outcome-cases verify (verify bundle d.algo d.hex)) [
          | inl (identity, e) ↦ rw e tt
          | inr (reason, e) ↦ absurd (ground arith)
        ];
      }

  pypi-of_PypiProven :
      (require : Bool) (ctx : ScanContext Bundle)
      → ctx.pypi_provenance_fetch_error ≡ none
      → (p : PypiProven ctx) → pypi_provenance_evaluate verify require ctx ≡ pass
  unfolding pypi_provenance_evaluate
  pypi-of_PypiProven require ctx fetched p =
      rw
        (
          fetched,
          p.attested,
          expected_digest-Digest ctx require _ _ _ p.digest,
          pypi_provenance_evaluate,
        )
        (elim (outcome-cases verify (verify p.bundle p.digest.algo p.digest.hex)) [
          | inl (identity, e) ↦ rw e
          | inr (reason, e) ↦ absurd (rw e at (p.verified))
        ])

  -- A PyPI package passes exactly when no fetch failed and either provenance was not queried or the
  -- published bundle verifies against the hash that the registry published, required or not.
  pub pypi_provenance_evaluate-pass_iff :
      (require : Bool) (ctx : ScanContext Bundle)
      → (pypi_provenance_evaluate verify require ctx ≡ pass) ↔ (
          (ctx.pypi_provenance_fetch_error ≡ none)
          × ((ctx.pypi_attestation ≡ none) ⊎ PypiProven ctx))
  unfolding pypi_provenance_evaluate
  pypi_provenance_evaluate-pass_iff require ctx =
      elim (Option-cases ctx.pypi_provenance_fetch_error) [
        | inr (e, failed) ↦ ground arith
        | inl fetched ↦ (
          λ h. elim (Option-cases ctx.pypi_attestation) [
            | inl unqueried ↦ (fetched, inl unqueried)
            | inr (attestation, attested) ↦ elim (Option-cases attestation) [
              | inl unpublished ↦ absurd (ground arith)
              | inr (bundle, published) ↦ (
                fetched,
                inr (pypi-attested require ctx bundle fetched (attested ∙ ap some published) h),
              )
            ]
          ],
          λ (ok, how). elim how [
            | inl unqueried ↦ rw (fetched, unqueried, pypi_provenance_evaluate) refl
            | inr proven ↦ pypi-of_PypiProven require ctx fetched proven
          ],
        )
      ]
