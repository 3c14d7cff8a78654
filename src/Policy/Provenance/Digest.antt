-- ===== src/Policy/Provenance/Digest.antt =====
-- What the two sigstore policies share: the bundles that verify, and the digest of the context.
use dep_scan.Prelude.{
  ◌∙◌, List, [], ◌∷◌, none, some, ◌≡◌, refl, sym, arith, Option-cases, inl, inr, ◌⊎◌, ◌↔◌, String,
  Bool, ◌≢◌, string_eq,
}
use dep_scan.Prelude.Text.{split_once}
use dep_scan.Policy.{PolicyResult, pass}
use dep_scan.Policy.Context.{ScanContext}
use dep_scan.Policy.Provenance.{
  VerificationOutcome, expected_digest, failure_reasons, extract_provenance_identity,
}

abbrev pub IsValid : VerificationOutcome → Type 0
IsValid (VerificationOutcome.valid identity) = Unit
IsValid (VerificationOutcome.invalid reason) = ⊥

module _ {Bundle : Type 0} (verify : Bundle → String → String → VerificationOutcome) where
  -- Some bundle of the list verifies.
  abbrev pub HasValid : List Bundle → String → String → Type 0
  HasValid [] algo hex = ⊥
  HasValid (b ∷ bs) algo hex = IsValid (verify b algo hex) ⊎ HasValid bs algo hex

  pub outcome-cases :
      (o : VerificationOutcome)
      → ((identity : String) × (o ≡ VerificationOutcome.valid identity))
        ⊎ ((reason : String) × (o ≡ VerificationOutcome.invalid reason))
  outcome-cases (VerificationOutcome.valid identity) = inl (identity, refl)
  outcome-cases (VerificationOutcome.invalid reason) = inr (reason, refl)

  pub failure_reasons-none :
      (bs : List Bundle) (algo hex : String)
      → (failure_reasons verify bs algo hex ≡ none) ↔ HasValid bs algo hex
  unfolding failure_reasons
  failure_reasons-none [] algo hex = ((λ h. cc), λ h. absurd h)
  failure_reasons-none (b ∷ bs) algo hex = elim (outcome-cases (verify b algo hex)) [
    | inl (identity, e) ↦ ground arith
    | inr (reason, e) ↦ ground (arith, failure_reasons-none bs algo hex)
  ]

  -- An identity is recorded exactly for a package with a valid bundle.
  pub extract_provenance_identity-ne_none :
      (bs : List Bundle) (algo hex : String)
      → (extract_provenance_identity verify bs algo hex ≢ none) ↔ HasValid bs algo hex
  unfolding extract_provenance_identity
  extract_provenance_identity-ne_none [] algo hex = ((λ h. absurd (h refl)), λ h. absurd h)
  extract_provenance_identity-ne_none (b ∷ bs) algo hex = elim (outcome-cases (verify b algo hex)) [
    | inl (identity, e) ↦ ground arith
    | inr (reason, e) ↦ ground (arith, extract_provenance_identity-ne_none bs algo hex)
  ]

-- The hash that the registry published, of the form algo:hex.
pub record Digest {Bundle : Type 0} (ctx : ScanContext Bundle) : Type 0 where
  pub hash : String
  pub hashed : ctx.metadata.content_hash ≡ some hash
  pub algo : String
  pub hex : String
  pub split : split_once b':' hash ≡ some (algo, hex)

module _ {Bundle : Type 0} (ctx : ScanContext Bundle) (required : Bool) (no_hash : String)
    (bad_hash : String → String) (k : String → String → PolicyResult) where
  pub expected_digest-Digest :
      (d : Digest ctx) → expected_digest ctx required no_hash bad_hash k ≡ k d.algo d.hex
  unfolding expected_digest
  expected_digest-Digest d = rw (d.hashed, expected_digest) (rw (d.split))

  pub expected_digest-pass :
      expected_digest ctx required no_hash bad_hash k ≡ pass
      → (d : Digest ctx) × (k d.algo d.hex ≡ pass)
  unfolding expected_digest
  expected_digest-pass h = elim (Option-cases ctx.metadata.content_hash) [
    | inl unhashed ↦ absurd (ground arith)
    | inr (hash, hashed) ↦ elim (Option-cases (split_once b':' hash)) [
      | inl bad ↦ absurd (ground arith)
      | inr (parts, split) ↦
          let d : Digest ctx = record {
            hash = hash;
            hashed = hashed;
            algo = parts.0;
            hex = parts.1;
            split = split;
          } in
          (d, sym (expected_digest-Digest d) ∙ h)
    ]
  ]
