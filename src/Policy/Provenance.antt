-- ===== src/Policy/Provenance.antt =====
-- src/policy/npm_provenance.rs, pypi_provenance.rs and go_sumdb.rs: the provenance policies. The
-- cryptographic verifiers are injected in the source too; here they are functions.
pub mod Digest
pub mod Npm
pub mod Pypi
pub mod GoSumDb
use dep_scan.Prelude.{
  ◌∙◌, List, [], ◌∷◌, Option, none, some, if◌then◌else◌, ◌≡◌, refl, sym, arith, Option-cases, inl,
  inr, ◌⊎◌, ◌↔◌, String, ap, Bool, true, false, is_empty, ◌≢◌, string_eq,
}
use dep_scan.Prelude.Text.{◌+++◌, split_once, join}
use dep_scan.Policy.Registry.{is_warn}
use dep_scan.Policy.{PolicyResult, pass, warn, block}
use dep_scan.Policy.Context.{
  ScanContext, GoSumDbResult, not_in_sum_db, network_error, parse_error, entry, SumDbEntry,
}

pub data VerificationOutcome : Type 0 where
  valid : String → VerificationOutcome
  invalid : String → VerificationOutcome

pub data SumDbVerifyOutcome : Type 0 where
  valid : SumDbVerifyOutcome
  invalid : String → SumDbVerifyOutcome

-- `if self.require_… { Block(msg) } else { Warn(msg) }`
abbrev pub demand : Bool → String → PolicyResult
demand required msg = if required then block msg else warn msg

-- `content_hash` split at its colon, as both sigstore policies do, each with its own texts.
unfoldable pub expected_digest :
    {Bundle : Type 0}
    → ScanContext Bundle
    → Bool
    → String
    → (String → String)
    → (String → String → PolicyResult)
    → PolicyResult
expected_digest ctx required no_hash bad_hash k = elim ctx.metadata.content_hash [
  | none ↦ demand required no_hash
  | some h ↦ elim (split_once b':' h) [ none ↦ block (bad_hash h) | some r ↦ k r.0 r.1 ]
]

module _ {Bundle : Type 0} (verify : Bundle → String → String → VerificationOutcome) where
  -- The loop over the bundles: `none` as soon as one is valid, else the reasons in order.
  unfoldable pub failure_reasons : List Bundle → String → String → Option (List String)
  failure_reasons [] algo hex = some []
  failure_reasons (bundle ∷ bundles) algo hex =
      let later = failure_reasons bundles algo hex in
      elim (verify bundle algo hex) [
        | VerificationOutcome.valid identity ↦ none
        | VerificationOutcome.invalid reason ↦ elim later [
          | none ↦ none
          | some reasons ↦ some (reason ∷ reasons)
        ]
      ]

  -- `NpmProvenancePolicy::evaluate`
  unfoldable pub npm_provenance_evaluate : Bool → ScanContext Bundle → PolicyResult
  unfolding failure_reasons expected_digest
  npm_provenance_evaluate require ctx =
      let pkg = ctx.metadata.name in
      elim ctx.npm_attestation_fetch_error [
        | some e ↦
            block ("npm_provenance: failed to fetch attestations for '" +++ pkg +++ "': " +++ e)
        | none ↦ elim ctx.npm_attestations [
          | none ↦ pass
          | some attestations ↦
              if is_empty attestations
              then demand require (
                  "npm_provenance: no provenance attestation published for '" +++ pkg
                  +++ "' — the npm registry is the sole source of integrity for this package")
              else expected_digest ctx require
                  ("npm_provenance: no content hash available for '" +++ pkg
                    +++ "'; cannot verify attestation subject digest")
                  (λ h.
                    "npm_provenance: content_hash for '" +++ pkg
                    +++ "' has unexpected format (expected '<algo>:<hex>', got '" +++ h +++ "')")
                  (λ algo hex. elim (failure_reasons attestations algo hex) [
                    | none ↦ pass
                    | some reasons ↦ block (
                        "npm_provenance: all attestation bundles failed for '"
                        +++ pkg
                        +++ "': "
                        +++ join "; " reasons)
                  ])
        ]
      ]

  -- The identity of the first valid bundle, for the cache.
  unfoldable pub extract_provenance_identity : List Bundle → String → String → Option String
  extract_provenance_identity [] algo hex = none
  extract_provenance_identity (bundle ∷ bundles) algo hex =
      let later = extract_provenance_identity bundles algo hex in
      elim (verify bundle algo hex) [
        | VerificationOutcome.valid identity ↦ some identity
        | VerificationOutcome.invalid reason ↦ later
      ]

  -- `PyPiProvenancePolicy::evaluate`
  unfoldable pub pypi_provenance_evaluate : Bool → ScanContext Bundle → PolicyResult
  unfolding expected_digest
  pypi_provenance_evaluate require ctx =
      let pkg = ctx.metadata.name in
      elim ctx.pypi_provenance_fetch_error [
        | some e ↦ block (
            "pypi_provenance: failed to fetch provenance attestation for '" +++ pkg +++ "': " +++ e)
        | none ↦ elim ctx.pypi_attestation [
          | none ↦ pass
          | some attestation ↦ elim attestation [
            | none ↦ demand require (
                "pypi_provenance: no provenance attestation published for '" +++ pkg
                +++ "' — the PyPI registry is the sole source of integrity for this package")
            | some bundle ↦
                expected_digest ctx require
                  ("pypi_provenance: no content hash available for '" +++ pkg
                    +++ "'; cannot verify attestation subject digest")
                  (λ h.
                    "pypi_provenance: content_hash for '" +++ pkg
                    +++ "' has unexpected format (expected 'sha256:<hex>', got '" +++ h +++ "')")
                  (λ algo hex. elim (verify bundle algo hex) [
                    | VerificationOutcome.valid identity ↦ pass
                    | VerificationOutcome.invalid reason ↦ block (
                        "pypi_provenance: attestation bundle failed for '" +++ pkg +++ "': "
                        +++ reason)
                  ])
          ]
        ]
      ]

-- `GoSumDbPolicy::evaluate`
unfoldable pub go_sumdb_evaluate :
    {Bundle : Type 0} → (String → SumDbVerifyOutcome) → Bool → ScanContext Bundle → PolicyResult
go_sumdb_evaluate verify require ctx =
    let pkg = ctx.metadata.name in
    elim ctx.go_sumdb_result [
      | none ↦ pass
      | some result ↦ elim result [
        | not_in_sum_db ↦ demand require (
            "go_sumdb: module '" +++ pkg
            +++ "' is not in the Go checksum database — likely private or excluded from sum.golang.org")
        | network_error e ↦
            block ("go_sumdb: network error fetching sumdb entry for '" +++ pkg +++ "': " +++ e)
        | parse_error e ↦ block ("go_sumdb: malformed sumdb response for '" +++ pkg +++ "': " +++ e)
        | entry found ↦ elim (verify found.signed_tree_head) [
          | SumDbVerifyOutcome.valid ↦ pass
          | SumDbVerifyOutcome.invalid reason ↦
              block
                ("go_sumdb: sumdb signature verification failed for '" +++ pkg +++ "': " +++ reason)
        ]
      ]
    ]
