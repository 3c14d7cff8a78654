-- ===== src/Policy/Context.antt =====
-- src/types.rs: package metadata and the scan context that every policy reads. An instant of
-- `chrono` is its number of nanoseconds. What the context carries for the provenance policies is
-- generic in the attestation bundle, which only the verifier reads.
use dep_scan.Prelude.{String, ℕ, List, [], Option, none}

pub record VulnerabilityInfo : Type 0 where
  pub id : String
  pub summary : Option String
  pub severity : Option String
  pub aliases : List String
  pub fixed_versions : List String

pub record InstallScript : Type 0 where
  pub name : String
  pub content : String

pub record PackageMetadata : Type 0 where
  pub name : String
  pub version : String
  pub description : Option String
  pub published_at : Option ℕ
  pub maintainers : List String
  pub downloads : Option ℕ
  pub repository_url : Option String
  pub content_hash : Option String

pub record SumDbEntry : Type 0 where
  pub h1_module : String
  pub h1_gomod : String
  pub signed_tree_head : String

pub data GoSumDbResult : Type 0 where
  not_in_sum_db : GoSumDbResult
  network_error parse_error : String → GoSumDbResult
  entry : SumDbEntry → GoSumDbResult

pub record ScanContext (Bundle : Type 0) : Type 0 where
  pub metadata : PackageMetadata
  pub vulnerabilities : List VulnerabilityInfo
  pub install_scripts : List InstallScript
  pub source_files : List InstallScript
  pub previous_maintainers : Option (List String)
  pub git_source : Option (String × String)
  pub npm_attestations : Option (List Bundle)
  pub npm_attestation_fetch_error : Option String
  pub osv_fetch_error : Option String
  pub pypi_attestation : Option (Option Bundle)
  pub pypi_provenance_fetch_error : Option String
  pub provenance_identity : Option String
  pub go_sumdb_result : Option GoSumDbResult

unfoldable pub from_metadata : {Bundle : Type 0} → PackageMetadata → ScanContext Bundle
from_metadata metadata = record {
  metadata = metadata;
  vulnerabilities = [];
  install_scripts = [];
  source_files = [];
  previous_maintainers = none;
  git_source = none;
  npm_attestations = none;
  npm_attestation_fetch_error = none;
  osv_fetch_error = none;
  pypi_attestation = none;
  pypi_provenance_fetch_error = none;
  provenance_identity = none;
  go_sumdb_result = none;
}
