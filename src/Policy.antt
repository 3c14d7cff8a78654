-- ===== src/Policy.antt =====
-- src/policy/mod.rs: the outcome of a policy, the per-policy detail, and the aggregate of details.
pub mod Aggregate
pub mod Context
pub mod Registry
pub mod Maintainer
pub mod Vcs
pub mod Provenance
pub mod Scripts
pub mod Tree
mod Examples
use dep_scan.Prelude.{String, Bool, List, [], ◌∷◌, Option, none, some, str_eq, if◌then◌else◌}

pub data PolicyResult : Type 0 where
  pass : PolicyResult
  warn block : String → PolicyResult

pub record PolicyDetail : Type 0 where
  pub policy_name : String
  pub result : String
  pub reason : Option String

unfoldable pub from_result : String → PolicyResult → PolicyDetail
from_result name pass = record { policy_name = name; result = "pass"; reason = none }
from_result name (warn msg) = record { policy_name = name; result = "warn"; reason = some msg }
from_result name (block msg) = record { policy_name = name; result = "block"; reason = some msg }

-- One `for` loop of `aggregate_results`: the first detail whose result is the given text.
unfoldable pub first_with : String → List PolicyDetail → Option PolicyDetail
first_with wanted [] = none
first_with wanted (d ∷ ds) = if str_eq d.result wanted then some d else first_with wanted ds

unfoldable pub aggregate_results : List PolicyDetail → String × Option String
unfolding first_with
aggregate_results details = elim (first_with "block" details) [
  | some d ↦ ("block", d.reason)
  | none ↦ elim (first_with "warn" details) [ some d ↦ ("warn", d.reason) | none ↦ ("pass", none) ]
]
