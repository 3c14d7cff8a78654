-- ===== src/Transitive/Report.antt =====
-- src/transitive/scan.rs: what a transitive scan reports, and the loops that merge the walks of the
-- roots into one outcome. The derived `Debug` text, by which diagnostics are deduplicated, is a
-- parameter.
pub mod Laws
use dep_scan.Prelude.{
  ℕ, List, [], ◌∷◌, ◌++◌, Option, none, some, ◌>>=◌, ltb, if◌then◌else◌, contains, set_insert, any,
  String, Bool, true, false, ◌||◌, string_eq, map,
}
use dep_scan.Prelude.Text.{◌+++◌}
use dep_scan.Transitive.Types.{
  NodeId, registry, git, Verdict, pass, rank, Diagnostic, EdgeResult, OnDepthLimit,
}
use dep_scan.Transitive.Budget.{NodeBudgetExceeded}
use dep_scan.Transitive.Engine.{WalkResult, dfs_walk}

unfoldable pub node_id_string : NodeId → String
node_id_string (registry name version reg) =
    "registry:" +++ reg +++ "/" +++ name +++ "@" +++ version
node_id_string (git name commit_sha) = "git:" +++ name +++ "@" +++ commit_sha

unfoldable pub verdict_str : Verdict → String
verdict_str pass = "pass"
verdict_str Verdict.warn = "warn"
verdict_str Verdict.block = "block"

pub data TransitiveDiagnostic : Type 0 where
  depth_limit_reached : String → ℕ → TransitiveDiagnostic
  cycle_detected : String → String → TransitiveDiagnostic
  node_budget_exceeded : ℕ → ℕ → TransitiveDiagnostic
  unresolved_range : String → String → String → TransitiveDiagnostic
  unfetchable : String → String → TransitiveDiagnostic

pub record TransitiveNodeRow : Type 0 where
  pub node : String
  pub depth : ℕ
  pub verdict : String

pub record TransitiveOutcome : Type 0 where
  pub worst_verdict : Option Verdict
  pub diagnostics : List TransitiveDiagnostic
  pub nodes : List TransitiveNodeRow

abbrev pub default_outcome : TransitiveOutcome
default_outcome = record { worst_verdict = none; diagnostics = []; nodes = [] }

abbrev pub is_breach : TransitiveDiagnostic → Bool
is_breach (node_budget_exceeded count limit) = true
is_breach _ = false

unfoldable pub is_failure : TransitiveOutcome → Bool
is_failure outcome =
    (elim outcome.worst_verdict [ none ↦ false | some v ↦ ltb 0 (rank v) ])
    || any is_breach outcome.diagnostics

unfoldable pub project_diagnostic : Diagnostic → TransitiveDiagnostic
unfolding node_id_string
project_diagnostic (Diagnostic.depth_limit_reached node depth) =
    TransitiveDiagnostic.depth_limit_reached (node_id_string node) depth
project_diagnostic (Diagnostic.cycle_detected from to) =
    TransitiveDiagnostic.cycle_detected (node_id_string from) (node_id_string to)
project_diagnostic (Diagnostic.unresolved_range from name range) =
    TransitiveDiagnostic.unresolved_range (node_id_string from) name range
project_diagnostic (Diagnostic.unfetchable node reason) =
    TransitiveDiagnostic.unfetchable (node_id_string node) reason

unfoldable pub project_budget : NodeBudgetExceeded → TransitiveDiagnostic
project_budget breach = node_budget_exceeded breach.count breach.limit

-- The outcome with the keys that were already reported.
pub record Report : Type 0 where
  pub outcome : TransitiveOutcome
  pub seen_rows : List String
  pub seen_diags : List String

-- `prev.max(verdict)`, or the verdict where there was none.
abbrev pub raise : Option Verdict → Verdict → Option Verdict
raise none v = some v
raise (some prev) v = some (if ltb (rank v) (rank prev) then prev else v)

unfoldable pub raise_worst : Verdict → Report → Report
raise_worst v s = record s {
  outcome = record s.outcome { worst_verdict = raise s.outcome.worst_verdict v };
}

unfoldable pub push_row : NodeId × ℕ × Verdict → Report → Report
unfolding node_id_string verdict_str raise_worst
push_row row s =
    let key = node_id_string row.0 in
    let raised = raise_worst row.2 s in
    if contains s.seen_rows key then s else record raised {
      seen_rows = set_insert key s.seen_rows;
      outcome = record raised.outcome {
        nodes =
            s.outcome.nodes
            ++ (record { node = key; depth = row.1; verdict = verdict_str row.2 }) ∷ [];
      };
    }

unfoldable pub push_rows : List (NodeId × ℕ × Verdict) → Report → Report
unfolding push_row
push_rows [] s = s
push_rows (row ∷ rows) s = push_rows rows (push_row row s)

module _ (debug : TransitiveDiagnostic → String) where
  unfoldable pub push_projected : TransitiveDiagnostic → Report → Report
  push_projected projected s =
      let key = debug projected in
      if contains s.seen_diags key then s else record s {
        seen_diags = set_insert key s.seen_diags;
        outcome = record s.outcome { diagnostics = s.outcome.diagnostics ++ projected ∷ [] };
      }

  unfoldable pub push_diagnostics : List TransitiveDiagnostic → Report → Report
  unfolding push_projected
  push_diagnostics [] s = s
  push_diagnostics (d ∷ ds) s = push_diagnostics ds (push_projected d s)

  -- The body of the loop over the roots, after the walk.
  unfoldable pub merge_walk : {W : Type 0} → WalkResult W → Report → Report
  unfolding raise_worst push_diagnostics push_rows project_diagnostic
  merge_walk r s =
      push_rows r.node_verdicts
        (push_diagnostics (map project_diagnostic r.diagnostics) (raise_worst r.verdict s))

  module _ {W : Type 0} (edges_for : NodeId → EdgeResult) (scan : W → NodeId → Verdict × W)
      (max_depth : ℕ) (on_depth_limit : OnDepthLimit) where
    -- The loop over the roots.
    unfoldable pub walk_roots : List NodeId → W → Report → Option (Report × W)
    unfolding merge_walk dfs_walk
    walk_roots [] w s = some (s, w)
    walk_roots (root ∷ roots) w s = dfs_walk edges_for scan max_depth on_depth_limit root w >>= λ r.
        walk_roots roots r.world (merge_walk r s)
