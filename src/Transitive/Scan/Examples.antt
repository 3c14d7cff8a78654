-- ===== src/Transitive/Scan/Examples.antt =====
-- The scan of src/transitive/scan.rs on a project with one git dependency that declares one child.
use dep_scan.Transitive.Rollup.{verdict_from_result_str, combine_verdicts}
use dep_scan.Policy.Vcs.{classify_ref}
use dep_scan.Prelude.{
  ℕ, List, [], ◌∷◌, Option, none, some, String, string_eq, ◌≡◌, refl, arith, In, inl, ltb,
  if◌then◌else◌, length, true, contains, set_insert, lookup, map_insert,
}
use dep_scan.Cache.{CacheEntry}
use dep_scan.Transitive.Types.{NodeId, registry, pass, ok, OnDepthLimit, node_id_eq}
use dep_scan.Transitive.Budget.{NodeBudgetExceeded, charge_all, new_budget}
use dep_scan.Transitive.Budget.Laws.{distinct, charge_all_lem}
use dep_scan.Transitive.Graph.{
  DependencySource, from_edges, edges_from, targets, edges_from-from_edges, add_edges,
}
use dep_scan.Transitive.Engine.Routes.{Route, here, there}
use dep_scan.Transitive.Report.{TransitiveOutcome, TransitiveNodeRow, is_failure, project_budget}
use dep_scan.Transitive.Report.Laws.{Walk}
use dep_scan.Transitive.Scan.{
  TransitiveScanInputs, Services, is_warm_git_root, git_origins, composite_edges, scan_node,
  scan_registry, scan_children, from_flat_results,
}
use dep_scan.Transitive.Scan.Run.{prepare, run_transitive_scan}
use dep_scan.Transitive.Scan.Laws.{
  walked_edges, run_scan, charged_nodes, run_transitive_scan-over_budget, run_transitive_scan-pass,
}
use dep_scan.Transitive.Scan.Warm.{walked_edges-warm}

abbrev sha : String
sha = "0123456789abcdef0123456789abcdef01234567"

abbrev lib : NodeId
lib = NodeId.git "lib" sha

abbrev leaf : NodeId
leaf = registry "leaf" "1.0" "npm"

-- Services that pass every git node and log it, over a cache that finds the given row.
abbrev services_with : Option CacheEntry → Services (List NodeId) String
services_with row = record {
  scan_git = λ resolver log n. (pass, n ∷ log);
  take_unfetchable = λ log. ([], log);
  lookup_git = λ log name ref. row;
  invalidate_git = λ name ref log. log;
  insert_git = λ name ref result hash digest log. log;
  compute_subtree_digest = λ pairs. "sha256:00";
  fetch_tree = λ url ref. some "tree";
  manifest_edges = λ tree n. ok (leaf ∷ []);
  debug = λ d. "diagnostic";
}

abbrev project : ℕ → TransitiveScanInputs
project max_total_nodes = record {
  graph = from_edges [];
  roots = (lib, some (DependencySource.git "https://example.org/lib.git" sha)) ∷ [];
  flat_verdicts = ("leaf", "pass") ∷ [];
  config = record {
    max_depth = 5;
    on_depth_limit = OnDepthLimit.warn;
    max_total_nodes = max_total_nodes;
  };
}

abbrev row_of : String → ℕ → TransitiveNodeRow
row_of name depth = record { node = name; depth = depth; verdict = "pass" }

abbrev clean_outcome : TransitiveOutcome
clean_outcome = record {
  worst_verdict = some pass;
  diagnostics = [];
  nodes =
      row_of "git:lib@0123456789abcdef0123456789abcdef01234567" 0
      ∷ row_of "registry:npm/leaf@1.0" 1
      ∷ [];
}

clean_run :
    run_transitive_scan (services_with none) (project 10) [] ≡ some (clean_outcome, lib ∷ lib ∷ [])
unfolding run_transitive_scan add_edges contains set_insert lookup map_insert classify_ref
    composite_edges scan_node scan_registry scan_children from_flat_results verdict_from_result_str
    combine_verdicts
clean_run = refl

Route-to_leaf : Route (walked_edges (services_with none) (project 10) []) lib leaf 1
unfolding prepare composite_edges lookup add_edges contains set_insert map_insert classify_ref
Route-to_leaf = there (here refl refl) (leaf ∷ [], refl, inl refl) (omega arith)

run_transitive_scan-pass_example :
    ((prepare (services_with none) (project 10) []).0 ≡ none)
    × ((walk : Walk
          (services_with none).debug
          (walked_edges (services_with none) (project 10) [])
          (run_scan (services_with none) (project 10))
          5
          OnDepthLimit.warn
          lib)
        × (d : ℕ) × In (leaf, d, pass) walk.result.node_verdicts)
unfolding is_failure
run_transitive_scan-pass_example =
    run_transitive_scan-pass (services_with none) (project 10) [] clean_outcome (lib ∷ lib ∷ [])
      clean_run refl lib (inl refl) leaf 1 Route-to_leaf

abbrev one_too_many : NodeBudgetExceeded
one_too_many = record { count = 1; limit = 0 }

one_node : length (distinct (charged_nodes (services_with none) (project 0)) []) ≡ 1
unfolding distinct add_edges git_origins set_insert
one_node = refl

run_transitive_scan-over_budget_example :
    (outcome : TransitiveOutcome) × (run_transitive_scan (services_with none) (project 0) []
      ≡ some (outcome, []))
    × (is_failure outcome ≡ true)
    × (outcome.diagnostics ≡ project_budget one_too_many ∷ [])
    × (outcome.nodes ≡ [])
run_transitive_scan-over_budget_example =
    run_transitive_scan-over_budget (services_with none) (project 0) (omega arith)
      (omega (arith, one_node)) []

abbrev warm_row : CacheEntry
warm_row = record {
  result = "pass";
  scanned_at = "2026-01-01T00:00:00Z";
  content_hash = some "sha256:11";
  provenance_identity = none;
  source_kind = some "git";
  subtree_digest = some "sha256:22";
  dep_scan_version = none;
  policies_json = none;
}

is_warm :
    is_warm_git_root
      (services_with (some warm_row))
      (git_origins (project 10).roots ([], [])).0
      []
      lib
    ≡ true
unfolding is_warm_git_root git_origins lookup map_insert classify_ref
is_warm = refl

walked_edges-warm_example : walked_edges (services_with (some warm_row)) (project 10) [] lib ≡ ok []
walked_edges-warm_example =
    walked_edges-warm (services_with (some warm_row)) (project 10) [] lib is_warm

charge_all_lem_example : (charge_all (lib ∷ leaf ∷ lib ∷ []) (new_budget 1)).0 ≡ (
    if ltb 1 (length (distinct (lib ∷ leaf ∷ lib ∷ []) []))
    then some (record { count = 2; limit = 1 })
    else none)
charge_all_lem_example = charge_all_lem 1 (omega arith) (lib ∷ leaf ∷ lib ∷ [])

edges_from-from_edges_example :
    edges_from lib (from_edges ((lib, leaf) ∷ (leaf, lib) ∷ (lib, lib) ∷ []))
    ≡ targets lib ((lib, leaf) ∷ (leaf, lib) ∷ (lib, lib) ∷ [])
edges_from-from_edges_example =
    edges_from-from_edges lib ((lib, leaf) ∷ (leaf, lib) ∷ (lib, lib) ∷ [])
