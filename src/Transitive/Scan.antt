-- ===== src/Transitive/Scan.antt =====
-- src/transitive/scan.rs: the orchestration of a transitive scan: who is fetched, what the edges
-- are, the node budget, the walks of the roots, and what is written back to the cache. The cache,
-- the scanner of git nodes, the network and the digest are the services that it is given; `W` is
-- what they keep.
pub mod Run
pub mod Laws
pub mod Warm
mod Examples
use dep_scan.Prelude.{
  ℕ, List, [], ◌∷◌, ◌++◌, Option, none, some, ◌>>=◌, if◌then◌else◌, lookup, map_insert, String,
  string_eq, Bool, true, false, ◌&&◌, not, map, str_eq, set_insert, contains,
}
use dep_scan.Policy.Vcs.{classify_ref, is_pinned}
use dep_scan.Cache.{CacheEntry}
use dep_scan.Transitive.Types.{
  NodeId, Verdict, EdgeResult, ok, err, OnDepthLimit, Diagnostic, node_id_eq,
}
use dep_scan.Transitive.Rollup.{verdict_from_result_str}
use dep_scan.Transitive.Budget.{NodeBudgetExceeded, NodeBudget, charge_all, new_budget}
use dep_scan.Transitive.Graph.{DependencyGraph, DependencySource, edges_from, nodes}
use dep_scan.Transitive.Report.{
  TransitiveDiagnostic, TransitiveOutcome, Report, default_outcome, project_budget,
  project_diagnostic, push_diagnostics, walk_roots, node_id_string, verdict_str,
}

pub record GitTarget : Type 0 where
  pub url : String
  pub ref : String

-- `LockfileGitResolver`: the target of a name.
abbrev pub GitResolver : Type 0
GitResolver = List (String × GitTarget)

pub record TransitiveConfig : Type 0 where
  pub max_depth : ℕ
  pub on_depth_limit : OnDepthLimit
  pub max_total_nodes : ℕ

pub record TransitiveScanInputs : Type 0 where
  pub graph : DependencyGraph
  pub roots : List (NodeId × Option DependencySource)
  pub flat_verdicts : List (String × String)
  pub config : TransitiveConfig

-- What the scan calls: the git arm of the scanner and its record of failures, the rows of the
-- cache that are keyed on a name and a git ref (an error is a missing row), the digest, a fetch
-- (an error is a missing tree), the edges that a tree's manifest declares, and `Debug`.
pub record Services (W Tree : Type 0) : Type 0 where
  pub scan_git : GitResolver → W → NodeId → Verdict × W
  pub take_unfetchable : W → List (NodeId × String) × W
  pub lookup_git : W → String → String → Option CacheEntry
  pub invalidate_git : String → String → W → W
  pub insert_git : String → String → String → String → String → W → W
  pub compute_subtree_digest : List (String × String) → String
  pub fetch_tree : String → String → Option Tree
  pub manifest_edges : Tree → NodeId → EdgeResult
  pub debug : TransitiveDiagnostic → String

-- The loop over the roots that records where each direct git dependency comes from.
unfoldable pub git_origins :
    List (NodeId × Option DependencySource) → GitResolver × List NodeId → GitResolver × List NodeId
git_origins [] found = found
git_origins ((NodeId.git name sha, some (DependencySource.git url ref)) ∷ roots)
      (resolver, git_roots) =
    git_origins roots (
      map_insert name (record { url = url; ref = ref }) resolver,
      git_roots ++ NodeId.git name sha ∷ [],
    )
git_origins (root ∷ roots) found = git_origins roots found

-- `FlatResultRegistryScanner`: the verdicts of the flat scan, by name.
unfoldable pub from_flat_results :
    List (String × String) → List (String × Verdict) → List (String × Verdict)
from_flat_results [] verdicts = verdicts
from_flat_results ((name, result) ∷ pairs) verdicts =
    from_flat_results pairs (map_insert name (verdict_from_result_str result) verdicts)

unfoldable pub scan_registry : List (String × Verdict) → String → Verdict
scan_registry verdicts name = elim (lookup name verdicts) [ some v ↦ v | none ↦ Verdict.warn ]

pub record CompositeEdgeProvider : Type 0 where
  pub graph : DependencyGraph
  pub git_edges : List (NodeId × EdgeResult)

abbrev pub set_git_edges : NodeId → EdgeResult → CompositeEdgeProvider → CompositeEdgeProvider
set_git_edges node edges c = record c { git_edges = map_insert node edges c.git_edges }

unfoldable pub composite_edges : CompositeEdgeProvider → NodeId → EdgeResult
composite_edges c (NodeId.git name sha) = elim (lookup (NodeId.git name sha) c.git_edges) [
  | some edges ↦ edges
  | none ↦ ok []
]
composite_edges c (NodeId.registry name version reg) =
    ok (edges_from (NodeId.registry name version reg) c.graph)

module _ {W Tree : Type 0} (services : Services W Tree) (resolver : GitResolver) where
  -- `NodeScanner::scan`
  unfoldable pub scan_node : List (String × Verdict) → W → NodeId → Verdict × W
  scan_node verdicts w (NodeId.git name sha) = services.scan_git resolver w (NodeId.git name sha)
  scan_node verdicts w (NodeId.registry name version reg) = (scan_registry verdicts name, w)

  abbrev is_some : Option String → Bool
  is_some o = elim o [ none ↦ false | some s ↦ true ]

  unfoldable pub is_warm_git_root : W → NodeId → Bool
  is_warm_git_root w (NodeId.registry name version reg) = false
  is_warm_git_root w (NodeId.git name sha) = elim (lookup name resolver) [
    | none ↦ false
    | some target ↦
        if is_pinned (classify_ref target.ref)
        then (elim (services.lookup_git w name target.ref) [
          | none ↦ false
          | some row ↦ is_some row.content_hash && is_some row.subtree_digest
        ])
        else false
  ]

  -- Warm roots are leaves.
  unfoldable pub set_warm : W → List NodeId → CompositeEdgeProvider → CompositeEdgeProvider
  unfolding is_warm_git_root
  set_warm w [] c = c
  set_warm w (root ∷ roots) c =
      set_warm w roots (if is_warm_git_root w root then set_git_edges root (ok []) c else c)

  -- The roots that are not warm.
  unfoldable pub cold_roots : W → List NodeId → List NodeId
  cold_roots w [] = []
  cold_roots w (root ∷ roots) =
      let rest = cold_roots w roots in if is_warm_git_root w root then rest else root ∷ rest

  -- `bounded_fetch_trees`, whose results stand in the order of the roots however many fetches run
  -- at a time.
  unfoldable pub fetched_tree : NodeId → Option Tree
  fetched_tree (NodeId.registry name version reg) = none
  fetched_tree (NodeId.git name sha) = elim (lookup name resolver) [
    | none ↦ none
    | some target ↦ services.fetch_tree target.url target.ref
  ]

  unfoldable pub discovered_edges : NodeId → EdgeResult
  unfolding fetched_tree
  discovered_edges root = elim (fetched_tree root) [
    | none ↦ ok []
    | some tree ↦ services.manifest_edges tree root
  ]

  -- `if let Ok(children) = &edges { ... }`
  abbrev pub charge_children : EdgeResult → NodeBudget → Option NodeBudgetExceeded × NodeBudget
  charge_children (ok children) budget = charge_all children budget
  charge_children (err e) budget = (none, budget)

  -- The loop over the cold roots and their trees, with its `break` at a breach.
  unfoldable pub set_cold :
      List NodeId
      → NodeBudget
      → CompositeEdgeProvider
      → Option NodeBudgetExceeded × CompositeEdgeProvider
  unfolding discovered_edges
  set_cold [] budget c = (none, c)
  set_cold (root ∷ roots) budget c =
      let edges = discovered_edges root in
      let (breach, charged) = charge_children edges budget in
      let found = set_git_edges root edges c in
      let rest = set_cold roots charged found in
      elim breach [ none ↦ rest | some b ↦ (some b, found) ]

  -- The children of a node with their current verdicts, as the digest takes them.
  unfoldable pub scan_children :
      List (String × Verdict) → List NodeId → W → List (String × String) × W
  unfolding scan_node
  scan_children verdicts [] w = ([], w)
  scan_children verdicts (child ∷ children) w =
      let (v, w') = scan_node verdicts w child in
      let (pairs, w'') = scan_children verdicts children w' in
      ((node_id_string child, verdict_str v) ∷ pairs, w'')
