-- ===== src/Transitive/Engine/Routes.antt =====
-- src/transitive/engine.rs: routes through the graph, and what a row and a diagnostic say of it.
use dep_scan.Prelude.{ℕ, ◌+◌, ◌≤◌, List, [], ◌∷◌, ◌++◌, ◌≡◌, refl, map}
use dep_scan.Transitive.Types.{
  NodeId, Verdict, EdgeError, EdgeResult, err, Diagnostic, depth_limit_reached, cycle_detected,
  unresolved_range, unfetchable, node_id_eq,
}
use dep_scan.Transitive.Engine.Edges.{IsEdge}

-- A chain of `depth` dependency edges from the root to `n`.
pub data Route (edges_for : NodeId → EdgeResult) (root : NodeId) : NodeId → ℕ → Type 0 where
  here : {n : NodeId} {depth : ℕ} → n ≡ root → depth ≡ 0 → Route edges_for root n depth
  there :
      {m n : NodeId} {k depth : ℕ}
      → Route edges_for root m k
      → IsEdge edges_for m n
      → depth ≡ k + 1
      → Route edges_for root n depth

-- Some chain of dependency edges leads from `m` to `n`.
abbrev pub Reaches : (NodeId → EdgeResult) → NodeId → NodeId → Type 0
Reaches edges_for m n = (k : ℕ) × Route edges_for m n k

abbrev pub row_node : NodeId × ℕ × Verdict → NodeId
row_node row = row.0

pub map-row_node_last :
    (rows : List (NodeId × ℕ × Verdict)) (n : NodeId) (d : ℕ) (v : Verdict)
    → map row_node (rows ++ (n, d, v) ∷ []) ≡ map row_node rows ++ n ∷ []
map-row_node_last [] n d v = refl
map-row_node_last (row ∷ rows) n d v = rw (map-row_node_last rows n d v)

module _ (edges_for : NodeId → EdgeResult) (max_depth : ℕ) (root : NodeId) where
  -- A row within the depth limit, at the length of a route from the root.
  abbrev pub IsRealRow : NodeId × ℕ × Verdict → Type 0
  IsRealRow row = (row.1 ≤ max_depth) × Route edges_for root row.0 row.1

  -- A diagnostic that the graph bears out.
  abbrev pub IsRealDiagnostic : Diagnostic → Type 0
  IsRealDiagnostic (depth_limit_reached node depth) =
      (depth ≡ max_depth + 1) × Route edges_for root node depth
  IsRealDiagnostic (cycle_detected from to) = IsEdge edges_for from to × Reaches edges_for to from
  IsRealDiagnostic (unresolved_range from name range) =
      edges_for from ≡ err (EdgeError.unresolved_range name range)
  IsRealDiagnostic (unfetchable node reason) = ⊥
