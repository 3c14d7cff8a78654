-- ===== src/Transitive/Engine/Edges.antt =====
-- src/transitive/engine.rs: the four ways of `descend`, as equations, and the edges of a graph.
use dep_scan.Transitive.Types.{NodeId, EdgeResult, Verdict}
use dep_scan.Prelude.{ℕ, ◌+◌, ◌≤◌, ◌<◌, List, Option, some, contains, ◌≡◌, arith, In, true, false}
use dep_scan.Transitive.Types.{
  NodeId, Verdict, EdgeResult, ok, OnDepthLimit, floor, depth_limit_reached, cycle_detected,
  node_id_eq,
}
use dep_scan.Transitive.Engine.{WalkState, memo, push_diagnostic, descend}

-- The four outcomes of `descend`, each with the tests that lead to it.
module _ {W : Type 0} (max_depth : ℕ) (on_depth_limit : OnDepthLimit)
    (go : NodeId → ℕ → WalkState W → Option (Verdict × WalkState W)) (n c : NodeId) (d : ℕ)
    (u : WalkState W) where
  pub descend-cut :
      max_depth < d + 1
      → descend max_depth on_depth_limit go n c d u
        ≡ some (floor on_depth_limit, push_diagnostic (depth_limit_reached c (d + 1)) u)
  unfolding descend
  descend-cut h = ground arith

  pub descend-cycle :
      d + 1 ≤ max_depth
      → contains u.path c ≡ true
      → descend max_depth on_depth_limit go n c d u
        ≡ some (memo u c, push_diagnostic (cycle_detected n c) u)
  unfolding descend
  descend-cycle h on_path = ground arith

  pub descend-seen :
      d + 1 ≤ max_depth
      → contains u.path c ≡ false
      → contains u.visited c ≡ true
      → descend max_depth on_depth_limit go n c d u ≡ some (memo u c, u)
  unfolding descend
  descend-seen h off_path known = ground arith

  pub descend-fresh :
      d + 1 ≤ max_depth
      → contains u.path c ≡ false
      → contains u.visited c ≡ false
      → descend max_depth on_depth_limit go n c d u ≡ go c (d + 1) u
  unfolding descend
  descend-fresh h off_path unknown = ground arith

-- `c` is one of the resolved children of `n`.
abbrev pub IsEdge : (NodeId → EdgeResult) → NodeId → NodeId → Type 0
IsEdge edges_for n c = (children : List NodeId) × (edges_for n ≡ ok children) × In c children
