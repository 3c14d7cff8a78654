-- ===== src/Transitive/Engine/Sound.antt =====
-- src/transitive/engine.rs: a clean walk and the graph below its root.
use dep_scan.Prelude.{
  ℕ, ◌≤◌, List, [], ◌∷◌, some, ◌≡◌, refl, arith, In, inl, inr, map, ap, All-In, ◌≢◌,
}
use dep_scan.Transitive.Types.{
  NodeId, Verdict, pass, EdgeError, EdgeResult, ok, err, OnDepthLimit, Diagnostic,
  depth_limit_reached, cycle_detected, unresolved_range, unfetchable, node_id_eq, rank, worst,
  rank-injective,
}
use dep_scan.Transitive.Engine.Routes.{Route, here, there, row_node}
use dep_scan.Transitive.Engine.Rows.{visit-HasRows}
use dep_scan.Transitive.Engine.Coverage.{IsCovered, IsSettled}
use dep_scan.Transitive.Engine.Settled.{visit-IsSettled}
use dep_scan.Transitive.Engine.Worst.{diagnostic_floor, own_verdict, dfs_walk-verdict}
use dep_scan.Transitive.Engine.Rule.{dfs_walk-visit}
use dep_scan.Transitive.Engine.Edges.{IsEdge}
use dep_scan.Transitive.Engine.{WalkState, WalkResult, dfs_walk}

rank-le-worst :
    {A : Type 0} (f : A → Verdict) (xs : List A) (x : A) → In x xs → rank (f x) ≤ worst (map f xs)
rank-le-worst f [] x m = absurd m
rank-le-worst f (y ∷ xs) x (inl e) = rw e (omega arith)
rank-le-worst f (y ∷ xs) x (inr m) = omega (arith, rank-le-worst f xs x m)

-- A diagnostic that stands for input which the walk left out.
abbrev pub IsIncomplete : Diagnostic → Type 0
IsIncomplete (depth_limit_reached node depth) = Unit
IsIncomplete (cycle_detected from to) = ⊥
IsIncomplete (unresolved_range from name range) = Unit
IsIncomplete (unfetchable node reason) = Unit

floor-incomplete :
    (on_depth_limit : OnDepthLimit) (x : Diagnostic)
    → IsIncomplete x
    → rank (diagnostic_floor on_depth_limit x) ≢ 0
floor-incomplete OnDepthLimit.warn (depth_limit_reached node depth) i = omega arith
floor-incomplete OnDepthLimit.block (depth_limit_reached node depth) i = omega arith
floor-incomplete on_depth_limit (cycle_detected from to) i = absurd i
floor-incomplete on_depth_limit (unresolved_range from name range) i = omega arith
floor-incomplete on_depth_limit (unfetchable node reason) i = omega arith

row_of_In :
    (n : NodeId) (rows : List (NodeId × ℕ × Verdict))
    → In n (map row_node rows)
    → (d : ℕ) × (v : Verdict) × In (n, d, v) rows
row_of_In n [] m = absurd m
row_of_In n ((k, d, v) ∷ rows) (inl e) = (d, v, inl (rw e refl))
row_of_In n (row ∷ rows) (inr m) = let (d, v, i) = row_of_In n rows m in (d, v, inr i)

module _ {W : Type 0} (edges_for : NodeId → EdgeResult) (scan : W → NodeId → Verdict × W)
    (max_depth : ℕ) (on_depth_limit : OnDepthLimit) (root : NodeId) where
  -- A settled node's edges lead to visited nodes, unless a diagnostic says that something is left
  -- out.
  settled-edge :
      (t : WalkState W) (m c : NodeId)
      → ((x : Diagnostic) → In x t.diagnostics → ¬ IsIncomplete x)
      → IsSettled t m (edges_for m)
      → IsEdge edges_for m c
      → In c t.visited
  settled-edge t m c complete settled (children, resolved, member) =
      elim (All-In (IsCovered t) children c (rw resolved at settled) member) [
        | inl known ↦ known
        | inr (depth, cut) ↦ absurd (complete (depth_limit_reached c depth) cut tt)
      ]

  Route-visited :
      (t : WalkState W)
      → ((x : Diagnostic) → In x t.diagnostics → ¬ IsIncomplete x)
      → In root t.visited
      → ((m : NodeId) → In m t.visited → IsSettled t m (edges_for m))
      → {n : NodeId} {depth : ℕ} → Route edges_for root n depth
      → In n t.visited
  Route-visited t complete start settled (here same _) = rw same start
  Route-visited t complete start settled (there {m} {n} route edge _) =
      settled-edge t m n complete (settled m (Route-visited t complete start settled route)) edge

  -- If no diagnostic says that something was left out, every node of the graph below the root has
  -- a row.
  pub dfs_walk_complete :
      (w : W) (r : WalkResult W)
      → dfs_walk edges_for scan max_depth on_depth_limit root w ≡ some r
      → ((x : Diagnostic) → In x r.diagnostics → ¬ IsIncomplete x)
      → (n : NodeId) (depth : ℕ) → Route edges_for root n depth
      → In n (map row_node r.node_verdicts)
  dfs_walk_complete w r e complete n depth route =
      let (t, visited, same_diagnostics, same_rows) =
        dfs_walk-visit edges_for scan max_depth on_depth_limit root w r e in
      let (start, settled) =
        visit-IsSettled edges_for scan max_depth on_depth_limit root w r.verdict t visited in
      let h = visit-HasRows edges_for scan max_depth on_depth_limit root w r.verdict t visited in
      rw same_rows
        ((h.agrees n).0 (Route-visited t (rw same_diagnostics at complete) start settled route))

  -- The edges of a settled node are resolved, unless a diagnostic says otherwise.
  settled-resolved :
      (t : WalkState W) (n : NodeId) (edges : EdgeResult)
      → ((x : Diagnostic) → In x t.diagnostics → ¬ IsIncomplete x)
      → IsSettled t n edges
      → (children : List NodeId) × (edges ≡ ok children)
  settled-resolved t n (ok children) complete settled = (children, refl)
  settled-resolved t n (err (EdgeError.unresolved_range name range)) complete settled =
      absurd (complete (unresolved_range n name range) settled tt)

  module _ (w : W) (r : WalkResult W)
      (e : dfs_walk edges_for scan max_depth on_depth_limit root w ≡ some r)
      (clean : r.verdict ≡ pass) where
    worst-zero :
        (worst (map own_verdict r.node_verdicts) ≡ 0)
        × (worst (map (diagnostic_floor on_depth_limit) r.diagnostics) ≡ 0)
    worst-zero =
        let exact = dfs_walk-verdict edges_for scan max_depth on_depth_limit root w r e in
        (omega (arith, ap rank clean), omega (arith, ap rank clean))

    pass_complete : (x : Diagnostic) → In x r.diagnostics → ¬ IsIncomplete x
    pass_complete x m incomplete = floor-incomplete on_depth_limit x incomplete (
        omega
          (arith, rank-le-worst (diagnostic_floor on_depth_limit) r.diagnostics x m, worst-zero))

    pass-row : (row : NodeId × ℕ × Verdict) → In row r.node_verdicts → own_verdict row ≡ pass
    pass-row row m =
        rank-injective (own_verdict row) pass
          (omega (arith, rank-le-worst own_verdict r.node_verdicts row m, worst-zero))

  -- If the verdict is `pass`, every node below the root, at whatever distance, has a row, was
  -- scanned and passed on its own, and its edges were resolved.
  pub dfs_walk-pass :
      (w : W) (r : WalkResult W)
      → dfs_walk edges_for scan max_depth on_depth_limit root w ≡ some r
      → r.verdict ≡ pass
      → (n : NodeId) (depth : ℕ) → Route edges_for root n depth
      → ((d : ℕ) × In (n, d, pass) r.node_verdicts)
        × ((children : List NodeId) × (edges_for n ≡ ok children))
  dfs_walk-pass w r e clean n depth route =
      let complete = pass_complete w r e clean in
      let (t, visited, same_diagnostics, same_rows) =
        dfs_walk-visit edges_for scan max_depth on_depth_limit root w r e in
      let (start, settled) =
        visit-IsSettled edges_for scan max_depth on_depth_limit root w r.verdict t visited in
      let complete_t =
        λ (x : Diagnostic). λ (m : In x t.diagnostics). complete x (rw same_diagnostics m) in
      let (d, v, row) =
        row_of_In n r.node_verdicts (dfs_walk_complete w r e complete n depth route) in
      (
        (d, rw (← pass-row w r e clean (n, d, v) row) row),
        settled-resolved t n (edges_for n) complete_t
            (settled n (Route-visited t complete_t start settled route)),
      )
