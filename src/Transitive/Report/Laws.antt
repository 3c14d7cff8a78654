-- ===== src/Transitive/Report/Laws.antt =====
-- src/transitive/scan.rs: the merged outcome and the walks that went into it.
use dep_scan.Prelude.{
  ℕ, ◌≤◌, List, [], ◌∷◌, Option, none, some, contains, String, string_eq, map, ◌≡◌, refl, arith, In,
  inl, inr, Bool-cases, max, >>=-eq-some,
}
use dep_scan.Transitive.Types.{
  NodeId, Verdict, pass, rank, EdgeResult, OnDepthLimit, rank-injective,
}
use dep_scan.Transitive.Engine.{WalkResult, dfs_walk}
use dep_scan.Transitive.Report.{
  TransitiveDiagnostic, Report, raise, raise_worst, push_row, push_rows, push_projected,
  push_diagnostics, merge_walk, walk_roots, project_diagnostic,
}
use dep_scan.Transitive.Engine.Ends.{dfs_walk-returns}

-- The rank of an optional verdict, where none counts as a pass.
abbrev pub rank_of : Option Verdict → ℕ
rank_of none = 0
rank_of (some v) = rank v

rank-raise : (o : Option Verdict) (v : Verdict) → rank_of (raise o v) ≡ max (rank_of o) (rank v)
rank-raise none v = omega arith
rank-raise (some u) v = ground arith

abbrev pub worst_of : Report → ℕ
worst_of s = rank_of s.outcome.worst_verdict

worst_of-raise_worst :
    (v : Verdict) (s : Report) → worst_of (raise_worst v s) ≡ max (worst_of s) (rank v)
unfolding raise_worst
worst_of-raise_worst v s = rank-raise s.outcome.worst_verdict v

worst_of-push_row :
    (row : NodeId × ℕ × Verdict) (s : Report) → worst_of s ≤ worst_of (push_row row s)
unfolding push_row
worst_of-push_row row s = ground (arith, rank-raise s.outcome.worst_verdict row.2)

worst_of-push_rows :
    (rows : List (NodeId × ℕ × Verdict)) (s : Report) → worst_of s ≤ worst_of (push_rows rows s)
unfolding push_rows
worst_of-push_rows [] s = omega arith
worst_of-push_rows (row ∷ rows) s =
    omega (arith, worst_of-push_row row s, worst_of-push_rows rows (push_row row s))

module _ (debug : TransitiveDiagnostic → String) where
  pub worst_of-push_diagnostics :
      (ds : List TransitiveDiagnostic) (s : Report)
      → worst_of (push_diagnostics debug ds s) ≡ worst_of s
  unfolding push_diagnostics
  worst_of-push_diagnostics [] s = refl
  worst_of-push_diagnostics (d ∷ ds) s = elim (Bool-cases (contains s.seen_diags (debug d))) [
    | inl seen ↦ ground (arith, worst_of-push_diagnostics ds s)
    | inr new ↦ ground (arith, worst_of-push_diagnostics ds (push_projected debug d s))
  ]

  worst_of-merge_walk :
      {W : Type 0} (r : WalkResult W) (s : Report)
      → (rank r.verdict ≤ worst_of (merge_walk debug r s))
        × (worst_of s ≤ worst_of (merge_walk debug r s))
  unfolding merge_walk
  worst_of-merge_walk r s =
      let raised = raise_worst r.verdict s in
      let listed = push_diagnostics debug (map project_diagnostic r.diagnostics) raised in
      let same = worst_of-push_diagnostics (map project_diagnostic r.diagnostics) raised in
      let rows = worst_of-push_rows r.node_verdicts listed in
      let up = worst_of-raise_worst r.verdict s in
      (omega (arith, same, rows, up), omega (arith, same, rows, up))

  module _ {W : Type 0} (edges_for : NodeId → EdgeResult) (scan : W → NodeId → Verdict × W)
      (max_depth : ℕ) (on_depth_limit : OnDepthLimit) where
    -- Whatever the roots, the walks return.
    pub walk_roots-returns :
        (roots : List NodeId) (w : W) (s : Report)
        → (t : Report × W) × (walk_roots debug edges_for scan max_depth on_depth_limit roots w s
            ≡ some t)
    unfolding walk_roots
    walk_roots-returns [] w s = ((s, w), refl)
    walk_roots-returns (root ∷ roots) w s =
        let (r, walked) = dfs_walk-returns edges_for scan max_depth on_depth_limit root w in
        let (t, rest) = walk_roots-returns roots r.world (merge_walk debug r s) in
        (t, ground (arith, walked, rest))

    -- The worst verdict never falls from one walk to the next.
    worst_of-walk_roots :
        (roots : List NodeId) (w : W) (s : Report) (t : Report × W)
        → walk_roots debug edges_for scan max_depth on_depth_limit roots w s ≡ some t
        → worst_of s ≤ worst_of t.0
    unfolding walk_roots
    worst_of-walk_roots [] w s t e = ground arith
    worst_of-walk_roots (root ∷ roots) w s t e =
        let (r, walked, rest) =
          >>=-eq-some (dfs_walk edges_for scan max_depth on_depth_limit root w) _ e in
        omega (
          arith,
          (worst_of-merge_walk r s).1,
          worst_of-walk_roots roots r.world (merge_walk debug r s) t rest,
        )

    -- A walk of this run from a root, with what it found.
    pub record Walk (root : NodeId) : Type 0 where
      pub before : W
      pub result : WalkResult W
      pub walked : dfs_walk edges_for scan max_depth on_depth_limit root before ≡ some result

    -- If the worst verdict is a pass at the end, the walk of every root passed.
    pub walk_roots-pass :
        (roots : List NodeId) (w : W) (s : Report) (t : Report × W)
        → walk_roots debug edges_for scan max_depth on_depth_limit roots w s ≡ some t
        → worst_of t.0 ≡ 0
        → (root : NodeId) → In root roots
        → (walk : Walk root) × (walk.result.verdict ≡ pass)
    unfolding walk_roots
    walk_roots-pass [] w s t e clean root m = absurd m
    walk_roots-pass (first ∷ roots) w s t e clean root m =
        let (r, walked, rest) =
          >>=-eq-some (dfs_walk edges_for scan max_depth on_depth_limit first w) _ e in
        elim m [
          | inr m' ↦ walk_roots-pass roots r.world (merge_walk debug r s) t rest clean root m'
          | inl same ↦
              let walk : Walk root = record { before = w; result = r; walked = rw same walked } in
              let low = (worst_of-merge_walk r s).0 in
              let end = worst_of-walk_roots roots r.world (merge_walk debug r s) t rest in
              (walk, rank-injective r.verdict pass (omega (arith, low, end, clean)))
        ]
