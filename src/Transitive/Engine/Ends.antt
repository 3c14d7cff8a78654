-- ===== src/Transitive/Engine/Ends.antt =====
-- src/transitive/engine.rs: the depth of the recursion of the walk.
use dep_scan.Prelude.{
  ℕ, zero, suc, ◌+◌, ◌≤◌, ◌<◌, List, [], ◌∷◌, ◌++◌, Option, some, contains, ◌≡◌, refl, arith,
  dec_lt, Bool-cases, inl, inr,
}
use dep_scan.Transitive.Types.{
  NodeId, Verdict, EdgeError, EdgeResult, ok, err, OnDepthLimit, node_id_eq,
}
use dep_scan.Transitive.Engine.{
  WalkState, WalkResult, each, enter, descend, follow, visit, dfs_walk, fresh_state,
}
use dep_scan.Transitive.Engine.Edges.{descend-cut, descend-cycle, descend-seen, descend-fresh}

abbrev Returns {ℓ} : {A : Type ℓ} → Option A → Type ℓ
Returns {A} o = (a : A) × (o ≡ some a)

module _ {W : Type 0} (edges_for : NodeId → EdgeResult) (scan : W → NodeId → Verdict × W)
    (max_depth : ℕ) (on_depth_limit : OnDepthLimit) where
  descend-Returns :
      (go : NodeId → ℕ → WalkState W → Option (Verdict × WalkState W)) (n c : NodeId) (d : ℕ)
      (u : WalkState W)
      → (d + 1 ≤ max_depth → Returns (go c (d + 1) u))
      → Returns (descend max_depth on_depth_limit go n c d u)
  descend-Returns go n c d u h = elim (dec_lt max_depth (d + 1)) [
    | yes beyond ↦ (_, descend-cut max_depth on_depth_limit go n c d u beyond)
    | no within ↦
        let near : d + 1 ≤ max_depth = omega arith in
        elim (Bool-cases (contains u.path c)) [
          | inl on_path ↦ (_, descend-cycle max_depth on_depth_limit go n c d u near on_path)
          | inr off_path ↦ elim (Bool-cases (contains u.visited c)) [
            | inl known ↦ (_, descend-seen max_depth on_depth_limit go n c d u near off_path known)
            | inr unknown ↦
                rw (descend-fresh max_depth on_depth_limit go n c d u near off_path unknown)
                  (h near)
          ]
        ]
  ]

  each-Returns :
      (f : NodeId → WalkState W → Option (Verdict × WalkState W))
      → ((c : NodeId) (u : WalkState W) → Returns (f c u))
      → (children : List NodeId) (cs : List Verdict) (u : WalkState W)
      → Returns (each f children cs u)
  unfolding each
  each-Returns f h [] cs u = (_, refl)
  each-Returns f h (c ∷ children) cs u =
      let (r, e) = h c u in rw e (each-Returns f h children (cs ++ r.0 ∷ []) r.1)

  follow-Returns :
      (go : NodeId → ℕ → WalkState W → Option (Verdict × WalkState W)) (n : NodeId) (d : ℕ)
      (edges : EdgeResult) (own : Verdict) (u : WalkState W)
      → ((c : NodeId) (w : WalkState W) → d + 1 ≤ max_depth → Returns (go c (d + 1) w))
      → Returns (follow max_depth on_depth_limit go n d edges own u)
  unfolding follow
  follow-Returns go n d (ok children) own u h =
      each-Returns _ (λ c w. descend-Returns go n c d w (h c w)) children (own ∷ []) u
  follow-Returns go n d (err (EdgeError.unresolved_range name range)) own u h = (_, refl)

  visit-Returns :
      (fuel : ℕ) (n : NodeId) (d : ℕ) (s : WalkState W)
      → d ≤ max_depth
      → max_depth < d + fuel
      → Returns (visit edges_for scan max_depth on_depth_limit fuel n d s)
  unfolding visit
  visit-Returns zero n d s near enough = absurd (omega arith)
  visit-Returns (suc fuel) n d s near enough =
      let (r, e) =
        follow-Returns (visit edges_for scan max_depth on_depth_limit fuel) n d (edges_for n)
          (enter scan n d s).0 (enter scan n d s).1
          (λ c w deeper. visit-Returns fuel c (d + 1) w deeper (omega arith)) in
      rw e (_, refl)

  -- Whatever the graph, cycles included, the walk returns a result.
  pub dfs_walk-returns :
      (root : NodeId) (w : W)
      → (r : WalkResult W) × (dfs_walk edges_for scan max_depth on_depth_limit root w ≡ some r)
  unfolding dfs_walk
  dfs_walk-returns root w =
      let (r, e) =
        visit-Returns (suc max_depth) root 0 (fresh_state w) (omega arith) (omega arith) in
      rw e (_, refl)
