-- ===== src/Transitive/Engine/Worst.antt =====
-- src/transitive/engine.rs: the verdict of a walk, its rows and its diagnostics.
use dep_scan.Prelude.{
  ℕ, ◌≤◌, List, [], ◌∷◌, ◌++◌, some, lookup, map_insert, ◌≡◌, refl, arith, Option-cases, inl, inr,
  max, map, lookup-map_insert, >>=-eq-some, suc, result-subst, ◌+◌,
}
use dep_scan.Transitive.Types.{
  NodeId, Verdict, pass, OnDepthLimit, floor, Diagnostic, depth_limit_reached, cycle_detected,
  unresolved_range, unfetchable, node_id_eq, rank, worst,
}
use dep_scan.Transitive.Rollup.{rank-combine_verdicts, worst-append}
use dep_scan.Transitive.Engine.Rule.{WalkInvariant, visit-after}
use dep_scan.Transitive.Engine.{
  WalkState, memo, push_diagnostic, enter, leave, EdgeResult, dfs_walk, WalkResult, visit,
  fresh_state,
}

-- The floor that a diagnostic stands for: what its edge contributed to the parent. A cycle adds
-- nothing of its own, and the engine emits no `unfetchable`.
abbrev pub diagnostic_floor : OnDepthLimit → Diagnostic → Verdict
diagnostic_floor on_depth_limit (depth_limit_reached node depth) = floor on_depth_limit
diagnostic_floor on_depth_limit (cycle_detected from to) = pass
diagnostic_floor on_depth_limit (unresolved_range from name range) = Verdict.warn
diagnostic_floor on_depth_limit (unfetchable node reason) = Verdict.warn

-- The own-scan verdict of a row.
abbrev pub own_verdict : NodeId × ℕ × Verdict → Verdict
own_verdict row = row.2

worst-map_last {ℓ} :
    {A : Type ℓ} (f : A → Verdict) (xs : List A) (x : A)
    → worst (map f (xs ++ x ∷ [])) ≡ max (worst (map f xs)) (rank (f x))
worst-map_last f [] x = omega arith
worst-map_last f (y ∷ xs) x = omega (arith, worst-map_last f xs x)

module _ {W : Type 0} (on_depth_limit : OnDepthLimit) where
  -- The worst of what a state has on record: own-scan verdicts and floors.
  weight : WalkState W → ℕ
  weight s =
      max (worst (map own_verdict s.node_verdicts))
        (worst (map (diagnostic_floor on_depth_limit) s.diagnostics))

  weight-push_diagnostic :
      (x : Diagnostic) (s : WalkState W)
      → weight (push_diagnostic x s) ≡ max (weight s) (rank (diagnostic_floor on_depth_limit x))
  unfolding weight push_diagnostic
  weight-push_diagnostic x s =
      omega (arith, worst-map_last (diagnostic_floor on_depth_limit) s.diagnostics x)

  weight-leave :
      (n : NodeId) (cs : List Verdict) (s : WalkState W) → weight (leave n cs s).1 ≡ weight s
  unfolding weight leave
  weight-leave n cs s = refl

  -- Every memoised verdict is covered by what is on record.
  abbrev IsCovered : WalkState W → Type 0
  IsCovered s = (m : NodeId) (v : Verdict) → lookup m s.verdicts ≡ some v → rank v ≤ weight s

  memo-le-weight : (s : WalkState W) (c : NodeId) → IsCovered s → rank (memo s c) ≤ weight s
  unfolding memo
  memo-le-weight s c h = elim (Option-cases (lookup c s.verdicts)) [
    | inl missing ↦ rw (missing, memo) (omega arith)
    | inr (v, found) ↦ rw (found, memo) (h c v found)
  ]

  IsCovered-push_diagnostic :
      (x : Diagnostic) (s : WalkState W) → IsCovered s → IsCovered (push_diagnostic x s)
  unfolding push_diagnostic
  IsCovered-push_diagnostic x s h m v e = omega (arith, weight-push_diagnostic x s, h m v e)

  IsCovered-map_insert :
      (s t : WalkState W) (n : NodeId) (v : Verdict)
      → t.verdicts ≡ map_insert n v s.verdicts
      → weight s ≤ weight t
      → rank v ≤ weight t
      → IsCovered s
      → IsCovered t
  IsCovered-map_insert s t n v e grows new h m w found =
      ground (arith, lookup-map_insert n m v s.verdicts, h m w)

  module _ (scan : W → NodeId → Verdict × W) (n : NodeId) (d : ℕ) (s : WalkState W) where
    weight-enter : weight (enter scan n d s).1 ≡ max (weight s) (rank (enter scan n d s).0)
    unfolding weight enter
    weight-enter =
        omega (arith, worst-map_last own_verdict s.node_verdicts (n, d, (scan s.world n).0))

    IsCovered-enter : IsCovered s → IsCovered (enter scan n d s).1
    unfolding enter
    IsCovered-enter h =
        IsCovered-map_insert s (enter scan n d s).1 n (enter scan n d s).0 refl
          (omega (arith, weight-enter)) (omega (arith, weight-enter)) h

  IsCovered-leave :
      (n : NodeId) (cs : List Verdict) (s : WalkState W)
      → worst cs ≤ weight s
      → IsCovered s
      → IsCovered (leave n cs s).1
  unfolding leave
  IsCovered-leave n cs s small h =
      IsCovered-map_insert s (leave n cs s).1 n (leave n cs s).0 refl
        (omega (arith, weight-leave n cs s))
        (omega (arith, weight-leave n cs s, rank-combine_verdicts cs)) h

  IsCovered-fresh : (w : W) → IsCovered (fresh_state w)
  unfolding lookup
  IsCovered-fresh w m v found = cc

  record Between (s : WalkState W) (bound : ℕ) (u : WalkState W) : Type 0 where
    covered : IsCovered u
    recorded : bound ≤ weight u
    no_more : weight u ≤ max (weight s) bound
    grows : weight s ≤ weight u

  Between-push :
      (s u : WalkState W) (cs : List Verdict) (x : Diagnostic) (v : Verdict)
      → Between s (worst cs) u
      → rank (diagnostic_floor on_depth_limit x) ≤ rank v
      → rank v ≤ max (weight u) (rank (diagnostic_floor on_depth_limit x))
      → Between s (worst (cs ++ v ∷ [])) (push_diagnostic x u)
  Between-push s u cs x v b low high = record {
    covered = IsCovered-push_diagnostic x u b.covered;
    recorded = omega (arith, weight-push_diagnostic x u, worst-append cs (v ∷ []), b.recorded);
    no_more = omega (arith, weight-push_diagnostic x u, worst-append cs (v ∷ []), b.no_more);
    grows = omega (arith, weight-push_diagnostic x u, b.grows);
  }

module _ {W : Type 0} (edges_for : NodeId → EdgeResult) (scan : W → NodeId → Verdict × W)
    (max_depth : ℕ) (on_depth_limit : OnDepthLimit) where
  abbrev Before : NodeId → ℕ → WalkState W → Type 0
  Before n d s = IsCovered on_depth_limit s

  abbrev During : NodeId → ℕ → WalkState W → List NodeId → List Verdict → WalkState W → Type 0
  During n d s done cs u = Between on_depth_limit s (worst cs) u

  abbrev After : NodeId → ℕ → WalkState W → Verdict → WalkState W → Type 0
  After n d s v t = Between on_depth_limit s (rank v) t

  During-seen :
      (s u : WalkState W) (cs : List Verdict) (v : Verdict)
      → Between on_depth_limit s (worst cs) u
      → rank v ≤ weight on_depth_limit u
      → Between on_depth_limit s (worst (cs ++ v ∷ [])) u
  During-seen s u cs v b low = record {
    covered = b.covered;
    recorded = omega (arith, worst-append cs (v ∷ []), b.recorded);
    no_more = omega (arith, worst-append cs (v ∷ []), b.no_more);
    grows = b.grows;
  }

  During-returned :
      (s u t : WalkState W) (cs : List Verdict) (v : Verdict)
      → Between on_depth_limit s (worst cs) u
      → Between on_depth_limit u (rank v) t
      → Between on_depth_limit s (worst (cs ++ v ∷ [])) t
  During-returned s u t cs v b a = record {
    covered = a.covered;
    recorded = omega (arith, worst-append cs (v ∷ []), b.recorded, a.grows, a.recorded);
    no_more = omega (arith, worst-append cs (v ∷ []), b.no_more, a.no_more);
    grows = omega (arith, b.grows, a.grows);
  }

  During-left :
      (n : NodeId) (s u : WalkState W) (cs : List Verdict)
      → Between on_depth_limit s (worst cs) u
      → Between on_depth_limit s (rank (leave n cs u).0) (leave n cs u).1
  unfolding leave
  During-left n s u cs b = record {
    covered = IsCovered-leave on_depth_limit n cs u b.recorded b.covered;
    recorded =
        omega (arith, weight-leave on_depth_limit n cs u, rank-combine_verdicts cs, b.recorded);
    no_more =
        omega (arith, weight-leave on_depth_limit n cs u, rank-combine_verdicts cs, b.no_more);
    grows = omega (arith, weight-leave on_depth_limit n cs u, b.grows);
  }

  worst_invariant : WalkInvariant edges_for scan max_depth on_depth_limit Before During After
  worst_invariant = record {
    entered = λ n d s b. record {
      covered = IsCovered-enter on_depth_limit scan n d s b;
      recorded = omega (arith, weight-enter on_depth_limit scan n d s);
      no_more = omega (arith, weight-enter on_depth_limit scan n d s);
      grows = omega (arith, weight-enter on_depth_limit scan n d s);
    };
    cut = λ n d s done cs u c edge b beyond.
        Between-push on_depth_limit s u cs (depth_limit_reached c (d + 1)) (floor on_depth_limit) b
          (omega arith) (omega arith);
    cycle = λ n d s done cs u c edge b m.
        Between-push on_depth_limit s u cs (cycle_detected n c) (memo u c) b (omega arith)
          (omega (arith, memo-le-weight on_depth_limit u c b.covered));
    seen = λ n d s done cs u c b m.
        During-seen s u cs (memo u c) b (memo-le-weight on_depth_limit u c b.covered);
    deeper = λ n d s done cs u c b edge near off new. b.covered;
    returned = λ n d s done cs u c v t b a. During-returned s u t cs v b a;
    left = λ n d s children cs u before edges b. During-left n s u cs b;
    unresolved = λ n d s name range own u before edges b.
        During-left n s (push_diagnostic (unresolved_range n name range) u)
          (own ∷ Verdict.warn ∷ [])
          (Between-push on_depth_limit s u (own ∷ []) (unresolved_range n name range) Verdict.warn b
            (omega arith) (omega arith));
  }

  -- The verdict of a walk is the worst of the own-scan verdicts of the nodes that it visited and
  -- of the floors of its diagnostics; it is neither better nor worse than these.
  pub dfs_walk-verdict :
      (root : NodeId) (w : W) (r : WalkResult W)
      → dfs_walk edges_for scan max_depth on_depth_limit root w ≡ some r
      → rank r.verdict
        ≡ max
            (worst (map own_verdict r.node_verdicts))
            (worst (map (diagnostic_floor on_depth_limit) r.diagnostics))
  unfolding dfs_walk weight
  dfs_walk-verdict root w r e =
      let (p, visited, made) =
        >>=-eq-some
          (visit edges_for scan max_depth on_depth_limit (suc max_depth) root 0 (fresh_state w)) _
          e in
      let b =
        visit-after edges_for scan max_depth on_depth_limit Before During After worst_invariant
          (suc max_depth) root 0 (fresh_state w) p.0 p.1 (IsCovered-fresh on_depth_limit w)
          visited in
      result-subst
        (λ (r : WalkResult W).
          rank r.verdict
          ≡ max (worst (map own_verdict r.node_verdicts))
              (worst (map (diagnostic_floor on_depth_limit) r.diagnostics)))
        refl made (omega (arith, b.recorded, b.no_more))
