-- ===== src/Transitive/Engine/Rule.antt =====
-- src/transitive/engine.rs: one rule by which every property of the walk is proved. It does the
-- two inductions, on the depth of the calls and on the list of children, once.
use dep_scan.Transitive.Types.{NodeId, EdgeResult, Verdict}
use dep_scan.Prelude.{
  ℕ, zero, suc, ◌+◌, ◌≤◌, ◌<◌, List, [], ◌∷◌, ◌++◌, Option, some, contains, ◌≡◌, refl, sym, arith,
  In, dec_lt, Bool-cases, inl, inr, String, append_assoc, append-nil, contains-In,
  not-In_of_contains, In-append_right, >>=-eq-some, ◌∙◌, result-subst,
}
use dep_scan.Transitive.Types.{
  NodeId, Verdict, EdgeError, EdgeResult, ok, err, OnDepthLimit, floor, depth_limit_reached,
  cycle_detected, unresolved_range, node_id_eq,
}
use dep_scan.Transitive.Engine.{
  WalkResult, dfs_walk, fresh_state, WalkState, each, memo, push_diagnostic, enter, leave, descend,
  follow, visit,
}
use dep_scan.Transitive.Engine.Edges.{
  IsEdge, descend-cut, descend-cycle, descend-seen, descend-fresh,
}

module _ {W : Type 0} (edges_for : NodeId → EdgeResult) (scan : W → NodeId → Verdict × W)
    (max_depth : ℕ) (on_depth_limit : OnDepthLimit) where
  -- `before n d s` holds where a visit of `n` at depth `d` starts in state `s`, `during` after the
  -- children `done` were followed, `after` where the visit returns.
  pub record WalkInvariant (before : NodeId → ℕ → WalkState W → Type 0)
      (during : NodeId → ℕ → WalkState W → List NodeId → List Verdict → WalkState W → Type 0)
      (after : NodeId → ℕ → WalkState W → Verdict → WalkState W → Type 0) : Type 0 where
    pub entered :
        (n : NodeId) (d : ℕ) (s : WalkState W)
        → before n d s
        → during n d s [] ((enter scan n d s).0 ∷ []) (enter scan n d s).1
    pub cut :
        (n : NodeId) (d : ℕ) (s : WalkState W) (done : List NodeId) (cs : List Verdict)
        (u : WalkState W) (c : NodeId)
        → IsEdge edges_for n c
        → during n d s done cs u
        → max_depth < d + 1
        → during n d s
            (done ++ c ∷ [])
            (cs ++ floor on_depth_limit ∷ [])
            (push_diagnostic (depth_limit_reached c (d + 1)) u)
    pub cycle :
        (n : NodeId) (d : ℕ) (s : WalkState W) (done : List NodeId) (cs : List Verdict)
        (u : WalkState W) (c : NodeId)
        → IsEdge edges_for n c
        → during n d s done cs u
        → In c u.path
        → during n d s
            (done ++ c ∷ [])
            (cs ++ memo u c ∷ [])
            (push_diagnostic (cycle_detected n c) u)
    pub seen :
        (n : NodeId) (d : ℕ) (s : WalkState W) (done : List NodeId) (cs : List Verdict)
        (u : WalkState W) (c : NodeId)
        → during n d s done cs u
        → In c u.visited
        → during n d s (done ++ c ∷ []) (cs ++ memo u c ∷ []) u
    pub deeper :
        (n : NodeId) (d : ℕ) (s : WalkState W) (done : List NodeId) (cs : List Verdict)
        (u : WalkState W) (c : NodeId)
        → during n d s done cs u
        → IsEdge edges_for n c
        → d + 1 ≤ max_depth
        → ¬ In c u.path
        → ¬ In c u.visited
        → before c (d + 1) u
    pub returned :
        (n : NodeId) (d : ℕ) (s : WalkState W) (done : List NodeId) (cs : List Verdict)
        (u : WalkState W) (c : NodeId) (v : Verdict) (t : WalkState W)
        → during n d s done cs u
        → after c (d + 1) u v t
        → during n d s (done ++ c ∷ []) (cs ++ v ∷ []) t
    pub left :
        (n : NodeId) (d : ℕ) (s : WalkState W) (children : List NodeId) (cs : List Verdict)
        (u : WalkState W)
        → before n d s
        → edges_for n ≡ ok children
        → during n d s children cs u
        → after n d s (leave n cs u).0 (leave n cs u).1
    pub unresolved :
        (n : NodeId) (d : ℕ) (s : WalkState W) (name range : String) (own : Verdict)
        (u : WalkState W)
        → before n d s
        → edges_for n ≡ err (EdgeError.unresolved_range name range)
        → during n d s [] (own ∷ []) u
        → let r =
            leave n (own ∷ Verdict.warn ∷ []) (push_diagnostic (unresolved_range n name range) u) in
          after n d s r.0 r.1

  module _ (before : NodeId → ℕ → WalkState W → Type 0)
      (during : NodeId → ℕ → WalkState W → List NodeId → List Verdict → WalkState W → Type 0)
      (after : NodeId → ℕ → WalkState W → Verdict → WalkState W → Type 0)
      (inv : WalkInvariant before during after) where
    -- What is known of the deeper call.
    abbrev Keeps : (NodeId → ℕ → WalkState W → Option (Verdict × WalkState W)) → Type 0
    Keeps go =
        (c : NodeId) (d : ℕ) (u : WalkState W) (v : Verdict) (t : WalkState W)
        → before c d u
        → go c d u ≡ some (v, t)
        → after c d u v t

    module _ (go : NodeId → ℕ → WalkState W → Option (Verdict × WalkState W)) (keeps : Keeps go)
        (n : NodeId) (d : ℕ) (s : WalkState W) where
      -- The loop invariant after one more child, as a predicate on what `descend` returned.
      abbrev Next : List NodeId → List Verdict → NodeId → Verdict × WalkState W → Type 0
      Next done cs c r = during n d s (done ++ c ∷ []) (cs ++ r.0 ∷ []) r.1

      descend-during :
          (done : List NodeId) (cs : List Verdict) (u : WalkState W) (c : NodeId)
          (r : Verdict × WalkState W)
          → IsEdge edges_for n c
          → during n d s done cs u
          → descend max_depth on_depth_limit go n c d u ≡ some r
          → Next done cs c r
      descend-during done cs u c r edge h e = elim (dec_lt max_depth (d + 1)) [
        | yes beyond ↦
            result-subst (Next done cs c) (descend-cut max_depth on_depth_limit go n c d u beyond) e
              (inv.cut n d s done cs u c edge h beyond)
        | no within ↦
            let near : d + 1 ≤ max_depth = omega arith in
            elim (Bool-cases (contains u.path c)) [
              | inl on_path ↦
                  result-subst (Next done cs c)
                    (descend-cycle max_depth on_depth_limit go n c d u near on_path) e
                    (inv.cycle n d s done cs u c edge h (contains-In u.path c on_path))
              | inr off_path ↦ elim (Bool-cases (contains u.visited c)) [
                | inl known ↦
                    result-subst (Next done cs c)
                      (descend-seen max_depth on_depth_limit go n c d u near off_path known) e
                      (inv.seen n d s done cs u c h (contains-In u.visited c known))
                | inr unknown ↦ inv.returned n d s done cs u c r.0 r.1 h (
                    keeps c (d + 1) u r.0 r.1
                      (inv.deeper n d s done cs u c h edge near
                        (not-In_of_contains u.path c off_path)
                        (not-In_of_contains u.visited c unknown))
                      (sym (descend-fresh max_depth on_depth_limit go n c d u near off_path unknown)
                        ∙ e))
              ]
            ]
      ]

      each-during :
          (done children : List NodeId) (cs : List Verdict) (u : WalkState W)
          (r : List Verdict × WalkState W)
          → edges_for n ≡ ok (done ++ children)
          → during n d s done cs u
          → each (λ c. descend max_depth on_depth_limit go n c d) children cs u ≡ some r
          → during n d s (done ++ children) r.0 r.1
      unfolding each
      each-during done [] cs u r edges h e =
          result-subst (λ r. during n d s (done ++ []) r.0 r.1) {a = (cs, u)} refl e
            (rw append-nil h)
      each-during done (c ∷ children) cs u r edges h e =
          let (v, stepped, rest) = >>=-eq-some (descend max_depth on_depth_limit go n c d u) _ e in
          let edge : IsEdge edges_for n c =
            (done ++ c ∷ children, edges, In-append_right c done (c ∷ children) (inl refl)) in
          rw (← append_assoc done (c ∷ []) children) (
            each-during (done ++ c ∷ []) children (cs ++ v.0 ∷ []) v.1 r (rw (append_assoc) edges)
              (descend-during done cs u c v edge h stepped) rest)

    follow-after :
        (go : NodeId → ℕ → WalkState W → Option (Verdict × WalkState W))
        → Keeps go
        → (n : NodeId) (d : ℕ) (s : WalkState W) (own : Verdict) (u : WalkState W)
          (edges : EdgeResult) (r : List Verdict × WalkState W)
        → edges_for n ≡ edges
        → before n d s
        → during n d s [] (own ∷ []) u
        → follow max_depth on_depth_limit go n d edges own u ≡ some r
        → after n d s (leave n r.0 r.1).0 (leave n r.0 r.1).1
    unfolding follow
    follow-after go keeps n d s own u (ok children) r edges b h e =
        inv.left n d s children r.0 r.1 b edges
          (each-during go keeps n d s [] children (own ∷ []) u r edges h e)
    follow-after go keeps n d s own u (err (EdgeError.unresolved_range name range)) r edges b h e =
        result-subst (λ r. after n d s (leave n r.0 r.1).0 (leave n r.0 r.1).1) refl e
          (inv.unresolved n d s name range own u b edges h)

    -- The rule: a visit that starts where `before` holds returns where `after` holds.
    pub visit-after :
        (fuel : ℕ) (n : NodeId) (d : ℕ) (s : WalkState W) (v : Verdict) (t : WalkState W)
        → before n d s
        → visit edges_for scan max_depth on_depth_limit fuel n d s ≡ some (v, t)
        → after n d s v t
    unfolding visit
    visit-after zero n d s v t b e = cc
    visit-after (suc fuel) n d s v t b e =
        let (r, followed, ends) =
          >>=-eq-some
            (follow max_depth on_depth_limit (visit edges_for scan max_depth on_depth_limit fuel) n
              d (edges_for n) (enter scan n d s).0 (enter scan n d s).1)
            _ e in
        result-subst (λ r. after n d s r.0 r.1) refl ends
          (follow-after (visit edges_for scan max_depth on_depth_limit fuel) (visit-after fuel) n d
            s (enter scan n d s).0 (enter scan n d s).1 (edges_for n) r refl b (inv.entered n d s b)
            followed)

-- A walk is the visit of its root from the fresh state; the result shows parts of the last state.
pub dfs_walk-visit :
    {W : Type 0} (edges_for : NodeId → EdgeResult) (scan : W → NodeId → Verdict × W) (max_depth : ℕ)
    (on_depth_limit : OnDepthLimit) (root : NodeId) (w : W) (r : WalkResult W)
    → dfs_walk edges_for scan max_depth on_depth_limit root w ≡ some r
    → (t : WalkState W) × (visit edges_for scan max_depth on_depth_limit
          (suc max_depth)
          root
          0
          (fresh_state w)
        ≡ some (r.verdict, t))
      × (r.diagnostics ≡ t.diagnostics)
      × (r.node_verdicts ≡ t.node_verdicts)
unfolding dfs_walk
dfs_walk-visit {W} edges_for scan max_depth on_depth_limit root w r e =
    let o = visit edges_for scan max_depth on_depth_limit (suc max_depth) root 0 (fresh_state w) in
    let (p, visited, made) = >>=-eq-some o _ e in
    result-subst
      (λ (r : WalkResult W).
        (t : WalkState W) × (o ≡ some (r.verdict, t))
        × (r.diagnostics ≡ t.diagnostics)
        × (r.node_verdicts ≡ t.node_verdicts))
      refl made (p.1, visited, refl, refl)
