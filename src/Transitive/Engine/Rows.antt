-- ===== src/Transitive/Engine/Rows.antt =====
-- src/transitive/engine.rs: the rows and the diagnostics of a walk, against the graph.
use dep_scan.Prelude.{
  ℕ, suc, ◌+◌, ◌≤◌, List, [], ◌∷◌, some, ◌≡◌, refl, arith, In, All, Unique, inl, inr, ◌↔◌, map,
  In-append_left, In-append_right, In-append_cases, In-set_insert, In-set_remove, All-append, ◌⊎◌,
  sym, Unique-append_last,
}
use dep_scan.Transitive.Types.{
  NodeId, Verdict, EdgeResult, OnDepthLimit, Diagnostic, depth_limit_reached, cycle_detected,
  node_id_eq,
}
use dep_scan.Transitive.Engine.Rule.{WalkInvariant, visit-after, dfs_walk-visit}
use dep_scan.Transitive.Engine.{
  WalkState, WalkResult, push_diagnostic, enter, leave, visit, dfs_walk, fresh_state,
}
use dep_scan.Transitive.Engine.Routes.{
  Route, here, there, Reaches, row_node, map-row_node_last, IsRealRow, IsRealDiagnostic,
}

module _ (edges_for : NodeId → EdgeResult) (max_depth : ℕ) (root : NodeId) where
  module _ {W : Type 0} where
    pub record HasRows (s : WalkState W) : Type 0 where
      pub unique : Unique (map row_node s.node_verdicts)
      pub agrees : (m : NodeId) → In m s.visited ↔ In m (map row_node s.node_verdicts)
      pub rows : All (IsRealRow edges_for max_depth root) s.node_verdicts
      pub diagnostics : All (IsRealDiagnostic edges_for max_depth root) s.diagnostics

    record Started (n : NodeId) (d : ℕ) (s : WalkState W) : Type 0 where
      rows : HasRows s
      new : ¬ In n s.visited
      near : d ≤ max_depth
      route : Route edges_for root n d
      chain : (m : NodeId) → In m s.path → Reaches edges_for m n

    -- A visit of `n` that started in `s` and has come to `u`.
    record Progress (n : NodeId) (d : ℕ) (s u : WalkState W) : Type 0 where
      rows : HasRows u
      near : d ≤ max_depth
      route : Route edges_for root n d
      chain : (m : NodeId) → In m u.path → Reaches edges_for m n
      on_path : (m : NodeId) → In m u.path → (m ≡ n) ⊎ In m s.path

    -- A visit that started in `s` and returned in `t`.
    record Visited (s t : WalkState W) : Type 0 where
      rows : HasRows t
      on_path : (m : NodeId) → In m t.path → In m s.path

    HasRows-push :
        (x : Diagnostic) (u : WalkState W)
        → HasRows u
        → IsRealDiagnostic edges_for max_depth root x
        → HasRows (push_diagnostic x u)
    unfolding push_diagnostic
    HasRows-push x u h real = record {
      unique = h.unique;
      agrees = h.agrees;
      rows = h.rows;
      diagnostics =
          All-append (IsRealDiagnostic edges_for max_depth root) u.diagnostics (x ∷ [])
            h.diagnostics (real, tt);
    }

    Progress-push :
        (n : NodeId) (d : ℕ) (x : Diagnostic) (s u : WalkState W)
        → Progress n d s u
        → IsRealDiagnostic edges_for max_depth root x
        → Progress n d s (push_diagnostic x u)
    unfolding push_diagnostic
    Progress-push n d x s u p real = record {
      rows = HasRows-push x u p.rows real;
      near = p.near;
      route = p.route;
      chain = p.chain;
      on_path = p.on_path;
    }

    HasRows-leave :
        (n : NodeId) (cs : List Verdict) (u : WalkState W) → HasRows u → HasRows (leave n cs u).1
    unfolding leave
    HasRows-leave n cs u h = record {
      unique = h.unique;
      agrees = h.agrees;
      rows = h.rows;
      diagnostics = h.diagnostics;
    }

    Visited-leave :
        (n : NodeId) (d : ℕ) (cs : List Verdict) (s u : WalkState W)
        → Progress n d s u
        → Visited s (leave n cs u).1
    unfolding leave
    Visited-leave n d cs s u p = record {
      rows = HasRows-leave n cs u p.rows;
      on_path = λ m i.
          let (kept, other) = (In-set_remove n m u.path).0 i in
          elim (p.on_path m kept) [ inl e ↦ absurd (other e) | inr old ↦ old ];
    }

    Progress-enter :
        (scan : W → NodeId → Verdict × W) (n : NodeId) (d : ℕ) (s : WalkState W)
        → Started n d s
        → Progress n d s (enter scan n d s).1
    unfolding enter
    Progress-enter scan n d s b =
        let own = (scan s.world n).0 in
        let old = map row_node s.node_verdicts in
        record {
          rows = record {
            unique =
                rw (map-row_node_last s.node_verdicts n d own)
                  (Unique-append_last old n b.rows.unique (λ i. b.new ((b.rows.agrees n).1 i)));
            agrees = λ m. rw (map-row_node_last s.node_verdicts n d own) (
              λ i. elim ((In-set_insert n m s.visited).0 i) [
                | inl same ↦ In-append_right m old (n ∷ []) (inl same)
                | inr known ↦ In-append_left m old (n ∷ []) ((b.rows.agrees m).0 known)
              ],
              λ i. (In-set_insert n m s.visited).1 (elim (In-append_cases m old (n ∷ []) i) [
                | inl known ↦ inr ((b.rows.agrees m).1 known)
                | inr last ↦ elim last [ inl same ↦ inl same | inr nothing ↦ absurd nothing ]
              ]),
            );
            rows =
                All-append (IsRealRow edges_for max_depth root) s.node_verdicts ((n, d, own) ∷ [])
                  b.rows.rows ((b.near, b.route), tt);
            diagnostics = b.rows.diagnostics;
          };
          near = b.near;
          route = b.route;
          chain = λ m i. elim ((In-set_insert n m s.path).0 i) [
            | inl same ↦ (0, here (sym same) refl)
            | inr old ↦ b.chain m old
          ];
          on_path = λ m i. (In-set_insert n m s.path).0 i;
        }

module _ {W : Type 0} (edges_for : NodeId → EdgeResult) (scan : W → NodeId → Verdict × W)
    (max_depth : ℕ) (on_depth_limit : OnDepthLimit) (root : NodeId) where
  abbrev Before : NodeId → ℕ → WalkState W → Type 0
  Before n d s = Started edges_for max_depth root n d s

  abbrev During : NodeId → ℕ → WalkState W → List NodeId → List Verdict → WalkState W → Type 0
  During n d s done cs u = Progress edges_for max_depth root n d s u

  abbrev After : NodeId → ℕ → WalkState W → Verdict → WalkState W → Type 0
  After n d s v t = Visited edges_for max_depth root s t

  rows_invariant : WalkInvariant edges_for scan max_depth on_depth_limit Before During After
  rows_invariant = record {
    entered = λ n d s b. Progress-enter edges_for max_depth root scan n d s b;
    cut = λ n d s done cs u c edge p beyond.
        Progress-push edges_for max_depth root n d (depth_limit_reached c (d + 1)) s u p
          (omega (arith, p.near), there p.route edge refl);
    cycle = λ n d s done cs u c edge p on_path.
        Progress-push edges_for max_depth root n d (cycle_detected n c) s u p
          (edge, p.chain c on_path);
    seen = λ n d s done cs u c p known. p;
    deeper = λ n d s done cs u c p edge near off new. record {
      rows = p.rows;
      new = new;
      near = near;
      route = there p.route edge refl;
      chain = λ m i. let (k, way) = p.chain m i in (k + 1, there way edge refl);
    };
    returned = λ n d s done cs u c v t p h. record {
      rows = h.rows;
      near = p.near;
      route = p.route;
      chain = λ m i. p.chain m (h.on_path m i);
      on_path = λ m i. p.on_path m (h.on_path m i);
    };
    left = λ n d s children cs u b edges p. Visited-leave edges_for max_depth root n d cs s u p;
    unresolved = λ n d s name range own u b edges p.
        let x = Diagnostic.unresolved_range n name range in
        let pushed = Progress-push edges_for max_depth root n d x s u p edges in
        Visited-leave edges_for max_depth root n d (own ∷ Verdict.warn ∷ []) s (push_diagnostic x u)
          pushed;
  }

  -- What every walk guarantees of its rows and diagnostics.
  pub record Genuine (r : WalkResult W) : Type 0 where
    pub unique : Unique (map row_node r.node_verdicts)
    pub rows : All (IsRealRow edges_for max_depth root) r.node_verdicts
    pub diagnostics : All (IsRealDiagnostic edges_for max_depth root) r.diagnostics

  HasRows-fresh : (w : W) → Started edges_for max_depth root root 0 (fresh_state w)
  HasRows-fresh w = record {
    rows = record { unique = tt; agrees = λ m. ((λ i. i), λ i. i); rows = tt; diagnostics = tt };
    new = λ i. i;
    near = omega arith;
    route = here refl refl;
    chain = λ m i. absurd i;
  }

  -- The rows of the last state, for what else is known of that state.
  pub visit-HasRows :
      (w : W) (v : Verdict) (t : WalkState W)
      → visit edges_for scan max_depth on_depth_limit (suc max_depth) root 0 (fresh_state w)
        ≡ some (v, t)
      → HasRows edges_for max_depth root t
  visit-HasRows w v t e =
      (visit-after edges_for scan max_depth on_depth_limit Before During After rows_invariant
        (suc max_depth) root 0 (fresh_state w) v t (HasRows-fresh w) e).rows

  -- No node has two rows, a row's depth is the length of a route from the root within the limit,
  -- and every diagnostic is borne out by the graph: what was cut stands one level below the limit at
  -- the end of a route, the edge that closes a cycle leads to a node from which edges lead back, and
  -- a range was reported unresolvable by the node's own edges.
  pub dfs_walk-Genuine :
      (w : W) (r : WalkResult W)
      → dfs_walk edges_for scan max_depth on_depth_limit root w ≡ some r
      → Genuine r
  dfs_walk-Genuine w r e =
      let (t, visited, same_diagnostics, same_rows) =
        dfs_walk-visit edges_for scan max_depth on_depth_limit root w r e in
      let h = visit-HasRows w r.verdict t visited in
      record {
        unique = rw same_rows h.unique;
        rows = rw same_rows h.rows;
        diagnostics = rw same_diagnostics h.diagnostics;
      }
