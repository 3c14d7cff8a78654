-- ===== src/Transitive/Engine/Settled.antt =====
-- src/transitive/engine.rs: the visited nodes at the end of a walk.
use dep_scan.Prelude.{
  ℕ, suc, ◌+◌, List, [], ◌∷◌, some, ◌≡◌, refl, In, inl, inr, String, In-append_last, In-set_insert,
}
use dep_scan.Transitive.Types.{
  NodeId, Verdict, EdgeError, EdgeResult, err, OnDepthLimit, Diagnostic, depth_limit_reached,
  cycle_detected, unresolved_range, node_id_eq,
}
use dep_scan.Transitive.Engine.Rule.{WalkInvariant, visit-after}
use dep_scan.Transitive.Engine.{WalkState, push_diagnostic, enter, leave, visit, fresh_state}
use dep_scan.Transitive.Engine.Coverage.{
  Started, Progress, Finished, Progress-push, IsSettled, IsSettled-Grows, Finished-leave,
  Progress-seen, Grows-enter, IsOpenOrSettled-push, Progress-returned, Grows-trans,
  Grows-push_diagnostic,
}

module _ {W : Type 0} (edges_for : NodeId → EdgeResult) (scan : W → NodeId → Verdict × W)
    (max_depth : ℕ) (on_depth_limit : OnDepthLimit) where
  abbrev Before : NodeId → ℕ → WalkState W → Type 0
  Before n d s = Started edges_for n s

  abbrev During : NodeId → ℕ → WalkState W → List NodeId → List Verdict → WalkState W → Type 0
  During n d s done cs u = Progress edges_for n s done u

  abbrev After : NodeId → ℕ → WalkState W → Verdict → WalkState W → Type 0
  After n d s v t = Finished edges_for n s t

  Progress-enter :
      (n : NodeId) (d : ℕ) (s : WalkState W)
      → Started edges_for n s
      → Progress edges_for n s [] (enter scan n d s).1
  unfolding enter
  Progress-enter n d s b = record {
    kept = record {
      cases = λ m i. elim ((In-set_insert n m s.visited).0 i) [
        | inl same ↦ inl ((In-set_insert n m s.path).1 (inl same))
        | inr known ↦ elim (b.kept.cases m known) [
          | inl on_path ↦ inl ((In-set_insert n m s.path).1 (inr on_path))
          | inr settled ↦ inr (
              IsSettled-Grows s (enter scan n d s).1 (Grows-enter scan n d s) m (edges_for m)
                settled)
        ]
      ];
      opened = λ m i. elim ((In-set_insert n m s.path).0 i) [
        | inl same ↦ (In-set_insert n m s.visited).1 (inl same)
        | inr there ↦ (In-set_insert n m s.visited).1 (inr (b.kept.opened m there))
      ];
    };
    off_path = b.off_path;
    grows = Grows-enter scan n d s;
    visited = (In-set_insert n n s.visited).1 (inl refl);
    path = λ m. In-set_insert n m s.path;
    covered = tt;
  }

  Finished-unresolved :
      (n : NodeId) (s u : WalkState W) (name range : String) (cs : List Verdict)
      → edges_for n ≡ err (EdgeError.unresolved_range name range)
      → Progress edges_for n s [] u
      → Finished edges_for n s (leave n cs (push_diagnostic (unresolved_range n name range) u)).1
  unfolding push_diagnostic
  Finished-unresolved n s u name range cs edges p =
      let x = Diagnostic.unresolved_range n name range in
      Finished-leave edges_for n s (push_diagnostic x u) [] cs
        (record {
          kept = IsOpenOrSettled-push edges_for x u p.kept;
          off_path = p.off_path;
          grows = Grows-trans s u (push_diagnostic x u) p.grows (Grows-push_diagnostic x u);
          visited = p.visited;
          path = p.path;
          covered = tt;
        })
        (rw edges (In-append_last x u.diagnostics))

  coverage_invariant : WalkInvariant edges_for scan max_depth on_depth_limit Before During After
  unfolding push_diagnostic
  coverage_invariant = record {
    entered = Progress-enter;
    cut = λ n d s done cs u c edge p beyond.
        Progress-push edges_for n c s u done (depth_limit_reached c (d + 1)) p
          (inr (d + 1, In-append_last (depth_limit_reached c (d + 1)) u.diagnostics));
    cycle = λ n d s done cs u c edge p on_path.
        Progress-push edges_for n c s u done (cycle_detected n c) p (inl (p.kept.opened c on_path));
    seen = λ n d s done cs u c p known. Progress-seen edges_for n c s u done p known;
    deeper = λ n d s done cs u c p edge near off new. record { kept = p.kept; off_path = off };
    returned = λ n d s done cs u c v t p f. Progress-returned edges_for n c s u t done p f;
    left = λ n d s children cs u b edges p.
        Finished-leave edges_for n s u children cs p (rw edges p.covered);
    unresolved = λ n d s name range own u b edges p.
        Finished-unresolved n s u name range (own ∷ Verdict.warn ∷ []) edges p;
  }

  -- The last state of a walk: the path is empty again, so every visited node is settled.
  pub visit-IsSettled :
      (root : NodeId) (w : W) (v : Verdict) (t : WalkState W)
      → visit edges_for scan max_depth on_depth_limit (suc max_depth) root 0 (fresh_state w)
        ≡ some (v, t)
      → In root t.visited × ((m : NodeId) → In m t.visited → IsSettled t m (edges_for m))
  visit-IsSettled root w v t e =
      let start : Started edges_for root (fresh_state w) = record {
        kept = record { cases = λ m i. absurd i; opened = λ m i. absurd i };
        off_path = λ i. i;
      } in
      let f =
        visit-after edges_for scan max_depth on_depth_limit Before During After coverage_invariant
          (suc max_depth) root 0 (fresh_state w) v t start e in
      (
        f.visited,
        λ m i. elim (f.kept.cases m i) [
          | inl open_still ↦ absurd ((f.path m).0 open_still)
          | inr settled ↦ settled
        ],
      )
