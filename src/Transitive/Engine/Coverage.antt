-- ===== src/Transitive/Engine/Coverage.antt =====
-- src/transitive/engine.rs: when the edges of a visited node are settled, and what each step of the
-- walk does to that.
use dep_scan.Prelude.{
  ℕ, List, [], ◌∷◌, ◌++◌, ◌≡◌, In, All, Bool-cases, inl, inr, ◌⊎◌, ◌↔◌, In-append_left,
  In-set_insert, In-set_remove, All-append,
}
use dep_scan.Transitive.Types.{
  node_eq, node_eq_iff, NodeId, Verdict, EdgeError, EdgeResult, ok, err, Diagnostic,
  depth_limit_reached, unresolved_range, node_id_eq,
}
use dep_scan.Transitive.Engine.{WalkState, push_diagnostic, enter, leave}

module _ {W : Type 0} where
  -- The edge to `c` was followed, or cut by the depth limit with a diagnostic.
  abbrev pub IsCovered : WalkState W → NodeId → Type 0
  IsCovered u c = In c u.visited ⊎ ((depth : ℕ) × In (depth_limit_reached c depth) u.diagnostics)

  -- The edges of `n` are all accounted for.
  abbrev pub IsSettled : WalkState W → NodeId → EdgeResult → Type 0
  IsSettled u n (ok children) = All (IsCovered u) children
  IsSettled u n (err (EdgeError.unresolved_range name range)) =
      In (unresolved_range n name range) u.diagnostics

  -- Nothing is forgotten on the way from `s` to `u`.
  pub record Grows (s u : WalkState W) : Type 0 where
    pub visited : (m : NodeId) → In m s.visited → In m u.visited
    pub diagnostics : (x : Diagnostic) → In x s.diagnostics → In x u.diagnostics

  pub Grows-trans : (s u t : WalkState W) → Grows s u → Grows u t → Grows s t
  Grows-trans s u t g h = record {
    visited = λ m i. h.visited m (g.visited m i);
    diagnostics = λ x i. h.diagnostics x (g.diagnostics x i);
  }

  pub Grows-push_diagnostic : (x : Diagnostic) (u : WalkState W) → Grows u (push_diagnostic x u)
  unfolding push_diagnostic
  Grows-push_diagnostic x u = record {
    visited = λ m i. i;
    diagnostics = λ y i. In-append_left y u.diagnostics (x ∷ []) i;
  }

  pub Grows-leave : (n : NodeId) (cs : List Verdict) (u : WalkState W) → Grows u (leave n cs u).1
  unfolding leave
  Grows-leave n cs u = record { visited = λ m i. i; diagnostics = λ x i. i }

  pub Grows-enter :
      (scan : W → NodeId → Verdict × W) (n : NodeId) (d : ℕ) (s : WalkState W)
      → Grows s (enter scan n d s).1
  unfolding enter
  Grows-enter scan n d s = record {
    visited = λ m i. (In-set_insert n m s.visited).1 (inr i);
    diagnostics = λ x i. i;
  }

  IsCovered-Grows : (s u : WalkState W) → Grows s u → (c : NodeId) → IsCovered s c → IsCovered u c
  IsCovered-Grows s u g c (inl known) = inl (g.visited c known)
  IsCovered-Grows s u g c (inr (depth, cut)) =
      inr (depth, g.diagnostics (depth_limit_reached c depth) cut)

  pub All-IsCovered-Grows :
      (s u : WalkState W)
      → Grows s u
      → (cs : List NodeId) → All (IsCovered s) cs
      → All (IsCovered u) cs
  All-IsCovered-Grows s u g [] h = tt
  All-IsCovered-Grows s u g (c ∷ cs) (p, h) =
      (IsCovered-Grows s u g c p, All-IsCovered-Grows s u g cs h)

  pub IsSettled-Grows :
      (s u : WalkState W)
      → Grows s u
      → (n : NodeId) (edges : EdgeResult) → IsSettled s n edges
      → IsSettled u n edges
  IsSettled-Grows s u g n (ok children) h = All-IsCovered-Grows s u g children h
  IsSettled-Grows s u g n (err (EdgeError.unresolved_range name range)) h =
      g.diagnostics (unresolved_range n name range) h

module _ {W : Type 0} (edges_for : NodeId → EdgeResult) where
  -- A visited node is still open, on the path, or settled.
  pub record IsOpenOrSettled (u : WalkState W) : Type 0 where
    pub cases : (m : NodeId) → In m u.visited → In m u.path ⊎ IsSettled u m (edges_for m)
    pub opened : (m : NodeId) → In m u.path → In m u.visited

  pub record Started (n : NodeId) (s : WalkState W) : Type 0 where
    pub kept : IsOpenOrSettled s
    pub off_path : ¬ In n s.path

  pub record Progress (n : NodeId) (s : WalkState W) (done : List NodeId) (u : WalkState W)
      : Type 0 where
    pub kept : IsOpenOrSettled u
    pub off_path : ¬ In n s.path
    pub grows : Grows s u
    pub visited : In n u.visited
    pub path : (m : NodeId) → In m u.path ↔ ((m ≡ n) ⊎ In m s.path)
    pub covered : All (IsCovered u) done

  pub record Finished (n : NodeId) (s t : WalkState W) : Type 0 where
    pub kept : IsOpenOrSettled t
    pub grows : Grows s t
    pub visited : In n t.visited
    pub path : (m : NodeId) → In m t.path ↔ In m s.path

  pub IsOpenOrSettled-push :
      (x : Diagnostic) (u : WalkState W) → IsOpenOrSettled u → IsOpenOrSettled (push_diagnostic x u)
  unfolding push_diagnostic
  IsOpenOrSettled-push x u k = record {
    cases = λ m i. elim (k.cases m i) [
      | inl on_path ↦ inl on_path
      | inr settled ↦ inr (
          IsSettled-Grows u (push_diagnostic x u) (Grows-push_diagnostic x u) m (edges_for m)
            settled)
    ];
    opened = k.opened;
  }

  pub Progress-push :
      (n c : NodeId) (s u : WalkState W) (done : List NodeId) (x : Diagnostic)
      → Progress n s done u
      → IsCovered (push_diagnostic x u) c
      → Progress n s (done ++ c ∷ []) (push_diagnostic x u)
  unfolding push_diagnostic
  Progress-push n c s u done x p known =
      let g = Grows-push_diagnostic x u in
      record {
        kept = IsOpenOrSettled-push x u p.kept;
        off_path = p.off_path;
        grows = Grows-trans s u (push_diagnostic x u) p.grows g;
        visited = p.visited;
        path = p.path;
        covered =
            All-append (IsCovered (push_diagnostic x u)) done (c ∷ [])
              (All-IsCovered-Grows u (push_diagnostic x u) g done p.covered) (known, tt);
      }

  pub Progress-seen :
      (n c : NodeId) (s u : WalkState W) (done : List NodeId)
      → Progress n s done u
      → In c u.visited
      → Progress n s (done ++ c ∷ []) u
  Progress-seen n c s u done p known = record {
    kept = p.kept;
    off_path = p.off_path;
    grows = p.grows;
    visited = p.visited;
    path = p.path;
    covered = All-append (IsCovered u) done (c ∷ []) p.covered (inl known, tt);
  }

  pub Progress-returned :
      (n c : NodeId) (s u t : WalkState W) (done : List NodeId)
      → Progress n s done u
      → Finished c u t
      → Progress n s (done ++ c ∷ []) t
  Progress-returned n c s u t done p f = record {
    kept = f.kept;
    off_path = p.off_path;
    grows = Grows-trans s u t p.grows f.grows;
    visited = f.grows.visited n p.visited;
    path = λ m. ((λ i. (p.path m).0 ((f.path m).0 i)), λ i. (f.path m).1 ((p.path m).1 i));
    covered =
        All-append (IsCovered t) done (c ∷ []) (All-IsCovered-Grows u t f.grows done p.covered)
          (inl f.visited, tt);
  }

  pub Finished-leave :
      (n : NodeId) (s u : WalkState W) (done : List NodeId) (cs : List Verdict)
      → Progress n s done u
      → IsSettled u n (edges_for n)
      → Finished n s (leave n cs u).1
  unfolding leave
  Finished-leave n s u done cs p own = record {
    kept = record {
      cases = λ m i. elim (p.kept.cases m i) [
        | inr settled ↦
            inr (IsSettled-Grows u (leave n cs u).1 (Grows-leave n cs u) m (edges_for m) settled)
        | inl open_still ↦ elim (Bool-cases (node_eq m n)) [
          | inl same ↦ inr (
              IsSettled-Grows u (leave n cs u).1 (Grows-leave n cs u) m (edges_for m)
                (rw ((node_eq_iff m n).0 same) own))
          | inr other ↦
              inl ((In-set_remove n m u.path).1 (open_still, λ e. cc ((node_eq_iff m n).1 e)))
        ]
      ];
      opened = λ m i. p.kept.opened m ((In-set_remove n m u.path).0 i).0;
    };
    grows = Grows-trans s u (leave n cs u).1 p.grows (Grows-leave n cs u);
    visited = p.visited;
    path = λ m. (
      (λ i.
          let (before, other) = (In-set_remove n m u.path).0 i in
          elim ((p.path m).0 before) [ inl e ↦ absurd (other e) | inr there ↦ there ]),
      λ i. (In-set_remove n m u.path).1 ((p.path m).1 (inr i), λ e. p.off_path (rw e at i)),
    );
  }
