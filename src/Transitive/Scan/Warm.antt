-- ===== src/Transitive/Scan/Warm.antt =====
-- src/transitive/scan.rs: the edges of a git root with a warm cache row.
use dep_scan.Prelude.{
  List, [], ◌∷◌, ◌++◌, none, some, if◌then◌else◌, lookup, lookup-map_insert, true, ◌≡◌, ◌≢◌, refl,
  arith, In, inl, inr, Bool-cases, Option-cases, ◌⊎◌,
}
use dep_scan.Transitive.Types.{NodeId, EdgeResult, ok, node_eq_iff, node_id_eq}
use dep_scan.Transitive.Budget.{NodeBudget, charge_all, new_budget}
use dep_scan.Transitive.Scan.{
  GitResolver, TransitiveScanInputs, Services, git_origins, CompositeEdgeProvider, composite_edges,
  set_git_edges, is_warm_git_root, set_warm, set_cold, cold_roots, discovered_edges,
  charge_children, nodes,
}
use dep_scan.Transitive.Scan.Run.{prepare, root_nodes}
use dep_scan.Transitive.Scan.Laws.{walked_edges}

-- What is recorded for a git node, if anything, is no edge at all.
abbrev IsLeaf : NodeId → CompositeEdgeProvider → Type 0
IsLeaf n c = (lookup n c.git_edges ≡ none) ⊎ (lookup n c.git_edges ≡ some (ok []))

set-IsLeaf :
    (n m : NodeId) (edges : EdgeResult) (c : CompositeEdgeProvider)
    → (n ≢ m) ⊎ (edges ≡ ok [])
    → IsLeaf n c
    → IsLeaf n (set_git_edges m edges c)
set-IsLeaf n m edges c how leaf =
    ground (arith, lookup-map_insert m n edges c.git_edges, node_eq_iff n m)

module _ {W Tree : Type 0} (services : Services W Tree) (resolver : GitResolver) (w : W) where
  set_warm-IsLeaf :
      (n : NodeId) (roots : List NodeId) (c : CompositeEdgeProvider)
      → IsLeaf n c
      → IsLeaf n (set_warm services resolver w roots c)
  unfolding set_warm
  set_warm-IsLeaf n [] c leaf = leaf
  set_warm-IsLeaf n (root ∷ roots) c leaf =
      set_warm-IsLeaf n roots
        (if is_warm_git_root services resolver w root then set_git_edges root (ok []) c else c)
        (elim (Bool-cases (is_warm_git_root services resolver w root)) [
          | inl warm ↦ rw warm (set-IsLeaf n root (ok []) c (inr refl) leaf)
          | inr cold ↦ rw cold leaf
        ])

  cold_roots-warm :
      (n : NodeId) (roots : List NodeId)
      → is_warm_git_root services resolver w n ≡ true
      → ¬ In n (cold_roots services resolver w roots)
  unfolding cold_roots
  cold_roots-warm n [] warm m = m
  cold_roots-warm n (root ∷ roots) warm m =
      elim (Bool-cases (is_warm_git_root services resolver w root)) [
        | inl skipped ↦ cold_roots-warm n roots warm (rw skipped at m)
        | inr cold ↦ elim ((rw cold at m)) [
          | inl same ↦ cc
          | inr m' ↦ cold_roots-warm n roots warm m'
        ]
      ]

  set_cold-IsLeaf :
      (n : NodeId) (roots : List NodeId) (budget : NodeBudget) (c : CompositeEdgeProvider)
      → ¬ In n roots
      → IsLeaf n c
      → IsLeaf n (set_cold services resolver roots budget c).1
  unfolding set_cold
  set_cold-IsLeaf n [] budget c new leaf = leaf
  set_cold-IsLeaf n (root ∷ roots) budget c new leaf =
      let edges = discovered_edges services resolver root in
      let charged = charge_children services resolver edges budget in
      let found = set_git_edges root edges c in
      let leaf' = set-IsLeaf n root edges c (inl (λ e. new (inl e))) leaf in
      elim (Option-cases charged.0) [
        | inl within ↦
            rw (within, set_cold) (set_cold-IsLeaf n roots charged.1 found (λ m. new (inr m)) leaf')
        | inr (b, breach) ↦ rw (breach, set_cold) leaf'
      ]

module _ {W Tree : Type 0} (services : Services W Tree) (inputs : TransitiveScanInputs)
    (w : W) where
  prepare-IsLeaf :
      (n : NodeId)
      → is_warm_git_root services (git_origins inputs.roots ([], [])).0 w n ≡ true
      → IsLeaf n (prepare services inputs w).1
  unfolding prepare lookup
  prepare-IsLeaf n warm =
      let (resolver, git_roots) = git_origins inputs.roots ([], []) in
      let charged =
        charge_all (nodes inputs.graph ++ root_nodes services inputs ++ git_roots)
          (new_budget inputs.config.max_total_nodes) in
      let empty : CompositeEdgeProvider = record { graph = inputs.graph; git_edges = [] } in
      elim (Option-cases charged.0) [
        | inr (b, breach) ↦ rw (breach, prepare) (inl refl)
        | inl within ↦
            rw (within, prepare)
              (set_cold-IsLeaf services resolver w n (cold_roots services resolver w git_roots)
                charged.1 (set_warm services resolver w git_roots empty)
                (cold_roots-warm services resolver w n git_roots warm)
                (set_warm-IsLeaf services resolver w n git_roots empty (inl refl)))
      ]

  -- A git root whose cache row has a content hash and a subtree digest has no edges in a scan,
  -- whatever its manifest declares.
  pub walked_edges-warm :
      (n : NodeId)
      → is_warm_git_root services (git_origins inputs.roots ([], [])).0 w n ≡ true
      → walked_edges services inputs w n ≡ ok []
  unfolding composite_edges is_warm_git_root
  walked_edges-warm (NodeId.registry name version reg) warm = cc
  walked_edges-warm (NodeId.git name sha) warm = elim (prepare-IsLeaf (NodeId.git name sha) warm) [
    | inl unknown ↦ ground arith
    | inr leaf ↦ ground arith
  ]
