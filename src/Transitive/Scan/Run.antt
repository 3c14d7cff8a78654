-- ===== src/Transitive/Scan/Run.antt =====
-- src/transitive/scan.rs: the two passes over the cache and the whole scan.
use dep_scan.Prelude.{
  ℕ, List, [], ◌∷◌, ◌++◌, Option, none, some, ◌>>=◌, if◌then◌else◌, lookup, String, string_eq, map,
  ◌==◌, Bool, true, false,
}
use dep_scan.Policy.Vcs.{classify_ref, is_pinned}
use dep_scan.Cache.{subtree_digest_valid}
use dep_scan.Transitive.Types.{NodeId, Verdict, EdgeResult, ok, err, Diagnostic, node_id_eq}
use dep_scan.Transitive.Budget.{NodeBudgetExceeded, charge_all, new_budget}
use dep_scan.Transitive.Graph.{DependencySource, nodes}
use dep_scan.Transitive.Report.{
  TransitiveOutcome, Report, default_outcome, project_budget, project_diagnostic, push_diagnostics,
  walk_roots, verdict_str,
}
use dep_scan.Transitive.Scan.{
  GitResolver, TransitiveScanInputs, Services, git_origins, from_flat_results,
  CompositeEdgeProvider, composite_edges, scan_node, set_warm, set_cold, cold_roots, scan_children,
}

module _ {W Tree : Type 0} (services : Services W Tree) where
  -- The row and the digest that a pinned git root has stored; `none` where the source continues.
  unfoldable pub stored_digest : GitResolver → W → NodeId → Option (String × String × String)
  stored_digest resolver w (NodeId.registry name version reg) = none
  stored_digest resolver w (NodeId.git name sha) = elim (lookup name resolver) [
    | none ↦ none
    | some target ↦
        if is_pinned (classify_ref target.ref)
        then (elim (services.lookup_git w name target.ref) [
          | none ↦ none
          | some row ↦ elim row.subtree_digest [
            | none ↦ none
            | some digest ↦ some (name, target.ref, digest)
          ]
        ])
        else none
  ]

  unfoldable pub invalidate_stale_parents :
      GitResolver → List (String × Verdict) → (NodeId → EdgeResult) → List NodeId → W → W
  unfolding stored_digest
  invalidate_stale_parents resolver verdicts edges [] w = w
  invalidate_stale_parents resolver verdicts edges (root ∷ roots) w =
      let continue = invalidate_stale_parents resolver verdicts edges roots in
      elim (stored_digest resolver w root) [
        | none ↦ continue w
        | some (name, ref, digest) ↦ elim (edges root) [
          | err e ↦ continue w
          | ok children ↦
              let (pairs, w') = scan_children services resolver verdicts children w in
              let recomputed = services.compute_subtree_digest pairs in
              continue (
                if subtree_digest_valid (some digest) (some recomputed)
                then w'
                else services.invalidate_git name ref w')
        ]
      ]

  -- The body of the loop of `write_subtree_digests` for a pinned git root.
  unfoldable pub write_digest :
      GitResolver
      → List (String × Verdict)
      → (NodeId → EdgeResult)
      → NodeId
      → String
      → String
      → W
      → W
  write_digest resolver verdicts edges root name ref w = elim (edges root) [
    | err e ↦ w
    | ok children ↦
        let (pairs, w1) = scan_children services resolver verdicts children w in
        let digest = services.compute_subtree_digest pairs in
        let (v, w2) = scan_node services resolver verdicts w1 root in
        elim (services.lookup_git w2 name ref) [
          | none ↦ w2
          | some row ↦ elim row.content_hash [
            | none ↦ w2
            | some hash ↦ services.insert_git name ref (verdict_str v) hash digest w2
          ]
        ]
  ]

  unfoldable pub write_digests :
      GitResolver
      → List (String × Verdict)
      → (NodeId → EdgeResult)
      → List (NodeId × Option DependencySource)
      → W
      → W
  unfolding write_digest
  write_digests resolver verdicts edges [] w = w
  write_digests resolver verdicts edges
        ((NodeId.git name sha, some (DependencySource.git url ref)) ∷ roots) w =
      let w' = write_digest resolver verdicts edges (NodeId.git name sha) name ref w in
      write_digests resolver verdicts edges roots (if is_pinned (classify_ref ref) then w' else w)
  write_digests resolver verdicts edges (root ∷ roots) w =
      write_digests resolver verdicts edges roots w

  abbrev pub write_subtree_digests :
      GitResolver
      → List (String × Verdict)
      → (NodeId → EdgeResult)
      → List (NodeId × Option DependencySource)
      → ℕ
      → W
      → W
  write_subtree_digests resolver verdicts edges roots max_depth w =
      if max_depth == 0 then w else write_digests resolver verdicts edges roots w

  abbrev pub root_nodes : TransitiveScanInputs → List NodeId
  root_nodes inputs = map (λ (root : NodeId × Option DependencySource). root.0) inputs.roots

  -- The budget's first loop, then the edges: what the walk goes by, and the breach if there is one.
  unfoldable pub prepare :
      TransitiveScanInputs → W → Option NodeBudgetExceeded × CompositeEdgeProvider
  unfolding charge_all git_origins set_warm set_cold cold_roots
  prepare inputs w =
      let (resolver, git_roots) = git_origins inputs.roots ([], []) in
      let (breach, budget) =
        charge_all (nodes inputs.graph ++ root_nodes inputs ++ git_roots)
          (new_budget inputs.config.max_total_nodes) in
      let composite : CompositeEdgeProvider = record { graph = inputs.graph; git_edges = [] } in
      elim breach [
        | some b ↦ (some b, composite)
        | none ↦
            set_cold services resolver (cold_roots services resolver w git_roots) budget
              (set_warm services resolver w git_roots composite)
      ]

  -- The outcome before the walks, with the breach if there is one.
  abbrev pub start_report : Option NodeBudgetExceeded → Report
  start_report breach = record {
    outcome = elim breach [
      | none ↦ default_outcome
      | some b ↦ record default_outcome { diagnostics = project_budget b ∷ [] }
    ];
    seen_rows = [];
    seen_diags = [];
  }

  abbrev pub is_none : Option NodeBudgetExceeded → Bool
  is_none breach = elim breach [ none ↦ true | some b ↦ false ]

  -- The first pass over the cache, under its guard.
  unfoldable pub invalidation_pass :
      Option NodeBudgetExceeded → TransitiveScanInputs → (NodeId → EdgeResult) → W → W
  unfolding invalidate_stale_parents
  invalidation_pass breach inputs edges w =
      let (resolver, git_roots) = git_origins inputs.roots ([], []) in
      if is_none breach
      then invalidate_stale_parents resolver (from_flat_results inputs.flat_verdicts []) edges
          git_roots w
      else w

  -- What could not be fetched joins the diagnostics behind the loop over the roots.
  unfoldable pub report_unfetchable : Report × W → Report × W
  unfolding push_diagnostics
  report_unfetchable t =
      let (missing, w) = services.take_unfetchable t.1 in
      let projected =
        map (λ (x : NodeId × String). project_diagnostic (Diagnostic.unfetchable x.0 x.1))
          missing in
      (push_diagnostics services.debug projected t.0, w)

  -- The loop over the roots and what follows it, under their guard.
  unfoldable pub walk_pass :
      Option NodeBudgetExceeded
      → TransitiveScanInputs
      → (NodeId → EdgeResult)
      → Report
      → W
      → Option (Report × W)
  unfolding walk_roots report_unfetchable
  walk_pass breach inputs edges report w =
      let resolver = (git_origins inputs.roots ([], [])).0 in
      let walked =
        walk_roots services.debug edges
          (scan_node services resolver (from_flat_results inputs.flat_verdicts []))
          inputs.config.max_depth inputs.config.on_depth_limit (root_nodes inputs) w report in
      if is_none breach then (walked >>= λ t. some (report_unfetchable t)) else some (report, w)

  -- The second pass over the cache, under its guard.
  unfoldable pub digest_pass :
      Option NodeBudgetExceeded → TransitiveScanInputs → (NodeId → EdgeResult) → W → W
  unfolding write_digests
  digest_pass breach inputs edges w =
      if is_none breach
      then write_subtree_digests (git_origins inputs.roots ([], [])).0
          (from_flat_results inputs.flat_verdicts []) edges inputs.roots inputs.config.max_depth w
      else w

  unfoldable pub run_transitive_scan : TransitiveScanInputs → W → Option (TransitiveOutcome × W)
  unfolding prepare invalidation_pass walk_pass digest_pass
  run_transitive_scan inputs w =
      let (breach, composite) = prepare inputs w in
      let edges = composite_edges composite in
      walk_pass breach inputs edges (start_report breach) (invalidation_pass breach inputs edges w)
      >>= λ t. some (t.0.outcome, digest_pass breach inputs edges t.1)
