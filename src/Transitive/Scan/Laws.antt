-- ===== src/Transitive/Scan/Laws.antt =====
-- src/transitive/scan.rs: the outcome of a scan.
use dep_scan.Prelude.{
  ℕ, [], ◌∷◌, Option, none, some, ◌>>=◌, >>=-eq-some, String, true, false, map, ◌≡◌, refl, sym, ◌∙◌,
  arith, In, inl, inr, Option-cases, List, ◌++◌, ◌+◌, ◌<◌, length, ltb,
}
use dep_scan.Transitive.Types.{NodeId, Verdict, pass, EdgeResult, node_id_eq}
use dep_scan.Transitive.Budget.{NodeBudgetExceeded, charge_all, new_budget}
use dep_scan.Transitive.Budget.Laws.{distinct, charge_all_lem}
use dep_scan.Transitive.Graph.{nodes}
use dep_scan.Transitive.Engine.Routes.{Route}
use dep_scan.Transitive.Engine.Sound.{dfs_walk-pass}
use dep_scan.Transitive.Report.{
  TransitiveOutcome, is_failure, project_budget, walk_roots, Report, project_diagnostic,
}
use dep_scan.Transitive.Report.Laws.{
  rank_of, worst_of, walk_roots-pass, walk_roots-returns, worst_of-push_diagnostics, Walk,
}
use dep_scan.Transitive.Scan.{
  TransitiveScanInputs, Services, git_origins, from_flat_results, composite_edges, scan_node,
  Diagnostic,
}
use dep_scan.Transitive.Scan.Run.{
  prepare, run_transitive_scan, root_nodes, start_report, report_unfetchable, digest_pass,
  invalidate_stale_parents,
}

passed_rank : (o : TransitiveOutcome) → is_failure o ≡ false → rank_of o.worst_verdict ≡ 0
unfolding is_failure
passed_rank o clean = elim (Option-cases o.worst_verdict) [
  | inl nothing ↦ ground arith
  | inr (v, e) ↦ ground arith
]

module _ {W Tree : Type 0} (services : Services W Tree) (inputs : TransitiveScanInputs) where
  -- The edges that the walks of a scan go by.
  abbrev pub walked_edges : W → NodeId → EdgeResult
  walked_edges w = composite_edges (prepare services inputs w).1

  -- The scanner of a scan.
  abbrev pub run_scan : W → NodeId → Verdict × W
  run_scan =
      scan_node services (git_origins inputs.roots ([], [])).0
        (from_flat_results inputs.flat_verdicts [])

  -- What the services keep when the walks begin.
  abbrev start : W → W
  start w =
      invalidate_stale_parents services (git_origins inputs.roots ([], [])).0
        (from_flat_results inputs.flat_verdicts []) (walked_edges w)
        (git_origins inputs.roots ([], [])).1 w

  -- The walks of a scan that keeps its budget.
  abbrev walks : W → Option (Report × W)
  walks w =
      walk_roots services.debug (walked_edges w) run_scan inputs.config.max_depth
        inputs.config.on_depth_limit (root_nodes services inputs) (start w)
        (start_report services none)

  -- The outcome of a scan after its walks.
  abbrev finish : (NodeId → EdgeResult) → Report × W → TransitiveOutcome × W
  finish edges t =
      let (report, w) = report_unfetchable services t in
      (report.outcome, digest_pass services none inputs edges w)

  run-within :
      (w : W)
      → (prepare services inputs w).0 ≡ none
      → run_transitive_scan services inputs w ≡ (walks w >>= λ t. some (finish (walked_edges w) t))
  unfolding run_transitive_scan
  run-within w e = elim (Option-cases (walks w)) [
    | inl stopped ↦ rw (e, run_transitive_scan, stopped) refl
    | inr (t, walked) ↦ rw (e, run_transitive_scan, walked) refl
  ]

  -- The outcome of a scan that breaks the budget.
  abbrev breached : NodeBudgetExceeded → TransitiveOutcome
  breached b = (start_report services (some b)).outcome

  run-breached :
      (w : W) (b : NodeBudgetExceeded)
      → (prepare services inputs w).0 ≡ some b
      → run_transitive_scan services inputs w ≡ some (breached b, w)
  unfolding run_transitive_scan
  run-breached w b e = rw (e, run_transitive_scan) refl

  breached-fails : (b : NodeBudgetExceeded) → is_failure (breached b) ≡ true
  unfolding is_failure project_budget
  breached-fails b = refl

  finish-worst :
      (edges : NodeId → EdgeResult) (t : Report × W)
      → rank_of (finish edges t).0.worst_verdict ≡ worst_of t.0
  unfolding report_unfetchable
  finish-worst edges t =
      worst_of-push_diagnostics services.debug
        (map (λ (x : NodeId × String). project_diagnostic (Diagnostic.unfetchable x.0 x.1))
          (services.take_unfetchable t.1).0)
        t.0

  -- No walk runs out of levels, so the scan returns.
  run_transitive_scan-returns :
      (w : W) → (t : TransitiveOutcome × W) × (run_transitive_scan services inputs w ≡ some t)
  run_transitive_scan-returns w = elim (Option-cases (prepare services inputs w).0) [
    | inr (b, e) ↦ ((breached b, w), run-breached w b e)
    | inl within ↦
        let (t, walked) =
          walk_roots-returns services.debug (walked_edges w) run_scan inputs.config.max_depth
            inputs.config.on_depth_limit (root_nodes services inputs) (start w)
            (start_report services none) in
        (finish (walked_edges w) t, rw (run-within w within, walked) refl)
  ]

  -- The nodes that a scan charges before it looks at the git roots.
  abbrev pub charged_nodes : List NodeId
  charged_nodes =
      nodes inputs.graph ++ root_nodes services inputs ++ (git_origins inputs.roots ([], [])).1

  -- A scan with more distinct nodes in its graph and among its roots than max_total_nodes, a limit up
  -- to 2³² - 2, is a failure: it reports that one breach and no row, and leaves the cache and
  -- whatever else its services keep as they were.
  pub run_transitive_scan-over_budget :
      inputs.config.max_total_nodes + 1 < 4294967296
      → inputs.config.max_total_nodes < length (distinct charged_nodes [])
      → (w : W)
      → (outcome : TransitiveOutcome) × (run_transitive_scan services inputs w ≡ some (outcome, w))
        × (is_failure outcome ≡ true)
        × (outcome.diagnostics
            ≡ project_budget (record {
              count = inputs.config.max_total_nodes + 1;
              limit = inputs.config.max_total_nodes;
            })
              ∷ [])
        × (outcome.nodes ≡ [])
  unfolding prepare
  run_transitive_scan-over_budget small many w =
      let limit = inputs.config.max_total_nodes in
      let b : NodeBudgetExceeded = record { count = limit + 1; limit = limit } in
      let over : ltb limit (length (distinct charged_nodes [])) ≡ true = ground arith in
      let charged : (charge_all charged_nodes (new_budget limit)).0 ≡ some b =
        charge_all_lem limit small charged_nodes ∙ rw over refl in
      let breach : (prepare services inputs w).0 ≡ some b = rw (charged, prepare) refl in
      (breached b, run-breached w b breach, breached-fails b, refl, refl)

  -- If a scan is no failure, then the budget held, and every node that the edges of the scan lead to
  -- from a root, at whatever depth, was scanned in a walk of that root and passed.
  pub run_transitive_scan-pass :
      (w : W) (outcome : TransitiveOutcome) (w' : W)
      → run_transitive_scan services inputs w ≡ some (outcome, w')
      → is_failure outcome ≡ false
      → (root : NodeId) → In root (root_nodes services inputs)
      → (n : NodeId) (depth : ℕ) → Route (walked_edges w) root n depth
      → ((prepare services inputs w).0 ≡ none)
        × ((walk : Walk services.debug
              (walked_edges w)
              run_scan
              inputs.config.max_depth
              inputs.config.on_depth_limit
              root)
            × (d : ℕ) × In (n, d, pass) walk.result.node_verdicts)
  run_transitive_scan-pass w outcome w' e clean root m n depth route =
      elim (Option-cases (prepare services inputs w).0) [
        | inr (b, breach) ↦
            absurd (ground (arith, run-breached w b breach, breached-fails b, e, clean))
        | inl within ↦
            let (t, walked, finished) = >>=-eq-some (walks w) _ (sym (run-within w within) ∙ e) in
            let worst = finish-worst (walked_edges w) t in
            let (walk, verdict) =
              walk_roots-pass services.debug (walked_edges w) run_scan inputs.config.max_depth
                inputs.config.on_depth_limit (root_nodes services inputs) (start w)
                (start_report services none) t walked
                (ground (arith, finished, worst, passed_rank outcome clean)) root m in
            let ((d, row), resolved) =
              dfs_walk-pass (walked_edges w) run_scan inputs.config.max_depth
                inputs.config.on_depth_limit root walk.before walk.result walk.walked verdict n
                depth route in
            (within, (walk, d, row))
      ]
