-- ===== src/Transitive/Engine/Examples.antt =====
-- The walk of src/transitive/engine.rs on small graphs: a diamond with a cycle, and a chain that
-- the depth limit cuts.
use dep_scan.Prelude.{
  ℕ, List, [], ◌∷◌, some, if◌then◌else◌, set_insert, set_remove, lookup, map_insert, ◌≡◌, refl,
  arith, In, inl, inr, String, max, map,
}
use dep_scan.Transitive.Types.{
  node_eq, registry, NodeId, Verdict, pass, EdgeError, EdgeResult, ok, err, OnDepthLimit,
  Diagnostic, depth_limit_reached, cycle_detected, node_id_eq, rank, worst,
}
use dep_scan.Transitive.Rollup.{combine_verdicts, rank-combine_verdicts}
use dep_scan.Transitive.Engine.Routes.{Route, here, there, row_node}
use dep_scan.Transitive.Engine.Rows.{Genuine, dfs_walk-Genuine}
use dep_scan.Transitive.Engine.Ends.{dfs_walk-returns}
use dep_scan.Transitive.Engine.Sound.{IsIncomplete, dfs_walk_complete, dfs_walk-pass}
use dep_scan.Transitive.Engine.Worst.{diagnostic_floor, own_verdict, dfs_walk-verdict}
use dep_scan.Transitive.Engine.{WalkResult, dfs_walk}

abbrev node : String → NodeId
node name = registry name "1.0" "npm"

-- root → a, b; a → b, root; b → nothing; anything else has an unresolvable edge.
diamond : NodeId → EdgeResult
diamond n =
    if node_eq n (node "root")
    then ok (node "a" ∷ node "b" ∷ [])
    else if node_eq n (node "a")
    then ok (node "b" ∷ node "root" ∷ [])
    else if node_eq n (node "b")
    then ok []
    else err (EdgeError.unresolved_range "x" "^1.0")

-- A scanner that passes everything and logs what it was asked.
log_pass : List NodeId → NodeId → Verdict × List NodeId
log_pass log n = (pass, n ∷ log)

-- A scanner that blocks `b`.
block_b : List NodeId → NodeId → Verdict × List NodeId
block_b log n = (if node_eq n (node "b") then Verdict.block else pass, n ∷ log)

abbrev clean_result : WalkResult (List NodeId)
clean_result = record {
  verdict = pass;
  diagnostics = cycle_detected (node "a") (node "root") ∷ [];
  node_verdicts = (node "root", 0, pass) ∷ (node "a", 1, pass) ∷ (node "b", 2, pass) ∷ [];
  world = node "b" ∷ node "a" ∷ node "root" ∷ [];
}

diamond_walk : dfs_walk diamond log_pass 5 OnDepthLimit.warn (node "root") [] ≡ some clean_result
unfolding dfs_walk diamond log_pass combine_verdicts set_insert set_remove map_insert lookup
diamond_walk = refl

abbrev cut_result : WalkResult (List NodeId)
cut_result = record {
  verdict = Verdict.block;
  diagnostics = depth_limit_reached (node "b") 2 ∷ depth_limit_reached (node "root") 2 ∷ [];
  node_verdicts = (node "root", 0, pass) ∷ (node "a", 1, pass) ∷ (node "b", 1, Verdict.block) ∷ [];
  world = node "b" ∷ node "a" ∷ node "root" ∷ [];
}

cut_walk : dfs_walk diamond block_b 1 OnDepthLimit.warn (node "root") [] ≡ some cut_result
unfolding dfs_walk diamond block_b combine_verdicts set_insert set_remove map_insert lookup
cut_walk = refl

dfs_walk-returns_example :
    (r : WalkResult (List NodeId)) × (dfs_walk diamond block_b 1 OnDepthLimit.warn (node "root") []
      ≡ some r)
dfs_walk-returns_example = dfs_walk-returns diamond block_b 1 OnDepthLimit.warn (node "root") []

dfs_walk-verdict_example :
    rank cut_result.verdict
    ≡ max
        (worst (map own_verdict cut_result.node_verdicts))
        (worst (map (diagnostic_floor OnDepthLimit.warn) cut_result.diagnostics))
dfs_walk-verdict_example =
    dfs_walk-verdict diamond block_b 1 OnDepthLimit.warn (node "root") [] cut_result cut_walk

dfs_walk-Genuine_example : Genuine diamond block_b 1 OnDepthLimit.warn (node "root") cut_result
dfs_walk-Genuine_example =
    dfs_walk-Genuine diamond block_b 1 OnDepthLimit.warn (node "root") [] cut_result cut_walk

Route-b : Route diamond (node "root") (node "b") 1
unfolding diamond
Route-b = there (here refl refl) (node "a" ∷ node "b" ∷ [], refl, inr (inl refl)) (omega arith)

no-IsIncomplete : (x : Diagnostic) → In x clean_result.diagnostics → ¬ IsIncomplete x
no-IsIncomplete x (inl e) incomplete = rw e at incomplete
no-IsIncomplete x (inr nothing) incomplete = nothing

dfs_walk_complete_example : In (node "b") (map row_node clean_result.node_verdicts)
dfs_walk_complete_example =
    dfs_walk_complete diamond log_pass 5 OnDepthLimit.warn (node "root") [] clean_result
      diamond_walk no-IsIncomplete (node "b") 1 Route-b

dfs_walk-pass_example :
    ((d : ℕ) × In (node "b", d, pass) clean_result.node_verdicts)
    × ((children : List NodeId) × (diamond (node "b") ≡ ok children))
dfs_walk-pass_example =
    dfs_walk-pass diamond log_pass 5 OnDepthLimit.warn (node "root") [] clean_result diamond_walk
      refl (node "b") 1 Route-b

rank-combine_verdicts_example : rank (combine_verdicts (pass ∷ Verdict.warn ∷ [])) ≡ 1
rank-combine_verdicts_example = rank-combine_verdicts (pass ∷ Verdict.warn ∷ [])
