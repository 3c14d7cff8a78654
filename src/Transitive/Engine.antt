-- ===== src/Transitive/Engine.antt =====
-- src/transitive/engine.rs: the depth-first walk. A node is scanned on entry, its edges are
-- followed in order, and the contributions are folded once on exit. `visit` and `descend` call one
-- another in the source; here `descend` takes the deeper call as an argument, so that `visit` is a
-- recursion on fuel. `none` means that the fuel ran out.
pub mod Edges
pub mod Rule
mod Examples
pub mod Sound
pub mod Routes
pub mod Rows
pub mod Coverage
pub mod Settled
pub mod Worst
pub mod Ends
use dep_scan.Prelude.{
  ℕ, zero, suc, ◌+◌, List, [], ◌∷◌, ◌++◌, Option, none, some, ◌>>=◌, ltb, if◌then◌else◌, contains,
  set_insert, set_remove, lookup, map_insert,
}
use dep_scan.Transitive.Types.{
  NodeId, Verdict, pass, EdgeError, EdgeResult, ok, err, OnDepthLimit, floor, Diagnostic,
  depth_limit_reached, cycle_detected, unresolved_range, node_id_eq,
}
use dep_scan.Transitive.Rollup.{combine_verdicts}

pub record WalkState (W : Type 0) : Type 0 where
  pub visited : List NodeId
  pub path : List NodeId
  pub diagnostics : List Diagnostic
  pub verdicts : List (NodeId × Verdict)
  pub node_verdicts : List (NodeId × ℕ × Verdict)
  -- what the injected scanner keeps behind `&self` (its cache and its record of failures)
  pub world : W

pub record WalkResult (W : Type 0) : Type 0 where
  pub verdict : Verdict
  pub diagnostics : List Diagnostic
  pub node_verdicts : List (NodeId × ℕ × Verdict)
  pub world : W

-- The loop over the children: each contribution is pushed at the end.
unfoldable pub each {ℓ} :
    {S : Type ℓ}
    → (NodeId → S → Option (Verdict × S))
    → List NodeId
    → List Verdict
    → S
    → Option (List Verdict × S)
each f [] contributions s = some (contributions, s)
each f (child ∷ children) contributions s =
    f child s >>= λ r. each f children (contributions ++ r.0 ∷ []) r.1

module _ {W : Type 0} where
  -- `self.verdicts.get(child).copied().unwrap_or(Verdict::Pass)`
  unfoldable pub memo : WalkState W → NodeId → Verdict
  memo s child = elim (lookup child s.verdicts) [ some v ↦ v | none ↦ pass ]

  unfoldable pub push_diagnostic : Diagnostic → WalkState W → WalkState W
  push_diagnostic d s = record s { diagnostics = s.diagnostics ++ d ∷ [] }

  abbrev pub fresh_state : W → WalkState W
  fresh_state w = record {
    visited = [];
    path = [];
    diagnostics = [];
    verdicts = [];
    node_verdicts = [];
    world = w;
  }

  -- What `visit` does once the contributions are collected.
  unfoldable pub leave : NodeId → List Verdict → WalkState W → Verdict × WalkState W
  leave node contributions s =
      let verdict = combine_verdicts contributions in
      (
        verdict,
        record s { path = set_remove node s.path; verdicts = map_insert node verdict s.verdicts },
      )

module _ {W : Type 0} (scan : W → NodeId → Verdict × W) where
  -- What `visit` does before it looks at the edges.
  unfoldable pub enter : NodeId → ℕ → WalkState W → Verdict × WalkState W
  enter node depth s =
      let (own, w) = scan s.world node in
      (
        own,
        record {
          visited = set_insert node s.visited;
          path = set_insert node s.path;
          diagnostics = s.diagnostics;
          verdicts = map_insert node own s.verdicts;
          node_verdicts = s.node_verdicts ++ (node, depth, own) ∷ [];
          world = w;
        },
      )

module _ {W : Type 0} (max_depth : ℕ) (on_depth_limit : OnDepthLimit) where
  unfoldable pub descend :
      (NodeId → ℕ → WalkState W → Option (Verdict × WalkState W))
      → NodeId
      → NodeId
      → ℕ
      → WalkState W
      → Option (Verdict × WalkState W)
  unfolding memo push_diagnostic
  descend deeper parent child parent_depth s =
      let child_depth = parent_depth + 1 in
      let fresh = deeper child child_depth s in
      if ltb max_depth child_depth
      then some (floor on_depth_limit, push_diagnostic (depth_limit_reached child child_depth) s)
      else if contains s.path child
      then some (memo s child, push_diagnostic (cycle_detected parent child) s)
      else if contains s.visited child
      then some (memo s child, s)
      else fresh

  -- The `match` on the node's edges: the contributions after the node's own.
  unfoldable pub follow :
      (NodeId → ℕ → WalkState W → Option (Verdict × WalkState W))
      → NodeId
      → ℕ
      → EdgeResult
      → Verdict
      → WalkState W
      → Option (List Verdict × WalkState W)
  unfolding each descend push_diagnostic
  follow deeper node depth (ok children) own s =
      each (λ child. descend deeper node child depth) children (own ∷ []) s
  follow deeper node depth (err (EdgeError.unresolved_range name range)) own s =
      some (own ∷ Verdict.warn ∷ [], push_diagnostic (unresolved_range node name range) s)

module _ {W : Type 0} (edges_for : NodeId → EdgeResult) (scan : W → NodeId → Verdict × W)
    (max_depth : ℕ) (on_depth_limit : OnDepthLimit) where
  unfoldable pub visit : ℕ → NodeId → ℕ → WalkState W → Option (Verdict × WalkState W)
  unfolding enter follow leave
  visit zero node depth s = none
  visit (suc fuel) node depth s =
      let (own, entered) = enter scan node depth s in
      follow max_depth on_depth_limit (visit fuel) node depth (edges_for node) own entered >>= λ r.
      some (leave node r.0 r.1)

  -- `TransitiveEngine::dfs_walk`, with fuel for one more level than the deepest that is walked.
  unfoldable pub dfs_walk : NodeId → W → Option (WalkResult W)
  unfolding visit
  dfs_walk root w = visit (suc max_depth) root 0 (fresh_state w) >>= λ r. some (record {
    verdict = r.0;
    diagnostics = r.1.diagnostics;
    node_verdicts = r.1.node_verdicts;
    world = r.1.world;
  })
