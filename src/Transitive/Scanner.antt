-- ===== src/Transitive/Scanner.antt =====
-- src/transitive/scanner.rs: the git arm of the node scanner: the cache decision, the fetch, the
-- policies, and the write of a pinned result. The cache table, the network, the tree's digest and
-- the JSON printer are given.
pub mod Laws
pub mod Cached
mod Examples
use dep_scan.Prelude.{
  List, [], ◌∷◌, ◌++◌, Option, none, some, if◌then◌else◌, String, string_eq, lookup, any, str_eq,
  ◌&&◌, Bool, true, false,
}
use dep_scan.Policy.{PolicyDetail, aggregate_results}
use dep_scan.Policy.Tree.{FetchedFile, Policy, run_git_tree_policies}
use dep_scan.Policy.Vcs.{classify_ref, is_pinned, RefKind, pinned, mutable}
use dep_scan.Cache.{CacheEntry, GitCacheAction, hit, fetch, decide_git_cache_action}
use dep_scan.Transitive.Types.{NodeId, node_eq, Verdict}
use dep_scan.Transitive.Rollup.{verdict_from_result_str}
use dep_scan.Transitive.Scan.{GitResolver, GitTarget}

-- The cache with the nodes that could not be fetched, each with its reason.
pub record ScannerState (Store : Type 0) : Type 0 where
  pub cache : Store
  pub unfetchable : List (NodeId × String)

pub record ScannerServices (Store Bundle : Type 0) : Type 0 where
  pub to_lowercase : String → String
  pub lookup_git : Store → String → String → Option CacheEntry
  -- a name, a ref, a result, a content hash and the printed details
  pub insert_git : String → String → String → String → Option String → Store → Store
  pub fetch_tree : String → String → Option (List FetchedFile)
  pub git_tree_content_hash : List FetchedFile → String
  pub to_json : List PolicyDetail → Option String
  pub policies : List (Policy Bundle)

abbrev same_failure : NodeId → String → NodeId × String → Bool
same_failure node reason entry = node_eq node entry.0 && str_eq reason entry.1

unfoldable pub record_unfetchable :
    {Store : Type 0} → NodeId → String → ScannerState Store → ScannerState Store
record_unfetchable node reason s =
    if any (same_failure node reason) s.unfetchable
    then s
    else record s { unfetchable = s.unfetchable ++ (node, reason) ∷ [] }

module _ {Store Bundle : Type 0} (services : ScannerServices Store Bundle) where
  -- The result of a hit; `none` on a miss, or for a ref that is not pinned.
  unfoldable pub cached_result : Store → String → String → Option String
  cached_result cache name ref = elim (classify_ref ref) [
    | mutable ↦ none
    | pinned ↦ elim (services.lookup_git cache name ref) [
      | none ↦ none
      | some entry ↦
          elim (decide_git_cache_action services.to_lowercase pinned
            (some (entry.result, entry.content_hash)) entry.content_hash) [
              | hit result ↦ some result
              | fetch ↦ none
            ]
    ]
  ]

  -- The policies over a fetched tree, and the write of the result for a pinned ref.
  unfoldable pub scan_tree :
      List FetchedFile
      → String
      → String
      → String
      → ScannerState Store
      → Verdict × ScannerState Store
  scan_tree tree url name ref s =
      let details = run_git_tree_policies tree url name ref services.policies in
      let result = (aggregate_results details).0 in
      let hash = services.git_tree_content_hash tree in
      (
        verdict_from_result_str result,
        (if is_pinned (classify_ref ref)
            then record s {
              cache = services.insert_git name ref result hash (services.to_json details) s.cache;
            }
            else s),
      )

  -- `TransitiveNodeScanner::scan_git`
  unfoldable pub scan_git :
      GitResolver → NodeId → String → ScannerState Store → Verdict × ScannerState Store
  scan_git resolver node name s = elim (lookup name resolver) [
    | none ↦ (Verdict.warn, record_unfetchable node "unknown origin" s)
    | some target ↦ elim (cached_result s.cache name target.ref) [
      | some result ↦ (verdict_from_result_str result, s)
      | none ↦ elim (services.fetch_tree target.url target.ref) [
        | none ↦ (Verdict.warn, record_unfetchable node "fetch failed" s)
        | some tree ↦ scan_tree tree target.url name target.ref s
      ]
    ]
  ]
