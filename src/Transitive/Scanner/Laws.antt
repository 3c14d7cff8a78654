-- ===== src/Transitive/Scanner/Laws.antt =====
-- src/transitive/scanner.rs: what a pass of a git node rests on.
use dep_scan.Prelude.{
  List, [], ◌∷◌, none, some, String, string_eq, lookup, ◌≡◌, ◌≢◌, refl, arith, ◌⊎◌, inl, inr, All,
  Option-cases, eq_iff, Option,
}
use dep_scan.Policy.{PolicyResult, PolicyDetail, aggregate_results, from_result, first_with}
use dep_scan.Policy.Aggregate.{first_with-none, aggregate-of_block, aggregate-of_warn}
use dep_scan.Policy.Tree.{FetchedFile, Policy, run_git_tree_policies, tree_context}
use dep_scan.Policy.Vcs.{classify_ref, RefKind, pinned, mutable}
use dep_scan.Cache.{GitCacheAction, fetch, CacheEntry, decide_git_cache_action, hit}
use dep_scan.Cache.Laws.{Matching, verify_hash-honor_iff, decide_git_cache_action-hit_iff}
use dep_scan.Transitive.Types.{NodeId, pass}
use dep_scan.Transitive.Rollup.{verdict_from_result_str}
use dep_scan.Transitive.Scan.{GitResolver, GitTarget}
use dep_scan.Transitive.Scanner.{ScannerState, ScannerServices, cached_result, scan_tree, scan_git}

-- An aggregate that is a pass has found no detail that blocks or warns.
aggregate-pass :
    (ds : List PolicyDetail)
    → (aggregate_results ds).0 ≡ "pass"
    → (first_with "block" ds ≡ none) × (first_with "warn" ds ≡ none)
aggregate-pass ds h = elim (Option-cases (first_with "block" ds)) [
  | inr (d, e) ↦ absurd (ground (arith, aggregate-of_block ds d e, h, eq_iff "block" "pass"))
  | inl unblocked ↦ elim (Option-cases (first_with "warn" ds)) [
    | inr (d, e) ↦
        absurd (ground (arith, aggregate-of_warn ds d unblocked e, h, eq_iff "warn" "pass"))
    | inl unwarned ↦ (unblocked, unwarned)
  ]
]

verdict_from_result_str-pass : (s : String) → verdict_from_result_str s ≡ pass → s ≡ "pass"
unfolding verdict_from_result_str
verdict_from_result_str-pass s h = ground (arith, eq_iff s "pass")

from_result-pass :
    (name : String) (r : PolicyResult)
    → (from_result name r).result ≢ "block"
    → (from_result name r).result ≢ "warn"
    → r ≡ PolicyResult.pass
unfolding from_result
from_result-pass name PolicyResult.pass b w = refl
from_result-pass name (PolicyResult.warn m) b w = absurd (w refl)
from_result-pass name (PolicyResult.block m) b w = absurd (b refl)

-- Every policy passes the tree.
abbrev pub AllPass :
    {Bundle : Type 0} → List FetchedFile → String → String → String → List (Policy Bundle) → Type 0
AllPass {Bundle} files url name ref policies =
    All (λ (p : Policy Bundle). p.1 (tree_context files url name ref) ≡ PolicyResult.pass) policies

module _ {Bundle : Type 0} (files : List FetchedFile) (url name ref : String) where
  policies-AllPass :
      (policies : List (Policy Bundle))
      → All
          (λ (d : PolicyDetail). d.result ≢ "block")
          (run_git_tree_policies files url name ref policies)
      → All
          (λ (d : PolicyDetail). d.result ≢ "warn")
          (run_git_tree_policies files url name ref policies)
      → AllPass files url name ref policies
  unfolding run_git_tree_policies
  policies-AllPass [] b w = tt
  policies-AllPass (p ∷ ps) (b, bs) (w, ws) =
      (from_result-pass p.0 (p.1 (tree_context files url name ref)) b w, policies-AllPass ps bs ws)

  tree-AllPass :
      (policies : List (Policy Bundle))
      → (aggregate_results (run_git_tree_policies files url name ref policies)).0 ≡ "pass"
      → AllPass files url name ref policies
  tree-AllPass policies h =
      let ds = run_git_tree_policies files url name ref policies in
      let (unblocked, unwarned) = aggregate-pass ds h in
      policies-AllPass policies ((first_with-none "block" ds).0 unblocked)
        ((first_with-none "warn" ds).0 unwarned)

module _ {Store Bundle : Type 0} (services : ScannerServices Store Bundle) where
  -- A stored pass for the pinned ref, with a content hash that is neither empty nor SHA-1.
  pub record CachedPass (cache : Store) (name ref : String) : Type 0 where
    pub kind : classify_ref ref ≡ pinned
    pub entry : CacheEntry
    pub found : services.lookup_git cache name ref ≡ some entry
    pub passed : entry.result ≡ "pass"
    pub hashed : Matching services.to_lowercase entry.content_hash entry.content_hash

  -- A fetched tree that every policy passes.
  pub record FetchedPass (target : GitTarget) (name : String) : Type 0 where
    pub tree : List FetchedFile
    pub fetched : services.fetch_tree target.url target.ref ≡ some tree
    pub passed : AllPass tree target.url name target.ref services.policies

  kind-cases : (kind : RefKind) → (kind ≡ pinned) ⊎ (kind ≡ mutable)
  kind-cases pinned = inl refl
  kind-cases mutable = inr refl

  action-cases : (a : GitCacheAction) → ((r : String) × (a ≡ hit r)) ⊎ (a ≡ fetch)
  action-cases (hit r) = inl (r, refl)
  action-cases fetch = inr refl

  cached-CachedPass :
      (cache : Store) (name ref : String)
      → cached_result services cache name ref ≡ some "pass"
      → CachedPass cache name ref
  unfolding cached_result
  cached-CachedPass cache name ref h = elim (kind-cases (classify_ref ref)) [
    | inr moving ↦ absurd (ground arith)
    | inl kind ↦ elim (Option-cases (services.lookup_git cache name ref)) [
      | inl missing ↦ absurd (ground arith)
      | inr (entry, found) ↦
          let stored : Option (String × Option String) = some (entry.result, entry.content_hash) in
          elim (action-cases
            (decide_git_cache_action services.to_lowercase pinned stored entry.content_hash)) [
              | inr missed ↦ absurd (ground arith)
              | inl (r, served) ↦
                  let (k, (c, e, honoured)) =
                    (decide_git_cache_action-hit_iff services.to_lowercase pinned stored
                        entry.content_hash r).0
                      served in
                  record {
                    kind = kind;
                    entry = entry;
                    found = found;
                    passed = ground arith;
                    hashed =
                        (verify_hash-honor_iff services.to_lowercase entry.content_hash
                            entry.content_hash).0
                          (ground arith);
                  }
            ]
    ]
  ]

  -- A git node passes only if its origin is known, and either the cache has a pass for its pinned ref
  -- with a usable hash, or its tree was fetched and every policy passes it: what could not be
  -- fetched never passes.
  pub scan_git-pass :
      (resolver : GitResolver) (node : NodeId) (name : String) (s : ScannerState Store)
      → (scan_git services resolver node name s).0 ≡ pass
      → (target : GitTarget) × (lookup name resolver ≡ some target)
        × (CachedPass s.cache name target.ref ⊎ FetchedPass target name)
  unfolding scan_git scan_tree
  scan_git-pass resolver node name s h = elim (Option-cases (lookup name resolver)) [
    | inl unknown ↦ absurd (ground arith)
    | inr (target, known) ↦ elim (Option-cases (cached_result services s.cache name target.ref)) [
      | inr (result, served) ↦
          let passed : result ≡ "pass" = verdict_from_result_str-pass result (ground arith) in
          (target, known, inl (cached-CachedPass s.cache name target.ref (ground arith)))
      | inl missed ↦ elim (Option-cases (services.fetch_tree target.url target.ref)) [
        | inl unfetched ↦ absurd (ground arith)
        | inr (tree, fetched) ↦ (
          target,
          known,
          inr (record {
            tree = tree;
            fetched = fetched;
            passed =
                tree-AllPass tree target.url name target.ref services.policies
                  (verdict_from_result_str-pass _ (ground arith));
          }),
        )
      ]
    ]
  ]
