-- ===== src/Transitive/Scanner/Cached.antt =====
-- src/transitive/scanner.rs over src/cache.rs: the git arm with the cache's own operations as its
-- table, and a second scan of the same node.
mod Examples
use dep_scan.Prelude.{
  List, Option, none, some, String, false, lookup, ◌≡◌, ◌≢◌, refl, arith, string_eq, ◌∙◌,
}
use dep_scan.Prelude.Text.{has_prefix}
use dep_scan.Policy.{PolicyDetail, aggregate_results}
use dep_scan.Policy.Tree.{FetchedFile, Policy, run_git_tree_policies}
use dep_scan.Policy.Vcs.{classify_ref, pinned}
use dep_scan.Prelude.Results.{ok}
use dep_scan.Cache.{CacheEntry, found_row, normalize_hash_prefix, hit, decide_git_cache_action}
use dep_scan.Cache.Laws.{Matching, verify_hash-honor_iff, decide_git_cache_action-hit_iff}
use dep_scan.Cache.Table
use dep_scan.Cache.Table.{
  SqlTable, SqlLaws, PackageKey, same_package, MaintainerKey, MaintainerRow, Cache, GitInsertion,
  git_key, inserted_git_row,
}
use dep_scan.Cache.Table.RoundTrip.{same_package_refl}
use dep_scan.Transitive.Types.{NodeId}
use dep_scan.Transitive.Rollup.{verdict_from_result_str}
use dep_scan.Transitive.Scan.{GitResolver, GitTarget}
use dep_scan.Transitive.Scanner.{ScannerState, ScannerServices, cached_result, scan_tree, scan_git}

-- What the scanner calls besides the cache.
pub record Surroundings (Bundle : Type 0) : Type 0 where
  pub crate_version : String
  pub now : String
  pub to_lowercase : String → String
  pub git_tree_content_hash : List FetchedFile → String
  pub to_json : List PolicyDetail → Option String
  pub policies : List (Policy Bundle)

-- The arguments of the call of `insert_git` in `scan_git`.
abbrev pub git_insertion : String → String → String → String → String → Option String → GitInsertion
git_insertion now name ref result hash details = record {
  now = now;
  name = name;
  commit_sha = ref;
  result = result;
  content_hash = some hash;
  subtree_digest = none;
  policies_json = details;
}

module _ {Packages History Bundle : Type 0} (packages : SqlTable PackageKey CacheEntry Packages)
    (history : SqlTable MaintainerKey MaintainerRow History) (around : Surroundings Bundle) where
  -- `let _ = self.cache.insert_git(...)`: a write that fails is passed over.
  unfoldable pub write_result :
      String
      → String
      → String
      → String
      → Option String
      → Cache Packages History
      → Cache Packages History
  write_result name ref result hash details cache =
      elim (Table.insert_git packages history around.crate_version
        (git_insertion around.now name ref result hash details) cache) [
          | none ↦ cache
          | some next ↦ next
        ]

  -- The scanner's services, with a way to fetch.
  unfoldable pub scanner_services :
      (String → String → Option (List FetchedFile))
      → ScannerServices (Cache Packages History) Bundle
  unfolding write_result
  scanner_services fetch_tree = record {
    to_lowercase = around.to_lowercase;
    lookup_git = λ cache name ref.
        found_row (Table.lookup packages history around.crate_version cache (git_key name ref));
    insert_git = write_result;
    fetch_tree = fetch_tree;
    git_tree_content_hash = around.git_tree_content_hash;
    to_json = around.to_json;
    policies = around.policies;
  }

  -- A row just written, with a usable hash, is what the next decision serves.
  cached_result-write_result :
      (sql : SqlLaws same_package packages)
      (fetch_tree : String → String → Option (List FetchedFile)) (name ref result hash : String)
      (details : Option String) (cache : Cache Packages History)
      → classify_ref ref ≡ pinned
      → hash ≢ ""
      → has_prefix "sha1:" (normalize_hash_prefix around.to_lowercase hash) ≡ false
      → (t : Packages)
      → packages.insert_or_replace
          (git_key name ref)
          (inserted_git_row around.crate_version
            (git_insertion around.now name ref result hash details))
          cache.scanned_packages
        ≡ some t
      → cached_result
          (scanner_services fetch_tree)
          (write_result name ref result hash details cache)
          name
          ref
        ≡ some result
  unfolding cached_result scanner_services write_result Table.lookup Table.insert_git
      inserted_git_row
  cached_result-write_result sql fetch_tree name ref result hash details cache kind written strong t
        done =
      let key = git_key name ref in
      let row =
        inserted_git_row around.crate_version
          (git_insertion around.now name ref result hash details) in
      let found : packages.select key t ≡ ok (some row) = ground (
        arith,
        sql.select-insert key key row cache.scanned_packages t done,
        same_package_refl key,
      ) in
      let matching : Matching around.to_lowercase (some hash) (some hash) = record {
        c = hash;
        r = hash;
        have = refl;
        published = refl;
        c_nonempty = written;
        r_nonempty = written;
        strong = strong;
        same = refl;
      } in
      let served : decide_git_cache_action around.to_lowercase pinned (some (result, some hash))
            (some hash)
          ≡ hit result =
        (decide_git_cache_action-hit_iff around.to_lowercase pinned (some (result, some hash))
            (some hash) result).1
          (
            refl,
            (
              some hash,
              refl,
              (verify_hash-honor_iff around.to_lowercase (some hash) (some hash)).1 matching,
            ),
          ) in
      ground arith

  -- The write that follows the policies over a tree.
  abbrev pub written_row : List FetchedFile → GitTarget → String → CacheEntry
  written_row tree target name =
      let details = run_git_tree_policies tree target.url name target.ref around.policies in
      inserted_git_row around.crate_version (
        git_insertion around.now name target.ref (aggregate_results details).0
          (around.git_tree_content_hash tree) (around.to_json details))

  scanned_tree :
      (fetch_tree : String → String → Option (List FetchedFile)) (resolver : GitResolver)
      (node : NodeId) (name : String) (s : ScannerState (Cache Packages History))
      (target : GitTarget) (tree : List FetchedFile)
      → lookup name resolver ≡ some target
      → cached_result (scanner_services fetch_tree) s.cache name target.ref ≡ none
      → fetch_tree target.url target.ref ≡ some tree
      → scan_git (scanner_services fetch_tree) resolver node name s
        ≡ scan_tree (scanner_services fetch_tree) tree target.url name target.ref s
  unfolding scan_git scanner_services
  scanned_tree fetch_tree resolver node name s target tree known missed fetched = ground arith

  served_result :
      (fetch_tree : String → String → Option (List FetchedFile)) (resolver : GitResolver)
      (node : NodeId) (name : String) (s : ScannerState (Cache Packages History))
      (target : GitTarget) (result : String)
      → lookup name resolver ≡ some target
      → cached_result (scanner_services fetch_tree) s.cache name target.ref ≡ some result
      → scan_git (scanner_services fetch_tree) resolver node name s
        ≡ (verdict_from_result_str result, s)
  unfolding scan_git
  served_result fetch_tree resolver node name s target result known served = ground arith

  -- Once a pinned node was fetched and scanned and its result written to a table that keeps what SQL
  -- says, with a content hash that is neither empty nor SHA-1, a second scan gives the same verdict
  -- and changes nothing, whatever a fetch would now bring.
  pub scan_git-scan_git :
      (sql : SqlLaws same_package packages)
      (fetch_tree later : String → String → Option (List FetchedFile)) (resolver : GitResolver)
      (node : NodeId) (name : String) (s : ScannerState (Cache Packages History))
      (target : GitTarget) (tree : List FetchedFile)
      → lookup name resolver ≡ some target
      → classify_ref target.ref ≡ pinned
      → cached_result (scanner_services fetch_tree) s.cache name target.ref ≡ none
      → fetch_tree target.url target.ref ≡ some tree
      → around.git_tree_content_hash tree ≢ ""
      → has_prefix "sha1:"
          (normalize_hash_prefix around.to_lowercase (around.git_tree_content_hash tree))
        ≡ false
      → (t : Packages)
      → packages.insert_or_replace
          (git_key name target.ref)
          (written_row tree target name)
          s.cache.scanned_packages
        ≡ some t
      → scan_git
          (scanner_services later)
          resolver
          node
          name
          (scan_git (scanner_services fetch_tree) resolver node name s).1
        ≡ scan_git (scanner_services fetch_tree) resolver node name s
  unfolding scan_tree scanner_services
  scan_git-scan_git sql fetch_tree later resolver node name s target tree known kind missed fetched
        hashed strong t done =
      let details = run_git_tree_policies tree target.url name target.ref around.policies in
      let result = (aggregate_results details).0 in
      let hash = around.git_tree_content_hash tree in
      let next = write_result name target.ref result hash (around.to_json details) s.cache in
      let s' : ScannerState (Cache Packages History) = record s { cache = next } in
      let first : scan_git (scanner_services fetch_tree) resolver node name s
          ≡ (verdict_from_result_str result, s') =
        scanned_tree fetch_tree resolver node name s target tree known missed fetched
        ∙ (rw kind refl) in
      let again : scan_git (scanner_services later) resolver node name s'
          ≡ (verdict_from_result_str result, s') =
        served_result later resolver node name s' target result known (
          cached_result-write_result sql later name target.ref result hash (around.to_json details)
            s.cache kind hashed strong t done) in
      rw (first) again
