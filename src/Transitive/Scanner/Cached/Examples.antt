-- ===== src/Transitive/Scanner/Cached/Examples.antt =====
-- src/cache.rs and the git arm of src/transitive/scanner.rs on concrete inputs, over tables that are
-- functions of their key.
use dep_scan.Prelude.Text.{has_prefix, split_once, to_ascii_lowercase}
use dep_scan.Prelude.{
  List, [], ◌∷◌, Option, none, some, if◌then◌else◌, String, Bool, true, lookup, string_eq, str_eq,
  ◌≡◌, refl, sym, ap, arith, eq_iff, ◌∙◌, false,
}
use dep_scan.Policy.{PolicyDetail, PolicyResult, aggregate_results}
use dep_scan.Policy.Tree.{FetchedFile, Policy}
use dep_scan.Policy.Vcs.{classify_ref}
use dep_scan.Prelude.Results.{Result, ok}
use dep_scan.Cache.{CacheEntry, verified_cache_hit, normalize_hash_prefix}
use dep_scan.Cache.Laws.{Matching}
use dep_scan.Cache.Table
use dep_scan.Cache.Table.{
  SqlTable, SqlLaws, PackageKey, same_package, MaintainerKey, same_maintained, MaintainerRow, Cache,
  Insertion, inserted_row, package_key, git_key, CacheCall, insert_call, insert_git_call,
  invalidate_call, clear_call, perform_all,
}
use dep_scan.Cache.Table.Laws.{decides, newest, or_else, lookup-perform_all}
use dep_scan.Cache.Table.RoundTrip.{
  get_previous_maintainers-record_maintainers, verified_cache_hit-insert,
}
use dep_scan.Transitive.Types.{NodeId}
use dep_scan.Transitive.Scan.{GitResolver, GitTarget}
use dep_scan.Transitive.Scanner.{ScannerState, scan_git, cached_result}
use dep_scan.Transitive.Scanner.Cached.{
  Surroundings, scanner_services, git_insertion, written_row, scan_git-scan_git,
}

module _ {Key Row : Type 0} (same : Key → Key → Bool) where
  abbrev function_table : SqlTable Key Row (Key → Option Row)
  function_table = record {
    select = λ k t. ok (t k);
    insert_or_replace = λ l r t. some (λ k. if same k l then some r else t k);
    delete = λ l t. some (λ k. if same k l then none else t k);
    delete_all = λ t. some (λ k. none);
  }

  abbrev held : Key → Option (Key → Option Row) → Result (Option Row) String
  held k none = ok none
  held k (some t) = ok (t k)

  written_or_kept :
      (b : Bool) (new old : Option Row)
      → ◌≡◌ {A = Result (Option Row) String}
          (ok (if b then new else old))
          (if b then ok new else ok old)
  written_or_kept true new old = refl
  written_or_kept false new old = refl

  function_table_laws : SqlLaws same function_table
  function_table_laws = record {
    select-insert =
        λ k l r t u done. sym (ap (held k) done) ∙ written_or_kept (same k l) (some r) (t k);
    select-delete = λ k l t u done. sym (ap (held k) done) ∙ written_or_kept (same k l) none (t k);
    select-delete_all = λ k t u done. sym (ap (held k) done);
  }

abbrev packages : SqlTable PackageKey CacheEntry (PackageKey → Option CacheEntry)
packages = function_table same_package

abbrev history : SqlTable MaintainerKey MaintainerRow (MaintainerKey → Option MaintainerRow)
history = function_table same_maintained

abbrev FunctionCache : Type 0
FunctionCache = Cache (PackageKey → Option CacheEntry) (MaintainerKey → Option MaintainerRow)

abbrev empty_cache : FunctionCache
empty_cache = record { scanned_packages = λ k. none; maintainer_history = λ k. none }

abbrev warn_detail : PolicyDetail
warn_detail = record { policy_name = "age"; result = "warn"; reason = none }

abbrev insertion : Insertion
insertion = record {
  now = "2026-01-01T00:00:00Z";
  name = "lodash";
  version = "4.17.21";
  registry = "npm";
  result = "warn";
  content_hash = some "SHA256:ab";
  provenance_identity = none;
  subtree_digest = none;
  policies_json = some "[age]";
}

abbrev lodash : PackageKey
lodash = package_key "lodash" "4.17.21" "npm"

abbrev calls : List CacheCall
calls =
    insert_call insertion
    ∷ invalidate_call (package_key "left-pad" "1.0.0" "npm")
    ∷ insert_git_call
        (git_insertion "2026-01-02T00:00:00Z" "lodash" "4.17.21" "pass" "sha256:ab" none)
    ∷ []

-- The git row under the same name and version does not displace the registry's row.
lookup-perform_all_example :
    Table.lookup packages history "1.0.0"
      (perform_all packages history "1.0.0" calls empty_cache).1
      lodash
    ≡ or_else
        (newest "1.0.0" lodash (perform_all packages history "1.0.0" calls empty_cache).0)
        (Table.lookup packages history "1.0.0" empty_cache lodash)
lookup-perform_all_example =
    lookup-perform_all packages history "1.0.0" (function_table_laws same_package) calls empty_cache
      lodash

lodash_stays :
    newest "1.0.0" lodash (perform_all packages history "1.0.0" calls empty_cache).0
    ≡ some (some (inserted_row "1.0.0" insertion))
unfolding perform_all newest same_package decides
lodash_stays = refl

-- A printer and a parser of lists with at most one name, which is not empty.
abbrev print_names : List String → Option String
print_names [] = some ""
print_names (name ∷ []) = if str_eq name "" then none else some name
print_names (name ∷ other ∷ more) = none

abbrev parse_names : String → Option (List String)
parse_names json = if str_eq json "" then some [] else some (json ∷ [])

names_read_back :
    (xs : List String) (json : String) → print_names xs ≡ some json → parse_names json ≡ some xs
names_read_back [] json h = cc
names_read_back (name ∷ []) json h = ground (arith, eq_iff name "", eq_iff json "")
names_read_back (name ∷ other ∷ more) json h = absurd (ground arith)

abbrev lodash_npm : MaintainerKey
lodash_npm = record { name = "lodash"; registry = "npm" }

abbrev recorded : FunctionCache
recorded = record empty_cache {
  maintainer_history = λ k.
      if same_maintained k lodash_npm
      then some (record { maintainers = "alice"; recorded_at = "2026-01-01T00:00:00Z" })
      else none;
}

get_previous_maintainers-record_maintainers_example :
    Table.get_previous_maintainers packages history "1.0.0" parse_names recorded lodash_npm ≡ (
      if same_maintained lodash_npm lodash_npm
      then some (some ("alice" ∷ []))
      else Table.get_previous_maintainers packages history "1.0.0" parse_names empty_cache
          lodash_npm)
unfolding Table.record_maintainers
get_previous_maintainers-record_maintainers_example =
    get_previous_maintainers-record_maintainers packages history "1.0.0"
      (function_table_laws same_maintained) print_names parse_names names_read_back
      "2026-01-01T00:00:00Z" lodash_npm ("alice" ∷ []) empty_cache recorded refl lodash_npm

abbrev parse_details : String → Option (List PolicyDetail)
parse_details json = if str_eq json "[age]" then some (warn_detail ∷ []) else none

abbrev stored : FunctionCache
stored = record empty_cache {
  scanned_packages =
      λ k. if same_package k lodash then some (inserted_row "1.0.0" insertion) else none;
}

-- The registry now spells the algorithm in lower case.
vouches : Matching to_ascii_lowercase (some "SHA256:ab") (some "sha256:ab")
unfolding normalize_hash_prefix split_once to_ascii_lowercase has_prefix
vouches = record {
  c = "SHA256:ab";
  r = "sha256:ab";
  have = refl;
  published = refl;
  c_nonempty = λ e. cc;
  r_nonempty = λ e. cc;
  strong = refl;
  same = refl;
}

verified_cache_hit-insert_example :
    verified_cache_hit to_ascii_lowercase parse_details
      (Table.lookup packages history "1.0.0" stored lodash)
      (some "sha256:ab")
    ≡ some (
      warn_detail ∷ [],
      record { hit = true; scanned_at = "2026-01-01T00:00:00Z"; dep_scan_version = "1.0.0" },
    )
unfolding Table.insert aggregate_results
verified_cache_hit-insert_example =
    verified_cache_hit-insert packages history "1.0.0" (function_table_laws same_package)
      to_ascii_lowercase parse_details insertion (warn_detail ∷ []) "[age]" (some "sha256:ab") refl
      refl refl vouches empty_cache stored refl

abbrev lib_node : NodeId
lib_node = NodeId.git "lib" "0123456789012345678901234567890123456789"

abbrev lib_target : GitTarget
lib_target = record {
  url = "https://example.org/lib.git";
  ref = "0123456789012345678901234567890123456789";
}

abbrev resolver : GitResolver
resolver = ("lib", lib_target) ∷ []

abbrev hook : FetchedFile
hook = record { path = "setup.py"; content = "run()" }

abbrev suspicious : Policy String
suspicious = ("suspicious", λ ctx. PolicyResult.warn "runs")

abbrev around : Surroundings String
around = record {
  crate_version = "1.0.0";
  now = "2026-01-01T00:00:00Z";
  to_lowercase = λ s. s;
  git_tree_content_hash = λ tree. "sha256:ab";
  to_json = λ details. none;
  policies = suspicious ∷ [];
}

abbrev online : String → String → Option (List FetchedFile)
online url ref = some (hook ∷ [])

abbrev offline : String → String → Option (List FetchedFile)
offline url ref = none

abbrev idle : ScannerState FunctionCache
idle = record { cache = empty_cache; unfetchable = [] }

scan_git-scan_git_example :
    scan_git
      (scanner_services packages history around offline)
      resolver
      lib_node
      "lib"
      (scan_git (scanner_services packages history around online) resolver lib_node "lib" idle).1
    ≡ scan_git (scanner_services packages history around online) resolver lib_node "lib" idle
unfolding cached_result classify_ref normalize_hash_prefix scanner_services lookup Table.lookup
    has_prefix split_once
scan_git-scan_git_example =
    scan_git-scan_git packages history around (function_table_laws same_package) online offline
      resolver lib_node "lib" idle lib_target (hook ∷ []) refl refl refl refl (λ e. cc) refl
      (λ k.
        if same_package k (git_key "lib" lib_target.ref)
        then some (written_row packages history around (hook ∷ []) lib_target "lib")
        else none)
      refl
