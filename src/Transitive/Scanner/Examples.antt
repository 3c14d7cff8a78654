-- ===== src/Transitive/Scanner/Examples.antt =====
-- The git arm of src/transitive/scanner.rs, the cache gates of src/main.rs and the tree context of
-- src/types.rs on concrete inputs.
use dep_scan.Transitive.Rollup.{verdict_from_result_str}
use dep_scan.Prelude.{
  List, [], ◌∷◌, Option, none, some, String, string_eq, lookup, ◌≡◌, refl, ◌⊎◌, ◌↔◌, In, map, true,
  false, str_eq, if◌then◌else◌,
}
use dep_scan.Prelude.Text.{has_prefix, split_once, to_ascii_lowercase, contains_char}
use dep_scan.Policy.{PolicyResult, PolicyDetail, aggregate_results}
use dep_scan.Policy.Tree.{
  FetchedFile, Policy, run_git_tree_policies, split_files, script_of, is_install_hook_path,
  In-split_files, forward_slashes,
}
use dep_scan.Policy.Vcs.{classify_ref}
use dep_scan.Cache.{
  CacheEntry, honor_cache, verify_hash, verified_cache_hit, CacheProvenance, normalize_hash_prefix,
}
use dep_scan.Prelude.Results.{ok}
use dep_scan.Cache.Laws.{Matching, verify_hash-honor_iff, verified_cache_hit-some_iff}
use dep_scan.Transitive.Types.{NodeId, pass}
use dep_scan.Transitive.Scan.{GitResolver, GitTarget}
use dep_scan.Transitive.Scanner.{ScannerState, ScannerServices, scan_git, cached_result, scan_tree}
use dep_scan.Transitive.Scanner.Laws.{CachedPass, FetchedPass, scan_git-pass}

same_text : String → String
same_text s = s

matching : Matching same_text (some "sha256:ab") (some "sha256:ab")
unfolding same_text normalize_hash_prefix has_prefix split_once
matching = record {
  c = "sha256:ab";
  r = "sha256:ab";
  have = refl;
  published = refl;
  c_nonempty = λ e. cc;
  r_nonempty = λ e. cc;
  strong = refl;
  same = refl;
}

verify_hash-honor_iff_example :
    verify_hash same_text (some "sha256:ab") (some "sha256:ab") ≡ honor_cache
verify_hash-honor_iff_example =
    (verify_hash-honor_iff same_text (some "sha256:ab") (some "sha256:ab")).1 matching

abbrev age_detail : PolicyDetail
age_detail = record { policy_name = "age"; result = "warn"; reason = none }

-- A parser that knows one document.
parse_one : String → Option (List PolicyDetail)
parse_one json = if str_eq json "[age]" then some (age_detail ∷ []) else none

abbrev stored : CacheEntry
stored = record {
  result = "warn";
  scanned_at = "2026-01-01T00:00:00Z";
  content_hash = some "sha256:ab";
  provenance_identity = none;
  source_kind = some "git";
  subtree_digest = none;
  dep_scan_version = some "1.0.0";
  policies_json = some "[age]";
}

abbrev stored_provenance : CacheProvenance
stored_provenance = record {
  hit = true;
  scanned_at = "2026-01-01T00:00:00Z";
  dep_scan_version = "1.0.0";
}

verified_cache_hit-some_iff_example :
    verified_cache_hit same_text parse_one (ok (some stored)) (some "sha256:ab")
    ≡ some (age_detail ∷ [], stored_provenance)
unfolding parse_one aggregate_results
verified_cache_hit-some_iff_example =
    (verified_cache_hit-some_iff same_text parse_one (ok (some stored)) (some "sha256:ab")
        (age_detail ∷ []) stored_provenance).1
      (stored, refl, matching, (("[age]", refl, refl), ("1.0.0", refl, refl), refl))

abbrev lib_node : NodeId
lib_node = NodeId.git "lib" "main"

abbrev branch_target : GitTarget
branch_target = record { url = "https://example.org/lib.git"; ref = "main" }

abbrev branch_resolver : GitResolver
branch_resolver = ("lib", branch_target) ∷ []

abbrev hook_file : FetchedFile
hook_file = record { path = "scripts\\postinstall.js"; content = "run()" }

-- A policy that passes a tree without an install hook called x.
abbrev lenient : Policy String
lenient = ("lenient", λ ctx. PolicyResult.pass)

-- Services with an empty cache that counts its writes, and a host that always has the tree.
abbrev online : ScannerServices (List String) String
online = record {
  to_lowercase = same_text;
  lookup_git = λ cache name ref. none;
  insert_git = λ name ref result hash details cache. ref ∷ cache;
  fetch_tree = λ url ref. some (hook_file ∷ []);
  git_tree_content_hash = λ tree. "sha256:ab";
  to_json = λ details. none;
  policies = lenient ∷ [];
}

abbrev idle : ScannerState (List String)
idle = record { cache = []; unfetchable = [] }

scanned_branch : (scan_git online branch_resolver lib_node "lib" idle).0 ≡ pass
unfolding scan_git lookup cached_result classify_ref scan_tree verdict_from_result_str
    aggregate_results run_git_tree_policies
scanned_branch = refl

scan_git-pass_example :
    (target : GitTarget) × (lookup "lib" branch_resolver ≡ some target)
    × (CachedPass online [] "lib" target.ref ⊎ FetchedPass online target "lib")
scan_git-pass_example = scan_git-pass online branch_resolver lib_node "lib" idle scanned_branch

In-split_files_example :
    (In (script_of hook_file) (split_files (hook_file ∷ [])).0 ↔ (
      In (script_of hook_file) (map script_of (hook_file ∷ []))
      × (is_install_hook_path (script_of hook_file).name ≡ true)))
    × (In (script_of hook_file) (split_files (hook_file ∷ [])).1 ↔ (
        In (script_of hook_file) (map script_of (hook_file ∷ []))
        × (is_install_hook_path (script_of hook_file).name ≡ false)))
In-split_files_example = In-split_files (hook_file ∷ []) (script_of hook_file)

hook_found : is_install_hook_path (script_of hook_file).name ≡ true
unfolding script_of is_install_hook_path to_ascii_lowercase forward_slashes contains_char
hook_found = refl
