-- ===== src/Cache.antt =====
-- src/cache.rs (the row type and the subtree gate) and src/main.rs (the gates of a cache hit): when
-- a stored verdict may be served. Unicode lower-casing and the JSON parser are parameters.
pub mod Laws
pub mod Table
use dep_scan.Prelude.{
  List, [], ◌∷◌, Option, none, some, if◌then◌else◌, String, Bool, true, false, ◌||◌, str_eq, not,
}
use dep_scan.Prelude.Text.{◌+++◌, is_empty_text, has_prefix, split_once}
use dep_scan.Prelude.Results.{Result, ok, err}
use dep_scan.Policy.{PolicyDetail, aggregate_results}
use dep_scan.Policy.Vcs.{RefKind, pinned, mutable}

pub record CacheEntry : Type 0 where
  pub result : String
  pub scanned_at : String
  pub content_hash : Option String
  pub provenance_identity : Option String
  pub source_kind : Option String
  pub subtree_digest : Option String
  pub dep_scan_version : Option String
  pub policies_json : Option String

unfoldable pub subtree_digest_valid : Option String → Option String → Bool
subtree_digest_valid none recomputed = true
subtree_digest_valid (some s) none = false
subtree_digest_valid (some s) (some r) = str_eq r s

pub data HashVerifyDecision : Type 0 where
  honor_cache reverify : HashVerifyDecision

pub data GitCacheAction : Type 0 where
  hit : String → GitCacheAction
  fetch : GitCacheAction

abbrev is_some_empty : Option String → Bool
is_some_empty o = elim o [ none ↦ false | some s ↦ is_empty_text s ]

module _ (to_lowercase : String → String) where
  unfoldable pub normalize_hash_prefix : String → String
  normalize_hash_prefix hash = elim (split_once b':' hash) [
    | some parts ↦ to_lowercase parts.0 +++ ":" +++ parts.1
    | none ↦ hash
  ]

  -- The final `match`.
  abbrev same_hash : Option String → Option String → HashVerifyDecision
  same_hash (some c) (some r) =
      if str_eq (normalize_hash_prefix c) (normalize_hash_prefix r) then honor_cache else reverify
  same_hash (some c) none = reverify
  same_hash none registry = reverify

  abbrev is_sha1 : Option String → Bool
  is_sha1 o = elim o [ none ↦ false | some c ↦ has_prefix "sha1:" (normalize_hash_prefix c) ]

  unfoldable pub verify_hash : Option String → Option String → HashVerifyDecision
  unfolding normalize_hash_prefix
  verify_hash cached registry =
      if is_some_empty cached || is_some_empty registry
      then reverify
      else if is_sha1 cached
      then reverify
      else same_hash cached registry

  unfoldable pub decide_git_cache_action :
      RefKind → Option (String × Option String) → Option String → GitCacheAction
  unfolding verify_hash
  decide_git_cache_action mutable lookup expected = fetch
  decide_git_cache_action pinned none expected = fetch
  decide_git_cache_action pinned (some (result, cached)) expected =
      elim (verify_hash cached expected) [ honor_cache ↦ hit result | reverify ↦ fetch ]

-- A lookup that fails counts as one that finds nothing.
abbrev pub found_row : Result (Option CacheEntry) String → Option CacheEntry
found_row (ok row) = row
found_row (err e) = none

pub record CacheProvenance : Type 0 where
  pub hit : Bool
  pub scanned_at : String
  pub dep_scan_version : String

unfoldable pub attributed_cache_hit :
    (String → Option (List PolicyDetail))
    → CacheEntry
    → Option (List PolicyDetail × CacheProvenance)
unfolding aggregate_results
attributed_cache_hit from_str entry = elim entry.dep_scan_version [
  | none ↦ none
  | some version ↦ elim entry.policies_json [
    | none ↦ none
    | some json ↦ elim (from_str json) [
      | none ↦ none
      | some parsed ↦
          let provenance : CacheProvenance = record {
            hit = true;
            scanned_at = entry.scanned_at;
            dep_scan_version = version;
          } in
          if not (str_eq (aggregate_results parsed).0 entry.result)
          then none
          else some (parsed, provenance)
    ]
  ]
]

-- A package of the flat scan: the row that a lookup gives, served if both gates pass, its content
-- hash against the one that the registry publishes now, and its attribution. `none` is a full scan.
unfoldable pub verified_cache_hit :
    (String → String)
    → (String → Option (List PolicyDetail))
    → Result (Option CacheEntry) String
    → Option String
    → Option (List PolicyDetail × CacheProvenance)
verified_cache_hit to_lowercase from_str lookup_result fresh_hash = elim lookup_result [
  | err e ↦ none
  | ok none ↦ none
  | ok (some entry) ↦ elim (verify_hash to_lowercase entry.content_hash fresh_hash) [
    | reverify ↦ none
    | honor_cache ↦ attributed_cache_hit from_str entry
  ]
]
