-- ===== src/Cache/Table.antt =====
-- src/cache.rs: the `Cache` and its operations, over the two SQL tables. SQLite is a record of the
-- statements that the code runs, with what SQL says of each; a statement may fail, and one that
-- writes has then changed nothing. The clock's reading and the JSON printer and parser are arguments.
pub mod Laws
pub mod RoundTrip
use dep_scan.Prelude.{
  List, [], ◌∷◌, Option, none, some, if◌then◌else◌, String, Bool, true, false, ◌&&◌, str_eq, ◌≡◌,
  ◌>>=◌,
}
use dep_scan.Prelude.Results.{Result, ok, err}
use dep_scan.Cache.{CacheEntry}

-- A table with a primary key, and the statements on it.
pub record SqlTable (Key Row Table : Type 0) : Type 0 where
  pub select : Key → Table → Result (Option Row) String
  pub insert_or_replace : Key → Row → Table → Option Table
  pub delete : Key → Table → Option Table
  pub delete_all : Table → Option Table

-- What SQL says of the rows that a statement leaves; whether a row can be read is as before unless
-- the statement has written it.
pub record SqlLaws {Key Row Table : Type 0} (same : Key → Key → Bool) (sql : SqlTable Key Row Table)
    : Type 0 where
  pub select-insert :
      (k l : Key) (r : Row) (t u : Table)
      → sql.insert_or_replace l r t ≡ some u
      → sql.select k u ≡ (if same k l then ok (some r) else sql.select k t)
  pub select-delete :
      (k l : Key) (t u : Table)
      → sql.delete l t ≡ some u
      → sql.select k u ≡ (if same k l then ok none else sql.select k t)
  pub select-delete_all :
      (k : Key) (t u : Table) → sql.delete_all t ≡ some u → sql.select k u ≡ ok none

-- PRIMARY KEY (name, version, registry)
pub record PackageKey : Type 0 where
  pub name : String
  pub version : String
  pub registry : String

unfoldable pub same_package : PackageKey → PackageKey → Bool
same_package k l =
    str_eq k.name l.name && (str_eq k.version l.version && str_eq k.registry l.registry)

-- PRIMARY KEY (name, registry)
pub record MaintainerKey : Type 0 where
  pub name : String
  pub registry : String

unfoldable pub same_maintained : MaintainerKey → MaintainerKey → Bool
same_maintained k l = str_eq k.name l.name && str_eq k.registry l.registry

pub record MaintainerRow : Type 0 where
  pub maintainers : String
  pub recorded_at : String

pub record Cache (Packages History : Type 0) : Type 0 where
  pub scanned_packages : Packages
  pub maintainer_history : History

-- The arguments of `insert`, with the clock's reading.
pub record Insertion : Type 0 where
  pub now : String
  pub name : String
  pub version : String
  pub registry : String
  pub result : String
  pub content_hash : Option String
  pub provenance_identity : Option String
  pub subtree_digest : Option String
  pub policies_json : Option String

-- The arguments of `insert_git`, with the clock's reading.
pub record GitInsertion : Type 0 where
  pub now : String
  pub name : String
  pub commit_sha : String
  pub result : String
  pub content_hash : Option String
  pub subtree_digest : Option String
  pub policies_json : Option String

-- The row that `insert` writes; `version` is the crate's own, fixed when it is built.
unfoldable pub inserted_row : String → Insertion → CacheEntry
inserted_row version a = record {
  result = a.result;
  scanned_at = a.now;
  content_hash = a.content_hash;
  provenance_identity = a.provenance_identity;
  source_kind = none;
  subtree_digest = a.subtree_digest;
  dep_scan_version = some version;
  policies_json = a.policies_json;
}

unfoldable pub inserted_git_row : String → GitInsertion → CacheEntry
inserted_git_row version a = record {
  result = a.result;
  scanned_at = a.now;
  content_hash = a.content_hash;
  provenance_identity = none;
  source_kind = some "git";
  subtree_digest = a.subtree_digest;
  dep_scan_version = some version;
  policies_json = a.policies_json;
}

abbrev pub package_key : String → String → String → PackageKey
package_key name version registry = record { name = name; version = version; registry = registry }

abbrev pub git_key : String → String → PackageKey
git_key name commit_sha = package_key name commit_sha "git"

-- One call on the cache.
pub data CacheCall : Type 0 where
  insert_call : Insertion → CacheCall
  insert_git_call : GitInsertion → CacheCall
  invalidate_call : PackageKey → CacheCall
  clear_call : CacheCall
  record_maintainers_call :
      (List String → Option String) → String → MaintainerKey → List String → CacheCall

module _ {Packages History : Type 0} (packages : SqlTable PackageKey CacheEntry Packages)
    (history : SqlTable MaintainerKey MaintainerRow History) (crate_version : String) where
  abbrev set_packages : Cache Packages History → Packages → Cache Packages History
  set_packages cache t = record cache { scanned_packages = t }

  unfoldable pub lookup : Cache Packages History → PackageKey → Result (Option CacheEntry) String
  lookup cache key = packages.select key cache.scanned_packages

  unfoldable pub insert : Insertion → Cache Packages History → Option (Cache Packages History)
  unfolding inserted_row
  insert a cache =
      packages.insert_or_replace (package_key a.name a.version a.registry)
        (inserted_row crate_version a) cache.scanned_packages
      >>= λ t. some (set_packages cache t)

  unfoldable pub insert_git :
      GitInsertion → Cache Packages History → Option (Cache Packages History)
  unfolding inserted_git_row
  insert_git a cache =
      packages.insert_or_replace (git_key a.name a.commit_sha) (inserted_git_row crate_version a)
        cache.scanned_packages
      >>= λ t. some (set_packages cache t)

  unfoldable pub invalidate : PackageKey → Cache Packages History → Option (Cache Packages History)
  invalidate key cache =
      packages.delete key cache.scanned_packages >>= λ t. some (set_packages cache t)

  unfoldable pub clear : Cache Packages History → Option (Cache Packages History)
  clear cache = packages.delete_all cache.scanned_packages >>= λ t. some (set_packages cache t)

  unfoldable pub record_maintainers :
      (List String → Option String)
      → String
      → MaintainerKey
      → List String
      → Cache Packages History
      → Option (Cache Packages History)
  record_maintainers to_string now key maintainers cache = to_string maintainers >>= λ json.
      history.insert_or_replace key (record { maintainers = json; recorded_at = now })
        cache.maintainer_history
      >>= λ t. some (record cache { maintainer_history = t })

  -- The outer `none` is an error: of the statement, or of a row that does not parse.
  unfoldable pub get_previous_maintainers :
      (String → Option (List String))
      → Cache Packages History
      → MaintainerKey
      → Option (Option (List String))
  get_previous_maintainers from_str cache key = elim (history.select key cache.maintainer_history) [
    | err e ↦ none
    | ok none ↦ some none
    | ok (some row) ↦ from_str row.maintainers >>= λ maintainers. some (some maintainers)
  ]

  unfoldable pub perform : CacheCall → Cache Packages History → Option (Cache Packages History)
  unfolding insert insert_git invalidate clear record_maintainers
  perform (insert_call a) cache = insert a cache
  perform (insert_git_call a) cache = insert_git a cache
  perform (invalidate_call key) cache = invalidate key cache
  perform clear_call cache = clear cache
  perform (record_maintainers_call to_string now key maintainers) cache =
      record_maintainers to_string now key maintainers cache

  -- Calls one after the other; a call that fails leaves the cache as it was. The calls that
  -- succeeded come back with the cache.
  unfoldable pub perform_all :
      List CacheCall → Cache Packages History → List CacheCall × Cache Packages History
  unfolding perform
  perform_all [] cache = ([], cache)
  perform_all (call ∷ calls) cache = elim (perform call cache) [
    | none ↦ perform_all calls cache
    | some next ↦ let (done, last) = perform_all calls next in (call ∷ done, last)
  ]
