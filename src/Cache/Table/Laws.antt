-- ===== src/Cache/Table/Laws.antt =====
-- src/cache.rs: what the operations leave in the tables.
use dep_scan.Prelude.{
  List, [], ◌∷◌, Option, none, some, if◌then◌else◌, String, ◌≡◌, refl, arith, Option-cases, inl,
  inr,
}
use dep_scan.Prelude.Results.{Result, ok}
use dep_scan.Cache.{CacheEntry}
use dep_scan.Cache.Table.{
  SqlTable, SqlLaws, PackageKey, same_package, MaintainerKey, MaintainerRow, Cache, inserted_row,
  inserted_git_row, package_key, git_key, CacheCall, insert_call, insert_git_call, invalidate_call,
  clear_call, record_maintainers_call, lookup, insert, insert_git, invalidate, clear,
  record_maintainers, perform, perform_all,
}

-- What a call decides about the row under a key: nothing, its absence, or what it holds.
unfoldable pub decides : String → PackageKey → CacheCall → Option (Option CacheEntry)
decides version key (insert_call a) =
    if same_package key (package_key a.name a.version a.registry)
    then some (some (inserted_row version a))
    else none
decides version key (insert_git_call a) =
    if same_package key (git_key a.name a.commit_sha)
    then some (some (inserted_git_row version a))
    else none
decides version key (invalidate_call l) = if same_package key l then some none else none
decides version key clear_call = some none
decides version key (record_maintainers_call to_string now l maintainers) = none

-- What the last call that touches the key decides.
unfoldable pub newest : String → PackageKey → List CacheCall → Option (Option CacheEntry)
newest version key [] = none
newest version key (call ∷ calls) = elim (newest version key calls) [
  | some row ↦ some row
  | none ↦ decides version key call
]

abbrev pub or_else :
    Option (Option CacheEntry)
    → Result (Option CacheEntry) String
    → Result (Option CacheEntry) String
or_else (some row) before = ok row
or_else none before = before

module _ {Packages History : Type 0} (packages : SqlTable PackageKey CacheEntry Packages)
    (history : SqlTable MaintainerKey MaintainerRow History) (crate_version : String) where
  lookup-perform :
      (sql : SqlLaws same_package packages) (call : CacheCall)
      (before after : Cache Packages History) (key : PackageKey)
      → perform packages history crate_version call before ≡ some after
      → lookup packages history crate_version after key
        ≡ or_else
            (decides crate_version key call)
            (lookup packages history crate_version before key)
  unfolding perform lookup decides insert insert_git invalidate clear record_maintainers
  lookup-perform sql (insert_call a) before after key h =
      let l = package_key a.name a.version a.registry in
      let row = inserted_row crate_version a in
      elim (Option-cases (packages.insert_or_replace l row before.scanned_packages)) [
        | inl failed ↦ absurd (ground arith)
        | inr (t, done) ↦ ground (arith, sql.select-insert key l row before.scanned_packages t done)
      ]
  lookup-perform sql (insert_git_call a) before after key h =
      let l = git_key a.name a.commit_sha in
      let row = inserted_git_row crate_version a in
      elim (Option-cases (packages.insert_or_replace l row before.scanned_packages)) [
        | inl failed ↦ absurd (ground arith)
        | inr (t, done) ↦ ground (arith, sql.select-insert key l row before.scanned_packages t done)
      ]
  lookup-perform sql (invalidate_call l) before after key h =
      elim (Option-cases (packages.delete l before.scanned_packages)) [
        | inl failed ↦ absurd (ground arith)
        | inr (t, done) ↦ ground (arith, sql.select-delete key l before.scanned_packages t done)
      ]
  lookup-perform sql clear_call before after key h =
      elim (Option-cases (packages.delete_all before.scanned_packages)) [
        | inl failed ↦ absurd (ground arith)
        | inr (t, done) ↦ ground (arith, sql.select-delete_all key before.scanned_packages t done)
      ]
  lookup-perform sql (record_maintainers_call to_string now l maintainers) before after key h =
      elim (Option-cases (to_string maintainers)) [
        | inl unprinted ↦ absurd (ground arith)
        | inr (json, printed) ↦
            let row : MaintainerRow = record { maintainers = json; recorded_at = now } in
            elim (Option-cases (history.insert_or_replace l row before.maintainer_history)) [
              | inl failed ↦ absurd (ground arith)
              | inr (t, done) ↦ ground arith
            ]
      ]

  -- Where the table keeps what SQL says of its statements, after any sequence of calls, of which any
  -- may have failed, a lookup answers with what the last successful call that touched the key
  -- decided: the row that an insertion wrote, or absence after a removal; and with the row from before
  -- when no such call touched it.
  pub lookup-perform_all :
      (sql : SqlLaws same_package packages) (calls : List CacheCall)
      (cache : Cache Packages History) (key : PackageKey)
      → lookup packages history crate_version
          (perform_all packages history crate_version calls cache).1
          key
        ≡ or_else
            (newest crate_version key (perform_all packages history crate_version calls cache).0)
            (lookup packages history crate_version cache key)
  unfolding perform_all newest
  lookup-perform_all sql [] cache key = refl
  lookup-perform_all sql (call ∷ calls) cache key =
      elim (Option-cases (perform packages history crate_version call cache)) [
        | inl failed ↦ ground (arith, lookup-perform_all sql calls cache key)
        | inr (next, done) ↦ ground (
          arith,
          lookup-perform_all sql calls next key,
          lookup-perform sql call cache next key done,
        )
      ]
