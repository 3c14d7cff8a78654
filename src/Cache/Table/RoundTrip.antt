-- ===== src/Cache/Table/RoundTrip.antt =====
-- src/cache.rs: what is written is read back, as the callers in src/main.rs and the maintainer
-- policy use it.
use dep_scan.Prelude.{
  List, Option, some, if◌then◌else◌, String, true, eq_refl, ◌≡◌, refl, arith, Option-cases, inl,
  inr,
}
use dep_scan.Policy.{PolicyDetail, aggregate_results}
use dep_scan.Prelude.Results.{ok}
use dep_scan.Cache.{CacheEntry, verified_cache_hit}
use dep_scan.Cache.Laws.{Matching, verified_cache_hit-some_iff}
use dep_scan.Cache.Table.{
  SqlTable, SqlLaws, PackageKey, same_package, MaintainerKey, same_maintained, MaintainerRow, Cache,
  Insertion, inserted_row, package_key, lookup, insert, record_maintainers,
  get_previous_maintainers,
}

pub same_package_refl : (k : PackageKey) → same_package k k ≡ true
unfolding same_package
same_package_refl k = ground (arith, eq_refl k.name, eq_refl k.version, eq_refl k.registry)

pub same_maintained_refl : (k : MaintainerKey) → same_maintained k k ≡ true
unfolding same_maintained
same_maintained_refl k = ground (arith, eq_refl k.name, eq_refl k.registry)

module _ {Packages History : Type 0} (packages : SqlTable PackageKey CacheEntry Packages)
    (history : SqlTable MaintainerKey MaintainerRow History) (crate_version : String) where
  -- Where the table keeps what SQL says and the JSON parser reads back what the printer wrote,
  -- recorded maintainers are found again in their order, and the history of every other package is as
  -- before.
  pub get_previous_maintainers-record_maintainers :
      (sql : SqlLaws same_maintained history) (to_string : List String → Option String)
      (from_str : String → Option (List String))
      (reads_back : (xs : List String) (json : String)
        → to_string xs ≡ some json
        → from_str json ≡ some xs)
      (now : String) (key : MaintainerKey) (maintainers : List String)
      (before after : Cache Packages History)
      → record_maintainers packages history crate_version to_string now key maintainers before
        ≡ some after
      → (other : MaintainerKey)
      → get_previous_maintainers packages history crate_version from_str after other ≡ (
          if same_maintained other key
          then some (some maintainers)
          else get_previous_maintainers packages history crate_version from_str before other)
  unfolding get_previous_maintainers record_maintainers
  get_previous_maintainers-record_maintainers sql to_string from_str reads_back now key maintainers
        before after h other =
      elim (Option-cases (to_string maintainers)) [
        | inl unprinted ↦ absurd (ground arith)
        | inr (json, printed) ↦
            let row : MaintainerRow = record { maintainers = json; recorded_at = now } in
            elim (Option-cases (history.insert_or_replace key row before.maintainer_history)) [
              | inl failed ↦ absurd (ground arith)
              | inr (t, done) ↦ ground (
                arith,
                sql.select-insert other key row before.maintainer_history t done,
                reads_back maintainers json printed,
              )
            ]
      ]

  -- A scan result that is written with a content hash, its printed details and their aggregate is
  -- served again with the same details, the time of the write and the crate's version, as long as the
  -- registry publishes a hash that vouches for the written one, where the table keeps what SQL says
  -- and the parser reads back what the printer wrote.
  pub verified_cache_hit-insert :
      (sql : SqlLaws same_package packages) (to_lowercase : String → String)
      (from_str : String → Option (List PolicyDetail)) (a : Insertion) (details : List PolicyDetail)
      (json : String) (fresh_hash : Option String)
      → a.policies_json ≡ some json
      → from_str json ≡ some details
      → a.result ≡ (aggregate_results details).0
      → Matching to_lowercase a.content_hash fresh_hash
      → (before after : Cache Packages History)
      → insert packages history crate_version a before ≡ some after
      → verified_cache_hit to_lowercase from_str
          (lookup packages history crate_version after (package_key a.name a.version a.registry))
          fresh_hash
        ≡ some
            (details, record { hit = true; scanned_at = a.now; dep_scan_version = crate_version })
  unfolding lookup insert inserted_row
  verified_cache_hit-insert sql to_lowercase from_str a details json fresh_hash printed parsed
        aggregated vouched before after h =
      let key = package_key a.name a.version a.registry in
      let row = inserted_row crate_version a in
      elim (Option-cases (packages.insert_or_replace key row before.scanned_packages)) [
        | inl failed ↦ absurd (ground arith)
        | inr (t, done) ↦
            let found : lookup packages history crate_version after key ≡ ok (some row) = ground (
              arith,
              sql.select-insert key key row before.scanned_packages t done,
              same_package_refl key,
            ) in
            (verified_cache_hit-some_iff to_lowercase from_str
                (lookup packages history crate_version after key) fresh_hash details _).1
              (
                row,
                found,
                vouched,
                ((json, printed, parsed), (crate_version, refl, refl), ground arith),
              )
      ]
