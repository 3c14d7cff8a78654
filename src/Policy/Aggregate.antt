-- ===== src/Policy/Aggregate.antt =====
-- src/policy/mod.rs: what the aggregate of a list of details says about the list.
use dep_scan.Prelude.{
  String, List, [], ◌∷◌, none, some, ◌≡◌, refl, ◌↔◌, arith, eq_iff, In, All, ◌≢◌,
}
use dep_scan.Policy.{PolicyDetail, first_with, aggregate_results}

-- A detail with the given result stands in the list exactly when the loop finds one.
pub first_with-none :
    (wanted : String) (ds : List PolicyDetail)
    → (first_with wanted ds ≡ none) ↔ All (λ d. d.result ≢ wanted) ds
unfolding first_with
first_with-none wanted [] = ((λ _. tt), λ _. refl)
first_with-none wanted (d ∷ ds) = ground (arith, first_with-none wanted ds, eq_iff d.result wanted)

pub first_with-some :
    (wanted : String) (ds : List PolicyDetail) (d : PolicyDetail)
    → first_with wanted ds ≡ some d
    → In d ds × (d.result ≡ wanted)
unfolding first_with
first_with-some wanted [] d h = cc
first_with-some wanted (x ∷ ds) d h =
    ground (arith, first_with-some wanted ds d, eq_iff x.result wanted)

module _ (ds : List PolicyDetail) where
  pub aggregate-of_block :
      (d : PolicyDetail)
      → first_with "block" ds ≡ some d
      → aggregate_results ds ≡ ("block", d.reason)
  unfolding aggregate_results
  aggregate-of_block d e = rw (e, aggregate_results)

  pub aggregate-of_warn :
      (d : PolicyDetail)
      → first_with "block" ds ≡ none
      → first_with "warn" ds ≡ some d
      → aggregate_results ds ≡ ("warn", d.reason)
  unfolding aggregate_results
  aggregate-of_warn d e f = rw (e, f, aggregate_results)

  pub aggregate-of_pass :
      first_with "block" ds ≡ none
      → first_with "warn" ds ≡ none
      → aggregate_results ds ≡ ("pass", none)
  unfolding aggregate_results
  aggregate-of_pass e f = rw (e, f, aggregate_results)
