-- ===== src/Policy/Provenance/GoSumDb.antt =====
-- src/policy/go_sumdb.rs: what lets a Go module pass, and what is a warning.
use dep_scan.Prelude.{
  none, some, ◌≡◌, arith, Option-cases, inl, inr, ◌⊎◌, ◌↔◌, String, Bool, true, false, string_eq,
}
use dep_scan.Policy.Registry.{is_warn}
use dep_scan.Policy.{pass}
use dep_scan.Policy.Context.{
  ScanContext, GoSumDbResult, not_in_sum_db, network_error, parse_error, entry, SumDbEntry,
}
use dep_scan.Policy.Provenance.{SumDbVerifyOutcome, go_sumdb_evaluate}

-- What `go_sumdb_evaluate` says of a context, pass and warning.
abbrev GoSumDbRule :
    {Bundle : Type 0} → (String → SumDbVerifyOutcome) → Bool → ScanContext Bundle → Type 0
GoSumDbRule verify require ctx =
    ((go_sumdb_evaluate verify require ctx ≡ pass) ↔ (
      (ctx.go_sumdb_result ≡ none)
      ⊎ ((found : SumDbEntry) × (ctx.go_sumdb_result ≡ some (entry found))
          × (verify found.signed_tree_head ≡ SumDbVerifyOutcome.valid))))
    × ((is_warn (go_sumdb_evaluate verify require ctx) ≡ true)
        ↔ ((ctx.go_sumdb_result ≡ some not_in_sum_db) × (require ≡ false)))

go_sumdb-of_result :
    {Bundle : Type 0} (verify : String → SumDbVerifyOutcome) (require : Bool)
    (ctx : ScanContext Bundle) (result : GoSumDbResult)
    → ctx.go_sumdb_result ≡ some result
    → GoSumDbRule verify require ctx
unfolding go_sumdb_evaluate
go_sumdb-of_result verify require ctx not_in_sum_db e = ground arith
go_sumdb-of_result verify require ctx (network_error m) e = ground arith
go_sumdb-of_result verify require ctx (parse_error m) e = ground arith
go_sumdb-of_result verify require ctx (entry found) e =
    (((λ h. inr (found, e, ground arith)), ground arith), ground arith)

-- A Go module passes exactly when the checksum database was not queried, or has an entry whose
-- signature verifies. Without an entry the module is blocked if the database is required, and
-- warned about if not; every failure blocks.
pub go_sumdb_evaluate_lem :
    {Bundle : Type 0} (verify : String → SumDbVerifyOutcome) (require : Bool)
    (ctx : ScanContext Bundle)
    → ((go_sumdb_evaluate verify require ctx ≡ pass) ↔ (
        (ctx.go_sumdb_result ≡ none)
        ⊎ ((found : SumDbEntry) × (ctx.go_sumdb_result ≡ some (entry found))
            × (verify found.signed_tree_head ≡ SumDbVerifyOutcome.valid))))
      × ((is_warn (go_sumdb_evaluate verify require ctx) ≡ true)
          ↔ ((ctx.go_sumdb_result ≡ some not_in_sum_db) × (require ≡ false)))
unfolding go_sumdb_evaluate
go_sumdb_evaluate_lem verify require ctx = elim (Option-cases ctx.go_sumdb_result) [
  | inl unqueried ↦ ground arith
  | inr (result, queried) ↦ go_sumdb-of_result verify require ctx result queried
]
