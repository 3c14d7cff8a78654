-- ===== src/Transitive/Pool/Examples.antt =====
-- Three tasks of src/transitive/pool.rs under one permit.
use dep_scan.Prelude.{ℕ, ◌+◌, ◌≤◌, [], ◌∷◌, ◌≡◌, refl, max}
use dep_scan.Transitive.Types.{Verdict}
use dep_scan.Transitive.Pool.{
  Phase, PoolState, start_pool, in_flight, acquire, block, Reachable, begin, step,
}
use dep_scan.Transitive.Pool.Laws.{in_flight-Reachable}

-- Every task warns.
all_warn : ℕ → Verdict
all_warn index = Verdict.warn

-- The second thread has the one permit, although the concurrency is zero, and the first one waits to
-- be woken.
abbrev first_blocked : PoolState
first_blocked = record {
  available = 0;
  threads = Phase.blocked ∷ Phase.running ∷ Phase.waiting ∷ [];
  received = [];
}

abbrev second_runs : PoolState
second_runs = record {
  available = 0;
  threads = Phase.waiting ∷ Phase.running ∷ Phase.waiting ∷ [];
  received = [];
}

Reachable-second_runs : Reachable all_warn (start_pool 3 0) second_runs
Reachable-second_runs = step (begin refl) (
    acquire (Phase.waiting ∷ []) (Phase.waiting ∷ [])
      (record { was_there = refl; now_there = refl }) refl refl)

Reachable-first_blocked : Reachable all_warn (start_pool 3 0) first_blocked
Reachable-first_blocked = step {t = second_runs} Reachable-second_runs (
    block [] (Phase.running ∷ Phase.waiting ∷ []) (record { was_there = refl; now_there = refl })
      refl refl refl)

in_flight-Reachable_example :
    (0 + in_flight first_blocked.threads ≡ max 0 1) × (in_flight first_blocked.threads ≤ max 0 1)
in_flight-Reachable_example = in_flight-Reachable all_warn 3 0 first_blocked Reachable-first_blocked
