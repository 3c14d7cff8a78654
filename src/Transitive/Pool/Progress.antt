-- ===== src/Transitive/Pool/Progress.antt =====
-- src/transitive/pool.rs: why the pool drains: some thread can always step, and no step is taken for
-- ever.
use dep_scan.Prelude.{ℕ, List, ◌∷◌, ◌++◌, ◌≡◌, ◌⊎◌, All}
use dep_scan.Transitive.Types.{Verdict}
use dep_scan.Transitive.Pool.{Phase, PoolState, Step}

abbrev is_finished : Phase → ℕ
is_finished Phase.finished = 1
is_finished Phase.waiting = 0
is_finished Phase.blocked = 0
is_finished Phase.running = 0
is_finished Phase.sent = 0

-- The steps that a thread has left, a wake-up counted with the release that causes it.
abbrev pub steps_left : Phase → ℕ
steps_left Phase.waiting = 5
steps_left Phase.blocked = 4
steps_left Phase.running = 3
steps_left Phase.finished = 1
steps_left Phase.sent = 0

-- A thread of the given phase, wherever it stands.
abbrev At : Phase → List Phase → Type 0
At p threads = (before : List Phase) × (after : List Phase) × (threads ≡ before ++ p ∷ after)

abbrev pub AllSent : List Phase → Type 0
AllSent threads = All (λ (p : Phase). p ≡ Phase.sent) threads

-- The next step of some thread.
abbrev Next : (ℕ → Verdict) → PoolState → Type 0
Next verdict s = AllSent s.threads ⊎ ((t : PoolState) × Step verdict s t)
