-- ===== src/Transitive/Pool.antt =====
-- src/transitive/pool.rs: the threads of run_bounded and the semaphore that they share, as steps
-- that may come in any order. A thread takes a permit, or waits on the condition variable until it is
-- woken, runs its task, gives the permit back and wakes a waiter, and sends its result. The body of
-- acquire and that of release hold the mutex, so each is one step. Every task returns: one that
-- panics is left out.
pub mod Laws
pub mod Wakeups
pub mod Progress
mod Examples
use dep_scan.Prelude.{ℕ, ◌+◌, List, [], ◌∷◌, ◌++◌, ◌≡◌, max, length, map, zero, suc}
use dep_scan.Transitive.Types.{Verdict}

-- `waiting` is before the test of the permits in `acquire`, `blocked` is in `cv.wait`.
pub data Phase : Type 0 where
  waiting blocked running finished sent : Phase

-- The permits that are left, the thread of each task, and what was received, in that order.
pub record PoolState : Type 0 where
  pub available : ℕ
  pub threads : List Phase
  pub received : List (ℕ × Verdict)

-- One thread per task, before any of them runs.
abbrev pub spawned : ℕ → List Phase
spawned zero = []
spawned (suc n) = Phase.waiting ∷ spawned n

-- The clamp to at least one permit, and the threads of `n` tasks.
abbrev pub start_pool : ℕ → ℕ → PoolState
start_pool n fetch_concurrency = record {
  available = max fetch_concurrency 1;
  threads = spawned n;
  received = [];
}

-- The sum of a number that depends on the phase, over all threads.
abbrev pub total : (Phase → ℕ) → List Phase → ℕ
total f [] = 0
total f (p ∷ threads) = f p + total f threads

abbrev pub is_running : Phase → ℕ
is_running Phase.running = 1
is_running Phase.waiting = 0
is_running Phase.blocked = 0
is_running Phase.finished = 0
is_running Phase.sent = 0

abbrev pub is_blocked : Phase → ℕ
is_blocked Phase.blocked = 1
is_blocked Phase.waiting = 0
is_blocked Phase.running = 0
is_blocked Phase.finished = 0
is_blocked Phase.sent = 0

-- The tasks that are being run.
abbrev pub in_flight : List Phase → ℕ
in_flight threads = total is_running threads

-- The thread between `before` and `after` moves from one phase to another.
pub record Moves (from to : Phase) (was now : List Phase) (before after : List Phase) : Type 0 where
  pub was_there : was ≡ before ++ from ∷ after
  pub now_there : now ≡ before ++ to ∷ after

-- `cv.notify_one()`: some blocked thread wakes and tests again, if there is one.
pub data NotifyOne (was now : List Phase) : Type 0 where
  nobody : total is_blocked was ≡ 0 → now ≡ was → NotifyOne was now
  somebody :
      (before after : List Phase)
      → Moves Phase.blocked Phase.waiting was now before after
      → NotifyOne was now

-- One step of a thread; the index of a thread is the number of threads before it.
pub data Step (verdict : ℕ → Verdict) (s t : PoolState) : Type 0 where
  acquire :
      (before after : List Phase)
      → Moves Phase.waiting Phase.running s.threads t.threads before after
      → s.available ≡ t.available + 1
      → t.received ≡ s.received
      → Step verdict s t
  block :
      (before after : List Phase)
      → Moves Phase.waiting Phase.blocked s.threads t.threads before after
      → s.available ≡ 0
      → t.available ≡ 0
      → t.received ≡ s.received
      → Step verdict s t
  release :
      (before after released : List Phase)
      → Moves Phase.running Phase.finished s.threads released before after
      → NotifyOne released t.threads
      → t.available ≡ s.available + 1
      → t.received ≡ s.received
      → Step verdict s t
  send :
      (before after : List Phase)
      → Moves Phase.finished Phase.sent s.threads t.threads before after
      → t.available ≡ s.available
      → t.received ≡ s.received ++ (length before, verdict (length before)) ∷ []
      → Step verdict s t

-- A blocked thread that the condition variable wakes although nobody notified it.
pub record SpuriousWakeup (s t : PoolState) : Type 0 where
  pub before : List Phase
  pub after : List Phase
  pub moves : Moves Phase.blocked Phase.waiting s.threads t.threads before after
  pub same_available : t.available ≡ s.available
  pub same_received : t.received ≡ s.received

pub data Reachable (verdict : ℕ → Verdict) (s : PoolState) : PoolState → Type 0 where
  begin : {t : PoolState} → t ≡ s → Reachable verdict s t
  step : {t u : PoolState} → Reachable verdict s t → Step verdict t u → Reachable verdict s u
  wake : {t u : PoolState} → Reachable verdict s t → SpuriousWakeup t u → Reachable verdict s u
