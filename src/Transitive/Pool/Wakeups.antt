-- ===== src/Transitive/Pool/Wakeups.antt =====
-- src/transitive/pool.rs: no wake-up is lost: a thread is blocked only while another one runs or is
-- about to test the permits.
use dep_scan.Prelude.{ℕ, ◌+◌, ◌≤◌, List, ◌≡◌, refl, arith, ap, ◌⊎◌, inl, inr, zero, suc, ◌∙◌}
use dep_scan.Transitive.Types.{Verdict}
use dep_scan.Transitive.Pool.{
  spawned, Phase, PoolState, start_pool, total, is_running, is_blocked, in_flight, Moves, NotifyOne,
  nobody, somebody, Step, acquire, block, release, send, Reachable, begin, step, wake,
}
use dep_scan.Transitive.Pool.Laws.{total-Moves, in_flight-Reachable}

abbrev pub is_waiting : Phase → ℕ
is_waiting Phase.waiting = 1
is_waiting Phase.blocked = 0
is_waiting Phase.running = 0
is_waiting Phase.finished = 0
is_waiting Phase.sent = 0

-- If a thread is blocked, another one runs or is about to test the permits.
abbrev pub NoLostWakeup : List Phase → Type 0
NoLostWakeup threads =
    (total is_blocked threads ≡ 0) ⊎ (1 ≤ total is_running threads + total is_waiting threads)

-- The three counts after a thread has moved.
abbrev Counts : Phase → Phase → List Phase → List Phase → Type 0
Counts from to was now =
    (total is_blocked was + is_blocked to ≡ total is_blocked now + is_blocked from)
    × (total is_running was + is_running to ≡ total is_running now + is_running from)
    × (total is_waiting was + is_waiting to ≡ total is_waiting now + is_waiting from)

Moves-Counts :
    (from to : Phase) (was now before after : List Phase)
    → Moves from to was now before after
    → Counts from to was now
Moves-Counts from to was now before after m = (
  total-Moves is_blocked from to was now before after m,
  total-Moves is_running from to was now before after m,
  total-Moves is_waiting from to was now before after m,
)

NotifyOne-NoLostWakeup : (was now : List Phase) → NotifyOne was now → NoLostWakeup now
NotifyOne-NoLostWakeup was now (nobody idle same) = inl (ap (total is_blocked) same ∙ idle)
NotifyOne-NoLostWakeup was now (somebody before after m) =
    let c = Moves-Counts Phase.blocked Phase.waiting was now before after m in
    inr (omega (arith, c.2))

Step-NoLostWakeup :
    (verdict : ℕ → Verdict) (s t : PoolState)
    → 1 ≤ s.available + in_flight s.threads
    → NoLostWakeup s.threads
    → Step verdict s t
    → NoLostWakeup t.threads
Step-NoLostWakeup verdict s t some_permit h (acquire before after m taken same) =
    let c = Moves-Counts Phase.waiting Phase.running s.threads t.threads before after m in
    inr (omega (arith, c.1))
Step-NoLostWakeup verdict s t some_permit h (block before after m empty still same) =
    let c = Moves-Counts Phase.waiting Phase.blocked s.threads t.threads before after m in
    inr (omega (arith, c.1, some_permit, empty))
Step-NoLostWakeup verdict s t some_permit h (release before after released m n given same) =
    NotifyOne-NoLostWakeup released t.threads n
Step-NoLostWakeup verdict s t some_permit h (send before after m kept more) =
    let c = Moves-Counts Phase.finished Phase.sent s.threads t.threads before after m in
    elim h [
      | inl idle ↦ inl (omega (arith, c.0, idle))
      | inr awake ↦ inr (omega (arith, c.1, c.2, awake))
    ]

blocked-spawned : (n : ℕ) → total is_blocked (spawned n) ≡ 0
blocked-spawned zero = refl
blocked-spawned (suc n) = omega (arith, blocked-spawned n)

pub Reachable-NoLostWakeup :
    (verdict : ℕ → Verdict) (n : ℕ) (fetch_concurrency : ℕ) (s : PoolState)
    → Reachable verdict (start_pool n fetch_concurrency) s
    → NoLostWakeup s.threads
Reachable-NoLostWakeup verdict n fetch_concurrency s (begin same) =
    inl (rw same (blocked-spawned n))
Reachable-NoLostWakeup verdict n fetch_concurrency s (step {t = m} reached taken) =
    let kept = (in_flight-Reachable verdict n fetch_concurrency m reached).0 in
    Step-NoLostWakeup verdict m s (omega (arith, kept))
      (Reachable-NoLostWakeup verdict n fetch_concurrency m reached) taken
Reachable-NoLostWakeup verdict n fetch_concurrency s (wake {t = m} reached w) =
    let c = Moves-Counts Phase.blocked Phase.waiting m.threads s.threads w.before w.after w.moves in
    inr (omega (arith, c.2))
