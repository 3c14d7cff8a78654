-- ===== src/Transitive/Pool/Laws.antt =====
-- src/transitive/pool.rs: the permits and the threads.
use dep_scan.Prelude.{
  ℕ, ◌+◌, ◌≤◌, List, [], ◌∷◌, ◌++◌, ◌≡◌, refl, arith, max, ap, ◌⊎◌, inl, inr, ◌∙◌, zero, suc,
}
use dep_scan.Transitive.Types.{Verdict}
use dep_scan.Transitive.Pool.{
  spawned, Phase, PoolState, start_pool, total, is_running, is_blocked, in_flight, Moves, NotifyOne,
  nobody, somebody, Step, acquire, block, release, send, Reachable, begin, step, wake,
}

total-append : (f : Phase → ℕ) (xs ys : List Phase) → total f (xs ++ ys) ≡ total f xs + total f ys
total-append f [] ys = omega arith
total-append f (x ∷ xs) ys = omega (arith, total-append f xs ys)

in_flight-spawned : (n : ℕ) → in_flight (spawned n) ≡ 0
in_flight-spawned zero = refl
in_flight-spawned (suc n) = omega (arith, in_flight-spawned n)

pub total-Moves :
    (f : Phase → ℕ) (from to : Phase) (was now before after : List Phase)
    → Moves from to was now before after
    → total f was + f to ≡ total f now + f from
total-Moves f from to was now before after m =
    let a = total-append f before (from ∷ after) in
    let b = total-append f before (to ∷ after) in
    let e = ap (total f) m.was_there in
    let g = ap (total f) m.now_there in omega (arith, a, b, e, g)

-- A notification changes no thread if none is blocked, and makes a blocked one wait otherwise.
pub total-NotifyOne :
    (f : Phase → ℕ) (was now : List Phase)
    → NotifyOne was now
    → ((total is_blocked was ≡ 0) × (total f now ≡ total f was))
      ⊎ (total f was + f Phase.waiting ≡ total f now + f Phase.blocked)
total-NotifyOne f was now (nobody idle same) = inl (idle, ap (total f) same)
total-NotifyOne f was now (somebody before after m) =
    inr (total-Moves f Phase.blocked Phase.waiting was now before after m)

in_flight-NotifyOne : (was now : List Phase) → NotifyOne was now → in_flight now ≡ in_flight was
in_flight-NotifyOne was now n = elim (total-NotifyOne is_running was now n) [
  | inl (idle, same) ↦ same
  | inr moved ↦ omega (arith, moved)
]

-- No step makes or loses a permit.
permits-kept :
    (verdict : ℕ → Verdict) (s t : PoolState)
    → Step verdict s t
    → t.available + in_flight t.threads ≡ s.available + in_flight s.threads
permits-kept verdict s t (acquire before after m taken same) = omega (
  arith,
  taken,
  total-Moves is_running Phase.waiting Phase.running s.threads t.threads before after m,
)
permits-kept verdict s t (block before after m none still same) = omega (
  arith,
  none,
  still,
  total-Moves is_running Phase.waiting Phase.blocked s.threads t.threads before after m,
)
permits-kept verdict s t (release before after released m n given same) = omega (
  arith,
  given,
  in_flight-NotifyOne released t.threads n,
  total-Moves is_running Phase.running Phase.finished s.threads released before after m,
)
permits-kept verdict s t (send before after m kept more) = omega (
  arith,
  kept,
  total-Moves is_running Phase.finished Phase.sent s.threads t.threads before after m,
)

permits-Reachable :
    (verdict : ℕ → Verdict) (s t : PoolState)
    → Reachable verdict s t
    → t.available + in_flight t.threads ≡ s.available + in_flight s.threads
permits-Reachable verdict s t (begin same) = rw same refl
permits-Reachable verdict s t (step {t = m} reached taken) =
    permits-kept verdict m t taken ∙ permits-Reachable verdict s m reached
permits-Reachable verdict s t (wake {t = m} reached w) = omega (
  arith,
  w.same_available,
  permits-Reachable verdict s m reached,
  total-Moves is_running Phase.blocked Phase.waiting m.threads t.threads w.before w.after w.moves,
)

-- In whatever order the threads run, the tasks in flight and the permits left are together the
-- configured number of permits, at least one: never more tasks than that run at once.
pub in_flight-Reachable :
    (verdict : ℕ → Verdict) (n : ℕ) (fetch_concurrency : ℕ) (t : PoolState)
    → Reachable verdict (start_pool n fetch_concurrency) t
    → (t.available + in_flight t.threads ≡ max fetch_concurrency 1)
      × (in_flight t.threads ≤ max fetch_concurrency 1)
in_flight-Reachable verdict n fetch_concurrency t reached =
    let kept = permits-Reachable verdict (start_pool n fetch_concurrency) t reached in
    let none_yet = in_flight-spawned n in
    (omega (arith, kept, none_yet), omega (arith, kept, none_yet))
