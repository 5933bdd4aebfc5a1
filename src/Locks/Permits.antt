-- ===== src/Locks/Permits.antt =====
-- What holds of the mutex in every interleaving: who has which permit, and who waits for one.
pub mod Moves
pub mod Acquiring
pub mod Releasing
pub mod Preservation
pub mod Owners
pub mod Passing
use native.Mathlib.Decide.{ℕ_discrete}
use operating_system_pa.Base.{
  ℕ, zero, suc, ◌+◌, ◌*◌, ◌≤◌, ◌<◌, ◌≡◌, ◌≢◌, refl, sym, ap, ◌∙◌, inl, inr, Bool, true, false, List,
  [], ◌∷◌, ◌++◌, ◌==◌, ==_refl, if◌then◌else◌, length, update, indicator, sum_below, sum_below-at,
  sum_below-le, sum_below-le-at, arith,
}
use operating_system_pa.Locks.Mutex.{
  ℤ, pos, negsuc, Stage, away, entering, counting, enqueueing, queued, sleeping, passing, owning,
  leaving, restoring, waking, finishing, dequeued, killing, Mutex,
}

-- Between `S--` and `S++`.
abbrev pub takes : Stage → ℕ
takes enqueueing = 1
takes queued = 1
takes sleeping = 1
takes passing = 1
takes owning = 1
takes leaving = 1
takes restoring = 1
takes _ = 0

-- Between the two functions, or on the way there or from there, with a permit.
abbrev pub owns : Stage → ℕ
owns passing = 1
owns owning = 1
owns leaving = 1
owns restoring = 1
owns _ = 0

abbrev pub waits : Stage → ℕ
waits queued = 1
waits sleeping = 1
waits _ = 0

-- With `hold` taken.
abbrev pub locks : Stage → ℕ
locks counting = 1
locks enqueueing = 1
locks queued = 1
locks passing = 1
locks restoring = 1
locks waking = 1
locks (dequeued u) = 1
locks finishing = 1
locks _ = 0

abbrev pub enqueues : Stage → ℕ
enqueues enqueueing = 1
enqueues _ = 0

abbrev pub wakes : Stage → ℕ
wakes waking = 1
wakes _ = 0

-- About to send `u` its signal.
abbrev pub aims : ℕ → Stage → ℕ
aims u (dequeued v) = indicator (u == v)
aims u (killing v) = indicator (u == v)
aims u _ = 0

abbrev pub count : ℕ → List ℕ → ℕ
count u [] = 0
count u (x ∷ xs) = indicator (u == x) + count u xs

pub count-append : (u t : ℕ) (l : List ℕ) → count u (l ++ t ∷ []) ≡ count u l + indicator (u == t)
count-append u t [] = omega arith
count-append u t (x ∷ l) = omega (arith, count-append u t l)

-- S is what is left of the `n` permits when `k` are taken; below zero, how many are missing.
abbrev pub Balance : ℤ → ℕ → ℕ → Type 0
Balance (pos p) k n = p + k ≡ n
Balance (negsuc p) k n = k ≡ n + p + 1

abbrev pub total : ℕ → (Stage → ℕ) → (ℕ → Stage) → ℕ
total threads f stage = sum_below threads (λ t. f (stage t))

pub record Kept (threads n : ℕ) (s : Mutex) : Type 0 where
  pub locked : total threads locks s.stage ≡ s.hold
  pub one : s.hold ≤ 1
  pub balance : Balance s.permits (total threads takes s.stage) n
  -- A thread waits only while all the permits are given, but for one that is about to be passed on.
  pub bound :
      total threads takes s.stage + total threads wakes s.stage
      ≤ n + total threads enqueues s.stage + length s.queue
  pub woken : 1 ≤ total threads wakes s.stage → n ≤ total threads takes s.stage
  -- A waiting thread is in the queue, or is about to be sent its signal, or has it; no other is.
  pub each :
      (u : ℕ)
      → count u s.queue + total threads (aims u) s.stage + indicator (s.pending u)
        ≡ waits (s.stage u)
  pub far : (u : ℕ) → threads ≤ u → s.stage u ≡ away

pub total-update :
    (threads : ℕ) (f : Stage → ℕ) (stage : ℕ → Stage) (t : ℕ) (q p : Stage)
    → t < threads
    → stage t ≡ q
    → total threads f (update stage t p) + f q ≡ total threads f stage + f p
total-update threads f stage t q p l at =
    let e =
      sum_below-at threads (λ u. f (update stage t p u)) (λ u. f (stage u)) t l
        (λ i m ne. ground arith) in
    let old : f (stage t) ≡ f q = ap f at in
    let new : f (update stage t p t) ≡ f p = rw (==_refl t) in omega (arith, e, old, new)

-- A thread that has `hold` is the only one that has it.
pub only_holder :
    (threads n : ℕ) (s : Mutex) (t : ℕ) (q : Stage) (f : Stage → ℕ)
    → Kept threads n s
    → t < threads
    → s.stage t ≡ q
    → locks q ≡ 1
    → ((p : Stage) → f p ≤ locks p)
    → total threads f s.stage ≤ f q
only_holder threads n s t q f k l at holds le =
    let e =
      sum_below-le-at threads (λ u. f (s.stage u)) (λ u. locks (s.stage u)) t l
        (λ i. le (s.stage i)) in
    let a : f (s.stage t) ≡ f q = ap f at in
    let b : locks (s.stage t) ≡ locks q = ap locks at in
    omega (arith, e, a, b, holds, k.locked, k.one)

pub enqueues-le-locks : (p : Stage) → enqueues p ≤ locks p
enqueues-le-locks enqueueing = omega arith
enqueues-le-locks away = omega arith
enqueues-le-locks entering = omega arith
enqueues-le-locks counting = omega arith
enqueues-le-locks queued = omega arith
enqueues-le-locks sleeping = omega arith
enqueues-le-locks passing = omega arith
enqueues-le-locks owning = omega arith
enqueues-le-locks leaving = omega arith
enqueues-le-locks restoring = omega arith
enqueues-le-locks waking = omega arith
enqueues-le-locks finishing = omega arith
enqueues-le-locks (dequeued u) = omega arith
enqueues-le-locks (killing u) = omega arith

pub wakes-le-locks : (p : Stage) → wakes p ≤ locks p
wakes-le-locks enqueueing = omega arith
wakes-le-locks away = omega arith
wakes-le-locks entering = omega arith
wakes-le-locks counting = omega arith
wakes-le-locks queued = omega arith
wakes-le-locks sleeping = omega arith
wakes-le-locks passing = omega arith
wakes-le-locks owning = omega arith
wakes-le-locks leaving = omega arith
wakes-le-locks restoring = omega arith
wakes-le-locks waking = omega arith
wakes-le-locks finishing = omega arith
wakes-le-locks (dequeued u) = omega arith
wakes-le-locks (killing u) = omega arith
