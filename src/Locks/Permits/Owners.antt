-- ===== src/Locks/Permits/Owners.antt =====
-- What the mutex promises: no more owners than permits, and nobody sleeps forgotten.
use native.Mathlib.Decide.{ℕ_discrete, dec_lt}
use operating_system_pa.Base.{
  two-le-sum_below, sum_below-le, sum_below-add, ℕ, ◌+◌, ◌≤◌, ◌<◌, ◌≡◌, ◌≢◌, refl, sym, ap, false,
  List, [], ◌∷◌, ◌==◌, ==_refl, ==_ne, length, indicator, sum_below, sum_below-zero,
  term-le-sum_below, arith,
}
use operating_system_pa.Locks.Mutex.{
  Stage, away, entering, counting, enqueueing, queued, sleeping, passing, owning, leaving,
  restoring, waking, finishing, dequeued, killing, Mutex, Attainable,
}
use operating_system_pa.Locks.Permits.{takes, owns, waits, enqueues, aims, count, total, Kept}
use operating_system_pa.Locks.Permits.Preservation.{Attainable-Kept}
use operating_system_pa.Locks.Permits.Releasing.{waking_found}

all-le-takes : (p : Stage) → (owns p + waits p) + enqueues p ≤ takes p
all-le-takes enqueueing = omega arith
all-le-takes away = omega arith
all-le-takes entering = omega arith
all-le-takes counting = omega arith
all-le-takes queued = omega arith
all-le-takes sleeping = omega arith
all-le-takes passing = omega arith
all-le-takes owning = omega arith
all-le-takes leaving = omega arith
all-le-takes restoring = omega arith
all-le-takes waking = omega arith
all-le-takes finishing = omega arith
all-le-takes (dequeued u) = omega arith
all-le-takes (killing u) = omega arith

length-count :
    (threads : ℕ) (l : List ℕ)
    → ((u : ℕ) → threads ≤ u → count u l ≡ 0)
    → length l ≤ sum_below threads (λ u. count u l)
length-count threads [] h = omega arith
length-count threads (x ∷ l) h =
    let self : indicator (x == x) ≡ 1 = rw (==_refl x) in
    let inside : x < threads = elim (dec_lt x threads) [
      | yes i ↦ i
      | no o ↦ absurd (omega (arith, h x (omega arith), self))
    ] in
    omega (
      arith,
      sum_below-add threads (λ u. indicator (u == x)) (λ u. count u l),
      term-le-sum_below threads (λ u. indicator (u == x)) x inside,
      self,
      length-count threads l (λ u le. omega (arith, h u le)),
    )

pub Kept-owners : (threads n : ℕ) (s : Mutex) → Kept threads n s → total threads owns s.stage ≤ n
Kept-owners threads n s k =
    let outside : (u : ℕ) → threads ≤ u → waits (s.stage u) ≡ 0 = λ u le. ap waits (k.far u le) in
    let in_queue = length-count threads s.queue (λ u le. omega (arith, k.each u, outside u le)) in
    let waiting =
      sum_below-le threads (λ u. count u s.queue) (λ u. waits (s.stage u))
        (λ u. omega (arith, k.each u)) in
    let first = sum_below-add threads (λ u. owns (s.stage u)) (λ u. waits (s.stage u)) in
    let second =
      sum_below-add threads (λ u. owns (s.stage u) + waits (s.stage u))
        (λ u. enqueues (s.stage u)) in
    let parts =
      sum_below-le threads (λ u. (owns (s.stage u) + waits (s.stage u)) + enqueues (s.stage u))
        (λ u. takes (s.stage u)) (λ u. all-le-takes (s.stage u)) in
    omega (arith, k.bound, in_queue, waiting, first, second, parts)

-- At a mutex of n permits, in every interleaving of threads that acquire and release in turn, at
-- most n threads hold a permit.
pub owners-le-permits :
    (threads n : ℕ) (s : Mutex) → Attainable threads n s → total threads owns s.stage ≤ n
owners-le-permits threads n s r = Kept-owners threads n s (Attainable-Kept threads n s r)

-- At a mutex of one permit, in every interleaving of any number of threads, at most one thread is
-- between the end of acquire_mutex and its release_mutex.
pub owning_alone :
    (threads : ℕ) (s : Mutex) (t u : ℕ)
    → Attainable threads 1 s
    → s.stage t ≡ owning
    → s.stage u ≡ owning
    → t ≡ u
owning_alone threads s t u r a b =
    let k = Attainable-Kept threads 1 s r in
    elim (ℕ_discrete t u) [
      | yes same ↦ same
      | no ne ↦
          let t_in = member t a in
          let u_in = member u b in
          absurd (
            omega (
              arith,
              two-le-sum_below threads (λ v. owns (s.stage v)) t u t_in u_in ne,
              ap owns a,
              ap owns b,
              owners-le-permits threads 1 s r,
            ))
    ]
  where
    member : (v : ℕ) → s.stage v ≡ owning → v < threads
    member v e = elim (dec_lt v threads) [
      | yes l ↦ l
      | no o ↦
          absurd (
            omega (arith, ap owns e, ap owns ((Attainable-Kept threads 1 s r).far v (omega arith))))
    ]

no_aims : (u : ℕ) (p : Stage) → p ≢ dequeued u → p ≢ killing u → aims u p ≡ 0
no_aims u (dequeued v) a b = elim (ℕ_discrete u v) [
  | yes e ↦ absurd (a (ap (λ (w : ℕ). dequeued w) (sym e)))
  | no ne ↦ rw (==_ne u v ne)
]
no_aims u (killing v) a b = elim (ℕ_discrete u v) [
  | yes e ↦ absurd (b (ap (λ (w : ℕ). killing w) (sym e)))
  | no ne ↦ rw (==_ne u v ne)
]
no_aims u away a b = refl
no_aims u entering a b = refl
no_aims u counting a b = refl
no_aims u enqueueing a b = refl
no_aims u queued a b = refl
no_aims u sleeping a b = refl
no_aims u passing a b = refl
no_aims u owning a b = refl
no_aims u leaving a b = refl
no_aims u restoring a b = refl
no_aims u waking a b = refl
no_aims u finishing a b = refl

-- In every interleaving, a thread that sleeps in acquire_mutex with no signal pending, and that
-- nobody is about to signal, stands in the wait queue exactly once: no wake-up is lost.
pub sleeper-count :
    (threads n : ℕ) (s : Mutex) (u : ℕ)
    → Attainable threads n s
    → s.stage u ≡ sleeping
    → s.pending u ≡ false
    → ((v : ℕ) → s.stage v ≢ dequeued u)
    → ((v : ℕ) → s.stage v ≢ killing u)
    → count u s.queue ≡ 1
sleeper-count threads n s u r at unsent a b =
    let k = Attainable-Kept threads n s r in
    let nobody : total threads (aims u) s.stage ≡ 0 =
      sum_below-zero threads _ (λ v. no_aims u (s.stage v) (a v) (b v)) in
    omega (arith, k.each u, ap waits at, ap indicator unsent, nobody)

-- In every interleaving, a thread of the mutex that is about to wake a waiter finds one in the
-- queue, so release_mutex never returns with its spinlock word still taken.
pub waking-queue :
    (threads n : ℕ) (s : Mutex) (t : ℕ)
    → Attainable threads n s
    → t < threads
    → s.stage t ≡ waking
    → 1 ≤ length s.queue
waking-queue threads n s t r l at = waking_found threads n s t (Attainable-Kept threads n s r) l at
