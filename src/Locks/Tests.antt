-- ===== src/Locks/Tests.antt =====
-- Two threads at a spinlock, and two at a mutex.
use operating_system_pa.Base.{◌<◌, List, [], ◌∷◌, Option, none, some, All, ℕ, ◌≡◌, ◌≢◌, refl, arith}
use operating_system_pa.Locks.Spin.{
  spinning, inside, Spinlock, init_spinlock, move, try_spinlock, call, round, Reachable, start,
  step,
}
use operating_system_pa.Locks.Mutex.{
  dequeued, killing, Mutex, init_mutex, act, Attainable, initial, advance,
}
use operating_system_pa.Locks.Permits.{count}
use operating_system_pa.Locks.Permits.Owners.{owning_alone, sleeper-count}
use operating_system_pa.Locks.Exclusion.{inside_alone, round_enters}

-- Both have called acquire_spinlock.
abbrev called : Spinlock
called = move (move init_spinlock 0 spinning) 1 spinning

called-Reachable : Reachable called
called-Reachable =
    step (move init_spinlock 0 spinning) called
      (step init_spinlock (move init_spinlock 0 spinning) start (call 0 refl)) (call 1 refl)

called_empty : (u : ℕ) → called.place u ≢ inside
called_empty u e = ground (arith, e)

-- Thread 1 was first.
abbrev taken : Spinlock
taken = try_spinlock 1 called

taken-Reachable : Reachable taken
taken-Reachable = step called taken called-Reachable (round 1 refl)

inside_alone_example : ◌≡◌ {A = ℕ} 1 1
inside_alone_example = inside_alone taken 1 1 taken-Reachable refl refl

round_enters_example : (try_spinlock 0 called).place 0 ≡ inside
round_enters_example = round_enters called 0 called-Reachable refl called_empty

-- The threads take statements in the given order; a thread that is asleep takes none.
abbrev take : Option Mutex → Mutex → Mutex
take none s = s
take (some s') s = s'

abbrev turns : List ℕ → Mutex → Mutex
turns [] s = s
turns (t ∷ ts) s = turns ts (take (act (s.stage t) t s) s)

turns-Attainable :
    (threads n : ℕ) (ts : List ℕ) (s : Mutex)
    → All (λ t. t < threads) ts
    → Attainable threads n s
    → Attainable threads n (turns ts s)
turns-Attainable threads n [] s a r = r
turns-Attainable threads n (t ∷ ts) s a r =
    turns-Attainable threads n ts (take (act (s.stage t) t s) s) a.1 (go (act (s.stage t) t s) refl)
  where
    go : (o : Option Mutex) → act (s.stage t) t s ≡ o → Attainable threads n (take o s)
    go none e = r
    go (some s') e = advance t s s' r a.0 e

-- Thread 0 gets the mutex.
abbrev first_in : Mutex
first_in = turns (0 ∷ 0 ∷ 0 ∷ 0 ∷ []) (init_mutex 1)

first_in-Attainable : Attainable 2 1 first_in
first_in-Attainable =
    turns-Attainable 2 1 (0 ∷ 0 ∷ 0 ∷ 0 ∷ []) (init_mutex 1)
      (omega arith, (omega arith, (omega arith, (omega arith, tt)))) initial

-- Thread 1 falls asleep.
abbrev second_asleep : Mutex
second_asleep = turns (1 ∷ 1 ∷ 1 ∷ 1 ∷ 1 ∷ []) first_in

second_asleep-Attainable : Attainable 2 1 second_asleep
second_asleep-Attainable =
    turns-Attainable 2 1 (1 ∷ 1 ∷ 1 ∷ 1 ∷ 1 ∷ []) first_in
      (omega arith, (omega arith, (omega arith, (omega arith, (omega arith, tt)))))
      first_in-Attainable

-- Thread 0 is about to wake it.
abbrev first_wakes : Mutex
first_wakes = turns (0 ∷ 0 ∷ 0 ∷ []) second_asleep

first_wakes-Attainable : Attainable 2 1 first_wakes
first_wakes-Attainable =
    turns-Attainable 2 1 (0 ∷ 0 ∷ 0 ∷ []) second_asleep
      (omega arith, (omega arith, (omega arith, tt))) second_asleep-Attainable

owning_alone_example : ◌≡◌ {A = ℕ} 0 0
unfolding act
owning_alone_example = owning_alone 2 second_asleep 0 0 second_asleep-Attainable refl refl

not_dequeued : (v : ℕ) → second_asleep.stage v ≢ dequeued 1
unfolding act
not_dequeued v e = ground (arith, e)

not_killing : (v : ℕ) → second_asleep.stage v ≢ killing 1
unfolding act
not_killing v e = ground (arith, e)

sleeper-count_example : count 1 second_asleep.queue ≡ 1
unfolding act
sleeper-count_example =
    sleeper-count 2 1 second_asleep 1 second_asleep-Attainable refl refl not_dequeued not_killing
