-- ===== src/Locks/Spin.antt =====
-- atomic.h: compare_and_swap, and pa3.c: init_spinlock, acquire_spinlock, release_spinlock.
--
-- A thread is a number. A step is one access of one thread to the lock, which is what the hardware
-- interleaves; a thread that spins may take any number of steps before it gets the lock.
use operating_system_pa.Base.{ℕ, ◌≡◌, ◌==◌, if◌then◌else◌, update}

-- What is returned, and what is then stored.
abbrev pub compare_and_swap : ℕ → ℕ → ℕ → ℕ × ℕ
compare_and_swap value old new = (value, if value == old then new else value)

-- Where a thread is: outside, in the loop of acquire_spinlock, or between its end and
-- release_spinlock.
pub data Place : Type 0 where
  outside spinning inside : Place

pub record Spinlock : Type 0 where
  pub hold : ℕ
  pub place : ℕ → Place

abbrev pub init_spinlock : Spinlock
init_spinlock = record { hold = 0; place = λ t. outside }

abbrev pub move : Spinlock → ℕ → Place → Spinlock
move s t p = record s { place = update s.place t p }

-- One round of `while (compare_and_swap(&lock->hold, 0, 1));`
abbrev pub try_spinlock : ℕ → Spinlock → Spinlock
try_spinlock t s =
    let r = compare_and_swap s.hold 0 1 in
    record (move s t (if r.0 == 0 then inside else spinning)) { hold = r.1 }

abbrev pub release_spinlock : ℕ → Spinlock → Spinlock
release_spinlock t s = record (move s t outside) { hold = 0 }

pub data Step (s : Spinlock) : Spinlock → Type 0 where
  call : (t : ℕ) → s.place t ≡ outside → Step s (move s t spinning)
  round : (t : ℕ) → s.place t ≡ spinning → Step s (try_spinlock t s)
  release : (t : ℕ) → s.place t ≡ inside → Step s (release_spinlock t s)

pub data Reachable : Spinlock → Type 0 where
  start : Reachable init_spinlock
  step : (s s' : Spinlock) → Reachable s → Step s s' → Reachable s'
