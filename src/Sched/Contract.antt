-- ===== src/Sched/Contract.antt =====
-- What sched.c relies on from the callbacks of a scheduler (sched.h), as an interface: the
-- simulation is proved safe for every scheduler that meets it.
pub mod Acquire
pub mod Release
pub mod Picking
pub mod Choices
pub mod Instances
use operating_system_pa.Base.{
  ℕ, ◌<◌, ◌≡◌, ◌≢◌, ◌⊎◌, Bool, true, false, Option, none, some, List, has, Distinct, update, Result,
  Returns, if◌then◌else◌,
}
use operating_system_pa.Sched.State.{
  nr_resources, Status, running, wait, is_wait, Process, readyqueue, System, Scheduler, set_queue,
}
use operating_system_pa.Sched.Policies.{unfinished}
use operating_system_pa.Sched.Sound.{Queues, Others, Alike, Idle}

-- The processes that `schedule` may choose from: the ready ones, and the current one unless it is
-- blocked or has completed.
abbrev pub Candidate : System → ℕ → Type 0
Candidate s p =
    (has p (s.queue readyqueue) ≡ true)
    ⊎ ((s.current ≡ some p) × (is_wait (s.process p).status ≡ false) × (unfinished s p ≡ true))

-- A correct choice: one candidate is taken and all the others are ready, nothing else changes, and
-- the processor is idle only if there is no candidate.
pub record Picked (s : System) (r : Option ℕ × System) : Type 0 where
  pub list : List ℕ
  pub result : r.1 ≡ set_queue s readyqueue list
  pub distinct : Distinct list
  pub sources : (p : ℕ) → has p list ≡ true → Candidate s p
  pub chosen : (p : ℕ) → r.0 ≡ some p → Candidate s p
  pub detached : (p : ℕ) → r.0 ≡ some p → has p list ≡ false
  pub kept : (p : ℕ) → Candidate s p → (has p list ≡ true) ⊎ (r.0 ≡ some p)
  pub busy : r.0 ≡ none → (p : ℕ) → ¬ (Candidate s p)

-- The process `me` runs; what it holds is between it and the loops of sched.c.
pub record Running (s : System) (me : ℕ) : Type 0 where
  pub current : s.current ≡ some me
  pub status : (s.process me).status ≡ running
  pub queues : Queues s
  pub others : Others s me

pub record Taken (s : System) (r me : ℕ) (s' : System) : Type 0 where
  pub free : s.owner r ≡ none
  pub owner : s'.owner ≡ update s.owner r (some me)
  pub current : s'.current ≡ s.current
  pub alike : Alike (s.process me) (s'.process me)
  pub queues : Queues s'
  pub others : Others s' me

pub record Blocked (s : System) (me : ℕ) (s' : System) : Type 0 where
  pub owner : s'.owner ≡ s.owner
  pub current : s'.current ≡ s.current
  pub alike : Alike (record (s.process me) { status = wait }) (s'.process me)
  pub queues : Queues s'
  pub others : Others s' me

abbrev pub Acquired : System → ℕ → ℕ → Bool × System → Type 0
Acquired s r me (true, s') = Taken s r me s'
Acquired s r me (false, s') = Blocked s me s'

pub record Released (s : System) (r me : ℕ) (s' : System) : Type 0 where
  pub owner : s'.owner ≡ update s.owner r none
  pub current : s'.current ≡ s.current
  pub alike : Alike (s.process me) (s'.process me)
  pub queues : Queues s'
  pub others : Others s' me

pub record LawfulLocks (sched : Scheduler) : Type 0 where
  pub acquire :
      (s : System) (r me : ℕ)
      → Running s me
      → r < nr_resources
      → Returns (Acquired s r me) (sched.acquire r s)
  pub release :
      (s : System) (r me : ℕ)
      → Running s me
      → r < nr_resources
      → s.owner r ≡ some me
      → Returns (Released s r me) (sched.release r s)

pub record Lawful (sched : Scheduler) : Type 0 where
  pub locks : LawfulLocks sched
  pub schedule : (s : System) → Idle s → Returns (Picked s) (sched.schedule s)
