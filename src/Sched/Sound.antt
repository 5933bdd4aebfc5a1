-- ===== src/Sched/Sound.antt =====
-- The invariant of the simulator: where the processes hang, and what they hold.
pub mod Linking
pub mod Owners
use operating_system_pa.Base.{
  ℕ, ◌+◌, ◌≤◌, ◌<◌, ◌≡◌, ◌≢◌, Bool, true, false, Option, none, some, List, [], ◌∷◌, has, Distinct,
  All, word,
}
use operating_system_pa.Sched.State.{
  nr_resources, Status, ready, running, wait, exit, ResourceSchedule, Process, Head, readyqueue,
  forkqueue, waitqueue, same_head, System,
}

-- The status of the processes in a list.
abbrev pub status_in : Head → Status
status_in readyqueue = ready
status_in forkqueue = ready
status_in (waitqueue r) = wait

pub record Queues (s : System) : Type 0 where
  pub distinct : (h : Head) → Distinct (s.queue h)
  pub one_head :
      (h k : Head) (p : ℕ)
      → has p (s.queue h) ≡ true
      → has p (s.queue k) ≡ true
      → same_head h k ≡ true
  pub standing : (h : Head) (p : ℕ) → has p (s.queue h) ≡ true → (s.process p).status ≡ status_in h

-- A process in no list.
abbrev pub Unlinked : ℕ → System → Type 0
Unlinked p s = (h : Head) → has p (s.queue h) ≡ false

-- A resource that the process will acquire, before the end of its life and for long enough to give
-- it back in time.
abbrev pub Pending : ℕ → ℕ → ResourceSchedule → Type 0
Pending age lifespan e =
    (e.resource_id < nr_resources)
    × (1 ≤ e.duration)
    × (age ≤ e.at)
    × (e.at + e.duration ≤ lifespan)

-- A resource that the process `p` has for `duration` more ticks.
abbrev pub Held : (ℕ → Option ℕ) → ℕ → ℕ → ℕ → ResourceSchedule → Type 0
Held owner p age lifespan e =
    (e.resource_id < nr_resources)
    × (1 ≤ e.duration)
    × (age + e.duration ≤ lifespan)
    × (owner e.resource_id ≡ some p)

abbrev pub Spares : ℕ → List ResourceSchedule → Type 0
Spares r l = All (λ e. e.resource_id ≢ r) l

-- No resource is held twice.
abbrev pub DistinctIds : List ResourceSchedule → Type 0
DistinctIds [] = Unit
DistinctIds (e ∷ l) = Spares e.resource_id l × DistinctIds l

abbrev pub is_alive : Status → Bool
is_alive ready = true
is_alive wait = true
is_alive _ = false

pub record ProcessOk (owner : ℕ → Option ℕ) (p : ℕ) (x : Process) : Type 0 where
  pub alive : is_alive x.status ≡ true → x.age < x.lifespan
  pub grown : x.age ≤ x.lifespan
  pub small : x.lifespan < word
  pub pending : All (Pending x.age x.lifespan) x.resources_to_acquire
  pub held : All (Held owner p x.age x.lifespan) x.resources_holding
  pub ids : DistinctIds x.resources_holding

abbrev pub Others : System → ℕ → Type 0
Others s me = (p : ℕ) → p ≢ me → ProcessOk s.owner p (s.process p)

pub record Sound (s : System) : Type 0 where
  pub queues : Queues s
  pub processes : (p : ℕ) → ProcessOk s.owner p (s.process p)

abbrev pub is_active : Status → Bool
is_active running = true
is_active wait = true
is_active _ = false

-- Between two rounds of the loop the current process has just run or has just been blocked.
pub record Idle (s : System) : Type 0 where
  pub sound : Sound s
  pub active : (c : ℕ) → s.current ≡ some c → is_active (s.process c).status ≡ true

-- The same process but for its priority.
pub record Alike (x y : Process) : Type 0 where
  pub status : x.status ≡ y.status
  pub age : x.age ≡ y.age
  pub lifespan : x.lifespan ≡ y.lifespan
  pub to_acquire : x.resources_to_acquire ≡ y.resources_to_acquire
  pub holding : x.resources_holding ≡ y.resources_holding
