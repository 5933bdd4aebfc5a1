-- ===== src/Sched/Safety.antt =====
-- The safety of the simulation loop of sched.c for every scheduler that meets the contract.
pub mod Forking
pub mod Staging
pub mod Acquiring
pub mod Releasing
pub mod Rounds
pub mod Whole
use operating_system_pa.Base.{
  ℕ, ◌+◌, ◌≤◌, ◌<◌, ◌≡◌, ◌≢◌, Bool, true, false, Option, none, some, List, [], ◌∷◌, All, word,
}
use operating_system_pa.Sched.State.{
  Status, ready, running, wait, ResourceSchedule, Process, System,
}
use operating_system_pa.Sched.Sound.{
  Queues, Unlinked, Pending, Held, DistinctIds, ProcessOk, Others, Sound, Idle,
}
use operating_system_pa.Sched.Contract.{Running}

-- After the choice of `next` and the retirement of its predecessor.
pub record Staged (next : Option ℕ) (s : System) : Type 0 where
  pub sound : Sound s
  pub current : s.current ≡ next
  pub fit : (p : ℕ) → next ≡ some p → (s.process p).status ≡ ready
  pub apart : (p : ℕ) → next ≡ some p → Unlinked p s

-- The running process has what it needs for this tick, and no acquisition is left for it.
pub record Equipped (p : ℕ) (s : System) : Type 0 where
  pub running : Running s p
  pub young : (s.process p).age < (s.process p).lifespan
  pub small : (s.process p).lifespan < word
  pub pending :
      All
        (Pending ((s.process p).age + 1) (s.process p).lifespan)
        (s.process p).resources_to_acquire
  pub held :
      All (Held s.owner p (s.process p).age (s.process p).lifespan) (s.process p).resources_holding
  pub ids : DistinctIds (s.process p).resources_holding
