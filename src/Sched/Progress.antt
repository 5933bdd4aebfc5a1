-- ===== src/Sched/Progress.antt =====
-- Why __do_simulation of sched.c comes to an end: what one round leaves of the work of the processes.
pub mod Callbacks
pub mod Acquiring
pub mod Releasing
pub mod Staging
pub mod Work
pub mod Execution
pub mod Rounds
pub mod Whole
use native.Mathlib.Decide.{ℕ_discrete}
use operating_system_pa.Base.{
  ℕ, ◌-◌, ◌≤◌, ◌≡◌, ◌≢◌, refl, sym, ap, ◌∙◌, Bool, ==_refl, ==_ne, Result, Returns, update, arith,
}
use operating_system_pa.Sched.State.{
  nr_resources, Status, ready, running, wait, exit, Process, ResourceSchedule, System, Scheduler,
  set_process, set_prio, set_status,
}
use operating_system_pa.Sched.Contract.{Running}
use operating_system_pa.Base.{◌<◌, Option, some, List}
use operating_system_pa.Sched.Simulation.{set_to_acquire, set_holding}

-- Whether the process may be chosen to run.
abbrev pub runs : Status → ℕ
runs ready = 1
runs running = 1
runs _ = 0

-- The ticks that a process still has to run.
abbrev pub remaining : Process → ℕ
remaining x = x.lifespan - x.age

-- No process has more left to run, or rises from the dead.
pub record Steady (s t : System) : Type 0 where
  pub remains : (p : ℕ) → remaining (t.process p) ≤ remaining (s.process p)
  pub starts : (p : ℕ) → (t.process p).starts_at ≡ (s.process p).starts_at
  pub gone : (p : ℕ) → (s.process p).status ≡ exit → (t.process p).status ≡ exit
  pub ticks : t.ticks ≡ s.ticks

-- And none is woken.
pub record Calm (s t : System) : Type 0 where
  pub steady : Steady s t
  pub rests : (p : ℕ) → runs (t.process p).status ≤ runs (s.process p).status

-- What the callbacks of a scheduler must leave alone for the simulation to end.
pub record SteadyLocks (sched : Scheduler) : Type 0 where
  pub acquire :
      (s : System) (r me : ℕ)
      → Running s me
      → r < nr_resources
      → Returns (λ (taken, t). Calm s t) (sched.acquire r s)
  pub release :
      (s : System) (r me : ℕ)
      → Running s me
      → r < nr_resources
      → s.owner r ≡ some me
      → Returns (Steady s) (sched.release r s)

pub Steady-trans : (s t u : System) → Steady s t → Steady t u → Steady s u
Steady-trans s t u a b = record {
  remains = λ p. omega (arith, a.remains p, b.remains p);
  starts = λ p. b.starts p ∙ a.starts p;
  gone = λ p e. b.gone p (a.gone p e);
  ticks = b.ticks ∙ a.ticks;
}

pub Calm-trans : (s t u : System) → Calm s t → Calm t u → Calm s u
Calm-trans s t u a b = record {
  steady = Steady-trans s t u a.steady b.steady;
  rests = λ p. omega (arith, a.rests p, b.rests p);
}

-- The queues, the owners and the current process do not matter.
pub same_processes-Calm : (s t : System) → t.process ≡ s.process → t.ticks ≡ s.ticks → Calm s t
same_processes-Calm s t e k = record {
  steady = record {
    remains = λ p. rw e (omega arith);
    starts = λ p. rw e refl;
    gone = λ p h. rw e h;
    ticks = k;
  };
  rests = λ p. rw e (omega arith);
}

-- One process is rewritten.
pub set_process-Steady :
    (s : System) (p : ℕ) (x : Process)
    → remaining x ≤ remaining (s.process p)
    → x.starts_at ≡ (s.process p).starts_at
    → ((s.process p).status ≡ exit → x.status ≡ exit)
    → Steady s (set_process s p x)
set_process-Steady s p x less start gone = record {
  remains = λ q. elim (ℕ_discrete q p) [
    | yes same ↦ rw (same, ==_refl p) less
    | no other ↦ rw (==_ne q p other) (omega arith)
  ];
  starts = λ q. elim (ℕ_discrete q p) [
    | yes same ↦ rw (same, ==_refl p) start
    | no other ↦ rw (==_ne q p other) refl
  ];
  gone = λ q h. elim (ℕ_discrete q p) [
    | yes same ↦ rw (same, ==_refl p) (gone (rw (← same) h))
    | no other ↦ rw (==_ne q p other) h
  ];
  ticks = refl;
}

pub set_process-Calm :
    (s : System) (p : ℕ) (x : Process)
    → remaining x ≤ remaining (s.process p)
    → x.starts_at ≡ (s.process p).starts_at
    → ((s.process p).status ≡ exit → x.status ≡ exit)
    → runs x.status ≤ runs (s.process p).status
    → Calm s (set_process s p x)
set_process-Calm s p x less start gone rests = record {
  steady = set_process-Steady s p x less start gone;
  rests = λ q. elim (ℕ_discrete q p) [
    | yes same ↦ rw (same, ==_refl p) rests
    | no other ↦ rw (==_ne q p other) (omega arith)
  ];
}

-- A process gets another priority.
pub set_prio-Calm : (s : System) (p v : ℕ) → Calm s (set_prio s p v)
set_prio-Calm s p v =
    set_process-Calm s p (record (s.process p) { prio = v }) (omega arith) refl (λ e. e)
      (omega arith)

-- A process that has not exited gets another status.
pub set_status-Calm :
    (s : System) (p : ℕ) (t : Status)
    → (s.process p).status ≢ exit
    → runs t ≤ runs (s.process p).status
    → Calm s (set_status s p t)
set_status-Calm s p t live less =
    set_process-Calm s p (record (s.process p) { status = t }) (omega arith) refl
      (λ e. absurd (live e)) less

-- The lists of a process change.
pub set_to_acquire-Calm :
    (s : System) (p : ℕ) (l : List ResourceSchedule) → Calm s (set_to_acquire s p l)
set_to_acquire-Calm s p l =
    set_process-Calm s p (record (s.process p) { resources_to_acquire = l }) (omega arith) refl
      (λ e. e) (omega arith)

pub set_holding-Calm : (s : System) (p : ℕ) (l : List ResourceSchedule) → Calm s (set_holding s p l)
set_holding-Calm s p l =
    set_process-Calm s p (record (s.process p) { resources_holding = l }) (omega arith) refl
      (λ e. e) (omega arith)
