-- ===== src/Sched/ProgressTests.antt =====
-- The end of the simulation at a script whose processes block each other for ever.
use operating_system_pa.Base.{ℕ, ◌≡◌, refl, All, List, [], ◌∷◌, Result, ok, Returns, arith}
use operating_system_pa.Sched.State.{Process, waitqueue}
use operating_system_pa.Sched.Locking.{fcfs_acquire, fcfs_release, block, select}
use operating_system_pa.Sched.Policies.{
  fifo_scheduler, prio_scheduler, pcp_scheduler, pip_scheduler, prio_schedule,
}
use operating_system_pa.Sched.State.{linked}
use operating_system_pa.Sched.Simulation.{
  Tick, finished, blank_process, load_processes, fork_loop, acquire_loop, release_loop, retire,
  execute, tick, simulate,
}
use operating_system_pa.Sched.Safety.Whole.{IsScript, loaded}
use operating_system_pa.Sched.Progress.Whole.{Over, simulate_ends}

-- Resource 1 and then resource 2.
abbrev first : Process
first = record blank_process {
  pid = 1;
  lifespan = 6;
  resources_to_acquire =
      record { resource_id = 1; at = 0; duration = 5 }
      ∷ record { resource_id = 2; at = 2; duration = 2 }
      ∷ [];
}

-- Resource 2 and then resource 1, with a higher priority.
abbrev second : Process
second = record blank_process {
  pid = 2;
  lifespan = 6;
  prio = 5;
  prio_orig = 5;
  starts_at = 1;
  resources_to_acquire =
      record { resource_id = 2; at = 0; duration = 5 }
      ∷ record { resource_id = 1; at = 2; duration = 2 }
      ∷ [];
}

abbrev crossed : List Process
crossed = first ∷ second ∷ []

crossed-IsScript : All IsScript crossed
crossed-IsScript = (
  record {
    status = refl;
    age = refl;
    lives = omega arith;
    small = omega arith;
    in_array = (omega arith, (omega arith, tt));
    returned = ((omega arith, omega arith), ((omega arith, omega arith), tt));
    holding = refl;
  },
  (
    record {
      status = refl;
      age = refl;
      lives = omega arith;
      small = omega arith;
      in_array = (omega arith, (omega arith, tt));
      returned = ((omega arith, omega arith), ((omega arith, omega arith), tt));
      holding = refl;
    },
    tt,
  ),
)

simulate_ends_example :
    Returns Over (simulate 40 fifo_scheduler (loaded crossed))
    × Returns Over (simulate 40 prio_scheduler (loaded crossed))
    × Returns Over (simulate 40 pcp_scheduler (loaded crossed))
    × Returns Over (simulate 40 pip_scheduler (loaded crossed))
simulate_ends_example =
    simulate_ends 40 1 crossed crossed-IsScript (omega arith, (omega arith, tt)) (omega arith)
      (omega arith)

abbrev waiters : Result Tick → List (List ℕ)
waiters (ok (finished s)) = s.queue (waitqueue 1) ∷ s.queue (waitqueue 2) ∷ []
waiters _ = []

-- Under the priority scheduler each process ends in the wait queue of what the other one holds.
crossed_deadlock : waiters (simulate 40 prio_scheduler (loaded crossed)) ≡ (1 ∷ []) ∷ (0 ∷ []) ∷ []
unfolding simulate tick fork_loop load_processes prio_schedule select retire execute acquire_loop
    release_loop fcfs_acquire fcfs_release block linked
crossed_deadlock = refl
