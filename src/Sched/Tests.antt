-- ===== src/Sched/Tests.antt =====
-- The theorems on schedulers at concrete scripts.
use operating_system_pa.Base.{
  ℕ, ◌≤◌, ◌<◌, ◌≡◌, refl, true, some, List, [], ◌∷◌, ◌++◌, has, All, Result, ok, fault,
  null_pointer, assertion, Returns, arith,
}
use operating_system_pa.Sched.State.{Process, readyqueue, System, set_queue, list_del_init, linked}
use operating_system_pa.Sched.Locking.{fcfs_acquire, fcfs_release, prio_release, select, block}
use operating_system_pa.Sched.Policies.{
  fifo_scheduler, sjf_scheduler, rr_scheduler, prio_scheduler, pcp_scheduler, pip_scheduler,
  fifo_schedule, sjf_schedule, srtf_schedule, rr_schedule, prio_schedule,
}
use operating_system_pa.Sched.Simulation.{
  Tick, continue, finished, blank_process, initialize, load_processes, fork_loop, fork_on_schedule,
  acquire_loop, release_loop, retire, execute, tick, simulate,
}
use operating_system_pa.Sched.Sound.{Idle}
use operating_system_pa.Sched.Contract.{Picked, Running}
use operating_system_pa.Sched.Contract.Instances.{prio-Lawful, fifo-Lawful}
use operating_system_pa.Sched.Safety.Forking.{fork_on_schedule-Idle}
use operating_system_pa.Sched.Safety.Rounds.{Rounded, tick-Rounded}
use operating_system_pa.Sched.Safety.Whole.{
  IsScript, loaded, loaded-Idle, simulate-Rounded, simulate-loaded,
}
use operating_system_pa.Sched.Choice.Orders.{
  Prefers, prio_schedule-highest, prio_schedule-turns, srtf_schedule-shortest, sjf_schedule_long,
  sjf_schedule-shortest,
}
use operating_system_pa.Sched.Choice.Turns.{rr_schedule-rotates}
use operating_system_pa.Sched.Choice.Waiters.{Wakes, prio_release-highest, fcfs_release-first}
use operating_system_pa.Sched.Choice.Faults.{tick_rr_idle, tick_sjf_blocked}

-- A process that holds resource 1 for three ticks, and a more important one that comes later and
-- wants it too.
abbrev low : Process
low = record blank_process {
  pid = 1;
  lifespan = 6;
  resources_to_acquire = record { resource_id = 1; at = 0; duration = 3 } ∷ [];
}

abbrev high : Process
high = record blank_process {
  pid = 2;
  lifespan = 4;
  prio = 5;
  prio_orig = 5;
  starts_at = 1;
  resources_to_acquire = record { resource_id = 1; at = 0; duration = 2 } ∷ [];
}

abbrev script : List Process
script = low ∷ high ∷ []

-- Two processes that want nothing.
abbrev plain : ℕ → ℕ → Process
plain start life = record blank_process { lifespan = life; starts_at = start }

-- The same, but the second process wants the resource after its first tick.
abbrev later_script : List Process
later_script =
    low
    ∷ record high { resources_to_acquire = record { resource_id = 1; at = 1; duration = 2 } ∷ [] }
    ∷ []

abbrev pair : List Process
pair = plain 0 3 ∷ plain 0 4 ∷ []

plain-IsScript : IsScript (plain 0 3)
plain-IsScript = record {
  status = refl;
  age = refl;
  lives = omega arith;
  small = omega arith;
  in_array = tt;
  returned = tt;
  holding = refl;
}

pair-IsScript : All IsScript pair
pair-IsScript = (
  plain-IsScript,
  (
    record {
      status = refl;
      age = refl;
      lives = omega arith;
      small = omega arith;
      in_array = tt;
      returned = tt;
      holding = refl;
    },
    tt,
  ),
)

low-IsScript : IsScript low
low-IsScript = record {
  status = refl;
  age = refl;
  lives = omega arith;
  small = omega arith;
  in_array = (omega arith, tt);
  returned = ((omega arith, omega arith), tt);
  holding = refl;
}

script-IsScript : All IsScript script
script-IsScript = (
  low-IsScript,
  (
    record {
      status = refl;
      age = refl;
      lives = omega arith;
      small = omega arith;
      in_array = (omega arith, tt);
      returned = ((omega arith, omega arith), tt);
      holding = refl;
    },
    tt,
  ),
)

abbrev state : Result Tick → System
state (ok (continue s)) = s
state (ok (finished s)) = s
state (fault e) = initialize

state-Idle : (r : Result Tick) → Returns Rounded r → Idle (state r)
state-Idle (ok (continue s)) h = h
state-Idle (ok (finished s)) h = h.0
state-Idle (fault e) h = absurd h

simulate-loaded_example :
    Returns Rounded (simulate 5 fifo_scheduler (loaded script))
    × Returns Rounded (simulate 5 prio_scheduler (loaded script))
    × Returns Rounded (simulate 5 pcp_scheduler (loaded script))
    × Returns Rounded (simulate 5 pip_scheduler (loaded script))
simulate-loaded_example = simulate-loaded 5 script script-IsScript

tick-Rounded_example : Returns Rounded (tick prio_scheduler (loaded script))
tick-Rounded_example =
    tick-Rounded prio_scheduler prio-Lawful (loaded script) (loaded-Idle script script-IsScript)

-- Runs of a few rounds.
abbrev started : System
started = fork_on_schedule (loaded script)

started-Idle : Idle started
started-Idle = fork_on_schedule-Idle (loaded script) (loaded-Idle script script-IsScript)

abbrev blocked : System
blocked = state (simulate 2 prio_scheduler (loaded script))

blocked-Idle : Idle blocked
blocked-Idle = state-Idle (simulate 2 prio_scheduler (loaded script)) (
    simulate-Rounded prio_scheduler prio-Lawful 2 (loaded script)
      (loaded-Idle script script-IsScript))

-- The owner runs again while the other process waits.
abbrev contended : System
contended = state (simulate 3 prio_scheduler (loaded script))

contended-Idle : Idle contended
contended-Idle = state-Idle (simulate 3 prio_scheduler (loaded script)) (
    simulate-Rounded prio_scheduler prio-Lawful 3 (loaded script)
      (loaded-Idle script script-IsScript))

contended-Running : Running contended 0
unfolding simulate tick fork_loop load_processes prio_schedule select retire execute acquire_loop
    release_loop fcfs_acquire block linked
contended-Running = record {
  current = refl;
  status = refl;
  queues = contended-Idle.sound.queues;
  others = λ p ne. contended-Idle.sound.processes p;
}

-- The second process runs and is about to ask for what the first one has.
abbrev asking : System
asking = state (simulate 2 prio_scheduler (loaded later_script))

abbrev shared_time : System
shared_time = state (simulate 1 fifo_scheduler (loaded pair))

shared_time-Idle : Idle shared_time
shared_time-Idle =
    state-Idle (simulate 1 fifo_scheduler (loaded pair))
      (simulate-Rounded fifo_scheduler fifo-Lawful 1 (loaded pair) (loaded-Idle pair pair-IsScript))

prio_schedule-highest_example :
    Returns
      (λ r.
        Picked started r
        × Prefers (λ q p. (started.process p).prio ≤ (started.process q).prio) started r)
      (prio_schedule started)
prio_schedule-highest_example = prio_schedule-highest started started-Idle

prio_schedule-turns_example :
    Returns
      (λ r. r.0 ≡ some 0 → (shared_time.process 1).prio < (shared_time.process 0).prio)
      (prio_schedule shared_time)
unfolding simulate tick fork_loop load_processes fifo_schedule retire execute acquire_loop
    release_loop linked
prio_schedule-turns_example =
    prio_schedule-turns shared_time 0 1 shared_time-Idle refl refl refl refl

prio_release-highest_example :
    Returns
      (λ s'.
        (q : ℕ) × Wakes contended 0 1 q s'
        × (has q (1 ∷ []) ≡ true)
        × All (λ p. (contended.process p).prio ≤ (contended.process q).prio) (1 ∷ [])
        × ((s'.process 0).prio ≡ (contended.process 0).prio_orig))
      (prio_release 1 contended)
unfolding simulate tick fork_loop load_processes prio_schedule select retire execute acquire_loop
    release_loop fcfs_acquire block linked
prio_release-highest_example =
    prio_release-highest contended 1 0 1 [] contended-Running (omega arith) refl refl

fcfs_release-first_example :
    Returns
      (λ s'. Wakes contended 0 1 1 s' × ((s'.process 0).prio ≡ (contended.process 0).prio))
      (fcfs_release 1 contended)
unfolding simulate tick fork_loop load_processes prio_schedule select retire execute acquire_loop
    release_loop fcfs_acquire block linked
fcfs_release-first_example =
    fcfs_release-first contended 1 0 1 [] contended-Running (omega arith) refl refl

rr_schedule-rotates_example :
    rr_schedule shared_time ≡ ok (some 1, set_queue shared_time readyqueue ([] ++ 0 ∷ []))
unfolding simulate tick fork_loop load_processes fifo_schedule retire execute acquire_loop
    release_loop linked
rr_schedule-rotates_example =
    rr_schedule-rotates shared_time 0 1 [] shared_time-Idle refl refl refl refl

srtf_schedule-shortest_example :
    Returns
      (λ r.
        Picked shared_time r
        × Prefers
            (λ q p. (shared_time.process q).lifespan ≤ (shared_time.process p).lifespan)
            shared_time
            r)
      (srtf_schedule shared_time)
unfolding simulate tick fork_loop load_processes fifo_schedule retire execute acquire_loop
    release_loop linked
srtf_schedule-shortest_example =
    srtf_schedule-shortest shared_time shared_time-Idle (λ c e. ground (arith, e))

-- Two processes that nothing has run yet.
abbrev fresh_pair : System
fresh_pair = fork_on_schedule (loaded pair)

sjf_schedule-shortest_example :
    Returns
      (λ r.
        (q : ℕ) × (r.0 ≡ some q)
        × (r.1 ≡ list_del_init q readyqueue fresh_pair)
        × (has q (0 ∷ 1 ∷ []) ≡ true)
        × All (λ o. (fresh_pair.process q).lifespan ≤ (fresh_pair.process o).lifespan) (0 ∷ 1 ∷ []))
      (sjf_schedule fresh_pair)
unfolding fork_loop load_processes
sjf_schedule-shortest_example = sjf_schedule-shortest fresh_pair 0 (1 ∷ []) refl refl (omega arith)

abbrev slow_pair : System
slow_pair = fork_on_schedule (loaded (plain 0 100 ∷ plain 0 200 ∷ []))

sjf_schedule_long_example : sjf_schedule slow_pair ≡ fault null_pointer
unfolding fork_loop load_processes
sjf_schedule_long_example =
    sjf_schedule_long slow_pair 0 (1 ∷ []) refl refl (omega arith, (omega arith, tt))

tick_rr_idle_example : tick rr_scheduler (loaded (plain 2 3 ∷ [])) ≡ fault null_pointer
unfolding load_processes
tick_rr_idle_example = tick_rr_idle (loaded (plain 2 3 ∷ [])) refl refl (omega arith, tt)

tick_sjf_blocked_example : tick sjf_scheduler blocked ≡ fault assertion
unfolding simulate tick fork_loop load_processes prio_schedule select retire execute acquire_loop
    release_loop fcfs_acquire block linked
tick_sjf_blocked_example = tick_sjf_blocked blocked 1 1 blocked-Idle refl (omega arith) refl tt
