-- ===== src/Sched/Simulation.antt =====
-- sce213-pa2-2020s/sched.c: the simulation loop. What it prints is left out. The callbacks `forked`
-- and `exiting` are NULL in every scheduler, so their calls are no calls here. A process that has
-- exited is freed; nothing refers to it afterwards.
use operating_system_pa.Base.{
  ℕ, zero, suc, Bool, true, false, not, ◌&&◌, Option, none, some, List, [], ◌∷◌, ◌++◌, ◌==◌, leb,
  if◌then◌else◌, inc, dec, is_empty, Result, ok, assertion, ◌>>=◌, ◌>>◌, guard,
}
use operating_system_pa.Sched.State.{
  ready, running, exit, is_running, ResourceSchedule, Process, readyqueue, forkqueue, System,
  Scheduler, set_queue, set_process, set_status, linked, list_del_init,
}

-- `list_move_tail(&p->list, &readyqueue)` of an entry of the fork queue.
abbrev pub fork_process : ℕ → System → System
fork_process p s =
    let s' = list_del_init p forkqueue s in
    set_status (set_queue s' readyqueue (s'.queue readyqueue ++ p ∷ [])) p ready

-- `list_for_each_entry_safe` over the entries of the fork queue.
unfoldable pub fork_loop : List ℕ → System → System
fork_loop [] s = s
fork_loop (p ∷ ps) s =
    fork_loop ps (if leb (s.process p).starts_at s.ticks then fork_process p s else s)

abbrev pub fork_on_schedule : System → System
fork_on_schedule s = fork_loop (s.queue forkqueue) s

unfoldable pub exit_process : ℕ → System → Result System
exit_process p s = do
  guard (not (linked p s)) assertion
  guard (is_empty (s.process p).resources_holding) assertion
  guard (is_empty (s.process p).resources_to_acquire) assertion
  ok s

abbrev pub set_to_acquire : System → ℕ → List ResourceSchedule → System
set_to_acquire s p l = set_process s p (record (s.process p) { resources_to_acquire = l })

abbrev pub set_holding : System → ℕ → List ResourceSchedule → System
set_holding s p l = set_process s p (record (s.process p) { resources_holding = l })

-- The loop over `__resources_to_acquire` of the current process `p`: the entries that stay so far,
-- and the ones to come. The list is written back when the loop ends.
unfoldable pub acquire_loop :
    Scheduler → ℕ → List ResourceSchedule → List ResourceSchedule → System → Result (Bool × System)
acquire_loop sched p kept [] s = ok (true, set_to_acquire s p kept)
acquire_loop sched p kept (rs ∷ rest) s = elim (rs.at == (s.process p).age) [
  | false ↦ acquire_loop sched p (kept ++ rs ∷ []) rest s
  | true ↦ do
    (taken, s') ← sched.acquire rs.resource_id s
    elim taken [
      | false ↦ ok (false, set_to_acquire s' p (kept ++ rs ∷ rest))
      | true ↦
          acquire_loop sched p kept rest
            (set_holding s' p ((s'.process p).resources_holding ++ rs ∷ []))
    ]
]

abbrev pub run_current_acquire : Scheduler → ℕ → System → Result (Bool × System)
run_current_acquire sched p s = acquire_loop sched p [] (s.process p).resources_to_acquire s

-- The loop over `__resources_holding`: an entry whose duration runs out is released and dropped.
unfoldable pub release_loop :
    Scheduler → ℕ → List ResourceSchedule → List ResourceSchedule → System → Result System
release_loop sched p kept [] s = ok (set_holding s p kept)
release_loop sched p kept (rs ∷ rest) s = elim (dec rs.duration == 0) [
  | true ↦ do s' ← sched.release rs.resource_id s; release_loop sched p kept rest s'
  | false ↦ release_loop sched p (kept ++ (record rs { duration = dec rs.duration }) ∷ []) rest s
]

abbrev pub run_current_release : Scheduler → ℕ → System → Result System
run_current_release sched p s = release_loop sched p [] (s.process p).resources_holding s

-- `if (prev) { … }`
unfoldable pub retire : Option ℕ → System → Result System
retire none s = ok s
retire (some p) s =
    let s' = if is_running (s.process p).status then set_status s p ready else s in
    if (s'.process p).age == (s'.process p).lifespan
    then exit_process p (set_status s' p exit)
    else ok s'

abbrev pub grow : ℕ → System → System
grow p s = set_process s p (record (s.process p) { age = inc (s.process p).age })

unfoldable pub execute : Scheduler → ℕ → System → Result System
execute sched p s = do
  let s' = set_status s p running
  guard (not (linked p s')) assertion
  (acquired, t) ← run_current_acquire sched p s'
  if acquired then run_current_release sched p (grow p t) else ok t

pub data Tick : Type 0 where
  continue finished : System → Tick

abbrev pub tick_on : System → Tick
tick_on s = continue (record s { ticks = inc s.ticks })

abbrev pub turn : Scheduler → Option ℕ → System → Result Tick
turn sched none s =
    if is_empty (s.queue readyqueue) && is_empty (s.queue forkqueue)
    then ok (finished s)
    else ok (tick_on s)
turn sched (some p) s = do s' ← execute sched p s; ok (tick_on s')

-- One round of the loop.
unfoldable pub tick : Scheduler → System → Result Tick
tick sched s = do
  let s' = fork_on_schedule s
  (next, t) ← sched.schedule s'
  u ← retire s'.current (record t { current = next })
  turn sched next u

-- The loop `while (true)`, for as many rounds as the fuel allows.
unfoldable pub simulate : ℕ → Scheduler → System → Result Tick
simulate zero sched s = ok (continue s)
simulate (suc n) sched s = do
  t ← tick sched s
  elim t [ finished s' ↦ ok (finished s') | continue s' ↦ simulate n sched s' ]

-- What memset leaves of a process that no line has described.
abbrev pub blank_process : Process
blank_process = record {
  pid = 0;
  status = ready;
  age = 0;
  lifespan = 0;
  prio = 0;
  prio_orig = 0;
  starts_at = 0;
  resources_to_acquire = [];
  resources_holding = [];
}

-- __initialize. The store holds no process yet: an address that was not handed out reads as an
-- exited process, to which nothing refers.
abbrev pub initialize : System
initialize = record {
  process = λ p. record blank_process { status = exit };
  queue = λ h. [];
  owner = λ r. none;
  current = none;
  ticks = 0;
}

-- The end of a process description: the process, at its new address, joins the fork queue.
abbrev pub end_process : ℕ → Process → System → System
end_process p x s =
    let s' = set_process s p x in set_queue s' forkqueue (s'.queue forkqueue ++ p ∷ [])

-- The descriptions of a script in turn, at fresh addresses from `p` on.
unfoldable pub load_processes : ℕ → List Process → System → System
load_processes p [] s = s
load_processes p (x ∷ xs) s = load_processes (suc p) xs (end_process p x s)
