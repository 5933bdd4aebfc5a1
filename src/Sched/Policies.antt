-- ===== src/Sched/Policies.antt =====
-- sce213-pa2-2020s/pa2.c: the schedule callbacks, and the seven schedulers.
use operating_system_pa.Base.{
  ℕ, Bool, false, not, ◌&&◌, Option, none, some, List, [], ◌∷◌, ltb, leb, if◌then◌else◌, Result, ok,
  fault, null_pointer, ◌>>=◌, deref,
}
use operating_system_pa.Sched.State.{
  is_wait, readyqueue, System, Scheduler, list_add, list_add_tail, list_del_init,
}
use operating_system_pa.Sched.Locking.{
  select, higher_prio, fcfs_acquire, fcfs_release, pcp_acquire, pip_acquire, prio_release,
}

-- `p->age < p->lifespan`
abbrev pub unfinished : System → ℕ → Bool
unfinished s p = ltb (s.process p).age (s.process p).lifespan

-- The process leaves the ready queue and is the next to run.
abbrev pub dispatch : ℕ → System → Option ℕ × System
dispatch p s = (some p, list_del_init p readyqueue s)

abbrev pub pick_first : List ℕ → System → Option ℕ × System
pick_first [] s = (none, s)
pick_first (p ∷ ps) s = dispatch p s

abbrev pub fifo_current : Option ℕ → System → Bool
fifo_current none s = false
fifo_current (some c) s = not (is_wait (s.process c).status) && unfinished s c

unfoldable pub fifo_schedule : System → Result (Option ℕ × System)
fifo_schedule s =
    if fifo_current s.current s then ok (s.current, s) else ok (pick_first (s.queue readyqueue) s)

-- The loop of sjf_schedule over the ready queue, with `lsChk` and `sjfSmallest`.
unfoldable pub sjf_loop : System → ℕ → Option ℕ → List ℕ → Option ℕ
sjf_loop s least smallest [] = smallest
sjf_loop s least smallest (p ∷ ps) =
    let shorter = ltb (s.process p).lifespan least in
    sjf_loop s (if shorter then (s.process p).lifespan else least)
      (if shorter then some p else smallest) ps

abbrev pub sjf_pick : List ℕ → System → Result (Option ℕ × System)
sjf_pick [] s = ok (none, s)
sjf_pick (p ∷ ps) s = do q ← deref (sjf_loop s 100 none (p ∷ ps)); ok (dispatch q s)

abbrev pub current_unfinished : Option ℕ → System → Bool
current_unfinished none s = false
current_unfinished (some c) s = unfinished s c

unfoldable pub sjf_schedule : System → Result (Option ℕ × System)
sjf_schedule s =
    if current_unfinished s.current s then ok (s.current, s) else sjf_pick (s.queue readyqueue) s

abbrev pub shorter_life : System → ℕ → ℕ → Bool
shorter_life s p best = ltb (s.process p).lifespan (s.process best).lifespan

-- The search of a non-empty ready queue `p ∷ ps`, whose first entry was `first` when the function
-- was entered, and the test of what it found.
abbrev pub srtf_search : ℕ → System → Result (Option ℕ × System)
srtf_search first s =
    let q = select (shorter_life s) first (s.queue readyqueue) in
    if leb (s.process q).age (s.process q).lifespan then ok (dispatch q s) else ok (none, s)

abbrev pub srtf_preempt : ℕ → List ℕ → System → Result (Option ℕ × System)
srtf_preempt c [] s = if unfinished s c then ok (some c, s) else ok (none, s)
srtf_preempt c (p ∷ ps) s =
    if unfinished s c then (do s' ← list_add c readyqueue s; srtf_search p s') else srtf_search p s

abbrev pub srtf_start : List ℕ → System → Option ℕ × System
srtf_start [] s = (none, s)
srtf_start (p ∷ ps) s = dispatch (select (shorter_life s) p (p ∷ ps)) s

unfoldable pub srtf_schedule : System → Result (Option ℕ × System)
srtf_schedule s = elim s.current [
  | some c ↦ srtf_preempt c (s.queue readyqueue) s
  | none ↦ ok (srtf_start (s.queue readyqueue) s)
]

-- `current` is not tested against NULL when the ready queue is empty.
abbrev pub rr_pick : Option ℕ → List ℕ → System → Result (Option ℕ × System)
rr_pick none [] s = fault null_pointer
rr_pick (some c) [] s = if unfinished s c then ok (some c, s) else ok (none, s)
rr_pick none (p ∷ ps) s = ok (dispatch p s)
rr_pick (some c) (p ∷ ps) s =
    if unfinished s c
    then (do s' ← list_add_tail c readyqueue s; ok (dispatch p s'))
    else ok (dispatch p s)

unfoldable pub rr_schedule : System → Result (Option ℕ × System)
rr_schedule s = rr_pick s.current (s.queue readyqueue) s

-- The search of the ready queue from its entry `first`, and the test of what it found.
abbrev pub prio_search : ℕ → System → Result (Option ℕ × System)
prio_search first s =
    let q = select (higher_prio s) first (s.queue readyqueue) in
    if leb (s.process q).age (s.process q).lifespan then ok (dispatch q s) else ok (none, s)

abbrev pub prio_current : ℕ → List ℕ → System → Result (Option ℕ × System)
prio_current c [] s = if unfinished s c then ok (some c, s) else ok (none, s)
prio_current c (p ∷ ps) s =
    if unfinished s c
    then (do s' ← list_add_tail c readyqueue s; prio_search p s')
    else prio_search p s

abbrev pub prio_start : List ℕ → System → Option ℕ × System
prio_start [] s = (none, s)
prio_start (p ∷ ps) s = dispatch (select (higher_prio s) p (p ∷ ps)) s

abbrev pub prio_pick : Option ℕ → System → Result (Option ℕ × System)
prio_pick none s = ok (prio_start (s.queue readyqueue) s)
prio_pick (some c) s =
    if not (is_wait (s.process c).status)
    then prio_current c (s.queue readyqueue) s
    else ok (prio_start (s.queue readyqueue) s)

unfoldable pub prio_schedule : System → Result (Option ℕ × System)
prio_schedule s = prio_pick s.current s

abbrev pub fifo_scheduler : Scheduler
fifo_scheduler = record { acquire = fcfs_acquire; release = fcfs_release; schedule = fifo_schedule }

abbrev pub sjf_scheduler : Scheduler
sjf_scheduler = record { acquire = fcfs_acquire; release = fcfs_release; schedule = sjf_schedule }

abbrev pub srtf_scheduler : Scheduler
srtf_scheduler = record { acquire = fcfs_acquire; release = fcfs_release; schedule = srtf_schedule }

abbrev pub rr_scheduler : Scheduler
rr_scheduler = record { acquire = fcfs_acquire; release = fcfs_release; schedule = rr_schedule }

abbrev pub prio_scheduler : Scheduler
prio_scheduler = record { acquire = fcfs_acquire; release = fcfs_release; schedule = prio_schedule }

abbrev pub pcp_scheduler : Scheduler
pcp_scheduler = record { acquire = pcp_acquire; release = prio_release; schedule = prio_schedule }

abbrev pub pip_scheduler : Scheduler
pip_scheduler = record { acquire = pip_acquire; release = prio_release; schedule = prio_schedule }
