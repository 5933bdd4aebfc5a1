-- ===== src/Sched/State.antt =====
-- sce213-pa2-2020s: process.h, resource.h, sched.h and the globals of sched.c.
--
-- A process is known by its address, a number. `struct process` has one `list` node, so it can hang
-- in one list at a time; a list head is a sequence of addresses, and linking a node that hangs in a
-- list already, which would corrupt both lists, is the fault `relinked`. The entries of
-- `__resources_to_acquire` and `__resources_holding` belong to one process and are lists of values.
-- An `int` is its 32-bit pattern, so a negative resource number is far out of bounds.
use operating_system_pa.Base.{
  ℕ, zero, suc, Bool, true, false, not, ◌||◌, Option, List, [], ◌∷◌, ◌++◌, ◌==◌, ltb, if◌then◌else◌,
  has, remove, update, Result, ok, out_of_bounds, relinked, ◌>>◌, guard,
}

abbrev pub nr_resources : ℕ
nr_resources = 32

abbrev pub max_prio : ℕ
max_prio = 64

pub data Status : Type 0 where
  ready running wait exit : Status

abbrev pub is_wait : Status → Bool
is_wait wait = true
is_wait _ = false

abbrev pub is_running : Status → Bool
is_running running = true
is_running _ = false

-- `struct resource_schedule`
pub record ResourceSchedule : Type 0 where
  pub resource_id : ℕ
  pub at : ℕ
  pub duration : ℕ

pub record Process : Type 0 where
  pub pid : ℕ
  pub status : Status
  pub age : ℕ
  pub lifespan : ℕ
  pub prio : ℕ
  pub prio_orig : ℕ
  pub starts_at : ℕ
  pub resources_to_acquire : List ResourceSchedule
  pub resources_holding : List ResourceSchedule

-- The list heads of the program.
pub data Head : Type 0 where
  readyqueue forkqueue : Head
  waitqueue : ℕ → Head

abbrev pub same_head : Head → Head → Bool
same_head readyqueue readyqueue = true
same_head forkqueue forkqueue = true
same_head (waitqueue r) (waitqueue q) = r == q
same_head _ _ = false

pub record System : Type 0 where
  pub process : ℕ → Process
  pub queue : Head → List ℕ
  pub owner : ℕ → Option ℕ
  pub current : Option ℕ
  pub ticks : ℕ

abbrev pub set_queue : System → Head → List ℕ → System
set_queue s h xs = record s { queue = λ k. if same_head k h then xs else s.queue k }

abbrev pub set_owner : System → ℕ → Option ℕ → System
set_owner s r o = record s { owner = update s.owner r o }

abbrev pub set_process : System → ℕ → Process → System
set_process s p x = record s { process = update s.process p x }

abbrev pub set_status : System → ℕ → Status → System
set_status s p t = set_process s p (record (s.process p) { status = t })

abbrev pub set_prio : System → ℕ → ℕ → System
set_prio s p v = set_process s p (record (s.process p) { prio = v })

-- Whether the process waits for one of the first `n` resources.
unfoldable pub waits_below : ℕ → ℕ → System → Bool
waits_below zero p s = false
waits_below (suc n) p s = waits_below n p s || has p (s.queue (waitqueue n))

-- `!list_empty(&p->list)`
unfoldable pub linked : ℕ → System → Bool
unfolding waits_below
linked p s = has p (s.queue readyqueue) || has p (s.queue forkqueue) || waits_below nr_resources p s

-- `list_add_tail(&p->list, head)` and `list_add(&p->list, head)`
abbrev pub list_add_tail : ℕ → Head → System → Result System
list_add_tail p h s = do guard (not (linked p s)) relinked; ok (set_queue s h (s.queue h ++ p ∷ []))

abbrev pub list_add : ℕ → Head → System → Result System
list_add p h s = do guard (not (linked p s)) relinked; ok (set_queue s h (p ∷ s.queue h))

-- `list_del_init(&p->list)` of a node that was found in the list of the head.
abbrev pub list_del_init : ℕ → Head → System → System
list_del_init p h s = set_queue s h (remove p (s.queue h))

-- `resources + resource_id`
abbrev pub in_bounds : ℕ → Result (Unit {0})
in_bounds r = guard (ltb r nr_resources) out_of_bounds

-- The callbacks that some scheduler sets to more than a function that does nothing.
pub record Scheduler : Type 0 where
  pub acquire : ℕ → System → Result (Bool × System)
  pub release : ℕ → System → Result System
  pub schedule : System → Result (Option ℕ × System)
