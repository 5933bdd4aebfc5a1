-- ===== src/Sched/Locking.antt =====
-- sce213-pa2-2020s/pa2.c: the acquire and release callbacks.
use operating_system_pa.Base.{
  ℕ, Bool, true, false, Option, none, some, List, [], ◌∷◌, ◌==◌, ltb, if◌then◌else◌, Result, ok,
  assertion, ◌>>=◌, ◌>>◌, guard, deref,
}
use operating_system_pa.Sched.State.{
  max_prio, ready, wait, is_wait, readyqueue, waitqueue, System, set_owner, set_status, set_prio,
  list_add_tail, list_del_init, in_bounds,
}

-- `current->status = PROCESS_WAIT` and the append to the wait queue.
unfoldable pub block : ℕ → System → Result (Bool × System)
block r s = do
  me ← deref s.current
  s' ← list_add_tail me (waitqueue r) (set_status s me wait)
  ok (false, s')

unfoldable pub fcfs_acquire : ℕ → System → Result (Bool × System)
fcfs_acquire r s = do
  in_bounds r
  elim (s.owner r) [ none ↦ ok (true, set_owner s r s.current) | some o ↦ block r s ]

unfoldable pub pcp_acquire : ℕ → System → Result (Bool × System)
pcp_acquire r s = do
  in_bounds r
  elim (s.owner r) [
    | none ↦ do me ← deref s.current; ok (true, set_prio (set_owner s r s.current) me max_prio)
    | some o ↦ block r s
  ]

-- The owner inherits the priority of the process that blocks on it.
unfoldable pub inherit : ℕ → System → Result System
inherit o s = do
  me ← deref s.current
  ok (if ltb (s.process o).prio (s.process me).prio then set_prio s o (s.process me).prio else s)

-- `inherit` reads and writes priorities only, `block` the status and the queues only, so it does not
-- matter that the source sets the status first.
unfoldable pub pip_acquire : ℕ → System → Result (Bool × System)
pip_acquire r s = do
  in_bounds r
  elim (s.owner r) [
    | none ↦ ok (true, set_owner s r s.current)
    | some o ↦ do s' ← inherit o s; block r s'
  ]

-- `r->owner == current`
abbrev pub same_process : Option ℕ → Option ℕ → Bool
same_process none none = true
same_process (some p) (some q) = p == q
same_process _ _ = false

-- The waiter leaves the wait queue and is ready.
unfoldable pub wake : ℕ → ℕ → System → Result System
wake r w s = do
  guard (is_wait (s.process w).status) assertion
  list_add_tail w readyqueue (set_status (list_del_init w (waitqueue r) s) w ready)

-- The first waiter is woken.
abbrev pub wake_first : ℕ → List ℕ → System → Result System
wake_first r [] s = ok s
wake_first r (w ∷ ws) s = wake r w s

unfoldable pub fcfs_release : ℕ → System → Result System
fcfs_release r s = do
  in_bounds r
  guard (same_process (s.owner r) s.current) assertion
  wake_first r (s.queue (waitqueue r)) (set_owner s r none)

-- `list_for_each_entry`, with the best process so far: a later one replaces it if it is better.
unfoldable pub select : (ℕ → ℕ → Bool) → ℕ → List ℕ → ℕ
select better best [] = best
select better best (p ∷ ps) = select better (if better p best then p else best) ps

abbrev pub higher_prio : System → ℕ → ℕ → Bool
higher_prio s p best = ltb (s.process best).prio (s.process p).prio

-- The waiter of the highest priority is woken.
abbrev pub wake_highest : ℕ → List ℕ → System → Result System
wake_highest r [] s = ok s
wake_highest r (w ∷ ws) s = wake r (select (higher_prio s) w (w ∷ ws)) s

unfoldable pub prio_release : ℕ → System → Result System
prio_release r s = do
  in_bounds r
  guard (same_process (s.owner r) s.current) assertion
  o ← deref (s.owner r)
  wake_highest r (s.queue (waitqueue r)) (set_owner (set_prio s o (s.process o).prio_orig) r none)
