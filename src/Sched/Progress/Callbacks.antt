-- ===== src/Sched/Progress/Callbacks.antt =====
-- The acquire and release callbacks of pa2.c neither prolong a process nor revive one.
use operating_system_pa.Base.{
  ℕ, ◌<◌, ◌≡◌, inl, inr, Bool, true, false, none, some, List, [], ◌∷◌, ◌++◌, ltb, lt→ltb, ==_refl,
  has, refl, Result, ok, Returns, Bool-cases, Option-cases, arith,
}
use operating_system_pa.Sched.State.{
  nr_resources, max_prio, ready, wait, readyqueue, waitqueue, System, set_queue, set_owner,
  set_status, set_prio, linked, list_del_init,
}
use operating_system_pa.Sched.Locking.{
  block, fcfs_acquire, pcp_acquire, inherit, pip_acquire, wake, wake_first, fcfs_release, select,
  higher_prio, wake_highest, prio_release,
}
use operating_system_pa.Sched.Policies.{
  fifo_scheduler, prio_scheduler, pcp_scheduler, pip_scheduler,
}
use operating_system_pa.Sched.Sound.{Queues}
use operating_system_pa.Sched.Sound.Linking.{linked-false, Unlinked-remove}
use operating_system_pa.Sched.Contract.{Running}
use operating_system_pa.Sched.Contract.Acquire.{running-Unlinked, set_prio-Running}
use operating_system_pa.Sched.Contract.Release.{select-has}
use operating_system_pa.Sched.Progress.Releasing.{after-Steady}
use operating_system_pa.Sched.Progress.{
  Steady, Calm, SteadyLocks, Steady-trans, Calm-trans, same_processes-Calm, set_process-Steady,
  set_prio-Calm, set_status-Calm,
}

abbrev CalmResult : System → Result (Bool × System) → Type 0
CalmResult s res = Returns (λ (taken, t). Calm s t) res

block-Calm : (s : System) (r me : ℕ) → Running s me → CalmResult s (block r s)
unfolding block linked
block-Calm s r me run =
    let apart = running-Unlinked s me run.queues run.status in
    let s₁ = set_status s me wait in
    let s₂ = set_queue s₁ (waitqueue r) (s₁.queue (waitqueue r) ++ me ∷ []) in
    let e : block r s ≡ ok (false, s₂) = simp (run.current, linked-false me s₁ apart) in
    rw e (
      Calm-trans s s₁ s₂ (set_status-Calm s me wait (ground (arith, run.status)) (ground arith))
        (same_processes-Calm s₁ s₂ refl refl))

fcfs_acquire-Calm :
    (s : System) (r me : ℕ) → Running s me → r < nr_resources → CalmResult s (fcfs_acquire r s)
unfolding fcfs_acquire
fcfs_acquire-Calm s r me run l = elim (Option-cases (s.owner r)) [
  | inl free ↦
      rw (lt→ltb r nr_resources l, free) (same_processes-Calm s (set_owner s r s.current) refl refl)
  | inr (o, held) ↦ rw (lt→ltb r nr_resources l, held) (block-Calm s r me run)
]

pcp_acquire-Calm :
    (s : System) (r me : ℕ) → Running s me → r < nr_resources → CalmResult s (pcp_acquire r s)
unfolding pcp_acquire
pcp_acquire-Calm s r me run l = elim (Option-cases (s.owner r)) [
  | inl free ↦
      let s₁ = set_owner s r s.current in
      let e : pcp_acquire r s ≡ ok (true, set_prio s₁ me max_prio) =
        simp (lt→ltb r nr_resources l, free, run.current) in
      rw e (
        Calm-trans s s₁ (set_prio s₁ me max_prio) (same_processes-Calm s s₁ refl refl)
          (set_prio-Calm s₁ me max_prio))
  | inr (o, held) ↦ rw (lt→ltb r nr_resources l, held) (block-Calm s r me run)
]

after-Calm :
    (s t : System) (res : Result (Bool × System)) → Calm s t → CalmResult t res → CalmResult s res
after-Calm s t (ok (b, u)) c k = Calm-trans s t u c k
after-Calm s t (Result.fault f) c k = k

pip_acquire-Calm :
    (s : System) (r me : ℕ) → Running s me → r < nr_resources → CalmResult s (pip_acquire r s)
unfolding pip_acquire inherit
pip_acquire-Calm s r me run l = elim (Option-cases (s.owner r)) [
  | inl free ↦
      rw (lt→ltb r nr_resources l, free) (same_processes-Calm s (set_owner s r s.current) refl refl)
  | inr (o, held) ↦ elim (Bool-cases (ltb (s.process o).prio (s.process me).prio)) [
    | inr high ↦
        let e : pip_acquire r s ≡ block r s =
          simp (lt→ltb r nr_resources l, held, run.current, high) in
        rw e (block-Calm s r me run)
    | inl low ↦
        let v = (s.process me).prio in
        let e : pip_acquire r s ≡ block r (set_prio s o v) =
          simp (lt→ltb r nr_resources l, held, run.current, low) in
        rw e (
          after-Calm s (set_prio s o v) (block r (set_prio s o v)) (set_prio-Calm s o v)
            (block-Calm (set_prio s o v) r me (set_prio-Running s o v me run)))
  ]
]

wake-Steady :
    (s : System) (r w : ℕ)
    → Queues s
    → has w (s.queue (waitqueue r)) ≡ true
    → Returns (Steady s) (wake r w s)
unfolding wake
wake-Steady s r w q at =
    let waits = q.standing (waitqueue r) w at in
    let s₁ = list_del_init w (waitqueue r) s in
    let s₂ = set_status s₁ w ready in
    let s₃ = set_queue s₂ readyqueue (s₂.queue readyqueue ++ w ∷ []) in
    let e : wake r w s ≡ ok s₃ =
      rw (waits, linked-false w s₂ (Unlinked-remove s w (waitqueue r) q at)) in
    rw e (
      Steady-trans s s₂ s₃
        (Steady-trans s s₁ s₂ (same_processes-Calm s s₁ refl refl).steady (
          set_process-Steady s₁ w (record (s.process w) { status = ready }) (omega arith) refl
            (λ x. absurd (ground (arith, waits, x)))))
        (same_processes-Calm s₂ s₃ refl refl).steady)

-- A waiter is woken, if there is one, in the queues that the release has left alone.
wake_first-Steady :
    (s : System) (r : ℕ) (l : List ℕ)
    → Queues s
    → ((p : ℕ) → has p l ≡ true → has p (s.queue (waitqueue r)) ≡ true)
    → Returns (Steady s) (wake_first r l s)
wake_first-Steady s r [] q at = (same_processes-Calm s s refl refl).steady
wake_first-Steady s r (w ∷ ws) q at = wake-Steady s r w q (at w (ground arith))

wake_highest-Steady :
    (s : System) (r : ℕ) (l : List ℕ)
    → Queues s
    → ((p : ℕ) → has p l ≡ true → has p (s.queue (waitqueue r)) ≡ true)
    → Returns (Steady s) (wake_highest r l s)
wake_highest-Steady s r [] q at = (same_processes-Calm s s refl refl).steady
wake_highest-Steady s r (w ∷ ws) q at =
    let found = select-has (higher_prio s) w (w ∷ ws) in
    wake-Steady s r (select (higher_prio s) w (w ∷ ws)) q
      (at (select (higher_prio s) w (w ∷ ws)) (ground (arith, found)))

owned-Queues : (s : System) (r : ℕ) → Queues s → Queues (set_owner s r none)
owned-Queues s r q = record { distinct = q.distinct; one_head = q.one_head; standing = q.standing }

fcfs_release-Steady :
    (s : System) (r me : ℕ)
    → Running s me
    → r < nr_resources
    → s.owner r ≡ some me
    → Returns (Steady s) (fcfs_release r s)
unfolding fcfs_release
fcfs_release-Steady s r me run l own =
    let t = set_owner s r none in
    let e : fcfs_release r s ≡ wake_first r (s.queue (waitqueue r)) t =
      simp (lt→ltb r nr_resources l, own, run.current, ==_refl me) in
    rw e (
      after-Steady s t (wake_first r (s.queue (waitqueue r)) t)
        (same_processes-Calm s t refl refl).steady
        (wake_first-Steady t r (s.queue (waitqueue r)) (owned-Queues s r run.queues) (λ p h. h)))

prio_release-Steady :
    (s : System) (r me : ℕ)
    → Running s me
    → r < nr_resources
    → s.owner r ≡ some me
    → Returns (Steady s) (prio_release r s)
unfolding prio_release
prio_release-Steady s r me run l own =
    let v = (s.process me).prio_orig in
    let s₁ = set_prio s me v in
    let t = set_owner s₁ r none in
    let e : prio_release r s ≡ wake_highest r (s.queue (waitqueue r)) t =
      simp (lt→ltb r nr_resources l, own, run.current, ==_refl me) in
    rw e (
      after-Steady s t (wake_highest r (s.queue (waitqueue r)) t)
        (Steady-trans s s₁ t (set_prio-Calm s me v).steady
          (same_processes-Calm s₁ t refl refl).steady)
        (wake_highest-Steady t r (s.queue (waitqueue r))
          (owned-Queues s₁ r (set_prio-Running s me v me run).queues) (λ p h. h)))

pub fifo-SteadyLocks : SteadyLocks fifo_scheduler
fifo-SteadyLocks = record { acquire = fcfs_acquire-Calm; release = fcfs_release-Steady }

pub prio-SteadyLocks : SteadyLocks prio_scheduler
prio-SteadyLocks = record { acquire = fcfs_acquire-Calm; release = fcfs_release-Steady }

pub pcp-SteadyLocks : SteadyLocks pcp_scheduler
pcp-SteadyLocks = record { acquire = pcp_acquire-Calm; release = prio_release-Steady }

pub pip-SteadyLocks : SteadyLocks pip_scheduler
pip-SteadyLocks = record { acquire = pip_acquire-Calm; release = prio_release-Steady }
