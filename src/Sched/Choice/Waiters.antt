-- ===== src/Sched/Choice/Waiters.antt =====
-- Which waiter a release wakes, and what the priority protocols do to priorities.
use operating_system_pa.Base.{
  ℕ, ◌≤◌, ◌<◌, ◌≡◌, ◌≢◌, refl, ap, ◌∙◌, true, none, some, List, [], ◌∷◌, ◌++◌, lt→ltb, ==_refl, has,
  All, Result, ok, Returns, arith, remove,
}
use operating_system_pa.Sched.State.{
  nr_resources, ready, readyqueue, waitqueue, System, set_queue, set_owner, set_status, set_prio,
  list_del_init,
}
use operating_system_pa.Sched.Locking.{
  wake, wake_first, fcfs_release, select, higher_prio, wake_highest, prio_release,
}
use operating_system_pa.Sched.Sound.{Queues}
use operating_system_pa.Sched.Sound.Linking.{linked-false, Unlinked-remove}
use operating_system_pa.Sched.Contract.{Running}
use operating_system_pa.Sched.Contract.Release.{select-has}
use operating_system_pa.Sched.Contract.Acquire.{set_prio-Running}
use operating_system_pa.Sched.Choice.Best.{select-largest}

All-mono-has :
    (P Q : ℕ → Type 0) (l : List ℕ) → ((p : ℕ) → has p l ≡ true → P p → Q p) → All P l → All Q l
All-mono-has P Q [] f a = tt
All-mono-has P Q (x ∷ l) f a =
    (f x (ground arith) a.0, All-mono-has P Q l (λ p h. f p (ground arith)) a.1)

-- The process `w` left the wait queue of `r` and is the last of the ready queue; the other processes
-- have the status, and all but `me` the priority, that they had.
pub record Wakes (s : System) (me r w : ℕ) (s' : System) : Type 0 where
  pub owner : s'.owner r ≡ none
  pub status : (s'.process w).status ≡ ready
  pub waiting : s'.queue (waitqueue r) ≡ remove w (s.queue (waitqueue r))
  pub readied : s'.queue readyqueue ≡ s.queue readyqueue ++ w ∷ []
  pub others : (p : ℕ) → p ≢ w → (s'.process p).status ≡ (s.process p).status
  pub priorities : (p : ℕ) → p ≢ me → (s'.process p).prio ≡ (s.process p).prio

wake-Wakes :
    (s : System) (me r w : ℕ)
    → Queues s
    → s.owner r ≡ none
    → has w (s.queue (waitqueue r)) ≡ true
    → Returns (λ s'. Wakes s me r w s' × ((s'.process me).prio ≡ (s.process me).prio)) (wake r w s)
unfolding wake
wake-Wakes s me r w q o at =
    let waits = q.standing (waitqueue r) w at in
    let s₁ = list_del_init w (waitqueue r) s in
    let s₂ = set_status s₁ w ready in
    let s₃ = set_queue s₂ readyqueue (s₂.queue readyqueue ++ w ∷ []) in
    let e : wake r w s ≡ ok s₃ =
      rw (waits, linked-false w s₂ (Unlinked-remove s w (waitqueue r) q at)) in
    rw e (
      record {
        owner = o;
        status = ground arith;
        waiting = rw (==_refl r);
        readied = refl;
        others = λ p ne. ground arith;
        priorities = λ p ne. ground arith;
      },
      ground arith,
    )

drop-Queues :
    (s : System) (me r : ℕ) (v : ℕ) → Running s me → Queues (set_owner (set_prio s me v) r none)
drop-Queues s me r v run =
    let run₁ = set_prio-Running s me v me run in
    record {
      distinct = run₁.queues.distinct;
      one_head = run₁.queues.one_head;
      standing = run₁.queues.standing;
    }

-- PCP and PIP: a release of an existing resource, with waiters, by its running owner puts its
-- priority back to the original one, frees the resource and wakes a waiter of the highest
-- priority, which moves from the wait queue to the end of the ready queue.
pub prio_release-highest :
    (s : System) (r me w : ℕ) (ws : List ℕ)
    → Running s me
    → r < nr_resources
    → s.owner r ≡ some me
    → s.queue (waitqueue r) ≡ w ∷ ws
    → Returns
        (λ s'.
          (q : ℕ) × Wakes s me r q s'
          × (has q (w ∷ ws) ≡ true)
          × All (λ p. (s.process p).prio ≤ (s.process q).prio) (w ∷ ws)
          × ((s'.process me).prio ≡ (s.process me).prio_orig))
        (prio_release r s)
unfolding prio_release
prio_release-highest s r me w ws run l own e =
    let s₁ = set_prio s me (s.process me).prio_orig in
    let t = set_owner s₁ r none in
    let step : prio_release r s ≡ wake_highest r (s.queue (waitqueue r)) t =
      simp (lt→ltb r nr_resources l, own, run.current, ==_refl me) in
    let q : ℕ = select (higher_prio t) w (w ∷ ws) in
    let among : has q (w ∷ ws) ≡ true = twice q (select-has (higher_prio t) w (w ∷ ws)) in
    let at : has q (t.queue (waitqueue r)) ≡ true = ap (has q) e ∙ among in
    let woken =
      wake-Wakes t me r q (drop-Queues s me r (s.process me).prio_orig run) (ground arith) at in
    let best = select-largest (λ p. (t.process p).prio) w (w ∷ ws) in
    let mine : q ≢ me =
      ground (arith, run.queues.standing (waitqueue r) q (ap (has q) e ∙ among), run.status) in
    let moved : (p : ℕ) → p ≢ me → (t.process p).prio ≡ (s.process p).prio = λ p ne. ground arith in
    let apart : (p : ℕ) → has p (w ∷ ws) ≡ true → p ≢ me =
      λ p h. ground (arith, run.queues.standing (waitqueue r) p (ap (has p) e ∙ h), run.status) in
    let all : All (λ p. (s.process p).prio ≤ (s.process q).prio) (w ∷ ws) =
      All-mono-has (λ p. (t.process p).prio ≤ (t.process q).prio)
        (λ p. (s.process p).prio ≤ (s.process q).prio) (w ∷ ws)
        (λ p h le. omega (arith, moved p (apart p h), moved q mine, le)) best.1 in
    let to_wake : prio_release r s ≡ wake r q t =
      step ∙ ap (λ (l : List ℕ). wake_highest r l t) e in
    rw to_wake (finish q among all mine (wake r q t) woken)
  where
    t : System
    t = set_owner (set_prio s me (s.process me).prio_orig) r none

    finish :
        (q : ℕ)
        → has q (w ∷ ws) ≡ true
        → All (λ p. (s.process p).prio ≤ (s.process q).prio) (w ∷ ws)
        → q ≢ me
        → (res : Result System)
        → Returns (λ s'. Wakes t me r q s' × ((s'.process me).prio ≡ (t.process me).prio)) res
        → Returns
            (λ s'.
              (q : ℕ) × Wakes s me r q s'
              × (has q (w ∷ ws) ≡ true)
              × All (λ p. (s.process p).prio ≤ (s.process q).prio) (w ∷ ws)
              × ((s'.process me).prio ≡ (s.process me).prio_orig))
            res
    finish q among all mine (ok s') k = (
      q,
      record {
        owner = k.0.owner;
        status = k.0.status;
        waiting = k.0.waiting;
        readied = k.0.readied;
        others = λ p ne. k.0.others p ne ∙ ground arith;
        priorities = λ p ne. k.0.priorities p ne ∙ ground arith;
      },
      among,
      all,
      ground (arith, k.1),
    )
    finish q among all mine (Result.fault f) k = k

    twice : (q : ℕ) → has q (w ∷ w ∷ ws) ≡ true → has q (w ∷ ws) ≡ true
    twice q h = ground arith

-- The default release of an existing resource, with waiters, by its running owner frees the
-- resource and wakes the waiter that came first, whatever the priorities, and changes no priority.
pub fcfs_release-first :
    (s : System) (r me w : ℕ) (ws : List ℕ)
    → Running s me
    → r < nr_resources
    → s.owner r ≡ some me
    → s.queue (waitqueue r) ≡ w ∷ ws
    → Returns
        (λ s'. Wakes s me r w s' × ((s'.process me).prio ≡ (s.process me).prio))
        (fcfs_release r s)
unfolding fcfs_release
fcfs_release-first s r me w ws run l own e =
    let t = set_owner s r none in
    let q' : Queues t = record {
      distinct = run.queues.distinct;
      one_head = run.queues.one_head;
      standing = run.queues.standing;
    } in
    let step : fcfs_release r s ≡ wake_first r (s.queue (waitqueue r)) t =
      simp (lt→ltb r nr_resources l, own, run.current, ==_refl me) in
    let to_wake : fcfs_release r s ≡ wake r w t = step ∙ ap (λ (k : List ℕ). wake_first r k t) e in
    rw to_wake
      (again (wake r w t) (wake-Wakes t me r w q' (ground arith) (ap (has w) e ∙ ground arith)))
  where
    again :
        (res : Result System)
        → Returns
            (λ s'.
              Wakes (set_owner s r none) me r w s' × ((s'.process me).prio ≡ (s.process me).prio))
            res
        → Returns (λ s'. Wakes s me r w s' × ((s'.process me).prio ≡ (s.process me).prio)) res
    again (ok s') k = (
      record {
        owner = k.0.owner;
        status = k.0.status;
        waiting = k.0.waiting;
        readied = k.0.readied;
        others = k.0.others;
        priorities = k.0.priorities;
      },
      k.1,
    )
    again (Result.fault f) k = k
