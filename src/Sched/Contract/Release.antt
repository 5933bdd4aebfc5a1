-- ===== src/Sched/Contract/Release.antt =====
-- The release callbacks of pa2.c meet the contract.
use operating_system_pa.Base.{
  ℕ, ◌<◌, ◌≡◌, ◌≢◌, refl, ◌∙◌, Bool, true, Option, none, some, List, [], ◌∷◌, ◌++◌, lt→ltb, ==_refl,
  if◌then◌else◌, has, update, Result, ok, Returns, arith,
}
use operating_system_pa.Sched.State.{
  nr_resources, ready, wait, Process, readyqueue, waitqueue, System, set_queue, set_owner,
  set_status, set_prio, list_del_init,
}
use operating_system_pa.Sched.Locking.{
  wake, wake_first, fcfs_release, select, higher_prio, wake_highest, prio_release,
}
use operating_system_pa.Sched.Sound.{Queues, ProcessOk, Others, Alike}
use operating_system_pa.Sched.Sound.Linking.{
  linked-false, Queues-set_process, Queues-remove, Unlinked-remove, Queues-append,
}
use operating_system_pa.Sched.Sound.Owners.{Others-owner, Others-set_process}
use operating_system_pa.Sched.Contract.Acquire.{set_prio-Alike, set_prio-Running}
use operating_system_pa.Sched.Contract.{Running, Released}

-- What waking leaves.
record Woken (s : System) (me : ℕ) (s' : System) : Type 0 where
  owner : s'.owner ≡ s.owner
  current : s'.current ≡ s.current
  same : s'.process me ≡ s.process me
  queues : Queues s'
  others : Others s' me

woken-ok :
    (owner : ℕ → Option ℕ) (w : ℕ) (x : Process)
    → x.status ≡ wait
    → ProcessOk owner w x
    → ProcessOk owner w (record x { status = ready })
woken-ok owner w x e k = record {
  alive = λ h. k.alive (rw e refl);
  grown = k.grown;
  small = k.small;
  pending = k.pending;
  held = k.held;
  ids = k.ids;
}

wake-Woken :
    (s : System) (r w me : ℕ)
    → Running s me
    → has w (s.queue (waitqueue r)) ≡ true
    → Returns (Woken s me) (wake r w s)
unfolding wake
wake-Woken s r w me run at =
    let waits = run.queues.standing (waitqueue r) w at in
    let apart : me ≢ w = ground (arith, run.status, waits) in
    let s₁ = list_del_init w (waitqueue r) s in
    let q₁ = Queues-remove s w (waitqueue r) run.queues in
    let u₁ = Unlinked-remove s w (waitqueue r) run.queues at in
    let s₂ = set_status s₁ w ready in
    let q₂ : Queues s₂ = Queues-set_process s₁ w _ u₁ q₁ in
    let s₃ = set_queue s₂ readyqueue (s₂.queue readyqueue ++ w ∷ []) in
    let e : wake r w s ≡ ok s₃ = rw (waits, linked-false w s₂ u₁) in
    rw e (record {
      owner = refl;
      current = refl;
      same = ground arith;
      queues = Queues-append s₂ w readyqueue u₁ (ground arith) q₂;
      others =
          Others-set_process s me w (record (s.process w) { status = ready })
            (λ ne. woken-ok s.owner w (s.process w) waits (run.others w ne)) run.others;
    })

none-Woken : (s : System) (me : ℕ) → Running s me → Woken s me s
none-Woken s me run = record {
  owner = refl;
  current = refl;
  same = refl;
  queues = run.queues;
  others = run.others;
}

wake_first-Woken :
    (s : System) (r me : ℕ) (l : List ℕ)
    → Running s me
    → ((p : ℕ) → has p l ≡ true → has p (s.queue (waitqueue r)) ≡ true)
    → Returns (Woken s me) (wake_first r l s)
wake_first-Woken s r me [] run at = none-Woken s me run
wake_first-Woken s r me (w ∷ ws) run at = wake-Woken s r w me run (at w (ground arith))

-- The loop's result is the process it began with or one of the list.
pub select-has :
    (better : ℕ → ℕ → Bool) (b : ℕ) (l : List ℕ) → has (select better b l) (b ∷ l) ≡ true
unfolding select
select-has better b [] = ground arith
select-has better b (p ∷ ps) = ground (arith, select-has better (if better p b then p else b) ps)

wake_highest-Woken :
    (s : System) (r me : ℕ) (l : List ℕ)
    → Running s me
    → ((p : ℕ) → has p l ≡ true → has p (s.queue (waitqueue r)) ≡ true)
    → Returns (Woken s me) (wake_highest r l s)
wake_highest-Woken s r me [] run at = none-Woken s me run
wake_highest-Woken s r me (w ∷ ws) run at =
    let found = select-has (higher_prio s) w (w ∷ ws) in
    wake-Woken s r (select (higher_prio s) w (w ∷ ws)) me run
      (at (select (higher_prio s) w (w ∷ ws)) (ground (arith, found)))

-- Giving up an owned resource.
drop-Running :
    (s : System) (r me : ℕ) → Running s me → s.owner r ≡ some me → Running (set_owner s r none) me
drop-Running s r me run own = record {
  current = run.current;
  status = run.status;
  queues = record {
    distinct = run.queues.distinct;
    one_head = run.queues.one_head;
    standing = run.queues.standing;
  };
  others = Others-owner s me r none (λ p ne e. ne (ground (arith, own, e))) run.others;
}

released :
    (s t : System) (r me : ℕ) (res : Result System)
    → t.owner ≡ update s.owner r none
    → t.current ≡ s.current
    → Alike (s.process me) (t.process me)
    → Returns (Woken t me) res
    → Returns (Released s r me) res
released s t r me (ok s') o c a w = record {
  owner = w.owner ∙ o;
  current = w.current ∙ c;
  alike = rw w.same a;
  queues = w.queues;
  others = w.others;
}
released s t r me (Result.fault f) o c a w = w

pub fcfs_release-Released :
    (s : System) (r me : ℕ)
    → Running s me
    → r < nr_resources
    → s.owner r ≡ some me
    → Returns (Released s r me) (fcfs_release r s)
unfolding fcfs_release
fcfs_release-Released s r me run l own =
    let t = set_owner s r none in
    let e : fcfs_release r s ≡ wake_first r (s.queue (waitqueue r)) t =
      simp (lt→ltb r nr_resources l, own, run.current, ==_refl me) in
    rw e (
      released s t r me (wake_first r (s.queue (waitqueue r)) t) refl refl
        (record { status = refl; age = refl; lifespan = refl; to_acquire = refl; holding = refl })
        (wake_first-Woken t r me (s.queue (waitqueue r)) (drop-Running s r me run own) (λ p h. h)))

pub prio_release-Released :
    (s : System) (r me : ℕ)
    → Running s me
    → r < nr_resources
    → s.owner r ≡ some me
    → Returns (Released s r me) (prio_release r s)
unfolding prio_release
prio_release-Released s r me run l own =
    let s₁ = set_prio s me (s.process me).prio_orig in
    let t = set_owner s₁ r none in
    let run₁ = set_prio-Running s me (s.process me).prio_orig me run in
    let e : prio_release r s ≡ wake_highest r (s.queue (waitqueue r)) t =
      simp (lt→ltb r nr_resources l, own, run.current, ==_refl me) in
    rw e (
      released s t r me (wake_highest r (s.queue (waitqueue r)) t) refl refl
        (set_prio-Alike s me (s.process me).prio_orig me)
        (wake_highest-Woken t r me (s.queue (waitqueue r)) (drop-Running s₁ r me run₁ own)
          (λ p h. h)))
