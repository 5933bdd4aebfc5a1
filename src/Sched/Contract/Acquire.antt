-- ===== src/Sched/Contract/Acquire.antt =====
-- The acquire callbacks of pa2.c meet the contract.
use operating_system_pa.Base.{
  ℕ, ◌<◌, ◌≡◌, refl, inl, inr, Bool, true, false, none, some, [], ◌∷◌, ◌++◌, ltb, lt→ltb, has,
  Result, ok, Returns, Bool-cases, Option-cases, arith,
}
use operating_system_pa.Sched.State.{
  nr_resources, max_prio, running, wait, Head, readyqueue, forkqueue, waitqueue, System, set_queue,
  set_owner, set_status, set_prio, linked,
}
use operating_system_pa.Sched.Locking.{block, fcfs_acquire, pcp_acquire, inherit, pip_acquire}
use operating_system_pa.Sched.Sound.{status_in, Queues, Unlinked, Alike}
use operating_system_pa.Sched.Sound.Linking.{
  linked-false, Unlinked-linked, Queues-process, Queues-set_process, Queues-append,
}
use operating_system_pa.Sched.Sound.Owners.{ProcessOk-Alike, Others-owner, Others-set_process}
use operating_system_pa.Sched.Contract.{Running, Taken, Blocked, Acquired}

pub running-Unlinked :
    (s : System) (p : ℕ) → Queues s → (s.process p).status ≡ running → Unlinked p s
running-Unlinked s p q e = Unlinked-linked p s q f
  where
    f : (h : Head) → (s.process p).status ≡ status_in h → has p (s.queue h) ≡ false
    f readyqueue k = absurd (ground (arith, e))
    f forkqueue k = absurd (ground (arith, e))
    f (waitqueue r) k = absurd (ground (arith, e))

-- A change of a priority.
pub set_prio-Alike : (s : System) (p v q : ℕ) → Alike (s.process q) ((set_prio s p v).process q)
set_prio-Alike s p v q = ground arith

pub set_prio-Running : (s : System) (p v me : ℕ) → Running s me → Running (set_prio s p v) me
set_prio-Running s p v me run = record {
  current = run.current;
  status = ground (arith, run.status);
  queues = Queues-process s _ (λ h q t. ground arith) run.queues;
  others =
      Others-set_process s me p _
        (λ ne.
          ProcessOk-Alike s.owner p (s.process p) _
            (record {
              status = refl;
              age = refl;
              lifespan = refl;
              to_acquire = refl;
              holding = refl;
            })
            (run.others p ne))
        run.others;
}

-- Taking a free resource.
take-Taken :
    (s : System) (r me : ℕ)
    → Running s me
    → s.owner r ≡ none
    → Taken s r me (set_owner s r s.current)
take-Taken s r me run free = record {
  free = free;
  owner = rw run.current refl;
  current = refl;
  alike = record { status = refl; age = refl; lifespan = refl; to_acquire = refl; holding = refl };
  queues = record {
    distinct = run.queues.distinct;
    one_head = run.queues.one_head;
    standing = run.queues.standing;
  };
  others = Others-owner s me r s.current (λ p ne e. ground arith) run.others;
}

block-Blocked : (s : System) (r me : ℕ) → Running s me → Returns (Acquired s r me) (block r s)
unfolding block linked
block-Blocked s r me run =
    let apart = running-Unlinked s me run.queues run.status in
    let s₁ = set_status s me wait in
    let q₁ : Queues s₁ = Queues-set_process s me _ apart run.queues in
    let s₂ = set_queue s₁ (waitqueue r) (s₁.queue (waitqueue r) ++ me ∷ []) in
    let e : block r s ≡ ok (false, s₂) = simp (run.current, linked-false me s₁ apart) in
    rw e (record {
      owner = refl;
      current = refl;
      alike = record {
        status = ground arith;
        age = ground arith;
        lifespan = ground arith;
        to_acquire = ground arith;
        holding = ground arith;
      };
      queues = Queues-append s₁ me (waitqueue r) apart (ground arith) q₁;
      others = Others-set_process s me me _ (λ ne. absurd (ne refl)) run.others;
    })

pub fcfs_acquire-Acquired :
    (s : System) (r me : ℕ)
    → Running s me
    → r < nr_resources
    → Returns (Acquired s r me) (fcfs_acquire r s)
unfolding fcfs_acquire
fcfs_acquire-Acquired s r me run l = elim (Option-cases (s.owner r)) [
  | inl free ↦ rw (lt→ltb r nr_resources l, free) (take-Taken s r me run free)
  | inr (o, held) ↦ rw (lt→ltb r nr_resources l, held) (block-Blocked s r me run)
]

pub pcp_acquire-Acquired :
    (s : System) (r me : ℕ)
    → Running s me
    → r < nr_resources
    → Returns (Acquired s r me) (pcp_acquire r s)
unfolding pcp_acquire
pcp_acquire-Acquired s r me run l = elim (Option-cases (s.owner r)) [
  | inl free ↦
      let t =
        take-Taken (set_prio s me max_prio) r me (set_prio-Running s me max_prio me run) free in
      let s' = set_prio (set_owner s r s.current) me max_prio in
      let e : pcp_acquire r s ≡ ok (true, s') = simp (lt→ltb r nr_resources l, free, run.current) in
      rw e (record {
        free = free;
        owner = t.owner;
        current = refl;
        alike = set_prio-Alike s me max_prio me;
        queues = record {
          distinct = t.queues.distinct;
          one_head = t.queues.one_head;
          standing = t.queues.standing;
        };
        others = t.others;
      })
  | inr (o, held) ↦ rw (lt→ltb r nr_resources l, held) (block-Blocked s r me run)
]

pub pip_acquire-Acquired :
    (s : System) (r me : ℕ)
    → Running s me
    → r < nr_resources
    → Returns (Acquired s r me) (pip_acquire r s)
unfolding pip_acquire inherit
pip_acquire-Acquired s r me run l = elim (Option-cases (s.owner r)) [
  | inl free ↦ rw (lt→ltb r nr_resources l, free) (take-Taken s r me run free)
  | inr (o, held) ↦ elim (Bool-cases (ltb (s.process o).prio (s.process me).prio)) [
    | inr high ↦
        let e : pip_acquire r s ≡ block r s =
          simp (lt→ltb r nr_resources l, held, run.current, high) in
        rw e (block-Blocked s r me run)
    | inl low ↦
        let v = (s.process me).prio in
        let e : pip_acquire r s ≡ block r (set_prio s o v) =
          simp (lt→ltb r nr_resources l, held, run.current, low) in
        rw e (
          weaken o v (block r (set_prio s o v))
            (block-Blocked (set_prio s o v) r me (set_prio-Running s o v me run)) held)
  ]
]
  where
    step : (o v : ℕ) (s' : System) → Blocked (set_prio s o v) me s' → Blocked s me s'
    step o v s' b = record {
      owner = b.owner;
      current = b.current;
      alike = record {
        status = b.alike.status;
        age = ground (arith, b.alike.age);
        lifespan = ground (arith, b.alike.lifespan);
        to_acquire = ground (arith, b.alike.to_acquire);
        holding = ground (arith, b.alike.holding);
      };
      queues = b.queues;
      others = b.others;
    }

    weaken :
        (o v : ℕ) (res : Result (Bool × System))
        → Returns (Acquired (set_prio s o v) r me) res
        → s.owner r ≡ some o
        → Returns (Acquired s r me) res
    weaken o v (ok (true, s')) t held = absurd (ground (arith, t.free))
    weaken o v (ok (false, s')) b held = step o v s' b
    weaken o v (Result.fault f) b held = b
