-- ===== src/Sched/Safety/Acquiring.antt =====
-- __run_current_acquire: the loop over the resources that are due.
use native.Mathlib.Decide.{ℕ_discrete}
use operating_system_pa.Base.{
  All-mono, All-append, ℕ, ◌+◌, ◌<◌, ◌≡◌, ◌≢◌, refl, sym, ap, ◌∙◌, inl, inr, Bool, true, false,
  Option, some, List, [], ◌∷◌, ◌++◌, ◌==◌, ==_refl, All, word, update, Result, ok, Returns,
  Bool-cases, arith, ◌>>=◌,
}
use operating_system_pa.Sched.State.{
  running, ResourceSchedule, Process, System, Scheduler, set_process,
}
use operating_system_pa.Sched.Simulation.{
  set_to_acquire, set_holding, acquire_loop, run_current_acquire,
}
use operating_system_pa.Sched.Sound.{
  Queues, Pending, Held, DistinctIds, ProcessOk, Others, Idle, is_active,
}
use operating_system_pa.Sched.Sound.Linking.{Queues-process}
use operating_system_pa.Sched.Sound.Owners.{Held-owner, Others-set_process}
use operating_system_pa.Sched.Contract.{Running, Taken, Blocked, Acquired, LawfulLocks}
use operating_system_pa.Sched.Safety.{Equipped}

-- The running process may rewrite its own record.
pub Queues-set_self :
    (s : System) (p : ℕ) (x : Process)
    → x.status ≡ (s.process p).status
    → Queues s
    → Queues (set_process s p x)
Queues-set_self s p x e q = Queues-process s (update s.process p x) (λ h r t. ground (arith, e)) q

pub Others-set_self : (s : System) (p : ℕ) (x : Process) → Others s p → Others (set_process s p x) p
Others-set_self s p x others = Others-set_process s p p x (λ ne. absurd (ne refl)) others

pub Running-set_self :
    (s : System) (p : ℕ) (x : Process)
    → x.status ≡ running
    → Running s p
    → Running (set_process s p x) p
Running-set_self s p x e run = record {
  current = run.current;
  status = rw (==_refl p) e;
  queues = Queues-set_self s p x (e ∙ sym run.status) run.queues;
  others = Others-set_self s p x run.others;
}

pub DistinctIds-snoc :
    (e : ResourceSchedule) (l : List ResourceSchedule)
    → DistinctIds l
    → All (λ f. e.resource_id ≢ f.resource_id) l
    → DistinctIds (l ++ e ∷ [])
DistinctIds-snoc e [] d a = (tt, tt)
DistinctIds-snoc e (f ∷ l) d a = (
  All-append (λ g. g.resource_id ≢ f.resource_id) l (e ∷ []) d.0 (a.0, tt),
  DistinctIds-snoc e l d.1 a.1,
)

-- While the loop runs: `kept` stays for later ticks, `rest` is still to be looked at.
pub record Loop (s : System) (p : ℕ) (kept rest : List ResourceSchedule) : Type 0 where
  pub running : Running s p
  pub young : (s.process p).age < (s.process p).lifespan
  pub small : (s.process p).lifespan < word
  pub later : All (Pending ((s.process p).age + 1) (s.process p).lifespan) kept
  pub due : All (Pending (s.process p).age (s.process p).lifespan) rest
  pub held :
      All (Held s.owner p (s.process p).age (s.process p).lifespan) (s.process p).resources_holding
  pub ids : DistinctIds (s.process p).resources_holding

-- How the loop ends.
abbrev pub Acquires : ℕ → Bool × System → Type 0
Acquires p (true, t) = Equipped p t
Acquires p (false, t) = Idle t

finish :
    (s : System) (p : ℕ) (kept : List ResourceSchedule)
    → Loop s p kept []
    → Equipped p (set_to_acquire s p kept)
finish s p kept l = record {
  running = Running-set_self s p _ l.running.status l.running;
  young = rw (==_refl p) l.young;
  small = rw (==_refl p) l.small;
  pending = rw (==_refl p) l.later;
  held = rw (==_refl p) l.held;
  ids = rw (==_refl p) l.ids;
}

pub skip :
    (s : System) (p : ℕ) (kept rest : List ResourceSchedule) (rs : ResourceSchedule)
    → rs.at ≢ (s.process p).age
    → Loop s p kept (rs ∷ rest)
    → Loop s p (kept ++ rs ∷ []) rest
skip s p kept rest rs ne l = record {
  running = l.running;
  young = l.young;
  small = l.small;
  later =
      All-append (Pending ((s.process p).age + 1) (s.process p).lifespan) kept (rs ∷ []) l.later
        ((l.due.0.0, l.due.0.1, omega (arith, l.due.0.2), l.due.0.3), tt);
  due = l.due.1;
  held = l.held;
  ids = l.ids;
}

-- The new owner has all that it had, and the new resource.
pub taken :
    (s s' : System) (p : ℕ) (kept rest : List ResourceSchedule) (rs : ResourceSchedule)
    → rs.at ≡ (s.process p).age
    → Loop s p kept (rs ∷ rest)
    → Taken s rs.resource_id p s'
    → Loop (set_holding s' p ((s'.process p).resources_holding ++ rs ∷ [])) p kept rest
taken s s' p kept rest rs now l t =
    let run' : Running s' p = record {
      current = t.current ∙ l.running.current;
      status = sym t.alike.status ∙ l.running.status;
      queues = t.queues;
      others = t.others;
    } in
    let own : (r : ℕ) → s.owner r ≡ some p → s'.owner r ≡ some p =
      λ r e. ap (λ (f : ℕ → Option ℕ). f r) t.owner ∙ ground (arith, e, t.free) in
    let new : s'.owner rs.resource_id ≡ some p =
      ap (λ (f : ℕ → Option ℕ). f rs.resource_id) t.owner ∙ ground arith in
    record {
      running = Running-set_self s' p _ run'.status run';
      young = rw (==_refl p, ← t.alike.age, ← t.alike.lifespan) l.young;
      small = rw (==_refl p, ← t.alike.lifespan) l.small;
      later = rw (==_refl p, ← t.alike.age, ← t.alike.lifespan) l.later;
      due = rw (==_refl p, ← t.alike.age, ← t.alike.lifespan) l.due.1;
      held =
          rw (==_refl p, ← t.alike.age, ← t.alike.lifespan, ← t.alike.holding)
            (All-append (Held s'.owner p (s.process p).age (s.process p).lifespan)
              (s.process p).resources_holding (rs ∷ [])
              (Held-owner s.owner s'.owner p _ _ _ own l.held)
              ((l.due.0.0, l.due.0.1, omega (arith, l.due.0.3), new), tt));
      ids =
          rw (==_refl p, ← t.alike.holding)
            (DistinctIds-snoc rs (s.process p).resources_holding l.ids (
              All-mono (Held s.owner p (s.process p).age (s.process p).lifespan)
                (λ f. rs.resource_id ≢ f.resource_id) (s.process p).resources_holding
                (λ f h e. ground (arith, h.3, t.free, e)) l.held));
    }

-- A blocked process keeps its list and waits.
blocked :
    (s s' : System) (p : ℕ) (kept rest : List ResourceSchedule) (rs : ResourceSchedule)
    → Loop s p kept (rs ∷ rest)
    → Blocked s p s'
    → Idle (set_to_acquire s' p (kept ++ rs ∷ rest))
blocked s s' p kept rest rs l b = record {
  sound = record {
    queues = Queues-set_self s' p _ refl b.queues;
    processes = λ q. elim (ℕ_discrete q p) [
      | no other ↦ others' q other
      | yes same ↦ rw (same, ==_refl p) mine
    ];
  };
  active = λ c e. current c (sym e ∙ b.current ∙ l.running.current);
}
  where
    others' :
        (q : ℕ) → q ≢ p → ProcessOk s'.owner q ((set_to_acquire s' p (kept ++ rs ∷ rest)).process q)
    others' q other = Others-set_self s' p _ b.others q other

    mine : ProcessOk s'.owner p (record (s'.process p) { resources_to_acquire = kept ++ rs ∷ rest })
    mine = record {
      alive = λ h. rw (← b.alike.age, ← b.alike.lifespan) l.young;
      grown = rw (← b.alike.age, ← b.alike.lifespan) (omega (arith, l.young));
      small = rw (← b.alike.lifespan) l.small;
      pending =
          rw (← b.alike.age, ← b.alike.lifespan)
            (All-append (Pending (s.process p).age (s.process p).lifespan) kept (rs ∷ rest)
              (All-mono (Pending ((s.process p).age + 1) (s.process p).lifespan)
                (Pending (s.process p).age (s.process p).lifespan) kept
                (λ e h. (h.0, h.1, omega (arith, h.2), h.3)) l.later)
              l.due);
      held = rw (← b.alike.age, ← b.alike.lifespan, ← b.alike.holding, b.owner) l.held;
      ids = rw (← b.alike.holding) l.ids;
    }

    current :
        (c : ℕ)
        → some c ≡ some p
        → is_active ((set_to_acquire s' p (kept ++ rs ∷ rest)).process c).status ≡ true
    current c e = let same : c ≡ p = ground arith in rw (same, ==_refl p, ← b.alike.status) refl

module _ (sched : Scheduler) (law : LawfulLocks sched) (p : ℕ) where
  acquire_due :
      (kept rest : List ResourceSchedule) (rs : ResourceSchedule) (s : System)
      → rs.at ≡ (s.process p).age
      → Loop s p kept (rs ∷ rest)
      → ((t : System)
          → Loop t p kept rest
          → Returns (Acquires p) (acquire_loop sched p kept rest t))
      → (res : Result (Bool × System)) → Returns (Acquired s rs.resource_id p) res
      → Returns (Acquires p) (
          res >>= λ (taken, s'). elim taken [
            | false ↦ ok (false, set_to_acquire s' p (kept ++ rs ∷ rest))
            | true ↦
                acquire_loop sched p kept rest
                  (set_holding s' p ((s'.process p).resources_holding ++ rs ∷ []))
          ])
  acquire_due kept rest rs s now l rec (ok (true, s')) t = rec _ (taken s s' p kept rest rs now l t)
  acquire_due kept rest rs s now l rec (ok (false, s')) b = blocked s s' p kept rest rs l b
  acquire_due kept rest rs s now l rec (Result.fault f) h = h

  acquire_loop-Acquires :
      (kept rest : List ResourceSchedule) (s : System)
      → Loop s p kept rest
      → Returns (Acquires p) (acquire_loop sched p kept rest s)
  unfolding acquire_loop
  acquire_loop-Acquires kept [] s l = finish s p kept l
  acquire_loop-Acquires kept (rs ∷ rest) s l = elim (Bool-cases (rs.at == (s.process p).age)) [
    | inr early ↦
        rw (early, acquire_loop)
          (acquire_loop-Acquires (kept ++ rs ∷ []) rest s (skip s p kept rest rs (ground arith) l))
    | inl now ↦
        rw (now, acquire_loop)
          (acquire_due kept rest rs s (ground arith) l (λ t m. acquire_loop-Acquires kept rest t m)
            (sched.acquire rs.resource_id s) (law.acquire s rs.resource_id p l.running l.due.0.0))
  ]

  pub run_current_acquire-Acquires :
      (s : System)
      → Running s p
      → (s.process p).age < (s.process p).lifespan
      → ProcessOk s.owner p (s.process p)
      → Returns (Acquires p) (run_current_acquire sched p s)
  run_current_acquire-Acquires s run young k =
      acquire_loop-Acquires [] (s.process p).resources_to_acquire s (record {
        running = run;
        young = young;
        small = k.small;
        later = tt;
        due = k.pending;
        held = k.held;
        ids = k.ids;
      })
