-- ===== src/Sched/Safety/Releasing.antt =====
-- __run_current_release: the loop over the resources that the process holds, after it has aged.
use native.Mathlib.Decide.{ℕ_discrete}
use operating_system_pa.Base.{
  All-mono, All-append, ℕ, ◌+◌, ◌-◌, ◌≤◌, ◌<◌, ◌≡◌, ◌≢◌, refl, sym, ap, ◌∙◌, inl, inr, true, Option,
  some, List, [], ◌∷◌, ◌++◌, ◌==◌, ==_refl, All, word, dec, Result, ok, Returns, Bool-cases, arith,
  ◌>>=◌,
}
use operating_system_pa.Sched.State.{nr_resources, ResourceSchedule, System, Scheduler}
use operating_system_pa.Sched.Simulation.{set_holding, release_loop, run_current_release}
use operating_system_pa.Sched.Sound.{Pending, Held, Spares, DistinctIds, ProcessOk, Idle, is_active}
use operating_system_pa.Sched.Contract.{Running, Released, LawfulLocks}
use operating_system_pa.Sched.Safety.Acquiring.{Queues-set_self, Others-set_self, DistinctIds-snoc}

-- A resource whose duration has not been counted down for this tick yet.
abbrev pub Due : (ℕ → Option ℕ) → ℕ → ℕ → ℕ → ResourceSchedule → Type 0
Due owner p age lifespan e =
    (e.resource_id < nr_resources)
    × (1 ≤ e.duration)
    × (age + e.duration ≤ lifespan + 1)
    × (owner e.resource_id ≡ some p)

-- While the loop runs: `kept` is held on, `rest` is still to be counted down.
pub record Loop (s : System) (p : ℕ) (kept rest : List ResourceSchedule) : Type 0 where
  pub running : Running s p
  pub old : 1 ≤ (s.process p).age
  pub grown : (s.process p).age ≤ (s.process p).lifespan
  pub small : (s.process p).lifespan < word
  pub pending :
      All (Pending (s.process p).age (s.process p).lifespan) (s.process p).resources_to_acquire
  pub held : All (Held s.owner p (s.process p).age (s.process p).lifespan) kept
  pub due : All (Due s.owner p (s.process p).age (s.process p).lifespan) rest
  pub held_ids : DistinctIds kept
  pub due_ids : DistinctIds rest
  pub apart : All (λ f. Spares f.resource_id rest) kept

finish :
    (s : System) (p : ℕ) (kept : List ResourceSchedule)
    → Loop s p kept []
    → Idle (set_holding s p kept)
finish s p kept l = record {
  sound = record {
    queues = Queues-set_self s p _ refl l.running.queues;
    processes = λ q. elim (ℕ_discrete q p) [
      | no other ↦ others' q other
      | yes same ↦ rw (same, ==_refl p) mine
    ];
  };
  active = λ c e. current c (sym e ∙ l.running.current);
}
  where
    others' : (q : ℕ) → q ≢ p → ProcessOk s.owner q ((set_holding s p kept).process q)
    others' q other = Others-set_self s p _ l.running.others q other

    mine : ProcessOk s.owner p (record (s.process p) { resources_holding = kept })
    mine = record {
      alive = λ h. absurd (ground (arith, l.running.status));
      grown = l.grown;
      small = l.small;
      pending = l.pending;
      held = l.held;
      ids = l.held_ids;
    }

    current : (c : ℕ) → some c ≡ some p → is_active ((set_holding s p kept).process c).status ≡ true
    current c e = let same : c ≡ p = ground arith in rw (same, ==_refl p, l.running.status) refl

-- Those that differ from the first of the rest.
others_differ :
    (rs : ResourceSchedule) (rest kept : List ResourceSchedule)
    → All (λ f. Spares f.resource_id (rs ∷ rest)) kept
    → All (λ f. rs.resource_id ≢ f.resource_id) kept
others_differ rs rest kept h =
    All-mono (λ f. Spares f.resource_id (rs ∷ rest)) (λ f. rs.resource_id ≢ f.resource_id) kept
      (λ f k. k.0) h

-- The duration goes down and the resource is held on.
pub keep :
    (s : System) (p : ℕ) (kept rest : List ResourceSchedule) (rs : ResourceSchedule)
    → dec rs.duration ≢ 0
    → Loop s p kept (rs ∷ rest)
    → Loop s p (kept ++ (record rs { duration = dec rs.duration }) ∷ []) rest
keep s p kept rest rs ne l =
    let down : dec rs.duration ≡ rs.duration - 1 =
      omega (arith, l.due.0.1, l.due.0.2, l.small, l.old) in
    let rs' : ResourceSchedule = record rs { duration = dec rs.duration } in
    record {
      running = l.running;
      old = l.old;
      grown = l.grown;
      small = l.small;
      pending = l.pending;
      held =
          All-append (Held s.owner p (s.process p).age (s.process p).lifespan) kept (rs' ∷ [])
            l.held
            (
              (
                l.due.0.0,
                omega (arith, down, ne),
                omega (arith, down, l.due.0.2, l.due.0.1),
                l.due.0.3,
              ),
              tt,
            );
      due = l.due.1;
      held_ids = DistinctIds-snoc rs' kept l.held_ids (others_differ rs rest kept l.apart);
      due_ids = l.due_ids.1;
      apart =
          All-append (λ f. Spares f.resource_id rest) kept (rs' ∷ [])
            (All-mono (λ f. Spares f.resource_id (rs ∷ rest)) (λ f. Spares f.resource_id rest) kept
              (λ f k. k.1) l.apart)
            (l.due_ids.0, tt);
    }

-- The resource is given back; the process still owns the others.
pub given_back :
    (s s' : System) (p : ℕ) (kept rest : List ResourceSchedule) (rs : ResourceSchedule)
    → Loop s p kept (rs ∷ rest)
    → Released s rs.resource_id p s'
    → Loop s' p kept rest
given_back s s' p kept rest rs l b =
    let age = (s.process p).age in
    let lifespan = (s.process p).lifespan in
    let still : (r : ℕ) → r ≢ rs.resource_id → s.owner r ≡ some p → s'.owner r ≡ some p =
      λ r ne e. ap (λ (f : ℕ → Option ℕ). f r) b.owner ∙ ground (arith, e) in
    record {
      running = record {
        current = b.current ∙ l.running.current;
        status = sym b.alike.status ∙ l.running.status;
        queues = b.queues;
        others = b.others;
      };
      old = rw (← b.alike.age) l.old;
      grown = rw (← b.alike.age, ← b.alike.lifespan) l.grown;
      small = rw (← b.alike.lifespan) l.small;
      pending = rw (← b.alike.age, ← b.alike.lifespan, ← b.alike.to_acquire) l.pending;
      held =
          rw (← b.alike.age, ← b.alike.lifespan)
            (both (Held s.owner p age lifespan) (λ f. rs.resource_id ≢ f.resource_id)
              (Held s'.owner p age lifespan)
              (λ f h ne. (h.0, h.1, h.2, still f.resource_id (λ e. ne (sym e)) h.3)) kept l.held
              (others_differ rs rest kept l.apart));
      due =
          rw (← b.alike.age, ← b.alike.lifespan)
            (both (Due s.owner p age lifespan) (λ f. f.resource_id ≢ rs.resource_id)
              (Due s'.owner p age lifespan) (λ f h ne. (h.0, h.1, h.2, still f.resource_id ne h.3))
              rest l.due.1 l.due_ids.0);
      held_ids = l.held_ids;
      due_ids = l.due_ids.1;
      apart =
          All-mono (λ f. Spares f.resource_id (rs ∷ rest)) (λ f. Spares f.resource_id rest) kept
            (λ f k. k.1) l.apart;
    }
  where
    both :
        (P Q R : ResourceSchedule → Type 0)
        → ((f : ResourceSchedule) → P f → Q f → R f)
        → (k : List ResourceSchedule) → All P k
        → All Q k
        → All R k
    both P Q R f [] x y = tt
    both P Q R f (g ∷ k) x y = (f g x.0 y.0, both P Q R f k x.1 y.1)

module _ (sched : Scheduler) (law : LawfulLocks sched) (p : ℕ) where
  release_now :
      (kept rest : List ResourceSchedule) (rs : ResourceSchedule) (s : System)
      → Loop s p kept (rs ∷ rest)
      → ((t : System) → Loop t p kept rest → Returns Idle (release_loop sched p kept rest t))
      → (res : Result System) → Returns (Released s rs.resource_id p) res
      → Returns Idle (res >>= λ s'. release_loop sched p kept rest s')
  release_now kept rest rs s l rec (ok s') b = rec s' (given_back s s' p kept rest rs l b)
  release_now kept rest rs s l rec (Result.fault f) h = h

  release_loop-Idle :
      (kept rest : List ResourceSchedule) (s : System)
      → Loop s p kept rest
      → Returns Idle (release_loop sched p kept rest s)
  unfolding release_loop
  release_loop-Idle kept [] s l = finish s p kept l
  release_loop-Idle kept (rs ∷ rest) s l = elim (Bool-cases (dec rs.duration == 0)) [
    | inl over ↦
        rw (over, release_loop)
          (release_now kept rest rs s l (λ t m. release_loop-Idle kept rest t m)
            (sched.release rs.resource_id s)
            (law.release s rs.resource_id p l.running l.due.0.0 l.due.0.3))
    | inr more ↦
        rw (more, release_loop)
          (release_loop-Idle (kept ++ (record rs { duration = dec rs.duration }) ∷ []) rest s
            (keep s p kept rest rs (ground arith) l))
  ]

  pub run_current_release-Idle :
      (s : System)
      → Loop s p [] (s.process p).resources_holding
      → Returns Idle (run_current_release sched p s)
  run_current_release-Idle s l = release_loop-Idle [] (s.process p).resources_holding s l
