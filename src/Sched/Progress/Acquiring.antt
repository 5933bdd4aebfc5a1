-- ===== src/Sched/Progress/Acquiring.antt =====
-- __run_current_acquire ends with nobody's work grown, and if it fails its process waits.
use operating_system_pa.Base.{
  ℕ, ◌<◌, ◌≡◌, sym, inl, inr, Bool, true, false, List, [], ◌∷◌, ◌++◌, ◌==◌, ==_refl, Result, ok,
  Returns, Bool-cases, arith, ◌>>=◌,
}
use operating_system_pa.Sched.State.{wait, ResourceSchedule, System, Scheduler}
use operating_system_pa.Sched.Simulation.{
  set_to_acquire, set_holding, acquire_loop, run_current_acquire,
}
use operating_system_pa.Sched.Sound.{ProcessOk}
use operating_system_pa.Sched.Contract.{Running, Acquired, LawfulLocks}
use operating_system_pa.Sched.Safety.Acquiring.{Loop, skip, taken}
use operating_system_pa.Sched.Progress.{
  Calm, SteadyLocks, Calm-trans, set_to_acquire-Calm, set_holding-Calm,
}

-- Nobody's work has grown; the process waits unless it has got all that was due.
pub record Pauses (p : ℕ) (s : System) (r : Bool × System) : Type 0 where
  pub calm : Calm s r.1
  pub waits : r.0 ≡ false → (r.1.process p).status ≡ wait

after-Pauses :
    (p : ℕ) (s t : System) (res : Result (Bool × System))
    → Calm s t
    → Returns (Pauses p t) res
    → Returns (Pauses p s) res
after-Pauses p s t (ok r) c k = record { calm = Calm-trans s t r.1 c k.calm; waits = k.waits }
after-Pauses p s t (Result.fault f) c k = k

module _ (sched : Scheduler) (law : LawfulLocks sched) (steady : SteadyLocks sched) (p : ℕ) where
  acquire_due :
      (kept rest : List ResourceSchedule) (rs : ResourceSchedule) (s : System)
      → rs.at ≡ (s.process p).age
      → Loop s p kept (rs ∷ rest)
      → ((t : System)
          → Loop t p kept rest
          → Returns (Pauses p t) (acquire_loop sched p kept rest t))
      → (res : Result (Bool × System)) → Returns (Acquired s rs.resource_id p) res
      → Returns (λ (b, t). Calm s t) res
      → Returns (Pauses p s) (
          res >>= λ (taken, s'). elim taken [
            | false ↦ ok (false, set_to_acquire s' p (kept ++ rs ∷ rest))
            | true ↦
                acquire_loop sched p kept rest
                  (set_holding s' p ((s'.process p).resources_holding ++ rs ∷ []))
          ])
  acquire_due kept rest rs s now l rec (ok (true, s')) t c =
      let l' = (s'.process p).resources_holding ++ rs ∷ [] in
      after-Pauses p s (set_holding s' p l') (acquire_loop sched p kept rest (set_holding s' p l'))
        (Calm-trans s s' (set_holding s' p l') c (set_holding-Calm s' p l'))
        (rec (set_holding s' p l') (taken s s' p kept rest rs now l t))
  acquire_due kept rest rs s now l rec (ok (false, s')) b c = record {
    calm =
        Calm-trans s s' (set_to_acquire s' p (kept ++ rs ∷ rest)) c
          (set_to_acquire-Calm s' p (kept ++ rs ∷ rest));
    waits = λ e. rw (==_refl p) (sym b.alike.status);
  }
  acquire_due kept rest rs s now l rec (Result.fault f) h c = h

  acquire_loop-Pauses :
      (kept rest : List ResourceSchedule) (s : System)
      → Loop s p kept rest
      → Returns (Pauses p s) (acquire_loop sched p kept rest s)
  unfolding acquire_loop
  acquire_loop-Pauses kept [] s l = record {
    calm = set_to_acquire-Calm s p kept;
    waits = λ e. absurd (ground arith);
  }
  acquire_loop-Pauses kept (rs ∷ rest) s l = elim (Bool-cases (rs.at == (s.process p).age)) [
    | inr early ↦
        rw (early, acquire_loop)
          (acquire_loop-Pauses (kept ++ rs ∷ []) rest s (skip s p kept rest rs (ground arith) l))
    | inl now ↦
        rw (now, acquire_loop)
          (acquire_due kept rest rs s (ground arith) l (λ t m. acquire_loop-Pauses kept rest t m)
            (sched.acquire rs.resource_id s) (law.acquire s rs.resource_id p l.running l.due.0.0)
            (steady.acquire s rs.resource_id p l.running l.due.0.0))
  ]

  pub run_current_acquire-Pauses :
      (s : System)
      → Running s p
      → (s.process p).age < (s.process p).lifespan
      → ProcessOk s.owner p (s.process p)
      → Returns (Pauses p s) (run_current_acquire sched p s)
  run_current_acquire-Pauses s run young k =
      acquire_loop-Pauses [] (s.process p).resources_to_acquire s (record {
        running = run;
        young = young;
        small = k.small;
        later = tt;
        due = k.pending;
        held = k.held;
        ids = k.ids;
      })
