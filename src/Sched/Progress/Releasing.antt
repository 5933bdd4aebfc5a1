-- ===== src/Sched/Progress/Releasing.antt =====
-- __run_current_release ends with no process prolonged or revived; it may wake some.
use operating_system_pa.Base.{
  ℕ, inl, inr, List, [], ◌∷◌, ◌++◌, ◌==◌, dec, Result, ok, Returns, Bool-cases, arith, ◌>>=◌,
}
use operating_system_pa.Sched.State.{ResourceSchedule, System, Scheduler}
use operating_system_pa.Sched.Simulation.{release_loop, run_current_release}
use operating_system_pa.Sched.Contract.{Released, LawfulLocks}
use operating_system_pa.Sched.Safety.Releasing.{Loop, keep, given_back}
use operating_system_pa.Sched.Progress.{Steady, SteadyLocks, Steady-trans, set_holding-Calm}

pub after-Steady :
    (s t : System) (res : Result System)
    → Steady s t
    → Returns (Steady t) res
    → Returns (Steady s) res
after-Steady s t (ok u) a k = Steady-trans s t u a k
after-Steady s t (Result.fault f) a k = k

module _ (sched : Scheduler) (law : LawfulLocks sched) (steady : SteadyLocks sched) (p : ℕ) where
  release_now :
      (kept rest : List ResourceSchedule) (rs : ResourceSchedule) (s : System)
      → Loop s p kept (rs ∷ rest)
      → ((t : System) → Loop t p kept rest → Returns (Steady t) (release_loop sched p kept rest t))
      → (res : Result System) → Returns (Released s rs.resource_id p) res
      → Returns (Steady s) res
      → Returns (Steady s) (res >>= λ s'. release_loop sched p kept rest s')
  release_now kept rest rs s l rec (ok s') b c =
      after-Steady s s' (release_loop sched p kept rest s') c
        (rec s' (given_back s s' p kept rest rs l b))
  release_now kept rest rs s l rec (Result.fault f) h c = h

  release_loop-Steady :
      (kept rest : List ResourceSchedule) (s : System)
      → Loop s p kept rest
      → Returns (Steady s) (release_loop sched p kept rest s)
  unfolding release_loop
  release_loop-Steady kept [] s l = (set_holding-Calm s p kept).steady
  release_loop-Steady kept (rs ∷ rest) s l = elim (Bool-cases (dec rs.duration == 0)) [
    | inl over ↦
        rw (over, release_loop)
          (release_now kept rest rs s l (λ t m. release_loop-Steady kept rest t m)
            (sched.release rs.resource_id s)
            (law.release s rs.resource_id p l.running l.due.0.0 l.due.0.3)
            (steady.release s rs.resource_id p l.running l.due.0.0 l.due.0.3))
    | inr more ↦
        rw (more, release_loop)
          (release_loop-Steady (kept ++ (record rs { duration = dec rs.duration }) ∷ []) rest s
            (keep s p kept rest rs (ground arith) l))
  ]

  pub run_current_release-Steady :
      (s : System)
      → Loop s p [] (s.process p).resources_holding
      → Returns (Steady s) (run_current_release sched p s)
  run_current_release-Steady s l = release_loop-Steady [] (s.process p).resources_holding s l
