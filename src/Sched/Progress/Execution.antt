-- ===== src/Sched/Progress/Execution.antt =====
-- A process that has had the processor has run a tick or has been blocked.
use operating_system_pa.Base.{
  ℕ, ◌+◌, ◌≤◌, ◌<◌, ◌≡◌, refl, ap, Bool, true, false, some, ==_refl, inc, if◌then◌else◌, Result, ok,
  Returns, Returns-both, arith, ◌>>=◌,
}
use operating_system_pa.Sched.State.{ready, running, exit, System, Scheduler, set_status}
use operating_system_pa.Sched.Simulation.{run_current_acquire, run_current_release, grow, execute}
use operating_system_pa.Sched.Sound.{ProcessOk, is_alive}
use operating_system_pa.Sched.Sound.Linking.{linked-false}
use operating_system_pa.Sched.Contract.{LawfulLocks}
use operating_system_pa.Sched.Safety.{Staged, Equipped}
use operating_system_pa.Sched.Safety.Acquiring.{Acquires, run_current_acquire-Acquires}
use operating_system_pa.Sched.Safety.Rounds.{start-Running, grow-Loop}
use operating_system_pa.Sched.Progress.{
  remaining, Steady, Calm, SteadyLocks, Steady-trans, Calm-trans, set_process-Steady,
  set_status-Calm,
}
use operating_system_pa.Sched.Progress.Acquiring.{Pauses, run_current_acquire-Pauses}
use operating_system_pa.Sched.Progress.Releasing.{run_current_release-Steady}
use operating_system_pa.Sched.Progress.Work.{
  life-Steady, life-drop, active-drop, Lessens, aged, paused,
}

-- A system of at most `m` processes, the last of which starts after `d` ticks at the latest.
pub record Bounded (m d : ℕ) (s : System) : Type 0 where
  pub far : (p : ℕ) → m ≤ p → (s.process p).status ≡ exit
  pub starts : (p : ℕ) → (s.process p).starts_at ≤ d

pub Bounded-Steady : (m d : ℕ) (s t : System) → Steady s t → Bounded m d s → Bounded m d t
Bounded-Steady m d s t k b = record {
  far = λ p l. k.gone p (b.far p l);
  starts = λ p. let e = k.starts p in let l = b.starts p in omega (arith, e, l);
}

-- What a process leaves when it has had the processor.
pub record Ran (m d : ℕ) (s t : System) : Type 0 where
  pub steady : Steady s t
  pub lessens : Lessens m d s t

grow-Steady : (t : System) (p : ℕ) → Equipped p t → Steady t (grow p t)
grow-Steady t p k =
    let up : inc (t.process p).age ≡ (t.process p).age + 1 = omega (arith, k.young, k.small) in
    set_process-Steady t p (record (t.process p) { age = inc (t.process p).age })
      (omega (arith, up)) refl (λ e. e)

grow-drop :
    (t : System) (p : ℕ)
    → Equipped p t
    → remaining ((grow p t).process p) + 1 ≤ remaining (t.process p)
grow-drop t p k =
    let up : inc (t.process p).age ≡ (t.process p).age + 1 = omega (arith, k.young, k.small) in
    rw (==_refl p, up) (omega (arith, k.young))

module _ (sched : Scheduler) (law : LawfulLocks sched) (steady : SteadyLocks sched) (m d : ℕ) where
  -- It has got all that was due, and ages.
  aged-Ran :
      (s t : System) (p : ℕ)
      → p < m
      → Calm s t
      → Equipped p t
      → (res : Result System) → Returns (Steady (grow p t)) res
      → Returns (Ran m d s) res
  aged-Ran s t p l c k (ok u) a =
      let g = grow p t in
      let up = grow-Steady t p k in
      let before = life-Steady m s t c.steady in
      let down = life-drop m t g p l up (grow-drop t p k) in
      let after = life-Steady m g u a in
      record {
        steady = Steady-trans s t u c.steady (Steady-trans t g u up a);
        lessens = aged (omega (arith, before, down, after));
      }
  aged-Ran s t p l c k (Result.fault f) a = a

  after_acquire :
      (s s' : System) (p : ℕ)
      → p < m
      → (s.process p).status ≡ ready
      → Calm s s'
      → (res : Result (Bool × System)) → Returns (λ r. Acquires p r × Pauses p s' r) res
      → Returns (Ran m d s) (
          res >>= λ (acquired, t).
          if acquired then run_current_release sched p (grow p t) else ok t)
  after_acquire s s' p l at c (ok (true, t)) (k, a) =
      aged-Ran s t p l (Calm-trans s s' t c a.calm) k (run_current_release sched p (grow p t))
        (run_current_release-Steady sched law steady p (grow p t) (grow-Loop t p k))
  after_acquire s s' p l at c (ok (false, t)) (k, a) =
      let calm = Calm-trans s s' t c a.calm in
      let waits = a.waits refl in
      record {
        steady = calm.steady;
        lessens =
            paused (life-Steady m s t calm.steady)
              (active-drop m s t p l calm (rw (at, waits) (omega arith)));
      }
  after_acquire s s' p l at c (Result.fault f) h = h

  pub execute-Ran :
      (s : System) (p : ℕ) → Staged (some p) s → p < m → Returns (Ran m d s) (execute sched p s)
  unfolding execute
  execute-Ran s p st l =
      let s' = set_status s p running in
      let run = start-Running s p st in
      let at = st.fit p refl in
      let k = st.sound.processes p in
      let young : (s.process p).age < (s.process p).lifespan = k.alive (ap is_alive at) in
      let own : ProcessOk s'.owner p (s'.process p) = rw (==_refl p) (record {
        alive = λ h. young;
        grown = k.grown;
        small = k.small;
        pending = k.pending;
        held = k.held;
        ids = k.ids;
      }) in
      let young' : (s'.process p).age < (s'.process p).lifespan = rw (==_refl p) young in
      let calm = set_status-Calm s p running (ground (arith, at)) (ground (arith, at)) in
      rw (linked-false p s' (st.apart p refl)) (
        after_acquire s s' p l at calm (run_current_acquire sched p s') (
          Returns-both (Acquires p) (Pauses p s') (run_current_acquire sched p s')
            (run_current_acquire-Acquires sched law p s' run young' own)
            (run_current_acquire-Pauses sched law steady p s' run young' own)))
