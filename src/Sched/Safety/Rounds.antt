-- ===== src/Sched/Safety/Rounds.antt =====
-- One round of __do_simulation, and any number of them.
use operating_system_pa.Base.{
  All-mono, ℕ, ◌+◌, ◌<◌, ◌≡◌, refl, ap, inl, inr, Bool, true, false, ◌&&◌, Option, none, some, List,
  [], ◌∷◌, ==_refl, inc, if◌then◌else◌, is_empty, Result, ok, Returns, Bool-cases, arith, ◌>>=◌,
}
use operating_system_pa.Sched.State.{running, readyqueue, forkqueue, System, Scheduler, set_status}
use operating_system_pa.Sched.Simulation.{
  fork_on_schedule, run_current_acquire, run_current_release, retire, grow, execute, Tick, continue,
  finished, tick_on, turn, tick,
}
use operating_system_pa.Sched.Sound.{Held, ProcessOk, Idle, is_alive}
use operating_system_pa.Sched.Sound.Linking.{linked-false, Queues-set_process}
use operating_system_pa.Sched.Contract.{Picked, Running, LawfulLocks, Lawful}
use operating_system_pa.Sched.Safety.{Staged, Equipped}
use operating_system_pa.Sched.Safety.Forking.{fork_on_schedule-Idle}
use operating_system_pa.Sched.Safety.Staging.{retire-Staged}
use operating_system_pa.Sched.Safety.Acquiring.{
  Acquires, Others-set_self, Running-set_self, run_current_acquire-Acquires,
}
use operating_system_pa.Sched.Safety.Releasing.{Due, Loop, run_current_release-Idle}

-- The chosen process gets the processor.
pub start-Running : (s : System) (p : ℕ) → Staged (some p) s → Running (set_status s p running) p
start-Running s p st = record {
  current = st.current;
  status = ground arith;
  queues = Queues-set_process s p _ (st.apart p refl) st.sound.queues;
  others = Others-set_self s p _ (λ q ne. st.sound.processes q);
}

-- The process has aged, and counts down what it holds.
pub grow-Loop :
    (t : System) (p : ℕ)
    → Equipped p t
    → Loop (grow p t) p [] ((grow p t).process p).resources_holding
grow-Loop t p k =
    let up : inc (t.process p).age ≡ (t.process p).age + 1 = omega (arith, k.young, k.small) in
    record {
      running = Running-set_self t p _ k.running.status k.running;
      old = rw (==_refl p, up) (omega arith);
      grown = rw (==_refl p, up) (omega (arith, k.young));
      small = rw (==_refl p) k.small;
      pending = rw (==_refl p, up) k.pending;
      held = tt;
      due =
          rw (==_refl p, up)
            (All-mono (Held t.owner p (t.process p).age (t.process p).lifespan)
              (Due t.owner p ((t.process p).age + 1) (t.process p).lifespan)
              (t.process p).resources_holding (λ e h. (h.0, h.1, omega (arith, h.2), h.3)) k.held);
      held_ids = tt;
      due_ids = rw (==_refl p) k.ids;
      apart = tt;
    }

-- What a round leaves. The simulation ends only when no process is left to run or to fork.
abbrev pub Rounded : Tick → Type 0
Rounded (continue s) = Idle s
Rounded (finished s) =
    Idle s × (s.queue readyqueue ≡ []) × (s.queue forkqueue ≡ []) × (s.current ≡ none)

module _ (sched : Scheduler) (law : LawfulLocks sched) where
  after_acquire :
      (p : ℕ) (res : Result (Bool × System))
      → Returns (Acquires p) res
      → Returns Idle (
          res >>= λ (acquired, t).
          if acquired then run_current_release sched p (grow p t) else ok t)
  after_acquire p (ok (true, t)) k =
      run_current_release-Idle sched law p (grow p t) (grow-Loop t p k)
  after_acquire p (ok (false, t)) k = k
  after_acquire p (Result.fault f) k = k

  pub execute-Idle : (s : System) (p : ℕ) → Staged (some p) s → Returns Idle (execute sched p s)
  unfolding execute
  execute-Idle s p st =
      let s' = set_status s p running in
      let run = start-Running s p st in
      let k = st.sound.processes p in
      let young : (s.process p).age < (s.process p).lifespan =
        k.alive (ap is_alive (st.fit p refl)) in
      let own : ProcessOk s'.owner p (s'.process p) = rw (==_refl p) (record {
        alive = λ h. young;
        grown = k.grown;
        small = k.small;
        pending = k.pending;
        held = k.held;
        ids = k.ids;
      }) in
      rw (linked-false p s' (st.apart p refl)) (
        after_acquire p (run_current_acquire sched p s')
          (run_current_acquire-Acquires sched law p s' run (rw (==_refl p) young) own))

  tick_on-Idle : (s : System) → Idle s → Idle (record s { ticks = inc s.ticks })
  tick_on-Idle s idle = record {
    sound = record {
      queues = record {
        distinct = idle.sound.queues.distinct;
        one_head = idle.sound.queues.one_head;
        standing = idle.sound.queues.standing;
      };
      processes = idle.sound.processes;
    };
    active = idle.active;
  }

  empty-eq : (l : List ℕ) → is_empty l ≡ true → l ≡ []
  empty-eq [] h = refl
  empty-eq (x ∷ l) h = cc

  Staged-Idle : (s : System) → Staged none s → Idle s
  Staged-Idle s st = record {
    sound = st.sound;
    active = λ c e. absurd (ground (arith, st.current));
  }

  ran : (res : Result System) → Returns Idle res → Returns Rounded (res >>= λ s'. ok (tick_on s'))
  ran (ok s') idle = tick_on-Idle s' idle
  ran (Result.fault f) h = h

  turn-Rounded :
      (next : Option ℕ) (s : System) → Staged next s → Returns Rounded (turn sched next s)
  turn-Rounded (some p) s st = ran (execute sched p s) (execute-Idle s p st)
  turn-Rounded none s st =
      elim (Bool-cases (is_empty (s.queue readyqueue) && is_empty (s.queue forkqueue))) [
        | inr more ↦ rw more (tick_on-Idle s (Staged-Idle s st))
        | inl over ↦ rw over (
          Staged-Idle s st,
          empty-eq (s.queue readyqueue) (ground arith),
          empty-eq (s.queue forkqueue) (ground arith),
          st.current,
        )
      ]

  retired :
      (next : Option ℕ) (res : Result System)
      → Returns (Staged next) res
      → Returns Rounded (res >>= λ u. turn sched next u)
  retired next (ok u) st = turn-Rounded next u st
  retired next (Result.fault f) h = h

  picked :
      (s : System) (res : Result (Option ℕ × System))
      → Idle s
      → Returns (Picked s) res
      → Returns Rounded (
          res >>= λ (next, t).
          retire s.current (record t { current = next }) >>= λ u. turn sched next u)
  picked s (ok (next, t)) idle pick =
      retired next (retire s.current (record t { current = next }))
        (retire-Staged s next t idle pick)
  picked s (Result.fault f) idle h = h

-- For every scheduler whose callbacks meet the contract, one round of the simulation from a sound
-- state never faults and leaves a sound state; it ends the simulation only with no process to run
-- or to fork.
pub tick-Rounded :
    (sched : Scheduler) (law : Lawful sched) (s : System) → Idle s → Returns Rounded (tick sched s)
unfolding tick
tick-Rounded sched law s idle =
    let s' = fork_on_schedule s in
    let idle' = fork_on_schedule-Idle s idle in
    picked sched law.locks s' (sched.schedule s') idle' (law.schedule s' idle')
