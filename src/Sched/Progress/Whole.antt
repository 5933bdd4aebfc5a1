-- ===== src/Sched/Progress/Whole.antt =====
-- The simulation of a script comes to its end: __do_simulation returns.
use native.Mathlib.Nat.{mul-le-mul_right}
use native.Mathlib.Decide.{ℕ_discrete}
use operating_system_pa.Base.{
  ℕ, zero, suc, ◌+◌, ◌*◌, ◌≤◌, ◌<◌, ◌≡◌, refl, none, List, [], ◌∷◌, ==_refl, ==_ne, length, All,
  word, sum_below, sum_below-ext, Result, ok, Returns, Returns-both, arith, ◌>>=◌,
}
use operating_system_pa.Sched.State.{Process, readyqueue, forkqueue, System, Scheduler}
use operating_system_pa.Sched.Policies.{
  fifo_scheduler, prio_scheduler, pcp_scheduler, pip_scheduler,
}
use operating_system_pa.Sched.Simulation.{
  Tick, continue, finished, tick, simulate, initialize, end_process, load_processes,
}
use operating_system_pa.Sched.Sound.{Idle}
use operating_system_pa.Sched.Contract.{Lawful}
use operating_system_pa.Sched.Contract.Instances.{fifo-Lawful, prio-Lawful, pcp-Lawful, pip-Lawful}
use operating_system_pa.Sched.Safety.Rounds.{Rounded, tick-Rounded}
use operating_system_pa.Sched.Safety.Whole.{IsScript, loaded, loaded-Idle}
use operating_system_pa.Sched.Progress.{remaining, SteadyLocks}
use operating_system_pa.Sched.Progress.Callbacks.{
  fifo-SteadyLocks, prio-SteadyLocks, pcp-SteadyLocks, pip-SteadyLocks,
}
use operating_system_pa.Sched.Progress.Work.{life, active-le, work}
use operating_system_pa.Sched.Progress.Execution.{Bounded}
use operating_system_pa.Sched.Progress.Rounds.{Shrinks, tick-Shrinks}

-- The simulation is over, with nothing left to run or to fork.
abbrev pub Over : Tick → Type 0
Over (continue s) = ⊥
Over (finished s) =
    Idle s × (s.queue readyqueue ≡ []) × (s.queue forkqueue ≡ []) × (s.current ≡ none)

module _ (sched : Scheduler) (law : Lawful sched) (steady : SteadyLocks sched) (m d : ℕ) where
  next_round :
      (n : ℕ) (s : System)
      → ((t : System)
          → Idle t
          → Bounded m d t
          → work m d t + t.ticks + 1 < word
          → work m d t < n
          → Returns Over (simulate n sched t))
      → work m d s + s.ticks + 1 < word
      → work m d s < suc n
      → (res : Result Tick) → Returns (λ k. Rounded k × Shrinks m d s k) res
      → Returns Over (
          res >>= λ t. elim t [
            | finished s' ↦ ok (finished s')
            | continue s' ↦ simulate n sched s'
          ])
  next_round n s rec small more (ok (continue t)) (idle, (b, w, e)) =
      rec t idle b (omega (arith, w, e, small)) (omega (arith, w, more))
  next_round n s rec small more (ok (finished t)) (over, h) = over
  next_round n s rec small more (Result.fault f) h = h

  -- With more rounds than there is work.
  pub simulate-Over :
      (n : ℕ) (s : System)
      → Idle s
      → Bounded m d s
      → work m d s + s.ticks + 1 < word
      → work m d s < n
      → Returns Over (simulate n sched s)
  unfolding simulate
  simulate-Over zero s idle b small more = absurd (omega (arith, more))
  simulate-Over (suc n) s idle b small more =
      next_round n s (λ t i c l k. simulate-Over n t i c l k) small more (tick sched s)
        (Returns-both Rounded (Shrinks m d s) (tick sched s) (tick-Rounded sched law s idle)
          (tick-Shrinks sched law steady m d s idle (omega (arith, small)) b))

abbrev pub total_lifespan : List Process → ℕ
total_lifespan [] = 0
total_lifespan (x ∷ xs) = x.lifespan + total_lifespan xs

-- The rounds after which a script of processes that start by `d` is over.
abbrev pub enough : ℕ → List Process → ℕ
enough d xs = total_lifespan xs * (length xs + 1) + length xs + d

end_process-life :
    (n : ℕ) (x : Process) (s : System) → life (suc n) (end_process n x s) ≤ life n s + x.lifespan
unfolding life sum_below
end_process-life n x s =
    let same =
      sum_below-ext n (λ p. remaining ((end_process n x s).process p))
        (λ p. remaining (s.process p)) (λ p l. rw (==_ne p n (omega (arith, l))) refl) in
    let new : remaining ((end_process n x s).process n) ≡ remaining x = rw (==_refl n) refl in
    omega (arith, same, new)

load_processes-life :
    (xs : List Process) (n m : ℕ) (s : System)
    → n + length xs ≡ m
    → life m (load_processes n xs s) ≤ life n s + total_lifespan xs
unfolding load_processes
load_processes-life [] n m s e = let same : m ≡ n = omega (arith, e) in rw same (omega arith)
load_processes-life (x ∷ xs) n m s e =
    let first = end_process-life n x s in
    let rest = load_processes-life xs (suc n) m (end_process n x s) (omega (arith, e)) in
    omega (arith, first, rest)

end_process-Bounded :
    (d n : ℕ) (x : Process) (s : System)
    → x.starts_at ≤ d
    → Bounded n d s
    → Bounded (suc n) d (end_process n x s)
end_process-Bounded d n x s l b = record {
  far = λ p h. rw (==_ne p n (omega (arith, h))) (b.far p (omega (arith, h)));
  starts = λ p. elim (ℕ_discrete p n) [
    | yes same ↦ rw (same, ==_refl n) l
    | no other ↦ rw (==_ne p n other) (b.starts p)
  ];
}

load_processes-Bounded :
    (d : ℕ) (xs : List Process) (n m : ℕ) (s : System)
    → n + length xs ≡ m
    → All (λ x. x.starts_at ≤ d) xs
    → Bounded n d s
    → Bounded m d (load_processes n xs s)
unfolding load_processes
load_processes-Bounded d [] n m s e a b = let same : m ≡ n = omega (arith, e) in rw same b
load_processes-Bounded d (x ∷ xs) n m s e a b =
    load_processes-Bounded d xs (suc n) m (end_process n x s) (omega (arith, e)) a.1
      (end_process-Bounded d n x s a.0 b)

load_processes-ticks :
    (xs : List Process) (n : ℕ) (s : System) → (load_processes n xs s).ticks ≡ s.ticks
unfolding load_processes
load_processes-ticks [] n s = refl
load_processes-ticks (x ∷ xs) n s = load_processes-ticks xs (suc n) (end_process n x s)

loaded-Bounded :
    (d : ℕ) (xs : List Process) → All (λ x. x.starts_at ≤ d) xs → Bounded (length xs) d (loaded xs)
loaded-Bounded d xs a =
    load_processes-Bounded d xs 0 (length xs) initialize (omega arith) a
      (record { far = λ p h. refl; starts = λ p. omega arith })

nothing-life : (s : System) → life 0 s ≡ 0
unfolding life sum_below
nothing-life s = refl

loaded-work : (d : ℕ) (xs : List Process) → work (length xs) d (loaded xs) ≤ enough d xs
loaded-work d xs =
    let m = length xs in
    let less : life m (loaded xs) ≤ total_lifespan xs =
      omega (arith, load_processes-life xs 0 m initialize (omega arith), nothing-life initialize) in
    let scaled = mul-le-mul_right (m + 1) less in omega (arith, scaled, active-le m (loaded xs))

-- However its processes block each other, a script whose processes live at least one tick and
-- fewer than 2^32, ask only for resources numbered below 32, hold each for at least one tick and
-- give it back before they end, and start by `d`, is over under FIFO, Priority, PCP and PIP when
-- it is given more than `enough d xs` rounds: the total lifespan times the number of processes and
-- one, a round for each process and one for each tick up to the last start. The run then ends with
-- nothing left to run or to fork. The bound is to be less than the largest clock.
pub simulate_ends :
    (n d : ℕ) (xs : List Process)
    → All IsScript xs
    → All (λ x. x.starts_at ≤ d) xs
    → enough d xs + 1 < word
    → enough d xs < n
    → Returns Over (simulate n fifo_scheduler (loaded xs))
      × Returns Over (simulate n prio_scheduler (loaded xs))
      × Returns Over (simulate n pcp_scheduler (loaded xs))
      × Returns Over (simulate n pip_scheduler (loaded xs))
simulate_ends n d xs a starts small more =
    let idle = loaded-Idle xs a in
    let b = loaded-Bounded d xs starts in
    let w = loaded-work d xs in
    let clock = load_processes-ticks xs 0 initialize in
    let k : work (length xs) d (loaded xs) + (loaded xs).ticks + 1 < word =
      omega (arith, w, clock, small) in
    let l : work (length xs) d (loaded xs) < n = omega (arith, w, more) in
    let m = length xs in
    (
      simulate-Over fifo_scheduler fifo-Lawful fifo-SteadyLocks m d n (loaded xs) idle b k l,
      simulate-Over prio_scheduler prio-Lawful prio-SteadyLocks m d n (loaded xs) idle b k l,
      simulate-Over pcp_scheduler pcp-Lawful pcp-SteadyLocks m d n (loaded xs) idle b k l,
      simulate-Over pip_scheduler pip-Lawful pip-SteadyLocks m d n (loaded xs) idle b k l,
    )
