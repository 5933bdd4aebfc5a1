-- ===== src/Sched/Progress/Rounds.antt =====
-- One round of __do_simulation makes the work that is left smaller.
use native.Mathlib.Decide.{dec_lt}
use operating_system_pa.Base.{
  ℕ, ◌+◌, ◌≤◌, ◌<◌, ◌≡◌, refl, ap, ◌∙◌, inl, inr, true, false, ◌&&◌, Option, none, some, List, [],
  ◌∷◌, ==_refl, has, inc, word, is_empty, Result, ok, Returns, Returns-both, Bool-cases, arith,
  ◌>>=◌,
}
use operating_system_pa.Sched.State.{Head, readyqueue, forkqueue, System, Scheduler, set_queue}
use operating_system_pa.Sched.Simulation.{
  fork_on_schedule, retire, execute, Tick, continue, finished, tick_on, turn, tick,
}
use operating_system_pa.Sched.Sound.{Idle}
use operating_system_pa.Sched.Contract.{Picked, LawfulLocks, Lawful}
use operating_system_pa.Sched.Safety.{Staged}
use operating_system_pa.Sched.Safety.Forking.{fork_on_schedule-Idle}
use operating_system_pa.Sched.Safety.Staging.{retire-Staged}
use operating_system_pa.Sched.Progress.{Calm, SteadyLocks, Calm-trans, same_processes-Calm}
use operating_system_pa.Sched.Progress.Staging.{fork_on_schedule-Forked, Retired, retire-Retired}
use operating_system_pa.Sched.Progress.Work.{work, idled, work-Lessens, work-Calm, Lessens-ticks}
use operating_system_pa.Sched.Progress.Execution.{Bounded, Bounded-Steady, Ran, execute-Ran}

-- A round that does not end the simulation leaves less work, one tick later.
abbrev pub Shrinks : ℕ → ℕ → System → Tick → Type 0
Shrinks m d s (continue t) = Bounded m d t × (work m d t + 1 ≤ work m d s) × (t.ticks ≡ s.ticks + 1)
Shrinks m d s (finished t) = Unit

Shrinks-before : (m d : ℕ) (r s : System) (k : Tick) → Calm r s → Shrinks m d s k → Shrinks m d r k
Shrinks-before m d r s (continue t) c (b, w, e) =
    let less = work-Calm m d r s c in
    let same = c.steady.ticks in (b, omega (arith, w, less), omega (arith, e, same))
Shrinks-before m d r s (finished t) c h = tt

tick_on-Shrinks :
    (m d : ℕ) (s t : System)
    → s.ticks + 1 < word
    → Bounded m d s
    → Ran m d s t
    → Shrinks m d s (tick_on t)
tick_on-Shrinks m d s t small b r =
    let same = r.steady.ticks in
    let later : inc t.ticks ≡ s.ticks + 1 = omega (arith, same, small) in
    let b' = Bounded-Steady m d s t r.steady b in
    let t' = record t { ticks = inc t.ticks } in
    (
      record { far = b'.far; starts = b'.starts },
      work-Lessens m d s t' later (Lessens-ticks m d (inc t.ticks) s t r.lessens),
      later,
    )

-- Nothing is ready, and what is to be forked comes later.
record Quiet (d : ℕ) (s : System) : Type 0 where
  empty : s.queue readyqueue ≡ []
  later : (q : ℕ) → has q (s.queue forkqueue) ≡ true → s.ticks < d

Quiet-Ran :
    (m d : ℕ) (s : System)
    → Quiet d s
    → (is_empty (s.queue readyqueue) && is_empty (s.queue forkqueue)) ≡ false
    → Ran m d s s
Quiet-Ran m d s q more = record {
  steady = calm.steady;
  lessens = idled (omega arith) (omega arith) (find (s.queue forkqueue) q.later fork_left);
}
  where
    calm : Calm s s
    calm = same_processes-Calm s s refl refl

    fork_left : is_empty (s.queue forkqueue) ≡ false
    fork_left =
        let e : is_empty (s.queue readyqueue) ≡ true = rw q.empty refl in ground (arith, e, more)

    find :
        (l : List ℕ) → ((p : ℕ) → has p l ≡ true → s.ticks < d) → is_empty l ≡ false → s.ticks < d
    find [] f e = absurd (ground arith)
    find (p ∷ l) f e = f p (ground (arith, ==_refl p))

module _ (sched : Scheduler) (law : LawfulLocks sched) (steady : SteadyLocks sched) (m d : ℕ) where
  Ran-Shrinks :
      (s : System)
      → s.ticks + 1 < word
      → Bounded m d s
      → (res : Result System) → Returns (Ran m d s) res
      → Returns (Shrinks m d s) (res >>= λ s'. ok (tick_on s'))
  Ran-Shrinks s small b (ok t) r = tick_on-Shrinks m d s t small b r
  Ran-Shrinks s small b (Result.fault f) r = r

  turn-Shrinks :
      (next : Option ℕ) (s : System)
      → Staged next s
      → s.ticks + 1 < word
      → Bounded m d s
      → (next ≡ none → Quiet d s)
      → Returns (Shrinks m d s) (turn sched next s)
  turn-Shrinks (some p) s st small b q =
      let known : p < m = elim (dec_lt p m) [
        | yes l ↦ l
        | no ge ↦
            let gone = b.far p (omega (arith, ge)) in
            let at = st.fit p refl in absurd (ground (arith, gone, at))
      ] in
      Ran-Shrinks s small b (execute sched p s) (execute-Ran sched law steady m d s p st known)
  turn-Shrinks none s st small b q =
      elim (Bool-cases (is_empty (s.queue readyqueue) && is_empty (s.queue forkqueue))) [
        | inl over ↦ rw over tt
        | inr more ↦ rw more (tick_on-Shrinks m d s s small b (Quiet-Ran m d s (q refl) more))
      ]

  -- The choice, from the state `s` after the forks.
  staged-Shrinks :
      (s : System) (next : Option ℕ) (list : List ℕ)
      → s.ticks + 1 < word
      → Bounded m d s
      → (next ≡ none → list ≡ [])
      → ((q : ℕ) → has q (s.queue forkqueue) ≡ true → s.ticks < d)
      → (t : System) → t ≡ set_queue s readyqueue list
      → (res : Result System)
      → Returns (λ u. Staged next u × Retired (record t { current = next }) u) res
      → Returns (Shrinks m d s) (res >>= λ u. turn sched next u)
  staged-Shrinks s next list small b empty later t e (ok u) (st, r) =
      let t' : System = record t { current = next } in
      let kept : t.process ≡ s.process = ap (λ (o : System). o.process) e in
      let clock : t.ticks ≡ s.ticks = ap (λ (o : System). o.ticks) e in
      let calm = Calm-trans s t' u (same_processes-Calm s t' kept clock) r.calm in
      let same = calm.steady.ticks in
      let q : (h : Head) → u.queue h ≡ (set_queue s readyqueue list).queue h =
        λ h. ap (λ (f : Head → List ℕ). f h) (r.queue ∙ ap (λ (o : System). o.queue) e) in
      before u calm (turn sched next u) (
        turn-Shrinks next u st (omega (arith, same, small)) (Bounded-Steady m d s u calm.steady b)
          (λ none_left. record {
            empty = q readyqueue ∙ empty none_left;
            later = λ p h. let l = later p (rw (← q forkqueue) h) in omega (arith, l, same);
          }))
    where
      before :
          (u : System)
          → Calm s u
          → (res : Result Tick) → Returns (Shrinks m d u) res
          → Returns (Shrinks m d s) res
      before u c (ok k) h = Shrinks-before m d s u k c h
      before u c (Result.fault f) h = h
  staged-Shrinks s next list small b empty later t e (Result.fault f) h = h

  nobody :
      (s : System) (next : Option ℕ) (t : System) (pick : Picked s (next, t))
      → next ≡ none
      → pick.list ≡ []
  nobody s next t pick idle = go pick.list (λ p h. pick.busy idle p (pick.sources p h))
    where
      go : (l : List ℕ) → ((p : ℕ) → ¬ (has p l ≡ true)) → l ≡ []
      go [] f = refl
      go (p ∷ l) f = absurd (f p (ground (arith, ==_refl p)))

  Picked-Shrinks :
      (s : System) (res : Result (Option ℕ × System))
      → Idle s
      → s.ticks + 1 < word
      → Bounded m d s
      → ((q : ℕ) → has q (s.queue forkqueue) ≡ true → s.ticks < d)
      → Returns (Picked s) res
      → Returns (Shrinks m d s) (
          res >>= λ (next, t).
          retire s.current (record t { current = next }) >>= λ u. turn sched next u)
  Picked-Shrinks s (ok (next, t)) idle small b later pick =
      let done = retire-Staged s next t idle pick in
      staged-Shrinks s next pick.list small b (nobody s next t pick) later t pick.result
        (retire s.current (record t { current = next }))
        (Returns-both (Staged next) (Retired (record t { current = next }))
          (retire s.current (record t { current = next })) done
          (retire-Retired (Staged next) s.current (record t { current = next }) done))
  Picked-Shrinks s (Result.fault f) idle small b later h = h

-- One round of a scheduler whose callbacks meet the contract, whose callbacks prolong no process
-- and revive none, makes the work that is left smaller, or it ends the simulation.
pub tick-Shrinks :
    (sched : Scheduler) (law : Lawful sched) (steady : SteadyLocks sched) (m d : ℕ) (s : System)
    → Idle s
    → s.ticks + 1 < word
    → Bounded m d s
    → Returns (Shrinks m d s) (tick sched s)
unfolding tick
tick-Shrinks sched law steady m d s idle small b =
    let s' = fork_on_schedule s in
    let idle' = fork_on_schedule-Idle s idle in
    let f = fork_on_schedule-Forked s idle in
    let same = f.calm.steady.ticks in
    let later : (q : ℕ) → has q (s'.queue forkqueue) ≡ true → s'.ticks < d =
      λ q h. let l = f.later q h (f.still q h) in let k = b.starts q in omega (arith, l, k, same) in
    before s' f.calm _ (
      Picked-Shrinks sched law.locks steady m d s' (sched.schedule s') idle'
        (omega (arith, same, small)) (Bounded-Steady m d s s' f.calm.steady b) later
        (law.schedule s' idle'))
  where
    before :
        (u : System)
        → Calm s u
        → (res : Result Tick) → Returns (Shrinks m d u) res
        → Returns (Shrinks m d s) res
    before u c (ok k) h = Shrinks-before m d s u k c h
    before u c (Result.fault f) h = h
