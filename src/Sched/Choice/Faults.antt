-- ===== src/Sched/Choice/Faults.antt =====
-- Runs that go wrong (pa2.c): round-robin with nothing to run yet, and blocked processes under SJF.
use native.Mathlib.Decide.{ℕ_discrete}
use operating_system_pa.Base.{
  ℕ, ◌<◌, ◌≡◌, refl, ap, ◌∙◌, true, false, Option, none, some, List, [], ◌∷◌, ◌==◌, leb, has, All,
  Result, ok, fault, null_pointer, assertion, arith, zero, suc, ◌>>=◌,
}
use operating_system_pa.Sched.State.{
  nr_resources, running, readyqueue, forkqueue, waitqueue, System, set_status, waits_below, linked,
}
use operating_system_pa.Sched.Policies.{
  unfinished, current_unfinished, sjf_schedule, sjf_scheduler, rr_pick, rr_schedule, rr_scheduler,
}
use operating_system_pa.Sched.Simulation.{fork_loop, fork_on_schedule, retire, execute, turn, tick}
use operating_system_pa.Sched.Sound.{Idle}

fork_loop_later :
    (ps : List ℕ) (s : System)
    → All (λ p. s.ticks < (s.process p).starts_at) ps
    → fork_loop ps s ≡ s
unfolding fork_loop
fork_loop_later [] s a = refl
fork_loop_later (p ∷ ps) s a =
    let late : leb (s.process p).starts_at s.ticks ≡ false = ground arith in
    rw (late, fork_loop) (fork_loop_later ps s a.1)

-- A round of round-robin with no current process, an empty ready queue and every fork still to
-- come follows a null pointer.
pub tick_rr_idle :
    (s : System)
    → s.current ≡ none
    → s.queue readyqueue ≡ []
    → All (λ p. s.ticks < (s.process p).starts_at) (s.queue forkqueue)
    → tick rr_scheduler s ≡ fault null_pointer
unfolding tick rr_schedule
tick_rr_idle s c q later =
    let same : fork_on_schedule s ≡ s = fork_loop_later (s.queue forkqueue) s later in
    let crash : rr_schedule s ≡ fault null_pointer =
      ap (λ (o : Option ℕ). rr_pick o (s.queue readyqueue) s) c
      ∙ ap (λ (l : List ℕ). rr_pick none l s) q in
    ap
      (λ (t : System). rr_schedule t >>= λ (next, u).
        retire t.current (record u { current = next }) >>= λ v. turn rr_scheduler next v)
      same
    ∙ ap
        (λ (r : Result (Option ℕ × System)). r >>= λ (next, u).
          retire s.current (record u { current = next }) >>= λ v. turn rr_scheduler next v)
        crash

waits_below-true :
    (n r p : ℕ) (s : System)
    → r < n
    → has p (s.queue (waitqueue r)) ≡ true
    → waits_below n p s ≡ true
unfolding waits_below
waits_below-true zero r p s l h = absurd (omega arith)
waits_below-true (suc n) r p s l h = elim (ℕ_discrete r n) [
  | yes e ↦ rw (← e, h) (ground arith)
  | no ne ↦ rw (waits_below-true n r p s (omega arith) h)
]

linked-true :
    (r p : ℕ) (s : System)
    → r < nr_resources
    → has p (s.queue (waitqueue r)) ≡ true
    → linked p s ≡ true
unfolding linked
linked-true r p s l h = ground (arith, waits_below-true nr_resources r p s l h)

sjf_schedule_current :
    (s : System) (o : Option ℕ)
    → s.current ≡ o
    → current_unfinished o s ≡ true
    → sjf_schedule s ≡ ok (o, s)
unfolding sjf_schedule
sjf_schedule_current s o e u =
    let go : current_unfinished s.current s ≡ true =
      ap (λ (p : Option ℕ). current_unfinished p s) e ∙ u in
    simp go (ap (λ (p : Option ℕ). keep p) e)
  where
    keep : Option ℕ → Result (Option ℕ × System)
    keep p = ok (p, s)

-- From a sound state with every fork still to come, a round under SJF gives a current process that
-- hangs in a wait queue the processor again, and the framework's assertion that it hangs in no
-- list fails.
pub tick_sjf_blocked :
    (s : System) (c r : ℕ)
    → Idle s
    → s.current ≡ some c
    → r < nr_resources
    → has c (s.queue (waitqueue r)) ≡ true
    → All (λ p. s.ticks < (s.process p).starts_at) (s.queue forkqueue)
    → tick sjf_scheduler s ≡ fault assertion
unfolding tick sjf_schedule retire execute
tick_sjf_blocked s c r idle e l at later =
    let mid : System = record s { current = some c } in
    let waits = idle.sound.queues.standing (waitqueue r) c at in
    let alive = (idle.sound.processes c).alive (rw waits refl) in
    let young : unfinished s c ≡ true = ground arith in
    let differ : ((s.process c).age == (s.process c).lifespan) ≡ false = ground arith in
    let same : fork_on_schedule s ≡ s = fork_loop_later (s.queue forkqueue) s later in
    let again : sjf_schedule s ≡ ok (some c, s) = sjf_schedule_current s (some c) e young in
    let put_back : retire (some c) mid ≡ ok mid = simp (waits, differ) in
    let fails : turn sjf_scheduler (some c) mid ≡ fault assertion =
      rw (linked-true r c (set_status mid c running) l at) in
    ap
      (λ (t : System). sjf_schedule t >>= λ (next, u).
        retire t.current (record u { current = next }) >>= λ v. turn sjf_scheduler next v)
      same
    ∙ ap
        (λ (o : Result (Option ℕ × System)). o >>= λ (next, u).
          retire s.current (record u { current = next }) >>= λ v. turn sjf_scheduler next v)
        again
    ∙ ap (λ (o : Option ℕ). retire o mid >>= λ v. turn sjf_scheduler (some c) v) e
    ∙ ap (λ (o : Result System). o >>= λ v. turn sjf_scheduler (some c) v) put_back
    ∙ fails
