-- ===== src/Sched/Progress/Staging.antt =====
-- __fork_on_schedule and `if (prev) { … }` leave the work as it is, and no process stays in the fork
-- queue past its time.
use native.Mathlib.Decide.{ℕ_discrete}
use operating_system_pa.Base.{
  ℕ, ◌<◌, ◌≡◌, ◌≢◌, refl, subst, ◌∙◌, inl, inr, Bool, true, false, Option, none, some, List, [],
  ◌∷◌, ◌++◌, ◌==◌, leb, has, Distinct, has-remove_self, has_of_remove, is_empty, if◌then◌else◌, not,
  Result, ok, assertion, Fault, guard, Returns, Bool-cases, arith, ◌>>◌,
}
use operating_system_pa.Sched.State.{
  Status, ready, running, wait, exit, is_running, readyqueue, forkqueue, System, set_queue,
  set_status, linked, list_del_init,
}
use operating_system_pa.Sched.Simulation.{
  fork_process, fork_loop, fork_on_schedule, exit_process, retire,
}
use operating_system_pa.Sched.Sound.{Idle}
use operating_system_pa.Sched.Safety.Forking.{fork_process-Idle, InFork, InFork-rest, All-in}
use operating_system_pa.Sched.Progress.{
  Calm, Calm-trans, same_processes-Calm, set_status-Calm, set_process-Calm,
}

-- Nobody's work has grown, and what is still in the fork queue comes later.
pub record Forked (s : System) (ps : List ℕ) (t : System) : Type 0 where
  pub calm : Calm s t
  pub still : (q : ℕ) → has q (t.queue forkqueue) ≡ true → has q (s.queue forkqueue) ≡ true
  pub later :
      (q : ℕ)
      → has q (t.queue forkqueue) ≡ true
      → has q ps ≡ true
      → s.ticks < (s.process q).starts_at

fork_process-Calm : (s : System) (p : ℕ) → (s.process p).status ≡ ready → Calm s (fork_process p s)
fork_process-Calm s p st =
    let s₁ = list_del_init p forkqueue s in
    let s₂ = set_queue s₁ readyqueue (s₁.queue readyqueue ++ p ∷ []) in
    Calm-trans s s₂ (fork_process p s) (same_processes-Calm s s₂ refl refl)
      (set_status-Calm s₂ p ready (ground (arith, st)) (ground (arith, st)))

-- The process `p` leaves the fork queue.
Forked-now :
    (s : System) (p : ℕ) (ps : List ℕ) (t : System)
    → Idle s
    → has p (s.queue forkqueue) ≡ true
    → Forked (fork_process p s) ps t
    → Forked s (p ∷ ps) t
Forked-now s p ps t idle at f =
    let calm = fork_process-Calm s p (idle.sound.queues.standing forkqueue p at) in
    let left : (q : ℕ) → has q (t.queue forkqueue) ≡ true → q ≢ p = λ q h e.
      let gone = has-remove_self p (s.queue forkqueue) (idle.sound.queues.distinct forkqueue) in
      let there = f.still q h in ground (arith, gone, there, e) in
    record {
      calm = Calm-trans s (fork_process p s) t calm f.calm;
      still = λ q h. has_of_remove q p (s.queue forkqueue) (f.still q h);
      later = λ q h k.
          let ne = left q h in
          let l = f.later q h (ground arith) in let e = calm.steady.starts q in omega (arith, l, e);
    }

fork_loop-Forked :
    (ps : List ℕ) (s : System) → Distinct ps → InFork s ps → Idle s → Forked s ps (fork_loop ps s)
unfolding fork_loop
fork_loop-Forked [] s d a idle = record {
  calm = same_processes-Calm s s refl refl;
  still = λ q h. h;
  later = λ q h k. absurd (ground arith);
}
fork_loop-Forked (p ∷ ps) s d a idle = elim (Bool-cases (leb (s.process p).starts_at s.ticks)) [
  | inr later ↦
      let f = fork_loop-Forked ps s d.1 a.1 idle in
      rw (later, fork_loop)
        (record {
          calm = f.calm;
          still = f.still;
          later = λ q h k. elim (ℕ_discrete q p) [
            | yes same ↦ ground (arith, later)
            | no other ↦ f.later q h (ground arith)
          ];
        })
  | inl now ↦
      rw (now, fork_loop)
        (Forked-now s p ps (fork_loop ps (fork_process p s)) idle a.0 (
          fork_loop-Forked ps (fork_process p s) d.1 (InFork-rest s p ps d.0 a.1)
            (fork_process-Idle s p idle a.0)))
]

pub fork_on_schedule-Forked :
    (s : System) → Idle s → Forked s (s.queue forkqueue) (fork_on_schedule s)
fork_on_schedule-Forked s idle =
    fork_loop-Forked (s.queue forkqueue) s (idle.sound.queues.distinct forkqueue)
      (All-in (s.queue forkqueue) (s.queue forkqueue) (λ p h. h)) idle

-- The queues are as before, and nobody's work has grown.
pub record Retired (s t : System) : Type 0 where
  pub calm : Calm s t
  pub queue : t.queue ≡ s.queue

guard-passed :
    (b : Bool) (e : Fault) (P : System → Type 0) (res : Result System)
    → Returns P (guard b e >> res)
    → (guard b e >> res) ≡ res
guard-passed true e P res r = refl
guard-passed false e P res r = absurd r

exit_process-same :
    (P : System → Type 0) (p : ℕ) (s : System)
    → Returns P (exit_process p s)
    → exit_process p s ≡ ok s
unfolding exit_process
exit_process-same P p s r =
    let a = guard-passed (not (linked p s)) assertion P _ r in
    let r₁ = subst (Returns P) a r in
    let b = guard-passed (is_empty (s.process p).resources_holding) assertion P _ r₁ in
    let r₂ = subst (Returns P) b r₁ in
    let c = guard-passed (is_empty (s.process p).resources_to_acquire) assertion P _ r₂ in a ∙ b ∙ c

-- A running process becomes ready, any other stays as it is.
put_back-Retired :
    (s : System) (p : ℕ)
    → Retired s (if is_running (s.process p).status then set_status s p ready else s)
put_back-Retired s p = go (s.process p).status refl
  where
    same : Retired s s
    same = record { calm = same_processes-Calm s s refl refl; queue = refl }

    go :
        (st : Status)
        → (s.process p).status ≡ st
        → Retired s (if is_running st then set_status s p ready else s)
    go running e = record {
      calm = set_status-Calm s p ready (ground (arith, e)) (ground (arith, e));
      queue = refl;
    }
    go ready e = same
    go wait e = same
    go exit e = same

exit-Retired : (s : System) (p : ℕ) → Retired s (set_status s p exit)
exit-Retired s p = record {
  calm =
      set_process-Calm s p (record (s.process p) { status = exit }) (omega arith) refl (λ e. refl)
        (omega arith);
  queue = refl;
}

Retired-trans : (s t u : System) → Retired s t → Retired t u → Retired s u
Retired-trans s t u a b = record {
  calm = Calm-trans s t u a.calm b.calm;
  queue = b.queue ∙ a.queue;
}

ended-Retired :
    (P : System → Type 0) (s : System) (p : ℕ)
    → Returns P (
        if (s.process p).age == (s.process p).lifespan
        then exit_process p (set_status s p exit)
        else ok s)
    → Returns (Retired s) (
        if (s.process p).age == (s.process p).lifespan
        then exit_process p (set_status s p exit)
        else ok s)
ended-Retired P s p r = elim (Bool-cases ((s.process p).age == (s.process p).lifespan)) [
  | inr more ↦ rw more (record { calm = same_processes-Calm s s refl refl; queue = refl })
  | inl done ↦
      let r' : Returns P (exit_process p (set_status s p exit)) =
        subst (λ b. Returns P (if b then exit_process p (set_status s p exit) else ok s)) done r in
      rw (done, exit_process-same P p (set_status s p exit) r') (exit-Retired s p)
]

after-Retired :
    (s t : System) (res : Result System)
    → Retired s t
    → Returns (Retired t) res
    → Returns (Retired s) res
after-Retired s t (ok u) a k = Retired-trans s t u a k
after-Retired s t (Result.fault f) a k = k

pub retire-Retired :
    (P : System → Type 0) (o : Option ℕ) (s : System)
    → Returns P (retire o s)
    → Returns (Retired s) (retire o s)
unfolding retire
retire-Retired P none s r = record { calm = same_processes-Calm s s refl refl; queue = refl }
retire-Retired P (some p) s r =
    let s' = if is_running (s.process p).status then set_status s p ready else s in
    after-Retired s s' _ (put_back-Retired s p) (ended-Retired P s' p r)
