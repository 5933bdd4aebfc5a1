-- ===== src/Sched/Safety/Forking.antt =====
-- __fork_on_schedule: the processes whose time has come move to the ready queue.
use native.Mathlib.Decide.{ℕ_discrete}
use operating_system_pa.Base.{
  ℕ, ◌≡◌, ◌≢◌, refl, sym, ◌∙◌, inl, inr, true, false, List, [], ◌∷◌, ◌++◌, ==_refl, ==_ne, leb, has,
  Distinct, has-remove_other, All, Bool-cases, arith,
}
use operating_system_pa.Sched.State.{ready, readyqueue, forkqueue, System, set_queue, list_del_init}
use operating_system_pa.Sched.Simulation.{fork_process, fork_loop, fork_on_schedule}
use operating_system_pa.Sched.Sound.{ProcessOk, Idle}
use operating_system_pa.Sched.Sound.Linking.{Queues-remove, Unlinked-remove, Queues-append}
use operating_system_pa.Sched.Safety.Acquiring.{Queues-set_self}

-- One process moves from the fork queue to the ready queue.
pub fork_process-Idle :
    (s : System) (p : ℕ) → Idle s → has p (s.queue forkqueue) ≡ true → Idle (fork_process p s)
fork_process-Idle s p idle at =
    let q = idle.sound.queues in
    let st = q.standing forkqueue p at in
    let s₁ = list_del_init p forkqueue s in
    let q₁ = Queues-remove s p forkqueue q in
    let u₁ = Unlinked-remove s p forkqueue q at in
    let q₂ = Queues-append s₁ p readyqueue u₁ st q₁ in
    let s₂ = set_queue s₁ readyqueue (s₁.queue readyqueue ++ p ∷ []) in
    record {
      sound = record {
        queues = Queues-set_self s₂ p (record (s.process p) { status = ready }) (sym st) q₂;
        processes = λ r. elim (ℕ_discrete r p) [
          | no other ↦ rw (==_ne r p other) (idle.sound.processes r)
          | yes same ↦ rw (same, ==_refl p) (ready' st (idle.sound.processes p))
        ];
      };
      active = λ c e.
          let act = idle.active c e in let other : c ≢ p = ground arith in rw (==_ne c p other) act;
    }
  where
    ready' :
        (s.process p).status ≡ ready
        → ProcessOk s.owner p (s.process p)
        → ProcessOk s.owner p (record (s.process p) { status = ready })
    ready' st k = record {
      alive = λ h. k.alive (rw st refl);
      grown = k.grown;
      small = k.small;
      pending = k.pending;
      held = k.held;
      ids = k.ids;
    }

abbrev pub InFork : System → List ℕ → Type 0
InFork s ps = All (λ p. has p (s.queue forkqueue) ≡ true) ps

pub InFork-rest :
    (s : System) (p : ℕ) (ps : List ℕ)
    → has p ps ≡ false
    → InFork s ps
    → InFork (fork_process p s) ps
InFork-rest s p [] h a = tt
InFork-rest s p (r ∷ ps) h a = (
  has-remove_other r p (s.queue forkqueue) (ground arith) ∙ a.0,
  InFork-rest s p ps (ground arith) a.1,
)

fork_loop-Idle :
    (ps : List ℕ) (s : System) → Distinct ps → InFork s ps → Idle s → Idle (fork_loop ps s)
unfolding fork_loop
fork_loop-Idle [] s d a idle = idle
fork_loop-Idle (p ∷ ps) s d a idle = elim (Bool-cases (leb (s.process p).starts_at s.ticks)) [
  | inr later ↦ rw (later, fork_loop) (fork_loop-Idle ps s d.1 a.1 idle)
  | inl now ↦
      rw (now, fork_loop)
        (fork_loop-Idle ps (fork_process p s) d.1 (InFork-rest s p ps d.0 a.1)
          (fork_process-Idle s p idle a.0))
]

pub All-in :
    (ps qs : List ℕ) → ((p : ℕ) → has p ps ≡ true → has p qs ≡ true) → All (λ p. has p qs ≡ true) ps
All-in [] qs f = tt
All-in (p ∷ ps) qs f = (f p (ground arith), All-in ps qs (λ r h. f r (ground arith)))

pub fork_on_schedule-Idle : (s : System) → Idle s → Idle (fork_on_schedule s)
fork_on_schedule-Idle s idle =
    fork_loop-Idle (s.queue forkqueue) s (idle.sound.queues.distinct forkqueue)
      (All-in (s.queue forkqueue) (s.queue forkqueue) (λ p h. h)) idle
