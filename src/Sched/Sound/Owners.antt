-- ===== src/Sched/Sound/Owners.antt =====
-- Changes of owners and of processes keep the processes right.
use native.Mathlib.Decide.{ℕ_discrete}
use operating_system_pa.Base.{All-mono, ℕ, ◌≡◌, ◌≢◌, ◌∙◌, Option, some, List, All, update, arith}
use operating_system_pa.Sched.State.{ResourceSchedule, Process, System, set_process}
use operating_system_pa.Sched.Sound.{Held, ProcessOk, Others, Alike}

pub ProcessOk-Alike :
    (owner : ℕ → Option ℕ) (p : ℕ) (x y : Process)
    → Alike x y
    → ProcessOk owner p x
    → ProcessOk owner p y
ProcessOk-Alike owner p x y a k = record {
  alive = λ h. ground (arith, k.alive (rw a.status h), a.age, a.lifespan);
  grown = ground (arith, k.grown, a.age, a.lifespan);
  small = ground (arith, k.small, a.lifespan);
  pending = rw (← a.to_acquire, ← a.age, ← a.lifespan) k.pending;
  held = rw (← a.holding, ← a.age, ← a.lifespan) k.held;
  ids = rw (← a.holding) k.ids;
}

-- Owners may change at resources that the process does not hold.
pub Held-owner :
    (o o' : ℕ → Option ℕ) (p age lifespan : ℕ) (l : List ResourceSchedule)
    → ((r : ℕ) → o r ≡ some p → o' r ≡ some p)
    → All (Held o p age lifespan) l
    → All (Held o' p age lifespan) l
Held-owner o o' p age lifespan l keep h =
    All-mono (Held o p age lifespan) (Held o' p age lifespan) l
      (λ e k. (k.0, k.1, k.2, keep e.resource_id k.3)) h

pub ProcessOk-owner :
    (o o' : ℕ → Option ℕ) (p : ℕ) (x : Process)
    → ((r : ℕ) → o r ≡ some p → o' r ≡ some p)
    → ProcessOk o p x
    → ProcessOk o' p x
ProcessOk-owner o o' p x keep k = record {
  alive = k.alive;
  grown = k.grown;
  small = k.small;
  pending = k.pending;
  held = Held-owner o o' p x.age x.lifespan x.resources_holding keep k.held;
  ids = k.ids;
}

-- Taking a free resource, or giving one of `me` back, keeps the other processes right.
pub Others-owner :
    (s : System) (me r : ℕ) (o : Option ℕ)
    → ((p : ℕ) → p ≢ me → s.owner r ≢ some p)
    → Others s me
    → Others (record s { owner = update s.owner r o }) me
Others-owner s me r o free others p ne =
    ProcessOk-owner s.owner (update s.owner r o) p (s.process p)
      (λ q e. elim (ℕ_discrete q r) [
        | yes same ↦ absurd (free p ne (rw (← same) e))
        | no other ↦ ground (arith, e)
      ])
      (others p ne)

-- A process that is changed into one as good.
pub Others-set_process :
    (s : System) (me p : ℕ) (x : Process)
    → (p ≢ me → ProcessOk s.owner p x)
    → Others s me
    → Others (set_process s p x) me
Others-set_process s me p x good others q ne = elim (ℕ_discrete q p) [
  | yes same ↦ rw same (ground (arith, good (λ e. ne (same ∙ e))))
  | no other ↦ ground (arith, others q ne)
]
