-- ===== src/Locks/Permits/Preservation.antt =====
-- Every statement of the mutex keeps what holds of it.
use operating_system_pa.Base.{
  ℕ, ◌<◌, ◌≡◌, refl, sym, ◌∙◌, inl, inr, some, Bool-cases, sum_below-zero, arith,
}
use operating_system_pa.Locks.Mutex.{
  Stage, away, entering, counting, enqueueing, queued, sleeping, passing, owning, leaving,
  restoring, waking, finishing, dequeued, killing, Mutex, init_mutex, act, Attainable, initial,
  advance,
}
use operating_system_pa.Locks.Permits.{takes, locks, wakes, aims, total, Kept}
use operating_system_pa.Locks.Permits.Moves.{done, plain-Kept, try_hold-Kept, unlock-Kept}
use operating_system_pa.Locks.Permits.Acquiring.{counting-Kept, enqueueing-Kept, sleeping-Kept}
use operating_system_pa.Locks.Permits.Releasing.{restoring-Kept, waking-Kept, killing-Kept}

module _ (threads n : ℕ) (s : Mutex) (t : ℕ) (kept : Kept threads n s) (small : t < threads) where
  pub act-Kept : (q : Stage) (s' : Mutex) → s.stage t ≡ q → act q t s ≡ some s' → Kept threads n s'
  unfolding act
  act-Kept away s' at e = done s' e (
      plain-Kept threads n s t kept small away entering s.hold at refl kept.one refl refl refl refl
        (λ u. refl))
  act-Kept entering s' at e = done s' e (
      try_hold-Kept threads n s t kept small entering counting at refl refl refl refl refl refl
        (λ u. refl))
  act-Kept counting s' at e = done s' e (counting-Kept threads n s t kept small _ at refl)
  act-Kept enqueueing s' at e = done s' e (enqueueing-Kept threads n s t kept small at)
  act-Kept queued s' at e = done s' e (
      unlock-Kept threads n s t kept small queued sleeping at refl refl refl refl refl refl
        (λ u. refl))
  act-Kept sleeping s' at e = elim (Bool-cases (s.pending t)) [
    | inl sent ↦ done s' (sym (rw sent) ∙ e) (sleeping-Kept threads n s t kept small at sent)
    | inr unsent ↦ absurd (ground (arith, unsent))
  ]
  act-Kept passing s' at e = done s' e (
      unlock-Kept threads n s t kept small passing owning at refl refl refl refl refl refl
        (λ u. refl))
  act-Kept owning s' at e = done s' e (
      plain-Kept threads n s t kept small owning leaving s.hold at refl kept.one refl refl refl refl
        (λ u. refl))
  act-Kept leaving s' at e = done s' e (
      try_hold-Kept threads n s t kept small leaving restoring at refl refl refl refl refl refl
        (λ u. refl))
  act-Kept restoring s' at e = done s' e (restoring-Kept threads n s t kept small _ at refl)
  act-Kept waking s' at e = done s' e (waking-Kept threads n s t kept small s.queue at refl)
  act-Kept (dequeued v) s' at e = done s' e (
      unlock-Kept threads n s t kept small (dequeued v) (killing v) at refl refl refl refl refl refl
        (λ u. refl))
  act-Kept (killing v) s' at e = done s' e (killing-Kept threads n s t kept small v at)
  act-Kept finishing s' at e = done s' e (
      unlock-Kept threads n s t kept small finishing away at refl refl refl refl refl refl
        (λ u. refl))

pub init_mutex-Kept : (threads n : ℕ) → Kept threads n (init_mutex n)
init_mutex-Kept threads n =
    let nothing : (f : Stage → ℕ) → f away ≡ 0 → total threads f (λ t. away) ≡ 0 =
      λ f z. sum_below-zero threads _ (λ t. z) in
    record {
      locked = nothing locks refl;
      one = omega arith;
      balance = omega (arith, nothing takes refl);
      bound = omega (arith, nothing takes refl, nothing wakes refl);
      woken = λ w. omega (arith, w, nothing wakes refl);
      each = λ u. omega (arith, nothing (aims u) refl);
      far = λ u l. refl;
    }

pub Attainable-Kept : (threads n : ℕ) (s : Mutex) → Attainable threads n s → Kept threads n s
Attainable-Kept threads n s initial = init_mutex-Kept threads n
Attainable-Kept threads n s (advance t s₀ s' r small e) =
    act-Kept threads n s₀ t (Attainable-Kept threads n s₀ r) small (s₀.stage t) s' refl e
