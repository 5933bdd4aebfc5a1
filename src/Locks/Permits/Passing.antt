-- ===== src/Locks/Permits/Passing.antt =====
-- Permits that are taken by one thread and given back by another: the mutexes of the ring buffer. When
-- acquire_mutex returns, the permit is gone, and release_mutex brings a new one.
use operating_system_pa.Base.{
  ℕ, suc, ◌+◌, ◌≤◌, ◌<◌, ◌≡◌, refl, sym, ap, ◌∙◌, Bool, true, false, ==_refl, ==_ne, update,
  indicator, arith,
}
use native.Mathlib.Decide.{ℕ_discrete}
use operating_system_pa.Locks.Mutex.{ℤ, pos, negsuc, Stage, away, owning, leaving, Mutex, put}
use operating_system_pa.Locks.Permits.{
  takes, owns, waits, locks, enqueues, wakes, aims, Balance, total, Kept, total-update,
}
use operating_system_pa.Locks.Permits.Owners.{Kept-owners}
use operating_system_pa.Base.{term-le-sum_below}

Balance-less : (k : ℤ) (a b n : ℕ) → b + 1 ≡ a → Balance k a (suc n) → Balance k b n
Balance-less (pos p) a b n e h = omega (arith, e, h)
Balance-less (negsuc p) a b n e h = omega (arith, e, h)

Balance-more : (k : ℤ) (a b n : ℕ) → b ≡ a + 1 → Balance k a n → Balance k b (suc n)
Balance-more (pos p) a b n e h = omega (arith, e, h)
Balance-more (negsuc p) a b n e h = omega (arith, e, h)

-- A stage that waits for nothing is left for another one.
still_waits :
    (u t : ℕ) (stage : ℕ → Stage) (q p : Stage)
    → stage t ≡ q
    → waits q ≡ waits p
    → waits (update stage t p u) ≡ waits (stage u)
still_waits u t stage q p at e = elim (ℕ_discrete u t) [
  | yes same ↦ rw (same, ==_refl t) (sym e ∙ sym (ap waits at))
  | no ne ↦ rw (==_ne u t ne)
]

module _ (threads : ℕ) (s : Mutex) (t : ℕ) (small : t < threads) where
  -- A thread whose acquire_mutex returns holds one of the permits.
  pub owning-permits : (n : ℕ) → Kept threads n s → s.stage t ≡ owning → 1 ≤ n
  owning-permits n k at =
      let one = term-le-sum_below threads (λ u. owns (s.stage u)) t small in
      let own : owns (s.stage t) ≡ 1 = ap owns at in
      omega (arith, one, own, Kept-owners threads n s k)

  -- acquire_mutex returns.
  pub consumed-Kept :
      (n : ℕ) → Kept threads (suc n) s → s.stage t ≡ owning → Kept threads n (put t away s)
  consumed-Kept n k at =
      let change = λ (f : Stage → ℕ). total-update threads f s.stage t owning away small at in
      record {
        locked = omega (arith, change locks, k.locked);
        one = k.one;
        balance =
            Balance-less s.permits (total threads takes s.stage) _ n (omega (arith, change takes))
              k.balance;
        bound = omega (arith, change takes, change wakes, change enqueues, k.bound);
        woken = λ w. omega (arith, change takes, k.woken (omega (arith, change wakes, w)));
        each = λ u.
            omega (arith, change (aims u), k.each u, still_waits u t s.stage owning away at refl);
        far = λ u le. ground (arith, k.far u le);
      }

  -- release_mutex is called.
  pub returned-Kept :
      (n : ℕ) → Kept threads n s → s.stage t ≡ away → Kept threads (suc n) (put t leaving s)
  returned-Kept n k at =
      let change = λ (f : Stage → ℕ). total-update threads f s.stage t away leaving small at in
      record {
        locked = omega (arith, change locks, k.locked);
        one = k.one;
        balance =
            Balance-more s.permits (total threads takes s.stage) _ n (omega (arith, change takes))
              k.balance;
        bound = omega (arith, change takes, change wakes, change enqueues, k.bound);
        woken = λ w. omega (arith, change takes, k.woken (omega (arith, change wakes, w)));
        each = λ u.
            omega (arith, change (aims u), k.each u, still_waits u t s.stage away leaving at refl);
        far = λ u le. ground (arith, k.far u le, small);
      }

  -- A thread that does not wait has no signal pending.
  pub awake-pending : (n : ℕ) → Kept threads n s → waits (s.stage t) ≡ 0 → s.pending t ≡ false
  awake-pending n k w = none_sent (s.pending t) (omega (arith, k.each t, w))
    where
      none_sent : (b : Bool) → indicator b ≡ 0 → b ≡ false
      none_sent false e = refl
      none_sent true e = absurd (omega (arith, e))
