-- ===== src/Locks/Permits/Releasing.antt =====
-- The statements of release_mutex.
use operating_system_pa.Base.{
  ℕ, ◌+◌, ◌-◌, ◌≤◌, ◌<◌, ◌≡◌, refl, ap, ◌∙◌, inl, inr, true, List, [], ◌∷◌, ◌==◌, ==_refl,
  if◌then◌else◌, Bool-cases, length, update, indicator, term-le-sum_below, arith,
}
use operating_system_pa.Locks.Mutex.{
  increment, is_not_positive, Stage, away, restoring, waking, finishing, dequeued, killing, Mutex,
  put, wake_next,
}
use operating_system_pa.Locks.Permits.{
  takes, enqueues, wakes, aims, count, Balance, total, Kept, only_holder, enqueues-le-locks,
  wakes-le-locks,
}
use operating_system_pa.Locks.Permits.Moves.{
  moved-Kept, no_aim, waits-le, Balance-same, Balance-increment, Balance-ge,
}

module _ (threads n : ℕ) (s : Mutex) (t : ℕ) (kept : Kept threads n s) (small : t < threads) where
  abbrev given : (Stage → ℕ) → ℕ
  given f = total threads f s.stage

  pub restoring-Kept :
      (p : Stage)
      → s.stage t ≡ restoring
      → p ≡ (if is_not_positive (increment s.permits) then waking else finishing)
      → Kept threads n (record (put t p s) { permits = increment s.permits })
  restoring-Kept p at e =
      let some_take : 1 ≤ given takes = takes-ge restoring at refl in
      let less : Balance (increment s.permits) (given takes - 1) n =
        Balance-increment s.permits (given takes) (given takes - 1) n (omega (arith, some_take))
          kept.balance in
      let no_wake = only_holder threads n s t restoring wakes kept small at refl wakes-le-locks in
      elim (Bool-cases (is_not_positive (increment s.permits))) [
        | inl low ↦
            let here : p ≡ waking = e ∙ rw low in
            let all : n ≤ given takes - 1 =
              Balance-ge (increment s.permits) (given takes - 1) n low less in
            rw here (
              moved-Kept s t restoring waking (increment s.permits) s.hold s.queue s.pending kept
                small at refl kept.one
                (λ m f.
                  Balance-same (increment s.permits) (given takes - 1) m n (omega (arith, f)) less)
                (omega (arith, kept.bound)) (λ w. omega (arith, all, some_take))
                (λ u. omega (arith, kept.each u, no_aim u s t restoring waking at refl)))
        | inr high ↦
            let here : p ≡ finishing = e ∙ rw high in
            rw here (
              moved-Kept s t restoring finishing (increment s.permits) s.hold s.queue s.pending kept
                small at refl kept.one
                (λ m f.
                  Balance-same (increment s.permits) (given takes - 1) m n (omega (arith, f)) less)
                (omega (arith, kept.bound)) (λ w. omega (arith, w, no_wake))
                (λ u. omega (arith, kept.each u, no_aim u s t restoring finishing at refl)))
      ]
    where
      takes-ge : (q : Stage) → s.stage t ≡ q → takes q ≡ 1 → 1 ≤ given takes
      takes-ge q at' one =
          omega
            (arith, term-le-sum_below threads (λ u. takes (s.stage u)) t small, ap takes at', one)

  -- The thread that is to be woken is there.
  pub waking_found : s.stage t ≡ waking → 1 ≤ length s.queue
  waking_found at =
      let one_wakes : 1 ≤ given wakes =
        omega (arith, term-le-sum_below threads (λ u. wakes (s.stage u)) t small, ap wakes at) in
      let no_enqueue =
        only_holder threads n s t waking enqueues kept small at refl enqueues-le-locks in
      omega (arith, kept.bound, kept.woken one_wakes, no_enqueue, one_wakes)

  pub waking-Kept :
      (l : List ℕ) → s.stage t ≡ waking → s.queue ≡ l → Kept threads n (wake_next t l s)
  waking-Kept [] at e = absurd (omega (arith, waking_found at, ap (λ (q : List ℕ). length q) e))
  waking-Kept (v ∷ us) at e =
      moved-Kept s t waking (dequeued v) s.permits s.hold us s.pending kept small at refl kept.one
        (λ m f. Balance-same s.permits (given takes) m n (omega (arith, f)) kept.balance)
        (omega (arith, kept.bound, ap (λ (q : List ℕ). length q) e))
        (λ w. omega (arith, kept.woken (omega (arith, w))))
        (λ u. omega (
          arith,
          kept.each u,
          ap (λ (q : List ℕ). count u q) e,
          no_aim u s t waking (dequeued v) at refl,
        ))

  pub killing-Kept :
      (v : ℕ)
      → s.stage t ≡ killing v
      → Kept threads n (record (put t away s) { pending = update s.pending v true })
  killing-Kept v at =
      let aim : aims v (killing v) ≡ 1 = rw (==_refl v) in
      let aimed : 1 ≤ given (aims v) =
        omega (
          arith,
          term-le-sum_below threads (λ u. aims v (s.stage u)) t small,
          ap (aims v) at,
          aim,
        ) in
      let unsent : indicator (s.pending v) ≡ 0 =
        omega (arith, kept.each v, waits-le (s.stage v), aimed) in
      moved-Kept s t (killing v) away s.permits s.hold s.queue (update s.pending v true) kept small
        at refl kept.one
        (λ m f. Balance-same s.permits (given takes) m n (omega (arith, f)) kept.balance)
        (omega (arith, kept.bound)) (λ w. omega (arith, kept.woken (omega (arith, w))))
        (λ u.
          let sent : indicator (update s.pending v true u)
              ≡ indicator (s.pending u) + indicator (u == v) =
            ground (arith, unsent) in
          omega (arith, kept.each u, sent, no_aim u s t (killing v) away at refl))
