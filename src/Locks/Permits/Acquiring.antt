-- ===== src/Locks/Permits/Acquiring.antt =====
-- The statements of acquire_mutex.
use operating_system_pa.Base.{
  length-append, ℕ, ◌+◌, ◌≤◌, ◌<◌, ◌≡◌, refl, ◌∙◌, inl, inr, true, false, [], ◌∷◌, ◌++◌, ◌==◌,
  if◌then◌else◌, Bool-cases, update, indicator, arith,
}
use operating_system_pa.Locks.Mutex.{
  decrement, is_negative, Stage, counting, enqueueing, queued, sleeping, passing, owning, Mutex,
  put,
}
use operating_system_pa.Locks.Permits.{
  takes, wakes, count-append, total, Kept, only_holder, wakes-le-locks,
}
use operating_system_pa.Locks.Permits.Moves.{
  moved-Kept, no_aim, begins, ends, Balance-same, Balance-decrement, Balance-le,
}

module _ (threads n : ℕ) (s : Mutex) (t : ℕ) (kept : Kept threads n s) (small : t < threads) where
  abbrev given : (Stage → ℕ) → ℕ
  given f = total threads f s.stage

  pub counting-Kept :
      (p : Stage)
      → s.stage t ≡ counting
      → p ≡ (if is_negative (decrement s.permits) then enqueueing else passing)
      → Kept threads n (record (put t p s) { permits = decrement s.permits })
  counting-Kept p at e =
      let no_wake = only_holder threads n s t counting wakes kept small at refl wakes-le-locks in
      elim (Bool-cases (is_negative (decrement s.permits))) [
        | inl neg ↦
            let here : p ≡ enqueueing = e ∙ rw neg in
            rw here (
              moved-Kept s t counting enqueueing (decrement s.permits) s.hold s.queue s.pending kept
                small at refl kept.one
                (λ m f.
                  Balance-decrement s.permits (given takes) m n (omega (arith, f)) kept.balance)
                (omega (arith, kept.bound)) (λ w. omega (arith, w, no_wake))
                (λ u. omega (arith, kept.each u, no_aim u s t counting enqueueing at refl)))
        | inr ok_now ↦
            let here : p ≡ passing = e ∙ rw ok_now in
            let room : given takes + 1 ≤ n =
              Balance-le (decrement s.permits) (given takes + 1) n ok_now
                (Balance-decrement s.permits (given takes) (given takes + 1) n refl kept.balance) in
            rw here (
              moved-Kept s t counting passing (decrement s.permits) s.hold s.queue s.pending kept
                small at refl kept.one
                (λ m f.
                  Balance-decrement s.permits (given takes) m n (omega (arith, f)) kept.balance)
                (omega (arith, room, no_wake)) (λ w. omega (arith, w, no_wake))
                (λ u. omega (arith, kept.each u, no_aim u s t counting passing at refl)))
      ]

  pub enqueueing-Kept :
      s.stage t ≡ enqueueing
      → Kept threads n (record (put t queued s) { queue = s.queue ++ t ∷ [] })
  enqueueing-Kept at =
      moved-Kept s t enqueueing queued s.permits s.hold (s.queue ++ t ∷ []) s.pending kept small at
        refl kept.one
        (λ m f. Balance-same s.permits (given takes) m n (omega (arith, f)) kept.balance)
        (omega (arith, kept.bound, length-append s.queue (t ∷ [])))
        (λ w. omega (arith, kept.woken (omega (arith, w))))
        (λ u. omega (
          arith,
          kept.each u,
          count-append u t s.queue,
          begins u s t enqueueing queued at refl refl,
        ))

  pub sleeping-Kept :
      s.stage t ≡ sleeping
      → s.pending t ≡ true
      → Kept threads n (record (put t owning s) { pending = update s.pending t false })
  sleeping-Kept at sent =
      moved-Kept s t sleeping owning s.permits s.hold s.queue (update s.pending t false) kept small
        at refl kept.one
        (λ m f. Balance-same s.permits (given takes) m n (omega (arith, f)) kept.balance)
        (omega (arith, kept.bound)) (λ w. omega (arith, kept.woken (omega (arith, w))))
        (λ u.
          let cleared : indicator (update s.pending t false u) + indicator (u == t)
              ≡ indicator (s.pending u) =
            ground (arith, sent) in
          omega (arith, kept.each u, cleared, ends u s t sleeping owning at refl refl))
