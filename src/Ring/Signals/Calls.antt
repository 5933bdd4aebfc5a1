-- ===== src/Ring/Signals/Calls.antt =====
-- The statements of acquire_mutex and release_mutex keep the accounts of the three mutexes.
use mathlib.Core.Option
use operating_system_pa.Base.{
  ℕ, suc, ◌<◌, ◌≡◌, ◌≢◌, refl, sym, ap, subst, fun_ext, ◌∙◌, inl, inr, Bool, true, false, some,
  term-le-sum_below, ==_refl, Bool-cases, update, arith,
}
use operating_system_pa.Locks.Mutex.{
  Stage, away, entering, counting, enqueueing, queued, sleeping, passing, restoring, waking,
  finishing, dequeued, leaving, owning, killing, Mutex, put, act,
}
use operating_system_pa.Locks.Permits.{aims, waits}
use operating_system_pa.Locks.Permits.Preservation.{act-Kept}
use operating_system_pa.Locks.Permits.Passing.{consumed-Kept, returned-Kept, awake-pending}
use operating_system_pa.Locks.Signals.{masked, Heard, act-masked, act-Local}
use operating_system_pa.Ring.State.{Lock, same_lock, Line}
use operating_system_pa.Ring.Signals.{
  calls, same_lock-eq, same_lock_refl, calls-same, replace, heard, Guarded, reset-Guarded,
  goto-Guarded,
}

module _ {threads : ℕ} {permits : Lock → ℕ} {lock : Lock → Mutex} {pending : ℕ → Bool}
    {line : ℕ → Line} (g : Guarded threads permits lock pending line) (t : ℕ)
    (small : t < threads) where
  -- A thread that is about to be sent its signal is in a call on the mutex.
  aimed : (k : Lock) (u : ℕ) → (lock k).stage t ≡ killing u → calls k (line u) ≡ true
  aimed k u at =
      let each = (g.kept k).each u in
      let one = term-le-sum_below threads (λ v. aims u ((lock k).stage v)) t small in
      let aim : aims u ((lock k).stage t) ≡ 1 = ap (aims u) at ∙ rw (==_refl u) refl in
      elim (Bool-cases (calls k (line u))) [
        | inl yes_in ↦ yes_in
        | inr out ↦
            let none_waits : waits ((lock k).stage u) ≡ 0 = ap waits (g.placed k u out) in
            absurd (omega (arith, each, one, aim, none_waits))
      ]

  stage-Heard :
      (k : Lock) (p : Stage)
      → calls k (line t) ≡ true
      → (lock k).stage t ≡ p
      → Heard (λ u. calls k (line u)) t p
  stage-Heard k (killing u) here at = aimed k u at
  stage-Heard k away here at = here
  stage-Heard k entering here at = here
  stage-Heard k counting here at = here
  stage-Heard k enqueueing here at = here
  stage-Heard k queued here at = here
  stage-Heard k sleeping here at = here
  stage-Heard k passing here at = here
  stage-Heard k owning here at = here
  stage-Heard k leaving here at = here
  stage-Heard k restoring here at = here
  stage-Heard k waking here at = here
  stage-Heard k finishing here at = here
  stage-Heard k (dequeued u) here at = here

  -- A statement of acquire_mutex or release_mutex.
  pub act-Guarded :
      (k : Lock) (m : Mutex)
      → calls k (line t) ≡ true
      → act ((lock k).stage t) t (record (lock k) { pending = pending }) ≡ some m
      → Guarded threads permits (replace k m lock) m.pending line
  act-Guarded k m here e =
      let mask : ℕ → Bool = λ u. calls k (line u) in
      let before : Mutex = record (lock k) { pending = pending } in
      let p = (lock k).stage t in
      let hears : Heard mask t p = stage-Heard k p here refl in
      let local = act-Local mask t before p m hears e in
      let same : act p t (masked mask before) ≡ some (masked mask m) =
        act-masked mask t p before hears ∙ ap (Option.map (masked mask)) e in
      record {
        kept = λ j. elim (Bool-cases (same_lock j k)) [
          | inl eq ↦ rw eq (
              rw (same_lock-eq j k eq) (
                act-Kept threads (permits k) (masked mask before) t (g.kept k) small p
                  (masked mask m) refl same))
          | inr ne ↦ rw ne (rw (unheard j m ne local.unheard) (g.kept j))
        ];
        placed = λ j u h. elim (Bool-cases (same_lock j k)) [
          | inl eq ↦
              let out : calls k (line u) ≡ false = rw (← same_lock-eq j k eq) h in
              let other : u ≢ t =
                λ x. absurd (ground (arith, subst (λ v. calls k (line v) ≡ false) x out, here)) in
              rw eq (local.others u other ∙ g.placed k u out)
          | inr ne ↦ rw ne (g.placed j u h)
        ];
        quiet = λ u h. local.unheard u (h k) ∙ g.quiet u h;
      }
    where
      unheard :
          (j : Lock) (m : Mutex)
          → same_lock j k ≡ false
          → ((u : ℕ) → calls k (line u) ≡ false → m.pending u ≡ pending u)
          → heard j m.pending line (lock j) ≡ heard j pending line (lock j)
      unheard j m ne same =
          ap (λ (f : ℕ → Bool). record (lock j) { pending = f })
            (fun_ext λ u. elim (Bool-cases (calls j (line u))) [
              | inr out ↦ rw out (ground arith)
              | inl here ↦ elim (Bool-cases (calls k (line u))) [
                | inr off ↦ rw (same u off) refl
                | inl on ↦ absurd (
                    ground (
                      arith,
                      ne,
                      subst (λ i. same_lock i k ≡ true) (sym (calls-same j k (line u) here on))
                          (same_lock_refl k),
                    ))
              ]
            ])

  awake : (k : Lock) → calls k (line t) ≡ true → waits ((lock k).stage t) ≡ 0 → pending t ≡ false
  awake k here w =
      let masked_off =
        awake-pending threads (heard k pending line (lock k)) t small (permits k) (g.kept k) w in
      ground (arith, masked_off, here)

  -- The thread has nothing to do with the other mutexes.
  elsewhere :
      (j k : Lock) → calls k (line t) ≡ true → same_lock j k ≡ false → (lock j).stage t ≡ away
  elsewhere j k here ne = elim (Bool-cases (calls j (line t))) [
    | inr off ↦ g.placed j t off
    | inl on ↦
        let eq = calls-same j k (line t) on here in
        absurd (ground (arith, ne, subst (λ i. same_lock i k ≡ true) (sym eq) (same_lock_refl k)))
  ]

  -- acquire_mutex returns, and the permit is used up.
  pub acquire_returns-Guarded :
      (k : Lock) (n : ℕ) (l : Line)
      → calls k (line t) ≡ true
      → (lock k).stage t ≡ owning
      → permits k ≡ suc n
      → Guarded threads
          (replace k n permits)
          (replace k (put t away (lock k)) lock)
          pending
          (update line t l)
  acquire_returns-Guarded k n l here at e =
      reset-Guarded g t small k (put t away (lock k)) n l (awake k here (ap waits at))
        (consumed-Kept threads (heard k pending line (lock k)) t small n (rw (← e) (g.kept k)) at)
        (λ u ne. ground arith)
        (λ j off. elim (Bool-cases (same_lock j k)) [
          | inl eq ↦ rw (eq, ==_refl t) refl
          | inr ne ↦ rw ne (elsewhere j k here ne)
        ])

  -- release_mutex returns.
  pub release_returns-Guarded :
      (k : Lock) (l : Line)
      → calls k (line t) ≡ true
      → (lock k).stage t ≡ away
      → Guarded threads permits lock pending (update line t l)
  release_returns-Guarded k l here at =
      goto-Guarded g t small l (awake k here (ap waits at)) (λ j off.
        elim (Bool-cases (same_lock j k)) [
          | inl eq ↦ rw (same_lock-eq j k eq) at
          | inr ne ↦ elsewhere j k here ne
        ])

  -- release_mutex is called, and brings a permit.
  pub call_release-Guarded :
      (k : Lock) (l : Line)
      → ((j : Lock) → calls j (line t) ≡ false)
      → calls k l ≡ true
      → Guarded threads
          (replace k (suc (permits k)) permits)
          (replace k (put t leaving (record (lock k) { pending = pending })) lock)
          pending
          (update line t l)
  call_release-Guarded k l out into =
      reset-Guarded g t small k (put t leaving (record (lock k) { pending = pending }))
        (suc (permits k)) l (g.quiet t out)
        (returned-Kept threads (heard k pending line (lock k)) t small (permits k) (g.kept k)
          (g.placed k t (out k)))
        (λ u ne. ground arith)
        (λ j off. elim (Bool-cases (same_lock j k)) [
          | inl eq ↦
              absurd (
                ground (arith, off, subst (λ i. calls i l ≡ true) (sym (same_lock-eq j k eq)) into))
          | inr ne ↦ rw ne (g.placed j t (out j))
        ])
