-- ===== src/Ring/Preservation/Calls.antt =====
-- The statements in acquire_mutex and release_mutex, their calls and their returns.
use operating_system_pa.Base.{
  ℕ, suc, ◌-◌, ◌<◌, ◌≡◌, ◌≢◌, refl, ap, subst, fun_ext, ◌∙◌, inl, inr, true, false, Option, none,
  some, List, length, Bool-cases, update, arith,
}
use operating_system_pa.Locks.Mutex.{Stage, away, owning, Mutex, put, act}
use operating_system_pa.Locks.Permits.Passing.{owning-permits}
use operating_system_pa.Ring.State.{
  Lock, sema, mutex, empty, same_lock, Side, enqueue, dequeue, reserving, locking, accessing,
  advancing, unlock, unlocking, post, posting, returning, Line, within, Ring, next, silent, goto,
  set_lock, signalled, acquire_returns, release_returns, is_owning, is_away, call_release, in_mutex,
  outcome, reserves, posts,
}
use operating_system_pa.Ring.Signals.{calls, same_lock_refl, replace, heard, Guarded}
use operating_system_pa.Ring.Signals.Calls.{
  act-Guarded, acquire_returns-Guarded, release_returns-Guarded, call_release-Guarded,
}
use operating_system_pa.Ring.Lines.{Counted, move-Counted}
use operating_system_pa.Ring.Invariant.{Small, carries, Intact, goto-Stocked}
use operating_system_pa.Ring.Preservation.{Moved, silent-Moved}

is_owning-owning : (p : Stage) → is_owning p ≡ true → p ≡ owning
is_owning-owning owning e = refl
is_owning-owning p e = cc

is_away-away : (p : Stage) → is_away p ≡ true → p ≡ away
is_away-away away e = refl
is_away-away p e = cc

replace_twice :
    {A : Type 0} (k : Lock) (x y : A) (f : Lock → A) → replace k x (replace k y f) ≡ replace k x f
replace_twice k x y f =
    fun_ext λ j. elim (Bool-cases (same_lock j k)) [ inl e ↦ rw e | inr e ↦ rw e ]

module _ (threads : ℕ) (q : List ℕ) (s : Ring) (t : ℕ) (k : Intact threads s q)
    (small : t < threads) where
  -- What a call at the line `l` on the mutex `j` needs to go on to `l'`.
  record Onward (j : Lock) (l l' : Line) : Type 0 where
    at : s.line t ≡ l
    into : calls j l ≡ true
    still : (e : Side) → l' ≢ within e advancing
    holds : carries l' ≡ true → Small (s.value t)

  -- A statement inside the call.
  inside-Intact :
      (j : Lock) (l l' : Line) (m : Mutex)
      → Onward j l l'
      → act ((s.lock j).stage t) t (signalled s j) ≡ some m
      → Intact threads (set_lock j m s) q
  inside-Intact j l l' m o e = record {
    permits = k.permits;
    guarded = act-Guarded k.guarded t small j m (rw o.at o.into) e;
    counted = k.counted;
    stocked = k.stocked;
    fits = k.fits;
  }

  -- The last one of release_mutex.
  release_returns-Intact :
      (j : Lock) (l l' : Line) (m : Mutex)
      → Onward j l l'
      → act ((s.lock j).stage t) t (signalled s j) ≡ some m
      → m.stage t ≡ away
      → Counted threads s.nr_slots k.permits (update s.line t l') (length q)
      → Intact threads (goto t l' (set_lock j m s)) q
  release_returns-Intact j l l' m o e here c =
      let g = act-Guarded k.guarded t small j m (rw o.at o.into) e in
      record {
        permits = k.permits;
        guarded =
            release_returns-Guarded g t small j l' (rw o.at o.into) (rw (same_lock_refl j) here);
        counted = c;
        stocked = goto-Stocked k.stocked t small l' o.still o.holds;
        fits = k.fits;
      }

  release-Moved :
      (j : Lock) (l l' : Line)
      → Onward j l l'
      → Counted threads s.nr_slots k.permits (update s.line t l') (length q)
      → Moved threads q (in_mutex t j (λ m. release_returns t j l' m s) s)
  release-Moved j l l' o c = go (act ((s.lock j).stage t) t (signalled s j)) refl
    where
      go :
          (r : Option Mutex)
          → act ((s.lock j).stage t) t (signalled s j) ≡ r
          → Moved threads q (outcome (λ m. release_returns t j l' m s) r)
      go none e = tt
      go (some m) e = elim (Bool-cases (is_away (m.stage t))) [
        | inr more ↦ rw more (silent-Moved threads q _ (inside-Intact j l l' m o e))
        | inl done ↦ rw done (
            silent-Moved threads q _
              (release_returns-Intact j l l' m o e (is_away-away (m.stage t) done) c))
      ]

  -- The last one of acquire_mutex takes a permit with it.
  acquire_returns-Intact :
      (j : Lock) (l l' : Line) (m : Mutex)
      → Onward j l l'
      → act ((s.lock j).stage t) t (signalled s j) ≡ some m
      → m.stage t ≡ owning
      → ((n : ℕ)
          → k.permits j ≡ suc n
          → Counted threads s.nr_slots (replace j n k.permits) (update s.line t l') (length q))
      → Intact threads (goto t l' (set_lock j (put t away m) s)) q
  acquire_returns-Intact j l l' m o e here c =
      let g = act-Guarded k.guarded t small j m (rw o.at o.into) e in
      let new : replace j m s.lock j ≡ m = rw (same_lock_refl j) refl in
      let at : (replace j m s.lock j).stage t ≡ owning = rw (same_lock_refl j) here in
      let one =
        owning-permits threads (heard j m.pending s.line (replace j m s.lock j)) t small
          (k.permits j) (g.kept j) at in
      let n = k.permits j - 1 in
      let split : k.permits j ≡ suc n = omega (arith, one) in
      record {
        permits = replace j n k.permits;
        guarded =
            subst (λ f. Guarded threads (replace j n k.permits) f m.pending (update s.line t l'))
              (ap (λ (x : Mutex). replace j (put t away x) (replace j m s.lock)) new
                ∙ replace_twice j (put t away m) m s.lock)
              (acquire_returns-Guarded g t small j n l' (rw o.at o.into) at split);
        counted = c n split;
        stocked = goto-Stocked k.stocked t small l' o.still o.holds;
        fits = k.fits;
      }

  acquire-Moved :
      (j : Lock) (l l' : Line)
      → Onward j l l'
      → ((n : ℕ)
          → k.permits j ≡ suc n
          → Counted threads s.nr_slots (replace j n k.permits) (update s.line t l') (length q))
      → Moved threads q (in_mutex t j (λ m. acquire_returns t j l' m s) s)
  acquire-Moved j l l' o c = go (act ((s.lock j).stage t) t (signalled s j)) refl
    where
      go :
          (r : Option Mutex)
          → act ((s.lock j).stage t) t (signalled s j) ≡ r
          → Moved threads q (outcome (λ m. acquire_returns t j l' m s) r)
      go none e = tt
      go (some m) e = elim (Bool-cases (is_owning (m.stage t))) [
        | inr more ↦ rw more (silent-Moved threads q _ (inside-Intact j l l' m o e))
        | inl done ↦ rw done (
            silent-Moved threads q _
              (acquire_returns-Intact j l l' m o e (is_owning-owning (m.stage t) done) c))
      ]

  pub reserve-Moved :
      (e : Side)
      → s.line t ≡ within e reserving
      → Moved threads q
          (in_mutex t (reserves e) (λ m. acquire_returns t (reserves e) (within e locking) m s) s)
  reserve-Moved enqueue at =
      acquire-Moved sema (within enqueue reserving) (within enqueue locking)
        (record {
          at = at;
          into = refl;
          still = λ f x. ground arith;
          holds = λ x. k.stocked.valid t (rw at refl);
        })
        (λ n e.
          move-Counted k.counted t small (replace sema n k.permits) (length q)
            (within enqueue reserving) (within enqueue locking) at (omega (arith, e)) refl refl)
  reserve-Moved dequeue at =
      acquire-Moved empty (within dequeue reserving) (within dequeue locking)
        (record {
          at = at;
          into = refl;
          still = λ f x. ground arith;
          holds = λ x. absurd (ground arith);
        })
        (λ n e.
          move-Counted k.counted t small (replace empty n k.permits) (length q)
            (within dequeue reserving) (within dequeue locking) at refl (omega (arith, e)) refl)

  pub lock-Moved :
      (e : Side)
      → s.line t ≡ within e locking
      → Moved threads q (in_mutex t mutex (λ m. acquire_returns t mutex (within e accessing) m s) s)
  lock-Moved e at =
      acquire-Moved mutex (within e locking) (within e accessing)
        (record {
          at = at;
          into = refl;
          still = λ f x. ground arith;
          holds = λ x. k.stocked.valid t (rw at (held e x));
        })
        (λ n d.
          move-Counted k.counted t small (replace mutex n k.permits) (length q) (within e locking)
            (within e accessing) at refl refl (omega (arith, d)))
    where
      held : (e : Side) → carries (within e accessing) ≡ true → carries (within e locking) ≡ true
      held enqueue x = refl
      held dequeue x = absurd (ground arith)

  pub unlocking-Moved :
      (e : Side)
      → s.line t ≡ within e unlocking
      → Moved threads q (in_mutex t mutex (λ m. release_returns t mutex (within e post) m s) s)
  unlocking-Moved e at =
      release-Moved mutex (within e unlocking) (within e post)
        (record {
          at = at;
          into = refl;
          still = λ f x. ground arith;
          holds = λ x. k.stocked.valid t (rw at (held e));
        })
        (move-Counted k.counted t small k.permits (length q) (within e unlocking) (within e post) at
          refl refl refl)
    where
      held : (e : Side) → carries (within e unlocking) ≡ true
      held enqueue = refl
      held dequeue = refl

  pub posting-Moved :
      (e : Side)
      → s.line t ≡ within e posting
      → Moved threads q
          (in_mutex t (posts e) (λ m. release_returns t (posts e) (within e returning) m s) s)
  posting-Moved e at =
      release-Moved (posts e) (within e posting) (within e returning)
        (record {
          at = at;
          into = same_lock_refl (posts e);
          still = λ f x. ground arith;
          holds = λ x. k.stocked.valid t (rw at (held e));
        })
        (move-Counted k.counted t small k.permits (length q) (within e posting) (within e returning)
          at refl refl refl)
    where
      held : (e : Side) → carries (within e posting) ≡ true
      held enqueue = refl
      held dequeue = refl

  -- A call of release_mutex.
  call_release-Moved :
      (j : Lock) (l l' : Line)
      → s.line t ≡ l
      → ((i : Lock) → calls i l ≡ false)
      → calls j l' ≡ true
      → ((e : Side) → l' ≢ within e advancing)
      → carries l ≡ true
      → Counted threads s.nr_slots
          (replace j (suc (k.permits j)) k.permits)
          (update s.line t l')
          (length q)
      → Moved threads q (next (call_release t j l' s) silent)
  call_release-Moved j l l' at out into still held c = silent-Moved threads q _ (record {
    permits = replace j (suc (k.permits j)) k.permits;
    guarded = call_release-Guarded k.guarded t small j l' (λ i. rw at (out i)) into;
    counted = c;
    stocked = goto-Stocked k.stocked t small l' still (λ x. k.stocked.valid t (rw at held));
    fits = k.fits;
  })

  pub unlock-Moved :
      (e : Side)
      → s.line t ≡ within e unlock
      → Moved threads q (next (call_release t mutex (within e unlocking) s) silent)
  unlock-Moved e at =
      call_release-Moved mutex (within e unlock) (within e unlocking) at (λ i. refl) refl
        (λ f x. ground arith) (held e)
        (move-Counted k.counted t small (replace mutex (suc (k.permits mutex)) k.permits) (length q)
          (within e unlock) (within e unlocking) at refl refl (omega arith))
    where
      held : (e : Side) → carries (within e unlock) ≡ true
      held enqueue = refl
      held dequeue = refl

  pub post-Moved :
      (e : Side)
      → s.line t ≡ within e post
      → Moved threads q (next (call_release t (posts e) (within e posting) s) silent)
  post-Moved enqueue at =
      call_release-Moved empty (within enqueue post) (within enqueue posting) at (λ i. refl) refl
        (λ f x. ground arith) refl
        (move-Counted k.counted t small (replace empty (suc (k.permits empty)) k.permits) (length q)
          (within enqueue post) (within enqueue posting) at refl (omega arith) refl)
  post-Moved dequeue at =
      call_release-Moved sema (within dequeue post) (within dequeue posting) at (λ i. refl) refl
        (λ f x. ground arith) refl
        (move-Counted k.counted t small (replace sema (suc (k.permits sema)) k.permits) (length q)
          (within dequeue post) (within dequeue posting) at (omega arith) refl refl)
