-- ===== src/Ring/Preservation/Plain.antt =====
-- The statements outside acquire_mutex and release_mutex.
use native.Mathlib.Decide.{ℕ_discrete}
use operating_system_pa.Base.{
  All-append, ℕ, ◌+◌, ◌%◌, ◌≤◌, ◌<◌, ◌≡◌, refl, sym, ap, ◌∙◌, false, List, [], ◌∷◌, ◌++◌, lt→ltb,
  ==_refl, ==_ne, length, length-append, append-nil, All, update, arith,
}
use operating_system_pa.Ring.State.{
  max_value, Lock, Side, enqueue, dequeue, reserving, accessing, advancing, unlock, returning, Line,
  between, within, Request, generate, count, Ring, next, goto, begin, access, advance_index, event,
  account, silent, loaded,
}
use operating_system_pa.Ring.Signals.{calls, Guarded, goto-Guarded}
use operating_system_pa.Ring.Slots.{Holds, append-Filled, remove-Filled}
use operating_system_pa.Ring.Lines.{
  reserved, entered, Counted, move-Counted, reserved-room, reserved-entry,
}
use operating_system_pa.Ring.Invariant.{
  Small, Fits, Intact, goto-Stocked, begin-Stocked, write-Stocked, read-Stocked, advance-Stocked,
}
use operating_system_pa.Ring.Preservation.{Moved, silent-Moved, alone}

module _ (threads : ℕ) (q : List ℕ) (s : Ring) (t : ℕ) (k : Intact threads s q)
    (small : t < threads) where
  -- From one line outside the calls to another one.
  plain-Guarded :
      (l l' : Line)
      → s.line t ≡ l
      → ((j : Lock) → calls j l ≡ false)
      → Guarded threads k.permits s.lock s.pending (update s.line t l')
  plain-Guarded l l' at out =
      let off : (j : Lock) → calls j (s.line t) ≡ false = λ j. rw at (out j) in
      goto-Guarded k.guarded t small l' (k.guarded.quiet t off)
        (λ j h. k.guarded.placed j t (off j))

  todo-Fits : (rest : List Request) → All Fits rest → (u : ℕ) → All Fits (update s.todo t rest u)
  todo-Fits rest fit u = elim (ℕ_discrete u t) [
    | yes same ↦ rw (same, ==_refl t) fit
    | no ne ↦ rw (==_ne u t ne) (k.fits u)
  ]

  begin-Intact :
      (v : ℕ) (rest : List Request)
      → s.line t ≡ between
      → Small v
      → All Fits rest
      → Intact threads
          (record (goto t (within enqueue reserving) s) {
            value = update s.value t v;
            todo = update s.todo t rest;
          })
          q
  begin-Intact v rest at less fit = record {
    permits = k.permits;
    guarded = plain-Guarded between (within enqueue reserving) at (λ j. refl);
    counted =
        move-Counted k.counted t small k.permits (length q) between (within enqueue reserving) at
          refl refl refl;
    stocked = begin-Stocked k.stocked t small v at less;
    fits = todo-Fits rest fit;
  }

  pub begin-Moved :
      s.line t ≡ between → (todo : List Request) → All Fits todo → Moved threads q (begin t todo s)
  begin-Moved at [] fit = tt
  begin-Moved at (generate v ∷ rest) fit =
      rw (lt→ltb v max_value fit.0) (silent-Moved threads q _ (begin-Intact v rest at fit.0 fit.1))
  begin-Moved at (count ∷ rest) fit = silent-Moved threads q _ (record {
    permits = k.permits;
    guarded = plain-Guarded between (within dequeue reserving) at (λ j. refl);
    counted =
        move-Counted k.counted t small k.permits (length q) between (within dequeue reserving) at
          refl refl refl;
    stocked =
        goto-Stocked k.stocked t small (within dequeue reserving) (λ e x. ground arith)
          (λ x. absurd (ground arith));
    fits = todo-Fits rest fit.1;
  })

  pub access-Moved :
      (e : Side)
      → s.line t ≡ within e accessing
      → Moved threads q (next (goto t (within e advancing) (access e t s)) silent)
  access-Moved enqueue at =
      let in_it : entered (s.line t) ≡ 1 = ap entered at in
      let has_room = reserved-room k.counted t small (ap (reserved enqueue) at) in
      silent-Moved threads q _ (record {
        permits = k.permits;
        guarded =
            plain-Guarded (within enqueue accessing) (within enqueue advancing) at (λ j. refl);
        counted =
            move-Counted k.counted t small k.permits (length q) (within enqueue accessing)
              (within enqueue advancing) at refl refl refl;
        stocked =
            write-Stocked k.stocked t small (alone threads q s t k small in_it) at
              (omega (arith, has_room));
        fits = k.fits;
      })
  access-Moved dequeue at =
      let in_it : entered (s.line t) ≡ 1 = ap entered at in
      let some_entry = reserved-entry k.counted t small (ap (reserved dequeue) at) in
      silent-Moved threads q _ (record {
        permits = k.permits;
        guarded =
            plain-Guarded (within dequeue accessing) (within dequeue advancing) at (λ j. refl);
        counted =
            move-Counted k.counted t small k.permits (length q) (within dequeue accessing)
              (within dequeue advancing) at refl refl refl;
        stocked =
            read-Stocked k.stocked t small (alone threads q s t k small in_it) at
              (first_small q some_entry k.stocked.small k.stocked.filled.holds);
        fits = k.fits;
      })
    where
      first_small :
          (l : List ℕ)
          → 1 ≤ length l
          → All Small l
          → Holds s.nr_slots s.slots s.out_index l
          → Small (s.slots s.out_index)
      first_small [] le a h = absurd (omega (arith, le))
      first_small (x ∷ l) le a h = rw h.0 a.0

  pub advance-Moved :
      (e : Side)
      → s.line t ≡ within e advancing
      → Moved threads q (next (goto t (within e unlock) (advance_index e s)) (event e (s.value t)))
  advance-Moved enqueue at =
      let in_it : entered (s.line t) ≡ 1 = ap entered at in
      let v = s.value t in
      let q' = q ++ v ∷ [] in
      let longer : length q' ≡ length q + 1 = length-append q (v ∷ []) in
      (
        q',
        record {
          permits = k.permits;
          guarded = plain-Guarded (within enqueue advancing) (within enqueue unlock) at (λ j. refl);
          counted =
              move-Counted k.counted t small k.permits (length q') (within enqueue advancing)
                (within enqueue unlock) at (omega (arith, longer)) (omega (arith, longer)) refl;
          stocked =
              advance-Stocked k.stocked t small (alone threads q s t k small in_it) enqueue
                ((s.in_index + 1) % s.nr_slots) s.out_index q' at
                (append-Filled s.nr_slots s.slots s.in_index v s.out_index q (k.stocked.writes t at)
                  k.stocked.filled)
                (All-append Small q (v ∷ []) k.stocked.small (k.stocked.valid t (rw at refl), tt));
          fits = k.fits;
        },
        refl,
      )
  advance-Moved dequeue at = go q k (reserved-entry k.counted t small (ap (reserved dequeue) at))
    where
      go :
          (l : List ℕ)
          → Intact threads s l
          → 1 ≤ length l
          → Moved threads l
              (next (goto t (within dequeue unlock) (advance_index dequeue s)) (loaded (s.value t)))
      go [] i le = absurd (omega (arith, le))
      go (x ∷ l) i le =
          let in_it : entered (s.line t) ≡ 1 = ap entered at in
          let read : s.value t ≡ x = i.stocked.reads t at ∙ i.stocked.filled.holds.0 in
          (
            l,
            record {
              permits = i.permits;
              guarded =
                  goto-Guarded i.guarded t small (within dequeue unlock)
                    (i.guarded.quiet t (λ j. rw at refl))
                    (λ j h. i.guarded.placed j t (rw at refl));
              counted =
                  move-Counted i.counted t small i.permits (length l) (within dequeue advancing)
                    (within dequeue unlock) at (omega arith) (omega arith) refl;
              stocked =
                  advance-Stocked i.stocked t small (alone threads (x ∷ l) s t i small in_it)
                    dequeue s.in_index ((s.out_index + 1) % s.nr_slots) l at
                    (remove-Filled s.nr_slots s.slots s.in_index s.out_index x l i.stocked.filled)
                    i.stocked.small.1;
              fits = i.fits;
            },
            append-nil (x ∷ l) ∙ ap (λ y. y ∷ l) (sym read),
          )

  between-Intact : (e : Side) → s.line t ≡ within e returning → Intact threads (goto t between s) q
  between-Intact e at = record {
    permits = k.permits;
    guarded = plain-Guarded (within e returning) between at (λ j. refl);
    counted = counted' e at;
    stocked =
        goto-Stocked k.stocked t small between (λ f x. ground arith) (λ x. absurd (ground arith));
    fits = k.fits;
  }
    where
      counted' :
          (e : Side)
          → s.line t ≡ within e returning
          → Counted threads s.nr_slots k.permits (update s.line t between) (length q)
      counted' enqueue at =
          move-Counted k.counted t small k.permits (length q) (within enqueue returning) between at
            refl refl refl
      counted' dequeue at =
          move-Counted k.counted t small k.permits (length q) (within dequeue returning) between at
            refl refl refl

  pub account-Moved :
      (e : Side) → s.line t ≡ within e returning → Moved threads q (account e t (goto t between s))
  account-Moved enqueue at =
      let i = between-Intact enqueue at in
      silent-Moved threads q _ (record {
        permits = i.permits;
        guarded = i.guarded;
        counted = i.counted;
        stocked = i.stocked;
        fits = i.fits;
      })
  account-Moved dequeue at =
      let i = between-Intact dequeue at in
      let less : Small (s.value t) = k.stocked.valid t (rw at refl) in
      rw (lt→ltb (s.value t) max_value less) (
        silent-Moved threads q _ (record {
          permits = i.permits;
          guarded = i.guarded;
          counted = i.counted;
          stocked = i.stocked;
          fits = i.fits;
        }))
