-- ===== src/Sched/Choice/Turns.antt =====
-- Round-robin.
use operating_system_pa.Base.{
  ℕ, ◌≡◌, ap, fun_ext, ◌∙◌, inl, inr, true, false, Option, some, List, [], ◌∷◌, ◌++◌, ==_refl,
  Result, ok, Bool-cases,
}
use operating_system_pa.Sched.State.{
  is_wait, Head, readyqueue, same_head, System, set_queue, linked,
}
use operating_system_pa.Sched.Policies.{unfinished, dispatch, rr_pick, rr_schedule}
use operating_system_pa.Sched.Sound.{Idle}
use operating_system_pa.Sched.Sound.Linking.{linked-false}
use operating_system_pa.Sched.Contract.Picking.{current-Unlinked}

set_queue_twice :
    (s : System) (h : Head) (xs ys : List ℕ) → set_queue (set_queue s h xs) h ys ≡ set_queue s h ys
set_queue_twice s h xs ys =
    ap (λ (f : Head → List ℕ). record s { queue = f })
      (fun_ext λ k. elim (Bool-cases (same_head k h)) [ inl e ↦ rw e | inr e ↦ rw e ])

-- Round-robin, from a sound state with ready processes: an unfinished current process that does
-- not wait goes behind them and the first of them runs.
pub rr_schedule-rotates :
    (s : System) (c p : ℕ) (ps : List ℕ)
    → Idle s
    → s.current ≡ some c
    → is_wait (s.process c).status ≡ false
    → unfinished s c ≡ true
    → s.queue readyqueue ≡ p ∷ ps
    → rr_schedule s ≡ ok (some p, set_queue s readyqueue (ps ++ c ∷ []))
unfolding rr_schedule
rr_schedule-rotates s c p ps idle e w u q =
    let apart = linked-false c s (current-Unlinked s c idle e w) in
    let behind : System → List ℕ → Result (Option ℕ × System) =
      λ t l. ok (dispatch p (set_queue t readyqueue (l ++ c ∷ []))) in
    ap (λ (o : Option ℕ). rr_pick o (s.queue readyqueue) s) e
    ∙ ap (λ (l : List ℕ). rr_pick (some c) l s) q
    ∙ rr_pick_behind s c p ps u apart
    ∙ ap (behind s) q
    ∙ ap (λ (t : System). ok (some p, t)) (after_head s c p ps)
  where
    rr_pick_behind :
        (s : System) (c p : ℕ) (ps : List ℕ)
        → unfinished s c ≡ true
        → linked c s ≡ false
        → rr_pick (some c) (p ∷ ps) s
          ≡ ok (dispatch p (set_queue s readyqueue (s.queue readyqueue ++ c ∷ [])))
    rr_pick_behind s c p ps u l = rw (u, l)

    after_head :
        (s : System) (c p : ℕ) (ps : List ℕ)
        → (dispatch p (set_queue s readyqueue ((p ∷ ps) ++ c ∷ []))).1
          ≡ set_queue s readyqueue (ps ++ c ∷ [])
    after_head s c p ps =
        rw (==_refl p) (set_queue_twice s readyqueue (p ∷ (ps ++ c ∷ [])) (ps ++ c ∷ []))
