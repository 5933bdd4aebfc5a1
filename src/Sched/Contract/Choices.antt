-- ===== src/Sched/Contract/Choices.antt =====
-- The schedule callbacks of pa2.c that search the ready queue, and FIFO: what they choose.
use operating_system_pa.Base.{
  ℕ, ◌≡◌, refl, sym, ap, ◌∙◌, inl, inr, Bool, true, false, Option, none, some, List, [], ◌∷◌, ◌++◌,
  leb, has, has-append, Result, ok, Returns, Bool-cases, arith,
}
use operating_system_pa.Sched.State.{is_wait, readyqueue, System, set_queue}
use operating_system_pa.Sched.Locking.{select, higher_prio}
use operating_system_pa.Sched.Policies.{
  unfinished, dispatch, fifo_current, fifo_schedule, shorter_life, srtf_search, srtf_preempt,
  srtf_start, srtf_schedule, prio_search, prio_current, prio_start, prio_pick, prio_schedule,
}
use operating_system_pa.Sched.Sound.{Idle}
use operating_system_pa.Sched.Sound.Linking.{linked-false}
use operating_system_pa.Sched.Contract.{Candidate, Picked}
use operating_system_pa.Sched.Contract.Release.{select-has}
use operating_system_pa.Sched.Contract.Picking.{
  some-eq, set_queue_same, current-Unlinked, IsPool, dispatch-Picked, keep-Picked, idle-Picked,
  OnlyReady, ready-IsPool, appended-IsPool, prepended-IsPool, first-Picked,
}

pub fifo_schedule-Picked : (s : System) → Idle s → Returns (Picked s) (fifo_schedule s)
unfolding fifo_schedule
fifo_schedule-Picked s idle = elim (Bool-cases (fifo_current s.current s)) [
  | inr stop ↦ rw stop (first-Picked s (s.queue readyqueue) idle (blocked s.current refl stop) refl)
  | inl go ↦ rw go (keep s.current refl go)
]
  where
    blocked : (o : Option ℕ) → s.current ≡ o → fifo_current o s ≡ false → OnlyReady s
    blocked none e stop p k w u = cc
    blocked (some c) e stop p k w u = let same : c ≡ p = ground arith in ground (arith, same)

    keep : (o : Option ℕ) → s.current ≡ o → fifo_current o s ≡ true → Picked s (o, s)
    keep none e go = cc
    keep (some c) e go = keep-Picked s c idle e (ground arith) (ground arith)

-- How a search of the ready queue ends: with the best of all candidates in the order `full`, with
-- the only candidate, or with nobody.
pub data Search (better : ℕ → ℕ → Bool) (s : System) (res : Result (Option ℕ × System))
    : Type 0 where
  searched :
      (full : List ℕ) (first : ℕ)
      → IsPool s full
      → has first full ≡ true
      → res ≡ ok (dispatch (select better first full) (set_queue s readyqueue full))
      → Search better s res
  kept :
      (c : ℕ)
      → s.current ≡ some c
      → is_wait (s.process c).status ≡ false
      → unfinished s c ≡ true
      → s.queue readyqueue ≡ []
      → res ≡ ok (some c, s)
      → Search better s res
  nobody : ((p : ℕ) → ¬ (Candidate s p)) → res ≡ ok (none, s) → Search better s res

pub Search-Picked :
    (better : ℕ → ℕ → Bool) (s : System) (res : Result (Option ℕ × System))
    → Idle s
    → Search better s res
    → Returns (Picked s) res
Search-Picked better s res idle (searched full first pool at e) = rw e (
    dispatch-Picked s full (select better first full) pool
      (ground (arith, select-has better first full)))
Search-Picked better s res idle (kept c at w u empty e) = rw e (keep-Picked s c idle at w u)
Search-Picked better s res idle (nobody none_left e) = rw e (idle-Picked s idle none_left)

none_ready : (s : System) → OnlyReady s → s.queue readyqueue ≡ [] → (p : ℕ) → ¬ (Candidate s p)
none_ready s only e p (inl h) = absurd (ground (arith, ap (has p) e))
none_ready s only e p (inr (k, w, u)) = only p k w u

complete_only : (s : System) (c : ℕ) → s.current ≡ some c → unfinished s c ≡ false → OnlyReady s
complete_only s c e u r k v d = ground (arith, ap (unfinished s) (some-eq c r (sym e ∙ k)))

abbrev chosen : System → ℕ → Result (Option ℕ × System)
chosen s q = ok (dispatch q s)

-- A search of the ready queue as it stands.
start-Search :
    (better : ℕ → ℕ → Bool) (s : System) (p : ℕ) (ps : List ℕ)
    → Idle s
    → OnlyReady s
    → s.queue readyqueue ≡ p ∷ ps
    → Search better s (ok (dispatch (select better p (p ∷ ps)) s))
start-Search better s p ps idle only e =
    searched (s.queue readyqueue) p (ready-IsPool s idle only) (ap (has p) e ∙ ground arith) (
      ap (λ (l : List ℕ). chosen s (select better p l)) (sym e)
      ∙ ap (λ (t : System). chosen t (select better p (s.queue readyqueue)))
          (sym (set_queue_same s readyqueue)))

prio_start-Search :
    (s : System) (l : List ℕ)
    → Idle s
    → OnlyReady s
    → s.queue readyqueue ≡ l
    → Search (higher_prio s) s (ok (prio_start l s))
prio_start-Search s [] idle only e = nobody (none_ready s only e) refl
prio_start-Search s (p ∷ ps) idle only e = start-Search (higher_prio s) s p ps idle only e

-- The test of the age passes, since no process is older than its lifespan.
prio_search-Search :
    (s : System) (full : List ℕ) (first : ℕ)
    → Idle s
    → IsPool s full
    → has first full ≡ true
    → Search (higher_prio s) s (prio_search first (set_queue s readyqueue full))
prio_search-Search s full first idle pool at =
    let q = select (higher_prio s) first full in
    let grown = (idle.sound.processes q).grown in
    let check : leb (s.process q).age (s.process q).lifespan ≡ true = ground arith in
    searched full first pool at (rw check)

prio_current-Search :
    (s : System) (c : ℕ) (l : List ℕ)
    → Idle s
    → s.current ≡ some c
    → is_wait (s.process c).status ≡ false
    → s.queue readyqueue ≡ l
    → Search (higher_prio s) s (prio_current c l s)
prio_current-Search s c [] idle e w at = elim (Bool-cases (unfinished s c)) [
  | inl u ↦ kept c e w u at (rw u)
  | inr u ↦ nobody (none_ready s (complete_only s c e u) at) (rw u)
]
prio_current-Search s c (p ∷ ps) idle e w at = elim (Bool-cases (unfinished s c)) [
  | inl u ↦
      let full : List ℕ = s.queue readyqueue ++ c ∷ [] in
      let apart = linked-false c s (current-Unlinked s c idle e w) in
      let first : has p full ≡ true =
        has-append p (s.queue readyqueue) (c ∷ []) ∙ ground (arith, ap (has p) at) in
      let step : prio_current c (p ∷ ps) s ≡ prio_search p (set_queue s readyqueue full) =
        rw (u, apart) in
      rw step (prio_search-Search s full p idle (appended-IsPool s c idle e w u) first)
  | inr u ↦
      let step : prio_current c (p ∷ ps) s
          ≡ prio_search p (set_queue s readyqueue (s.queue readyqueue)) =
        rw u (ap (prio_search p) (sym (set_queue_same s readyqueue))) in
      rw step (
        prio_search-Search s (s.queue readyqueue) p idle
          (ready-IsPool s idle (complete_only s c e u)) (ap (has p) at ∙ ground arith))
]

srtf_start-Search :
    (s : System) (l : List ℕ)
    → Idle s
    → OnlyReady s
    → s.queue readyqueue ≡ l
    → Search (shorter_life s) s (ok (srtf_start l s))
srtf_start-Search s [] idle only e = nobody (none_ready s only e) refl
srtf_start-Search s (p ∷ ps) idle only e = start-Search (shorter_life s) s p ps idle only e

-- The test of the age passes, since no process is older than its lifespan.
srtf_search-Search :
    (s : System) (full : List ℕ) (first : ℕ)
    → Idle s
    → IsPool s full
    → has first full ≡ true
    → Search (shorter_life s) s (srtf_search first (set_queue s readyqueue full))
srtf_search-Search s full first idle pool at =
    let q = select (shorter_life s) first full in
    let grown = (idle.sound.processes q).grown in
    let check : leb (s.process q).age (s.process q).lifespan ≡ true = ground arith in
    searched full first pool at (rw check)

srtf_preempt-Search :
    (s : System) (c : ℕ) (l : List ℕ)
    → Idle s
    → s.current ≡ some c
    → is_wait (s.process c).status ≡ false
    → s.queue readyqueue ≡ l
    → Search (shorter_life s) s (srtf_preempt c l s)
srtf_preempt-Search s c [] idle e w at = elim (Bool-cases (unfinished s c)) [
  | inl u ↦ kept c e w u at (rw u)
  | inr u ↦ nobody (none_ready s (complete_only s c e u) at) (rw u)
]
srtf_preempt-Search s c (p ∷ ps) idle e w at = elim (Bool-cases (unfinished s c)) [
  | inl u ↦
      let full : List ℕ = c ∷ s.queue readyqueue in
      let apart = linked-false c s (current-Unlinked s c idle e w) in
      let first : has p full ≡ true = ground (arith, ap (has p) at) in
      let step : srtf_preempt c (p ∷ ps) s ≡ srtf_search p (set_queue s readyqueue full) =
        rw (u, apart) in
      rw step (srtf_search-Search s full p idle (prepended-IsPool s c idle e w u) first)
  | inr u ↦
      let step : srtf_preempt c (p ∷ ps) s
          ≡ srtf_search p (set_queue s readyqueue (s.queue readyqueue)) =
        rw u (ap (srtf_search p) (sym (set_queue_same s readyqueue))) in
      rw step (
        srtf_search-Search s (s.queue readyqueue) p idle
          (ready-IsPool s idle (complete_only s c e u)) (ap (has p) at ∙ ground arith))
]

blocked_only :
    (s : System) (c : ℕ) → s.current ≡ some c → is_wait (s.process c).status ≡ true → OnlyReady s
blocked_only s c e w p k v d = ground (arith, some-eq c p (sym e ∙ k))

pub prio_schedule-Search : (s : System) → Idle s → Search (higher_prio s) s (prio_schedule s)
unfolding prio_schedule
prio_schedule-Search s idle = go s.current refl
  where
    go : (o : Option ℕ) → s.current ≡ o → Search (higher_prio s) s (prio_pick o s)
    go none e = prio_start-Search s (s.queue readyqueue) idle (λ p k w u. cc) refl
    go (some c) e = elim (Bool-cases (is_wait (s.process c).status)) [
      | inl w ↦ rw w (prio_start-Search s (s.queue readyqueue) idle (blocked_only s c e w) refl)
      | inr w ↦ rw w (prio_current-Search s c (s.queue readyqueue) idle e w refl)
    ]

-- The current process is not waiting for a resource.
abbrev pub NotBlocked : System → Type 0
NotBlocked s = (c : ℕ) → s.current ≡ some c → is_wait (s.process c).status ≡ false

pub srtf_schedule-Search :
    (s : System) → Idle s → NotBlocked s → Search (shorter_life s) s (srtf_schedule s)
unfolding srtf_schedule
srtf_schedule-Search s idle free = go s.current refl
  where
    go :
        (o : Option ℕ)
        → s.current ≡ o
        → Search (shorter_life s) s (elim o [
          | some c ↦ srtf_preempt c (s.queue readyqueue) s
          | none ↦ ok (srtf_start (s.queue readyqueue) s)
        ])
    go none e = srtf_start-Search s (s.queue readyqueue) idle (λ p k w u. cc) refl
    go (some c) e = srtf_preempt-Search s c (s.queue readyqueue) idle e (free c e) refl
