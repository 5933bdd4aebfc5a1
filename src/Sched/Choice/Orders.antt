-- ===== src/Sched/Choice/Orders.antt =====
-- Priority, SRTF and SJF: the order in which they choose.
use operating_system_pa.Base.{
  ℕ, ◌≤◌, ◌<◌, ◌≡◌, refl, sym, ap, ◌∙◌, inl, inr, Bool, true, false, Option, none, some, List, [],
  ◌∷◌, ◌++◌, ◌==◌, ltb, leb, if◌then◌else◌, has, All, Result, ok, fault, null_pointer, Returns,
  Returns-both, Bool-cases, arith,
}
use operating_system_pa.Sched.State.{is_wait, readyqueue, System, set_queue, list_del_init}
use operating_system_pa.Sched.Locking.{select, higher_prio}
use operating_system_pa.Sched.Policies.{
  unfinished, dispatch, sjf_loop, sjf_pick, current_unfinished, sjf_schedule, shorter_life,
  srtf_schedule, prio_search, prio_current, prio_pick, prio_schedule,
}
use operating_system_pa.Sched.Sound.{Idle}
use operating_system_pa.Sched.Sound.Linking.{linked-false}
use operating_system_pa.Sched.Contract.{Candidate, Picked}
use operating_system_pa.Sched.Contract.Picking.{some-eq, current-Unlinked}
use operating_system_pa.Sched.Contract.Release.{select-has}
use operating_system_pa.Sched.Contract.Choices.{
  Search, Search-Picked, searched, kept, nobody, prio_schedule-Search, srtf_schedule-Search,
  NotBlocked,
}
use operating_system_pa.Sched.Choice.Best.{All-has, select-largest, select-smallest, select-last}

-- The choice is at least as good as every candidate, in the order `le`.
abbrev pub Prefers : (ℕ → ℕ → Type 0) → System → Option ℕ × System → Type 0
Prefers le s r = (q p : ℕ) → r.0 ≡ some q → Candidate s p → le q p

Search-Prefers :
    (better : ℕ → ℕ → Bool) (le : ℕ → ℕ → Type 0) (s : System) (res : Result (Option ℕ × System))
    → ((c : ℕ) → le c c)
    → ((first : ℕ) (full : List ℕ) → All (λ p. le (select better first full) p) full)
    → Search better s res
    → Returns (Prefers le s) res
Search-Prefers better le s res same best (searched full first pool at e) = rw e (λ q p k c.
    let it : select better first full ≡ q = some-eq _ q k in
    rw (← it)
      (All-has (λ r. le (select better first full) r) full p (best first full) (pool.complete p c)))
Search-Prefers better le s res same best (kept c at w u empty e) = rw e (λ q p k a. elim a [
  | inl h ↦ absurd (ground (arith, ap (has p) empty))
  | inr (b, v, d) ↦
      let x : c ≡ q = some-eq c q k in
      let y : c ≡ p = some-eq c p (sym at ∙ b) in rw (← x, ← y) (same c)
])
Search-Prefers better le s res same best (nobody none_left e) = rw e (λ q p k a. cc)

Search-Best :
    (better : ℕ → ℕ → Bool) (le : ℕ → ℕ → Type 0) (s : System) (res : Result (Option ℕ × System))
    → Idle s
    → ((c : ℕ) → le c c)
    → ((first : ℕ) (full : List ℕ) → All (λ p. le (select better first full) p) full)
    → Search better s res
    → Returns (λ r. Picked s r × Prefers le s r) res
Search-Best better le s res idle same best found =
    Returns-both (Picked s) (Prefers le s) res (Search-Picked better s res idle found)
      (Search-Prefers better le s res same best found)

-- From a sound state, the priority scheduler takes one candidate, of the highest priority of all,
-- makes all the others ready and changes nothing else, and picks nobody only if there is no
-- candidate; the candidates are the ready processes and the current one, unless that is blocked or
-- has completed.
pub prio_schedule-highest :
    (s : System)
    → Idle s
    → Returns
        (λ r. Picked s r × Prefers (λ q p. (s.process p).prio ≤ (s.process q).prio) s r)
        (prio_schedule s)
prio_schedule-highest s idle =
    Search-Best (higher_prio s) (λ q p. (s.process p).prio ≤ (s.process q).prio) s (prio_schedule s)
      idle (λ c. omega arith)
      (λ first full. (select-largest (λ p. (s.process p).prio) first full).1)
      (prio_schedule-Search s idle)

-- SRTF, from a sound state whose current process is not blocked, takes one candidate, of the
-- shortest whole lifespan of all, however much of it is over, makes all the others ready and
-- changes nothing else, and picks nobody only if there is no candidate; the candidates are the
-- ready processes and an unfinished current one.
pub srtf_schedule-shortest :
    (s : System)
    → Idle s
    → NotBlocked s
    → Returns
        (λ r. Picked s r × Prefers (λ q p. (s.process q).lifespan ≤ (s.process p).lifespan) s r)
        (srtf_schedule s)
srtf_schedule-shortest s idle free =
    Search-Best (shorter_life s) (λ q p. (s.process q).lifespan ≤ (s.process p).lifespan) s
      (srtf_schedule s) idle (λ c. omega arith)
      (λ first full. (select-smallest (λ p. (s.process p).lifespan) first full).1)
      (srtf_schedule-Search s idle free)

prio_schedule_current :
    (s : System) (c : ℕ)
    → s.current ≡ some c
    → is_wait (s.process c).status ≡ false
    → prio_schedule s ≡ prio_current c (s.queue readyqueue) s
unfolding prio_schedule
prio_schedule_current s c e w = ap (λ (o : Option ℕ). prio_pick o s) e ∙ rw w

-- The current process is last in the search, so it wins only by a higher priority.
select-turns :
    (s : System) (c p first : ℕ) (l : List ℕ)
    → has c l ≡ false
    → has p l ≡ true
    → has first l ≡ true
    → select (higher_prio s) first (l ++ c ∷ []) ≡ c
    → (s.process p).prio < (s.process c).prio
select-turns s c p first l out at start won =
    let m : ℕ = select (higher_prio s) first l in
    let inside : has m (first ∷ l) ≡ true = select-has (higher_prio s) first l in
    let found : has m l ≡ true = go m inside in
    let best = select-largest (λ r. (s.process r).prio) first l in
    let top : (s.process p).prio ≤ (s.process m).prio =
      All-has (λ r. (s.process r).prio ≤ (s.process m).prio) l p best.1 at in
    let split : c ≡ (if higher_prio s c m then c else m) =
      sym won ∙ select-last (higher_prio s) first c l in
    elim (Bool-cases (higher_prio s c m)) [
      | inl wins ↦ ground (arith, wins, top)
      | inr loses ↦
          let same : c ≡ m = split ∙ rw loses in
          absurd (ground (arith, ap (λ (r : ℕ). has r l) same))
    ]
  where
    go : (m : ℕ) → has m (first ∷ l) ≡ true → has m l ≡ true
    go m h = elim (Bool-cases (m == first)) [
      | inl e ↦ let same : m ≡ first = ground arith in rw same start
      | inr e ↦ ground arith
    ]

prio_search-turns :
    (s : System) (c p first : ℕ)
    → has c (s.queue readyqueue) ≡ false
    → has p (s.queue readyqueue) ≡ true
    → has first (s.queue readyqueue) ≡ true
    → Returns
        (λ r. r.0 ≡ some c → (s.process p).prio < (s.process c).prio)
        (prio_search first (set_queue s readyqueue (s.queue readyqueue ++ c ∷ [])))
prio_search-turns s c p first out at start =
    let q : ℕ = select (higher_prio s) first (s.queue readyqueue ++ c ∷ []) in
    elim (Bool-cases (leb (s.process q).age (s.process q).lifespan)) [
      | inl e ↦
          rw e (λ k. select-turns s c p first (s.queue readyqueue) out at start (some-eq q c k))
      | inr e ↦ rw e (λ k. cc)
    ]

-- From a sound state, an unfinished current process that does not wait goes on under the priority
-- scheduler only if its priority is higher than that of every ready process, so processes of the
-- same priority take turns.
pub prio_schedule-turns :
    (s : System) (c p : ℕ)
    → Idle s
    → s.current ≡ some c
    → is_wait (s.process c).status ≡ false
    → unfinished s c ≡ true
    → has p (s.queue readyqueue) ≡ true
    → Returns (λ r. r.0 ≡ some c → (s.process p).prio < (s.process c).prio) (prio_schedule s)
prio_schedule-turns s c p idle e w u at =
    rw (prio_schedule_current s c e w) (go (s.queue readyqueue) refl)
  where
    Turns : Option ℕ × System → Type 0
    Turns r = r.0 ≡ some c → (s.process p).prio < (s.process c).prio

    go : (l : List ℕ) → s.queue readyqueue ≡ l → Returns Turns (prio_current c l s)
    go [] k = absurd (ground (arith, ap (has p) k))
    go (first ∷ rest) k =
        let apart = current-Unlinked s c idle e w in
        let step : prio_current c (first ∷ rest) s
            ≡ prio_search first (set_queue s readyqueue (s.queue readyqueue ++ c ∷ [])) =
          rw (u, linked-false c s apart) in
        rw step
          (prio_search-turns s c p first (apart readyqueue) at (ap (has first) k ∙ ground arith))

-- A loop over entries that are no shorter than the bound finds nothing new.
sjf_loop-none :
    (s : System) (least : ℕ) (l : List ℕ)
    → All (λ p. least ≤ (s.process p).lifespan) l
    → (o : Option ℕ) → sjf_loop s least o l ≡ o
unfolding sjf_loop
sjf_loop-none s least [] a o = refl
sjf_loop-none s least (p ∷ ps) a o =
    let long : ltb (s.process p).lifespan least ≡ false = ground arith in
    rw (long, sjf_loop) (sjf_loop-none s least ps a.1 o)

-- The loop ends with an entry whose lifespan is the least of all, once the bound is that of the
-- entry found so far.
sjf_loop-shortest :
    (s : System) (b : ℕ) (l : List ℕ)
    → sjf_loop s (s.process b).lifespan (some b) l ≡ some (select (shorter_life s) b l)
unfolding sjf_loop select
sjf_loop-shortest s b [] = refl
sjf_loop-shortest s b (p ∷ ps) = elim (Bool-cases (shorter_life s p b)) [
  | inl e ↦ rw e (sjf_loop-shortest s p ps)
  | inr e ↦ rw e (sjf_loop-shortest s b ps)
]

-- SJF, with no unfinished current process and every ready process living at least 100 ticks,
-- follows a null pointer.
pub sjf_schedule_long :
    (s : System) (p : ℕ) (ps : List ℕ)
    → current_unfinished s.current s ≡ false
    → s.queue readyqueue ≡ p ∷ ps
    → All (λ q. 100 ≤ (s.process q).lifespan) (p ∷ ps)
    → sjf_schedule s ≡ fault null_pointer
unfolding sjf_schedule
sjf_schedule_long s p ps u e long =
    simp u (ap (λ (l : List ℕ). sjf_pick l s) e ∙ rw (sjf_loop-none s 100 (p ∷ ps) long none))

-- SJF, with no unfinished current process, takes a ready process of the shortest lifespan, if the
-- first of the queue lives less than 100 ticks.
pub sjf_schedule-shortest :
    (s : System) (p : ℕ) (ps : List ℕ)
    → current_unfinished s.current s ≡ false
    → s.queue readyqueue ≡ p ∷ ps
    → (s.process p).lifespan < 100
    → Returns
        (λ r.
          (q : ℕ) × (r.0 ≡ some q)
          × (r.1 ≡ list_del_init q readyqueue s)
          × (has q (p ∷ ps) ≡ true)
          × All (λ o. (s.process q).lifespan ≤ (s.process o).lifespan) (p ∷ ps))
        (sjf_schedule s)
unfolding sjf_schedule sjf_loop
sjf_schedule-shortest s p ps u e short =
    let q : ℕ = select (shorter_life s) p ps in
    let first : ltb (s.process p).lifespan 100 ≡ true = ground arith in
    let (h, a) = select-smallest (λ o. (s.process o).lifespan) p ps in
    let found : sjf_loop s 100 none (p ∷ ps) ≡ some q = rw first (sjf_loop-shortest s p ps) in
    let step : sjf_schedule s ≡ ok (dispatch q s) =
      simp u (ap (λ (l : List ℕ). sjf_pick l s) e ∙ rw found) in
    rw step (q, refl, refl, select-has (shorter_life s) p ps, (h, a))
