-- ===== src/Sched/Safety/Staging.antt =====
-- The choice of the next process, and `if (prev) { … }` in __do_simulation.
use native.Mathlib.Decide.{ℕ_discrete}
use operating_system_pa.Base.{
  ℕ, ◌<◌, ◌≡◌, ◌≢◌, ◌⊎◌, refl, sym, ap, fun_ext, ◌∙◌, inl, inr, true, false, Option, none, some,
  List, [], ◌∷◌, ◌==◌, ==_refl, ==_ne, has, update, All, is_empty, ok, Returns, Bool-cases, arith,
}
use operating_system_pa.Sched.State.{
  Status, ready, running, wait, exit, is_wait, ResourceSchedule, Process, Head, readyqueue,
  same_head, System, set_queue, set_status, linked,
}
use operating_system_pa.Sched.Policies.{unfinished}
use operating_system_pa.Sched.Simulation.{exit_process, retire}
use operating_system_pa.Sched.Sound.{
  Queues, Unlinked, Pending, Held, ProcessOk, Idle, is_active, is_alive,
}
use operating_system_pa.Sched.Sound.Linking.{linked-false, Queues-set_process, Queues-set_queue}
use operating_system_pa.Sched.Contract.{Candidate, Picked}
use operating_system_pa.Sched.Contract.Acquire.{running-Unlinked}
use operating_system_pa.Sched.Contract.Picking.{some-eq, current-Unlinked}
use operating_system_pa.Sched.Safety.{Staged}

-- A candidate hangs in the ready queue at most.
candidate_apart :
    (s : System) (p : ℕ) (k : Head)
    → Idle s
    → Candidate s p
    → has p (s.queue k) ≡ true
    → same_head k readyqueue ≡ true
candidate_apart s p k idle (inl h) t = idle.sound.queues.one_head k readyqueue p t h
candidate_apart s p k idle (inr (e, w, u)) t =
    absurd (ground (arith, current-Unlinked s p idle e w k))

-- New process records that leave every candidate ready.
stage :
    (s : System) (next : Option ℕ) (t : System) (f : ℕ → Process)
    → Idle s
    → (pick : Picked s (next, t)) → Queues (record s { process = f })
    → ((p : ℕ) → ProcessOk s.owner p (f p))
    → ((p : ℕ) → Candidate s p → (f p).status ≡ ready)
    → Staged next (record (set_queue s readyqueue pick.list) { process = f; current = next })
stage s next t f idle pick q ok' ready' = record {
  sound = record {
    queues = record { distinct = q'.distinct; one_head = q'.one_head; standing = q'.standing };
    processes = ok';
  };
  current = refl;
  fit = λ p e. ready' p (pick.chosen p e);
  apart = λ p e k. elim (Bool-cases (same_head k readyqueue)) [
    | inl h ↦ rw h (pick.detached p e)
    | inr h ↦ rw h (elim (Bool-cases (has p (s.queue k))) [
      | inl t ↦ absurd (ground (arith, candidate_apart s p k idle (pick.chosen p e) t))
      | inr n ↦ n
    ])
  ];
}
  where
    q' : Queues (set_queue (record s { process = f }) readyqueue pick.list)
    q' =
        Queues-set_queue (record s { process = f }) readyqueue pick.list pick.distinct
          (λ p h. ready' p (pick.sources p h))
          (λ p k h t. candidate_apart s p k idle (pick.sources p h) t) q

ready-ok :
    (owner : ℕ → Option ℕ) (p : ℕ) (x : Process) (st : Status)
    → (is_alive st ≡ true → x.age < x.lifespan)
    → ProcessOk owner p x
    → ProcessOk owner p (record x { status = st })
ready-ok owner p x st a k = record {
  alive = a;
  grown = k.grown;
  small = k.small;
  pending = k.pending;
  held = k.held;
  ids = k.ids;
}

holding-empty :
    (owner : ℕ → Option ℕ) (p age lifespan : ℕ) (l : List ResourceSchedule)
    → age ≡ lifespan
    → All (Held owner p age lifespan) l
    → is_empty l ≡ true
holding-empty owner p age lifespan [] e h = refl
holding-empty owner p age lifespan (x ∷ l) e h = absurd (omega (arith, h.0.1, h.0.2))

Pending-empty :
    (age lifespan : ℕ) (l : List ResourceSchedule)
    → age ≡ lifespan
    → All (Pending age lifespan) l
    → is_empty l ≡ true
Pending-empty age lifespan [] e h = refl
Pending-empty age lifespan (x ∷ l) e h = absurd (omega (arith, h.0.1, h.0.2, h.0.3))

update_twice : (f : ℕ → Process) (c : ℕ) (x y : Process) → update (update f c x) c y ≡ update f c y
update_twice f c x y = fun_ext λ p. elim (Bool-cases (p == c)) [ inl e ↦ rw e | inr e ↦ rw e ]

exit_process-ok :
    (p : ℕ) (s : System)
    → linked p s ≡ false
    → is_empty (s.process p).resources_holding ≡ true
    → is_empty (s.process p).resources_to_acquire ≡ true
    → exit_process p s ≡ ok s
unfolding exit_process
exit_process-ok p s l h a = simp (l, h, a)

module _ (s : System) (c : ℕ) (next : Option ℕ) (t : System) (idle : Idle s)
    (e : s.current ≡ some c) (pick : Picked s (next, t)) where
  abbrev mid : System
  mid = record (set_queue s readyqueue pick.list) { current = next }

  abbrev with_status : Status → ℕ → Process
  with_status st = update s.process c (record (s.process c) { status = st })

  with_status-ok :
      (st : Status)
      → (is_alive st ≡ true → (s.process c).age < (s.process c).lifespan)
      → (p : ℕ) → ProcessOk s.owner p (with_status st p)
  with_status-ok st a p = elim (ℕ_discrete p c) [
    | yes same ↦
        rw (same, ==_refl c) (ready-ok s.owner c (s.process c) st a (idle.sound.processes c))
    | no other ↦ rw (==_ne p c other) (idle.sound.processes p)
  ]

  stage_running :
      (st : Status)
      → (s.process c).status ≡ running
      → (is_alive st ≡ true → (s.process c).age < (s.process c).lifespan)
      → (unfinished s c ≡ true → st ≡ ready)
      → Staged next (record mid { process = with_status st })
  stage_running st run a fit =
      stage s next t (with_status st) idle pick
        (Queues-set_process s c (record (s.process c) { status = st })
          (running-Unlinked s c idle.sound.queues run) idle.sound.queues)
        (with_status-ok st a) candidate
    where
      candidate : (p : ℕ) → Candidate s p → (with_status st p).status ≡ ready
      candidate p (inl h) =
          let r = idle.sound.queues.standing readyqueue p h in
          let other : p ≢ c = ground (arith, r, run) in rw (==_ne p c other) r
      candidate p (inr (k, w, u)) =
          let same = some-eq c p (sym e ∙ k) in rw (← same, ==_refl c) (fit (rw same u))

  stage_wait : is_wait (s.process c).status ≡ true → Staged next mid
  stage_wait w =
      stage s next t s.process idle pick
        (record {
          distinct = idle.sound.queues.distinct;
          one_head = idle.sound.queues.one_head;
          standing = idle.sound.queues.standing;
        })
        idle.sound.processes candidate
    where
      candidate : (p : ℕ) → Candidate s p → (s.process p).status ≡ ready
      candidate p (inl h) = idle.sound.queues.standing readyqueue p h
      candidate p (inr (k, v, u)) =
          let same = some-eq c p (sym e ∙ k) in absurd (ground (arith, same))

  mid-Unlinked :
      (f : ℕ → Process)
      → (s.process c).status ≡ running
      → unfinished s c ≡ false
      → Unlinked c (record mid { process = f })
  mid-Unlinked f run u k =
      let apart = running-Unlinked s c idle.sound.queues run in
      elim (Bool-cases (same_head k readyqueue)) [
        | inr h ↦ rw h (apart k)
        | inl h ↦ rw h (elim (Bool-cases (has c pick.list)) [
          | inr n ↦ n
          | inl y ↦ elim (pick.sources c y) [
            | inl z ↦ absurd (ground (arith, apart readyqueue))
            | inr (a, b, d) ↦ absurd (ground arith)
          ]
        ])
      ]

  retire_running : (s.process c).status ≡ running → Returns (Staged next) (retire (some c) mid)
  unfolding retire
  retire_running run =
      let k = idle.sound.processes c in
      elim (Bool-cases ((s.process c).age == (s.process c).lifespan)) [
        | inr more ↦
            let step : retire (some c) mid ≡ ok (record mid { process = with_status ready }) =
              simp (run, ==_refl c, more) in
            rw step (stage_running ready run (λ h. ground (arith, k.grown)) (λ u. refl))
        | inl done ↦
            let full : (s.process c).age ≡ (s.process c).lifespan = ground arith in
            let f = with_status exit in
            let off =
              linked-false c (record mid { process = f }) (mid-Unlinked f run (ground arith)) in
            let h = holding-empty s.owner c _ _ (s.process c).resources_holding full k.held in
            let a = Pending-empty _ _ (s.process c).resources_to_acquire full k.pending in
            let left : retire (some c) mid ≡ exit_process c (set_status mid c exit) =
              simp (run, ==_refl c, done)
                (ap (λ (g : ℕ → Process). exit_process c (record mid { process = g }))
                  (update_twice s.process c (record (s.process c) { status = ready })
                    (record (s.process c) { status = exit }))) in
            let none_left : exit_process c (set_status mid c exit) ≡ ok (set_status mid c exit) =
              exit_process-ok c (set_status mid c exit) off (simp (==_refl c) h)
                (simp (==_refl c) a) in
            let staged =
              stage_running exit run (λ (h : is_alive exit ≡ true). absurd (ground arith))
                (λ (u : unfinished s c ≡ true). absurd (ground arith)) in
            rw (left, none_left) staged
      ]

  retire_wait : (s.process c).status ≡ wait → Returns (Staged next) (retire (some c) mid)
  unfolding retire
  retire_wait w =
      let alive = (idle.sound.processes c).alive (rw w refl) in
      let differ : ((s.process c).age == (s.process c).lifespan) ≡ false = ground arith in
      let step : retire (some c) mid ≡ ok mid = simp (w, differ) in rw step (stage_wait (rw w refl))

active-cases : (st : Status) → is_active st ≡ true → (st ≡ running) ⊎ (st ≡ wait)
active-cases ready h = cc
active-cases running h = inl refl
active-cases wait h = inr refl
active-cases exit h = cc

-- The predecessor is put back, stays blocked or exits; no assertion of __exit_process fails.
pub retire-Staged :
    (s : System) (next : Option ℕ) (t : System)
    → Idle s
    → Picked s (next, t)
    → Returns (Staged next) (retire s.current (record t { current = next }))
unfolding retire
retire-Staged s next t idle pick = rw pick.result (go s.current refl)
  where
    go :
        (o : Option ℕ)
        → s.current ≡ o
        → Returns
            (Staged next)
            (retire o (record (set_queue s readyqueue pick.list) { current = next }))
    go none e =
        stage s next t s.process idle pick
          (record {
            distinct = idle.sound.queues.distinct;
            one_head = idle.sound.queues.one_head;
            standing = idle.sound.queues.standing;
          })
          idle.sound.processes
          (λ p k. elim k [
            | inl h ↦ idle.sound.queues.standing readyqueue p h
            | inr h ↦ absurd (ground (arith, e))
          ])
    go (some c) e = elim (active-cases (s.process c).status (idle.active c e)) [
      | inl run ↦ retire_running s c next t idle e pick run
      | inr w ↦ retire_wait s c next t idle e pick w
    ]
