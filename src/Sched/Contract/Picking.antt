-- ===== src/Sched/Contract/Picking.antt =====
-- When a choice of the next process is correct.
use native.Mathlib.Decide.{ℕ_discrete}
use operating_system_pa.Base.{
  ℕ, ◌≡◌, sym, ap, subst, fun_ext, ◌∙◌, inl, inr, true, false, none, some, List, [], ◌∷◌, ◌++◌, has,
  remove, Distinct, has-append, has-remove_self, has-remove_other, has_of_remove, remove-Distinct,
  append-Distinct, Bool-cases, arith,
}
use operating_system_pa.Sched.State.{is_wait, Head, readyqueue, same_head, System, set_queue}
use operating_system_pa.Sched.Policies.{unfinished, dispatch, pick_first}
use operating_system_pa.Sched.Sound.{Unlinked, Idle}
use operating_system_pa.Sched.Sound.Linking.{same_head_eq}
use operating_system_pa.Sched.Contract.{Candidate, Picked}
use operating_system_pa.Sched.Contract.Acquire.{running-Unlinked}

pub some-eq : (a b : ℕ) → some a ≡ some b → a ≡ b
some-eq a b e = ground arith

-- A list head that is given the list that it has.
pub set_queue_same : (s : System) (h : Head) → set_queue s h (s.queue h) ≡ s
set_queue_same s h =
    ap (λ (q : Head → List ℕ). record s { queue = q })
      (fun_ext λ k. elim (Bool-cases (same_head k h)) [
        | inl e ↦ rw e (ap s.queue (sym (same_head_eq k h e)))
        | inr e ↦ rw e
      ])

-- A current process that may go on hangs in no list.
pub current-Unlinked :
    (s : System) (c : ℕ)
    → Idle s
    → s.current ≡ some c
    → is_wait (s.process c).status ≡ false
    → Unlinked c s
current-Unlinked s c idle e w =
    let active = idle.active c e in running-Unlinked s c idle.sound.queues (ground arith)

-- The list `full` holds the candidates, each once.
pub record IsPool (s : System) (full : List ℕ) : Type 0 where
  pub distinct : Distinct full
  pub sources : (p : ℕ) → has p full ≡ true → Candidate s p
  pub complete : (p : ℕ) → Candidate s p → has p full ≡ true

pub dispatch-Picked :
    (s : System) (full : List ℕ) (q : ℕ)
    → IsPool s full
    → has q full ≡ true
    → Picked s (dispatch q (set_queue s readyqueue full))
dispatch-Picked s full q pool at = record {
  list = remove q full;
  result =
      ap (λ (f : Head → List ℕ). record s { queue = f })
        (fun_ext λ k. elim (Bool-cases (same_head k readyqueue)) [ inl e ↦ rw e | inr e ↦ rw e ]);
  distinct = remove-Distinct q full pool.distinct;
  sources = λ p h. pool.sources p (has_of_remove p q full h);
  chosen = λ p e. pool.sources p (ground arith);
  detached = λ p e. ground (arith, has-remove_self q full pool.distinct);
  kept = λ p c. elim (ℕ_discrete p q) [
    | yes same ↦ inr (ground arith)
    | no other ↦ inl (has-remove_other p q full other ∙ pool.complete p c)
  ];
  busy = λ e. cc;
}

pub keep-Picked :
    (s : System) (c : ℕ)
    → Idle s
    → s.current ≡ some c
    → is_wait (s.process c).status ≡ false
    → unfinished s c ≡ true
    → Picked s (some c, s)
keep-Picked s c idle e w u = record {
  list = s.queue readyqueue;
  result = sym (set_queue_same s readyqueue);
  distinct = idle.sound.queues.distinct readyqueue;
  sources = λ p h. inl h;
  chosen = λ p k. inr (ground arith);
  detached = λ p k. ground (arith, current-Unlinked s c idle e w readyqueue);
  kept = λ p k. elim k [ inl h ↦ inl h | inr h ↦ inr (sym e ∙ h.0) ];
  busy = λ k. cc;
}

pub idle-Picked : (s : System) → Idle s → ((p : ℕ) → ¬ (Candidate s p)) → Picked s (none, s)
idle-Picked s idle no_one = record {
  list = s.queue readyqueue;
  result = sym (set_queue_same s readyqueue);
  distinct = idle.sound.queues.distinct readyqueue;
  sources = λ p h. inl h;
  chosen = λ p k. cc;
  detached = λ p k. cc;
  kept = λ p c. absurd (no_one p c);
  busy = λ k. no_one;
}

-- Nobody may go on but the ready processes.
abbrev pub OnlyReady : System → Type 0
OnlyReady s =
    (p : ℕ) → s.current ≡ some p → is_wait (s.process p).status ≡ false → unfinished s p ≡ true → ⊥

pub ready-IsPool : (s : System) → Idle s → OnlyReady s → IsPool s (s.queue readyqueue)
ready-IsPool s idle only = record {
  distinct = idle.sound.queues.distinct readyqueue;
  sources = λ p h. inl h;
  complete = λ p c. elim c [ inl h ↦ h | inr h ↦ absurd (only p h.0 h.1 h.2) ];
}

-- The ready processes and, behind them, the current one.
pub appended-IsPool :
    (s : System) (c : ℕ)
    → Idle s
    → s.current ≡ some c
    → is_wait (s.process c).status ≡ false
    → unfinished s c ≡ true
    → IsPool s (s.queue readyqueue ++ c ∷ [])
appended-IsPool s c idle e w u = record {
  distinct =
      append-Distinct c (s.queue readyqueue) (current-Unlinked s c idle e w readyqueue)
        (idle.sound.queues.distinct readyqueue);
  sources = λ p h. elim (ℕ_discrete p c) [
    | yes same ↦ inr (ground arith)
    | no other ↦ inl (ground (arith, has-append p (s.queue readyqueue) (c ∷ [])))
  ];
  complete = λ p k. elim k [
    | inl h ↦ ground (arith, has-append p (s.queue readyqueue) (c ∷ []))
    | inr h ↦ ground (arith, h.0, has-append p (s.queue readyqueue) (c ∷ []))
  ];
}

-- The current process in front of the ready ones.
pub prepended-IsPool :
    (s : System) (c : ℕ)
    → Idle s
    → s.current ≡ some c
    → is_wait (s.process c).status ≡ false
    → unfinished s c ≡ true
    → IsPool s (c ∷ s.queue readyqueue)
prepended-IsPool s c idle e w u = record {
  distinct = (current-Unlinked s c idle e w readyqueue, idle.sound.queues.distinct readyqueue);
  sources = λ p h. elim (ℕ_discrete p c) [
    | yes same ↦ inr (ground arith)
    | no other ↦ inl (ground arith)
  ];
  complete = λ p k. elim k [ inl h ↦ ground arith | inr h ↦ ground (arith, h.0) ];
}

-- A choice from the ready queue as it stands.
pub start-Picked :
    (s : System) (q : ℕ)
    → Idle s
    → OnlyReady s
    → has q (s.queue readyqueue) ≡ true
    → Picked s (dispatch q s)
start-Picked s q idle only at =
    subst (λ t. Picked s (dispatch q t)) (set_queue_same s readyqueue)
      (dispatch-Picked s (s.queue readyqueue) q (ready-IsPool s idle only) at)

none-Picked : (s : System) → Idle s → OnlyReady s → s.queue readyqueue ≡ [] → Picked s (none, s)
none-Picked s idle only e =
    idle-Picked s idle
      (λ p c. elim c [ inl h ↦ absurd (ground (arith, ap (has p) e)) | inr h ↦ only p h.0 h.1 h.2 ])

pub first-Picked :
    (s : System) (l : List ℕ)
    → Idle s
    → OnlyReady s
    → s.queue readyqueue ≡ l
    → Picked s (pick_first l s)
first-Picked s [] idle only e = none-Picked s idle only e
first-Picked s (p ∷ ps) idle only e = start-Picked s p idle only (ap (has p) e ∙ ground arith)
