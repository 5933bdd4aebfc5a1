-- ===== src/Sched/Sound/Linking.antt =====
-- Linking, unlinking and a change of status keep the queues right.
use operating_system_pa.Base.{
  ℕ, zero, suc, ◌≡◌, ◌⊎◌, refl, sym, ap, ◌∙◌, inl, inr, true, false, List, [], ◌∷◌, ◌++◌,
  if◌then◌else◌, has, remove, Distinct, has-append, has-remove_self, has_of_remove, remove-Distinct,
  append-Distinct, Bool-cases, update, arith,
}
use operating_system_pa.Sched.State.{
  nr_resources, Process, Head, readyqueue, forkqueue, waitqueue, same_head, System, set_queue,
  set_process, waits_below, linked, list_del_init,
}
use operating_system_pa.Sched.Sound.{status_in, Queues, Unlinked}

pub same_head_refl : (h : Head) → same_head h h ≡ true
same_head_refl readyqueue = refl
same_head_refl forkqueue = refl
same_head_refl (waitqueue r) = ground arith

pub same_head_eq : (h k : Head) → same_head h k ≡ true → h ≡ k
same_head_eq readyqueue readyqueue e = refl
same_head_eq readyqueue forkqueue e = cc
same_head_eq readyqueue (waitqueue q) e = cc
same_head_eq forkqueue readyqueue e = cc
same_head_eq forkqueue forkqueue e = refl
same_head_eq forkqueue (waitqueue q) e = cc
same_head_eq (waitqueue r) readyqueue e = cc
same_head_eq (waitqueue r) forkqueue e = cc
same_head_eq (waitqueue r) (waitqueue q) e = ground arith

waits_below-false : (n p : ℕ) (s : System) → Unlinked p s → waits_below n p s ≡ false
unfolding waits_below
waits_below-false zero p s u = refl
waits_below-false (suc n) p s u = rw (waits_below-false n p s u) (u (waitqueue n))

pub linked-false : (p : ℕ) (s : System) → Unlinked p s → linked p s ≡ false
unfolding linked
linked-false p s u = rw (u readyqueue, u forkqueue) (waits_below-false nr_resources p s u)

-- A process hangs in no list if its status is that of none, or if it is only missing where its
-- status would have it.
pub Unlinked-linked :
    (p : ℕ) (s : System)
    → Queues s
    → ((h : Head) → (s.process p).status ≡ status_in h → has p (s.queue h) ≡ false)
    → Unlinked p s
Unlinked-linked p s q f h = elim (Bool-cases (has p (s.queue h))) [
  | inl t ↦ f h (q.standing h p t)
  | inr e ↦ e
]

-- A change of the processes that leaves the linked ones' status alone.
pub Queues-process :
    (s : System) (f : ℕ → Process)
    → ((h : Head) (p : ℕ) → has p (s.queue h) ≡ true → (f p).status ≡ (s.process p).status)
    → Queues s
    → Queues (record s { process = f })
Queues-process s f same q = record {
  distinct = q.distinct;
  one_head = q.one_head;
  standing = λ h p t. same h p t ∙ q.standing h p t;
}

pub Queues-set_process :
    (s : System) (p : ℕ) (x : Process) → Unlinked p s → Queues s → Queues (set_process s p x)
Queues-set_process s p x u q =
    Queues-process s (update s.process p x) (λ h r t. ground (arith, u h)) q

-- New lists at one head, of the right members and status.
pub Queues-set_queue :
    (s : System) (h : Head) (xs : List ℕ)
    → Distinct xs
    → ((p : ℕ) → has p xs ≡ true → (s.process p).status ≡ status_in h)
    → ((p : ℕ) (k : Head) → has p xs ≡ true → has p (s.queue k) ≡ true → same_head k h ≡ true)
    → Queues s
    → Queues (set_queue s h xs)
Queues-set_queue s h xs d st apart q = record {
  distinct =
      λ k. elim (Bool-cases (same_head k h)) [ inl e ↦ rw e d | inr e ↦ rw e (q.distinct k) ];
  one_head = heads;
  standing = λ k p t. elim (Bool-cases (same_head k h)) [
    | inl e ↦ st p (ground (arith, e)) ∙ ap status_in (sym (same_head_eq k h e))
    | inr e ↦ q.standing k p (ground (arith, e))
  ];
}
  where
    here :
        (k : Head) (p : ℕ)
        → has p (if same_head k h then xs else s.queue k) ≡ true
        → ((same_head k h ≡ true) × (has p xs ≡ true))
          ⊎ ((same_head k h ≡ false) × (has p (s.queue k) ≡ true))
    here k p t = elim (Bool-cases (same_head k h)) [
      | inl e ↦ inl (e, ground (arith, e))
      | inr e ↦ inr (e, ground (arith, e))
    ]

    both : (k l : Head) → same_head k h ≡ true → same_head l h ≡ true → same_head k l ≡ true
    both k l a b = rw (same_head_eq k h a, same_head_eq l h b) (same_head_refl h)

    heads :
        (k l : Head) (p : ℕ)
        → has p (if same_head k h then xs else s.queue k) ≡ true
        → has p (if same_head l h then xs else s.queue l) ≡ true
        → same_head k l ≡ true
    heads k l p a b = elim (here k p a) [
      | inl (ek, mk) ↦ elim (here l p b) [
        | inl (el, ml) ↦ both k l ek el
        | inr (el, ml) ↦ both k l ek (apart p l mk ml)
      ]
      | inr (ek, mk) ↦ elim (here l p b) [
        | inl (el, ml) ↦ both k l (apart p k ml mk) el
        | inr (el, ml) ↦ q.one_head k l p mk ml
      ]
    ]

pub Queues-remove : (s : System) (p : ℕ) (h : Head) → Queues s → Queues (list_del_init p h s)
Queues-remove s p h q =
    Queues-set_queue s h (remove p (s.queue h)) (remove-Distinct p (s.queue h) (q.distinct h))
      (λ r t. q.standing h r (has_of_remove r p (s.queue h) t))
      (λ r k t t'. q.one_head k h r t' (has_of_remove r p (s.queue h) t)) q

-- Off its list, a process hangs nowhere.
pub Unlinked-remove :
    (s : System) (p : ℕ) (h : Head)
    → Queues s
    → has p (s.queue h) ≡ true
    → Unlinked p (list_del_init p h s)
Unlinked-remove s p h q t k = elim (Bool-cases (same_head k h)) [
  | inl e ↦ rw e (has-remove_self p (s.queue h) (q.distinct h))
  | inr e ↦ rw e (elim (Bool-cases (has p (s.queue k))) [
    | inl t' ↦ absurd (ground (arith, q.one_head k h p t' t))
    | inr n ↦ n
  ])
]

pub Queues-append :
    (s : System) (p : ℕ) (h : Head)
    → Unlinked p s
    → (s.process p).status ≡ status_in h
    → Queues s
    → Queues (set_queue s h (s.queue h ++ p ∷ []))
Queues-append s p h u st q =
    Queues-set_queue s h (s.queue h ++ p ∷ []) (append-Distinct p (s.queue h) (u h) (q.distinct h))
      (λ r t. elim (member r t) [ inl e ↦ rw e st | inr m ↦ q.standing h r m ])
      (λ r k t t'. elim (member r t) [
        | inl e ↦ absurd (ground (arith, e, u k))
        | inr m ↦ q.one_head k h r t' m
      ])
      q
  where
    member : (r : ℕ) → has r (s.queue h ++ p ∷ []) ≡ true → (r ≡ p) ⊎ (has r (s.queue h) ≡ true)
    member r t = ground (arith, has-append r (s.queue h) (p ∷ []))
