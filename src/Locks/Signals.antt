-- ===== src/Locks/Signals.antt =====
-- pa3.c: one pending SIGUSR2 per thread serves all mutexes. A statement of one mutex does not depend
-- on the signals of threads that are in calls on other mutexes, nor changes them.
use native.Mathlib.Decide.{ℕ_discrete}
use operating_system_pa.Base.{
  ℕ, ◌≡◌, ◌≢◌, refl, sym, ap, subst, fun_ext, ◌∙◌, inl, inr, Bool, true, false, ◌&&◌, some, List,
  [], ◌∷◌, ==_refl, ==_ne, Bool-cases, update, arith,
}
use mathlib.Core.Option
use operating_system_pa.Locks.Mutex.{
  Stage, away, entering, counting, enqueueing, queued, sleeping, passing, owning, leaving,
  restoring, waking, finishing, dequeued, killing, Mutex, wake_next, act,
}

-- The mutex with only the signals of the threads that the mask lets through.
abbrev pub masked : (ℕ → Bool) → Mutex → Mutex
masked mask s = record s { pending = λ u. s.pending u && mask u }

-- A thread that sleeps or is about to be signalled has its signal let through.
abbrev pub Heard : (ℕ → Bool) → ℕ → Stage → Type 0
Heard mask t (killing u) = mask u ≡ true
Heard mask t _ = mask t ≡ true

update-masked :
    (mask pending : ℕ → Bool) (t : ℕ) (b : Bool)
    → mask t ≡ true
    → update (λ u. pending u && mask u) t b ≡ (λ u. update pending t b u && mask u)
update-masked mask pending t b h = fun_ext λ u. elim (ℕ_discrete u t) [
  | yes same ↦ rw (same, ==_refl t, h) (ground arith)
  | no ne ↦ rw (==_ne u t ne) refl
]

pub act-masked :
    (mask : ℕ → Bool) (t : ℕ) (p : Stage) (s : Mutex)
    → Heard mask t p
    → act p t (masked mask s) ≡ Option.map (masked mask) (act p t s)
unfolding act
act-masked mask t away s h = refl
act-masked mask t entering s h = refl
act-masked mask t counting s h = refl
act-masked mask t enqueueing s h = refl
act-masked mask t queued s h = refl
act-masked mask t sleeping s h = elim (Bool-cases (s.pending t)) [
  | inl sent ↦
      rw (sent, h)
        (ap (λ (f : ℕ → Bool). some (record s { stage = update s.stage t owning; pending = f }))
          (update-masked mask s.pending t false h))
  | inr unsent ↦ rw unsent refl
]
act-masked mask t passing s h = refl
act-masked mask t owning s h = refl
act-masked mask t leaving s h = refl
act-masked mask t restoring s h = refl
act-masked mask t waking s h = ap (λ (m : Mutex). some m) (go s.queue)
  where
    go : (l : List ℕ) → wake_next t l (masked mask s) ≡ masked mask (wake_next t l s)
    go [] = refl
    go (u ∷ us) = refl
act-masked mask t (dequeued u) s h = refl
act-masked mask t (killing u) s h =
    ap (λ (f : ℕ → Bool). some (record s { stage = update s.stage t away; pending = f }))
      (update-masked mask s.pending u true h)
act-masked mask t finishing s h = refl

-- What a statement of the thread `t` leaves alone.
pub record Local (mask : ℕ → Bool) (t : ℕ) (s s' : Mutex) : Type 0 where
  pub others : (u : ℕ) → u ≢ t → s'.stage u ≡ s.stage u
  pub unheard : (u : ℕ) → mask u ≡ false → s'.pending u ≡ s.pending u

module _ (mask : ℕ → Bool) (t : ℕ) (s : Mutex) where
  moves-Local :
      (s' : Mutex) (p : Stage)
      → s'.stage ≡ update s.stage t p
      → s'.pending ≡ s.pending
      → Local mask t s s'
  moves-Local s' p e k = record {
    others = λ u ne. ap (λ (f : ℕ → Stage). f u) e ∙ ground arith;
    unheard = λ u h. ap (λ (f : ℕ → Bool). f u) k;
  }

  signals-Local :
      (p : Stage) (v : ℕ) (b : Bool)
      → mask v ≡ true
      → Local mask t s (record s { stage = update s.stage t p; pending = update s.pending v b })
  signals-Local p v b h = record {
    others = λ u ne. ground arith;
    unheard = λ u k. let other : u ≢ v = ground (arith, h, k) in rw (==_ne u v other) refl;
  }

  wake_next-Local : (l : List ℕ) → Local mask t s (wake_next t l s)
  wake_next-Local [] = moves-Local _ away refl refl
  wake_next-Local (u ∷ us) = moves-Local _ (dequeued u) refl refl

  settled : {r : Mutex} → (s' : Mutex) → some r ≡ some s' → Local mask t s r → Local mask t s s'
  settled s' e l = subst (λ (x : Mutex). Local mask t s x) (ground (arith, e)) l

  pub act-Local :
      (p : Stage) (s' : Mutex) → Heard mask t p → act p t s ≡ some s' → Local mask t s s'
  unfolding act
  act-Local away s' h e = settled s' e (moves-Local _ _ refl refl)
  act-Local entering s' h e = settled s' e (moves-Local _ _ refl refl)
  act-Local counting s' h e = settled s' e (moves-Local _ _ refl refl)
  act-Local enqueueing s' h e = settled s' e (moves-Local _ _ refl refl)
  act-Local queued s' h e = settled s' e (moves-Local _ _ refl refl)
  act-Local sleeping s' h e = elim (Bool-cases (s.pending t)) [
    | inl sent ↦ settled s' (sym (rw sent) ∙ e) (signals-Local owning t false h)
    | inr unsent ↦ absurd (ground (arith, unsent))
  ]
  act-Local passing s' h e = settled s' e (moves-Local _ _ refl refl)
  act-Local owning s' h e = settled s' e (moves-Local _ _ refl refl)
  act-Local leaving s' h e = settled s' e (moves-Local _ _ refl refl)
  act-Local restoring s' h e = settled s' e (moves-Local _ _ refl refl)
  act-Local waking s' h e = settled s' e (wake_next-Local s.queue)
  act-Local (dequeued u) s' h e = settled s' e (moves-Local _ _ refl refl)
  act-Local (killing u) s' h e = settled s' e (signals-Local away u true h)
  act-Local finishing s' h e = settled s' e (moves-Local _ _ refl refl)
