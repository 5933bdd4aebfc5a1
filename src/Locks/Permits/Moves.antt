-- ===== src/Locks/Permits/Moves.antt =====
-- A statement moves one thread to another stage: what that does to the counts.
use native.Mathlib.Decide.{ℕ_discrete}
use operating_system_pa.Base.{
  ℕ, zero, suc, ◌+◌, ◌≤◌, ◌<◌, ◌≡◌, refl, sym, ap, ◌∙◌, inl, inr, Bool, true, false, some, List,
  ◌==◌, ==_refl, ==_ne, if◌then◌else◌, Bool-cases, length, update, indicator, term-le-sum_below,
  subst, arith,
}
use operating_system_pa.Locks.Mutex.{
  ℤ, pos, negsuc, decrement, increment, is_negative, is_not_positive, Stage, away, entering,
  counting, enqueueing, queued, sleeping, passing, owning, leaving, restoring, waking, finishing,
  dequeued, killing, Mutex, put, try_hold,
}
use operating_system_pa.Locks.Permits.{
  takes, waits, locks, enqueues, wakes, aims, count, Balance, total, Kept, total-update,
}

-- The thread `t` goes from the stage `q` to `p`; the other fields become what the arguments say.
module _ {threads n : ℕ} (s : Mutex) (t : ℕ) (q p : Stage) (k : ℤ) (h : ℕ) (l : List ℕ)
    (pend : ℕ → Bool) (kept : Kept threads n s) (small : t < threads) (at : s.stage t ≡ q) where
  abbrev pub moved : Mutex
  moved = record { permits = k; hold = h; queue = l; stage = update s.stage t p; pending = pend }

  abbrev sum : (Stage → ℕ) → ℕ
  sum f = total threads f s.stage

  pub moved-Kept :
      s.hold + locks p ≡ h + locks q
      → h ≤ 1
      → ((m : ℕ) → m + takes q ≡ sum takes + takes p → Balance k m n)
      → sum takes + takes p + sum wakes + wakes p + enqueues q
        ≤ n + sum enqueues + enqueues p + length l + takes q + wakes q
      → (1 + wakes q ≤ sum wakes + wakes p → n + takes q ≤ sum takes + takes p)
      → ((u : ℕ)
          → count u l + sum (aims u) + aims u p + indicator (pend u)
            ≡ waits (if u == t then p else s.stage u) + aims u q)
      → Kept threads n moved
  moved-Kept locked one balance bound woken each =
      let change = λ (f : Stage → ℕ). total-update threads f s.stage t q p small at in
      record {
        locked = omega (arith, change locks, kept.locked, locked);
        one = one;
        balance = balance (total threads takes (update s.stage t p)) (change takes);
        bound = omega (arith, change takes, change wakes, change enqueues, bound);
        woken = λ w. omega (arith, change takes, woken (omega (arith, change wakes, w)));
        each = λ u. omega (arith, change (aims u), each u);
        far = λ u le. ground (arith, kept.far u le);
      }

-- A stage with no thread to signal, and neither before nor behind a wait.
pub no_aim :
    (u : ℕ) (s : Mutex) (t : ℕ) (q p : Stage)
    → s.stage t ≡ q
    → waits q ≡ waits p
    → waits (if u == t then p else s.stage u) ≡ waits (s.stage u)
no_aim u s t q p at e = elim (ℕ_discrete u t) [
  | yes same ↦ rw (same, ==_refl t) (sym e ∙ sym (ap waits at))
  | no ne ↦ rw (==_ne u t ne)
]

-- The thread begins, or ends, to wait.
pub begins :
    (u : ℕ) (s : Mutex) (t : ℕ) (q p : Stage)
    → s.stage t ≡ q
    → waits q ≡ 0
    → waits p ≡ 1
    → waits (if u == t then p else s.stage u) ≡ waits (s.stage u) + indicator (u == t)
begins u s t q p at z o = elim (ℕ_discrete u t) [
  | yes same ↦
      let old : waits (s.stage t) ≡ 0 = ap waits at ∙ z in
      rw (same, ==_refl t) (omega (arith, old, o))
  | no ne ↦ rw (==_ne u t ne) (omega arith)
]

pub ends :
    (u : ℕ) (s : Mutex) (t : ℕ) (q p : Stage)
    → s.stage t ≡ q
    → waits q ≡ 1
    → waits p ≡ 0
    → waits (if u == t then p else s.stage u) + indicator (u == t) ≡ waits (s.stage u)
ends u s t q p at o z = elim (ℕ_discrete u t) [
  | yes same ↦
      let old : waits (s.stage t) ≡ 1 = ap waits at ∙ o in
      rw (same, ==_refl t) (omega (arith, old, z))
  | no ne ↦ rw (==_ne u t ne) (omega arith)
]

pub waits-le : (p : Stage) → waits p ≤ 1
waits-le queued = omega arith
waits-le sleeping = omega arith
waits-le away = omega arith
waits-le entering = omega arith
waits-le counting = omega arith
waits-le enqueueing = omega arith
waits-le passing = omega arith
waits-le owning = omega arith
waits-le leaving = omega arith
waits-le restoring = omega arith
waits-le waking = omega arith
waits-le finishing = omega arith
waits-le (dequeued u) = omega arith
waits-le (killing u) = omega arith

pub Balance-same : (k : ℤ) (a b n : ℕ) → a ≡ b → Balance k a n → Balance k b n
Balance-same (pos p) a b n e h = omega (arith, e, h)
Balance-same (negsuc p) a b n e h = omega (arith, e, h)

pub Balance-decrement : (k : ℤ) (a b n : ℕ) → a + 1 ≡ b → Balance k a n → Balance (decrement k) b n
Balance-decrement (pos zero) a b n e h = omega (arith, e, h)
Balance-decrement (pos (suc p)) a b n e h = omega (arith, e, h)
Balance-decrement (negsuc p) a b n e h = omega (arith, e, h)

pub Balance-increment : (k : ℤ) (a b n : ℕ) → a ≡ b + 1 → Balance k a n → Balance (increment k) b n
Balance-increment (pos p) a b n e h = omega (arith, e, h)
Balance-increment (negsuc zero) a b n e h = omega (arith, e, h)
Balance-increment (negsuc (suc p)) a b n e h = omega (arith, e, h)

pub Balance-le : (k : ℤ) (a n : ℕ) → is_negative k ≡ false → Balance k a n → a ≤ n
Balance-le (pos p) a n e h = omega (arith, h)
Balance-le (negsuc p) a n e h = absurd (ground arith)

pub Balance-ge : (k : ℤ) (a n : ℕ) → is_not_positive k ≡ true → Balance k a n → n ≤ a
Balance-ge (pos zero) a n e h = omega (arith, h)
Balance-ge (pos (suc p)) a n e h = absurd (ground arith)
Balance-ge (negsuc p) a n e h = omega (arith, h)

pub done :
    {threads n : ℕ} {r : Mutex}
    → (s' : Mutex) → some r ≡ some s'
    → Kept threads n r
    → Kept threads n s'
done {threads} {n} s' e k = subst (λ (x : Mutex). Kept threads n x) (ground (arith, e)) k

module _ (threads n : ℕ) (s : Mutex) (t : ℕ) (kept : Kept threads n s) (small : t < threads) where
  abbrev pub given : (Stage → ℕ) → ℕ
  given f = total threads f s.stage

  -- A step between stages that count the same, which may give `hold` or take it.
  pub plain-Kept :
      (q p : Stage) (h : ℕ)
      → s.stage t ≡ q
      → s.hold + locks p ≡ h + locks q
      → h ≤ 1
      → takes q ≡ takes p
      → wakes q ≡ wakes p
      → enqueues q ≡ enqueues p
      → waits q ≡ waits p
      → ((u : ℕ) → aims u q ≡ aims u p)
      → Kept threads n (record (put t p s) { hold = h })
  plain-Kept q p h at locked one a b c d e =
      moved-Kept s t q p s.permits h s.queue s.pending kept small at locked one
        (λ m f. Balance-same s.permits (given takes) m n (omega (arith, f, a)) kept.balance)
        (omega (arith, kept.bound, a, b, c))
        (λ w. omega (arith, kept.woken (omega (arith, w, b)), a))
        (λ u. omega (arith, kept.each u, no_aim u s t q p at d, e u))

  pub try_hold-Kept :
      (q p : Stage)
      → s.stage t ≡ q
      → locks q ≡ 0
      → locks p ≡ 1
      → takes q ≡ takes p
      → wakes q ≡ wakes p
      → enqueues q ≡ enqueues p
      → waits q ≡ waits p
      → ((u : ℕ) → aims u q ≡ aims u p)
      → Kept threads n (try_hold t q p s)
  try_hold-Kept q p at z o a b c d e = elim (Bool-cases (s.hold == 0)) [
    | inl free ↦
        let none_holds : s.hold ≡ 0 = ground arith in
        rw free (plain-Kept q p 1 at (omega (arith, none_holds, z, o)) (omega arith) a b c d e)
    | inr held ↦ rw held (plain-Kept q q s.hold at refl kept.one refl refl refl refl (λ u. refl))
  ]

  -- The thread gives `hold` back.
  pub unlock-Kept :
      (q p : Stage)
      → s.stage t ≡ q
      → locks q ≡ 1
      → locks p ≡ 0
      → takes q ≡ takes p
      → wakes q ≡ wakes p
      → enqueues q ≡ enqueues p
      → waits q ≡ waits p
      → ((u : ℕ) → aims u q ≡ aims u p)
      → Kept threads n (record (put t p s) { hold = 0 })
  unlock-Kept q p at o z a b c d e =
      let held : 1 ≤ given locks =
        omega (arith, term-le-sum_below threads (λ u. locks (s.stage u)) t small, ap locks at, o) in
      plain-Kept q p 0 at (omega (arith, held, kept.locked, kept.one, o, z)) (omega arith) a b c d e
