-- ===== src/Ring/Signals.antt =====
-- What holds of the three mutexes while threads call them in turn: each keeps its own account of
-- permits, and the signals of a thread are those of the mutex that it is in a call on.
pub mod Calls
use native.Mathlib.Decide.{ℕ_discrete}
use mathlib.Core.Option
use operating_system_pa.Base.{
  ℕ, suc, ◌<◌, ◌≡◌, ◌≢◌, refl, sym, ap, subst, fun_ext, ◌∙◌, inl, inr, Bool, true, false, ◌&&◌,
  some, term-le-sum_below, ==_refl, ==_ne, if◌then◌else◌, Bool-cases, update, indicator, arith,
}
use operating_system_pa.Locks.Mutex.{
  Stage, away, entering, counting, enqueueing, queued, sleeping, passing, restoring, waking,
  finishing, dequeued, leaving, owning, killing, Mutex, put, act,
}
use operating_system_pa.Locks.Permits.{aims, waits, Kept}
use operating_system_pa.Locks.Permits.Preservation.{act-Kept}
use operating_system_pa.Locks.Permits.Passing.{consumed-Kept, returned-Kept, awake-pending}
use operating_system_pa.Locks.Signals.{masked, Heard, act-masked, act-Local}
use operating_system_pa.Ring.State.{
  Lock, sema, mutex, empty, same_lock, Side, enqueue, dequeue, reserving, locking, accessing,
  advancing, unlock, unlocking, post, returning, between, posting, Line, within, reserves, posts,
}

-- Whether the line is inside a call on the mutex.
abbrev pub calls : Lock → Line → Bool
calls k (within e reserving) = same_lock k (reserves e)
calls k (within e locking) = same_lock k mutex
calls k (within e unlocking) = same_lock k mutex
calls k (within e posting) = same_lock k (posts e)
calls k _ = false

pub same_lock-eq : (j k : Lock) → same_lock j k ≡ true → j ≡ k
same_lock-eq sema sema e = refl
same_lock-eq mutex mutex e = refl
same_lock-eq empty empty e = refl
same_lock-eq sema mutex e = cc
same_lock-eq sema empty e = cc
same_lock-eq mutex sema e = cc
same_lock-eq mutex empty e = cc
same_lock-eq empty sema e = cc
same_lock-eq empty mutex e = cc

pub same_lock_refl : (k : Lock) → same_lock k k ≡ true
same_lock_refl sema = refl
same_lock_refl mutex = refl
same_lock_refl empty = refl

-- A line is in a call on one mutex only.
pub calls-same : (j k : Lock) (l : Line) → calls j l ≡ true → calls k l ≡ true → j ≡ k
calls-same j k (within e reserving) a b =
    same_lock-eq j (reserves e) a ∙ sym (same_lock-eq k (reserves e) b)
calls-same j k (within e locking) a b = same_lock-eq j mutex a ∙ sym (same_lock-eq k mutex b)
calls-same j k (within e unlocking) a b = same_lock-eq j mutex a ∙ sym (same_lock-eq k mutex b)
calls-same j k (within e posting) a b =
    same_lock-eq j (posts e) a ∙ sym (same_lock-eq k (posts e) b)
calls-same j k between a b = cc
calls-same j k (within e accessing) a b = cc
calls-same j k (within e advancing) a b = cc
calls-same j k (within e unlock) a b = cc
calls-same j k (within e post) a b = cc
calls-same j k (within e returning) a b = cc

-- One of the three is replaced.
abbrev pub replace {ℓ} : {A : Type ℓ} → Lock → A → (Lock → A) → Lock → A
replace k x f j = if same_lock j k then x else f j

-- The mutex with the signals of the threads that are in a call on it.
abbrev pub heard : Lock → (ℕ → Bool) → (ℕ → Line) → Mutex → Mutex
heard k pending line m = record m { pending = λ u. pending u && calls k (line u) }

pub record Guarded (threads : ℕ) (permits : Lock → ℕ) (lock : Lock → Mutex) (pending : ℕ → Bool)
    (line : ℕ → Line) : Type 0 where
  pub kept : (k : Lock) → Kept threads (permits k) (heard k pending line (lock k))
  pub placed : (k : Lock) (u : ℕ) → calls k (line u) ≡ false → (lock k).stage u ≡ away
  pub quiet : (u : ℕ) → ((k : Lock) → calls k (line u) ≡ false) → pending u ≡ false

-- A thread without a signal goes to another line.
heard-update :
    (k : Lock) (pending : ℕ → Bool) (line : ℕ → Line) (m : Mutex) (t : ℕ) (l : Line)
    → pending t ≡ false
    → heard k pending (update line t l) m ≡ heard k pending line m
heard-update k pending line m t l e =
    ap (λ (f : ℕ → Bool). record m { pending = f })
      (fun_ext λ u. elim (ℕ_discrete u t) [
        | yes same ↦ rw (same, ==_refl t, e) refl
        | no ne ↦ rw (==_ne u t ne) refl
      ])

module _ {threads : ℕ} {permits : Lock → ℕ} {lock : Lock → Mutex} {pending : ℕ → Bool}
    {line : ℕ → Line} (g : Guarded threads permits lock pending line) (t : ℕ)
    (small : t < threads) where
  -- One mutex is replaced by one that gives `n` permits, and the thread goes to another line.
  pub reset-Guarded :
      (k : Lock) (m : Mutex) (n : ℕ) (l : Line)
      → pending t ≡ false
      → Kept threads n (heard k pending line m)
      → ((u : ℕ) → u ≢ t → m.stage u ≡ (lock k).stage u)
      → ((j : Lock) → calls j l ≡ false → (replace k m lock j).stage t ≡ away)
      → Guarded threads (replace k n permits) (replace k m lock) pending (update line t l)
  reset-Guarded k m n l e new others self = record {
    kept = λ j. rw (heard-update j pending line (replace k m lock j) t l e) (kept' j);
    placed = λ j u h. elim (ℕ_discrete u t) [
      | yes same ↦ rw same (self j (rw (same, ==_refl t) at h))
      | no ne ↦ placed' j u ne (rw (==_ne u t ne) at h)
    ];
    quiet = λ u h. elim (ℕ_discrete u t) [
      | yes same ↦ rw same e
      | no ne ↦ g.quiet u (λ j. rw (==_ne u t ne) at (h j))
    ];
  }
    where
      kept' :
          (j : Lock)
          → Kept threads (replace k n permits j) (heard j pending line (replace k m lock j))
      kept' j = elim (Bool-cases (same_lock j k)) [
        | inl same ↦ rw same (rw (same_lock-eq j k same) new)
        | inr ne ↦ rw ne (g.kept j)
      ]

      placed' :
          (j : Lock) (u : ℕ)
          → u ≢ t
          → calls j (line u) ≡ false
          → (replace k m lock j).stage u ≡ away
      placed' j u ne h = elim (Bool-cases (same_lock j k)) [
        | inl same ↦ rw same (others u ne ∙ g.placed k u (rw (← same_lock-eq j k same) h))
        | inr other ↦ rw other (g.placed j u h)
      ]

  -- The thread goes to another line, and calls nothing.
  pub goto-Guarded :
      (l : Line)
      → pending t ≡ false
      → ((j : Lock) → calls j l ≡ false → (lock j).stage t ≡ away)
      → Guarded threads permits lock pending (update line t l)
  goto-Guarded l e self = record {
    kept = λ j. rw (heard-update j pending line (lock j) t l e) (g.kept j);
    placed = λ j u h. elim (ℕ_discrete u t) [
      | yes same ↦ rw same (self j (rw (same, ==_refl t) at h))
      | no ne ↦ g.placed j u (rw (==_ne u t ne) at h)
    ];
    quiet = λ u h. elim (ℕ_discrete u t) [
      | yes same ↦ rw same e
      | no ne ↦ g.quiet u (λ j. rw (==_ne u t ne) at (h j))
    ];
  }
