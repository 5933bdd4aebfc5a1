-- ===== src/Locks/Exclusion.antt =====
-- The spinlock lets one thread in at a time, and lets one in whenever nobody is inside.
use native.Mathlib.Decide.{ℕ_discrete}
use operating_system_pa.Base.{ℕ, ◌≡◌, ◌≢◌, refl, sym, ◌∙◌, Bool, true, false, arith}
use operating_system_pa.Locks.Spin.{
  Place, outside, spinning, inside, Spinlock, move, try_spinlock, release_spinlock, Step, call,
  round, release, Reachable, start, step,
}

abbrev is_inside : Place → Bool
is_inside inside = true
is_inside _ = false

-- Nobody is inside and the lock is free, or one thread is and it is taken.
data Holds (s : Spinlock) : Type 0 where
  nobody : s.hold ≡ 0 → ((t : ℕ) → is_inside (s.place t) ≡ false) → Holds s
  somebody :
      (h : ℕ)
      → s.hold ≡ 1
      → is_inside (s.place h) ≡ true
      → ((t : ℕ) → t ≢ h → is_inside (s.place t) ≡ false)
      → Holds s

call-Holds : (s : Spinlock) (t : ℕ) → s.place t ≡ outside → Holds s → Holds (move s t spinning)
call-Holds s t at (nobody z out) = nobody z (λ u. ground (arith, out u))
call-Holds s t at (somebody h o at_h out) =
    somebody h o (ground (arith, at, at_h)) (λ u ne. ground (arith, out u ne))

round-Holds : (s : Spinlock) (t : ℕ) → s.place t ≡ spinning → Holds s → Holds (try_spinlock t s)
round-Holds s t at (nobody z out) =
    somebody t (ground (arith, z)) (ground (arith, z)) (λ u ne. ground (arith, out u))
round-Holds s t at (somebody h o at_h out) =
    somebody h (ground (arith, o)) (ground (arith, o, at, at_h))
      (λ u ne. ground (arith, o, out u ne))

release-Holds : (s : Spinlock) (t : ℕ) → s.place t ≡ inside → Holds s → Holds (release_spinlock t s)
release-Holds s t at (nobody z out) = absurd (ground (arith, at, out t))
release-Holds s t at (somebody h o at_h out) = elim (ℕ_discrete t h) [
  | yes e ↦ nobody refl (λ u. elim (ℕ_discrete u t) [
    | yes e' ↦ ground arith
    | no ne ↦ ground (arith, out u (λ x. ne (x ∙ sym e)))
  ])
  | no ne ↦ absurd (ground (arith, at, out t ne))
]

Step-Holds : (s s' : Spinlock) → Step s s' → Holds s → Holds s'
Step-Holds s s' (call t at) h = call-Holds s t at h
Step-Holds s s' (round t at) h = round-Holds s t at h
Step-Holds s s' (release t at) h = release-Holds s t at h

Reachable-Holds : (s : Spinlock) → Reachable s → Holds s
Reachable-Holds s start = nobody refl (λ t. refl)
Reachable-Holds s (step s₀ s' r m) = Step-Holds s₀ s m (Reachable-Holds s₀ r)

-- In every interleaving of any number of threads, at most one thread of a spinlock is between the
-- end of acquire_spinlock and its release_spinlock.
pub inside_alone :
    (s : Spinlock) (t u : ℕ) → Reachable s → s.place t ≡ inside → s.place u ≡ inside → t ≡ u
inside_alone s t u r a b = go (Reachable-Holds s r)
  where
    only :
        (h v : ℕ) → ((w : ℕ) → w ≢ h → is_inside (s.place w) ≡ false) → s.place v ≡ inside → v ≡ h
    only h v out e = elim (ℕ_discrete v h) [
      | yes same ↦ same
      | no ne ↦ absurd (ground (arith, out v ne, e))
    ]

    go : Holds s → t ≡ u
    go (nobody z out) = absurd (ground (arith, out t, a))
    go (somebody h o at_h out) = only h t out a ∙ sym (only h u out b)

is_inside-inside : (p : Place) → is_inside p ≡ true → p ≡ inside
is_inside-inside inside e = refl
is_inside-inside outside e = cc
is_inside-inside spinning e = cc

-- In every interleaving, whenever nobody is inside, the next round of any spinning thread gets the
-- lock.
pub round_enters :
    (s : Spinlock) (t : ℕ)
    → Reachable s
    → s.place t ≡ spinning
    → ((u : ℕ) → s.place u ≢ inside)
    → (try_spinlock t s).place t ≡ inside
round_enters s t r at empty = go (Reachable-Holds s r)
  where
    go : Holds s → (try_spinlock t s).place t ≡ inside
    go (nobody z out) = ground (arith, z)
    go (somebody h o at_h out) = absurd (empty h (is_inside-inside (s.place h) at_h))

-- In every interleaving, while a thread is inside, a round of a spinning thread does not get the
-- lock.
pub round_waits :
    (s : Spinlock) (t u : ℕ)
    → Reachable s
    → s.place t ≡ spinning
    → s.place u ≡ inside
    → (try_spinlock t s).place t ≡ spinning
round_waits s t u r at b = go (Reachable-Holds s r)
  where
    go : Holds s → (try_spinlock t s).place t ≡ spinning
    go (nobody z out) = absurd (ground (arith, out u, b))
    go (somebody h o at_h out) = ground (arith, o)
