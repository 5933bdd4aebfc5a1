-- ===== src/Sched/Choice/Best.antt =====
-- What the selection loop finds: the largest or the smallest key, and the earliest of these.
use operating_system_pa.Base.{
  ℕ, ◌≤◌, ◌≡◌, refl, inl, inr, Bool, true, List, [], ◌∷◌, ◌++◌, ◌==◌, ltb, if◌then◌else◌, has, All,
  Bool-cases, arith,
}
use operating_system_pa.Sched.Locking.{select}

pub All-has : (P : ℕ → Type 0) (l : List ℕ) (p : ℕ) → All P l → has p l ≡ true → P p
All-has P [] p a h = cc
All-has P (x ∷ l) p a h = elim (Bool-cases (p == x)) [
  | inl e ↦ let same : x ≡ p = ground arith in rw (← same) a.0
  | inr e ↦ All-has P l p a.1 (ground arith)
]

module _ (key : ℕ → ℕ) where
  abbrev higher : ℕ → ℕ → Bool
  higher p best = ltb (key best) (key p)

  abbrev lower : ℕ → ℕ → Bool
  lower p best = ltb (key p) (key best)

  pub select-largest :
      (b : ℕ) (l : List ℕ)
      → (key b ≤ key (select higher b l)) × All (λ p. key p ≤ key (select higher b l)) l
  unfolding select
  select-largest b [] = (omega arith, tt)
  select-largest b (p ∷ ps) =
      let x : ℕ = if higher p b then p else b in
      let (h, a) = select-largest x ps in
      let first : key b ≤ key x = ground arith in
      let next : key p ≤ key x = ground arith in
      (omega (arith, first, h), (omega (arith, next, h), a))

  pub select-smallest :
      (b : ℕ) (l : List ℕ)
      → (key (select lower b l) ≤ key b) × All (λ p. key (select lower b l) ≤ key p) l
  unfolding select
  select-smallest b [] = (omega arith, tt)
  select-smallest b (p ∷ ps) =
      let x : ℕ = if lower p b then p else b in
      let (h, a) = select-smallest x ps in
      let first : key x ≤ key b = ground arith in
      let next : key x ≤ key p = ground arith in
      (omega (arith, first, h), (omega (arith, next, h), a))

-- The last of the list is taken only if it is better than the best of the others.
pub select-last :
    (better : ℕ → ℕ → Bool) (b c : ℕ) (l : List ℕ)
    → select better b (l ++ c ∷ [])
      ≡ (if better c (select better b l) then c else select better b l)
unfolding select
select-last better b c [] = refl
select-last better b c (p ∷ ps) = select-last better (if better p b then p else b) c ps
