-- ===== src/Base/Sums.antt =====
-- Maps as functions, and sums over an initial segment of the numbers.
use Prim.Native.Nat.{ℕ, zero, suc, ◌+◌, ◌*◌, ◌≤◌, ◌<◌}
use mathlib.Core.Path.{◌≡◌, refl}
use mathlib.Core.Logic.{◌≢◌}
use mathlib.Core.Bool.{Bool, true, false}
use native.Mathlib.Omega.{arith}
use native.Mathlib.Decide.{ℕ_discrete}
use operating_system_pa.Base.Tests.{◌==◌, if◌then◌else◌}

-- A write of an array or of a store of objects.
abbrev pub update {ℓ} : {A : Type ℓ} → (ℕ → A) → ℕ → A → ℕ → A
update f i v j = if j == i then v else f j

abbrev pub indicator : Bool → ℕ
indicator true = 1
indicator false = 0

unfoldable pub sum_below : ℕ → (ℕ → ℕ) → ℕ
sum_below zero f = 0
sum_below (suc n) f = sum_below n f + f n

pub sum_below-zero : (n : ℕ) (f : ℕ → ℕ) → ((i : ℕ) → f i ≡ 0) → sum_below n f ≡ 0
unfolding sum_below
sum_below-zero zero f h = refl
sum_below-zero (suc n) f h = omega (arith, sum_below-zero n f h, h n)

pub sum_below-ext :
    (n : ℕ) (f g : ℕ → ℕ) → ((i : ℕ) → i < n → f i ≡ g i) → sum_below n f ≡ sum_below n g
unfolding sum_below
sum_below-ext zero f g h = refl
sum_below-ext (suc n) f g h =
    omega (arith, sum_below-ext n f g (λ i l. h i (omega arith)), h n (omega arith))

-- Two sums that differ in one term.
pub sum_below-at :
    (n : ℕ) (f g : ℕ → ℕ) (k : ℕ)
    → k < n
    → ((i : ℕ) → i < n → i ≢ k → f i ≡ g i)
    → sum_below n f + g k ≡ sum_below n g + f k
unfolding sum_below
sum_below-at zero f g k l h = elim l [ ]
sum_below-at (suc n) f g k l h = elim (ℕ_discrete k n) [
  | yes e ↦ rw e (omega (arith, sum_below-ext n f g (λ i m. h i (omega arith) (omega arith))))
  | no e ↦ omega (
    arith,
    sum_below-at n f g k (omega arith) (λ i m. h i (omega arith)),
    h n (omega arith) (omega arith),
  )
]

pub term-le-sum_below : (n : ℕ) (f : ℕ → ℕ) (k : ℕ) → k < n → f k ≤ sum_below n f
unfolding sum_below
term-le-sum_below zero f k l = elim l [ ]
term-le-sum_below (suc n) f k l = elim (ℕ_discrete k n) [
  | yes e ↦ rw e (omega arith)
  | no e ↦ omega (arith, term-le-sum_below n f k (omega arith))
]

pub sum_below-le : (n : ℕ) (f g : ℕ → ℕ) → ((i : ℕ) → f i ≤ g i) → sum_below n f ≤ sum_below n g
unfolding sum_below
sum_below-le zero f g h = omega arith
sum_below-le (suc n) f g h = omega (arith, sum_below-le n f g h, h n)

pub sum_below-le-at :
    (n : ℕ) (f g : ℕ → ℕ) (k : ℕ)
    → k < n
    → ((i : ℕ) → f i ≤ g i)
    → sum_below n f + g k ≤ sum_below n g + f k
unfolding sum_below
sum_below-le-at zero f g k l h = absurd (omega (arith, l))
sum_below-le-at (suc n) f g k l h = elim (ℕ_discrete k n) [
  | yes e ↦ rw e (omega (arith, sum_below-le n f g h))
  | no ne ↦ omega (arith, sum_below-le-at n f g k (omega arith) h, h n)
]

pub sum_below-le_times : (n b : ℕ) (g : ℕ → ℕ) → ((i : ℕ) → g i ≤ b) → sum_below n g ≤ n * b
unfolding sum_below
sum_below-le_times zero b g h = omega arith
sum_below-le_times (suc n) b g h = omega (arith, sum_below-le_times n b g h, h n)

pub sum_below-add :
    (n : ℕ) (f g : ℕ → ℕ) → sum_below n (λ i. f i + g i) ≡ sum_below n f + sum_below n g
unfolding sum_below
sum_below-add zero f g = refl
sum_below-add (suc n) f g = omega (arith, sum_below-add n f g)

pub two-le-sum_below :
    (n : ℕ) (f : ℕ → ℕ) (t u : ℕ) → t < n → u < n → t ≢ u → f t + f u ≤ sum_below n f
two-le-sum_below n f t u a b ne =
    let e = sum_below-at n (update f u 0) f u b (λ i l k. ground arith) in
    let one = term-le-sum_below n (update f u 0) t a in
    let same : update f u 0 t ≡ f t = ground arith in
    let none_left : update f u 0 u ≡ 0 = ground arith in omega (arith, e, one, same, none_left)

-- What a sum over the entries of a map becomes when one entry is updated.
pub sum_below-update {ℓ} :
    {A : Type ℓ} (n : ℕ) (f : A → ℕ) (g : ℕ → A) (t : ℕ) (x : A)
    → t < n
    → sum_below n (λ u. f (update g t x u)) + f (g t) ≡ sum_below n (λ u. f (g u)) + f x
sum_below-update n f g t x l =
    let e = sum_below-at n (λ u. f (update g t x u)) (λ u. f (g u)) t l (λ i m ne. ground arith) in
    let new : f (update g t x t) ≡ f x = ground arith in omega (arith, e, new)
