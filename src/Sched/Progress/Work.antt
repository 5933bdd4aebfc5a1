-- ===== src/Sched/Progress/Work.antt =====
-- The work that is left to the simulation, as a number that every round makes smaller.
use native.Mathlib.Nat.{add-mul, mul-le-mul_right}
use operating_system_pa.Base.{
  ℕ, ◌+◌, ◌*◌, ◌-◌, ◌≤◌, ◌<◌, ◌≡◌, sum_below, sum_below-le, sum_below-le-at, sum_below-le_times,
  arith,
}
use operating_system_pa.Sched.State.{System}
use operating_system_pa.Sched.Progress.{runs, remaining, Steady, Calm}

-- The ticks that the first `m` processes still have to run.
unfoldable pub life : ℕ → System → ℕ
life m s = sum_below m (λ p. remaining (s.process p))

-- How many of them are ready or running.
unfoldable pub active : ℕ → System → ℕ
active m s = sum_below m (λ p. runs (s.process p).status)

-- A tick of a process outweighs all that it may wake, and nobody is forked after `d` ticks.
abbrev pub work : ℕ → ℕ → System → ℕ
work m d s = life m s * (m + 1) + active m s + (d - s.ticks)

pub life-Steady : (m : ℕ) (s t : System) → Steady s t → life m t ≤ life m s
unfolding life
life-Steady m s t k =
    sum_below-le m (λ p. remaining (t.process p)) (λ p. remaining (s.process p)) k.remains

pub active-Calm : (m : ℕ) (s t : System) → Calm s t → active m t ≤ active m s
unfolding active
active-Calm m s t k =
    sum_below-le m (λ p. runs (t.process p).status) (λ p. runs (s.process p).status) k.rests

pub active-le : (m : ℕ) (s : System) → active m s ≤ m
unfolding active
active-le m s =
    omega (arith, sum_below-le_times m 1 (λ p. runs (s.process p).status) (λ p. ground arith))

-- The process `p` runs a tick, or stops running.
pub life-drop :
    (m : ℕ) (s t : System) (p : ℕ)
    → p < m
    → Steady s t
    → remaining (t.process p) + 1 ≤ remaining (s.process p)
    → life m t + 1 ≤ life m s
unfolding life
life-drop m s t p l k less =
    let at =
      sum_below-le-at m (λ q. remaining (t.process q)) (λ q. remaining (s.process q)) p l
        k.remains in
    omega (arith, at, less)

pub active-drop :
    (m : ℕ) (s t : System) (p : ℕ)
    → p < m
    → Calm s t
    → runs (t.process p).status + 1 ≤ runs (s.process p).status
    → active m t + 1 ≤ active m s
unfolding active
active-drop m s t p l k less =
    let at =
      sum_below-le-at m (λ q. runs (t.process q).status) (λ q. runs (s.process q).status) p l
        k.rests in
    omega (arith, at, less)

-- What one round does: a process runs a tick and may wake others, or the process is blocked, or
-- none can run and one is still to be forked.
pub data Lessens (m d : ℕ) (s t : System) : Type 0 where
  aged : life m t + 1 ≤ life m s → Lessens m d s t
  paused : life m t ≤ life m s → active m t + 1 ≤ active m s → Lessens m d s t
  idled : life m t ≤ life m s → active m t ≤ active m s → s.ticks < d → Lessens m d s t

pub Lessens-before : (m d : ℕ) (r s t : System) → Calm r s → Lessens m d s t → Lessens m d r t
Lessens-before m d r s t c l =
    let a = life-Steady m r s c.steady in
    let b = active-Calm m r s c in
    elim l [
      | aged h ↦ aged (omega (arith, a, h))
      | paused h k ↦ paused (omega (arith, a, h)) (omega (arith, b, k))
      | idled h k e ↦
          let same = c.steady.ticks in
          idled (omega (arith, a, h)) (omega (arith, b, k)) (omega (arith, same, e))
    ]

pub work-Lessens :
    (m d : ℕ) (s t : System) → t.ticks ≡ s.ticks + 1 → Lessens m d s t → work m d t + 1 ≤ work m d s
work-Lessens m d s t e (aged h) =
    let more = active-le m t in
    let lost = mul-le-mul_right (m + 1) h in
    let split = add-mul (life m t) 1 (m + 1) in omega (arith, e, more, lost, split)
work-Lessens m d s t e (paused h k) =
    let kept = mul-le-mul_right (m + 1) h in omega (arith, e, k, kept)
work-Lessens m d s t e (idled h k later) =
    let kept = mul-le-mul_right (m + 1) h in omega (arith, e, k, kept, later)

pub work-Calm : (m d : ℕ) (s t : System) → Calm s t → work m d t ≤ work m d s
work-Calm m d s t c =
    let fewer = mul-le-mul_right (m + 1) (life-Steady m s t c.steady) in
    let rests = active-Calm m s t c in
    let same = c.steady.ticks in omega (arith, fewer, rests, same)

-- The clock is no part of what the processes have left to do.
pub Lessens-ticks :
    (m d n : ℕ) (s t : System) → Lessens m d s t → Lessens m d s (record t { ticks = n })
unfolding life active
Lessens-ticks m d n s t (aged h) = aged h
Lessens-ticks m d n s t (paused h k) = paused h k
Lessens-ticks m d n s t (idled h k l) = idled h k l
