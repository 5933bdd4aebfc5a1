-- ===== src/Vm/Pages/Free.antt =====
-- The search for a free frame.
use operating_system_pa.Base.{
  ℕ, zero, suc, ◌+◌, ◌≤◌, ◌<◌, ◌≡◌, ◌≢◌, inl, inr, none, some, ◌==◌, Bool-cases, arith,
}
use native.Mathlib.Decide.{ℕ_discrete}
use operating_system_pa.Vm.State.{nr_pageframes, Counts}
use operating_system_pa.Vm.Pages.{first_free, free_frame}

-- `i` is the free frame with the smallest number from `lo` on, below `hi`.
pub record IsFirst (lo hi : ℕ) (m : Counts) (i : ℕ) : Type 0 where
  pub above : lo ≤ i
  pub below : i < hi
  pub unused : m i ≡ 0
  pub least : (j : ℕ) → lo ≤ j → j < i → m j ≢ 0

abbrev pub AllUsed : ℕ → ℕ → Counts → Type 0
AllUsed lo hi m = (j : ℕ) → lo ≤ j → j < hi → m j ≢ 0

least_step :
    (lo i : ℕ) (m : Counts)
    → m lo ≢ 0
    → ((j : ℕ) → lo + 1 ≤ j → j < i → m j ≢ 0)
    → (j : ℕ) → lo ≤ j
    → j < i
    → m j ≢ 0
least_step lo i m h rest j a b = elim (ℕ_discrete j lo) [
  | yes e ↦ rw e h
  | no e ↦ rest j (omega arith) b
]

first_free-some :
    (k lo hi : ℕ) (m : Counts) (i : ℕ)
    → lo + k ≡ hi
    → first_free k lo m ≡ some i
    → IsFirst lo hi m i
unfolding first_free
first_free-some zero lo hi m i e h = cc
first_free-some (suc k) lo hi m i e h = elim (Bool-cases (m lo == 0)) [
  | inl t ↦
      let same : lo ≡ i = ground arith in
      record {
        above = omega arith;
        below = omega arith;
        unused = ground arith;
        least = λ j a b. absurd (omega arith);
      }
  | inr n ↦
      let r : IsFirst (lo + 1) hi m i =
        first_free-some k (lo + 1) hi m i (omega arith) (ground arith) in
      record {
        above = omega (arith, r.above);
        below = r.below;
        unused = r.unused;
        least = least_step lo i m (ground arith) r.least;
      }
]

first_free-none :
    (k lo hi : ℕ) (m : Counts) → lo + k ≡ hi → first_free k lo m ≡ none → AllUsed lo hi m
unfolding first_free
first_free-none zero lo hi m e h = λ j a b. absurd (omega arith)
first_free-none (suc k) lo hi m e h = elim (Bool-cases (m lo == 0)) [
  | inl t ↦ absurd (ground arith)
  | inr n ↦
      least_step lo hi m (ground arith)
        (first_free-none k (lo + 1) hi m (omega arith) (ground arith))
]

pub free_frame-IsFirst : (m : Counts) (i : ℕ) → free_frame m ≡ some i → IsFirst 0 nr_pageframes m i
free_frame-IsFirst m i h = first_free-some nr_pageframes 0 nr_pageframes m i (omega arith) h

pub free_frame_full : (m : Counts) → free_frame m ≡ none → AllUsed 0 nr_pageframes m
free_frame_full m h = first_free-none nr_pageframes 0 nr_pageframes m (omega arith) h
