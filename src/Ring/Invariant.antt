-- ===== src/Ring/Invariant.antt =====
-- The invariant of the ring buffer: its slots hold a queue of values, and every thread that has
-- written or read a slot has the value that the index is about to pass.
use native.Mathlib.Decide.{ℕ_discrete}
use operating_system_pa.Base.{
  ℕ, ◌≤◌, ◌<◌, ◌≡◌, ◌≢◌, refl, Bool, true, false, List, ==_refl, ==_ne, length, All, update, arith,
}
use operating_system_pa.Ring.State.{
  max_value, Lock, Side, enqueue, dequeue, reserving, locking, accessing, advancing, Line, unlock,
  between, within, Request, generate, count, Ring,
}
use operating_system_pa.Ring.Signals.{Guarded}
use operating_system_pa.Ring.Slots.{Filled, write-Filled}
use operating_system_pa.Ring.Lines.{Counted}

-- Whether the thread has a value of the buffer in its hands.
abbrev pub carries : Line → Bool
carries (within enqueue p) = true
carries (within dequeue reserving) = false
carries (within dequeue locking) = false
carries (within dequeue accessing) = false
carries (within dequeue p) = true
carries between = false

abbrev pub Small : ℕ → Type 0
Small v = v < max_value

abbrev pub Fits : Request → Type 0
Fits (generate v) = Small v
Fits count = Unit

pub record Stocked (threads n : ℕ) (slots : ℕ → ℕ) (i o : ℕ) (value : ℕ → ℕ) (line : ℕ → Line)
    (q : List ℕ) : Type 0 where
  pub filled : Filled n slots i o q
  pub small : All Small q
  pub writes : (u : ℕ) → line u ≡ within enqueue advancing → slots i ≡ value u
  pub reads : (u : ℕ) → line u ≡ within dequeue advancing → value u ≡ slots o
  pub valid : (u : ℕ) → carries (line u) ≡ true → Small (value u)
  pub far : (u : ℕ) → threads ≤ u → line u ≡ between

pub record Intact (threads : ℕ) (s : Ring) (q : List ℕ) : Type 0 where
  pub permits : Lock → ℕ
  pub guarded : Guarded threads permits s.lock s.pending s.line
  pub counted : Counted threads s.nr_slots permits s.line (length q)
  pub stocked : Stocked threads s.nr_slots s.slots s.in_index s.out_index s.value s.line q
  pub fits : (u : ℕ) → All Fits (s.todo u)

module _ {threads n : ℕ} {slots : ℕ → ℕ} {i o : ℕ} {value : ℕ → ℕ} {line : ℕ → Line} {q : List ℕ}
    (k : Stocked threads n slots i o value line q) (t : ℕ) (small : t < threads) where
  -- What a property of the lines needs of the thread that moves, if it holds of the others.
  moved :
      (P : Line → ℕ → Type 0) (l : Line)
      → P l t
      → ((u : ℕ) → u ≢ t → P (line u) u)
      → (u : ℕ) → P (update line t l u) u
  moved P l here others u = elim (ℕ_discrete u t) [
    | yes same ↦ rw (same, ==_refl t) here
    | no ne ↦ rw (==_ne u t ne) (others u ne)
  ]

  far' : (l : Line) (u : ℕ) → threads ≤ u → update line t l u ≡ between
  far' l u le = let ne : u ≢ t = omega (arith, small, le) in rw (==_ne u t ne) (k.far u le)

  -- The thread goes to another line, and not to the move of an index.
  pub goto-Stocked :
      (l : Line)
      → ((e : Side) → l ≢ within e advancing)
      → (carries l ≡ true → Small (value t))
      → Stocked threads n slots i o value (update line t l) q
  goto-Stocked l still holds = record {
    filled = k.filled;
    small = k.small;
    writes =
        moved (λ h u. h ≡ within enqueue advancing → slots i ≡ value u) l
          (λ e. absurd (still enqueue e)) (λ u ne. k.writes u);
    reads =
        moved (λ h u. h ≡ within dequeue advancing → value u ≡ slots o) l
          (λ e. absurd (still dequeue e)) (λ u ne. k.reads u);
    valid = moved (λ h u. carries h ≡ true → Small (value u)) l holds (λ u ne. k.valid u);
    far = far' l;
  }

  -- The thread gets a value for its next call.
  pub begin-Stocked :
      (v : ℕ)
      → line t ≡ between
      → Small v
      → Stocked threads n slots i o (update value t v) (update line t (within enqueue reserving)) q
  begin-Stocked v at less = record {
    filled = k.filled;
    small = k.small;
    writes =
        moved (λ h u. h ≡ within enqueue advancing → slots i ≡ update value t v u)
          (within enqueue reserving) (λ e. absurd (ground arith))
          (λ u ne e. rw (==_ne u t ne) (k.writes u e));
    reads =
        moved (λ h u. h ≡ within dequeue advancing → update value t v u ≡ slots o)
          (within enqueue reserving) (λ e. absurd (ground arith))
          (λ u ne e. rw (==_ne u t ne) (k.reads u e));
    valid =
        moved (λ h u. carries h ≡ true → Small (update value t v u)) (within enqueue reserving)
          (λ e. rw (==_refl t) less) (λ u ne e. rw (==_ne u t ne) (k.valid u e));
    far = far' (within enqueue reserving);
  }

  module _ (alone : (u : ℕ) (e : Side) → line u ≡ within e advancing → ¬ (u ≢ t)) where
    pub write-Stocked :
        line t ≡ within enqueue accessing
        → length q < n
        → Stocked threads n
            (update slots i (value t))
            i
            o
            value
            (update line t (within enqueue advancing))
            q
    write-Stocked at room = record {
      filled = write-Filled n slots i (value t) o q room k.filled;
      small = k.small;
      writes =
          moved (λ h u. h ≡ within enqueue advancing → update slots i (value t) i ≡ value u)
            (within enqueue advancing) (λ e. rw (==_refl i) refl)
            (λ u ne e. absurd (alone u enqueue e ne));
      reads =
          moved (λ h u. h ≡ within dequeue advancing → value u ≡ update slots i (value t) o)
            (within enqueue advancing) (λ e. absurd (ground arith))
            (λ u ne e. absurd (alone u dequeue e ne));
      valid =
          moved (λ h u. carries h ≡ true → Small (value u)) (within enqueue advancing)
            (λ e. k.valid t (rw at refl)) (λ u ne. k.valid u);
      far = far' (within enqueue advancing);
    }

    pub read-Stocked :
        line t ≡ within dequeue accessing
        → Small (slots o)
        → Stocked threads n slots i o
            (update value t (slots o))
            (update line t (within dequeue advancing))
            q
    read-Stocked at less = record {
      filled = k.filled;
      small = k.small;
      writes =
          moved (λ h u. h ≡ within enqueue advancing → slots i ≡ update value t (slots o) u)
            (within dequeue advancing) (λ e. absurd (ground arith))
            (λ u ne e. absurd (alone u enqueue e ne));
      reads =
          moved (λ h u. h ≡ within dequeue advancing → update value t (slots o) u ≡ slots o)
            (within dequeue advancing) (λ e. rw (==_refl t) refl)
            (λ u ne e. absurd (alone u dequeue e ne));
      valid =
          moved (λ h u. carries h ≡ true → Small (update value t (slots o) u))
            (within dequeue advancing) (λ e. rw (==_refl t) less)
            (λ u ne e. rw (==_ne u t ne) (k.valid u e));
      far = far' (within dequeue advancing);
    }

    -- An index moves, for a queue that fits its new place.
    pub advance-Stocked :
        (e : Side) (i' o' : ℕ) (q' : List ℕ)
        → line t ≡ within e advancing
        → Filled n slots i' o' q'
        → All Small q'
        → Stocked threads n slots i' o' value (update line t (within e unlock)) q'
    advance-Stocked e i' o' q' at f a = record {
      filled = f;
      small = a;
      writes =
          moved (λ h u. h ≡ within enqueue advancing → slots i' ≡ value u) (within e unlock)
            (λ x. absurd (ground arith)) (λ u ne x. absurd (alone u enqueue x ne));
      reads =
          moved (λ h u. h ≡ within dequeue advancing → value u ≡ slots o') (within e unlock)
            (λ x. absurd (ground arith)) (λ u ne x. absurd (alone u dequeue x ne));
      valid =
          moved (λ h u. carries h ≡ true → Small (value u)) (within e unlock)
            (λ x. k.valid t (rw at (carried e))) (λ u ne. k.valid u);
      far = far' (within e unlock);
    }
      where
        carried : (e : Side) → carries (within e advancing) ≡ true
        carried enqueue = refl
        carried dequeue = refl
