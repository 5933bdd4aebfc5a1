-- ===== src/Ring/Totals/Ledger.antt =====
-- The books of the threads: what is counted, and what is in their hands and not counted yet, is what
-- has gone through the buffer.
use operating_system_pa.Base.{
  ℕ, ◌+◌, ◌<◌, ◌≡◌, ◌≢◌, refl, ap, List, [], ◌∷◌, ◌++◌, ◌==◌, if◌then◌else◌, length, length-append,
  indicator, sum_below, sum_below-at, arith,
}
use operating_system_pa.Ring.State.{
  Side, enqueue, dequeue, Statement, reserving, locking, accessing, advancing, Line, between,
  within, Request, generate, count, Ring, Event, put_in, taken_out,
}
use operating_system_pa.Ring.Lines.{same_side}

abbrev pub tally : ℕ → List ℕ → ℕ
tally v [] = 0
tally v (x ∷ l) = indicator (v == x) + tally v l

pub tally-append : (v : ℕ) (l m : List ℕ) → tally v (l ++ m) ≡ tally v l + tally v m
tally-append v [] m = omega arith
tally-append v (x ∷ l) m = omega (arith, tally-append v l m)

-- Before the index has moved.
abbrev pub early : Statement → ℕ
early reserving = 1
early locking = 1
early accessing = 1
early advancing = 1
early _ = 0

abbrev pub late : Statement → ℕ
late reserving = 0
late locking = 0
late accessing = 0
late advancing = 0
late _ = 1

abbrev pub early_line : Side → Line → ℕ
early_line e between = 0
early_line e (within f p) = if same_side e f then early p else 0

abbrev pub late_line : Side → Line → ℕ
late_line e between = 0
late_line e (within f p) = if same_side e f then late p else 0

abbrev pub asks : Side → List Request → ℕ
asks e [] = 0
asks enqueue (generate v ∷ l) = 1 + asks enqueue l
asks enqueue (count ∷ l) = asks enqueue l
asks dequeue (generate v ∷ l) = asks dequeue l
asks dequeue (count ∷ l) = 1 + asks dequeue l

-- What the threads have of their own, and the counts of the counter.
pub record Hands : Type 0 where
  pub line : ℕ → Line
  pub value : ℕ → ℕ
  pub todo : ℕ → List Request
  pub generated : ℕ → ℕ → ℕ
  pub value_counter : ℕ → ℕ

abbrev pub hands : Ring → Hands
hands s = record {
  line = s.line;
  value = s.value;
  todo = s.todo;
  generated = s.generated;
  value_counter = s.value_counter;
}

-- Calls that have not moved their index yet, begun or to come.
abbrev pub ahead : Side → Hands → ℕ → ℕ
ahead e h u = early_line e (h.line u) + asks e (h.todo u)

-- The value has gone through, and is not counted yet.
abbrev pub held : Side → ℕ → Hands → ℕ → ℕ
held e v h u = if v == h.value u then late_line e (h.line u) else 0

pub record Ledger (threads puts takes : ℕ) (h : Hands) (w r : List ℕ) : Type 0 where
  pub stored_count :
      (v : ℕ)
      → sum_below threads (λ u. h.generated u v) + sum_below threads (held enqueue v h) ≡ tally v w
  pub loaded_count : (v : ℕ) → h.value_counter v + sum_below threads (held dequeue v h) ≡ tally v r
  pub puts_left : length w + sum_below threads (ahead enqueue h) ≡ puts
  pub takes_left : length r + sum_below threads (ahead dequeue h) ≡ takes

-- One statement of the thread `t` in the books.
pub record Entry (t : ℕ) (h h' : Hands) (e : Event) : Type 0 where
  pub lines : (u : ℕ) → u ≢ t → h'.line u ≡ h.line u
  pub values : (u : ℕ) → u ≢ t → h'.value u ≡ h.value u
  pub requests : (u : ℕ) → u ≢ t → h'.todo u ≡ h.todo u
  pub counts : (u : ℕ) → u ≢ t → h'.generated u ≡ h.generated u
  pub stores :
      (v : ℕ)
      → h'.generated t v + held enqueue v h' t
        ≡ h.generated t v + held enqueue v h t + tally v (put_in e)
  pub loads :
      (v : ℕ)
      → h'.value_counter v + held dequeue v h' t
        ≡ h.value_counter v + held dequeue v h t + tally v (taken_out e)
  pub puts : ahead enqueue h' t + length (put_in e) ≡ ahead enqueue h t
  pub takes : ahead dequeue h' t + length (taken_out e) ≡ ahead dequeue h t

module _ (threads puts takes : ℕ) (h h' : Hands) (w r : List ℕ) (t : ℕ) (e : Event)
    (small : t < threads) (l : Ledger threads puts takes h w r) (n : Entry t h h' e) where
  same_held : (f : Side) (v u : ℕ) → u ≢ t → held f v h' u ≡ held f v h u
  same_held f v u ne = rw (n.lines u ne, n.values u ne) refl

  same_ahead : (f : Side) (u : ℕ) → u ≢ t → ahead f h' u ≡ ahead f h u
  same_ahead f u ne = rw (n.lines u ne, n.requests u ne) refl

  pub Ledger-Entry : Ledger threads puts takes h' (w ++ put_in e) (r ++ taken_out e)
  Ledger-Entry = record {
    stored_count = λ v. omega (
      arith,
      l.stored_count v,
      n.stores v,
      tally-append v w (put_in e),
      sum_below-at threads (λ u. h'.generated u v) (λ u. h.generated u v) t small
          (λ u m ne. ap (λ (f : ℕ → ℕ). f v) (n.counts u ne)),
      sum_below-at threads (held enqueue v h') (held enqueue v h) t small
          (λ u m ne. same_held enqueue v u ne),
    );
    loaded_count = λ v. omega (
      arith,
      l.loaded_count v,
      n.loads v,
      tally-append v r (taken_out e),
      sum_below-at threads (held dequeue v h') (held dequeue v h) t small
          (λ u m ne. same_held dequeue v u ne),
    );
    puts_left = omega (
      arith,
      l.puts_left,
      n.puts,
      length-append w (put_in e),
      sum_below-at threads (ahead enqueue h') (ahead enqueue h) t small
          (λ u m ne. same_ahead enqueue u ne),
    );
    takes_left = omega (
      arith,
      l.takes_left,
      n.takes,
      length-append r (taken_out e),
      sum_below-at threads (ahead dequeue h') (ahead dequeue h) t small
          (λ u m ne. same_ahead dequeue u ne),
    );
  }
