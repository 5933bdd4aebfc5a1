-- ===== src/Ring/Totals/Agreement.antt =====
-- When all threads are through, the counts of the generators and of the counter agree.
use native.Mathlib.Nat.{mul-zero, mul-suc, zero-mul}
use operating_system_pa.Base.{
  ℕ, zero, suc, ◌+◌, ◌*◌, ◌^◌, ◌≤◌, ◌<◌, ◌≡◌, refl, sym, ap, ◌∙◌, inl, inr, false, List, [], ◌∷◌,
  ◌++◌, map, append-nil, ◌==◌, ltb, lt→ltb, ==_refl, length, length-append, All, Bool-cases,
  sum_below, sum_below-zero, arith,
}
use operating_system_pa.Ring.State.{
  max_value, Side, enqueue, dequeue, Line, between, Request, generate, Ring, init_ringbuffer,
  Interleaved,
}
use operating_system_pa.Ring.Invariant.{Small, Fits}
use operating_system_pa.Ring.Order.{Interleaved-queue}
use operating_system_pa.Ring.Totals.{fini_generators, mismatch, compare_results, rounds, program}
use operating_system_pa.Ring.Totals.Ledger.{tally, asks, Hands, hands, ahead, held, Ledger}
use operating_system_pa.Ring.Totals.Entries.{if_zero}
use operating_system_pa.Ring.Totals.Books.{
  tally-le-length, Interleaved-Ledger, Mute, Interleaved-Mute,
}

sum_below-const : (n c : ℕ) (f : ℕ → ℕ) → ((i : ℕ) → i < n → f i ≡ c) → sum_below n f ≡ c * n
unfolding sum_below
sum_below-const zero c f h = omega (arith, mul-zero c)
sum_below-const (suc n) c f h =
    omega
      (arith, sum_below-const n c f (λ i l. h i (omega (arith, l))), h n (omega arith), mul-suc c n)

sum_below-suc : (n : ℕ) (f : ℕ → ℕ) → sum_below (suc n) f ≡ sum_below n f + f n
unfolding sum_below
sum_below-suc n f = refl

nothing_left : (q : List ℕ) → length q ≡ 0 → q ≡ []
nothing_left [] e = refl
nothing_left (x ∷ q) e = absurd (omega (arith, e))

asks-generate : (l : List ℕ) → asks enqueue (map generate l) ≡ length l
asks-generate [] = refl
asks-generate (v ∷ l) = omega (arith, asks-generate l)

asks_no_counts : (l : List ℕ) → asks dequeue (map generate l) ≡ 0
asks_no_counts [] = refl
asks_no_counts (v ∷ l) = asks_no_counts l

asks-rounds : (n : ℕ) → (asks dequeue (rounds n) ≡ n) × (asks enqueue (rounds n) ≡ 0)
unfolding rounds
asks-rounds zero = (refl, refl)
asks-rounds (suc n) = (omega (arith, (asks-rounds n).0), (asks-rounds n).1)

rounds-Fits : (n : ℕ) → All Fits (rounds n)
unfolding rounds
rounds-Fits zero = tt
rounds-Fits (suc n) = (tt, rounds-Fits n)

generate-Fits : (l : List ℕ) → All Small l → All Fits (map generate l)
generate-Fits [] a = tt
generate-Fits (v ∷ l) a = (a.0, generate-Fits l a.1)

-- Equal counts have no mismatch.
mismatch_none : (n : ℕ) (a b : ℕ → ℕ) → ((v : ℕ) → a v ≡ b v) → mismatch n a b ≡ false
unfolding mismatch
mismatch_none zero a b h = refl
mismatch_none (suc n) a b h = rw (mismatch_none n a b h, h n, ==_refl (b n)) refl

-- What fini_generators adds up does not wrap.
fini_generators-sum :
    (n : ℕ) (generated : ℕ → ℕ → ℕ) (v : ℕ)
    → sum_below n (λ u. generated u v) < 2 ^ 64
    → fini_generators n generated v ≡ sum_below n (λ u. generated u v)
unfolding fini_generators sum_below
fini_generators-sum zero generated v small = refl
fini_generators-sum (suc n) generated v small =
    omega (arith, small, fini_generators-sum n generated v (omega (arith, small)))

module _ (memory : ℕ → ℕ) (values : ℕ → List ℕ) (n g per : ℕ)
    (long : (u : ℕ) → u < g → length (values u) ≡ per) (fit : (u : ℕ) → All Small (values u)) where
  abbrev main_program : ℕ → List Request
  main_program = program g per values

  program-Fits : (u : ℕ) → All Fits (main_program u)
  program-Fits u = elim (Bool-cases (ltb u g)) [
    | inl e ↦ rw e (generate-Fits (values u) (fit u))
    | inr e ↦ elim (Bool-cases (u == g)) [
      | inl f ↦ rw (e, f) (rounds-Fits (per * g))
      | inr f ↦ rw (e, f) tt
    ]
  ]

  generator_asks :
      (u : ℕ) → u < g → (asks enqueue (main_program u) ≡ per) × (asks dequeue (main_program u) ≡ 0)
  generator_asks u l =
      rw (lt→ltb u g l) (asks-generate (values u) ∙ long u l, asks_no_counts (values u))

  counter_asks : (asks enqueue (main_program g) ≡ 0) × (asks dequeue (main_program g) ≡ per * g)
  counter_asks =
      let off : ltb g g ≡ false = ground arith in
      rw (off, ==_refl g) ((asks-rounds (per * g)).1, (asks-rounds (per * g)).0)

  started-Ledger :
      Ledger (suc g) (per * g) (per * g) (hands (init_ringbuffer memory main_program n)) [] []
  unfolding sum_below
  started-Ledger = record {
    stored_count = λ v. omega (
      arith,
      sum_below-zero g (λ u. 0) (λ u. refl),
      sum_below-zero g (held enqueue v h₀) (λ u. none_held enqueue v u),
      none_held enqueue v g,
    );
    loaded_count = λ v. omega (
      arith,
      sum_below-zero g (held dequeue v h₀) (λ u. none_held dequeue v u),
      none_held dequeue v g,
    );
    puts_left = omega (
      arith,
      sum_below-const g per (ahead enqueue h₀) (λ u l. omega (arith, (generator_asks u l).0)),
      counter_asks.0,
    );
    takes_left = omega (
      arith,
      sum_below-const g 0 (ahead dequeue h₀) (λ u l. omega (arith, (generator_asks u l).1)),
      zero-mul g,
      counter_asks.1,
    );
  }
    where
      h₀ : Hands
      h₀ = hands (init_ringbuffer memory main_program n)

      none_held : (e : Side) (v u : ℕ) → held e v h₀ u ≡ 0
      none_held e v u = if_zero (v == 0)

  -- When every generator that main starts has put in its values, all in range and their number
  -- below 2^64, and the counter has taken out as many, in any interleaving, compare_results finds
  -- no value that was generated and counted different numbers of times.
  pub compare_results-agree :
      (s : Ring) (w r : List ℕ)
      → 1 ≤ n
      → per * g < 2 ^ 64
      → Interleaved (suc g) (init_ringbuffer memory main_program n) s w r
      → ((u : ℕ) → u < suc g → (s.line u ≡ between) × (s.todo u ≡ []))
      → compare_results (fini_generators g s.generated) s.value_counter ≡ false
  compare_results-agree s w r positive few reach done =
      mismatch_none max_value (fini_generators g s.generated) s.value_counter agree
    where
      start : Ring
      start = init_ringbuffer memory main_program n

      l : Ledger (suc g) (per * g) (per * g) (hands s) w r
      l = Interleaved-Ledger (suc g) (per * g) (per * g) few few start started-Ledger s w r reach

      finished : (f : Line → ℕ) → f between ≡ 0 → (u : ℕ) → u < suc g → f (s.line u) ≡ 0
      finished f z u m = ap f (done u m).0 ∙ z

      none_ahead : (e : Side) → sum_below (suc g) (ahead e (hands s)) ≡ 0
      none_ahead e =
          sum_below-const (suc g) 0 (ahead e (hands s))
            (λ u m. rw ((done u m).0, (done u m).1) refl)
          ∙ zero-mul (suc g)

      none_held : (e : Side) (v : ℕ) → sum_below (suc g) (held e v (hands s)) ≡ 0
      none_held e v =
          sum_below-const (suc g) 0 (held e v (hands s))
            (λ u m. rw ((done u m).0) (if_zero (v == s.value u)))
          ∙ zero-mul (suc g)

      -- As many values were taken out as were put in, so the buffer is empty.
      same : w ≡ r
      same =
          let (q, order, short, holds) =
            Interleaved-queue (suc g) n memory main_program positive program-Fits s w r reach in
          let lengths : length w ≡ length r + length q = ap length order ∙ length-append r q in
          let empty_queue : length q ≡ 0 =
            omega
              (arith, lengths, l.puts_left, l.takes_left, none_ahead enqueue, none_ahead dequeue) in
          order ∙ ap (λ x. r ++ x) (nothing_left q empty_queue) ∙ append-nil r

      mute : Mute g (hands s)
      mute =
          Interleaved-Mute (suc g) (per * g) (per * g) few few start started-Ledger g
            (record {
              nothing = omega (arith, counter_asks.0);
              unused = λ v. omega (arith, if_zero (v == 0));
            })
            s w r reach

      agree : (v : ℕ) → fini_generators g s.generated v ≡ s.value_counter v
      agree v =
          let total : sum_below g (λ u. s.generated u v) ≡ tally v w = omega (
            arith,
            l.stored_count v,
            none_held enqueue v,
            mute.unused v,
            sum_below-suc g (λ u. s.generated u v),
          ) in
          let counted : s.value_counter v ≡ tally v r =
            omega (arith, l.loaded_count v, none_held dequeue v) in
          let small : sum_below g (λ u. s.generated u v) < 2 ^ 64 =
            omega (arith, total, tally-le-length v w, l.puts_left, few) in
          fini_generators-sum g s.generated v small ∙ total ∙ ap (tally v) same ∙ sym counted
