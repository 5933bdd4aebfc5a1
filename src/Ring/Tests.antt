-- ===== src/Ring/Tests.antt =====
-- The ring buffer at a concrete run: one generator with three values, one counter, two slots.
use operating_system_pa.Base.{
  ℕ, zero, suc, ◌≤◌, ◌<◌, ◌≡◌, ◌≢◌, refl, ap, inl, inr, Bool, true, false, ◌&&◌, ltb, ltb→lt,
  Bool-cases, List, [], ◌∷◌, ◌++◌, length, All, if◌then◌else◌, ◌==◌, arith,
}
use operating_system_pa.Ring.State.{
  enqueue, accessing, between, within, Request, generate, count, Ring, Effect, asleep, aborted,
  next, run_line, init_ringbuffer, put_in, taken_out, Interleaved, started, ran,
}
use operating_system_pa.Ring.Slots.{Holds}
use operating_system_pa.Ring.Lines.{entered}
use operating_system_pa.Ring.Invariant.{Fits}
use operating_system_pa.Ring.Order.{Interleaved-queue, run_line-safe, entered_one}
use operating_system_pa.Ring.Totals
use operating_system_pa.Ring.Totals.{fini_generators, compare_results, rounds}
use operating_system_pa.Ring.Totals.Agreement.{compare_results-agree}
use operating_system_pa.Locks.Mutex.{act}

-- A state, and what has been put in and taken out.
record Played : Type 0 where
  ring : Ring
  stored : List ℕ
  loaded : List ℕ

abbrev played : Played → Effect → Played
played p (next s e) = record {
  ring = s;
  stored = p.stored ++ put_in e;
  loaded = p.loaded ++ taken_out e;
}
played p _ = p

-- The threads of the schedule take one step each, unless they are asleep.
play : List ℕ → Played → Played
play [] p = p
play (t ∷ ts) p = play ts (played p (run_line (p.ring.line t) t p.ring))

module _ (threads : ℕ) (s₀ : Ring) where
  played-Interleaved :
      (t : ℕ) (p : Played) (o : Effect)
      → t < threads
      → Interleaved threads s₀ p.ring p.stored p.loaded
      → run_line (p.ring.line t) t p.ring ≡ o
      → Interleaved threads s₀ (played p o).ring (played p o).stored (played p o).loaded
  played-Interleaved t p (next s e) l r step = ran t p.ring s e p.stored p.loaded r l step
  played-Interleaved t p asleep l r step = r
  played-Interleaved t p aborted l r step = r

  play-Interleaved :
      (ts : List ℕ) (p : Played)
      → All (λ t. t < threads) ts
      → Interleaved threads s₀ p.ring p.stored p.loaded
      → Interleaved threads s₀ (play ts p).ring (play ts p).stored (play ts p).loaded
  unfolding play
  play-Interleaved [] p a r = r
  play-Interleaved (t ∷ ts) p a r =
      play-Interleaved ts (played p (run_line (p.ring.line t) t p.ring)) a.1
        (played-Interleaved t p (run_line (p.ring.line t) t p.ring) a.0 r refl)

abbrev test_program : ℕ → List Request
test_program u =
    if u == 0
    then generate 7 ∷ generate 9 ∷ generate 7 ∷ []
    else if u == 1
    then count ∷ count ∷ count ∷ []
    else []

test_program-Fits : (u : ℕ) → All Fits (test_program u)
test_program-Fits u = elim (Bool-cases (u == 0)) [
  | inl e ↦ rw e (omega arith, (omega arith, (omega arith, tt)))
  | inr e ↦ elim (Bool-cases (u == 1)) [
    | inl f ↦ rw (e, f) (tt, (tt, (tt, tt)))
    | inr f ↦ rw (e, f) tt
  ]
]

abbrev memory : ℕ → ℕ
memory i = 0

abbrev first_state : Played
first_state = record { ring = init_ringbuffer memory test_program 2; stored = []; loaded = [] }

-- The counter goes to sleep at the empty buffer; the generator fills it and goes to sleep in turn.
abbrev schedule : List ℕ
schedule =
    1 ∷ 1 ∷ 1 ∷ 1 ∷ 1 ∷ 1 ∷ 1 ∷ 0 ∷ 0 ∷ 0 ∷ 0 ∷ 0 ∷ 0 ∷ 0 ∷ 0 ∷ 0 ∷ 0 ∷ 0 ∷ 0 ∷ 0 ∷ 0 ∷ 0 ∷ 0 ∷ 0
    ∷ 0 ∷ 0 ∷ 0 ∷ 0 ∷ 0 ∷ 0 ∷ 0 ∷ 0 ∷ 0 ∷ 0 ∷ 0 ∷ 0 ∷ 0 ∷ 0 ∷ 0 ∷ 0 ∷ 0 ∷ 0 ∷ 0 ∷ 0 ∷ 0 ∷ 0 ∷ 0 ∷ 0
    ∷ 0 ∷ 0 ∷ 0 ∷ 0 ∷ 0 ∷ 1 ∷ 1 ∷ 1 ∷ 1 ∷ 1 ∷ 1 ∷ 1 ∷ []

abbrev end_state : Played
end_state = play schedule first_state

entries : (end_state.stored ≡ 7 ∷ 9 ∷ []) × (end_state.loaded ≡ 7 ∷ [])
unfolding play run_line act
entries = (refl, refl)

abbrev below : ℕ → List ℕ → Bool
below n [] = true
below n (t ∷ ts) = ltb t n && below n ts

below-All : (n : ℕ) (ts : List ℕ) → below n ts ≡ true → All (λ t. t < n) ts
below-All n [] e = tt
below-All n (t ∷ ts) e = (ltb→lt t n (ground arith), below-All n ts (ground arith))

end_state-Interleaved :
    Interleaved 2 first_state.ring end_state.ring end_state.stored end_state.loaded
end_state-Interleaved =
    play-Interleaved 2 first_state.ring schedule first_state (below-All 2 schedule refl) started

Interleaved-queue_example :
    (q : List ℕ) × (end_state.stored ≡ end_state.loaded ++ q)
    × (length q ≤ 2)
    × Holds 2 end_state.ring.slots end_state.ring.out_index q
Interleaved-queue_example =
    Interleaved-queue 2 2 memory test_program (omega arith) test_program-Fits end_state.ring
      end_state.stored end_state.loaded end_state-Interleaved

run_line-safe_example :
    (run_line (end_state.ring.line 0) 0 end_state.ring ≢ aborted)
    × (end_state.ring.in_index < 2)
    × (end_state.ring.out_index < 2)
run_line-safe_example =
    run_line-safe 2 2 memory test_program (omega arith) test_program-Fits end_state.ring
      end_state.stored end_state.loaded end_state-Interleaved 0 (omega arith)

-- The generator has the mutex.
abbrev busy : List ℕ
busy = 1 ∷ 0 ∷ 0 ∷ 0 ∷ 0 ∷ 0 ∷ 0 ∷ 0 ∷ 0 ∷ 0 ∷ []

abbrev busy_state : Played
busy_state = play busy first_state

busy_state-Interleaved :
    Interleaved 2 first_state.ring busy_state.ring busy_state.stored busy_state.loaded
busy_state-Interleaved =
    play-Interleaved 2 first_state.ring busy first_state (below-All 2 busy refl) started

busy_line : busy_state.ring.line 0 ≡ within enqueue accessing
unfolding play run_line act
busy_line = refl

entered_one_example : ◌≡◌ {A = ℕ} 0 0
entered_one_example =
    entered_one 2 2 memory test_program (omega arith) test_program-Fits busy_state.ring
      busy_state.stored busy_state.loaded busy_state-Interleaved 0 0 (omega arith) (omega arith)
      (ap entered busy_line) (ap entered busy_line)

-- main with one generator of three values: the threads take turns until both are through.
abbrev values : ℕ → List ℕ
values u = 7 ∷ 9 ∷ 7 ∷ []

turns : ℕ → List ℕ
turns zero = []
turns (suc n) = 0 ∷ 1 ∷ turns n

turns-below : (n : ℕ) → below 2 (turns n) ≡ true
unfolding turns
turns-below zero = refl
turns-below (suc n) = turns-below n

abbrev main_start : Played
main_start = record {
  ring = init_ringbuffer memory (Totals.program 1 3 values) 2;
  stored = [];
  loaded = [];
}

abbrev main_end : Played
main_end = play (turns 140) main_start

main_end-Interleaved : Interleaved 2 main_start.ring main_end.ring main_end.stored main_end.loaded
main_end-Interleaved =
    play-Interleaved 2 main_start.ring (turns 140) main_start
      (below-All 2 (turns 140) (turns-below 140)) started

main_through : (u : ℕ) → u < 2 → (main_end.ring.line u ≡ between) × (main_end.ring.todo u ≡ [])
unfolding play turns run_line act rounds
main_through zero l = (refl, refl)
main_through (suc zero) l = (refl, refl)
main_through (suc (suc u)) l = absurd (omega (arith, l))

main_counts :
    (main_end.ring.value_counter 7 ≡ 2)
    × (fini_generators 1 main_end.ring.generated 7 ≡ 2)
    × (main_end.ring.value_counter 9 ≡ 1)
unfolding play turns run_line act rounds fini_generators
main_counts = (refl, refl, refl)

compare_results-agree_example :
    compare_results (fini_generators 1 main_end.ring.generated) main_end.ring.value_counter ≡ false
compare_results-agree_example =
    compare_results-agree memory values 2 1 3 (λ u l. refl)
      (λ u. (omega arith, (omega arith, (omega arith, tt)))) main_end.ring main_end.stored
      main_end.loaded (omega arith) (omega arith) main_end-Interleaved main_through
