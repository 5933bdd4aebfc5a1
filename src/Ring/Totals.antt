-- ===== src/Ring/Totals.antt =====
-- sce213-pa3-2020s: fini_generators of generator.c, and compare_results of main.c, on the results of
-- the threads that main starts.
pub mod Ledger
pub mod Entries
pub mod Books
pub mod Agreement
use operating_system_pa.Base.{
  ℕ, zero, suc, ◌+◌, ◌*◌, ◌%◌, ◌^◌, Bool, false, not, ◌||◌, List, [], ◌∷◌, map, ◌==◌, ltb,
  if◌then◌else◌, Result,
}
use operating_system_pa.Ring.State.{max_value, Request, generate, count, Ring, init_rb}

-- `values[n] += g->generated[n]` for each generator, from zero.
unfoldable pub fini_generators : ℕ → (ℕ → ℕ → ℕ) → ℕ → ℕ
fini_generators zero generated v = 0
fini_generators (suc n) generated v = (fini_generators n generated v + generated n v) % 2 ^ 64

-- Whether one of the first `n` values has two different counts.
unfoldable pub mismatch : ℕ → (ℕ → ℕ) → (ℕ → ℕ) → Bool
mismatch zero generated counted = false
mismatch (suc n) generated counted = mismatch n generated counted || not (generated n == counted n)

abbrev pub compare_results : (ℕ → ℕ) → (ℕ → ℕ) → Bool
compare_results generated counted = mismatch max_value generated counted

unfoldable pub rounds : ℕ → List Request
rounds zero = []
rounds (suc n) = count ∷ rounds n

-- The threads of main: generators with their values from 0 on, and then the counter, which takes as
-- many as they generate together.
abbrev pub program : ℕ → ℕ → (ℕ → List ℕ) → ℕ → List Request
program nr_generators nr_generate values t =
    if ltb t nr_generators
    then map generate (values t)
    else if t == nr_generators
    then rounds (nr_generate * nr_generators)
    else []

-- main, up to the start of the threads.
abbrev pub start_main : (ℕ → ℕ) → (ℕ → List ℕ) → ℕ → ℕ → ℕ → Result Ring
start_main memory values nr_slots nr_generators nr_generate =
    init_rb memory (program nr_generators nr_generate values) nr_slots
