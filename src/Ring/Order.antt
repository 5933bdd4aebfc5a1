-- ===== src/Ring/Order.antt =====
-- What the ring buffer promises to its threads, in every interleaving.
use native.Mathlib.Decide.{ℕ_discrete}
use native.Mathlib.Nat.{mod-lt}
use operating_system_pa.Base.{
  ℕ, ◌+◌, ◌≤◌, ◌<◌, ◌≡◌, ◌≢◌, refl, sym, ap, subst, ◌∙◌, inl, inr, Bool, true, false, Option, none,
  some, List, [], ◌∷◌, ◌++◌, append_assoc, ltb, length, All, if◌then◌else◌, Bool-cases,
  sum_below-zero, arith,
}
use operating_system_pa.Locks.Mutex.{Mutex}
use operating_system_pa.Locks.Permits.Preservation.{init_mutex-Kept}
use operating_system_pa.Ring.State.{
  max_value, Lock, enqueue, dequeue, reserving, locking, accessing, advancing, unlock, unlocking,
  post, posting, returning, Line, between, within, Request, generate, count, Ring, Effect, aborted,
  next, is_owning, is_away, in_mutex, outcome, begin, run_line, permits_of, init_ringbuffer, put_in,
  taken_out, Interleaved, started, ran,
}
use operating_system_pa.Ring.Slots.{Holds, empty-Filled}
use operating_system_pa.Ring.Lines.{reserved, owed, entered, total_lines, entered_alone}
use operating_system_pa.Ring.Invariant.{Fits, Intact}
use operating_system_pa.Ring.Preservation.{Moved}
use operating_system_pa.Ring.Preservation.Plain.{
  begin-Moved, access-Moved, advance-Moved, account-Moved,
}
use operating_system_pa.Ring.Preservation.Calls.{
  reserve-Moved, lock-Moved, unlock-Moved, unlocking-Moved, post-Moved, posting-Moved,
}

module _ (threads : ℕ) (q : List ℕ) (s : Ring) (t : ℕ) (k : Intact threads s q)
    (small : t < threads) where
  -- The next statement of a thread, at its line.
  pub run_line-Moved : (l : Line) → s.line t ≡ l → Moved threads q (run_line l t s)
  unfolding run_line
  run_line-Moved between at = begin-Moved threads q s t k small at (s.todo t) (k.fits t)
  run_line-Moved (within e reserving) at = reserve-Moved threads q s t k small e at
  run_line-Moved (within e locking) at = lock-Moved threads q s t k small e at
  run_line-Moved (within e accessing) at = access-Moved threads q s t k small e at
  run_line-Moved (within e advancing) at = advance-Moved threads q s t k small e at
  run_line-Moved (within e unlock) at = unlock-Moved threads q s t k small e at
  run_line-Moved (within e unlocking) at = unlocking-Moved threads q s t k small e at
  run_line-Moved (within e post) at = post-Moved threads q s t k small e at
  run_line-Moved (within e posting) at = posting-Moved threads q s t k small e at
  run_line-Moved (within e returning) at = account-Moved threads q s t k small e at

init_ringbuffer-Intact :
    (threads n : ℕ) (memory : ℕ → ℕ) (program : ℕ → List Request)
    → 1 ≤ n
    → ((u : ℕ) → All Fits (program u))
    → Intact threads (init_ringbuffer memory program n) []
init_ringbuffer-Intact threads n memory program l fit =
    let nothing : (f : Line → ℕ) → f between ≡ 0 → total_lines threads f (λ u. between) ≡ 0 =
      λ f z. sum_below-zero threads _ (λ u. z) in
    record {
      permits = permits_of n;
      guarded = record {
        kept = λ k. init_mutex-Kept threads (permits_of n k);
        placed = λ k u h. refl;
        quiet = λ u h. refl;
      };
      counted = record {
        slots = omega (arith, nothing (reserved enqueue) refl, nothing (owed dequeue) refl);
        entries = omega (arith, nothing (reserved dequeue) refl, nothing (owed enqueue) refl);
        exclusive = omega (arith, nothing entered refl);
      };
      stocked = record {
        filled = empty-Filled n memory l;
        small = tt;
        writes = λ u e. absurd (ground arith);
        reads = λ u e. absurd (ground arith);
        valid = λ u e. absurd (ground arith);
        far = λ u le. refl;
      };
      fits = fit;
    }

-- The values that were put in and are not taken out are the queue.
record Balanced (threads : ℕ) (s : Ring) (w r : List ℕ) : Type 0 where
  queue : List ℕ
  intact : Intact threads s queue
  order : w ≡ r ++ queue

Interleaved-Balanced :
    (threads : ℕ) (s₀ : Ring)
    → Intact threads s₀ []
    → (s : Ring) (w r : List ℕ) → Interleaved threads s₀ s w r
    → Balanced threads s w r
Interleaved-Balanced threads s₀ k s w r started = record { queue = []; intact = k; order = refl }
Interleaved-Balanced threads s₀ k s w r (ran t s₁ s' e w₁ r₁ before small step) =
    let b = Interleaved-Balanced threads s₀ k s₁ w₁ r₁ before in
    let m : Moved threads b.queue (next s e) =
      subst (λ o. Moved threads b.queue o) step
        (run_line-Moved threads b.queue s₁ t b.intact small (s₁.line t) refl) in
    record {
      queue = m.0;
      intact = m.1;
      order =
          ap (λ l. l ++ put_in e) b.order
          ∙ append_assoc r₁ b.queue (put_in e)
          ∙ ap (λ l. r₁ ++ l) m.2
          ∙ sym (append_assoc r₁ (taken_out e) m.0);
    }

-- The number of slots never changes.
abbrev Sized : ℕ → Effect → Type 0
Sized n (next s e) = s.nr_slots ≡ n
Sized n _ = Unit

if_same :
    (b : Bool) (n : ℕ) (x y : Ring)
    → x.nr_slots ≡ n
    → y.nr_slots ≡ n
    → (if b then x else y).nr_slots ≡ n
if_same true n x y a b = a
if_same false n x y a b = b

outcome-Sized :
    (n : ℕ) (f : Mutex → Ring) (r : Option Mutex)
    → ((m : Mutex) → (f m).nr_slots ≡ n)
    → Sized n (outcome f r)
outcome-Sized n f none h = tt
outcome-Sized n f (some m) h = h m

in_mutex-Sized :
    (t : ℕ) (k : Lock) (f : Mutex → Ring) (s : Ring)
    → ((m : Mutex) → (f m).nr_slots ≡ s.nr_slots)
    → Sized s.nr_slots (in_mutex t k f s)
in_mutex-Sized t k f s h = outcome-Sized s.nr_slots f _ h

begin-Sized : (t : ℕ) (todo : List Request) (s : Ring) → Sized s.nr_slots (begin t todo s)
begin-Sized t [] s = tt
begin-Sized t (count ∷ rest) s = refl
begin-Sized t (generate v ∷ rest) s = elim (Bool-cases (ltb v max_value)) [
  | inl e ↦ rw e refl
  | inr e ↦ rw e tt
]

run_line-Sized : (l : Line) (t : ℕ) (s : Ring) → Sized s.nr_slots (run_line l t s)
unfolding run_line
run_line-Sized between t s = begin-Sized t (s.todo t) s
run_line-Sized (within e reserving) t s =
    in_mutex-Sized t _ _ s (λ m. if_same (is_owning (m.stage t)) s.nr_slots _ _ refl refl)
run_line-Sized (within e locking) t s =
    in_mutex-Sized t _ _ s (λ m. if_same (is_owning (m.stage t)) s.nr_slots _ _ refl refl)
run_line-Sized (within enqueue accessing) t s = refl
run_line-Sized (within dequeue accessing) t s = refl
run_line-Sized (within enqueue advancing) t s = refl
run_line-Sized (within dequeue advancing) t s = refl
run_line-Sized (within e unlock) t s = refl
run_line-Sized (within e unlocking) t s =
    in_mutex-Sized t _ _ s (λ m. if_same (is_away (m.stage t)) s.nr_slots _ _ refl refl)
run_line-Sized (within e post) t s = refl
run_line-Sized (within e posting) t s =
    in_mutex-Sized t _ _ s (λ m. if_same (is_away (m.stage t)) s.nr_slots _ _ refl refl)
run_line-Sized (within enqueue returning) t s = refl
run_line-Sized (within dequeue returning) t s = elim (Bool-cases (ltb (s.value t) max_value)) [
  | inl e ↦ rw e refl
  | inr e ↦ rw e tt
]

Interleaved-nr_slots :
    (threads : ℕ) (s₀ s : Ring) (w r : List ℕ)
    → Interleaved threads s₀ s w r
    → s.nr_slots ≡ s₀.nr_slots
Interleaved-nr_slots threads s₀ s w r started = refl
Interleaved-nr_slots threads s₀ s w r (ran t s₁ s' e w₁ r₁ before small step) =
    let one : Sized s₁.nr_slots (next s e) =
      subst (Sized s₁.nr_slots) step (run_line-Sized (s₁.line t) t s₁) in
    one ∙ Interleaved-nr_slots threads s₀ s₁ w₁ r₁ before

module _ (threads n : ℕ) (memory : ℕ → ℕ) (program : ℕ → List Request) (positive : 1 ≤ n)
    (fit : (u : ℕ) → All Fits (program u)) (s : Ring) (w r : List ℕ)
    (reach : Interleaved threads (init_ringbuffer memory program n) s w r) where
  balanced : Balanced threads s w r
  balanced =
      Interleaved-Balanced threads (init_ringbuffer memory program n)
        (init_ringbuffer-Intact threads n memory program positive fit) s w r reach

  -- In every interleaving of threads that use a ring buffer of n slots, n positive, with values in
  -- range, the values put in are those taken out followed by at most n values in the order in
  -- which they were put in, and the slots from `out` on, round the end of the array, hold exactly
  -- these: nothing is lost, repeated, overwritten or taken out of turn.
  pub Interleaved-queue :
      (q : List ℕ) × (w ≡ r ++ q) × (length q ≤ n) × Holds n s.slots s.out_index q
  unfolding balanced
  Interleaved-queue =
      let same = Interleaved-nr_slots threads (init_ringbuffer memory program n) s w r reach in
      let c = balanced.intact.counted.slots in
      (
        balanced.queue,
        balanced.order,
        omega (arith, c, same),
        subst (λ m. Holds m s.slots s.out_index balanced.queue) same
            balanced.intact.stocked.filled.holds,
      )

  -- In every interleaving of threads that use a ring buffer of n slots, n positive, with values in
  -- range, no assertion on a value fails in the next statement of a thread, and both indices are
  -- inside the array.
  pub run_line-safe :
      (t : ℕ)
      → t < threads
      → (run_line (s.line t) t s ≢ aborted) × (s.in_index < n) × (s.out_index < n)
  run_line-safe t small =
      let same = Interleaved-nr_slots threads (init_ringbuffer memory program n) s w r reach in
      let f = balanced.intact.stocked.filled in
      let inside : s.in_index < s.nr_slots =
        rw f.end (mod-lt (s.out_index + length balanced.queue) (omega (arith, f.inside))) in
      let outside = f.inside in
      (
        λ e.
            subst (λ o. Moved threads balanced.queue o) e
              (run_line-Moved threads balanced.queue s t balanced.intact small (s.line t) refl),
        omega (arith, inside, same),
        omega (arith, outside, same),
      )

  -- In every interleaving of threads that use a ring buffer of n slots, n positive, with values in
  -- range, at most one thread is between the acquire_mutex and the release_mutex around a slot and
  -- its index.
  pub entered_one :
      (t u : ℕ)
      → t < threads
      → u < threads
      → entered (s.line t) ≡ 1
      → entered (s.line u) ≡ 1
      → t ≡ u
  entered_one t u a b in_t in_u = elim (ℕ_discrete t u) [
    | yes same ↦ same
    | no ne ↦ absurd (entered_alone balanced.intact.counted t a u b in_t in_u ne)
  ]
