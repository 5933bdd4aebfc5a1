-- ===== src/Ring/Totals/Entries.antt =====
-- Every statement is entered in the books.
use native.Mathlib.Decide.{ℕ_discrete}
use operating_system_pa.Base.{
  ℕ, ◌+◌, ◌^◌, ◌<◌, ◌≡◌, refl, inl, inr, Bool, true, false, Option, none, some, List, [], ◌∷◌, ◌==◌,
  ==_refl, ==_ne, if◌then◌else◌, Bool-cases, update, indicator, arith,
}
use operating_system_pa.Locks.Mutex.{Mutex}
use operating_system_pa.Ring.State.{
  Side, enqueue, dequeue, reserving, locking, accessing, advancing, unlock, unlocking, post,
  posting, returning, Line, between, within, Request, generate, count, Ring, silent, stored, loaded,
  Effect, next, goto, in_range, begin, account, outcome, is_owning, is_away, inc64, run_line,
}
use operating_system_pa.Ring.Totals.Ledger.{early_line, late_line, Hands, hands, Entry}

-- A statement that only moves the thread, with nothing new in its hands.
goto-Entry :
    (t : ℕ) (h : Hands) (l l' : Line)
    → h.line t ≡ l
    → ((f : Side) → late_line f l' ≡ late_line f l)
    → ((f : Side) → early_line f l' ≡ early_line f l)
    → Entry t h (record h { line = update h.line t l' }) silent
goto-Entry t h l l' at late early = record {
  lines = λ u ne. rw (==_ne u t ne) refl;
  values = λ u ne. refl;
  requests = λ u ne. refl;
  counts = λ u ne. refl;
  stores = λ v. rw (==_refl t, at, late enqueue) (omega arith);
  loads = λ v. rw (==_refl t, at, late dequeue) (omega arith);
  puts = rw (==_refl t, at, early enqueue) (omega arith);
  takes = rw (==_refl t, at, early dequeue) (omega arith);
}

pub if_zero : (b : Bool) → ◌≡◌ {A = ℕ} (if b then 0 else 0) 0
if_zero true = refl
if_zero false = refl

-- The slot is read into the thread's value.
read-Entry :
    (t x : ℕ) (h : Hands)
    → h.line t ≡ within dequeue accessing
    → Entry t h
        (record h { value = update h.value t x; line = update h.line t (within dequeue advancing) })
        silent
read-Entry t x h at = record {
  lines = λ u ne. rw (==_ne u t ne) refl;
  values = λ u ne. rw (==_ne u t ne) refl;
  requests = λ u ne. refl;
  counts = λ u ne. refl;
  stores = λ v. rw (==_refl t, at) (omega (arith, if_zero (v == x), if_zero (v == h.value t)));
  loads = λ v. rw (==_refl t, at) (omega (arith, if_zero (v == x), if_zero (v == h.value t)));
  puts = rw (==_refl t, at) (omega arith);
  takes = rw (==_refl t, at) (omega arith);
}

generate-Entry :
    (t x : ℕ) (rest : List Request) (h : Hands)
    → h.line t ≡ between
    → h.todo t ≡ generate x ∷ rest
    → Entry t h
        (record h {
          value = update h.value t x;
          todo = update h.todo t rest;
          line = update h.line t (within enqueue reserving);
        })
        silent
generate-Entry t x rest h at ask = record {
  lines = λ u ne. rw (==_ne u t ne) refl;
  values = λ u ne. rw (==_ne u t ne) refl;
  requests = λ u ne. rw (==_ne u t ne) refl;
  counts = λ u ne. refl;
  stores = λ v. rw (==_refl t, at) (omega (arith, if_zero (v == x), if_zero (v == h.value t)));
  loads = λ v. rw (==_refl t, at) (omega (arith, if_zero (v == x), if_zero (v == h.value t)));
  puts = rw (==_refl t, at, ask) (omega arith);
  takes = rw (==_refl t, at, ask) (omega arith);
}

count-Entry :
    (t : ℕ) (rest : List Request) (h : Hands)
    → h.line t ≡ between
    → h.todo t ≡ count ∷ rest
    → Entry t h
        (record h {
          todo = update h.todo t rest;
          line = update h.line t (within dequeue reserving);
        })
        silent
count-Entry t rest h at ask = record {
  lines = λ u ne. rw (==_ne u t ne) refl;
  values = λ u ne. refl;
  requests = λ u ne. rw (==_ne u t ne) refl;
  counts = λ u ne. refl;
  stores = λ v. rw (==_refl t, at) (omega (arith, if_zero (v == h.value t)));
  loads = λ v. rw (==_refl t, at) (omega (arith, if_zero (v == h.value t)));
  puts = rw (==_refl t, at, ask) (omega arith);
  takes = rw (==_refl t, at, ask) (omega arith);
}

one_if : (b : Bool) → ◌≡◌ {A = ℕ} (if b then 1 else 0) (indicator b)
one_if true = refl
one_if false = refl

store-Entry :
    (t : ℕ) (h : Hands)
    → h.line t ≡ within enqueue advancing
    → Entry t h (record h { line = update h.line t (within enqueue unlock) }) (stored (h.value t))
store-Entry t h at = record {
  lines = λ u ne. rw (==_ne u t ne) refl;
  values = λ u ne. refl;
  requests = λ u ne. refl;
  counts = λ u ne. refl;
  stores =
      λ v. rw (==_refl t, at) (omega (arith, if_zero (v == h.value t), one_if (v == h.value t)));
  loads = λ v. rw (==_refl t, at) (omega (arith, if_zero (v == h.value t)));
  puts = rw (==_refl t, at) (omega arith);
  takes = rw (==_refl t, at) (omega arith);
}

load-Entry :
    (t : ℕ) (h : Hands)
    → h.line t ≡ within dequeue advancing
    → Entry t h (record h { line = update h.line t (within dequeue unlock) }) (loaded (h.value t))
load-Entry t h at = record {
  lines = λ u ne. rw (==_ne u t ne) refl;
  values = λ u ne. refl;
  requests = λ u ne. refl;
  counts = λ u ne. refl;
  stores = λ v. rw (==_refl t, at) (omega (arith, if_zero (v == h.value t)));
  loads =
      λ v. rw (==_refl t, at) (omega (arith, if_zero (v == h.value t), one_if (v == h.value t)));
  puts = rw (==_refl t, at) (omega arith);
  takes = rw (==_refl t, at) (omega arith);
}

-- A count goes up by one, where it has room.
counted_up :
    (f : ℕ → ℕ) (x v : ℕ)
    → f x + 1 < 2 ^ 64
    → update f x (inc64 (f x)) v ≡ f v + (if v == x then 1 else 0)
counted_up f x v room = elim (ℕ_discrete v x) [
  | yes same ↦ rw (same, ==_refl x) (omega (arith, room))
  | no ne ↦ rw (==_ne v x ne) (omega arith)
]

count_generated-Entry :
    (t : ℕ) (h : Hands)
    → h.line t ≡ within enqueue returning
    → h.generated t (h.value t) + 1 < 2 ^ 64
    → Entry t h
        (record h {
          generated =
              update h.generated t
                (update (h.generated t) (h.value t) (inc64 (h.generated t (h.value t))));
          line = update h.line t between;
        })
        silent
count_generated-Entry t h at room = record {
  lines = λ u ne. rw (==_ne u t ne) refl;
  values = λ u ne. refl;
  requests = λ u ne. refl;
  counts = λ u ne. rw (==_ne u t ne) refl;
  stores = λ v.
      rw (==_refl t, at)
        (omega (arith, if_zero (v == h.value t), counted_up (h.generated t) (h.value t) v room));
  loads = λ v. rw (==_refl t, at) (omega (arith, if_zero (v == h.value t)));
  puts = rw (==_refl t, at) (omega arith);
  takes = rw (==_refl t, at) (omega arith);
}

count_taken-Entry :
    (t : ℕ) (h : Hands)
    → h.line t ≡ within dequeue returning
    → h.value_counter (h.value t) + 1 < 2 ^ 64
    → Entry t h
        (record h {
          value_counter = update h.value_counter (h.value t) (inc64 (h.value_counter (h.value t)));
          line = update h.line t between;
        })
        silent
count_taken-Entry t h at room = record {
  lines = λ u ne. rw (==_ne u t ne) refl;
  values = λ u ne. refl;
  requests = λ u ne. refl;
  counts = λ u ne. refl;
  stores = λ v. rw (==_refl t, at) (omega (arith, if_zero (v == h.value t)));
  loads = λ v.
      rw (==_refl t, at)
        (omega (arith, if_zero (v == h.value t), counted_up h.value_counter (h.value t) v room));
  puts = rw (==_refl t, at) (omega arith);
  takes = rw (==_refl t, at) (omega arith);
}

-- What an outcome enters in the books.
abbrev pub Entered : ℕ → Hands → Effect → Type 0
Entered t h (next s e) = Entry t h (hands s) e
Entered t h _ = Unit

-- The counts of the thread have room for one more where it is about to count.
pub record Room (t : ℕ) (s : Ring) : Type 0 where
  pub generated : s.line t ≡ within enqueue returning → s.generated t (s.value t) + 1 < 2 ^ 64
  pub taken : s.line t ≡ within dequeue returning → s.value_counter (s.value t) + 1 < 2 ^ 64

module _ (t : ℕ) (s : Ring) where
  stay : (l : Line) → s.line t ≡ l → Entry t (hands s) (hands s) silent
  stay l at = record {
    lines = λ u ne. refl;
    values = λ u ne. refl;
    requests = λ u ne. refl;
    counts = λ u ne. refl;
    stores = λ v. omega arith;
    loads = λ v. omega arith;
    puts = omega arith;
    takes = omega arith;
  }

  outcome-Entered :
      (f : Mutex → Ring) (r : Option Mutex)
      → ((m : Mutex) → Entry t (hands s) (hands (f m)) silent)
      → Entered t (hands s) (outcome f r)
  outcome-Entered f none h = tt
  outcome-Entered f (some m) h = h m

  -- A call is still on, or returns.
  either :
      (b : Bool) (x y : Ring)
      → Entry t (hands s) (hands x) silent
      → Entry t (hands s) (hands y) silent
      → Entry t (hands s) (hands (if b then x else y)) silent
  either true x y a b = a
  either false x y a b = b

  begin-Entered :
      (todo : List Request)
      → s.line t ≡ between
      → s.todo t ≡ todo
      → Entered t (hands s) (begin t todo s)
  begin-Entered [] at ask = tt
  begin-Entered (count ∷ rest) at ask = count-Entry t rest (hands s) at ask
  begin-Entered (generate v ∷ rest) at ask = elim (Bool-cases (in_range v)) [
    | inr e ↦ rw e tt
    | inl e ↦ rw e (generate-Entry t v rest (hands s) at ask)
  ]

  account-Entered :
      (e : Side)
      → s.line t ≡ within e returning
      → Room t s
      → Entered t (hands s) (account e t (goto t between s))
  account-Entered enqueue at room = count_generated-Entry t (hands s) at (room.generated at)
  account-Entered dequeue at room = elim (Bool-cases (in_range (s.value t))) [
    | inr e ↦ rw e tt
    | inl e ↦ rw e (count_taken-Entry t (hands s) at (room.taken at))
  ]

  pub run_line-Entered : (l : Line) → s.line t ≡ l → Room t s → Entered t (hands s) (run_line l t s)
  unfolding run_line
  run_line-Entered between at room = begin-Entered (s.todo t) at refl
  run_line-Entered (within e reserving) at room = outcome-Entered _ _ (λ m.
      either (is_owning (m.stage t)) _ _
        (goto-Entry t (hands s) _ (within e locking) at (λ f. refl) (λ f. refl)) (stay _ at))
  run_line-Entered (within e locking) at room = outcome-Entered _ _ (λ m.
      either (is_owning (m.stage t)) _ _
        (goto-Entry t (hands s) _ (within e accessing) at (λ f. refl) (λ f. refl)) (stay _ at))
  run_line-Entered (within enqueue accessing) at room =
      goto-Entry t (hands s) _ (within enqueue advancing) at (λ f. refl) (λ f. refl)
  run_line-Entered (within dequeue accessing) at room =
      read-Entry t (s.slots s.out_index) (hands s) at
  run_line-Entered (within enqueue advancing) at room = store-Entry t (hands s) at
  run_line-Entered (within dequeue advancing) at room = load-Entry t (hands s) at
  run_line-Entered (within e unlock) at room =
      goto-Entry t (hands s) _ (within e unlocking) at (λ f. refl) (λ f. refl)
  run_line-Entered (within e unlocking) at room = outcome-Entered _ _ (λ m.
      either (is_away (m.stage t)) _ _
        (goto-Entry t (hands s) _ (within e post) at (λ f. refl) (λ f. refl)) (stay _ at))
  run_line-Entered (within e post) at room =
      goto-Entry t (hands s) _ (within e posting) at (λ f. refl) (λ f. refl)
  run_line-Entered (within e posting) at room = outcome-Entered _ _ (λ m.
      either (is_away (m.stage t)) _ _
        (goto-Entry t (hands s) _ (within e returning) at (λ f. refl) (λ f. refl)) (stay _ at))
  run_line-Entered (within e returning) at room = account-Entered e at room
