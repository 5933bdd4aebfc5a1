-- ===== src/Ring/Lines.antt =====
-- How many threads are at which lines of the ring buffer's code, and what that says of the permits.
use operating_system_pa.Base.{
  ℕ, ◌+◌, ◌≤◌, ◌<◌, ◌≡◌, ◌≢◌, ap, Bool, true, false, if◌then◌else◌, update, sum_below,
  sum_below-update, two-le-sum_below, term-le-sum_below, arith,
}
use operating_system_pa.Ring.State.{
  Lock, sema, mutex, empty, Side, enqueue, dequeue, Statement, locking, accessing, advancing,
  unlock, unlocking, post, Line, between, within,
}

abbrev pub same_side : Side → Side → Bool
same_side enqueue enqueue = true
same_side dequeue dequeue = true
same_side _ _ = false

abbrev reserved_part : Statement → ℕ
reserved_part locking = 1
reserved_part accessing = 1
reserved_part advancing = 1
reserved_part _ = 0

abbrev owed_part : Statement → ℕ
owed_part unlock = 1
owed_part unlocking = 1
owed_part post = 1
owed_part _ = 0

abbrev entered_part : Statement → ℕ
entered_part accessing = 1
entered_part advancing = 1
entered_part unlock = 1
entered_part _ = 0

-- With a permit of the side's semaphore, and before its index has moved.
abbrev pub reserved : Side → Line → ℕ
reserved e between = 0
reserved e (within f p) = if same_side e f then reserved_part p else 0

-- Behind the move of the index, and before the release of the other semaphore.
abbrev pub owed : Side → Line → ℕ
owed e between = 0
owed e (within f p) = if same_side e f then owed_part p else 0

-- With the mutex.
abbrev pub entered : Line → ℕ
entered between = 0
entered (within f p) = entered_part p

abbrev pub total_lines : ℕ → (Line → ℕ) → (ℕ → Line) → ℕ
total_lines threads f line = sum_below threads (λ u. f (line u))

-- Every slot is free with a permit, or reserved by a thread, or in the queue, or left by a thread
-- that still has to say so; every entry has a permit, or is reserved, or is still to be announced.
pub record Counted (threads n : ℕ) (permits : Lock → ℕ) (line : ℕ → Line) (size : ℕ) : Type 0 where
  pub slots :
      permits sema
        + total_lines threads (reserved enqueue) line
        + size
        + total_lines threads (owed dequeue) line
      ≡ n
  pub entries :
      permits empty
        + total_lines threads (reserved dequeue) line
        + total_lines threads (owed enqueue) line
      ≡ size
  pub exclusive : permits mutex + total_lines threads entered line ≡ 1

module _ {threads n : ℕ} {permits : Lock → ℕ} {line : ℕ → Line} {size : ℕ}
    (c : Counted threads n permits line size) (t : ℕ) (small : t < threads) where
  -- A thread goes to another line, with what that does to the permits and the queue.
  pub move-Counted :
      (permits' : Lock → ℕ) (size' : ℕ) (l l' : Line)
      → line t ≡ l
      → permits sema + reserved enqueue l + size + owed dequeue l
        ≡ permits' sema + reserved enqueue l' + size' + owed dequeue l'
      → permits empty + reserved dequeue l + owed enqueue l + size'
        ≡ permits' empty + reserved dequeue l' + owed enqueue l' + size
      → permits mutex + entered l ≡ permits' mutex + entered l'
      → Counted threads n permits' (update line t l') size'
  move-Counted permits' size' l l' at a b d =
      let change = λ (f : Line → ℕ). sum_below-update threads f line t l' small in
      let here = λ (f : Line → ℕ). ap f at in
      record {
        slots = omega (
          arith,
          c.slots,
          a,
          change (reserved enqueue),
          here (reserved enqueue),
          change (owed dequeue),
          here (owed dequeue),
        );
        entries = omega (
          arith,
          c.entries,
          b,
          change (reserved dequeue),
          here (reserved dequeue),
          change (owed enqueue),
          here (owed enqueue),
        );
        exclusive = omega (arith, c.exclusive, d, change entered, here entered);
      }

  -- A thread with the mutex is the only one.
  pub entered_alone :
      (u : ℕ) → u < threads → entered (line t) ≡ 1 → entered (line u) ≡ 1 → ¬ (t ≢ u)
  entered_alone u inside a b ne = omega (
    arith,
    c.exclusive,
    a,
    b,
    two-le-sum_below threads (λ v. entered (line v)) t u small inside ne,
  )

  -- A thread that has reserved a slot finds one free.
  pub reserved-room : reserved enqueue (line t) ≡ 1 → size + 1 ≤ n
  reserved-room e =
      omega (arith, c.slots, e, term-le-sum_below threads (λ v. reserved enqueue (line v)) t small)

  -- A thread that has reserved an entry finds one.
  pub reserved-entry : reserved dequeue (line t) ≡ 1 → 1 ≤ size
  reserved-entry e =
      omega
        (arith, c.entries, e, term-le-sum_below threads (λ v. reserved dequeue (line v)) t small)
