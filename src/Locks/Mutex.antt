-- ===== src/Locks/Mutex.antt =====
-- pa3.c: init_mutex, acquire_mutex and release_mutex, with any number of permits, for threads that
-- each call the two functions in turn. Ring/State uses the same statements for threads that release
-- what another one acquired.
--
-- A thread is a number, and its Stage says which statement comes next. `act` carries this statement
-- out, which is what the processor interleaves. `hold` is the spinlock word inside the mutex. A signal
-- is pending for a thread from pthread_kill until its sigwaitinfo takes it; SIGUSR2 is blocked before
-- the thread gives `hold` back, so it is never delivered in another way. A signal that is sent while
-- one is pending is lost.
use operating_system_pa.Base.{
  ℕ, zero, suc, ◌≡◌, ◌<◌, Bool, true, false, Option, none, some, List, [], ◌∷◌, ◌++◌, ◌==◌,
  if◌then◌else◌, update,
}
use operating_system_pa.Locks.Spin.{compare_and_swap}

-- The `int S`.
pub data ℤ : Type 0 where
  pos negsuc : ℕ → ℤ

abbrev pub decrement : ℤ → ℤ
decrement (pos zero) = negsuc zero
decrement (pos (suc n)) = pos n
decrement (negsuc n) = negsuc (suc n)

abbrev pub increment : ℤ → ℤ
increment (pos n) = pos (suc n)
increment (negsuc zero) = pos zero
increment (negsuc (suc n)) = negsuc n

-- `S < 0` and `S <= 0`
abbrev pub is_negative : ℤ → Bool
is_negative (pos n) = false
is_negative (negsuc n) = true

abbrev pub is_not_positive : ℤ → Bool
is_not_positive (pos zero) = true
is_not_positive (pos (suc n)) = false
is_not_positive (negsuc n) = true

pub data Stage : Type 0 where
  away : Stage
  -- acquire_mutex: in the loop, at `S--`, at list_add_tail, at `hold = 0` with the thread in the
  -- queue, in sigwaitinfo, and at the `hold = 0` of the other branch.
  entering counting enqueueing queued sleeping passing : Stage
  owning : Stage
  -- release_mutex: in the loop, at `S++`, at list_empty, at `hold = 0` with the first thread taken
  -- out of the queue, at pthread_kill, and at the `hold = 0` of the other branch.
  leaving restoring waking finishing : Stage
  dequeued killing : ℕ → Stage

pub record Mutex : Type 0 where
  pub permits : ℤ
  pub hold : ℕ
  pub queue : List ℕ
  pub stage : ℕ → Stage
  pub pending : ℕ → Bool

-- init_mutex, and for a semaphore the store of `S` that follows.
abbrev pub init_mutex : ℕ → Mutex
init_mutex n = record {
  permits = pos n;
  hold = 0;
  queue = [];
  stage = λ t. away;
  pending = λ t. false;
}

abbrev pub put : ℕ → Stage → Mutex → Mutex
put t p s = record s { stage = update s.stage t p }

-- One round of `while (compare_and_swap(&mutex->hold, 0, 1));`
abbrev pub try_hold : ℕ → Stage → Stage → Mutex → Mutex
try_hold t spin enter s =
    let r = compare_and_swap s.hold 0 1 in
    record (put t (if r.0 == 0 then enter else spin) s) { hold = r.1 }

abbrev pub wake_next : ℕ → List ℕ → Mutex → Mutex
wake_next t [] s = put t away s
wake_next t (u ∷ us) s = record (put t (dequeued u) s) { queue = us }

-- The next statement of the thread `t`, which is at the given stage; `none` if it is asleep. Between
-- the two functions a thread does as it likes, so calls are statements as well.
unfoldable pub act : Stage → ℕ → Mutex → Option Mutex
act away t s = some (put t entering s)
act entering t s = some (try_hold t entering counting s)
act counting t s =
    let k = decrement s.permits in
    some (record (put t (if is_negative k then enqueueing else passing) s) { permits = k })
act enqueueing t s = some (record (put t queued s) { queue = s.queue ++ t ∷ [] })
act queued t s = some (record (put t sleeping s) { hold = 0 })
act sleeping t s =
    if s.pending t
    then some (record (put t owning s) { pending = update s.pending t false })
    else none
act passing t s = some (record (put t owning s) { hold = 0 })
act owning t s = some (put t leaving s)
act leaving t s = some (try_hold t leaving restoring s)
act restoring t s =
    let k = increment s.permits in
    some (record (put t (if is_not_positive k then waking else finishing) s) { permits = k })
act waking t s = some (wake_next t s.queue s)
act (dequeued u) t s = some (record (put t (killing u) s) { hold = 0 })
act (killing u) t s = some (record (put t away s) { pending = update s.pending u true })
act finishing t s = some (record (put t away s) { hold = 0 })

-- What `threads` threads may reach at a mutex with `n` permits.
pub data Attainable (threads n : ℕ) : Mutex → Type 0 where
  initial : Attainable threads n (init_mutex n)
  advance :
      (t : ℕ) (s s' : Mutex)
      → Attainable threads n s
      → t < threads
      → act (s.stage t) t s ≡ some s'
      → Attainable threads n s'
