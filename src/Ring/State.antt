-- ===== src/Ring/State.antt =====
-- sce213-pa3-2020s: enqueue_into_ringbuffer and dequeue_from_ringbuffer of pa3.c, their wrappers in
-- main.c, and generator_main of generator.c and counter_main of counter.c, which call them.
--
-- A thread is a number. Its Line says which statement of its program comes next, and `run_line` carries
-- this statement out, which is what the processor interleaves; inside acquire_mutex and release_mutex
-- it is one statement of Locks/Mutex. A thread that acquires a mutex here need not be the one that
-- releases it, so a mutex has forgotten its thread when acquire_mutex returns. There is one pending
-- SIGUSR2 for each thread, which the three mutexes share. What is printed, the delays and the
-- barriers are left out; the barriers only make threads wait.
use operating_system_pa.Base.{
  ℕ, ◌+◌, ◌%◌, ◌^◌, ◌<◌, ◌≡◌, Bool, true, false, Option, none, some, List, [], ◌∷◌, ◌++◌, ltb,
  if◌then◌else◌, update, Result, ok, assertion, ◌>>◌, guard,
}
use operating_system_pa.Locks.Mutex.{Stage, away, owning, leaving, Mutex, init_mutex, put, act}

-- MAX_VALUE; the values of the buffer are bit patterns, so none is below MIN_VALUE, which is 0.
abbrev pub max_value : ℕ
max_value = 128

-- The three mutexes of `struct ringbuffer`.
pub data Lock : Type 0 where
  sema mutex empty : Lock

abbrev pub same_lock : Lock → Lock → Bool
same_lock sema sema = true
same_lock mutex mutex = true
same_lock empty empty = true
same_lock _ _ = false

pub data Side : Type 0 where
  enqueue dequeue : Side

-- The statements of enqueue_into_ringbuffer, and of dequeue_from_ringbuffer, which has the same
-- shape: in acquire_mutex of the semaphore, in acquire_mutex of the mutex, at the access of the slot,
-- at the step of the index, at the call of release_mutex of the mutex and in it, at the call of
-- release_mutex of the other semaphore and in it, and back in the caller.
pub data Statement : Type 0 where
  reserving locking accessing advancing unlock unlocking post posting returning : Statement

pub data Line : Type 0 where
  between : Line
  within : Side → Statement → Line

-- One round of the loop of generator_main, with the value of the generator function, or of
-- counter_main.
pub data Request : Type 0 where
  generate : ℕ → Request
  count : Request

-- `N` of the source is `nr_slots`.
pub record Ring : Type 0 where
  pub nr_slots : ℕ
  pub slots : ℕ → ℕ
  pub in_index : ℕ
  pub out_index : ℕ
  pub lock : Lock → Mutex
  pub pending : ℕ → Bool
  pub line : ℕ → Line
  pub value : ℕ → ℕ
  pub todo : ℕ → List Request
  pub generated : ℕ → ℕ → ℕ
  pub value_counter : ℕ → ℕ

-- An entry is in the buffer when `in` has moved behind it, and out of it when `out` has.
pub data Event : Type 0 where
  silent : Event
  stored loaded : ℕ → Event

pub data Effect : Type 0 where
  asleep aborted : Effect
  next : Ring → Event → Effect

abbrev pub goto : ℕ → Line → Ring → Ring
goto t l s = record s { line = update s.line t l }

-- The mutex with the signals of the threads.
abbrev pub signalled : Ring → Lock → Mutex
signalled s k = record (s.lock k) { pending = s.pending }

abbrev pub set_lock : Lock → Mutex → Ring → Ring
set_lock k m s = record s { lock = λ j. if same_lock j k then m else s.lock j; pending = m.pending }

abbrev pub is_owning : Stage → Bool
is_owning owning = true
is_owning _ = false

abbrev pub is_away : Stage → Bool
is_away away = true
is_away _ = false

-- The thread goes on to the line when acquire_mutex, or release_mutex, returns.
abbrev pub acquire_returns : ℕ → Lock → Line → Mutex → Ring → Ring
acquire_returns t k l m s =
    if is_owning (m.stage t) then goto t l (set_lock k (put t away m) s) else set_lock k m s

abbrev pub release_returns : ℕ → Lock → Line → Mutex → Ring → Ring
release_returns t k l m s =
    if is_away (m.stage t) then goto t l (set_lock k m s) else set_lock k m s

abbrev pub outcome : (Mutex → Ring) → Option Mutex → Effect
outcome f none = asleep
outcome f (some m) = next (f m) silent

abbrev pub in_mutex : ℕ → Lock → (Mutex → Ring) → Ring → Effect
in_mutex t k f s = outcome f (act ((s.lock k).stage t) t (signalled s k))

abbrev pub call_release : ℕ → Lock → Line → Ring → Ring
call_release t k l s = goto t l (set_lock k (put t leaving (signalled s k)) s)

abbrev pub reserves : Side → Lock
reserves enqueue = sema
reserves dequeue = empty

abbrev pub posts : Side → Lock
posts enqueue = empty
posts dequeue = sema

-- An `unsigned long`
abbrev pub inc64 : ℕ → ℕ
inc64 n = (n + 1) % 2 ^ 64

-- `assert(value >= MIN_VALUE && value < MAX_VALUE)`
abbrev pub in_range : ℕ → Bool
in_range v = ltb v max_value

-- The next round of the thread's loop; `__enqueue_rb` checks the value that it is given.
abbrev pub begin : ℕ → List Request → Ring → Effect
begin t [] s = asleep
begin t (generate v ∷ rest) s =
    if in_range v
    then next
        (record (goto t (within enqueue reserving) s) {
          value = update s.value t v;
          todo = update s.todo t rest;
        })
        silent
    else aborted
begin t (count ∷ rest) s =
    next (record (goto t (within dequeue reserving) s) { todo = update s.todo t rest }) silent

abbrev pub access : Side → ℕ → Ring → Ring
access enqueue t s = record s { slots = update s.slots s.in_index (s.value t) }
access dequeue t s = record s { value = update s.value t (s.slots s.out_index) }

abbrev pub advance_index : Side → Ring → Ring
advance_index enqueue s = record s { in_index = (s.in_index + 1) % s.nr_slots }
advance_index dequeue s = record s { out_index = (s.out_index + 1) % s.nr_slots }

abbrev pub event : Side → ℕ → Event
event enqueue v = stored v
event dequeue v = loaded v

-- `my->generated[value]++`
abbrev pub count_generated : ℕ → Ring → Ring
count_generated t s =
    let own = s.generated t in
    record s { generated = update s.generated t (update own (s.value t) (inc64 (own (s.value t)))) }

-- `value_counter[value]++`
abbrev pub count_taken : ℕ → Ring → Ring
count_taken t s = record s {
  value_counter = update s.value_counter (s.value t) (inc64 (s.value_counter (s.value t)));
}

-- Back in the loop of the thread; `__dequeue_rb` checks the value that it returns.
abbrev pub account : Side → ℕ → Ring → Effect
account enqueue t s = next (count_generated t s) silent
account dequeue t s = if in_range (s.value t) then next (count_taken t s) silent else aborted

unfoldable pub run_line : Line → ℕ → Ring → Effect
run_line between t s = begin t (s.todo t) s
run_line (within e reserving) t s =
    in_mutex t (reserves e) (λ m. acquire_returns t (reserves e) (within e locking) m s) s
run_line (within e locking) t s =
    in_mutex t mutex (λ m. acquire_returns t mutex (within e accessing) m s) s
run_line (within e accessing) t s = next (goto t (within e advancing) (access e t s)) silent
run_line (within e advancing) t s =
    next (goto t (within e unlock) (advance_index e s)) (event e (s.value t))
run_line (within e unlock) t s = next (call_release t mutex (within e unlocking) s) silent
run_line (within e unlocking) t s =
    in_mutex t mutex (λ m. release_returns t mutex (within e post) m s) s
run_line (within e post) t s = next (call_release t (posts e) (within e posting) s) silent
run_line (within e posting) t s =
    in_mutex t (posts e) (λ m. release_returns t (posts e) (within e returning) m s) s
run_line (within e returning) t s = account e t (goto t between s)

-- `sema.S = N` and `empty.S = 0`
abbrev pub permits_of : ℕ → Lock → ℕ
permits_of n sema = n
permits_of n mutex = 1
permits_of n empty = 0

-- init_ringbuffer, and the threads before their first round; `memory` is what malloc returns.
abbrev pub init_ringbuffer : (ℕ → ℕ) → (ℕ → List Request) → ℕ → Ring
init_ringbuffer memory program n = record {
  nr_slots = n;
  slots = memory;
  in_index = 0;
  out_index = 0;
  lock = λ k. init_mutex (permits_of n k);
  pending = λ t. false;
  line = λ t. between;
  value = λ t. 0;
  todo = program;
  generated = λ t v. 0;
  value_counter = λ v. 0;
}

-- `__init_rb`
abbrev pub init_rb : (ℕ → ℕ) → (ℕ → List Request) → ℕ → Result Ring
init_rb memory program n = do guard (ltb 0 n) assertion; ok (init_ringbuffer memory program n)

abbrev pub put_in : Event → List ℕ
put_in (stored v) = v ∷ []
put_in _ = []

abbrev pub taken_out : Event → List ℕ
taken_out (loaded v) = v ∷ []
taken_out _ = []

-- What `threads` threads may reach from a state, with the values that have been put into the buffer
-- and taken out of it, in their order.
pub data Interleaved (threads : ℕ) (s₀ : Ring) : Ring → List ℕ → List ℕ → Type 0 where
  started : Interleaved threads s₀ s₀ [] []
  ran :
      (t : ℕ) (s s' : Ring) (e : Event) (w r : List ℕ)
      → Interleaved threads s₀ s w r
      → t < threads
      → run_line (s.line t) t s ≡ next s' e
      → Interleaved threads s₀ s' (w ++ put_in e) (r ++ taken_out e)
