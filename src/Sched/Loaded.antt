-- ===== src/Sched/Loaded.antt =====
-- What the end of each process description (sched.c: __load_script) leaves in memory.
use operating_system_pa.Base.{
  ℕ, zero, suc, ◌<◌, ◌≡◌, refl, ap, ◌∙◌, false, Option, none, List, [], ◌∷◌, ◌++◌, append_assoc,
  append-nil, ==_refl, ==_ne, length, arith,
}
use operating_system_pa.Sched.State.{Process, Head, forkqueue, same_head, System}
use operating_system_pa.Sched.Simulation.{initialize, end_process, load_processes}

-- `k` addresses from `n` on.
abbrev pub addresses : ℕ → ℕ → List ℕ
addresses n zero = []
addresses n (suc k) = n ∷ addresses (suc n) k

-- The processes stand at the addresses from `n` on.
abbrev pub Stored : ℕ → List Process → (ℕ → Process) → Type 0
Stored n [] store = Unit
Stored n (x ∷ xs) store = (store n ≡ x) × Stored (suc n) xs store

-- The processes stand in memory and wait for their forks in this order; no list but the fork queue
-- has an entry, no resource has an owner, nothing runs, and the clock is at 0.
pub record LoadedAs (xs : List Process) (s : System) : Type 0 where
  pub stored : Stored 0 xs s.process
  pub forks : s.queue forkqueue ≡ addresses 0 (length xs)
  pub others : (h : Head) → same_head h forkqueue ≡ false → s.queue h ≡ []
  pub owner : (r : ℕ) → s.owner r ≡ none
  pub current : s.current ≡ none
  pub ticks : s.ticks ≡ 0

load_processes_forks :
    (xs : List Process) (n : ℕ) (s : System)
    → (load_processes n xs s).queue forkqueue ≡ s.queue forkqueue ++ addresses n (length xs)
unfolding load_processes
load_processes_forks [] n s = rw (append-nil (s.queue forkqueue))
load_processes_forks (x ∷ xs) n s =
    load_processes_forks xs (suc n) (end_process n x s)
    ∙ append_assoc (s.queue forkqueue) (n ∷ []) (addresses (suc n) (length xs))

-- A process that is stored already stays.
load_processes_below :
    (xs : List Process) (n m : ℕ) (s : System)
    → m < n
    → (load_processes n xs s).process m ≡ s.process m
unfolding load_processes
load_processes_below [] n m s l = refl
load_processes_below (x ∷ xs) n m s l =
    load_processes_below xs (suc n) m (end_process n x s) (omega (arith, l))
    ∙ rw (==_ne m n (omega (arith, l)))

load_processes-Stored :
    (xs : List Process) (n : ℕ) (s : System) → Stored n xs (load_processes n xs s).process
unfolding load_processes
load_processes-Stored [] n s = tt
load_processes-Stored (x ∷ xs) n s = (
  load_processes_below xs (suc n) n (end_process n x s) (omega arith) ∙ rw (==_refl n),
  load_processes-Stored xs (suc n) (end_process n x s),
)

load_processes_others :
    (xs : List Process) (n : ℕ) (s : System) (h : Head)
    → same_head h forkqueue ≡ false
    → (load_processes n xs s).queue h ≡ s.queue h
unfolding load_processes
load_processes_others [] n s h e = refl
load_processes_others (x ∷ xs) n s h e =
    load_processes_others xs (suc n) (end_process n x s) h e ∙ rw e

load_processes_globals :
    (xs : List Process) (n : ℕ) (s : System)
    → ((load_processes n xs s).owner ≡ s.owner)
      × ((load_processes n xs s).current ≡ s.current)
      × ((load_processes n xs s).ticks ≡ s.ticks)
unfolding load_processes
load_processes_globals [] n s = (refl, refl, refl)
load_processes_globals (x ∷ xs) n s = load_processes_globals xs (suc n) (end_process n x s)

pub load_processes-LoadedAs : (xs : List Process) → LoadedAs xs (load_processes 0 xs initialize)
load_processes-LoadedAs xs =
    let (owner, current, ticks) = load_processes_globals xs 0 initialize in
    record {
      stored = load_processes-Stored xs 0 initialize;
      forks = load_processes_forks xs 0 initialize;
      others = λ h e. load_processes_others xs 0 initialize h e;
      owner = λ r. ap (λ (o : ℕ → Option ℕ). o r) owner;
      current = current;
      ticks = ticks;
    }
