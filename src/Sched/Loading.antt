-- ===== src/Sched/Loading.antt =====
-- What __load_script makes of a script, and the whole program on it.
use operating_system_pa.Base.{
  subst, ℕ, suc, ◌≡◌, refl, sym, ◌∙◌, Bool, true, false, Option, none, some, List, [], ◌∷◌, ◌++◌,
  All, Result, ok, Returns, ◌>>=◌, arith,
}
use operating_system_pa.Text.{Token, parse_command, strmatch, atoi}
use operating_system_pa.Sched.State.{Process, System, Scheduler}
use operating_system_pa.Sched.Policies.{fifo_scheduler}
use operating_system_pa.Sched.Simulation.{
  Tick, blank_process, end_process, initialize, load_processes, simulate,
}
use operating_system_pa.Sched.Script.{
  Loader, load_line, load_script, start_loader, choose_scheduler, run_with, run_main,
}
use operating_system_pa.Sched.Contract.{Lawful}
use operating_system_pa.Sched.Loaded.{LoadedAs, load_processes-LoadedAs}
use operating_system_pa.Sched.Safety.Rounds.{Rounded}
use operating_system_pa.Sched.Safety.Whole.{IsScript, loaded, loaded-Idle, simulate-Rounded}

-- A line of a description between `process` and `end`: its words, or nothing.
pub data Property : Type 0 where
  lifespan_of : Token → Property
  prio_of : Token → Property
  start_of : Token → Property
  acquire_of : Token → Token → Token → Property
  blank_line : Property

-- The words of a description: the number of the process, and its lines in any order.
pub record Words : Type 0 where
  pub pid : Token
  pub properties : List Property

pub data Item : Type 0 where
  process_of : Words → Item
  empty_line : Item

abbrev pub with_property : Property → Process → Process
with_property (lifespan_of v) x = record x { lifespan = atoi v }
with_property (prio_of v) x = record x { prio = atoi v; prio_orig = atoi v }
with_property (start_of v) x = record x { starts_at = atoi v }
with_property (acquire_of u v w) x = record x {
  resources_to_acquire =
      x.resources_to_acquire
      ++ record { resource_id = atoi u; at = atoi v; duration = atoi w } ∷ [];
}
with_property blank_line x = x

-- Of two lines for the same number the later one counts.
abbrev pub with_properties : List Property → Process → Process
with_properties [] x = x
with_properties (p ∷ ps) x = with_properties ps (with_property p x)

-- The process that the words describe; what no line names is 0.
abbrev pub described_process : Words → Process
described_process w = with_properties w.properties (record blank_process { pid = atoi w.pid })

abbrev pub processes : List Item → List Process
processes [] = []
processes (process_of w ∷ items) = described_process w ∷ processes items
processes (empty_line ∷ items) = processes items

abbrev pub property_line : Property → List Token
property_line (lifespan_of v) =
    (b'l' ∷ b'i' ∷ b'f' ∷ b'e' ∷ b's' ∷ b'p' ∷ b'a' ∷ b'n' ∷ []) ∷ v ∷ []
property_line (prio_of v) = (b'p' ∷ b'r' ∷ b'i' ∷ b'o' ∷ []) ∷ v ∷ []
property_line (start_of v) = (b's' ∷ b't' ∷ b'a' ∷ b'r' ∷ b't' ∷ []) ∷ v ∷ []
property_line (acquire_of u v w) =
    (b'a' ∷ b'c' ∷ b'q' ∷ b'u' ∷ b'i' ∷ b'r' ∷ b'e' ∷ []) ∷ u ∷ v ∷ w ∷ []
property_line blank_line = []

abbrev pub property_lines : List Property → List (List Token) → List (List Token)
property_lines [] rest = ((b'e' ∷ b'n' ∷ b'd' ∷ []) ∷ []) ∷ rest
property_lines (p ∷ ps) rest = property_line p ∷ property_lines ps rest

-- The lines of a script, as tokens.
abbrev pub script_lines : List Item → List (List Token)
script_lines [] = []
script_lines (process_of w ∷ items) =
    ((b'p' ∷ b'r' ∷ b'o' ∷ b'c' ∷ b'e' ∷ b's' ∷ b's' ∷ []) ∷ w.pid ∷ [])
    ∷ property_lines w.properties (script_lines items)
script_lines (empty_line ∷ items) = [] ∷ script_lines items

-- The texts that parse to the lines.
pub data Reads : List (List ℕ) → List (List Token) → Type 0 where
  read_end : Reads [] []
  read_line :
      (line : List ℕ) (tokens : List Token) (lines : List (List ℕ)) (rest : List (List Token))
      → parse_command line ≡ ok tokens
      → Reads lines rest
      → Reads (line ∷ lines) (tokens ∷ rest)

-- The loop over lines that are parsed already.
load_lines : List (List Token) → Loader → Result (Bool × Loader)
unfolding load_line
load_lines [] l = ok (true, l)
load_lines (tokens ∷ rest) l = do
  (known, l') ← load_line tokens l
  elim known [ false ↦ ok (false, l') | true ↦ load_lines rest l' ]

load_script-Reads :
    (lines : List (List ℕ)) (parsed : List (List Token)) (l : Loader)
    → Reads lines parsed
    → load_script lines l ≡ load_lines parsed l
unfolding load_script load_lines
load_script-Reads lines parsed l read_end = refl
load_script-Reads lines parsed l (read_line line tokens more rest e r) =
    rw e (next_line (λ k. load_script-Reads more rest k r) (load_line tokens l))
  where
    next_line :
        ((k : Loader) → load_script more k ≡ load_lines rest k)
        → (x : Result (Bool × Loader))
        → ◌>>=◌ {B = Bool × Loader} x
            (λ (known, l'). elim known [ false ↦ ok (false, l') | true ↦ load_script more l' ])
          ≡ ◌>>=◌ {B = Bool × Loader} x
              (λ (known, l'). elim known [ false ↦ ok (false, l') | true ↦ load_lines rest l' ])
    next_line again (ok (true, l')) = again l'
    next_line again (ok (false, l')) = refl
    next_line again (Result.fault f) = refl

abbrev describing : ℕ → System → Process → Loader
describing n s x = record { described = some x; address = n; system = s }

abbrev idle_at : ℕ → System → Loader
idle_at n s = record { described = none; address = n; system = s }

-- The lines of a description up to its end.
load_lines-properties :
    (ps : List Property) (rest : List (List Token)) (n : ℕ) (s : System) (x : Process)
    → load_lines (property_lines ps rest) (describing n s x)
      ≡ load_lines rest (idle_at (suc n) (end_process n (with_properties ps x) s))
unfolding load_lines load_line strmatch
load_lines-properties [] rest n s x = refl
load_lines-properties (lifespan_of v ∷ ps) rest n s x =
    load_lines-properties ps rest n s (with_property (lifespan_of v) x)
load_lines-properties (prio_of v ∷ ps) rest n s x =
    load_lines-properties ps rest n s (with_property (prio_of v) x)
load_lines-properties (start_of v ∷ ps) rest n s x =
    load_lines-properties ps rest n s (with_property (start_of v) x)
load_lines-properties (acquire_of u v w ∷ ps) rest n s x =
    load_lines-properties ps rest n s (with_property (acquire_of u v w) x)
load_lines-properties (blank_line ∷ ps) rest n s x = load_lines-properties ps rest n s x

load_lines-script :
    (items : List Item) (n : ℕ) (s : System)
    → (m : ℕ) × (load_lines (script_lines items) (idle_at n s)
        ≡ ok (true, idle_at m (load_processes n (processes items) s)))
unfolding load_lines load_line strmatch load_processes
load_lines-script [] n s = (n, refl)
load_lines-script (process_of w ∷ items) n s =
    let one =
      load_lines-properties w.properties (script_lines items) n s
        (record blank_process { pid = atoi w.pid }) in
    let (m, others) = load_lines-script items (suc n) (end_process n (described_process w) s) in
    (m, one ∙ others)
load_lines-script (empty_line ∷ items) n s = load_lines-script items n s

-- The loader does what the ends of the descriptions do in turn.
load_script_lem :
    (items : List Item) (lines : List (List ℕ))
    → Reads lines (script_lines items)
    → Returns
        (λ r. (r.0 ≡ true) × (r.1.system ≡ loaded (processes items)) × (r.1.described ≡ none))
        (load_script lines start_loader)
load_script_lem items lines r =
    let (m, e) = load_lines-script items 0 initialize in
    rw (load_script-Reads lines (script_lines items) start_loader r, e) (refl, refl, refl)

-- A text that parses to the lines of a script, with the properties of a process in any order and
-- with empty lines, is loaded as the described processes: they have the numbers of their words,
-- stand at the addresses 0, 1, 2, ... and are in the fork queue in that order; no other list has
-- an entry, no resource an owner, nothing runs, and the clock is at 0.
pub load_script-script :
    (items : List Item) (lines : List (List ℕ))
    → Reads lines (script_lines items)
    → Returns
        (λ r. (r.0 ≡ true) × LoadedAs (processes items) r.1.system × (r.1.described ≡ none))
        (load_script lines start_loader)
load_script-script items lines r =
    go (load_script lines start_loader) (load_script_lem items lines r)
  where
    go :
        (o : Result (Bool × Loader))
        → Returns
            (λ r. (r.0 ≡ true) × (r.1.system ≡ loaded (processes items)) × (r.1.described ≡ none))
            o
        → Returns
            (λ r. (r.0 ≡ true) × LoadedAs (processes items) r.1.system × (r.1.described ≡ none))
            o
    go (ok x) (known, same, closed) = (
      known,
      subst (λ (s : System). LoadedAs (processes items) s) (sym same)
          (load_processes-LoadedAs (processes items)),
      closed,
    )
    go (Result.fault f) h = h

-- What the program returns: the end of the simulation, or its state when the fuel is used up.
abbrev pub Runs : Option Tick → Type 0
Runs o = (t : Tick) × (o ≡ some t) × Rounded t

module _ (fuel : ℕ) (sched : Scheduler) (law : Lawful sched) where
  simulated : (r : Result Tick) → Returns Rounded r → Returns Runs (r >>= λ t. ok (some t))
  simulated (ok t) h = (t, refl, h)
  simulated (Result.fault f) h = h

  loaded_run :
      (xs : List Process) (r : Result (Bool × Loader))
      → All IsScript xs
      → Returns (λ r. (r.0 ≡ true) × (r.1.system ≡ loaded xs) × (r.1.described ≡ none)) r
      → Returns Runs (
          r >>= λ (known, l). elim known [
            | false ↦ ok none
            | true ↦ simulate fuel sched l.system >>= λ t. ok (some t)
          ])
  loaded_run xs (ok (true, l)) a h =
      let run = simulate-Rounded sched law fuel (loaded xs) (loaded-Idle xs a) in
      simulated (simulate fuel sched l.system)
        (subst (λ (s : System). Returns Rounded (simulate fuel sched s)) (sym h.1) run)
  loaded_run xs (ok (false, l)) a h = absurd (ground (arith, h.0))
  loaded_run xs (Result.fault f) a h = h

  -- The program, on options that choose a scheduler which meets the contract and on a script whose
  -- processes live at least one tick and fewer than 2^32, ask only for resources numbered below
  -- 32, hold each for at least one tick and give it back before they end, loads the script and
  -- simulates any number of rounds with no fault; every state stays sound, and the simulation ends
  -- only with nothing to run or to fork.
  pub run_main-Runs :
      (options : List ℕ) (items : List Item) (lines : List (List ℕ))
      → choose_scheduler options fifo_scheduler ≡ some sched
      → Reads lines (script_lines items)
      → All IsScript (processes items)
      → Returns Runs (run_main fuel options lines)
  unfolding run_main run_with
  run_main-Runs options items lines chosen r a =
      subst (λ (o : Option Scheduler). Returns Runs (run_with fuel lines o)) (sym chosen)
        (loaded_run (processes items) (load_script lines start_loader) a
          (load_script_lem items lines r))
