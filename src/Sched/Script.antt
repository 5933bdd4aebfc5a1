-- ===== src/Sched/Script.antt =====
-- sce213-pa2-2020s/sched.c: __load_script and main.
use operating_system_pa.Base.{
  ℕ, suc, Bool, true, false, Option, none, some, List, [], ◌∷◌, ◌++◌, ◌==◌, if◌then◌else◌, Result,
  ok, fault, assertion, ◌>>=◌, deref,
}
use operating_system_pa.Text.{Token, parse_command, strmatch, atoi}
use operating_system_pa.Sched.State.{ResourceSchedule, Process, System, Scheduler}
use operating_system_pa.Sched.Policies.{
  fifo_scheduler, sjf_scheduler, srtf_scheduler, rr_scheduler, prio_scheduler, pcp_scheduler,
  pip_scheduler,
}
use operating_system_pa.Sched.Simulation.{Tick, blank_process, end_process, initialize, simulate}

-- `p`, the address that `malloc` hands out next, and the system.
pub record Loader : Type 0 where
  pub described : Option Process
  pub address : ℕ
  pub system : System

-- `tokens[1]`, after the assertion on the number of tokens; the name is taken off.
abbrev pub one_argument : List Token → Result Token
one_argument (v ∷ []) = ok v
one_argument _ = fault assertion

abbrev pub three_arguments : List Token → Result (Token × Token × Token)
three_arguments (u ∷ v ∷ w ∷ []) = ok (u, v, w)
three_arguments _ = fault assertion

abbrev pub is_process : Token → Bool
is_process t = strmatch t (b'p' ∷ b'r' ∷ b'o' ∷ b'c' ∷ b'e' ∷ b's' ∷ b's' ∷ [])

abbrev pub is_end : Token → Bool
is_end t = strmatch t (b'e' ∷ b'n' ∷ b'd' ∷ [])

abbrev pub is_lifespan : Token → Bool
is_lifespan t = strmatch t (b'l' ∷ b'i' ∷ b'f' ∷ b'e' ∷ b's' ∷ b'p' ∷ b'a' ∷ b'n' ∷ [])

abbrev pub is_prio : Token → Bool
is_prio t = strmatch t (b'p' ∷ b'r' ∷ b'i' ∷ b'o' ∷ [])

abbrev pub is_start : Token → Bool
is_start t = strmatch t (b's' ∷ b't' ∷ b'a' ∷ b'r' ∷ b't' ∷ [])

abbrev pub is_acquire : Token → Bool
is_acquire t = strmatch t (b'a' ∷ b'c' ∷ b'q' ∷ b'u' ∷ b'i' ∷ b'r' ∷ b'e' ∷ [])

abbrev pub set_described : Loader → Process → Loader
set_described l x = record l { described = some x }

abbrev pub begin_description : List Token → Loader → Result Loader
begin_description args l = do
  v ← one_argument args
  ok (set_described l (record blank_process { pid = atoi v }))

-- `assert(p)`
abbrev pub end_description : Option Process → Loader → Result Loader
end_description none l = fault assertion
end_description (some x) l = ok (record l {
  described = none;
  address = suc l.address;
  system = end_process l.address x l.system;
})

abbrev pub set_lifespan : List Token → Loader → Result Loader
set_lifespan args l = do
  v ← one_argument args
  x ← deref l.described
  ok (set_described l (record x { lifespan = atoi v }))

abbrev pub set_priority : List Token → Loader → Result Loader
set_priority args l = do
  v ← one_argument args
  x ← deref l.described
  ok (set_described l (record x { prio = atoi v; prio_orig = atoi v }))

abbrev pub set_start : List Token → Loader → Result Loader
set_start args l = do
  v ← one_argument args
  x ← deref l.described
  ok (set_described l (record x { starts_at = atoi v }))

abbrev pub add_resource : List Token → Loader → Result Loader
add_resource args l = do
  (u, v, w) ← three_arguments args
  x ← deref l.described
  let rs : ResourceSchedule = record { resource_id = atoi u; at = atoi v; duration = atoi w }
  ok (set_described l (record x { resources_to_acquire = x.resources_to_acquire ++ rs ∷ [] }))

abbrev pub and_true : Result Loader → Result (Bool × Loader)
and_true r = do l ← r; ok (true, l)

-- One line. `false` stands for the return at an unknown property.
unfoldable pub load_line : List Token → Loader → Result (Bool × Loader)
load_line [] l = ok (true, l)
load_line (name ∷ args) l =
    if is_process name
    then and_true (begin_description args l)
    else if is_end name
    then and_true (end_description l.described l)
    else if is_lifespan name
    then and_true (set_lifespan args l)
    else if is_prio name
    then and_true (set_priority args l)
    else if is_start name
    then and_true (set_start args l)
    else if is_acquire name
    then and_true (add_resource args l)
    else ok (false, l)

unfoldable pub load_script : List (List ℕ) → Loader → Result (Bool × Loader)
unfolding load_line
load_script [] l = ok (true, l)
load_script (line ∷ lines) l = do
  tokens ← parse_command line
  (known, l') ← load_line tokens l
  elim known [ false ↦ ok (false, l') | true ↦ load_script lines l' ]

abbrev pub start_loader : Loader
start_loader = record { described = none; address = 0; system = initialize }

-- One option letter; `none` is the exit with the usage.
abbrev pub choose_one : ℕ → Scheduler → Option Scheduler
choose_one c sched =
    if c == b'q'
    then some sched
    else if c == b'f'
    then some fifo_scheduler
    else if c == b's'
    then some sjf_scheduler
    else if c == b'S'
    then some srtf_scheduler
    else if c == b'r'
    then some rr_scheduler
    else if c == b'p'
    then some prio_scheduler
    else if c == b'i'
    then some pip_scheduler
    else if c == b'c'
    then some pcp_scheduler
    else none

unfoldable pub choose_scheduler : List ℕ → Scheduler → Option Scheduler
choose_scheduler [] sched = some sched
choose_scheduler (c ∷ cs) sched = elim (choose_one c sched) [
  | none ↦ none
  | some chosen ↦ choose_scheduler cs chosen
]

-- main after the options, for as many rounds of the simulation as the fuel allows. `none` is
-- EXIT_FAILURE.
unfoldable pub run_with : ℕ → List (List ℕ) → Option Scheduler → Result (Option Tick)
unfolding load_script
run_with fuel lines none = ok none
run_with fuel lines (some sched) = do
  (known, l) ← load_script lines start_loader
  elim known [ false ↦ ok none | true ↦ do t ← simulate fuel sched l.system; ok (some t) ]

unfoldable pub run_main : ℕ → List ℕ → List (List ℕ) → Result (Option Tick)
unfolding choose_scheduler run_with
run_main fuel options lines = run_with fuel lines (choose_scheduler options fifo_scheduler)
