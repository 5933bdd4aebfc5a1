-- ===== src/Vm/Console.antt =====
-- sce213-pa4-2020s/vm.c: the loop over the lines of the input. What the commands print is left out.
--
-- A line is what `fgets` returns. `memory` stands for what `malloc` hands out while a line is carried
-- out: a directory for alloc_page, a page table for a fork.
use operating_system_pa.Base.{
  ℕ, suc, Bool, ◌||◌, List, [], ◌∷◌, if◌then◌else◌, Result, ok, fault, assertion, ◌>>=◌,
}
use operating_system_pa.Text.{Token, parse_command, strmatch, tolower, strtoimax}
use operating_system_pa.Vm.State.{rw_read, rw_write, Directory, PageTable, System}
use operating_system_pa.Vm.Pages.{switch_process}
use operating_system_pa.Vm.Mmu.{access_memory, make_rwflag, alloc_command, free_command}

-- Whether the loop goes on or breaks off.
pub data Outcome : Type 0 where
  next break : System → Outcome

abbrev pub after : Outcome → System
after (next s) = s
after (break s) = s

abbrev pub is_exit : Token → Bool
is_exit t = strmatch t (b'e' ∷ b'x' ∷ b'i' ∷ b't' ∷ [])

abbrev pub is_switch : Token → Bool
is_switch t = strmatch t (b's' ∷ b'w' ∷ b'i' ∷ b't' ∷ b'c' ∷ b'h' ∷ []) || strmatch t (b's' ∷ [])

abbrev pub is_free : Token → Bool
is_free t = strmatch t (b'f' ∷ b'r' ∷ b'e' ∷ b'e' ∷ []) || strmatch t (b'f' ∷ [])

abbrev pub is_read : Token → Bool
is_read t = strmatch t (b'r' ∷ b'e' ∷ b'a' ∷ b'd' ∷ []) || strmatch t (b'r' ∷ [])

abbrev pub is_write : Token → Bool
is_write t = strmatch t (b'w' ∷ b'r' ∷ b'i' ∷ b't' ∷ b'e' ∷ []) || strmatch t (b'w' ∷ [])

abbrev pub is_alloc : Token → Bool
is_alloc t = strmatch t (b'a' ∷ b'l' ∷ b'l' ∷ b'o' ∷ b'c' ∷ []) || strmatch t (b'a' ∷ [])

abbrev pub is_access : Token → Bool
is_access t = strmatch t (b'a' ∷ b'c' ∷ b'c' ∷ b'e' ∷ b's' ∷ b's' ∷ [])

-- A call whose result is not looked at.
abbrev pub then_next : Result (Bool × System) → Result Outcome
then_next r = do (done, s) ← r; ok (next s)

-- `if (!__alloc_page(vpn, rw)) break;`
abbrev pub next_or_break : Result (Bool × System) → Result Outcome
next_or_break r = do (done, s) ← r; ok (if done then next s else break s)

unfoldable pub perform_two : PageTable → Token → ℕ → System → Result Outcome
perform_two fresh name arg s =
    if is_switch name
    then (do s' ← switch_process fresh arg s; ok (next s'))
    else if is_free name
    then then_next (free_command arg s)
    else if is_read name
    then then_next (access_memory arg rw_read s)
    else if is_write name
    then then_next (access_memory arg rw_write s)
    else ok (next s)

unfoldable pub perform_three : Directory → Token → ℕ → ℕ → System → Result Outcome
perform_three fresh name vpn mode s =
    if is_alloc name
    then next_or_break (alloc_command fresh vpn mode s)
    else if is_access name
    then then_next (access_memory vpn mode s)
    else ok (next s)

unfoldable pub perform : Directory × PageTable → List Token → System → Result Outcome
unfolding perform_two perform_three
perform memory [] s = ok (next s)
perform memory (name ∷ []) s = if is_exit name then ok (break s) else ok (next s)
perform memory (name ∷ arg ∷ []) s = perform_two memory.1 name (strtoimax arg) s
perform memory (name ∷ vpn ∷ mode ∷ []) s =
    perform_three memory.0 name (strtoimax vpn) (make_rwflag mode 0) s
perform memory (_ ∷ _ ∷ _ ∷ _ ∷ _) s = fault assertion

-- __do_simulation, with the lines that are left and the number of those that were carried out.
unfoldable pub run : (ℕ → Directory × PageTable) → ℕ → List (List ℕ) → System → Result System
unfolding perform
run memory n [] s = ok s
run memory n (line ∷ lines) s = do
  tokens ← parse_command (tolower line)
  outcome ← perform (memory n) tokens s
  elim outcome [ break s' ↦ ok s' | next s' ↦ run memory (suc n) lines s' ]
