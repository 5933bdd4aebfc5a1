-- ===== src/Sched/ScriptTests.antt =====
-- Scripts as texts: the loader and the whole program.
use operating_system_pa.Base.{ℕ, ◌≡◌, refl, true, none, some, List, [], ◌∷◌, All, Returns, arith}
use operating_system_pa.Text.{scan, token_at, drop_comment, parse_command, atoi, digits}
use operating_system_pa.Sched.Policies.{fifo_scheduler, prio_scheduler}
use operating_system_pa.Sched.Script.{load_script, start_loader, choose_scheduler, run_main}
use operating_system_pa.Sched.Contract.Instances.{prio-Lawful}
use operating_system_pa.Sched.Loaded.{LoadedAs}
use operating_system_pa.Sched.Safety.Whole.{IsScript}
use operating_system_pa.Sched.Loading.{
  Item, process_of, empty_line, start_of, lifespan_of, acquire_of, processes, script_lines, Reads,
  read_end, read_line, Runs, load_script-script, run_main-Runs,
}

-- A script of the form of the test cases.
abbrev one : List Item
one =
    process_of (record {
      pid = b'1' ∷ [];
      properties =
          start_of (b'0' ∷ [])
          ∷ lifespan_of (b'3' ∷ [])
          ∷ acquire_of (b'1' ∷ []) (b'0' ∷ []) (b'2' ∷ [])
          ∷ [];
    })
    ∷ empty_line
    ∷ []

-- One process that holds resource 1, with a comment behind one of its lines, and an empty line.
abbrev lines : List (List ℕ)
lines =
    (b'p' ∷ b'r' ∷ b'o' ∷ b'c' ∷ b'e' ∷ b's' ∷ b's' ∷ b' ' ∷ b'1' ∷ b'\n' ∷ [])
    ∷ (b'\t' ∷ b's' ∷ b't' ∷ b'a' ∷ b'r' ∷ b't' ∷ b' ' ∷ b'0' ∷ b' ' ∷ b'#' ∷ b' ' ∷ b'a' ∷ b't'
        ∷ b' ' ∷ b'o' ∷ b'n' ∷ b'c' ∷ b'e' ∷ b'\n' ∷ [])
    ∷ (b'l' ∷ b'i' ∷ b'f' ∷ b'e' ∷ b's' ∷ b'p' ∷ b'a' ∷ b'n' ∷ b' ' ∷ b'3' ∷ b'\n' ∷ [])
    ∷ (b'a' ∷ b'c' ∷ b'q' ∷ b'u' ∷ b'i' ∷ b'r' ∷ b'e' ∷ b' ' ∷ b'1' ∷ b' ' ∷ b'0' ∷ b' ' ∷ b'2'
        ∷ b'\n' ∷ [])
    ∷ (b'e' ∷ b'n' ∷ b'd' ∷ b'\n' ∷ [])
    ∷ (b'\n' ∷ [])
    ∷ []

lines-Reads : Reads lines (script_lines one)
unfolding parse_command scan token_at drop_comment
lines-Reads = read_line _ _ _ _ refl (
    read_line _ _ _ _ refl (
      read_line _ _ _ _ refl
        (read_line _ _ _ _ refl (read_line _ _ _ _ refl (read_line _ _ _ _ refl read_end)))))

one-IsScript : All IsScript (processes one)
unfolding atoi digits
one-IsScript = (
  record {
    status = refl;
    age = refl;
    lives = omega arith;
    small = omega arith;
    in_array = (omega arith, tt);
    returned = ((omega arith, omega arith), tt);
    holding = refl;
  },
  tt,
)

load_script-script_example :
    Returns
      (λ r. (r.0 ≡ true) × LoadedAs (processes one) r.1.system × (r.1.described ≡ none))
      (load_script lines start_loader)
load_script-script_example = load_script-script one lines lines-Reads

-- The option `-p`.
priority_chosen : choose_scheduler (b'p' ∷ []) fifo_scheduler ≡ some prio_scheduler
unfolding choose_scheduler
priority_chosen = refl

run_main-Runs_example : Returns Runs (run_main 5 (b'p' ∷ []) lines)
run_main-Runs_example =
    run_main-Runs 5 prio_scheduler prio-Lawful (b'p' ∷ []) one lines priority_chosen lines-Reads
      one-IsScript
