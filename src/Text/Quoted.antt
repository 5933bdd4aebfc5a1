-- ===== src/Text/Quoted.antt =====
-- parse_command of sce213-pa0-2020s/pa0.c, which knows quotation marks.
--
-- The command is the array that main reads a line into, from its first character to the end of the
-- array; what an earlier line left behind the terminating NUL is still there. The loops over the
-- characters are one recursion here: its Mode says in which loop the code is. A token is what is
-- copied into the memory for it, which is as large as the code computes before it copies.
pub mod Pieces
pub mod Lines
use operating_system_pa.Base.{
  ℕ, zero, suc, ◌+◌, ◌-◌, Bool, true, false, not, List, [], ◌∷◌, ◌==◌, Result, ok, fault,
  out_of_bounds, ◌>>=◌, ◌>>◌, guard,
}
use operating_system_pa.Text.{Token, max_nr_tokens, isspace}

-- The loop over the command, the one over a token, and the one over a quotation.
pub data Mode : Type 0 where
  between plain inside : Mode

-- `command[k]`
unfoldable pub char_at : List ℕ → ℕ → Result ℕ
char_at [] k = fault out_of_bounds
char_at (c ∷ cs) zero = ok c
char_at (c ∷ cs) (suc k) = char_at cs k

-- The loop that copies `t` characters, with the `num` that it counts down.
unfoldable pub copy_token : List ℕ → ℕ → ℕ → ℕ → Result Token
copy_token command i num zero = ok []
copy_token command i num (suc t) = do
  c ← char_at command (i - num)
  cs ← copy_token command i (num - 1) t
  ok (c ∷ cs)

-- From the character `i` on, with the room that is left in `tokens`. The white space behind a token
-- is skipped by the outer loop in its next round.
unfoldable pub parse_from : List ℕ → ℕ → Mode → ℕ → ℕ → ℕ → List ℕ → Result (List Token)
parse_from command room mode i num t_num [] = fault out_of_bounds
parse_from command room between i num t_num (c ∷ cs) = elim (c == 0) [
  | true ↦ ok []
  | false ↦ elim (isspace c) [
    | true ↦ parse_from command room between (i + 1) 0 0 cs
    | false ↦ do
      guard (not (room == 0)) out_of_bounds
      elim (c == b'"') [
        | true ↦ parse_from command room inside (i + 1) 0 0 cs
        | false ↦ parse_from command room plain (i + 1) 1 1 cs
      ]
  ]
]
parse_from command room plain i num t_num (c ∷ cs) = elim (isspace c) [
  | true ↦ do
    token ← copy_token command i num t_num
    tokens ← parse_from command (room - 1) between (i + 1) 0 0 cs
    ok (token ∷ tokens)
  | false ↦ elim (c == b'"') [
    | true ↦ parse_from command room inside (i + 1) num t_num cs
    | false ↦ parse_from command room plain (i + 1) (num + 1) (num + 1) cs
  ]
]
parse_from command room inside i num t_num (c ∷ cs) = elim (c == b'"') [
  | true ↦ parse_from command room plain (i + 1) (num + 1) num cs
  | false ↦ parse_from command room inside (i + 1) (num + 1) t_num cs
]

unfoldable pub parse_quoted_command : List ℕ → Result (List Token)
unfolding parse_from
parse_quoted_command command = parse_from command max_nr_tokens between 0 0 0 command
