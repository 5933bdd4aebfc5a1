-- ===== src/Text.antt =====
-- parse_command of the parser.c files (sce213-pa1-2020s, sce213-pa2-2020s, sce213-pa4-2020s), and the
-- calls of the C library with which vm.c and sched.c read a token.
--
-- A text is the sequence of its character codes before the terminating NUL. A token is a pointer into
-- the text, which ends at the next white space, where the parser stores a NUL; here it is that part
-- of the text.
pub mod Splitting
pub mod Quoted
mod Tests
mod QuotedTests
use operating_system_pa.Base.{
  ℕ, zero, suc, ◌+◌, ◌-◌, ◌*◌, ◌%◌, ◌^◌, ◌≡◌, Bool, true, false, not, ◌&&◌, ◌||◌, Option, none,
  some, List, [], ◌∷◌, ◌++◌, ◌==◌, ltb, leb, if◌then◌else◌, word, Result, ok, fault, out_of_bounds,
  ◌>>=◌, ◌>>◌, guard,
}

abbrev pub Token : Type 0
Token = List ℕ

-- MAX_NR_TOKENS, and the size of `tokens` in sched.c.
abbrev pub max_nr_tokens : ℕ
max_nr_tokens = 32

abbrev pub isspace : ℕ → Bool
isspace c = (c == 32) || (leb 9 c && leb c 13)

-- The text up to the next white space.
unfoldable pub token_at : List ℕ → Token
token_at [] = []
token_at (c ∷ cs) = let rest = token_at cs in if isspace c then [] else c ∷ rest

-- The loop over the characters, with `token_started` and the room that is left in `tokens`.
unfoldable pub scan : ℕ → Bool → List ℕ → Result (List Token)
scan room started [] = ok []
scan room true (c ∷ cs) = scan room (not (isspace c)) cs
scan room false (c ∷ cs) = elim (isspace c) [
  | true ↦ scan room false cs
  | false ↦ do
    guard (not (room == 0)) out_of_bounds
    ts ← scan (room - 1) true cs
    ok (token_at (c ∷ cs) ∷ ts)
]

-- `strncmp(token, "#", 1) == 0`
abbrev pub is_comment : Token → Bool
is_comment [] = false
is_comment (c ∷ cs) = c == b'#'

-- The loop that cuts the tokens at a comment.
unfoldable pub drop_comment : List Token → List Token
drop_comment [] = []
drop_comment (t ∷ ts) = let rest = drop_comment ts in if is_comment t then [] else t ∷ rest

unfoldable pub parse_command : List ℕ → Result (List Token)
unfolding scan drop_comment
parse_command command = do ts ← scan max_nr_tokens false command; ok (drop_comment ts)

-- The one of sce213-pa1-2020s, which knows no comments.
unfoldable pub parse_shell_command : List ℕ → Result (List Token)
unfolding scan
parse_shell_command command = scan max_nr_tokens false command

unfoldable pub strmatch : List ℕ → List ℕ → Bool
strmatch [] [] = true
strmatch (c ∷ cs) (d ∷ ds) = let rest = strmatch cs ds in (c == d) && rest
strmatch _ _ = false

unfoldable pub tolower : List ℕ → List ℕ
tolower [] = []
tolower (c ∷ cs) = (if leb b'A' c && leb c b'Z' then c + 32 else c) ∷ tolower cs

-- The value of a digit; 36 for any other character.
abbrev pub digit : ℕ → ℕ
digit c =
    if leb b'0' c && leb c b'9'
    then c - b'0'
    else if leb b'a' c && leb c b'z'
    then c - b'a' + 10
    else 36

-- The digits of the base from the start of a text on.
unfoldable pub digits : ℕ → ℕ → List ℕ → ℕ
digits base acc [] = acc
digits base acc (c ∷ cs) =
    let rest = digits base (acc * base + digit c) cs in if ltb (digit c) base then rest else acc

-- The prefix names the base.
unfoldable pub after_zero : List ℕ → ℕ
unfolding digits
after_zero [] = 0
after_zero (c ∷ cs) = if c == b'x' then digits 16 0 cs else digits 8 0 (c ∷ cs)

unfoldable pub magnitude : List ℕ → ℕ
unfolding digits after_zero
magnitude [] = 0
magnitude (c ∷ cs) = if c == b'0' then after_zero cs else digits 10 0 (c ∷ cs)

-- What strtoimax and strtol do around the digits: a sign, and the bounds of a 64-bit integer; then the
-- conversion to 32 bits.
abbrev pub clamp : ℕ → ℕ → ℕ
clamp limit n = if leb n limit then n else limit

abbrev pub signed : (List ℕ → ℕ) → List ℕ → ℕ
signed read [] = 0
signed read (c ∷ cs) =
    if c == b'-'
    then (word - clamp (2 ^ 63) (read cs) % word) % word
    else if c == b'+'
    then clamp (2 ^ 63 - 1) (read cs) % word
    else clamp (2 ^ 63 - 1) (read (c ∷ cs)) % word

-- `strtoimax(token, NULL, 0)` as an `unsigned int`; the text is in lower case.
unfoldable pub strtoimax : List ℕ → ℕ
unfolding magnitude
strtoimax token = signed magnitude token

-- `atoi(token)`, whose result glibc takes from strtol, as the 32-bit pattern of the `int`.
unfoldable pub atoi : List ℕ → ℕ
unfolding digits
atoi token = signed (digits 10 0) token
