-- ===== src/Text/Splitting.antt =====
-- parse_command against a description of the text: tokens with white space behind each.
use operating_system_pa.Base.{
  ℕ, ◌-◌, ◌≤◌, ◌<◌, ◌≡◌, ◌≢◌, refl, ap, ◌∙◌, inl, inr, true, false, not, List, [], ◌∷◌, ◌++◌, ◌==◌,
  ==_ne, All, length, ok, fault, out_of_bounds, ◌>>=◌, ◌>>◌, guard, Bool-cases, arith,
}
use operating_system_pa.Text.{
  Token, max_nr_tokens, isspace, token_at, scan, drop_comment, parse_command,
}

-- A token, not empty, and the white space behind it, not empty either.
pub record Part : Type 0 where
  pub first : ℕ
  pub others : List ℕ
  pub space : ℕ
  pub spaces : List ℕ

abbrev pub IsSpace : ℕ → Type 0
IsSpace c = isspace c ≡ true

abbrev pub IsLetter : ℕ → Type 0
IsLetter c = isspace c ≡ false

pub record IsPart (p : Part) : Type 0 where
  pub first : IsLetter p.first
  pub others : All IsLetter p.others
  pub space : IsSpace p.space
  pub spaces : All IsSpace p.spaces

abbrev pub text : List Part → List ℕ
text [] = []
text (p ∷ ps) = p.first ∷ (p.others ++ p.space ∷ (p.spaces ++ text ps))

abbrev pub tokens : List Part → List Token
tokens [] = []
tokens (p ∷ ps) = (p.first ∷ p.others) ∷ tokens ps

scan-spaces :
    (room : ℕ) (gap rest : List ℕ)
    → All IsSpace gap
    → scan room false (gap ++ rest) ≡ scan room false rest
unfolding scan
scan-spaces room [] rest a = refl
scan-spaces room (c ∷ gap) rest a = rw (a.0, scan) (scan-spaces room gap rest a.1)

scan-letters :
    (room : ℕ) (t : List ℕ) (c : ℕ) (rest : List ℕ)
    → All IsLetter t
    → IsSpace c
    → scan room true (t ++ c ∷ rest) ≡ scan room false rest
unfolding scan
scan-letters room [] c rest a s = rw (s, scan)
scan-letters room (d ∷ t) c rest a s = rw (a.0, scan) (scan-letters room t c rest a.1 s)

token_at-letters :
    (t : List ℕ) (c : ℕ) (rest : List ℕ) → All IsLetter t → IsSpace c → token_at (t ++ c ∷ rest) ≡ t
unfolding token_at
token_at-letters [] c rest a s = rw s
token_at-letters (d ∷ t) c rest a s =
    rw a.0 (ap (λ (l : List ℕ). d ∷ l) (token_at-letters t c rest a.1 s))

-- One token and the white space behind it.
scan-part :
    (room : ℕ) (p : Part) (rest : List ℕ)
    → IsPart p
    → scan room false (p.first ∷ (p.others ++ p.space ∷ (p.spaces ++ rest))) ≡ (
        guard (not (room == 0)) out_of_bounds
        >> (scan (room - 1) false rest >>= λ ts. ok ((p.first ∷ p.others) ∷ ts)))
unfolding scan token_at
scan-part room p rest h = rw (
  h.first,
  scan,
  scan-letters (room - 1) p.others p.space (p.spaces ++ rest) h.others h.space,
  scan-spaces (room - 1) p.spaces rest h.spaces,
  token_at-letters p.others p.space (p.spaces ++ rest) h.others h.space,
  h.first,
)

scan-text :
    (room : ℕ) (ps : List Part)
    → All IsPart ps
    → length ps ≤ room
    → scan room false (text ps) ≡ ok (tokens ps)
unfolding scan
scan-text room [] a l = refl
scan-text room (p ∷ ps) a l =
    scan-part room p (text ps) a.0
    ∙ rw (==_ne room 0 (omega (arith, l)), scan-text (room - 1) ps a.1 (omega (arith, l)))

scan-text_full :
    (room : ℕ) (ps : List Part)
    → All IsPart ps
    → room < length ps
    → scan room false (text ps) ≡ fault out_of_bounds
scan-text_full room [] a l = absurd (omega (arith, l))
scan-text_full room (p ∷ ps) a l = scan-part room p (text ps) a.0 ∙ elim (Bool-cases (room == 0)) [
  | inl z ↦ rw z
  | inr z ↦
      let n : room ≢ 0 = ground arith in
      rw (z, scan-text_full (room - 1) ps a.1 (omega (arith, l, n)))
]

-- Nothing, or a first token that starts a comment.
abbrev pub IsComment : List Part → Type 0
IsComment [] = Unit
IsComment (p ∷ ps) = p.first ≡ b'#'

drop_comment-tokens :
    (ps comment : List Part)
    → All (λ p. p.first ≢ b'#') ps
    → IsComment comment
    → drop_comment (tokens (ps ++ comment)) ≡ tokens ps
unfolding drop_comment
drop_comment-tokens [] [] a c = refl
drop_comment-tokens [] (q ∷ qs) a c = rw c
drop_comment-tokens (p ∷ ps) comment a c = rw (
  ==_ne p.first b'#' a.0,
  ap (λ (l : List Token). (p.first ∷ p.others) ∷ l) (drop_comment-tokens ps comment a.1 c),
)

-- A text of at most 32 tokens, with white space in front, between and behind them, parses to
-- exactly the tokens in front of the first one that starts with '#'.
pub parse_command-text :
    (lead : List ℕ) (ps comment : List Part)
    → All IsSpace lead
    → All IsPart (ps ++ comment)
    → length (ps ++ comment) ≤ max_nr_tokens
    → All (λ p. p.first ≢ b'#') ps
    → IsComment comment
    → parse_command (lead ++ text (ps ++ comment)) ≡ ok (tokens ps)
unfolding parse_command
parse_command-text lead ps comment s a l plain c = rw (
  scan-spaces max_nr_tokens lead (text (ps ++ comment)) s,
  scan-text max_nr_tokens (ps ++ comment) a l,
  drop_comment-tokens ps comment plain c,
)

-- A text of more than 32 tokens makes the parser write behind the end of the array of tokens.
pub parse_command_overflow :
    (lead : List ℕ) (ps : List Part)
    → All IsSpace lead
    → All IsPart ps
    → max_nr_tokens < length ps
    → parse_command (lead ++ text ps) ≡ fault out_of_bounds
unfolding parse_command
parse_command_overflow lead ps s a l =
    rw (scan-spaces max_nr_tokens lead (text ps) s, scan-text_full max_nr_tokens ps a l)
