-- ===== src/Text/Quoted/Lines.antt =====
-- parse_command of pa0.c on whole lines of words and quotations.
use operating_system_pa.Base.{
  ℕ, suc, ◌+◌, ◌-◌, ◌≤◌, ◌<◌, ◌≡◌, refl, sym, ap, ◌∙◌, false, List, [], ◌∷◌, ◌++◌, append_assoc,
  append-nil, ◌==◌, All, length, length-append, Result, ok, fault, out_of_bounds, ◌>>=◌, arith,
}
use operating_system_pa.Text.{Token, max_nr_tokens}
use operating_system_pa.Text.Splitting.{IsSpace}
use operating_system_pa.Text.Quoted.{between, parse_from, parse_quoted_command}
use operating_system_pa.Text.Quoted.Pieces.{
  IsQuotable, written, size, content, Piece, IsPiece, line, contents, written-append,
  length-written, prepended, prepended-nil, prepended-cons, parse_from-spaces, parse_from_unclosed,
  parse_from-piece,
}

module _ (command : List ℕ) where
  -- The pieces of a line, before a tail of which the result is known wherever it stands.
  parse_from-line :
      (ps : List Piece) (room : ℕ) (before tail : List ℕ) (r : Result (List Token))
      → command ≡ before ++ line ps tail
      → All IsPiece ps
      → length ps ≤ room
      → ((i : ℕ) → parse_from command (room - length ps) between i 0 0 tail ≡ r)
      → parse_from command room between (length before) 0 0 (line ps tail)
        ≡ prepended (contents ps) r
  parse_from-line [] room before tail r e a le known =
      let same : room ≡ room - 0 = omega arith in
      ap (λ (k : ℕ). parse_from command k between (length before) 0 0 tail) same
      ∙ known (length before)
      ∙ prepended-nil r
  parse_from-line (p ∷ ps) room before tail r e a le known =
      let rest = line ps tail in
      let head = written p.body (p.space ∷ []) ++ p.spaces in
      let split : written p.body (p.space ∷ (p.spaces ++ rest)) ≡ head ++ rest =
        written-append p.body p.space (p.spaces ++ rest)
        ∙ sym (append_assoc (written p.body (p.space ∷ [])) p.spaces rest) in
      let placed : command ≡ (before ++ head) ++ rest =
        e ∙ ap (λ (l : List ℕ). before ++ l) split ∙ sym (append_assoc before head rest) in
      let far : length (before ++ head) ≡ length before + size p.body + 1 + length p.spaces =
        omega (
          arith,
          length-append before head,
          length-append (written p.body (p.space ∷ [])) p.spaces,
          length-written p.body p.space,
        ) in
      let on =
        parse_from-line ps (room - 1) (before ++ head) tail r placed a.1 (omega (arith, le)) (λ i.
          ap (λ (k : ℕ). parse_from command k between i 0 0 tail) (fewer room (length ps))
          ∙ known i) in
      let spaces =
        parse_from-spaces command (room - 1) (length before + size p.body + 1) p.spaces rest
          a.0.spaces in
      let after =
        spaces ∙ ap (λ (k : ℕ). parse_from command (room - 1) between k 0 0 rest) (sym far) ∙ on in
      parse_from-piece command room before p.body p.space (p.spaces ++ rest) e a.0.body a.0.space
        (omega (arith, le))
      ∙ ap (λ (x : Result (List Token)). ◌>>=◌ {B = List Token} x (λ ts. ok (content p.body ∷ ts)))
          after
      ∙ prepended-cons (content p.body) (contents ps) r
    where
      fewer : (n k : ℕ) → n - 1 - k ≡ n - suc k
      fewer n k = omega arith

-- A line: white space, the pieces, and what follows them in the array.
abbrev pub command_line : List ℕ → List Piece → List ℕ → List ℕ
command_line gap ps tail = gap ++ line ps tail

parse_from_end :
    (command : List ℕ) (room i : ℕ) (left : List ℕ)
    → parse_from command room between i 0 0 (0 ∷ left) ≡ ok []
unfolding parse_from
parse_from_end command room i left = refl

parse_from_opened :
    (command : List ℕ) (room i : ℕ) (left : List ℕ)
    → 1 ≤ room
    → All IsQuotable left
    → parse_from command room between i 0 0 (b'"' ∷ left) ≡ fault out_of_bounds
unfolding parse_from
parse_from_opened command room i left more a =
    let some_room : (room == 0) ≡ false = ground arith in
    rw (some_room, parse_from) (parse_from_unclosed command room (i + 1) 0 0 left a)

parse_quoted_command-known :
    (gap : List ℕ) (ps : List Piece) (tail : List ℕ) (r : Result (List Token))
    → All IsSpace gap
    → All IsPiece ps
    → length ps ≤ max_nr_tokens
    → ((i : ℕ)
        → parse_from (command_line gap ps tail) (max_nr_tokens - length ps) between i 0 0 tail ≡ r)
    → parse_quoted_command (command_line gap ps tail) ≡ prepended (contents ps) r
unfolding parse_quoted_command
parse_quoted_command-known gap ps tail r s a le known =
    let command = command_line gap ps tail in
    let here : 0 + length gap ≡ length gap = omega arith in
    parse_from-spaces command max_nr_tokens 0 gap (line ps tail) s
    ∙ ap (λ (k : ℕ). parse_from command max_nr_tokens between k 0 0 (line ps tail)) here
    ∙ parse_from-line command ps max_nr_tokens gap tail r refl a le known

-- pa0: a line of at most 32 words and quotations, with white space in front and behind each of
-- them, is parsed to the words and to what stands between the marks of the quotations, whatever an
-- earlier line has left behind its NUL.
pub parse_quoted_command-line :
    (gap : List ℕ) (ps : List Piece) (left : List ℕ)
    → All IsSpace gap
    → All IsPiece ps
    → length ps ≤ max_nr_tokens
    → parse_quoted_command (command_line gap ps (0 ∷ left)) ≡ ok (contents ps)
parse_quoted_command-line gap ps left s a le =
    parse_quoted_command-known gap ps (0 ∷ left) (ok []) s a le
      (λ i. parse_from_end (command_line gap ps (0 ∷ left)) (max_nr_tokens - length ps) i left)
    ∙ ap (λ (l : List Token). ok l) (append-nil (contents ps))

-- pa0: a line of fewer than 32 words and quotations with white space behind each, followed by a
-- quotation mark with no other one in the rest of the array, makes the parser read behind the end
-- of the array.
pub parse_quoted_command_unclosed :
    (gap : List ℕ) (ps : List Piece) (left : List ℕ)
    → All IsSpace gap
    → All IsPiece ps
    → length ps < max_nr_tokens
    → All IsQuotable left
    → parse_quoted_command (command_line gap ps (b'"' ∷ left)) ≡ fault out_of_bounds
parse_quoted_command_unclosed gap ps left s a le open_end =
    parse_quoted_command-known gap ps (b'"' ∷ left) (fault out_of_bounds) s a (omega (arith, le))
      (λ i.
        parse_from_opened (command_line gap ps (b'"' ∷ left)) (max_nr_tokens - length ps) i left
          (omega (arith, le)) open_end)
