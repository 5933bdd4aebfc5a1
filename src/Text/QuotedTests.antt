-- ===== src/Text/QuotedTests.antt =====
-- The parser with quotation marks on concrete lines.
use operating_system_pa.Base.{◌≡◌, refl, [], ◌∷◌, ok, fault, out_of_bounds, arith}
use operating_system_pa.Text.Quoted.{char_at, copy_token, parse_from, parse_quoted_command}
use operating_system_pa.Text.Quoted.Pieces.{word, quotation, Piece, IsPiece, contents}
use operating_system_pa.Text.Quoted.Lines.{
  command_line, parse_quoted_command-line, parse_quoted_command_unclosed,
}

-- `the "C 19"` and a line end.
abbrev the : Piece
the = record { body = word b't' (b'h' ∷ b'e' ∷ []); space = b' '; spaces = b' ' ∷ [] }

abbrev virus : Piece
virus = record { body = quotation (b'C' ∷ b' ' ∷ b'1' ∷ b'9' ∷ []); space = b'\n'; spaces = [] }

the-IsPiece : IsPiece the
the-IsPiece = record {
  body = (refl, (refl, refl), ((refl, refl), ((refl, refl), tt)));
  space = refl;
  spaces = (refl, tt);
}

virus-IsPiece : IsPiece virus
virus-IsPiece = record { body = (refl, (refl, (refl, (refl, tt)))); space = refl; spaces = tt }

parse_quoted_command-line_example :
    parse_quoted_command (command_line (b' ' ∷ []) (the ∷ virus ∷ the ∷ []) (0 ∷ b'x' ∷ []))
    ≡ ok (contents (the ∷ virus ∷ the ∷ []))
parse_quoted_command-line_example =
    parse_quoted_command-line (b' ' ∷ []) (the ∷ virus ∷ the ∷ []) (b'x' ∷ []) (refl, tt)
      (the-IsPiece, (virus-IsPiece, (the-IsPiece, tt))) (omega arith)

-- `the "a`, a line end, and the NUL that fgets adds.
parse_quoted_command_unclosed_example :
    parse_quoted_command (command_line [] (the ∷ []) (b'"' ∷ b'a' ∷ b'\n' ∷ 0 ∷ []))
    ≡ fault out_of_bounds
parse_quoted_command_unclosed_example =
    parse_quoted_command_unclosed [] (the ∷ []) (b'a' ∷ b'\n' ∷ 0 ∷ []) tt (the-IsPiece, tt)
      (omega arith) (refl, (refl, (refl, tt)))

-- A quotation in the middle of a word loses characters: `ab"cd" ` gives `b"cd`.
quote_in_word :
    parse_quoted_command (b'a' ∷ b'b' ∷ b'"' ∷ b'c' ∷ b'd' ∷ b'"' ∷ b' ' ∷ 0 ∷ [])
    ≡ ok ((b'b' ∷ b'"' ∷ b'c' ∷ b'd' ∷ []) ∷ [])
unfolding parse_quoted_command parse_from copy_token char_at
quote_in_word = refl
