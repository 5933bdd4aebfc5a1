-- ===== src/Text/Tests.antt =====
-- The parser on concrete lines.
use operating_system_pa.Text.Splitting.{
  Part, IsPart, text, parse_command-text, parse_command_overflow,
}
use operating_system_pa.Base.{
  zero, suc, All, fault, out_of_bounds, ◌++◌, ℕ, ◌≡◌, refl, ok, List, [], ◌∷◌, arith,
}
use operating_system_pa.Text.{
  scan, token_at, drop_comment, parse_command, strtoimax, magnitude, after_zero, digits, atoi,
}

parse_line :
    parse_command (b' ' ∷ b'a' ∷ b'b' ∷ b' ' ∷ b'1' ∷ b'\n' ∷ [])
    ≡ ok ((b'a' ∷ b'b' ∷ []) ∷ (b'1' ∷ []) ∷ [])
unfolding parse_command scan token_at drop_comment
parse_line = refl

read_hex : strtoimax (b'0' ∷ b'x' ∷ b'1' ∷ b'f' ∷ []) ≡ 31
unfolding strtoimax magnitude after_zero digits
read_hex = refl

read_octal : strtoimax (b'0' ∷ b'1' ∷ b'7' ∷ []) ≡ 15
unfolding strtoimax magnitude after_zero digits
read_octal = refl

read_negative : atoi (b'-' ∷ b'1' ∷ []) ≡ 4294967295
unfolding atoi digits
read_negative = refl

abbrev a_part : Part
a_part = record { first = b'a'; others = b'b' ∷ []; space = b' '; spaces = b'\n' ∷ [] }

a_part-IsPart : IsPart a_part
a_part-IsPart = record { first = refl; others = (refl, tt); space = refl; spaces = (refl, tt) }

-- `# b`
abbrev comment_part : Part
comment_part = record { first = b'#'; others = []; space = b' '; spaces = [] }

comment_part-IsPart : IsPart comment_part
comment_part-IsPart = record { first = refl; others = tt; space = refl; spaces = tt }

parse_command-text_example :
    parse_command ((b' ' ∷ []) ++ text (a_part ∷ a_part ∷ comment_part ∷ a_part ∷ []))
    ≡ ok ((b'a' ∷ b'b' ∷ []) ∷ (b'a' ∷ b'b' ∷ []) ∷ [])
parse_command-text_example =
    parse_command-text (b' ' ∷ []) (a_part ∷ a_part ∷ []) (comment_part ∷ a_part ∷ []) (refl, tt)
      (a_part-IsPart, (a_part-IsPart, (comment_part-IsPart, (a_part-IsPart, tt)))) (omega arith)
      (omega arith, (omega arith, tt)) refl

abbrev repeated : ℕ → List Part
repeated zero = []
repeated (suc n) = a_part ∷ repeated n

repeated-IsPart : (n : ℕ) → All IsPart (repeated n)
repeated-IsPart zero = tt
repeated-IsPart (suc n) = (a_part-IsPart, repeated-IsPart n)

parse_command_overflow_example : parse_command ([] ++ text (repeated 33)) ≡ fault out_of_bounds
parse_command_overflow_example =
    parse_command_overflow [] (repeated 33) tt (repeated-IsPart 33) (omega arith)
