-- ===== src/Text/Quoted/Pieces.antt =====
-- parse_command of pa0.c against a description of the line: words and quotations, with white space
-- behind each.
use operating_system_pa.Base.{
  ℕ, suc, ◌+◌, ◌-◌, ◌≤◌, ◌≡◌, refl, sym, ap, ◌∙◌, false, List, [], ◌∷◌, ◌++◌, append_assoc, ◌==◌,
  All, length, length-append, Result, ok, fault, out_of_bounds, ◌>>=◌, arith,
}
use operating_system_pa.Text.{Token, isspace}
use operating_system_pa.Text.Splitting.{IsSpace}
use operating_system_pa.Text.Quoted.{between, plain, inside, char_at, copy_token, parse_from}

-- The copy of a part of the command.
char_at-append : (a : List ℕ) (x : ℕ) (b : List ℕ) → char_at (a ++ x ∷ b) (length a) ≡ ok x
unfolding char_at
char_at-append [] x b = refl
char_at-append (y ∷ a) x b = char_at-append a x b

copy_token-part :
    (w a b : List ℕ) (command : List ℕ) (i num : ℕ)
    → command ≡ a ++ (w ++ b)
    → i ≡ length a + num
    → length w ≤ num
    → copy_token command i num (length w) ≡ ok w
unfolding copy_token
copy_token-part [] a b command i num e at le = refl
copy_token-part (x ∷ w) a b command i num e at le =
    let here : i - num ≡ length a = omega (arith, at) in
    let longer : length (a ++ x ∷ []) ≡ length a + 1 = length-append a (x ∷ []) in
    let rest =
      copy_token-part w (a ++ x ∷ []) b command i (num - 1)
        (e ∙ sym (append_assoc a (x ∷ []) (w ++ b))) (omega (arith, at, le, longer))
        (omega (arith, le)) in
    let first : char_at command (i - num) ≡ ok x = rw (here, e) (char_at-append a x (w ++ b)) in
    rw (first, rest) refl

-- A character of a word, and of a quotation.
abbrev pub IsPlain : ℕ → Type 0
IsPlain c = (isspace c ≡ false) × ((c == b'"') ≡ false)

abbrev pub IsQuotable : ℕ → Type 0
IsQuotable c = (c == b'"') ≡ false

pub data Body : Type 0 where
  word : ℕ → List ℕ → Body
  quotation : List ℕ → Body

abbrev pub IsBody : Body → Type 0
IsBody (word c cs) = ((c == 0) ≡ false) × IsPlain c × All IsPlain cs
IsBody (quotation cs) = All IsQuotable cs

-- A word or a quotation, and the white space behind it, not empty.
pub record Piece : Type 0 where
  pub body : Body
  pub space : ℕ
  pub spaces : List ℕ

pub record IsPiece (p : Piece) : Type 0 where
  pub body : IsBody p.body
  pub space : IsSpace p.space
  pub spaces : All IsSpace p.spaces

abbrev pub content : Body → Token
content (word c cs) = c ∷ cs
content (quotation cs) = cs

abbrev pub written : Body → List ℕ → List ℕ
written (word c cs) rest = c ∷ (cs ++ rest)
written (quotation cs) rest = b'"' ∷ (cs ++ b'"' ∷ rest)

-- The characters of the body.
abbrev pub size : Body → ℕ
size (word c cs) = suc (length cs)
size (quotation cs) = suc (suc (length cs))

abbrev pub line : List Piece → List ℕ → List ℕ
line [] rest = rest
line (p ∷ ps) rest = written p.body (p.space ∷ (p.spaces ++ line ps rest))

abbrev pub contents : List Piece → List Token
contents [] = []
contents (p ∷ ps) = content p.body ∷ contents ps

pub written-append :
    (b : Body) (c : ℕ) (rest : List ℕ) → written b (c ∷ rest) ≡ written b (c ∷ []) ++ rest
written-append (word d w) c rest = ap (λ (l : List ℕ). d ∷ l) (sym (append_assoc w (c ∷ []) rest))
written-append (quotation q) c rest =
    ap (λ (l : List ℕ). b'"' ∷ l) (sym (append_assoc q (b'"' ∷ c ∷ []) rest))

pub length-written : (b : Body) (c : ℕ) → length (written b (c ∷ [])) ≡ size b + 1
length-written (word d w) c = omega (arith, length-append w (c ∷ []))
length-written (quotation q) c = omega (arith, length-append q (b'"' ∷ c ∷ []))

-- What was found in front of the rest.
abbrev pub prepended : List Token → Result (List Token) → Result (List Token)
prepended ts r = r >>= λ more. ok (ts ++ more)

pub prepended-nil : (r : Result (List Token)) → r ≡ prepended [] r
prepended-nil (ok ts) = refl
prepended-nil (fault f) = refl

pub prepended-cons :
    (t : Token) (ts : List Token) (r : Result (List Token))
    → (prepended ts r >>= λ more. ok (t ∷ more)) ≡ prepended (t ∷ ts) r
prepended-cons t ts (ok more) = refl
prepended-cons t ts (fault f) = refl

module _ (command : List ℕ) where
  space-nonzero : (c : ℕ) → IsSpace c → (c == 0) ≡ false
  space-nonzero c s = ground arith

  pub parse_from-spaces :
      (room i : ℕ) (gap rest : List ℕ)
      → All IsSpace gap
      → parse_from command room between i 0 0 (gap ++ rest)
        ≡ parse_from command room between (i + length gap) 0 0 rest
  unfolding parse_from
  parse_from-spaces room i [] rest a =
      ap (λ (k : ℕ). parse_from command room between k 0 0 rest) (omega arith)
  parse_from-spaces room i (c ∷ gap) rest a =
      let on = parse_from-spaces room (i + 1) gap rest a.1 in
      let e : i + 1 + length gap ≡ i + suc (length gap) = omega arith in
      rw (space-nonzero c a.0, a.0, parse_from)
        (on ∙ ap (λ (k : ℕ). parse_from command room between k 0 0 rest) e)

  -- What happens at the white space behind a token.
  abbrev emitted : ℕ → ℕ → ℕ → ℕ → List ℕ → Result (List Token)
  emitted room i num t rest = copy_token command i num t >>= λ token.
      parse_from command (room - 1) between (i + 1) 0 0 rest >>= λ tokens. ok (token ∷ tokens)

  emitted_eq :
      (room : ℕ) (i j n m t u : ℕ) (rest : List ℕ)
      → i ≡ j
      → n ≡ m
      → t ≡ u
      → emitted room i n t rest ≡ emitted room j m u rest
  emitted_eq room i j n m t u rest a b c = rw (a, b, c) refl

  -- The rest of a word, and the white space behind it.
  parse_from-plain :
      (room i n : ℕ) (w : List ℕ) (c : ℕ) (rest : List ℕ)
      → All IsPlain w
      → IsSpace c
      → parse_from command room plain i n n (w ++ c ∷ rest)
        ≡ emitted room (i + length w) (n + length w) (n + length w) rest
  unfolding parse_from
  parse_from-plain room i n [] c rest a s =
      rw (s, parse_from)
        (emitted_eq room i (i + 0) n (n + 0) n (n + 0) rest (omega arith) (omega arith)
          (omega arith))
  parse_from-plain room i n (d ∷ w) c rest a s =
      let on = parse_from-plain room (i + 1) (n + 1) w c rest a.1 s in
      rw (a.0.0, a.0.1, parse_from)
        (on
          ∙ emitted_eq room (i + 1 + length w) (i + suc (length w)) (n + 1 + length w)
              (n + suc (length w)) (n + 1 + length w) (n + suc (length w)) rest (omega arith)
              (omega arith) (omega arith))

  -- The rest of a quotation, its closing mark, and the white space behind it.
  parse_from-inside :
      (room i n t : ℕ) (q : List ℕ) (c : ℕ) (rest : List ℕ)
      → All IsQuotable q
      → IsSpace c
      → parse_from command room inside i n t (q ++ b'"' ∷ c ∷ rest)
        ≡ emitted room (i + length q + 1) (n + length q + 1) (n + length q) rest
  unfolding parse_from
  parse_from-inside room i n t [] c rest a s =
      rw (s, parse_from)
        (emitted_eq room (i + 1) (i + 0 + 1) (n + 1) (n + 0 + 1) n (n + 0) rest (omega arith)
          (omega arith) (omega arith))
  parse_from-inside room i n t (d ∷ q) c rest a s =
      let on = parse_from-inside room (i + 1) (n + 1) t q c rest a.1 s in
      rw (a.0, parse_from)
        (on
          ∙ emitted_eq room (i + 1 + length q + 1) (i + suc (length q) + 1) (n + 1 + length q + 1)
              (n + suc (length q) + 1) (n + 1 + length q) (n + suc (length q)) rest (omega arith)
              (omega arith) (omega arith))

  -- A quotation that is never closed is read to the end of the array.
  pub parse_from_unclosed :
      (room i n t : ℕ) (q : List ℕ)
      → All IsQuotable q
      → parse_from command room inside i n t q ≡ fault out_of_bounds
  unfolding parse_from
  parse_from_unclosed room i n t [] a = refl
  parse_from_unclosed room i n t (d ∷ q) a =
      rw (a.0, parse_from) (parse_from_unclosed room (i + 1) (n + 1) t q a.1)

  emitted-ok :
      (room i num : ℕ) (w rest : List ℕ)
      → copy_token command i num (length w) ≡ ok w
      → emitted room i num (length w) rest
        ≡ (parse_from command (room - 1) between (i + 1) 0 0 rest >>= λ tokens. ok (w ∷ tokens))
  emitted-ok room i num w rest e = rw e refl

  -- One piece, which stands behind `before` in the command.
  pub parse_from-piece :
      (room : ℕ) (before : List ℕ) (b : Body) (c : ℕ) (rest : List ℕ)
      → command ≡ before ++ written b (c ∷ rest)
      → IsBody b
      → IsSpace c
      → 1 ≤ room
      → parse_from command room between (length before) 0 0 (written b (c ∷ rest)) ≡ (
          parse_from command (room - 1) between (length before + size b + 1) 0 0 rest >>= λ tokens.
          ok (content b ∷ tokens))
  unfolding parse_from
  parse_from-piece room before (word d w) c rest e h s more =
      let i = length before + suc (length w) in
      let some_room : (room == 0) ≡ false = ground arith in
      let copied =
        copy_token-part (d ∷ w) before (c ∷ rest) command i (suc (length w)) e refl (omega arith) in
      let on = parse_from-plain room (length before + 1) 1 w c rest h.2 s in
      rw (h.0, h.1.0, some_room, h.1.1, parse_from)
        (on
          ∙ emitted_eq room (length before + 1 + length w) i (1 + length w) (suc (length w))
              (1 + length w) (suc (length w)) rest (omega arith) (omega arith) (omega arith)
          ∙ emitted-ok room i (suc (length w)) (d ∷ w) rest copied)
  parse_from-piece room before (quotation q) c rest e h s more =
      let i = length before + suc (suc (length q)) in
      let some_room : (room == 0) ≡ false = ground arith in
      let longer : length (before ++ b'"' ∷ []) ≡ length before + 1 =
        length-append before (b'"' ∷ []) in
      let copied =
        copy_token-part q (before ++ b'"' ∷ []) (b'"' ∷ c ∷ rest) command i (suc (length q))
          (e ∙ sym (append_assoc before (b'"' ∷ []) (q ++ b'"' ∷ c ∷ rest))) (omega (arith, longer))
          (omega arith) in
      let on = parse_from-inside room (length before + 1) 0 0 q c rest h s in
      rw (some_room, parse_from)
        (on
          ∙ emitted_eq room (length before + 1 + length q + 1) i (0 + length q + 1) (suc (length q))
              (0 + length q) (length q) rest (omega arith) (omega arith) (omega arith)
          ∙ emitted-ok room i (suc (length q)) q rest copied)
