-- ===== src/Parser/Lexer/Spelling/Symbols.antt =====
-- The lexer on the texts of the operators.
use mathlib.Core.Path.{subst}
use gescript.Base.{
  and_left, and_right, ==_iff, ℕ, ◌≡◌, ◌∙◌, refl, sym, ap, Bool, true, false, not, ◌&&◌, ◌||◌,
  Option, none, some, List, [], ◌∷◌, ◌++◌, Bytes, ◌==◌, length, arith, inl, inr,
}
use gescript.Types.Convert.{Strconv}
use gescript.Parser.Token.{Token, parsed_undefined, Sym, Lexer, text_at}
use gescript.Parser.Lexer.{
  lexed, reset, read_operator, read_token, with_assign_op, with_operator, is_quote, set_token,
  with_token, lex,
}
use gescript.Parser.Lexer.Blank.{peek}
use gescript.Parser.Lexer.Name.{is_digit, is_name_start, is_name_part}
use gescript.Parser.Lexer.Operators.{Operator}
use gescript.Parser.Lexer.Spelling.{separates, continues}
use gescript.Parser.Lexer.Spelling.Operators.{
  operators, scan_text, ScansAs, All, scan_text-operators,
}
use gescript.Parser.Lexer.Spelling.Lexemes.{IsOneOf, operated, Reads, starts_token, lex-Reads}

-- Where an operator begins: what follows its first byte tells it from a comment and a number.
abbrev starts_operator : ℕ → ℕ → Bool
starts_operator c n =
    starts_token c n
    && not (is_name_start c)
    && not (is_digit c || (c == b'.' && is_digit n))
    && not (is_quote c)

is_operator_text : Bytes → Bool
is_operator_text [] = false
is_operator_text (c ∷ []) = starts_operator c b' '
is_operator_text (c ∷ n ∷ text) = starts_operator c n

read_token-operator :
    (c : Strconv) (lx : Lexer) (ch : ℕ) (text : Bytes)
    → lx.regex_valid ≡ false
    → starts_operator ch (peek text) ≡ true
    → read_token c lx ch text ≡ read_operator lx ch text
unfolding read_token
read_token-operator c lx ch text v h = ground arith

with_assign_op-operated :
    (o : Option Token) (t : Token) (s : Sym)
    → record (with_assign_op o (record s { parse_type = parsed_undefined })) { token = t }
      ≡ record s {
        token = t;
        parse_type = parsed_undefined;
        assign_op = elim o [ none ↦ s.assign_op | some a ↦ a ];
      }
unfolding with_assign_op
with_assign_op-operated none t s = refl
with_assign_op-operated (some a) t s = refl

operator_token-Reads :
    (lx : Lexer) (op : Operator)
    → Reads lx op.width
        (operated op lx.sym)
        (with_token false (lexed op.token (with_operator op (reset lx))))
unfolding with_operator with_token set_token
operator_token-Reads lx op = record {
  after = _;
  returned = refl;
  symbol = with_assign_op-operated op.assign_op op.token lx.sym;
  place = refl;
  source = refl;
  line = refl;
}

read_operator-Reads :
    (lx : Lexer) (ch : ℕ) (text : Bytes) (op : Operator)
    → scan_text (ch ∷ text) ≡ some op
    → Reads lx op.width (operated op lx.sym) (with_token false (read_operator (reset lx) ch text))
unfolding read_operator
read_operator-Reads lx ch text op e = rw (e, read_operator) (operator_token-Reads lx op)

-- What a table of the operators shows of each.
all_operators : (Bytes → Operator → Bool) → List (Bytes × Operator) → Bool
all_operators f [] = true
all_operators f ((text, op) ∷ ops) = f text op && all_operators f ops

IsOneOf-all_operators :
    (f : Bytes → Operator → Bool) (text : Bytes) (op : Operator) (ops : List (Bytes × Operator))
    → IsOneOf (text, op) ops
    → all_operators f ops ≡ true
    → f text op ≡ true
unfolding all_operators
IsOneOf-all_operators f text op [] x h = elim x [ ]
IsOneOf-all_operators f text op ((t, o) ∷ ops) (inl e) h =
    rw (ap (λ x. f x.0 x.1) e) (and_left _ _ h)
IsOneOf-all_operators f text op ((t, o) ∷ ops) (inr m) h =
    IsOneOf-all_operators f text op ops m (and_right _ _ h)

IsOneOf-All :
    (P : Bytes × Operator → Type 0) (x : Bytes × Operator) (ops : List (Bytes × Operator))
    → IsOneOf x ops
    → All P ops
    → P x
IsOneOf-All P x [] m h = elim m [ ]
IsOneOf-All P x (y ∷ ops) (inl e) (h, hs) = subst P (sym e) h
IsOneOf-All P x (y ∷ ops) (inr m) (h, hs) = IsOneOf-All P x ops m hs

-- It begins as an operator, and its width is that of its text.
abbrev is_operator : Bytes → Operator → Bool
is_operator text op = is_operator_text text && op.width == length text

operators-all : all_operators is_operator operators ≡ true
unfolding all_operators is_operator_text is_name_start is_digit
operators-all = refl

starts_operator-separates :
    (ch n m : ℕ) → starts_operator ch b' ' ≡ true → separates m ≡ true → starts_operator ch m ≡ true
unfolding is_name_start is_digit separates is_name_part
starts_operator-separates ch n m h stop = ground arith

is_operator_text-starts :
    (text rest : Bytes)
    → is_operator_text text ≡ true
    → separates (peek rest) ≡ true
    → (ch : ℕ) × (more : Bytes) × (text ++ rest ≡ ch ∷ more)
      × (starts_operator ch (peek more) ≡ true)
unfolding is_operator_text
is_operator_text-starts [] rest h stop = absurd (ground arith)
is_operator_text-starts (c ∷ []) rest h stop =
    (c, rest, refl, starts_operator-separates c 0 (peek rest) h stop)
is_operator_text-starts (c ∷ n ∷ text) rest h stop = (c, n ∷ text ++ rest, refl, h)

continues-separates : (c : ℕ) → separates c ≡ true → continues c ≡ false
unfolding separates
continues-separates c h = ground arith

starts_operator-token : (c n : ℕ) → starts_operator c n ≡ true → starts_token c n ≡ true
starts_operator-token c n h = ground arith

pub lex-operator :
    (c : Strconv) (lx : Lexer) (text rest : Bytes) (op : Operator)
    → IsOneOf (text, op) operators
    → lx.regex_valid ≡ false
    → text_at lx ≡ text ++ rest
    → separates (peek rest) ≡ true
    → Reads lx (length text) (operated op lx.sym) (lex c lx)
lex-operator c lx text rest op one invalid at stop =
    let is = IsOneOf-all_operators is_operator text op operators one operators-all in
    let (ch, more, e, h) = is_operator_text-starts text rest (and_left _ _ is) stop in
    rw
      (sym (
        (==_iff op.width (length text)).0
          (and_right (is_operator_text text) (op.width == length text) is)))
      (lex-Reads c lx ch more op.width (operated op lx.sym) _ (at ∙ e)
        (starts_operator-token ch (peek more) h)
        (read_token-operator c (reset lx) ch more invalid h)
        (subst
          (λ v.
            Reads lx op.width (operated op lx.sym)
              (with_token v (read_operator (reset lx) ch more)))
          (sym invalid)
          (read_operator-Reads lx ch more op (
            ap scan_text (sym e)
            ∙ IsOneOf-All ScansAs (text, op) operators one scan_text-operators rest
                (continues-separates (peek rest) stop)))))
