-- ===== src/Parser/Lexer/Spelling/Scans.antt =====
-- The scans of the lexer on texts of names, numbers and strings.
use gescript.Base.{
  ℕ, suc, ◌+◌, ◌≡◌, ◌∙◌, refl, sym, ap, Bool, true, false, not, ◌||◌, [], ◌∷◌, ◌++◌, Bytes, ◌==◌,
  take, drop, length, length-append, arith, Bool-cases, inl, inr, ◌⊎◌,
}
use mathlib.Core.List.{append_assoc}
use mathlib.Core.Path.{subst}
use gescript.Parser.Lexer.Blank.{peek, count_while}
use gescript.Parser.Lexer.Number.{is_hex, hex_to_int}
use gescript.Parser.Lexer.Quoted.{
  StringScan, closed, before_scan, scan_string, scan_escape, escape_letter, hex_escape, utf8,
}
use gescript.Parser.Lexer.Spelling.{quote_byte, quote_bytes}

abbrev pub AllBytes : (ℕ → Bool) → Bytes → Type 0
AllBytes f [] = Unit
AllBytes f (c ∷ cs) = (f c ≡ true) × AllBytes f cs

pub take-length_append : (n rest : Bytes) → take (length n) (n ++ rest) ≡ n
take-length_append [] rest = refl
take-length_append (c ∷ n) rest = ap (λ s. c ∷ s) (take-length_append n rest)

pub drop-length_append : (n rest : Bytes) → drop (length n) (n ++ rest) ≡ rest
drop-length_append [] rest = refl
drop-length_append (c ∷ n) rest = drop-length_append n rest

count_while_stop : (f : ℕ → Bool) (rest : Bytes) → f (peek rest) ≡ false → count_while f rest ≡ 0
unfolding count_while
count_while_stop f [] h = refl
count_while_stop f (c ∷ rest) h = rw h refl

pub count_while-AllBytes :
    (f : ℕ → Bool) (n rest : Bytes)
    → AllBytes f n
    → f (peek rest) ≡ false
    → count_while f (n ++ rest) ≡ length n
unfolding count_while
count_while-AllBytes f [] rest h stop = count_while_stop f rest stop
count_while-AllBytes f (c ∷ n) rest (hc, h) stop =
    rw (hc, count_while-AllBytes f n rest h stop) refl

-- One byte of a literal in double quotes, in front of the rest of it.
ReadsByte : ℕ → Type 0
ReadsByte c =
    (rest str : Bytes) (n lines : ℕ)
    → scan_string 0 b'"' rest ≡ closed str n lines
    → scan_string 0 b'"' (quote_byte c ++ rest) ≡ closed (c ∷ str) (length (quote_byte c) + n) lines

mapped :
    (f : StringScan → StringScan) (rest str : Bytes) (n lines : ℕ) {s : StringScan}
    → scan_string 0 b'"' rest ≡ closed str n lines
    → f (closed str n lines) ≡ s
    → f (scan_string 0 b'"' rest) ≡ s
mapped f rest str n lines e h = ap f e ∙ h

ReadsByte-quote : ReadsByte b'"'
unfolding ReadsByte quote_byte scan_string before_scan scan_escape escape_letter utf8
ReadsByte-quote rest str n lines e =
    mapped (λ s. before_scan (b'"' ∷ []) 0 (before_scan [] 0 s)) rest str n lines e (ground arith)

ReadsByte-backslash : ReadsByte b'\\'
unfolding ReadsByte quote_byte scan_string before_scan scan_escape escape_letter utf8
ReadsByte-backslash rest str n lines e =
    mapped (λ s. before_scan (b'\\' ∷ []) 0 (before_scan [] 0 s)) rest str n lines e (ground arith)

ReadsByte-newline : ReadsByte 10
unfolding ReadsByte quote_byte scan_string before_scan scan_escape escape_letter utf8
ReadsByte-newline rest str n lines e =
    mapped (λ s. before_scan (10 ∷ []) 0 (before_scan [] 0 s)) rest str n lines e (ground arith)

ReadsByte-return : ReadsByte 13
unfolding ReadsByte quote_byte scan_string before_scan scan_escape escape_letter hex_escape is_hex
    hex_to_int utf8
ReadsByte-return rest str n lines e =
    mapped (λ s. before_scan (13 ∷ []) 0 (before_scan [] 0 (before_scan [] 0 (before_scan [] 0 s))))
      rest str n lines e (ground arith)

ReadsByte-nul : ReadsByte 0
unfolding ReadsByte quote_byte scan_string before_scan scan_escape escape_letter hex_escape is_hex
    hex_to_int utf8
ReadsByte-nul rest str n lines e =
    mapped (λ s. before_scan (0 ∷ []) 0 (before_scan [] 0 (before_scan [] 0 (before_scan [] 0 s))))
      rest str n lines e (ground arith)

-- The bytes that stand for themselves.
is_plain : ℕ → Bool
is_plain c = not (c == b'"' || c == b'\\' || c == 10 || c == 13 || c == 0)

ReadsByte-plain : (c : ℕ) → is_plain c ≡ true → ReadsByte c
unfolding ReadsByte quote_byte scan_string before_scan is_plain
ReadsByte-plain c h rest str n lines e = ground (arith, e)

special_cases :
    (c : ℕ) → is_plain c ≡ false → (c ≡ b'"') ⊎ (c ≡ b'\\') ⊎ (c ≡ 10) ⊎ (c ≡ 13) ⊎ (c ≡ 0)
unfolding is_plain
special_cases c h = ground arith

ReadsByte_lem : (c : ℕ) → ReadsByte c
unfolding is_plain
ReadsByte_lem c = elim (Bool-cases (is_plain c)) [
  | inl p ↦ ReadsByte-plain c p
  | inr s ↦ elim (special_cases c s) [
    | inl a ↦ subst ReadsByte (sym a) ReadsByte-quote
    | inr (inl a) ↦ subst ReadsByte (sym a) ReadsByte-backslash
    | inr (inr (inl a)) ↦ subst ReadsByte (sym a) ReadsByte-newline
    | inr (inr (inr (inl a))) ↦ subst ReadsByte (sym a) ReadsByte-return
    | inr (inr (inr (inr a))) ↦ subst ReadsByte (sym a) ReadsByte-nul
  ]
]

-- A string in double quotes, with its escapes, is read back, whatever its bytes are.
pub scan_string-quote_bytes :
    (s rest : Bytes)
    → scan_string 0 b'"' (quote_bytes s ++ b'"' ∷ rest) ≡ closed s (suc (length (quote_bytes s))) 0
unfolding quote_bytes ReadsByte
scan_string-quote_bytes [] rest = unfold scan_string in refl
scan_string-quote_bytes (c ∷ s) rest =
    ap (scan_string 0 b'"') (append_assoc (quote_byte c) (quote_bytes s) (b'"' ∷ rest))
    ∙ ReadsByte_lem c (quote_bytes s ++ b'"' ∷ rest) s (suc (length (quote_bytes s))) 0
        (scan_string-quote_bytes s rest)
    ∙ ap (λ n. closed (c ∷ s) n 0) (omega (arith, length-append (quote_byte c) (quote_bytes s)))
