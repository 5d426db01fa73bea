-- ===== src/Parser/Lexer/Bounds/Scans.antt =====
-- The lengths that the scans of blanks, comments, texts and regular expressions give, against the text that they scan.
use gescript.Base.{
  ℕ, zero, suc, ◌+◌, ◌<◌, ◌≤◌, ◌≡◌, Bool, true, false, not, ◌&&◌, ◌||◌, Option, none, some, [], ◌∷◌,
  Bytes, ◌==◌, if◌then◌else◌, drop, length, length-drop, arith,
}
use gescript.Parser.Lexer.Blank.{peek, peek_next, count_while, in_line, line_comment, block_comment}
use gescript.Parser.Lexer.Quoted.{
  StringScan, closed, failed, before_scan, scan_string, scan_regex, scan_escape, Escape, bad_escape,
  escaped,
}

pub count_while-le : (f : ℕ → Bool) (text : Bytes) → count_while f text ≤ length text
unfolding count_while
count_while-le f [] = omega arith
count_while-le f (c ∷ cs) = ground (arith, count_while-le f cs)

pub count_while_pos : (f : ℕ → Bool) (c : ℕ) (cs : Bytes) → f c ≡ true → 0 < count_while f (c ∷ cs)
unfolding count_while
count_while_pos f c cs h = ground arith

line_end-le :
    (after : Bytes) (n most : ℕ)
    → n + length after ≤ most
    → (if◌then◌else◌ {A = ℕ × Bool}
        (peek after == b'\r' && (peek_next after == b'\n'))
        (n + 2, true)
        (if peek after == 0 then (n, false) else (n + 1, true))).0
      ≤ most
line_end-le [] n most h = ground arith
line_end-le (d ∷ []) n most h = ground arith
line_end-le (d ∷ e ∷ after) n most h = ground arith

pub length-drop_add :
    (n : ℕ) (text : Bytes) → n ≤ length text → n + length (drop n text) ≡ length text
length-drop_add n text h = omega (arith, length-drop n text)

pub peek-cons : (text : Bytes) (c : ℕ) → 0 < c → (peek text == c) ≡ true → text ≡ c ∷ drop 1 text
peek-cons [] c p h = absurd (ground arith)
peek-cons (b ∷ text) c p h = ground arith

pub line_comment-le : (text : Bytes) → (line_comment text).0 ≤ length text
unfolding line_comment
line_comment-le text =
    let n = count_while in_line text in
    line_end-le (drop n text) n (length text)
      (omega (arith, length-drop_add n text (count_while-le in_line text)))

pub block_comment-le :
    (text : Bytes)
    → (block_comment text).1.0 + (if (block_comment text).0 then 2 else 0) ≤ length text
unfolding block_comment
block_comment-le [] = omega arith
block_comment-le (c ∷ []) = ground arith
block_comment-le (c ∷ d ∷ cs) = ground (arith, block_comment-le (d ∷ cs))

-- The length of a text, if the scan has one, is from 1 to `most`.
abbrev pub StringFits : ℕ → StringScan → Type 0
StringFits most (closed str n lines) = (1 ≤ n) × (n ≤ most)
StringFits most (failed e lines) = Unit

abbrev pub RegexFits : ℕ → Option ℕ → Type 0
RegexFits most (some n) = (1 ≤ n) × (n ≤ most)
RegexFits most none = Unit

before_scan-Fits :
    (bytes : Bytes) (lines : ℕ) (most : ℕ) (s : StringScan)
    → StringFits most s
    → StringFits (suc most) (before_scan bytes lines s)
unfolding before_scan
before_scan-Fits bytes lines most (closed str n more) (a, b) = (omega arith, omega arith)
before_scan-Fits bytes lines most (failed e more) h = tt

escape-Fits :
    (e : Escape) (q most : ℕ) (cs : Bytes)
    → ((n : ℕ) → StringFits most (scan_string n q cs))
    → StringFits (suc most) (elim e [
      | bad_escape e ↦ failed e 0
      | escaped bytes n lines ↦ before_scan bytes lines (scan_string n q cs)
    ])
escape-Fits (bad_escape e) q most cs h = tt
escape-Fits (escaped bytes n lines) q most cs h =
    before_scan-Fits bytes lines most (scan_string n q cs) (h n)

StringFits-if :
    (b : Bool) (most : ℕ) (s t : StringScan)
    → StringFits most s
    → StringFits most t
    → StringFits most (if b then s else t)
StringFits-if true most s t hs ht = hs
StringFits-if false most s t hs ht = ht

pub scan_string-Fits : (k q : ℕ) (text : Bytes) → StringFits (length text) (scan_string k q text)
unfolding scan_string
scan_string-Fits k q [] = tt
scan_string-Fits (suc k) q (c ∷ cs) =
    before_scan-Fits [] 0 (length cs) (scan_string k q cs) (scan_string-Fits k q cs)
scan_string-Fits zero q (c ∷ cs) =
    let plain_fits =
      before_scan-Fits (c ∷ []) 0 (length cs) (scan_string zero q cs)
        (scan_string-Fits zero q cs) in
    let special_fits =
      escape-Fits (scan_escape cs) q (length cs) cs (λ n. scan_string-Fits n q cs) in
    StringFits-if (c == q) (length (c ∷ cs)) (closed [] 1 0) _ (omega arith, omega arith)
      (StringFits-if (not (q == b'`') && (c == b'\r' || c == b'\n')) (length (c ∷ cs)) (failed _ 0)
        _ tt
        (StringFits-if (c == 0) (length (c ∷ cs)) (failed _ 0) _ tt
          (StringFits-if (c == b'\\') (length (c ∷ cs)) _ _ special_fits plain_fits)))

next-RegexFits :
    (o : Option ℕ) (most : ℕ)
    → RegexFits most o
    → RegexFits (suc most) (elim o [ none ↦ none | some n ↦ some (suc n) ])
next-RegexFits none most h = tt
next-RegexFits (some n) most (a, b) = (omega arith, omega arith)

RegexFits-if :
    (b : Bool) (most : ℕ) (s t : Option ℕ)
    → RegexFits most s
    → RegexFits most t
    → RegexFits most (if b then s else t)
RegexFits-if true most s t hs ht = hs
RegexFits-if false most s t hs ht = ht

pub scan_regex-Fits : (skip : Bool) (text : Bytes) → RegexFits (length text) (scan_regex skip text)
unfolding scan_regex
scan_regex-Fits skip [] = tt
scan_regex-Fits true (c ∷ cs) =
    next-RegexFits (scan_regex false cs) (length cs) (scan_regex-Fits false cs)
scan_regex-Fits false (c ∷ cs) =
    let skip = c == b'\\' && not (peek cs == 0) in
    RegexFits-if (c == b'/') (suc (length cs)) (some 1) _ (omega arith, omega arith)
      (RegexFits-if (c == b'\r' || c == b'\n' || c == 0) (suc (length cs)) none _ tt
        (next-RegexFits (scan_regex skip cs) (length cs) (scan_regex-Fits skip cs)))
