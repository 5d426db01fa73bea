-- ===== src/Parser/Lexer/Blank.antt =====
-- The bytes between tokens: line ends and comments (_lex of internal/parser/lexer.go). A scan
-- gives the number of bytes that it goes over.
use gescript.Base.{
  ℕ, suc, ◌+◌, Bool, true, false, not, ◌&&◌, ◌||◌, [], ◌∷◌, Bytes, ◌==◌, if◌then◌else◌, drop,
}

-- The byte at the front; at the end, the 0 that newLexer appends.
abbrev pub peek : Bytes → ℕ
peek [] = 0
peek (c ∷ cs) = c

-- The byte after it.
abbrev pub peek_next : Bytes → ℕ
peek_next [] = 0
peek_next (c ∷ cs) = peek cs

-- How many bytes at the front are of a kind.
unfoldable pub count_while : (ℕ → Bool) → Bytes → ℕ
count_while f [] = 0
count_while f (c ∷ cs) = let rest = count_while f cs in if f c then suc rest else 0

unfoldable pub in_line : ℕ → Bool
in_line c = not (c == 0) && not (c == b'\r') && not (c == b'\n')

-- A single line comment behind its slashes: its length, with the line end, and whether it has one.
unfoldable pub line_comment : Bytes → ℕ × Bool
line_comment text =
    let n = count_while in_line text in
    let after = drop n text in
    if peek after == b'\r' && (peek_next after == b'\n')
    then (n + 2, true)
    else if peek after == 0
    then (n, false)
    else (n + 1, true)

-- A multi-line comment behind its `/*`: whether it ends, its length up to the `*/` and the lines
-- in it. Of a `\r\n` the `\r` is passed over and the `\n` counts.
unfoldable pub block_comment : Bytes → Bool × (ℕ × ℕ)
block_comment [] = (false, (0, 0))
block_comment (c ∷ cs) =
    let (closed, (n, lines)) = block_comment cs in
    if c == 0
    then (false, (0, 0))
    else if c == b'*' && (peek cs == b'/')
    then (true, (0, 0))
    else if c == b'\n' || (c == b'\r' && not (peek cs == b'\n'))
    then (closed, (suc n, suc lines))
    else (closed, (suc n, lines))
