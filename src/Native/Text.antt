-- ===== src/Native/Text.antt =====
-- The methods of strings that take a part by its places (internal/native/string.go). A method has
-- its string, args[0], and the further arguments, args[1:]; a result of `none` is the panic of a
-- slice out of range.
pub mod Parts
use gescript.Base.{
  ℕ, ◌+◌, ◌-◌, ◌%◌, ◌^◌, Bool, true, false, ◌||◌, Option, none, some, List, [], ◌∷◌, Bytes, ltb,
  leb, if◌then◌else◌, length, take, drop, get_or, map,
}
use gescript.Word.{Word, is_neg, lt_word, add_word}
use gescript.Float.{nan}
use gescript.Types.Value.{DataType, integer, number, string}
use gescript.Types.Convert.{Strconv, to_int}
use gescript.Native.Array.{from_start, from_end, at_most}

-- str[start:end]
unfoldable pub slice_text : Bytes → Word → Word → Option Bytes
slice_text str start end =
    if is_neg start || (is_neg end || (ltb end start || ltb (length str) end))
    then none
    else some (take (end - start) (drop start str))

-- idx
unfoldable pub char_place : Strconv → List DataType → Word
char_place c [] = 0
char_place c (idx ∷ rest) = to_int c idx

unfoldable pub string_char_at : Strconv → Bytes → List DataType → Option Bytes
unfolding slice_text
string_char_at c str args =
    let idx = char_place c args in
    if is_neg idx || leb (length str) idx then some [] else slice_text str idx (add_word idx 1)

unfoldable pub string_char_code_at : Strconv → Bytes → List DataType → DataType
string_char_code_at c str args =
    let idx = char_place c args in
    if is_neg idx || leb (length str) idx then number nan else integer (get_or str idx 0)

unfoldable pub part_start : Strconv → ℕ → List DataType → Word
part_start c len [] = 0
part_start c len (start ∷ rest) = at_most len (from_start len (to_int c start))

unfoldable pub part_end : Strconv → ℕ → List DataType → Word
part_end c len (start ∷ end ∷ rest) = at_most len (from_end len (to_int c end))
part_end c len _ = len

unfoldable pub string_slice : Strconv → Bytes → List DataType → Option Bytes
unfolding slice_text
string_slice c str args =
    let start = part_start c (length str) args in
    let end = part_end c (length str) args in
    if lt_word end start then some [] else slice_text str start end

unfoldable pub substr_start : Strconv → ℕ → List DataType → Word
substr_start c len [] = 0
substr_start c len (start ∷ rest) = from_start len (to_int c start)

unfoldable pub substr_length : Strconv → ℕ → List DataType → Word
substr_length c len (start ∷ sublen ∷ rest) = let n = to_int c sublen in if is_neg n then 0 else n
substr_length c len _ = len

unfoldable pub string_substr : Strconv → Bytes → List DataType → Option Bytes
unfolding slice_text
string_substr c str args =
    let start = substr_start c (length str) args in
    let end = at_most (length str) (add_word start (substr_length c (length str) args)) in
    if lt_word start (length str) then slice_text str start end else some []

-- An argument of substring: at 0 at least, and at most the length.
unfoldable pub within : ℕ → Word → Word
within len a = if is_neg a then 0 else at_most len a

unfoldable pub substring_start : Strconv → ℕ → List DataType → Word
substring_start c len [] = 0
substring_start c len (start ∷ rest) = within len (to_int c start)

unfoldable pub substring_end : Strconv → ℕ → List DataType → Word
substring_end c len (start ∷ end ∷ rest) = within len (to_int c end)
substring_end c len _ = len

unfoldable pub string_substring : Strconv → Bytes → List DataType → Option Bytes
unfolding slice_text
string_substring c str args =
    let start = substring_start c (length str) args in
    let end = substring_end c (length str) args in
    if lt_word end start then slice_text str end start else slice_text str start end

-- byte(code) of each argument
unfoldable pub string_from_char_code : Strconv → List DataType → Bytes
string_from_char_code c [] = []
string_from_char_code c (arg ∷ args) = to_int c arg % 2 ^ 8 ∷ string_from_char_code c args
