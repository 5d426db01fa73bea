-- ===== src/Native/Text/Parts.antt =====
-- The parts of a string that its methods take.
use gescript.Base.{
  ℕ, ◌+◌, ◌-◌, ◌^◌, ◌≤◌, ◌<◌, ◌≡◌, ◌∙◌, ◌⊎◌, refl, sym, ap, false, some, List, [], ◌∷◌, ◌++◌, Bytes,
  if◌then◌else◌, length, take, drop, arith, Bool-cases, inl, inr, length-drop,
}
use gescript.Word.{Word, lt_word}
use gescript.Types.Value.{DataType}
use gescript.Types.Convert.{Strconv, to_int}
use gescript.Native.Array.{from_start, from_end, at_most}
use gescript.Native.Array.Splice.{least, positive}
use gescript.Base.{ltb, ltb→lt, true}
use gescript.Native.Array.Parts.{three_parts, at_most-le, from_start-is_neg}
use gescript.Native.Array.Fill.{at_most-cases, from_end-lt}
use gescript.Native.Text.{
  slice_text, part_start, part_end, string_slice, within, substring_start, substring_end,
  string_substring,
}

slice_text-some :
    (str : Bytes) (start end : Word)
    → length str < 2 ^ 62
    → start ≤ end
    → end ≤ length str
    → slice_text str start end ≡ some (take (end - start) (drop start str))
unfolding slice_text
slice_text-some str start end small a b = ground arith

within-le : (len : ℕ) (a : Word) → len < 2 ^ 62 → within len a ≤ len
unfolding within at_most lt_word
within-le len a small = ground arith

take-all : (xs : Bytes) → take (length xs) xs ≡ xs
take-all [] = refl
take-all (x ∷ xs) = ap (λ ys. x ∷ ys) (take-all xs)

substring_from :
    (str : Bytes) (s : Word)
    → length str < 2 ^ 62
    → s ≤ length str
    → (if lt_word (length str) s
        then slice_text str (length str) s
        else slice_text str s (length str))
      ≡ some (drop s str)
unfolding lt_word
substring_from str s small h =
    let after : lt_word (length str) s ≡ false = ground arith in
    rw (after, slice_text-some str s (length str) small h (omega arith))
      (ap some (ap (λ n. take n (drop s str)) (sym (length-drop s str)) ∙ take-all (drop s str)))

-- A signed number as a place of a text: 0 if it is negative, and at most the length.
abbrev pub clamped : ℕ → Word → ℕ
clamped len w = least (positive w) len

-- The bytes from the smaller of two places up to the greater.
abbrev pub between : Bytes → ℕ → ℕ → Bytes
between str x y = if ltb y x then take (x - y) (drop y str) else take (y - x) (drop x str)

within-clamped : (len : ℕ) (w : Word) → len < 2 ^ 62 → within len w ≡ clamped len w
unfolding within at_most lt_word
within-clamped len w small = ground arith

ordered-between :
    (str : Bytes) (x y : ℕ)
    → length str < 2 ^ 62
    → x ≤ length str
    → y ≤ length str
    → (if lt_word y x then slice_text str y x else slice_text str x y) ≡ some (between str x y)
unfolding lt_word
ordered-between str x y small a b = elim (Bool-cases (ltb y x)) [
  | inl less ↦
      let word : lt_word y x ≡ true = ground arith in
      rw (word, less, slice_text-some str y x small (omega (arith, ltb→lt y x less)) a) refl
  | inr more ↦
      let word : lt_word y x ≡ false = ground arith in
      rw (word, more, slice_text-some str x y small (ground arith) b) refl
]

-- On a string of less than 2 ^ 62 bytes substring gives the whole string with no argument, the
-- bytes from its place on with one, and those from the smaller to the greater of two places with
-- more, where the place of an argument is 0 if it is negative and at most the length.
pub string_substring-between :
    (c : Strconv) (str : Bytes) (a b : DataType) (rest : List DataType)
    → length str < 2 ^ 62
    → (string_substring c str [] ≡ some str)
      × (string_substring c str (a ∷ []) ≡ some (drop (clamped (length str) (to_int c a)) str))
      × (string_substring c str (a ∷ b ∷ rest)
          ≡ some
              (between str (clamped (length str) (to_int c a)) (clamped (length str) (to_int c b))))
unfolding string_substring substring_start substring_end
string_substring-between c str a b rest small =
    let len = length str in
    let x = within len (to_int c a) in
    let y = within len (to_int c b) in
    (
      substring_from str 0 small (omega arith),
      substring_from str x small (within-le len (to_int c a) small)
          ∙ ap (λ n. some (drop n str)) (within-clamped len (to_int c a) small),
      ordered-between str x y small (within-le len (to_int c a) small)
            (within-le len (to_int c b) small)
          ∙ ap (λ n. some (between str n y)) (within-clamped len (to_int c a) small)
          ∙ ap (λ n. some (between str (clamped len (to_int c a)) n))
              (within-clamped len (to_int c b) small),
    )

part_start-le :
    (c : Strconv) (len : ℕ) (args : List DataType) → len < 2 ^ 62 → part_start c len args ≤ len
unfolding part_start
part_start-le c len [] small = omega arith
part_start-le c len (start ∷ rest) small =
    at_most-le len (from_start len (to_int c start)) small (from_start-is_neg len (to_int c start))

part_end-le :
    (c : Strconv) (len : ℕ) (args : List DataType)
    → len < 2 ^ 62
    → ((2 ^ 63 ≤ part_end c len args) × (part_end c len args < 2 ^ 64))
      ⊎ (part_end c len args ≤ len)
unfolding part_end
part_end-le c len [] small = inr (omega arith)
part_end-le c len (start ∷ []) small = inr (omega arith)
part_end-le c len (start ∷ end ∷ rest) small =
    at_most-cases len (from_end len (to_int c end)) small (from_end-lt len (to_int c end))

in_order :
    (start end len : ℕ)
    → len < 2 ^ 62
    → start ≤ len
    → ((2 ^ 63 ≤ end) × (end < 2 ^ 64)) ⊎ (end ≤ len)
    → lt_word end start ≡ false
    → (start ≤ end) × (end ≤ len)
unfolding lt_word
in_order start end len small a (inl (b, d)) h = absurd (ground arith)
in_order start end len small a (inr b) h = (ground arith, b)

-- slice never panics on a string of less than 2 ^ 62 bytes, whatever its arguments are, and takes a part of it.
pub string_slice-part :
    (c : Strconv) (str : Bytes) (args : List DataType)
    → length str < 2 ^ 62
    → (before part after : Bytes) × (string_slice c str args ≡ some part)
      × (str ≡ before ++ (part ++ after))
unfolding string_slice
string_slice-part c str args small =
    let len = length str in
    let start = part_start c len args in
    let end = part_end c len args in
    elim (Bool-cases (lt_word end start)) [
      | inl crossed ↦ ([], [], str, rw (crossed, string_slice) refl, refl)
      | inr ordered ↦
          let (le, most) =
            in_order start end len small (part_start-le c len args small)
              (part_end-le c len args small) ordered in
          (
            take start str,
            take (end - start) (drop start str),
            drop (start + (end - start)) str,
            rw (ordered, slice_text-some str start end small le most, string_slice) refl,
            three_parts start (end - start) str,
          )
    ]
