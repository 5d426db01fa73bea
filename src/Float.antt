-- ===== src/Float.antt =====
-- Go's float64 as an IEEE 754 bit pattern, a number below 2 ^ 64, with the operations that the
-- engine applies to a NumberType (types/types.go, internal/engine/operations.go).
-- A finite double is a whole number of units of 2 ^ -1074, so every operation is done exactly on
-- numbers and rounded once, to nearest with ties to even. A NaN result is the quiet NaN; payloads
-- of NaNs, which no operation of the engine shows, are not kept.
pub mod Laws
use gescript.Base.{
  ℕ, zero, suc, ◌+◌, ◌-◌, ◌*◌, ◌/◌, ◌%◌, ◌^◌, Bool, true, false, not, ◌&&◌, ◌||◌, ltb, leb, ◌==◌,
  if◌then◌else◌,
}
use gescript.Word.{Word, is_neg, magnitude, neg_word}

abbrev pub Float : Type 0
Float = ℕ

abbrev pub sign_bit : ℕ
sign_bit = 2 ^ 63

abbrev pub infinity : Float
infinity = 2047 * 2 ^ 52

abbrev pub nan : Float
nan = 2047 * 2 ^ 52 + 2 ^ 51

abbrev pub sign_of : Float → Bool
sign_of a = leb sign_bit a

-- The pattern without its sign.
abbrev pub abs_bits : Float → ℕ
abs_bits a = a % 2 ^ 63

abbrev pub is_nan : Float → Bool
is_nan a = ltb infinity (abs_bits a)

abbrev pub is_inf : Float → Bool
is_inf a = abs_bits a == infinity

abbrev pub is_zero : Float → Bool
is_zero a = abs_bits a == 0

abbrev with_sign : Bool → ℕ → Float
with_sign s m = if s then sign_bit + m else m

-- The magnitude of a finite double, in units of 2 ^ -1074.
units : Float → ℕ
units a =
    let e = abs_bits a / 2 ^ 52 in
    let f = a % 2 ^ 52 in if e == 0 then f else (2 ^ 52 + f) * 2 ^ (e - 1)

-- The number of binary digits, by halving the range `k` times.
bit_length : ℕ → ℕ → ℕ
bit_length zero n = if n == 0 then 0 else 1
bit_length (suc k) n =
    let high = n / 2 ^ 2 ^ k in if high == 0 then bit_length k n else 2 ^ k + bit_length k high

-- The double nearest to n / d units, ties to even: the mantissa is cut at bit q, and a carry out
-- of it runs into the exponent.
round_units : ℕ → ℕ → ℕ
unfolding bit_length
round_units n d =
    let q = bit_length 13 (n / d) - 53 in
    let den = d * 2 ^ q in
    let m = n / den in
    let r = 2 * (n % den) in
    let up = ltb den r || (r == den && (m % 2 == 1)) in
    let bits = q * 2 ^ 52 + (if up then m + 1 else m) in
    if leb infinity bits then infinity else bits

-- -a
unfoldable pub neg_float : Float → Float
neg_float a = if sign_of a then a - sign_bit else a + sign_bit

-- The exact sum of two finite doubles. A zero sum is +0 unless both are -0.
add_finite : Bool → ℕ → Bool → ℕ → Float
unfolding round_units
add_finite true m true n = with_sign true (round_units (m + n) 1)
add_finite false m false n = round_units (m + n) 1
add_finite true m false n =
    if ltb n m then with_sign true (round_units (m - n) 1) else round_units (n - m) 1
add_finite false m true n =
    if ltb m n then with_sign true (round_units (n - m) 1) else round_units (m - n) 1

unfoldable pub add_float : Float → Float → Float
unfolding add_finite units
add_float a b =
    if is_nan a || is_nan b
    then nan
    else if is_inf a
    then (if is_inf b && not (a == b) then nan else a)
    else if is_inf b
    then b
    else add_finite (sign_of a) (units a) (sign_of b) (units b)

unfoldable pub sub_float : Float → Float → Float
unfolding add_float neg_float
sub_float a b = add_float a (neg_float b)

abbrev xor_sign : Float → Float → Bool
xor_sign a b = if sign_of a then not (sign_of b) else sign_of b

unfoldable pub mul_float : Float → Float → Float
unfolding round_units units
mul_float a b =
    let s = xor_sign a b in
    if is_nan a || is_nan b
    then nan
    else if is_inf a || is_inf b
    then (if is_zero a || is_zero b then nan else with_sign s infinity)
    else with_sign s (round_units (units a * units b) (2 ^ 1074))

unfoldable pub div_float : Float → Float → Float
unfolding round_units units
div_float a b =
    let s = xor_sign a b in
    if is_nan a || is_nan b
    then nan
    else if is_inf a
    then (if is_inf b then nan else with_sign s infinity)
    else if is_inf b
    then with_sign s 0
    else if is_zero b
    then (if is_zero a then nan else with_sign s infinity)
    else with_sign s (round_units (units a * 2 ^ 1074) (units b))

-- math.Mod: the sign of the dividend, and exact.
unfoldable pub mod_float : Float → Float → Float
unfolding round_units units
mod_float a b =
    if is_nan a || is_nan b || is_inf a || is_zero b
    then nan
    else if is_inf b
    then a
    else with_sign (sign_of a) (round_units (units a % units b) 1)

-- float64(i) of an int64
unfoldable pub of_word : Word → Float
unfolding round_units
of_word w = with_sign (is_neg w) (round_units (magnitude w * 2 ^ 1074) 1)

-- int64(f) cuts towards zero. Out of range Go leaves the result to the machine; this is amd64's.
unfoldable pub to_word : Float → Word
unfolding units
to_word a =
    let n = units a / 2 ^ 1074 in
    if is_nan a || is_inf a
    then 2 ^ 63
    else if leb (2 ^ 63) n
    then 2 ^ 63
    else if sign_of a
    then neg_word n
    else n

unfoldable pub eq_float : Float → Float → Bool
eq_float a b = if is_nan a || is_nan b then false else a == b || (is_zero a && is_zero b)

unfoldable pub lt_float : Float → Float → Bool
lt_float a b =
    if is_nan a || is_nan b || (is_zero a && is_zero b)
    then false
    else if sign_of a
    then (if sign_of b then ltb (abs_bits b) (abs_bits a) else true)
    else if sign_of b
    then false
    else ltb (abs_bits a) (abs_bits b)

unfoldable pub le_float : Float → Float → Bool
unfolding lt_float eq_float
le_float a b = lt_float a b || eq_float a b
