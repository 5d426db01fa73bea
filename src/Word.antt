-- ===== src/Word.antt =====
-- Go's int, int64 and int32 as the engine uses them (types/types.go, internal/engine/operations.go).
-- A value is its two's complement bit pattern, a number below 2 ^ 64; an int is 64 bits wide.
pub mod Laws
use Prim.Native.Nat.{bit_and, bit_or, bit_xor}
use gescript.Base.{ℕ, ◌+◌, ◌-◌, ◌*◌, ◌/◌, ◌%◌, ◌^◌, Bool, ltb, leb, if◌then◌else◌}

abbrev pub Word : Type 0
Word = ℕ

-- -1
abbrev pub minus_one : Word
minus_one = 2 ^ 64 - 1

abbrev pub is_neg : Word → Bool
is_neg a = leb (2 ^ 63) a

-- The distance from zero.
abbrev pub magnitude : Word → ℕ
magnitude a = if is_neg a then 2 ^ 64 - a else a

unfoldable pub add_word : Word → Word → Word
add_word a b = (a + b) % 2 ^ 64

unfoldable pub sub_word : Word → Word → Word
sub_word a b = (a + 2 ^ 64 - b) % 2 ^ 64

unfoldable pub mul_word : Word → Word → Word
mul_word a b = a * b % 2 ^ 64

unfoldable pub neg_word : Word → Word
neg_word a = (2 ^ 64 - a) % 2 ^ 64

-- `%` of Go: the sign of the dividend.
unfoldable pub rem_word : Word → Word → Word
rem_word a b = let r = magnitude a % magnitude b in if is_neg a then neg_word r else r

-- `<` on signed words.
unfoldable pub lt_word : Word → Word → Bool
lt_word a b = ltb ((a + 2 ^ 63) % 2 ^ 64) ((b + 2 ^ 63) % 2 ^ 64)

-- uint32(a), and an int32 pattern as an int64.
abbrev pub low32 : Word → ℕ
low32 a = a % 2 ^ 32

abbrev pub sign_extend32 : ℕ → Word
sign_extend32 x = if leb (2 ^ 31) x then x + (2 ^ 64 - 2 ^ 32) else x

-- uint32(rval) & 0x1F
abbrev pub shift_amount : Word → ℕ
shift_amount b = low32 b % 32

-- int32(lval) << n, int32(lval) >> n and uint32(lval) >> n, widened to int64.
unfoldable pub shl32 : Word → Word → Word
shl32 a b = sign_extend32 (low32 a * 2 ^ shift_amount b % 2 ^ 32)

unfoldable pub sar32 : Word → Word → Word
sar32 a b =
    let n = shift_amount b in
    let x = low32 a in
    if leb (2 ^ 31) x then sign_extend32 (x / 2 ^ n + (2 ^ 32 - 2 ^ (32 - n))) else x / 2 ^ n

unfoldable pub shr32 : Word → Word → Word
shr32 a b = low32 a / 2 ^ shift_amount b

-- ^int32(a)
unfoldable pub not32 : Word → Word
not32 a = sign_extend32 (2 ^ 32 - 1 - low32 a)

unfoldable pub and_word : Word → Word → Word
and_word a b = bit_and a b

unfoldable pub or_word : Word → Word → Word
or_word a b = bit_or a b

unfoldable pub xor_word : Word → Word → Word
xor_word a b = bit_xor a b
