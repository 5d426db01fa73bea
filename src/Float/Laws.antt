-- ===== src/Float/Laws.antt =====
-- Order, equality and commutativity of doubles, and values computed by the operations.
use gescript.Base.{◌+◌, ◌-◌, ◌^◌, ◌≡◌, refl, true, false, not, ◌||◌, arith}
use gescript.Float.{
  Float, is_nan, infinity, add_float, mul_float, div_float, mod_float, of_word, to_word, eq_float,
  lt_float, le_float,
}

pub eq_float_comm : (a b : Float) → eq_float a b ≡ eq_float b a
unfolding eq_float
eq_float_comm a b = ground arith

pub eq_float_refl : (a : Float) → eq_float a a ≡ not (is_nan a)
unfolding eq_float
eq_float_refl a = ground arith

pub lt_float_asymm : (a b : Float) → lt_float a b ≡ true → lt_float b a ≡ false
unfolding lt_float
lt_float_asymm a b h = ground arith

pub le_float_split : (a b : Float) → le_float a b ≡ (lt_float a b || eq_float a b)
unfolding le_float
le_float_split a b = refl

-- 0.1 + 0.2 is 0.30000000000000004.
add_tenths : add_float 0x3fb9_9999_9999_999a 0x3fc9_9999_9999_999a ≡ 0x3fd3_3333_3333_3334
unfolding add_float
add_tenths = refl

div_third : div_float (of_word 1) (of_word 3) ≡ 0x3fd5_5555_5555_5555
unfolding div_float of_word
div_third = refl

mul_squares : mul_float 0x3fb9_9999_9999_999a 0x3fb9_9999_9999_999a ≡ 0x3f84_7ae1_47ae_147c
unfolding mul_float
mul_squares = refl

mod_runs : mod_float (of_word (2 ^ 64 - 7)) (of_word 3) ≡ of_word (2 ^ 64 - 1)
unfolding mod_float of_word
mod_runs = refl

word_rounds : to_word (of_word (2 ^ 53 + 1)) ≡ 2 ^ 53
unfolding to_word of_word
word_rounds = refl

overflows : mul_float 0x7fe0_0000_0000_0000 0x7fe0_0000_0000_0000 ≡ infinity
unfolding mul_float
overflows = refl
