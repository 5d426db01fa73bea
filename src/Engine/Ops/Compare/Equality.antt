-- ===== src/Engine/Ops/Compare/Equality.antt =====
-- The two equalities against each other and against their negations.
use gescript.Base.{◌≡◌, refl, Bool, true, false, not, arith, str_eq_comm}
use gescript.Float.{of_word}
use gescript.Float.Laws.{eq_float_comm}
use gescript.Types.Value.{DataType, undefined, null, boolean, integer, number, string}
use gescript.Types.Equality.{strict_equals}
use gescript.Engine.Ops.Compare.{loose_equal, loose_not_equal}

-- `a != b` is the negation of `a == b`, on all values.
pub loose_not_equal-eq-not : (a b : DataType) → loose_not_equal a b ≡ not (loose_equal a b)
unfolding loose_not_equal loose_equal
loose_not_equal-eq-not undefined undefined = refl
loose_not_equal-eq-not a b = ground arith

-- Values that are no references.
abbrev pub is_primitive : DataType → Bool
is_primitive undefined = true
is_primitive null = true
is_primitive (boolean b) = true
is_primitive (integer i) = true
is_primitive (number f) = true
is_primitive (string s) = true
is_primitive _ = false

-- Of two strictly equal values, `==` finds them equal exactly if the first is primitive: an
-- array, an object or a function is not even `==` to itself.
pub loose_equal_of_strict :
    (a b : DataType) → strict_equals a b ≡ true → loose_equal a b ≡ is_primitive a
unfolding strict_equals loose_equal
loose_equal_of_strict undefined b h = ground arith
loose_equal_of_strict a b h = ground arith

-- `==` is symmetric.
pub loose_equal_comm : (a b : DataType) → loose_equal a b ≡ loose_equal b a
unfolding loose_equal
loose_equal_comm (integer a) (number b) = eq_float_comm (of_word a) b
loose_equal_comm (number a) (integer b) = eq_float_comm a (of_word b)
loose_equal_comm (number a) (number b) = eq_float_comm a b
loose_equal_comm (string a) (string b) = str_eq_comm a b
loose_equal_comm (boolean true) (boolean b) = ground arith
loose_equal_comm a b = ground arith
