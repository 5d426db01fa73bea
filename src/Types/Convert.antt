-- ===== src/Types/Convert.antt =====
-- IsTruthy, ToString, ToNumber and ToInt of types/util.go.
use gescript.Base.{
  ℕ, zero, suc, ◌+◌, Bool, true, false, not, ◌||◌, Option, none, some, List, [], ◌∷◌, ◌++◌, Bytes,
  String, codes, join, ◌==◌, if◌then◌else◌, length, get_elem?,
}
use mathlib.Core.Option
use gescript.Word.{Word}
use gescript.Float.{Float, nan, is_nan, is_zero, is_inf, of_word, to_word}
use gescript.Decimal.{format_int}
use gescript.Types.Value.{
  DataType, nil, undefined, null, boolean, integer, number, string, array, object, script_function,
  native_function, native_method, native_constructor, bound_function,
}
use gescript.Engine.Heap.{Heap}

-- The parts of Go's libraries that are not modelled: strconv.FormatFloat(f, 'f', -1, 64),
-- strconv.ParseFloat(s, 64), where `none` is an error, and strings.TrimSpace.
pub record Strconv : Type 0 where
  pub format_float : Float → Bytes
  pub parse_float : Bytes → Option Float
  pub trim_space : Bytes → Bytes

unfoldable pub is_truthy : DataType → Bool
is_truthy undefined = false
is_truthy null = false
is_truthy (boolean b) = b
is_truthy (integer i) = not (i == 0)
is_truthy (number f) = not (is_zero f || is_nan f)
is_truthy (string []) = false
is_truthy (string (c ∷ s)) = true
is_truthy _ = true

-- All results, or none.
unfoldable pub traverse {ℓ κ} :
    {A : Type ℓ} {B : Type κ} → (A → Option B) → List A → Option (List B)
traverse f [] = some []
traverse f (a ∷ as') = elim (f a) [
  | none ↦ none
  | some b ↦ elim (traverse f as') [ none ↦ none | some bs ↦ some (b ∷ bs) ]
]

-- GetName() of a function value; a bound function asks its target.
get_name : Heap → ℕ → DataType → Option Bytes
get_name h zero v = none
get_name h (suc k) (script_function r) = Option.map (λ f. f.name) (get_elem? h.functions r)
get_name h (suc k) (native_function r) = Option.map (λ f. f.name) (get_elem? h.natives r)
get_name h (suc k) (native_method r) = Option.map (λ m. m.method.name) (get_elem? h.methods r)
get_name h (suc k) (native_constructor r) = Option.map (λ c. c.name) (get_elem? h.constructors r)
get_name h (suc k) (bound_function r) = elim (get_elem? h.bounds r) [
  | none ↦ none
  | some b ↦ Option.map (λ n. codes "bound " ++ n) (get_name h k b.target)
]
get_name h (suc k) v = none

-- ToPrimitive of a function value: its text, by its kind and its name.
function_text : Bytes → String → Bytes
function_text name kind = codes "function " ++ (name ++ codes kind)

-- ToString(val). The first number bounds the nesting; `none` is a recursion that does not end, as
-- that through an array which holds itself.
unfoldable pub to_string : Strconv → Heap → ℕ → DataType → Option Bytes
unfolding get_name function_text traverse
to_string c h zero v = none
to_string c h (suc k) nil = some (codes "undefined")
to_string c h (suc k) undefined = some (codes "undefined")
to_string c h (suc k) null = some (codes "null")
to_string c h (suc k) (boolean b) = some (if b then codes "true" else codes "false")
to_string c h (suc k) (integer i) = some (format_int i)
to_string c h (suc k) (number f) = some (c.format_float f)
to_string c h (suc k) (string s) = some s
to_string c h (suc k) (array r) = elim (get_elem? h.arrays r) [
  | none ↦ none
  | some elements ↦ Option.map (join (codes ",")) (traverse (to_string c h k) elements)
]
to_string c h (suc k) (object r) = some (codes "[object Object]")
to_string c h (suc k) (script_function r) =
    Option.map (λ n. function_text n "() { [script code] }")
      (get_name h (suc k) (script_function r))
to_string c h (suc k) (native_method r) =
    Option.map (λ n. function_text n "() { [bound] }") (get_name h (suc k) (native_method r))
to_string c h (suc k) (native_function r) =
    Option.map (λ n. function_text n "() { [native code] }")
      (get_name h (suc k) (native_function r))
to_string c h (suc k) (native_constructor r) =
    Option.map (λ n. function_text n "() { [native code] }")
      (get_name h (suc k) (native_constructor r))
to_string c h (suc k) (bound_function r) =
    Option.map (λ n. function_text n "() { [bound] }") (get_name h (suc k) (bound_function r))

-- Arrays and bound functions nest at most as deep as there are of them, but in a cycle.
unfoldable pub nesting : Heap → ℕ
nesting h = length h.arrays + length h.bounds + 2

-- ToNumber(val)
unfoldable pub to_number : Strconv → DataType → Float
to_number c null = 0
to_number c (boolean b) = if b then of_word 1 else 0
to_number c (integer i) = of_word i
to_number c (number f) = f
to_number c (string s) = elim (c.trim_space s) [
  | [] ↦ 0
  | b ∷ t ↦ elim (c.parse_float (b ∷ t)) [ none ↦ nan | some f ↦ f ]
]
to_number c _ = nan

-- ToInt(val)
unfoldable pub to_int : Strconv → DataType → Word
unfolding to_number
to_int c v = let f = to_number c v in if is_nan f || is_inf f then 0 else to_word f
