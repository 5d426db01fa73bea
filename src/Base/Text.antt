-- ===== src/Base/Text.antt =====
-- Texts as lists of bytes. The constants of the program are ASCII, so their code points are bytes.
use Prim.Native.Char.{code}
use Prim.Native.String.{String}
use Prim.Native.Nat.{ℕ}
use mathlib.Core.Path.{◌≡◌, refl}
use mathlib.Core.Logic.{◌↔◌}
use mathlib.Core.Bool.{Bool, true, false, ◌&&◌}
use mathlib.Core.List.{List, [], ◌∷◌, ◌++◌}
use native.Mathlib.Omega.{arith}
use gescript.Base.Tests.{ltb, ◌==◌, if◌then◌else◌}

abbrev pub Bytes : Type 0
Bytes = List ℕ

abbrev pub codes : String → Bytes
codes String.[] = []
codes (String.◌∷◌ c s) = code c ∷ codes s

-- Go's `==` on strings.
abbrev pub str_eq : Bytes → Bytes → Bool
str_eq [] [] = true
str_eq [] (c ∷ t) = false
str_eq (b ∷ s) [] = false
str_eq (b ∷ s) (c ∷ t) = b == c && str_eq s t

-- Go's `<` on strings: by bytes, a proper prefix first.
abbrev pub str_lt : Bytes → Bytes → Bool
str_lt s [] = false
str_lt [] (c ∷ t) = true
str_lt (b ∷ s) (c ∷ t) = let rest = str_lt s t in if b == c then rest else ltb b c

pub str_eq_refl : (s : Bytes) → str_eq s s ≡ true
str_eq_refl [] = refl
str_eq_refl (b ∷ s) = ground (arith, str_eq_refl s)

pub eq_of_str_eq : (s t : Bytes) → str_eq s t ≡ true → s ≡ t
eq_of_str_eq [] [] h = refl
eq_of_str_eq [] (c ∷ t) h = ground arith
eq_of_str_eq (b ∷ s) [] h = ground arith
eq_of_str_eq (b ∷ s) (c ∷ t) h = ground (arith, eq_of_str_eq s t)

pub str_eq_iff : (s t : Bytes) → (str_eq s t ≡ true) ↔ (s ≡ t)
str_eq_iff s t = (eq_of_str_eq s t, λ e. ground (arith, str_eq_refl s))

pub str_eq_comm : (s t : Bytes) → str_eq s t ≡ str_eq t s
str_eq_comm [] [] = refl
str_eq_comm [] (c ∷ t) = refl
str_eq_comm (b ∷ s) [] = refl
str_eq_comm (b ∷ s) (c ∷ t) = ground (arith, str_eq_comm s t)

-- strings.Join
abbrev pub join : Bytes → List Bytes → Bytes
join sep [] = []
join sep (s ∷ []) = s
join sep (s ∷ (t ∷ rest)) = s ++ (sep ++ join sep (t ∷ rest))
