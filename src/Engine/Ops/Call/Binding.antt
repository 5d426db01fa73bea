-- ===== src/Engine/Ops/Call/Binding.antt =====
-- Which argument each parameter gets.
use gescript.Base.{
  ℕ, zero, suc, ◌≤◌, ◌≡◌, refl, ap, some, List, [], ◌∷◌, ◌++◌, arith, length, take, drop,
}
use mathlib.Core.Option
use gescript.Types.Value.{DataType}
use gescript.Engine.Ops.Call.{store_prefix}

-- The first `n` arguments, and the locals as they were where arguments are missing.
abbrev pub bound : ℕ → List DataType → List DataType → List DataType
bound n locals args = take n args ++ drop (length (take n args)) locals

-- Where the locals have a slot for each of `n` parameters, no write panics, a parameter with an
-- argument has it, and every other local is as it was.
pub store_prefix-bound :
    (n : ℕ) (locals args : List DataType)
    → n ≤ length locals
    → store_prefix n locals args ≡ some (bound n locals args)
unfolding store_prefix
store_prefix-bound zero locals args h = refl
store_prefix-bound (suc n) locals [] h = refl
store_prefix-bound (suc n) [] (a ∷ args) h = absurd (omega arith)
store_prefix-bound (suc n) (l ∷ locals) (a ∷ args) h =
    ap (Option.map (λ ls. a ∷ ls)) (store_prefix-bound n locals args (omega arith))
