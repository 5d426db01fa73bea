-- ===== src/Tests/Captures.antt =====
-- The captures of closures at concrete inputs.
use gescript.Base.{◌≡◌, refl, none, some, [], ◌∷◌, codes, inl, inr}
use gescript.Parser.Scope.{find_variable, resolve_variable}
use gescript.Parser.Captures.{
  OuterScope, Captures, find_capture, captured_by, resolve_loop, capture_at, add_capture,
  resolve_capture,
}
use gescript.Parser.Captures.Cells.{lexical, Resolves}
use gescript.Parser.Captures.Sound.{resolve_capture-Resolves}
use gescript.Parser.Captures.Again.{resolve_capture-again}
use gescript.Parser.Captures.Nested.{CaptureDenotes, resolve_capture-skips}
use gescript.Tests.Scope.{outer_block, a_var}

-- The program declares `a`.
abbrev pub program : OuterScope
program = record { block = outer_block ∷ []; captures = none }

abbrev pub a_function : OuterScope
a_function = record { block = []; captures = some [] }

abbrev pub in_two : Captures
in_two = record { entries = []; outers = a_function ∷ program ∷ [] }

abbrev in_three : Captures
in_three = record { entries = []; outers = a_function ∷ a_function ∷ program ∷ [] }

resolve_capture-Resolves_example : Resolves (codes "a") in_two (resolve_capture (codes "a") in_two)
unfolding resolve_variable find_variable
resolve_capture-Resolves_example =
    resolve_capture-Resolves (codes "a") in_two (tt, (tt, (refl, tt))) (inr (inl (inl (_, refl))))

resolve_capture-again_example :
    resolve_capture (codes "a") (resolve_capture (codes "a") in_two).1
    ≡ (some 0, (resolve_capture (codes "a") in_two).1)
unfolding resolve_capture find_capture resolve_loop resolve_variable captured_by find_variable
    capture_at add_capture
resolve_capture-again_example =
    resolve_capture-again (codes "a") in_two (resolve_capture (codes "a") in_two).1 0 refl

resolve_capture-skips_example :
    (lexical in_three.outers (codes "a") ≡ some (0, 0))
    × CaptureDenotes (resolve_capture (codes "a") in_three) (some (1, 0))
unfolding resolve_variable find_variable captured_by find_capture
resolve_capture-skips_example =
    resolve_capture-skips (codes "a") [] [] a_function a_function program [] a_var refl refl
      (refl, refl) (refl, refl) refl
