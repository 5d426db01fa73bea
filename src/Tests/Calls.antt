-- ===== src/Tests/Calls.antt =====
-- The entry of a script function at a concrete input.
use gescript.Base.{[], ◌∷◌, ◌≡◌, refl, arith}
use gescript.Types.Value.{integer, script_function}
use gescript.Engine.Code.{plain}
use gescript.Engine.Process.{Process, ok}
use gescript.Engine.Process.Stack.{IsStack, values, SameButStack}
use gescript.Engine.Ops.Call.{call_operation}
use gescript.Engine.Ops.Call.Entry.{entered, call-enters}
use gescript.Tests.Sample.{plain_host, no_heap, with_stack}
use gescript.Tests.Programs.{adder}

-- f(2, 3) with a value below on the stack
abbrev calling : Process
calling = record (with_stack (integer 9 ∷ script_function 0 ∷ integer 2 ∷ integer 3 ∷ []) 4) {
  heap = record no_heap { functions = adder ∷ [] };
}

call-enters_example :
    (c : Process) × SameButStack calling c
    × IsStack c
    × (values c ≡ integer 9 ∷ [])
    × (call_operation plain_host (plain 2) calling
        ≡ ok tt (entered adder (integer 2 ∷ integer 3 ∷ []) c))
call-enters_example =
    call-enters plain_host adder 0 calling
      (record { has_slots = omega arith; in_range = omega arith }) refl
      (record { no_rest = refl; no_arguments = refl; no_this = refl; has_room = omega arith })
      (integer 3 ∷ integer 2 ∷ []) (integer 9 ∷ []) refl
