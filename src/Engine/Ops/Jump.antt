-- ===== src/Engine/Ops/Jump.antt =====
-- The jumps. The loop adds one to pc after each operation, so a jump stores one less.
use gescript.Base.{not, if◌then◌else◌}
use gescript.Word.{Word, sub_word}
use gescript.Types.Convert.{is_truthy}
use gescript.Engine.Process.{M, pure, modify, ignore_err, ◌>>=◌, peek, pop, push}

-- prc.pc = target - 1
unfoldable pub jump_to : Word → M (Unit {0})
jump_to target = modify λ p. record p { pc = sub_word target 1 }

unfoldable pub jump_operation : Word → M (Unit {0})
jump_operation target = jump_to target

unfoldable pub jump_if_false_operation : Word → M (Unit {0})
jump_if_false_operation target = do
  val ← pop
  if not (is_truthy val) then jump_to target else pure tt

unfoldable pub jump_if_false_or_pop_operation : Word → M (Unit {0})
jump_if_false_or_pop_operation target = do
  val ← peek
  if not (is_truthy val) then jump_to target else ignore_err pop

unfoldable pub jump_if_true_operation : Word → M (Unit {0})
jump_if_true_operation target = do val ← pop; if is_truthy val then jump_to target else pure tt

unfoldable pub jump_if_true_or_pop_operation : Word → M (Unit {0})
jump_if_true_or_pop_operation target = do
  val ← peek
  if is_truthy val then jump_to target else ignore_err pop

unfoldable pub pop_operation : M (Unit {0})
pop_operation = do val ← pop; pure tt

unfoldable pub dup_operation : M (Unit {0})
dup_operation = do val ← peek; push val
