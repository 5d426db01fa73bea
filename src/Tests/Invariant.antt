-- ===== src/Tests/Invariant.antt =====
-- The invariant of the stack pointers at concrete inputs.
use gescript.Base.{[], ◌∷◌, arith, refl, true}
use gescript.Types.Value.{integer}
use gescript.Engine.Code.{OpCode}
use gescript.Engine.Process.{new_process}
use gescript.Engine.Process.Fits.{Keeps, Keeps-return_err}
use gescript.Engine.Exec.{exec_fn, run, exec, call_with_this}
use gescript.Engine.Exec.Kept.Calls.{HostKeeps}
use gescript.Engine.Exec.Kept.{exec_fn-Keeps, run-Fits, exec-Fits, call_with_this-Fits, RunFits}
use gescript.Tests.Sample.{plain_host, no_heap, body_of, fresh, with_stack}
use gescript.Tests.Programs.{adder}

plain_host-HostKeeps : HostKeeps plain_host
plain_host-HostKeeps = record { call_native = λ n args. search Keeps-return_err }

exec_fn-Keeps_example : Keeps (exec_fn plain_host (OpCode.return_op true))
exec_fn-Keeps_example = exec_fn-Keeps plain_host plain_host-HostKeeps (OpCode.return_op true)

run-Fits_example : RunFits (run plain_host 9 (with_stack (integer 1 ∷ []) 1))
unfolding new_process
run-Fits_example =
    run-Fits plain_host plain_host-HostKeeps 9 (with_stack (integer 1 ∷ []) 1) (record {
      has_slots = omega arith;
      in_range = omega arith;
      frames_fit = tt;
      contexts_fit = tt;
    })

exec-Fits_example :
    RunFits (exec plain_host 9 (body_of (OpCode.addition ∷ []) 0) (fresh (body_of [] 0) no_heap))
unfolding new_process
exec-Fits_example =
    exec-Fits plain_host plain_host-HostKeeps 9 (body_of (OpCode.addition ∷ []) 0)
      (fresh (body_of [] 0) no_heap) refl

call_with_this-Fits_example : RunFits (
    call_with_this plain_host 9 adder
      (integer 0)
      (integer 2 ∷ integer 3 ∷ [])
      (with_stack (integer 1 ∷ []) 1))
unfolding new_process
call_with_this-Fits_example =
    call_with_this-Fits plain_host plain_host-HostKeeps 9 adder (integer 0)
      (integer 2 ∷ integer 3 ∷ []) (with_stack (integer 1 ∷ []) 1)
      (record {
        has_slots = omega arith;
        in_range = omega arith;
        frames_fit = tt;
        contexts_fit = tt;
      })
