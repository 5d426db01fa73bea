-- ===== src/Engine/Exec/Returns.antt =====
-- What a return gives back to the caller: a frame of the script, or that of a native function.
use gescript.Base.{◌<◌, ◌≤◌, ◌≡◌, ◌∙◌, refl, ap, none, List, ◌∷◌, length}
use gescript.Word.{minus_one, add_word}
use gescript.Types.Value.{DataType}
use gescript.Engine.Process.{Process, CallFrame, ok, push}
use gescript.Engine.Process.Stack.{values, top_first, Leaves, push-Leaves}
use gescript.Engine.Exec.{after_op, advance}
use gescript.Engine.Ops.Call.{leave_with, leave_by, leave_to, frame_of}

restart : add_word minus_one 1 ≡ 0
unfolding add_word
restart = refl

-- `q` is a process in a function that was called from `p`, by the script or by a native function.
module _ (p q : Process) (outer : List CallFrame) (slots : 0 < length q.stack)
    (room : p.sp ≤ length q.stack) where
  -- The process with all that the frame of `p` keeps of `p`.
  abbrev pub caller_state : Process
  caller_state = record q {
    body = p.body;
    pc = p.pc;
    sp = p.sp;
    locals = p.locals;
    cells = p.cells;
    closure = p.closure;
    call_stack = outer;
  }

  leave_with_frame :
      (frame : CallFrame) (v : DataType)
      → q.call_stack ≡ frame ∷ outer
      → leave_with v q ≡ push v (leave_to frame outer q)
  unfolding leave_with leave_by
  leave_with_frame frame v e = ap (λ frames. leave_by frames v q) e

  -- A return gives the caller back its code, its place in it, its locals, cells and closure, and
  -- the stack as deep as it was, with the value on top.
  pub return-restores :
      (v : DataType)
      → q.call_stack ≡ frame_of p ∷ outer
      → Leaves caller_state tt (v ∷ top_first p.sp q.stack) (leave_with v q)
  unfolding leave_to
  return-restores v e =
      rw (leave_with_frame (frame_of p) v e)
        (push-Leaves v caller_state (record { has_slots = slots; in_range = room }))

  -- The frame of a native caller gives back the locals, the cells, the closure and the stack, but
  -- neither the code nor the place: with the loop's `pc++` the function that has returned starts
  -- again at its first operation, over the locals of its caller.
  pub return_native-restarts :
      (v : DataType)
      → q.call_stack ≡ record (frame_of p) { body = none; pc = 0 } ∷ outer
      → (r : Process) × (after_op (leave_with v q) ≡ ok tt r)
        × (r.pc ≡ 0)
        × (r.body ≡ q.body)
        × (r.locals ≡ p.locals)
        × (values r ≡ v ∷ top_first p.sp q.stack)
  unfolding leave_to after_op
  return_native-restarts v e =
      let l =
        push-Leaves v (record caller_state { body = q.body; pc = minus_one })
          (record { has_slots = slots; in_range = room }) in
      (
        advance l.after,
        rw (leave_with_frame (record (frame_of p) { body = none; pc = 0 }) v e, l.returned),
        ap (λ (x : Process). add_word x.pc 1) l.rest ∙ restart,
        ap (λ (x : Process). x.body) l.rest,
        ap (λ (x : Process). x.locals) l.rest,
        l.left,
      )
