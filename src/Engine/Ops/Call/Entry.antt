-- ===== src/Engine/Ops/Call/Entry.antt =====
-- How a script function is entered.
use gescript.Base.{
  ℕ, suc, ◌+◌, ◌≤◌, ◌≡◌, ◌∙◌, refl, ap, true, false, some, List, [], ◌∷◌, ◌++◌, arith, length,
  reverse, get_elem?, replicate, length-replicate,
}
use mathlib.Core.Path.{subst, sym}
use mathlib.Core.List.{reverse-cons, append_assoc, append-nil}
use gescript.Word.{minus_one, is_neg}
use gescript.Types.Value.{DataType, undefined, script_function, Ref}
use gescript.Engine.Code.{ScriptFunction, plain}
use gescript.Engine.Heap.{Heap}
use gescript.Engine.Host.{Host}
use gescript.Engine.Process.{Process, ok, pop}
use gescript.Engine.Process.Stack.{IsStack, values, Leaves, Leaves-bind, pop-Leaves, SameButStack}
use gescript.Engine.Ops.Literal.{pop_values, extract_values}
use gescript.Engine.Ops.Call.{
  store_params, bind_arguments, bind_function_params, frame_of, enter_function, setup_script_call,
  found, call_function, call_function_with_this, call_operation,
}
use gescript.Engine.Ops.Call.Binding.{bound, store_prefix-bound}

-- The list that the loop builds of the values as it pops them.
reverse_onto : List DataType → List DataType → List DataType
reverse_onto [] acc = acc
reverse_onto (v ∷ vs) acc = reverse_onto vs (v ∷ acc)

reverse_onto-eq-append : (vs acc : List DataType) → reverse_onto vs acc ≡ reverse vs ++ acc
unfolding reverse_onto
reverse_onto-eq-append [] acc = refl
reverse_onto-eq-append (v ∷ vs) acc =
    rw reverse-cons
      (reverse_onto-eq-append vs (v ∷ acc) ∙ sym (append_assoc (reverse vs) (v ∷ []) acc))

pop_values-onto :
    (vs rest acc : List DataType) (p : Process)
    → IsStack p
    → values p ≡ vs ++ rest
    → Leaves p (reverse_onto vs acc) rest (pop_values (length vs) acc p)
unfolding reverse_onto pop_values
pop_values-onto [] rest acc p h e = record {
  after = p;
  returned = refl;
  left = e;
  is_stack = h;
  rest = refl;
}
pop_values-onto (v ∷ vs) rest acc p h e =
    Leaves-bind pop (λ w. pop_values (length vs) (w ∷ acc)) (pop-Leaves v (vs ++ rest) p h e)
      λ q hq eq _. pop_values-onto vs rest (v ∷ acc) q hq eq

-- The arguments come off the stack in the order in which they were pushed.
pub extract_values-Leaves :
    (vs rest : List DataType) (p : Process)
    → IsStack p
    → values p ≡ vs ++ rest
    → Leaves p (reverse vs) rest (extract_values (plain (length vs)) p)
unfolding extract_values
extract_values-Leaves vs rest p h e =
    subst (λ us. Leaves p us rest (pop_values (length vs) [] p))
      (reverse_onto-eq-append vs [] ∙ append-nil (reverse vs)) (pop_values-onto vs rest [] p h e)

-- Each parameter is a local slot with its argument: no rest parameter, and no slot for `arguments`
-- or for `this`.
pub record IsPlain (fn : ScriptFunction) : Type 0 where
  pub no_rest : fn.has_rest_param ≡ false
  pub no_arguments : is_neg fn.arguments_slot ≡ true
  pub no_this : is_neg fn.this_slot ≡ true
  pub has_room : length fn.param_names ≤ fn.body.var_count

-- The process at the start of the function, called from `c`.
abbrev pub entered : ScriptFunction → List DataType → Process → Process
entered fn args c = record c {
  call_stack = frame_of c ∷ c.call_stack;
  body = fn.body;
  pc = minus_one;
  closure = fn.closure;
  cells = [];
  locals = bound (length fn.param_names) (replicate fn.body.var_count undefined) args;
}

store_params-bound :
    (n : ℕ) (args : List DataType) (p : Process)
    → n ≤ length p.locals
    → store_params n args p ≡ ok tt (record p { locals = bound n p.locals args })
unfolding store_params
store_params-bound n args p room = rw (store_prefix-bound n p.locals args room, store_params) refl

bind_arguments-plain :
    (fn : ScriptFunction) (args : List DataType) (p : Process)
    → fn.has_rest_param ≡ false
    → length fn.param_names ≤ length p.locals
    → bind_arguments fn args p
      ≡ ok tt (record p { locals = bound (length fn.param_names) p.locals args })
unfolding bind_arguments
bind_arguments-plain fn args p n room =
    rw n (store_params-bound (length fn.param_names) args p room)

setup_script_call-plain :
    (fn : ScriptFunction) (this_val : DataType) (args : List DataType) (c : Process)
    → IsPlain fn
    → setup_script_call fn this_val args c ≡ ok tt (entered fn args c)
unfolding setup_script_call bind_function_params enter_function
setup_script_call-plain fn this_val args c i =
    rw
      (
        bind_arguments-plain fn args (enter_function fn c) i.no_rest
            (omega (arith, i.has_room, length-replicate fn.body.var_count undefined)),
        i.no_arguments,
        i.no_this,
      )
      refl

add_one : (n : ℕ) → n + 1 ≡ suc n
add_one n = omega arith

module _ (host : Host) (fn : ScriptFunction) (r : Ref) (p : Process) (h : IsStack p)
    (known : get_elem? p.heap.functions r ≡ some fn) (plain_params : IsPlain fn) where
  call-eq-setup :
      (this_val : DataType) (args : List DataType) (c : Process)
      → c.heap ≡ p.heap
      → call_function_with_this host (script_function r) this_val args c
        ≡ setup_script_call fn this_val args c
  unfolding call_function_with_this call_function found
  call-eq-setup this_val args c same =
      ap (λ k. call_function host k (script_function r) this_val args c)
        (add_one (length c.heap.bounds))
      ∙ ap (λ o. found o (λ f. setup_script_call f this_val args) c)
          (ap (λ (x : Heap). get_elem? x.functions r) same ∙ known)

  -- A call with the function and then its arguments on the stack takes them off, and enters the
  -- function: each parameter with an argument has it, every other local is undefined, and the new
  -- frame keeps the caller's state with the stack below the function.
  pub call-enters :
      (vs rest : List DataType)
      → values p ≡ vs ++ script_function r ∷ rest
      → (c : Process) × SameButStack p c
        × IsStack c
        × (values c ≡ rest)
        × (call_operation host (plain (length vs)) p ≡ ok tt (entered fn (reverse vs) c))
  unfolding call_operation
  call-enters vs rest e =
      let l = extract_values-Leaves vs (script_function r ∷ rest) p h e in
      let m = pop-Leaves (script_function r) rest l.after l.is_stack l.left in
      let same : SameButStack p m.after =
        m.rest ∙ ap (λ (x : Process). record x { stack = m.after.stack; sp = m.after.sp }) l.rest in
      (
        m.after,
        same,
        m.is_stack,
        m.left,
        rw (l.returned, m.returned)
            (call-eq-setup undefined (reverse vs) m.after (ap (λ (x : Process). x.heap) same)
              ∙ setup_script_call-plain fn undefined (reverse vs) m.after plain_params),
      )
