-- ===== src/Engine/Process/Stack.antt =====
-- The array stack of a process with its doubling, seen as a list of values.
use gescript.Base.{
  ℕ, zero, suc, ◌<◌, ◌≤◌, ◌≡◌, ◌∙◌, refl, ap, List, [], ◌∷◌, ◌++◌, arith, leb, if◌then◌else◌,
  length, get_or, set, replicate, length-append, length-set, length-replicate, Bool-cases, inl, inr,
  gt→leb,
}
use gescript.Types.Value.{DataType, nil}
use gescript.Engine.Process.{
  Process, Outcome, M, ◌>>=◌, ok, fail, stack_underflow, grow, push, peek, pop,
}

-- The stack has slots, and sp is within them.
pub record IsStack (p : Process) : Type 0 where
  pub has_slots : 0 < length p.stack
  pub in_range : p.sp ≤ length p.stack

-- The first `n` slots, the last of them first.
abbrev pub top_first : ℕ → List DataType → List DataType
top_first zero xs = []
top_first (suc n) xs = get_or xs n nil ∷ top_first n xs

-- The values on the stack, the top first.
abbrev pub values : Process → List DataType
values p = top_first p.sp p.stack

-- `q` is `p` but for the stack.
abbrev pub SameButStack : Process → Process → Type 0
SameButStack p q = q ≡ record p { stack = q.stack; sp = q.sp }

-- The action returned, the values on the stack are `vs`, and nothing else has changed.
pub record Leaves {A : Type 0} (p : Process) (a : A) (vs : List DataType) (o : Outcome A)
    : Type 0 where
  pub after : Process
  pub returned : o ≡ ok a after
  pub left : values after ≡ vs
  pub is_stack : IsStack after
  pub rest : SameButStack p after

get_or-set_self :
    (xs : List DataType) (n : ℕ) (v d : DataType) → n < length xs → get_or (set xs n v) n d ≡ v
get_or-set_self [] n v d h = elim h [ ]
get_or-set_self (x ∷ xs) zero v d h = refl
get_or-set_self (x ∷ xs) (suc n) v d h = get_or-set_self xs n v d (omega arith)

get_or-set_lt :
    (xs : List DataType) (i n : ℕ) (v d : DataType)
    → i < n
    → get_or (set xs n v) i d ≡ get_or xs i d
get_or-set_lt [] i n v d h = refl
get_or-set_lt (x ∷ xs) i zero v d h = absurd (omega arith)
get_or-set_lt (x ∷ xs) zero (suc n) v d h = refl
get_or-set_lt (x ∷ xs) (suc i) (suc n) v d h = get_or-set_lt xs i n v d (omega arith)

get_or-append_lt :
    (xs ys : List DataType) (i : ℕ) (d : DataType)
    → i < length xs
    → get_or (xs ++ ys) i d ≡ get_or xs i d
get_or-append_lt [] ys i d h = elim h [ ]
get_or-append_lt (x ∷ xs) ys zero d h = refl
get_or-append_lt (x ∷ xs) ys (suc i) d h = get_or-append_lt xs ys i d (omega arith)

top_first-set :
    (m n : ℕ) (xs : List DataType) (v : DataType)
    → m ≤ n
    → top_first m (set xs n v) ≡ top_first m xs
top_first-set zero n xs v h = refl
top_first-set (suc m) n xs v h =
    cc (get_or-set_lt xs m n v nil h, top_first-set m n xs v (omega arith))

top_first-append :
    (m : ℕ) (xs ys : List DataType) → m ≤ length xs → top_first m (xs ++ ys) ≡ top_first m xs
top_first-append zero xs ys h = refl
top_first-append (suc m) xs ys h =
    cc (get_or-append_lt xs ys m nil h, top_first-append m xs ys (omega arith))

-- The slots that `push` writes to: those of the stack, or of its grown copy.
abbrev room : Process → List DataType
room p = if leb (length p.stack) p.sp then grow p.stack else p.stack

length-room : (p : Process) → IsStack p → p.sp < length (room p)
length-room p h = ground (
  arith,
  length-append p.stack (replicate (length p.stack) nil),
  length-replicate (length p.stack) nil,
)

top_first-room : (p : Process) → IsStack p → top_first p.sp (room p) ≡ values p
top_first-room p h = elim (Bool-cases (leb (length p.stack) p.sp)) [
  | inl full ↦ rw full (top_first-append p.sp p.stack (replicate (length p.stack) nil) h.in_range)
  | inr roomy ↦ rw roomy
]

-- A push on a stack with slots never panics: it returns, and the value is on top of the others.
pub push-Leaves : (v : DataType) (p : Process) → IsStack p → Leaves p tt (v ∷ values p) (push v p)
unfolding push
push-Leaves v p h =
    let fits = length-room p h in
    record {
      after = record p { stack = set (room p) p.sp v; sp = suc p.sp };
      returned = rw (gt→leb _ _ fits);
      left = cc (
        get_or-set_self (room p) p.sp v nil fits,
        top_first-set p.sp p.sp (room p) v (omega arith),
        top_first-room p h,
      );
      is_stack = record {
        has_slots = omega (arith, length-set (room p) p.sp v);
        in_range = omega (arith, length-set (room p) p.sp v);
      };
      rest = refl;
    }

pub top_first-eq-cons :
    (m : ℕ) (xs : List DataType) (v : DataType) (vs : List DataType)
    → top_first m xs ≡ v ∷ vs
    → (n : ℕ) × (m ≡ suc n) × (get_or xs n nil ≡ v) × (top_first n xs ≡ vs)
top_first-eq-cons zero xs v vs e = absurd (cc)
top_first-eq-cons (suc n) xs v vs e = (n, refl, cc, cc)

pub pop-suc :
    (n : ℕ) (p : Process) → p.sp ≡ suc n → pop p ≡ ok (get_or p.stack n nil) (record p { sp = n })
unfolding pop
pop-suc n p e = ground arith

peek-suc : (n : ℕ) (p : Process) → p.sp ≡ suc n → peek p ≡ ok (get_or p.stack n nil) p
unfolding peek
peek-suc n p e = ground arith

module _ (v : DataType) (vs : List DataType) (p : Process) (h : IsStack p)
    (e : values p ≡ v ∷ vs) where
  -- On a stack with a value, a pop returns it, leaves the values below it, and changes nothing
  -- else.
  pub pop-Leaves : Leaves p v vs (pop p)
  pop-Leaves =
      let (n, at, top, below) = top_first-eq-cons p.sp p.stack v vs e in
      record {
        after = record p { sp = n };
        returned = rw (pop-suc n p at, top);
        left = below;
        is_stack = record { has_slots = h.has_slots; in_range = omega (arith, h.in_range) };
        rest = refl;
      }

  -- A peek leaves it where it is.
  pub peek_top : peek p ≡ ok v p
  peek_top =
      let (n, at, top, below) = top_first-eq-cons p.sp p.stack v vs e in rw (peek-suc n p at, top)

top_first-eq-nil : (m : ℕ) (xs : List DataType) → top_first m xs ≡ [] → m ≡ zero
top_first-eq-nil zero xs e = refl
top_first-eq-nil (suc m) xs e = absurd (cc)

-- A pop or a peek of the empty stack is an underflow, and changes nothing.
pub pop_empty :
    (p : Process)
    → values p ≡ []
    → (pop p ≡ fail stack_underflow p) × (peek p ≡ fail stack_underflow p)
unfolding pop peek
pop_empty p e = let at = top_first-eq-nil p.sp p.stack e in ground arith

-- One action after another.
pub Leaves-bind :
    {A B : Type 0} (m : M A) (k : A → M B) {p : Process} {a : A} {b : B} {vs ws : List DataType}
    → Leaves p a vs (m p)
    → ((q : Process) → IsStack q → values q ≡ vs → SameButStack p q → Leaves q b ws (k a q))
    → Leaves p b ws ((m >>= k) p)
Leaves-bind m k {p} l next =
    let q = l.after in
    let r = next q l.is_stack l.left l.rest in
    record {
      after = r.after;
      returned = rw (l.returned) (r.returned);
      left = r.left;
      is_stack = r.is_stack;
      rest =
          r.rest ∙ ap (λ (x : Process). record x { stack = r.after.stack; sp = r.after.sp }) l.rest;
    }
