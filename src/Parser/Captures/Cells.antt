-- ===== src/Parser/Captures/Cells.antt =====
-- The variable that a capture leads to.
use gescript.Base.{
  ℕ, zero, suc, ◌≡◌, ◌∙◌, refl, sym, ap, Bool, true, false, Option, none, some, List, [], ◌∷◌, ◌++◌,
  Bytes, str_eq, if◌then◌else◌, length, get_elem?, arith, Option-cases, inl, inr, ◌⊎◌, eq_of_str_eq,
}
use mathlib.Core.Path.{subst}
use mathlib.Core.Option.{some-injective}
use gescript.Parser.Scope.{resolve_variable}
use gescript.Parser.Captures.{CaptureEntry, OuterScope, find_capture, Captures}

-- A variable of an outer function: how many functions are around it, and its slot there.
abbrev pub OuterSlot : Type 0
OuterSlot = ℕ × ℕ

-- The variable that the name has by the nesting of the functions.
unfoldable pub lexical : List OuterScope → Bytes → Option OuterSlot
lexical [] name = none
lexical (outer ∷ outers) name =
    let further = lexical outers name in
    elim (resolve_variable outer.block name) [
      | some v ↦ some (length outers, v.slot_index)
      | none ↦ further
    ]

-- The variable that the engine gives a closure for a capture: that of the frame around, or what is
-- at its place in the captures of the frame around.
unfoldable pub denotes : List OuterScope → Bool → Option ℕ → Option OuterSlot
denotes outers is_capture none = none
denotes [] is_capture (some slot) = none
denotes (outer ∷ outers) false (some slot) = some (length outers, slot)
denotes (outer ∷ outers) true (some i) = elim outer.captures [
  | none ↦ none
  | some es ↦ elim (get_elem? es i) [
    | none ↦ none
    | some e ↦ denotes outers e.is_capture e.slot_index
  ]
]

-- The capture leads to the variable that its name has.
abbrev pub LeadsTo : List OuterScope → CaptureEntry → Type 0
LeadsTo outers e =
    (cell : OuterSlot) × (denotes outers e.is_capture e.slot_index ≡ some cell)
    × (lexical outers e.name ≡ some cell)

abbrev pub IsSound : List OuterScope → List CaptureEntry → Type 0
IsSound outers [] = Unit
IsSound outers (e ∷ es) = LeadsTo outers e × IsSound outers es

-- The captures of an outer function, which only the program has none of.
abbrev pub IsSoundScope : List OuterScope → Option (List CaptureEntry) → Type 0
IsSoundScope outers none = outers ≡ []
IsSoundScope outers (some es) = IsSound outers es

abbrev pub AreSound : List OuterScope → Type 0
AreSound [] = Unit
AreSound (outer ∷ outers) = IsSoundScope outers outer.captures × AreSound outers

-- Every capture of the function and of those around it leads to the variable of its name.
abbrev pub IsSoundState : Captures → Type 0
IsSoundState c = IsSound c.outers c.entries × AreSound c.outers

-- What a reference to a name comes to: no capture where there is no such variable; else a capture
-- of that name, which leads to it.
abbrev pub Resolves : Bytes → Captures → Option ℕ × Captures → Type 0
Resolves name c (none, after) = (lexical c.outers name ≡ none) × (after ≡ c)
Resolves name c (some i, after) =
    (e : CaptureEntry) × (get_elem? after.entries i ≡ some e)
    × (e.name ≡ name)
    × (cell : OuterSlot) × (denotes after.outers e.is_capture e.slot_index ≡ some cell)
    × (lexical c.outers name ≡ some cell)
    × IsSoundState after

get_elem?-append_some {ℓ} :
    {A : Type ℓ} (xs ys : List A) (i : ℕ) (v : A)
    → get_elem? xs i ≡ some v
    → get_elem? (xs ++ ys) i ≡ some v
get_elem?-append_some [] ys i v h = absurd (grind arith)
get_elem?-append_some (x ∷ xs) ys zero v h = h
get_elem?-append_some (x ∷ xs) ys (suc i) v h = get_elem?-append_some xs ys i v h

first-some :
    (b : Bool) (o : Option ℕ) (i : ℕ)
    → if◌then◌else◌ {A = Option ℕ} b (some 0) (elim o [ none ↦ none | some j ↦ some (suc j) ])
      ≡ some i
    → ((b ≡ true) × (i ≡ 0)) ⊎ ((j : ℕ) × (o ≡ some j) × (i ≡ suc j))
first-some true o i h = inl (refl, sym (some-injective 0 i h))
first-some false none i h = absurd (grind arith)
first-some false (some j) i h = inr (j, refl, sym (some-injective (suc j) i h))

pub find_capture-some :
    (name : Bytes) (es : List CaptureEntry) (i : ℕ)
    → find_capture name es ≡ some i
    → (e : CaptureEntry) × (get_elem? es i ≡ some e) × (e.name ≡ name)
unfolding find_capture
find_capture-some name [] i h = absurd (grind arith)
find_capture-some name (e ∷ es) i h =
    elim (first-some (str_eq e.name name) (find_capture name es) i h) [
      | inl (same, here) ↦ (e, ap (get_elem? (e ∷ es)) here, eq_of_str_eq e.name name same)
      | inr (j, there, next) ↦
          let (f, at, called) = find_capture-some name es j there in
          (f, ap (get_elem? (e ∷ es)) next ∙ at, called)
    ]

IsSound-get :
    (outers : List OuterScope) (es : List CaptureEntry) (i : ℕ) (e : CaptureEntry)
    → IsSound outers es
    → get_elem? es i ≡ some e
    → LeadsTo outers e
IsSound-get outers [] i e s h = absurd (grind arith)
IsSound-get outers (x ∷ es) zero e (s, rest) h = subst (LeadsTo outers) (some-injective x e h) s
IsSound-get outers (x ∷ es) (suc i) e (s, rest) h = IsSound-get outers es i e rest h

pub IsSound-append :
    (outers : List OuterScope) (es : List CaptureEntry) (e : CaptureEntry)
    → IsSound outers es
    → LeadsTo outers e
    → IsSound outers (es ++ e ∷ [])
IsSound-append outers [] e s h = (h, tt)
IsSound-append outers (x ∷ es) e (s, rest) h = (s, IsSound-append outers es e rest h)

-- An outer scope with one capture more.
abbrev pub with_capture : OuterScope → List CaptureEntry → CaptureEntry → OuterScope
with_capture outer es e = record outer { captures = some (es ++ e ∷ []) }

pub denotes-captured :
    (outer : OuterScope) (outers : List OuterScope) (es : List CaptureEntry) (i : ℕ)
    (o : Option CaptureEntry)
    → outer.captures ≡ some es
    → get_elem? es i ≡ o
    → denotes (outer ∷ outers) true (some i)
      ≡ elim o [ none ↦ none | some e ↦ denotes outers e.is_capture e.slot_index ]
unfolding denotes
denotes-captured outer outers es i o c at = rw (c, at) refl

denotes-with_capture :
    (outer : OuterScope) (outers : List OuterScope) (es : List CaptureEntry) (e : CaptureEntry)
    (is_capture : Bool) (slot : Option ℕ) (cell : OuterSlot)
    → outer.captures ≡ some es
    → denotes (outer ∷ outers) is_capture slot ≡ some cell
    → denotes (with_capture outer es e ∷ outers) is_capture slot ≡ some cell
unfolding denotes
denotes-with_capture outer outers es e is_capture none cell c h = h
denotes-with_capture outer outers es e false (some slot) cell c h = h
denotes-with_capture outer outers es e true (some i) cell c h =
    elim (Option-cases (get_elem? es i)) [
      | inl nothing ↦ absurd (grind (arith, denotes-captured outer outers es i none c nothing))
      | inr (f, at) ↦
          denotes-captured (with_capture outer es e) outers (es ++ e ∷ []) i (some f) refl
            (get_elem?-append_some es (e ∷ []) i f at)
          ∙ sym (denotes-captured outer outers es i (some f) c at)
          ∙ h
    ]

LeadsTo-with_capture :
    (outer : OuterScope) (outers : List OuterScope) (es : List CaptureEntry) (e f : CaptureEntry)
    → outer.captures ≡ some es
    → LeadsTo (outer ∷ outers) f
    → LeadsTo (with_capture outer es e ∷ outers) f
unfolding lexical
LeadsTo-with_capture outer outers es e f c (cell, d, l) =
    (cell, denotes-with_capture outer outers es e f.is_capture f.slot_index cell c d, l)

pub IsSound-with_capture :
    (outer : OuterScope) (outers : List OuterScope) (es : List CaptureEntry) (e : CaptureEntry)
    (entries : List CaptureEntry)
    → outer.captures ≡ some es
    → IsSound (outer ∷ outers) entries
    → IsSound (with_capture outer es e ∷ outers) entries
IsSound-with_capture outer outers es e [] c s = tt
IsSound-with_capture outer outers es e (f ∷ fs) c (s, rest) =
    (LeadsTo-with_capture outer outers es e f c s, IsSound-with_capture outer outers es e fs c rest)

-- A capture found by its name.
pub captured-LeadsTo :
    (outers : List OuterScope) (es : List CaptureEntry) (name : Bytes) (i : ℕ)
    → IsSound outers es
    → find_capture name es ≡ some i
    → (e : CaptureEntry) × (get_elem? es i ≡ some e)
      × (e.name ≡ name)
      × (cell : OuterSlot) × (denotes outers e.is_capture e.slot_index ≡ some cell)
      × (lexical outers name ≡ some cell)
captured-LeadsTo outers es name i s h =
    let (e, at, called) = find_capture-some name es i h in
    let (cell, d, l) = IsSound-get outers es i e s at in
    (e, at, called, cell, d, ap (lexical outers) (sym called) ∙ l)
