-- ===== src/Parser/Captures/Sound.antt =====
-- A captured name leads to the variable that it names.
use gescript.Base.{
  ℕ, suc, ◌≡◌, ◌∙◌, refl, sym, ap, true, false, none, some, List, [], ◌∷◌, ◌++◌, Bytes, length,
  arith, Option-cases, inl, inr, ◌⊎◌, get_elem?-append_length,
}
use mathlib.Core.Path.{subst}
use gescript.Parser.Scope.{Variable, resolve_variable}
use gescript.Parser.Captures.{
  CaptureEntry, OuterScope, find_capture, captured_by, fresh, entry, cascade_loop, Captures,
  add_capture, capture_at, resolve_loop, resolve_capture,
}
use gescript.Parser.Captures.Cells.{
  OuterSlot, lexical, denotes, IsSound, IsSoundScope, AreSound, IsSoundState, Resolves,
  IsSound-append, with_capture, denotes-captured, IsSound-with_capture, captured-LeadsTo,
}
use gescript.Parser.Captures.Chains.{
  captured_by-nil, resolve_loop-nil, captured_by-entries, lexical-local, lexical-outer,
  resolve_loop-local, resolve_loop-captured, resolve_loop-outer, cascade_loop-local,
  cascade_loop-captured, cascade_loop-outer, cascade_capture-fresh,
}

-- The outer function has a variable of that name, or has captured one.
abbrev pub Knows : OuterScope → Bytes → Type 0
Knows outer name =
    ((v : Variable) × (resolve_variable outer.block name ≡ some v))
    ⊎ ((i : ℕ) × (captured_by outer name ≡ some i))

-- The name is known to one of the two functions around, or to none at all.
abbrev pub IsNear : List OuterScope → Bytes → Type 0
IsNear [] name = Unit
IsNear (outer ∷ []) name = Unit
IsNear (outer ∷ next ∷ outers) name =
    Knows outer name ⊎ Knows next name ⊎ (lexical outers name ≡ none)

-- A local variable goes before a capture.
local_first :
    (outer : OuterScope) (name : Bytes)
    → Knows outer name
    → ((v : Variable) × (resolve_variable outer.block name ≡ some v))
      ⊎ ((i : ℕ) × (resolve_variable outer.block name ≡ none) × (captured_by outer name ≡ some i))
local_first outer name (inl local) = inl local
local_first outer name (inr (i, captured)) =
    elim (Option-cases (resolve_variable outer.block name)) [
      | inl not_local ↦ inr (i, not_local, captured)
      | inr local ↦ inl local
    ]

Knows-cases :
    (outer : OuterScope) (name : Bytes)
    → Knows outer name
      ⊎ ((resolve_variable outer.block name ≡ none) × (captured_by outer name ≡ none))
Knows-cases outer name = elim (Option-cases (resolve_variable outer.block name)) [
  | inr local ↦ inl (inl local)
  | inl not_local ↦ elim (Option-cases (captured_by outer name)) [
    | inr captured ↦ inl (inr captured)
    | inl not_captured ↦ inr (not_local, not_captured)
  ]
]

Knows-none :
    (outer : OuterScope) (name : Bytes)
    → Knows outer name
    → resolve_variable outer.block name ≡ none
    → captured_by outer name ≡ none
    → ⊥
Knows-none outer name (inl (v, local)) a b = absurd (cc)
Knows-none outer name (inr (i, captured)) a b = absurd (cc)

denotes-local :
    (outer : OuterScope) (outers : List OuterScope) (slot : ℕ)
    → denotes (outer ∷ outers) false (some slot) ≡ some (length outers, slot)
unfolding denotes
denotes-local outer outers slot = refl

lexical-nil : (name : Bytes) → lexical [] name ≡ none
unfolding lexical
lexical-nil name = refl

-- A function within a function has captures.
has_captures :
    (outer next : OuterScope) (outers : List OuterScope)
    → IsSoundScope (next ∷ outers) outer.captures
    → (es : List CaptureEntry) × (outer.captures ≡ some es)
has_captures outer next outers s = elim (Option-cases outer.captures) [
  | inr captures ↦ captures
  | inl c ↦ absurd (grind (arith, subst (IsSoundScope (next ∷ outers)) c s))
]

captured_by-some :
    (outer : OuterScope) (name : Bytes) (i : ℕ)
    → captured_by outer name ≡ some i
    → (es : List CaptureEntry) × (outer.captures ≡ some es) × (find_capture name es ≡ some i)
captured_by-some outer name i h = elim (Option-cases outer.captures) [
  | inl c ↦ absurd (grind (arith, captured_by-nil outer name c))
  | inr (es, c) ↦ (es, c, sym (captured_by-entries outer es name c) ∙ h)
]

captured_by-LeadsTo :
    (outer : OuterScope) (outers : List OuterScope) (name : Bytes) (i : ℕ)
    → IsSoundScope outers outer.captures
    → captured_by outer name ≡ some i
    → (cell : OuterSlot) × (denotes (outer ∷ outers) true (some i) ≡ some cell)
      × (lexical outers name ≡ some cell)
captured_by-LeadsTo outer outers name i s h =
    let (es, c, found) = captured_by-some outer name i h in
    let (e, at, called, cell, d, l) =
      captured-LeadsTo outers es name i (subst (IsSoundScope outers) c s) found in
    (cell, denotes-captured outer outers es i (some e) c at ∙ d, l)

resolve_loop-none :
    (name : Bytes) (c : Captures) (at : ℕ) (outers : List OuterScope)
    → AreSound outers
    → lexical outers name ≡ none
    → resolve_loop name c at outers ≡ (none, c)
resolve_loop-none name c at [] s h = resolve_loop-nil name c at
resolve_loop-none name c at (outer ∷ outers) (s, rest) h =
    elim (Option-cases (resolve_variable outer.block name)) [
      | inr (v, local) ↦ absurd (grind (arith, lexical-local name outer outers v local))
      | inl not_local ↦
          let further : lexical outers name ≡ none =
            sym (lexical-outer name outer outers not_local) ∙ h in
          elim (Option-cases (captured_by outer name)) [
            | inr (i, captured) ↦
                let (cell, d, l) = captured_by-LeadsTo outer outers name i s captured in
                absurd (grind arith)
            | inl not_captured ↦
                resolve_loop-outer name outer outers c at not_local not_captured
                ∙ resolve_loop-none name c (suc at) outers rest further
          ]
    ]

-- A new capture of the name.
add_capture-Resolves :
    (name : Bytes) (c after : Captures) (e : CaptureEntry) (cell : OuterSlot)
    → IsSoundState after
    → e.name ≡ name
    → denotes after.outers e.is_capture e.slot_index ≡ some cell
    → lexical after.outers name ≡ some cell
    → lexical c.outers name ≡ some cell
    → Resolves name c (add_capture e after)
unfolding add_capture
add_capture-Resolves name c after e cell (s, around) called d l before = (
  e,
  get_elem?-append_length after.entries e [],
  called,
  cell,
  d,
  before,
  (
    IsSound-append after.outers after.entries e s (cell, d, ap (lexical after.outers) called ∙ l),
    around,
  ),
)

module _ (name : Bytes) (entries : List CaptureEntry) (outer next : OuterScope)
    (outers : List OuterScope)
    (s : IsSoundState (record { entries = entries; outers = outer ∷ next ∷ outers }))
    (not_local : resolve_variable outer.block name ≡ none) where
  abbrev here : Captures
  here = record { entries = entries; outers = outer ∷ next ∷ outers }

  -- The scope around captures the name from the next.
  cascade-Resolves :
      (es : List CaptureEntry) (direct f : CaptureEntry) (cell : OuterSlot)
      → outer.captures ≡ some es
      → find_capture name es ≡ none
      → cascade_loop name 1 0 (outer ∷ next ∷ outers) ≡ fresh f
      → f.name ≡ name
      → denotes (next ∷ outers) f.is_capture f.slot_index ≡ some cell
      → lexical (next ∷ outers) name ≡ some cell
      → Resolves name here (capture_at name 1 direct here)
  unfolding capture_at
  cascade-Resolves es direct f cell c none_yet found called d l =
      let around : IsSound (next ∷ outers) es = subst (IsSoundScope (next ∷ outers)) c s.1.0 in
      let outer' = with_capture outer es f in
      rw (cascade_capture-fresh name outer (next ∷ outers) 1 es f c none_yet found) (
        add_capture-Resolves name here
          (record { entries = entries; outers = outer' ∷ next ∷ outers })
          (entry name (some (length es)) true) cell
          (
            IsSound-with_capture outer (next ∷ outers) es f entries c s.0,
            (
              IsSound-append (next ∷ outers) es f around
                  (cell, d, ap (lexical (next ∷ outers)) called ∙ l),
              s.1.1,
            ),
          )
          refl
          (denotes-captured outer' (next ∷ outers) (es ++ f ∷ []) (length es) (some f) refl
              (get_elem?-append_length es f [])
            ∙ d)
          (lexical-outer name outer' (next ∷ outers) not_local ∙ l)
          (lexical-outer name outer (next ∷ outers) not_local ∙ l))

  -- The next scope knows the name, that around does not.
  next-Resolves :
      (direct : CaptureEntry)
      → captured_by outer name ≡ none
      → Knows next name
      → Resolves name here (capture_at name 1 direct here)
  next-Resolves direct not_captured known =
      let (es, c) = has_captures outer next outers s.1.0 in
      let none_yet : find_capture name es ≡ none =
        sym (captured_by-entries outer es name c) ∙ not_captured in
      let further : cascade_loop name 1 0 (outer ∷ next ∷ outers)
          ≡ cascade_loop name 1 1 (next ∷ outers) =
        cascade_loop-outer name outer (next ∷ outers) 1 0 refl not_captured in
      elim (local_first next name known) [
        | inl (v, local) ↦
            cascade-Resolves es direct (entry name (some v.slot_index) false)
              (length outers, v.slot_index) c none_yet
              (further ∙ cascade_loop-local name next outers 1 v local) refl
              (denotes-local next outers v.slot_index) (lexical-local name next outers v local)
        | inr (i, not_here, captured) ↦
            let (cell, d, l) = captured_by-LeadsTo next outers name i s.1.1.0 captured in
            cascade-Resolves es direct (entry name (some i) true) cell c none_yet
              (further ∙ cascade_loop-captured name next outers 1 0 i not_here captured) refl d
              (lexical-outer name next outers not_here ∙ l)
      ]

-- The scope around knows the name.
first-Resolves :
    (name : Bytes) (entries : List CaptureEntry) (outer : OuterScope) (outers : List OuterScope)
    → IsSoundState (record { entries = entries; outers = outer ∷ outers })
    → Knows outer name
    → Resolves name
        (record { entries = entries; outers = outer ∷ outers })
        (resolve_loop name
          (record { entries = entries; outers = outer ∷ outers })
          0
          (outer ∷ outers))
unfolding capture_at
first-Resolves name entries outer outers s known =
    let c : Captures = record { entries = entries; outers = outer ∷ outers } in
    elim (local_first outer name known) [
      | inl (v, local) ↦
          let l = lexical-local name outer outers v local in
          rw (resolve_loop-local name outer outers c 0 v local) (
            add_capture-Resolves name c c (entry name (some v.slot_index) false)
              (length outers, v.slot_index) s refl (denotes-local outer outers v.slot_index) l l)
      | inr (i, not_here, captured) ↦
          let (cell, d, l) = captured_by-LeadsTo outer outers name i s.1.0 captured in
          let l' = lexical-outer name outer outers not_here ∙ l in
          rw (resolve_loop-captured name outer outers c 0 i not_here captured)
            (add_capture-Resolves name c c (entry name (some i) true) cell s refl d l' l')
    ]

-- None of the scopes knows the name.
none-Resolves :
    (name : Bytes) (c : Captures)
    → AreSound c.outers
    → lexical c.outers name ≡ none
    → Resolves name c (resolve_loop name c 0 c.outers)
none-Resolves name c s l = rw (resolve_loop-none name c 0 c.outers s l) (l, refl)

far-Resolves :
    (name : Bytes) (entries : List CaptureEntry) (outer next : OuterScope)
    (outers : List OuterScope)
    → IsSoundState (record { entries = entries; outers = outer ∷ next ∷ outers })
    → resolve_variable outer.block name ≡ none
    → captured_by outer name ≡ none
    → IsNear (outer ∷ next ∷ outers) name
    → Resolves name
        (record { entries = entries; outers = outer ∷ next ∷ outers })
        (resolve_loop name
          (record { entries = entries; outers = outer ∷ next ∷ outers })
          0
          (outer ∷ next ∷ outers))
far-Resolves name entries outer next outers s not_local not_captured near =
    let c : Captures = record { entries = entries; outers = outer ∷ next ∷ outers } in
    let second = next-Resolves name entries outer next outers s not_local in
    let further = resolve_loop-outer name outer (next ∷ outers) c 0 not_local not_captured in
    elim (Knows-cases next name) [
      | inl known ↦ elim (local_first next name known) [
        | inl (v, local) ↦
            rw (further ∙ resolve_loop-local name next outers c 1 v local)
              (second (entry name (some v.slot_index) false) not_captured known)
        | inr (i, not_here, captured) ↦
            rw (further ∙ resolve_loop-captured name next outers c 1 i not_here captured)
              (second (entry name (some i) true) not_captured known)
      ]
      | inr (not_here, not_caught) ↦ none-Resolves name c s.1 (
          lexical-outer name outer (next ∷ outers) not_local
          ∙ lexical-outer name next outers not_here
          ∙ elim near [
            | inl known ↦ absurd (Knows-none outer name known not_local not_captured)
            | inr (inl known) ↦ absurd (Knows-none next name known not_here not_caught)
            | inr (inr unknown) ↦ unknown
          ])
    ]

resolve_loop-Resolves :
    (name : Bytes) (entries : List CaptureEntry) (outers : List OuterScope)
    → IsSoundState (record { entries = entries; outers = outers })
    → IsNear outers name
    → Resolves name
        (record { entries = entries; outers = outers })
        (resolve_loop name (record { entries = entries; outers = outers }) 0 outers)
resolve_loop-Resolves name entries [] s near = none-Resolves name _ s.1 (lexical-nil name)
resolve_loop-Resolves name entries (outer ∷ []) s near = elim (Knows-cases outer name) [
  | inl known ↦ first-Resolves name entries outer [] s known
  | inr (not_local, not_captured) ↦
      none-Resolves name _ s.1 (lexical-outer name outer [] not_local ∙ lexical-nil name)
]
resolve_loop-Resolves name entries (outer ∷ next ∷ outers) s near = elim (Knows-cases outer name) [
  | inl known ↦ first-Resolves name entries outer (next ∷ outers) s known
  | inr (not_local, not_captured) ↦
      far-Resolves name entries outer next outers s not_local not_captured near
]

-- Where every capture leads to the variable of its name, a name that a function does not declare is
-- captured, if the functions around have such a variable and it is known to one of the nearest two: what is then in the captures of the function at the
-- place returned has that name, and leads through the captures of the functions around to the
-- variable that the name has by their nesting. No other capture is led astray. Where there is no
-- such variable, nothing is captured.
pub resolve_capture-Resolves :
    (name : Bytes) (c : Captures)
    → IsSoundState c
    → IsNear c.outers name
    → Resolves name c (resolve_capture name c)
unfolding resolve_capture
resolve_capture-Resolves name c s near = elim (Option-cases (find_capture name c.entries)) [
  | inl none_yet ↦
      rw (none_yet, resolve_capture) (resolve_loop-Resolves name c.entries c.outers s near)
  | inr (i, found) ↦
      let (e, at, called, cell, d, l) = captured-LeadsTo c.outers c.entries name i s.0 found in
      rw (found, resolve_capture) (e, at, called, cell, d, l, s)
]
