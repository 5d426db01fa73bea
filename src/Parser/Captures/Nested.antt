-- ===== src/Parser/Captures/Nested.antt =====
-- A name of the function two around the function around.
use gescript.Base.{
  ℕ, suc, ◌≡◌, ◌∙◌, refl, sym, true, false, Option, none, some, List, [], ◌∷◌, ◌++◌, Bytes, length,
  get_elem?-append_length, get_elem?,
}
use gescript.Parser.Scope.{Variable, resolve_variable}
use gescript.Parser.Captures.{
  CaptureEntry, OuterScope, find_capture, captured_by, entry, fresh, cascade_loop, Captures,
  add_capture, capture_at, resolve_loop, resolve_capture,
}
use gescript.Parser.Captures.Cells.{OuterSlot, denotes, lexical, denotes-captured}
use gescript.Parser.Captures.Chains.{
  lexical-local, lexical-outer, resolve_loop-local, resolve_loop-outer, cascade_loop-local,
  cascade_loop-outer, cascade_capture-fresh, captured_by-entries,
}

-- The scope does not know the name.
abbrev pub Ignores : OuterScope → Bytes → Type 0
Ignores outer name = (resolve_variable outer.block name ≡ none) × (captured_by outer name ≡ none)

-- The capture at that place of the function's captures leads to this cell.
abbrev pub CaptureDenotes : Option ℕ × Captures → Option OuterSlot → Type 0
CaptureDenotes (none, after) cell = ⊥
CaptureDenotes (some i, after) cell =
    (e : CaptureEntry) × (get_elem? after.entries i ≡ some e)
    × (denotes after.outers e.is_capture e.slot_index ≡ cell)

-- A variable of the third function around, in a function that has not captured its name, where
-- neither of the nearer two declares the name or has captured it: the entry that the function around
-- gets has the slot of that variable but is marked as a slot of the next function. The capture leads to whatever that function has in the slot, not to the variable that
-- the name has by the nesting.
pub resolve_capture-skips :
    (name : Bytes) (entries es : List CaptureEntry) (outer next third : OuterScope)
    (outers : List OuterScope) (v : Variable)
    → find_capture name entries ≡ none
    → outer.captures ≡ some es
    → Ignores outer name
    → Ignores next name
    → resolve_variable third.block name ≡ some v
    → (lexical (outer ∷ next ∷ third ∷ outers) name ≡ some (length outers, v.slot_index))
      × CaptureDenotes
          (resolve_capture name
            (record { entries = entries; outers = outer ∷ next ∷ third ∷ outers }))
          (some (suc (length outers), v.slot_index))
unfolding resolve_capture capture_at add_capture denotes
resolve_capture-skips name entries es outer next third outers v none_yet c (a, b) (d, e) local =
    let here : Captures = record { entries = entries; outers = outer ∷ next ∷ third ∷ outers } in
    let first : find_capture name es ≡ none = sym (captured_by-entries outer es name c) ∙ b in
    let f = entry name (some v.slot_index) false in
    let loop : resolve_loop name here 0 here.outers ≡ capture_at name 2 f here =
      resolve_loop-outer name outer (next ∷ third ∷ outers) here 0 a b
      ∙ resolve_loop-outer name next (third ∷ outers) here 1 d e
      ∙ resolve_loop-local name third outers here 2 v local in
    let cascade : cascade_loop name 2 0 here.outers ≡ fresh f =
      cascade_loop-outer name outer (next ∷ third ∷ outers) 2 0 refl b
      ∙ cascade_loop-outer name next (third ∷ outers) 2 1 refl e
      ∙ cascade_loop-local name third outers 2 v local in
    (
      lexical-outer name outer (next ∷ third ∷ outers) a
          ∙ lexical-outer name next (third ∷ outers) d
          ∙ lexical-local name third outers v local,
      rw
          (
            none_yet,
            resolve_capture,
            loop,
            cascade_capture-fresh name outer (next ∷ third ∷ outers) 2 es f c first cascade,
          )
          (
            entry name (some (length es)) true,
            get_elem?-append_length entries _ [],
            denotes-captured (record outer { captures = some (es ++ f ∷ []) })
                (next ∷ third ∷ outers) (es ++ f ∷ []) (length es) (some f) refl
                (get_elem?-append_length es f []),
          ),
    )
