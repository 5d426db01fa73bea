-- ===== src/Parser/Captures/Again.antt =====
-- A name that was captured once.
use gescript.Base.{
  ℕ, zero, suc, ◌≡◌, refl, Bool, true, false, Option, none, some, List, [], ◌∷◌, ◌++◌, Bytes,
  str_eq, if◌then◌else◌, length, Option-cases, inl, inr, str_eq_refl,
}
use mathlib.Core.Path.{subst}
use gescript.Parser.Scope.{resolve_variable}
use gescript.Parser.Captures.{
  CaptureEntry, OuterScope, find_capture, captured_by, entry, cascade_capture, Captures,
  add_capture, capture_at, resolve_loop, resolve_capture,
}

-- The place returned is that of the first capture of the name.
abbrev IsFound : Bytes → Option ℕ × Captures → Type 0
IsFound name (none, after) = Unit
IsFound name (some i, after) = find_capture name after.entries ≡ some i

not_first :
    (b : Bool) (o : Option ℕ)
    → if◌then◌else◌ {A = Option ℕ} b (some 0) (elim o [ none ↦ none | some j ↦ some (suc j) ])
      ≡ none
    → (b ≡ false) × (o ≡ none)
not_first true o h = absurd (cc)
not_first false none h = (refl, refl)
not_first false (some i) h = absurd (cc)

find_capture-append :
    (name : Bytes) (es : List CaptureEntry) (slot : Option ℕ) (is_capture : Bool)
    → find_capture name es ≡ none
    → find_capture name (es ++ entry name slot is_capture ∷ []) ≡ some (length es)
unfolding find_capture
find_capture-append name [] slot is_capture h = rw (str_eq_refl name) refl
find_capture-append name (e ∷ es) slot is_capture h =
    let (other, further) = not_first (str_eq e.name name) (find_capture name es) h in
    rw (other, find_capture-append name es slot is_capture further) refl

capture_at-IsFound :
    (name : Bytes) (at : ℕ) (slot : Option ℕ) (is_capture : Bool) (c : Captures)
    → find_capture name c.entries ≡ none
    → IsFound name (capture_at name at (entry name slot is_capture) c)
unfolding capture_at add_capture
capture_at-IsFound name zero slot is_capture c h =
    find_capture-append name c.entries slot is_capture h
capture_at-IsFound name (suc at) slot is_capture c h =
    find_capture-append name c.entries (cascade_capture name (suc at) c.outers).0 true h

module _ (name : Bytes) (c : Captures) (none_yet : find_capture name c.entries ≡ none) where
  captured-IsFound :
      (o : Option ℕ) (at : ℕ) (rest : Option ℕ × Captures)
      → IsFound name rest
      → IsFound name
          (elim o [ none ↦ rest | some i ↦ capture_at name at (entry name (some i) true) c ])
  captured-IsFound none at rest h = h
  captured-IsFound (some i) at rest h = capture_at-IsFound name at (some i) true c none_yet

  resolve_loop-IsFound :
      (at : ℕ) (outers : List OuterScope) → IsFound name (resolve_loop name c at outers)
  unfolding resolve_loop
  resolve_loop-IsFound at [] = tt
  resolve_loop-IsFound at (outer ∷ outers) =
      elim (Option-cases (resolve_variable outer.block name)) [
        | inl not_local ↦
            rw (not_local, resolve_loop)
              (captured-IsFound (captured_by outer name) at (resolve_loop name c (suc at) outers)
                (resolve_loop-IsFound (suc at) outers))
        | inr (v, local) ↦
            rw (local, resolve_loop)
              (capture_at-IsFound name at (some v.slot_index) false c none_yet)
      ]

resolve_capture-IsFound : (name : Bytes) (c : Captures) → IsFound name (resolve_capture name c)
unfolding resolve_capture
resolve_capture-IsFound name c = elim (Option-cases (find_capture name c.entries)) [
  | inl none_yet ↦ rw (none_yet, resolve_capture) (resolve_loop-IsFound name c none_yet 0 c.outers)
  | inr (i, found) ↦ rw (found, resolve_capture) found
]

-- A second reference to a name gives the capture of the first, and changes no captures.
pub resolve_capture-again :
    (name : Bytes) (c after : Captures) (i : ℕ)
    → resolve_capture name c ≡ (some i, after)
    → resolve_capture name after ≡ (some i, after)
unfolding resolve_capture
resolve_capture-again name c after i h =
    let found : find_capture name after.entries ≡ some i =
      subst (IsFound name) h (resolve_capture-IsFound name c) in
    rw (found, resolve_capture) refl
