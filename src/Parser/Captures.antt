-- ===== src/Parser/Captures.antt =====
-- The captures of a closure in internal/parser/parser.go: resolveCapture and cascadeCapture. The
-- chain of outer scopes is a list, that of the function around first; each has the captures that
-- its function has so far, none where the scope is that of the program.
pub mod Cells
pub mod Chains
pub mod Sound
pub mod Again
pub mod Nested
use gescript.Base.{
  ℕ, zero, suc, ◌+◌, Bool, true, false, Option, none, some, List, [], ◌∷◌, ◌++◌, Bytes, str_eq,
  ◌==◌, if◌then◌else◌, length,
}
use gescript.Parser.Scope.{Variable, BlockContext, resolve_variable}

-- A slotIndex of `none` is -1.
pub record CaptureEntry : Type 0 where
  pub name : Bytes
  pub slot_index : Option ℕ
  pub is_capture : Bool

pub record OuterScope : Type 0 where
  pub block : List BlockContext
  pub captures : Option (List CaptureEntry)

-- The place of the first entry of that name.
unfoldable pub find_capture : Bytes → List CaptureEntry → Option ℕ
find_capture name [] = none
find_capture name (e ∷ es) =
    let further = find_capture name es in
    if str_eq e.name name then some 0 else elim further [ none ↦ none | some i ↦ some (suc i) ]

-- for outerIdx, outerCap := range *outer.captures, where they are not nil
unfoldable pub captured_by : OuterScope → Bytes → Option ℕ
captured_by outer name = elim outer.captures [ none ↦ none | some es ↦ find_capture name es ]

-- What the loop of cascadeCapture comes to.
pub data Cascade : Type 0 where
  existing : ℕ → Cascade
  fresh : CaptureEntry → Cascade
  missing : Cascade

abbrev pub entry : Bytes → Option ℕ → Bool → CaptureEntry
entry name slot_index is_capture = record {
  name = name;
  slot_index = slot_index;
  is_capture = is_capture;
}

-- A scope is known by its place in the chain: that of the function around is at 0.
unfoldable pub cascade_loop : Bytes → ℕ → ℕ → List OuterScope → Cascade
cascade_loop name target at [] = missing
cascade_loop name target at (outer ∷ outers) =
    let further = cascade_loop name target (suc at) outers in
    elim (if at == target then resolve_variable outer.block name else none) [
      | some v ↦ fresh (entry name (some v.slot_index) false)
      | none ↦ elim (captured_by outer name) [
        | some i ↦ if at == 0 then existing i else fresh (entry name (some i) true)
        | none ↦ further
      ]
    ]

-- *prs.outerScope.captures = append(*prs.outerScope.captures, …)
unfoldable pub append_cascaded :
    Cascade → OuterScope → List OuterScope → List CaptureEntry → Option ℕ × List OuterScope
append_cascaded (existing i) outer outers es = (some i, outer ∷ outers)
append_cascaded (fresh e) outer outers es =
    (some (length es), record outer { captures = some (es ++ e ∷ []) } ∷ outers)
append_cascaded missing outer outers es = (none, outer ∷ outers)

-- prs.cascadeCapture(name, target); a result of `none` is -1.
unfoldable pub cascade_capture : Bytes → ℕ → List OuterScope → Option ℕ × List OuterScope
cascade_capture name target [] = (none, [])
cascade_capture name target (outer ∷ outers) = elim outer.captures [
  | none ↦ (none, outer ∷ outers)
  | some es ↦ elim (find_capture name es) [
    | some i ↦ (some i, outer ∷ outers)
    | none ↦ append_cascaded (cascade_loop name target 0 (outer ∷ outers)) outer outers es
  ]
]

-- The captures of the function, and the chain of its outer scopes.
pub record Captures : Type 0 where
  pub entries : List CaptureEntry
  pub outers : List OuterScope

-- prs.captures = append(prs.captures, …); return capIdx
unfoldable pub add_capture : CaptureEntry → Captures → Option ℕ × Captures
add_capture e c = (some (length c.entries), record c { entries = c.entries ++ e ∷ [] })

-- The name is known to the scope at that place; `direct` is the entry if it is that around.
unfoldable pub capture_at : Bytes → ℕ → CaptureEntry → Captures → Option ℕ × Captures
capture_at name zero direct c = add_capture direct c
capture_at name (suc at) direct c =
    let (i, outers) = cascade_capture name (suc at) c.outers in
    add_capture (entry name i true) (record c { outers = outers })

unfoldable pub resolve_loop : Bytes → Captures → ℕ → List OuterScope → Option ℕ × Captures
resolve_loop name c at [] = (none, c)
resolve_loop name c at (outer ∷ outers) =
    let further = resolve_loop name c (suc at) outers in
    elim (resolve_variable outer.block name) [
      | some v ↦ capture_at name at (entry name (some v.slot_index) false) c
      | none ↦ elim (captured_by outer name) [
        | some i ↦ capture_at name at (entry name (some i) true) c
        | none ↦ further
      ]
    ]

-- prs.resolveCapture(name)
unfoldable pub resolve_capture : Bytes → Captures → Option ℕ × Captures
resolve_capture name c = elim (find_capture name c.entries) [
  | some i ↦ (some i, c)
  | none ↦ resolve_loop name c 0 c.outers
]
