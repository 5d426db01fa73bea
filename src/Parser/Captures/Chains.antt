-- ===== src/Parser/Captures/Chains.antt =====
-- What the loops over the outer scopes do at each of them.
use gescript.Base.{
  ℕ, suc, ◌≡◌, refl, Bool, true, false, Option, none, some, List, [], ◌∷◌, ◌++◌, Bytes, ◌==◌,
  if◌then◌else◌, length, arith, ==_comm,
}
use gescript.Parser.Scope.{Variable, resolve_variable}
use gescript.Parser.Captures.{
  CaptureEntry, OuterScope, find_capture, captured_by, fresh, entry, cascade_loop, append_cascaded,
  cascade_capture, Captures, capture_at, resolve_loop,
}
use gescript.Parser.Captures.Cells.{lexical}

pub captured_by-entries :
    (outer : OuterScope) (es : List CaptureEntry) (name : Bytes)
    → outer.captures ≡ some es
    → captured_by outer name ≡ find_capture name es
unfolding captured_by
captured_by-entries outer es name c = rw c refl

if-none {ℓ} : {A : Type ℓ} (b : Bool) (o : Option A) → o ≡ none → (if b then o else none) ≡ none
if-none true o h = h
if-none false o h = refl

==_refl : (a : ℕ) → (a == a) ≡ true
==_refl a = ground arith

pub captured_by-nil :
    (outer : OuterScope) (name : Bytes) → outer.captures ≡ none → captured_by outer name ≡ none
unfolding captured_by
captured_by-nil outer name c = rw c refl

pub resolve_loop-nil :
    (name : Bytes) (c : Captures) (at : ℕ) → resolve_loop name c at [] ≡ (none, c)
unfolding resolve_loop
resolve_loop-nil name c at = refl

module _ (name : Bytes) (outer : OuterScope) (outers : List OuterScope) where
  pub lexical-local :
      (v : Variable)
      → resolve_variable outer.block name ≡ some v
      → lexical (outer ∷ outers) name ≡ some (length outers, v.slot_index)
  unfolding lexical
  lexical-local v h = rw (h, lexical) refl

  pub lexical-outer :
      resolve_variable outer.block name ≡ none → lexical (outer ∷ outers) name ≡ lexical outers name
  unfolding lexical
  lexical-outer h = rw (h, lexical) refl

  pub resolve_loop-local :
      (c : Captures) (at : ℕ) (v : Variable)
      → resolve_variable outer.block name ≡ some v
      → resolve_loop name c at (outer ∷ outers)
        ≡ capture_at name at (entry name (some v.slot_index) false) c
  unfolding resolve_loop
  resolve_loop-local c at v h = rw (h, resolve_loop) refl

  pub resolve_loop-captured :
      (c : Captures) (at i : ℕ)
      → resolve_variable outer.block name ≡ none
      → captured_by outer name ≡ some i
      → resolve_loop name c at (outer ∷ outers) ≡ capture_at name at (entry name (some i) true) c
  unfolding resolve_loop
  resolve_loop-captured c at i h k = rw (h, k, resolve_loop) refl

  pub resolve_loop-outer :
      (c : Captures) (at : ℕ)
      → resolve_variable outer.block name ≡ none
      → captured_by outer name ≡ none
      → resolve_loop name c at (outer ∷ outers) ≡ resolve_loop name c (suc at) outers
  unfolding resolve_loop
  resolve_loop-outer c at h k = rw (h, k, resolve_loop) refl

  pub cascade_loop-local :
      (at : ℕ) (v : Variable)
      → resolve_variable outer.block name ≡ some v
      → cascade_loop name at at (outer ∷ outers) ≡ fresh (entry name (some v.slot_index) false)
  unfolding cascade_loop
  cascade_loop-local at v h = rw (==_refl at, h, cascade_loop) refl

  pub cascade_loop-captured :
      (target at i : ℕ)
      → resolve_variable outer.block name ≡ none
      → captured_by outer name ≡ some i
      → cascade_loop name target (suc at) (outer ∷ outers) ≡ fresh (entry name (some i) true)
  unfolding cascade_loop
  cascade_loop-captured target at i h k =
      rw (if-none (suc at == target) _ h, k, cascade_loop) (ground arith)

  pub cascade_loop-outer :
      (target at : ℕ)
      → (target == at) ≡ false
      → captured_by outer name ≡ none
      → cascade_loop name target at (outer ∷ outers) ≡ cascade_loop name target (suc at) outers
  unfolding cascade_loop
  cascade_loop-outer target at h k = rw (==_comm at target, h, k, cascade_loop) refl

  pub cascade_capture-fresh :
      (target : ℕ) (es : List CaptureEntry) (e : CaptureEntry)
      → outer.captures ≡ some es
      → find_capture name es ≡ none
      → cascade_loop name target 0 (outer ∷ outers) ≡ fresh e
      → cascade_capture name target (outer ∷ outers)
        ≡ (some (length es), record outer { captures = some (es ++ e ∷ []) } ∷ outers)
  unfolding cascade_capture append_cascaded
  cascade_capture-fresh target es e c none_yet found = rw (c, none_yet, found) refl
