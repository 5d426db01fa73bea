-- ===== src/Native/Array/Fill.antt =====
-- The loop of fill.
use gescript.Base.{ℕ, zero, suc, ◌^◌, ◌≤◌, ◌<◌, ◌⊎◌, List, [], ◌∷◌, arith, inl, inr, Bool-cases}
use gescript.Word.{Word, is_neg, lt_word, add_word}
use gescript.Types.Value.{DataType}
use gescript.Engine.Heap.{Heap}
use gescript.Native.Array.{from_end, at_most}

-- The elements from a place on, `n` of them at most, replaced by a value.
abbrev pub filled : ℕ → ℕ → DataType → List DataType → List DataType
filled zero zero val els = els
filled zero (suc n) val [] = []
filled zero (suc n) val (el ∷ els) = val ∷ filled zero n val els
filled (suc idx) n val [] = []
filled (suc idx) n val (el ∷ els) = el ∷ filled idx n val els

pub from_end-lt : (alen : ℕ) (end : Word) → from_end alen end < 2 ^ 64
unfolding from_end add_word
from_end-lt alen end = ground arith

pub at_most-cases :
    (alen : ℕ) (a : Word)
    → alen < 2 ^ 62
    → a < 2 ^ 64
    → ((2 ^ 63 ≤ at_most alen a) × (at_most alen a < 2 ^ 64)) ⊎ (at_most alen a ≤ alen)
unfolding at_most lt_word
at_most-cases alen a small h = elim (Bool-cases (is_neg a)) [
  | inl neg ↦ inl (ground arith, ground arith)
  | inr pos ↦ inr (ground arith)
]
