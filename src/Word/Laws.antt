-- ===== src/Word/Laws.antt =====
-- What the word operations do to the numbers that the patterns stand for.
use gescript.Base.{ℕ, ◌^◌, ◌<◌, ◌≡◌, true, false, arith}
use gescript.Word.{Word, add_word, sub_word, neg_word, lt_word, not32, low32}

abbrev pub IsWord : ℕ → Type 0
IsWord a = a < 2 ^ 64

pub add_word-IsWord : (a b : Word) → IsWord (add_word a b)
unfolding add_word
add_word-IsWord a b = omega arith

pub sub_word-add_word : (a b : Word) → IsWord a → IsWord b → sub_word (add_word a b) b ≡ a
unfolding sub_word add_word
sub_word-add_word a b ha hb = omega arith

pub neg_word-neg_word : (a : Word) → IsWord a → neg_word (neg_word a) ≡ a
unfolding neg_word
neg_word-neg_word a h = omega arith

-- `target - 1` and then `pc++` is `target`.
pub add_word-sub_word_one : (t : Word) → IsWord t → add_word (sub_word t 1) 1 ≡ t
unfolding sub_word add_word
add_word-sub_word_one t h = omega arith

pub not32-not32 : (a : Word) → low32 (not32 (not32 a)) ≡ low32 a
unfolding not32
not32-not32 a = ground arith

pub lt_word_asymm : (a b : Word) → lt_word a b ≡ true → lt_word b a ≡ false
unfolding lt_word
lt_word_asymm a b h = ground arith
