-- ===== src/Tests/Texts.antt =====
-- The parts of a concrete string.
use gescript.Base.{arith, ◌≡◌, [], ◌∷◌, some, codes}
use gescript.Float.{of_word, to_word}
use gescript.Types.Convert.{to_int}
use gescript.Types.Value.{integer}
use gescript.Native.Text.{string_substring}
use gescript.Native.Text.Parts.{string_substring-between}
use gescript.Word.{minus_one, neg_word}
use gescript.Tests.Sample.{plain_strconv}

string_substring-between_example :
    (string_substring plain_strconv (codes "abc") [] ≡ some (codes "abc"))
    × (string_substring plain_strconv (codes "abc") (integer 2 ∷ []) ≡ some (codes "c"))
    × (string_substring plain_strconv (codes "abc") (integer 2 ∷ integer minus_one ∷ [])
        ≡ some (codes "ab"))
unfolding to_int of_word to_word neg_word
string_substring-between_example =
    string_substring-between plain_strconv (codes "abc") (integer 2) (integer minus_one) []
      (omega arith)
