-- ===== src/Decimal/RoundTrip.antt =====
-- The printing of ints against their reading.
use native.Mathlib.Nat.{pow-suc}
use gescript.Base.{
  ℕ, zero, suc, ◌+◌, ◌-◌, ◌*◌, ◌/◌, ◌%◌, ◌^◌, ◌<◌, ◌≡◌, ◌∙◌, refl, Bool, true, false, some, [], ◌∷◌,
  Bytes, arith, ltb, ap, ltb→lt, lt→ltb, Bool-cases, inl, inr,
}
use gescript.Word.{Word, is_neg}
use gescript.Word.Laws.{IsWord}
use gescript.Decimal.{digits, format_nat, format_int, parse_digits, parse_signed, signed_word, atoi}

parse_digits_nil : (n : ℕ) → parse_digits n [] ≡ some n
unfolding parse_digits
parse_digits_nil n = refl

leb-bound : (w : Word) → is_neg w ≡ true → 2 ^ 64 - w < 2 ^ 64
leb-bound w h = ground arith

parse_digits-cons :
    (n d : ℕ) (rest : Bytes)
    → d < 10
    → parse_digits n ((48 + d) ∷ rest) ≡ parse_digits (n * 10 + d) rest
unfolding parse_digits
parse_digits-cons n d rest h = ground arith

parse_digits-digits :
    (k n : ℕ) (rest : Bytes)
    → n < 10 ^ k
    → 0 < k
    → parse_digits 0 (digits k n rest) ≡ parse_digits n rest
unfolding digits
parse_digits-digits zero n rest h p = absurd (omega arith)
parse_digits-digits (suc zero) n rest h p =
    let small : ltb n 10 ≡ true = lt→ltb n 10 h in
    rw small (parse_digits-cons 0 n rest h ∙ ap (λ m. parse_digits m rest) (omega arith))
parse_digits-digits (suc (suc k)) n rest h p = elim (Bool-cases (ltb n 10)) [
  | inl small ↦
      rw small (
        parse_digits-cons 0 n rest (ltb→lt n 10 small)
        ∙ ap (λ m. parse_digits m rest) (omega arith))
  | inr big ↦ rw big (
      parse_digits-digits (suc k) (n / 10) ((48 + n % 10) ∷ rest)
        (omega (arith, pow-suc 10 (suc k))) (omega arith)
      ∙ parse_digits-cons (n / 10) (n % 10) rest (omega arith)
      ∙ ap (λ m. parse_digits m rest) (omega arith))
]

pub digits_head :
    (k n : ℕ) (rest : Bytes)
    → (d : ℕ) × (s : Bytes) × (digits (suc k) n rest ≡ (48 + d) ∷ s) × (d < 10)
unfolding digits
digits_head zero n rest = elim (Bool-cases (ltb n 10)) [
  | inl small ↦ (n, rest, rw small, ground arith)
  | inr big ↦ (n % 10, rest, rw big, omega arith)
]
digits_head (suc k) n rest = elim (Bool-cases (ltb n 10)) [
  | inl small ↦ (n, rest, rw small, ground arith)
  | inr big ↦
      let (d, s, e, h) = digits_head k (n / 10) ((48 + n % 10) ∷ rest) in (d, s, rw big e, h)
]

parse_signed-some :
    (negative : Bool) (c n : ℕ) (s : Bytes)
    → parse_digits 0 (c ∷ s) ≡ some n
    → parse_signed negative (c ∷ s) ≡ signed_word negative n
unfolding parse_signed
parse_signed-some negative c n s e = rw (e, parse_signed)

parse_signed-format_nat :
    (negative : Bool) (n : ℕ)
    → n < 2 ^ 64
    → parse_signed negative (format_nat n) ≡ signed_word negative n
unfolding format_nat
parse_signed-format_nat negative n h =
    let (d, s, e, small) = digits_head 19 n [] in
    let back : parse_digits 0 (digits 20 n []) ≡ some n =
      parse_digits-digits 20 n [] (omega arith) (omega arith) ∙ parse_digits_nil n in
    rw e (parse_signed-some negative (48 + d) n s (rw e at back))

atoi-digit : (d : ℕ) (s : Bytes) → d < 10 → atoi ((48 + d) ∷ s) ≡ parse_signed false ((48 + d) ∷ s)
unfolding atoi
atoi-digit d s h = ground arith

atoi-minus : (s : Bytes) → atoi (b'-' ∷ s) ≡ parse_signed true s
unfolding atoi
atoi-minus s = refl

atoi-format_nat : (n : ℕ) → atoi (format_nat n) ≡ parse_signed false (format_nat n)
unfolding format_nat
atoi-format_nat n = let (d, s, e, small) = digits_head 19 n [] in rw e (atoi-digit d s small)

signed_word_neg : (w : Word) → IsWord w → is_neg w ≡ true → signed_word true (2 ^ 64 - w) ≡ some w
unfolding signed_word
signed_word_neg w h n = ground arith

signed_word_pos : (w : Word) → is_neg w ≡ false → signed_word false w ≡ some w
unfolding signed_word
signed_word_pos w n = ground arith

-- Every int that is printed reads back as itself.
pub atoi-format_int : (w : Word) → IsWord w → atoi (format_int w) ≡ some w
unfolding format_int
atoi-format_int w h = elim (Bool-cases (is_neg w)) [
  | inl n ↦ rw n (
      atoi-minus (format_nat (2 ^ 64 - w))
      ∙ parse_signed-format_nat true (2 ^ 64 - w) (leb-bound w n)
      ∙ signed_word_neg w h n)
  | inr n ↦ rw n (atoi-format_nat w ∙ parse_signed-format_nat false w h ∙ signed_word_pos w n)
]
