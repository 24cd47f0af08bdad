-- ===== src/Ofx/Decimal.antt =====
-- Amounts written with two decimal places, and how strconv.ParseInt, strings.SplitN and
-- strings.TrimSpace read them.
use financial_wallet.Prelude.{
  ◌≡◌, refl, ap, ◌∙◌, ℕ, zero, suc, ◌+◌, ◌-◌, ◌*◌, ◌/◌, ◌%◌, ◌≤◌, ◌<◌, inl, inr, Bool-cases, Bool,
  true, false, none, some, [], ◌∷◌, ◌++◌, ltb, leb, ◌==◌, if◌then◌else◌, arith,
}
use financial_wallet.Int64.{half_word}
use financial_wallet.Prelude.Int.{pos}
use financial_wallet.Text.{Text, split_once}
use financial_wallet.Ofx.Amount.{digits, parse_int, is_digit}

-- The decimal digits of a number, in front of a text. The fuel is the number itself, which is more
-- than it has digits.
unfoldable pub show_digits : ℕ → ℕ → Text → Text
show_digits zero n tail = (b'0' + n % 10) ∷ tail
show_digits (suc fuel) n tail =
    let more = show_digits fuel (n / 10) ((b'0' + n % 10) ∷ tail) in
    if ltb n 10 then (b'0' + n % 10) ∷ tail else more

pub digits-digit :
    (acc n : ℕ) (tail : Text)
    → digits acc ((b'0' + n % 10) ∷ tail) ≡ digits (acc * 10 + n % 10) tail
unfolding digits
digits-digit acc n tail =
    let low : leb b'0' (b'0' + n % 10) ≡ true = ground arith in
    let high : leb (b'0' + n % 10) b'9' ≡ true = ground arith in
    let digit : b'0' + n % 10 - b'0' ≡ n % 10 = omega arith in rw (low, high, digit) refl

-- Reading the digits of a number gives it back.
pub digits-show :
    (fuel n : ℕ) (tail : Text) → n ≤ fuel → digits 0 (show_digits fuel n tail) ≡ digits n tail
unfolding show_digits
digits-show zero n tail h = digits-digit 0 n tail ∙ ap (λ k. digits k tail) (omega arith)
digits-show (suc fuel) n tail h = elim (Bool-cases (ltb n 10)) [
  | inl small ↦
      let same : 0 * 10 + n % 10 ≡ n = ground arith in
      rw small (digits-digit 0 n tail ∙ ap (λ k. digits k tail) same)
  | inr large ↦
      let fits : n / 10 ≤ fuel = ground arith in
      let same : n / 10 * 10 + n % 10 ≡ n = omega arith in
      rw large (
        digits-show fuel (n / 10) ((b'0' + n % 10) ∷ tail) fits
        ∙ digits-digit (n / 10) n tail
        ∙ ap (λ k. digits k tail) same)
]

split_once-digit :
    (n : ℕ) (tail : Text)
    → split_once b'.' ((b'0' + n % 10) ∷ tail)
      ≡ ((b'0' + n % 10) ∷ (split_once b'.' tail).0, (split_once b'.' tail).1)
unfolding split_once
split_once-digit n tail =
    let other : (b'0' + n % 10 == b'.') ≡ false = ground arith in rw other refl

-- What stands before and after the point.
pub split_once-show :
    (fuel n : ℕ) (tail : Text)
    → split_once b'.' (show_digits fuel n tail)
      ≡ (show_digits fuel n (split_once b'.' tail).0, (split_once b'.' tail).1)
unfolding show_digits
split_once-show zero n tail = split_once-digit n tail
split_once-show (suc fuel) n tail = elim (Bool-cases (ltb n 10)) [
  | inl small ↦ rw small (split_once-digit n tail)
  | inr large ↦
      rw (large, split_once-show fuel (n / 10) ((b'0' + n % 10) ∷ tail), split_once-digit n tail)
        refl
]

-- Whether a text begins with a digit.
abbrev pub is_numeral : Text → Bool
is_numeral [] = false
is_numeral (c ∷ s) = is_digit c

pub show_digits-numeral : (fuel n : ℕ) (tail : Text) → is_numeral (show_digits fuel n tail) ≡ true
unfolding show_digits
show_digits-numeral zero n tail = ground arith
show_digits-numeral (suc fuel) n tail = elim (Bool-cases (ltb n 10)) [
  | inl small ↦ rw small (ground arith)
  | inr large ↦ rw large (show_digits-numeral fuel (n / 10) ((b'0' + n % 10) ∷ tail))
]

pub show_digits-append :
    (fuel n : ℕ) (a b : Text) → show_digits fuel n (a ++ b) ≡ show_digits fuel n a ++ b
unfolding show_digits
show_digits-append zero n a b = refl
show_digits-append (suc fuel) n a b = elim (Bool-cases (ltb n 10)) [
  | inl small ↦ rw small refl
  | inr large ↦ rw large (show_digits-append fuel (n / 10) ((b'0' + n % 10) ∷ a) b)
]

-- A text that starts with a digit is read by ParseInt without a sign.
pub parse_int-digits :
    (s : Text) (n : ℕ)
    → is_numeral s ≡ true
    → digits 0 s ≡ some n
    → n < half_word
    → parse_int s ≡ some (pos n)
unfolding parse_int
parse_int-digits [] n h e fits = cc
parse_int-digits (c ∷ s) n h e fits =
    let minus : (c == b'-') ≡ false = ground arith in
    let plus : (c == b'+') ≡ false = ground arith in
    let range : ltb n half_word ≡ true = ground arith in rw (minus, plus, e, range) refl

-- A number that no int64 holds is refused.
pub parse_int-large :
    (s : Text) (n : ℕ)
    → is_numeral s ≡ true
    → digits 0 s ≡ some n
    → half_word ≤ n
    → parse_int s ≡ none
unfolding parse_int
parse_int-large [] n h e large = cc
parse_int-large (c ∷ s) n h e large =
    let minus : (c == b'-') ≡ false = ground arith in
    let plus : (c == b'+') ≡ false = ground arith in
    let range : ltb n half_word ≡ false = ground arith in rw (minus, plus, e, range) refl
