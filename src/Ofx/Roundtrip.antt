-- ===== src/Ofx/Roundtrip.antt =====
-- Amounts that are written with two decimal places, and ParseAmount.
use financial_wallet.Prelude.{
  ◌≡◌, refl, sym, ap, ◌∙◌, ℕ, suc, ◌+◌, ◌*◌, ◌/◌, ◌%◌, ◌≤◌, Bool, true, false, some, [], ◌∷◌, ◌++◌,
  ◌==◌, if◌then◌else◌, arith,
}
use financial_wallet.Prelude.Int.{ℤ, pos, negsuc, ◌*ℤ◌, ◌+ℤ◌, ◌-ℤ◌, ltb_ℤ}
use financial_wallet.Int64.{wrap-add, wrap, add64, neg64, InRange, wrap-of_InRange}
use financial_wallet.Text.{Text, is_empty, split_once, trim_space}
use financial_wallet.Text.Trim.{is_plain, trim_space-plain}
use financial_wallet.Result.{ok}
use financial_wallet.Ofx.Amount.{
  Floats, max_whole_part, digits, parse_int, parse_whole, add_fraction, parse_parts, strip_sign,
  signed, parse_amount, pad_two,
}
use financial_wallet.Ofx.Decimal.{
  digits-digit, show_digits, digits-show, split_once-show, is_numeral, show_digits-numeral,
  show_digits-append, parse_int-digits,
}

-- The two digits of the cents.
abbrev pub show_cents : ℕ → Text
show_cents n = (b'0' + n / 10 % 10) ∷ (b'0' + n % 10) ∷ []

-- A number of cents as a decimal: the digits of the whole part, a point, and two digits.
abbrev pub show_unsigned : ℕ → Text
show_unsigned n = show_digits (n / 100) (n / 100) (b'.' ∷ show_cents n)

unfoldable pub show_amount : ℤ → Text
show_amount (pos n) = show_unsigned n
show_amount (negsuc n) = b'-' ∷ show_unsigned (suc n)

pub split_once-unsigned :
    (n : ℕ)
    → split_once b'.' (show_unsigned n) ≡ (show_digits (n / 100) (n / 100) [], some (show_cents n))
unfolding split_once
split_once-unsigned n = split_once-show (n / 100) (n / 100) (b'.' ∷ show_cents n)

parse_int-whole :
    (n : ℕ)
    → n / 100 ≤ 92233720368547758
    → parse_int (show_digits (n / 100) (n / 100) []) ≡ some (pos (n / 100))
unfolding digits
parse_int-whole n h =
    parse_int-digits (show_digits (n / 100) (n / 100) []) (n / 100)
      (show_digits-numeral (n / 100) (n / 100) [])
      (digits-show (n / 100) (n / 100) [] (omega arith)) (omega arith)

parse_int-cents : (n : ℕ) → parse_int (show_cents n) ≡ some (pos (n % 100))
unfolding digits
parse_int-cents n =
    parse_int-digits (show_cents n) (n % 100) (ground arith)
      (digits-digit 0 (n / 10) ((b'0' + n % 10) ∷ [])
        ∙ digits-digit (0 * 10 + n / 10 % 10) n []
        ∙ ap some (omega arith))
      (omega arith)

join_cents : (n : ℕ) → pos (n / 100) *ℤ pos 100 +ℤ pos (n % 100) ≡ pos n
unfolding ◌*ℤ◌ ◌+ℤ◌
join_cents n = ground arith

-- The text of an unsigned amount begins and ends with digits.
trim_space-numeral :
    (s : Text) (z : ℕ)
    → is_numeral s ≡ true
    → is_plain z ≡ true
    → trim_space (s ++ z ∷ []) ≡ s ++ z ∷ []
trim_space-numeral [] z h last = cc
trim_space-numeral (c ∷ s) z h last = trim_space-plain c s z (ground arith) last

show_unsigned-framed :
    (n : ℕ)
    → show_unsigned n
      ≡ show_digits (n / 100) (n / 100) (b'.' ∷ (b'0' + n / 10 % 10) ∷ []) ++ (b'0' + n % 10) ∷ []
show_unsigned-framed n =
    show_digits-append (n / 100) (n / 100) (b'.' ∷ (b'0' + n / 10 % 10) ∷ []) ((b'0' + n % 10) ∷ [])

trim_space-unsigned : (n : ℕ) → trim_space (show_unsigned n) ≡ show_unsigned n
trim_space-unsigned n =
    ap trim_space (show_unsigned-framed n)
    ∙ trim_space-numeral (show_digits (n / 100) (n / 100) (b'.' ∷ (b'0' + n / 10 % 10) ∷ []))
        (b'0' + n % 10) (show_digits-numeral (n / 100) (n / 100) (b'.' ∷ (b'0' + n / 10 % 10) ∷ []))
        (ground arith)
    ∙ sym (show_unsigned-framed n)

trim_space-negative : (n : ℕ) → trim_space (b'-' ∷ show_unsigned n) ≡ b'-' ∷ show_unsigned n
trim_space-negative n =
    ap (λ s. trim_space (b'-' ∷ s)) (show_unsigned-framed n)
    ∙ trim_space-plain b'-' (show_digits (n / 100) (n / 100) (b'.' ∷ (b'0' + n / 10 % 10) ∷ []))
        (b'0' + n % 10) refl (ground arith)
    ∙ ap (λ s. b'-' ∷ s) (sym (show_unsigned-framed n))

pub is_empty-numeral : (s : Text) → is_numeral s ≡ true → is_empty s ≡ false
is_empty-numeral [] h = cc
is_empty-numeral (c ∷ s) h = refl

strip_sign-minus : (s : Text) → strip_sign (b'-' ∷ s) ≡ (true, s)
unfolding strip_sign
strip_sign-minus s = refl

strip_sign-numeral : (s : Text) → is_numeral s ≡ true → strip_sign s ≡ (false, s)
unfolding strip_sign
strip_sign-numeral [] h = refl
strip_sign-numeral (c ∷ s) h =
    let minus : (c == b'-') ≡ false = ground arith in
    let plus : (c == b'+') ≡ false = ground arith in rw (minus, plus) refl

-- The negation of an amount, wrapped around, as ParseAmount leaves it.
negated_cents : (n : ℕ) → InRange (negsuc n) → neg64 (wrap (pos (suc n))) ≡ negsuc n
unfolding neg64 wrap ◌-ℤ◌
negated_cents n h = ground (arith, h.above)

module _ (floats : Floats) where
  parse_parts-unsigned :
      (n : ℕ)
      → n / 100 ≤ 92233720368547758
      → parse_parts floats (split_once b'.' (show_unsigned n)) ≡ ok (wrap (pos n))
  unfolding parse_parts parse_whole add_fraction pad_two add64
  parse_parts-unsigned n h =
      let small : ltb_ℤ max_whole_part (pos (n / 100)) ≡ false = ground arith in
      rw (split_once-unsigned n, parse_int-whole n h, parse_int-cents n, small)
        (ap ok (wrap-add (pos (n / 100) *ℤ pos 100) (pos (n % 100)) ∙ ap wrap (join_cents n)))

  pub signed-unsigned :
      (n : ℕ) (negative : Bool)
      → n / 100 ≤ 92233720368547758
      → signed floats (negative, show_unsigned n)
        ≡ ok (if negative then neg64 (wrap (pos n)) else wrap (pos n))
  unfolding signed
  signed-unsigned n negative h =
      rw
        (
          is_empty-numeral (show_unsigned n)
              (show_digits-numeral (n / 100) (n / 100) (b'.' ∷ show_cents n)),
          parse_parts-unsigned n h,
        )
        refl

  trimmed :
      (raw s : Text) (p : Bool × Text)
      → trim_space raw ≡ s
      → is_empty s ≡ false
      → strip_sign s ≡ p
      → parse_amount floats raw ≡ signed floats p
  unfolding parse_amount
  trimmed raw s p same filled stripped = rw (same, filled, stripped) refl

  pub parse_amount-unsigned :
      (n : ℕ) → parse_amount floats (show_unsigned n) ≡ signed floats (false, show_unsigned n)
  parse_amount-unsigned n =
      let numeral = show_digits-numeral (n / 100) (n / 100) (b'.' ∷ show_cents n) in
      trimmed (show_unsigned n) (show_unsigned n) (false, show_unsigned n) (trim_space-unsigned n)
        (is_empty-numeral (show_unsigned n) numeral) (strip_sign-numeral (show_unsigned n) numeral)

  -- ParseAmount reads back every amount of cents that an int64 holds, the smallest included, printed
  -- with a minus sign if it is negative, all digits of the whole part, a point and two digits.
  pub parse_amount-show_amount : (a : ℤ) → InRange a → parse_amount floats (show_amount a) ≡ ok a
  unfolding show_amount
  parse_amount-show_amount (pos n) h =
      parse_amount-unsigned n
      ∙ signed-unsigned n false (omega (arith, h.below))
      ∙ ap ok (wrap-of_InRange (pos n) h)
  parse_amount-show_amount (negsuc n) h =
      trimmed (b'-' ∷ show_unsigned (suc n)) (b'-' ∷ show_unsigned (suc n))
        (true, show_unsigned (suc n)) (trim_space-negative (suc n)) refl
        (strip_sign-minus (show_unsigned (suc n)))
      ∙ signed-unsigned (suc n) true (omega (arith, h.above))
      ∙ ap ok (negated_cents n h)
