-- ===== src/Ofx/Limit.antt =====
-- Amounts with two decimal places of any size, and the limit of ParseAmount.
use financial_wallet.Prelude.{
  ◌≡◌, refl, ap, ℕ, ◌-◌, ◌/◌, ◌^◌, ◌≤◌, ◌<◌, inl, inr, Bool-cases, true, false, [], ◌∷◌, ltb,
  if◌then◌else◌, arith,
}
use financial_wallet.Prelude.Int.{pos, negsuc, ltb_ℤ}
use financial_wallet.Int64.{half_word, wrap}
use financial_wallet.Result.{ok, err, invalid_ofx_amount}
use financial_wallet.Ofx.Amount.{
  Floats, max_whole_part, digits, parse_whole, parse_parts, signed, parse_amount,
}
use financial_wallet.Ofx.Decimal.{
  show_digits, digits-show, show_digits-numeral, parse_int-digits, parse_int-large,
}
use financial_wallet.Ofx.Roundtrip.{
  show_cents, show_unsigned, show_amount, split_once-unsigned, is_empty-numeral, signed-unsigned,
  parse_amount-unsigned,
}

module _ (floats : Floats) where
  refused_whole :
      (n : ℕ)
      → 92233720368547758 < n / 100
      → parse_whole floats (show_digits (n / 100) (n / 100) []) ≡ err invalid_ofx_amount
  unfolding parse_whole digits
  refused_whole n h = elim (Bool-cases (ltb (n / 100) half_word)) [
    | inl fits ↦
        let read =
          parse_int-digits (show_digits (n / 100) (n / 100) []) (n / 100)
            (show_digits-numeral (n / 100) (n / 100) [])
            (digits-show (n / 100) (n / 100) [] (omega arith)) (ground arith) in
        let large : ltb_ℤ max_whole_part (pos (n / 100)) ≡ true = ground arith in
        rw (read, large) refl
    | inr over ↦
        rw
          (parse_int-large (show_digits (n / 100) (n / 100) []) (n / 100)
            (show_digits-numeral (n / 100) (n / 100) [])
            (digits-show (n / 100) (n / 100) [] (omega arith)) (ground arith))
          refl
  ]

  -- What ParseAmount makes of an unsigned amount with two decimal places, of any size: it refuses a
  -- whole part above math.MaxInt64 / 100, and gives the cents of any other amount as the int64 that
  -- remains of them after wrapping around.
  pub parse_amount-limit :
      (n : ℕ)
      → parse_amount floats (show_amount (pos n))
        ≡ (if ltb 92233720368547758 (n / 100) then err invalid_ofx_amount else ok (wrap (pos n)))
  unfolding show_amount signed parse_parts
  parse_amount-limit n = elim (Bool-cases (ltb 92233720368547758 (n / 100))) [
    | inl large ↦
        rw
          (
            large,
            parse_amount-unsigned floats n,
            is_empty-numeral (show_unsigned n)
                (show_digits-numeral (n / 100) (n / 100) (b'.' ∷ show_cents n)),
            split_once-unsigned n,
            refused_whole n (ground arith),
          )
          refl
    | inr fits ↦
        rw (fits, parse_amount-unsigned floats n) (signed-unsigned floats n false (ground arith))
  ]

  -- The limit is too high by up to 91 cents: every unsigned amount from 92233720368547758.08 to
  -- 92233720368547758.99 is accepted, and read as a negative number of cents.
  pub parse_amount-overflow :
      (n : ℕ)
      → half_word ≤ n
      → n ≤ 9223372036854775899
      → (m : ℕ) × (parse_amount floats (show_amount (pos n)) ≡ ok (negsuc m))
  unfolding wrap
  parse_amount-overflow n low high =
      let accepted : ltb 92233720368547758 (n / 100) ≡ false = ground arith in
      let wrapped : wrap (pos n) ≡ negsuc (2 ^ 64 - 1 - n) = ground arith in
      (2 ^ 64 - 1 - n, rw (parse_amount-limit n, accepted) (ap ok wrapped))
