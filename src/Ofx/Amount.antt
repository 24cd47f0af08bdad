-- ===== src/Ofx/Amount.antt =====
-- pkg/ofx/amount.go, with the functions of package strconv that it calls.
use financial_wallet.Prelude.{
  ℕ, zero, suc, ◌+◌, ◌-◌, ◌*◌, Bool, true, false, ◌&&◌, ◌||◌, ◌++◌, Option, none, some, [], ◌∷◌,
  length, leb, ltb, ◌==◌, if◌then◌else◌,
}
use financial_wallet.Prelude.Int.{ℤ, pos, negsuc, ◌*ℤ◌, ltb_ℤ}
use financial_wallet.Int64.{half_word, wrap, add64, neg64}
use financial_wallet.Text.{Text, is_empty, trim_space, split_once}
use financial_wallet.Result.{Result, ok, ◌>>=◌, ◌>>◌, fail_if, or_error, invalid_ofx_amount}

abbrev pub is_digit : ℕ → Bool
is_digit c = leb b'0' c && leb c b'9'

-- The number that decimal digits go on to write after `acc`.
unfoldable pub digits : ℕ → Text → Option ℕ
digits acc [] = some acc
digits acc (c ∷ s) =
    let rest = digits (acc * 10 + (c - b'0')) s in if is_digit c then rest else none

abbrev magnitude : Text → Option ℕ
magnitude [] = none
magnitude (c ∷ s) = digits 0 (c ∷ s)

-- -n
abbrev pub negated : ℕ → ℤ
negated zero = pos 0
negated (suc n) = negsuc n

abbrev below : Option ℕ → Option ℤ
below none = none
below (some n) = if ltb n half_word then some (pos n) else none

abbrev above : Option ℕ → Option ℤ
above none = none
above (some n) = if leb n half_word then some (negated n) else none

-- `strconv.ParseInt(s, 10, 64)`: one sign at most, then digits, in the range of an int64.
unfoldable pub parse_int : Text → Option ℤ
parse_int [] = none
parse_int (c ∷ s) =
    if c == b'-'
    then above (magnitude s)
    else if c == b'+'
    then below (magnitude s)
    else below (magnitude (c ∷ s))

-- The float64 of the source. parse: strconv.ParseFloat(s, 64). cents: math.Round(f * 100).
-- above_max, below_min: the comparisons with float64(math.MaxInt64) and float64(math.MinInt64).
-- to_int: the conversion int64(f).
pub record Floats : Type 1 where
  pub Float : Type 0
  pub parse : Text → Option Float
  pub cents : Float → Float
  pub above_max : Float → Bool
  pub below_min : Float → Bool
  pub to_int : Float → ℤ

-- math.MaxInt64 / 100
abbrev pub max_whole_part : ℤ
max_whole_part = pos 92233720368547758

-- `for len(fracStr) < 2 { fracStr += "0" }`
unfoldable pub pad_two : Text → Text
pad_two [] = b'0' ∷ b'0' ∷ []
pad_two (a ∷ []) = a ∷ b'0' ∷ []
pad_two (a ∷ b ∷ s) = a ∷ b ∷ s

-- The sign at the start of a text, and the text after it.
unfoldable pub strip_sign : Text → Bool × Text
strip_sign [] = (false, [])
strip_sign (c ∷ s) =
    if c == b'-' then (true, s) else if c == b'+' then (false, s) else (false, c ∷ s)

module _ (floats : Floats) where
  unfoldable pub parse_whole : Text → Result ℤ
  parse_whole s = do
    whole ← or_error (parse_int s) invalid_ofx_amount
    fail_if (ltb_ℤ max_whole_part whole) invalid_ofx_amount
    ok whole

  float_cents : Text → Text → Result ℤ
  float_cents whole_text frac_text = do
    f ← or_error (floats.parse (whole_text ++ b'.' ∷ frac_text)) invalid_ofx_amount
    fail_if (floats.above_max (floats.cents f) || floats.below_min (floats.cents f))
        invalid_ofx_amount
    ok (floats.to_int (floats.cents f))

  -- The digits after the point: none, one or two, or more.
  unfoldable pub add_fraction : Text → Text → ℤ → Result ℤ
  unfolding float_cents
  add_fraction whole_text frac_text whole =
      if is_empty frac_text
      then ok (wrap (whole *ℤ pos 100))
      else if leb (length frac_text) 2
      then (do
        frac ← or_error (parse_int (pad_two frac_text)) invalid_ofx_amount
        ok (add64 (wrap (whole *ℤ pos 100)) frac))
      else float_cents whole_text frac_text

  unfoldable pub parse_parts : Text × Option Text → Result ℤ
  parse_parts (whole_text, none) = do whole ← parse_whole whole_text; ok (wrap (whole *ℤ pos 100))
  parse_parts (whole_text, some frac_text) = do
    whole ← parse_whole whole_text
    add_fraction whole_text frac_text whole

  unfoldable pub signed : Bool × Text → Result ℤ
  signed (negative, s) = do
    fail_if (is_empty s) invalid_ofx_amount
    cents ← parse_parts (split_once b'.' s)
    ok (if negative then neg64 cents else cents)

  -- ParseAmount
  unfoldable pub parse_amount : Text → Result ℤ
  unfolding signed
  parse_amount raw =
      let s = trim_space raw in do fail_if (is_empty s) invalid_ofx_amount; signed (strip_sign s)
