-- ===== src/Int64.antt =====
-- Go's `int64`: an integer between -2^63 and 2^63 - 1. Sums, differences and negations wrap around,
-- as the language says; a value is the integer that it stands for.
use financial_wallet.Prelude.{ℕ, ◌+◌, ◌-◌, ◌%◌, ◌^◌, ◌≤◌, ◌<◌, ◌≡◌, ap, arith, ltb, if◌then◌else◌}
use financial_wallet.Prelude.Int.{ℤ, pos, negsuc, pos_part, neg_part, ◌+ℤ◌, ◌-ℤ◌, int_laws}

abbrev pub word : ℕ
word = 2 ^ 64

abbrev pub half_word : ℕ
half_word = 2 ^ 63

-- The 64 bits that stand for an integer, in two's complement.
pub bits : ℤ → ℕ
bits a = (pos_part a + (word - neg_part a % word)) % word

of_bits : ℕ → ℤ
of_bits n = if ltb n half_word then pos n else negsuc (word - 1 - n)

-- The value that remains of an integer in an int64.
unfoldable pub wrap : ℤ → ℤ
unfolding bits of_bits
wrap a = of_bits (bits a)

-- `a + b`, `a - b` and `-a` of int64 values.
unfoldable pub add64 : ℤ → ℤ → ℤ
add64 a b = wrap (a +ℤ b)

unfoldable pub sub64 : ℤ → ℤ → ℤ
sub64 a b = wrap (a -ℤ b)

unfoldable pub neg64 : ℤ → ℤ
neg64 a = wrap (pos 0 -ℤ a)

-- The integers that an int64 holds.
pub record InRange (a : ℤ) : Type 0 where
  pub above : neg_part a ≤ half_word
  pub below : pos_part a < half_word

pub wrap-InRange : (a : ℤ) → InRange (wrap a)
unfolding wrap
wrap-InRange a = ground arith

pub wrap-of_InRange : (a : ℤ) → InRange a → wrap a ≡ a
unfolding wrap
wrap-of_InRange (pos n) h = ground (arith, h.below)
wrap-of_InRange (negsuc n) h = ground (arith, h.above)

bits-of_bits : (n : ℕ) → n < word → bits (of_bits n) ≡ n
unfolding bits of_bits
bits-of_bits n h = ground arith

bits-lt : (a : ℤ) → bits a < word
unfolding bits
bits-lt a = omega arith

pub bits-wrap : (a : ℤ) → bits (wrap a) ≡ bits a
unfolding wrap
bits-wrap a = bits-of_bits (bits a) (bits-lt a)

bits-add : (a b : ℤ) → bits (a +ℤ b) ≡ (bits a + bits b) % word
unfolding bits
bits-add a b = omega int_laws

bits-sub : (a b : ℤ) → bits (a -ℤ b) ≡ (bits a + (word - bits b)) % word
unfolding bits
bits-sub a b = omega int_laws

-- Wrapping first makes no difference to a later sum or difference: the arithmetic is modulo 2^64.
pub wrap-add : (a b : ℤ) → wrap (wrap a +ℤ b) ≡ wrap (a +ℤ b)
unfolding wrap
wrap-add a b = ap of_bits (omega (arith, bits-add (wrap a) b, bits-add a b, bits-wrap a))

pub wrap-sub : (a b : ℤ) → wrap (wrap a -ℤ b) ≡ wrap (a -ℤ b)
unfolding wrap
wrap-sub a b = ap of_bits (omega (arith, bits-sub (wrap a) b, bits-sub a b, bits-wrap a))

pub sub-eq-add_neg : (a b : ℤ) → a -ℤ b ≡ a +ℤ (pos 0 -ℤ b)
sub-eq-add_neg a b = omega int_laws
