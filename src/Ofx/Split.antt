-- ===== src/Ofx/Split.antt =====
-- Where splitHeaderAndBody cuts a file.
use mathlib.Core.Path.{subst}
use financial_wallet.Prelude.{
  ◌≡◌, refl, sym, ap, ℕ, zero, suc, ◌<◌, Bool, true, false, Option, none, some, [], ◌∷◌,
  if◌then◌else◌, ◌++◌, take, drop, arith,
}
use financial_wallet.Text.{Text, codes}
use financial_wallet.Result.{ok, ok-injective, >>=-eq-ok, Error, or_error, invalid_format}
use financial_wallet.Ofx.Sgml.{
  Header, matches_fold, next_index, index_fold, parse_header, split_header_and_body,
}

-- The separator starts at a position, and at none before it.
pub record IsFirst (sep s : Text) (n : ℕ) : Type 0 where
  pub here : matches_fold sep (drop n s) ≡ true
  pub earlier : (k : ℕ) → k < n → matches_fold sep (drop k s) ≡ false

earlier_at :
    (sep : Text) (c : ℕ) (s : Text) (m : ℕ)
    → matches_fold sep (c ∷ s) ≡ false
    → ((k : ℕ) → k < m → matches_fold sep (drop k s) ≡ false)
    → (k : ℕ) → k < suc m
    → matches_fold sep (drop k (c ∷ s)) ≡ false
earlier_at sep c s m later rest zero lt = later
earlier_at sep c s m later rest (suc k) lt = rest k (omega arith)

-- Either the separator starts at once, or it starts in the rest.
next_index-IsFirst :
    (sep : Text) (c : ℕ) (s : Text) (n : ℕ) (rest : Option ℕ)
    → ((m : ℕ) → rest ≡ some m → IsFirst sep s m)
    → (b : Bool) → matches_fold sep (c ∷ s) ≡ b
    → (if b then some 0 else next_index rest) ≡ some n
    → IsFirst sep (c ∷ s) n
next_index-IsFirst sep c s zero rest found true now h = record {
  here = now;
  earlier = λ k lt. ground arith;
}
next_index-IsFirst sep c s (suc n) rest found true now h = cc
next_index-IsFirst sep c s n none found false later h = cc
next_index-IsFirst sep c s zero (some m) found false later h = cc
next_index-IsFirst sep c s (suc n) (some m) found false later h =
    let first : IsFirst sep s n = found n cc in
    record { here = first.here; earlier = earlier_at sep c s n later first.earlier }

index_fold-IsFirst : (sep s : Text) (n : ℕ) → index_fold sep s ≡ some n → IsFirst sep s n
unfolding index_fold
index_fold-IsFirst sep [] n h = cc
index_fold-IsFirst sep (c ∷ s) n h =
    next_index-IsFirst sep c s n (index_fold sep s) (index_fold-IsFirst sep s)
      (matches_fold sep (c ∷ s)) refl h

or_error-inversion :
    {A : Type 0} (o : Option A) (e : Error) {a : A} → or_error o e ≡ ok a → o ≡ some a
or_error-inversion none e h = cc
or_error-inversion (some a) e h = ap some (ok-injective h)

take-append-drop : (n : ℕ) (s : Text) → take n s ++ drop n s ≡ s
take-append-drop zero s = refl
take-append-drop (suc n) [] = refl
take-append-drop (suc n) (c ∷ s) = ap (λ t. c ∷ t) (take-append-drop n s)

-- When splitHeaderAndBody finds a body, the body is the rest of the file from the first "<OFX>" on, in
-- any mixture of upper and lower case, and the header is parsed from all that stands before it.
pub split_header_and_body-IsFirst :
    (s : Text) (h : Header) (body : Text)
    → split_header_and_body s ≡ ok (h, body)
    → (n : ℕ) × (IsFirst (codes "<OFX>") s n)
      × (h ≡ parse_header (take n s))
      × (take n s ++ body ≡ s)
unfolding split_header_and_body
split_header_and_body-IsFirst s h body e =
    let (n, found, cut) = >>=-eq-ok (or_error (index_fold (codes "<OFX>") s) invalid_format) _ e in
    let parts : (parse_header (take n s), drop n s) ≡ (h, body) = ok-injective cut in
    (
      n,
      index_fold-IsFirst (codes "<OFX>") s n (or_error-inversion _ invalid_format found),
      ap (λ (p : Header × Text). p.0) (sym parts),
      subst (λ b. take n s ++ b ≡ s) (ap (λ (p : Header × Text). p.1) parts) (take-append-drop n s),
    )
