-- ===== src/Text/Trim.antt =====
-- strings.TrimSpace on texts that neither begin nor end with a space.
use mathlib.Core.List.{reverse, reverse-append, reverse-reverse}
use financial_wallet.Prelude.{
  ℕ, ◌≡◌, refl, sym, ap, ◌∙◌, Bool, true, false, ◌&&◌, [], ◌∷◌, ◌++◌, leb, arith,
}
use financial_wallet.Text.{Text, trim_space, drop_spaces, space1, space2, space3}

-- A byte that is neither a space nor a part of a longer character.
abbrev pub is_plain : ℕ → Bool
is_plain c = leb 33 c && leb c 126

drop_spaces-plain :
    (two : ℕ → ℕ → Bool) (three : ℕ → ℕ → ℕ → Bool) (a : ℕ) (s : Text)
    → is_plain a ≡ true
    → ((b : ℕ) → two a b ≡ false)
    → ((b c : ℕ) → three a b c ≡ false)
    → drop_spaces two three (a ∷ s) ≡ a ∷ s
unfolding drop_spaces space1
drop_spaces-plain two three a [] h no_two no_three = ground arith
drop_spaces-plain two three a (b ∷ []) h no_two no_three = ground (arith, no_two b)
drop_spaces-plain two three a (b ∷ c ∷ s) h no_two no_three =
    let solid : space1 a ≡ false = ground arith in rw (solid, no_two b, no_three b c) refl

pub trim_space-plain :
    (a : ℕ) (mid : Text) (z : ℕ)
    → is_plain a ≡ true
    → is_plain z ≡ true
    → trim_space (a ∷ (mid ++ z ∷ [])) ≡ a ∷ (mid ++ z ∷ [])
unfolding trim_space space2 space3
trim_space-plain a mid z first last =
    let turned : reverse (a ∷ (mid ++ z ∷ [])) ≡ z ∷ reverse (a ∷ mid) =
      reverse-append (a ∷ mid) (z ∷ []) in
    let front : drop_spaces space2 space3 (a ∷ (mid ++ z ∷ [])) ≡ a ∷ (mid ++ z ∷ []) =
      drop_spaces-plain space2 space3 a (mid ++ z ∷ []) first (λ b. ground arith)
        (λ b c. ground arith) in
    let back =
      drop_spaces-plain (λ a b. space2 b a) (λ a b c. space3 c b a) z (reverse (a ∷ mid)) last
        (λ b. ground arith) (λ b c. ground arith) in
    ap (λ s. reverse (drop_spaces (λ a b. space2 b a) (λ a b c. space3 c b a) (reverse s))) front
    ∙ ap (λ s. reverse (drop_spaces (λ a b. space2 b a) (λ a b c. space3 c b a) s)) turned
    ∙ ap reverse back
    ∙ ap reverse (sym turned)
    ∙ reverse-reverse (a ∷ (mid ++ z ∷ []))
