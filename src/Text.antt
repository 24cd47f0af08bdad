-- ===== src/Text.antt =====
-- Go strings as the lists of their bytes, with the functions of package strings that the program
-- calls.
pub mod Trim
use Prim.Native.Char.{code}
use Prim.Native.String.{String as Literal}
use mathlib.Core.List.{reverse}
use financial_wallet.Prelude.{
  ℕ, ◌≡◌, refl, ◌↔◌, Bool, true, false, ◌&&◌, ◌||◌, List, [], ◌∷◌, Option, none, some, arith, ◌==◌,
  leb, if◌then◌else◌,
}

abbrev pub Text : Type 0
Text = List ℕ

-- The bytes of an ASCII literal of the source.
abbrev pub codes : Literal → Text
codes Literal.[] = []
codes (Literal.◌∷◌ c s) = code c ∷ codes s

-- `a == b`
unfoldable pub text_eq : Text → Text → Bool
text_eq [] [] = true
text_eq [] (y ∷ ys) = false
text_eq (x ∷ xs) [] = false
text_eq (x ∷ xs) (y ∷ ys) = x == y && text_eq xs ys

pub text_eq_iff : (a b : Text) → (text_eq a b ≡ true) ↔ (a ≡ b)
unfolding text_eq
text_eq_iff [] [] = (λ _. refl, λ _. refl)
text_eq_iff [] (y ∷ ys) = ground arith
text_eq_iff (x ∷ xs) [] = ground arith
text_eq_iff (x ∷ xs) (y ∷ ys) = ground (arith, text_eq_iff xs ys)

pub text_eq_refl : (a : Text) → text_eq a a ≡ true
text_eq_refl a = (text_eq_iff a a).1 refl

pub text_eq_comm : (a b : Text) → text_eq a b ≡ text_eq b a
unfolding text_eq
text_eq_comm [] [] = refl
text_eq_comm [] (y ∷ ys) = refl
text_eq_comm (x ∷ xs) [] = refl
text_eq_comm (x ∷ xs) (y ∷ ys) = ground (arith, text_eq_comm xs ys)

-- `s == ""`
abbrev pub is_empty : Text → Bool
is_empty [] = true
is_empty (x ∷ xs) = false

-- `slices.Contains`, and membership in a set of strings.
unfoldable pub contains : Text → List Text → Bool
contains a [] = false
contains a (x ∷ xs) = text_eq x a || contains a xs

-- `strings.HasPrefix(s, prefix)`
unfoldable pub has_prefix : Text → Text → Bool
has_prefix s [] = true
has_prefix [] (p ∷ ps) = false
has_prefix (c ∷ s) (p ∷ ps) = c == p && has_prefix s ps

-- `strings.SplitN(s, sep, 2)` for a separator of one byte: the text before the first separator, and
-- the text after it where there is one.
unfoldable pub split_once : ℕ → Text → Text × Option Text
split_once sep [] = ([], none)
split_once sep (c ∷ s) =
    let (before, after) = split_once sep s in if c == sep then ([], some s) else (c ∷ before, after)

-- unicode.IsSpace, on the UTF-8 encodings of one, two and three bytes.
space1 : ℕ → Bool
space1 a = leb 9 a && leb a 13 || a == 32

space2 : ℕ → ℕ → Bool
space2 a b = a == 0xc2 && (b == 0x85 || b == 0xa0)

space3 : ℕ → ℕ → ℕ → Bool
space3 a b c =
    a == 0xe1 && (b == 0x9a && c == 0x80)
    || a == 0xe2 && (b == 0x80 && (leb 0x80 c && leb c 0x8a || c == 0xa8 || c == 0xa9 || c == 0xaf))
    || a == 0xe2 && (b == 0x81 && c == 0x9f)
    || a == 0xe3 && (b == 0x80 && c == 0x80)

-- Drops the spaces that a text begins with.
module _ (two : ℕ → ℕ → Bool) (three : ℕ → ℕ → ℕ → Bool) where
  drop_spaces : Text → Text
  drop_spaces [] = []
  drop_spaces (a ∷ []) = if space1 a then [] else a ∷ []
  drop_spaces (a ∷ b ∷ []) =
      let rest1 = drop_spaces (b ∷ []) in
      if space1 a then rest1 else if two a b then [] else a ∷ b ∷ []
  drop_spaces (a ∷ b ∷ c ∷ s) =
      let rest1 = drop_spaces (b ∷ c ∷ s) in
      let rest2 = drop_spaces (c ∷ s) in
      let rest3 = drop_spaces s in
      if space1 a
      then rest1
      else if two a b
      then rest2
      else if three a b c
      then rest3
      else a ∷ b ∷ c ∷ s

-- `strings.TrimSpace`
unfoldable pub trim_space : Text → Text
unfolding drop_spaces space1 space2 space3
trim_space s = reverse (
    drop_spaces (λ a b. space2 b a) (λ a b c. space3 c b a) (reverse (drop_spaces space2 space3 s)))

trim_space_test : trim_space (codes "  a b ") ≡ codes "a b"
unfolding trim_space
trim_space_test = refl

split_once_test : split_once b'.' (codes "12.5.1") ≡ (codes "12", some (codes "5.1"))
unfolding split_once
split_once_test = refl
