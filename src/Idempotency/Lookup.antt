-- ===== src/Idempotency/Lookup.antt =====
-- What SET and DEL of a key leave to GET.
use financial_wallet.Prelude.{
  ◌≡◌, refl, ap, ◌∙◌, inl, inr, Bool-cases, ℕ, ◌<◌, true, false, none, some, List, [], ◌∷◌, ltb,
  arith,
}
use financial_wallet.Text.{Text, text_eq, text_eq_iff, text_eq_refl}
use financial_wallet.Idempotency.{Entry, Cell, lookup, drop_key, put}

module _ (now : ℕ) where
  pub lookup-drop_key :
      (key : Text) (cells : List Cell) → lookup now key (drop_key key cells) ≡ none
  unfolding lookup drop_key
  lookup-drop_key key [] = refl
  lookup-drop_key key (c ∷ cells) = ground (arith, lookup-drop_key key cells)

  pub lookup-drop_other :
      (key k : Text) (cells : List Cell)
      → text_eq key k ≡ false
      → lookup now k (drop_key key cells) ≡ lookup now k cells
  unfolding lookup drop_key
  lookup-drop_other key k [] other = refl
  lookup-drop_other key k (c ∷ cells) other = elim (Bool-cases (text_eq c.key key)) [
    | inl gone ↦
        let away : text_eq c.key k ≡ false =
          ap (λ x. text_eq x k) ((text_eq_iff c.key key).0 gone) ∙ other in
        rw (gone, away) (lookup-drop_other key k cells other)
    | inr stays ↦ elim (Bool-cases (text_eq c.key k)) [
      | inl here ↦ rw (stays, here) refl
      | inr there ↦ rw (stays, there) (lookup-drop_other key k cells other)
    ]
  ]

  pub lookup-put :
      (key : Text) (entry : Entry) (deadline : ℕ) (cells : List Cell)
      → now < deadline
      → lookup now key (put key entry deadline cells) ≡ some entry
  unfolding lookup put
  lookup-put key entry deadline cells alive =
      let live : ltb now deadline ≡ true = ground arith in rw (text_eq_refl key, live) refl

  pub lookup-put_other :
      (key k : Text) (entry : Entry) (deadline : ℕ) (cells : List Cell)
      → text_eq key k ≡ false
      → lookup now k (put key entry deadline cells) ≡ lookup now k cells
  unfolding lookup put
  lookup-put_other key k entry deadline cells other = rw other (lookup-drop_other key k cells other)
