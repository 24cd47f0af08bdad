-- ===== src/LabelRepo/Keys.antt =====
-- Which categories and tags the statements of SQL of category.go and tag.go leave in their tables.
use financial_wallet.Prelude.{
  ◌≡◌, refl, inl, inr, Bool-cases, true, false, List, [], ◌∷◌, All, arith,
}
use financial_wallet.Text.{Text, text_eq, text_eq_iff}
use financial_wallet.Domain.Statement.{Time}
use financial_wallet.Domain.Labels.{Category, Tag}
use financial_wallet.Schema.{StatementRow, find_category, find_tag, is_some, column_eq}
use financial_wallet.StatementRepo.Labels.{count_category}
use financial_wallet.LabelRepo.{
  rename_categories, renamed_category, rename_tags, renamed_tag, remove_category, remove_tag,
}

module _ (id name : Text) (now : Time) (k : Text) where
  pub find_category-rename :
      (rows : List Category)
      → is_some (find_category k (rename_categories id name now rows))
        ≡ is_some (find_category k rows)
  unfolding rename_categories renamed_category find_category
  find_category-rename [] = refl
  find_category-rename (c ∷ rows) = ground (arith, find_category-rename rows)

  pub find_tag-rename :
      (rows : List Tag)
      → is_some (find_tag k (rename_tags id name now rows)) ≡ is_some (find_tag k rows)
  unfolding rename_tags renamed_tag find_tag
  find_tag-rename [] = refl
  find_tag-rename (t ∷ rows) = ground (arith, find_tag-rename rows)

module _ (id : Text) where
  -- A row with another id than the one that is removed is still there.
  pub find_category-remove :
      (k : Text) (rows : List Category)
      → text_eq k id ≡ false
      → is_some (find_category k rows) ≡ true
      → is_some (find_category k (remove_category id rows)) ≡ true
  unfolding remove_category find_category
  find_category-remove k [] other h = cc
  find_category-remove k (c ∷ rows) other h = elim (Bool-cases (text_eq c.id id)) [
    | inl gone ↦ elim (Bool-cases (text_eq c.id k)) [
      | inl here ↦ cc (other, gone, (text_eq_iff c.id k).0 here)
      | inr there ↦ rw gone (find_category-remove k rows other (rw there at h))
    ]
    | inr stays ↦ elim (Bool-cases (text_eq c.id k)) [
      | inl here ↦ rw (stays, here) refl
      | inr there ↦ rw (stays, there) (find_category-remove k rows other (rw there at h))
    ]
  ]

  pub find_tag-remove :
      (k : Text) (rows : List Tag)
      → text_eq k id ≡ false
      → is_some (find_tag k rows) ≡ true
      → is_some (find_tag k (remove_tag id rows)) ≡ true
  unfolding remove_tag find_tag
  find_tag-remove k [] other h = cc
  find_tag-remove k (t ∷ rows) other h = elim (Bool-cases (text_eq t.id id)) [
    | inl gone ↦ elim (Bool-cases (text_eq t.id k)) [
      | inl here ↦ cc (other, gone, (text_eq_iff t.id k).0 here)
      | inr there ↦ rw gone (find_tag-remove k rows other (rw there at h))
    ]
    | inr stays ↦ elim (Bool-cases (text_eq t.id k)) [
      | inl here ↦ rw (stays, here) refl
      | inr there ↦ rw (stays, there) (find_tag-remove k rows other (rw there at h))
    ]
  ]

  abbrev pub Unlabelled : StatementRow → Type 0
  Unlabelled row = column_eq row.category_id id ≡ false

  -- No statement has a category that counts none.
  pub count_category-zero :
      (rows : List StatementRow) → count_category id rows ≡ 0 → All Unlabelled rows
  unfolding count_category
  count_category-zero [] h = tt
  count_category-zero (row ∷ rows) h = elim (Bool-cases (column_eq row.category_id id)) [
    | inl uses ↦ cc (rw uses at h)
    | inr free ↦ (free, count_category-zero rows (rw free at h))
  ]
