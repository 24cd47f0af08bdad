-- ===== src/Wallet/Integrity.antt =====
-- The foreign keys of a primary that any requests led to.
use mathlib.Core.Path.{subst}
use financial_wallet.Prelude.{◌≡◌, true, refl, ◌∙◌, List, ◌∷◌, arith}
use financial_wallet.Text.{Text}
use financial_wallet.Domain.Labels.{Category, Tag}
use financial_wallet.Libs.{Libs}
use financial_wallet.Schema.{AccountRow, Db, find_category, find_tag, set_balance}
use financial_wallet.AccountRepo.{modify_account, updated, deactivated}
use financial_wallet.AccountRepo.Frame.{has_account, has_account-set_balance, has_account-modify}
use financial_wallet.Wallet.Accounts.{has_account-more}
use financial_wallet.LabelRepo.{rename_categories, rename_tags}
use financial_wallet.LabelRepo.Frame.{
  insert_category-rows, update_category_row-rows, delete_category_row-rows, insert_tag-rows,
  update_tag_row-rows, delete_tag_row-rows,
}
use financial_wallet.LabelRepo.Keys.{find_category-rename, find_tag-rename}
use financial_wallet.Wallet.{empty_wallet, Reach}
use financial_wallet.Wallet.Writes.{
  Write, statement_rows, statement_tag_row, account_row, account_balance, account_columns,
  account_closed, statement_category, statement_untagged, category_row, category_name,
  category_gone, tag_row, tag_name, tag_gone, Writes-keep,
}
use financial_wallet.Wallet.Refines.{Reach-Writes}
use financial_wallet.Wallet.References.{IsIntegral, IsIntegral-More, IsKnown-more}
use financial_wallet.Wallet.Foreign.{
  same_rows, statement_rows-IsIntegral, statement_tag_row-IsIntegral, statement_category-IsIntegral,
  statement_untagged-IsIntegral, category_gone-IsIntegral, tag_gone-IsIntegral,
}

module _ (lib : Libs) where
  -- A write of accounts that leaves each of them there.
  accounts-IsIntegral :
      {db db' : Db} (accounts : List AccountRow)
      → ((k : Text) → has_account k db.accounts ≡ true → has_account k accounts ≡ true)
      → record db { accounts = accounts } ≡ db'
      → IsIntegral db
      → IsIntegral db'
  accounts-IsIntegral accounts more same h = subst IsIntegral same (
      IsIntegral-More (record { accounts = more; statements = λ k found. found }) (λ k found. found)
        (λ category known. known) refl refl h)

  Write-IsIntegral : (db db' : Db) → Write lib db db' → IsIntegral db → IsIntegral db'
  unfolding find_category find_tag
  Write-IsIntegral db db' (statement_rows rows e) h = statement_rows-IsIntegral rows db db' e h
  Write-IsIntegral db db' (statement_tag_row statement tag e) h =
      statement_tag_row-IsIntegral statement tag db db' e h
  Write-IsIntegral db db' (account_row row accepted same) h =
      accounts-IsIntegral (row ∷ db.accounts) (has_account-more row db) same h
  Write-IsIntegral db db' (account_balance id balance now same) h =
      accounts-IsIntegral (set_balance id balance now db.accounts)
        (λ k e. has_account-set_balance id balance now k db.accounts ∙ e) same h
  Write-IsIntegral db db' (account_columns id a row found same) h =
      accounts-IsIntegral (modify_account id (updated a) db.accounts)
        (λ k e. has_account-modify id (updated a) (λ row. refl) k db.accounts ∙ e) same h
  Write-IsIntegral db db' (account_closed id now row found same) h =
      accounts-IsIntegral (modify_account id (deactivated now) db.accounts)
        (λ k e. has_account-modify id (deactivated now) (λ row. refl) k db.accounts ∙ e) same h
  Write-IsIntegral db db' (statement_category id category known same) h =
      subst IsIntegral same (statement_category-IsIntegral id category db known h)
  Write-IsIntegral db db' (statement_untagged id same) h =
      subst IsIntegral same (statement_untagged-IsIntegral id db h)
  Write-IsIntegral db db' (category_row c e) h =
      subst IsIntegral (insert_category-rows lib db db' c e) (
        IsIntegral-More (same_rows db (c ∷ db.categories) db.tags db.statement_tags)
          (λ k found. found)
          (IsKnown-more db (record db { categories = c ∷ db.categories }) (λ k found. ground arith))
          refl refl h)
  Write-IsIntegral db db' (category_name id name now e) h =
      subst IsIntegral (update_category_row-rows lib db db' id name now e) (
        IsIntegral-More
          (same_rows db (rename_categories id name now db.categories) db.tags db.statement_tags)
          (λ k found. found)
          (IsKnown-more db (record db { categories = rename_categories id name now db.categories })
            (λ k found. find_category-rename id name now k db.categories ∙ found))
          refl refl h)
  Write-IsIntegral db db' (category_gone id e) h =
      let (unused, same) = delete_category_row-rows lib db db' id e in
      subst IsIntegral same (category_gone-IsIntegral id db unused h)
  Write-IsIntegral db db' (tag_row t e) h = subst IsIntegral (insert_tag-rows lib db db' t e) (
      IsIntegral-More (same_rows db db.categories (t ∷ db.tags) db.statement_tags)
        (λ k found. ground arith) (λ category known. known) refl refl h)
  Write-IsIntegral db db' (tag_name id name now e) h =
      subst IsIntegral (update_tag_row-rows lib db db' id name now e) (
        IsIntegral-More
          (same_rows db db.categories (rename_tags id name now db.tags) db.statement_tags)
          (λ k found. find_tag-rename id name now k db.tags ∙ found) (λ category known. known) refl
          refl h)
  Write-IsIntegral db db' (tag_gone id e) h =
      subst IsIntegral (delete_tag_row-rows lib db db' id e) (tag_gone-IsIntegral id db h)

  -- Whatever requests were made of an empty wallet, in whatever order, with whatever faults and stale
  -- replicas: every statement of the primary is of an account that is there, the statement it reverses
  -- and the category it has, if any, are there, and every tagging joins a statement and a tag that
  -- are there. Removing a category or a tag leaves no reference to it.
  pub Reach-IsIntegral :
      (users : List Text) (categories : List Category) (tags : List Tag) (primary : Db)
      → Reach lib (empty_wallet users categories tags) primary
      → IsIntegral primary
  Reach-IsIntegral users categories tags primary path =
      Writes-keep lib IsIntegral Write-IsIntegral (Reach-Writes lib path)
        (record { statements = tt; tags = tt })
