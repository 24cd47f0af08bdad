-- ===== src/Wallet/Keeps.antt =====
-- Sequences of statements of SQL, and a predicate of the statements table.
use mathlib.Core.Path.{subst}
use financial_wallet.Prelude.{◌≡◌, sym, Option, List}
use financial_wallet.Text.{Text}
use financial_wallet.Result.{ok}
use financial_wallet.Libs.{Libs}
use financial_wallet.Schema.{StatementRow, Db, place_statement}
use financial_wallet.Schema.Inserts.{place_statements-keep, insert_statements-placed}
use financial_wallet.StatementRepo.Labels.{set_category}
use financial_wallet.StatementRepo.Rows.{SameLedger, insert_statement_tag-same}
use financial_wallet.LabelRepo.Frame.{
  insert_category-same, update_category_row-same, delete_category_row-same, insert_tag-same,
  update_tag_row-same, delete_tag_row-same,
}
use financial_wallet.Wallet.{Reach}
use financial_wallet.Wallet.Writes.{
  Write, statement_rows, statement_tag_row, account_row, account_balance, account_columns,
  account_closed, statement_category, statement_untagged, category_row, category_name,
  category_gone, tag_row, tag_name, tag_gone, Writes-keep,
}
use financial_wallet.Wallet.Refines.{Reach-Writes}

module _ (P : List StatementRow → Type 0)
    (keeps : (row : StatementRow) (db db' : Db)
      → place_statement row db ≡ ok db'
      → P db.statements
      → P db'.statements)
    (relabels : (id : Text) (category : Option Text) (rows : List StatementRow)
      → P rows
      → P (set_category id category rows))
    (lib : Libs) where
  abbrev Holds : Db → Type 0
  Holds db = P db.statements

  SameLedger-Holds : (db db' : Db) → SameLedger db db' → Holds db → Holds db'
  SameLedger-Holds db db' same h = subst P (sym same.statements) h

  Write-Holds : (db db' : Db) → Write lib db db' → Holds db → Holds db'
  Write-Holds db db' (statement_rows rows e) h =
      place_statements-keep P keeps rows db db' (insert_statements-placed rows db db' e).0 h
  Write-Holds db db' (statement_tag_row statement tag e) h =
      SameLedger-Holds db db' (insert_statement_tag-same statement tag db db' e) h
  Write-Holds db db' (account_row row accepted same) h = subst Holds same h
  Write-Holds db db' (account_balance id balance now same) h = subst Holds same h
  Write-Holds db db' (account_columns id a row found same) h = subst Holds same h
  Write-Holds db db' (account_closed id now row found same) h = subst Holds same h
  Write-Holds db db' (statement_category id category known same) h =
      subst Holds same (relabels id category db.statements h)
  Write-Holds db db' (statement_untagged id same) h = subst Holds same h
  Write-Holds db db' (category_row c e) h =
      SameLedger-Holds db db' (insert_category-same lib db db' c e) h
  Write-Holds db db' (category_name id name now e) h =
      SameLedger-Holds db db' (update_category_row-same lib db db' id name now e) h
  Write-Holds db db' (category_gone id e) h =
      SameLedger-Holds db db' (delete_category_row-same lib db db' id e) h
  Write-Holds db db' (tag_row t e) h = SameLedger-Holds db db' (insert_tag-same lib db db' t e) h
  Write-Holds db db' (tag_name id name now e) h =
      SameLedger-Holds db db' (update_tag_row-same lib db db' id name now e) h
  Write-Holds db db' (tag_gone id e) h =
      SameLedger-Holds db db' (delete_tag_row-same lib db db' id e) h

  pub Reach-Holds : {db db' : Db} → Reach lib db db' → Holds db → Holds db'
  Reach-Holds path h = Writes-keep lib Holds Write-Holds (Reach-Writes lib path) h
