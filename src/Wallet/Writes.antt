-- ===== src/Wallet/Writes.antt =====
-- The statements of SQL that change the primary, one by one, and their sequences.
use financial_wallet.Prelude.{◌∷◌, ◌≡◌, true, Option, none, some, List}
use financial_wallet.Prelude.Int.{ℤ}
use financial_wallet.Text.{Text}
use financial_wallet.Result.{ok}
use financial_wallet.Domain.Statement.{Time}
use financial_wallet.Domain.Account.{Account}
use financial_wallet.Domain.Labels.{Category, Tag}
use financial_wallet.Libs.{Libs}
use financial_wallet.Schema.{
  AccountRow, StatementRow, Db, find_category, is_some, find_account, set_balance,
  insert_statements, insert_statement_tag,
}
use financial_wallet.StatementRepo.Labels.{set_category, delete_statement_tags}
use financial_wallet.AccountRepo.{
  account_violation, check_row, active_row, modify_account, updated, deactivated,
}
use financial_wallet.LabelRepo.{
  insert_category, update_category_row, delete_category_row, insert_tag, update_tag_row,
  delete_tag_row,
}

-- A category column that is NULL or refers to a category.
abbrev pub IsKnown : List Category → Option Text → Type 0
IsKnown categories none = Unit
IsKnown categories (some id) = is_some (find_category id categories) ≡ true

-- One INSERT, UPDATE or DELETE that the constraints accept.
pub data Write (lib : Libs) (db db' : Db) : Type 0 where
  statement_rows :
      (rows : List StatementRow) → insert_statements rows db ≡ ok db' → Write lib db db'
  statement_tag_row :
      (statement tag : Text) → insert_statement_tag statement tag db ≡ ok db' → Write lib db db'
  account_row :
      (row : AccountRow)
      → account_violation db row ≡ none
      → record db { accounts = row ∷ db.accounts } ≡ db'
      → Write lib db db'
  account_balance :
      (id : Text) (balance : ℤ) (now : Time)
      → record db { accounts = set_balance id balance now db.accounts } ≡ db'
      → Write lib db db'
  account_columns :
      (id : Text) (a : Account) (row : AccountRow)
      → check_row (find_account id db.accounts) a.credit_limit ≡ ok row
      → record db { accounts = modify_account id (updated a) db.accounts } ≡ db'
      → Write lib db db'
  account_closed :
      (id : Text) (now : Time) (row : AccountRow)
      → active_row (find_account id db.accounts) ≡ ok row
      → record db { accounts = modify_account id (deactivated now) db.accounts } ≡ db'
      → Write lib db db'
  statement_category :
      (id : Text) (category : Option Text)
      → IsKnown db.categories category
      → record db { statements = set_category id category db.statements } ≡ db'
      → Write lib db db'
  statement_untagged :
      (id : Text)
      → record db { statement_tags = delete_statement_tags id db.statement_tags } ≡ db'
      → Write lib db db'
  category_row : (c : Category) → insert_category lib c db ≡ ok db' → Write lib db db'
  category_name :
      (id name : Text) (now : Time)
      → update_category_row lib id name now db ≡ ok db'
      → Write lib db db'
  category_gone : (id : Text) → delete_category_row lib id db ≡ ok db' → Write lib db db'
  tag_row : (t : Tag) → insert_tag lib t db ≡ ok db' → Write lib db db'
  tag_name :
      (id name : Text) (now : Time) → update_tag_row lib id name now db ≡ ok db' → Write lib db db'
  tag_gone : (id : Text) → delete_tag_row lib id db ≡ ok db' → Write lib db db'

pub data Writes (lib : Libs) (start : Db) : Db → Type 0 where
  no_write : Writes lib start start
  then_write : {db db' : Db} → Writes lib start db → Write lib db db' → Writes lib start db'

pub one-Write : {lib : Libs} {db db' : Db} → Write lib db db' → Writes lib db db'
one-Write w = then_write no_write w

pub Writes-trans : {lib : Libs} {a b c : Db} → Writes lib a b → Writes lib b c → Writes lib a c
Writes-trans first no_write = first
Writes-trans first (then_write more w) = then_write (Writes-trans first more) w

-- What each write keeps, a sequence keeps.
pub Writes-keep :
    (lib : Libs) (P : Db → Type 0)
    → ((db db' : Db) → Write lib db db' → P db → P db')
    → {db db' : Db} → Writes lib db db'
    → P db
    → P db'
Writes-keep lib P keeps no_write h = h
Writes-keep lib P keeps (then_write {db} {db'} before w) h =
    keeps db db' w (Writes-keep lib P keeps before h)
