-- ===== src/StatementRepo/Plain.antt =====
-- Statements that refer to their account alone, as an import makes them, and the INSERT of their rows.
use mathlib.Core.Path.{subst}
use financial_wallet.Prelude.{
  true, ◌≡◌, ◌∙◌, refl, sym, ap, inl, inr, some, none, List, [], ◌∷◌, All,
}
use financial_wallet.Prelude.Int.{ℤ}
use financial_wallet.Text.{Text}
use financial_wallet.Result.{Result-cases}
use financial_wallet.Domain.Statement.{Statement}
use financial_wallet.Libs.{Libs}
use financial_wallet.Schema.{
  AccountRow, StatementRow, Db, find_account, is_some, all_linked, has_links, insert_statement,
  insert_statements, place_statement, place_statements,
}
use financial_wallet.Schema.Inserts.{place_statements-eq_ok}
use financial_wallet.StatementRepo.{
  new_balance, from_domain_statement, text_of_optional, batch_rows,
}

-- A row that refers to its account alone, and to one that is there.
pub record IsFree (accounts : List AccountRow) (row : StatementRow) : Type 0 where
  pub account : is_some (find_account row.account_id accounts) ≡ true
  pub reference : row.reference_id ≡ none
  pub category : row.category_id ≡ none

-- The foreign keys of such rows hold, so that storing them is all of their INSERT.
all_linked-IsFree :
    (db : Db) (rows : List StatementRow) → All (IsFree db.accounts) rows → all_linked db rows ≡ true
unfolding all_linked has_links
all_linked-IsFree db [] h = refl
all_linked-IsFree db (row ∷ rows) h =
    rw (h.0.account, h.0.reference, h.0.category) (all_linked-IsFree db rows h.1)

pub insert_statements-IsFree :
    (rows : List StatementRow) (db : Db)
    → All (IsFree db.accounts) rows
    → insert_statements rows db ≡ place_statements rows db
unfolding insert_statements
insert_statements-IsFree rows db h = elim (Result-cases (place_statements rows db)) [
  | inl (e, failed) ↦ rw failed refl
  | inr (d, placed) ↦
      let same = place_statements-eq_ok rows db d placed in
      let linked : all_linked d rows ≡ true = all_linked-IsFree d rows (
        subst (λ accounts. All (IsFree accounts) rows) (sym (ap (λ (x : Db). x.accounts) same))
          h) in
      rw (placed, linked) refl
]

place_one : (row : StatementRow) (db : Db) → place_statements (row ∷ []) db ≡ place_statement row db
unfolding place_statements
place_one row db = elim (Result-cases (place_statement row db)) [
  | inl (e, failed) ↦ rw failed refl
  | inr (d, placed) ↦ rw placed refl
]

pub insert_statement-IsFree :
    (row : StatementRow) (db : Db)
    → IsFree db.accounts row
    → insert_statement row db ≡ place_statement row db
insert_statement-IsFree row db h = insert_statements-IsFree (row ∷ []) db (h, tt) ∙ place_one row db

-- A statement as an import makes it: of the account, without tags, a category or a statement that it
-- reverses.
pub record IsPlain (lib : Libs) (account : Text) (s : Statement) : Type 0 where
  pub own : lib.uuid_text s.account_id ≡ lib.uuid_text account
  pub untagged : s.tags ≡ []
  pub unreferring : s.reference_id ≡ none
  pub uncategorised : s.category_id ≡ none

pub from_domain_statement-IsFree :
    (lib : Libs) (account : Text) (balance : ℤ) (s : Statement) (accounts : List AccountRow)
    (row : AccountRow)
    → find_account (lib.uuid_text account) accounts ≡ some row
    → IsPlain lib account s
    → IsFree accounts (from_domain_statement lib balance s)
unfolding from_domain_statement text_of_optional
from_domain_statement-IsFree lib account balance s accounts row found plain = record {
  account = rw (plain.own, found) refl;
  reference = rw plain.unreferring refl;
  category = rw plain.uncategorised refl;
}

pub batch_rows-IsFree :
    (lib : Libs) (account : Text) (balance : ℤ) (stmts : List Statement)
    (accounts : List AccountRow) (row : AccountRow)
    → find_account (lib.uuid_text account) accounts ≡ some row
    → All (IsPlain lib account) stmts
    → All (IsFree accounts) (batch_rows lib balance stmts)
unfolding batch_rows
batch_rows-IsFree lib account balance [] accounts row found plain = tt
batch_rows-IsFree lib account balance (s ∷ rest) accounts row found plain = (
  from_domain_statement-IsFree lib account (new_balance s.type balance s.amount) s accounts row
      found plain.0,
  batch_rows-IsFree lib account (new_balance s.type balance s.amount) rest accounts row found
      plain.1,
)
