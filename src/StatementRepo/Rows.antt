-- ===== src/StatementRepo/Rows.antt =====
-- What the inserts of the statement repository write, and what they leave alone.
use mathlib.Core.Path.{subst}
use financial_wallet.Prelude.{◌≡◌, refl, ◌∙◌, some, List, [], ◌∷◌, All, arith, inl, inr, Bool-cases}
use financial_wallet.Prelude.Int.{ℤ}
use financial_wallet.Text.{Text, text_eq, text_eq_iff}
use financial_wallet.Result.{ok, >>=-eq-ok, or_error, account_not_found}
use financial_wallet.Domain.Statement.{Time, TagRef, Statement}
use financial_wallet.Libs.{Libs}
use financial_wallet.Schema.{
  AccountRow, Db, Faults, call, find_account, insert_statement, insert_statement_tag, set_balance,
}
use financial_wallet.Schema.Inserts.{insert_statement-eq_ok}
use financial_wallet.StatementRepo.{
  new_balance, from_domain_statement, insert_tags_loop, insert_statement_tags, create_tx,
}

pub record SameLedger (db db' : Db) : Type 0 where
  pub accounts : db'.accounts ≡ db.accounts
  pub statements : db'.statements ≡ db.statements

pub SameLedger-refl : (db : Db) → SameLedger db db
SameLedger-refl db = record { accounts = refl; statements = refl }

pub SameLedger-trans : {a b c : Db} → SameLedger a b → SameLedger b c → SameLedger a c
SameLedger-trans h k = record {
  accounts = k.accounts ∙ h.accounts;
  statements = k.statements ∙ h.statements;
}

pub insert_statement_tag-same :
    (statement tag : Text) (db db' : Db)
    → insert_statement_tag statement tag db ≡ ok db'
    → SameLedger db db'
unfolding insert_statement_tag
insert_statement_tag-same statement tag db db' h = ground arith

module _ (lib : Libs) where
  insert_tags_loop-same :
      (statement : Text) (refs : List TagRef) (db db' : Db)
      → insert_tags_loop lib statement refs db ≡ ok db'
      → SameLedger db db'
  unfolding insert_tags_loop
  insert_tags_loop-same statement [] db db' h = ground arith
  insert_tags_loop-same statement (ref ∷ refs) db db' h =
      let (db1, e, k) =
        >>=-eq-ok (insert_statement_tag (lib.uuid_text statement) (lib.uuid_text ref.id) db)
          (insert_tags_loop lib statement refs) h in
      SameLedger-trans
        (insert_statement_tag-same (lib.uuid_text statement) (lib.uuid_text ref.id) db db1 e)
        (insert_tags_loop-same statement refs db1 db' k)

  pub insert_statement_tags-same :
      (f : Faults) (statement : Text) (refs : List TagRef) (db db' : Db)
      → insert_statement_tags lib f statement refs db ≡ ok db'
      → SameLedger db db'
  unfolding insert_statement_tags
  insert_statement_tags-same f statement [] db db' h = ground arith
  insert_statement_tags-same f statement (ref ∷ refs) db db' h =
      let (_, _, k) =
        >>=-eq-ok (call f.insert_tags) (λ _. insert_tags_loop lib statement (ref ∷ refs) db) h in
      insert_tags_loop-same statement (ref ∷ refs) db db' k

  -- What a Create that commits has written.
  pub create_tx-eq_ok :
      (f : Faults) (now : Time) (s : Statement) (account : Text) (db db' : Db) (balance : ℤ)
      → create_tx lib f now s account db ≡ ok (balance, db')
      → (row : AccountRow) × (find_account (lib.uuid_text account) db.accounts ≡ some row)
        × (balance ≡ new_balance s.type row.balance s.amount)
        × (db'.statements ≡ from_domain_statement lib balance s ∷ db.statements)
        × (db'.accounts ≡ set_balance (lib.uuid_text account) balance now db.accounts)
  unfolding create_tx
  create_tx-eq_ok f now s account db db' balance h =
      let (_, _, h1) = >>=-eq-ok (call f.begin) _ h in
      let (_, _, h2) = >>=-eq-ok (call f.lock) _ h1 in
      let (row, e, h3) =
        >>=-eq-ok (or_error (find_account (lib.uuid_text account) db.accounts) account_not_found) _
          h2 in
      let (_, _, h4) = >>=-eq-ok (call f.insert) _ h3 in
      let (db1, e1, h5) =
        >>=-eq-ok
          (insert_statement (from_domain_statement lib (new_balance s.type row.balance s.amount) s)
            db)
          _ h4 in
      let (db2, e2, h6) = >>=-eq-ok (insert_statement_tags lib f s.id s.tags db1) _ h5 in
      let inserted =
        insert_statement-eq_ok
          (from_domain_statement lib (new_balance s.type row.balance s.amount) s) db db1 e1 in
      let tagged = insert_statement_tags-same f s.id s.tags db1 db2 e2 in
      (row, ground arith, ground arith, ground arith, ground arith)

-- An account that is found has the id, and whatever holds of every row.
pub find_account-All :
    (P : AccountRow → Type 0) (id : Text) (rows : List AccountRow) (row : AccountRow)
    → All P rows
    → find_account id rows ≡ some row
    → P row × (row.id ≡ id)
unfolding find_account
find_account-All P id [] row h e = cc
find_account-All P id (a ∷ rest) row h e = elim (Bool-cases (text_eq a.id id)) [
  | inl same ↦
      let found : a ≡ row = ground arith in
      (subst P found h.0, rw (← found) ((text_eq_iff a.id id).0 same))
  | inr other ↦ find_account-All P id rest row h.1 (ground arith)
]
