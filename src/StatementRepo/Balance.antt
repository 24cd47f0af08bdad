-- ===== src/StatementRepo/Balance.antt =====
-- Create and CreateBatch of statement.go: the rows and balances that they write.
use financial_wallet.Prelude.{refl, ◌≡◌, ◌∙◌, ap, some, List, [], ◌∷◌, arith}
use financial_wallet.Prelude.Int.{ℤ}
use financial_wallet.Text.{Text}
use financial_wallet.Result.{ok, >>=-eq-ok, or_error, account_not_found}
use financial_wallet.Domain.Statement.{Time, Statement}
use financial_wallet.Libs.{Libs}
use financial_wallet.Schema.Commit.{transaction-keeps}
use financial_wallet.Schema.{
  AccountRow, StatementRow, Db, Faults, call, find_account, insert_statements, set_balance,
}
use financial_wallet.Schema.Inserts.{stacked, insert_statements-eq_ok}
use financial_wallet.StatementRepo.{
  new_balance, create, create_tx, create_batch, create_batch_tx, batch_rows, batch_balance,
  insert_statement_tags, insert_batch_tags,
}
use financial_wallet.StatementRepo.Rows.{
  SameLedger, SameLedger-trans, insert_statement_tags-same, create_tx-eq_ok,
}
use financial_wallet.StatementRepo.Ledger.{IsLedger}
use financial_wallet.StatementRepo.Posted.{AreOf, posted, posted-IsLedger}

module _ (lib : Libs) where
  -- A statement that Create commits keeps the ledger.
  create_tx-IsLedger :
      (f : Faults) (now : Time) (s : Statement) (account : Text) (db db' : Db) (balance : ℤ)
      → lib.uuid_text s.account_id ≡ lib.uuid_text account
      → create_tx lib f now s account db ≡ ok (balance, db')
      → IsLedger db.accounts db.statements
      → IsLedger db'.accounts db'.statements
  unfolding batch_balance
  create_tx-IsLedger f now s account db db' balance own e h =
      let (row, found, b, rows, accounts) = create_tx-eq_ok lib f now s account db db' balance e in
      rw (rows, accounts, b)
        (posted-IsLedger lib (lib.uuid_text account) now (s ∷ []) db.accounts db.statements row
          (own, tt) found h)

  -- The rows of a batch stand in the table, the newest in front.
  stacked-batch_rows :
      (balance : ℤ) (stmts : List Statement) (rows : List StatementRow)
      → stacked (batch_rows lib balance stmts) rows ≡ posted lib balance stmts rows
  unfolding batch_rows
  stacked-batch_rows balance [] rows = refl
  stacked-batch_rows balance (s ∷ rest) rows =
      stacked-batch_rows (new_balance s.type balance s.amount) rest _

  batch_inserted :
      (balance : ℤ) (stmts : List Statement) (db db' : Db)
      → insert_statements (batch_rows lib balance stmts) db ≡ ok db'
      → (db'.accounts ≡ db.accounts) × (db'.statements ≡ posted lib balance stmts db.statements)
  batch_inserted balance stmts db db' h =
      let same = insert_statements-eq_ok (batch_rows lib balance stmts) db db' h in
      (
        ap (λ (d : Db). d.accounts) same,
        ap (λ (d : Db). d.statements) same ∙ stacked-batch_rows balance stmts db.statements,
      )

  pub insert_batch_tags-same :
      (f : Faults) (stmts : List Statement) (db db' : Db)
      → insert_batch_tags lib f stmts db ≡ ok db'
      → SameLedger db db'
  unfolding insert_batch_tags
  insert_batch_tags-same f [] db db' h = ground arith
  insert_batch_tags-same f (s ∷ rest) db db' h =
      let (db1, e, k) = >>=-eq-ok (insert_statement_tags lib f s.id s.tags db) _ h in
      SameLedger-trans (insert_statement_tags-same lib f s.id s.tags db db1 e)
        (insert_batch_tags-same f rest db1 db' k)

  -- What a CreateBatch that commits has written.
  pub create_batch_tx-eq_ok :
      (f : Faults) (now : Time) (stmts : List Statement) (account : Text) (db db' : Db)
      (balance : ℤ)
      → create_batch_tx lib f now stmts account db ≡ ok (balance, db')
      → (row : AccountRow) × (find_account (lib.uuid_text account) db.accounts ≡ some row)
        × (balance ≡ batch_balance lib row.balance stmts)
        × (db'.statements ≡ posted lib row.balance stmts db.statements)
        × (db'.accounts ≡ set_balance (lib.uuid_text account) balance now db.accounts)
  unfolding create_batch_tx
  create_batch_tx-eq_ok f now stmts account db db' balance h =
      let (_, _, h1) = >>=-eq-ok (call f.begin) _ h in
      let (_, _, h2) = >>=-eq-ok (call f.lock) _ h1 in
      let (row, e, h3) =
        >>=-eq-ok (or_error (find_account (lib.uuid_text account) db.accounts) account_not_found) _
          h2 in
      let (_, _, h4) = >>=-eq-ok (call f.insert) _ h3 in
      let (db1, e1, h5) =
        >>=-eq-ok (insert_statements (batch_rows lib row.balance stmts) db) _ h4 in
      let (db2, e2, h6) = >>=-eq-ok (insert_batch_tags lib f stmts db1) _ h5 in
      let inserted = batch_inserted row.balance stmts db db1 e1 in
      let tagged = insert_batch_tags-same f stmts db1 db2 e2 in
      (row, ground arith, ground arith, ground arith, ground arith)

  create_batch_tx-IsLedger :
      (f : Faults) (now : Time) (stmts : List Statement) (account : Text) (db db' : Db)
      (balance : ℤ)
      → AreOf lib (lib.uuid_text account) stmts
      → create_batch_tx lib f now stmts account db ≡ ok (balance, db')
      → IsLedger db.accounts db.statements
      → IsLedger db'.accounts db'.statements
  create_batch_tx-IsLedger f now stmts account db db' balance own e h =
      let (row, found, b, rows, accounts) =
        create_batch_tx-eq_ok f now stmts account db db' balance e in
      rw (rows, accounts, b)
        (posted-IsLedger lib (lib.uuid_text account) now stmts db.accounts db.statements row own
          found h)

  -- Whether Create succeeds or fails, and whatever call of the database fails, the ledger holds
  -- afterwards, provided that the statement is of the account whose balance is moved.
  pub create-IsLedger :
      (f : Faults) (now : Time) (s : Statement) (account : Text) (db : Db)
      → lib.uuid_text s.account_id ≡ lib.uuid_text account
      → IsLedger db.accounts db.statements
      → IsLedger
          (create lib f now s account db).1.accounts
          (create lib f now s account db).1.statements
  unfolding create
  create-IsLedger f now s account db own h =
      transaction-keeps (λ d. IsLedger d.accounts d.statements) f.acknowledge
        (create_tx lib f now s account db) db
        (λ balance db' done. create_tx-IsLedger f now s account db db' balance own done h) h

  -- The same of CreateBatch, for any list of statements of the account.
  pub create_batch-IsLedger :
      (f : Faults) (now : Time) (stmts : List Statement) (account : Text) (db : Db)
      → AreOf lib (lib.uuid_text account) stmts
      → IsLedger db.accounts db.statements
      → IsLedger
          (create_batch lib f now stmts account db).1.accounts
          (create_batch lib f now stmts account db).1.statements
  unfolding create_batch
  create_batch-IsLedger f now [] account db own h = h
  create_batch-IsLedger f now (s ∷ rest) account db own h =
      transaction-keeps (λ d. IsLedger d.accounts d.statements) f.acknowledge
        (create_batch_tx lib f now (s ∷ rest) account db) db
        (λ balance db' done.
          create_batch_tx-IsLedger f now (s ∷ rest) account db db' balance own done h)
        h
