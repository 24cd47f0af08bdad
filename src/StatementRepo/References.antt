-- ===== src/StatementRepo/References.antt =====
-- The reference from statements to accounts under Create, CreateBatch and UpdateCategory.
use mathlib.Core.Path.{subst, subst₂}
use financial_wallet.Prelude.{
  ◌≡◌, refl, sym, ◌∙◌, ap, inl, inr, Bool-cases, true, false, some, List, [], ◌∷◌, All,
}
use financial_wallet.Prelude.Int.{ℤ, pos}
use financial_wallet.Text.{Text, text_eq, text_eq_iff}
use financial_wallet.Result.{ok}
use financial_wallet.Domain.Statement.{Time, Statement}
use financial_wallet.Libs.{Libs}
use financial_wallet.Schema.Commit.{transaction-keeps}
use financial_wallet.Schema.{
  AccountRow, StatementRow, Db, Faults, find_account, set_balance, is_some,
}
use financial_wallet.StatementRepo.{
  new_balance, from_domain_statement, create, create_tx, create_batch, create_batch_tx,
}
use financial_wallet.StatementRepo.Rows.{create_tx-eq_ok}
use financial_wallet.StatementRepo.Ledger.{IsLedger, ledger_total}
use financial_wallet.StatementRepo.Balance.{
  create_batch_tx-eq_ok, create-IsLedger, create_batch-IsLedger,
}
use financial_wallet.StatementRepo.Posted.{AreOf, posted}
use financial_wallet.AccountRepo.Frame.{has_account, has_account-set_balance}

abbrev pub HasAccount : List AccountRow → StatementRow → Type 0
HasAccount accounts row = has_account row.account_id accounts ≡ true

abbrev pub AreReferring : List AccountRow → List StatementRow → Type 0
AreReferring accounts rows = All (HasAccount accounts) rows

-- The accounts may change as long as none disappears.
pub AreReferring-mono :
    (accounts accounts' : List AccountRow) (rows : List StatementRow)
    → ((k : Text) → has_account k accounts ≡ true → has_account k accounts' ≡ true)
    → AreReferring accounts rows
    → AreReferring accounts' rows
AreReferring-mono accounts accounts' [] more h = tt
AreReferring-mono accounts accounts' (row ∷ rows) more h =
    (more row.account_id h.0, AreReferring-mono accounts accounts' rows more h.1)

-- An account that nothing refers to has no statements to sum.
pub ledger_total-unknown :
    (account : Text) (accounts : List AccountRow) (rows : List StatementRow)
    → has_account account accounts ≡ false
    → AreReferring accounts rows
    → ledger_total account rows ≡ pos 0
ledger_total-unknown account accounts [] absent h = refl
ledger_total-unknown account accounts (row ∷ rows) absent h =
    elim (Bool-cases (text_eq row.account_id account)) [
      | inl same ↦ cc (
        absent,
        subst (λ k. has_account k accounts ≡ true) ((text_eq_iff row.account_id account).0 same)
            h.0,
      )
      | inr other ↦ rw other (ledger_total-unknown account accounts rows absent h.1)
    ]

found→has_account :
    (id : Text) (accounts : List AccountRow) (row : AccountRow)
    → find_account id accounts ≡ some row
    → has_account id accounts ≡ true
found→has_account id accounts row e = ap is_some e

module _ (lib : Libs) where
  posted-AreReferring :
      (account : Text) (accounts : List AccountRow) (balance : ℤ) (stmts : List Statement)
      (rows : List StatementRow)
      → has_account account accounts ≡ true
      → AreOf lib account stmts
      → AreReferring accounts rows
      → AreReferring accounts (posted lib balance stmts rows)
  unfolding from_domain_statement
  posted-AreReferring account accounts balance [] rows known own h = h
  posted-AreReferring account accounts balance (s ∷ rest) rows known own h =
      posted-AreReferring account accounts (new_balance s.type balance s.amount) rest
        (from_domain_statement lib (new_balance s.type balance s.amount) s ∷ rows) known own.1
        (rw own.0 known, h)

  after_batch :
      (account : Text) (now : Time) (balance start : ℤ) (accounts : List AccountRow)
      (row : AccountRow) (stmts : List Statement) (rows : List StatementRow)
      → find_account account accounts ≡ some row
      → AreOf lib account stmts
      → AreReferring accounts rows
      → AreReferring (set_balance account balance now accounts) (posted lib start stmts rows)
  after_batch account now balance start accounts row stmts rows found own h =
      AreReferring-mono accounts (set_balance account balance now accounts)
        (posted lib start stmts rows)
        (λ k e. has_account-set_balance account balance now k accounts ∙ e)
        (posted-AreReferring account accounts start stmts rows
          (found→has_account account accounts row found) own h)

  pub create_tx-AreReferring :
      (f : Faults) (now : Time) (s : Statement) (account : Text) (db db' : Db) (balance : ℤ)
      → lib.uuid_text s.account_id ≡ lib.uuid_text account
      → create_tx lib f now s account db ≡ ok (balance, db')
      → AreReferring db.accounts db.statements
      → AreReferring db'.accounts db'.statements
  create_tx-AreReferring f now s account db db' balance own done h =
      let (row, found, b, rows, accounts) =
        create_tx-eq_ok lib f now s account db db' balance done in
      subst₂ AreReferring (sym accounts) (sym rows) (
        subst
          (λ k.
            AreReferring (set_balance (lib.uuid_text account) balance now db.accounts)
              (from_domain_statement lib k s ∷ db.statements))
          (sym b)
          (after_batch (lib.uuid_text account) now balance row.balance db.accounts row (s ∷ [])
            db.statements found (own, tt) h))

  pub create-AreReferring :
      (f : Faults) (now : Time) (s : Statement) (account : Text) (db : Db)
      → lib.uuid_text s.account_id ≡ lib.uuid_text account
      → AreReferring db.accounts db.statements
      → AreReferring
          (create lib f now s account db).1.accounts
          (create lib f now s account db).1.statements
  unfolding create
  create-AreReferring f now s account db own h =
      transaction-keeps (λ d. AreReferring d.accounts d.statements) f.acknowledge
        (create_tx lib f now s account db) db
        (λ balance db' done. create_tx-AreReferring f now s account db db' balance own done h) h

  create_batch_tx-AreReferring :
      (f : Faults) (now : Time) (stmts : List Statement) (account : Text) (db db' : Db)
      (balance : ℤ)
      → AreOf lib (lib.uuid_text account) stmts
      → create_batch_tx lib f now stmts account db ≡ ok (balance, db')
      → AreReferring db.accounts db.statements
      → AreReferring db'.accounts db'.statements
  create_batch_tx-AreReferring f now stmts account db db' balance own done h =
      let (row, found, b, rows, accounts) =
        create_batch_tx-eq_ok lib f now stmts account db db' balance done in
      subst₂ AreReferring (sym accounts) (sym rows) (
        after_batch (lib.uuid_text account) now balance row.balance db.accounts row stmts
          db.statements found own h)

  pub create_batch-AreReferring :
      (f : Faults) (now : Time) (stmts : List Statement) (account : Text) (db : Db)
      → AreOf lib (lib.uuid_text account) stmts
      → AreReferring db.accounts db.statements
      → AreReferring
          (create_batch lib f now stmts account db).1.accounts
          (create_batch lib f now stmts account db).1.statements
  unfolding create_batch
  create_batch-AreReferring f now [] account db own h = h
  create_batch-AreReferring f now (s ∷ rest) account db own h =
      transaction-keeps (λ d. AreReferring d.accounts d.statements) f.acknowledge
        (create_batch_tx lib f now (s ∷ rest) account db) db
        (λ balance db' done.
          create_batch_tx-AreReferring f now (s ∷ rest) account db db' balance own done h)
        h

-- Both: the balances are the sums of the statements, and no statement is of an unknown account.
pub record IsWallet (db : Db) : Type 0 where
  pub ledger : IsLedger db.accounts db.statements
  pub referring : AreReferring db.accounts db.statements

module _ (lib : Libs) (f : Faults) (now : Time) where
  pub create-IsWallet :
      (s : Statement) (account : Text) (db : Db)
      → lib.uuid_text s.account_id ≡ lib.uuid_text account
      → IsWallet db
      → IsWallet (create lib f now s account db).1
  create-IsWallet s account db own h = record {
    ledger = create-IsLedger lib f now s account db own h.ledger;
    referring = create-AreReferring lib f now s account db own h.referring;
  }

  pub create_batch-IsWallet :
      (stmts : List Statement) (account : Text) (db : Db)
      → AreOf lib (lib.uuid_text account) stmts
      → IsWallet db
      → IsWallet (create_batch lib f now stmts account db).1
  create_batch-IsWallet stmts account db own h = record {
    ledger = create_batch-IsLedger lib f now stmts account db own h.ledger;
    referring = create_batch-AreReferring lib f now stmts account db own h.referring;
  }
