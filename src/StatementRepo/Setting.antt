-- ===== src/StatementRepo/Setting.antt =====
-- The write of a balance by Create and CreateBatch, and the rows that are stored after it.
use financial_wallet.Prelude.{
  ◌≡◌, ◌∙◌, refl, ap, inl, inr, Bool-cases, some, none, Option, List, [], ◌∷◌,
}
use financial_wallet.Prelude.Int.{ℤ}
use financial_wallet.Text.{Text, text_eq}
use financial_wallet.Result.{Violation, ok, ◌>>=◌}
use financial_wallet.Domain.Statement.{Time}
use financial_wallet.Schema.{
  AccountRow, StatementRow, Db, find_account, set_balance, place_statement, statement_violation,
  insert_checked,
}

abbrev pub rebalance : ℤ → Time → Option AccountRow → Option AccountRow
rebalance balance now none = none
rebalance balance now (some row) = some (record row { balance = balance; updated_at = now })

module _ (id : Text) (now : Time) where
  pub find_account-set_balance :
      (balance : ℤ) (rows : List AccountRow)
      → find_account id (set_balance id balance now rows)
        ≡ rebalance balance now (find_account id rows)
  unfolding find_account set_balance
  find_account-set_balance balance [] = refl
  find_account-set_balance balance (r ∷ rows) = elim (Bool-cases (text_eq r.id id)) [
    | inl here ↦ rw (here, here) refl
    | inr there ↦ rw (there, there) (find_account-set_balance balance rows)
  ]

  pub set_balance-set_balance :
      (b c : ℤ) (rows : List AccountRow)
      → set_balance id c now (set_balance id b now rows) ≡ set_balance id c now rows
  unfolding set_balance
  set_balance-set_balance b c [] = refl
  set_balance-set_balance b c (r ∷ rows) = elim (Bool-cases (text_eq r.id id)) [
    | inl here ↦
        rw (here, here)
          (ap (λ t. record r { balance = c; updated_at = now } ∷ t)
            (set_balance-set_balance b c rows))
    | inr there ↦ rw (there, there) (ap (λ t. r ∷ t) (set_balance-set_balance b c rows))
  ]

  abbrev pub with_balance : ℤ → Db → Db
  with_balance balance db = record db { accounts = set_balance id balance now db.accounts }

  -- Storing a row does not look at balances.
  statement_violation-with_balance :
      (balance : ℤ) (row : StatementRow) (db : Db)
      → statement_violation (with_balance balance db) row ≡ statement_violation db row
  unfolding statement_violation
  statement_violation-with_balance balance row db = refl

  insert_checked-with_balance :
      (v : Option Violation) (balance : ℤ) (row : StatementRow) (db : Db)
      → insert_checked v row (with_balance balance db)
        ≡ (insert_checked v row db >>= λ d. ok (with_balance balance d))
  insert_checked-with_balance none balance row db = refl
  insert_checked-with_balance (some v) balance row db = refl

  pub place_statement-with_balance :
      (balance : ℤ) (row : StatementRow) (db : Db)
      → place_statement row (with_balance balance db)
        ≡ (place_statement row db >>= λ d. ok (with_balance balance d))
  unfolding place_statement
  place_statement-with_balance balance row db =
      ap (λ v. insert_checked v row (with_balance balance db))
        (statement_violation-with_balance balance row db)
      ∙ insert_checked-with_balance (statement_violation db row) balance row db
