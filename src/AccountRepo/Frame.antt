-- ===== src/AccountRepo/Frame.antt =====
-- What the writes of the accounts table leave alone.
use financial_wallet.Prelude.{◌≡◌, refl, inl, inr, Bool-cases, Bool, List, [], ◌∷◌, All, arith}
use financial_wallet.Prelude.Int.{ℤ}
use financial_wallet.Text.{Text, text_eq}
use financial_wallet.Domain.Statement.{Time}
use financial_wallet.Schema.{AccountRow, StatementRow, find_account, is_some, set_balance}
use financial_wallet.AccountRepo.{modify_account}
use financial_wallet.StatementRepo.Ledger.{HasBalance}

abbrev pub has_account : Text → List AccountRow → Bool
has_account id accounts = is_some (find_account id accounts)

module _ (id : Text) (change : AccountRow → AccountRow)
    (same_id : (row : AccountRow) → (change row).id ≡ row.id)
    (same_balance : (row : AccountRow) → (change row).balance ≡ row.balance)
    (statements : List StatementRow) where
  pub modify_account-balances :
      (rows : List AccountRow)
      → All (HasBalance statements) rows
      → All (HasBalance statements) (modify_account id change rows)
  unfolding modify_account
  modify_account-balances [] h = tt
  modify_account-balances (row ∷ rows) h = elim (Bool-cases (text_eq row.id id)) [
    | inl same ↦ rw same (rw (same_id row, same_balance row) h.0, modify_account-balances rows h.1)
    | inr other ↦ rw other (h.0, modify_account-balances rows h.1)
  ]

module _ (id : Text) (change : AccountRow → AccountRow)
    (same_id : (row : AccountRow) → (change row).id ≡ row.id) where
  pub has_account-modify :
      (k : Text) (rows : List AccountRow)
      → has_account k (modify_account id change rows) ≡ has_account k rows
  unfolding modify_account find_account
  has_account-modify k [] = refl
  has_account-modify k (row ∷ rows) = ground (arith, same_id row, has_account-modify k rows)

pub has_account-set_balance :
    (id : Text) (balance : ℤ) (now : Time) (k : Text) (rows : List AccountRow)
    → has_account k (set_balance id balance now rows) ≡ has_account k rows
unfolding set_balance find_account
has_account-set_balance id balance now k [] = refl
has_account-set_balance id balance now k (row ∷ rows) =
    ground (arith, has_account-set_balance id balance now k rows)
