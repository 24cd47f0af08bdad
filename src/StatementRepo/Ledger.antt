-- ===== src/StatementRepo/Ledger.antt =====
-- The ledger invariant of the statements table and the balances of the accounts table.
use financial_wallet.Prelude.{
  ◌≡◌, List, [], ◌∷◌, All, false, inl, inr, arith, Bool-cases, if◌then◌else◌,
}
use financial_wallet.Prelude.Int.{ℤ, pos, ◌+ℤ◌, ◌-ℤ◌}
use financial_wallet.Int64.{wrap, add64, sub64, wrap-add, wrap-sub, sub-eq-add_neg}
use financial_wallet.Text.{Text, text_eq, text_eq_iff, text_eq_refl}
use financial_wallet.Domain.Statement.{Time, is_credit}
use financial_wallet.Schema.{AccountRow, StatementRow, set_balance}
use financial_wallet.StatementRepo.{new_balance}

-- The exact sum of the signed amounts of an account, over all integers.
abbrev pub signed : Text → ℤ → ℤ
signed type amount = if is_credit type then amount else pos 0 -ℤ amount

abbrev pub ledger_total : Text → List StatementRow → ℤ
ledger_total account [] = pos 0
ledger_total account (row ∷ rows) =
    let rest = ledger_total account rows in
    if text_eq row.account_id account then rest +ℤ signed row.type row.amount else rest

-- Every statement carries the balance of its account at the time it was written.
abbrev pub IsChained : List StatementRow → Type 0
IsChained [] = Unit
IsChained (row ∷ rows) =
    (row.balance_after ≡ wrap (ledger_total row.account_id (row ∷ rows))) × IsChained rows

abbrev pub HasBalance : List StatementRow → AccountRow → Type 0
HasBalance statements row = row.balance ≡ wrap (ledger_total row.id statements)

-- The balance of each account is the sum of its statements, as an int64, and so is each snapshot.
pub record IsLedger (accounts : List AccountRow) (statements : List StatementRow) : Type 0 where
  pub balances : All (HasBalance statements) accounts
  pub chain : IsChained statements

-- One more statement moves the balance by its signed amount.
pub new_balance-wrap :
    (type : Text) (total amount : ℤ)
    → new_balance type (wrap total) amount ≡ wrap (total +ℤ signed type amount)
unfolding new_balance add64 sub64
new_balance-wrap type total amount = elim (Bool-cases (is_credit type)) [
  | inl credit ↦ rw credit (wrap-add total amount)
  | inr debit ↦ rw (debit, ← sub-eq-add_neg) (wrap-sub total amount)
]

module _ (id : Text) (balance : ℤ) (now : Time) (before after : List StatementRow)
    (others : (k : Text) → text_eq k id ≡ false → ledger_total k after ≡ ledger_total k before)
    (own : balance ≡ wrap (ledger_total id after)) where
  -- Rows with this id take the new balance, and the totals of the other accounts stand.
  pub set_balance-balances :
      (accounts : List AccountRow)
      → All (HasBalance before) accounts
      → All (HasBalance after) (set_balance id balance now accounts)
  unfolding set_balance
  set_balance-balances [] h = tt
  set_balance-balances (a ∷ rest) h = elim (Bool-cases (text_eq a.id id)) [
    | inl same ↦ rw same (simp ((text_eq_iff a.id id).0 same) own, set_balance-balances rest h.1)
    | inr other ↦ rw other (rw (others a.id other) h.0, set_balance-balances rest h.1)
  ]

-- The totals of other accounts do not see a row.
pub ledger_total-other :
    (k : Text) (row : StatementRow) (rows : List StatementRow)
    → text_eq k row.account_id ≡ false
    → ledger_total k (row ∷ rows) ≡ ledger_total k rows
ledger_total-other k row rows other =
    ground (arith, text_eq_iff k row.account_id, text_eq_iff row.account_id k)

pub ledger_total-own :
    (row : StatementRow) (rows : List StatementRow)
    → ledger_total row.account_id (row ∷ rows)
      ≡ ledger_total row.account_id rows +ℤ signed row.type row.amount
ledger_total-own row rows = rw (text_eq_refl row.account_id)
