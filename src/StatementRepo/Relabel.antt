-- ===== src/StatementRepo/Relabel.antt =====
-- UpdateCategory of statement.go, and the sums, snapshots and references of the ledger.
use financial_wallet.Prelude.{◌≡◌, refl, sym, ◌∙◌, ap, Option, List, [], ◌∷◌, All, arith}
use financial_wallet.Int64.{wrap}
use financial_wallet.Text.{Text}
use financial_wallet.Schema.{AccountRow, StatementRow}
use financial_wallet.StatementRepo.Ledger.{IsLedger, IsChained, HasBalance, ledger_total}
use financial_wallet.StatementRepo.Labels.{relabel, set_category}
use financial_wallet.StatementRepo.References.{AreReferring}

-- A change of a category changes no sum, no snapshot and no reference.
module _ (id : Text) (category : Option Text) where
  pub relabel-account : (row : StatementRow) → (relabel id category row).account_id ≡ row.account_id
  unfolding relabel
  relabel-account row = ground arith

  relabel-type : (row : StatementRow) → (relabel id category row).type ≡ row.type
  unfolding relabel
  relabel-type row = ground arith

  relabel-amount : (row : StatementRow) → (relabel id category row).amount ≡ row.amount
  unfolding relabel
  relabel-amount row = ground arith

  relabel-balance :
      (row : StatementRow) → (relabel id category row).balance_after ≡ row.balance_after
  unfolding relabel
  relabel-balance row = ground arith

  pub ledger_total-set_category :
      (account : Text) (rows : List StatementRow)
      → ledger_total account (set_category id category rows) ≡ ledger_total account rows
  unfolding set_category
  ledger_total-set_category account [] = refl
  ledger_total-set_category account (row ∷ rows) = rw (
    relabel-account row,
    relabel-type row,
    relabel-amount row,
    ledger_total-set_category account rows,
  )

  set_category-IsChained :
      (rows : List StatementRow) → IsChained rows → IsChained (set_category id category rows)
  unfolding set_category
  set_category-IsChained [] h = tt
  set_category-IsChained (row ∷ rows) h = (
    relabel-balance row
        ∙ h.0
        ∙ ap wrap (sym (ledger_total-set_category row.account_id (row ∷ rows)))
        ∙ ap (λ k. wrap (ledger_total k (set_category id category (row ∷ rows))))
            (sym (relabel-account row)),
    set_category-IsChained rows h.1,
  )

  set_category-balances :
      (rows : List StatementRow) (accounts : List AccountRow)
      → All (HasBalance rows) accounts
      → All (HasBalance (set_category id category rows)) accounts
  set_category-balances rows [] h = tt
  set_category-balances rows (a ∷ rest) h =
      (rw (ledger_total-set_category a.id rows) h.0, set_category-balances rows rest h.1)

  pub set_category-IsLedger :
      (accounts : List AccountRow) (rows : List StatementRow)
      → IsLedger accounts rows
      → IsLedger accounts (set_category id category rows)
  set_category-IsLedger accounts rows h = record {
    balances = set_category-balances rows accounts h.balances;
    chain = set_category-IsChained rows h.chain;
  }

  pub set_category-AreReferring :
      (accounts : List AccountRow) (rows : List StatementRow)
      → AreReferring accounts rows
      → AreReferring accounts (set_category id category rows)
  unfolding set_category
  set_category-AreReferring accounts [] h = tt
  set_category-AreReferring accounts (row ∷ rows) h =
      (rw (relabel-account row) h.0, set_category-AreReferring accounts rows h.1)
