-- ===== src/StatementRepo/Posted.antt =====
-- The rows of a batch, posted one after the other on the balance of their account.
use mathlib.Core.Path.{subst}
use financial_wallet.Prelude.{◌≡◌, refl, sym, ◌∙◌, ap, false, some, List, [], ◌∷◌, All}
use financial_wallet.Prelude.Int.{ℤ, ◌+ℤ◌}
use financial_wallet.Int64.{wrap}
use financial_wallet.Text.{Text, text_eq, text_eq_refl}
use financial_wallet.Domain.Statement.{Time, Statement}
use financial_wallet.Libs.{Libs}
use financial_wallet.Schema.{AccountRow, StatementRow, find_account, set_balance}
use financial_wallet.StatementRepo.{new_balance, from_domain_statement, batch_balance}
use financial_wallet.StatementRepo.Rows.{find_account-All}
use financial_wallet.StatementRepo.Ledger.{
  IsLedger, IsChained, HasBalance, ledger_total, signed, new_balance-wrap, set_balance-balances,
  ledger_total-other, ledger_total-own,
}

-- A row whose snapshot is the old total and its own amount carries the new total.
row-IsChained :
    (account : Text) (row : StatementRow) (rows : List StatementRow)
    → row.account_id ≡ account
    → row.balance_after ≡ wrap (ledger_total account rows +ℤ signed row.type row.amount)
    → row.balance_after ≡ wrap (ledger_total row.account_id (row ∷ rows))
row-IsChained account row rows own e =
    subst (λ k. row.balance_after ≡ wrap (ledger_total k rows +ℤ signed row.type row.amount))
      (sym own) e
    ∙ ap wrap (sym (ledger_total-own row rows))

-- All statements are of one account.
abbrev pub AreOf : Libs → Text → List Statement → Type 0
AreOf lib account = All (λ s. lib.uuid_text s.account_id ≡ account)

module _ (lib : Libs) where
  -- The table after the rows of a batch, the newest in front.
  abbrev pub posted : ℤ → List Statement → List StatementRow → List StatementRow
  posted balance [] rows = rows
  posted balance (s ∷ rest) rows =
      posted (new_balance s.type balance s.amount) rest
        (from_domain_statement lib (new_balance s.type balance s.amount) s ∷ rows)

  module _ (account : Text) where
    -- A statement of the account, posted on a balance that is its total, carries the new total.
    post_one :
        (s : Statement) (balance : ℤ) (rows : List StatementRow)
        → lib.uuid_text s.account_id ≡ account
        → balance ≡ wrap (ledger_total account rows)
        → new_balance s.type balance s.amount
          ≡ wrap (
              ledger_total account
                (from_domain_statement lib (new_balance s.type balance s.amount) s ∷ rows))
    unfolding from_domain_statement
    post_one s balance rows own e =
        simp (own, text_eq_refl)
          (rw e (new_balance-wrap s.type (ledger_total account rows) s.amount))

    posted-total :
        (balance : ℤ) (stmts : List Statement) (rows : List StatementRow)
        → AreOf lib account stmts
        → balance ≡ wrap (ledger_total account rows)
        → batch_balance lib balance stmts ≡ wrap (ledger_total account (posted balance stmts rows))
    unfolding batch_balance
    posted-total balance [] rows own e = e
    posted-total balance (s ∷ rest) rows own e =
        posted-total (new_balance s.type balance s.amount) rest
          (from_domain_statement lib (new_balance s.type balance s.amount) s ∷ rows) own.1
          (post_one s balance rows own.0 e)

    posted-IsChained :
        (balance : ℤ) (stmts : List Statement) (rows : List StatementRow)
        → AreOf lib account stmts
        → balance ≡ wrap (ledger_total account rows)
        → IsChained rows
        → IsChained (posted balance stmts rows)
    unfolding from_domain_statement
    posted-IsChained balance [] rows own e h = h
    posted-IsChained balance (s ∷ rest) rows own e h =
        posted-IsChained (new_balance s.type balance s.amount) rest
          (from_domain_statement lib (new_balance s.type balance s.amount) s ∷ rows) own.1
          (post_one s balance rows own.0 e)
          (
            row-IsChained account
                (from_domain_statement lib (new_balance s.type balance s.amount) s) rows own.0
                (rw e (new_balance-wrap s.type (ledger_total account rows) s.amount)),
            h,
          )

    posted-others :
        (k : Text) (balance : ℤ) (stmts : List Statement) (rows : List StatementRow)
        → AreOf lib account stmts
        → text_eq k account ≡ false
        → ledger_total k (posted balance stmts rows) ≡ ledger_total k rows
    unfolding from_domain_statement
    posted-others k balance [] rows own other = refl
    posted-others k balance (s ∷ rest) rows own other =
        posted-others k (new_balance s.type balance s.amount) rest
          (from_domain_statement lib (new_balance s.type balance s.amount) s ∷ rows) own.1 other
        ∙ ledger_total-other k (from_domain_statement lib (new_balance s.type balance s.amount) s)
            rows (rw own.0 other)

    -- Posting a batch on an account that is found, and setting its balance, keeps the ledger.
    pub posted-IsLedger :
        (now : Time) (stmts : List Statement) (accounts : List AccountRow)
        (rows : List StatementRow) (row : AccountRow)
        → AreOf lib account stmts
        → find_account account accounts ≡ some row
        → IsLedger accounts rows
        → IsLedger
            (set_balance account (batch_balance lib row.balance stmts) now accounts)
            (posted row.balance stmts rows)
    posted-IsLedger now stmts accounts rows row own e h =
        let (held, same) = find_account-All (HasBalance rows) account accounts row h.balances e in
        let total : row.balance ≡ wrap (ledger_total account rows) =
          subst (λ k. row.balance ≡ wrap (ledger_total k rows)) same held in
        record {
          balances =
              set_balance-balances account (batch_balance lib row.balance stmts) now rows
                (posted row.balance stmts rows)
                (λ k other. posted-others k row.balance stmts rows own other)
                (posted-total row.balance stmts rows own total) accounts h.balances;
          chain = posted-IsChained row.balance stmts rows own total h.chain;
        }
