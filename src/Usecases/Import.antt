-- ===== src/Usecases/Import.antt =====
-- import.go: ImportUseCase.Execute. The parsed file is an argument: the OFX parser is an interface
-- of the use case.
use financial_wallet.Prelude.{
  ℕ, suc, Bool, true, not, ◌&&◌, List, [], ◌∷◌, ◌++◌, length, if◌then◌else◌,
}
use financial_wallet.Prelude.Int.{ℤ, pos, ltb_ℤ}
use financial_wallet.Int64.{neg64}
use financial_wallet.Text.{Text, codes, is_empty, contains, trim_space}
use financial_wallet.Result.{Result, ok, err, ◌>>=◌, ◌>>◌, fail_if, account_not_active}
use financial_wallet.Domain.Statement.{
  Time, Statement, type_credit, type_debit, new_amount, new_statement, new_imported_statement,
}
use financial_wallet.Libs.{Libs}
use financial_wallet.Ids.{parse_id}
use financial_wallet.Schema.{Db, Faults}
use financial_wallet.StatementRepo.{create_batch, find_external_ids}
use financial_wallet.Usecases.Metadata.{find_owned_account}
use financial_wallet.Usecases.Output.{attempt}

-- pkg/ofx/types.go
pub record Transaction : Type 0 where
  pub fitid : Text
  pub type : Text
  pub amount : ℤ
  pub name : Text
  pub memo : Text
  pub date_posted : Time

pub record ImportInput : Type 0 where
  pub account_id : Text
  pub requesting_user_id : Text

pub record ImportOutput : Type 0 where
  pub total_transactions : ℕ
  pub created : ℕ
  pub skipped : ℕ

unfoldable pub build_description : Text → Text → Text
unfolding trim_space
build_description name memo =
    let name' = trim_space name in
    let memo' = trim_space memo in
    if not (is_empty name') && not (is_empty memo')
    then name' ++ (codes " - " ++ memo')
    else if not (is_empty name')
    then name'
    else memo'

abbrev pub is_zero : ℤ → Bool
is_zero a = not (ltb_ℤ (pos 0) a) && not (ltb_ℤ a (pos 0))

-- The absolute value in int64: the least integer stays negative, and NewAmount refuses it.
unfoldable pub abs_cents : ℤ → ℤ
abs_cents amount = if ltb_ℤ amount (pos 0) then neg64 amount else amount

unfoldable pub ofx_type : ℤ → Text
ofx_type amount = if ltb_ℤ amount (pos 0) then type_debit else type_credit

unfoldable pub map_ofx_transaction : Time → Text → Text → Transaction → Result Statement
unfolding abs_cents ofx_type new_amount new_imported_statement new_statement
map_ofx_transaction now uuid account_id txn = do
  amount ← new_amount (abs_cents txn.amount)
  let type = ofx_type txn.amount
  let description = build_description txn.name txn.memo
  ok (
      if not (is_empty txn.fitid)
      then new_imported_statement uuid now account_id type amount description txn.fitid
          txn.date_posted
      else record (new_statement uuid now account_id type amount description) {
        posted_at = txn.date_posted;
      })

-- The loop that collects the FITIDs for the lookup.
unfoldable pub collect_fitids : List Transaction → List Text
collect_fitids [] = []
collect_fitids (txn ∷ rest) =
    let ids = collect_fitids rest in if is_empty txn.fitid then ids else txn.fitid ∷ ids

-- A transaction is skipped if its FITID is known for the account, or if it moves nothing.
unfoldable pub is_skipped : List Text → Transaction → Bool
is_skipped existing txn =
    if not (is_empty txn.fitid) && contains txn.fitid existing then true else is_zero txn.amount

module _ (now : Time) (fresh : ℕ → Text) (account_id : Text) (existing : List Text) where
  -- The filter loop: the statements to create, and how many transactions were skipped. `fresh n` is
  -- the identifier drawn for the statement that is built with n transactions still to go.
  unfoldable pub filter_transactions : List Transaction → Result (List Statement × ℕ)
  filter_transactions [] = ok ([], 0)
  filter_transactions (txn ∷ rest) =
      let others = filter_transactions rest in
      if is_skipped existing txn
      then (do (stmts, skipped) ← others; ok (stmts, suc skipped))
      else (do
        s ← map_ofx_transaction now (fresh (length rest)) account_id txn
        (stmts, skipped) ← others
        ok (s ∷ stmts, skipped))

abbrev pub imported : ℕ → List Statement → ℕ → Result ℤ × Db → Result ImportOutput × Db
imported total stmts skipped (ok balance, db) =
    (ok (record { total_transactions = total; created = length stmts; skipped = skipped }), db)
imported total stmts skipped (err e, db) = (err e, db)

module _ (lib : Libs) where
  -- Every step of Execute before the batch is persisted.
  unfoldable pub build_import :
      Faults
      → Time
      → (ℕ → Text)
      → ImportInput
      → Result (List Transaction)
      → Db
      → Db
      → Result (List Transaction × List Statement × ℕ)
  build_import f now fresh input parsed replica primary = do
    account_id ← parse_id lib input.account_id
    account ← find_owned_account lib f account_id input.requesting_user_id replica
    fail_if (not account.active) account_not_active
    txns ← parsed
    existing ← find_external_ids lib f account_id (collect_fitids txns) primary
    (stmts, skipped) ← filter_transactions now fresh account_id existing txns
    ok (txns, stmts, skipped)

  -- CreateBatch gives (0, nil) back for no statements, so Execute's own guard on an empty list is the
  -- first clause of create_batch.
  unfoldable pub import_statements :
      Faults
      → Time
      → (ℕ → Text)
      → ImportInput
      → Result (List Transaction)
      → Db
      → Db
      → Result ImportOutput × Db
  unfolding build_import
  import_statements f now fresh input parsed replica primary =
      attempt (build_import f now fresh input parsed replica primary)
        (λ (txns, stmts, skipped).
          imported (length txns) stmts skipped
            (create_batch lib f now stmts input.account_id primary))
        primary
