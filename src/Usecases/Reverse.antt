-- ===== src/Usecases/Reverse.antt =====
-- reverse.go: ReverseUseCase.Execute.
use financial_wallet.Prelude.{not, some, ◌++◌, if◌then◌else◌}
use financial_wallet.Text.{Text, codes, text_eq, is_empty}
use financial_wallet.Result.{
  Result, ok, ◌>>=◌, ◌>>◌, fail_if, account_not_active, statement_not_found, already_reversed,
}
use financial_wallet.Domain.Statement.{
  Time, Statement, is_credit, opposite, new_reversal_statement, with_category,
}
use financial_wallet.Domain.Labels.{estorno_credit_id, estorno_debit_id}
use financial_wallet.Libs.{Libs}
use financial_wallet.Ids.{parse_id}
use financial_wallet.Schema.{Db, Faults}
use financial_wallet.StatementRepo.{create, has_reversal}
use financial_wallet.StatementRepo.Reads.{find_by_id}
use financial_wallet.Usecases.Metadata.{find_owned_account}
use financial_wallet.Usecases.Output.{StatementOutput, attempt, persisted}

pub record ReverseInput : Type 0 where
  pub statement_id : Text
  pub account_id : Text
  pub requesting_user_id : Text
  pub description : Text

unfoldable pub default_estorno_category_id : Text → Text
default_estorno_category_id type = if is_credit type then estorno_credit_id else estorno_debit_id

reversal_description : Text → Text → Text
reversal_description given statement_id =
    if is_empty given then codes "Reversal of statement " ++ statement_id else given

-- The reversal of a statement, with its default category and no tags.
unfoldable pub new_reversal : Time → Text → ReverseInput → Statement → Statement
unfolding default_estorno_category_id reversal_description new_reversal_statement opposite
    with_category
new_reversal now uuid input original =
    let reversal =
      new_reversal_statement uuid now input.account_id (opposite original.type) original.amount
        (reversal_description input.description input.statement_id) input.statement_id in
    let estorno = default_estorno_category_id reversal.type in
    record (with_category estorno reversal) {
      category = some (record { id = estorno; name = codes "Estorno"; type = reversal.type });
    }

module _ (lib : Libs) where
  -- Every step of Execute before the reversal is persisted.
  unfoldable pub build_reversal : Faults → Time → Text → ReverseInput → Db → Db → Result Statement
  build_reversal f now uuid input replica primary = do
    statement_id ← parse_id lib input.statement_id
    account_id ← parse_id lib input.account_id
    account ← find_owned_account lib f account_id input.requesting_user_id replica
    fail_if (not account.active) account_not_active
    original ← find_by_id lib f statement_id replica
    fail_if (not (text_eq original.account_id account_id)) statement_not_found
    reversed ← has_reversal lib f statement_id primary
    fail_if reversed already_reversed
    ok (new_reversal now uuid input original)

  unfoldable pub reverse_statement :
      Faults → Time → Text → ReverseInput → Db → Db → Result StatementOutput × Db
  unfolding build_reversal
  reverse_statement f now uuid input replica primary =
      attempt (build_reversal f now uuid input replica primary)
        (λ s. persisted s (create lib f now s input.account_id primary)) primary
