-- ===== src/Usecases/Create.antt =====
-- create.go: CreateUseCase.Execute.
use financial_wallet.Prelude.{not, Option, List, ◌==◌, if◌then◌else◌}
use financial_wallet.Prelude.Int.{ℤ}
use financial_wallet.Text.{Text, is_empty}
use financial_wallet.Result.{
  Result, ok, ◌>>=◌, ◌>>◌, fail_if, or_error, account_not_active, invalid_posted_at,
}
use financial_wallet.Domain.Statement.{
  Time, Statement, new_statement, new_statement_type, new_amount,
}
use financial_wallet.Libs.{Libs}
use financial_wallet.Ids.{parse_id}
use financial_wallet.Schema.{Db, Faults}
use financial_wallet.StatementRepo.{create}
use financial_wallet.Usecases.Metadata.{
  find_owned_account, resolve_category, resolve_tags, apply_metadata_to_statement,
}
use financial_wallet.Usecases.Output.{StatementOutput, attempt, persisted}

pub record CreateInput : Type 0 where
  pub account_id : Text
  pub requesting_user_id : Text
  pub type : Text
  pub amount : ℤ
  pub description : Text
  pub posted_at : Text
  pub category_id : Option Text
  pub tag_ids : List Text

-- `if !postedAt.IsZero() { stmt.PostedAt = postedAt }`
abbrev pub post_at : Time → Statement → Statement
post_at t s = if t == 0 then s else record s { posted_at = t }

module _ (lib : Libs) where
  -- The zero time where the request gives none.
  pub parse_posted_at : Text → Result Time
  parse_posted_at raw = if is_empty raw then ok 0 else or_error (lib.rfc3339 raw) invalid_posted_at

  -- Every step of Execute before the statement is persisted.
  unfoldable pub build_statement : Faults → Time → Text → CreateInput → Db → Result Statement
  unfolding parse_posted_at
  build_statement f now uuid input replica = do
    account_id ← parse_id lib input.account_id
    account ← find_owned_account lib f account_id input.requesting_user_id replica
    fail_if (not account.active) account_not_active
    type ← new_statement_type input.type
    amount ← new_amount input.amount
    posted_at ← parse_posted_at input.posted_at
    cat ← resolve_category lib f input.category_id account.user_id type replica
    tags ← resolve_tags lib f input.tag_ids account.user_id replica
    ok (
        apply_metadata_to_statement cat tags
          (post_at posted_at (new_statement uuid now account_id type amount input.description)))

  -- The account ID that ParseID gave is the text of the input.
  unfoldable pub create_statement :
      Faults → Time → Text → CreateInput → Db → Db → Result StatementOutput × Db
  unfolding build_statement
  create_statement f now uuid input replica primary =
      attempt (build_statement f now uuid input replica)
        (λ s. persisted s (create lib f now s input.account_id primary)) primary
