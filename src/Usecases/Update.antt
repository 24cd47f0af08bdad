-- ===== src/Usecases/Update.antt =====
-- get.go, update_category.go and replace_tags.go: reading a statement, and changing its labels.
use financial_wallet.Prelude.{not, Option, none, some, List, map}
use financial_wallet.Text.{Text, text_eq}
use financial_wallet.Result.{Result, ok, err, ◌>>=◌, ◌>>◌, fail_if, statement_not_found}
use financial_wallet.Domain.Statement.{Statement}
use financial_wallet.Domain.Labels.{Category, Tag}
use financial_wallet.Libs.{Libs}
use financial_wallet.Ids.{parse_id}
use financial_wallet.Schema.{Db, Faults}
use financial_wallet.StatementRepo.Reads.{find_by_id}
use financial_wallet.StatementRepo.Labels.{update_category, replace_tags}
use financial_wallet.Usecases.Metadata.{
  find_owned_account, verify_statement_ownership, resolve_category, resolve_tags, tag_ref,
}
use financial_wallet.Usecases.Output.{StatementOutput, to_output, attempt}

pub record GetInput : Type 0 where
  pub id : Text
  pub account_id : Text
  pub requesting_user_id : Text

pub record UpdateCategoryInput : Type 0 where
  pub statement_id : Text
  pub requesting_user_id : Text
  pub category_id : Option Text

pub record ReplaceTagsInput : Type 0 where
  pub statement_id : Text
  pub requesting_user_id : Text
  pub tag_ids : List Text

-- The statement with the category that the request resolved to, which is kept in its own type.
abbrev labelled : Option Category → Statement → Statement
labelled none s = record s { category_id = none; category = none }
labelled (some cat) s = record s {
  category_id = some cat.id;
  category = some (record { id = cat.id; name = cat.name; type = s.type });
}

abbrev pub category_key : Option Category → Option Text
category_key none = none
category_key (some cat) = some cat.id

unfoldable pub tag_id : Tag → Text
tag_id t = t.id

abbrev pub after_update : Statement → Result (Unit {0}) × Db → Result StatementOutput × Db
after_update s (ok _, db) = (ok (to_output s), db)
after_update s (err e, db) = (err e, db)

module _ (lib : Libs) where
  -- GetUseCase.Execute
  unfoldable pub get_statement : Faults → GetInput → Db → Result StatementOutput
  get_statement f input replica = do
    statement_id ← parse_id lib input.id
    account_id ← parse_id lib input.account_id
    account ← find_owned_account lib f account_id input.requesting_user_id replica
    s ← find_by_id lib f statement_id replica
    fail_if (not (text_eq s.account_id account_id)) statement_not_found
    ok (to_output s)

  unfoldable pub resolve_update :
      Faults → UpdateCategoryInput → Db → Result (Statement × Option Category)
  resolve_update f input replica = do
    statement_id ← parse_id lib input.statement_id
    s ← find_by_id lib f statement_id replica
    requester ← verify_statement_ownership lib f s input.requesting_user_id replica
    cat ← resolve_category lib f input.category_id requester s.type replica
    ok (s, cat)

  -- UpdateCategoryUseCase.Execute
  unfoldable pub update_statement_category :
      Faults → UpdateCategoryInput → Db → Db → Result StatementOutput × Db
  unfolding resolve_update
  update_statement_category f input replica primary =
      attempt (resolve_update f input replica)
        (λ (s, cat).
          after_update (labelled cat s)
            (update_category lib f input.statement_id (category_key cat) primary))
        primary

  unfoldable pub resolve_replace : Faults → ReplaceTagsInput → Db → Result (Statement × List Tag)
  resolve_replace f input replica = do
    statement_id ← parse_id lib input.statement_id
    s ← find_by_id lib f statement_id replica
    requester ← verify_statement_ownership lib f s input.requesting_user_id replica
    tags ← resolve_tags lib f input.tag_ids requester replica
    ok (s, tags)

  -- ReplaceTagsUseCase.Execute
  unfoldable pub replace_statement_tags :
      Faults → ReplaceTagsInput → Db → Db → Result StatementOutput × Db
  unfolding resolve_replace tag_id
  replace_statement_tags f input replica primary =
      attempt (resolve_replace f input replica)
        (λ (s, tags).
          after_update (record s { tags = map tag_ref tags })
            (replace_tags lib f input.statement_id (map tag_id tags) primary))
        primary
