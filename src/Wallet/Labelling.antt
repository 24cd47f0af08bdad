-- ===== src/Wallet/Labelling.antt =====
-- update_category.go and replace_tags.go, and the accounts.
use mathlib.Core.Path.{subst}
use financial_wallet.Prelude.{◌||◌, ◌≡◌, refl, ap, inl, inr, not, Option, List, map}
use financial_wallet.Text.{Text}
use financial_wallet.Result.{ok, ok-injective, >>=-eq-ok, Result-cases}
use financial_wallet.Libs.{Libs}
use financial_wallet.Schema.{Db, Faults, find_statement, is_some}
use financial_wallet.Schema.Commit.{transaction-keeps}
use financial_wallet.StatementRepo.Ledger.{ledger_total}
use financial_wallet.StatementRepo.Labels.{
  update_category, update_category_tx, check_category, text_of_category, replace_tags,
  replace_tags_tx,
}
use financial_wallet.StatementRepo.Relabel.{ledger_total-set_category}
use financial_wallet.Usecases.Steps.{fail_if-bind}
use financial_wallet.Usecases.Update.{
  UpdateCategoryInput, ReplaceTagsInput, update_statement_category, replace_statement_tags,
  resolve_update, resolve_replace, category_key, tag_id,
}
use financial_wallet.Wallet.Labels.{after_update-db, replace_tags_tx-same}

-- The same accounts, and the same sum of an account.
abbrev pub SameAccounting : Text → Db → Db → Type 0
SameAccounting account before after =
    (after.accounts ≡ before.accounts)
    × (ledger_total account after.statements ≡ ledger_total account before.statements)

module _ (lib : Libs) (f : Faults) (account : Text) where
  update_category_tx-SameAccounting :
      (statement : Text) (category : Option Text) (db : Db) (x : Unit {0}) (db' : Db)
      → update_category_tx lib f statement category db ≡ ok (x, db')
      → SameAccounting account db db'
  unfolding update_category_tx
  update_category_tx-SameAccounting statement category db x db' e =
      let (_, e1) = fail_if-bind _ _ _ e in
      let (_, e2) =
        fail_if-bind (not (is_some (find_statement (lib.uuid_text statement) db.statements))) _ _
          e1 in
      let (_, _, e3) = >>=-eq-ok (check_category lib category db) _ e2 in
      subst (SameAccounting account db) (ap (λ p. p.1) (ok-injective e3)) (
        refl,
        ledger_total-set_category (lib.uuid_text statement) (text_of_category lib category) account
            db.statements,
      )

  replace_tags_tx-SameAccounting :
      (statement : Text) (tag_ids : List Text) (db : Db) (x : Unit {0}) (db' : Db)
      → replace_tags_tx lib f statement tag_ids db ≡ ok (x, db')
      → SameAccounting account db db'
  replace_tags_tx-SameAccounting statement tag_ids db x db' e =
      let same = replace_tags_tx-same lib f statement tag_ids db db' x e in
      (same.accounts, ap (ledger_total account) same.statements)

  -- Changing the category or the tags of a statement, whether it succeeds or fails, changes no account
  -- and no account's sum.
  pub labels-SameAccounting :
      (relabelling : UpdateCategoryInput) (tagging : ReplaceTagsInput) (replica primary : Db)
      → SameAccounting account primary
          (update_statement_category lib f relabelling replica primary).1
        × SameAccounting account primary (replace_statement_tags lib f tagging replica primary).1
  unfolding update_statement_category replace_statement_tags update_category replace_tags
  labels-SameAccounting relabelling tagging replica primary = (
    elim (Result-cases (resolve_update lib f relabelling replica)) [
      | inl (e, refused) ↦ rw refused (refl, refl)
      | inr ((s, cat), resolved) ↦
          rw (resolved, after_update-db)
            (transaction-keeps (SameAccounting account primary) (f.acknowledge || f.rows_affected)
              (update_category_tx lib f relabelling.statement_id (category_key cat) primary) primary
              (update_category_tx-SameAccounting relabelling.statement_id (category_key cat)
                primary)
              (refl, refl))
    ],
    elim (Result-cases (resolve_replace lib f tagging replica)) [
      | inl (e, refused) ↦ rw refused (refl, refl)
      | inr ((s, tags), resolved) ↦
          rw (resolved, after_update-db)
            (transaction-keeps (SameAccounting account primary) f.acknowledge
              (replace_tags_tx lib f tagging.statement_id (map tag_id tags) primary) primary
              (replace_tags_tx-SameAccounting tagging.statement_id (map tag_id tags) primary)
              (refl, refl))
    ],
  )
