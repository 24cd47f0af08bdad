-- ===== src/Wallet/Labels.antt =====
-- update_category.go and replace_tags.go, and the wallet of the primary.
use mathlib.Core.Path.{subst, subst₂}
use financial_wallet.Prelude.{◌||◌, ◌≡◌, refl, sym, ap, inl, inr, not, Option, List, map}
use financial_wallet.Text.{Text}
use financial_wallet.Result.{Result, ok, err, ok-injective, >>=-eq-ok, Result-cases}
use financial_wallet.Domain.Statement.{Statement}
use financial_wallet.Libs.{Libs}
use financial_wallet.Schema.Commit.{transaction-keeps}
use financial_wallet.Schema.{Db, Faults, find_statement, is_some}
use financial_wallet.StatementRepo.{insert_statement_tags}
use financial_wallet.StatementRepo.Rows.{SameLedger, SameLedger-trans, insert_statement_tags-same}
use financial_wallet.StatementRepo.Labels.{
  set_category, update_category, update_category_tx, check_category, text_of_category, replace_tags,
  replace_tags_tx, delete_statement_tags, unnamed_ref,
}
use financial_wallet.StatementRepo.Ledger.{IsLedger}
use financial_wallet.StatementRepo.References.{AreReferring, IsWallet}
use financial_wallet.StatementRepo.Relabel.{set_category-IsLedger, set_category-AreReferring}
use financial_wallet.Usecases.Steps.{fail_if-bind}
use financial_wallet.Usecases.Update.{
  UpdateCategoryInput, ReplaceTagsInput, update_statement_category, replace_statement_tags,
  resolve_update, resolve_replace, after_update, category_key, tag_id,
}

set_category-IsWallet :
    (id : Text) (category : Option Text) (db : Db)
    → IsWallet db
    → IsWallet (record db { statements = set_category id category db.statements })
set_category-IsWallet id category db h = record {
  ledger = set_category-IsLedger id category db.accounts db.statements h.ledger;
  referring = set_category-AreReferring id category db.accounts db.statements h.referring;
}

pub SameLedger-IsWallet : (db db' : Db) → SameLedger db db' → IsWallet db → IsWallet db'
SameLedger-IsWallet db db' same h = record {
  ledger = subst₂ IsLedger (sym same.accounts) (sym same.statements) h.ledger;
  referring = subst₂ AreReferring (sym same.accounts) (sym same.statements) h.referring;
}

module _ (lib : Libs) (f : Faults) where
  update_category_tx-IsWallet :
      (statement : Text) (category : Option Text) (db db' : Db) (x : Unit {0})
      → IsWallet db
      → update_category_tx lib f statement category db ≡ ok (x, db')
      → IsWallet db'
  unfolding update_category_tx
  update_category_tx-IsWallet statement category db db' x h e =
      let (_, e1) = fail_if-bind _ _ _ e in
      let (_, e2) =
        fail_if-bind (not (is_some (find_statement (lib.uuid_text statement) db.statements))) _ _
          e1 in
      let (_, _, e3) = >>=-eq-ok (check_category lib category db) _ e2 in
      subst IsWallet (ap (λ p. p.1) (ok-injective e3))
        (set_category-IsWallet (lib.uuid_text statement) (text_of_category lib category) db h)

  pub update_category-IsWallet :
      (statement : Text) (category : Option Text) (db : Db)
      → IsWallet db
      → IsWallet (update_category lib f statement category db).1
  unfolding update_category
  update_category-IsWallet statement category db h =
      transaction-keeps IsWallet (f.acknowledge || f.rows_affected)
        (update_category_tx lib f statement category db) db
        (λ x db' e. update_category_tx-IsWallet statement category db db' x h e) h

  pub replace_tags_tx-same :
      (statement : Text) (tag_ids : List Text) (db db' : Db) (x : Unit {0})
      → replace_tags_tx lib f statement tag_ids db ≡ ok (x, db')
      → SameLedger db db'
  unfolding replace_tags_tx
  replace_tags_tx-same statement tag_ids db db' x e =
      let (_, e1) = fail_if-bind f.begin _ _ e in
      let (_, e2) = fail_if-bind f.check_statement _ _ e1 in
      let (_, e3) =
        fail_if-bind (not (is_some (find_statement (lib.uuid_text statement) db.statements))) _ _
          e2 in
      let (_, e4) = fail_if-bind f.delete_tags _ _ e3 in
      let db1 : Db = record db {
        statement_tags = delete_statement_tags (lib.uuid_text statement) db.statement_tags;
      } in
      let (db2, inserted, e5) =
        >>=-eq-ok (insert_statement_tags lib f statement (map (unnamed_ref lib) tag_ids) db1) _
          e4 in
      let (_, e6) = fail_if-bind f.commit _ _ e5 in
      subst (SameLedger db) (ap (λ p. p.1) (ok-injective e6)) (
        SameLedger-trans (record { accounts = refl; statements = refl })
          (insert_statement_tags-same lib f statement (map (unnamed_ref lib) tag_ids) db1 db2
            inserted))

  pub replace_tags-IsWallet :
      (statement : Text) (tag_ids : List Text) (db : Db)
      → IsWallet db
      → IsWallet (replace_tags lib f statement tag_ids db).1
  unfolding replace_tags
  replace_tags-IsWallet statement tag_ids db h =
      transaction-keeps IsWallet f.acknowledge (replace_tags_tx lib f statement tag_ids db) db
        (λ x db' e.
          SameLedger-IsWallet db db' (replace_tags_tx-same statement tag_ids db db' x e) h)
        h

  pub after_update-db : (s : Statement) (r : Result (Unit {0}) × Db) → (after_update s r).1 ≡ r.1
  after_update-db s (ok x, db) = refl
  after_update-db s (err e, db) = refl

  -- UpdateCategoryUseCase keeps the wallet.
  pub update_statement_category-IsWallet :
      (input : UpdateCategoryInput) (replica primary : Db)
      → IsWallet primary
      → IsWallet (update_statement_category lib f input replica primary).1
  unfolding update_statement_category
  update_statement_category-IsWallet input replica primary h =
      elim (Result-cases (resolve_update lib f input replica)) [
        | inl (e, refused) ↦ rw refused h
        | inr ((s, cat), resolved) ↦
            rw (resolved, after_update-db)
              (update_category-IsWallet input.statement_id (category_key cat) primary h)
      ]

  -- ReplaceTagsUseCase keeps the wallet.
  pub replace_statement_tags-IsWallet :
      (input : ReplaceTagsInput) (replica primary : Db)
      → IsWallet primary
      → IsWallet (replace_statement_tags lib f input replica primary).1
  unfolding replace_statement_tags
  replace_statement_tags-IsWallet input replica primary h =
      elim (Result-cases (resolve_replace lib f input replica)) [
        | inl (e, refused) ↦ rw refused h
        | inr ((s, tags), resolved) ↦
            rw (resolved, after_update-db)
              (replace_tags-IsWallet input.statement_id (map tag_id tags) primary h)
      ]
