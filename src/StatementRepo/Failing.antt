-- ===== src/StatementRepo/Failing.antt =====
-- Create, CreateBatch, UpdateCategory and ReplaceTags when calls of the database fail, compared with
-- the same call when none fails.
use financial_wallet.Prelude.{
  ◌≡◌, refl, ◌⊎◌, inl, inr, Bool, true, false, not, ◌||◌, Option, List, [], ◌∷◌, map,
}
use financial_wallet.Prelude.Int.{ℤ}
use financial_wallet.Text.{Text}
use financial_wallet.Result.{Result, ok, err, >>=-eq-ok, or_error, account_not_found}
use financial_wallet.Domain.Statement.{Time, TagRef, Statement}
use financial_wallet.Libs.{Libs}
use financial_wallet.Schema.{
  Db, Faults, no_faults, transaction, find_account, find_statement, is_some, insert_statement,
  insert_statements,
}
use financial_wallet.StatementRepo.{
  new_balance, from_domain_statement, create, create_tx, create_batch, create_batch_tx, batch_rows,
  insert_statement_tags, insert_batch_tags,
}
use financial_wallet.StatementRepo.Labels.{
  update_category, update_category_tx, replace_tags, replace_tags_tx, delete_statement_tags,
  unnamed_ref,
}
use financial_wallet.Usecases.Steps.{fail_if-bind}

-- What a call leaves is what was there before or what the call that meets no failure leaves; and if it
-- reports success, it has done and answered what that call does and answers.
pub record AllOrNothing {A : Type 0} (got whole : Result A × Db) (before : Db) : Type 0 where
  pub outcome : (got.1 ≡ before) ⊎ (got.1 ≡ whole.1)
  pub success : (a : A) → got.0 ≡ ok a → got ≡ whole

transaction-AllOrNothing :
    {A : Type 0} (lost : Bool) (r r' : Result (A × Db)) (db : Db)
    → ((x : A × Db) → r ≡ ok x → r' ≡ ok x)
    → AllOrNothing (transaction lost r db) (transaction false r' db) db
transaction-AllOrNothing lost (err e) r' db same = record {
  outcome = inl refl;
  success = λ a h. cc;
}
transaction-AllOrNothing true (ok (x, after)) r' db same =
    let alike = same (x, after) refl in
    record { outcome = inr (rw alike refl); success = λ a h. cc }
transaction-AllOrNothing false (ok (x, after)) r' db same =
    let alike = same (x, after) refl in
    record { outcome = inr (rw alike refl); success = λ a h. rw alike refl }

-- A body that came to its commit does the same where nothing fails.
module _ (lib : Libs) (f : Faults) where
  insert_statement_tags-unfailing :
      (statement : Text) (refs : List TagRef) (db db' : Db)
      → insert_statement_tags lib f statement refs db ≡ ok db'
      → insert_statement_tags lib no_faults statement refs db ≡ ok db'
  unfolding insert_statement_tags
  insert_statement_tags-unfailing statement [] db db' h = h
  insert_statement_tags-unfailing statement (ref ∷ refs) db db' h =
      (fail_if-bind f.insert_tags _ _ h).1

  insert_batch_tags-unfailing :
      (stmts : List Statement) (db db' : Db)
      → insert_batch_tags lib f stmts db ≡ ok db'
      → insert_batch_tags lib no_faults stmts db ≡ ok db'
  unfolding insert_batch_tags
  insert_batch_tags-unfailing [] db db' h = h
  insert_batch_tags-unfailing (s ∷ rest) db db' h =
      let (db1, e, h1) = >>=-eq-ok (insert_statement_tags lib f s.id s.tags db) _ h in
      rw (insert_statement_tags-unfailing s.id s.tags db db1 e)
        (insert_batch_tags-unfailing rest db1 db' h1)

  create_tx-unfailing :
      (now : Time) (s : Statement) (account : Text) (db : Db) (x : ℤ × Db)
      → create_tx lib f now s account db ≡ ok x
      → create_tx lib no_faults now s account db ≡ ok x
  unfolding create_tx
  create_tx-unfailing now s account db x h =
      let (_, h1) = fail_if-bind f.begin _ _ h in
      let (_, h2) = fail_if-bind f.lock _ _ h1 in
      let (row, e, h3) =
        >>=-eq-ok (or_error (find_account (lib.uuid_text account) db.accounts) account_not_found) _
          h2 in
      let (_, h4) = fail_if-bind f.insert _ _ h3 in
      let new = from_domain_statement lib (new_balance s.type row.balance s.amount) s in
      let (db1, e1, h5) = >>=-eq-ok (insert_statement new db) _ h4 in
      let (db2, e2, h6) = >>=-eq-ok (insert_statement_tags lib f s.id s.tags db1) _ h5 in
      let (_, h7) = fail_if-bind f.update _ _ h6 in
      let (_, h8) = fail_if-bind f.commit _ _ h7 in
      rw (e, e1, insert_statement_tags-unfailing s.id s.tags db1 db2 e2) h8

  create_batch_tx-unfailing :
      (now : Time) (stmts : List Statement) (account : Text) (db : Db) (x : ℤ × Db)
      → create_batch_tx lib f now stmts account db ≡ ok x
      → create_batch_tx lib no_faults now stmts account db ≡ ok x
  unfolding create_batch_tx
  create_batch_tx-unfailing now stmts account db x h =
      let (_, h1) = fail_if-bind f.begin _ _ h in
      let (_, h2) = fail_if-bind f.lock _ _ h1 in
      let (row, e, h3) =
        >>=-eq-ok (or_error (find_account (lib.uuid_text account) db.accounts) account_not_found) _
          h2 in
      let (_, h4) = fail_if-bind f.insert _ _ h3 in
      let (db1, e1, h5) =
        >>=-eq-ok (insert_statements (batch_rows lib row.balance stmts) db) _ h4 in
      let (db2, e2, h6) = >>=-eq-ok (insert_batch_tags lib f stmts db1) _ h5 in
      let (_, h7) = fail_if-bind f.update _ _ h6 in
      let (_, h8) = fail_if-bind f.commit _ _ h7 in
      rw (e, e1, insert_batch_tags-unfailing stmts db1 db2 e2) h8

  update_category_tx-unfailing :
      (statement : Text) (category : Option Text) (db : Db) (x : (Unit {0}) × Db)
      → update_category_tx lib f statement category db ≡ ok x
      → update_category_tx lib no_faults statement category db ≡ ok x
  unfolding update_category_tx
  update_category_tx-unfailing statement category db x h = (fail_if-bind _ _ _ h).1

  replace_tags_tx-unfailing :
      (statement : Text) (tag_ids : List Text) (db : Db) (x : (Unit {0}) × Db)
      → replace_tags_tx lib f statement tag_ids db ≡ ok x
      → replace_tags_tx lib no_faults statement tag_ids db ≡ ok x
  unfolding replace_tags_tx
  replace_tags_tx-unfailing statement tag_ids db x h =
      let (_, h1) = fail_if-bind f.begin _ _ h in
      let (_, h2) = fail_if-bind f.check_statement _ _ h1 in
      let (here, h3) =
        fail_if-bind (not (is_some (find_statement (lib.uuid_text statement) db.statements))) _ _
          h2 in
      let (_, h4) = fail_if-bind f.delete_tags _ _ h3 in
      let db1 : Db = record db {
        statement_tags = delete_statement_tags (lib.uuid_text statement) db.statement_tags;
      } in
      let (db2, e, h5) =
        >>=-eq-ok (insert_statement_tags lib f statement (map (unnamed_ref lib) tag_ids) db1) _
          h4 in
      let (_, h6) = fail_if-bind f.commit _ _ h5 in
      rw (here, insert_statement_tags-unfailing statement (map (unnamed_ref lib) tag_ids) db1 db2 e)
        h6

  create_batch-AllOrNothing :
      (now : Time) (stmts : List Statement) (account : Text) (db : Db)
      → AllOrNothing
          (create_batch lib f now stmts account db)
          (create_batch lib no_faults now stmts account db)
          db
  unfolding create_batch
  create_batch-AllOrNothing now [] account db = record { outcome = inl refl; success = λ a h. refl }
  create_batch-AllOrNothing now (s ∷ rest) account db =
      transaction-AllOrNothing f.acknowledge (create_batch_tx lib f now (s ∷ rest) account db)
        (create_batch_tx lib no_faults now (s ∷ rest) account db) db
        (create_batch_tx-unfailing now (s ∷ rest) account db)

  -- Posting a statement, posting a batch, changing the category of a statement and replacing its tags
  -- are all or nothing, whatever calls of the database fail and whether or not the answer to the commit
  -- arrives: each leaves the database as it was, or as the same call leaves it when nothing fails, and a
  -- call that reports success has done and answered the same as that one.
  pub writes-AllOrNothing :
      (now : Time) (s : Statement) (stmts : List Statement) (account statement : Text)
      (category : Option Text) (tag_ids : List Text) (db : Db)
      → AllOrNothing (create lib f now s account db) (create lib no_faults now s account db) db
        × AllOrNothing
            (create_batch lib f now stmts account db)
            (create_batch lib no_faults now stmts account db)
            db
        × AllOrNothing
            (update_category lib f statement category db)
            (update_category lib no_faults statement category db)
            db
        × AllOrNothing
            (replace_tags lib f statement tag_ids db)
            (replace_tags lib no_faults statement tag_ids db)
            db
  unfolding create update_category replace_tags
  writes-AllOrNothing now s stmts account statement category tag_ids db = (
    transaction-AllOrNothing f.acknowledge (create_tx lib f now s account db)
        (create_tx lib no_faults now s account db) db (create_tx-unfailing now s account db),
    create_batch-AllOrNothing now stmts account db,
    transaction-AllOrNothing (f.acknowledge || f.rows_affected)
        (update_category_tx lib f statement category db)
        (update_category_tx lib no_faults statement category db) db
        (update_category_tx-unfailing statement category db),
    transaction-AllOrNothing f.acknowledge (replace_tags_tx lib f statement tag_ids db)
        (replace_tags_tx lib no_faults statement tag_ids db) db
        (replace_tags_tx-unfailing statement tag_ids db),
  )
