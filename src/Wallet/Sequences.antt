-- ===== src/Wallet/Sequences.antt =====
-- The transactions of the repositories as sequences of statements of SQL.
use mathlib.Core.Path.{subst}
use financial_wallet.Prelude.{
  Bool, ◌≡◌, refl, ap, not, Option, none, some, List, [], ◌∷◌, map, arith,
}
use financial_wallet.Prelude.Int.{ℤ}
use financial_wallet.Text.{Text}
use financial_wallet.Result.{Result, ok, ok-injective, >>=-eq-ok, or_error, account_not_found}
use financial_wallet.Domain.Statement.{Time, TagRef, Statement}
use financial_wallet.Libs.{Libs}
use financial_wallet.Schema.{
  StatementRow, Db, Faults, transaction, find_account, find_statement, is_some, insert_statement,
  insert_statements, insert_statement_tag, set_balance,
}
use financial_wallet.Schema.Commit.{transaction-keeps}
use financial_wallet.StatementRepo.{
  new_balance, from_domain_statement, create, create_tx, create_batch, create_batch_tx, batch_rows,
  batch_balance, insert_statement_tags, insert_tags_loop, insert_batch_tags,
}
use financial_wallet.StatementRepo.Labels.{
  update_category_tx, check_category, text_of_category, replace_tags_tx, delete_statement_tags,
  unnamed_ref,
}
use financial_wallet.Usecases.Steps.{fail_if-bind}
use financial_wallet.Wallet.Writes.{
  IsKnown, Write, statement_rows, statement_tag_row, account_balance, statement_category,
  statement_untagged, Writes, no_write, one-Write, Writes-trans,
}

-- A transaction that commits a sequence of writes, or nothing.
pub transaction-Writes :
    {A : Type 0} (lib : Libs) (lost : Bool) (r : Result (A × Db)) (db : Db)
    → ((x : A) (db' : Db) → r ≡ ok (x, db') → Writes lib db db')
    → Writes lib db (transaction lost r db).1
transaction-Writes lib lost r db commits =
    transaction-keeps (Writes lib db) lost r db commits no_write

module _ (lib : Libs) (f : Faults) where
  insert_tags_loop-Writes :
      (statement : Text) (refs : List TagRef) (db db' : Db)
      → insert_tags_loop lib statement refs db ≡ ok db'
      → Writes lib db db'
  unfolding insert_tags_loop
  insert_tags_loop-Writes statement [] db db' h = subst (Writes lib db) (ok-injective h) no_write
  insert_tags_loop-Writes statement (ref ∷ refs) db db' h =
      let (db1, e, h1) =
        >>=-eq-ok (insert_statement_tag (lib.uuid_text statement) (lib.uuid_text ref.id) db) _ h in
      Writes-trans
        (one-Write (statement_tag_row (lib.uuid_text statement) (lib.uuid_text ref.id) e))
        (insert_tags_loop-Writes statement refs db1 db' h1)

  insert_statement_tags-Writes :
      (statement : Text) (refs : List TagRef) (db db' : Db)
      → insert_statement_tags lib f statement refs db ≡ ok db'
      → Writes lib db db'
  unfolding insert_statement_tags
  insert_statement_tags-Writes statement [] db db' h =
      subst (Writes lib db) (ok-injective h) no_write
  insert_statement_tags-Writes statement (ref ∷ refs) db db' h =
      let (_, h1) = fail_if-bind f.insert_tags _ _ h in
      insert_tags_loop-Writes statement (ref ∷ refs) db db' h1

  insert_batch_tags-Writes :
      (stmts : List Statement) (db db' : Db)
      → insert_batch_tags lib f stmts db ≡ ok db'
      → Writes lib db db'
  unfolding insert_batch_tags
  insert_batch_tags-Writes [] db db' h = subst (Writes lib db) (ok-injective h) no_write
  insert_batch_tags-Writes (s ∷ rest) db db' h =
      let (db1, e, h1) = >>=-eq-ok (insert_statement_tags lib f s.id s.tags db) _ h in
      Writes-trans (insert_statement_tags-Writes s.id s.tags db db1 e)
        (insert_batch_tags-Writes rest db1 db' h1)

  -- Setting a balance.
  balance-Write :
      (account : Text) (balance : ℤ) (now : Time) (db : Db)
      → Write lib db (record db { accounts = set_balance account balance now db.accounts })
  balance-Write account balance now db = account_balance account balance now refl

  create_tx-Writes :
      (now : Time) (s : Statement) (account : Text) (db : Db) (balance : ℤ) (db' : Db)
      → create_tx lib f now s account db ≡ ok (balance, db')
      → Writes lib db db'
  unfolding create_tx
  create_tx-Writes now s account db balance db' h =
      let (_, h1) = fail_if-bind f.begin _ _ h in
      let (_, h2) = fail_if-bind f.lock _ _ h1 in
      let (row, _, h3) =
        >>=-eq-ok (or_error (find_account (lib.uuid_text account) db.accounts) account_not_found) _
          h2 in
      let (_, h4) = fail_if-bind f.insert _ _ h3 in
      let new : StatementRow =
        from_domain_statement lib (new_balance s.type row.balance s.amount) s in
      let (db1, e1, h5) = >>=-eq-ok (insert_statement new db) _ h4 in
      let (db2, e2, h6) = >>=-eq-ok (insert_statement_tags lib f s.id s.tags db1) _ h5 in
      let (_, h7) = fail_if-bind _ _ _ h6 in
      let (_, h8) = fail_if-bind f.commit _ _ h7 in
      Writes-trans (one-Write (statement_rows (new ∷ []) e1)) (
        Writes-trans (insert_statement_tags-Writes s.id s.tags db1 db2 e2) (
          subst (Writes lib db2) (ap (λ p. p.1) (ok-injective h8)) (
            one-Write (
              balance-Write (lib.uuid_text account) (new_balance s.type row.balance s.amount) now
                db2))))

  create_batch_tx-Writes :
      (now : Time) (stmts : List Statement) (account : Text) (db : Db) (balance : ℤ) (db' : Db)
      → create_batch_tx lib f now stmts account db ≡ ok (balance, db')
      → Writes lib db db'
  unfolding create_batch_tx
  create_batch_tx-Writes now stmts account db balance db' h =
      let (_, h1) = fail_if-bind f.begin _ _ h in
      let (_, h2) = fail_if-bind f.lock _ _ h1 in
      let (row, _, h3) =
        >>=-eq-ok (or_error (find_account (lib.uuid_text account) db.accounts) account_not_found) _
          h2 in
      let (_, h4) = fail_if-bind f.insert _ _ h3 in
      let rows : List StatementRow = batch_rows lib row.balance stmts in
      let (db1, e1, h5) = >>=-eq-ok (insert_statements rows db) _ h4 in
      let (db2, e2, h6) = >>=-eq-ok (insert_batch_tags lib f stmts db1) _ h5 in
      let (_, h7) = fail_if-bind _ _ _ h6 in
      let (_, h8) = fail_if-bind f.commit _ _ h7 in
      Writes-trans (one-Write (statement_rows rows e1)) (
        Writes-trans (insert_batch_tags-Writes stmts db1 db2 e2) (
          subst (Writes lib db2) (ap (λ p. p.1) (ok-injective h8)) (
            one-Write (
              balance-Write (lib.uuid_text account) (batch_balance lib row.balance stmts) now
                db2))))

  -- Create and CreateBatch.
  pub create-Writes :
      (now : Time) (s : Statement) (account : Text) (db : Db)
      → Writes lib db (create lib f now s account db).1
  unfolding create
  create-Writes now s account db =
      transaction-Writes lib f.acknowledge (create_tx lib f now s account db) db
        (create_tx-Writes now s account db)

  pub create_batch-Writes :
      (now : Time) (stmts : List Statement) (account : Text) (db : Db)
      → Writes lib db (create_batch lib f now stmts account db).1
  unfolding create_batch
  create_batch-Writes now [] account db = no_write
  create_batch-Writes now (s ∷ rest) account db =
      transaction-Writes lib f.acknowledge (create_batch_tx lib f now (s ∷ rest) account db) db
        (create_batch_tx-Writes now (s ∷ rest) account db)

  check_category-IsKnown :
      (category : Option Text) (db : Db)
      → check_category lib category db ≡ ok tt
      → IsKnown db.categories (text_of_category lib category)
  unfolding check_category text_of_category
  check_category-IsKnown none db h = tt
  check_category-IsKnown (some id) db h = ground arith

  pub update_category_tx-Writes :
      (statement : Text) (category : Option Text) (db : Db) (x : Unit {0}) (db' : Db)
      → update_category_tx lib f statement category db ≡ ok (x, db')
      → Writes lib db db'
  unfolding update_category_tx
  update_category_tx-Writes statement category db x db' h =
      let (_, h1) = fail_if-bind _ _ _ h in
      let (_, h2) =
        fail_if-bind (not (is_some (find_statement (lib.uuid_text statement) db.statements))) _ _
          h1 in
      let (_, e, h3) = >>=-eq-ok (check_category lib category db) _ h2 in
      one-Write (
        statement_category (lib.uuid_text statement) (text_of_category lib category)
          (check_category-IsKnown category db e) (ap (λ p. p.1) (ok-injective h3)))

  pub replace_tags_tx-Writes :
      (statement : Text) (tag_ids : List Text) (db : Db) (x : Unit {0}) (db' : Db)
      → replace_tags_tx lib f statement tag_ids db ≡ ok (x, db')
      → Writes lib db db'
  unfolding replace_tags_tx
  replace_tags_tx-Writes statement tag_ids db x db' h =
      let (_, h1) = fail_if-bind f.begin _ _ h in
      let (_, h2) = fail_if-bind f.check_statement _ _ h1 in
      let (_, h3) =
        fail_if-bind (not (is_some (find_statement (lib.uuid_text statement) db.statements))) _ _
          h2 in
      let (_, h4) = fail_if-bind f.delete_tags _ _ h3 in
      let db1 : Db = record db {
        statement_tags = delete_statement_tags (lib.uuid_text statement) db.statement_tags;
      } in
      let (db2, e, h5) =
        >>=-eq-ok (insert_statement_tags lib f statement (map (unnamed_ref lib) tag_ids) db1) _
          h4 in
      let (_, h6) = fail_if-bind f.commit _ _ h5 in
      Writes-trans (one-Write (statement_untagged (lib.uuid_text statement) refl)) (
        subst (Writes lib db1) (ap (λ p. p.1) (ok-injective h6))
          (insert_statement_tags-Writes statement (map (unnamed_ref lib) tag_ids) db1 db2 e))
