-- ===== src/Wallet/Singles.antt =====
-- The writes of the repositories of accounts, categories and tags as statements of SQL.
use financial_wallet.Prelude.{◌||◌, ◌≡◌, ◌∙◌, refl, ap, Bool}
use financial_wallet.Text.{Text}
use financial_wallet.Result.{Result, ok, err, ok-injective, ◌>>=◌, ◌>>◌, >>=-eq-ok}
use financial_wallet.Domain.Statement.{Time}
use financial_wallet.Domain.Account.{Account}
use financial_wallet.Domain.Labels.{Category, Tag}
use financial_wallet.Libs.{Libs}
use financial_wallet.Schema.{Db, Faults, call, find_account}
use financial_wallet.AccountRepo.{
  account_violation, check_row, active_row, from_domain_account, create_account, create_account_tx,
  update_account, update_account_tx, delete_account, delete_account_tx,
}
use financial_wallet.LabelRepo.{
  insert_category, update_category_row, delete_category_row, insert_tag, update_tag_row,
  delete_tag_row,
}
use financial_wallet.LabelRepo.Methods.{
  from_domain_category, from_domain_tag, create_category, create_category_tx, save_category,
  save_category_tx, delete_category, delete_category_tx, create_tag, create_tag_tx, save_tag,
  save_tag_tx, delete_tag, delete_tag_tx,
}
use financial_wallet.Usecases.Steps.{fail_if-bind}
use financial_wallet.Usecases.Output.{attempt}
use financial_wallet.LabelUsecases.{category_written, tag_written}
use financial_wallet.Wallet.Accounts.{insert_account-eq_ok}
use financial_wallet.Wallet.Writes.{
  Write, account_row, account_columns, account_closed, category_row, category_name, category_gone,
  tag_row, tag_name, tag_gone, Writes, one-Write,
}
use financial_wallet.Wallet.Sequences.{transaction-Writes}

-- The primary after a request, whether its checks refused it or it came to its write.
pub attempt-keeps :
    {A B : Type 0} (Q : Db → Type 0) (r : Result A) (write : A → Result B × Db) (db : Db)
    → Q db
    → ((a : A) → Q (write a).1)
    → Q (attempt r write db).1
attempt-keeps Q (ok a) write db h writes = writes a
attempt-keeps Q (err e) write db h writes = h

pub category_written-db :
    (c : Category) (r : Result (Unit {0}) × Db) → (category_written c r).1 ≡ r.1
category_written-db c (ok x, db) = refl
category_written-db c (err e, db) = refl

pub tag_written-db : (t : Tag) (r : Result (Unit {0}) × Db) → (tag_written t r).1 ≡ r.1
tag_written-db t (ok x, db) = refl
tag_written-db t (err e, db) = refl

-- One call that may fail and one statement of SQL, up to the commit.
unfoldable pub committed : Bool → Result Db → Result ((Unit {0}) × Db)
committed fault r = do call fault; db' ← r; ok (tt, db')

single-Writes :
    (lib : Libs) (fault : Bool) (r : Result Db) (db : Db)
    → ((db' : Db) → r ≡ ok db' → Write lib db db')
    → (x : Unit {0}) (db' : Db) → committed fault r ≡ ok (x, db')
    → Writes lib db db'
unfolding committed
single-Writes lib fault r db writes x db' h =
    let (_, h1) = fail_if-bind fault _ _ h in
    let (db1, e, h2) = >>=-eq-ok r _ h1 in
    one-Write (writes db' (e ∙ ap (λ p. ok (p.1)) (ok-injective h2)))

module _ (lib : Libs) (f : Faults) where
  pub create_account-Writes : (a : Account) (db : Db) → Writes lib db (create_account lib f a db).1
  unfolding create_account create_account_tx
  create_account-Writes a db =
      transaction-Writes lib f.acknowledge (create_account_tx lib f a db) db (λ x db' h.
        let (_, h1) = fail_if-bind f.insert _ _ h in
        let (accepted, same) =
          insert_account-eq_ok (account_violation db (from_domain_account lib a))
            (from_domain_account lib a) db db' x h1 in
        one-Write (account_row (from_domain_account lib a) accepted same))

  pub update_account-Writes : (a : Account) (db : Db) → Writes lib db (update_account lib f a db).1
  unfolding update_account update_account_tx
  update_account-Writes a db =
      transaction-Writes lib (f.acknowledge || f.rows_affected) (update_account_tx lib f a db) db
        (λ x db' h.
          let (_, h1) = fail_if-bind _ _ _ h in
          let (row, e, h2) =
            >>=-eq-ok (check_row (find_account (lib.uuid_text a.id) db.accounts) a.credit_limit) _
              h1 in
          one-Write
            (account_columns (lib.uuid_text a.id) a row e (ap (λ p. p.1) (ok-injective h2))))

  pub delete_account-Writes :
      (now : Time) (id : Text) (db : Db) → Writes lib db (delete_account lib f now id db).1
  unfolding delete_account delete_account_tx
  delete_account-Writes now id db =
      transaction-Writes lib (f.acknowledge || f.rows_affected) (delete_account_tx lib f now id db)
        db
        (λ x db' h.
          let (_, h1) = fail_if-bind _ _ _ h in
          let (row, e, h2) =
            >>=-eq-ok (active_row (find_account (lib.uuid_text id) db.accounts)) _ h1 in
          one-Write (account_closed (lib.uuid_text id) now row e (ap (λ p. p.1) (ok-injective h2))))

  pub create_category-Writes :
      (c : Category) (db : Db) → Writes lib db (create_category lib f c db).1
  unfolding create_category create_category_tx committed
  create_category-Writes c db =
      transaction-Writes lib f.acknowledge (create_category_tx lib f c db) db (
        single-Writes lib f.insert (insert_category lib (from_domain_category lib c) db) db
          (λ db' e. category_row (from_domain_category lib c) e))

  pub save_category-Writes : (c : Category) (db : Db) → Writes lib db (save_category lib f c db).1
  unfolding save_category save_category_tx committed
  save_category-Writes c db =
      transaction-Writes lib (f.acknowledge || f.rows_affected) (save_category_tx lib f c db) db (
        single-Writes lib _ (update_category_row lib (lib.uuid_text c.id) c.name c.updated_at db) db
          (λ db' e. category_name (lib.uuid_text c.id) c.name c.updated_at e))

  pub delete_category-Writes : (id : Text) (db : Db) → Writes lib db (delete_category lib f id db).1
  unfolding delete_category delete_category_tx committed
  delete_category-Writes id db =
      transaction-Writes lib (f.acknowledge || f.rows_affected) (delete_category_tx lib f id db) db
        (single-Writes lib _ (delete_category_row lib (lib.uuid_text id) db) db
          (λ db' e. category_gone (lib.uuid_text id) e))

  pub create_tag-Writes : (t : Tag) (db : Db) → Writes lib db (create_tag lib f t db).1
  unfolding create_tag create_tag_tx committed
  create_tag-Writes t db = transaction-Writes lib f.acknowledge (create_tag_tx lib f t db) db (
      single-Writes lib f.insert (insert_tag lib (from_domain_tag lib t) db) db
        (λ db' e. tag_row (from_domain_tag lib t) e))

  pub save_tag-Writes : (t : Tag) (db : Db) → Writes lib db (save_tag lib f t db).1
  unfolding save_tag save_tag_tx committed
  save_tag-Writes t db =
      transaction-Writes lib (f.acknowledge || f.rows_affected) (save_tag_tx lib f t db) db (
        single-Writes lib _ (update_tag_row lib (lib.uuid_text t.id) t.name t.updated_at db) db
          (λ db' e. tag_name (lib.uuid_text t.id) t.name t.updated_at e))

  pub delete_tag-Writes : (id : Text) (db : Db) → Writes lib db (delete_tag lib f id db).1
  unfolding delete_tag delete_tag_tx committed
  delete_tag-Writes id db =
      transaction-Writes lib (f.acknowledge || f.rows_affected) (delete_tag_tx lib f id db) db (
        single-Writes lib _ (delete_tag_row lib (lib.uuid_text id) db) db
          (λ db' e. tag_gone (lib.uuid_text id) e))
