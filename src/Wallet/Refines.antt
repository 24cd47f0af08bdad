-- ===== src/Wallet/Refines.antt =====
-- The use cases that write, seen as sequences of statements of SQL on the primary.
use mathlib.Core.Path.{subst}
use financial_wallet.Prelude.{◌||◌, ◌≡◌, sym, map, length}
use financial_wallet.Domain.Statement.{Time}
use financial_wallet.Libs.{Libs}
use financial_wallet.Schema.{Db, Faults}
use financial_wallet.AccountRepo.{create_account, update_account}
use financial_wallet.StatementRepo.{create, create_batch}
use financial_wallet.StatementRepo.Labels.{
  update_category, update_category_tx, replace_tags, replace_tags_tx,
}
use financial_wallet.LabelRepo.Methods.{create_category, save_category, create_tag, save_tag}
use financial_wallet.Usecases.Create.{build_statement, create_statement}
use financial_wallet.Usecases.Reverse.{build_reversal, reverse_statement}
use financial_wallet.Usecases.Import.{build_import, import_statements}
use financial_wallet.Usecases.Update.{
  update_statement_category, replace_statement_tags, resolve_update, resolve_replace, category_key,
  tag_id,
}
use financial_wallet.Usecases.Ledger.{persisted-db, imported-db}
use financial_wallet.Accounts.{
  open_account, change_account, close_account, build_account, build_update, authorise_delete,
}
use financial_wallet.LabelUsecases.{
  add_category, change_category, remove_user_category, add_tag, change_tag, remove_user_tag,
  build_category, build_rename, authorise_removal, build_tag, build_tag_rename,
  authorise_tag_removal,
}
use financial_wallet.Wallet.{
  Step, opened, changed, closed, posted, reversed, imported, categorised, tagged, category_added,
  category_changed, category_removed, tag_added, tag_changed, tag_removed, Reach, start, then_step,
}
use financial_wallet.Wallet.Labels.{after_update-db}
use financial_wallet.Wallet.Accounts.{after_write-db}
use financial_wallet.Wallet.Writes.{Writes, no_write, Writes-trans}
use financial_wallet.Wallet.Sequences.{
  transaction-Writes, create-Writes, create_batch-Writes, update_category_tx-Writes,
  replace_tags_tx-Writes,
}
use financial_wallet.Wallet.Singles.{
  attempt-keeps, category_written-db, tag_written-db, create_account-Writes, update_account-Writes,
  delete_account-Writes, create_category-Writes, save_category-Writes, delete_category-Writes,
  create_tag-Writes, save_tag-Writes, delete_tag-Writes,
}

module _ (lib : Libs) where
  -- What a use case returns does not change what it wrote.
  returns :
      {db : Db} (after before : Db) → after ≡ before → Writes lib db before → Writes lib db after
  returns {db} after before same w = subst (Writes lib db) (sym same) w

  pub Step-Writes :
      {f : Faults} {now : Time} {db db' : Db} → Step lib f now db db' → Writes lib db db'
  unfolding open_account change_account close_account create_statement reverse_statement
      import_statements update_statement_category replace_statement_tags update_category
      replace_tags add_category change_category remove_user_category add_tag change_tag
      remove_user_tag
  Step-Writes {f} {now} {db} (opened uuid input) =
      attempt-keeps (Writes lib db) (build_account lib now uuid input) _ db no_write (λ a.
        returns _ _ (after_write-db a (create_account lib f a db))
          (create_account-Writes lib f a db))
  Step-Writes {f} {now} {db} (changed input replica) =
      attempt-keeps (Writes lib db) (build_update lib f now input replica) _ db no_write (λ a.
        returns _ _ (after_write-db a (update_account lib f a db))
          (update_account-Writes lib f a db))
  Step-Writes {f} {now} {db} (closed input replica) =
      attempt-keeps (Writes lib db) (authorise_delete lib f input replica) _ db no_write
        (λ id. delete_account-Writes lib f now id db)
  Step-Writes {f} {now} {db} (posted uuid input replica) =
      attempt-keeps (Writes lib db) (build_statement lib f now uuid input replica) _ db no_write
        (λ s.
          returns _ _ (persisted-db s (create lib f now s input.account_id db))
            (create-Writes lib f now s input.account_id db))
  Step-Writes {f} {now} {db} (reversed uuid input replica) =
      attempt-keeps (Writes lib db) (build_reversal lib f now uuid input replica db) _ db no_write
        (λ s.
          returns _ _ (persisted-db s (create lib f now s input.account_id db))
            (create-Writes lib f now s input.account_id db))
  Step-Writes {f} {now} {db} (imported fresh input parsed replica) =
      attempt-keeps (Writes lib db) (build_import lib f now fresh input parsed replica db) _ db
        no_write
        (λ (txns, stmts, skipped).
          returns _ _
            (imported-db (length txns) stmts skipped
              (create_batch lib f now stmts input.account_id db))
            (create_batch-Writes lib f now stmts input.account_id db))
  Step-Writes {f} {now} {db} (categorised input replica) =
      attempt-keeps (Writes lib db) (resolve_update lib f input replica) _ db no_write (λ (s, cat).
        returns _ _
          (after_update-db lib f _ (update_category lib f input.statement_id (category_key cat) db))
          (transaction-Writes lib (f.acknowledge || f.rows_affected)
            (update_category_tx lib f input.statement_id (category_key cat) db) db
            (update_category_tx-Writes lib f input.statement_id (category_key cat) db)))
  Step-Writes {f} {now} {db} (tagged input replica) =
      attempt-keeps (Writes lib db) (resolve_replace lib f input replica) _ db no_write
        (λ (s, tags).
          returns _ _
            (after_update-db lib f _ (replace_tags lib f input.statement_id (map tag_id tags) db))
            (transaction-Writes lib f.acknowledge
              (replace_tags_tx lib f input.statement_id (map tag_id tags) db) db
              (replace_tags_tx-Writes lib f input.statement_id (map tag_id tags) db)))
  Step-Writes {f} {now} {db} (category_added uuid input) =
      attempt-keeps (Writes lib db) (build_category lib now uuid input) _ db no_write (λ c.
        returns _ _ (category_written-db c (create_category lib f c db))
          (create_category-Writes lib f c db))
  Step-Writes {f} {now} {db} (category_changed input replica) =
      attempt-keeps (Writes lib db) (build_rename lib f now input replica) _ db no_write (λ c.
        returns _ _ (category_written-db c (save_category lib f c db))
          (save_category-Writes lib f c db))
  Step-Writes {f} {now} {db} (category_removed input replica) =
      attempt-keeps (Writes lib db) (authorise_removal lib f input replica) _ db no_write
        (λ id. delete_category-Writes lib f id db)
  Step-Writes {f} {now} {db} (tag_added uuid input) =
      attempt-keeps (Writes lib db) (build_tag lib now uuid input) _ db no_write
        (λ t. returns _ _ (tag_written-db t (create_tag lib f t db)) (create_tag-Writes lib f t db))
  Step-Writes {f} {now} {db} (tag_changed input replica) =
      attempt-keeps (Writes lib db) (build_tag_rename lib f now input replica) _ db no_write
        (λ t. returns _ _ (tag_written-db t (save_tag lib f t db)) (save_tag-Writes lib f t db))
  Step-Writes {f} {now} {db} (tag_removed input replica) =
      attempt-keeps (Writes lib db) (authorise_tag_removal lib f input replica) _ db no_write
        (λ id. delete_tag-Writes lib f id db)

  pub Reach-Writes : {db db' : Db} → Reach lib db db' → Writes lib db db'
  Reach-Writes start = no_write
  Reach-Writes (then_step before step) = Writes-trans (Reach-Writes before) (Step-Writes step)
