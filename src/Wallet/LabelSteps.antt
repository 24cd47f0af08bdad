-- ===== src/Wallet/LabelSteps.antt =====
-- The use cases of internal/usecases/category and tag, and the wallet of the primary.
use mathlib.Core.Path.{subst}
use financial_wallet.Prelude.{◌≡◌, refl, sym, Bool, true, false}
use financial_wallet.Result.{Result, ok, err}
use financial_wallet.Domain.Statement.{Time}
use financial_wallet.Text.{Text}
use financial_wallet.Libs.{Libs}
use financial_wallet.Schema.{Db, Faults, transaction}
use financial_wallet.StatementRepo.References.{IsWallet}
use financial_wallet.StatementRepo.Rows.{SameLedger}
use financial_wallet.LabelRepo.{
  insert_category, update_category_row, delete_category_row, insert_tag, update_tag_row,
  delete_tag_row,
}
use financial_wallet.LabelRepo.Frame.{
  insert_category-same, update_category_row-same, delete_category_row-same, insert_tag-same,
  update_tag_row-same, delete_tag_row-same,
}
use financial_wallet.LabelRepo.Methods.{
  from_domain_category, from_domain_tag, create_category, create_category_tx, save_category,
  save_category_tx, delete_category, delete_category_tx, create_tag, create_tag_tx, save_tag,
  save_tag_tx, delete_tag, delete_tag_tx,
}
use financial_wallet.LabelUsecases.{
  CreateCategoryInput, CreateTagInput, RenameInput, DeleteLabelInput, add_category, change_category,
  remove_user_category, add_tag, change_tag, remove_user_tag, build_category, build_rename,
  authorise_removal, build_tag, build_tag_rename, authorise_tag_removal,
}
use financial_wallet.Wallet.Labels.{SameLedger-IsWallet}
use financial_wallet.Wallet.Singles.{attempt-keeps, category_written-db, tag_written-db, committed}

-- A statement of SQL that leaves accounts and statements alone keeps the wallet.
committed-IsWallet :
    (lost fault : Bool) (r : Result Db) (db : Db)
    → ((db' : Db) → r ≡ ok db' → SameLedger db db')
    → IsWallet db
    → IsWallet (transaction lost (committed fault r) db).1
unfolding committed
committed-IsWallet lost true r db same h = h
committed-IsWallet true false (ok db') db same h = SameLedger-IsWallet db db' (same db' refl) h
committed-IsWallet false false (ok db') db same h = SameLedger-IsWallet db db' (same db' refl) h
committed-IsWallet lost false (err e) db same h = h

module _ (lib : Libs) (f : Faults) (db : Db) (h : IsWallet db) where
  pub add_category-IsWallet :
      (now : Time) (uuid : Text) (input : CreateCategoryInput)
      → IsWallet (add_category lib f now uuid input db).1
  unfolding add_category create_category create_category_tx committed
  add_category-IsWallet now uuid input =
      attempt-keeps IsWallet (build_category lib now uuid input) _ db h (λ c.
        subst IsWallet (sym (category_written-db c (create_category lib f c db))) (
          committed-IsWallet _ _ (insert_category lib (from_domain_category lib c) db) db
            (λ db' e. insert_category-same lib db db' (from_domain_category lib c) e) h))

  pub change_category-IsWallet :
      (now : Time) (input : RenameInput) (replica : Db)
      → IsWallet (change_category lib f now input replica db).1
  unfolding change_category save_category save_category_tx committed
  change_category-IsWallet now input replica =
      attempt-keeps IsWallet (build_rename lib f now input replica) _ db h (λ c.
        subst IsWallet (sym (category_written-db c (save_category lib f c db))) (
          committed-IsWallet _ _
            (update_category_row lib (lib.uuid_text c.id) c.name c.updated_at db) db
            (λ db' e.
              update_category_row-same lib db db' (lib.uuid_text c.id) c.name c.updated_at e)
            h))

  pub remove_user_category-IsWallet :
      (input : DeleteLabelInput) (replica : Db)
      → IsWallet (remove_user_category lib f input replica db).1
  unfolding remove_user_category delete_category delete_category_tx committed
  remove_user_category-IsWallet input replica =
      attempt-keeps IsWallet (authorise_removal lib f input replica) _ db h (λ id.
        committed-IsWallet _ _ (delete_category_row lib (lib.uuid_text id) db) db
          (λ db' e. delete_category_row-same lib db db' (lib.uuid_text id) e) h)

  pub add_tag-IsWallet :
      (now : Time) (uuid : Text) (input : CreateTagInput)
      → IsWallet (add_tag lib f now uuid input db).1
  unfolding add_tag create_tag create_tag_tx committed
  add_tag-IsWallet now uuid input =
      attempt-keeps IsWallet (build_tag lib now uuid input) _ db h (λ t.
        subst IsWallet (sym (tag_written-db t (create_tag lib f t db))) (
          committed-IsWallet _ _ (insert_tag lib (from_domain_tag lib t) db) db
            (λ db' e. insert_tag-same lib db db' (from_domain_tag lib t) e) h))

  pub change_tag-IsWallet :
      (now : Time) (input : RenameInput) (replica : Db)
      → IsWallet (change_tag lib f now input replica db).1
  unfolding change_tag save_tag save_tag_tx committed
  change_tag-IsWallet now input replica =
      attempt-keeps IsWallet (build_tag_rename lib f now input replica) _ db h (λ t.
        subst IsWallet (sym (tag_written-db t (save_tag lib f t db))) (
          committed-IsWallet _ _ (update_tag_row lib (lib.uuid_text t.id) t.name t.updated_at db) db
            (λ db' e. update_tag_row-same lib db db' (lib.uuid_text t.id) t.name t.updated_at e) h))

  pub remove_user_tag-IsWallet :
      (input : DeleteLabelInput) (replica : Db)
      → IsWallet (remove_user_tag lib f input replica db).1
  unfolding remove_user_tag delete_tag delete_tag_tx committed
  remove_user_tag-IsWallet input replica =
      attempt-keeps IsWallet (authorise_tag_removal lib f input replica) _ db h (λ id.
        committed-IsWallet _ _ (delete_tag_row lib (lib.uuid_text id) db) db
          (λ db' e. delete_tag_row-same lib db db' (lib.uuid_text id) e) h)
