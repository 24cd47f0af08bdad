-- ===== src/Accounts.antt =====
-- internal/usecases/account: the use cases over accounts.
use financial_wallet.Prelude.{Option, none, some, if◌then◌else◌}
use financial_wallet.Prelude.Int.{ℤ}
use financial_wallet.Text.{Text, is_empty}
use financial_wallet.Result.{Result, ok, err, ◌>>=◌, ◌>>◌, fail_if, account_not_found}
use financial_wallet.Domain.Statement.{Time}
use financial_wallet.Domain.Account.{
  Account, new_account_type, new_account, set_credit_limit, update_name, update_description,
}
use financial_wallet.Libs.{Libs}
use financial_wallet.Ids.{parse_id}
use financial_wallet.Schema.{Db, Faults}
use financial_wallet.Readers.{find_account_by_id}
use financial_wallet.AccountRepo.{create_account, update_account, delete_account}
use financial_wallet.Usecases.Metadata.{is_foreign}
use financial_wallet.Usecases.Output.{attempt}

pub record CreateAccountInput : Type 0 where
  pub user_id : Text
  pub name : Text
  pub type : Text
  pub description : Text
  pub credit_limit : Option ℤ

pub record UpdateAccountInput : Type 0 where
  pub id : Text
  pub requesting_user_id : Text
  pub name : Option Text
  pub description : Option Text
  pub credit_limit : Option ℤ

pub record DeleteAccountInput : Type 0 where
  pub id : Text
  pub requesting_user_id : Text

abbrev pub after_write : Account → Result (Unit {0}) × Db → Result Account × Db
after_write a (ok _, db) = (ok a, db)
after_write a (err e, db) = (err e, db)

-- The partial updates: a field that is absent is left alone.
abbrev pub apply_name : Time → Option Text → Account → Account
apply_name now none a = a
apply_name now (some name) a = update_name now name a

abbrev pub apply_description : Time → Option Text → Account → Account
apply_description now none a = a
apply_description now (some description) a = update_description now description a

abbrev pub apply_credit_limit : Time → Option ℤ → Account → Result Account
apply_credit_limit now none a = ok a
apply_credit_limit now (some cents) a = set_credit_limit now cents a

module _ (lib : Libs) where
  unfoldable pub build_account : Time → Text → CreateAccountInput → Result Account
  build_account now uuid input = do
    user_id ← parse_id lib input.user_id
    type ← new_account_type input.type
    new_account uuid now user_id input.name type input.description input.credit_limit

  -- CreateUseCase.Execute
  unfoldable pub open_account : Faults → Time → Text → CreateAccountInput → Db → Result Account × Db
  unfolding build_account
  open_account f now uuid input primary =
      attempt (build_account now uuid input) (λ a. after_write a (create_account lib f a primary))
        primary

  unfoldable pub find_for : Faults → Text → Text → Db → Result Account
  find_for f id requesting db = do
    a ← find_account_by_id lib f id db
    fail_if (is_foreign requesting a.user_id) account_not_found
    ok a

  -- GetUseCase.Execute
  unfoldable pub get_account : Faults → Text → Text → Db → Result Account
  unfolding find_for
  get_account f raw requesting replica = do id ← parse_id lib raw; find_for f id requesting replica

  unfoldable pub build_update : Faults → Time → UpdateAccountInput → Db → Result Account
  unfolding find_for update_name update_description
  build_update f now input replica = do
    id ← parse_id lib input.id
    a ← find_for f id input.requesting_user_id replica
    apply_credit_limit now input.credit_limit
        (apply_description now input.description (apply_name now input.name a))

  -- UpdateUseCase.Execute
  unfoldable pub change_account : Faults → Time → UpdateAccountInput → Db → Db → Result Account × Db
  unfolding build_update
  change_account f now input replica primary =
      attempt (build_update f now input replica)
        (λ a. after_write a (update_account lib f a primary)) primary

  -- The ownership check of Delete, which an empty requester skips together with the lookup.
  unfoldable pub check_owner : Faults → Text → Text → Db → Result (Unit {0})
  unfolding find_for
  check_owner f id requesting db =
      let found = find_for f id requesting db in
      if is_empty requesting then ok tt else (do a ← found; ok tt)

  unfoldable pub authorise_delete : Faults → DeleteAccountInput → Db → Result Text
  unfolding check_owner
  authorise_delete f input replica = do
    id ← parse_id lib input.id
    check_owner f id input.requesting_user_id replica
    ok id

  -- DeleteUseCase.Execute
  unfoldable pub close_account :
      Faults → Time → DeleteAccountInput → Db → Db → Result (Unit {0}) × Db
  unfolding authorise_delete
  close_account f now input replica primary =
      attempt (authorise_delete f input replica) (λ id. delete_account lib f now id primary) primary
