-- ===== src/Wallet/Reopening.antt =====
-- update.go of internal/usecases/account, on a replica that may be stale.
use mathlib.Core.Path.{subst, subst₂}
use financial_wallet.Prelude.{
  Bool, false, ◌||◌, ◌≡◌, ◌∙◌, refl, sym, ap, inl, inr, Bool-cases, true, not, Option, none, some,
}
use financial_wallet.Prelude.Int.{ℤ}
use financial_wallet.Text.{Text}
use financial_wallet.Result.{
  Result, ok, ok-injective, >>=-eq-ok, Result-cases, or_error, account_not_found,
}
use financial_wallet.Domain.Statement.{Time}
use financial_wallet.Domain.Account.{
  Account, accepts_credit_limit, new_credit_limit, set_credit_limit, update_name,
  update_description,
}
use financial_wallet.Libs.{Libs}
use financial_wallet.Schema.{AccountRow, Db, Faults, transaction, find_account}
use financial_wallet.Readers.{find_account_by_id, to_account}
use financial_wallet.AccountRepo.{updated, check_row, update_account, update_account_tx}
use financial_wallet.Usecases.Metadata.{is_foreign}
use financial_wallet.Usecases.Steps.{fail_if-bind, parse_id-bind, not-eq_false}
use financial_wallet.Accounts.{
  UpdateAccountInput, build_update, change_account, find_for, apply_name, apply_description,
  apply_credit_limit, after_write,
}
use financial_wallet.Wallet.Lifecycle.{find_account-modify, check_row-eq_ok}

to_account-active :
    (lib : Libs) (row : AccountRow) (a : Account)
    → to_account lib row ≡ ok a
    → row.active ≡ true
    → a.active ≡ true
unfolding to_account
to_account-active lib row a h active =
    let (_, h1) = parse_id-bind lib row.id _ h in
    let (_, h2) = parse_id-bind lib row.user_id _ h1 in rw (← ok-injective h2) active

find_for-active :
    (lib : Libs) (f : Faults) (id requesting : Text) (replica : Db) (a : Account)
    → find_for lib f id requesting replica ≡ ok a
    → a.active ≡ true
unfolding find_for find_account_by_id
find_for-active lib f id requesting replica a h =
    let (b, e, h1) = >>=-eq-ok (find_account_by_id lib f id replica) _ h in
    let (_, h2) = fail_if-bind (is_foreign requesting b.user_id) account_not_found _ h1 in
    let (_, e1) = fail_if-bind f.select_account _ _ e in
    let (row, _, e2) =
      >>=-eq-ok (or_error (find_account (lib.uuid_text id) replica.accounts) account_not_found) _
        e1 in
    let (active, e3) = fail_if-bind (not row.active) account_not_found _ e2 in
    rw (← ok-injective h2) (to_account-active lib row b e3 (not-eq_false row.active active))

apply_name-active :
    (now : Time) (name : Option Text) (a : Account) → (apply_name now name a).active ≡ a.active
unfolding update_name
apply_name-active now none a = refl
apply_name-active now (some name) a = refl

apply_description-active :
    (now : Time) (text : Option Text) (a : Account)
    → (apply_description now text a).active ≡ a.active
unfolding update_description
apply_description-active now none a = refl
apply_description-active now (some text) a = refl

apply_credit_limit-active :
    (now : Time) (cents : Option ℤ) (a b : Account)
    → apply_credit_limit now cents a ≡ ok b
    → b.active ≡ a.active
unfolding set_credit_limit
apply_credit_limit-active now none a b h = ap (λ (c : Account). c.active) (sym (ok-injective h))
apply_credit_limit-active now (some cents) a b h = elim (Bool-cases (accepts_credit_limit a.type)) [
  | inl accepted ↦
      let (limit, _, made) = >>=-eq-ok (new_credit_limit cents) _ (rw accepted at h) in
      ap (λ (c : Account). c.active) (sym (ok-injective made))
  | inr refused ↦ cc (rw refused at h)
]

-- An account that is about to be updated is active, as only active accounts are read.
build_update-active :
    (lib : Libs) (f : Faults) (now : Time) (input : UpdateAccountInput) (replica : Db) (a : Account)
    → build_update lib f now input replica ≡ ok a
    → a.active ≡ true
unfolding build_update
build_update-active lib f now input replica a h =
    let (_, h1) = parse_id-bind lib input.id _ h in
    let (b, e, h2) = >>=-eq-ok (find_for lib f input.id input.requesting_user_id replica) _ h1 in
    let named : Account = apply_name now input.name b in
    apply_credit_limit-active now input.credit_limit (apply_description now input.description named)
      a h2
    ∙ apply_description-active now input.description named
    ∙ apply_name-active now input.name b
    ∙ find_for-active lib f input.id input.requesting_user_id replica b e

update_account_tx-eq_ok :
    (lib : Libs) (f : Faults) (a : Account) (db after : Db) (x : Unit {0})
    → update_account_tx lib f a db ≡ ok (x, after)
    → (row : AccountRow) × (find_account (lib.uuid_text a.id) db.accounts ≡ some row)
      × (find_account (lib.uuid_text a.id) after.accounts ≡ some (updated a row))
unfolding update_account_tx
update_account_tx-eq_ok lib f a db after x h =
    let (_, h1) = fail_if-bind _ _ _ h in
    let (row, e, h2) =
      >>=-eq-ok (check_row (find_account (lib.uuid_text a.id) db.accounts) a.credit_limit) _ h1 in
    let found =
      check_row-eq_ok (find_account (lib.uuid_text a.id) db.accounts) a.credit_limit row e in
    (
      row,
      found,
      subst (λ (d : Db). find_account (lib.uuid_text a.id) d.accounts ≡ some (updated a row))
          (ap (λ p. p.1) (ok-injective h2))
          (find_account-modify (lib.uuid_text a.id) (updated a) db.accounts row (λ r. refl) found),
    )

-- A write that reports success was answered.
after_write-eq_ok :
    (b : Account) (lost : Bool) (x : Unit {0}) (db before : Db) {a : Account} {after : Db}
    → after_write b (transaction lost (ok (x, db)) before) ≡ (ok a, after)
    → ◌≡◌ {A = Result Account × Db} (ok b, db) (ok a, after)
after_write-eq_ok b true x db before h = cc
after_write-eq_ok b false x db before h = h

-- A row that is active again, with what the account says, and with the owner, the type, the balance
-- and the creation date of the row before.
pub record Reopened (a : Account) (before after : AccountRow) : Type 0 where
  pub active : after.active ≡ true
  pub output_active : a.active ≡ true
  pub name : after.name ≡ a.name
  pub description : after.description ≡ a.description
  pub credit_limit : after.credit_limit ≡ a.credit_limit
  pub balance : after.balance ≡ before.balance
  pub user_id : after.user_id ≡ before.user_id
  pub type : after.type ≡ before.type
  pub created_at : after.created_at ≡ before.created_at

-- A change of an account that succeeds leaves it active, with the name, the description and the
-- limit of the output and the balance, the owner, the type and the creation date that the primary had,
-- even if the account was closed on the primary while the replica still showed it: the change opens
-- it again.
pub change_account-reopens :
    (lib : Libs) (f : Faults) (now : Time) (input : UpdateAccountInput) (replica primary after : Db)
    (a : Account)
    → change_account lib f now input replica primary ≡ (ok a, after)
    → (row row' : AccountRow) × (find_account (lib.uuid_text a.id) primary.accounts ≡ some row)
      × (find_account (lib.uuid_text a.id) after.accounts ≡ some row')
      × Reopened a row row'
unfolding change_account update_account
change_account-reopens lib f now input replica primary after a h =
    elim (Result-cases (build_update lib f now input replica)) [
      | inl (e, refused) ↦ cc (rw refused at h)
      | inr (b, built) ↦ elim (Result-cases (update_account_tx lib f b primary)) [
        | inl (e, failed) ↦ cc (rw (built, failed) at h)
        | inr ((x, db), committed) ↦
            let done : (ok b, db) ≡ (ok a, after) =
              after_write-eq_ok b (f.acknowledge || f.rows_affected) x db primary
                (rw (built, committed) at h) in
            let same : b ≡ a = ok-injective (ap (λ p. p.0) done) in
            let (row, before, found) = update_account_tx-eq_ok lib f b primary db x committed in
            let active = build_update-active lib f now input replica b built in
            let reopened : Reopened b row (updated b row) = record {
              active = active;
              output_active = active;
              name = refl;
              description = refl;
              credit_limit = refl;
              balance = refl;
              user_id = refl;
              type = refl;
              created_at = refl;
            } in
            subst₂
              (λ (c : Account) (d : Db).
                (r r' : AccountRow) × (find_account (lib.uuid_text c.id) primary.accounts ≡ some r)
                × (find_account (lib.uuid_text c.id) d.accounts ≡ some r')
                × Reopened c r r')
              same (ap (λ p. p.1) done) (row, updated b row, before, found, reopened)
      ]
    ]
