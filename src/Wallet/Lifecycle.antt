-- ===== src/Wallet/Lifecycle.antt =====
-- Opening, changing and closing an account.
use mathlib.Core.Path.{subst, subst₂}
use financial_wallet.Prelude.{
  ◌||◌, ◌≡◌, ◌∙◌, refl, sym, ap, inl, inr, Bool, Bool-cases, true, false, Option, none, some, List,
  [], ◌∷◌, arith,
}
use financial_wallet.Prelude.Int.{ℤ}
use financial_wallet.Text.{Text, text_eq}
use financial_wallet.Result.{ok, err, ok-injective, >>=-eq-ok, Result-cases, account_not_found}
use financial_wallet.Domain.Statement.{Time}
use financial_wallet.Domain.Account.{
  Account, new_account, resolve_credit_limit, resolve_limit, accepts_credit_limit, new_credit_limit,
  new_account_type, is_account_type,
}
use financial_wallet.Libs.{Libs}
use financial_wallet.Schema.Commit.{transaction-eq_ok}
use financial_wallet.Schema.{AccountRow, Db, Faults, find_account}
use financial_wallet.Readers.{find_account_by_id}
use financial_wallet.AccountRepo.{
  limit_check, modify_account, deactivated, check_row, active_row, delete_account,
  delete_account_tx,
}
use financial_wallet.Usecases.Steps.{fail_if-bind, parse_id-bind}
use financial_wallet.Accounts.{
  CreateAccountInput, DeleteAccountInput, build_account, close_account, authorise_delete,
  check_owner,
}

-- An account whose type is known and whose limit the database accepts.
pub record IsSound (a : Account) : Type 0 where
  pub typed : is_account_type a.type ≡ true
  pub limited : limit_check a.type a.credit_limit ≡ true

resolve_limit-check :
    (type : Text) (accepts : Bool) (cents limit : Option ℤ)
    → accepts_credit_limit type ≡ accepts
    → resolve_limit accepts cents ≡ ok limit
    → limit_check type limit ≡ true
unfolding resolve_limit limit_check new_credit_limit
resolve_limit-check type false none limit e h = rw (← ok-injective h) (rw e refl)
resolve_limit-check type false (some cents) limit e h = cc
resolve_limit-check type true none limit e h = cc
resolve_limit-check type true (some cents) limit e h =
    let (c, made, k) = >>=-eq-ok (new_credit_limit cents) _ h in
    rw (← ok-injective k) (ground arith)

new_account_type-eq_ok :
    (value type : Text) → new_account_type value ≡ ok type → is_account_type type ≡ true
unfolding new_account_type
new_account_type-eq_ok value type h = elim (Bool-cases (is_account_type value)) [
  | inl good ↦ rw (← ok-injective (rw good at h)) good
  | inr bad ↦ cc (rw bad at h)
]

new_account-eq_ok :
    (uuid : Text) (now : Time) (user_id name type description : Text) (limit : Option ℤ)
    (a : Account)
    → is_account_type type ≡ true
    → new_account uuid now user_id name type description limit ≡ ok a
    → IsSound a × (a.active ≡ true)
unfolding new_account resolve_credit_limit
new_account-eq_ok uuid now user_id name type description limit a typed h =
    let (credit_limit, e, made) = >>=-eq-ok (resolve_limit (accepts_credit_limit type) limit) _ h in
    subst (λ b. IsSound b × (b.active ≡ true)) (ok-injective made)
      (
        record {
          typed = typed;
          limited = resolve_limit-check type (accepts_credit_limit type) limit credit_limit refl e;
        },
        refl,
      )

-- An account that a request makes is active, of a known type, and with a limit that the database
-- accepts: a credit card has one between 1 and the maximum, any other account has none.
pub build_account-IsSound :
    (lib : Libs) (now : Time) (uuid : Text) (input : CreateAccountInput) (a : Account)
    → build_account lib now uuid input ≡ ok a
    → IsSound a × (a.active ≡ true)
unfolding build_account
build_account-IsSound lib now uuid input a h =
    let (_, h1) = parse_id-bind lib input.user_id _ h in
    let (type, e, h2) = >>=-eq-ok (new_account_type input.type) _ h1 in
    new_account-eq_ok uuid now input.user_id input.name type input.description input.credit_limit a
      (new_account_type-eq_ok input.type type e) h2

-- A row that is found after an update of its id is the updated row.
pub find_account-modify :
    (id : Text) (change : AccountRow → AccountRow) (rows : List AccountRow) (row : AccountRow)
    → ((r : AccountRow) → (change r).id ≡ r.id)
    → find_account id rows ≡ some row
    → find_account id (modify_account id change rows) ≡ some (change row)
unfolding find_account modify_account
find_account-modify id change [] row same h = cc
find_account-modify id change (r ∷ rows) row same h = elim (Bool-cases (text_eq r.id id)) [
  | inl own ↦
      let e : r ≡ row = ground arith in
      let test : text_eq (change r).id id ≡ true = ap (λ k. text_eq k id) (same r) ∙ own in
      rw (own, test) (ap (λ k. some (change k)) e)
  | inr other ↦ rw (other, other) (find_account-modify id change rows row same (rw other at h))
]

active_row-eq_ok :
    (found : Option AccountRow) (row : AccountRow) → active_row found ≡ ok row → found ≡ some row
active_row-eq_ok none row h = cc
active_row-eq_ok (some r) row h = ground arith

pub check_row-eq_ok :
    (found : Option AccountRow) (limit : Option ℤ) (row : AccountRow)
    → check_row found limit ≡ ok row
    → found ≡ some row
check_row-eq_ok none limit row h = cc
check_row-eq_ok (some r) limit row h = ground arith

module _ (lib : Libs) (f : Faults) (now : Time) where
  delete_account_tx-eq_ok :
      (id : Text) (db after : Db) (x : Unit {0})
      → delete_account_tx lib f now id db ≡ ok (x, after)
      → (row : AccountRow) × (find_account (lib.uuid_text id) after.accounts
          ≡ some (deactivated now row))
  unfolding delete_account_tx
  delete_account_tx-eq_ok id db after x h =
      let (_, h1) = fail_if-bind _ _ _ h in
      let (row, e, h2) =
        >>=-eq-ok (active_row (find_account (lib.uuid_text id) db.accounts)) _ h1 in
      let found = active_row-eq_ok (find_account (lib.uuid_text id) db.accounts) row e in
      (
        row,
        subst (λ (d : Db). find_account (lib.uuid_text id) d.accounts ≡ some (deactivated now row))
            (ap (λ p. p.1) (ok-injective h2))
            (find_account-modify (lib.uuid_text id) (deactivated now) db.accounts row (λ r. refl)
              found),
      )

  -- An account that was closed is not found any more: a read of the database after it that reaches
  -- the table answers "account not found".
  pub close_account-find :
      (f' : Faults) (input : DeleteAccountInput) (replica primary after : Db)
      → f'.select_account ≡ false
      → close_account lib f now input replica primary ≡ (ok tt, after)
      → find_account_by_id lib f' input.id after ≡ err account_not_found
  unfolding close_account delete_account authorise_delete find_account_by_id
  close_account-find f' input replica primary after up h =
      elim (Result-cases (authorise_delete lib f input replica)) [
        | inl (e, refused) ↦ cc (rw refused at h)
        | inr (id, built) ↦
            let (_, b1) = parse_id-bind lib input.id _ built in
            let (_, _, b2) =
              >>=-eq-ok (check_owner lib f input.id input.requesting_user_id replica) _ b1 in
            let same : input.id ≡ id = ok-injective b2 in
            elim (Result-cases (delete_account_tx lib f now id primary)) [
              | inl (e, failed) ↦ cc (rw (built, failed) at h)
              | inr ((x, db), committed) ↦
                  let done : ok (x, db) ≡ ok (tt, after) =
                    transaction-eq_ok (f.acknowledge || f.rows_affected) (ok (x, db)) primary
                      (rw (built, committed) at h) in
                  let (row, found) = delete_account_tx-eq_ok id primary db x committed in
                  let gone : find_account (lib.uuid_text input.id) after.accounts
                      ≡ some (deactivated now row) =
                    subst₂
                      (λ k (d : Db).
                        find_account (lib.uuid_text k) d.accounts ≡ some (deactivated now row))
                      (sym same) (ap (λ p. p.1) (ok-injective done)) found in
                  rw (up, gone) refl
            ]
      ]
