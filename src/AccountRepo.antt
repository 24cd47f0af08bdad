-- ===== src/AccountRepo.antt =====
-- internal/infrastructure/db/postgres/repository/account.go: the writes of the accounts table. No
-- statement of SQL here writes the balance of an account that exists.
pub mod Frame
use financial_wallet.Prelude.{
  Bool, true, false, not, ◌&&◌, ◌||◌, Option, none, some, List, [], ◌∷◌, if◌then◌else◌,
}
use financial_wallet.Prelude.Int.{ℤ, pos, ltb_ℤ}
use financial_wallet.Text.{Text, text_eq, contains}
use financial_wallet.Result.{
  Result, ok, err, ◌>>=◌, ◌>>◌, fail_if, Violation, unique, foreign_key, check, violation,
  account_not_found,
}
use financial_wallet.Domain.Statement.{Time}
use financial_wallet.Domain.Account.{
  Account, accepts_credit_limit, is_account_type, max_credit_limit,
}
use financial_wallet.Libs.{Libs}
use financial_wallet.Schema.{AccountRow, Db, Faults, call, transaction, find_account, is_some}

-- The constraint accounts_credit_limit_type_check.
unfoldable pub limit_check : Text → Option ℤ → Bool
limit_check type none = not (accepts_credit_limit type)
limit_check type (some limit) =
    accepts_credit_limit type && (ltb_ℤ (pos 0) limit && not (ltb_ℤ max_credit_limit limit))

unfoldable pub account_violation : Db → AccountRow → Option Violation
account_violation db row =
    if not (is_account_type row.type) || not (limit_check row.type row.credit_limit)
    then some check
    else if is_some (find_account row.id db.accounts)
    then some unique
    else if not (contains row.user_id db.users)
    then some foreign_key
    else none

abbrev pub insert_account : Option Violation → AccountRow → Db → Result ((Unit {0}) × Db)
insert_account none row db = ok (tt, record db { accounts = row ∷ db.accounts })
insert_account (some v) row db = err (violation v)

-- `UPDATE accounts SET ... WHERE id = $1`, for the columns that `change` writes.
unfoldable pub modify_account : Text → (AccountRow → AccountRow) → List AccountRow → List AccountRow
modify_account id change [] = []
modify_account id change (row ∷ rows) =
    (if text_eq row.id id then change row else row) ∷ modify_account id change rows

-- The columns that Update writes.
abbrev pub updated : Account → AccountRow → AccountRow
updated a row = record row {
  name = a.name;
  description = a.description;
  active = a.active;
  updated_at = a.updated_at;
  credit_limit = a.credit_limit;
}

abbrev pub deactivated : Time → AccountRow → AccountRow
deactivated now row = record row { active = false; updated_at = now }

-- The rows that an UPDATE finds: one with this id, which is active where the WHERE clause says so.
abbrev pub check_row : Option AccountRow → Option ℤ → Result AccountRow
check_row none limit = err account_not_found
check_row (some row) limit = if limit_check row.type limit then ok row else err (violation check)

abbrev pub is_active : Option AccountRow → Bool
is_active none = false
is_active (some row) = row.active

abbrev pub active_row : Option AccountRow → Result AccountRow
active_row none = err account_not_found
active_row (some row) = if row.active then ok row else err account_not_found

module _ (lib : Libs) where
  unfoldable pub from_domain_account : Account → AccountRow
  from_domain_account a = record {
    id = lib.uuid_text a.id;
    user_id = lib.uuid_text a.user_id;
    name = a.name;
    type = a.type;
    description = a.description;
    balance = a.balance;
    active = a.active;
    created_at = a.created_at;
    updated_at = a.updated_at;
    credit_limit = a.credit_limit;
  }

  unfoldable pub create_account_tx : Faults → Account → Db → Result ((Unit {0}) × Db)
  unfolding from_domain_account
  create_account_tx f a db = do
    call f.insert
    insert_account (account_violation db (from_domain_account a)) (from_domain_account a) db

  unfoldable pub create_account : Faults → Account → Db → Result (Unit {0}) × Db
  unfolding create_account_tx
  create_account f a db = transaction f.acknowledge (create_account_tx f a db) db

  unfoldable pub update_account_tx : Faults → Account → Db → Result ((Unit {0}) × Db)
  update_account_tx f a db = do
    call (
        f.update
        || f.rows_affected && not (is_some (find_account (lib.uuid_text a.id) db.accounts)))
    row ← check_row (find_account (lib.uuid_text a.id) db.accounts) a.credit_limit
    ok (tt, record db { accounts = modify_account (lib.uuid_text a.id) (updated a) db.accounts })

  unfoldable pub update_account : Faults → Account → Db → Result (Unit {0}) × Db
  unfolding update_account_tx
  update_account f a db =
      transaction (f.acknowledge || f.rows_affected) (update_account_tx f a db) db

  unfoldable pub delete_account_tx : Faults → Time → Text → Db → Result ((Unit {0}) × Db)
  delete_account_tx f now id db = do
    call (
        f.update
        || f.rows_affected && not (is_active (find_account (lib.uuid_text id) db.accounts)))
    row ← active_row (find_account (lib.uuid_text id) db.accounts)
    ok (
      tt,
      record db { accounts = modify_account (lib.uuid_text id) (deactivated now) db.accounts },
    )

  unfoldable pub delete_account : Faults → Time → Text → Db → Result (Unit {0}) × Db
  unfolding delete_account_tx
  delete_account f now id db =
      transaction (f.acknowledge || f.rows_affected) (delete_account_tx f now id db) db
