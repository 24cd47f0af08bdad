-- ===== src/Schema.antt =====
-- The tables of internal/infrastructure/db/postgres/migration that the ledger uses, with the
-- constraints that an INSERT is checked against, and the statements of SQL that several repositories
-- issue. New rows stand in front, so `statements` lists the ledger from the newest row to the oldest.
pub mod Commit
pub mod Inserts
use financial_wallet.Prelude.{
  ℕ, suc, leb, ltb, Bool, true, false, not, ◌&&◌, ◌||◌, Option, none, some, List, [], ◌∷◌,
  if◌then◌else◌,
}
use financial_wallet.Prelude.Int.{ℤ, pos, ltb_ℤ}
use financial_wallet.Text.{Text, text_eq}
use financial_wallet.Result.{
  Result, ok, err, Violation, unique, foreign_key, check, value_too_long, violation, unavailable,
  fail_if, ◌>>=◌, ◌>>◌,
}
use financial_wallet.Domain.Statement.{Time, is_valid_type}
use financial_wallet.Domain.Labels.{Category, Tag}

pub record AccountRow : Type 0 where
  pub id : Text
  pub user_id : Text
  pub name : Text
  pub type : Text
  pub description : Text
  pub balance : ℤ
  pub active : Bool
  pub created_at : Time
  pub updated_at : Time
  pub credit_limit : Option ℤ

pub record StatementRow : Type 0 where
  pub id : Text
  pub account_id : Text
  pub type : Text
  pub amount : ℤ
  pub description : Text
  pub reference_id : Option Text
  pub external_id : Option Text
  pub balance_after : ℤ
  pub posted_at : Time
  pub created_at : Time
  pub category_id : Option Text

pub record Db : Type 0 where
  pub users : List Text
  pub accounts : List AccountRow
  pub statements : List StatementRow
  pub statement_tags : List (Text × Text)
  pub categories : List Category
  pub tags : List Tag

-- The calls of the database that fail in a run: a lost connection, a timeout, a cancelled context.
-- `acknowledge`: a COMMIT, or a statement outside of a transaction, takes effect and its answer is lost.
-- `rows_affected`: the driver cannot say how many rows an UPDATE or a DELETE changed.
pub record Faults : Type 0 where
  pub begin : Bool
  pub lock : Bool
  pub select_account : Bool
  pub select_statement : Bool
  pub select_reversal : Bool
  pub select_external : Bool
  pub select_category : Bool
  pub select_tags : Bool
  pub count : Bool
  pub check_statement : Bool
  pub insert : Bool
  pub insert_tags : Bool
  pub delete_tags : Bool
  pub update : Bool
  pub delete : Bool
  pub commit : Bool
  pub acknowledge : Bool
  pub rows_affected : Bool

abbrev pub no_faults : Faults
no_faults = record {
  begin = false;
  lock = false;
  select_account = false;
  select_statement = false;
  select_reversal = false;
  select_external = false;
  select_category = false;
  select_tags = false;
  count = false;
  check_statement = false;
  insert = false;
  insert_tags = false;
  delete_tags = false;
  update = false;
  delete = false;
  commit = false;
  acknowledge = false;
  rows_affected = false;
}

abbrev pub call : Bool → Result (Unit {0})
call failed = fail_if failed unavailable

-- `BeginTxx` ... `Commit` with the deferred `Rollback`, or one statement that commits by itself: an
-- error of the body rolls back. What the body wrote is kept by the commit, also where the answer to it
-- is lost and the caller gets an error.
abbrev pub transaction {ℓ} : {A : Type ℓ} → Bool → Result (A × Db) → Db → Result A × Db
transaction lost (err e) db = (err e, db)
transaction false (ok (a, written)) db = (ok a, written)
transaction true (ok (a, written)) db = (err unavailable, written)

-- `SELECT ... WHERE id = $1` on a table whose id is the primary key.
unfoldable pub find_account : Text → List AccountRow → Option AccountRow
find_account id [] = none
find_account id (row ∷ rows) = if text_eq row.id id then some row else find_account id rows

unfoldable pub find_statement : Text → List StatementRow → Option StatementRow
find_statement id [] = none
find_statement id (row ∷ rows) = if text_eq row.id id then some row else find_statement id rows

unfoldable pub find_category : Text → List Category → Option Category
find_category id [] = none
find_category id (row ∷ rows) = if text_eq row.id id then some row else find_category id rows

unfoldable pub find_tag : Text → List Tag → Option Tag
find_tag id [] = none
find_tag id (row ∷ rows) = if text_eq row.id id then some row else find_tag id rows

abbrev pub is_some {ℓ} : {A : Type ℓ} → Option A → Bool
is_some none = false
is_some (some x) = true

-- A nullable column equals a value only where it is not NULL.
abbrev pub column_eq : Option Text → Text → Bool
column_eq none x = false
column_eq (some y) x = text_eq y x

-- `EXISTS(SELECT 1 FROM statements WHERE reference_id = $1)`
unfoldable pub has_reference : Text → List StatementRow → Bool
has_reference id [] = false
has_reference id (row ∷ rows) = column_eq row.reference_id id || has_reference id rows

-- `EXISTS(... WHERE account_id = $1 AND external_id = $2)`
unfoldable pub has_external : Text → Text → List StatementRow → Bool
has_external account external [] = false
has_external account external (row ∷ rows) =
    text_eq row.account_id account && column_eq row.external_id external
    || has_external account external rows

-- The unique partial indexes on reference_id and on (account_id, external_id).
abbrev pub duplicates_reference : Option Text → List StatementRow → Bool
duplicates_reference none rows = false
duplicates_reference (some id) rows = has_reference id rows

abbrev pub duplicates_external : Text → Option Text → List StatementRow → Bool
duplicates_external account none rows = false
duplicates_external account (some external) rows = has_external account external rows

abbrev pub misses_statement : Option Text → List StatementRow → Bool
misses_statement none rows = false
misses_statement (some id) rows = not (is_some (find_statement id rows))

abbrev pub misses_category : Option Text → List Category → Bool
misses_category none rows = false
misses_category (some id) rows = not (is_some (find_category id rows))

-- The characters of a text in UTF-8, which VARCHAR counts: the bytes that start one.
unfoldable pub char_count : Text → ℕ
char_count [] = 0
char_count (c ∷ s) = let rest = char_count s in if leb 128 c && ltb c 192 then rest else suc rest

abbrev pub too_long : ℕ → Option Text → Bool
too_long limit none = false
too_long limit (some s) = ltb limit (char_count s)

-- What a new row of statements breaks as it is stored: the lengths of its columns, the CHECKs and the
-- unique indexes. Foreign keys are looked at when the INSERT has stored all of its rows.
unfoldable pub statement_violation : Db → StatementRow → Option Violation
statement_violation db row =
    if too_long 10 (some row.type) || too_long 255 row.external_id
    then some value_too_long
    else if not (is_valid_type row.type) || not (ltb_ℤ (pos 0) row.amount)
    then some check
    else if is_some (find_statement row.id db.statements)
        || duplicates_reference row.reference_id db.statements
        || duplicates_external row.account_id row.external_id db.statements
    then some unique
    else none

-- The foreign keys of a row.
unfoldable pub has_links : Db → StatementRow → Bool
has_links db row =
    is_some (find_account row.account_id db.accounts)
    && not (misses_statement row.reference_id db.statements)
    && not (misses_category row.category_id db.categories)

unfoldable pub all_linked : Db → List StatementRow → Bool
all_linked db [] = true
all_linked db (row ∷ rows) = has_links db row && all_linked db rows

abbrev pub insert_checked : Option Violation → StatementRow → Db → Result Db
insert_checked none row db = ok (record db { statements = row ∷ db.statements })
insert_checked (some v) row db = err (violation v)

unfoldable pub place_statement : StatementRow → Db → Result Db
place_statement row db = insert_checked (statement_violation db row) row db

unfoldable pub place_statements : List StatementRow → Db → Result Db
place_statements [] db = ok db
place_statements (row ∷ rows) db = do db' ← place_statement row db; place_statements rows db'

-- `INSERT INTO statements ... VALUES (...), (...)`
unfoldable pub insert_statements : List StatementRow → Db → Result Db
insert_statements rows db = do
  db' ← place_statements rows db
  fail_if (not (all_linked db' rows)) (violation foreign_key)
  ok db'

-- `INSERT INTO statements` of one row.
abbrev pub insert_statement : StatementRow → Db → Result Db
insert_statement row db = insert_statements (row ∷ []) db

unfoldable pub has_statement_tag : Text → Text → List (Text × Text) → Bool
has_statement_tag statement tag [] = false
has_statement_tag statement tag ((s, t) ∷ rows) =
    text_eq s statement && text_eq t tag || has_statement_tag statement tag rows

-- `INSERT INTO statement_tags` of one row.
unfoldable pub insert_statement_tag : Text → Text → Db → Result Db
insert_statement_tag statement tag db =
    if has_statement_tag statement tag db.statement_tags
    then err (violation unique)
    else if not (is_some (find_statement statement db.statements))
        || not (is_some (find_tag tag db.tags))
    then err (violation foreign_key)
    else ok (record db { statement_tags = (statement, tag) ∷ db.statement_tags })

-- `UPDATE accounts SET balance = $1, updated_at = NOW() WHERE id = $2`
unfoldable pub set_balance : Text → ℤ → Time → List AccountRow → List AccountRow
set_balance id balance now [] = []
set_balance id balance now (row ∷ rows) =
    (if text_eq row.id id then record row { balance = balance; updated_at = now } else row)
    ∷ set_balance id balance now rows
