-- ===== src/StatementRepo/Labels.antt =====
-- UpdateCategory, ReplaceTags and CountByCategory of statement.go.
use financial_wallet.Prelude.{
  ◌&&◌, ◌||◌, ℕ, suc, not, Option, none, some, List, [], ◌∷◌, map, if◌then◌else◌,
}
use financial_wallet.Text.{Text, text_eq}
use financial_wallet.Result.{Result, ok, ◌>>=◌, ◌>>◌, fail_if, statement_not_found}
use financial_wallet.Domain.Statement.{TagRef}
use financial_wallet.Libs.{Libs}
use financial_wallet.Schema.{
  StatementRow, Db, Faults, call, transaction, find_statement, find_category, is_some, column_eq,
}
use financial_wallet.StatementRepo.{insert_statement_tags}

-- The row that `UPDATE statements SET category_id = $1 WHERE id = $2` makes of a row.
unfoldable pub relabel : Text → Option Text → StatementRow → StatementRow
relabel id category row = if text_eq row.id id then record row { category_id = category } else row

unfoldable pub set_category : Text → Option Text → List StatementRow → List StatementRow
set_category id category [] = []
set_category id category (row ∷ rows) = relabel id category row ∷ set_category id category rows

-- `DELETE FROM statement_tags WHERE statement_id = $1`
unfoldable pub delete_statement_tags : Text → List (Text × Text) → List (Text × Text)
delete_statement_tags id [] = []
delete_statement_tags id ((s, t) ∷ rows) =
    let rest = delete_statement_tags id rows in if text_eq s id then rest else (s, t) ∷ rest

-- `SELECT COUNT(*) FROM statements WHERE category_id = $1`
unfoldable pub count_category : Text → List StatementRow → ℕ
count_category id [] = 0
count_category id (row ∷ rows) =
    let rest = count_category id rows in if column_eq row.category_id id then suc rest else rest

module _ (lib : Libs) where
  -- The foreign key of category_id, which the repository maps to ErrStatementNotFound.
  unfoldable pub check_category : Option Text → Db → Result (Unit {0})
  check_category none db = ok tt
  check_category (some id) db =
      fail_if (not (is_some (find_category (lib.uuid_text id) db.categories))) statement_not_found

  unfoldable pub text_of_category : Option Text → Option Text
  text_of_category none = none
  text_of_category (some id) = some (lib.uuid_text id)

  unfoldable pub update_category_tx : Faults → Text → Option Text → Db → Result ((Unit {0}) × Db)
  unfolding check_category text_of_category
  update_category_tx f statement category db = do
    call (
        f.update
        || f.rows_affected
          && not (is_some (find_statement (lib.uuid_text statement) db.statements)))
    fail_if (not (is_some (find_statement (lib.uuid_text statement) db.statements)))
        statement_not_found
    check_category category db
    ok (
      tt,
      record db {
        statements =
            set_category (lib.uuid_text statement) (text_of_category category) db.statements;
      },
    )

  -- The foreign key of category_id is only looked at if a row is updated.
  unfoldable pub update_category : Faults → Text → Option Text → Db → Result (Unit {0}) × Db
  unfolding update_category_tx
  update_category f statement category db =
      transaction (f.acknowledge || f.rows_affected) (update_category_tx f statement category db) db

  unfoldable pub unnamed_ref : Text → TagRef
  unnamed_ref id = record { id = id; name = [] }

  unfoldable pub replace_tags_tx : Faults → Text → List Text → Db → Result ((Unit {0}) × Db)
  unfolding unnamed_ref
  replace_tags_tx f statement tag_ids db = do
    call f.begin
    call f.check_statement
    fail_if (not (is_some (find_statement (lib.uuid_text statement) db.statements)))
        statement_not_found
    call f.delete_tags
    let db1 = record db {
      statement_tags = delete_statement_tags (lib.uuid_text statement) db.statement_tags;
    }
    db2 ← insert_statement_tags lib f statement (map unnamed_ref tag_ids) db1
    call f.commit
    ok (tt, db2)

  unfoldable pub replace_tags : Faults → Text → List Text → Db → Result (Unit {0}) × Db
  unfolding replace_tags_tx
  replace_tags f statement tag_ids db =
      transaction f.acknowledge (replace_tags_tx f statement tag_ids db) db

  unfoldable pub count_by_category : Faults → Text → Db → Result ℕ
  unfolding count_category
  count_by_category f category db = do
    call f.count
    ok (count_category (lib.uuid_text category) db.statements)
