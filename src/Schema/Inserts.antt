-- ===== src/Schema/Inserts.antt =====
-- What an INSERT INTO statements of one or more rows stores.
use mathlib.Core.Path.{subst}
use financial_wallet.Prelude.{◌≡◌, ◌∙◌, sym, ap, not, true, List, [], ◌∷◌, arith}
use financial_wallet.Result.{ok, ◌>>◌, ok-injective, >>=-eq-ok, violation, foreign_key, fail_if}
use financial_wallet.Schema.{
  StatementRow, Db, all_linked, place_statement, place_statements, insert_statements,
  insert_statement,
}

-- The rows of an INSERT on top of the table, the last of them in front.
abbrev pub stacked : List StatementRow → List StatementRow → List StatementRow
stacked [] below = below
stacked (row ∷ rows) below = stacked rows (row ∷ below)

abbrev pub with_statements : List StatementRow → Db → Db
with_statements rows db = record db { statements = rows }

-- A row that was stored stands in front, and the rest of the database is as it was.
pub place_statement-eq_ok :
    (row : StatementRow) (db db' : Db)
    → place_statement row db ≡ ok db'
    → db' ≡ with_statements (row ∷ db.statements) db
unfolding place_statement
place_statement-eq_ok row db db' h = ground arith

pub place_statements-eq_ok :
    (rows : List StatementRow) (db db' : Db)
    → place_statements rows db ≡ ok db'
    → db' ≡ with_statements (stacked rows db.statements) db
unfolding place_statements
place_statements-eq_ok [] db db' h = sym (ok-injective h)
place_statements-eq_ok (row ∷ rows) db db' h =
    let (db1, e, h1) = >>=-eq-ok (place_statement row db) _ h in
    place_statements-eq_ok rows db1 db' h1
    ∙ ap (λ (d : Db). with_statements (stacked rows d.statements) d)
        (place_statement-eq_ok row db db1 e)

-- What storing a row keeps, storing several rows keeps.
pub place_statements-keep :
    (P : List StatementRow → Type 0)
    → ((row : StatementRow) (db db' : Db)
        → place_statement row db ≡ ok db'
        → P db.statements
        → P db'.statements)
    → (rows : List StatementRow) (db db' : Db) → place_statements rows db ≡ ok db'
    → P db.statements
    → P db'.statements
unfolding place_statements
place_statements-keep P keeps [] db db' e h = subst (λ (d : Db). P d.statements) (ok-injective e) h
place_statements-keep P keeps (row ∷ rows) db db' e h =
    let (db1, e1, e2) = >>=-eq-ok (place_statement row db) _ e in
    place_statements-keep P keeps rows db1 db' e2 (keeps row db db1 e1 h)

linked-eq_ok :
    (rows : List StatementRow) (placed db' : Db)
    → (fail_if (not (all_linked placed rows)) (violation foreign_key) >> ok placed) ≡ ok db'
    → (all_linked placed rows ≡ true) × (placed ≡ db')
linked-eq_ok rows placed db' h = (ground arith, ground arith)

-- An INSERT that is accepted has stored its rows, and their foreign keys hold in what it leaves.
pub insert_statements-placed :
    (rows : List StatementRow) (db db' : Db)
    → insert_statements rows db ≡ ok db'
    → (place_statements rows db ≡ ok db') × (all_linked db' rows ≡ true)
unfolding insert_statements
insert_statements-placed rows db db' h =
    let (placed, e, h1) = >>=-eq-ok (place_statements rows db) _ h in
    let (linked, same) = linked-eq_ok rows placed db' h1 in
    (e ∙ ap ok same, subst (λ d. all_linked d rows ≡ true) same linked)

pub insert_statements-eq_ok :
    (rows : List StatementRow) (db db' : Db)
    → insert_statements rows db ≡ ok db'
    → db' ≡ with_statements (stacked rows db.statements) db
insert_statements-eq_ok rows db db' h =
    place_statements-eq_ok rows db db' (insert_statements-placed rows db db' h).0

pub insert_statement-eq_ok :
    (row : StatementRow) (db db' : Db)
    → insert_statement row db ≡ ok db'
    → db' ≡ with_statements (row ∷ db.statements) db
insert_statement-eq_ok row = insert_statements-eq_ok (row ∷ [])
