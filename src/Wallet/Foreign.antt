-- ===== src/Wallet/Foreign.antt =====
-- The foreign keys of the tables after one statement of SQL.
use mathlib.Core.Path.{subst}
use financial_wallet.Prelude.{
  sym, ◌≡◌, refl, ◌∙◌, inl, inr, Bool-cases, true, false, ltb, Option, none, some, List, [], ◌∷◌,
  All, All-map, All-map₂, arith,
}
use financial_wallet.Text.{Text, text_eq}
use financial_wallet.Result.{ok}
use financial_wallet.Domain.Labels.{Category, Tag}
use financial_wallet.Schema.{
  StatementRow, Db, find_statement, find_tag, is_some, insert_statements, all_linked, has_links,
  misses_statement, misses_category, insert_statement_tag, column_eq,
}
use financial_wallet.Schema.Inserts.{
  stacked, with_statements, insert_statements-eq_ok, insert_statements-placed,
}
use financial_wallet.StatementRepo.Labels.{
  relabel, set_category, delete_statement_tags, count_category,
}
use financial_wallet.AccountRepo.Frame.{has_account}
use financial_wallet.LabelRepo.{cascade_tag, remove_category, remove_tag}
use financial_wallet.LabelRepo.Keys.{find_category-remove, find_tag-remove, count_category-zero}
use financial_wallet.Wallet.Writes.{IsKnown}
use financial_wallet.Wallet.References.{
  IsPosted, Refers, IsTagged, IsIntegral, More, Refers-More, IsTagged-More,
}

-- Writes that leave the accounts and statements as they are.
pub same_rows :
    (db : Db) (categories : List Category) (tags : List Tag) (pairs : List (Text × Text))
    → More db (record db { categories = categories; tags = tags; statement_tags = pairs })
same_rows db categories tags pairs = record { accounts = λ k h. h; statements = λ k h. h }

accepted-IsPosted :
    (id : Option Text) (rows : List StatementRow)
    → misses_statement id rows ≡ false
    → IsPosted rows id
accepted-IsPosted none rows h = tt
accepted-IsPosted (some id) rows h = ground arith

accepted-IsKnown :
    (id : Option Text) (rows : List Category) → misses_category id rows ≡ false → IsKnown rows id
accepted-IsKnown none rows h = tt
accepted-IsKnown (some id) rows h = ground arith

stacked-more :
    (rows below : List StatementRow) (k : Text)
    → is_some (find_statement k below) ≡ true
    → is_some (find_statement k (stacked rows below)) ≡ true
unfolding find_statement
stacked-more [] below k h = h
stacked-more (row ∷ rows) below k h = stacked-more rows (row ∷ below) k (ground arith)

stacked-All :
    (P : StatementRow → Type 0) (rows below : List StatementRow)
    → All P rows
    → All P below
    → All P (stacked rows below)
stacked-All P [] below h k = k
stacked-All P (row ∷ rows) below h k = stacked-All P rows (row ∷ below) h.1 (h.0, k)

linked-Refers :
    (db : Db) (rows : List StatementRow) → all_linked db rows ≡ true → All (Refers db) rows
unfolding all_linked has_links
linked-Refers db [] h = tt
linked-Refers db (row ∷ rows) h =
    let account : has_account row.account_id db.accounts ≡ true = ground arith in
    let posted : misses_statement row.reference_id db.statements ≡ false = ground arith in
    let known : misses_category row.category_id db.categories ≡ false = ground arith in
    (
      record {
        account = account;
        original = accepted-IsPosted row.reference_id db.statements posted;
        category = accepted-IsKnown row.category_id db.categories known;
      },
      linked-Refers db rows (ground arith),
    )

-- An INSERT INTO statements: what it refers to may be among its own rows.
pub statement_rows-IsIntegral :
    (rows : List StatementRow) (db db' : Db)
    → insert_statements rows db ≡ ok db'
    → IsIntegral db
    → IsIntegral db'
statement_rows-IsIntegral rows db db' e h =
    let after : Db = with_statements (stacked rows db.statements) db in
    let same : db' ≡ after = insert_statements-eq_ok rows db db' e in
    let linked : all_linked after rows ≡ true =
      subst (λ d. all_linked d rows ≡ true) same (insert_statements-placed rows db db' e).1 in
    let more : More db after = record {
      accounts = λ k h. h;
      statements = stacked-more rows db.statements;
    } in
    subst IsIntegral (sym same) (record {
      statements =
          stacked-All (Refers after) rows db.statements (linked-Refers after rows linked)
            (All-map (λ r h. Refers-More r more h.category h) db.statements h.statements);
      tags = All-map (IsTagged-More more (λ k h. h)) db.statement_tags h.tags;
    })

pub statement_tag_row-IsIntegral :
    (statement tag : Text) (db db' : Db)
    → insert_statement_tag statement tag db ≡ ok db'
    → IsIntegral db
    → IsIntegral db'
unfolding insert_statement_tag
statement_tag_row-IsIntegral statement tag db db' e h =
    let here : is_some (find_statement statement db.statements) ≡ true = ground arith in
    let there : is_some (find_tag tag db.tags) ≡ true = ground arith in
    let same : record db { statement_tags = (statement, tag) ∷ db.statement_tags } ≡ db' =
      ground arith in
    let pairs : List (Text × Text) = (statement, tag) ∷ db.statement_tags in
    let more = same_rows db db.categories db.tags pairs in
    subst IsIntegral same (record {
      statements = All-map (λ r h. Refers-More r more h.category h) db.statements h.statements;
      tags = ((here, there), All-map (IsTagged-More more (λ k h. h)) db.statement_tags h.tags);
    })

-- An UPDATE of the category of a statement.
find_statement-set_category :
    (id k : Text) (category : Option Text) (rows : List StatementRow)
    → is_some (find_statement k (set_category id category rows)) ≡ is_some (find_statement k rows)
unfolding set_category relabel find_statement
find_statement-set_category id k category [] = refl
find_statement-set_category id k category (row ∷ rows) =
    ground (arith, find_statement-set_category id k category rows)

relabel-Refers :
    (db db' : Db) (id : Text) (category : Option Text) (row : StatementRow)
    → More db db'
    → db'.categories ≡ db.categories
    → IsKnown db.categories category
    → Refers db row
    → Refers db' (relabel id category row)
unfolding relabel
relabel-Refers db db' id category row more same known h = elim (Bool-cases (text_eq row.id id)) [
  | inl here ↦ rw here (
      Refers-More (record row { category_id = category }) more (rw same known)
        (record { account = h.account; original = h.original; category = known }))
  | inr other ↦ rw other (Refers-More row more (rw same h.category) h)
]

set_category-All :
    (db db' : Db) (id : Text) (category : Option Text) (rows : List StatementRow)
    → More db db'
    → db'.categories ≡ db.categories
    → IsKnown db.categories category
    → All (Refers db) rows
    → All (Refers db') (set_category id category rows)
unfolding set_category
set_category-All db db' id category [] more same known h = tt
set_category-All db db' id category (row ∷ rows) more same known h = (
  relabel-Refers db db' id category row more same known h.0,
  set_category-All db db' id category rows more same known h.1,
)

pub statement_category-IsIntegral :
    (id : Text) (category : Option Text) (db : Db)
    → IsKnown db.categories category
    → IsIntegral db
    → IsIntegral (record db { statements = set_category id category db.statements })
statement_category-IsIntegral id category db known h =
    let after : Db = record db { statements = set_category id category db.statements } in
    let more : More db after = record {
      accounts = λ k h. h;
      statements = λ k h. find_statement-set_category id k category db.statements ∙ h;
    } in
    record {
      statements = set_category-All db after id category db.statements more refl known h.statements;
      tags = All-map (IsTagged-More more (λ k h. h)) db.statement_tags h.tags;
    }

-- Rows of statement_tags that a DELETE leaves.
delete_statement_tags-All :
    (db : Db) (id : Text) (pairs : List (Text × Text))
    → All (IsTagged db) pairs
    → All (IsTagged db) (delete_statement_tags id pairs)
unfolding delete_statement_tags
delete_statement_tags-All db id [] h = tt
delete_statement_tags-All db id ((s, t) ∷ pairs) h = elim (Bool-cases (text_eq s id)) [
  | inl gone ↦ rw gone (delete_statement_tags-All db id pairs h.1)
  | inr stays ↦ rw stays (h.0, delete_statement_tags-All db id pairs h.1)
]

pub statement_untagged-IsIntegral :
    (id : Text) (db : Db)
    → IsIntegral db
    → IsIntegral (record db { statement_tags = delete_statement_tags id db.statement_tags })
statement_untagged-IsIntegral id db h =
    let pairs : List (Text × Text) = delete_statement_tags id db.statement_tags in
    let more = same_rows db db.categories db.tags pairs in
    record {
      statements = All-map (λ row r. Refers-More row more r.category r) db.statements h.statements;
      tags =
          All-map (IsTagged-More more (λ k h. h)) pairs
            (delete_statement_tags-All db id db.statement_tags h.tags);
    }

cascade_tag-All :
    (db db' : Db) (id : Text) (pairs : List (Text × Text))
    → db'.statements ≡ db.statements
    → ((k : Text)
        → text_eq k id ≡ false
        → is_some (find_tag k db.tags) ≡ true
        → is_some (find_tag k db'.tags) ≡ true)
    → All (IsTagged db) pairs
    → All (IsTagged db') (cascade_tag id pairs)
unfolding cascade_tag
cascade_tag-All db db' id [] same others h = tt
cascade_tag-All db db' id ((s, t) ∷ pairs) same others h = elim (Bool-cases (text_eq t id)) [
  | inl gone ↦ rw gone (cascade_tag-All db db' id pairs same others h.1)
  | inr stays ↦
      rw stays
        ((rw same h.0.0, others t stays h.0.1), cascade_tag-All db db' id pairs same others h.1)
]

-- A category that no statement has is removed.
Unlabelled-IsKnown :
    (id : Text) (category : Option Text) (rows : List Category)
    → column_eq category id ≡ false
    → IsKnown rows category
    → IsKnown (remove_category id rows) category
Unlabelled-IsKnown id none rows free h = tt
Unlabelled-IsKnown id (some k) rows free h = find_category-remove id k rows free h

pub category_gone-IsIntegral :
    (id : Text) (db : Db)
    → ltb 0 (count_category id db.statements) ≡ false
    → IsIntegral db
    → IsIntegral (record db { categories = remove_category id db.categories })
category_gone-IsIntegral id db unused h =
    let after : Db = record db { categories = remove_category id db.categories } in
    let more : More db after = same_rows db after.categories db.tags db.statement_tags in
    let free = count_category-zero id db.statements (ground arith) in
    record {
      statements =
          All-map₂
            (λ row r none_of.
              Refers-More row more
                (Unlabelled-IsKnown id row.category_id db.categories none_of r.category) r)
            db.statements h.statements free;
      tags = All-map (IsTagged-More more (λ k h. h)) db.statement_tags h.tags;
    }

pub tag_gone-IsIntegral :
    (id : Text) (db : Db)
    → IsIntegral db
    → IsIntegral (record db {
      tags = remove_tag id db.tags;
      statement_tags = cascade_tag id db.statement_tags;
    })
tag_gone-IsIntegral id db h =
    let after : Db = record db {
      tags = remove_tag id db.tags;
      statement_tags = cascade_tag id db.statement_tags;
    } in
    let more : More db after = same_rows db db.categories after.tags after.statement_tags in
    record {
      statements = All-map (λ row r. Refers-More row more r.category r) db.statements h.statements;
      tags =
          cascade_tag-All db after id db.statement_tags refl
            (λ k other found. find_tag-remove id k db.tags other found) h.tags;
    }
