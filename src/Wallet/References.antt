-- ===== src/Wallet/References.antt =====
-- The foreign keys of the tables statements and statement_tags, as the migrations declare them.
use mathlib.Core.Path.{subst}
use financial_wallet.Prelude.{◌≡◌, sym, All-map, true, Option, none, some, List, All}
use financial_wallet.Text.{Text}
use financial_wallet.Schema.{StatementRow, Db, find_statement, find_category, find_tag, is_some}
use financial_wallet.AccountRepo.Frame.{has_account}
use financial_wallet.Wallet.Writes.{IsKnown}

-- A reference_id that is NULL or refers to a statement.
abbrev pub IsPosted : List StatementRow → Option Text → Type 0
IsPosted rows none = Unit
IsPosted rows (some id) = is_some (find_statement id rows) ≡ true

-- The foreign keys of a row of statements, and of a row of statement_tags.
pub record Refers (db : Db) (row : StatementRow) : Type 0 where
  pub account : has_account row.account_id db.accounts ≡ true
  pub original : IsPosted db.statements row.reference_id
  pub category : IsKnown db.categories row.category_id

abbrev pub IsTagged : Db → Text × Text → Type 0
IsTagged db (s, t) =
    (is_some (find_statement s db.statements) ≡ true) × (is_some (find_tag t db.tags) ≡ true)

-- Every foreign key of a database refers to a row that is there.
pub record IsIntegral (db : Db) : Type 0 where
  pub statements : All (Refers db) db.statements
  pub tags : All (IsTagged db) db.statement_tags

-- Nothing that a foreign key may refer to disappears, the category of the row in question aside.
pub record More (db db' : Db) : Type 0 where
  pub accounts : (k : Text) → has_account k db.accounts ≡ true → has_account k db'.accounts ≡ true
  pub statements :
      (k : Text)
      → is_some (find_statement k db.statements) ≡ true
      → is_some (find_statement k db'.statements) ≡ true

abbrev pub MoreTags : Db → Db → Type 0
MoreTags db db' =
    (k : Text) → is_some (find_tag k db.tags) ≡ true → is_some (find_tag k db'.tags) ≡ true

abbrev pub MoreCategories : Db → Db → Type 0
MoreCategories db db' =
    (category : Option Text) → IsKnown db.categories category → IsKnown db'.categories category

IsPosted-More :
    {db db' : Db}
    → More db db'
    → (id : Option Text) → IsPosted db.statements id
    → IsPosted db'.statements id
IsPosted-More more none h = tt
IsPosted-More more (some id) h = more.statements id h

pub Refers-More :
    {db db' : Db} (row : StatementRow)
    → More db db'
    → IsKnown db'.categories row.category_id
    → Refers db row
    → Refers db' row
Refers-More row more known h = record {
  account = more.accounts row.account_id h.account;
  original = IsPosted-More more row.reference_id h.original;
  category = known;
}

pub IsTagged-More :
    {db db' : Db}
    → More db db'
    → MoreTags db db'
    → (p : Text × Text) → IsTagged db p
    → IsTagged db' p
IsTagged-More more tags (s, t) h = (more.statements s h.0, tags t h.1)

-- A write that takes nothing away and leaves the rows with foreign keys as they are.
pub IsIntegral-More :
    {db db' : Db}
    → More db db'
    → MoreTags db db'
    → MoreCategories db db'
    → db'.statements ≡ db.statements
    → db'.statement_tags ≡ db.statement_tags
    → IsIntegral db
    → IsIntegral db'
IsIntegral-More {db} {db'} more tags categories same same_tags h = record {
  statements = subst (All (Refers db')) (sym same) (
      All-map (λ row r. Refers-More row more (categories row.category_id r.category) r)
        db.statements h.statements);
  tags =
      subst (All (IsTagged db')) (sym same_tags)
        (All-map (IsTagged-More more tags) db.statement_tags h.tags);
}

pub IsKnown-more :
    (db db' : Db)
    → ((k : Text)
        → is_some (find_category k db.categories) ≡ true
        → is_some (find_category k db'.categories) ≡ true)
    → MoreCategories db db'
IsKnown-more db db' more none h = tt
IsKnown-more db db' more (some id) h = more id h
