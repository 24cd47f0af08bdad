-- ===== src/LabelRepo/Frame.antt =====
-- What the statements of SQL on categories and tags write, and what they leave alone.
use mathlib.Core.Path.{subst}
use financial_wallet.Prelude.{◌≡◌, refl, arith, ltb, false, Option, none, some, List, ◌∷◌}
use financial_wallet.Text.{Text}
use financial_wallet.Result.{ok}
use financial_wallet.Domain.Statement.{Time}
use financial_wallet.Domain.Labels.{Category, Tag}
use financial_wallet.Libs.{Libs}
use financial_wallet.Schema.{Db, find_category, find_tag}
use financial_wallet.StatementRepo.Rows.{SameLedger}
use financial_wallet.StatementRepo.Labels.{count_category}
use financial_wallet.LabelRepo.{
  insert_category, update_category_row, update_category_found, delete_category_row, insert_tag,
  update_tag_row, update_tag_found, delete_tag_row, rename_categories, rename_tags, remove_category,
  remove_tag, cascade_tag,
}

-- A database that differs in labels alone.
SameLedger-record :
    {db db' : Db} {categories : List Category} {tags : List Tag} {pairs : List (Text × Text)}
    → record db { categories = categories; tags = tags; statement_tags = pairs } ≡ db'
    → SameLedger db db'
SameLedger-record {db} same =
    subst (SameLedger db) same (record { accounts = refl; statements = refl })

module _ (lib : Libs) (db db' : Db) where
  pub insert_category-rows :
      (c : Category)
      → insert_category lib c db ≡ ok db'
      → record db { categories = c ∷ db.categories } ≡ db'
  unfolding insert_category
  insert_category-rows c h = ground arith

  pub insert_category-same : (c : Category) → insert_category lib c db ≡ ok db' → SameLedger db db'
  insert_category-same c h = SameLedger-record (insert_category-rows c h)

  update_category_found-rows :
      (found : Option Category) (id name : Text) (now : Time)
      → update_category_found lib found id name now db ≡ ok db'
      → record db { categories = rename_categories id name now db.categories } ≡ db'
  unfolding update_category_found
  update_category_found-rows none id name now h = cc
  update_category_found-rows (some c) id name now h = ground arith

  pub update_category_row-rows :
      (id name : Text) (now : Time)
      → update_category_row lib id name now db ≡ ok db'
      → record db { categories = rename_categories id name now db.categories } ≡ db'
  unfolding update_category_row
  update_category_row-rows id name now h =
      update_category_found-rows (find_category id db.categories) id name now h

  pub update_category_row-same :
      (id name : Text) (now : Time)
      → update_category_row lib id name now db ≡ ok db'
      → SameLedger db db'
  update_category_row-same id name now h =
      SameLedger-record (update_category_row-rows id name now h)

  pub delete_category_row-rows :
      (id : Text)
      → delete_category_row lib id db ≡ ok db'
      → (ltb 0 (count_category id db.statements) ≡ false)
        × (record db { categories = remove_category id db.categories } ≡ db')
  unfolding delete_category_row
  delete_category_row-rows id h = (ground arith, ground arith)

  pub delete_category_row-same :
      (id : Text) → delete_category_row lib id db ≡ ok db' → SameLedger db db'
  delete_category_row-same id h = SameLedger-record (delete_category_row-rows id h).1

  pub insert_tag-rows :
      (t : Tag) → insert_tag lib t db ≡ ok db' → record db { tags = t ∷ db.tags } ≡ db'
  unfolding insert_tag
  insert_tag-rows t h = ground arith

  pub insert_tag-same : (t : Tag) → insert_tag lib t db ≡ ok db' → SameLedger db db'
  insert_tag-same t h = SameLedger-record (insert_tag-rows t h)

  update_tag_found-rows :
      (found : Option Tag) (id name : Text) (now : Time)
      → update_tag_found lib found id name now db ≡ ok db'
      → record db { tags = rename_tags id name now db.tags } ≡ db'
  unfolding update_tag_found
  update_tag_found-rows none id name now h = cc
  update_tag_found-rows (some t) id name now h = ground arith

  pub update_tag_row-rows :
      (id name : Text) (now : Time)
      → update_tag_row lib id name now db ≡ ok db'
      → record db { tags = rename_tags id name now db.tags } ≡ db'
  unfolding update_tag_row
  update_tag_row-rows id name now h = update_tag_found-rows (find_tag id db.tags) id name now h

  pub update_tag_row-same :
      (id name : Text) (now : Time) → update_tag_row lib id name now db ≡ ok db' → SameLedger db db'
  update_tag_row-same id name now h = SameLedger-record (update_tag_row-rows id name now h)

  pub delete_tag_row-rows :
      (id : Text)
      → delete_tag_row lib id db ≡ ok db'
      → record db {
        tags = remove_tag id db.tags;
        statement_tags = cascade_tag id db.statement_tags;
      }
        ≡ db'
  unfolding delete_tag_row
  delete_tag_row-rows id h = ground arith

  pub delete_tag_row-same : (id : Text) → delete_tag_row lib id db ≡ ok db' → SameLedger db db'
  delete_tag_row-same id h = SameLedger-record (delete_tag_row-rows id h)
