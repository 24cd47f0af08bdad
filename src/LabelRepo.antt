-- ===== src/LabelRepo.antt =====
-- internal/infrastructure/db/postgres/repository/category.go and tag.go: the writes, the lists, and the
-- statements of SQL on the tables categories and tags.
pub mod Methods
pub mod Frame
pub mod Keys
use financial_wallet.Prelude.{
  ℕ, Bool, true, false, not, ◌&&◌, ◌||◌, Option, none, some, List, [], ◌∷◌, if◌then◌else◌, ltb,
}
use financial_wallet.Text.{Text, codes, text_eq, contains}
use financial_wallet.Result.{
  Result, ok, err, ◌>>=◌, ◌>>◌, fail_if, traverse, violation, check, foreign_key,
  category_duplicate, category_not_found, category_in_use, tag_duplicate, tag_not_found,
  tag_not_visible, or_error,
}
use financial_wallet.Domain.Statement.{Time, is_valid_type}
use financial_wallet.Domain.Labels.{Category, Tag}
use financial_wallet.Libs.{Libs}
use financial_wallet.Schema.{
  Db, Faults, call, transaction, find_category, find_tag, is_some, column_eq,
}
use financial_wallet.StatementRepo.Labels.{count_category}
use financial_wallet.Readers.{is_visible, to_category, to_tag}

-- `COALESCE(user_id, '00000000-0000-0000-0000-000000000000'::uuid)`
abbrev pub owner_key : Option Text → Text
owner_key none = codes "00000000-0000-0000-0000-000000000000"
owner_key (some user) = user

-- Whether a user_id that may be NULL refers to a user.
abbrev pub misses_user : Option Text → List Text → Bool
misses_user none users = false
misses_user (some user) users = not (contains user users)

-- `DELETE FROM categories WHERE id = $1`, `DELETE FROM tags WHERE id = $1` and the cascade of the latter.
unfoldable pub remove_category : Text → List Category → List Category
remove_category id [] = []
remove_category id (c ∷ rows) =
    let rest = remove_category id rows in if text_eq c.id id then rest else c ∷ rest

unfoldable pub remove_tag : Text → List Tag → List Tag
remove_tag id [] = []
remove_tag id (t ∷ rows) =
    let rest = remove_tag id rows in if text_eq t.id id then rest else t ∷ rest

unfoldable pub cascade_tag : Text → List (Text × Text) → List (Text × Text)
cascade_tag id [] = []
cascade_tag id ((s, t) ∷ rows) =
    let rest = cascade_tag id rows in if text_eq t id then rest else (s, t) ∷ rest

-- `UPDATE ... SET name = $1, updated_at = $2 WHERE id = $3` on a row.
unfoldable pub renamed_category : Text → Text → Time → Category → Category
renamed_category id name now c =
    if text_eq c.id id then record c { name = name; updated_at = now } else c

unfoldable pub rename_categories : Text → Text → Time → List Category → List Category
rename_categories id name now [] = []
rename_categories id name now (c ∷ rows) =
    renamed_category id name now c ∷ rename_categories id name now rows

unfoldable pub renamed_tag : Text → Text → Time → Tag → Tag
renamed_tag id name now t =
    if text_eq t.id id then record t { name = name; updated_at = now } else t

unfoldable pub rename_tags : Text → Text → Time → List Tag → List Tag
rename_tags id name now [] = []
rename_tags id name now (t ∷ rows) = renamed_tag id name now t ∷ rename_tags id name now rows

module _ (lib : Libs) where
  -- idx_categories_user_name_type and idx_tags_user_name: two rows with the same key.
  unfoldable pub same_category_key : Category → Category → Bool
  same_category_key a b =
      text_eq (owner_key a.user_id) (owner_key b.user_id)
      && text_eq (lib.lower a.name) (lib.lower b.name)
      && text_eq a.type b.type

  unfoldable pub same_tag_key : Tag → Tag → Bool
  same_tag_key a b =
      text_eq (owner_key a.user_id) (owner_key b.user_id)
      && text_eq (lib.lower a.name) (lib.lower b.name)

  -- Whether a row with another id has the key.
  unfoldable pub has_category_key : Category → List Category → Bool
  has_category_key c [] = false
  has_category_key c (row ∷ rows) =
      not (text_eq row.id c.id) && same_category_key row c || has_category_key c rows

  unfoldable pub has_tag_key : Tag → List Tag → Bool
  has_tag_key t [] = false
  has_tag_key t (row ∷ rows) = not (text_eq row.id t.id) && same_tag_key row t || has_tag_key t rows

  -- `INSERT INTO categories`
  unfoldable pub insert_category : Category → Db → Result Db
  insert_category c db =
      if not (is_valid_type c.type)
      then err (violation check)
      else if is_some (find_category c.id db.categories) || has_category_key c db.categories
      then err category_duplicate
      else if misses_user c.user_id db.users
      then err (violation foreign_key)
      else ok (record db { categories = c ∷ db.categories })

  -- `UPDATE categories`: the unique index is looked at if a row is updated.
  unfoldable pub update_category_found : Option Category → Text → Text → Time → Db → Result Db
  update_category_found none id name now db = err category_not_found
  update_category_found (some c) id name now db =
      if has_category_key (record c { name = name }) db.categories
      then err category_duplicate
      else ok (record db { categories = rename_categories id name now db.categories })

  unfoldable pub update_category_row : Text → Text → Time → Db → Result Db
  unfolding update_category_found
  update_category_row id name now db =
      update_category_found (find_category id db.categories) id name now db

  -- `DELETE FROM categories`: ON DELETE RESTRICT of statements.category_id.
  unfoldable pub delete_category_row : Text → Db → Result Db
  delete_category_row id db =
      if not (is_some (find_category id db.categories))
      then err category_not_found
      else if ltb 0 (count_category id db.statements)
      then err category_in_use
      else ok (record db { categories = remove_category id db.categories })

  -- `INSERT INTO tags`, `UPDATE tags`, and `DELETE FROM tags` with ON DELETE CASCADE of
  -- statement_tags.tag_id.
  unfoldable pub insert_tag : Tag → Db → Result Db
  insert_tag t db =
      if is_some (find_tag t.id db.tags) || has_tag_key t db.tags
      then err tag_duplicate
      else if misses_user t.user_id db.users
      then err (violation foreign_key)
      else ok (record db { tags = t ∷ db.tags })

  unfoldable pub update_tag_found : Option Tag → Text → Text → Time → Db → Result Db
  update_tag_found none id name now db = err tag_not_found
  update_tag_found (some t) id name now db =
      if has_tag_key (record t { name = name }) db.tags
      then err tag_duplicate
      else ok (record db { tags = rename_tags id name now db.tags })

  unfoldable pub update_tag_row : Text → Text → Time → Db → Result Db
  unfolding update_tag_found
  update_tag_row id name now db = update_tag_found (find_tag id db.tags) id name now db

  unfoldable pub delete_tag_row : Text → Db → Result Db
  delete_tag_row id db =
      if not (is_some (find_tag id db.tags))
      then err tag_not_found
      else ok (record db {
        tags = remove_tag id db.tags;
        statement_tags = cascade_tag id db.statement_tags;
      })
