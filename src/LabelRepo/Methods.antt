-- ===== src/LabelRepo/Methods.antt =====
-- The methods of CategoryRepository and TagRepository: Create, Update, Delete, List,
-- CountStatementsUsing and TagRepository.FindVisible.
use financial_wallet.Prelude.{
  ℕ, Bool, true, false, not, ◌&&◌, ◌||◌, Option, none, some, List, [], ◌∷◌, if◌then◌else◌,
}
use financial_wallet.Text.{Text, text_eq}
use financial_wallet.Result.{Result, ok, ◌>>=◌, ◌>>◌, fail_if, traverse, tag_not_visible, or_error}
use financial_wallet.Domain.Labels.{Category, Tag}
use financial_wallet.Libs.{Libs}
use financial_wallet.LabelRepo.{
  insert_category, update_category_row, delete_category_row, insert_tag, update_tag_row,
  delete_tag_row,
}
use financial_wallet.Schema.{Db, Faults, call, transaction, find_category, find_tag, is_some}
use financial_wallet.StatementRepo.Labels.{count_category}
use financial_wallet.Readers.{is_visible, to_category, to_tag}

-- Scope of category/filter.go and tag/filter.go.
pub data Scope : Type 0 where
  scope_all scope_system scope_user : Scope

abbrev is_default : Option Text → Bool
is_default none = true
is_default (some user) = false

abbrev is_own : Text → Option Text → Bool
is_own user none = false
is_own user (some owner) = text_eq owner user

-- ` AND type = $n`, which is there if the filter has a type.
abbrev matches_type : Option Text → Text → Bool
matches_type none type = true
matches_type (some wanted) type = text_eq type wanted

-- The WHERE clause of CategoryRepository.List. In the third text the type is appended to
-- `user_id = $1 OR user_id IS NULL`, and AND binds tighter than OR.
unfoldable pub lists_category : Text → Scope → Option Text → Category → Bool
lists_category user scope_system type c = is_default c.user_id && matches_type type c.type
lists_category user scope_user type c = is_own user c.user_id && matches_type type c.type
lists_category user scope_all type c =
    is_own user c.user_id || is_default c.user_id && matches_type type c.type

unfoldable pub lists_tag : Text → Scope → Tag → Bool
lists_tag user scope_system t = is_default t.user_id
lists_tag user scope_user t = is_own user t.user_id
lists_tag user scope_all t = is_own user t.user_id || is_default t.user_id

unfoldable pub select_categories : Text → Scope → Option Text → List Category → List Category
select_categories user scope type [] = []
select_categories user scope type (c ∷ rows) =
    let rest = select_categories user scope type rows in
    if lists_category user scope type c then c ∷ rest else rest

unfoldable pub select_tags_in : Text → Scope → List Tag → List Tag
select_tags_in user scope [] = []
select_tags_in user scope (t ∷ rows) =
    let rest = select_tags_in user scope rows in if lists_tag user scope t then t ∷ rest else rest

module _ (lib : Libs) where
  text_of_owner : Option Text → Option Text
  text_of_owner none = none
  text_of_owner (some user) = some (lib.uuid_text user)

  -- fromDomainCategory and fromDomainTag, as the rows that PostgreSQL stores.
  unfoldable pub from_domain_category : Category → Category
  unfolding text_of_owner
  from_domain_category c = record c { id = lib.uuid_text c.id; user_id = text_of_owner c.user_id }

  unfoldable pub from_domain_tag : Tag → Tag
  unfolding text_of_owner
  from_domain_tag t = record t { id = lib.uuid_text t.id; user_id = text_of_owner t.user_id }

  unfoldable pub create_category_tx : Faults → Category → Db → Result ((Unit {0}) × Db)
  create_category_tx f c db = do
    call f.insert
    db' ← insert_category lib (from_domain_category c) db
    ok (tt, db')

  unfoldable pub create_category : Faults → Category → Db → Result (Unit {0}) × Db
  unfolding create_category_tx
  create_category f c db = transaction f.acknowledge (create_category_tx f c db) db

  -- CategoryRepository.Update
  unfoldable pub save_category_tx : Faults → Category → Db → Result ((Unit {0}) × Db)
  save_category_tx f c db = do
    call (
        f.update
        || f.rows_affected && not (is_some (find_category (lib.uuid_text c.id) db.categories)))
    db' ← update_category_row lib (lib.uuid_text c.id) c.name c.updated_at db
    ok (tt, db')

  unfoldable pub save_category : Faults → Category → Db → Result (Unit {0}) × Db
  unfolding save_category_tx
  save_category f c db = transaction (f.acknowledge || f.rows_affected) (save_category_tx f c db) db

  unfoldable pub delete_category_tx : Faults → Text → Db → Result ((Unit {0}) × Db)
  delete_category_tx f id db = do
    call (
        f.delete
        || f.rows_affected && not (is_some (find_category (lib.uuid_text id) db.categories)))
    db' ← delete_category_row lib (lib.uuid_text id) db
    ok (tt, db')

  unfoldable pub delete_category : Faults → Text → Db → Result (Unit {0}) × Db
  unfolding delete_category_tx
  delete_category f id db =
      transaction (f.acknowledge || f.rows_affected) (delete_category_tx f id db) db

  -- CountStatementsUsing, on the replica.
  unfoldable pub count_statements_using : Faults → Text → Db → Result ℕ
  unfolding count_category
  count_statements_using f id replica = do
    call f.count
    ok (count_category (lib.uuid_text id) replica.statements)

  unfoldable pub list_categories : Faults → Text → Scope → Option Text → Db → Result (List Category)
  list_categories f user scope type replica = do
    call f.select_category
    traverse (to_category lib) (
        lib.order_categories (select_categories (lib.uuid_text user) scope type replica.categories))

  unfoldable pub create_tag_tx : Faults → Tag → Db → Result ((Unit {0}) × Db)
  create_tag_tx f t db = do call f.insert; db' ← insert_tag lib (from_domain_tag t) db; ok (tt, db')

  unfoldable pub create_tag : Faults → Tag → Db → Result (Unit {0}) × Db
  unfolding create_tag_tx
  create_tag f t db = transaction f.acknowledge (create_tag_tx f t db) db

  -- TagRepository.Update
  unfoldable pub save_tag_tx : Faults → Tag → Db → Result ((Unit {0}) × Db)
  save_tag_tx f t db = do
    call (f.update || f.rows_affected && not (is_some (find_tag (lib.uuid_text t.id) db.tags)))
    db' ← update_tag_row lib (lib.uuid_text t.id) t.name t.updated_at db
    ok (tt, db')

  unfoldable pub save_tag : Faults → Tag → Db → Result (Unit {0}) × Db
  unfolding save_tag_tx
  save_tag f t db = transaction (f.acknowledge || f.rows_affected) (save_tag_tx f t db) db

  unfoldable pub delete_tag_tx : Faults → Text → Db → Result ((Unit {0}) × Db)
  delete_tag_tx f id db = do
    call (f.delete || f.rows_affected && not (is_some (find_tag (lib.uuid_text id) db.tags)))
    db' ← delete_tag_row lib (lib.uuid_text id) db
    ok (tt, db')

  unfoldable pub delete_tag : Faults → Text → Db → Result (Unit {0}) × Db
  unfolding delete_tag_tx
  delete_tag f id db = transaction (f.acknowledge || f.rows_affected) (delete_tag_tx f id db) db

  unfoldable pub find_visible_tag : Faults → Text → Text → Db → Result Tag
  find_visible_tag f id user replica = do
    call f.select_tags
    row ← or_error (find_tag (lib.uuid_text id) replica.tags) tag_not_visible
    fail_if (not (is_visible (lib.uuid_text user) row.user_id)) tag_not_visible
    to_tag lib row

  unfoldable pub list_tags : Faults → Text → Scope → Db → Result (List Tag)
  list_tags f user scope replica = do
    call f.select_tags
    traverse (to_tag lib)
        (lib.order_labels (select_tags_in (lib.uuid_text user) scope replica.tags))
