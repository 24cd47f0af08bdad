-- ===== src/Readers.antt =====
-- The reads of the other repositories that the statement use cases call: AccountRepository.FindByID,
-- CategoryRepository.FindByID and FindVisible, TagRepository.FindByID and FindManyVisible.
use financial_wallet.Prelude.{
  Bool, true, not, ◌&&◌, Option, none, some, List, [], ◌∷◌, map, if◌then◌else◌,
}
use financial_wallet.Text.{Text, text_eq, contains}
use financial_wallet.Result.{
  Result, ok, ◌>>=◌, ◌>>◌, or_error, fail_if, traverse, account_not_found, category_not_found,
  category_not_visible, tag_not_found,
}
use financial_wallet.Domain.Account.{Account}
use financial_wallet.Domain.Labels.{Category, Tag}
use financial_wallet.Libs.{Libs}
use financial_wallet.Ids.{parse_id, parse_optional_id}
use financial_wallet.Schema.{AccountRow, Db, Faults, call, find_account, find_category, find_tag}

-- `user_id = $1 OR user_id IS NULL`
unfoldable pub is_visible : Text → Option Text → Bool
is_visible user none = true
is_visible user (some owner) = text_eq owner user

module _ (lib : Libs) where
  unfoldable pub to_account : AccountRow → Result Account
  to_account a = do
    id ← parse_id lib a.id
    user_id ← parse_id lib a.user_id
    ok (record {
      id = id;
      user_id = user_id;
      name = a.name;
      type = a.type;
      description = a.description;
      balance = a.balance;
      active = a.active;
      created_at = a.created_at;
      updated_at = a.updated_at;
      credit_limit = a.credit_limit;
    })

  -- `WHERE id = $1 AND active = true`
  unfoldable pub find_account_by_id : Faults → Text → Db → Result Account
  unfolding to_account
  find_account_by_id f id db = do
    call f.select_account
    row ← or_error (find_account (lib.uuid_text id) db.accounts) account_not_found
    fail_if (not row.active) account_not_found
    to_account row

  unfoldable pub to_category : Category → Result Category
  to_category c = do
    id ← parse_id lib c.id
    user_id ← parse_optional_id lib c.user_id
    ok (record c { id = id; user_id = user_id })

  unfoldable pub find_category_by_id : Faults → Text → Db → Result Category
  unfolding to_category
  find_category_by_id f id db = do
    call f.select_category
    row ← or_error (find_category (lib.uuid_text id) db.categories) category_not_found
    to_category row

  unfoldable pub find_visible_category : Faults → Text → Text → Db → Result Category
  unfolding to_category
  find_visible_category f id user db = do
    call f.select_category
    row ← or_error (find_category (lib.uuid_text id) db.categories) category_not_visible
    fail_if (not (is_visible (lib.uuid_text user) row.user_id)) category_not_visible
    to_category row

  unfoldable pub to_tag : Tag → Result Tag
  to_tag t = do
    id ← parse_id lib t.id
    user_id ← parse_optional_id lib t.user_id
    ok (record t { id = id; user_id = user_id })

  unfoldable pub find_tag_by_id : Faults → Text → Db → Result Tag
  unfolding to_tag
  find_tag_by_id f id db = do
    call f.select_tags
    row ← or_error (find_tag (lib.uuid_text id) db.tags) tag_not_found
    to_tag row

  -- `WHERE id = ANY($1) AND (user_id = $2 OR user_id IS NULL)`
  unfoldable pub visible_tags : List Text → Text → List Tag → List Tag
  visible_tags ids user [] = []
  visible_tags ids user (t ∷ rest) =
      let others = visible_tags ids user rest in
      if contains t.id ids && is_visible user t.user_id then t ∷ others else others

  unfoldable pub find_many_visible_tags : Faults → List Text → Text → Db → Result (List Tag)
  unfolding to_tag
  find_many_visible_tags f [] user db = ok []
  find_many_visible_tags f (id ∷ ids) user db = do
    call f.select_tags
    traverse to_tag (visible_tags (map lib.uuid_text (id ∷ ids)) (lib.uuid_text user) db.tags)
