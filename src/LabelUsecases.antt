-- ===== src/LabelUsecases.antt =====
-- internal/usecases/category and internal/usecases/tag: the use cases over labels.
pub mod Guards
use financial_wallet.Prelude.{
  ℕ, Bool, true, false, not, Option, none, some, List, [], ◌∷◌, map, if◌then◌else◌, ltb,
}
use financial_wallet.Text.{Text, codes, text_eq, is_empty, trim_space}
use financial_wallet.Result.{
  Result, ok, err, ◌>>=◌, ◌>>◌, fail_if, category_invalid_name, category_read_only,
  category_not_found, category_in_use, tag_invalid_name, tag_read_only, tag_not_found,
}
use financial_wallet.Domain.Statement.{Time}
use financial_wallet.Domain.Labels.{
  Category, Tag, new_category, new_category_type, is_system_category, rename_category, new_tag,
  is_system_tag, rename_tag,
}
use financial_wallet.Libs.{Libs}
use financial_wallet.Ids.{parse_id}
use financial_wallet.Schema.{Db, Faults}
use financial_wallet.Readers.{find_category_by_id, find_tag_by_id}
use financial_wallet.LabelRepo.Methods.{
  Scope, scope_all, scope_system, scope_user, create_category, save_category, delete_category,
  count_statements_using, list_categories, create_tag, save_tag, delete_tag, list_tags,
}
use financial_wallet.Usecases.Output.{attempt}

-- FromDomain of the two dto packages; times stay values.
pub record CategoryOutput : Type 0 where
  pub id : Text
  pub name : Text
  pub type : Text
  pub scope : Text
  pub created_at : Time
  pub updated_at : Time

pub record TagOutput : Type 0 where
  pub id : Text
  pub name : Text
  pub scope : Text
  pub created_at : Time
  pub updated_at : Time

abbrev scope_text : Bool → Text
scope_text true = codes "system"
scope_text false = codes "user"

unfoldable pub category_from_domain : Category → CategoryOutput
unfolding is_system_category
category_from_domain c = record {
  id = c.id;
  name = c.name;
  type = c.type;
  scope = scope_text (is_system_category c);
  created_at = c.created_at;
  updated_at = c.updated_at;
}

unfoldable pub tag_from_domain : Tag → TagOutput
unfolding is_system_tag
tag_from_domain t = record {
  id = t.id;
  name = t.name;
  scope = scope_text (is_system_tag t);
  created_at = t.created_at;
  updated_at = t.updated_at;
}

pub record CreateCategoryInput : Type 0 where
  pub user_id : Text
  pub name : Text
  pub type : Text

pub record RenameInput : Type 0 where
  pub id : Text
  pub user_id : Text
  pub name : Text

pub record DeleteLabelInput : Type 0 where
  pub id : Text
  pub user_id : Text

pub record CreateTagInput : Type 0 where
  pub user_id : Text
  pub name : Text

abbrev pub category_written : Category → Result (Unit {0}) × Db → Result CategoryOutput × Db
category_written c (ok x, db) = (ok (category_from_domain c), db)
category_written c (err e, db) = (err e, db)

abbrev pub tag_written : Tag → Result (Unit {0}) × Db → Result TagOutput × Db
tag_written t (ok x, db) = (ok (tag_from_domain t), db)
tag_written t (err e, db) = (err e, db)

-- `t.UserID == nil || *t.UserID != userID`
abbrev pub not_owned : Option Text → Text → Bool
not_owned none user = true
not_owned (some owner) user = not (text_eq owner user)

-- The scope of a list request.
unfoldable pub scope_of : Text → Scope
scope_of raw =
    if text_eq raw (codes "system")
    then scope_system
    else if text_eq raw (codes "user")
    then scope_user
    else scope_all

module _ (lib : Libs) where
  unfoldable pub build_category : Time → Text → CreateCategoryInput → Result Category
  build_category now uuid input = do
    user_id ← parse_id lib input.user_id
    fail_if (is_empty (trim_space input.name)) category_invalid_name
    type ← new_category_type input.type
    ok (new_category uuid now user_id (trim_space input.name) type)

  -- category.CreateUseCase.Execute
  unfoldable pub add_category :
      Faults → Time → Text → CreateCategoryInput → Db → Result CategoryOutput × Db
  unfolding build_category
  add_category f now uuid input primary =
      attempt (build_category now uuid input)
        (λ c. category_written c (create_category lib f c primary)) primary

  -- The checks that Update and Delete share: the category is there, is no default, and is the user's.
  unfoldable pub find_own_category : Faults → Text → Text → Db → Result Category
  find_own_category f id user replica = do
    c ← find_category_by_id lib f id replica
    fail_if (is_system_category c) category_read_only
    fail_if (not_owned c.user_id user) category_not_found
    ok c

  unfoldable pub build_rename : Faults → Time → RenameInput → Db → Result Category
  unfolding find_own_category
  build_rename f now input replica = do
    user_id ← parse_id lib input.user_id
    id ← parse_id lib input.id
    fail_if (is_empty (trim_space input.name)) category_invalid_name
    c ← find_own_category f id user_id replica
    rename_category now (trim_space input.name) c

  -- category.UpdateUseCase.Execute
  unfoldable pub change_category :
      Faults → Time → RenameInput → Db → Db → Result CategoryOutput × Db
  unfolding build_rename
  change_category f now input replica primary =
      attempt (build_rename f now input replica)
        (λ c. category_written c (save_category lib f c primary)) primary

  unfoldable pub authorise_removal : Faults → DeleteLabelInput → Db → Result Text
  unfolding find_own_category
  authorise_removal f input replica = do
    user_id ← parse_id lib input.user_id
    id ← parse_id lib input.id
    c ← find_own_category f id user_id replica
    count ← count_statements_using lib f id replica
    fail_if (ltb 0 count) category_in_use
    ok id

  -- category.DeleteUseCase.Execute
  unfoldable pub remove_user_category : Faults → DeleteLabelInput → Db → Db → Result (Unit {0}) × Db
  unfolding authorise_removal
  remove_user_category f input replica primary =
      attempt (authorise_removal f input replica) (λ id. delete_category lib f id primary) primary

  type_filter : Text → Result (Option Text)
  type_filter raw =
      if is_empty raw then ok none else (do type ← new_category_type raw; ok (some type))

  -- category.ListUseCase.Execute
  unfoldable pub show_categories : Faults → Text → Text → Text → Db → Result (List CategoryOutput)
  unfolding type_filter
  show_categories f user scope type replica = do
    user_id ← parse_id lib user
    wanted ← type_filter type
    rows ← list_categories lib f user_id (scope_of scope) wanted replica
    ok (map category_from_domain rows)

  unfoldable pub build_tag : Time → Text → CreateTagInput → Result Tag
  build_tag now uuid input = do
    user_id ← parse_id lib input.user_id
    fail_if (is_empty (trim_space input.name)) tag_invalid_name
    ok (new_tag uuid now user_id (trim_space input.name))

  -- tag.CreateUseCase.Execute
  unfoldable pub add_tag : Faults → Time → Text → CreateTagInput → Db → Result TagOutput × Db
  unfolding build_tag
  add_tag f now uuid input primary =
      attempt (build_tag now uuid input) (λ t. tag_written t (create_tag lib f t primary)) primary

  unfoldable pub find_own_tag : Faults → Text → Text → Db → Result Tag
  find_own_tag f id user replica = do
    t ← find_tag_by_id lib f id replica
    fail_if (is_system_tag t) tag_read_only
    fail_if (not_owned t.user_id user) tag_not_found
    ok t

  unfoldable pub build_tag_rename : Faults → Time → RenameInput → Db → Result Tag
  unfolding find_own_tag
  build_tag_rename f now input replica = do
    user_id ← parse_id lib input.user_id
    id ← parse_id lib input.id
    fail_if (is_empty (trim_space input.name)) tag_invalid_name
    t ← find_own_tag f id user_id replica
    rename_tag now (trim_space input.name) t

  -- tag.UpdateUseCase.Execute
  unfoldable pub change_tag : Faults → Time → RenameInput → Db → Db → Result TagOutput × Db
  unfolding build_tag_rename
  change_tag f now input replica primary =
      attempt (build_tag_rename f now input replica) (λ t. tag_written t (save_tag lib f t primary))
        primary

  unfoldable pub authorise_tag_removal : Faults → DeleteLabelInput → Db → Result Text
  unfolding find_own_tag
  authorise_tag_removal f input replica = do
    user_id ← parse_id lib input.user_id
    id ← parse_id lib input.id
    t ← find_own_tag f id user_id replica
    ok id

  -- tag.DeleteUseCase.Execute
  unfoldable pub remove_user_tag : Faults → DeleteLabelInput → Db → Db → Result (Unit {0}) × Db
  unfolding authorise_tag_removal
  remove_user_tag f input replica primary =
      attempt (authorise_tag_removal f input replica) (λ id. delete_tag lib f id primary) primary

  -- tag.ListUseCase.Execute
  unfoldable pub show_tags : Faults → Text → Text → Db → Result (List TagOutput)
  show_tags f user scope replica = do
    user_id ← parse_id lib user
    rows ← list_tags lib f user_id (scope_of scope) replica
    ok (map tag_from_domain rows)
