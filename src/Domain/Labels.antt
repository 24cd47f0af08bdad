-- ===== src/Domain/Labels.antt =====
-- internal/domain/category and internal/domain/tag: the labels of statements. A label with no
-- owner is a system default.
use financial_wallet.Prelude.{ℕ, Bool, true, false, ◌||◌, Option, none, some, if◌then◌else◌}
use financial_wallet.Text.{Text, codes, text_eq}
use financial_wallet.Result.{
  Result, ok, err, category_read_only, tag_read_only, invalid_category_type,
}
use financial_wallet.Domain.Statement.{Time}

pub record Category : Type 0 where
  pub id : Text
  pub user_id : Option Text
  pub name : Text
  pub type : Text
  pub created_at : Time
  pub updated_at : Time

pub record Tag : Type 0 where
  pub id : Text
  pub user_id : Option Text
  pub name : Text
  pub created_at : Time
  pub updated_at : Time

-- The two seeded "Estorno" categories.
abbrev pub estorno_credit_id : Text
estorno_credit_id = codes "00000000-0000-0000-0000-210000000006"

abbrev pub estorno_debit_id : Text
estorno_debit_id = codes "00000000-0000-0000-0000-22000000000c"

abbrev pub max_tags_per_statement : ℕ
max_tags_per_statement = 10

abbrev is_none : Option Text → Bool
is_none none = true
is_none (some x) = false

unfoldable pub new_category_type : Text → Result Text
unfolding text_eq
new_category_type value =
    if text_eq value (codes "credit") || text_eq value (codes "debit")
    then ok value
    else err invalid_category_type

unfoldable pub new_category : Text → Time → Text → Text → Text → Category
new_category uuid now user_id name type = record {
  id = uuid;
  user_id = some user_id;
  name = name;
  type = type;
  created_at = now;
  updated_at = now;
}

unfoldable pub is_system_category : Category → Bool
is_system_category c = is_none c.user_id

unfoldable pub rename_category : Time → Text → Category → Result Category
unfolding is_system_category
rename_category now name c =
    if is_system_category c
    then err category_read_only
    else ok (record c { name = name; updated_at = now })

unfoldable pub new_tag : Text → Time → Text → Text → Tag
new_tag uuid now user_id name = record {
  id = uuid;
  user_id = some user_id;
  name = name;
  created_at = now;
  updated_at = now;
}

unfoldable pub is_system_tag : Tag → Bool
is_system_tag t = is_none t.user_id

unfoldable pub rename_tag : Time → Text → Tag → Result Tag
unfolding is_system_tag
rename_tag now name t =
    if is_system_tag t then err tag_read_only else ok (record t { name = name; updated_at = now })
