-- ===== src/Libs.antt =====
-- What the program takes from code that the repository does not hold.
use financial_wallet.Prelude.{Bool, Option, List}
use financial_wallet.Text.{Text}
use financial_wallet.Domain.Statement.{Time, TagRef}
use financial_wallet.Domain.Labels.{Category, Tag}

-- uuid_parses: whether uuid.Parse of google/uuid accepts a text.
-- uuid_text: the text that PostgreSQL gives back for a uuid that was written as this text; it also
--   compares uuids by it.
-- order_tags: the order of `json_agg(... ORDER BY LOWER(t.name))`, which rests on the collation.
-- lower: LOWER of PostgreSQL, which rests on the collation.
-- order_categories, order_labels: the order of `ORDER BY user_id NULLS FIRST, LOWER(name)` on the rows of
--   categories and of tags.
-- order_names: the order of `ORDER BY name`, which rests on the collation.
-- rfc3339: time.Parse(time.RFC3339, s).
pub record Libs : Type 0 where
  pub uuid_parses : Text → Bool
  pub uuid_text : Text → Text
  pub order_tags : List TagRef → List TagRef
  pub lower : Text → Text
  pub order_categories : List Category → List Category
  pub order_labels : List Tag → List Tag
  pub order_names : List Text → List Text
  pub rfc3339 : Text → Option Time
