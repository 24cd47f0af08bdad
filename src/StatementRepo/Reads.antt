-- ===== src/StatementRepo/Reads.antt =====
-- The hydrated read of a statement: FindByID of statement.go with its SELECT, its joins and
-- toStatement. `db` is the replica that the query runs on.
use financial_wallet.Prelude.{◌≡◌, arith, Option, none, some, List, [], ◌∷◌, if◌then◌else◌}
use financial_wallet.Text.{Text, text_eq}
use financial_wallet.Result.{
  Result, ok, ◌>>=◌, ◌>>◌, >>=-eq-ok, or_error, traverse, statement_not_found,
}
use financial_wallet.Domain.Statement.{TagRef, CategoryRef, Statement}
use financial_wallet.Domain.Labels.{Category, Tag}
use financial_wallet.Libs.{Libs}
use financial_wallet.Ids.{parse_id, parse_optional_id}
use financial_wallet.Schema.{
  StatementRow, Db, Faults, call, find_statement, find_category, find_tag,
}

-- `statement_tags st JOIN tags t ON t.id = st.tag_id WHERE st.statement_id = s.id`
joined_tags : Text → List (Text × Text) → List Tag → List TagRef
joined_tags statement [] tags = []
joined_tags statement ((s, t) ∷ rows) tags =
    let rest = joined_tags statement rows tags in
    if text_eq s statement
    then elim (find_tag t tags) [
      | none ↦ rest
      | some tag ↦ record { id = tag.id; name = tag.name } ∷ rest
    ]
    else rest

-- `LEFT JOIN categories c ON c.id = s.category_id`
joined_category : Option Text → List Category → Option Category
joined_category none categories = none
joined_category (some id) categories = find_category id categories

-- The CategoryRef of toStatement, from the parsed category_id and the joined columns.
category_ref : Option Text → Option Category → Option CategoryRef
category_ref none joined = none
category_ref (some id) none = none
category_ref (some id) (some c) = some (record { id = id; name = c.name; type = c.type })

module _ (lib : Libs) where
  to_tag_ref : TagRef → Result TagRef
  to_tag_ref ref = do id ← parse_id lib ref.id; ok (record { id = id; name = ref.name })

  unfoldable pub to_statement : Db → StatementRow → Result Statement
  unfolding joined_tags joined_category category_ref to_tag_ref
  to_statement db row = do
    id ← parse_id lib row.id
    account_id ← parse_id lib row.account_id
    reference_id ← parse_optional_id lib row.reference_id
    category_id ← parse_optional_id lib row.category_id
    tags ← traverse to_tag_ref (lib.order_tags (joined_tags row.id db.statement_tags db.tags))
    ok (record {
      id = id;
      account_id = account_id;
      type = row.type;
      amount = row.amount;
      description = row.description;
      reference_id = reference_id;
      external_id = row.external_id;
      balance_after = row.balance_after;
      posted_at = row.posted_at;
      created_at = row.created_at;
      category_id = category_id;
      category = category_ref category_id (joined_category row.category_id db.categories);
      tags = tags;
    })

  unfoldable pub find_by_id : Faults → Text → Db → Result Statement
  unfolding to_statement
  find_by_id f id db = do
    call f.select_statement
    row ← or_error (find_statement (lib.uuid_text id) db.statements) statement_not_found
    to_statement db row

  -- What a read gives back of the accounting columns is what the row holds.
  pub to_statement-eq_ok :
      (db : Db) (row : StatementRow) (s : Statement)
      → to_statement db row ≡ ok s
      → (s.id ≡ row.id)
        × (s.account_id ≡ row.account_id)
        × (s.type ≡ row.type)
        × (s.amount ≡ row.amount)
        × (s.balance_after ≡ row.balance_after)
  unfolding to_statement parse_id
  to_statement-eq_ok db row s h =
      let (id, e1, h1) = >>=-eq-ok (parse_id lib row.id) _ h in
      let (account_id, e2, h2) = >>=-eq-ok (parse_id lib row.account_id) _ h1 in
      let (reference_id, e3, h3) = >>=-eq-ok (parse_optional_id lib row.reference_id) _ h2 in
      let (category_id, e4, h4) = >>=-eq-ok (parse_optional_id lib row.category_id) _ h3 in
      let (tags, e5, h5) =
        >>=-eq-ok
          (traverse to_tag_ref (lib.order_tags (joined_tags row.id db.statement_tags db.tags))) _
          h4 in
      (ground arith, ground arith, ground arith, ground arith, ground arith)
