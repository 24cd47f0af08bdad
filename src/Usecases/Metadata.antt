-- ===== src/Usecases/Metadata.antt =====
-- internal/usecases/statement/metadata.go: the category and the tags of a request.
use financial_wallet.Prelude.{
  Bool, not, ◌&&◌, Option, none, some, List, [], ◌∷◌, map, length, ltb, ◌==◌, if◌then◌else◌,
}
use financial_wallet.Text.{Text, text_eq, is_empty, contains}
use financial_wallet.Result.{
  Result, ok, ◌>>=◌, ◌>>◌, fail_if, traverse, category_type_mismatch, tag_limit_exceeded,
  tag_not_visible, statement_not_found,
}
use financial_wallet.Domain.Statement.{TagRef, Statement, with_category, with_tags}
use financial_wallet.Domain.Account.{Account}
use financial_wallet.Domain.Labels.{Category, Tag, max_tags_per_statement}
use financial_wallet.Libs.{Libs}
use financial_wallet.Ids.{parse_id}
use financial_wallet.Schema.{Db, Faults}
use financial_wallet.Readers.{find_account_by_id, find_visible_category, find_many_visible_tags}

-- The loop of dedupTagIDs: `seen` holds the texts that were met.
unfoldable pub dedup_from : List Text → List Text → List Text
dedup_from seen [] = []
dedup_from seen (id ∷ ids) =
    let again = dedup_from seen ids in
    let first = dedup_from (id ∷ seen) ids in if contains id seen then again else id ∷ first

unfoldable pub dedup_tag_ids : List Text → List Text
unfolding dedup_from
dedup_tag_ids ids = dedup_from [] ids

-- The owner check: an empty requester is a service or an administrator.
unfoldable pub is_foreign : Text → Text → Bool
is_foreign requesting owner = not (is_empty requesting) && not (text_eq owner requesting)

abbrev pub tag_ref : Tag → TagRef
tag_ref t = record { id = t.id; name = t.name }

module _ (lib : Libs) where
  unfoldable pub resolve_given : Faults → Text → Text → Text → Db → Result (Option Category)
  resolve_given f raw user type db = do
    id ← parse_id lib raw
    cat ← find_visible_category lib f id user db
    fail_if (not (text_eq cat.type type)) category_type_mismatch
    ok (some cat)

  unfoldable pub resolve_category :
      Faults → Option Text → Text → Text → Db → Result (Option Category)
  unfolding resolve_given
  resolve_category f none user type db = ok none
  resolve_category f (some raw) user type db =
      let given = resolve_given f raw user type db in if is_empty raw then ok none else given

  -- The tags of a list without repeats.
  unfoldable pub resolve_unique : Faults → List Text → Text → Db → Result (List Tag)
  resolve_unique f [] user db = ok []
  resolve_unique f (raw ∷ raws) user db = do
    fail_if (ltb max_tags_per_statement (length (raw ∷ raws))) tag_limit_exceeded
    ids ← traverse (parse_id lib) (raw ∷ raws)
    found ← find_many_visible_tags lib f ids user db
    fail_if (not (length found == length (raw ∷ raws))) tag_not_visible
    ok found

  unfoldable pub resolve_tags : Faults → List Text → Text → Db → Result (List Tag)
  unfolding resolve_unique
  resolve_tags f raws user db = resolve_unique f (dedup_tag_ids raws) user db

  -- verifyStatementOwnership: the owner of the statement's account.
  unfoldable pub verify_statement_ownership : Faults → Statement → Text → Db → Result Text
  verify_statement_ownership f s requesting db = do
    account ← find_account_by_id lib f s.account_id db
    fail_if (is_foreign requesting account.user_id) statement_not_found
    ok account.user_id

  -- The steps that Create, Reverse, Import, Get and List begin with once the ID is parsed: find the
  -- account, and deny a requester who does not own it as if it were not there.
  unfoldable pub find_owned_account : Faults → Text → Text → Db → Result Account
  find_owned_account f id requesting db = do
    account ← find_account_by_id lib f id db
    fail_if (is_foreign requesting account.user_id) statement_not_found
    ok account

abbrev apply_category : Option Category → Statement → Statement
apply_category none s = s
apply_category (some cat) s = record (with_category cat.id s) {
  category = some (record { id = cat.id; name = cat.name; type = cat.type });
}

abbrev apply_tags : List Tag → Statement → Statement
apply_tags [] s = s
apply_tags (t ∷ ts) s = with_tags (map tag_ref (t ∷ ts)) s

unfoldable pub apply_metadata_to_statement : Option Category → List Tag → Statement → Statement
unfolding with_category with_tags
apply_metadata_to_statement cat tags s = apply_tags tags (apply_category cat s)
