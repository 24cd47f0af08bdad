-- ===== src/LabelUsecases/Guards.antt =====
-- Who may rename and remove a category or a tag, and what a removal takes away.
use mathlib.Core.Path.{subst}
use financial_wallet.Prelude.{
  ◌||◌, ◌≡◌, refl, sym, ap, inl, inr, Bool-cases, true, false, not, ◌&&◌, ltb, List, [], ◌∷◌,
  if◌then◌else◌, arith,
}
use financial_wallet.Text.{Text, text_eq, text_eq_iff, is_empty, trim_space}
use financial_wallet.Result.{
  Error, ok, err, ok-injective, >>=-eq-ok, Result-cases, category_read_only, category_not_found,
  tag_read_only, tag_not_found,
}
use financial_wallet.Domain.Statement.{Time}
use financial_wallet.Domain.Labels.{Category, Tag, is_system_category, is_system_tag}
use financial_wallet.Libs.{Libs}
use financial_wallet.Ids.{parse_id}
use financial_wallet.Schema.Commit.{transaction-eq_ok}
use financial_wallet.Schema.{Db, Faults, find_tag, is_some, has_statement_tag}
use financial_wallet.Readers.{find_category_by_id, find_tag_by_id}
use financial_wallet.StatementRepo.Rows.{SameLedger}
use financial_wallet.StatementRepo.Labels.{count_category}
use financial_wallet.LabelRepo.{remove_tag, cascade_tag, delete_category_row, delete_tag_row}
use financial_wallet.LabelRepo.Frame.{delete_tag_row-rows, delete_category_row-rows}
use financial_wallet.LabelRepo.Methods.{
  delete_category, delete_category_tx, count_statements_using, delete_tag, delete_tag_tx,
}
use financial_wallet.Usecases.Steps.{parse_id-bind, fail_if-bind}
use financial_wallet.LabelUsecases.{
  RenameInput, DeleteLabelInput, not_owned, find_own_category, build_rename, change_category,
  authorise_removal, remove_user_category, find_own_tag, build_tag_rename, change_tag,
  authorise_tag_removal, remove_user_tag,
}

-- The error for a label that the requester may see but not change: a default, or someone else's.
abbrev pub category_refusal : Category → Error
category_refusal c = if is_system_category c then category_read_only else category_not_found

abbrev pub tag_refusal : Tag → Error
tag_refusal t = if is_system_tag t then tag_read_only else tag_not_found

module _ (lib : Libs) (f : Faults) (now : Time) (id user name : Text) (replica primary : Db) where
  abbrev renaming : RenameInput
  renaming = record { id = id; user_id = user; name = name }

  abbrev removing : DeleteLabelInput
  removing = record { id = id; user_id = user }

  find_own_category-refused :
      (c : Category)
      → find_category_by_id lib f id replica ≡ ok c
      → not_owned c.user_id user ≡ true
      → find_own_category lib f id user replica ≡ err (category_refusal c)
  unfolding find_own_category
  find_own_category-refused c found foreign = elim (Bool-cases (is_system_category c)) [
    | inl system ↦ rw (found, system) refl
    | inr personal ↦ rw (found, personal, foreign) refl
  ]

  -- A category that is a default or another user's is neither renamed nor removed: both requests end
  -- in the same error, which for a default says that it is read only and otherwise that there is no
  -- such category, and the primary stays as it was. Both identifiers parse and the new name is not blank.
  pub category-guarded :
      (c : Category)
      → lib.uuid_parses id ≡ true
      → lib.uuid_parses user ≡ true
      → is_empty (trim_space name) ≡ false
      → find_category_by_id lib f id replica ≡ ok c
      → not_owned c.user_id user ≡ true
      → (change_category lib f now renaming replica primary ≡ (err (category_refusal c), primary))
        × (remove_user_category lib f removing replica primary
            ≡ (err (category_refusal c), primary))
  unfolding change_category remove_user_category build_rename authorise_removal parse_id
  category-guarded c parses user_parses named found foreign =
      let refused = find_own_category-refused c found foreign in
      (rw (user_parses, parses, named, refused) refl, rw (user_parses, parses, refused) refl)

  find_own_tag-refused :
      (t : Tag)
      → find_tag_by_id lib f id replica ≡ ok t
      → not_owned t.user_id user ≡ true
      → find_own_tag lib f id user replica ≡ err (tag_refusal t)
  unfolding find_own_tag
  find_own_tag-refused t found foreign = elim (Bool-cases (is_system_tag t)) [
    | inl system ↦ rw (found, system) refl
    | inr personal ↦ rw (found, personal, foreign) refl
  ]

  -- A tag that is a default or another user's is neither renamed nor removed: both requests end
  -- in the same error, which for a default says that it is read only and otherwise that there is no
  -- such tag, and the primary stays as it was. Both identifiers parse and the new name is not blank.
  pub tag-guarded :
      (t : Tag)
      → lib.uuid_parses id ≡ true
      → lib.uuid_parses user ≡ true
      → is_empty (trim_space name) ≡ false
      → find_tag_by_id lib f id replica ≡ ok t
      → not_owned t.user_id user ≡ true
      → (change_tag lib f now renaming replica primary ≡ (err (tag_refusal t), primary))
        × (remove_user_tag lib f removing replica primary ≡ (err (tag_refusal t), primary))
  unfolding change_tag remove_user_tag build_tag_rename authorise_tag_removal parse_id
  tag-guarded t parses user_parses named found foreign =
      let refused = find_own_tag-refused t found foreign in
      (rw (user_parses, parses, named, refused) refl, rw (user_parses, parses, refused) refl)

-- What is left of a tag that was removed: neither its row nor a tagging, and everything else.
pub record TagGone (id : Text) (before after : Db) : Type 0 where
  pub row : is_some (find_tag id after.tags) ≡ false
  pub taggings :
      (s t : Text)
      → has_statement_tag s t after.statement_tags
        ≡ (not (text_eq t id) && has_statement_tag s t before.statement_tags)
  pub ledger : SameLedger before after

find_tag-removed :
    (id : Text) (rows : List Tag) → is_some (find_tag id (remove_tag id rows)) ≡ false
unfolding remove_tag find_tag
find_tag-removed id [] = refl
find_tag-removed id (t ∷ rows) = elim (Bool-cases (text_eq t.id id)) [
  | inl gone ↦ rw gone (find_tag-removed id rows)
  | inr stays ↦ rw (stays, stays) (find_tag-removed id rows)
]

cascade_tag-has :
    (id s t : Text) (pairs : List (Text × Text))
    → has_statement_tag s t (cascade_tag id pairs)
      ≡ (not (text_eq t id) && has_statement_tag s t pairs)
unfolding cascade_tag has_statement_tag
cascade_tag-has id s t [] = ground arith
cascade_tag-has id s t ((s', t') ∷ pairs) = elim (Bool-cases (text_eq t' t)) [
  | inl same ↦
      let alike : text_eq t' id ≡ text_eq t id =
        ap (λ x. text_eq x id) ((text_eq_iff t' t).0 same) in
      ground (arith, alike, same, cascade_tag-has id s t pairs)
  | inr other ↦ ground (arith, other, cascade_tag-has id s t pairs)
]

module _ (lib : Libs) (f : Faults) where
  delete_category-in_use :
      (id : Text) (primary : Db)
      → ltb 0 (count_category (lib.uuid_text id) primary.statements) ≡ true
      → (e : Error) × (delete_category lib f id primary ≡ (err e, primary))
  unfolding delete_category delete_category_tx delete_category_row
  delete_category-in_use id primary used =
      elim (Result-cases (delete_category_tx lib f id primary)) [
        | inl (e, failed) ↦ (e, rw failed refl)
        | inr ((x, db), done) ↦
            let (_, h) = fail_if-bind _ _ _ done in
            let (db', written, _) =
              >>=-eq-ok (delete_category_row lib (lib.uuid_text id) primary) _ h in
            let unused : ltb 0 (count_category (lib.uuid_text id) primary.statements) ≡ false =
              (delete_category_row-rows lib primary db' (lib.uuid_text id) written).0 in
            cc
      ]

  authorise_removal-id :
      (input : DeleteLabelInput) (replica : Db) (id : Text)
      → authorise_removal lib f input replica ≡ ok id
      → input.id ≡ id
  unfolding authorise_removal
  authorise_removal-id input replica id h =
      let (_, h1) = parse_id-bind lib input.user_id _ h in
      let (_, h2) = parse_id-bind lib input.id _ h1 in
      let (c, _, h3) = >>=-eq-ok (find_own_category lib f input.id input.user_id replica) _ h2 in
      let (count, _, h4) = >>=-eq-ok (count_statements_using lib f input.id replica) _ h3 in
      let (_, h5) = fail_if-bind (ltb 0 count) _ _ h4 in ok-injective h5

  -- A category that a statement of the primary has is not removed, whatever the replica shows of it:
  -- the request fails and the primary stays as it was.
  pub remove_user_category-in_use :
      (input : DeleteLabelInput) (replica primary : Db)
      → ltb 0 (count_category (lib.uuid_text input.id) primary.statements) ≡ true
      → (e : Error) × (remove_user_category lib f input replica primary ≡ (err e, primary))
  unfolding remove_user_category
  remove_user_category-in_use input replica primary used =
      elim (Result-cases (authorise_removal lib f input replica)) [
        | inl (e, refused) ↦ (e, rw refused refl)
        | inr (id, granted) ↦
            let (e, stays) = delete_category-in_use input.id primary used in
            (e, rw (granted, ← authorise_removal-id input replica id granted) stays)
      ]

  authorise_tag_removal-id :
      (input : DeleteLabelInput) (replica : Db) (id : Text)
      → authorise_tag_removal lib f input replica ≡ ok id
      → input.id ≡ id
  unfolding authorise_tag_removal
  authorise_tag_removal-id input replica id h =
      let (_, h1) = parse_id-bind lib input.user_id _ h in
      let (_, h2) = parse_id-bind lib input.id _ h1 in
      let (t, _, h3) = >>=-eq-ok (find_own_tag lib f input.id input.user_id replica) _ h2 in
      ok-injective h3

  TagGone-deleted :
      (id : Text) (before after : Db)
      → delete_tag_row lib id before ≡ ok after
      → TagGone id before after
  TagGone-deleted id before after h =
      subst (TagGone id before) (delete_tag_row-rows lib before after id h) (record {
        row = find_tag-removed id before.tags;
        taggings = λ s t. cascade_tag-has id s t before.statement_tags;
        ledger = record { accounts = refl; statements = refl };
      })

  delete_tag-TagGone :
      (id : Text) (before after : Db)
      → delete_tag lib f id before ≡ (ok tt, after)
      → TagGone (lib.uuid_text id) before after
  unfolding delete_tag delete_tag_tx
  delete_tag-TagGone id before after h =
      let done =
        transaction-eq_ok (f.acknowledge || f.rows_affected) (delete_tag_tx lib f id before) before
          h in
      let (_, h1) = fail_if-bind _ _ _ done in
      let (db, written, h2) = >>=-eq-ok (delete_tag_row lib (lib.uuid_text id) before) _ h1 in
      subst (TagGone (lib.uuid_text id) before) (ap (λ p. p.1) (ok-injective h2))
        (TagGone-deleted (lib.uuid_text id) before db written)

  -- When the removal of a tag succeeds the primary has neither the tag nor a tagging with it, and it
  -- has all other taggings and the accounts and statements of before.
  pub remove_user_tag-TagGone :
      (input : DeleteLabelInput) (replica before after : Db)
      → remove_user_tag lib f input replica before ≡ (ok tt, after)
      → TagGone (lib.uuid_text input.id) before after
  unfolding remove_user_tag
  remove_user_tag-TagGone input replica before after h =
      elim (Result-cases (authorise_tag_removal lib f input replica)) [
        | inl (e, refused) ↦ cc (rw refused at h)
        | inr (id, granted) ↦
            subst (λ k. TagGone (lib.uuid_text k) before after)
              (sym (authorise_tag_removal-id input replica id granted))
              (delete_tag-TagGone id before after (rw granted at h))
      ]
