-- ===== src/Usecases/Checks.antt =====
-- What the category, the tags and the metadata of a request come to.
use mathlib.Core.Path.{subst}
use financial_wallet.Prelude.{
  ◌≤◌, ◌≡◌, refl, sym, ap, inl, inr, not, Option, some, none, List, [], ◌∷◌, arith, length, ltb,
  ◌==◌, map, Bool-cases,
}
use financial_wallet.Text.{Text, text_eq, text_eq_iff, is_empty}
use financial_wallet.Result.{
  ok, ok-injective, >>=-eq-ok, traverse, tag_limit_exceeded, tag_not_visible,
  category_type_mismatch,
}
use financial_wallet.Domain.Statement.{Statement, CategoryRef}
use financial_wallet.Domain.Labels.{Category, Tag, max_tags_per_statement}
use financial_wallet.Libs.{Libs}
use financial_wallet.Ids.{parse_id}
use financial_wallet.Schema.{Db, Faults}
use financial_wallet.Readers.{find_visible_category, find_many_visible_tags}
use financial_wallet.Usecases.Metadata.{
  resolve_category, resolve_given, resolve_tags, resolve_unique, dedup_tag_ids,
  apply_metadata_to_statement,
}
use financial_wallet.Usecases.Steps.{parse_id-bind, fail_if-bind, not-eq_false}

abbrev pub IsOfType : Text → Option Category → Type 0
IsOfType type none = Unit
IsOfType type (some c) = c.type ≡ type

abbrev pub IsRefOfType : Text → Option CategoryRef → Type 0
IsRefOfType type none = Unit
IsRefOfType type (some c) = c.type ≡ type

length-map : {A : Type 0} {B : Type 0} (g : A → B) (xs : List A) → length (map g xs) ≡ length xs
length-map g [] = refl
length-map g (x ∷ xs) = ground (arith, length-map g xs)

module _ (lib : Libs) (f : Faults) where
  resolve_given-IsOfType :
      (raw user type : Text) (db : Db) (cat : Option Category)
      → resolve_given lib f raw user type db ≡ ok cat
      → IsOfType type cat
  unfolding resolve_given
  resolve_given-IsOfType raw user type db cat h =
      let (_, h1) = parse_id-bind lib raw _ h in
      let (c, _, h2) = >>=-eq-ok (find_visible_category lib f raw user db) _ h1 in
      let (e, h3) = fail_if-bind (not (text_eq c.type type)) category_type_mismatch _ h2 in
      subst (IsOfType type) (ok-injective h3) ((text_eq_iff c.type type).0 (not-eq_false _ e))

  pub resolve_category-IsOfType :
      (raw : Option Text) (user type : Text) (db : Db) (cat : Option Category)
      → resolve_category lib f raw user type db ≡ ok cat
      → IsOfType type cat
  unfolding resolve_category
  resolve_category-IsOfType none user type db cat h = subst (IsOfType type) (ok-injective h) tt
  resolve_category-IsOfType (some raw) user type db cat h = elim (Bool-cases (is_empty raw)) [
    | inl empty ↦ subst (IsOfType type) (ok-injective (rw empty at h)) tt
    | inr given ↦ resolve_given-IsOfType raw user type db cat (rw given at h)
  ]

  resolve_unique-length :
      (raws : List Text) (user : Text) (db : Db) (tags : List Tag)
      → resolve_unique lib f raws user db ≡ ok tags
      → length tags ≤ max_tags_per_statement
  unfolding resolve_unique
  resolve_unique-length [] user db tags h = rw (← ok-injective h) (omega arith)
  resolve_unique-length (raw ∷ raws) user db tags h =
      let (few, h1) =
        fail_if-bind (ltb max_tags_per_statement (length (raw ∷ raws))) tag_limit_exceeded _ h in
      let (ids, _, h2) = >>=-eq-ok (traverse (parse_id lib) (raw ∷ raws)) _ h1 in
      let (found, _, h3) = >>=-eq-ok (find_many_visible_tags lib f ids user db) _ h2 in
      let (all, h4) =
        fail_if-bind (not (length found == length (raw ∷ raws))) tag_not_visible _ h3 in
      subst (λ (ts : List Tag). length ts ≤ max_tags_per_statement) (ok-injective h4) (ground arith)

  pub resolve_tags-length :
      (raws : List Text) (user : Text) (db : Db) (tags : List Tag)
      → resolve_tags lib f raws user db ≡ ok tags
      → length tags ≤ max_tags_per_statement
  unfolding resolve_tags
  resolve_tags-length raws user db tags h =
      resolve_unique-length (dedup_tag_ids raws) user db tags h

-- The metadata leaves the accounting of a statement alone.
module _ (s : Statement) where
  pub apply_metadata-type :
      (cat : Option Category) (tags : List Tag)
      → (apply_metadata_to_statement cat tags s).type ≡ s.type
  unfolding apply_metadata_to_statement
  apply_metadata-type none [] = refl
  apply_metadata-type none (t ∷ ts) = refl
  apply_metadata-type (some cat) [] = refl
  apply_metadata-type (some cat) (t ∷ ts) = refl

  pub apply_metadata-amount :
      (cat : Option Category) (tags : List Tag)
      → (apply_metadata_to_statement cat tags s).amount ≡ s.amount
  unfolding apply_metadata_to_statement
  apply_metadata-amount none [] = refl
  apply_metadata-amount none (t ∷ ts) = refl
  apply_metadata-amount (some cat) [] = refl
  apply_metadata-amount (some cat) (t ∷ ts) = refl

  pub apply_metadata-IsRefOfType :
      (type : Text) (cat : Option Category) (tags : List Tag)
      → s.category ≡ none
      → IsOfType type cat
      → IsRefOfType type (apply_metadata_to_statement cat tags s).category
  unfolding apply_metadata_to_statement
  apply_metadata-IsRefOfType type none [] e h = subst (IsRefOfType type) (sym e) tt
  apply_metadata-IsRefOfType type none (t ∷ ts) e h = subst (IsRefOfType type) (sym e) tt
  apply_metadata-IsRefOfType type (some cat) [] e h = h
  apply_metadata-IsRefOfType type (some cat) (t ∷ ts) e h = h

  pub apply_metadata-length :
      (cat : Option Category) (tags : List Tag)
      → s.tags ≡ []
      → length (apply_metadata_to_statement cat tags s).tags ≡ length tags
  unfolding apply_metadata_to_statement
  apply_metadata-length none [] e = ap length e
  apply_metadata-length none (t ∷ ts) e = length-map _ (t ∷ ts)
  apply_metadata-length (some cat) [] e = ap length e
  apply_metadata-length (some cat) (t ∷ ts) e = length-map _ (t ∷ ts)
