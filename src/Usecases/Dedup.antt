-- ===== src/Usecases/Dedup.antt =====
-- dedupTagIDs of metadata.go.
use financial_wallet.Prelude.{
  ◌≡◌, ◌∙◌, refl, ap, inl, inr, Bool, Bool-cases, true, false, not, ◌&&◌, List, [], ◌∷◌, arith,
}
use financial_wallet.Text.{Text, text_eq, text_eq_iff, text_eq_refl, contains}
use financial_wallet.Usecases.Metadata.{dedup_from, dedup_tag_ids}

and_true : (b : Bool) → (b && true) ≡ b
and_true true = refl
and_true false = refl

and_false : (b : Bool) → (b && false) ≡ false
and_false true = refl
and_false false = refl

-- No text occurs twice.
abbrev pub IsDistinct : List Text → Type 0
IsDistinct [] = Unit
IsDistinct (x ∷ xs) = (contains x xs ≡ false) × IsDistinct xs

-- A text is kept if it occurs and was not seen before.
dedup_from-contains :
    (x : Text) (seen ids : List Text)
    → contains x (dedup_from seen ids) ≡ contains x ids && not (contains x seen)
unfolding dedup_from contains
dedup_from-contains x seen [] = refl
dedup_from-contains x seen (id ∷ ids) =
    let again = dedup_from-contains x seen ids in
    let first = dedup_from-contains x (id ∷ seen) ids in
    elim (Bool-cases (text_eq id x)) [
      | inl same ↦
          let e : contains id seen ≡ contains x seen =
            ap (λ k. contains k seen) ((text_eq_iff id x).0 same) in
          ground arith
      | inr other ↦ ground arith
    ]

dedup_first : (id : Text) (seen ids : List Text) → contains id (dedup_from (id ∷ seen) ids) ≡ false
unfolding contains
dedup_first id seen ids =
    dedup_from-contains id (id ∷ seen) ids ∙ rw (text_eq_refl id) (and_false (contains id ids))

dedup_from-IsDistinct : (seen ids : List Text) → IsDistinct (dedup_from seen ids)
unfolding dedup_from
dedup_from-IsDistinct seen [] = tt
dedup_from-IsDistinct seen (id ∷ ids) = elim (Bool-cases (contains id seen)) [
  | inl known ↦ rw known (dedup_from-IsDistinct seen ids)
  | inr fresh ↦ rw fresh (dedup_first id seen ids, dedup_from-IsDistinct (id ∷ seen) ids)
]

-- What dedupTagIDs leaves of the tags of a request: no text occurs in it twice, and a text occurs in it
-- if and only if it occurs in the request.
pub dedup_tag_ids-IsDistinct :
    (ids : List Text) (x : Text)
    → IsDistinct (dedup_tag_ids ids) × (contains x (dedup_tag_ids ids) ≡ contains x ids)
unfolding dedup_tag_ids contains
dedup_tag_ids-IsDistinct ids x =
    (dedup_from-IsDistinct [] ids, dedup_from-contains x [] ids ∙ and_true (contains x ids))
