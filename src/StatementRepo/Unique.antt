-- ===== src/StatementRepo/Unique.antt =====
-- The unique partial indexes of the statements table on reference_id and on (account_id, external_id).
use mathlib.Core.Path.{subst}
use financial_wallet.Prelude.{
  ℕ, suc, ◌≤◌, ◌≡◌, ◌∙◌, refl, inl, inr, Bool-cases, false, true, Option, none, some, List, [], ◌∷◌,
  arith, ◌&&◌, if◌then◌else◌,
}
use financial_wallet.Text.{Text, text_eq, text_eq_iff}
use financial_wallet.Result.{ok}
use financial_wallet.Schema.{
  StatementRow, Db, place_statement, statement_violation, column_eq, duplicates_reference,
  duplicates_external, has_reference, has_external,
}
use financial_wallet.StatementRepo.Labels.{relabel, set_category}
use financial_wallet.StatementRepo.Relabel.{relabel-account}

-- How many statements reverse a statement, and how many were imported with an identifier of the bank.
abbrev pub reversal_count : Text → List StatementRow → ℕ
reversal_count id [] = 0
reversal_count id (row ∷ rows) =
    let rest = reversal_count id rows in if column_eq row.reference_id id then suc rest else rest

abbrev pub import_count : Text → Text → List StatementRow → ℕ
import_count account external [] = 0
import_count account external (row ∷ rows) =
    let rest = import_count account external rows in
    if text_eq row.account_id account && column_eq row.external_id external then suc rest else rest

abbrev pub IsUnique : List StatementRow → Type 0
IsUnique [] = Unit
IsUnique (row ∷ rows) =
    (duplicates_reference row.reference_id rows ≡ false)
    × (duplicates_external row.account_id row.external_id rows ≡ false)
    × IsUnique rows

reversal_count-none :
    (id : Text) (rows : List StatementRow)
    → has_reference id rows ≡ false
    → reversal_count id rows ≡ 0
unfolding has_reference
reversal_count-none id [] h = refl
reversal_count-none id (row ∷ rows) h = ground (arith, reversal_count-none id rows)

import_count-none :
    (account external : Text) (rows : List StatementRow)
    → has_external account external rows ≡ false
    → import_count account external rows ≡ 0
unfolding has_external
import_count-none account external [] h = refl
import_count-none account external (row ∷ rows) h =
    ground (arith, import_count-none account external rows)

duplicates_reference-false :
    (reference : Option Text) (id : Text) (rows : List StatementRow)
    → column_eq reference id ≡ true
    → duplicates_reference reference rows ≡ false
    → has_reference id rows ≡ false
duplicates_reference-false none id rows same h = cc
duplicates_reference-false (some y) id rows same h = rw (← (text_eq_iff y id).0 same) h

pub reversal_count-le_one :
    (id : Text) (rows : List StatementRow) → IsUnique rows → reversal_count id rows ≤ 1
reversal_count-le_one id [] h = omega arith
reversal_count-le_one id (row ∷ rows) h = elim (Bool-cases (column_eq row.reference_id id)) [
  | inl same ↦
      rw
        (
          same,
          reversal_count-none id rows
              (duplicates_reference-false row.reference_id id rows same h.0),
        )
        (omega arith)
  | inr other ↦ rw other (reversal_count-le_one id rows h.2)
]

duplicates_external-false :
    (own account external : Text) (reference : Option Text) (rows : List StatementRow)
    → (text_eq own account && column_eq reference external) ≡ true
    → duplicates_external own reference rows ≡ false
    → has_external account external rows ≡ false
duplicates_external-false own account external none rows same h = ground arith
duplicates_external-false own account external (some y) rows same h =
    let a : own ≡ account = (text_eq_iff own account).0 (ground arith) in
    let b : y ≡ external = (text_eq_iff y external).0 (ground arith) in rw (← a, ← b) h

pub import_count-le_one :
    (account external : Text) (rows : List StatementRow)
    → IsUnique rows
    → import_count account external rows ≤ 1
import_count-le_one account external [] h = omega arith
import_count-le_one account external (row ∷ rows) h =
    elim (Bool-cases (text_eq row.account_id account && column_eq row.external_id external)) [
      | inl same ↦
          rw
            (
              same,
              import_count-none account external rows (
                  duplicates_external-false row.account_id account external row.external_id rows
                    same h.1),
            )
            (omega arith)
      | inr other ↦ rw other (import_count-le_one account external rows h.2)
    ]

-- A row that is stored repeats neither.
pub place_statement-IsUnique :
    (row : StatementRow) (db db' : Db)
    → place_statement row db ≡ ok db'
    → IsUnique db.statements
    → IsUnique db'.statements
unfolding place_statement statement_violation
place_statement-IsUnique row db db' e h =
    let inserted : record db { statements = row ∷ db.statements } ≡ db' = ground arith in
    subst (λ (d : Db). IsUnique d.statements) inserted (ground arith, ground arith, h)

-- A change of a category touches neither column.
module _ (id : Text) (category : Option Text) where
  pub has_reference-set_category :
      (reference : Text) (rows : List StatementRow)
      → has_reference reference (set_category id category rows) ≡ has_reference reference rows
  unfolding has_reference set_category relabel
  has_reference-set_category reference [] = refl
  has_reference-set_category reference (row ∷ rows) =
      rw (has_reference-set_category reference rows) (ground arith)

  pub has_external-set_category :
      (account external : Text) (rows : List StatementRow)
      → has_external account external (set_category id category rows)
        ≡ has_external account external rows
  unfolding has_external set_category relabel
  has_external-set_category account external [] = refl
  has_external-set_category account external (row ∷ rows) =
      rw (has_external-set_category account external rows) (ground arith)

  duplicates_reference-set_category :
      (reference : Option Text) (rows : List StatementRow)
      → duplicates_reference reference (set_category id category rows)
        ≡ duplicates_reference reference rows
  duplicates_reference-set_category none rows = refl
  duplicates_reference-set_category (some y) rows = has_reference-set_category y rows

  duplicates_external-set_category :
      (account : Text) (external : Option Text) (rows : List StatementRow)
      → duplicates_external account external (set_category id category rows)
        ≡ duplicates_external account external rows
  duplicates_external-set_category account none rows = refl
  duplicates_external-set_category account (some y) rows = has_external-set_category account y rows

  relabel-reference :
      (row : StatementRow) → (relabel id category row).reference_id ≡ row.reference_id
  unfolding relabel
  relabel-reference row = ground arith

  relabel-external : (row : StatementRow) → (relabel id category row).external_id ≡ row.external_id
  unfolding relabel
  relabel-external row = ground arith

  pub set_category-IsUnique :
      (rows : List StatementRow) → IsUnique rows → IsUnique (set_category id category rows)
  unfolding set_category
  set_category-IsUnique [] h = tt
  set_category-IsUnique (row ∷ rows) h = (
    rw (relabel-reference row) (duplicates_reference-set_category row.reference_id rows ∙ h.0),
    rw (relabel-account id category row, relabel-external row)
        (duplicates_external-set_category row.account_id row.external_id rows ∙ h.1),
    set_category-IsUnique rows h.2,
  )
