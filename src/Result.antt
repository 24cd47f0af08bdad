-- ===== src/Result.antt =====
-- The errors of the program as values: the sentinel errors of the domain packages, the constraint
-- that the database refused a row by, and a failed call of the database. A wrapped error
-- (`fmt.Errorf("...: %w", err)`) is the error that it wraps.
use financial_wallet.Prelude.{
  ◌≡◌, refl, ◌⊎◌, inl, inr, Bool, true, false, Option, none, some, List, [], ◌∷◌,
}

-- The constraints that the migrations declare, and the lengths of their columns.
pub data Violation : Type 0 where
  unique foreign_key check value_too_long : Violation

pub data Error : Type 0 where
  invalid_id : Error
  account_not_found credit_limit_required credit_limit_not_allowed : Error
  invalid_account_type invalid_credit_limit : Error
  statement_not_found already_reversed account_not_active : Error
  invalid_statement_type invalid_amount invalid_posted_at : Error
  category_not_found category_duplicate category_read_only category_in_use : Error
  category_type_mismatch category_not_visible category_invalid_name invalid_category_type : Error
  tag_not_found tag_duplicate tag_read_only : Error
  tag_not_visible tag_limit_exceeded tag_invalid_name : Error
  invalid_format no_transactions invalid_ofx_amount invalid_ofx_date : Error
  role_not_found duplicate_role_name role_already_assigned role_not_assigned : Error
  violation : Violation → Error
  unavailable : Error

-- What a Go function that returns `(value, error)` gives.
pub data Result {ℓ} (X : Type ℓ) : Type ℓ where
  err : Error → Result X
  ok : X → Result X

-- `x, err := first; if err != nil { return err }; next(x)`
infixl 6 ◌>>=◌ ◌>>◌
abbrev pub ◌>>=◌ {ℓ κ} : {X : Type ℓ} {Y : Type κ} → Result X → (X → Result Y) → Result Y
err failure >>= next = err failure
ok x >>= next = next x

-- The same for a step that returns an error only.
abbrev pub ◌>>◌ {ℓ} : {Y : Type ℓ} → Result (Unit {0}) → Result Y → Result Y
first >> rest = first >>= λ (_ : Unit {0}). rest

-- `if bad { return e }`
abbrev pub fail_if : Bool → Error → Result (Unit {0})
fail_if true e = err e
fail_if false e = ok tt

abbrev pub or_error {ℓ} : {A : Type ℓ} → Option A → Error → Result A
or_error none e = err e
or_error (some a) e = ok a

-- A loop that calls a fallible function on each member and stops at the first error.
unfoldable pub traverse {ℓ κ} :
    {A : Type ℓ} {B : Type κ} → (A → Result B) → List A → Result (List B)
traverse f [] = ok []
traverse f (x ∷ xs) = let rest = traverse f xs in do y ← f x; ys ← rest; ok (y ∷ ys)

-- What a successful chain of steps went through.
pub >>=-eq-ok {ℓ κ} :
    {X : Type ℓ} {Y : Type κ} (first : Result X) (next : X → Result Y) {y : Y}
    → (first >>= next) ≡ ok y
    → (x : X) × (first ≡ ok x) × (next x ≡ ok y)
>>=-eq-ok (err failure) next h = cc
>>=-eq-ok (ok x) next h = (x, refl, h)

-- To split on a computed result and keep the equation.
pub Result-cases {ℓ} :
    {A : Type ℓ} (r : Result A) → ((e : Error) × (r ≡ err e)) ⊎ ((a : A) × (r ≡ ok a))
Result-cases (ok a) = inr (a, refl)
Result-cases (err e) = inl (e, refl)

pub ok-injective {ℓ} : {A : Type ℓ} {a b : A} → ok a ≡ ok b → a ≡ b
ok-injective h = cc
