-- ===== src/StatementRepo/External.antt =====
-- FindExternalIDs of statement.go, and the identifiers of the bank that CreateBatch writes.
use mathlib.Core.Path.{subst}
use financial_wallet.Prelude.{
  ◌≡◌, refl, sym, inl, inr, Bool, Bool-cases, true, ◌&&◌, ◌||◌, Option, none, some, List, [], ◌∷◌,
  All, arith,
}
use financial_wallet.Prelude.Int.{ℤ}
use financial_wallet.Text.{Text, text_eq, text_eq_iff, text_eq_refl, contains}
use financial_wallet.Result.{ok, ok-injective}
use financial_wallet.Domain.Statement.{Statement}
use financial_wallet.Libs.{Libs}
use financial_wallet.Schema.{StatementRow, Db, Faults, has_external, column_eq}
use financial_wallet.StatementRepo.{
  new_balance, from_domain_statement, find_external_ids, add_external, matching_external,
}
use financial_wallet.StatementRepo.Posted.{AreOf, posted}
use financial_wallet.Usecases.Steps.{fail_if-bind}

module _ (lib : Libs) where
  add_external_sound :
      (x : Text) (own : Bool) (wanted : List Text) (external : Option Text) (rest : List Text)
      → contains x (add_external lib own wanted external rest) ≡ true
      → (own && column_eq external x || contains x rest) ≡ true
  unfolding contains
  add_external_sound x own wanted none rest h = ground arith
  add_external_sound x own wanted (some external) rest h = ground arith

  add_external_complete :
      (x : Text) (own : Bool) (wanted : List Text) (external : Option Text) (rest : List Text)
      → contains x wanted ≡ true
      → (own && column_eq external x || contains x rest) ≡ true
      → contains x (add_external lib own wanted external rest) ≡ true
  unfolding contains
  add_external_complete x own wanted none rest w h = ground arith
  add_external_complete x own wanted (some external) rest w h =
      elim (Bool-cases (text_eq external x)) [
        | inl same ↦
            let w' : contains external wanted ≡ true = rw ((text_eq_iff external x).0 same) w in
            ground arith
        | inr other ↦ ground arith
      ]

module _ (lib : Libs) (account : Text) where
  matching_external_sound :
      (wanted : List Text) (x : Text) (rows : List StatementRow)
      → contains x (matching_external lib account wanted rows) ≡ true
      → has_external account x rows ≡ true
  unfolding matching_external has_external contains
  matching_external_sound wanted x [] h = cc
  matching_external_sound wanted x (row ∷ rows) h =
      let split =
        add_external_sound lib x (text_eq row.account_id account) wanted row.external_id
          (matching_external lib account wanted rows) h in
      let rest = matching_external_sound wanted x rows in
      elim (Bool-cases (contains x (matching_external lib account wanted rows))) [
        | inl found ↦ let r = rest found in ground arith
        | inr missed ↦ ground arith
      ]

  matching_external_complete :
      (wanted : List Text) (x : Text) (rows : List StatementRow)
      → contains x wanted ≡ true
      → has_external account x rows ≡ true
      → contains x (matching_external lib account wanted rows) ≡ true
  unfolding matching_external has_external
  matching_external_complete wanted x [] w h = cc
  matching_external_complete wanted x (row ∷ rows) w h =
      add_external_complete lib x (text_eq row.account_id account) wanted row.external_id
        (matching_external lib account wanted rows) w
        (elim (Bool-cases (has_external account x rows)) [
          | inl found ↦ let r = matching_external_complete wanted x rows w found in ground arith
          | inr missed ↦ ground arith
        ])

module _ (lib : Libs) (f : Faults) (account : Text) (db : Db) (existing : List Text) where
  -- What is found is there.
  pub find_external_ids_sound :
      (wanted : List Text) (x : Text)
      → find_external_ids lib f account wanted db ≡ ok existing
      → contains x existing ≡ true
      → has_external (lib.uuid_text account) x db.statements ≡ true
  unfolding find_external_ids contains
  find_external_ids_sound [] x h k =
      cc (subst (λ ids. contains x ids ≡ true) (sym (ok-injective h)) k)
  find_external_ids_sound (w ∷ ws) x h k =
      let (_, h1) = fail_if-bind f.select_external _ _ h in
      matching_external_sound lib (lib.uuid_text account) (w ∷ ws) x db.statements
        (subst (λ ids. contains x ids ≡ true) (sym (ok-injective h1)) k)

  -- What is wanted and there is found.
  pub find_external_ids_complete :
      (wanted : List Text) (x : Text)
      → find_external_ids lib f account wanted db ≡ ok existing
      → contains x wanted ≡ true
      → has_external (lib.uuid_text account) x db.statements ≡ true
      → contains x existing ≡ true
  unfolding find_external_ids contains
  find_external_ids_complete [] x h w k = cc
  find_external_ids_complete (y ∷ ys) x h w k =
      let (_, h1) = fail_if-bind f.select_external _ _ h in
      subst (λ ids. contains x ids ≡ true) (ok-injective h1)
        (matching_external_complete lib (lib.uuid_text account) (y ∷ ys) x db.statements w k)

-- A batch leaves its identifiers in the table.
abbrev pub HasId : Text → List StatementRow → Option Text → Type 0
HasId key rows none = Unit
HasId key rows (some x) = has_external key x rows ≡ true

abbrev pub HasRow : Text → List StatementRow → Statement → Type 0
HasRow key rows s = HasId key rows s.external_id

module _ (lib : Libs) (key : Text) where
  pub posted-has_external :
      (x : Text) (balance : ℤ) (stmts : List Statement) (rows : List StatementRow)
      → has_external key x rows ≡ true
      → has_external key x (posted lib balance stmts rows) ≡ true
  unfolding has_external
  posted-has_external x balance [] rows h = h
  posted-has_external x balance (s ∷ rest) rows h =
      posted-has_external x (new_balance s.type balance s.amount) rest
        (from_domain_statement lib (new_balance s.type balance s.amount) s ∷ rows) (ground arith)

  front-HasId :
      (balance : ℤ) (s : Statement) (external : Option Text) (rows : List StatementRow)
      → s.external_id ≡ external
      → lib.uuid_text s.account_id ≡ key
      → HasId key (from_domain_statement lib balance s ∷ rows) external
  unfolding has_external from_domain_statement
  front-HasId balance s none rows e own = tt
  front-HasId balance s (some x) rows e own = rw (e, own, text_eq_refl key, text_eq_refl x) refl

  posted-HasId :
      (external : Option Text) (balance : ℤ) (stmts : List Statement) (rows : List StatementRow)
      → HasId key rows external
      → HasId key (posted lib balance stmts rows) external
  posted-HasId none balance stmts rows h = tt
  posted-HasId (some x) balance stmts rows h = posted-has_external x balance stmts rows h

  pub posted-HasRow :
      (balance : ℤ) (stmts : List Statement) (rows : List StatementRow)
      → AreOf lib key stmts
      → All (HasRow key (posted lib balance stmts rows)) stmts
  posted-HasRow balance [] rows own = tt
  posted-HasRow balance (s ∷ rest) rows own =
      let b : ℤ = new_balance s.type balance s.amount in
      let row : StatementRow = from_domain_statement lib b s in
      (
        posted-HasId s.external_id b rest (row ∷ rows)
            (front-HasId b s s.external_id rows refl own.0),
        posted-HasRow b rest (row ∷ rows) own.1,
      )
