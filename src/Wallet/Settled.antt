-- ===== src/Wallet/Settled.antt =====
-- The transactions of a file that the filter loop of import.go skips.
use mathlib.Core.Path.{subst}
use financial_wallet.Prelude.{
  ℕ, ◌≡◌, ◌∙◌, refl, sym, ◌⊎◌, inl, inr, Bool-cases, true, false, not, ◌&&◌, some, List, [], ◌∷◌,
  All, length, arith,
}
use financial_wallet.Text.{Text, text_eq_refl, contains, is_empty}
use financial_wallet.Result.{ok}
use financial_wallet.Domain.Statement.{Time, Statement}
use financial_wallet.Libs.{Libs}
use financial_wallet.Schema.{StatementRow, Db, place_statement, has_external}
use financial_wallet.Schema.Inserts.{place_statement-eq_ok}
use financial_wallet.StatementRepo.Labels.{set_category}
use financial_wallet.StatementRepo.Unique.{has_external-set_category}
use financial_wallet.StatementRepo.External.{HasRow, HasId}
use financial_wallet.Usecases.Filter.{Filtered, done, skip, keep}
use financial_wallet.Usecases.Import.{
  Transaction, is_zero, map_ofx_transaction, is_skipped, collect_fitids,
}
use financial_wallet.Wallet.{Reach}
use financial_wallet.Wallet.Keeps.{Reach-Holds}

-- A transaction of a file that has an identifier, or moves nothing.
abbrev pub IsTracked : Transaction → Type 0
IsTracked txn = (is_empty txn.fitid ≡ false) ⊎ (is_zero txn.amount ≡ true)

-- A transaction that an import of the account skips.
abbrev pub IsSettled : Text → List StatementRow → Transaction → Type 0
IsSettled key rows txn =
    (is_zero txn.amount ≡ true)
    ⊎ ((is_empty txn.fitid ≡ false) × (has_external key txn.fitid rows ≡ true))

map_ofx_transaction-external :
    (now : Time) (uuid account_id : Text) (txn : Transaction) (s : Statement)
    → is_empty txn.fitid ≡ false
    → map_ofx_transaction now uuid account_id txn ≡ ok s
    → s.external_id ≡ some txn.fitid
unfolding map_ofx_transaction
map_ofx_transaction-external now uuid account_id txn s given h = ground arith

skipped-IsSettled :
    (key : Text) (rows : List StatementRow) (existing : List Text) (txn : Transaction)
    → ((x : Text) → contains x existing ≡ true → has_external key x rows ≡ true)
    → is_skipped existing txn ≡ true
    → IsSettled key rows txn
unfolding is_skipped
skipped-IsSettled key rows existing txn sound h =
    elim (Bool-cases (not (is_empty txn.fitid) && contains txn.fitid existing)) [
      | inl known ↦ inr (ground arith, sound txn.fitid (ground arith))
      | inr unknown ↦ inl (rw unknown at h)
    ]

module _ (lib : Libs) (now : Time) (fresh : ℕ → Text) (account_id key : Text) (existing : List Text)
    (rows : List StatementRow)
    (sound : (x : Text) → contains x existing ≡ true → has_external key x rows ≡ true) where
  made-IsSettled :
      (uuid : Text) (txn : Transaction) (s : Statement)
      → IsTracked txn
      → map_ofx_transaction now uuid account_id txn ≡ ok s
      → HasRow key rows s
      → IsSettled key rows txn
  made-IsSettled uuid txn s (inr zero) made h = inl zero
  made-IsSettled uuid txn s (inl given) made h = inr (
    given,
    subst (HasId key rows) (map_ofx_transaction-external now uuid account_id txn s given made) h,
  )

  -- After an import every transaction of its file is settled.
  pub Filtered-IsSettled :
      {txns : List Transaction} {stmts : List Statement} {n : ℕ}
      → Filtered now fresh account_id existing txns stmts n
      → All IsTracked txns
      → All (HasRow key rows) stmts
      → All (IsSettled key rows) txns
  Filtered-IsSettled done tracked h = tt
  Filtered-IsSettled (skip {txn} known rest) tracked h =
      (skipped-IsSettled key rows existing txn sound known, Filtered-IsSettled rest tracked.1 h)
  Filtered-IsSettled (keep {txn} {rest = rest} {s} unknown made others) tracked h = (
    made-IsSettled (fresh (length rest)) txn s tracked.0 made h.0,
    Filtered-IsSettled others tracked.1 h.1,
  )

-- A transaction stays settled.
All-IsSettled-mono :
    (key : Text) (before after : List StatementRow)
    → ((x : Text) → has_external key x before ≡ true → has_external key x after ≡ true)
    → (txns : List Transaction) → All (IsSettled key before) txns
    → All (IsSettled key after) txns
All-IsSettled-mono key before after more [] h = tt
All-IsSettled-mono key before after more (txn ∷ rest) (inl zero, h) =
    (inl zero, All-IsSettled-mono key before after more rest h)
All-IsSettled-mono key before after more (txn ∷ rest) (inr (given, known), h) =
    (inr (given, more txn.fitid known), All-IsSettled-mono key before after more rest h)

place_statement-external :
    (key x : Text) (row : StatementRow) (db db' : Db)
    → place_statement row db ≡ ok db'
    → has_external key x db.statements ≡ true
    → has_external key x db'.statements ≡ true
unfolding has_external
place_statement-external key x row db db' e h =
    subst (λ (d : Db). has_external key x d.statements ≡ true)
      (sym (place_statement-eq_ok row db db' e)) (ground arith)

pub Reach-IsSettled :
    (lib : Libs) (key : Text) (txns : List Transaction) {db db' : Db}
    → Reach lib db db'
    → All (IsSettled key db.statements) txns
    → All (IsSettled key db'.statements) txns
Reach-IsSettled lib key txns =
    Reach-Holds (λ rows. All (IsSettled key rows) txns)
      (λ row db db' e.
        All-IsSettled-mono key db.statements db'.statements
          (λ x. place_statement-external key x row db db' e) txns)
      (λ id category rows.
        All-IsSettled-mono key rows (set_category id category rows)
          (λ x h. has_external-set_category id category key x rows ∙ h) txns)
      lib

-- Settled transactions are skipped, as the lookup finds their identifiers.
pub settled-is_skipped :
    (key : Text) (rows : List StatementRow) (existing : List Text) (txn : Transaction)
    → (is_empty txn.fitid ≡ false
        → has_external key txn.fitid rows ≡ true
        → contains txn.fitid existing ≡ true)
    → IsSettled key rows txn
    → is_skipped existing txn ≡ true
unfolding is_skipped
settled-is_skipped key rows existing txn complete (inl zero) = ground arith
settled-is_skipped key rows existing txn complete (inr (given, known)) =
    let found = complete given known in ground arith

pub collect_fitids-head :
    (txn : Transaction) (rest : List Transaction)
    → is_empty txn.fitid ≡ false
    → contains txn.fitid (collect_fitids (txn ∷ rest)) ≡ true
unfolding collect_fitids contains
collect_fitids-head txn rest given = rw (given, text_eq_refl txn.fitid) refl

pub collect_fitids-tail :
    (txn : Transaction) (rest : List Transaction) (x : Text)
    → contains x (collect_fitids rest) ≡ true
    → contains x (collect_fitids (txn ∷ rest)) ≡ true
unfolding collect_fitids contains
collect_fitids-tail txn rest x h = ground arith
