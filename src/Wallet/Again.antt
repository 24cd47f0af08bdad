-- ===== src/Wallet/Again.antt =====
-- import.go: a file that is imported a second time.
use mathlib.Core.Path.{subst}
use financial_wallet.Prelude.{ℕ, ◌≡◌, refl, sym, inl, inr, true, List, [], ◌∷◌, All}
use financial_wallet.Text.{Text, contains}
use financial_wallet.Result.{Result, ok, err, ok-injective, Result-cases}
use financial_wallet.Domain.Statement.{Time, Statement}
use financial_wallet.Libs.{Libs}
use financial_wallet.Schema.{StatementRow, Db, Faults, has_external}
use financial_wallet.StatementRepo.{create_batch}
use financial_wallet.StatementRepo.External.{find_external_ids_complete}
use financial_wallet.Usecases.Steps.{build_import-eq_ok}
use financial_wallet.Usecases.Filter.{Filtered, done, skip, keep, filter_transactions-Filtered}
use financial_wallet.Usecases.Import.{
  Transaction, ImportInput, ImportOutput, is_skipped, collect_fitids, build_import,
  import_statements,
}
use financial_wallet.Wallet.{Reach}
use financial_wallet.Wallet.Settled.{
  IsTracked, IsSettled, Reach-IsSettled, settled-is_skipped, collect_fitids-head,
  collect_fitids-tail,
}
use financial_wallet.Wallet.Import.{import_statements-IsSettled}

-- If all is skipped, nothing is made.
Filtered-none :
    (now : Time) (fresh : ℕ → Text) (account : Text) (existing : List Text)
    {txns : List Transaction} {stmts : List Statement} {n : ℕ}
    → Filtered now fresh account existing txns stmts n
    → All (λ txn. is_skipped existing txn ≡ true) txns
    → stmts ≡ []
Filtered-none now fresh account existing done h = refl
Filtered-none now fresh account existing (skip known rest) h =
    Filtered-none now fresh account existing rest h.1
Filtered-none now fresh account existing (keep unknown made others) h = cc (unknown, h.0)

-- The lookup of a file finds the identifiers of its settled transactions.
is_skipped-All :
    (key : Text) (rows : List StatementRow) (wanted existing : List Text)
    → ((x : Text)
        → contains x wanted ≡ true
        → has_external key x rows ≡ true
        → contains x existing ≡ true)
    → (txns : List Transaction)
    → ((x : Text) → contains x (collect_fitids txns) ≡ true → contains x wanted ≡ true)
    → All (IsSettled key rows) txns
    → All (λ txn. is_skipped existing txn ≡ true) txns
is_skipped-All key rows wanted existing complete [] among h = tt
is_skipped-All key rows wanted existing complete (txn ∷ rest) among h = (
  settled-is_skipped key rows existing txn
      (λ given known.
        complete txn.fitid (among txn.fitid (collect_fitids-head txn rest given)) known)
      h.0,
  is_skipped-All key rows wanted existing complete rest
      (λ x e. among x (collect_fitids-tail txn rest x e)) h.1,
)

-- An import that created nothing, if it succeeded.
abbrev pub IsIdle : Result ImportOutput → Type 0
IsIdle (err e) = Unit
IsIdle (ok out) = out.created ≡ 0

module _ (lib : Libs) (f : Faults) (now : Time) (fresh : ℕ → Text) (input : ImportInput)
    (txns : List Transaction) (replica primary : Db) where
  import_statements-IsIdle :
      All (IsSettled (lib.uuid_text input.account_id) primary.statements) txns
      → IsIdle (import_statements lib f now fresh input (ok txns) replica primary).0
        × ((import_statements lib f now fresh input (ok txns) replica primary).1 ≡ primary)
  unfolding import_statements create_batch
  import_statements-IsIdle settled =
      elim (Result-cases (build_import lib f now fresh input (ok txns) replica primary)) [
        | inl (e, refused) ↦ rw refused (tt, refl)
        | inr ((txns', stmts, skipped), built) ↦
            let i =
              build_import-eq_ok lib f now fresh input (ok txns) replica primary txns' stmts skipped
                built in
            let same : txns ≡ txns' = ok-injective i.file in
            let key : Text = lib.uuid_text input.account_id in
            let none_made : stmts ≡ [] =
              Filtered-none now fresh input.account_id i.existing
                (filter_transactions-Filtered now fresh input.account_id i.existing txns' stmts
                  skipped i.filtered)
                (is_skipped-All key primary.statements (collect_fitids txns') i.existing
                  (λ x.
                    find_external_ids_complete lib f input.account_id primary i.existing
                      (collect_fitids txns') x i.known)
                  txns' (λ x e. e) (subst (All (IsSettled key primary.statements)) same settled)) in
            rw (built, none_made) (refl, refl)
      ]

-- A file whose transactions all have an identifier of the bank, or move nothing, that was imported
-- into an account is not imported into it a second time, whatever requests came between and however
-- stale the replica is: the second import leaves the database as it was, and creates no statement
-- if it succeeds.
pub import_statements-again :
    (lib : Libs) (f f' : Faults) (now now' : Time) (fresh fresh' : ℕ → Text)
    (input input' : ImportInput) (txns : List Transaction)
    (replica primary after replica' later : Db) (out : ImportOutput)
    → All IsTracked txns
    → import_statements lib f now fresh input (ok txns) replica primary ≡ (ok out, after)
    → Reach lib after later
    → input'.account_id ≡ input.account_id
    → IsIdle (import_statements lib f' now' fresh' input' (ok txns) replica' later).0
      × ((import_statements lib f' now' fresh' input' (ok txns) replica' later).1 ≡ later)
import_statements-again lib f f' now now' fresh fresh' input input' txns replica primary after
      replica' later out tracked h path same =
    import_statements-IsIdle lib f' now' fresh' input' txns replica' later (
      subst (λ id. All (IsSettled (lib.uuid_text id) later.statements) txns) (sym same)
        (Reach-IsSettled lib (lib.uuid_text input.account_id) txns path (
          import_statements-IsSettled lib f now fresh input txns replica primary after out tracked
            h)))
