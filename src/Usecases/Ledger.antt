-- ===== src/Usecases/Ledger.antt =====
-- Create, Reverse and Import of internal/usecases/statement, and the wallet of the primary.
use financial_wallet.Prelude.{
  ℕ, ◌≡◌, refl, ap, ◌∙◌, inl, inr, Option, none, some, List, [], ◌∷◌, length, arith,
}
use financial_wallet.Prelude.Int.{ℤ}
use financial_wallet.Text.{Text}
use financial_wallet.Result.{Result, ok, err, Result-cases}
use financial_wallet.Domain.Statement.{Time, Statement, new_statement}
use financial_wallet.Domain.Labels.{Category, Tag}
use financial_wallet.Libs.{Libs}
use financial_wallet.Schema.{Db, Faults}
use financial_wallet.StatementRepo.Posted.{AreOf}
use financial_wallet.StatementRepo.References.{IsWallet, create-IsWallet, create_batch-IsWallet}
use financial_wallet.Usecases.Metadata.{apply_metadata_to_statement}
use financial_wallet.Usecases.Output.{persisted}
use financial_wallet.Usecases.Create.{CreateInput, post_at, build_statement, create_statement}
use financial_wallet.Usecases.Reverse.{
  ReverseInput, new_reversal, build_reversal, reverse_statement,
}
use financial_wallet.Usecases.Steps.{
  build_statement-eq_ok, build_reversal-eq_ok, build_import-eq_ok,
}
use financial_wallet.Usecases.Filter.{Filtered, done, skip, keep, filter_transactions-Filtered}
use financial_wallet.Usecases.Import.{
  Transaction, ImportInput, imported, map_ofx_transaction, build_import, import_statements,
}

-- The database after a write does not depend on what is made of its result.
pub persisted-db : (s : Statement) (r : Result ℤ × Db) → (persisted s r).1 ≡ r.1
persisted-db s (ok balance, db) = refl
persisted-db s (err e, db) = refl

pub imported-db :
    (total : ℕ) (stmts : List Statement) (skipped : ℕ) (r : Result ℤ × Db)
    → (imported total stmts skipped r).1 ≡ r.1
imported-db total stmts skipped (ok balance, db) = refl
imported-db total stmts skipped (err e, db) = refl

apply_metadata-account :
    (cat : Option Category) (tags : List Tag) (s : Statement)
    → (apply_metadata_to_statement cat tags s).account_id ≡ s.account_id
unfolding apply_metadata_to_statement
apply_metadata-account none [] s = refl
apply_metadata-account none (t ∷ ts) s = refl
apply_metadata-account (some cat) [] s = refl
apply_metadata-account (some cat) (t ∷ ts) s = refl

post_at-account : (t : Time) (s : Statement) → (post_at t s).account_id ≡ s.account_id
post_at-account t s = ground arith

module _ (lib : Libs) where
  -- The statement that Create persists is of the account of the request.
  pub build_statement-account :
      (f : Faults) (now : Time) (uuid : Text) (input : CreateInput) (replica : Db) (s : Statement)
      → build_statement lib f now uuid input replica ≡ ok s
      → s.account_id ≡ input.account_id
  unfolding new_statement
  build_statement-account f now uuid input replica s h =
      let c = build_statement-eq_ok lib f now uuid input replica s h in
      let made = new_statement uuid now input.account_id c.type c.amount input.description in
      ap (λ (t : Statement). t.account_id) c.made
      ∙ apply_metadata-account c.cat c.tags (post_at c.posted_at made)
      ∙ post_at-account c.posted_at made

  -- CreateUseCase keeps the ledger.
  pub create_statement-IsWallet :
      (f : Faults) (now : Time) (uuid : Text) (input : CreateInput) (replica primary : Db)
      → IsWallet primary
      → IsWallet (create_statement lib f now uuid input replica primary).1
  unfolding create_statement
  create_statement-IsWallet f now uuid input replica primary h =
      elim (Result-cases (build_statement lib f now uuid input replica)) [
        | inl (e, refused) ↦ rw refused h
        | inr (s, built) ↦
            rw (built, persisted-db)
              (create-IsWallet lib f now s input.account_id primary
                (ap lib.uuid_text (build_statement-account f now uuid input replica s built)) h)
      ]

  build_reversal-account :
      (f : Faults) (now : Time) (uuid : Text) (input : ReverseInput) (replica primary : Db)
      (s : Statement)
      → build_reversal lib f now uuid input replica primary ≡ ok s
      → (s.account_id ≡ input.account_id)
  unfolding new_reversal
  build_reversal-account f now uuid input replica primary s h =
      ap (λ (t : Statement). t.account_id)
        (build_reversal-eq_ok lib f now uuid input replica primary s h).made

  -- ReverseUseCase keeps the ledger.
  pub reverse_statement-IsWallet :
      (f : Faults) (now : Time) (uuid : Text) (input : ReverseInput) (replica primary : Db)
      → IsWallet primary
      → IsWallet (reverse_statement lib f now uuid input replica primary).1
  unfolding reverse_statement
  reverse_statement-IsWallet f now uuid input replica primary h =
      elim (Result-cases (build_reversal lib f now uuid input replica primary)) [
        | inl (e, refused) ↦ rw refused h
        | inr (s, built) ↦
            rw (built, persisted-db)
              (create-IsWallet lib f now s input.account_id primary
                (ap lib.uuid_text (build_reversal-account f now uuid input replica primary s built))
                h)
      ]

  map_ofx_transaction-account :
      (now : Time) (uuid account_id : Text) (txn : Transaction) (s : Statement)
      → map_ofx_transaction now uuid account_id txn ≡ ok s
      → s.account_id ≡ account_id
  unfolding map_ofx_transaction
  map_ofx_transaction-account now uuid account_id txn s h = ground arith

  -- The filter loop makes statements of the account.
  pub Filtered-AreOf :
      (now : Time) (fresh : ℕ → Text) (account_id : Text) (existing : List Text)
      {txns : List Transaction} {stmts : List Statement} {skipped : ℕ}
      → Filtered now fresh account_id existing txns stmts skipped
      → AreOf lib (lib.uuid_text account_id) stmts
  Filtered-AreOf now fresh account_id existing done = tt
  Filtered-AreOf now fresh account_id existing (skip known rest) =
      Filtered-AreOf now fresh account_id existing rest
  Filtered-AreOf now fresh account_id existing (keep {txn} {rest = rest} {s} unknown made others) =
      (
        ap lib.uuid_text
            (map_ofx_transaction-account now (fresh (length rest)) account_id txn s made),
        Filtered-AreOf now fresh account_id existing others,
      )

  -- ImportUseCase keeps the ledger.
  pub import_statements-IsWallet :
      (f : Faults) (now : Time) (fresh : ℕ → Text) (input : ImportInput)
      (parsed : Result (List Transaction)) (replica primary : Db)
      → IsWallet primary
      → IsWallet (import_statements lib f now fresh input parsed replica primary).1
  unfolding import_statements
  import_statements-IsWallet f now fresh input parsed replica primary h =
      elim (Result-cases (build_import lib f now fresh input parsed replica primary)) [
        | inl (e, refused) ↦ rw refused h
        | inr ((txns, stmts, skipped), built) ↦
            let i =
              build_import-eq_ok lib f now fresh input parsed replica primary txns stmts skipped
                built in
            rw (built, imported-db)
              (create_batch-IsWallet lib f now stmts input.account_id primary
                (Filtered-AreOf now fresh input.account_id i.existing (
                  filter_transactions-Filtered now fresh input.account_id i.existing txns stmts
                    skipped i.filtered))
                h)
      ]
