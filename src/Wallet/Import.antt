-- ===== src/Wallet/Import.antt =====
-- import.go: a run of ImportUseCase that succeeds.
use mathlib.Core.Path.{subst}
use financial_wallet.Prelude.{
  Bool-cases, ℕ, ◌+◌, ◌≡◌, ◌∙◌, sym, ap, inl, inr, List, [], ◌∷◌, All, length, arith,
}
use financial_wallet.Prelude.Int.{ℤ, pos}
use financial_wallet.Text.{Text}
use financial_wallet.Result.{ok, ok-injective, Result-cases}
use financial_wallet.Domain.Statement.{Time, Statement}
use financial_wallet.Libs.{Libs}
use financial_wallet.Schema.{StatementRow, Db, Faults}
use financial_wallet.StatementRepo.{
  new_balance, from_domain_statement, create_batch, create_batch_tx,
}
use financial_wallet.StatementRepo.Balance.{create_batch_tx-eq_ok}
use financial_wallet.StatementRepo.Posted.{posted}
use financial_wallet.StatementRepo.External.{
  find_external_ids_sound, posted-has_external, posted-HasRow,
}
use financial_wallet.Usecases.Steps.{build_import-eq_ok}
use financial_wallet.Usecases.Filter.{Filtered, filter_transactions-Filtered, Filtered-count}
use financial_wallet.Usecases.Ledger.{Filtered-AreOf}
use financial_wallet.Usecases.Import.{
  Transaction, ImportInput, ImportOutput, imported, collect_fitids, build_import, import_statements,
}
use financial_wallet.Wallet.Settled.{IsTracked, IsSettled, Filtered-IsSettled}

-- The output of an import that succeeded, and the statements after it.
pub imported-eq_ok :
    (lib : Libs) (f : Faults) (now : Time) (account : Text) (total : ℕ) (stmts : List Statement)
    (skipped : ℕ) (primary after : Db) (out : ImportOutput)
    → imported total stmts skipped (create_batch lib f now stmts account primary) ≡ (ok out, after)
    → (balance : ℤ) × (after.statements ≡ posted lib balance stmts primary.statements)
      × (out ≡ record { total_transactions = total; created = length stmts; skipped = skipped })
unfolding create_batch
imported-eq_ok lib f now account total [] skipped primary after out h = (
  pos 0,
  ap (λ (d : Db). d.statements) (sym (ap (λ p. p.1) h)),
  ok-injective (sym (ap (λ p. p.0) h)),
)
imported-eq_ok lib f now account total (s ∷ rest) skipped primary after out h =
    elim (Result-cases (create_batch_tx lib f now (s ∷ rest) account primary)) [
      | inl (e, failed) ↦ cc (rw failed at h)
      | inr ((balance, db), committed) ↦ elim (Bool-cases f.acknowledge) [
        | inl lost ↦ cc (rw (committed, lost) at h)
        | inr answered ↦
            let (row, _, _, rows, _) =
              create_batch_tx-eq_ok lib f now (s ∷ rest) account primary db balance committed in
            let out_of : ImportOutput = record {
              total_transactions = total;
              created = length (s ∷ rest);
              skipped = skipped;
            } in
            let h' : (ok out_of, db) ≡ (ok out, after) = rw (committed, answered) at h in
            (
              row.balance,
              ap (λ (d : Db). d.statements) (sym (ap (λ p. p.1) h')) ∙ rows,
              ok-injective (sym (ap (λ p. p.0) h')),
            )
      ]
    ]

posted-length :
    (lib : Libs) (balance : ℤ) (stmts : List Statement) (rows : List StatementRow)
    → length (posted lib balance stmts rows) ≡ length stmts + length rows
posted-length lib balance [] rows = omega arith
posted-length lib balance (s ∷ rest) rows =
    posted-length lib (new_balance s.type balance s.amount) rest
      (from_domain_statement lib (new_balance s.type balance s.amount) s ∷ rows)
    ∙ omega arith

-- What an import that succeeded has counted, and written.
pub record Counted (txns : List Transaction) (primary after : Db) (out : ImportOutput)
    : Type 0 where
  pub total : out.total_transactions ≡ length txns
  pub sum : out.created + out.skipped ≡ out.total_transactions
  pub rows : length after.statements ≡ out.created + length primary.statements

module _ (lib : Libs) (f : Faults) (now : Time) (fresh : ℕ → Text) (input : ImportInput)
    (txns : List Transaction) (replica primary : Db) where
  -- An import that succeeds has created or skipped each transaction of the file, and the table has
  -- as many more statements as it says it created.
  pub import_statements-Counted :
      (after : Db) (out : ImportOutput)
      → import_statements lib f now fresh input (ok txns) replica primary ≡ (ok out, after)
      → Counted txns primary after out
  unfolding import_statements
  import_statements-Counted after out h =
      elim (Result-cases (build_import lib f now fresh input (ok txns) replica primary)) [
        | inl (e, refused) ↦ cc (rw refused at h)
        | inr ((txns', stmts, skipped), built) ↦
            let i =
              build_import-eq_ok lib f now fresh input (ok txns) replica primary txns' stmts skipped
                built in
            let (balance, rows, output) =
              imported-eq_ok lib f now input.account_id (length txns') stmts skipped primary after
                out (rw built at h) in
            let count = Filtered-count now fresh input.account_id i.existing (
              filter_transactions-Filtered now fresh input.account_id i.existing txns' stmts skipped
                i.filtered) in
            let same : length txns' ≡ length txns = ap length (sym (ok-injective i.file)) in
            subst (Counted txns primary after) (sym output) (record {
              total = same;
              sum = count;
              rows = ap length rows ∙ posted-length lib balance stmts primary.statements;
            })
      ]

  -- After the import every transaction of the file is settled.
  pub import_statements-IsSettled :
      (after : Db) (out : ImportOutput)
      → All IsTracked txns
      → import_statements lib f now fresh input (ok txns) replica primary ≡ (ok out, after)
      → All (IsSettled (lib.uuid_text input.account_id) after.statements) txns
  unfolding import_statements
  import_statements-IsSettled after out tracked h =
      elim (Result-cases (build_import lib f now fresh input (ok txns) replica primary)) [
        | inl (e, refused) ↦ cc (rw refused at h)
        | inr ((txns', stmts, skipped), built) ↦
            let i =
              build_import-eq_ok lib f now fresh input (ok txns) replica primary txns' stmts skipped
                built in
            let (balance, rows, output) =
              imported-eq_ok lib f now input.account_id (length txns') stmts skipped primary after
                out (rw built at h) in
            let same : txns' ≡ txns = sym (ok-injective i.file) in
            let key : Text = lib.uuid_text input.account_id in
            let filtered : Filtered now fresh input.account_id i.existing txns stmts skipped =
              subst (λ ts. Filtered now fresh input.account_id i.existing ts stmts skipped) same
                (filter_transactions-Filtered now fresh input.account_id i.existing txns' stmts
                  skipped i.filtered) in
            subst (λ rs. All (IsSettled key rs) txns) (sym rows)
              (Filtered-IsSettled lib now fresh input.account_id key i.existing
                (posted lib balance stmts primary.statements)
                (λ x found. posted-has_external lib key x balance stmts primary.statements (
                  find_external_ids_sound lib f input.account_id primary i.existing
                    (collect_fitids txns') x i.known found))
                filtered tracked
                (posted-HasRow lib key balance stmts primary.statements
                  (Filtered-AreOf lib now fresh input.account_id i.existing filtered)))
      ]
