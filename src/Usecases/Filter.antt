-- ===== src/Usecases/Filter.antt =====
-- The filter loop of import.go as a relation between the transactions of a file, the statements made
-- of them and the number skipped.
use mathlib.Core.Path.{subst}
use financial_wallet.Prelude.{
  ℕ, zero, suc, ◌+◌, ◌≡◌, inl, inr, Bool-cases, true, false, List, [], ◌∷◌, length, arith,
}
use financial_wallet.Text.{Text}
use financial_wallet.Result.{ok, >>=-eq-ok, ok-injective}
use financial_wallet.Domain.Statement.{Time, Statement}
use financial_wallet.Usecases.Import.{
  Transaction, map_ofx_transaction, is_skipped, filter_transactions,
}

module _ (now : Time) (fresh : ℕ → Text) (account : Text) (existing : List Text) where
  pub data Filtered : List Transaction → List Statement → ℕ → Type 0 where
    done : Filtered [] [] zero
    skip :
        {txn : Transaction} {rest : List Transaction} {stmts : List Statement} {n : ℕ}
        → is_skipped existing txn ≡ true
        → Filtered rest stmts n
        → Filtered (txn ∷ rest) stmts (suc n)
    keep :
        {txn : Transaction} {rest : List Transaction} {s : Statement} {stmts : List Statement}
        {n : ℕ}
        → is_skipped existing txn ≡ false
        → map_ofx_transaction now (fresh (length rest)) account txn ≡ ok s
        → Filtered rest stmts n
        → Filtered (txn ∷ rest) (s ∷ stmts) n

  pub filter_transactions-Filtered :
      (txns : List Transaction) (stmts : List Statement) (skipped : ℕ)
      → filter_transactions now fresh account existing txns ≡ ok (stmts, skipped)
      → Filtered txns stmts skipped
  unfolding filter_transactions
  filter_transactions-Filtered [] stmts skipped h =
      subst (λ (r : List Statement × ℕ). Filtered [] r.0 r.1) (ok-injective h) done
  filter_transactions-Filtered (txn ∷ rest) stmts skipped h =
      elim (Bool-cases (is_skipped existing txn)) [
        | inl known ↦
            let (r, e, k) =
              >>=-eq-ok (filter_transactions now fresh account existing rest) _ (rw known at h) in
            subst (λ (q : List Statement × ℕ). Filtered (txn ∷ rest) q.0 q.1) (ok-injective k)
              (skip known (filter_transactions-Filtered rest r.0 r.1 e))
        | inr unknown ↦
            let (s, made, k) =
              >>=-eq-ok (map_ofx_transaction now (fresh (length rest)) account txn) _
                (rw unknown at h) in
            let (r, e, l) = >>=-eq-ok (filter_transactions now fresh account existing rest) _ k in
            subst (λ (q : List Statement × ℕ). Filtered (txn ∷ rest) q.0 q.1) (ok-injective l)
              (keep unknown made (filter_transactions-Filtered rest r.0 r.1 e))
      ]

  -- Every transaction is created or skipped.
  pub Filtered-count :
      {txns : List Transaction} {stmts : List Statement} {n : ℕ}
      → Filtered txns stmts n
      → length stmts + n ≡ length txns
  Filtered-count done = omega arith
  Filtered-count (skip known rest) = omega (arith, Filtered-count rest)
  Filtered-count (keep unknown made rest) = omega (arith, Filtered-count rest)
