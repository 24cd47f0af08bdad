-- ===== src/Usecases/Persisted.antt =====
-- The last step of create.go and reverse.go: the call of StatementRepository.Create.
use financial_wallet.Prelude.{◌≡◌, refl, sym, ap, ◌∙◌, inl, inr, Bool-cases}
use financial_wallet.Prelude.Int.{ℤ, pos, ◌-ℤ◌, int_laws}
use financial_wallet.Text.{Text}
use financial_wallet.Result.{ok, Result-cases, ok-injective}
use financial_wallet.Domain.Statement.{Time, Statement, is_credit, opposite, set_balance_after}
use financial_wallet.Libs.{Libs}
use financial_wallet.Schema.{Db, Faults}
use financial_wallet.StatementRepo.{create, create_tx}
use financial_wallet.StatementRepo.Ledger.{signed}
use financial_wallet.Usecases.Output.{StatementOutput, to_output, persisted}

-- A reversal has the opposite signed amount.
pub signed-opposite :
    (type : Text) (amount : ℤ) → signed (opposite type) amount ≡ pos 0 -ℤ signed type amount
unfolding opposite is_credit
signed-opposite type amount = elim (Bool-cases (is_credit type)) [
  | inl credit ↦ rw credit refl
  | inr debit ↦ rw debit (omega int_laws)
]

-- The transaction that a successful output comes from.
pub persisted-eq_ok :
    (lib : Libs) (f : Faults) (now : Time) (s : Statement) (account : Text) (db db' : Db)
    (out : StatementOutput)
    → persisted s (create lib f now s account db) ≡ (ok out, db')
    → (balance : ℤ) × (create_tx lib f now s account db ≡ ok (balance, db'))
      × (out ≡ to_output (set_balance_after balance s))
unfolding create
persisted-eq_ok lib f now s account db db' out h =
    elim (Result-cases (create_tx lib f now s account db)) [
      | inl (e, failed) ↦ cc (rw failed at h)
      | inr ((balance, db1), done) ↦ elim (Bool-cases f.acknowledge) [
        | inl lost ↦ cc (rw (done, lost) at h)
        | inr answered ↦
            let h' : (ok (to_output (set_balance_after balance s)), db1) ≡ (ok out, db') =
              rw (done, answered) at h in
            (
              balance,
              done ∙ ap (λ (d : Db). ok (balance, d)) (ap (λ p. p.1) h'),
              ok-injective (sym (ap (λ p. p.0) h')),
            )
      ]
    ]
