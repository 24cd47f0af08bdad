-- ===== src/Wallet/Reversal.antt =====
-- reverse.go: a run of ReverseUseCase that succeeds, and the requests after it.
use mathlib.Core.Path.{subst}
use financial_wallet.Prelude.{◌≡◌, ◌∙◌, refl, sym, ap, inl, inr, true, some, List, ◌∷◌, arith}
use financial_wallet.Prelude.Int.{ℤ, pos, ◌+ℤ◌, ◌-ℤ◌}
use financial_wallet.Int64.{sub-eq-add_neg}
use financial_wallet.Text.{Text, text_eq_refl}
use financial_wallet.Result.{Error, ok, err, ok-injective, Result-cases}
use financial_wallet.Domain.Statement.{Time, Statement, set_balance_after}
use financial_wallet.Libs.{Libs}
use financial_wallet.Schema.{StatementRow, Db, Faults, place_statement, has_reference, column_eq}
use financial_wallet.StatementRepo.{create, from_domain_statement, has_reversal}
use financial_wallet.StatementRepo.Rows.{create_tx-eq_ok}
use financial_wallet.Schema.Inserts.{place_statement-eq_ok}
use financial_wallet.StatementRepo.Ledger.{signed, ledger_total, ledger_total-own}
use financial_wallet.StatementRepo.Unique.{has_reference-set_category}
use financial_wallet.StatementRepo.Reads.{find_by_id}
use financial_wallet.Usecases.Output.{StatementOutput, to_output, persisted}
use financial_wallet.Usecases.Persisted.{signed-opposite, persisted-eq_ok}
use financial_wallet.Usecases.Reverse.{
  ReverseInput, new_reversal, build_reversal, reverse_statement,
}
use financial_wallet.Usecases.Steps.{Reversed, build_reversal-eq_ok, fail_if-bind}
use financial_wallet.Wallet.{Reach}
use financial_wallet.Wallet.Keeps.{Reach-Holds}

module _ (lib : Libs) (now : Time) (uuid : Text) (input : ReverseInput) where
  -- The row of a reversal refers to the statement and has the opposite amount.
  new_reversal-signed :
      (original : Statement)
      → signed
          (new_reversal now uuid input original).type
          (new_reversal now uuid input original).amount
        ≡ pos 0 -ℤ signed original.type original.amount
  unfolding new_reversal
  new_reversal-signed original = signed-opposite original.type original.amount

  new_reversal-row :
      (original : Statement) (balance : ℤ)
      → column_eq
          (from_domain_statement lib balance (new_reversal now uuid input original)).reference_id
          (lib.uuid_text input.statement_id)
        ≡ true
  unfolding new_reversal from_domain_statement
  new_reversal-row original balance = text_eq_refl (lib.uuid_text input.statement_id)

  new_reversal-account :
      (original : Statement) → (new_reversal now uuid input original).account_id ≡ input.account_id
  unfolding new_reversal
  new_reversal-account original = refl

  new_reversal-reference :
      (original : Statement)
      → (new_reversal now uuid input original).reference_id ≡ some input.statement_id
  unfolding new_reversal
  new_reversal-reference original = refl

row-total :
    (lib : Libs) (s : Statement) (balance : ℤ) (rows : List StatementRow)
    → ledger_total (lib.uuid_text s.account_id) (from_domain_statement lib balance s ∷ rows)
      ≡ ledger_total (lib.uuid_text s.account_id) rows +ℤ signed s.type s.amount
unfolding from_domain_statement
row-total lib s balance rows = ledger_total-own (from_domain_statement lib balance s) rows

-- What a reversal that succeeded has done.
pub record Undone (lib : Libs) (f : Faults) (input : ReverseInput) (replica primary after : Db)
    (out : StatementOutput) : Type 0 where
  pub original : Statement
  pub found : find_by_id lib f input.statement_id replica ≡ ok original
  pub own : original.account_id ≡ input.account_id
  pub reference : out.reference_id ≡ some input.statement_id
  pub amount : signed out.type out.amount ≡ pos 0 -ℤ signed original.type original.amount
  pub total :
      ledger_total (lib.uuid_text input.account_id) after.statements
      ≡ ledger_total (lib.uuid_text input.account_id) primary.statements
        -ℤ signed original.type original.amount
  pub marked : has_reference (lib.uuid_text input.statement_id) after.statements ≡ true

module _ (lib : Libs) (f : Faults) (now : Time) (uuid : Text) (input : ReverseInput)
    (replica primary : Db) where
  posted-Undone :
      (s : Statement) (after : Db) (out : StatementOutput)
      → Reversed lib f now uuid input replica primary s
      → persisted s (create lib f now s input.account_id primary) ≡ (ok out, after)
      → Undone lib f input replica primary after out
  unfolding to_output set_balance_after has_reference
  posted-Undone s after out r h =
      let (balance, done, output) =
        persisted-eq_ok lib f now s input.account_id primary after out h in
      let (row, _, b, rows, _) =
        create_tx-eq_ok lib f now s input.account_id primary after balance done in
      let own : s.account_id ≡ input.account_id =
        ap (λ (t : Statement). t.account_id) r.made
        ∙ new_reversal-account lib now uuid input r.original in
      let amount : signed s.type s.amount ≡ pos 0 -ℤ signed r.original.type r.original.amount =
        ap (λ (t : Statement). signed t.type t.amount) r.made
        ∙ new_reversal-signed lib now uuid input r.original in
      record {
        original = r.original;
        found = r.found;
        own = r.own;
        reference =
            ap (λ (o : StatementOutput). o.reference_id) output
            ∙ ap (λ (t : Statement). t.reference_id) r.made
            ∙ new_reversal-reference lib now uuid input r.original;
        amount = ap (λ (o : StatementOutput). signed o.type o.amount) output ∙ amount;
        total =
            ap (ledger_total (lib.uuid_text input.account_id)) rows
            ∙ subst
                (λ k.
                  ledger_total (lib.uuid_text k)
                    (from_domain_statement lib balance s ∷ primary.statements)
                  ≡ ledger_total (lib.uuid_text k) primary.statements +ℤ signed s.type s.amount)
                own (row-total lib s balance primary.statements)
            ∙ ap (λ k. ledger_total (lib.uuid_text input.account_id) primary.statements +ℤ k) amount
            ∙ sym (
                sub-eq-add_neg (ledger_total (lib.uuid_text input.account_id) primary.statements)
                  (signed r.original.type r.original.amount));
        marked = rw rows (
            rw
              (ap
                  (λ (t : Statement).
                    column_eq (from_domain_statement lib balance t).reference_id
                      (lib.uuid_text input.statement_id))
                  r.made
                ∙ new_reversal-row lib now uuid input r.original balance)
              refl);
      }

  -- A reversal that succeeds found its statement, which is of the account of the request, refers to
  -- it, has its amount with the opposite sign, and takes exactly that amount back from the account's
  -- sum; from then on the statement counts as reversed.
  pub reverse_statement-Undone :
      (after : Db) (out : StatementOutput)
      → reverse_statement lib f now uuid input replica primary ≡ (ok out, after)
      → Undone lib f input replica primary after out
  unfolding reverse_statement
  reverse_statement-Undone after out h =
      elim (Result-cases (build_reversal lib f now uuid input replica primary)) [
        | inl (e, refused) ↦ cc (rw refused at h)
        | inr (s, built) ↦
            posted-Undone s after out
              (build_reversal-eq_ok lib f now uuid input replica primary s built) (rw built at h)
      ]

  -- A statement that counts as reversed is not reversed.
  reverse_statement-refused :
      has_reference (lib.uuid_text input.statement_id) primary.statements ≡ true
      → (e : Error) × (reverse_statement lib f now uuid input replica primary ≡ (err e, primary))
  unfolding reverse_statement has_reversal
  reverse_statement-refused marked =
      elim (Result-cases (build_reversal lib f now uuid input replica primary)) [
        | inl (e, refused) ↦ (e, rw refused refl)
        | inr (s, built) ↦
            let r = build_reversal-eq_ok lib f now uuid input replica primary s built in
            let (_, unmarked) = fail_if-bind f.select_reversal _ _ r.unreversed in
            cc (ok-injective unmarked, marked)
      ]

-- No request takes a reversal back.
place_statement-marked :
    (id : Text) (row : StatementRow) (db db' : Db)
    → place_statement row db ≡ ok db'
    → has_reference id db.statements ≡ true
    → has_reference id db'.statements ≡ true
unfolding has_reference
place_statement-marked id row db db' e h =
    subst (λ (d : Db). has_reference id d.statements ≡ true)
      (sym (place_statement-eq_ok row db db' e)) (ground arith)

Reach-marked :
    (lib : Libs) (id : Text) {db db' : Db}
    → Reach lib db db'
    → has_reference id db.statements ≡ true
    → has_reference id db'.statements ≡ true
Reach-marked lib id =
    Reach-Holds (λ rows. has_reference id rows ≡ true) (place_statement-marked id)
      (λ k category rows h. has_reference-set_category k category id rows ∙ h) lib

-- Once a statement was reversed, no later request to reverse it succeeds, whatever requests of the
-- account and statement use cases came between, whoever asks and however stale the replica is: it
-- gives an error back and writes nothing.
pub reverse_statement-once :
    (lib : Libs) (f f' : Faults) (now now' : Time) (uuid uuid' : Text) (input input' : ReverseInput)
    (replica primary after replica' later : Db) (out : StatementOutput)
    → reverse_statement lib f now uuid input replica primary ≡ (ok out, after)
    → Reach lib after later
    → input'.statement_id ≡ input.statement_id
    → (e : Error) × (reverse_statement lib f' now' uuid' input' replica' later ≡ (err e, later))
reverse_statement-once lib f f' now now' uuid uuid' input input' replica primary after replica'
      later out h path same =
    let first = reverse_statement-Undone lib f now uuid input replica primary after out h in
    reverse_statement-refused lib f' now' uuid' input' replica' later (
      subst (λ id. has_reference (lib.uuid_text id) later.statements ≡ true) (sym same)
        (Reach-marked lib (lib.uuid_text input.statement_id) path first.marked))
