-- ===== src/StatementRepo/Batch.antt =====
-- CreateBatch of statement.go, and Create called for one statement after the other.
use financial_wallet.Prelude.{
  ◌≡◌, ◌∙◌, refl, sym, ap, inl, inr, some, none, Option, List, [], ◌∷◌, All,
}
use financial_wallet.Prelude.Int.{ℤ}
use financial_wallet.Text.{Text}
use financial_wallet.Result.{Result, ok, err, ◌>>=◌, Result-cases}
use financial_wallet.Domain.Statement.{Time, Statement}
use financial_wallet.Libs.{Libs}
use financial_wallet.Schema.{
  AccountRow, Db, no_faults, find_account, place_statement, place_statements,
}
use financial_wallet.Schema.Inserts.{place_statement-eq_ok}
use financial_wallet.StatementRepo.{
  new_balance, from_domain_statement, create_tx, create_batch_tx, batch_rows, batch_balance,
  insert_statement_tags, insert_batch_tags,
}
use financial_wallet.StatementRepo.Plain.{
  IsPlain, insert_statements-IsFree, insert_statement-IsFree, from_domain_statement-IsFree,
  batch_rows-IsFree,
}
use financial_wallet.StatementRepo.Setting.{
  rebalance, find_account-set_balance, set_balance-set_balance, with_balance,
  place_statement-with_balance,
}

-- Create for one statement after the other, each on what the one before it left: the balance after
-- the last one, or the first error.
unfoldable pub create_each : Libs → Time → Text → ℤ → List Statement → Db → Result (ℤ × Db)
create_each lib now account balance [] db = ok (balance, db)
create_each lib now account balance (s ∷ rest) db = do
  (balance', db') ← create_tx lib no_faults now s account db
  create_each lib now account balance' rest db'

module _ (lib : Libs) (now : Time) (account : Text) where
  create_tx-IsPlain :
      (s : Statement) (db : Db) (row : AccountRow)
      → find_account (lib.uuid_text account) db.accounts ≡ some row
      → IsPlain lib account s
      → create_tx lib no_faults now s account db ≡ (
          place_statement (from_domain_statement lib (new_balance s.type row.balance s.amount) s) db
          >>= λ d. ok (
            new_balance s.type row.balance s.amount,
            with_balance (lib.uuid_text account) now (new_balance s.type row.balance s.amount) d,
          ))
  unfolding create_tx insert_statement_tags
  create_tx-IsPlain s db row found plain =
      let new = from_domain_statement lib (new_balance s.type row.balance s.amount) s in
      let stored = insert_statement-IsFree new db (
        from_domain_statement-IsFree lib account (new_balance s.type row.balance s.amount) s
          db.accounts row found plain) in
      elim (Result-cases (
        place_statement (from_domain_statement lib (new_balance s.type row.balance s.amount) s)
          db)) [
            | inl (e, failed) ↦ rw (found, stored, failed) refl
            | inr (d, inserted) ↦ rw (found, stored, inserted, plain.untagged) refl
          ]

  abbrev with_account_balance : ℤ → Db → Db
  with_account_balance = with_balance (lib.uuid_text account) now

  abbrev rebalanced : ℤ → Db → Result Db
  rebalanced balance d = ok (with_account_balance balance d)

  abbrev settled : ℤ → Db → Result (ℤ × Db)
  settled balance d = ok (balance, with_account_balance balance d)

  -- The second balance replaces the first.
  merged :
      (balance next : ℤ) (r : Result Db)
      → (r >>= rebalanced balance >>= settled next) ≡ (r >>= settled next)
  merged balance next (err e) = refl
  merged balance next (ok d) =
      ap (λ rows. ok (next, record d { accounts = rows }))
        (set_balance-set_balance (lib.uuid_text account) now balance next d.accounts)

  -- A statement after another: the insert of its row, and the new balance in place of the old one.
  create_tx-next :
      (balance : ℤ) (s : Statement) (db : Db) (row : AccountRow)
      → find_account (lib.uuid_text account) db.accounts ≡ some row
      → IsPlain lib account s
      → create_tx lib no_faults now s account (with_account_balance balance db) ≡ (
          place_statement (from_domain_statement lib (new_balance s.type balance s.amount) s) db
          >>= settled (new_balance s.type balance s.amount))
  create_tx-next balance s db row found plain =
      let next = new_balance s.type balance s.amount in
      let new = from_domain_statement lib next s in
      let there =
        find_account-set_balance (lib.uuid_text account) now balance db.accounts
        ∙ ap (rebalance balance now) found in
      create_tx-IsPlain s (with_account_balance balance db)
        (record row { balance = balance; updated_at = now }) there plain
      ∙ ap (λ (r : Result Db). r >>= settled next)
          (place_statement-with_balance (lib.uuid_text account) now balance new db)
      ∙ merged balance next (place_statement new db)

  create_each-batch :
      (balance : ℤ) (stmts : List Statement) (db : Db) (row : AccountRow)
      → find_account (lib.uuid_text account) db.accounts ≡ some row
      → All (IsPlain lib account) stmts
      → create_each lib now account balance stmts (with_account_balance balance db) ≡ (
          place_statements (batch_rows lib balance stmts) db
          >>= settled (batch_balance lib balance stmts))
  unfolding create_each place_statements batch_rows batch_balance
  create_each-batch balance [] db row found plain = refl
  create_each-batch balance (s ∷ rest) db row found plain =
      let next = new_balance s.type balance s.amount in
      let new = from_domain_statement lib next s in
      let first = create_tx-next balance s db row found plain.0 in
      elim (Result-cases (place_statement new db)) [
        | inl (e, failed) ↦ rw (first, failed) refl
        | inr (d, inserted) ↦
            rw (first, inserted)
              (create_each-batch next rest d row
                (ap (λ (x : Db). find_account (lib.uuid_text account) x.accounts)
                    (place_statement-eq_ok new db d inserted)
                  ∙ found)
                plain.1)
      ]

  insert_batch_tags-IsPlain :
      (stmts : List Statement) (db : Db)
      → All (IsPlain lib account) stmts
      → insert_batch_tags lib no_faults stmts db ≡ ok db
  unfolding insert_batch_tags insert_statement_tags
  insert_batch_tags-IsPlain [] db plain = refl
  insert_batch_tags-IsPlain (s ∷ rest) db plain =
      rw plain.0.untagged (insert_batch_tags-IsPlain rest db plain.1)

  create_batch_tx-IsPlain :
      (stmts : List Statement) (db : Db) (row : AccountRow)
      → find_account (lib.uuid_text account) db.accounts ≡ some row
      → All (IsPlain lib account) stmts
      → create_batch_tx lib no_faults now stmts account db ≡ (
          place_statements (batch_rows lib row.balance stmts) db
          >>= settled (batch_balance lib row.balance stmts))
  unfolding create_batch_tx
  create_batch_tx-IsPlain stmts db row found plain =
      let stored =
        insert_statements-IsFree (batch_rows lib row.balance stmts) db
          (batch_rows-IsFree lib account row.balance stmts db.accounts row found plain) in
      elim (Result-cases (place_statements (batch_rows lib row.balance stmts) db)) [
        | inl (e, failed) ↦ rw (found, stored, failed) refl
        | inr (d, inserted) ↦
            rw (found, stored, inserted, insert_batch_tags-IsPlain stmts d plain) refl
      ]

  first_inserted :
      (s : Statement) (rest : List Statement) (db : Db) (row : AccountRow) (balance : ℤ)
      → find_account (lib.uuid_text account) db.accounts ≡ some row
      → All (IsPlain lib account) (s ∷ rest)
      → (place_statements (batch_rows lib row.balance (s ∷ rest)) db
          >>= settled (batch_balance lib row.balance (s ∷ rest)))
        ≡ create_each lib now account balance (s ∷ rest) db
  unfolding create_each place_statements batch_rows batch_balance
  first_inserted s rest db row balance found plain =
      let next = new_balance s.type row.balance s.amount in
      let new = from_domain_statement lib next s in
      let first = create_tx-IsPlain s db row found plain.0 in
      elim (Result-cases (place_statement new db)) [
        | inl (e, failed) ↦ rw (first, failed) refl
        | inr (d, inserted) ↦
            rw (first, inserted)
              (sym (
                create_each-batch next rest d row
                  (ap (λ (x : Db). find_account (lib.uuid_text account) x.accounts)
                      (place_statement-eq_ok new db d inserted)
                    ∙ found)
                  plain.1))
      ]

  batch_on :
      (found : Option AccountRow) (s : Statement) (rest : List Statement) (db : Db) (balance : ℤ)
      → find_account (lib.uuid_text account) db.accounts ≡ found
      → All (IsPlain lib account) (s ∷ rest)
      → create_batch_tx lib no_faults now (s ∷ rest) account db
        ≡ create_each lib now account balance (s ∷ rest) db
  unfolding create_each create_tx create_batch_tx
  batch_on none s rest db balance absent plain = rw absent refl
  batch_on (some row) s rest db balance found plain =
      create_batch_tx-IsPlain (s ∷ rest) db row found plain
      ∙ first_inserted s rest db row balance found plain

  -- CreateBatch does in one transaction what Create does statement by statement, as long as no call of
  -- the database fails: for a batch of one or more statements of the account that have no tags, no
  -- category and no statement that they reverse, as those of an import, it ends with the same tables
  -- and the same balance, or with the same first error.
  pub create_batch_tx-create_each :
      (s : Statement) (rest : List Statement) (db : Db) (balance : ℤ)
      → All (IsPlain lib account) (s ∷ rest)
      → create_batch_tx lib no_faults now (s ∷ rest) account db
        ≡ create_each lib now account balance (s ∷ rest) db
  create_batch_tx-create_each s rest db balance plain =
      batch_on (find_account (lib.uuid_text account) db.accounts) s rest db balance refl plain
