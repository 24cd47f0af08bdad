-- ===== src/StatementRepo.antt =====
-- internal/infrastructure/db/postgres/repository/statement.go, method by method. A method that
-- writes takes the database and gives it back beside its result; `f` says which calls fail. Reads
-- go to the replica that the caller passes, HasReversal and FindExternalIDs to the primary.
pub mod Rows
pub mod Ledger
pub mod Posted
pub mod Balance
pub mod Reads
pub mod Labels
pub mod References
pub mod Relabel
pub mod Unique
pub mod External
pub mod Failing
pub mod Setting
pub mod Plain
pub mod Batch
use financial_wallet.Prelude.{
  Bool, true, false, not, Option, none, some, List, [], ◌∷◌, ◌++◌, map, if◌then◌else◌,
}
use financial_wallet.Prelude.Int.{ℤ, pos}
use financial_wallet.Int64.{add64, sub64}
use financial_wallet.Text.{Text, text_eq, contains}
use financial_wallet.Result.{
  Error, Result, ok, err, ◌>>=◌, ◌>>◌, fail_if, or_error, traverse, account_not_found,
  statement_not_found, violation, foreign_key,
}
use financial_wallet.Domain.Statement.{Time, TagRef, CategoryRef, Statement, is_credit}
use financial_wallet.Domain.Labels.{Category}
use financial_wallet.Libs.{Libs}
use financial_wallet.Ids.{parse_id, parse_optional_id}
use financial_wallet.Schema.{
  AccountRow, StatementRow, Db, Faults, call, transaction, find_account, find_statement,
  find_category, find_tag, is_some, column_eq, has_reference, insert_statement, insert_statements,
  insert_statement_tag, set_balance,
}

module _ (lib : Libs) where
  text_of_optional : Option Text → Option Text
  text_of_optional none = none
  text_of_optional (some id) = some (lib.uuid_text id)

  -- fromDomainStatement, as the row that PostgreSQL stores; `balance` is the BalanceAfter that Create
  -- and CreateBatch put in.
  unfoldable pub from_domain_statement : ℤ → Statement → StatementRow
  unfolding text_of_optional
  from_domain_statement balance s = record {
    id = lib.uuid_text s.id;
    account_id = lib.uuid_text s.account_id;
    type = s.type;
    amount = s.amount;
    description = s.description;
    reference_id = text_of_optional s.reference_id;
    external_id = s.external_id;
    balance_after = balance;
    posted_at = s.posted_at;
    created_at = s.created_at;
    category_id = text_of_optional s.category_id;
  }

-- The balance after a statement of this type and amount.
unfoldable pub new_balance : Text → ℤ → ℤ → ℤ
new_balance type balance amount =
    if is_credit type then add64 balance amount else sub64 balance amount

module _ (lib : Libs) where
  unfoldable pub insert_tags_loop : Text → List TagRef → Db → Result Db
  insert_tags_loop statement [] db = ok db
  insert_tags_loop statement (ref ∷ refs) db = do
    db' ← insert_statement_tag (lib.uuid_text statement) (lib.uuid_text ref.id) db
    insert_tags_loop statement refs db'

  -- insertStatementTagsTx
  unfoldable pub insert_statement_tags : Faults → Text → List TagRef → Db → Result Db
  unfolding insert_tags_loop
  insert_statement_tags f statement [] db = ok db
  insert_statement_tags f statement (ref ∷ refs) db = do
    call f.insert_tags
    insert_tags_loop statement (ref ∷ refs) db

  -- The body of the transaction of Create.
  unfoldable pub create_tx : Faults → Time → Statement → Text → Db → Result (ℤ × Db)
  create_tx f now s account db = do
    call f.begin
    call f.lock
    row ← or_error (find_account (lib.uuid_text account) db.accounts) account_not_found
    let balance = new_balance s.type row.balance s.amount
    call f.insert
    db1 ← insert_statement (from_domain_statement lib balance s) db
    db2 ← insert_statement_tags f s.id s.tags db1
    call f.update
    let db3 = record db2 { accounts = set_balance (lib.uuid_text account) balance now db2.accounts }
    call f.commit
    ok (balance, db3)

  unfoldable pub create : Faults → Time → Statement → Text → Db → Result ℤ × Db
  unfolding create_tx
  create f now s account db = transaction f.acknowledge (create_tx f now s account db) db

  -- The loop of CreateBatch that computes the balances, and the rows of its one INSERT.
  unfoldable pub batch_rows : ℤ → List Statement → List StatementRow
  batch_rows balance [] = []
  batch_rows balance (s ∷ rest) =
      let balance' = new_balance s.type balance s.amount in
      from_domain_statement lib balance' s ∷ batch_rows balance' rest

  unfoldable pub batch_balance : ℤ → List Statement → ℤ
  batch_balance balance [] = balance
  batch_balance balance (s ∷ rest) = batch_balance (new_balance s.type balance s.amount) rest

  unfoldable pub insert_batch_tags : Faults → List Statement → Db → Result Db
  insert_batch_tags f [] db = ok db
  insert_batch_tags f (s ∷ rest) db = do
    db' ← insert_statement_tags f s.id s.tags db
    insert_batch_tags f rest db'

  unfoldable pub create_batch_tx : Faults → Time → List Statement → Text → Db → Result (ℤ × Db)
  create_batch_tx f now stmts account db = do
    call f.begin
    call f.lock
    row ← or_error (find_account (lib.uuid_text account) db.accounts) account_not_found
    let balance = batch_balance row.balance stmts
    call f.insert
    db1 ← insert_statements (batch_rows row.balance stmts) db
    db2 ← insert_batch_tags f stmts db1
    call f.update
    let db3 = record db2 { accounts = set_balance (lib.uuid_text account) balance now db2.accounts }
    call f.commit
    ok (balance, db3)

  unfoldable pub create_batch : Faults → Time → List Statement → Text → Db → Result ℤ × Db
  unfolding create_batch_tx
  create_batch f now [] account db = (ok (pos 0), db)
  create_batch f now (s ∷ rest) account db =
      transaction f.acknowledge (create_batch_tx f now (s ∷ rest) account db) db

  -- HasReversal
  unfoldable pub has_reversal : Faults → Text → Db → Result Bool
  has_reversal f statement primary = do
    call f.select_reversal
    ok (has_reference (lib.uuid_text statement) primary.statements)

  -- One row of `WHERE account_id = $1 AND external_id = ANY($2)`.
  abbrev pub add_external : Bool → List Text → Option Text → List Text → List Text
  add_external own wanted none rest = rest
  add_external own wanted (some external) rest =
      if own then if contains external wanted then external ∷ rest else rest else rest

  unfoldable pub matching_external : Text → List Text → List StatementRow → List Text
  matching_external account wanted [] = []
  matching_external account wanted (row ∷ rows) =
      let rest = matching_external account wanted rows in
      add_external (text_eq row.account_id account) wanted row.external_id rest

  -- FindExternalIDs: the set of the map's keys.
  unfoldable pub find_external_ids : Faults → Text → List Text → Db → Result (List Text)
  unfolding matching_external
  find_external_ids f account [] primary = ok []
  find_external_ids f account (x ∷ xs) primary = do
    call f.select_external
    ok (matching_external (lib.uuid_text account) (x ∷ xs) primary.statements)
