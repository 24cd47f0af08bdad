-- ===== src/Usecases/Reading.antt =====
-- get.go: a run of GetUseCase that succeeds.
use mathlib.Core.Path.{subst}
use financial_wallet.Prelude.{◌≡◌, ◌∙◌, sym, ap, not, Option, some, none}
use financial_wallet.Text.{Text, text_eq, text_eq_iff}
use financial_wallet.Result.{ok, ok-injective, >>=-eq-ok, or_error, statement_not_found}
use financial_wallet.Domain.Statement.{Statement}
use financial_wallet.Domain.Account.{Account}
use financial_wallet.Libs.{Libs}
use financial_wallet.Schema.{StatementRow, Db, Faults, find_statement}
use financial_wallet.StatementRepo.Reads.{to_statement, find_by_id, to_statement-eq_ok}
use financial_wallet.Usecases.Metadata.{find_owned_account}
use financial_wallet.Usecases.Output.{StatementOutput, to_output}
use financial_wallet.Usecases.Update.{GetInput, get_statement}
use financial_wallet.Usecases.Steps.{
  IsOwned, find_owned_account-eq_ok, parse_id-bind, fail_if-bind, not-eq_false,
}

-- The row that an output shows, and the account it was read for.
pub record Shown (lib : Libs) (f : Faults) (input : GetInput) (replica : Db) (out : StatementOutput)
    : Type 0 where
  pub account : Account
  pub owned : IsOwned lib f input.account_id input.requesting_user_id replica account
  pub row : StatementRow
  pub found : find_statement (lib.uuid_text input.id) replica.statements ≡ some row
  pub own : row.account_id ≡ input.account_id
  pub id : out.id ≡ row.id
  pub type : out.type ≡ row.type
  pub amount : out.amount ≡ row.amount
  pub balance : out.balance_after ≡ row.balance_after

or_error-eq_ok :
    {A : Type 0} (found : Option A) (a : A)
    → or_error found statement_not_found ≡ ok a
    → found ≡ some a
or_error-eq_ok (some b) a h = ap some (ok-injective h)
or_error-eq_ok none a h = cc

module _ (lib : Libs) (f : Faults) where
  find_by_id-row :
      (id : Text) (replica : Db) (s : Statement)
      → find_by_id lib f id replica ≡ ok s
      → (row : StatementRow) × (find_statement (lib.uuid_text id) replica.statements ≡ some row)
        × (to_statement lib replica row ≡ ok s)
  unfolding find_by_id
  find_by_id-row id replica s h =
      let (_, h1) = fail_if-bind f.select_statement _ _ h in
      let (row, e, h2) =
        >>=-eq-ok
          (or_error (find_statement (lib.uuid_text id) replica.statements) statement_not_found) _
          h1 in
      (row, or_error-eq_ok (find_statement (lib.uuid_text id) replica.statements) row e, h2)

  -- A read that succeeds is of an account that the requester may use and shows a statement of that
  -- account: the row with the identifier of the request, with its own type, amount and balance.
  pub get_statement-Shown :
      (input : GetInput) (replica : Db) (out : StatementOutput)
      → get_statement lib f input replica ≡ ok out
      → Shown lib f input replica out
  unfolding get_statement to_output
  get_statement-Shown input replica out h =
      let (_, h1) = parse_id-bind lib input.id _ h in
      let (_, h2) = parse_id-bind lib input.account_id _ h1 in
      let (account, e3, h3) =
        >>=-eq-ok (find_owned_account lib f input.account_id input.requesting_user_id replica) _
          h2 in
      let (s, e4, h4) = >>=-eq-ok (find_by_id lib f input.id replica) _ h3 in
      let (e5, h5) =
        fail_if-bind (not (text_eq s.account_id input.account_id)) statement_not_found _ h4 in
      let (row, found, made) = find_by_id-row input.id replica s e4 in
      let (id, account_id, type, amount, balance) = to_statement-eq_ok lib replica row s made in
      subst (Shown lib f input replica) (ok-injective h5) (record {
        account = account;
        owned =
            find_owned_account-eq_ok lib f input.account_id input.requesting_user_id replica account
              e3;
        row = row;
        found = found;
        own = sym account_id ∙ (text_eq_iff s.account_id input.account_id).0 (not-eq_false _ e5);
        id = id;
        type = type;
        amount = amount;
        balance = balance;
      })
