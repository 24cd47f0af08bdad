-- ===== src/Usecases/Denial.antt =====
-- What a requester learns of an account that is not theirs.
use financial_wallet.Prelude.{ℕ, ◌≡◌, refl, true, false, none, List}
use financial_wallet.Text.{Text}
use financial_wallet.Result.{Error, Result, ok, err, statement_not_found, account_not_found}
use financial_wallet.Domain.Statement.{Time}
use financial_wallet.Domain.Account.{Account}
use financial_wallet.Libs.{Libs}
use financial_wallet.Ids.{parse_id}
use financial_wallet.Schema.{Db, Faults, find_account}
use financial_wallet.Readers.{find_account_by_id}
use financial_wallet.Usecases.Metadata.{is_foreign, find_owned_account}
use financial_wallet.Usecases.Create.{CreateInput, build_statement, create_statement}
use financial_wallet.Usecases.Reverse.{ReverseInput, build_reversal, reverse_statement}
use financial_wallet.Usecases.Import.{Transaction, ImportInput, build_import, import_statements}
use financial_wallet.Usecases.Update.{GetInput, get_statement}

-- What the four use cases that start from an account answer: the error, and the database unchanged.
pub record AllFail (lib : Libs) (f : Faults) (now : Time) (uuid : Text) (fresh : ℕ → Text)
    (posting : CreateInput) (reversing : ReverseInput) (importing : ImportInput)
    (file : Result (List Transaction)) (reading : GetInput) (replica primary : Db) (e : Error)
    : Type 0 where
  pub create : create_statement lib f now uuid posting replica primary ≡ (err e, primary)
  pub reverse : reverse_statement lib f now uuid reversing replica primary ≡ (err e, primary)
  pub import : import_statements lib f now fresh importing file replica primary ≡ (err e, primary)
  pub get : get_statement lib f reading replica ≡ err e

-- Requests that name the same account on behalf of the same requester, by identifiers that parse.
pub record AreAsking (lib : Libs) (account requesting : Text) (posting : CreateInput)
    (reversing : ReverseInput) (importing : ImportInput) (reading : GetInput) : Type 0 where
  pub account_parses : lib.uuid_parses account ≡ true
  pub reversing_parses : lib.uuid_parses reversing.statement_id ≡ true
  pub reading_parses : lib.uuid_parses reading.id ≡ true
  pub posting_account : posting.account_id ≡ account
  pub posting_requester : posting.requesting_user_id ≡ requesting
  pub reversing_account : reversing.account_id ≡ account
  pub reversing_requester : reversing.requesting_user_id ≡ requesting
  pub importing_account : importing.account_id ≡ account
  pub importing_requester : importing.requesting_user_id ≡ requesting
  pub reading_account : reading.account_id ≡ account
  pub reading_requester : reading.requesting_user_id ≡ requesting

module _ (lib : Libs) (f : Faults) (now : Time) (uuid : Text) (fresh : ℕ → Text)
    (account requesting : Text) (posting : CreateInput) (reversing : ReverseInput)
    (importing : ImportInput) (file : Result (List Transaction)) (reading : GetInput)
    (replica primary : Db) where
  refused-AllFail :
      (e : Error)
      → AreAsking lib account requesting posting reversing importing reading
      → find_owned_account lib f account requesting replica ≡ err e
      → AllFail lib f now uuid fresh posting reversing importing file reading replica primary e
  unfolding create_statement reverse_statement import_statements get_statement build_statement
      build_reversal build_import parse_id
  refused-AllFail e h refused = record {
    create = rw (h.posting_account, h.posting_requester, h.account_parses, refused) refl;
    reverse =
        rw
          (
            h.reversing_account, h.reversing_requester, h.reversing_parses, h.account_parses,
            refused,
          )
          refl;
    import = rw (h.importing_account, h.importing_requester, h.account_parses, refused) refl;
    get =
        rw (h.reading_account, h.reading_requester, h.reading_parses, h.account_parses, refused)
          refl;
  }

  -- Posting to, reversing in, importing into or reading from an account that the replica shows as an
  -- active one of somebody else is answered with "statement not found" by all four use cases, and
  -- nothing is written, provided that the identifiers in the request parse.
  pub foreign-AllFail :
      (owned : Account)
      → AreAsking lib account requesting posting reversing importing reading
      → find_account_by_id lib f account replica ≡ ok owned
      → is_foreign requesting owned.user_id ≡ true
      → AllFail lib f now uuid fresh posting reversing importing file reading replica primary
          statement_not_found
  unfolding find_owned_account
  foreign-AllFail owned h found foreign =
      refused-AllFail statement_not_found h (rw (found, foreign) refl)

  -- Requests for an account that is not among the replica's accounts are answered by the same four use
  -- cases with "account not found", and nothing is written, provided that the identifiers parse and
  -- the replica answers.
  pub absent-AllFail :
      AreAsking lib account requesting posting reversing importing reading
      → f.select_account ≡ false
      → find_account (lib.uuid_text account) replica.accounts ≡ none
      → AllFail lib f now uuid fresh posting reversing importing file reading replica primary
          account_not_found
  unfolding find_owned_account find_account_by_id
  absent-AllFail h answers missing =
      refused-AllFail account_not_found h (rw (answers, missing) refl)
