-- ===== src/Tests/Accounts.antt =====
-- Runs of the account use cases, and of requesters who do not own the account.
use financial_wallet.Prelude.{◌≡◌, refl, true, none, some, false, [], ◌∷◌}
use financial_wallet.Prelude.Int.{pos}
use financial_wallet.Text.{Text, codes}
use financial_wallet.Result.{ok, err, statement_not_found, account_not_found}
use financial_wallet.Domain.Account.{Account}
use financial_wallet.Schema.{AccountRow, Db, no_faults, find_account}
use financial_wallet.Readers.{find_account_by_id}
use financial_wallet.AccountRepo.{updated}
use financial_wallet.Usecases.Create.{CreateInput}
use financial_wallet.Usecases.Reverse.{ReverseInput}
use financial_wallet.Usecases.Import.{ImportInput}
use financial_wallet.Usecases.Update.{GetInput, update_statement_category, replace_statement_tags}
use financial_wallet.Usecases.Update.{get_statement}
use financial_wallet.Usecases.Reading.{Shown, get_statement-Shown}
use financial_wallet.Usecases.Denial.{AllFail, AreAsking, foreign-AllFail, absent-AllFail}
use financial_wallet.Accounts.{build_account, change_account, close_account}
use financial_wallet.Wallet.Lifecycle.{IsSound, build_account-IsSound, close_account-find}
use financial_wallet.Wallet.Reopening.{Reopened, change_account-reopens}
use financial_wallet.Wallet.Labelling.{SameAccounting, labels-SameAccounting}
use financial_wallet.Tests.{
  nonempty_ids, meal_out, alice, bob, checking, checking_with, opening, salary, refund, day0, day4,
  numbered, import_request, bank_file, rename_request, close_request, relabel_request,
  retag_request,
}

abbrev opened_account : Account
opened_account = record {
  id = checking;
  user_id = alice;
  name = codes "Checking";
  type = codes "bank_account";
  description = [];
  balance = pos 0;
  active = true;
  created_at = 10;
  updated_at = 10;
  credit_limit = none;
}

build-run : build_account nonempty_ids 10 checking opening ≡ ok opened_account
unfolding build_account financial_wallet.Ids.parse_id
    financial_wallet.Domain.Account.new_account_type financial_wallet.Domain.Account.new_account
build-run = refl

build_account-IsSound_example : IsSound opened_account × (opened_account.active ≡ true)
build_account-IsSound_example =
    build_account-IsSound nonempty_ids 10 checking opening opened_account build-run

abbrev closed : Db
closed = record day4 { accounts = record (checking_with (pos 1000) 60) { active = false } ∷ [] }

close-run : close_account nonempty_ids no_faults 60 close_request day4 day4 ≡ (ok tt, closed)
unfolding close_account financial_wallet.Ids.parse_id find_account_by_id find_account
    financial_wallet.Text.text_eq financial_wallet.Usecases.Metadata.is_foreign
    financial_wallet.AccountRepo.delete_account financial_wallet.AccountRepo.modify_account
close-run = refl

close_account-find_example :
    find_account_by_id nonempty_ids no_faults checking closed ≡ err account_not_found
close_account-find_example =
    close_account-find nonempty_ids no_faults 60 no_faults close_request day4 day4 closed refl
      close-run

abbrev renamed : Account
renamed = record opened_account { name = codes "Everyday"; balance = pos 1000; updated_at = 70 }

abbrev reopened : Db
reopened = record day4 {
  accounts = record (checking_with (pos 1000) 70) { name = codes "Everyday" } ∷ [];
}

-- The replica still shows the fourth day, the primary has closed the account.
rename-run :
    change_account nonempty_ids no_faults 70 rename_request day4 closed ≡ (ok renamed, reopened)
unfolding change_account financial_wallet.Ids.parse_id find_account_by_id find_account
    financial_wallet.Text.text_eq financial_wallet.Usecases.Metadata.is_foreign
    financial_wallet.AccountRepo.update_account financial_wallet.AccountRepo.limit_check
    financial_wallet.Domain.Account.accepts_credit_limit financial_wallet.AccountRepo.modify_account
rename-run = refl

change_account-reopens_example :
    (before now_open : AccountRow) × (find_account checking closed.accounts ≡ some before)
    × (find_account checking reopened.accounts ≡ some now_open)
    × Reopened renamed before now_open
change_account-reopens_example =
    change_account-reopens nonempty_ids no_faults 70 rename_request day4 closed reopened renamed
      rename-run

labels-SameAccounting_example :
    SameAccounting checking day4
      (update_statement_category nonempty_ids no_faults relabel_request day4 day4).1
    × SameAccounting checking day4
        (replace_statement_tags nonempty_ids no_faults retag_request day4 day4).1
labels-SameAccounting_example =
    labels-SameAccounting nonempty_ids no_faults checking relabel_request retag_request day4 day4

-- The requests of somebody else.
abbrev bob_posts : CreateInput
bob_posts = record salary { requesting_user_id = bob }

abbrev bob_reverses : ReverseInput
bob_reverses = record refund { requesting_user_id = bob }

abbrev bob_imports : ImportInput
bob_imports = record import_request { requesting_user_id = bob }

abbrev bob_reads : GetInput
bob_reads = record { id = codes "s1"; account_id = checking; requesting_user_id = bob }

bob-AreAsking : AreAsking nonempty_ids checking bob bob_posts bob_reverses bob_imports bob_reads
bob-AreAsking = record {
  account_parses = refl;
  reversing_parses = refl;
  reading_parses = refl;
  posting_account = refl;
  posting_requester = refl;
  reversing_account = refl;
  reversing_requester = refl;
  importing_account = refl;
  importing_requester = refl;
  reading_account = refl;
  reading_requester = refl;
}

abbrev checking_account : Account
checking_account = record opened_account { balance = pos 1000; updated_at = 40 }

foreign-AllFail_example :
    AllFail nonempty_ids no_faults 60
      (codes "s9")
      numbered
      bob_posts
      bob_reverses
      bob_imports
      (ok bank_file)
      bob_reads
      day4
      day4
      statement_not_found
unfolding find_account_by_id find_account financial_wallet.Text.text_eq
    financial_wallet.Ids.parse_id financial_wallet.Usecases.Metadata.is_foreign
foreign-AllFail_example =
    foreign-AllFail nonempty_ids no_faults 60 (codes "s9") numbered checking bob bob_posts
      bob_reverses bob_imports (ok bank_file) bob_reads day4 day4 checking_account bob-AreAsking
      refl refl

absent-AllFail_example :
    AllFail nonempty_ids no_faults 60
      (codes "s9")
      numbered
      bob_posts
      bob_reverses
      bob_imports
      (ok bank_file)
      bob_reads
      day0
      day4
      account_not_found
unfolding find_account
absent-AllFail_example =
    absent-AllFail nonempty_ids no_faults 60 (codes "s9") numbered checking bob bob_posts
      bob_reverses bob_imports (ok bank_file) bob_reads day0 day4 bob-AreAsking refl refl

abbrev alice_reads : GetInput
alice_reads = record { id = codes "s2"; account_id = checking; requesting_user_id = alice }

read-run : get_statement nonempty_ids no_faults alice_reads day4 ≡ ok meal_out
unfolding get_statement financial_wallet.Ids.parse_id
    financial_wallet.Usecases.Metadata.find_owned_account find_account_by_id find_account
    financial_wallet.Text.text_eq financial_wallet.Usecases.Metadata.is_foreign
    financial_wallet.StatementRepo.Reads.find_by_id financial_wallet.Schema.find_statement
    financial_wallet.Ids.parse_optional_id financial_wallet.Result.traverse
    financial_wallet.Schema.find_tag financial_wallet.Usecases.Output.to_output
    financial_wallet.Schema.find_category
read-run = refl

get_statement-Shown_example : Shown nonempty_ids no_faults alice_reads day4 meal_out
get_statement-Shown_example =
    get_statement-Shown nonempty_ids no_faults alice_reads day4 meal_out read-run
