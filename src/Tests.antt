-- ===== src/Tests.antt =====
-- Concrete data: two users, a few requests, and libraries that read every text that is not empty as
-- a canonical UUID.
pub mod Batch
pub mod Ledger
pub mod Import
pub mod Accounts
pub mod Pages
pub mod Labels
pub mod Ofx
pub mod Idempotency
pub mod Access
use financial_wallet.Prelude.{ℕ, not, Bool, false, true, Option, none, some, List, [], ◌∷◌}
use financial_wallet.Prelude.Int.{ℤ, pos, negsuc}
use financial_wallet.Text.{Text, codes, is_empty}
use financial_wallet.Domain.Statement.{Time}
use financial_wallet.Domain.Labels.{Category, Tag, estorno_credit_id, estorno_debit_id}
use financial_wallet.Libs.{Libs}
use financial_wallet.Schema.{AccountRow, StatementRow, Db}
use financial_wallet.Usecases.Create.{CreateInput, create_statement}
use financial_wallet.Usecases.Reverse.{ReverseInput, reverse_statement}
use financial_wallet.Usecases.Import.{Transaction, ImportInput, ImportOutput, import_statements}
use financial_wallet.Accounts.{CreateAccountInput, DeleteAccountInput, open_account, close_account}
use financial_wallet.Usecases.Output.{StatementOutput}
use financial_wallet.Usecases.Update.{UpdateCategoryInput, ReplaceTagsInput}
use financial_wallet.Accounts.{UpdateAccountInput}
use financial_wallet.Wallet.{empty_wallet}

abbrev pub nonempty_ids : Libs
nonempty_ids = record {
  uuid_parses = λ t. not (is_empty t);
  uuid_text = λ t. t;
  order_tags = λ refs. refs;
  lower = λ t. t;
  order_categories = λ rows. rows;
  order_labels = λ rows. rows;
  order_names = λ names. names;
  rfc3339 = λ t. none;
}

abbrev pub alice : Text
alice = codes "a"

abbrev pub bob : Text
bob = codes "b"

abbrev pub checking : Text
checking = codes "c1"

abbrev pub food : Category
food = record {
  id = codes "food";
  user_id = some alice;
  name = codes "Food";
  type = codes "debit";
  created_at = 1;
  updated_at = 1;
}

abbrev pub estorno_credit : Category
estorno_credit = record {
  id = estorno_credit_id;
  user_id = none;
  name = codes "Estorno";
  type = codes "credit";
  created_at = 1;
  updated_at = 1;
}

abbrev pub estorno_debit : Category
estorno_debit = record {
  id = estorno_debit_id;
  user_id = none;
  name = codes "Estorno";
  type = codes "debit";
  created_at = 1;
  updated_at = 1;
}

abbrev pub lunch : Tag
lunch = record {
  id = codes "lunch";
  user_id = some alice;
  name = codes "lunch";
  created_at = 1;
  updated_at = 1;
}

abbrev pub two_users : List Text
two_users = alice ∷ bob ∷ []

abbrev pub three_categories : List Category
three_categories = food ∷ estorno_credit ∷ estorno_debit ∷ []

abbrev pub one_tag : List Tag
one_tag = lunch ∷ []

abbrev pub day0 : Db
day0 = empty_wallet two_users three_categories one_tag

abbrev pub opening : CreateAccountInput
opening = record {
  user_id = alice;
  name = codes "Checking";
  type = codes "bank_account";
  description = [];
  credit_limit = none;
}

abbrev pub checking_with : ℤ → Time → AccountRow
checking_with balance updated_at = record {
  id = checking;
  user_id = alice;
  name = codes "Checking";
  type = codes "bank_account";
  description = [];
  balance = balance;
  active = true;
  created_at = 10;
  updated_at = updated_at;
  credit_limit = none;
}

abbrev pub day1 : Db
day1 = record day0 { accounts = checking_with (pos 0) 10 ∷ [] }

abbrev pub salary : CreateInput
salary = record {
  account_id = checking;
  requesting_user_id = alice;
  type = codes "credit";
  amount = pos 1000;
  description = codes "Salary";
  posted_at = [];
  category_id = none;
  tag_ids = [];
}

abbrev pub meal : CreateInput
meal = record {
  account_id = checking;
  requesting_user_id = alice;
  type = codes "debit";
  amount = pos 300;
  description = codes "Meal";
  posted_at = [];
  category_id = some (codes "food");
  tag_ids = codes "lunch" ∷ [];
}

abbrev pub salary_row : StatementRow
salary_row = record {
  id = codes "s1";
  account_id = checking;
  type = codes "credit";
  amount = pos 1000;
  description = codes "Salary";
  reference_id = none;
  external_id = none;
  balance_after = pos 1000;
  posted_at = 20;
  created_at = 20;
  category_id = none;
}

abbrev pub meal_row : StatementRow
meal_row = record {
  id = codes "s2";
  account_id = checking;
  type = codes "debit";
  amount = pos 300;
  description = codes "Meal";
  reference_id = none;
  external_id = none;
  balance_after = pos 700;
  posted_at = 30;
  created_at = 30;
  category_id = some (codes "food");
}

abbrev pub refund_row : StatementRow
refund_row = record {
  id = codes "s3";
  account_id = checking;
  type = codes "credit";
  amount = pos 300;
  description = codes "Reversal of statement s2";
  reference_id = some (codes "s2");
  external_id = none;
  balance_after = pos 1000;
  posted_at = 40;
  created_at = 40;
  category_id = some estorno_credit_id;
}

abbrev pub day2 : Db
day2 = record day1 { accounts = checking_with (pos 1000) 20 ∷ []; statements = salary_row ∷ [] }

abbrev pub day3 : Db
day3 = record day1 {
  accounts = checking_with (pos 700) 30 ∷ [];
  statements = meal_row ∷ salary_row ∷ [];
  statement_tags = (codes "s2", codes "lunch") ∷ [];
}

abbrev pub refund : ReverseInput
refund = record {
  statement_id = codes "s2";
  account_id = checking;
  requesting_user_id = alice;
  description = [];
}

abbrev pub day4 : Db
day4 = record day3 {
  accounts = checking_with (pos 1000) 40 ∷ [];
  statements = refund_row ∷ meal_row ∷ salary_row ∷ [];
}

abbrev pub coffee : Transaction
coffee = record {
  fitid = codes "F1";
  type = codes "DEBIT";
  amount = negsuc 249;
  name = codes "Coffee";
  memo = [];
  date_posted = 35;
}

abbrev pub interest : Transaction
interest = record {
  fitid = codes "F2";
  type = codes "CREDIT";
  amount = pos 5;
  name = [];
  memo = codes "Interest";
  date_posted = 36;
}

abbrev pub marker : Transaction
marker = record {
  fitid = [];
  type = codes "OTHER";
  amount = pos 0;
  name = [];
  memo = [];
  date_posted = 36;
}

abbrev pub bank_file : List Transaction
bank_file = coffee ∷ interest ∷ marker ∷ []

abbrev pub import_request : ImportInput
import_request = record { account_id = checking; requesting_user_id = alice }

-- The identifiers of the statements of an import.
abbrev pub numbered : ℕ → Text
numbered n = 110 ∷ n ∷ []

abbrev pub meal_out : StatementOutput
meal_out = record {
  id = codes "s2";
  account_id = checking;
  type = codes "debit";
  amount = pos 300;
  description = codes "Meal";
  reference_id = none;
  external_id = none;
  balance_after = pos 700;
  posted_at = 30;
  created_at = 30;
  category = some (record { id = codes "food"; name = codes "Food"; type = codes "debit" });
  tags = record { id = codes "lunch"; name = codes "lunch" } ∷ [];
}

abbrev pub refund_out : StatementOutput
refund_out = record {
  id = codes "s3";
  account_id = checking;
  type = codes "credit";
  amount = pos 300;
  description = codes "Reversal of statement s2";
  reference_id = some (codes "s2");
  external_id = none;
  balance_after = pos 1000;
  posted_at = 40;
  created_at = 40;
  category =
      some (record { id = estorno_credit_id; name = codes "Estorno"; type = codes "credit" });
  tags = [];
}

abbrev pub relabel_request : UpdateCategoryInput
relabel_request = record { statement_id = codes "s1"; requesting_user_id = bob; category_id = none }

abbrev pub retag_request : ReplaceTagsInput
retag_request = record {
  statement_id = codes "s2";
  requesting_user_id = alice;
  tag_ids = codes "unknown" ∷ [];
}

abbrev pub rename_request : UpdateAccountInput
rename_request = record {
  id = checking;
  requesting_user_id = alice;
  name = some (codes "Everyday");
  description = none;
  credit_limit = none;
}

abbrev pub close_request : DeleteAccountInput
close_request = record { id = checking; requesting_user_id = alice }

abbrev pub coffee_row : StatementRow
coffee_row = record {
  id = numbered 2;
  account_id = checking;
  type = codes "debit";
  amount = pos 250;
  description = codes "Coffee";
  reference_id = none;
  external_id = some (codes "F1");
  balance_after = pos 750;
  posted_at = 35;
  created_at = 50;
  category_id = none;
}

abbrev pub interest_row : StatementRow
interest_row = record {
  id = numbered 1;
  account_id = checking;
  type = codes "credit";
  amount = pos 5;
  description = codes "Interest";
  reference_id = none;
  external_id = some (codes "F2");
  balance_after = pos 755;
  posted_at = 36;
  created_at = 50;
  category_id = none;
}

abbrev pub day5 : Db
day5 = record day4 {
  accounts = checking_with (pos 755) 50 ∷ [];
  statements = interest_row ∷ coffee_row ∷ refund_row ∷ meal_row ∷ salary_row ∷ [];
}

abbrev pub import_out : ImportOutput
import_out = record { total_transactions = 3; created = 2; skipped = 1 }
