-- ===== src/Wallet.antt =====
-- The wallet as a whole: the use cases of internal/usecases/account, statement, category and tag that
-- write, in any order. A step fixes what the code does not: the time, the fresh identifiers, the
-- calls of the database that fail, and the replica that the reads see.
pub mod Labels
pub mod Accounts
pub mod Invariant
pub mod Writes
pub mod Sequences
pub mod LabelSteps
pub mod Singles
pub mod Refines
pub mod References
pub mod Foreign
pub mod Integrity
pub mod Keeps
pub mod Unique
pub mod Reversal
pub mod Settled
pub mod Import
pub mod Lifecycle
pub mod Reopening
pub mod Labelling
pub mod Again
use financial_wallet.Prelude.{ℕ, List, []}
use financial_wallet.Text.{Text}
use financial_wallet.Result.{Result}
use financial_wallet.Domain.Statement.{Time}
use financial_wallet.Domain.Labels.{Category, Tag}
use financial_wallet.Libs.{Libs}
use financial_wallet.Schema.{Db, Faults}
use financial_wallet.Usecases.Create.{CreateInput, create_statement}
use financial_wallet.Usecases.Reverse.{ReverseInput, reverse_statement}
use financial_wallet.Usecases.Import.{Transaction, ImportInput, import_statements}
use financial_wallet.Usecases.Update.{
  UpdateCategoryInput, ReplaceTagsInput, update_statement_category, replace_statement_tags,
}
use financial_wallet.Accounts.{
  CreateAccountInput, UpdateAccountInput, DeleteAccountInput, open_account, change_account,
  close_account,
}
use financial_wallet.LabelUsecases.{
  CreateCategoryInput, CreateTagInput, RenameInput, DeleteLabelInput, add_category, change_category,
  remove_user_category, add_tag, change_tag, remove_user_tag,
}

-- A database without accounts and statements.
abbrev pub empty_wallet : List Text → List Category → List Tag → Db
empty_wallet users categories tags = record {
  users = users;
  accounts = [];
  statements = [];
  statement_tags = [];
  categories = categories;
  tags = tags;
}

-- One request, from the primary before it to the primary after it.
pub data Step (lib : Libs) (f : Faults) (now : Time) : Db → Db → Type 0 where
  opened :
      (uuid : Text) (input : CreateAccountInput) {primary : Db}
      → Step lib f now primary (open_account lib f now uuid input primary).1
  changed :
      (input : UpdateAccountInput) (replica : Db) {primary : Db}
      → Step lib f now primary (change_account lib f now input replica primary).1
  closed :
      (input : DeleteAccountInput) (replica : Db) {primary : Db}
      → Step lib f now primary (close_account lib f now input replica primary).1
  posted :
      (uuid : Text) (input : CreateInput) (replica : Db) {primary : Db}
      → Step lib f now primary (create_statement lib f now uuid input replica primary).1
  reversed :
      (uuid : Text) (input : ReverseInput) (replica : Db) {primary : Db}
      → Step lib f now primary (reverse_statement lib f now uuid input replica primary).1
  imported :
      (fresh : ℕ → Text) (input : ImportInput) (parsed : Result (List Transaction)) (replica : Db)
      {primary : Db}
      → Step lib f now primary (import_statements lib f now fresh input parsed replica primary).1
  categorised :
      (input : UpdateCategoryInput) (replica : Db) {primary : Db}
      → Step lib f now primary (update_statement_category lib f input replica primary).1
  tagged :
      (input : ReplaceTagsInput) (replica : Db) {primary : Db}
      → Step lib f now primary (replace_statement_tags lib f input replica primary).1
  category_added :
      (uuid : Text) (input : CreateCategoryInput) {primary : Db}
      → Step lib f now primary (add_category lib f now uuid input primary).1
  category_changed :
      (input : RenameInput) (replica : Db) {primary : Db}
      → Step lib f now primary (change_category lib f now input replica primary).1
  category_removed :
      (input : DeleteLabelInput) (replica : Db) {primary : Db}
      → Step lib f now primary (remove_user_category lib f input replica primary).1
  tag_added :
      (uuid : Text) (input : CreateTagInput) {primary : Db}
      → Step lib f now primary (add_tag lib f now uuid input primary).1
  tag_changed :
      (input : RenameInput) (replica : Db) {primary : Db}
      → Step lib f now primary (change_tag lib f now input replica primary).1
  tag_removed :
      (input : DeleteLabelInput) (replica : Db) {primary : Db}
      → Step lib f now primary (remove_user_tag lib f input replica primary).1

-- Any number of requests, each with its own faults and time.
pub data Reach (lib : Libs) : Db → Db → Type 0 where
  start : {db : Db} → Reach lib db db
  then_step :
      {db db' db'' : Db} {f : Faults} {now : Time}
      → Reach lib db db'
      → Step lib f now db' db''
      → Reach lib db db''
