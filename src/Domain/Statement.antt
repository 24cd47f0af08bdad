-- ===== src/Domain/Statement.antt =====
-- internal/domain/statement: the statement entity and its value objects Amount and StatementType.
-- `uuid` stands for the fresh identifier that NewID draws, `now` for the clock.
use financial_wallet.Prelude.{ℕ, Bool, not, ◌||◌, Option, none, some, List, [], if◌then◌else◌}
use financial_wallet.Prelude.Int.{ℤ, pos, ltb_ℤ}
use financial_wallet.Text.{Text, codes, text_eq}
use financial_wallet.Result.{Result, ok, err, invalid_amount, invalid_statement_type}

-- A time.Time, in nanoseconds since the zero time.
abbrev pub Time : Type 0
Time = ℕ

-- A StatementType is a string; the database holds these two.
abbrev pub type_credit : Text
type_credit = codes "credit"

abbrev pub type_debit : Text
type_debit = codes "debit"

unfoldable pub is_credit : Text → Bool
unfolding text_eq
is_credit t = text_eq t type_credit

unfoldable pub is_valid_type : Text → Bool
unfolding text_eq
is_valid_type t = text_eq t type_credit || text_eq t type_debit

unfoldable pub new_statement_type : Text → Result Text
unfolding is_valid_type
new_statement_type value = if is_valid_type value then ok value else err invalid_statement_type

unfoldable pub opposite : Text → Text
unfolding is_credit
opposite t = if is_credit t then type_debit else type_credit

-- An Amount is an int64, in cents.
unfoldable pub new_amount : ℤ → Result ℤ
new_amount value = if not (ltb_ℤ (pos 0) value) then err invalid_amount else ok value

pub record TagRef : Type 0 where
  pub id : Text
  pub name : Text

pub record CategoryRef : Type 0 where
  pub id : Text
  pub name : Text
  pub type : Text

pub record Statement : Type 0 where
  pub id : Text
  pub account_id : Text
  pub type : Text
  pub amount : ℤ
  pub description : Text
  pub reference_id : Option Text
  pub external_id : Option Text
  pub balance_after : ℤ
  pub posted_at : Time
  pub created_at : Time
  pub category_id : Option Text
  pub category : Option CategoryRef
  pub tags : List TagRef

unfoldable pub new_statement : Text → Time → Text → Text → ℤ → Text → Statement
new_statement uuid now account_id type amount description = record {
  id = uuid;
  account_id = account_id;
  type = type;
  amount = amount;
  description = description;
  reference_id = none;
  external_id = none;
  balance_after = pos 0;
  posted_at = now;
  created_at = now;
  category_id = none;
  category = none;
  tags = [];
}

unfoldable pub new_reversal_statement : Text → Time → Text → Text → ℤ → Text → Text → Statement
unfolding new_statement
new_reversal_statement uuid now account_id type amount description reference_id =
    record (new_statement uuid now account_id type amount description) {
      reference_id = some reference_id;
    }

unfoldable pub new_imported_statement :
    Text → Time → Text → Text → ℤ → Text → Text → Time → Statement
unfolding new_statement
new_imported_statement uuid now account_id type amount description external_id posted_at =
    record (new_statement uuid now account_id type amount description) {
      external_id = some external_id;
      posted_at = posted_at;
    }

unfoldable pub set_balance_after : ℤ → Statement → Statement
set_balance_after balance s = record s { balance_after = balance }

unfoldable pub with_category : Text → Statement → Statement
with_category id s = record s { category_id = some id }

unfoldable pub with_tags : List TagRef → Statement → Statement
with_tags refs s = record s { tags = refs }
