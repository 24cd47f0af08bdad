-- ===== src/Domain/Account.antt =====
-- internal/domain/account: the account entity and its value objects AccountType and CreditLimit.
use financial_wallet.Prelude.{Bool, true, false, not, ◌||◌, Option, none, some, if◌then◌else◌}
use financial_wallet.Prelude.Int.{ℤ, pos, ltb_ℤ}
use financial_wallet.Text.{Text, codes, text_eq}
use financial_wallet.Result.{
  Result, ok, err, ◌>>=◌, invalid_account_type, invalid_credit_limit, credit_limit_not_allowed,
  credit_limit_required,
}
use financial_wallet.Domain.Statement.{Time}

abbrev pub type_bank_account : Text
type_bank_account = codes "bank_account"

abbrev pub type_credit_card : Text
type_credit_card = codes "credit_card"

abbrev pub type_cash : Text
type_cash = codes "cash"

unfoldable pub is_account_type : Text → Bool
unfolding text_eq
is_account_type t = text_eq t type_bank_account || text_eq t type_credit_card || text_eq t type_cash

unfoldable pub new_account_type : Text → Result Text
unfolding is_account_type
new_account_type value = if is_account_type value then ok value else err invalid_account_type

abbrev pub max_credit_limit : ℤ
max_credit_limit = pos 1_000_000_000_000

unfoldable pub new_credit_limit : ℤ → Result ℤ
new_credit_limit value =
    if not (ltb_ℤ (pos 0) value) || ltb_ℤ max_credit_limit value
    then err invalid_credit_limit
    else ok value

pub record Account : Type 0 where
  pub id : Text
  pub user_id : Text
  pub name : Text
  pub type : Text
  pub description : Text
  pub balance : ℤ
  pub active : Bool
  pub created_at : Time
  pub updated_at : Time
  pub credit_limit : Option ℤ

unfoldable pub accepts_credit_limit : Text → Bool
unfolding text_eq
accepts_credit_limit account_type = text_eq account_type type_credit_card

abbrev some_limit : ℤ → Result (Option ℤ)
some_limit limit = ok (some limit)

-- The account type and the limit that came with it: the limit to keep.
unfoldable pub resolve_limit : Bool → Option ℤ → Result (Option ℤ)
unfolding new_credit_limit
resolve_limit false (some cents) = err credit_limit_not_allowed
resolve_limit false none = ok none
resolve_limit true none = err credit_limit_required
resolve_limit true (some cents) = do limit ← new_credit_limit cents; ok (some limit)

unfoldable pub resolve_credit_limit : Text → Option ℤ → Result (Option ℤ)
unfolding resolve_limit accepts_credit_limit
resolve_credit_limit account_type cents = resolve_limit (accepts_credit_limit account_type) cents

unfoldable pub new_account : Text → Time → Text → Text → Text → Text → Option ℤ → Result Account
unfolding resolve_credit_limit
new_account uuid now user_id name account_type description credit_limit_cents = do
  credit_limit ← resolve_credit_limit account_type credit_limit_cents
  ok (record {
    id = uuid;
    user_id = user_id;
    name = name;
    type = account_type;
    description = description;
    balance = pos 0;
    active = true;
    created_at = now;
    updated_at = now;
    credit_limit = credit_limit;
  })

unfoldable pub set_credit_limit : Time → ℤ → Account → Result Account
unfolding accepts_credit_limit new_credit_limit
set_credit_limit now credit_limit_cents a =
    if not (accepts_credit_limit a.type) then err credit_limit_not_allowed else (do
      limit ← new_credit_limit credit_limit_cents
      ok (record a { credit_limit = some limit; updated_at = now }))

unfoldable pub deactivate : Time → Account → Account
deactivate now a = record a { active = false; updated_at = now }

unfoldable pub update_name : Time → Text → Account → Account
update_name now name a = record a { name = name; updated_at = now }

unfoldable pub update_description : Time → Text → Account → Account
update_description now description a = record a { description = description; updated_at = now }
