-- ===== src/Usecases/Posting.antt =====
-- create.go: a run of CreateUseCase that succeeds.
use mathlib.Core.Path.{subst}
use financial_wallet.Prelude.{
  ◌≤◌, ◌≡◌, ◌∙◌, sym, ap, inl, inr, true, some, none, [], ◌∷◌, arith, length, Bool-cases,
}
use financial_wallet.Prelude.Int.{ℤ, pos, ◌+ℤ◌, ltb_ℤ}
use financial_wallet.Text.{Text}
use financial_wallet.Result.{ok, ok-injective, Result-cases}
use financial_wallet.Domain.Statement.{
  Time, Statement, set_balance_after, is_valid_type, new_statement, new_statement_type, new_amount,
}
use financial_wallet.Domain.Account.{Account}
use financial_wallet.Domain.Labels.{max_tags_per_statement}
use financial_wallet.Libs.{Libs}
use financial_wallet.Schema.{AccountRow, Db, Faults, find_account}
use financial_wallet.StatementRepo.{new_balance, from_domain_statement}
use financial_wallet.StatementRepo.Rows.{create_tx-eq_ok}
use financial_wallet.StatementRepo.Ledger.{signed, ledger_total, ledger_total-own}
use financial_wallet.Usecases.Output.{StatementOutput, to_output}
use financial_wallet.Usecases.Persisted.{persisted-eq_ok}
use financial_wallet.Usecases.Ledger.{build_statement-account}
use financial_wallet.Usecases.Create.{CreateInput, post_at, build_statement, create_statement}
use financial_wallet.Usecases.Steps.{IsOwned, build_statement-eq_ok}
use financial_wallet.Usecases.Checks.{
  IsRefOfType, resolve_category-IsOfType, resolve_tags-length, apply_metadata-type,
  apply_metadata-amount, apply_metadata-IsRefOfType, apply_metadata-length,
}

-- What a request that posted a statement has passed, and what it has done.
pub record Posted (lib : Libs) (f : Faults) (input : CreateInput) (replica primary after : Db)
    (out : StatementOutput) : Type 0 where
  pub account : Account
  pub owned : IsOwned lib f input.account_id input.requesting_user_id replica account
  pub active : account.active ≡ true
  pub type : out.type ≡ input.type
  pub valid : is_valid_type out.type ≡ true
  pub amount : out.amount ≡ input.amount
  pub positive : ltb_ℤ (pos 0) out.amount ≡ true
  pub category : IsRefOfType out.type out.category
  pub tags : length out.tags ≤ max_tags_per_statement
  pub row : AccountRow
  pub found : find_account (lib.uuid_text input.account_id) primary.accounts ≡ some row
  pub balance : out.balance_after ≡ new_balance out.type row.balance out.amount
  pub total :
      ledger_total (lib.uuid_text input.account_id) after.statements
      ≡ ledger_total (lib.uuid_text input.account_id) primary.statements
        +ℤ signed out.type out.amount

-- The same of the statement that is about to be written.
record Built (lib : Libs) (f : Faults) (input : CreateInput) (replica : Db) (s : Statement)
    : Type 0 where
  account : Account
  owned : IsOwned lib f input.account_id input.requesting_user_id replica account
  active : account.active ≡ true
  account_id : s.account_id ≡ input.account_id
  type : s.type ≡ input.type
  valid : is_valid_type s.type ≡ true
  amount : s.amount ≡ input.amount
  positive : ltb_ℤ (pos 0) s.amount ≡ true
  category : IsRefOfType s.type s.category
  tags : length s.tags ≤ max_tags_per_statement

new_statement_type-eq_ok :
    (value type : Text)
    → new_statement_type value ≡ ok type
    → (type ≡ value) × (is_valid_type type ≡ true)
unfolding new_statement_type
new_statement_type-eq_ok value type h = elim (Bool-cases (is_valid_type value)) [
  | inl good ↦ let same : value ≡ type = ok-injective (rw good at h) in (sym same, rw (← same) good)
  | inr bad ↦ cc (rw bad at h)
]

new_amount-eq_ok :
    (value amount : ℤ)
    → new_amount value ≡ ok amount
    → (amount ≡ value) × (ltb_ℤ (pos 0) amount ≡ true)
unfolding new_amount
new_amount-eq_ok value amount h = elim (Bool-cases (ltb_ℤ (pos 0) value)) [
  | inl good ↦
      let same : value ≡ amount = ok-injective (rw good at h) in (sym same, rw (← same) good)
  | inr bad ↦ cc (rw bad at h)
]

module _ (lib : Libs) (f : Faults) (now : Time) (uuid : Text) (input : CreateInput)
    (replica : Db) where
  base : Text → ℤ → Time → Statement
  base type amount posted_at =
      post_at posted_at (new_statement uuid now input.account_id type amount input.description)

  base-type : (type : Text) (amount : ℤ) (p : Time) → (base type amount p).type ≡ type
  unfolding base new_statement
  base-type type amount p = ground arith

  base-amount : (type : Text) (amount : ℤ) (p : Time) → (base type amount p).amount ≡ amount
  unfolding base new_statement
  base-amount type amount p = ground arith

  base-category : (type : Text) (amount : ℤ) (p : Time) → (base type amount p).category ≡ none
  unfolding base new_statement
  base-category type amount p = ground arith

  base-tags : (type : Text) (amount : ℤ) (p : Time) → (base type amount p).tags ≡ []
  unfolding base new_statement
  base-tags type amount p = ground arith

  build_statement-Built :
      (s : Statement)
      → build_statement lib f now uuid input replica ≡ ok s
      → Built lib f input replica s
  unfolding base
  build_statement-Built s h =
      let c = build_statement-eq_ok lib f now uuid input replica s h in
      let s0 : Statement = base c.type c.amount c.posted_at in
      let (type, valid) = new_statement_type-eq_ok input.type c.type c.typed in
      let (amount, positive) = new_amount-eq_ok input.amount c.amount c.positive in
      let made_type : s.type ≡ c.type =
        ap (λ (t : Statement). t.type) c.made
        ∙ apply_metadata-type s0 c.cat c.tags
        ∙ base-type c.type c.amount c.posted_at in
      let made_amount : s.amount ≡ c.amount =
        ap (λ (t : Statement). t.amount) c.made
        ∙ apply_metadata-amount s0 c.cat c.tags
        ∙ base-amount c.type c.amount c.posted_at in
      let category =
        apply_metadata-IsRefOfType s0 c.type c.cat c.tags
          (base-category c.type c.amount c.posted_at)
          (resolve_category-IsOfType lib f input.category_id c.account.user_id c.type replica c.cat
            c.categorised) in
      let few = resolve_tags-length lib f input.tag_ids c.account.user_id replica c.tags c.tagged in
      record {
        account = c.account;
        owned = c.owned;
        active = c.active;
        account_id = build_statement-account lib f now uuid input replica s h;
        type = made_type ∙ type;
        valid = rw made_type valid;
        amount = made_amount ∙ amount;
        positive = rw made_amount positive;
        category =
            subst (λ k. IsRefOfType k s.category) (sym made_type)
              (subst (λ (t : Statement). IsRefOfType c.type t.category) (sym c.made) category);
        tags =
            rw
              (ap (λ (t : Statement). length t.tags) c.made
                ∙ apply_metadata-length s0 c.cat c.tags (base-tags c.type c.amount c.posted_at))
              few;
      }

  -- A request that posts a statement is of an active account that the requester may use. The output
  -- has the type and the amount of the request, a positive amount, a category of its own type if it
  -- has one and at most ten tags; it shows the balance of the account before, moved by the amount,
  -- and the account's sum moves by exactly the signed amount.
  pub create_statement-Posted :
      (primary after : Db) (out : StatementOutput)
      → create_statement lib f now uuid input replica primary ≡ (ok out, after)
      → Posted lib f input replica primary after out
  unfolding create_statement to_output set_balance_after from_domain_statement
  create_statement-Posted primary after out h =
      elim (Result-cases (build_statement lib f now uuid input replica)) [
        | inl (e, refused) ↦ cc (rw refused at h)
        | inr (s, built) ↦
            let b = build_statement-Built s built in
            let (balance, done, output) =
              persisted-eq_ok lib f now s input.account_id primary after out (rw built at h) in
            let (row, found, moved, rows, _) =
              create_tx-eq_ok lib f now s input.account_id primary after balance done in
            subst (Posted lib f input replica primary after) (sym output) (record {
              account = b.account;
              owned = b.owned;
              active = b.active;
              type = b.type;
              valid = b.valid;
              amount = b.amount;
              positive = b.positive;
              category = b.category;
              tags = b.tags;
              row = row;
              found = found;
              balance = moved;
              total =
                  ap (ledger_total (lib.uuid_text input.account_id)) rows
                  ∙ subst
                      (λ k.
                        ledger_total (lib.uuid_text k)
                          (from_domain_statement lib balance s ∷ primary.statements)
                        ≡ ledger_total (lib.uuid_text k) primary.statements
                          +ℤ signed s.type s.amount)
                      b.account_id
                      (ledger_total-own (from_domain_statement lib balance s) primary.statements);
            })
      ]
