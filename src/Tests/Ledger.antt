-- ===== src/Tests/Ledger.antt =====
-- Runs of the wallet.
use mathlib.Core.Path.{subst}
use financial_wallet.Prelude.{◌≡◌, ◌≤◌, refl, arith, ap, Option, some, none, true, [], ◌∷◌}
use financial_wallet.Prelude.Int.{pos}
use financial_wallet.Int64.{wrap}
use financial_wallet.Text.{Text, codes}
use financial_wallet.Schema.{Db, find_account, no_faults}
use financial_wallet.StatementRepo.Ledger.{ledger_total}
use financial_wallet.Accounts.{open_account}
use financial_wallet.Usecases.Create.{create_statement}
use financial_wallet.Usecases.Reverse.{reverse_statement}
use financial_wallet.Wallet.{Reach, start, then_step, opened, posted, reversed, Step}
use financial_wallet.Result.{Error, Result, ok, err}
use financial_wallet.StatementRepo.Ledger.{IsChained}
use financial_wallet.StatementRepo.Unique.{reversal_count, import_count}
use financial_wallet.Usecases.Posting.{Posted, create_statement-Posted}
use financial_wallet.Wallet.Invariant.{Reach-balance, Reach-chain}
use financial_wallet.Wallet.Unique.{Reach-reversed_once, Reach-imported_once}
use financial_wallet.Wallet.Reversal.{Undone, reverse_statement-Undone, reverse_statement-once}
use financial_wallet.Tests.{
  nonempty_ids, two_users, three_categories, one_tag, day0, day1, day2, day3, day4, checking,
  opening, salary, meal, refund, checking_with, meal_out, refund_out,
}

day1-eq : (open_account nonempty_ids no_faults 10 checking opening day0).1 ≡ day1
unfolding open_account financial_wallet.Ids.parse_id
    financial_wallet.Domain.Account.new_account_type financial_wallet.Domain.Account.new_account
    financial_wallet.AccountRepo.create_account financial_wallet.AccountRepo.account_violation
    financial_wallet.AccountRepo.limit_check find_account financial_wallet.Text.contains
day1-eq = refl

day2-eq : (create_statement nonempty_ids no_faults 20 (codes "s1") salary day1 day1).1 ≡ day2
unfolding create_statement financial_wallet.Ids.parse_id
    financial_wallet.Usecases.Metadata.find_owned_account
    financial_wallet.Readers.find_account_by_id find_account financial_wallet.Text.text_eq
    financial_wallet.Usecases.Metadata.is_foreign
    financial_wallet.Domain.Statement.new_statement_type
    financial_wallet.Domain.Statement.new_amount financial_wallet.Usecases.Metadata.resolve_category
    financial_wallet.Usecases.Metadata.resolve_tags financial_wallet.Usecases.Metadata.dedup_tag_ids
    financial_wallet.StatementRepo.create financial_wallet.Schema.statement_violation
    financial_wallet.Schema.char_count financial_wallet.Schema.place_statement
    financial_wallet.Schema.place_statements financial_wallet.Schema.all_linked
    financial_wallet.Schema.has_links financial_wallet.Schema.insert_statements
    financial_wallet.StatementRepo.from_domain_statement
    financial_wallet.Usecases.Metadata.apply_metadata_to_statement
    financial_wallet.Domain.Statement.new_statement financial_wallet.Domain.Statement.is_credit
    financial_wallet.Domain.Statement.is_valid_type
    financial_wallet.Domain.Statement.set_balance_after
    financial_wallet.Domain.Statement.with_category financial_wallet.Domain.Statement.with_tags
    financial_wallet.Ids.parse_optional_id financial_wallet.Int64.add64 financial_wallet.Int64.sub64
    wrap financial_wallet.Prelude.Int.◌+ℤ◌ financial_wallet.Prelude.Int.◌-ℤ◌
    financial_wallet.Readers.find_many_visible_tags financial_wallet.Readers.find_visible_category
    financial_wallet.Readers.is_visible financial_wallet.Readers.to_account
    financial_wallet.Readers.to_category financial_wallet.Readers.to_tag
    financial_wallet.Readers.visible_tags financial_wallet.Result.traverse
    financial_wallet.Schema.find_category financial_wallet.Schema.find_statement
    financial_wallet.Schema.find_tag financial_wallet.Schema.has_external
    financial_wallet.Schema.has_reference financial_wallet.Schema.has_statement_tag
    financial_wallet.Schema.insert_statement_tag financial_wallet.Schema.set_balance
    financial_wallet.StatementRepo.create_tx financial_wallet.StatementRepo.insert_statement_tags
    financial_wallet.StatementRepo.new_balance financial_wallet.Text.contains
    financial_wallet.Usecases.Create.build_statement financial_wallet.Usecases.Metadata.dedup_from
    financial_wallet.Usecases.Output.to_output
day2-eq = refl

pub meal-run :
    create_statement nonempty_ids no_faults 30 (codes "s2") meal day2 day2 ≡ (ok meal_out, day3)
unfolding create_statement financial_wallet.Ids.parse_id
    financial_wallet.Usecases.Metadata.find_owned_account
    financial_wallet.Readers.find_account_by_id find_account financial_wallet.Text.text_eq
    financial_wallet.Usecases.Metadata.is_foreign
    financial_wallet.Domain.Statement.new_statement_type
    financial_wallet.Domain.Statement.new_amount financial_wallet.Usecases.Metadata.resolve_category
    financial_wallet.Readers.find_visible_category financial_wallet.Schema.find_category
    financial_wallet.Readers.is_visible financial_wallet.Ids.parse_optional_id
    financial_wallet.Usecases.Metadata.resolve_tags financial_wallet.Usecases.Metadata.dedup_tag_ids
    financial_wallet.Text.contains financial_wallet.Result.traverse
    financial_wallet.Domain.Statement.is_credit financial_wallet.Domain.Statement.is_valid_type
    financial_wallet.Domain.Statement.new_statement
    financial_wallet.Domain.Statement.set_balance_after
    financial_wallet.Domain.Statement.with_category financial_wallet.Domain.Statement.with_tags
    financial_wallet.Int64.add64 financial_wallet.Int64.sub64 wrap financial_wallet.Prelude.Int.◌+ℤ◌
    financial_wallet.Prelude.Int.◌-ℤ◌ financial_wallet.Readers.find_many_visible_tags
    financial_wallet.Readers.to_account financial_wallet.Readers.to_category
    financial_wallet.Readers.to_tag financial_wallet.Readers.visible_tags
    financial_wallet.Schema.find_statement financial_wallet.Schema.find_tag
    financial_wallet.Schema.has_external financial_wallet.Schema.has_reference
    financial_wallet.Schema.has_statement_tag financial_wallet.Schema.insert_statement_tag
    financial_wallet.Schema.set_balance financial_wallet.Schema.statement_violation
    financial_wallet.Schema.char_count financial_wallet.Schema.place_statement
    financial_wallet.Schema.place_statements financial_wallet.Schema.all_linked
    financial_wallet.Schema.has_links financial_wallet.Schema.insert_statements
    financial_wallet.StatementRepo.create financial_wallet.StatementRepo.create_tx
    financial_wallet.StatementRepo.from_domain_statement
    financial_wallet.StatementRepo.insert_statement_tags financial_wallet.StatementRepo.new_balance
    financial_wallet.Usecases.Create.build_statement
    financial_wallet.Usecases.Metadata.apply_metadata_to_statement
    financial_wallet.Usecases.Metadata.dedup_from financial_wallet.Usecases.Metadata.resolve_given
    financial_wallet.Usecases.Metadata.resolve_unique financial_wallet.Usecases.Output.to_output
meal-run = refl

pub refund-run :
    reverse_statement nonempty_ids no_faults 40 (codes "s3") refund day3 day3
    ≡ (ok refund_out, day4)
unfolding reverse_statement financial_wallet.Ids.parse_id
    financial_wallet.Usecases.Metadata.find_owned_account
    financial_wallet.Readers.find_account_by_id find_account financial_wallet.Text.text_eq
    financial_wallet.Usecases.Metadata.is_foreign financial_wallet.StatementRepo.Reads.find_by_id
    financial_wallet.Schema.find_statement financial_wallet.Ids.parse_optional_id
    financial_wallet.Result.traverse financial_wallet.Schema.find_tag
    financial_wallet.StatementRepo.has_reversal financial_wallet.Schema.has_reference
    financial_wallet.StatementRepo.create financial_wallet.Schema.statement_violation
    financial_wallet.Schema.char_count financial_wallet.Schema.place_statement
    financial_wallet.Schema.place_statements financial_wallet.Schema.all_linked
    financial_wallet.Schema.has_links financial_wallet.Schema.insert_statements
    financial_wallet.Domain.Statement.is_valid_type financial_wallet.Domain.Statement.is_credit
    financial_wallet.Domain.Statement.new_reversal_statement
    financial_wallet.Domain.Statement.new_statement financial_wallet.Domain.Statement.opposite
    financial_wallet.Domain.Statement.set_balance_after
    financial_wallet.Domain.Statement.with_category financial_wallet.Int64.add64
    financial_wallet.Int64.sub64 wrap financial_wallet.Prelude.Int.◌+ℤ◌
    financial_wallet.Prelude.Int.◌-ℤ◌ financial_wallet.Readers.to_account
    financial_wallet.Schema.find_category financial_wallet.Schema.has_external
    financial_wallet.Schema.has_statement_tag financial_wallet.Schema.insert_statement_tag
    financial_wallet.Schema.set_balance financial_wallet.StatementRepo.Reads.to_statement
    financial_wallet.StatementRepo.create_tx financial_wallet.StatementRepo.from_domain_statement
    financial_wallet.StatementRepo.insert_statement_tags financial_wallet.StatementRepo.new_balance
    financial_wallet.Usecases.Output.to_output financial_wallet.Usecases.Reverse.build_reversal
    financial_wallet.Usecases.Reverse.default_estorno_category_id
    financial_wallet.Usecases.Reverse.new_reversal
refund-run = refl

pub four_days : Reach nonempty_ids day0 day4
four_days =
    then_step
      (then_step
        (then_step
          (then_step start
            (subst (Step nonempty_ids no_faults 10 day0) day1-eq (opened checking opening)))
          (subst (Step nonempty_ids no_faults 20 day1) day2-eq (posted (codes "s1") salary day1)))
        (subst (Step nonempty_ids no_faults 30 day2) (ap (λ p. p.1) meal-run)
          (posted (codes "s2") meal day2)))
      (subst (Step nonempty_ids no_faults 40 day3) (ap (λ p. p.1) refund-run)
        (reversed (codes "s3") refund day3))

Reach-balance_example : pos 1000 ≡ wrap (ledger_total checking day4.statements)
unfolding find_account financial_wallet.Text.text_eq
Reach-balance_example =
    Reach-balance nonempty_ids two_users three_categories one_tag day4 checking
      (checking_with (pos 1000) 40) four_days refl

Reach-chain_example : IsChained day4.statements
Reach-chain_example = Reach-chain nonempty_ids two_users three_categories one_tag day4 four_days

Reach-reversed_once_example : reversal_count (codes "s2") day4.statements ≤ 1
Reach-reversed_once_example =
    Reach-reversed_once nonempty_ids two_users three_categories one_tag day4 (codes "s2") four_days

Reach-imported_once_example : import_count checking (codes "F1") day4.statements ≤ 1
Reach-imported_once_example =
    Reach-imported_once nonempty_ids two_users three_categories one_tag day4 checking (codes "F1")
      four_days

create_statement-Posted_example : Posted nonempty_ids no_faults meal day2 day2 day3 meal_out
create_statement-Posted_example =
    create_statement-Posted nonempty_ids no_faults 30 (codes "s2") meal day2 day2 day3 meal_out
      meal-run

reverse_statement-Undone_example : Undone nonempty_ids no_faults refund day3 day3 day4 refund_out
reverse_statement-Undone_example =
    reverse_statement-Undone nonempty_ids no_faults 40 (codes "s3") refund day3 day3 day4 refund_out
      refund-run

-- The second request reads the replica of the third day, on which nothing was reversed.
reverse_statement-once_example :
    (e : Error) × (reverse_statement nonempty_ids no_faults 50 (codes "s4") refund day3 day4
      ≡ (err e, day4))
reverse_statement-once_example =
    reverse_statement-once nonempty_ids no_faults no_faults 40 50 (codes "s3") (codes "s4") refund
      refund day3 day3 day4 day3 day4 refund_out refund-run start refl
