-- ===== src/Tests/Import.antt =====
-- Runs of an import.
use financial_wallet.Prelude.{◌≡◌, refl, inl, inr, All}
use financial_wallet.Result.{ok}
use financial_wallet.Schema.{no_faults}
use financial_wallet.Usecases.Import.{import_statements}
use financial_wallet.Wallet.{start}
use financial_wallet.Wallet.Settled.{IsTracked}
use financial_wallet.Wallet.Import.{Counted, import_statements-Counted}
use financial_wallet.Wallet.Again.{IsIdle, import_statements-again}
use financial_wallet.Tests.{
  nonempty_ids, day4, day5, numbered, import_request, bank_file, import_out,
}

import-run :
    import_statements nonempty_ids no_faults 50 numbered import_request (ok bank_file) day4 day4
    ≡ (ok import_out, day5)
unfolding import_statements financial_wallet.Ids.parse_id
    financial_wallet.Usecases.Metadata.find_owned_account
    financial_wallet.Readers.find_account_by_id financial_wallet.Schema.find_account
    financial_wallet.Text.text_eq financial_wallet.Usecases.Metadata.is_foreign
    financial_wallet.StatementRepo.find_external_ids financial_wallet.Usecases.Import.collect_fitids
    financial_wallet.Usecases.Import.filter_transactions financial_wallet.Usecases.Import.is_skipped
    financial_wallet.Text.contains financial_wallet.Usecases.Import.map_ofx_transaction
    financial_wallet.Int64.neg64 financial_wallet.Int64.wrap financial_wallet.Prelude.Int.◌-ℤ◌
    financial_wallet.StatementRepo.create_batch financial_wallet.Domain.Statement.is_credit
    financial_wallet.Domain.Statement.is_valid_type financial_wallet.Domain.Statement.new_amount
    financial_wallet.Domain.Statement.new_imported_statement
    financial_wallet.Domain.Statement.new_statement financial_wallet.Int64.add64
    financial_wallet.Int64.sub64 financial_wallet.Prelude.Int.◌+ℤ◌
    financial_wallet.Readers.to_account financial_wallet.Schema.find_category
    financial_wallet.Schema.find_statement financial_wallet.Schema.find_tag
    financial_wallet.Schema.has_external financial_wallet.Schema.has_reference
    financial_wallet.Schema.has_statement_tag financial_wallet.Schema.insert_statement_tag
    financial_wallet.Schema.set_balance financial_wallet.Schema.statement_violation
    financial_wallet.Schema.char_count financial_wallet.Schema.place_statement
    financial_wallet.Schema.place_statements financial_wallet.Schema.all_linked
    financial_wallet.Schema.has_links financial_wallet.Schema.insert_statements
    financial_wallet.StatementRepo.batch_balance financial_wallet.StatementRepo.batch_rows
    financial_wallet.StatementRepo.create_batch_tx
    financial_wallet.StatementRepo.from_domain_statement
    financial_wallet.StatementRepo.insert_batch_tags
    financial_wallet.StatementRepo.insert_statement_tags
    financial_wallet.StatementRepo.matching_external financial_wallet.StatementRepo.new_balance
    financial_wallet.Text.trim_space financial_wallet.Usecases.Import.abs_cents
    financial_wallet.Usecases.Import.build_description financial_wallet.Usecases.Import.build_import
    financial_wallet.Usecases.Import.ofx_type
import-run = refl

import_statements-Counted_example : Counted bank_file day4 day5 import_out
import_statements-Counted_example =
    import_statements-Counted nonempty_ids no_faults 50 numbered import_request bank_file day4 day4
      day5 import_out import-run

bank_file-IsTracked : All IsTracked bank_file
bank_file-IsTracked = (inl refl, (inl refl, (inr refl, tt)))

-- The second import reads a replica on which the first is not there yet.
import_statements-again_example :
    IsIdle
      (import_statements nonempty_ids no_faults 60 numbered import_request
        (ok bank_file)
        day4
        day5).0
    × ((import_statements nonempty_ids no_faults 60 numbered import_request
          (ok bank_file)
          day4
          day5).1
        ≡ day5)
import_statements-again_example =
    import_statements-again nonempty_ids no_faults no_faults 50 60 numbered numbered import_request
      import_request bank_file day4 day4 day5 day4 day5 import_out bank_file-IsTracked import-run
      start refl
