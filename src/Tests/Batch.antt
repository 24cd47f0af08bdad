-- ===== src/Tests/Batch.antt =====
-- A batch of two statements, one after the other and at once, and writes whose commit goes unanswered.
use financial_wallet.Prelude.{true, none, ◌≡◌, refl, [], ◌∷◌}
use financial_wallet.Prelude.Int.{pos}
use financial_wallet.Text.{codes}
use financial_wallet.Domain.Statement.{Statement, new_statement, type_credit, type_debit}
use financial_wallet.Result.{err, unavailable}
use financial_wallet.Schema.{Faults, no_faults}
use financial_wallet.StatementRepo.{create, create_batch, create_batch_tx}
use financial_wallet.StatementRepo.Labels.{update_category, replace_tags}
use financial_wallet.StatementRepo.Failing.{AllOrNothing, writes-AllOrNothing}
use financial_wallet.StatementRepo.Plain.{IsPlain}
use financial_wallet.StatementRepo.Batch.{create_each, create_batch_tx-create_each}
use financial_wallet.Tests.{nonempty_ids, checking, day2}

abbrev bonus : Statement
bonus = new_statement (codes "s8") 60 checking type_credit (pos 50) (codes "Bonus")

abbrev fee : Statement
fee = new_statement (codes "s9") 60 checking type_debit (pos 20) (codes "Fee")

bonus-IsPlain : IsPlain nonempty_ids checking bonus
unfolding new_statement
bonus-IsPlain = record { own = refl; untagged = refl; unreferring = refl; uncategorised = refl }

fee-IsPlain : IsPlain nonempty_ids checking fee
unfolding new_statement
fee-IsPlain = record { own = refl; untagged = refl; unreferring = refl; uncategorised = refl }

create_batch_tx-create_each_example :
    create_batch_tx nonempty_ids no_faults 70 (bonus ∷ fee ∷ []) checking day2
    ≡ create_each nonempty_ids 70 checking (pos 0) (bonus ∷ fee ∷ []) day2
create_batch_tx-create_each_example =
    create_batch_tx-create_each nonempty_ids 70 checking bonus (fee ∷ []) day2 (pos 0)
      (bonus-IsPlain, (fee-IsPlain, tt))

abbrev unanswered : Faults
unanswered = record no_faults { acknowledge = true }

-- The commit that the caller does not hear of has written the statement.
unanswered-run :
    create nonempty_ids unanswered 70 bonus checking day2
    ≡ (err unavailable, (create nonempty_ids no_faults 70 bonus checking day2).1)
unfolding create new_statement financial_wallet.Schema.find_account financial_wallet.Text.text_eq
    financial_wallet.Schema.insert_statements financial_wallet.Schema.place_statements
    financial_wallet.Schema.place_statement financial_wallet.Schema.statement_violation
    financial_wallet.Schema.char_count financial_wallet.StatementRepo.from_domain_statement
    financial_wallet.Domain.Statement.is_valid_type financial_wallet.Schema.find_statement
    financial_wallet.Schema.all_linked financial_wallet.Schema.has_links
    financial_wallet.StatementRepo.insert_statement_tags
unanswered-run = refl

writes-AllOrNothing_example :
    AllOrNothing
      (create nonempty_ids unanswered 70 bonus checking day2)
      (create nonempty_ids no_faults 70 bonus checking day2)
      day2
    × AllOrNothing
        (create_batch nonempty_ids unanswered 70 (bonus ∷ fee ∷ []) checking day2)
        (create_batch nonempty_ids no_faults 70 (bonus ∷ fee ∷ []) checking day2)
        day2
    × AllOrNothing
        (update_category nonempty_ids unanswered (codes "s1") none day2)
        (update_category nonempty_ids no_faults (codes "s1") none day2)
        day2
    × AllOrNothing
        (replace_tags nonempty_ids unanswered (codes "s1") [] day2)
        (replace_tags nonempty_ids no_faults (codes "s1") [] day2)
        day2
writes-AllOrNothing_example =
    writes-AllOrNothing nonempty_ids unanswered 70 bonus (bonus ∷ fee ∷ []) checking (codes "s1")
      none [] day2
