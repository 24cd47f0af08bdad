-- ===== src/Tests/Labels.antt =====
-- Requests about categories and tags.
use financial_wallet.Prelude.{◌≡◌, refl, []}
use financial_wallet.Text.{codes}
use financial_wallet.Result.{Error, ok, err, category_read_only, tag_not_found}
use financial_wallet.Schema.{Db, no_faults}
use financial_wallet.LabelUsecases.{
  RenameInput, DeleteLabelInput, change_category, remove_user_category, change_tag, remove_user_tag,
}
use financial_wallet.LabelUsecases.Guards.{
  category-guarded, tag-guarded, remove_user_category-in_use, remove_user_tag-TagGone, TagGone,
}
use financial_wallet.Domain.Labels.{estorno_debit_id}
use financial_wallet.Wallet.{then_step, tag_removed}
use financial_wallet.Wallet.Writes.{Writes}
use financial_wallet.Wallet.References.{IsIntegral}
use financial_wallet.Wallet.Integrity.{Reach-IsIntegral}
use financial_wallet.Tests.{
  nonempty_ids, alice, bob, estorno_debit, lunch, two_users, three_categories, one_tag, day0, day1,
  day3, day4,
}
use financial_wallet.Tests.Ledger.{four_days}

abbrev renamed : RenameInput
renamed = record { id = estorno_debit_id; user_id = alice; name = codes "Refunds" }

abbrev estorno_gone : DeleteLabelInput
estorno_gone = record { id = estorno_debit_id; user_id = alice }

category-guarded_example :
    (change_category nonempty_ids no_faults 50 renamed day1 day3 ≡ (err category_read_only, day3))
    × (remove_user_category nonempty_ids no_faults estorno_gone day1 day3
        ≡ (err category_read_only, day3))
unfolding financial_wallet.Text.trim_space financial_wallet.Readers.find_category_by_id
    financial_wallet.Schema.find_category financial_wallet.Text.text_eq
    financial_wallet.Ids.parse_id financial_wallet.Ids.parse_optional_id
    financial_wallet.Domain.Labels.is_system_category
category-guarded_example =
    category-guarded nonempty_ids no_faults 50 estorno_debit_id alice (codes "Refunds") day1 day3
      estorno_debit refl refl refl refl refl

abbrev lunch_renamed : RenameInput
lunch_renamed = record { id = codes "lunch"; user_id = bob; name = codes "dinner" }

abbrev lunch_gone_by_bob : DeleteLabelInput
lunch_gone_by_bob = record { id = codes "lunch"; user_id = bob }

tag-guarded_example :
    (change_tag nonempty_ids no_faults 50 lunch_renamed day1 day3 ≡ (err tag_not_found, day3))
    × (remove_user_tag nonempty_ids no_faults lunch_gone_by_bob day1 day3
        ≡ (err tag_not_found, day3))
unfolding financial_wallet.Text.trim_space financial_wallet.Readers.find_tag_by_id
    financial_wallet.Schema.find_tag financial_wallet.Text.text_eq financial_wallet.Ids.parse_id
    financial_wallet.Ids.parse_optional_id financial_wallet.Domain.Labels.is_system_tag
tag-guarded_example =
    tag-guarded nonempty_ids no_faults 50 (codes "lunch") bob (codes "dinner") day1 day3 lunch refl
      refl refl refl refl

abbrev food_gone : DeleteLabelInput
food_gone = record { id = codes "food"; user_id = alice }

-- The replica has not seen the meal yet.
remove_user_category-in_use_example :
    (e : Error) × (remove_user_category nonempty_ids no_faults food_gone day0 day3 ≡ (err e, day3))
unfolding financial_wallet.StatementRepo.Labels.count_category financial_wallet.Text.text_eq
remove_user_category-in_use_example =
    remove_user_category-in_use nonempty_ids no_faults food_gone day0 day3 refl

abbrev lunch_gone : DeleteLabelInput
lunch_gone = record { id = codes "lunch"; user_id = alice }

abbrev day5 : Db
day5 = record day4 { tags = []; statement_tags = [] }

lunch-run : remove_user_tag nonempty_ids no_faults lunch_gone day1 day4 ≡ (ok tt, day5)
unfolding remove_user_tag financial_wallet.Ids.parse_id financial_wallet.Readers.find_tag_by_id
    financial_wallet.Schema.find_tag financial_wallet.Text.text_eq
    financial_wallet.Ids.parse_optional_id financial_wallet.Domain.Labels.is_system_tag
    financial_wallet.LabelRepo.Methods.delete_tag financial_wallet.LabelRepo.delete_tag_row
    financial_wallet.LabelRepo.cascade_tag financial_wallet.LabelRepo.remove_tag
lunch-run = refl

remove_user_tag-TagGone_example : TagGone (codes "lunch") day4 day5
remove_user_tag-TagGone_example =
    remove_user_tag-TagGone nonempty_ids no_faults lunch_gone day1 day4 day5 lunch-run

Reach-IsIntegral_example :
    IsIntegral (remove_user_tag nonempty_ids no_faults lunch_gone day1 day4).1
Reach-IsIntegral_example =
    Reach-IsIntegral nonempty_ids two_users three_categories one_tag
      (remove_user_tag nonempty_ids no_faults lunch_gone day1 day4).1
      (then_step {f = no_faults} {now = 50} four_days (tag_removed lunch_gone day1))
