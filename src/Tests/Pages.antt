-- ===== src/Tests/Pages.antt =====
-- Pages and repeated tags at concrete inputs.
use financial_wallet.Prelude.{◌≡◌, refl, List, [], ◌∷◌}
use financial_wallet.Prelude.Int.{pos, negsuc}
use financial_wallet.Text.{Text, codes, contains}
use financial_wallet.Domain.Paging.{Page, normalize_statement, normalize_account, normalize_user}
use financial_wallet.Domain.Pages.{IsPage, normalize-IsPage, normalize_keeps}
use financial_wallet.Usecases.Metadata.{dedup_tag_ids}
use financial_wallet.Usecases.Dedup.{IsDistinct, dedup_tag_ids-IsDistinct}

abbrev far : Page
far = record { page = negsuc 3; limit = pos 500 }

abbrev third : Page
third = record { page = pos 3; limit = pos 50 }

normalize-IsPage_example :
    IsPage (normalize_statement far) × IsPage (normalize_account far) × IsPage (normalize_user far)
normalize-IsPage_example = normalize-IsPage far

normalize_keeps_example :
    (normalize_statement third ≡ third)
    × (normalize_account third ≡ third)
    × (normalize_user third ≡ third)
normalize_keeps_example =
    normalize_keeps third
      (record { page_from_one = refl; limit_from_one = refl; limit_to_hundred = refl })

abbrev repeated : List Text
repeated = codes "t1" ∷ codes "t2" ∷ codes "t1" ∷ []

dedup_tag_ids-IsDistinct_example :
    IsDistinct (dedup_tag_ids repeated)
    × (contains (codes "t2") (dedup_tag_ids repeated) ≡ contains (codes "t2") repeated)
dedup_tag_ids-IsDistinct_example = dedup_tag_ids-IsDistinct repeated (codes "t2")
