-- ===== src/Domain/Paging.antt =====
-- The page filters of internal/domain/statement/filter.go and its siblings, and the number of
-- pages that the list use cases report. Page numbers and limits are Go ints.
use financial_wallet.Prelude.{◌||◌, if◌then◌else◌}
use financial_wallet.Prelude.Int.{ℤ, pos, ◌*ℤ◌, ltb_ℤ}
use financial_wallet.Int64.{wrap, sub64}

-- The fields of a ListFilter that paging uses.
pub record Page : Type 0 where
  pub page : ℤ
  pub limit : ℤ

abbrev clamp_page : ℤ → ℤ
clamp_page p = if ltb_ℤ p (pos 1) then pos 1 else p

-- `Normalize` of statement and account filters, which differ in the default.
clamp_limit : ℤ → ℤ → ℤ
clamp_limit default limit =
    let limit' = if ltb_ℤ limit (pos 1) then default else limit in
    if ltb_ℤ (pos 100) limit' then pos 100 else limit'

unfoldable pub normalize_statement : Page → Page
unfolding clamp_limit
normalize_statement f = record { page = clamp_page f.page; limit = clamp_limit (pos 20) f.limit }

unfoldable pub normalize_account : Page → Page
unfolding clamp_limit
normalize_account f = record { page = clamp_page f.page; limit = clamp_limit (pos 10) f.limit }

-- `Normalize` of user and role filters: a limit out of range becomes the default.
unfoldable pub normalize_user : Page → Page
normalize_user f = record {
  page = clamp_page f.page;
  limit = if ltb_ℤ f.limit (pos 1) || ltb_ℤ (pos 100) f.limit then pos 20 else f.limit;
}

-- `Offset`, with the wrap-around of its product.
unfoldable pub offset : Page → ℤ
offset f = wrap (sub64 f.page (pos 1) *ℤ f.limit)
