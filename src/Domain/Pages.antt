-- ===== src/Domain/Pages.antt =====
-- What the filters leave of a page request.
use financial_wallet.Prelude.{◌≡◌, refl, false, arith}
use financial_wallet.Prelude.Int.{pos, ltb_ℤ}
use financial_wallet.Domain.Paging.{Page, normalize_statement, normalize_account, normalize_user}

-- A page from 1 on with 1 to 100 entries.
pub record IsPage (p : Page) : Type 0 where
  pub page_from_one : ltb_ℤ p.page (pos 1) ≡ false
  pub limit_from_one : ltb_ℤ p.limit (pos 1) ≡ false
  pub limit_to_hundred : ltb_ℤ (pos 100) p.limit ≡ false

-- Whatever page and limit a request asks for, the filters of statements, accounts and users turn them
-- into a page from 1 on and a limit between 1 and 100.
pub normalize-IsPage :
    (f : Page)
    → IsPage (normalize_statement f) × IsPage (normalize_account f) × IsPage (normalize_user f)
unfolding normalize_statement normalize_account normalize_user
normalize-IsPage f = (
  record {
    page_from_one = ground arith;
    limit_from_one = ground arith;
    limit_to_hundred = ground arith;
  },
  record {
    page_from_one = ground arith;
    limit_from_one = ground arith;
    limit_to_hundred = ground arith;
  },
  record {
    page_from_one = ground arith;
    limit_from_one = ground arith;
    limit_to_hundred = ground arith;
  },
)

-- A page request that is in bounds already is left as it is by all three filters.
pub normalize_keeps :
    (f : Page)
    → IsPage f
    → (normalize_statement f ≡ f) × (normalize_account f ≡ f) × (normalize_user f ≡ f)
unfolding normalize_statement normalize_account normalize_user
normalize_keeps f h = (
  rw (h.page_from_one, h.limit_from_one, h.limit_to_hundred) refl,
  rw (h.page_from_one, h.limit_from_one, h.limit_to_hundred) refl,
  rw (h.page_from_one, h.limit_from_one, h.limit_to_hundred) refl,
)
