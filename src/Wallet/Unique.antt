-- ===== src/Wallet/Unique.antt =====
-- Reversals and imported statements of a primary that any requests led to.
use financial_wallet.Prelude.{◌≤◌, List}
use financial_wallet.Text.{Text}
use financial_wallet.Domain.Labels.{Category, Tag}
use financial_wallet.Libs.{Libs}
use financial_wallet.Schema.{Db}
use financial_wallet.StatementRepo.Unique.{
  IsUnique, place_statement-IsUnique, set_category-IsUnique, reversal_count, import_count,
  reversal_count-le_one, import_count-le_one,
}
use financial_wallet.Wallet.{empty_wallet, Reach}
use financial_wallet.Wallet.Keeps.{Reach-Holds}

module _ (lib : Libs) where
  Reach-IsUnique :
      {db db' : Db} → Reach lib db db' → IsUnique db.statements → IsUnique db'.statements
  Reach-IsUnique = Reach-Holds IsUnique place_statement-IsUnique set_category-IsUnique lib

  -- Whatever requests were made of an empty wallet, in whatever order and with however stale replicas:
  -- at most one statement reverses a given statement.
  pub Reach-reversed_once :
      (users : List Text) (categories : List Category) (tags : List Tag) (primary : Db)
      (statement : Text)
      → Reach lib (empty_wallet users categories tags) primary
      → reversal_count statement primary.statements ≤ 1
  Reach-reversed_once users categories tags primary statement path =
      reversal_count-le_one statement primary.statements (Reach-IsUnique path tt)

  -- Whatever requests were made of an empty wallet, in whatever order and with however stale replicas:
  -- at most one statement of an account was imported under a given identifier of the bank.
  pub Reach-imported_once :
      (users : List Text) (categories : List Category) (tags : List Tag) (primary : Db)
      (account external : Text)
      → Reach lib (empty_wallet users categories tags) primary
      → import_count account external primary.statements ≤ 1
  Reach-imported_once users categories tags primary account external path =
      import_count-le_one account external primary.statements (Reach-IsUnique path tt)
