-- ===== src/Usecases/Output.antt =====
-- What the statement use cases give back: toOutput of create.go, and a pure check before a write.
use financial_wallet.Prelude.{Option, List}
use financial_wallet.Prelude.Int.{ℤ}
use financial_wallet.Text.{Text}
use financial_wallet.Result.{Result, ok, err}
use financial_wallet.Domain.Statement.{Time, TagRef, CategoryRef, Statement, set_balance_after}
use financial_wallet.Schema.{Db}

pub record StatementOutput : Type 0 where
  pub id : Text
  pub account_id : Text
  pub type : Text
  pub amount : ℤ
  pub description : Text
  pub reference_id : Option Text
  pub external_id : Option Text
  pub balance_after : ℤ
  pub posted_at : Time
  pub created_at : Time
  pub category : Option CategoryRef
  pub tags : List TagRef

unfoldable pub to_output : Statement → StatementOutput
to_output s = record {
  id = s.id;
  account_id = s.account_id;
  type = s.type;
  amount = s.amount;
  description = s.description;
  reference_id = s.reference_id;
  external_id = s.external_id;
  balance_after = s.balance_after;
  posted_at = s.posted_at;
  created_at = s.created_at;
  category = s.category;
  tags = s.tags;
}

-- The reads and checks that come before a write: if one fails nothing is written.
abbrev pub attempt {ℓ κ} :
    {A : Type ℓ} {B : Type κ} → Result A → (A → Result B × Db) → Db → Result B × Db
attempt (ok a) write db = write a
attempt (err e) write db = (err e, db)

-- The output after the statement was persisted with its balance.
abbrev pub persisted : Statement → Result ℤ × Db → Result StatementOutput × Db
persisted s (ok balance, db) = (ok (to_output (set_balance_after balance s)), db)
persisted s (err e, db) = (err e, db)
