-- ===== src/Wallet/Invariant.antt =====
-- The balances and snapshots of a primary that any requests led to.
use financial_wallet.Prelude.{◌≡◌, ◌∙◌, ap, some, List}
use financial_wallet.Int64.{wrap}
use financial_wallet.Text.{Text}
use financial_wallet.Domain.Statement.{Time}
use financial_wallet.Domain.Labels.{Category, Tag}
use financial_wallet.Libs.{Libs}
use financial_wallet.Schema.{AccountRow, Db, Faults, find_account}
use financial_wallet.StatementRepo.Rows.{find_account-All}
use financial_wallet.StatementRepo.Ledger.{ledger_total, HasBalance, IsChained}
use financial_wallet.StatementRepo.References.{IsWallet}
use financial_wallet.Usecases.Ledger.{
  create_statement-IsWallet, reverse_statement-IsWallet, import_statements-IsWallet,
}
use financial_wallet.Wallet.{
  empty_wallet, Step, opened, changed, closed, posted, reversed, imported, categorised, tagged,
  category_added, category_changed, category_removed, tag_added, tag_changed, tag_removed, Reach,
  start, then_step,
}
use financial_wallet.Wallet.Labels.{
  update_statement_category-IsWallet, replace_statement_tags-IsWallet,
}
use financial_wallet.Wallet.LabelSteps.{
  add_category-IsWallet, change_category-IsWallet, remove_user_category-IsWallet, add_tag-IsWallet,
  change_tag-IsWallet, remove_user_tag-IsWallet,
}
use financial_wallet.Wallet.Accounts.{
  open_account-IsWallet, change_account-IsWallet, close_account-IsWallet,
}

module _ (lib : Libs) where
  Step-IsWallet :
      {f : Faults} {now : Time} {db db' : Db} → Step lib f now db db' → IsWallet db → IsWallet db'
  Step-IsWallet {f} {now} {db} (opened uuid input) h =
      open_account-IsWallet lib f now uuid input db h
  Step-IsWallet {f} {now} {db} (changed input replica) h =
      change_account-IsWallet lib f now input replica db h
  Step-IsWallet {f} {now} {db} (closed input replica) h =
      close_account-IsWallet lib f now input replica db h
  Step-IsWallet {f} {now} {db} (posted uuid input replica) h =
      create_statement-IsWallet lib f now uuid input replica db h
  Step-IsWallet {f} {now} {db} (reversed uuid input replica) h =
      reverse_statement-IsWallet lib f now uuid input replica db h
  Step-IsWallet {f} {now} {db} (imported fresh input parsed replica) h =
      import_statements-IsWallet lib f now fresh input parsed replica db h
  Step-IsWallet {f} {now} {db} (categorised input replica) h =
      update_statement_category-IsWallet lib f input replica db h
  Step-IsWallet {f} {now} {db} (tagged input replica) h =
      replace_statement_tags-IsWallet lib f input replica db h
  Step-IsWallet {f} {now} {db} (category_added uuid input) h =
      add_category-IsWallet lib f db h now uuid input
  Step-IsWallet {f} {now} {db} (category_changed input replica) h =
      change_category-IsWallet lib f db h now input replica
  Step-IsWallet {f} {now} {db} (category_removed input replica) h =
      remove_user_category-IsWallet lib f db h input replica
  Step-IsWallet {f} {now} {db} (tag_added uuid input) h = add_tag-IsWallet lib f db h now uuid input
  Step-IsWallet {f} {now} {db} (tag_changed input replica) h =
      change_tag-IsWallet lib f db h now input replica
  Step-IsWallet {f} {now} {db} (tag_removed input replica) h =
      remove_user_tag-IsWallet lib f db h input replica

  Reach-IsWallet : {db db' : Db} → Reach lib db db' → IsWallet db → IsWallet db'
  Reach-IsWallet start h = h
  Reach-IsWallet (then_step before step) h = Step-IsWallet step (Reach-IsWallet before h)

  empty_wallet-IsWallet :
      (users : List Text) (categories : List Category) (tags : List Tag)
      → IsWallet (empty_wallet users categories tags)
  empty_wallet-IsWallet users categories tags = record {
    ledger = record { balances = tt; chain = tt };
    referring = tt;
  }

  -- Whatever writing requests of the account, statement, category and tag use cases were made of an empty wallet, in
  -- whatever order, with whatever faults of the database and however stale the replica that each read:
  -- the balance that an account shows is the sum of its statements, credits counted positive and
  -- debits negative, as an int64.
  pub Reach-balance :
      (users : List Text) (categories : List Category) (tags : List Tag) (primary : Db)
      (account : Text) (row : AccountRow)
      → Reach lib (empty_wallet users categories tags) primary
      → find_account account primary.accounts ≡ some row
      → row.balance ≡ wrap (ledger_total account primary.statements)
  Reach-balance users categories tags primary account row path found =
      let h = Reach-IsWallet path (empty_wallet-IsWallet users categories tags) in
      let (held, same) =
        find_account-All (HasBalance primary.statements) account primary.accounts row
          h.ledger.balances found in
      held ∙ ap (λ k. wrap (ledger_total k primary.statements)) same

  -- After any requests of an empty wallet, every statement carries the balance that its account had
  -- when the statement was written: the int64 sum of the account's statements up to it.
  pub Reach-chain :
      (users : List Text) (categories : List Category) (tags : List Tag) (primary : Db)
      → Reach lib (empty_wallet users categories tags) primary
      → IsChained primary.statements
  Reach-chain users categories tags primary path =
      (Reach-IsWallet path (empty_wallet-IsWallet users categories tags)).ledger.chain
