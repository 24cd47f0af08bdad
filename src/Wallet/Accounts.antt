-- ===== src/Wallet/Accounts.antt =====
-- The use cases of internal/usecases/account that write, and the wallet of the primary.
use mathlib.Core.Path.{subst}
use financial_wallet.Prelude.{
  ◌||◌, ◌≡◌, refl, sym, ap, ◌∙◌, inl, inr, true, false, Option, none, some, ◌∷◌, arith,
}
use financial_wallet.Prelude.Int.{ℤ, pos}
use financial_wallet.Int64.{wrap}
use financial_wallet.Text.{Text}
use financial_wallet.Result.{Result, ok, err, ok-injective, >>=-eq-ok, Result-cases, Violation}
use financial_wallet.Domain.Statement.{Time}
use financial_wallet.Domain.Account.{Account, new_account, resolve_credit_limit, new_account_type}
use financial_wallet.Libs.{Libs}
use financial_wallet.Schema.Commit.{transaction-keeps}
use financial_wallet.Schema.{AccountRow, Db, Faults, find_account}
use financial_wallet.AccountRepo.{
  account_violation, insert_account, modify_account, updated, deactivated, check_row, active_row,
  from_domain_account, create_account, create_account_tx, update_account, update_account_tx,
  delete_account, delete_account_tx,
}
use financial_wallet.AccountRepo.Frame.{has_account, modify_account-balances, has_account-modify}
use financial_wallet.StatementRepo.References.{IsWallet, AreReferring-mono, ledger_total-unknown}
use financial_wallet.Usecases.Steps.{fail_if-bind, parse_id-bind}
use financial_wallet.Accounts.{
  CreateAccountInput, UpdateAccountInput, DeleteAccountInput, open_account, change_account,
  close_account, build_account, build_update, authorise_delete, after_write,
}

pub after_write-db : (a : Account) (r : Result (Unit {0}) × Db) → (after_write a r).1 ≡ r.1
after_write-db a (ok x, db) = refl
after_write-db a (err e, db) = refl

-- A row that is accepted has an id that no account has.
account_violation-fresh :
    (db : Db) (row : AccountRow)
    → account_violation db row ≡ none
    → has_account row.id db.accounts ≡ false
unfolding account_violation
account_violation-fresh db row h = ground arith

pub insert_account-eq_ok :
    (v : Option Violation) (row : AccountRow) (db db' : Db) (x : Unit {0})
    → insert_account v row db ≡ ok (x, db')
    → (v ≡ none) × (record db { accounts = row ∷ db.accounts } ≡ db')
insert_account-eq_ok none row db db' x h = (refl, ap (λ p. p.1) (ok-injective h))
insert_account-eq_ok (some v) row db db' x h = cc

pub has_account-more :
    (row : AccountRow) (db : Db) (k : Text)
    → has_account k db.accounts ≡ true
    → has_account k (row ∷ db.accounts) ≡ true
unfolding find_account
has_account-more row db k h = ground arith

insert-IsWallet :
    (row : AccountRow) (db : Db)
    → row.balance ≡ pos 0
    → has_account row.id db.accounts ≡ false
    → IsWallet db
    → IsWallet (record db { accounts = row ∷ db.accounts })
unfolding wrap
insert-IsWallet row db empty fresh h = record {
  ledger = record {
    balances = (
      empty
          ∙ sym (ap wrap (ledger_total-unknown row.id db.accounts db.statements fresh h.referring)),
      h.ledger.balances,
    );
    chain = h.ledger.chain;
  };
  referring =
      AreReferring-mono db.accounts (row ∷ db.accounts) db.statements (has_account-more row db)
        h.referring;
}

modify-IsWallet :
    (id : Text) (change : AccountRow → AccountRow) (db : Db)
    → ((row : AccountRow) → (change row).id ≡ row.id)
    → ((row : AccountRow) → (change row).balance ≡ row.balance)
    → IsWallet db
    → IsWallet (record db { accounts = modify_account id change db.accounts })
modify-IsWallet id change db same_id same_balance h = record {
  ledger = record {
    balances =
        modify_account-balances id change same_id same_balance db.statements db.accounts
          h.ledger.balances;
    chain = h.ledger.chain;
  };
  referring =
      AreReferring-mono db.accounts (modify_account id change db.accounts) db.statements
        (λ k e. has_account-modify id change same_id k db.accounts ∙ e) h.referring;
}

new_account-balance :
    (uuid : Text) (now : Time) (user_id name type description : Text) (limit : Option ℤ)
    (a : Account)
    → new_account uuid now user_id name type description limit ≡ ok a
    → a.balance ≡ pos 0
unfolding new_account
new_account-balance uuid now user_id name type description limit a h =
    let (credit_limit, _, made) = >>=-eq-ok (resolve_credit_limit type limit) _ h in
    sym (ap (λ (b : Account). b.balance) (ok-injective made))

module _ (lib : Libs) (f : Faults) (now : Time) where
  create_account_tx-IsWallet :
      (a : Account) (db db' : Db) (x : Unit {0})
      → a.balance ≡ pos 0
      → IsWallet db
      → create_account_tx lib f a db ≡ ok (x, db')
      → IsWallet db'
  unfolding create_account_tx from_domain_account
  create_account_tx-IsWallet a db db' x empty h e =
      let (_, e1) = fail_if-bind f.insert _ _ e in
      let (accepted, same) =
        insert_account-eq_ok (account_violation db (from_domain_account lib a))
          (from_domain_account lib a) db db' x e1 in
      subst IsWallet same (
        insert-IsWallet (from_domain_account lib a) db empty
          (account_violation-fresh db (from_domain_account lib a) accepted) h)

  -- account.CreateUseCase keeps the wallet.
  pub open_account-IsWallet :
      (uuid : Text) (input : CreateAccountInput) (db : Db)
      → IsWallet db
      → IsWallet (open_account lib f now uuid input db).1
  unfolding open_account create_account build_account
  open_account-IsWallet uuid input db h = elim (Result-cases (build_account lib now uuid input)) [
    | inl (e, refused) ↦ rw refused h
    | inr (a, built) ↦
        let (_, b1) = parse_id-bind lib input.user_id _ built in
        let (type, _, b2) = >>=-eq-ok (new_account_type input.type) _ b1 in
        rw (built, after_write-db)
          (transaction-keeps IsWallet f.acknowledge (create_account_tx lib f a db) db
            (λ x db' e.
              create_account_tx-IsWallet a db db' x
                (new_account-balance uuid now input.user_id input.name type input.description
                  input.credit_limit a b2)
                h e)
            h)
  ]

  update_account_tx-IsWallet :
      (a : Account) (db db' : Db) (x : Unit {0})
      → IsWallet db
      → update_account_tx lib f a db ≡ ok (x, db')
      → IsWallet db'
  unfolding update_account_tx
  update_account_tx-IsWallet a db db' x h e =
      let (_, e1) = fail_if-bind _ _ _ e in
      let (row, _, e2) =
        >>=-eq-ok (check_row (find_account (lib.uuid_text a.id) db.accounts) a.credit_limit) _ e1 in
      subst IsWallet (ap (λ p. p.1) (ok-injective e2))
        (modify-IsWallet (lib.uuid_text a.id) (updated a) db (λ row. refl) (λ row. refl) h)

  -- account.UpdateUseCase keeps the wallet.
  pub change_account-IsWallet :
      (input : UpdateAccountInput) (replica db : Db)
      → IsWallet db
      → IsWallet (change_account lib f now input replica db).1
  unfolding change_account update_account
  change_account-IsWallet input replica db h =
      elim (Result-cases (build_update lib f now input replica)) [
        | inl (e, refused) ↦ rw refused h
        | inr (a, built) ↦
            rw (built, after_write-db)
              (transaction-keeps IsWallet (f.acknowledge || f.rows_affected)
                (update_account_tx lib f a db) db
                (λ x db' e. update_account_tx-IsWallet a db db' x h e) h)
      ]

  delete_account_tx-IsWallet :
      (id : Text) (db db' : Db) (x : Unit {0})
      → IsWallet db
      → delete_account_tx lib f now id db ≡ ok (x, db')
      → IsWallet db'
  unfolding delete_account_tx
  delete_account_tx-IsWallet id db db' x h e =
      let (_, e1) = fail_if-bind _ _ _ e in
      let (row, _, e2) =
        >>=-eq-ok (active_row (find_account (lib.uuid_text id) db.accounts)) _ e1 in
      subst IsWallet (ap (λ p. p.1) (ok-injective e2))
        (modify-IsWallet (lib.uuid_text id) (deactivated now) db (λ row. refl) (λ row. refl) h)

  -- account.DeleteUseCase keeps the wallet.
  pub close_account-IsWallet :
      (input : DeleteAccountInput) (replica db : Db)
      → IsWallet db
      → IsWallet (close_account lib f now input replica db).1
  unfolding close_account delete_account
  close_account-IsWallet input replica db h =
      elim (Result-cases (authorise_delete lib f input replica)) [
        | inl (e, refused) ↦ rw refused h
        | inr (id, built) ↦ rw built (
            transaction-keeps IsWallet (f.acknowledge || f.rows_affected)
              (delete_account_tx lib f now id db) db
              (λ x db' e. delete_account_tx-IsWallet id db db' x h e) h)
      ]
