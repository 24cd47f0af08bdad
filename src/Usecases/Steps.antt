-- ===== src/Usecases/Steps.antt =====
-- The checks that a request went through when Create, Reverse or Import came to its write.
use mathlib.Core.Path.{subst}
use financial_wallet.Prelude.{
  ◌≡◌, ◌∙◌, refl, sym, ap, inl, inr, Bool-cases, Bool, true, false, not, Option, List, ℕ,
}
use financial_wallet.Prelude.Int.{ℤ}
use financial_wallet.Text.{Text, text_eq, text_eq_iff}
use financial_wallet.Result.{
  Error, Result, ok, ok-injective, ◌>>=◌, ◌>>◌, >>=-eq-ok, fail_if, account_not_active,
  statement_not_found, already_reversed,
}
use financial_wallet.Domain.Statement.{
  Time, Statement, new_statement, new_statement_type, new_amount,
}
use financial_wallet.Domain.Account.{Account}
use financial_wallet.Domain.Labels.{Category, Tag}
use financial_wallet.Libs.{Libs}
use financial_wallet.Ids.{parse_id}
use financial_wallet.Schema.{Db, Faults}
use financial_wallet.StatementRepo.{has_reversal, find_external_ids}
use financial_wallet.StatementRepo.Reads.{find_by_id}
use financial_wallet.Readers.{find_account_by_id}
use financial_wallet.Usecases.Metadata.{
  is_foreign, find_owned_account, resolve_category, resolve_tags, apply_metadata_to_statement,
}
use financial_wallet.Usecases.Create.{CreateInput, post_at, parse_posted_at, build_statement}
use financial_wallet.Usecases.Reverse.{ReverseInput, new_reversal, build_reversal}
use financial_wallet.Usecases.Import.{
  Transaction, ImportInput, filter_transactions, collect_fitids, build_import,
}

-- ParseID gives its text back, so the rest of a chain runs on the text itself.
pub parse_id-bind :
    {B : Type 0} (lib : Libs) (raw : Text) (k : Text → Result B) {b : B}
    → (parse_id lib raw >>= k) ≡ ok b
    → (lib.uuid_parses raw ≡ true) × (k raw ≡ ok b)
unfolding parse_id
parse_id-bind lib raw k h = elim (Bool-cases (lib.uuid_parses raw)) [
  | inl good ↦ (good, rw good at h)
  | inr bad ↦ cc (rw bad at h)
]

pub not-eq_false : (b : Bool) → not b ≡ false → b ≡ true
not-eq_false true h = refl
not-eq_false false h = cc

pub fail_if-bind :
    {B : Type 0} (b : Bool) (e : Error) (m : Result B) {x : B}
    → (fail_if b e >> m) ≡ ok x
    → (b ≡ false) × (m ≡ ok x)
fail_if-bind true e m h = cc
fail_if-bind false e m h = (refl, h)

module _ (lib : Libs) (f : Faults) where
  -- The account was found, and the requester may act on it.
  pub record IsOwned (id requesting : Text) (db : Db) (account : Account) : Type 0 where
    pub found : find_account_by_id lib f id db ≡ ok account
    pub allowed : is_foreign requesting account.user_id ≡ false

  pub find_owned_account-eq_ok :
      (id requesting : Text) (db : Db) (account : Account)
      → find_owned_account lib f id requesting db ≡ ok account
      → IsOwned id requesting db account
  unfolding find_owned_account
  find_owned_account-eq_ok id requesting db account h =
      let (a, e, h1) = >>=-eq-ok (find_account_by_id lib f id db) _ h in
      let (allowed, h2) = fail_if-bind (is_foreign requesting a.user_id) statement_not_found _ h1 in
      let same = ok-injective h2 in record { found = e ∙ ap ok same; allowed = rw (← same) allowed }

  pub record Created (now : Time) (uuid : Text) (input : CreateInput) (db : Db) (s : Statement)
      : Type 0 where
    pub account : Account
    pub type : Text
    pub amount : ℤ
    pub posted_at : Time
    pub cat : Option Category
    pub tags : List Tag
    pub owned : IsOwned input.account_id input.requesting_user_id db account
    pub active : account.active ≡ true
    pub typed : new_statement_type input.type ≡ ok type
    pub positive : new_amount input.amount ≡ ok amount
    pub categorised : resolve_category lib f input.category_id account.user_id type db ≡ ok cat
    pub tagged : resolve_tags lib f input.tag_ids account.user_id db ≡ ok tags
    pub made :
        s
        ≡ apply_metadata_to_statement cat tags (
            post_at posted_at
              (new_statement uuid now input.account_id type amount input.description))

  pub build_statement-eq_ok :
      (now : Time) (uuid : Text) (input : CreateInput) (db : Db) (s : Statement)
      → build_statement lib f now uuid input db ≡ ok s
      → Created now uuid input db s
  unfolding build_statement
  build_statement-eq_ok now uuid input db s h =
      let (parsed, h1) = parse_id-bind lib input.account_id _ h in
      let (account, e2, h2) =
        >>=-eq-ok (find_owned_account lib f input.account_id input.requesting_user_id db) _ h1 in
      let (e3, h3) = fail_if-bind (not account.active) account_not_active _ h2 in
      let (type, e4, h4) = >>=-eq-ok (new_statement_type input.type) _ h3 in
      let (amount, e5, h5) = >>=-eq-ok (new_amount input.amount) _ h4 in
      let (posted_at, _, h6) = >>=-eq-ok (parse_posted_at lib input.posted_at) _ h5 in
      let (cat, e7, h7) =
        >>=-eq-ok (resolve_category lib f input.category_id account.user_id type db) _ h6 in
      let (tags, e8, h8) = >>=-eq-ok (resolve_tags lib f input.tag_ids account.user_id db) _ h7 in
      record {
        account = account;
        type = type;
        amount = amount;
        posted_at = posted_at;
        cat = cat;
        tags = tags;
        owned = find_owned_account-eq_ok input.account_id input.requesting_user_id db account e2;
        active = not-eq_false account.active e3;
        typed = e4;
        positive = e5;
        categorised = e7;
        tagged = e8;
        made = sym (ok-injective h8);
      }

  pub record Reversed (now : Time) (uuid : Text) (input : ReverseInput) (replica primary : Db)
      (s : Statement) : Type 0 where
    pub account : Account
    pub original : Statement
    pub owned : IsOwned input.account_id input.requesting_user_id replica account
    pub active : account.active ≡ true
    pub found : find_by_id lib f input.statement_id replica ≡ ok original
    pub own : original.account_id ≡ input.account_id
    pub unreversed : has_reversal lib f input.statement_id primary ≡ ok false
    pub made : s ≡ new_reversal now uuid input original

  pub build_reversal-eq_ok :
      (now : Time) (uuid : Text) (input : ReverseInput) (replica primary : Db) (s : Statement)
      → build_reversal lib f now uuid input replica primary ≡ ok s
      → Reversed now uuid input replica primary s
  unfolding build_reversal
  build_reversal-eq_ok now uuid input replica primary s h =
      let (_, h0) = parse_id-bind lib input.statement_id _ h in
      let (_, h1) = parse_id-bind lib input.account_id _ h0 in
      let (account, e2, h2) =
        >>=-eq-ok (find_owned_account lib f input.account_id input.requesting_user_id replica) _
          h1 in
      let (e3, h3) = fail_if-bind (not account.active) account_not_active _ h2 in
      let (original, e4, h4) = >>=-eq-ok (find_by_id lib f input.statement_id replica) _ h3 in
      let (e5, h5) =
        fail_if-bind (not (text_eq original.account_id input.account_id)) statement_not_found _
          h4 in
      let (reversed, e6, h6) = >>=-eq-ok (has_reversal lib f input.statement_id primary) _ h5 in
      let (e7, h7) = fail_if-bind reversed already_reversed _ h6 in
      record {
        account = account;
        original = original;
        owned =
            find_owned_account-eq_ok input.account_id input.requesting_user_id replica account e2;
        active = not-eq_false account.active e3;
        found = e4;
        own = (text_eq_iff original.account_id input.account_id).0 (not-eq_false _ e5);
        unreversed = e6 ∙ ap ok e7;
        made = sym (ok-injective h7);
      }

  pub record Imported (now : Time) (fresh : ℕ → Text) (input : ImportInput)
      (parsed : Result (List Transaction)) (replica primary : Db) (txns : List Transaction)
      (stmts : List Statement) (skipped : ℕ) : Type 0 where
    pub account : Account
    pub existing : List Text
    pub owned : IsOwned input.account_id input.requesting_user_id replica account
    pub file : parsed ≡ ok txns
    pub known : find_external_ids lib f input.account_id (collect_fitids txns) primary ≡ ok existing
    pub filtered :
        filter_transactions now fresh input.account_id existing txns ≡ ok (stmts, skipped)

  pub build_import-eq_ok :
      (now : Time) (fresh : ℕ → Text) (input : ImportInput) (parsed : Result (List Transaction))
      (replica primary : Db) (txns : List Transaction) (stmts : List Statement) (skipped : ℕ)
      → build_import lib f now fresh input parsed replica primary ≡ ok (txns, stmts, skipped)
      → Imported now fresh input parsed replica primary txns stmts skipped
  unfolding build_import
  build_import-eq_ok now fresh input parsed replica primary txns stmts skipped h =
      let (_, h1) = parse_id-bind lib input.account_id _ h in
      let (account, e2, h2) =
        >>=-eq-ok (find_owned_account lib f input.account_id input.requesting_user_id replica) _
          h1 in
      let (e3, h3) = fail_if-bind (not account.active) account_not_active _ h2 in
      let (txns', e4, h4) = >>=-eq-ok parsed _ h3 in
      let (existing, e5, h5) =
        >>=-eq-ok (find_external_ids lib f input.account_id (collect_fitids txns') primary) _ h4 in
      let (result, e6, h6) =
        >>=-eq-ok (filter_transactions now fresh input.account_id existing txns') _ h5 in
      let same : txns' ≡ txns = ap (λ r. r.0) (ok-injective h6) in
      record {
        account = account;
        existing = existing;
        owned =
            find_owned_account-eq_ok input.account_id input.requesting_user_id replica account e2;
        file = e4 ∙ ap ok same;
        known =
            subst
              (λ ts.
                find_external_ids lib f input.account_id (collect_fitids ts) primary ≡ ok existing)
              same e5;
        filtered =
            subst
              (λ ts.
                filter_transactions now fresh input.account_id existing ts ≡ ok (stmts, skipped))
              same
              (e6
                ∙ ap (λ (r : List Transaction × List Statement × ℕ). ok (r.1, r.2))
                    (ok-injective h6));
      }
