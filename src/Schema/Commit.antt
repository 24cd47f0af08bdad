-- ===== src/Schema/Commit.antt =====
-- What a transaction of a repository leaves, whether or not the answer to its commit arrives.
use financial_wallet.Prelude.{◌≡◌, refl, Bool, true, false}
use financial_wallet.Result.{Result, ok, err}
use financial_wallet.Schema.{Db, transaction}

-- What the body leaves and a rollback leaves, a transaction leaves.
pub transaction-keeps :
    {A : Type 0} (P : Db → Type 0) (lost : Bool) (r : Result (A × Db)) (db : Db)
    → ((x : A) (db' : Db) → r ≡ ok (x, db') → P db')
    → P db
    → P (transaction lost r db).1
transaction-keeps P true (ok (x, db')) db commits h = commits x db' refl
transaction-keeps P false (ok (x, db')) db commits h = commits x db' refl
transaction-keeps P lost (err e) db commits h = h

-- A transaction that reports success has committed its body.
pub transaction-eq_ok :
    {A : Type 0} (lost : Bool) (r : Result (A × Db)) (db : Db) {a : A} {after : Db}
    → transaction lost r db ≡ (ok a, after)
    → r ≡ ok (a, after)
transaction-eq_ok true (ok (x, db')) db h = cc
transaction-eq_ok false (ok (x, db')) db h = cc
transaction-eq_ok lost (err e) db h = cc
