-- ===== src/Tests/Idempotency.antt =====
-- A payment that is sent more than once with its Idempotency-Key.
use financial_wallet.Prelude.{ℕ, suc, ◌≡◌, ◌≤◌, refl, true, some, List, [], arith}
use financial_wallet.Text.{Text, codes}
use financial_wallet.Idempotency.{
  Settings, Request, Response, Cell, no_store_faults, mismatch_response, build_key, admit, serve,
}
use financial_wallet.Idempotency.Replay.{
  IsKeyed, after_first, serve-replayed, serve-mismatch, serve-retried,
}
use financial_wallet.Idempotency.System.{
  System, holder_count, joined, Reach, idle, then_step, arrived,
}
use financial_wallet.Idempotency.Locks.{Reach-holder_count}

-- A lock of 30 seconds, entries of a day, and a body as its own digest.
abbrev defaults : Settings
defaults = record { ttl = 86400; lock_ttl = 30; digest = λ s. s }

abbrev payment : Request
payment = record {
  is_post = true;
  key = codes "k1";
  service = codes "web";
  body = some (codes "100");
}

abbrev other_payment : Request
other_payment = record payment { body = some (codes "900") }

abbrev payment_key : Text
payment_key = build_key (codes "web") (codes "k1")

payment-IsKeyed : IsKeyed payment (codes "100")
payment-IsKeyed = record { post = refl; named = refl; read = refl }

other_payment-IsKeyed : IsKeyed other_payment (codes "900")
other_payment-IsKeyed = record { post = refl; named = refl; read = refl }

-- Handlers that count the payments they make, one that creates and one that fails.
abbrev creates : ℕ → Response × ℕ
creates n = (record { status_code = 201; body = codes "paid" }, suc n)

abbrev fails : ℕ → Response × ℕ
fails n = (record { status_code = 503; body = [] }, n)

abbrev paid_cells : List Cell
paid_cells = after_first defaults creates [] 0 payment (codes "100") 10 10 12

abbrev failed_cells : List Cell
failed_cells = after_first defaults fails [] 0 payment (codes "100") 10 10 12

serve-replayed_example :
    serve defaults no_store_faults 60 60 60 payment creates paid_cells 1
    ≡ (record { status_code = 201; body = codes "paid" }, paid_cells, 1)
unfolding financial_wallet.Idempotency.lookup financial_wallet.Idempotency.should_store
serve-replayed_example =
    serve-replayed defaults creates [] 0 payment (codes "100") 10 10 12 creates 1 60 60 60
      payment-IsKeyed refl refl (omega arith) (omega arith)

serve-mismatch_example :
    serve defaults no_store_faults 60 60 60 other_payment creates paid_cells 1
    ≡ (mismatch_response, paid_cells, 1)
unfolding financial_wallet.Text.text_eq financial_wallet.Idempotency.lookup
    financial_wallet.Idempotency.should_store
serve-mismatch_example =
    serve-mismatch defaults creates [] 0 payment (codes "100") 10 10 12 creates 1 60 60 60
      other_payment (codes "900") payment-IsKeyed other_payment-IsKeyed refl refl refl refl refl
      (omega arith) (omega arith)

serve-retried_example :
    ((serve defaults no_store_faults 20 20 22 payment creates failed_cells 0).0
      ≡ record { status_code = 201; body = codes "paid" })
    × ((serve defaults no_store_faults 20 20 22 payment creates failed_cells 0).2 ≡ 1)
unfolding financial_wallet.Idempotency.lookup financial_wallet.Idempotency.should_store
serve-retried_example =
    serve-retried defaults fails [] 0 payment (codes "100") 10 10 12 creates 0 20 20 22
      payment-IsKeyed refl refl

-- The same payment comes again while its handler runs.
abbrev one_runs : System
one_runs = joined 40 (admit defaults no_store_faults 10 10 payment []) []

abbrev sent_again : System
sent_again =
    joined 45 (admit defaults no_store_faults 15 15 payment one_runs.cells) one_runs.holders

sent_again-Reach : Reach defaults sent_again
unfolding joined admit financial_wallet.Idempotency.admit_key financial_wallet.Idempotency.lookup
sent_again-Reach =
    then_step (then_step (idle []) (arrived no_store_faults 10 10 payment tt))
      (arrived no_store_faults 15 15 payment (omega arith, tt))

Reach-holder_count_example : holder_count payment_key sent_again.holders ≤ 1
Reach-holder_count_example = Reach-holder_count defaults sent_again payment_key sent_again-Reach
