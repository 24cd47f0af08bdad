-- ===== src/Idempotency/System.antt =====
-- Requests with Idempotency-Keys that come while the handlers of others run, as steps.
use financial_wallet.Prelude.{
  ◌≡◌, ℕ, suc, ◌+◌, ◌<◌, Bool, true, false, ◌||◌, List, [], ◌∷◌, if◌then◌else◌,
}
use financial_wallet.Text.{Text, text_eq}
use financial_wallet.Idempotency.{
  Settings, StoreFaults, Request, Response, Cell, Admission, passed, locked, replayed, conflict,
  mismatch, admit, settle,
}

-- A handler that runs under the lock of a key, and the time at which the lock expires.
pub record Holder : Type 0 where
  pub key : Text
  pub fingerprint : Text
  pub deadline : ℕ

pub record System : Type 0 where
  pub cells : List Cell
  pub holders : List Holder

unfoldable pub holds : Text → List Holder → Bool
holds key [] = false
holds key (h ∷ hs) = text_eq h.key key || holds key hs

unfoldable pub holder_count : Text → List Holder → ℕ
holder_count key [] = 0
holder_count key (h ∷ hs) =
    let rest = holder_count key hs in if text_eq h.key key then suc rest else rest

unfoldable pub leave : Text → List Holder → List Holder
leave key [] = []
leave key (h ∷ hs) = let rest = leave key hs in if text_eq h.key key then rest else h ∷ rest

-- No lock has expired while its handler runs.
abbrev pub AllAlive : ℕ → List Holder → Type 0
AllAlive now [] = Unit
AllAlive now (h ∷ hs) = (now < h.deadline) × AllAlive now hs

-- The handler of an admitted request begins to run.
unfoldable pub joined : ℕ → Admission × List Cell → List Holder → System
joined deadline (passed, cells) hs = record { cells = cells; holders = hs }
joined deadline (locked key fingerprint, cells) hs = record {
  cells = cells;
  holders = record { key = key; fingerprint = fingerprint; deadline = deadline } ∷ hs;
}
joined deadline (replayed r, cells) hs = record { cells = cells; holders = hs }
joined deadline (conflict, cells) hs = record { cells = cells; holders = hs }
joined deadline (mismatch, cells) hs = record { cells = cells; holders = hs }

-- A request comes, or a handler that holds a lock ends with any response.
pub data Step (settings : Settings) : System → System → Type 0 where
  arrived :
      (f : StoreFaults) (now later : ℕ) (r : Request) {s : System}
      → AllAlive now s.holders
      → Step settings s
          (joined (now + settings.lock_ttl) (admit settings f now later r s.cells) s.holders)
  ended :
      (f : StoreFaults) (now : ℕ) (key fingerprint : Text) (r : Response) {s : System}
      → holds key s.holders ≡ true
      → Step settings s (record {
        cells = settle settings f now key fingerprint r s.cells;
        holders = leave key s.holders;
      })

pub data Reach (settings : Settings) : System → Type 0 where
  idle : (cells : List Cell) → Reach settings (record { cells = cells; holders = [] })
  then_step : {s t : System} → Reach settings s → Step settings s t → Reach settings t
