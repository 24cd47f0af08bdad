-- ===== src/Idempotency.antt =====
-- pkg/idempotency/store.go with its Redis implementation redisstore/store.go, and
-- internal/infrastructure/web/middleware/idempotency.go.
pub mod Lookup
pub mod Replay
pub mod System
pub mod Locks
use financial_wallet.Prelude.{
  ℕ, ◌+◌, Bool, true, false, not, ◌&&◌, ◌||◌, Option, none, some, List, [], ◌∷◌, ◌++◌, ltb, leb,
  if◌then◌else◌,
}
use financial_wallet.Text.{Text, codes, text_eq, is_empty}

-- StatusProcessing and StatusCompleted.
pub data Status : Type 0 where
  processing completed : Status

pub record Entry : Type 0 where
  pub status : Status
  pub status_code : ℕ
  pub body : Text
  pub fingerprint : Text

-- A key of Redis with its value and the time at which it expires.
pub record Cell : Type 0 where
  pub key : Text
  pub entry : Entry
  pub deadline : ℕ

-- digest: the SHA-256 of a body in hexadecimal.
pub record Settings : Type 0 where
  pub ttl : ℕ
  pub lock_ttl : ℕ
  pub digest : Text → Text

-- The calls of Redis that fail in a run.
pub record StoreFaults : Type 0 where
  pub lock : Bool
  pub get : Bool
  pub complete : Bool
  pub unlock : Bool

abbrev pub no_store_faults : StoreFaults
no_store_faults = record { lock = false; get = false; complete = false; unlock = false }

-- GET: a key that has expired is not there.
unfoldable pub lookup : ℕ → Text → List Cell → Option Entry
lookup now key [] = none
lookup now key (c ∷ cells) =
    let rest = lookup now key cells in
    if text_eq c.key key then (if ltb now c.deadline then some c.entry else none) else rest

-- DEL
unfoldable pub drop_key : Text → List Cell → List Cell
drop_key key [] = []
drop_key key (c ∷ cells) =
    let rest = drop_key key cells in if text_eq c.key key then rest else c ∷ rest

-- SET
unfoldable pub put : Text → Entry → ℕ → List Cell → List Cell
put key entry deadline cells =
    record { key = key; entry = entry; deadline = deadline } ∷ drop_key key cells

-- What the middleware reads of a request: whether it is a POST, the headers Idempotency-Key and
-- Service-Name, and the body unless reading it failed.
pub record Request : Type 0 where
  pub is_post : Bool
  pub key : Text
  pub service : Text
  pub body : Option Text

pub record Response : Type 0 where
  pub status_code : ℕ
  pub body : Text

-- The body that httputil.ErrorResponse is encoded as.
abbrev pub error_body : Text → Text
error_body message = codes "{\"errors\":{\"message\":\"" ++ message ++ codes "\"}}"

abbrev pub conflict_response : Response
conflict_response = record {
  status_code = 409;
  body = error_body (codes "A request with this Idempotency-Key is already being processed");
}

abbrev pub mismatch_response : Response
mismatch_response = record {
  status_code = 422;
  body = error_body (codes "Idempotency-Key already used with a different request body");
}

-- What becomes of a request: it is handled without the store, handled with the lock on a key, answered
-- with a stored response, or refused with 409 or 422.
pub data Admission : Type 0 where
  passed : Admission
  locked : Text → Text → Admission
  replayed : Response → Admission
  conflict : Admission
  mismatch : Admission

unfoldable pub build_key : Text → Text → Text
build_key service key =
    if is_empty service
    then codes "idempotency:" ++ key
    else codes "idempotency:" ++ service ++ codes ":" ++ key

unfoldable pub should_store : ℕ → Bool
should_store code = leb 200 code && ltb code 500

abbrev pub being_processed : Text → Entry
being_processed fingerprint = record {
  status = processing;
  status_code = 0;
  body = [];
  fingerprint = fingerprint;
}

abbrev pub completed_with : Response → Text → Entry
completed_with r fingerprint = record {
  status = completed;
  status_code = r.status_code;
  body = r.body;
  fingerprint = fingerprint;
}

abbrev replay : Text → Entry → Admission
replay fingerprint e =
    if not (is_empty e.fingerprint) && not (text_eq fingerprint e.fingerprint)
    then mismatch
    else replayed (record { status_code = e.status_code; body = e.body })

abbrev judge : Text → Entry → Status → Admission
judge fingerprint e processing = conflict
judge fingerprint e completed = replay fingerprint e

-- The answer to a request whose key exists.
unfoldable pub answer : Text → Option Entry → Admission
answer fingerprint none = passed
answer fingerprint (some e) = judge fingerprint e e.status

module _ (settings : Settings) where
  admit_locked :
      StoreFaults → ℕ → ℕ → Text → Text → Option Entry → List Cell → Admission × List Cell
  admit_locked f now later key fingerprint none cells = (
    locked key fingerprint,
    put key (being_processed fingerprint) (now + settings.lock_ttl) cells,
  )
  admit_locked f now later key fingerprint (some e) cells =
      (if f.get then passed else answer fingerprint (lookup later key cells), cells)

  -- Lock at one time and, if the key exists, Get at a later one.
  unfoldable pub admit_key : StoreFaults → ℕ → ℕ → Text → Text → List Cell → Admission × List Cell
  unfolding admit_locked
  admit_key f now later key fingerprint cells =
      if f.lock
      then (passed, cells)
      else admit_locked f now later key fingerprint (lookup now key cells) cells

  admit_body : StoreFaults → ℕ → ℕ → Text → Option Text → List Cell → Admission × List Cell
  admit_body f now later key none cells = (passed, cells)
  admit_body f now later key (some body) cells =
      admit_key f now later key (settings.digest body) cells

  -- The middleware up to the call of the handler.
  unfoldable pub admit : StoreFaults → ℕ → ℕ → Request → List Cell → Admission × List Cell
  unfolding admit_body
  admit f now later r cells =
      if not r.is_post || is_empty r.key
      then (passed, cells)
      else admit_body f now later (build_key r.service r.key) r.body cells

  -- Complete or Unlock, after the handler has answered a request that holds the lock.
  unfoldable pub settle : StoreFaults → ℕ → Text → Text → Response → List Cell → List Cell
  settle f now key fingerprint r cells =
      if should_store r.status_code
      then (if f.complete
          then cells
          else put key (completed_with r fingerprint) (now + settings.ttl) cells)
      else (if f.unlock then cells else drop_key key cells)

  -- The middleware with its handler: the response, the store and what the handler changes.
  unfoldable pub serve_admitted :
      {W : Type 0}
      → StoreFaults
      → ℕ
      → (W → Response × W)
      → Admission × List Cell
      → W
      → Response × List Cell × W
  serve_admitted f now handler (passed, cells) world =
      let (r, after) = handler world in (r, cells, after)
  serve_admitted f now handler (locked key fingerprint, cells) world =
      let (r, after) = handler world in (r, settle f now key fingerprint r cells, after)
  serve_admitted f now handler (replayed r, cells) world = (r, cells, world)
  serve_admitted f now handler (conflict, cells) world = (conflict_response, cells, world)
  serve_admitted f now handler (mismatch, cells) world = (mismatch_response, cells, world)

  unfoldable pub serve :
      {W : Type 0}
      → StoreFaults
      → ℕ
      → ℕ
      → ℕ
      → Request
      → (W → Response × W)
      → List Cell
      → W
      → Response × List Cell × W
  serve f now later finished r handler cells world =
      serve_admitted f finished handler (admit f now later r cells) world
