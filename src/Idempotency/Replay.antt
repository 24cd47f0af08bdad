-- ===== src/Idempotency/Replay.antt =====
-- A request that is sent twice with the same Idempotency-Key.
use financial_wallet.Prelude.{◌≡◌, refl, ap, ◌∙◌, ℕ, ◌+◌, ◌<◌, true, false, some, none, List, arith}
use financial_wallet.Text.{Text, is_empty, text_eq, text_eq_refl}
use financial_wallet.Idempotency.{
  Settings, no_store_faults, Request, Response, Cell, Entry, locked, replayed, mismatch,
  mismatch_response, build_key, should_store, being_processed, completed_with, lookup, put, answer,
  admit_key, admit, settle, serve_admitted, serve,
}
use financial_wallet.Idempotency.Lookup.{lookup-put, lookup-drop_key}

-- A POST with an Idempotency-Key and a body that was read.
pub record IsKeyed (r : Request) (body : Text) : Type 0 where
  pub post : r.is_post ≡ true
  pub named : is_empty r.key ≡ false
  pub read : r.body ≡ some body

module _ (settings : Settings) (r : Request) (body : Text) (h : IsKeyed r body) where
  abbrev full_key : Text
  full_key = build_key r.service r.key

  admit-new :
      (now later : ℕ) (cells : List Cell)
      → lookup now full_key cells ≡ none
      → admit settings no_store_faults now later r cells ≡ (
        locked full_key (settings.digest body),
        put full_key (being_processed (settings.digest body)) (now + settings.lock_ttl) cells,
      )
  unfolding admit admit_key
  admit-new now later cells absent = rw (h.post, h.named, h.read, absent) refl

  admit-known :
      (now later : ℕ) (e : Entry) (cells : List Cell)
      → lookup now full_key cells ≡ some e
      → lookup later full_key cells ≡ some e
      → admit settings no_store_faults now later r cells
        ≡ (answer (settings.digest body) (some e), cells)
  unfolding admit admit_key
  admit-known now later e cells here there = rw (h.post, h.named, h.read, here, there) refl

answer-same :
    (fingerprint : Text) (r : Response)
    → answer fingerprint (some (completed_with r fingerprint)) ≡ replayed r
unfolding answer
answer-same fingerprint r = let same = text_eq_refl fingerprint in ground arith

answer-different :
    (fingerprint stored : Text) (r : Response)
    → is_empty stored ≡ false
    → text_eq fingerprint stored ≡ false
    → answer fingerprint (some (completed_with r stored)) ≡ mismatch
unfolding answer
answer-different fingerprint stored r filled other = rw (filled, other) refl

module _ (settings : Settings) {W : Type 0} (handler : W → Response × W) (cells : List Cell)
    (world : W) (r : Request) (body : Text) (start later finish : ℕ) where
  -- The store that the first request leaves.
  abbrev pub after_first : List Cell
  after_first = (serve settings no_store_faults start later finish r handler cells world).1

  after_first-eq :
      IsKeyed r body
      → lookup start (build_key r.service r.key) cells ≡ none
      → after_first
        ≡ settle settings no_store_faults finish
            (build_key r.service r.key)
            (settings.digest body)
            (handler world).0
            (put
              (build_key r.service r.key)
              (being_processed (settings.digest body))
              (start + settings.lock_ttl)
              cells)
  unfolding serve serve_admitted
  after_first-eq h absent =
      ap (λ a. (serve_admitted settings no_store_faults finish handler a world).1)
        (admit-new settings r body h start later cells absent)

  after_first-completed :
      IsKeyed r body
      → lookup start (build_key r.service r.key) cells ≡ none
      → should_store (handler world).0.status_code ≡ true
      → (now : ℕ) → now < finish + settings.ttl
      → lookup now (build_key r.service r.key) after_first
        ≡ some (completed_with (handler world).0 (settings.digest body))
  unfolding settle
  after_first-completed h absent stored now alive =
      ap (lookup now (build_key r.service r.key)) (after_first-eq h absent)
      ∙ rw stored (
          lookup-put now (build_key r.service r.key)
            (completed_with (handler world).0 (settings.digest body)) (finish + settings.ttl) _
            alive)

  -- The response of the first request, stored if its status is 2xx to 4xx, is what a second request
  -- with the same key and body gets while the entry lives: the handler does not run again, and the
  -- store and everything the handler works on stay as they are. The store answers, and holds no live entry for the
  -- key when the first request comes.
  pub serve-replayed :
      (again : W → Response × W) (world' : W) (now now' end : ℕ)
      → IsKeyed r body
      → lookup start (build_key r.service r.key) cells ≡ none
      → should_store (handler world).0.status_code ≡ true
      → now < finish + settings.ttl
      → now' < finish + settings.ttl
      → serve settings no_store_faults now now' end r again after_first world'
        ≡ ((handler world).0, after_first, world')
  unfolding serve serve_admitted
  serve-replayed again world' now now' end h absent stored alive alive' =
      ap (λ a. serve_admitted settings no_store_faults end again a world')
        (admit-known settings r body h now now'
            (completed_with (handler world).0 (settings.digest body)) after_first
            (after_first-completed h absent stored now alive)
            (after_first-completed h absent stored now' alive')
          ∙ ap (λ a. (a, after_first)) (answer-same (settings.digest body) (handler world).0))

  -- While the stored response lives, a request with the same key and a body of another digest is
  -- refused with 422: its handler does not run, and store and world stay as they are.
  pub serve-mismatch :
      (again : W → Response × W) (world' : W) (now now' end : ℕ) (other : Request) (body' : Text)
      → IsKeyed r body
      → IsKeyed other body'
      → build_key other.service other.key ≡ build_key r.service r.key
      → is_empty (settings.digest body) ≡ false
      → text_eq (settings.digest body') (settings.digest body) ≡ false
      → lookup start (build_key r.service r.key) cells ≡ none
      → should_store (handler world).0.status_code ≡ true
      → now < finish + settings.ttl
      → now' < finish + settings.ttl
      → serve settings no_store_faults now now' end other again after_first world'
        ≡ (mismatch_response, after_first, world')
  unfolding serve serve_admitted
  serve-mismatch again world' now now' end other body' h k same filled different absent stored alive
        alive' =
      ap (λ a. serve_admitted settings no_store_faults end again a world')
        (admit-known settings other body' k now now'
            (completed_with (handler world).0 (settings.digest body)) after_first
            (ap (λ x. lookup now x after_first) same
              ∙ after_first-completed h absent stored now alive)
            (ap (λ x. lookup now' x after_first) same
              ∙ after_first-completed h absent stored now' alive')
          ∙ ap (λ a. (a, after_first))
              (answer-different (settings.digest body') (settings.digest body) (handler world).0
                filled different))

  -- A request whose handler fails with a status that is not stored, such as 5xx, leaves its key free:
  -- when it is sent again, at any time, its handler runs once more and the caller gets what that run
  -- answers.
  pub serve-retried :
      (again : W → Response × W) (world' : W) (now now' end : ℕ)
      → IsKeyed r body
      → lookup start (build_key r.service r.key) cells ≡ none
      → should_store (handler world).0.status_code ≡ false
      → (serve settings no_store_faults now now' end r again after_first world').0
          ≡ (again world').0
        × (serve settings no_store_faults now now' end r again after_first world').2
          ≡ (again world').1
  unfolding serve serve_admitted settle
  serve-retried again world' now now' end h absent failed =
      let free : lookup now (build_key r.service r.key) after_first ≡ none =
        ap (lookup now (build_key r.service r.key)) (after_first-eq h absent)
        ∙ rw failed (lookup-drop_key now (build_key r.service r.key) _) in
      let runs = admit-new settings r body h now now' after_first free in
      (
        ap (λ a. (serve_admitted settings no_store_faults end again a world').0) runs,
        ap (λ a. (serve_admitted settings no_store_faults end again a world').2) runs,
      )
