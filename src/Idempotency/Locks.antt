-- ===== src/Idempotency/Locks.antt =====
-- The locks of the handlers that run at a time.
use mathlib.Core.Path.{subst}
use financial_wallet.Prelude.{
  ◌&&◌, ◌≡◌, refl, sym, ap, ◌∙◌, inl, inr, Bool-cases, ℕ, ◌+◌, ◌≤◌, ◌<◌, true, false, not, ◌||◌,
  Option, none, some, List, [], ◌∷◌, arith,
}
use financial_wallet.Text.{Text, text_eq, text_eq_iff, text_eq_comm, is_empty}
use financial_wallet.Schema.{is_some}
use financial_wallet.Idempotency.{
  Status, processing, completed, judge, Settings, StoreFaults, Request, Response, Cell, Entry,
  Admission, build_key, being_processed, completed_with, lookup, put, answer, admit_locked,
  admit_key, admit_body, admit, settle,
}
use financial_wallet.Idempotency.Lookup.{lookup-put, lookup-drop_other, lookup-put_other}
use financial_wallet.Idempotency.System.{
  Holder, System, holds, holder_count, leave, AllAlive, joined, Step, arrived, ended, Reach, idle,
  then_step,
}

-- Every lock of a running handler is in the store, and no two are on the same key.
abbrev IsHeld : List Cell → List Holder → Type 0
IsHeld cells [] = Unit
IsHeld cells (h ∷ hs) =
    ((now : ℕ) → now < h.deadline → is_some (lookup now h.key cells) ≡ true)
    × (holds h.key hs ≡ false)
    × IsHeld cells hs

-- A key that has expired or is absent is locked by none of the handlers that run.
absent-holds :
    (now : ℕ) (key : Text) (cells : List Cell) (hs : List Holder)
    → AllAlive now hs
    → IsHeld cells hs
    → lookup now key cells ≡ none
    → holds key hs ≡ false
unfolding holds
absent-holds now key cells [] alive held absent = refl
absent-holds now key cells (h ∷ hs) alive held absent = elim (Bool-cases (text_eq h.key key)) [
  | inl same ↦
      let here : is_some (lookup now h.key cells) ≡ true = held.0 now alive.0 in
      let gone : is_some (lookup now h.key cells) ≡ false =
        ap (λ k. is_some (lookup now k cells)) ((text_eq_iff h.key key).0 same)
        ∙ ap is_some absent in
      cc
  | inr other ↦ rw other (absent-holds now key cells hs alive.1 held.2 absent)
]

-- A change of the store at a key that no handler of a list holds.
elsewhere-IsHeld :
    (key : Text) (cells cells' : List Cell) (hs : List Holder)
    → ((now : ℕ) (k : Text) → text_eq key k ≡ false → lookup now k cells' ≡ lookup now k cells)
    → holds key hs ≡ false
    → IsHeld cells hs
    → IsHeld cells' hs
unfolding holds
elsewhere-IsHeld key cells cells' [] same free held = tt
elsewhere-IsHeld key cells cells' (h ∷ hs) same free held =
    let other : text_eq key h.key ≡ false = ground (arith, text_eq_comm key h.key) in
    (
      λ now alive. ap is_some (same now h.key other) ∙ held.0 now alive,
      held.1,
      elsewhere-IsHeld key cells cells' hs same (ground arith) held.2,
    )

abbrev IsSound : System → Type 0
IsSound s = IsHeld s.cells s.holders

-- A request whose key exists does not get the lock.
judge-joined :
    (deadline : ℕ) (fingerprint : Text) (e : Entry) (status : Status) (cells : List Cell)
    (hs : List Holder)
    → joined deadline (judge fingerprint e status, cells) hs
      ≡ record { cells = cells; holders = hs }
unfolding joined
judge-joined deadline fingerprint e processing cells hs = refl
judge-joined deadline fingerprint e completed cells hs =
    elim (Bool-cases (not (is_empty e.fingerprint) && not (text_eq fingerprint e.fingerprint))) [
      | inl other ↦ rw other refl
      | inr same ↦ rw same refl
    ]

answer-joined :
    (deadline : ℕ) (fingerprint : Text) (found : Option Entry) (cells : List Cell)
    (hs : List Holder)
    → joined deadline (answer fingerprint found, cells) hs ≡ record { cells = cells; holders = hs }
unfolding joined answer
answer-joined deadline fingerprint none cells hs = refl
answer-joined deadline fingerprint (some e) cells hs =
    judge-joined deadline fingerprint e e.status cells hs

module _ (settings : Settings) (now later : ℕ) (hs : List Holder) (f : StoreFaults) where
  abbrev after : Admission × List Cell → System
  after a = joined (now + settings.lock_ttl) a hs

  -- The admission of a request, stage by stage.
  admit_locked-IsSound :
      (key fingerprint : Text) (found : Option Entry) (cells : List Cell)
      → lookup now key cells ≡ found
      → AllAlive now hs
      → IsHeld cells hs
      → IsSound (after (admit_locked settings f now later key fingerprint found cells))
  unfolding joined admit_locked
  admit_locked-IsSound key fingerprint none cells absent alive held =
      let free = absent-holds now key cells hs alive held absent in
      let deadline = now + settings.lock_ttl in
      let entry = being_processed fingerprint in
      (
        λ t live. ap is_some (lookup-put t key entry deadline cells live),
        free,
        elsewhere-IsHeld key cells (put key entry deadline cells) hs
            (λ t k other. lookup-put_other t key k entry deadline cells other) free held,
      )
  admit_locked-IsSound key fingerprint (some e) cells present alive held = elim (Bool-cases f.get) [
    | inl down ↦ rw down held
    | inr up ↦ rw up (
        subst IsSound
          (sym
            (answer-joined (now + settings.lock_ttl) fingerprint (lookup later key cells) cells hs))
          held)
  ]

  admit_key-IsSound :
      (key fingerprint : Text) (cells : List Cell)
      → AllAlive now hs
      → IsHeld cells hs
      → IsSound (after (admit_key settings f now later key fingerprint cells))
  unfolding joined admit_key
  admit_key-IsSound key fingerprint cells alive held = elim (Bool-cases f.lock) [
    | inl down ↦ rw down held
    | inr up ↦
        rw up (admit_locked-IsSound key fingerprint (lookup now key cells) cells refl alive held)
  ]

  admit_body-IsSound :
      (key : Text) (body : Option Text) (cells : List Cell)
      → AllAlive now hs
      → IsHeld cells hs
      → IsSound (after (admit_body settings f now later key body cells))
  unfolding joined admit_body
  admit_body-IsSound key none cells alive held = held
  admit_body-IsSound key (some body) cells alive held =
      admit_key-IsSound key (settings.digest body) cells alive held

  admit-IsSound :
      (r : Request) (cells : List Cell)
      → AllAlive now hs
      → IsHeld cells hs
      → IsSound (after (admit settings f now later r cells))
  unfolding joined admit
  admit-IsSound r cells alive held = elim (Bool-cases (not r.is_post || is_empty r.key)) [
    | inl free ↦ rw free held
    | inr keyed ↦ rw keyed (admit_body-IsSound (build_key r.service r.key) r.body cells alive held)
  ]

-- The end of a handler.
leave-holds :
    (key k : Text) (hs : List Holder) → holds k hs ≡ false → holds k (leave key hs) ≡ false
unfolding holds leave
leave-holds key k [] free = refl
leave-holds key k (h ∷ hs) free = ground (arith, leave-holds key k hs)

left-holds : (key : Text) (hs : List Holder) → holds key (leave key hs) ≡ false
unfolding holds leave
left-holds key [] = refl
left-holds key (h ∷ hs) = ground (arith, left-holds key hs)

leave-IsHeld :
    (key : Text) (cells : List Cell) (hs : List Holder)
    → IsHeld cells hs
    → IsHeld cells (leave key hs)
unfolding leave
leave-IsHeld key cells [] held = tt
leave-IsHeld key cells (h ∷ hs) held = elim (Bool-cases (text_eq h.key key)) [
  | inl gone ↦ rw gone (leave-IsHeld key cells hs held.2)
  | inr stays ↦ rw stays (held.0, leave-holds key h.key hs held.1, leave-IsHeld key cells hs held.2)
]

module _ (settings : Settings) where
  settle-elsewhere :
      (f : StoreFaults) (now : ℕ) (key fingerprint : Text) (r : Response) (cells : List Cell)
      (t : ℕ) (k : Text)
      → text_eq key k ≡ false
      → lookup t k (settle settings f now key fingerprint r cells) ≡ lookup t k cells
  unfolding settle
  settle-elsewhere f now key fingerprint r cells t k other = ground (
    arith,
    lookup-drop_other t key k cells other,
    lookup-put_other t key k (completed_with r fingerprint) (now + settings.ttl) cells other,
  )

  Step-IsSound : {s t : System} → Step settings s t → IsSound s → IsSound t
  Step-IsSound (arrived f now later r {s} alive) held =
      admit-IsSound settings now later s.holders f r s.cells alive held
  Step-IsSound (ended f now key fingerprint r {s} runs) held =
      elsewhere-IsHeld key s.cells (settle settings f now key fingerprint r s.cells)
        (leave key s.holders) (settle-elsewhere f now key fingerprint r s.cells)
        (left-holds key s.holders) (leave-IsHeld key s.cells s.holders held)

  Reach-IsSound : {s : System} → Reach settings s → IsSound s
  Reach-IsSound (idle cells) = tt
  Reach-IsSound (then_step before step) = Step-IsSound step (Reach-IsSound before)

  free-holder_count :
      (key : Text) (hs : List Holder) → holds key hs ≡ false → holder_count key hs ≡ 0
  unfolding holds holder_count
  free-holder_count key [] free = refl
  free-holder_count key (h ∷ hs) free = ground (arith, free-holder_count key hs)

  holder_count-le_one :
      (key : Text) (cells : List Cell) (hs : List Holder)
      → IsHeld cells hs
      → holder_count key hs ≤ 1
  unfolding holder_count
  holder_count-le_one key cells [] held = omega arith
  holder_count-le_one key cells (h ∷ hs) held = elim (Bool-cases (text_eq h.key key)) [
    | inl here ↦
        let free : holds key hs ≡ false =
          subst (λ k. holds k hs ≡ false) ((text_eq_iff h.key key).0 here) held.1 in
        rw here (omega (arith, free-holder_count key hs free))
    | inr there ↦ rw there (holder_count-le_one key cells hs held.2)
  ]

  -- However requests with and without keys come and their handlers end, in any interleaving, with any
  -- responses and whatever calls of the store fail: at most one of the handlers that run at a time
  -- holds the lock on a given key, as long as each request comes while no lock has expired under a
  -- running handler. Handlers that run without a lock, since the store failed, are not counted.
  pub Reach-holder_count :
      (s : System) (key : Text) → Reach settings s → holder_count key s.holders ≤ 1
  Reach-holder_count s key path = holder_count-le_one key s.cells s.holders (Reach-IsSound path)
