-- ===== src/Access/Cache.antt =====
-- What the cache of permissions holds after its operations.
use financial_wallet.Prelude.{
  ◌≡◌, refl, ap, ◌∙◌, inl, inr, Bool-cases, true, false, Option, none, some, List, [], ◌∷◌, arith,
}
use financial_wallet.Text.{Text, text_eq, text_eq_iff}
use financial_wallet.Result.{Result, ok, err}
use financial_wallet.Access.{
  AccessFaults, Cells, cache_find, cache_drop, cache_hit, load_through, load_cached,
}

-- A cached list, if there is one, is the given one.
abbrev pub Agrees : Option (List Text) → List Text → Type 0
Agrees none names = Unit
Agrees (some cached) names = cached ≡ names

pub cache_find-drop : (key : Text) (cells : Cells) → cache_find key (cache_drop key cells) ≡ none
unfolding cache_find cache_drop
cache_find-drop key [] = refl
cache_find-drop key ((k, v) ∷ cells) = ground (arith, cache_find-drop key cells)

pub cache_find-drop_other :
    (key k : Text) (cells : Cells)
    → text_eq k key ≡ false
    → cache_find key (cache_drop k cells) ≡ cache_find key cells
unfolding cache_find cache_drop
cache_find-drop_other key k [] other = refl
cache_find-drop_other key k ((x, v) ∷ cells) other = elim (Bool-cases (text_eq x k)) [
  | inl gone ↦
      let away : text_eq x key ≡ false =
        ap (λ t. text_eq t key) ((text_eq_iff x k).0 gone) ∙ other in
      rw (gone, away) (cache_find-drop_other key k cells other)
  | inr stays ↦ elim (Bool-cases (text_eq x key)) [
    | inl here ↦ rw (stays, here) refl
    | inr there ↦ rw (stays, there) (cache_find-drop_other key k cells other)
  ]
]

-- Dropping a key leaves every other cached list, and no list under the key.
pub cache_drop-Agrees :
    (key k : Text) (names : List Text) (cells : Cells)
    → Agrees (cache_find key cells) names
    → Agrees (cache_find key (cache_drop k cells)) names
cache_drop-Agrees key k names cells h = elim (Bool-cases (text_eq k key)) [
  | inl same ↦
      let empty : cache_find key (cache_drop k cells) ≡ none =
        ap (λ t. cache_find key (cache_drop t cells)) ((text_eq_iff k key).0 same)
        ∙ cache_find-drop key cells in
      rw empty tt
  | inr other ↦ rw (cache_find-drop_other key k cells other) h
]

load_through-Agrees :
    (f : AccessFaults) (key k : Text) (hit : Option (List Text)) (fresh : Result (List Text))
    (names : List Text) (cells : Cells)
    → ((loaded : List Text) → fresh ≡ ok loaded → text_eq k key ≡ true → loaded ≡ names)
    → Agrees (cache_find key cells) names
    → Agrees (cache_find key (load_through f k hit fresh cells).1) names
unfolding load_through cache_find
load_through-Agrees f key k (some cached) fresh names cells right h = h
load_through-Agrees f key k none (err e) names cells right h = h
load_through-Agrees f key k none (ok loaded) names cells right h = elim (Bool-cases f.cache_set) [
  | inl down ↦ rw down h
  | inr up ↦ elim (Bool-cases (text_eq k key)) [
    | inl same ↦ rw (up, same) (right loaded refl same)
    | inr other ↦ rw (up, other) (cache_drop-Agrees key k names cells h)
  ]
]

pub load_cached-Agrees :
    (f : AccessFaults) (key k : Text) (fresh : Result (List Text)) (names : List Text)
    (cells : Cells)
    → ((loaded : List Text) → fresh ≡ ok loaded → text_eq k key ≡ true → loaded ≡ names)
    → Agrees (cache_find key cells) names
    → Agrees (cache_find key (load_cached f k fresh cells).1) names
unfolding load_cached
load_cached-Agrees f key k fresh names cells right h =
    load_through-Agrees f key k (cache_hit f.cache_get k cells) fresh names cells right h
