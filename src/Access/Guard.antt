-- ===== src/Access/Guard.antt =====
-- Which requests JWTAuth and RequirePermission let through to the handler.
use mathlib.Core.Path.{subst}
use financial_wallet.Prelude.{
  ◌≡◌, refl, sym, ap, ◌∙◌, inl, inr, Bool-cases, Bool, true, false, ◌⊎◌, Option, none, some, List,
}
use financial_wallet.Text.{Text, text_eq, codes, contains, is_empty, split_once}
use financial_wallet.Result.{Result, ok, err, ok-injective}
use financial_wallet.Libs.{Libs}
use financial_wallet.Access.{
  Rbac, AccessFaults, Cells, cache_find, cache_hit, load_through, load_cached, permission_key,
  user_permissions, get_user_permissions, get_permissions,
}
use financial_wallet.Access.Middleware.{
  Verdict, rejected, allowed, Claims, equal_fold, token_verdict, bearer_verdict, jwt_auth,
  roles_verdict, require_loaded, require_permission,
}
use financial_wallet.Access.Cache.{Agrees}
use financial_wallet.Access.Steps.{IsCoherent}
use financial_wallet.Access.Loads.{get_user_permissions-eq_ok}

-- A header that carries a valid access token of the user after its scheme.
pub record HasToken (validate : Text → Option Claims) (header user : Text) : Type 0 where
  pub scheme : Text
  pub token : Text
  pub claims : Claims
  pub split : split_once b' ' header ≡ (scheme, some token)
  pub bearer : equal_fold scheme (codes "Bearer") ≡ true
  pub valid : validate token ≡ some claims
  pub access : text_eq claims.token_type (codes "access") ≡ true
  pub of_user : claims.user_id ≡ user

token_verdict-allowed :
    (found : Option Claims) (user : Text)
    → token_verdict found ≡ allowed user
    → (claims : Claims) × (found ≡ some claims)
      × (text_eq claims.token_type (codes "access") ≡ true)
      × (claims.user_id ≡ user)
token_verdict-allowed none user h = cc
token_verdict-allowed (some claims) user h =
    elim (Bool-cases (text_eq claims.token_type (codes "access"))) [
      | inl access ↦
          let same : allowed claims.user_id ≡ allowed user = rw access at h in
          (claims, refl, access, cc)
      | inr other ↦ cc (rw other at h)
    ]

bearer_verdict-HasToken :
    (validate : Text → Option Claims) (header user : Text) (parts : Text × Option Text)
    → split_once b' ' header ≡ parts
    → bearer_verdict validate parts ≡ allowed user
    → HasToken validate header user
bearer_verdict-HasToken validate header user (scheme, none) split h = cc
bearer_verdict-HasToken validate header user (scheme, some token) split h =
    elim (Bool-cases (equal_fold scheme (codes "Bearer"))) [
      | inl bearer ↦
          let (claims, valid, access, same) =
            token_verdict-allowed (validate token) user (rw bearer at h) in
          record {
            scheme = scheme;
            token = token;
            claims = claims;
            split = split;
            bearer = bearer;
            valid = valid;
            access = access;
            of_user = same;
          }
      | inr other ↦ cc (rw other at h)
    ]

jwt_auth-HasToken :
    (validate : Text → Option Claims) (header user : Text)
    → jwt_auth validate header ≡ allowed user
    → HasToken validate header user
unfolding jwt_auth
jwt_auth-HasToken validate header user h = elim (Bool-cases (is_empty header)) [
  | inl missing ↦ cc (rw missing at h)
  | inr present ↦
      bearer_verdict-HasToken validate header user (split_once b' ' header) refl (rw present at h)
]

roles_verdict-allowed :
    (u user : Text) (roles : Result (List Text)) → roles_verdict u roles ≡ allowed user → u ≡ user
roles_verdict-allowed u user (err e) h = cc
roles_verdict-allowed u user (ok roles) h = cc

-- What a successful load gives is what was cached or what the tables gave.
load_through-eq_ok :
    (f : AccessFaults) (key : Text) (hit : Option (List Text)) (fresh : Result (List Text))
    (cells : Cells) (names : List Text)
    → (load_through f key hit fresh cells).0 ≡ ok names
    → (hit ≡ some names) ⊎ (fresh ≡ ok names)
unfolding load_through
load_through-eq_ok f key (some cached) fresh cells names h = inl (ap some (ok-injective h))
load_through-eq_ok f key none (err e) cells names h = cc
load_through-eq_ok f key none (ok loaded) cells names h = inr h

cache_hit-Agrees :
    (missed : Bool) (key : Text) (cells : Cells) (names fresh : List Text)
    → cache_hit missed key cells ≡ some names
    → Agrees (cache_find key cells) fresh
    → fresh ≡ names
cache_hit-Agrees true key cells names fresh h agrees = cc
cache_hit-Agrees false key cells names fresh h agrees = sym (subst (λ o. Agrees o fresh) h agrees)

module _ (lib : Libs) (f : AccessFaults) (db : Rbac) (cells : Cells) where
  get_permissions-eq_ok :
      (user : Text) (names : List Text)
      → lib.uuid_text user ≡ user
      → IsCoherent lib db cells
      → (get_permissions lib f user db cells).0 ≡ ok names
      → user_permissions lib user db ≡ names
  unfolding get_permissions load_cached
  get_permissions-eq_ok user names canonical coherent h =
      elim (load_through-eq_ok f (permission_key user)
        (cache_hit f.cache_get (permission_key user) cells) (get_user_permissions lib f user db)
        cells names h) [
          | inl hit ↦
              cache_hit-Agrees f.cache_get (permission_key user) cells names
                (user_permissions lib user db) hit (coherent user).permissions
          | inr fresh ↦ get_user_permissions-eq_ok lib f user db names canonical fresh
        ]

  require_loaded-allowed :
      (u required user : Text) (loaded : Result (List Text) × Cells)
      → (require_loaded lib f u required db loaded).0 ≡ allowed user
      → (u ≡ user) × (names : List Text) × (loaded.0 ≡ ok names) × (contains required names ≡ true)
  unfolding require_loaded
  require_loaded-allowed u required user (err e, after) h = cc
  require_loaded-allowed u required user (ok names, after) h =
      elim (Bool-cases (contains required names)) [
        | inl granted ↦ (roles_verdict-allowed u user _ (rw granted at h), names, refl, granted)
        | inr missing ↦ cc (rw missing at h)
      ]

  require_permission-allowed :
      (required user : Text) (v : Verdict)
      → lib.uuid_text user ≡ user
      → IsCoherent lib db cells
      → (require_permission lib f required v db cells).0 ≡ allowed user
      → (v ≡ allowed user) × (contains required (user_permissions lib user db) ≡ true)
  unfolding require_permission
  require_permission-allowed required user (rejected code) canonical coherent h = cc
  require_permission-allowed required user (allowed u) canonical coherent h =
      elim (Bool-cases (is_empty u)) [
        | inl nobody ↦ cc (rw nobody at h)
        | inr somebody ↦
            let (same, names, loaded, granted) =
              require_loaded-allowed u required user (get_permissions lib f u db cells)
                (rw somebody at h) in
            let here =
              get_permissions-eq_ok user names canonical coherent
                (ap (λ x. (get_permissions lib f x db cells).0) (sym same) ∙ loaded) in
            (ap allowed same, ap (contains required) here ∙ granted)
      ]

  -- A request that JWTAuth and RequirePermission let through to the handler carries a valid access
  -- token of the user that the handler sees, and the tables give that user the required permission,
  -- whatever calls of the database and the cache fail: as long as the cache is coherent with the
  -- tables, and the token names the user by the canonical text of its identifier.
  pub require_permission-permitted :
      (validate : Text → Option Claims) (header required user : Text)
      → lib.uuid_text user ≡ user
      → IsCoherent lib db cells
      → (require_permission lib f required (jwt_auth validate header) db cells).0 ≡ allowed user
      → HasToken validate header user × (contains required (user_permissions lib user db) ≡ true)
  require_permission-permitted validate header required user canonical coherent h =
      let (verdict, granted) =
        require_permission-allowed required user (jwt_auth validate header) canonical coherent h in
      (jwt_auth-HasToken validate header user verdict, granted)
