-- ===== src/Access.antt =====
-- Roles and permissions: repository/role.go, internal/usecases/role, and the middleware of
-- internal/infrastructure/web/middleware (permission_loader.go, authorization.go, jwt.go).
pub mod Roles
pub mod Middleware
pub mod Cache
pub mod Steps
pub mod Loads
pub mod Changes
pub mod Coherence
pub mod Guard
pub mod Stale
use financial_wallet.Prelude.{
  ℕ, Bool, true, false, not, ◌&&◌, ◌||◌, Option, none, some, List, [], ◌∷◌, ◌++◌, leb, ◌+◌, ◌==◌,
  if◌then◌else◌,
}
use financial_wallet.Text.{Text, codes, text_eq, is_empty, contains, split_once}
use financial_wallet.Result.{
  Result, ok, err, ◌>>=◌, ◌>>◌, fail_if, or_error, violation, unique, foreign_key, unavailable,
  role_not_found, duplicate_role_name, role_already_assigned, role_not_assigned,
}
use financial_wallet.Domain.Statement.{Time}
use financial_wallet.Libs.{Libs}
use financial_wallet.Ids.{parse_id}

pub record Role : Type 0 where
  pub id : Text
  pub name : Text
  pub description : Text
  pub created_at : Time
  pub updated_at : Time

-- The tables of roles and permissions: pairs of a user and a role, of a role and a permission, and of
-- a permission and its name.
pub record Rbac : Type 0 where
  pub users : List Text
  pub roles : List Role
  pub user_roles : List (Text × Text)
  pub role_permissions : List (Text × Text)
  pub permissions : List (Text × Text)

-- The calls of the database and of the cache that fail in a run. A key that has expired is a Get that
-- fails.
pub record AccessFaults : Type 0 where
  pub read : Bool
  pub write : Bool
  pub cache_get : Bool
  pub cache_set : Bool
  pub cache_delete : Bool

unfoldable pub find_role : Text → List Role → Option Role
find_role id [] = none
find_role id (r ∷ rows) = if text_eq r.id id then some r else find_role id rows

unfoldable pub find_role_by_name : Text → List Role → Option Role
find_role_by_name name [] = none
find_role_by_name name (r ∷ rows) =
    if text_eq r.name name then some r else find_role_by_name name rows

unfoldable pub has_pair : Text → Text → List (Text × Text) → Bool
has_pair a b [] = false
has_pair a b ((x, y) ∷ rows) = text_eq x a && text_eq y b || has_pair a b rows

unfoldable pub remove_pair : Text → Text → List (Text × Text) → List (Text × Text)
remove_pair a b [] = []
remove_pair a b ((x, y) ∷ rows) =
    let rest = remove_pair a b rows in if text_eq x a && text_eq y b then rest else (x, y) ∷ rest

-- What a key is joined with.
unfoldable pub joined_with : Text → List (Text × Text) → List Text
joined_with key [] = []
joined_with key ((x, y) ∷ rows) =
    let rest = joined_with key rows in if text_eq x key then y ∷ rest else rest

unfoldable pub join_all : List Text → List (Text × Text) → List Text
join_all [] rows = []
join_all (key ∷ keys) rows = joined_with key rows ++ join_all keys rows

-- SELECT DISTINCT
unfoldable pub distinct : List Text → List Text
distinct [] = []
distinct (x ∷ xs) = let rest = distinct xs in if contains x xs then rest else x ∷ rest

unfoldable pub role_names : List Text → List Role → List Text
role_names ids [] = []
role_names ids (r ∷ rows) =
    let rest = role_names ids rows in if contains r.id ids then r.name ∷ rest else rest

-- The cache of package cache: the lists of names under their keys.
abbrev pub Cells : Type 0
Cells = List (Text × List Text)

unfoldable pub cache_find : Text → Cells → Option (List Text)
cache_find key [] = none
cache_find key ((k, v) ∷ cells) = if text_eq k key then some v else cache_find key cells

unfoldable pub cache_drop : Text → Cells → Cells
cache_drop key [] = []
cache_drop key ((k, v) ∷ cells) =
    let rest = cache_drop key cells in if text_eq k key then rest else (k, v) ∷ rest

abbrev pub permission_key : Text → Text
permission_key user = codes "permissions:user:" ++ user

abbrev pub role_key : Text → Text
role_key user = codes "roles:user:" ++ user

-- `if l.cache != nil { if cacheErr := l.cache.Get(...); cacheErr == nil { return cached, nil } }`
abbrev cache_hit : Bool → Text → Cells → Option (List Text)
cache_hit true key cells = none
cache_hit false key cells = cache_find key cells

load_through :
    AccessFaults
    → Text
    → Option (List Text)
    → Result (List Text)
    → Cells
    → Result (List Text) × Cells
load_through f key (some cached) fresh cells = (ok cached, cells)
load_through f key none (err e) cells = (err e, cells)
load_through f key none (ok names) cells =
    (ok names, if f.cache_set then cells else (key, names) ∷ cache_drop key cells)

unfoldable pub load_cached :
    AccessFaults → Text → Result (List Text) → Cells → Result (List Text) × Cells
unfolding load_through
load_cached f key fresh cells = load_through f key (cache_hit f.cache_get key cells) fresh cells

unfoldable pub forget : AccessFaults → Text → Cells → Cells
forget f key cells = if f.cache_delete then cells else cache_drop key cells

-- invalidateUserAuthCache
unfoldable pub invalidate : AccessFaults → Text → Cells → Cells
invalidate f user cells = forget f (role_key user) (forget f (permission_key user) cells)

module _ (lib : Libs) where
  -- GetUserPermissions and GetUserRoles of the repository.
  unfoldable pub user_permissions : Text → Rbac → List Text
  user_permissions user db = lib.order_names (
      distinct
        (join_all (join_all (joined_with user db.user_roles) db.role_permissions) db.permissions))

  unfoldable pub user_role_names : Text → Rbac → List Text
  user_role_names user db =
      lib.order_names (distinct (role_names (joined_with user db.user_roles) db.roles))

  unfoldable pub get_user_permissions : AccessFaults → Text → Rbac → Result (List Text)
  get_user_permissions f raw replica = do
    user ← parse_id lib raw
    fail_if f.read unavailable
    ok (user_permissions (lib.uuid_text user) replica)

  unfoldable pub get_user_roles : AccessFaults → Text → Rbac → Result (List Text)
  get_user_roles f raw replica = do
    user ← parse_id lib raw
    fail_if f.read unavailable
    ok (user_role_names (lib.uuid_text user) replica)

  -- CachedPermissionLoader
  unfoldable pub get_permissions : AccessFaults → Text → Rbac → Cells → Result (List Text) × Cells
  get_permissions f user replica cells =
      load_cached f (permission_key user) (get_user_permissions f user replica) cells

  unfoldable pub get_roles : AccessFaults → Text → Rbac → Cells → Result (List Text) × Cells
  get_roles f user replica cells =
      load_cached f (role_key user) (get_user_roles f user replica) cells
