-- ===== src/Access/Steps.antt =====
-- Loads of permissions by the middleware, and assignments and revocations of roles, as steps.
use financial_wallet.Prelude.{◌≡◌, false}
use financial_wallet.Text.{Text}
use financial_wallet.Libs.{Libs}
use financial_wallet.Access.{
  Rbac, AccessFaults, Cells, cache_find, permission_key, role_key, user_permissions,
  user_role_names, get_permissions, get_roles,
}
use financial_wallet.Access.Roles.{RoleInput, assign_role, revoke_role}
use financial_wallet.Access.Cache.{Agrees}

-- The caches of a user hold what the tables give, where they hold anything.
pub record IsCoherentFor (lib : Libs) (db : Rbac) (cells : Cells) (user : Text) : Type 0 where
  pub permissions : Agrees (cache_find (permission_key user) cells) (user_permissions lib user db)
  pub roles : Agrees (cache_find (role_key user) cells) (user_role_names lib user db)

abbrev pub IsCoherent : Libs → Rbac → Cells → Type 0
IsCoherent lib db cells = (user : Text) → IsCoherentFor lib db cells user

-- A load of a user's permissions or roles by the middleware, or an assignment or a revocation whose
-- deletes in the cache succeed. Users are named by the text that the database gives back.
pub data Step (lib : Libs) (f : AccessFaults) : Rbac × Cells → Rbac × Cells → Type 0 where
  loaded :
      (user : Text) {s : Rbac × Cells}
      → lib.uuid_text user ≡ user
      → Step lib f s (s.0, (get_permissions lib f user s.0 s.1).1)
  roles_loaded :
      (user : Text) {s : Rbac × Cells}
      → lib.uuid_text user ≡ user
      → Step lib f s (s.0, (get_roles lib f user s.0 s.1).1)
  assigned :
      (input : RoleInput) (replica : Rbac) {s : Rbac × Cells}
      → lib.uuid_text input.user_id ≡ input.user_id
      → f.cache_delete ≡ false
      → Step lib f s
          ((assign_role lib f input replica s.0 s.1).1, (assign_role lib f input replica s.0 s.1).2)
  revoked :
      (input : RoleInput) (replica : Rbac) {s : Rbac × Cells}
      → lib.uuid_text input.user_id ≡ input.user_id
      → f.cache_delete ≡ false
      → Step lib f s
          ((revoke_role lib f input replica s.0 s.1).1, (revoke_role lib f input replica s.0 s.1).2)

pub data Reach (lib : Libs) (before : Rbac × Cells) : Rbac × Cells → Type 0 where
  start : Reach lib before before
  then_step :
      {s t : Rbac × Cells} {f : AccessFaults}
      → Reach lib before s
      → Step lib f s t
      → Reach lib before t
