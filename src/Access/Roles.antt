-- ===== src/Access/Roles.antt =====
-- internal/usecases/role (create.go, delete.go, assign.go, revoke.go) and the writes of repository/role.go.
use financial_wallet.Prelude.{
  Bool, true, false, not, ◌||◌, Option, none, some, List, [], ◌∷◌, if◌then◌else◌,
}
use financial_wallet.Text.{Text, text_eq, contains}
use financial_wallet.Result.{
  Result, ok, err, ◌>>=◌, ◌>>◌, fail_if, or_error, violation, unique, foreign_key, unavailable,
  role_not_found, duplicate_role_name, role_already_assigned, role_not_assigned,
}
use financial_wallet.Domain.Statement.{Time}
use financial_wallet.Libs.{Libs}
use financial_wallet.Ids.{parse_id}
use financial_wallet.Access.{
  Role, Rbac, AccessFaults, Cells, find_role, find_role_by_name, has_pair, remove_pair, invalidate,
}

pub record RoleInput : Type 0 where
  pub user_id : Text
  pub role_id : Text

abbrev is_role : Option Role → Bool
is_role none = false
is_role (some r) = true

unfoldable pub remove_role : Text → List Role → List Role
remove_role id [] = []
remove_role id (r ∷ rows) =
    let rest = remove_role id rows in if text_eq r.id id then rest else r ∷ rest

unfoldable pub remove_first : Text → List (Text × Text) → List (Text × Text)
remove_first id [] = []
remove_first id ((x, y) ∷ rows) =
    let rest = remove_first id rows in if text_eq x id then rest else (x, y) ∷ rest

unfoldable pub remove_second : Text → List (Text × Text) → List (Text × Text)
remove_second id [] = []
remove_second id ((x, y) ∷ rows) =
    let rest = remove_second id rows in if text_eq y id then rest else (x, y) ∷ rest

module _ (lib : Libs) where
  -- AssignRole: the primary key of user_roles and its foreign keys.
  unfoldable pub assign_row : AccessFaults → Text → Text → Rbac → Result Rbac
  assign_row f user role db = do
    fail_if f.write unavailable
    fail_if (has_pair user role db.user_roles) role_already_assigned
    fail_if (not (contains user db.users) || not (is_role (find_role role db.roles)))
        (violation foreign_key)
    ok (record db { user_roles = (user, role) ∷ db.user_roles })

  -- RevokeRole
  unfoldable pub revoke_row : AccessFaults → Text → Text → Rbac → Result Rbac
  revoke_row f user role db = do
    fail_if f.write unavailable
    fail_if (not (has_pair user role db.user_roles)) role_not_assigned
    ok (record db { user_roles = remove_pair user role db.user_roles })

  -- FindByID of a role, on the replica.
  unfoldable pub find_role_by_id : AccessFaults → Text → Rbac → Result Role
  find_role_by_id f id replica = do
    fail_if f.read unavailable
    row ← or_error (find_role (lib.uuid_text id) replica.roles) role_not_found
    id ← parse_id lib row.id
    ok (record row { id = id })

  unfoldable pub build_assignment :
      (Text → Text → Rbac → Result Rbac) → AccessFaults → RoleInput → Rbac → Rbac → Result Rbac
  build_assignment write f input replica primary = do
    user ← parse_id lib input.user_id
    role ← parse_id lib input.role_id
    found ← find_role_by_id f role replica
    write (lib.uuid_text user) (lib.uuid_text role) primary

  unfoldable pub written :
      AccessFaults → Text → Result Rbac → Rbac → Cells → Result (Unit {0}) × Rbac × Cells
  written f user (err e) db cells = (err e, db, cells)
  written f user (ok db') db cells = (ok tt, db', invalidate f user cells)

  -- AssignRoleUseCase.Execute and RevokeRoleUseCase.Execute
  unfoldable pub assign_role :
      AccessFaults → RoleInput → Rbac → Rbac → Cells → Result (Unit {0}) × Rbac × Cells
  unfolding build_assignment written
  assign_role f input replica primary cells =
      written f input.user_id (build_assignment (assign_row f) f input replica primary) primary
        cells

  unfoldable pub revoke_role :
      AccessFaults → RoleInput → Rbac → Rbac → Cells → Result (Unit {0}) × Rbac × Cells
  unfolding build_assignment written
  revoke_role f input replica primary cells =
      written f input.user_id (build_assignment (revoke_row f) f input replica primary) primary
        cells

  create_named : AccessFaults → Time → Text → Text → Text → Option Role → Rbac → Result Rbac
  create_named f now uuid name description (some r) db = err duplicate_role_name
  create_named f now uuid name description none db = do
    fail_if f.write unavailable
    fail_if
        (is_role (find_role (lib.uuid_text uuid) db.roles)
          || is_role (find_role_by_name name db.roles))
        (violation unique)
    ok (record db {
      roles =
          record {
            id = lib.uuid_text uuid;
            name = name;
            description = description;
            created_at = now;
            updated_at = now;
          }
          ∷ db.roles;
    })

  -- CreateUseCase.Execute
  unfoldable pub create_role : AccessFaults → Time → Text → Text → Text → Rbac → Rbac → Result Rbac
  unfolding create_named
  create_role f now uuid name description replica primary = do
    fail_if f.read unavailable
    create_named f now uuid name description (find_role_by_name name replica.roles) primary

  -- DeleteUseCase.Execute, with ON DELETE CASCADE of user_roles and role_permissions.
  unfoldable pub delete_role : AccessFaults → Text → Rbac → Result Rbac
  delete_role f raw primary = do
    id ← parse_id lib raw
    fail_if f.write unavailable
    fail_if (not (is_role (find_role (lib.uuid_text id) primary.roles))) role_not_found
    ok (record primary {
      roles = remove_role (lib.uuid_text id) primary.roles;
      user_roles = remove_second (lib.uuid_text id) primary.user_roles;
      role_permissions = remove_first (lib.uuid_text id) primary.role_permissions;
    })
