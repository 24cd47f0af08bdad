-- ===== src/Tests/Access.antt =====
-- Roles of two users, with the cache of permissions.
use financial_wallet.Prelude.{◌≡◌, refl, true, false, Option, none, some, [], ◌∷◌, if◌then◌else◌}
use financial_wallet.Text.{Text, codes, text_eq, contains}
use financial_wallet.Result.{ok, err, role_not_assigned}
use financial_wallet.Libs.{Libs}
use financial_wallet.Access.{
  has_pair, Role, Rbac, AccessFaults, Cells, cache_find, permission_key, get_permissions,
  user_permissions,
}
use financial_wallet.Access.Roles.{RoleInput, assign_role, revoke_role}
use financial_wallet.Access.Middleware.{Claims, jwt_auth, require_permission}
use financial_wallet.Access.Steps.{IsCoherent, Reach, start, then_step, loaded, assigned}
use financial_wallet.Access.Coherence.{Reach-IsCoherent}
use financial_wallet.Access.Stale.{revoke_role-stale}
use financial_wallet.Access.Guard.{HasToken, require_permission-permitted}
use financial_wallet.Tests.{nonempty_ids, alice, bob}

abbrev all_up : AccessFaults
all_up = record {
  read = false;
  write = false;
  cache_get = false;
  cache_set = false;
  cache_delete = false;
}

abbrev admin : Role
admin = record {
  id = codes "r1";
  name = codes "admin";
  description = [];
  created_at = 1;
  updated_at = 1;
}

abbrev role_write : Text
role_write = codes "role:write"

-- Nobody has a role yet; the role admin has one permission.
abbrev nobody : Rbac
nobody = record {
  users = alice ∷ bob ∷ [];
  roles = admin ∷ [];
  user_roles = [];
  role_permissions = (codes "r1", codes "p5") ∷ [];
  permissions = (codes "p5", role_write) ∷ [];
}

abbrev staff : Rbac
staff = record nobody { user_roles = (alice, codes "r1") ∷ [] }

abbrev alice_admin : RoleInput
alice_admin = record { user_id = alice; role_id = codes "r1" }

roles-run :
    (assign_role nonempty_ids all_up alice_admin nobody nobody [] ≡ (ok tt, staff, []))
    × (get_permissions nonempty_ids all_up alice staff []
        ≡ (ok (role_write ∷ []), (permission_key alice, role_write ∷ []) ∷ []))
    × (revoke_role nonempty_ids all_up alice_admin staff staff
          ((permission_key alice, role_write ∷ []) ∷ [])
        ≡ (ok tt, nobody, []))
    × (revoke_role nonempty_ids all_up alice_admin nobody nobody []
        ≡ (err role_not_assigned, nobody, []))
unfolding assign_role financial_wallet.Ids.parse_id financial_wallet.Access.Roles.find_role_by_id
    financial_wallet.Access.find_role text_eq financial_wallet.Access.Roles.assign_row
    financial_wallet.Access.has_pair contains financial_wallet.Access.invalidate
    financial_wallet.Access.forget financial_wallet.Access.cache_drop get_permissions
    financial_wallet.Access.load_cached cache_find financial_wallet.Access.get_user_permissions
    user_permissions financial_wallet.Access.distinct financial_wallet.Access.Roles.build_assignment
    financial_wallet.Access.Roles.written financial_wallet.Access.join_all
    financial_wallet.Access.joined_with revoke_role financial_wallet.Access.Roles.revoke_row
    financial_wallet.Access.remove_pair
roles-run = (refl, refl, refl, refl)

-- A load, an assignment and a load again.
abbrev first_cells : Cells
first_cells = (get_permissions nonempty_ids all_up alice nobody []).1

abbrev assigned_db : Rbac
assigned_db = (assign_role nonempty_ids all_up alice_admin nobody nobody first_cells).1

abbrev assigned_cells : Cells
assigned_cells = (assign_role nonempty_ids all_up alice_admin nobody nobody first_cells).2

abbrev last_cells : Cells
last_cells = (get_permissions nonempty_ids all_up alice assigned_db assigned_cells).1

three_steps : Reach nonempty_ids (nobody, []) (assigned_db, last_cells)
three_steps =
    then_step {f = all_up}
      (then_step {f = all_up} (then_step {f = all_up} start (loaded alice refl))
        (assigned alice_admin nobody refl refl))
      (loaded alice refl)

Reach-IsCoherent_example : IsCoherent nonempty_ids assigned_db last_cells
Reach-IsCoherent_example = Reach-IsCoherent nonempty_ids nobody assigned_db last_cells three_steps

abbrev tokens : Text → Option Claims
tokens token =
    if text_eq token (codes "t1")
    then some (record { user_id = alice; token_type = codes "access" })
    else none

require_permission-permitted_example :
    HasToken tokens (codes "bearer t1") alice
    × (contains role_write (user_permissions nonempty_ids alice staff) ≡ true)
unfolding require_permission jwt_auth financial_wallet.Text.split_once
    financial_wallet.Access.Middleware.equal_fold text_eq get_permissions
    financial_wallet.Access.load_cached cache_find financial_wallet.Access.get_user_permissions
    financial_wallet.Ids.parse_id contains user_permissions financial_wallet.Access.distinct
    financial_wallet.Access.join_all financial_wallet.Access.joined_with
    financial_wallet.Access.get_roles financial_wallet.Access.cache_drop
    financial_wallet.Access.Middleware.require_loaded financial_wallet.Access.get_user_roles
    financial_wallet.Access.role_names financial_wallet.Access.user_role_names
require_permission-permitted_example =
    require_permission-permitted nonempty_ids all_up staff [] tokens (codes "bearer t1") role_write
      alice refl (Reach-IsCoherent nonempty_ids staff staff [] start) refl

-- Identifiers of which "A" is read as "a".
abbrev folded_ids : Libs
folded_ids = record nonempty_ids { uuid_text = λ t. if text_eq t (codes "A") then alice else t }

abbrev alice_in_upper_case : RoleInput
alice_in_upper_case = record { user_id = codes "A"; role_id = codes "r1" }

abbrev cached_cells : Cells
cached_cells = (permission_key alice, role_write ∷ []) ∷ []

stale-run :
    revoke_role folded_ids all_up alice_in_upper_case staff staff cached_cells
    ≡ (ok tt, nobody, cached_cells)
unfolding revoke_role financial_wallet.Ids.parse_id financial_wallet.Access.Roles.find_role_by_id
    financial_wallet.Access.find_role text_eq financial_wallet.Access.Roles.revoke_row
    financial_wallet.Access.has_pair financial_wallet.Access.remove_pair
    financial_wallet.Access.invalidate financial_wallet.Access.forget
    financial_wallet.Access.cache_drop
stale-run = refl

revoke_role-stale_example :
    (has_pair alice (codes "r1") nobody.user_roles ≡ false)
    × ((get_permissions folded_ids all_up alice nobody cached_cells).0 ≡ ok (role_write ∷ []))
unfolding text_eq cache_find
revoke_role-stale_example =
    revoke_role-stale folded_ids all_up alice_in_upper_case staff staff nobody all_up nobody alice
      cached_cells cached_cells (role_write ∷ []) refl refl refl refl stale-run
