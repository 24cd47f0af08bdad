-- ===== src/Access/Loads.antt =====
-- The cache of permissions after a load.
use financial_wallet.Prelude.{◌≡◌, sym, ap, ◌∙◌, List}
use financial_wallet.Text.{Text, text_eq, text_eq_iff}
use financial_wallet.Result.{ok, ok-injective}
use financial_wallet.Libs.{Libs}
use financial_wallet.Usecases.Steps.{parse_id-bind, fail_if-bind}
use financial_wallet.Access.{
  Rbac, AccessFaults, Cells, permission_key, role_key, user_permissions, user_role_names,
  get_user_permissions, get_user_roles, get_permissions, get_roles,
}
use financial_wallet.Access.Cache.{load_cached-Agrees}
use financial_wallet.Access.Steps.{IsCoherent}

module _ (lib : Libs) (f : AccessFaults) where
  pub get_user_permissions-eq_ok :
      (user : Text) (db : Rbac) (names : List Text)
      → lib.uuid_text user ≡ user
      → get_user_permissions lib f user db ≡ ok names
      → user_permissions lib user db ≡ names
  unfolding get_user_permissions
  get_user_permissions-eq_ok user db names canonical h =
      let (_, h1) = parse_id-bind lib user _ h in
      let (_, h2) = fail_if-bind f.read _ _ h1 in
      ap (λ u. user_permissions lib u db) (sym canonical) ∙ ok-injective h2

  get_user_roles-eq_ok :
      (user : Text) (db : Rbac) (names : List Text)
      → lib.uuid_text user ≡ user
      → get_user_roles lib f user db ≡ ok names
      → user_role_names lib user db ≡ names
  unfolding get_user_roles
  get_user_roles-eq_ok user db names canonical h =
      let (_, h1) = parse_id-bind lib user _ h in
      let (_, h2) = fail_if-bind f.read _ _ h1 in
      ap (λ u. user_role_names lib u db) (sym canonical) ∙ ok-injective h2

  pub get_permissions-IsCoherent :
      (user : Text) (db : Rbac) (cells : Cells)
      → lib.uuid_text user ≡ user
      → IsCoherent lib db cells
      → IsCoherent lib db (get_permissions lib f user db cells).1
  unfolding get_permissions text_eq
  get_permissions-IsCoherent user db cells canonical h u = record {
    permissions =
        load_cached-Agrees f (permission_key u) (permission_key user)
          (get_user_permissions lib f user db) (user_permissions lib u db) cells
          (λ names loaded same.
            sym (get_user_permissions-eq_ok user db names canonical loaded)
            ∙ ap (λ x. user_permissions lib x db) ((text_eq_iff user u).0 same))
          (h u).permissions;
    roles =
        load_cached-Agrees f (role_key u) (permission_key user) (get_user_permissions lib f user db)
          (user_role_names lib u db) cells (λ names loaded same. cc same) (h u).roles;
  }

  pub get_roles-IsCoherent :
      (user : Text) (db : Rbac) (cells : Cells)
      → lib.uuid_text user ≡ user
      → IsCoherent lib db cells
      → IsCoherent lib db (get_roles lib f user db cells).1
  unfolding get_roles text_eq
  get_roles-IsCoherent user db cells canonical h u = record {
    permissions =
        load_cached-Agrees f (permission_key u) (role_key user) (get_user_roles lib f user db)
          (user_permissions lib u db) cells (λ names loaded same. cc same) (h u).permissions;
    roles =
        load_cached-Agrees f (role_key u) (role_key user) (get_user_roles lib f user db)
          (user_role_names lib u db) cells
          (λ names loaded same.
            sym (get_user_roles-eq_ok user db names canonical loaded)
            ∙ ap (λ x. user_role_names lib x db) ((text_eq_iff user u).0 same))
          (h u).roles;
  }
