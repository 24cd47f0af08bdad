-- ===== src/Access/Changes.antt =====
-- The cache of permissions after an assignment or a revocation of a role.
use mathlib.Core.Path.{subst}
use financial_wallet.Prelude.{
  ◌≡◌, refl, ap, ◌∙◌, inl, inr, Bool-cases, true, false, ◌&&◌, List, [], ◌∷◌, arith,
}
use financial_wallet.Text.{Text, text_eq, text_eq_iff}
use financial_wallet.Result.{Result, ok, >>=-eq-ok, Result-cases}
use financial_wallet.Libs.{Libs}
use financial_wallet.Usecases.Steps.{parse_id-bind}
use financial_wallet.Access.{
  Rbac, AccessFaults, Cells, cache_drop, permission_key, role_key, forget, invalidate, joined_with,
  remove_pair, distinct, join_all, role_names, user_permissions, user_role_names,
}
use financial_wallet.Access.Roles.{
  RoleInput, assign_row, revoke_row, find_role_by_id, build_assignment, written,
}
use financial_wallet.Access.Cache.{cache_find-drop, cache_find-drop_other, cache_drop-Agrees}
use financial_wallet.Access.Steps.{IsCoherentFor, IsCoherent}

module _ (lib : Libs) (f : AccessFaults) where
  -- After an invalidation of the user whose roles changed, the caches agree with the new tables.
  invalidate-IsCoherent :
      (user : Text) (db db' : Rbac) (cells : Cells)
      → f.cache_delete ≡ false
      → ((u : Text)
          → text_eq user u ≡ false
          → (user_permissions lib u db' ≡ user_permissions lib u db)
            × (user_role_names lib u db' ≡ user_role_names lib u db))
      → IsCoherent lib db cells
      → IsCoherent lib db' (invalidate f user cells)
  unfolding invalidate forget text_eq
  invalidate-IsCoherent user db db' cells up others h u = elim (Bool-cases (text_eq user u)) [
    | inl same ↦
        subst (IsCoherentFor lib db' (invalidate f user cells)) ((text_eq_iff user u).0 same) (
          rw up (record {
            permissions =
                rw
                  (
                    cache_find-drop_other (permission_key user) (role_key user)
                        (cache_drop (permission_key user) cells) refl,
                    cache_find-drop (permission_key user) cells,
                  )
                  tt;
            roles =
                rw (cache_find-drop (role_key user) (cache_drop (permission_key user) cells)) tt;
          }))
    | inr other ↦ rw up (record {
      permissions =
          cache_drop-Agrees (permission_key u) (role_key user) (user_permissions lib u db')
            (cache_drop (permission_key user) cells)
            (cache_drop-Agrees (permission_key u) (permission_key user) (user_permissions lib u db')
              cells (rw ((others u other).0) (h u).permissions));
      roles =
          cache_drop-Agrees (role_key u) (role_key user) (user_role_names lib u db')
            (cache_drop (permission_key user) cells)
            (cache_drop-Agrees (role_key u) (permission_key user) (user_role_names lib u db') cells
              (rw ((others u other).1) (h u).roles));
    })
  ]

  -- The views of a user depend on the roles that the user is joined with.
  same_views :
      (u : Text) (db : Rbac) (rows : List (Text × Text))
      → joined_with u rows ≡ joined_with u db.user_roles
      → (user_permissions lib u (record db { user_roles = rows }) ≡ user_permissions lib u db)
        × (user_role_names lib u (record db { user_roles = rows }) ≡ user_role_names lib u db)
  unfolding user_permissions user_role_names
  same_views u db rows same = (
    ap
        (λ ids.
          lib.order_names (distinct (join_all (join_all ids db.role_permissions) db.permissions)))
        same,
    ap (λ ids. lib.order_names (distinct (role_names ids db.roles))) same,
  )

  -- The roles of other users than the one whose row is written.
  pub assign_row-others :
      (user role : Text) (db db' : Rbac) (u : Text)
      → assign_row lib f user role db ≡ ok db'
      → text_eq user u ≡ false
      → (user_permissions lib u db' ≡ user_permissions lib u db)
        × (user_role_names lib u db' ≡ user_role_names lib u db)
  unfolding assign_row joined_with
  assign_row-others user role db db' u h other =
      let same : record db { user_roles = (user, role) ∷ db.user_roles } ≡ db' = ground arith in
      subst
        (λ d.
          (user_permissions lib u d ≡ user_permissions lib u db)
          × (user_role_names lib u d ≡ user_role_names lib u db))
        same (same_views u db ((user, role) ∷ db.user_roles) (rw other refl))

  joined_with-remove_pair :
      (user role u : Text) (rows : List (Text × Text))
      → text_eq user u ≡ false
      → joined_with u (remove_pair user role rows) ≡ joined_with u rows
  unfolding joined_with remove_pair
  joined_with-remove_pair user role u [] other = refl
  joined_with-remove_pair user role u ((x, y) ∷ rows) other =
      elim (Bool-cases (text_eq x user && text_eq y role)) [
        | inl gone ↦
            let here : text_eq x user ≡ true = ground arith in
            let away : text_eq x u ≡ false =
              ap (λ t. text_eq t u) ((text_eq_iff x user).0 here) ∙ other in
            rw (gone, away) (joined_with-remove_pair user role u rows other)
        | inr stays ↦ elim (Bool-cases (text_eq x u)) [
          | inl mine ↦
              rw (stays, mine) (ap (λ t. y ∷ t) (joined_with-remove_pair user role u rows other))
          | inr theirs ↦ rw (stays, theirs) (joined_with-remove_pair user role u rows other)
        ]
      ]

  pub revoke_row-others :
      (user role : Text) (db db' : Rbac) (u : Text)
      → revoke_row lib f user role db ≡ ok db'
      → text_eq user u ≡ false
      → (user_permissions lib u db' ≡ user_permissions lib u db)
        × (user_role_names lib u db' ≡ user_role_names lib u db)
  unfolding revoke_row
  revoke_row-others user role db db' u h other =
      let same : record db { user_roles = remove_pair user role db.user_roles } ≡ db' =
        ground arith in
      subst
        (λ d.
          (user_permissions lib u d ≡ user_permissions lib u db)
          × (user_role_names lib u d ≡ user_role_names lib u db))
        same
        (same_views u db (remove_pair user role db.user_roles)
          (joined_with-remove_pair user role u db.user_roles other))

  build_assignment-eq_ok :
      (write : Text → Text → Rbac → Result Rbac) (input : RoleInput) (replica db db' : Rbac)
      → build_assignment lib write f input replica db ≡ ok db'
      → write (lib.uuid_text input.user_id) (lib.uuid_text input.role_id) db ≡ ok db'
  unfolding build_assignment
  build_assignment-eq_ok write input replica db db' h =
      let (_, h1) = parse_id-bind lib input.user_id _ h in
      let (_, h2) = parse_id-bind lib input.role_id _ h1 in
      let (found, _, h3) = >>=-eq-ok (find_role_by_id lib f input.role_id replica) _ h2 in h3

  pub written-IsCoherent :
      (write : Text → Text → Rbac → Result Rbac) (input : RoleInput) (replica db : Rbac)
      (cells : Cells)
      → lib.uuid_text input.user_id ≡ input.user_id
      → f.cache_delete ≡ false
      → ((db' : Rbac) (u : Text)
          → write (lib.uuid_text input.user_id) (lib.uuid_text input.role_id) db ≡ ok db'
          → text_eq (lib.uuid_text input.user_id) u ≡ false
          → (user_permissions lib u db' ≡ user_permissions lib u db)
            × (user_role_names lib u db' ≡ user_role_names lib u db))
      → IsCoherent lib db cells
      → IsCoherent lib
          (written lib f input.user_id (build_assignment lib write f input replica db) db cells).1
          (written lib f input.user_id (build_assignment lib write f input replica db) db cells).2
  unfolding written
  written-IsCoherent write input replica db cells canonical up others h =
      elim (Result-cases (build_assignment lib write f input replica db)) [
        | inl (e, refused) ↦ rw refused h
        | inr (db', built) ↦ rw built (
            invalidate-IsCoherent input.user_id db db' cells up
              (λ u other.
                others db' u (build_assignment-eq_ok write input replica db db' built)
                  (ap (λ t. text_eq t u) canonical ∙ other))
              h)
      ]
