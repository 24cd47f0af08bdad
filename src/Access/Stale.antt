-- ===== src/Access/Stale.antt =====
-- A revocation of internal/usecases/role/revoke.go that does not reach the cache.
use financial_wallet.Prelude.{
  ◌≡◌, refl, sym, ap, ◌∙◌, inl, inr, Bool-cases, false, some, List, [], ◌∷◌, arith,
}
use financial_wallet.Text.{Text, text_eq}
use financial_wallet.Result.{ok, ok-injective, >>=-eq-ok, Result-cases}
use financial_wallet.Libs.{Libs}
use financial_wallet.Access.{
  Rbac, AccessFaults, Cells, cache_find, cache_drop, load_through, load_cached, permission_key,
  role_key, get_permissions, invalidate, forget, has_pair, remove_pair,
}
use financial_wallet.Access.Cache.{cache_find-drop_other}
use financial_wallet.Access.Roles.{
  RoleInput, revoke_row, find_role_by_id, build_assignment, written, revoke_role,
}
use financial_wallet.Usecases.Steps.{fail_if-bind, parse_id-bind}

has_pair-removed :
    (a b : Text) (rows : List (Text × Text)) → has_pair a b (remove_pair a b rows) ≡ false
unfolding has_pair remove_pair
has_pair-removed a b [] = refl
has_pair-removed a b ((x, y) ∷ rows) = ground (arith, has_pair-removed a b rows)

invalidate-other :
    (f : AccessFaults) (u user : Text) (cells : Cells)
    → text_eq u user ≡ false
    → cache_find (permission_key user) (invalidate f u cells)
      ≡ cache_find (permission_key user) cells
unfolding invalidate forget text_eq
invalidate-other f u user cells other = elim (Bool-cases f.cache_delete) [
  | inl down ↦ rw down refl
  | inr up ↦ rw up (
      cache_find-drop_other (permission_key user) (role_key u) (cache_drop (permission_key u) cells)
        refl
      ∙ cache_find-drop_other (permission_key user) (permission_key u) cells other)
]

module _ (lib : Libs) (f : AccessFaults) (input : RoleInput) (replica primary after : Rbac) where
  revoked-has_pair :
      build_assignment lib (revoke_row lib f) f input replica primary ≡ ok after
      → has_pair (lib.uuid_text input.user_id) (lib.uuid_text input.role_id) after.user_roles
        ≡ false
  unfolding build_assignment revoke_row
  revoked-has_pair h =
      let (_, h1) = parse_id-bind lib input.user_id _ h in
      let (_, h2) = parse_id-bind lib input.role_id _ h1 in
      let (_, _, h3) = >>=-eq-ok (find_role_by_id lib f input.role_id replica) _ h2 in
      let (_, h4) = fail_if-bind f.write _ _ h3 in
      let (_, h5) = fail_if-bind _ _ _ h4 in
      ap
        (λ (d : Rbac).
          has_pair (lib.uuid_text input.user_id) (lib.uuid_text input.role_id) d.user_roles)
        (sym (ok-injective h5))
      ∙ has_pair-removed (lib.uuid_text input.user_id) (lib.uuid_text input.role_id)
          primary.user_roles

  -- A revocation that succeeds and names its user by another text than the canonical one of the same
  -- identifier, as in upper case, has taken the role from the user in the tables; yet the permissions
  -- that were cached for the user before are what the loader still answers, whatever the tables hold
  -- by then, as long as the cache can be read.
  pub revoke_role-stale :
      (g : AccessFaults) (later : Rbac) (user : Text) (cells cells' : Cells) (names : List Text)
      → lib.uuid_text input.user_id ≡ user
      → text_eq input.user_id user ≡ false
      → cache_find (permission_key user) cells ≡ some names
      → g.cache_get ≡ false
      → revoke_role lib f input replica primary cells ≡ (ok tt, after, cells')
      → (has_pair user (lib.uuid_text input.role_id) after.user_roles ≡ false)
        × ((get_permissions lib g user later cells').0 ≡ ok names)
  unfolding revoke_role written get_permissions load_cached load_through
  revoke_role-stale g later user cells cells' names canonical other cached readable h =
      elim (Result-cases (build_assignment lib (revoke_row lib f) f input replica primary)) [
        | inl (e, refused) ↦ cc (rw refused at h)
        | inr (db', built) ↦
            let done : (ok tt, db', invalidate f input.user_id cells) ≡ (ok tt, after, cells') =
              rw built at h in
            let tables : db' ≡ after = ap (λ p. p.1) done in
            let kept : cache_find (permission_key user) cells' ≡ some names =
              ap (λ c. cache_find (permission_key user) c) (sym (ap (λ p. p.2) done))
              ∙ invalidate-other f input.user_id user cells other
              ∙ cached in
            (
              ap (λ u. has_pair u (lib.uuid_text input.role_id) after.user_roles) (sym canonical)
                  ∙ revoked-has_pair (built ∙ ap ok tables),
              rw (readable, kept) refl,
            )
      ]
