-- ===== src/Access/Coherence.antt =====
-- The cache of permissions after any number of steps.
use financial_wallet.Prelude.{[]}
use financial_wallet.Libs.{Libs}
use financial_wallet.Access.{Rbac, AccessFaults, Cells, cache_find}
use financial_wallet.Access.Roles.{assign_row, revoke_row, assign_role, revoke_role}
use financial_wallet.Access.Steps.{
  IsCoherent, Step, loaded, roles_loaded, assigned, revoked, Reach, start, then_step,
}
use financial_wallet.Access.Loads.{get_permissions-IsCoherent, get_roles-IsCoherent}
use financial_wallet.Access.Changes.{assign_row-others, revoke_row-others, written-IsCoherent}

module _ (lib : Libs) where
  Step-IsCoherent :
      {f : AccessFaults} {s t : Rbac × Cells}
      → Step lib f s t
      → IsCoherent lib s.0 s.1
      → IsCoherent lib t.0 t.1
  unfolding assign_role revoke_role
  Step-IsCoherent {f} (loaded user {s} canonical) h =
      get_permissions-IsCoherent lib f user s.0 s.1 canonical h
  Step-IsCoherent {f} (roles_loaded user {s} canonical) h =
      get_roles-IsCoherent lib f user s.0 s.1 canonical h
  Step-IsCoherent {f} (assigned input replica {s} canonical up) h =
      written-IsCoherent lib f (assign_row lib f) input replica s.0 s.1 canonical up
        (λ db' u.
          assign_row-others lib f (lib.uuid_text input.user_id) (lib.uuid_text input.role_id) s.0
            db' u)
        h
  Step-IsCoherent {f} (revoked input replica {s} canonical up) h =
      written-IsCoherent lib f (revoke_row lib f) input replica s.0 s.1 canonical up
        (λ db' u.
          revoke_row-others lib f (lib.uuid_text input.user_id) (lib.uuid_text input.role_id) s.0
            db' u)
        h

  Reach-IsCoherentFrom :
      {s t : Rbac × Cells} → Reach lib s t → IsCoherent lib s.0 s.1 → IsCoherent lib t.0 t.1
  Reach-IsCoherentFrom start h = h
  Reach-IsCoherentFrom (then_step path step) h = Step-IsCoherent step (Reach-IsCoherentFrom path h)

  -- Starting from an empty cache, however the middleware loads permissions and roles and roles are
  -- assigned to users and revoked, one at a time: what the cache holds of a user, if anything, is what
  -- the tables give. Loads read the tables as they are, deletes in the cache succeed while its gets and
  -- sets may fail, users are named by the canonical text of their identifier, and no role is deleted.
  pub Reach-IsCoherent :
      (before after : Rbac) (cells : Cells)
      → Reach lib (before, []) (after, cells)
      → IsCoherent lib after cells
  unfolding cache_find
  Reach-IsCoherent before after cells path =
      Reach-IsCoherentFrom path (λ user. record { permissions = tt; roles = tt })
