-- ===== src/Access/Middleware.antt =====
-- internal/infrastructure/web/middleware: jwt.go and authorization.go.
use financial_wallet.Prelude.{
  ℕ, Bool, true, false, not, ◌&&◌, Option, none, some, List, [], ◌∷◌, leb, ◌+◌, ◌==◌, if◌then◌else◌,
}
use financial_wallet.Text.{Text, codes, text_eq, is_empty, contains, split_once}
use financial_wallet.Result.{Result, ok, err}
use financial_wallet.Libs.{Libs}
use financial_wallet.Access.{Rbac, AccessFaults, Cells, get_permissions, get_roles}

-- What the middleware answers instead of calling the handler, or the user it calls the handler for.
pub data Verdict : Type 0 where
  rejected : ℕ → Verdict
  allowed : Text → Verdict

pub record Claims : Type 0 where
  pub user_id : Text
  pub token_type : Text

-- strings.EqualFold with an ASCII text
abbrev fold_ascii : ℕ → ℕ
fold_ascii c = if leb b'A' c && leb c b'Z' then c + 32 else c

unfoldable pub equal_fold : Text → Text → Bool
equal_fold [] [] = true
equal_fold [] (y ∷ ys) = false
equal_fold (x ∷ xs) [] = false
equal_fold (x ∷ xs) (y ∷ ys) = fold_ascii x == fold_ascii y && equal_fold xs ys

abbrev pub token_verdict : Option Claims → Verdict
token_verdict none = rejected 401
token_verdict (some claims) =
    if not (text_eq claims.token_type (codes "access"))
    then rejected 401
    else allowed claims.user_id

abbrev pub bearer_verdict : (Text → Option Claims) → Text × Option Text → Verdict
bearer_verdict validate (scheme, none) = rejected 401
bearer_verdict validate (scheme, some token) =
    if not (equal_fold scheme (codes "Bearer"))
    then rejected 401
    else token_verdict (validate token)

-- JWTAuth, with the validation of tokens as an argument.
unfoldable pub jwt_auth : (Text → Option Claims) → Text → Verdict
jwt_auth validate header =
    if is_empty header then rejected 401 else bearer_verdict validate (split_once b' ' header)

abbrev pub roles_verdict : Text → Result (List Text) → Verdict
roles_verdict user (err e) = rejected 500
roles_verdict user (ok roles) = allowed user

module _ (lib : Libs) where
  unfoldable pub require_loaded :
      AccessFaults → Text → Text → Rbac → Result (List Text) × Cells → Verdict × Cells
  require_loaded f user required replica (err e, cells) = (rejected 500, cells)
  require_loaded f user required replica (ok permissions, cells) =
      let (roles, after) = get_roles lib f user replica cells in
      if not (contains required permissions)
      then (rejected 403, cells)
      else (roles_verdict user roles, after)

  -- RequirePermission for the user that JWTAuth put into the context.
  unfoldable pub require_permission : AccessFaults → Text → Verdict → Rbac → Cells → Verdict × Cells
  unfolding require_loaded
  require_permission f required (rejected code) replica cells = (rejected code, cells)
  require_permission f required (allowed user) replica cells =
      if is_empty user
      then (rejected 401, cells)
      else require_loaded f user required replica (get_permissions lib f user replica cells)
