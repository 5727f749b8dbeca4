-- ===== src/Auth/Admin.antt =====
-- src/solr-search/admin_auth.py: the dependency of the endpoints under /v1/admin, behind the
-- middleware. `hmac.compare_digest` is equality.
pub mod Access
use aithena.Base.{ℕ, ◌≡◌, Bool, true, false, ◌&&◌, Option, none, some, List, [], ◌∷◌, if◌then◌else◌}
use aithena.Base.Text.{Text, codes, text_eq, strip}
use aithena.Password.{is_given}
use aithena.Auth.{Result, ok, err, AuthenticatedUser, AuthError}
use aithena.Auth.Endpoints.{
  Request, World, Gate, refused, passed, get_current_user, require_authentication,
}
use aithena.Auth.Routes.{is_admin}

-- The 401 replies: of the middleware, for a wrong key, and for neither a key nor an administrator;
-- and the 403 reply of require_role.
pub data AdminError : Type 0 where
  not_authenticated invalid_key access_required insufficient_permissions : AdminError

-- _extract_api_key
abbrev pub extract_api_key : Option Text → Option Text
extract_api_key none = none
extract_api_key (some api_key) = if is_given api_key then some (strip api_key) else none

-- _is_authenticated_admin
abbrev pub is_authenticated_admin : Option AuthenticatedUser → Bool
is_authenticated_admin none = false
is_authenticated_admin (some user) = is_admin user

abbrev pub by_session : Option AuthenticatedUser → Result AdminError Unit
by_session auth_user = if is_authenticated_admin auth_user then ok tt else err access_required

abbrev pub check_keys :
    Option Text → Option Text → Option AuthenticatedUser → Result AdminError Unit
check_keys none admin_api_key auth_user = by_session auth_user
check_keys (some provided_key) none auth_user = by_session auth_user
check_keys (some provided_key) (some admin_api_key) auth_user =
    if text_eq provided_key admin_api_key then ok tt else err invalid_key

-- require_admin_auth, with the ADMIN_API_KEY of the settings
unfoldable pub require_admin_auth :
    Option Text → Request → Option AuthenticatedUser → Result AdminError Unit
require_admin_auth admin_api_key request auth_user =
    check_keys (extract_api_key request.api_key) admin_api_key auth_user

-- require_role("admin") for the user of _get_current_user, where the endpoint names it
abbrev pub check_role : Bool → Result AuthError AuthenticatedUser → Result AdminError Unit
check_role false current_user = ok tt
check_role true (err e) = err not_authenticated
check_role true (ok user) = if is_admin user then ok tt else err insufficient_permissions

-- a dependency after another
abbrev pub and_then : Result AdminError Unit → Result AdminError Unit → Result AdminError Unit
and_then (err e) second = err e
and_then (ok done) second = second

abbrev pub behind_gate : World → Option Text → Bool → Request → ℕ → Gate → Result AdminError Unit
behind_gate world admin_api_key needs_role request seconds (refused e) = err not_authenticated
behind_gate world admin_api_key needs_role request seconds (passed auth_user) =
    and_then (require_admin_auth admin_api_key request auth_user)
      (check_role needs_role (get_current_user world request seconds auth_user))

-- What meets a request for an administrator's endpoint: the middleware, then the dependencies,
-- `[Depends(require_admin_auth)]` or, where the flag is set (the three endpoints that edit metadata),
-- `[Depends(require_admin_auth), require_role("admin")]`.
unfoldable pub reach_admin : World → Option Text → Bool → Request → ℕ → Result AdminError Unit
unfolding require_admin_auth
reach_admin world admin_api_key needs_role request seconds =
    behind_gate world admin_api_key needs_role request seconds
      (require_authentication world request seconds)
