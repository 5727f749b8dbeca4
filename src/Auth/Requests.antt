-- ===== src/Auth/Requests.antt =====
-- The users table stays well formed under every request.
use aithena.Base.{
  ℕ, Bool, true, false, Option, none, some, List, [], ◌∷◌, String, ◌==◌, if◌then◌else◌, not, ◌&&◌,
}
use aithena.Base.Text.{Text}
use aithena.RateLimit.{RateLimiter, is_allowed}
use aithena.Auth.{Result, ok, err, AuthenticatedUser, AuthError}
use aithena.Auth.Users.{Users, Account, empty, get_user_by_id, authenticate_user}
use aithena.Auth.Accounts.{seed_default_admin}
use aithena.Auth.Keys.{IsValid}
use aithena.Auth.Invariant.{
  authenticate_user-IsValid, create_user-IsValid, change_password-IsValid, update_user-IsValid,
  delete_user-IsValid, seed_default_admin-IsValid,
}
use aithena.Auth.Endpoints.{
  Request, Moment, World, State, Call, login, validate, validate_admin, logout, signed_in, UserCall,
  get_me, get_users, put_password, register, put_user, remove_user, Gate, refused, passed,
  require_authentication, get_current_user, auth_login, Response, logged_in,
}
use aithena.Auth.Routes.{
  is_admin, respond, handle, run, as_user, with_user, auth_update_user, update_found, is_given_role,
  gated,
}

abbrev IsSound : Response × State → Type 0
IsSound result = IsValid result.1.users

if-IsSound :
    (b : Bool) (x y : Response × State) → IsSound x → IsSound y → IsSound (if b then x else y)
if-IsSound true x y hx hy = hx
if-IsSound false x y hx hy = hy

module _ (world : World) where
  logged_in-IsSound :
      (remember_me : Bool) (at : Moment) (found : Option AuthenticatedUser × Users)
      (limiter : RateLimiter)
      → IsValid found.1
      → IsSound (logged_in world remember_me at found limiter)
  logged_in-IsSound remember_me at (none, users) limiter valid = valid
  logged_in-IsSound remember_me at (some user, users) limiter valid = valid

  auth_login-IsSound :
      (username password : Text) (remember_me : Bool) (request : Request) (at : Moment)
      (state : State)
      → IsValid state.users
      → IsSound (auth_login world username password remember_me request at state)
  unfolding auth_login
  auth_login-IsSound username password remember_me request at state valid =
      if-IsSound (is_allowed request.client_ip at.now state.login_rate_limiter).0 _ _
        (logged_in-IsSound remember_me at
          (authenticate_user world.hasher at.salt username password state.users)
          (is_allowed request.client_ip at.now state.login_rate_limiter).1
          (authenticate_user-IsValid world.hasher at.salt username password state.users valid))
        valid

  update_found-IsSound :
      (target : Option Account) (id : ℕ) (username role : Option Text) (state : State)
      → IsValid state.users
      → IsSound (update_found world target id username role state)
  update_found-IsSound none id username role state valid = valid
  update_found-IsSound (some target) id username role state valid =
      update_user-IsValid id username role state.users valid

  auth_update_user-IsSound :
      (id : ℕ) (username role : Option Text) (user : AuthenticatedUser) (state : State)
      → IsValid state.users
      → IsSound (auth_update_user world id username role user state)
  auth_update_user-IsSound id username role user state valid =
      if-IsSound (not (is_admin user) && not (user.id == id)) _ _ valid (
        if-IsSound (not (is_admin user) && is_given_role world role) _ _ valid
          (update_found-IsSound (get_user_by_id id state.users) id username role state valid))

  as_user-IsSound :
      (call : UserCall) (user : AuthenticatedUser) (at : Moment) (state : State)
      → IsValid state.users
      → IsSound (as_user world call user at state)
  as_user-IsSound get_me user at state valid = valid
  as_user-IsSound get_users user at state valid = if-IsSound (is_admin user) _ _ valid valid
  as_user-IsSound (put_password a b) user at state valid =
      change_password-IsValid world.hasher world.casefold at.salt user.id a b state.users valid
  as_user-IsSound (register a b c) user at state valid =
      if-IsSound (is_admin user) _ _
        (create_user-IsValid world.hasher world.casefold at.salt at.stamp a b c state.users valid)
        valid
  as_user-IsSound (put_user id a b) user at state valid =
      auth_update_user-IsSound id a b user state valid
  as_user-IsSound (remove_user id) user at state valid =
      if-IsSound (is_admin user) _ _
        (if-IsSound (user.id == id) _ _ valid (delete_user-IsValid id state.users valid)) valid

  with_user-IsSound :
      (found : Result AuthError AuthenticatedUser) (call : UserCall) (at : Moment) (state : State)
      → IsValid state.users
      → IsSound (with_user world found call at state)
  with_user-IsSound (ok user) call at state valid = as_user-IsSound call user at state valid
  with_user-IsSound (err e) call at state valid = valid

  respond-IsSound :
      (call : Call) (request : Request) (at : Moment) (auth_user : Option AuthenticatedUser)
      (state : State)
      → IsValid state.users
      → IsSound (respond world call request at auth_user state)
  unfolding respond
  respond-IsSound (login a b c) request at auth_user state valid =
      auth_login-IsSound a b c request at state valid
  respond-IsSound validate request at auth_user state valid = valid
  respond-IsSound validate_admin request at auth_user state valid = valid
  respond-IsSound logout request at auth_user state valid = valid
  respond-IsSound (signed_in call) request at auth_user state valid =
      with_user-IsSound (get_current_user world request at.seconds auth_user) call at state valid

  gated-IsSound :
      (gate : Gate) (call : Call) (request : Request) (at : Moment) (state : State)
      → IsValid state.users
      → IsSound (gated world gate call request at state)
  gated-IsSound (refused e) call request at state valid = valid
  gated-IsSound (passed auth_user) call request at state valid =
      respond-IsSound call request at auth_user state valid

  run-IsValid :
      (calls : List (Call × Request × Moment)) (state : State)
      → IsValid state.users
      → IsValid (run world calls state).users
  unfolding run handle
  run-IsValid [] state valid = valid
  run-IsValid ((call, request, at) ∷ calls) state valid =
      run-IsValid calls (handle world call request at state).1 (
        gated-IsSound (require_authentication world request at.seconds) call request at state valid)

-- From the table that the first start leaves, with or without the default administrator, any requests
-- of anybody, in any order, leave a users table in which no two rows have one id or names that differ
-- in the case of ASCII letters only, every id was given by the table, and every role is "admin", "user"
-- or "viewer".
pub run-IsValid_from_start :
    (world : World) (username password salt : Text) (now : String) (limiter : RateLimiter)
    (calls : List (Call × Request × Moment))
    → IsValid
        (run world calls (record {
          users = seed_default_admin world.hasher username password salt now empty;
          login_rate_limiter = limiter;
        })).users
run-IsValid_from_start world username password salt now limiter calls =
    run-IsValid world calls _
      (seed_default_admin-IsValid world.hasher username password salt now empty (tt, tt))
