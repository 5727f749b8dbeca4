-- ===== src/Auth/Routes.antt =====
-- src/solr-search/main.py: the endpoints under /v1/auth after login, behind the middleware.
use aithena.Base.{
  ℕ, Bool, true, false, not, ◌&&◌, Option, none, some, List, [], ◌∷◌, ◌==◌, if◌then◌else◌,
}
use aithena.Base.Text.{Text, codes, text_eq}
use aithena.Auth.{
  Result, ok, err, AuthenticatedUser, AuthError, get_token_remember_me, get_token_from_sources,
}
use aithena.Auth.Users.{
  Users, Account, UserError, empty_username, invalid_role, user_exists, user_not_found,
  current_incorrect, same_password, weak_password, create_user, list_users, get_user_by_id,
  delete_user,
}
use aithena.Auth.Accounts.{update_user, change_password}
use aithena.Auth.Endpoints.{
  Request, Moment, World, State, cleared, set_cookie, detail, done, validated, me, account,
  accounts, Response, Call, login, validate, validate_admin, logout, signed_in, UserCall, get_me,
  get_users, put_password, register, put_user, remove_user, answer, refusal, Gate, refused, passed,
  authenticate_request, require_authentication, get_current_user, max_age, auth_login,
}

abbrev pub is_admin : AuthenticatedUser → Bool
is_admin user = text_eq user.role (codes "admin")

-- the state with another users table
abbrev pub with_users : State → Users → State
with_users state users = record state { users = users }

abbrev pub registered : Result UserError Account → Response
registered (ok added) = answer 200 (account added)
registered (err user_exists) = answer 409 detail
registered (err (weak_password violations)) = answer 422 detail
registered (err empty_username) = answer 422 detail
registered (err invalid_role) = answer 422 detail
registered (err user_not_found) = answer 422 detail
registered (err current_incorrect) = answer 422 detail
registered (err same_password) = answer 422 detail

abbrev pub updated : Result UserError (Option Account) → Response
updated (ok (some changed)) = answer 200 (account changed)
updated (ok none) = answer 404 detail
updated (err user_exists) = answer 409 detail
updated (err (weak_password violations)) = answer 422 detail
updated (err empty_username) = answer 422 detail
updated (err invalid_role) = answer 422 detail
updated (err user_not_found) = answer 422 detail
updated (err current_incorrect) = answer 422 detail
updated (err same_password) = answer 422 detail

abbrev pub password_changed : Result UserError Unit → Response
password_changed (ok tt) = answer 200 done
password_changed (err (weak_password violations)) = answer 422 detail
password_changed (err user_not_found) = answer 404 detail
password_changed (err user_exists) = answer 400 detail
password_changed (err empty_username) = answer 400 detail
password_changed (err invalid_role) = answer 400 detail
password_changed (err current_incorrect) = answer 400 detail
password_changed (err same_password) = answer 400 detail

module _ (world : World) where
  abbrev refreshed : Text → AuthenticatedUser → Result AuthError Bool → Response
  refreshed token user (err e) = answer 500 detail
  refreshed token user (ok remember_me) = record {
    status = 200;
    body = validated user;
    cookie = set_cookie token (max_age world remember_me);
  }

  abbrev validate_token : Option Text → Result AuthError AuthenticatedUser → ℕ → Response
  validate_token token (err e) seconds = refusal e
  validate_token none (ok user) seconds = answer 500 detail
  validate_token (some token) (ok user) seconds =
      refreshed token user (get_token_remember_me world.jwt world.secret seconds token)

  -- auth_validate
  abbrev pub auth_validate : Request → ℕ → Response
  auth_validate request seconds =
      validate_token (get_token_from_sources request.authorization request.cookie)
        (authenticate_request world request seconds) seconds

  abbrev checked_admin : Response → Result AuthError AuthenticatedUser → Response
  checked_admin response (err e) = response
  checked_admin response (ok user) = if is_admin user then response else answer 403 detail

  -- auth_validate_admin; HTTPException drops the cookie that auth_validate set on the response
  abbrev pub auth_validate_admin : Request → ℕ → Response
  auth_validate_admin request seconds =
      checked_admin (auth_validate request seconds) (authenticate_request world request seconds)

  -- auth_change_password
  abbrev pub auth_change_password :
      Text → Text → AuthenticatedUser → Moment → State → Response × State
  auth_change_password current_password new_password user at state =
      let (result, users) =
        change_password world.hasher world.casefold at.salt user.id current_password new_password
          state.users in
      (password_changed result, with_users state users)

  -- auth_register
  abbrev pub auth_register : Text → Text → Text → Moment → State → Response × State
  auth_register username password role at state =
      let (result, users) =
        create_user world.hasher world.casefold at.salt at.stamp username password role
          state.users in
      (registered result, with_users state users)

  abbrev pub update_found :
      Option Account → ℕ → Option Text → Option Text → State → Response × State
  update_found none id username role state = (answer 404 detail, state)
  update_found (some target) id username role state =
      let (result, users) = update_user id username role state.users in
      (updated result, with_users state users)

  abbrev pub is_given_role : Option Text → Bool
  is_given_role none = false
  is_given_role (some role) = true

  -- auth_update_user
  abbrev pub auth_update_user :
      ℕ → Option Text → Option Text → AuthenticatedUser → State → Response × State
  auth_update_user id username role user state =
      if not (is_admin user) && not (user.id == id)
      then (answer 403 detail, state)
      else if not (is_admin user) && is_given_role role
      then (answer 403 detail, state)
      else update_found (get_user_by_id id state.users) id username role state

  -- auth_delete_user
  abbrev pub auth_delete_user : ℕ → AuthenticatedUser → State → Response × State
  auth_delete_user id user state =
      let (deleted, users) = delete_user id state.users in
      if user.id == id then (answer 400 detail, state) else (
        answer (if deleted then 200 else 404) (if deleted then done else detail),
        with_users state users,
      )

  -- require_role("admin")
  abbrev pub for_admin : AuthenticatedUser → State → Response × State → Response × State
  for_admin user state result = if is_admin user then result else (answer 403 detail, state)

  -- an endpoint that needs a user
  abbrev pub as_user : UserCall → AuthenticatedUser → Moment → State → Response × State
  as_user get_me user at state = (answer 200 (me user), state)
  as_user get_users user at state =
      for_admin user state (answer 200 (accounts (list_users state.users)), state)
  as_user (put_password current_password new_password) user at state =
      auth_change_password current_password new_password user at state
  as_user (register username password role) user at state =
      for_admin user state (auth_register username password role at state)
  as_user (put_user id username role) user at state = auth_update_user id username role user state
  as_user (remove_user id) user at state = for_admin user state (auth_delete_user id user state)

  abbrev pub with_user :
      Result AuthError AuthenticatedUser → UserCall → Moment → State → Response × State
  with_user (err e) call at state = (refusal e, state)
  with_user (ok user) call at state = as_user call user at state

  -- an endpoint behind the middleware
  unfoldable pub respond :
      Call → Request → Moment → Option AuthenticatedUser → State → Response × State
  respond (login username password remember_me) request at auth_user state =
      auth_login world username password remember_me request at state
  respond validate request at auth_user state = (auth_validate request at.seconds, state)
  respond validate_admin request at auth_user state =
      (auth_validate_admin request at.seconds, state)
  respond logout request at auth_user state = (record (answer 200 done) { cookie = cleared }, state)
  respond (signed_in call) request at auth_user state =
      with_user (get_current_user world request at.seconds auth_user) call at state

  abbrev pub gated : Gate → Call → Request → Moment → State → Response × State
  gated (refused e) call request at state = (refusal e, state)
  gated (passed auth_user) call request at state = respond call request at auth_user state

  -- the middleware, then the endpoint
  unfoldable pub handle : Call → Request → Moment → State → Response × State
  unfolding respond
  handle call request at state =
      gated (require_authentication world request at.seconds) call request at state

  -- Requests one after another, each with its moment.
  unfoldable pub run : List (Call × Request × Moment) → State → State
  unfolding handle
  run [] state = state
  run ((call, request, at) ∷ calls) state = run calls (handle call request at state).1
