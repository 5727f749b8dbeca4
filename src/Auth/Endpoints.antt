-- ===== src/Auth/Endpoints.antt =====
-- src/solr-search/main.py: the authentication middleware, the dependencies on the user, and the
-- endpoints under /v1/auth.
--
-- A request is the part of it that these read; `client_ip` is what get_client_ip makes of it. The two
-- decodings of auth_validate are taken to happen in one second. A trailing slash is the same route.
use aithena.Base.{
  ℕ, Bool, true, false, ◌&&◌, ◌||◌, Option, none, some, List, [], ◌∷◌, String, any, if◌then◌else◌,
}
use aithena.Base.Text.{Text, codes, text_eq, is_prefix}
use aithena.RateLimit.{RateLimiter, is_allowed}
use aithena.Password.{is_given}
use aithena.Auth.{
  Result, ok, err, AuthenticatedUser, Jwt, AuthError, not_authenticated, create_access_token,
  decode_access_token, get_token_from_sources,
}
use aithena.Auth.Users.{Users, Account, Hasher, authenticate_user}

pub record Request : Type 0 where
  pub is_options : Bool
  pub path : Text
  pub authorization : Option Text
  pub cookie : Option Text
  pub api_key : Option Text
  pub client_ip : String

-- What a request meets outside: the limiter's clock, the tokens' clock, a salt and a row's time.
pub record Moment : Type 0 where
  pub now : ℕ
  pub seconds : ℕ
  pub salt : Text
  pub stamp : String

-- The settings and libraries.
pub record World : Type 0 where
  pub jwt : Jwt
  pub hasher : Hasher
  pub casefold : Text → Text
  pub secret : Text
  pub ttl_seconds : ℕ

pub record State : Type 0 where
  pub users : Users
  pub login_rate_limiter : RateLimiter

-- What is done to the cookie of the session.
pub data Cookie : Type 0 where
  kept cleared : Cookie
  set_cookie : Text → Option ℕ → Cookie

pub data Body : Type 0 where
  detail done : Body
  unauthorized : AuthError → Body
  access : Text → ℕ → AuthenticatedUser → Body
  validated me : AuthenticatedUser → Body
  account : Account → Body
  accounts : List Account → Body

pub record Response : Type 0 where
  pub status : ℕ
  pub body : Body
  pub cookie : Cookie

-- The endpoints that need a logged-in user, with their bodies.
pub data UserCall : Type 0 where
  get_me get_users : UserCall
  put_password : Text → Text → UserCall
  register : Text → Text → Text → UserCall
  put_user : ℕ → Option Text → Option Text → UserCall
  remove_user : ℕ → UserCall

pub data Call : Type 0 where
  login : Text → Text → Bool → Call
  validate validate_admin logout : Call
  signed_in : UserCall → Call

abbrev pub answer : ℕ → Body → Response
answer status body = record { status = status; body = body; cookie = kept }

abbrev pub refusal : AuthError → Response
refusal e = answer 401 (unauthorized e)

-- PUBLIC_PATHS and PUBLIC_PATH_PREFIXES
abbrev public_paths : List Text
public_paths =
    codes "/health"
    ∷ codes "/v1/health"
    ∷ codes "/info"
    ∷ codes "/v1/info"
    ∷ codes "/version"
    ∷ codes "/status"
    ∷ codes "/v1/status"
    ∷ codes "/v1/status/"
    ∷ codes "/v1/auth/login"
    ∷ codes "/v1/auth/login/"
    ∷ codes "/v1/auth/validate"
    ∷ codes "/v1/auth/validate/"
    ∷ codes "/v1/metrics"
    ∷ codes "/v1/metrics/"
    ∷ codes "/v1/capabilities"
    ∷ codes "/v1/capabilities/"
    ∷ codes "/capabilities"
    ∷ codes "/docs"
    ∷ codes "/redoc"
    ∷ codes "/openapi.json"
    ∷ codes "/favicon.ico"
    ∷ []

abbrev public_path_prefixes : List Text
public_path_prefixes = codes "/docs" ∷ codes "/redoc" ∷ codes "/openapi.json" ∷ []

-- _is_public_path
unfoldable pub is_public_path : Text → Bool
is_public_path path =
    any (text_eq path) public_paths || any (λ prefix. is_prefix prefix path) public_path_prefixes

-- `if header:` of an optional header
abbrev pub has_header : Option Text → Bool
has_header none = false
has_header (some header) = is_given header

-- How the middleware ends: with a 401, or with the request going on, as a user or as nobody.
pub data Gate : Type 0 where
  refused : AuthError → Gate
  passed : Option AuthenticatedUser → Gate

abbrev pub user_or_none : Result AuthError AuthenticatedUser → Option AuthenticatedUser
user_or_none (ok user) = some user
user_or_none (err e) = none

abbrev pub gate_of : Result AuthError AuthenticatedUser → Gate
gate_of (ok user) = passed (some user)
gate_of (err e) = refused e

module _ (world : World) where
  -- the user of a token, if there is a token
  abbrev pub user_of_token : Option Text → ℕ → Result AuthError AuthenticatedUser
  user_of_token none seconds = err not_authenticated
  user_of_token (some token) seconds = decode_access_token world.jwt world.secret seconds token

  -- _authenticate_request
  unfoldable pub authenticate_request : Request → ℕ → Result AuthError AuthenticatedUser
  authenticate_request request seconds =
      user_of_token (get_token_from_sources request.authorization request.cookie) seconds

  -- require_authentication
  unfoldable pub require_authentication : Request → ℕ → Gate
  unfolding authenticate_request is_public_path
  require_authentication request seconds =
      if request.is_options || is_public_path request.path
      then passed none
      else if has_header request.api_key && is_prefix (codes "/v1/admin/") request.path
      then passed (user_or_none (authenticate_request request seconds))
      else gate_of (authenticate_request request seconds)

  -- _get_current_user
  abbrev pub get_current_user :
      Request → ℕ → Option AuthenticatedUser → Result AuthError AuthenticatedUser
  get_current_user request seconds none = authenticate_request request seconds
  get_current_user request seconds (some user) = ok user

  -- the cookie's max_age
  abbrev pub max_age : Bool → Option ℕ
  max_age true = some world.ttl_seconds
  max_age false = none

  abbrev pub logged_in :
      Bool → Moment → Option AuthenticatedUser × Users → RateLimiter → Response × State
  logged_in remember_me at (none, users) limiter =
      (answer 401 detail, record { users = users; login_rate_limiter = limiter })
  logged_in remember_me at (some user, users) limiter =
      let token =
        create_access_token world.jwt user world.secret world.ttl_seconds remember_me at.seconds in
      (
        record {
          status = 200;
          body = access token world.ttl_seconds user;
          cookie = set_cookie token (max_age remember_me);
        },
        record { users = users; login_rate_limiter = limiter },
      )

  -- auth_login
  unfoldable pub auth_login : Text → Text → Bool → Request → Moment → State → Response × State
  unfolding is_allowed authenticate_user
  auth_login username password remember_me request at state =
      let (allowed, limiter) = is_allowed request.client_ip at.now state.login_rate_limiter in
      if allowed
      then logged_in remember_me at
          (authenticate_user world.hasher at.salt username password state.users) limiter
      else (answer 429 detail, record state { login_rate_limiter = limiter })
