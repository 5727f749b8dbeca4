-- ===== src/Auth/Tests.antt =====
-- Authentication at concrete inputs.
use aithena.Base.{
  ℕ, ◌*◌, ◌≡◌, refl, Bool, true, false, any, Option, none, some, List, [], ◌∷◌, inl, inr, ◌↔◌, ◌⊎◌,
  String, arith,
}
use aithena.Base.Text.{Text, codes, text_eq, strip, lower, is_prefix}
use aithena.Base.Tables.{find}
use aithena.RateLimit.{init}
use aithena.Indexer.{digits}
use aithena.Auth.{
  Result, ok, err, AuthenticatedUser, create_access_token, decode_access_token,
  get_token_from_sources, parse_ttl_to_seconds, token_expired,
}
use aithena.Auth.Users.{
  User, Users, same_name, empty, load_user_by_username, authenticate_user, authenticated,
}
use aithena.Auth.Accounts.{seed_default_admin, change_password}
use aithena.Auth.Keys.{IsValid}
use aithena.Auth.Laws.{bearer}
use aithena.Auth.Sample.{
  sample_jwt, sample_jwt_laws, sample_hasher, sample_hasher_laws, sample_decimal,
  sample_decimal_laws,
}
use aithena.Auth.Endpoints.{
  Request, Moment, World, State, Call, login, signed_in, UserCall, get_me, register, put_user,
  access, me, answer, refusal, authenticate_request, Response,
}
use aithena.Auth.Routes.{handle, run}
use aithena.Auth.Requests.{run-IsValid_from_start}
use aithena.Auth.Authority.{IsOwnChange, handle-IsOwnChange, handle-refused}
use aithena.Auth.Session.{login-lasts}
use aithena.Auth.Passwords.{change_password-replaces}
use aithena.Auth.Ttl.{hours, parse_ttl_to_seconds-digits}
use aithena.Auth.Admin.{reach_admin}
use aithena.Auth.Admin.Access.{HasKey, HasSession, HasRole, reach_admin_iff}

abbrev world : World
world = record {
  jwt = sample_jwt;
  hasher = sample_hasher;
  casefold = λ text. text;
  secret = codes "s";
  ttl_seconds = 60;
}

abbrev ann : User
ann = record {
  id = 1;
  username = codes "Ann";
  password_hash = codes "Secret-1234";
  role = codes "admin";
  created_at = "t";
}

abbrev bob : User
bob = record {
  id = 2;
  username = codes "bob";
  password_hash = codes "Hidden-1234";
  role = codes "user";
  created_at = "t";
}

abbrev state : State
state = record {
  users = record { rows = ann ∷ bob ∷ []; sequence = 2 };
  login_rate_limiter = init 5 60;
}

abbrev at : ℕ → Moment
at seconds = record { now = seconds; seconds = seconds; salt = []; stamp = "t" }

abbrev token_of : User → Text
token_of user = create_access_token sample_jwt (authenticated user) (codes "s") 60 false 100

abbrev asking : Text → Option Text → Option Text → Request
asking path authorization api_key = record {
  is_options = false;
  path = path;
  authorization = authorization;
  cookie = none;
  api_key = api_key;
  client_ip = "1.2.3.4";
}

state-IsValid : IsValid state.users
unfolding any same_name lower text_eq
state-IsValid = ((refl, (refl, tt)), ((omega arith, refl), ((omega arith, refl), tt)))

logs_in :
    (handle world
      (login (codes " ann ") (codes "Secret-1234") false)
      (asking (codes "/v1/auth/login") none none)
      (at 100)
      state).0.body
    ≡ access (token_of ann) 60 (authenticated ann)
unfolding handle aithena.Auth.Endpoints.require_authentication aithena.Base.any text_eq
    aithena.Auth.Endpoints.auth_login aithena.Base.Dict.lookup strip aithena.Base.Text.is_space find
    lower
logs_in = refl

-- Ann's token, 40 seconds later, in any state.
login-lasts_example :
    handle world
      (signed_in get_me)
      (asking (codes "/v1/auth/me") (some (bearer (token_of ann))) none)
      (at 140)
      state
    ≡ (answer 200 (me (authenticated ann)), state)
login-lasts_example =
    login-lasts world (codes " ann ") (codes "Secret-1234") false
      (asking (codes "/v1/auth/login") none none)
      (asking (codes "/v1/auth/me") (some (bearer (token_of ann))) none) (at 100) (at 140) state
      state (token_of ann) 60 (authenticated ann) sample_jwt_laws state-IsValid logs_in refl
      (omega arith)

run-IsValid_from_start_example :
    IsValid
      (run world
        ((
          signed_in (register (codes "Bob") (codes "Hidden-1234") (codes "user")),
          asking (codes "/v1/auth/register") (some (bearer (token_of ann))) none,
          at 110,
        )
          ∷ [])
        (record {
          users = seed_default_admin sample_hasher (codes "Ann") (codes "Secret-1234") [] "t" empty;
          login_rate_limiter = init 5 60;
        })).users
run-IsValid_from_start_example =
    run-IsValid_from_start world (codes "Ann") (codes "Secret-1234") [] "t" (init 5 60) (
      (
        signed_in (register (codes "Bob") (codes "Hidden-1234") (codes "user")),
        asking (codes "/v1/auth/register") (some (bearer (token_of ann))) none,
        at 110,
      )
      ∷ [])

-- Bob asks for another role for Ann.
abbrev bob_asks : Request
bob_asks = asking (codes "/v1/auth/users/1") (some (bearer (token_of bob))) none

bob_shown : authenticate_request world bob_asks 120 ≡ ok (authenticated bob)
unfolding authenticate_request get_token_from_sources text_eq lower aithena.Auth.Sample.encode
    decode_access_token aithena.Auth.Sample.decode strip aithena.Base.Text.is_space
bob_shown = refl

handle-IsOwnChange_example :
    IsOwnChange 2 state.users.rows
      (handle world
        (signed_in (put_user 1 none (some (codes "viewer"))))
        bob_asks
        (at 120)
        state).1.users.rows
unfolding text_eq
handle-IsOwnChange_example =
    handle-IsOwnChange world (put_user 1 none (some (codes "viewer"))) bob_asks (at 120) state
      (authenticated bob) bob_shown refl

too_late : authenticate_request world bob_asks 160 ≡ err token_expired
unfolding authenticate_request get_token_from_sources text_eq lower aithena.Auth.Sample.encode
    decode_access_token aithena.Auth.Sample.decode strip aithena.Base.Text.is_space
too_late = refl

handle-refused_example :
    handle world (signed_in get_me) bob_asks (at 160) state ≡ (refusal token_expired, state)
handle-refused_example = handle-refused world get_me bob_asks (at 160) state token_expired too_late

abbrev renewed : Users
renewed =
    (change_password sample_hasher (λ text. text) [] 2 (codes "Hidden-1234") (codes "Shown-5678")
      state.users).1

changes :
    change_password sample_hasher
      (λ text. text)
      []
      2
      (codes "Hidden-1234")
      (codes "Shown-5678")
      state.users
    ≡ (ok tt, renewed)
unfolding change_password find aithena.Password.validate_password aithena.Password.categories any
    aithena.Base.Text.has_char aithena.Password.is_part text_eq
changes = refl

finds_bob : load_user_by_username (codes "BOB") state.users ≡ some bob
unfolding load_user_by_username strip aithena.Base.Text.is_space find text_eq lower
finds_bob = refl

change_password-replaces_example :
    ((authenticate_user sample_hasher [] (codes "BOB") (codes "Shown-5678") renewed).0
      ≡ some (authenticated bob))
    × ((authenticate_user sample_hasher [] (codes "BOB") (codes "Hidden-1234") renewed).0 ≡ none)
change_password-replaces_example =
    change_password-replaces sample_hasher (λ text. text) [] [] 2 (codes "Hidden-1234")
      (codes "Shown-5678") (codes "BOB") state.users renewed bob sample_hasher_laws changes
      finds_bob refl

parse_ttl_to_seconds-digits_example :
    parse_ttl_to_seconds sample_decimal (digits 24 24 (codes "h")) ≡ ok (24 * 3600)
parse_ttl_to_seconds-digits_example =
    parse_ttl_to_seconds-digits sample_decimal sample_decimal_laws 24 hours

-- A wrong key with an administrator's token, and the right one without.
abbrev ann_asks : Request
ann_asks =
    asking (codes "/v1/admin/documents") (some (bearer (token_of ann))) (some (codes "wrong"))

under_admin : is_prefix (codes "/v1/admin/") (codes "/v1/admin/documents") ≡ true
unfolding is_prefix
under_admin = refl

reach_admin_iff_example :
    let found = authenticate_request world ann_asks 120 in
    (reach_admin world (some (codes "key")) true ann_asks 120 ≡ ok tt) ↔ (
      (HasKey (some (codes "key")) (some (codes "wrong"))
        ⊎ HasSession (some (codes "key")) (some (codes "wrong")) found)
      × HasRole true found)
reach_admin_iff_example =
    reach_admin_iff world (some (codes "key")) true ann_asks 120 refl under_admin
