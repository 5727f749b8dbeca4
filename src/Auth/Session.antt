-- ===== src/Auth/Session.antt =====
-- From login to the end of the token.
use aithena.Base.{
  ℕ, ◌+◌, ◌≤◌, ◌≡◌, refl, ap, ◌∙◌, inl, inr, Bool, true, Option, none, some, List, [], ◌∷◌, All,
  any, arith, ltb, if◌then◌else◌, Bool-cases, Option-cases, ◌⊎◌,
}
use aithena.Base.Text.{Text, strip, lower, text_eq}
use aithena.Base.Tables.{find}
use aithena.RateLimit.{RateLimiter, is_allowed}
use aithena.Password.{is_given}
use aithena.Auth.{ok, err, AuthenticatedUser, AuthError, token_expired, create_access_token}
use aithena.Auth.Users.{
  User, Users, Hasher, same_name, load_user_by_username, authenticate_user, authenticated,
}
use aithena.Auth.Keys.{IsUser, IsRole, IsValid}
use aithena.Auth.Laws.{
  JwtLaws, bearer, get_token_from_sources-bearer, decode_access_token-create_access_token,
  claims_of,
}
use aithena.Auth.Endpoints.{
  Request, Moment, World, State, login, signed_in, get_me, detail, unauthorized, access, me, answer,
  refusal, authenticate_request, auth_login, logged_in, Gate, refused, passed,
  require_authentication,
}
use aithena.Auth.Routes.{handle, respond}
use aithena.Auth.Authority.{handle-signed_in}

-- A user whose name and role are not empty.
abbrev IsNamed : AuthenticatedUser → Type 0
IsNamed user = (is_given user.username ≡ true) × (is_given user.role ≡ true)

same_name-is_given : (a b : Text) → same_name a b ≡ true → is_given b ≡ true → is_given a ≡ true
unfolding same_name lower text_eq
same_name-is_given [] [] h g = g
same_name-is_given [] (d ∷ b) h g = absurd (ground arith)
same_name-is_given (c ∷ a) b h g = refl

role_is_given : (role : Text) → IsRole role → is_given role ≡ true
unfolding any text_eq
role_is_given [] h = h
role_is_given (c ∷ role) h = refl

find_sound :
    (n : ℕ) (q : User → Bool) (rows : List User) (user : User)
    → All (IsUser n) rows
    → find q rows ≡ some user
    → IsUser n user × (q user ≡ true)
unfolding find
find_sound n q [] user all h = absurd (ground arith)
find_sound n q (row ∷ rows) user all h = elim (Bool-cases (q row)) [
  | inl e ↦ let same : row ≡ user = ground arith in rw (← same) (all.0, e)
  | inr e ↦ find_sound n q rows user all.1 (rw e at h)
]

load_user_by_username-IsNamed :
    (username : Text) (users : Users) (user : User)
    → IsValid users
    → load_user_by_username username users ≡ some user
    → IsNamed (authenticated user)
unfolding load_user_by_username
load_user_by_username-IsNamed username users user valid h =
    elim (Bool-cases (is_given (strip username))) [
      | inr e ↦ absurd (ground arith)
      | inl e ↦
          let (row, same) =
            find_sound users.sequence (λ row. same_name row.username (strip username)) users.rows
              user valid.1 (rw e at h) in
          (same_name-is_given user.username (strip username) same e, role_is_given user.role row.1)
    ]

Gate-cases :
    (gate : Gate)
    → ((e : AuthError) × (gate ≡ refused e)) ⊎ ((u : Option AuthenticatedUser) × (gate ≡ passed u))
Gate-cases (refused e) = inl (e, refl)
Gate-cases (passed u) = inr (u, refl)

module _ (hasher : Hasher) where
  authenticate_user-IsNamed :
      (salt username password : Text) (users : Users) (user : AuthenticatedUser)
      → IsValid users
      → (authenticate_user hasher salt username password users).0 ≡ some user
      → IsNamed user
  unfolding authenticate_user
  authenticate_user-IsNamed salt username password users user valid h =
      elim (Option-cases (load_user_by_username username users)) [
        | inl e ↦
            let impossible : none ≡ some user = (rw (e, authenticate_user) at h) in absurd (cc)
        | inr (row, e) ↦ elim (Bool-cases (hasher.verify_password row.password_hash password)) [
          | inr v ↦
              let impossible : none ≡ some user = (rw (e, v, authenticate_user) at h) in absurd (cc)
          | inl v ↦
              let same : some (authenticated row) ≡ some user =
                (rw (e, v, authenticate_user) at h) in
              let equal : authenticated row ≡ user = cc in
              rw (← equal) (load_user_by_username-IsNamed username users row valid e)
        ]
      ]

module _ (world : World) where
  -- The user and the token of an answer to a login.
  abbrev Issued : Bool → Moment → Text → ℕ → AuthenticatedUser → Type 0
  Issued remember_me at token ttl user =
      (token
        ≡ create_access_token world.jwt user world.secret world.ttl_seconds remember_me at.seconds)
      × IsNamed user

  logged_in-Issued :
      (remember_me : Bool) (at : Moment) (found : Option AuthenticatedUser × Users)
      (limiter : RateLimiter) (token : Text) (ttl : ℕ) (user : AuthenticatedUser)
      → ((someone : AuthenticatedUser) → found.0 ≡ some someone → IsNamed someone)
      → (logged_in world remember_me at found limiter).0.body ≡ access token ttl user
      → Issued remember_me at token ttl user
  logged_in-Issued remember_me at (none, users) limiter token ttl user named h =
      absurd (ground arith)
  logged_in-Issued remember_me at (some someone, users) limiter token ttl user named h =
      let same : someone ≡ user = ground arith in
      let issued : create_access_token world.jwt someone world.secret world.ttl_seconds remember_me
            at.seconds
          ≡ token =
        ground arith in
      rw (← same) (rw issued refl, named someone refl)

  auth_login-Issued :
      (username password : Text) (remember_me : Bool) (request : Request) (at : Moment)
      (state : State) (token : Text) (ttl : ℕ) (user : AuthenticatedUser)
      → IsValid state.users
      → (auth_login world username password remember_me request at state).0.body
        ≡ access token ttl user
      → Issued remember_me at token ttl user
  unfolding auth_login
  auth_login-Issued username password remember_me request at state token ttl user valid h =
      elim (Bool-cases (is_allowed request.client_ip at.now state.login_rate_limiter).0) [
        | inr e ↦
            let impossible : detail ≡ access token ttl user = (rw (e, auth_login) at h) in
            absurd (ground arith)
        | inl e ↦
            logged_in-Issued remember_me at
              (authenticate_user world.hasher at.salt username password state.users)
              (is_allowed request.client_ip at.now state.login_rate_limiter).1 token ttl user
              (λ someone s.
                authenticate_user-IsNamed world.hasher at.salt username password state.users someone
                  valid s)
              (rw (e, auth_login) at h)
      ]

  handle-Issued :
      (username password : Text) (remember_me : Bool) (request : Request) (at : Moment)
      (state : State) (token : Text) (ttl : ℕ) (user : AuthenticatedUser)
      → IsValid state.users
      → (handle world (login username password remember_me) request at state).0.body
        ≡ access token ttl user
      → Issued remember_me at token ttl user
  unfolding handle respond
  handle-Issued username password remember_me request at state token ttl user valid h =
      elim (Gate-cases (require_authentication world request at.seconds)) [
        | inl (x, e) ↦
            let impossible : unauthorized x ≡ access token ttl user = (rw (e, handle) at h) in
            absurd (ground arith)
        | inr (auth_user, e) ↦
            auth_login-Issued username password remember_me request at state token ttl user valid
              (rw (e, handle) at h)
      ]

  authenticate_request-bearer :
      (user : AuthenticatedUser) (remember_me : Bool) (now later : ℕ) (request : Request)
      → JwtLaws world.jwt
      → IsNamed user
      → now ≤ later
      → request.authorization
        ≡ some (
            bearer
              (create_access_token world.jwt user world.secret world.ttl_seconds remember_me now))
      → authenticate_request world request later
        ≡ (if ltb later (now + world.ttl_seconds) then ok user else err token_expired)
  unfolding authenticate_request
  authenticate_request-bearer user remember_me now later request laws named order header =
      let claims = claims_of user world.ttl_seconds remember_me now in
      let token = world.jwt.encode world.secret claims in
      rw
        (
          header,
          get_token_from_sources-bearer token request.cookie (laws.given world.secret claims)
              (laws.compact world.secret claims),
        )
        (decode_access_token-create_access_token world.jwt laws user world.secret world.ttl_seconds
          remember_me now later named.0 named.1 order)

-- The token that a login answers with speaks, as a Bearer token, for the user it names until its
-- time to live is over, and gets a 401 for an expired token from then on, whatever happened to the
-- users table since: the later state is any.
pub login-lasts :
    (world : World) (username password : Text) (remember_me : Bool) (request later : Request)
    (at after : Moment) (state now : State) (token : Text) (ttl : ℕ) (user : AuthenticatedUser)
    → JwtLaws world.jwt
    → IsValid state.users
    → (handle world (login username password remember_me) request at state).0.body
      ≡ access token ttl user
    → later.authorization ≡ some (bearer token)
    → at.seconds ≤ after.seconds
    → handle world (signed_in get_me) later after now ≡ (
      (if ltb after.seconds (at.seconds + world.ttl_seconds)
          then answer 200 (me user)
          else refusal token_expired),
      now,
    )
login-lasts world username password remember_me request later at after state now token ttl user laws
      valid h header order =
    let (same, named) =
      handle-Issued world username password remember_me request at state token ttl user valid h in
    let shown =
      authenticate_request-bearer world user remember_me at.seconds after.seconds later laws named
        order (header ∙ ap (λ t. some (bearer t)) same) in
    rw (handle-signed_in world get_me later after now, shown) (ground arith)
