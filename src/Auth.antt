-- ===== src/Auth.antt =====
-- Authentication of src/solr-search: auth.py.
--
-- Texts are lists of code points. Argon2 and PyJWT are parameters, and what they promise stands in
-- Auth/Laws. Times of tokens are whole seconds.
pub mod Users
pub mod Accounts
pub mod Admin
pub mod Endpoints
pub mod Routes
mod Ttl
mod Laws
mod Keys
mod Invariant
mod Requests
mod Authority
mod Session
mod Passwords
mod Sample
mod Tests
use aithena.Base.{
  ℕ, zero, suc, ◌+◌, ◌*◌, ◌≡◌, Bool, true, false, ◌&&◌, Option, none, some, List, [], ◌∷◌, ◌==◌,
  if◌then◌else◌,
}
use aithena.Base.Text.{Text, codes, text_eq, lower, strip}
use aithena.Password.{is_given}

pub data Result (E A : Type 0) : Type 0 where
  ok : A → Result E A
  err : E → Result E A

pub record AuthenticatedUser : Type 0 where
  pub id : ℕ
  pub username : Text
  pub role : Text

-- The payload of a token, where `none` is a claim that is absent or does not convert.
pub record Claims : Type 0 where
  pub sub : Option Text
  pub user_id : Option ℕ
  pub role : Option Text
  pub rmb : Bool
  pub iat : ℕ
  pub exp : ℕ

-- What `jwt.decode` gives, with its exceptions.
pub data Decoded : Type 0 where
  payload : Claims → Decoded
  expired_signature invalid : Decoded

-- `jwt.encode` and, at a time, `jwt.decode`, with HS256; the first text is the secret.
pub record Jwt : Type 0 where
  pub encode : Text → Claims → Text
  pub decode : Text → ℕ → Text → Decoded

-- AuthenticationError with its texts, and TokenExpiredError.
pub data AuthError : Type 0 where
  not_authenticated token_expired invalid_token : AuthError

-- create_access_token at a time
abbrev pub create_access_token : Jwt → AuthenticatedUser → Text → ℕ → Bool → ℕ → Text
create_access_token jwt user secret ttl_seconds remember_me now = jwt.encode secret (record {
  sub = some user.username;
  user_id = some user.id;
  role = some user.role;
  rmb = remember_me;
  iat = now;
  exp = now + ttl_seconds;
})

abbrev checked_payload : Decoded → Result AuthError Claims
checked_payload (payload claims) = ok claims
checked_payload expired_signature = err token_expired
checked_payload invalid = err invalid_token

-- _decode_payload
abbrev pub decode_payload : Jwt → Text → ℕ → Text → Result AuthError Claims
decode_payload jwt secret now token = checked_payload (jwt.decode secret now token)

abbrev made_user : Option ℕ → Option Text → Option Text → Result AuthError AuthenticatedUser
made_user (some id) (some username) (some role) =
    if is_given username && is_given role
    then ok (record { id = id; username = username; role = role })
    else err invalid_token
made_user (some id) (some username) none = err invalid_token
made_user (some id) none role = err invalid_token
made_user none username role = err invalid_token

-- _user_from_payload
abbrev pub user_from_payload : Claims → Result AuthError AuthenticatedUser
user_from_payload claims = made_user claims.user_id claims.sub claims.role

abbrev user_of : Result AuthError Claims → Result AuthError AuthenticatedUser
user_of (ok claims) = user_from_payload claims
user_of (err e) = err e

-- decode_access_token
unfoldable pub decode_access_token : Jwt → Text → ℕ → Text → Result AuthError AuthenticatedUser
decode_access_token jwt secret now token = user_of (decode_payload jwt secret now token)

abbrev flag_of : Result AuthError Claims → Result AuthError Bool
flag_of (ok claims) = ok claims.rmb
flag_of (err e) = err e

-- get_token_remember_me
abbrev pub get_token_remember_me : Jwt → Text → ℕ → Text → Result AuthError Bool
get_token_remember_me jwt secret now token = flag_of (decode_payload jwt secret now token)

-- `text.partition(" ")`, without the separator
unfoldable pub partition : Text → Text × Text
partition [] = ([], [])
partition (c ∷ text) =
    let (before, after) = partition text in if c == 32 then ([], text) else (c ∷ before, after)

abbrev bearer_token : Text × Text → Option Text
bearer_token (scheme, token) =
    if text_eq (lower scheme) (codes "bearer") && is_given token then some (strip token) else none

abbrev header_token : Option Text → Option Text
header_token none = none
header_token (some header) = if is_given header then bearer_token (partition header) else none

-- `text or None`
abbrev pub or_none : Text → Option Text
or_none [] = none
or_none (c ∷ text) = some (c ∷ text)

abbrev cookie_value : Option Text → Option Text
cookie_value none = none
cookie_value (some cookie) = if is_given cookie then or_none (strip cookie) else none

-- the first, or else the second
abbrev or_else : Option Text → Option Text → Option Text
or_else (some a) b = some a
or_else none b = b

-- get_token_from_sources
unfoldable pub get_token_from_sources : Option Text → Option Text → Option Text
unfolding partition
get_token_from_sources authorization_header cookie_token =
    or_else (header_token authorization_header) (cookie_value cookie_token)

-- The errors of parse_ttl_to_seconds.
pub data TtlError : Type 0 where
  invalid_ttl not_positive : TtlError

-- _TTL_MULTIPLIERS, after the digits
abbrev pub multiplier : Text → Option ℕ
multiplier [] = some 1
multiplier (c ∷ []) =
    if c == b's'
    then some 1
    else if c == b'm'
    then some 60
    else if c == b'h'
    then some 3600
    else if c == b'd'
    then some 86400
    else none
multiplier (c ∷ d ∷ text) = none

-- The digits are those of `\d` and `int`, Unicode's decimal digits with their values.
module _ (decimal : ℕ → Option ℕ) where
  -- the value of the leading digits after some that were read, and the text behind them
  unfoldable pub read_value : ℕ → Text → ℕ × Text
  read_value value [] = (value, [])
  read_value value (c ∷ text) = elim (decimal c) [
    | none ↦ (value, c ∷ text)
    | some d ↦ read_value (value * 10 + d) text
  ]

  abbrev pub starts_with_digit : Text → Bool
  starts_with_digit [] = false
  starts_with_digit (c ∷ text) = elim (decimal c) [ none ↦ false | some d ↦ true ]

  abbrev pub positive : ℕ → Result TtlError ℕ
  positive zero = err not_positive
  positive (suc n) = ok (suc n)

  abbrev pub scaled : ℕ → Option ℕ → Result TtlError ℕ
  scaled value none = err invalid_ttl
  scaled value (some m) = positive (value * m)

  -- parse_ttl_to_seconds
  unfoldable pub parse_ttl_to_seconds : Text → Result TtlError ℕ
  unfolding read_value
  parse_ttl_to_seconds raw_value =
      let text = lower (strip raw_value) in
      let (value, unit) = read_value 0 text in
      if starts_with_digit text then scaled value (multiplier unit) else err invalid_ttl
