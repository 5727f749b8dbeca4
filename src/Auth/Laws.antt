-- ===== src/Auth/Laws.antt =====
-- What PyJWT, Argon2 and Unicode promise to auth.py, and what follows for reading a token back.
use aithena.Base.{
  ℕ, ◌+◌, ◌≤◌, ◌<◌, ◌≡◌, refl, inl, inr, Bool, true, false, Option, none, some, [], ◌∷◌, ◌++◌, All,
  arith, ltb, if◌then◌else◌, Bool-cases,
}
use aithena.Base.Text.{Text, codes, is_space, lstrip, rstrip, strip, text_eq, lower}
use aithena.Password.{is_given, is_lower}
use aithena.Auth.{
  ok, err, AuthenticatedUser, Claims, payload, expired_signature, Jwt, token_expired,
  create_access_token, decode_access_token, partition, get_token_from_sources,
}
use aithena.Auth.Users.{Hasher}

abbrev pub NoSpace : Text → Type 0
NoSpace = All (λ c. is_space c ≡ false)

-- An encoded token is base64url with dots: it is not empty and has no whitespace. It decodes with its
-- secret to its claims until the time of `exp`, and is expired from then on.
pub record JwtLaws (jwt : Jwt) : Type 0 where
  pub given : (secret : Text) (claims : Claims) → is_given (jwt.encode secret claims) ≡ true
  pub compact : (secret : Text) (claims : Claims) → NoSpace (jwt.encode secret claims)
  pub decodes :
      (secret : Text) (claims : Claims) (now : ℕ)
      → claims.iat ≤ now
      → now < claims.exp
      → jwt.decode secret now (jwt.encode secret claims) ≡ payload claims
  pub expires :
      (secret : Text) (claims : Claims) (now : ℕ)
      → claims.iat ≤ now
      → claims.exp ≤ now
      → jwt.decode secret now (jwt.encode secret claims) ≡ expired_signature

-- A hash verifies the password it was made of and no other.
pub record HasherLaws (hasher : Hasher) : Type 0 where
  pub verifies :
      (salt password : Text)
      → hasher.verify_password (hasher.hash_password salt password) password ≡ true
  pub separates :
      (salt password other : Text)
      → hasher.verify_password (hasher.hash_password salt password) other ≡ true
      → password ≡ other

-- The decimal digits of ASCII have their values, and its letters are none.
pub record DecimalLaws (decimal : ℕ → Option ℕ) : Type 0 where
  pub digit : (d : ℕ) → d < 10 → decimal (48 + d) ≡ some d
  pub letter : (c : ℕ) → is_lower c ≡ true → decimal c ≡ none

lstrip-NoSpace : (text : Text) → NoSpace text → lstrip text ≡ text
unfolding lstrip
lstrip-NoSpace [] h = refl
lstrip-NoSpace (c ∷ text) h = ground (arith, h.0)

rstrip-NoSpace : (text : Text) → NoSpace text → rstrip text ≡ text
unfolding rstrip
rstrip-NoSpace [] h = refl
rstrip-NoSpace (c ∷ []) h = rw h.0 refl
rstrip-NoSpace (c ∷ d ∷ text) h = rw (rstrip-NoSpace (d ∷ text) h.1) refl

-- Stripping keeps a text without whitespace.
pub strip-NoSpace : (text : Text) → NoSpace text → strip text ≡ text
unfolding strip
strip-NoSpace text h = rw (lstrip-NoSpace text h) (rstrip-NoSpace text h)

-- The value of an Authorization header for a token.
abbrev pub bearer : Text → Text
bearer token = codes "Bearer " ++ token

-- A bearer token comes out of its header, whatever the cookie.
pub get_token_from_sources-bearer :
    (token : Text) (cookie : Option Text)
    → is_given token ≡ true
    → NoSpace token
    → get_token_from_sources (some (bearer token)) cookie ≡ some token
unfolding get_token_from_sources partition text_eq lower
get_token_from_sources-bearer token cookie given compact =
    rw given (rw (strip-NoSpace token compact) refl)

-- The claims of create_access_token.
abbrev pub claims_of : AuthenticatedUser → ℕ → Bool → ℕ → Claims
claims_of user ttl_seconds remember_me now = record {
  sub = some user.username;
  user_id = some user.id;
  role = some user.role;
  rmb = remember_me;
  iat = now;
  exp = now + ttl_seconds;
}

module _ (jwt : Jwt) (laws : JwtLaws jwt) where
  -- A token gives its user back until it expires.
  pub decode_access_token-create_access_token :
      (user : AuthenticatedUser) (secret : Text) (ttl_seconds : ℕ) (remember_me : Bool)
      (now later : ℕ)
      → is_given user.username ≡ true
      → is_given user.role ≡ true
      → now ≤ later
      → decode_access_token jwt secret later
          (create_access_token jwt user secret ttl_seconds remember_me now)
        ≡ (if ltb later (now + ttl_seconds) then ok user else err token_expired)
  unfolding decode_access_token
  decode_access_token-create_access_token user secret ttl_seconds remember_me now later name role
        order =
      let claims = claims_of user ttl_seconds remember_me now in
      elim (Bool-cases (ltb later (now + ttl_seconds))) [
        | inl e ↦ rw (e, laws.decodes secret claims later order (ground arith), name, role) refl
        | inr e ↦ rw (e, laws.expires secret claims later order (ground arith)) refl
      ]
