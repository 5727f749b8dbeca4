-- ===== src/Auth/Admin/Access.antt =====
-- Who reaches the endpoints under /v1/admin.
use aithena.Base.{
  ℕ, ◌≡◌, refl, ap, ◌⊎◌, inl, inr, ◌↔◌, Bool, true, false, ◌&&◌, Option, none, some, [], ◌∷◌, ◌++◌,
  any, arith, if◌then◌else◌,
}
use aithena.Base.Text.{Text, codes, text_eq, text_eq→eq, text_eq_refl, is_prefix, strip}
use aithena.Auth.{Result, ok, err, AuthenticatedUser, AuthError}
use aithena.Auth.Endpoints.{
  Request, World, passed, user_or_none, gate_of, has_header, is_public_path, authenticate_request,
  require_authentication,
}
use aithena.Auth.Routes.{is_admin}
use aithena.Auth.Admin.{
  AdminError, not_authenticated, invalid_key, by_session, behind_gate, extract_api_key,
  require_admin_auth, reach_admin, check_role, and_then,
}

is_prefix-append :
    (prefix text : Text) → is_prefix prefix text ≡ true → (rest : Text) × (text ≡ prefix ++ rest)
unfolding is_prefix
is_prefix-append [] text h = (text, refl)
is_prefix-append (c ∷ prefix) [] h = absurd (cc)
is_prefix-append (c ∷ prefix) (d ∷ text) h =
    let (rest, e) = is_prefix-append prefix text (ground arith) in
    let same : d ≡ c = ground arith in (rest, rw (same, e) refl)

-- No administrator's path is public.
admin_path_not_public :
    (path : Text) → is_prefix (codes "/v1/admin/") path ≡ true → is_public_path path ≡ false
unfolding is_public_path any text_eq is_prefix
admin_path_not_public path h =
    let (rest, e) = is_prefix-append (codes "/v1/admin/") path h in rw e refl

-- The header holds the key of the settings, up to whitespace around it.
abbrev pub HasKey : Option Text → Option Text → Type 0
HasKey admin_api_key header =
    (key : Text) × (admin_api_key ≡ some key) × (extract_api_key header ≡ some key)

-- No key is asked for or none is shown, and the token is that of an administrator.
abbrev pub HasSession : Option Text → Option Text → Result AuthError AuthenticatedUser → Type 0
HasSession admin_api_key header found =
    ((admin_api_key ≡ none) ⊎ (has_header header ≡ false))
    × (user : AuthenticatedUser) × (found ≡ ok user)
    × (is_admin user ≡ true)

-- How the middleware ends on an administrator's path, and the dependency after it.
abbrev decided :
    Option Text → Option Text → Result AuthError AuthenticatedUser → Result AdminError Unit
decided admin_api_key none (ok user) = by_session (some user)
decided admin_api_key none (err e) = err not_authenticated
decided admin_api_key (some []) (ok user) = by_session (some user)
decided admin_api_key (some []) (err e) = err not_authenticated
decided none (some (c ∷ text)) found = by_session (user_or_none found)
decided (some key) (some (c ∷ text)) found =
    if text_eq (strip (c ∷ text)) key then ok tt else err invalid_key

by_session-is_admin :
    (user : AuthenticatedUser) → by_session (some user) ≡ ok tt → is_admin user ≡ true
by_session-is_admin user h = ground arith

is_admin-by_session :
    (user : AuthenticatedUser) → is_admin user ≡ true → by_session (some user) ≡ ok tt
is_admin-by_session user h = rw h refl

decided-ok :
    (admin_api_key header : Option Text) (found : Result AuthError AuthenticatedUser)
    → decided admin_api_key header found ≡ ok tt
    → HasKey admin_api_key header ⊎ HasSession admin_api_key header found
decided-ok admin_api_key none (ok user) h = inr (inr refl, user, refl, by_session-is_admin user h)
decided-ok admin_api_key none (err e) h = absurd (ground arith)
decided-ok admin_api_key (some []) (ok user) h =
    inr (inr refl, user, refl, by_session-is_admin user h)
decided-ok admin_api_key (some []) (err e) h = absurd (ground arith)
decided-ok none (some (c ∷ text)) (ok user) h =
    inr (inl refl, user, refl, by_session-is_admin user h)
decided-ok none (some (c ∷ text)) (err e) h = absurd (ground arith)
decided-ok (some key) (some (c ∷ text)) found h =
    inl (key, refl, ap some (text_eq→eq (strip (c ∷ text)) key (ground arith)))

key-decided :
    (admin_api_key header : Option Text) (found : Result AuthError AuthenticatedUser)
    → HasKey admin_api_key header
    → decided admin_api_key header found ≡ ok tt
key-decided admin_api_key none found (key, asked, shown) = absurd (ground arith)
key-decided admin_api_key (some []) found (key, asked, shown) = absurd (ground arith)
key-decided none (some (c ∷ text)) found (key, asked, shown) = absurd (ground arith)
key-decided (some asked) (some (c ∷ text)) found (key, e, shown) = ground (arith, text_eq_refl key)

session-decided :
    (admin_api_key header : Option Text) (found : Result AuthError AuthenticatedUser)
    → HasSession admin_api_key header found
    → decided admin_api_key header found ≡ ok tt
session-decided admin_api_key none found (shown, user, e, admin) =
    rw e (is_admin-by_session user admin)
session-decided admin_api_key (some []) found (shown, user, e, admin) =
    rw e (is_admin-by_session user admin)
session-decided none (some (c ∷ text)) found (shown, user, e, admin) =
    rw e (is_admin-by_session user admin)
session-decided (some asked) (some (c ∷ text)) found (inl e, user, h, admin) = absurd (ground arith)
session-decided (some asked) (some (c ∷ text)) found (inr e, user, h, admin) = absurd (ground arith)

-- The token is that of an administrator, where the endpoint asks for the role.
abbrev pub HasRole : Bool → Result AuthError AuthenticatedUser → Type 0
HasRole false found = Unit {0}
HasRole true found = (user : AuthenticatedUser) × (found ≡ ok user) × (is_admin user ≡ true)

check_role-HasRole :
    (needs_role : Bool) (found : Result AuthError AuthenticatedUser)
    → check_role needs_role found ≡ ok tt
    → HasRole needs_role found
check_role-HasRole false found h = tt
check_role-HasRole true (err e) h = absurd (ground arith)
check_role-HasRole true (ok user) h = (user, refl, ground arith)

HasRole-check_role :
    (needs_role : Bool) (found : Result AuthError AuthenticatedUser)
    → HasRole needs_role found
    → check_role needs_role found ≡ ok tt
HasRole-check_role false found h = refl
HasRole-check_role true found (user, e, admin) = rw (e, admin) refl

and_then-ok :
    (first second : Result AdminError Unit)
    → and_then first second ≡ ok tt
    → (first ≡ ok tt) × (second ≡ ok tt)
and_then-ok (err e) second h = absurd (ground arith)
and_then-ok (ok tt) second h = (refl, h)

-- The two cases of the middleware, and the dependencies.
gate-decided :
    (world : World) (admin_api_key header : Option Text) (needs_role : Bool) (request : Request)
    (seconds : ℕ) (found : Result AuthError AuthenticatedUser) (under : Bool)
    → request.api_key ≡ header
    → authenticate_request world request seconds ≡ found
    → under ≡ true
    → behind_gate world admin_api_key needs_role request seconds
        (if has_header request.api_key && under then passed (user_or_none found) else gate_of found)
      ≡ and_then (decided admin_api_key header found) (check_role needs_role found)
unfolding require_admin_auth text_eq strip aithena.Base.Text.is_space authenticate_request
gate-decided world admin_api_key none needs_role request seconds (ok user) under e a u = rw e refl
gate-decided world admin_api_key none needs_role request seconds (err x) under e a u = rw e refl
gate-decided world admin_api_key (some []) needs_role request seconds (ok user) under e a u =
    rw e refl
gate-decided world admin_api_key (some []) needs_role request seconds (err x) under e a u =
    rw e refl
gate-decided world none (some (c ∷ text)) needs_role request seconds (ok user) under e a u =
    rw (e, u, require_admin_auth) refl
gate-decided world none (some (c ∷ text)) needs_role request seconds (err x) under e a u =
    rw (e, u, require_admin_auth) refl
gate-decided world (some key) (some (c ∷ text)) needs_role request seconds (ok user) under e a u =
    rw (e, u, require_admin_auth) refl
gate-decided world (some key) (some (c ∷ text)) needs_role request seconds (err x) under e a u =
    rw (e, u, a, require_admin_auth) refl

reach_admin-decided :
    (world : World) (admin_api_key : Option Text) (needs_role : Bool) (request : Request)
    (seconds : ℕ)
    → request.is_options ≡ false
    → is_prefix (codes "/v1/admin/") request.path ≡ true
    → let found = authenticate_request world request seconds in
      reach_admin world admin_api_key needs_role request seconds
      ≡ and_then (decided admin_api_key request.api_key found) (check_role needs_role found)
unfolding reach_admin require_authentication
reach_admin-decided world admin_api_key needs_role request seconds options under =
    rw (options, admin_path_not_public request.path under, require_authentication, reach_admin)
      (gate-decided world admin_api_key request.api_key needs_role request seconds
        (authenticate_request world request seconds) (is_prefix (codes "/v1/admin/") request.path)
        refl refl under)

-- A request, not an OPTIONS request, for a path under /v1/admin/ reaches its endpoint exactly when its
-- X-API-Key header holds the configured key, or when it has a valid token of an administrator and
-- either no key is configured or the header is missing or empty (a wrong key is refused even with
-- an administrator's token); an endpoint that also names require_role("admin") asks for a valid
-- token of an administrator in every case.
pub reach_admin_iff :
    (world : World) (admin_api_key : Option Text) (needs_role : Bool) (request : Request)
    (seconds : ℕ)
    → request.is_options ≡ false
    → is_prefix (codes "/v1/admin/") request.path ≡ true
    → let found = authenticate_request world request seconds in
      (reach_admin world admin_api_key needs_role request seconds ≡ ok tt) ↔ (
        (HasKey admin_api_key request.api_key ⊎ HasSession admin_api_key request.api_key found)
        × HasRole needs_role found)
reach_admin_iff world admin_api_key needs_role request seconds options under =
    let found = authenticate_request world request seconds in
    rw (reach_admin-decided world admin_api_key needs_role request seconds options under) (
      λ h.
          let (keys, role) = and_then-ok _ _ h in
          (
            decided-ok admin_api_key request.api_key found keys,
            check_role-HasRole needs_role found role,
          ),
      λ (shown, role). rw (decided_by shown) (HasRole-check_role needs_role found role),
    )
  where
    decided_by :
        HasKey admin_api_key request.api_key
          ⊎ HasSession admin_api_key request.api_key (authenticate_request world request seconds)
        → decided admin_api_key request.api_key (authenticate_request world request seconds) ≡ ok tt
    decided_by (inl k) = key-decided admin_api_key request.api_key _ k
    decided_by (inr k) = session-decided admin_api_key request.api_key _ k
