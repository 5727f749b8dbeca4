-- ===== src/Auth/Authority.antt =====
-- Who may change what: requests that need a user.
use aithena.Base.{
  ℕ, ◌≡◌, refl, inl, inr, Bool, true, false, ◌&&◌, ◌||◌, Option, none, some, List, [], ◌∷◌, map,
  ◌==◌, arith, if◌then◌else◌, Bool-cases, Option-cases, List-cases, ltb, length,
}
use aithena.Base.Text.{Text, codes, is_prefix}
use aithena.Base.Tables.{update_where, find}
use aithena.Password.{validate_password}
use aithena.Auth.{Result, ok, err, AuthenticatedUser, AuthError}
use aithena.Auth.Users.{
  User, Users, Account, Hasher, UserError, has_id, set_hash, store_hash, get_user_by_id,
  current_incorrect, same_password,
}
use aithena.Auth.Accounts.{
  new_username, set_columns, collides, update_row, update_checked, update_user, change_hash,
  change_password, max_password_length,
}
use aithena.Auth.Invariant.{Result-cases}
use aithena.Auth.Endpoints.{
  Request, Moment, World, State, signed_in, UserCall, get_me, get_users, put_password, register,
  put_user, remove_user, passed, user_or_none, gate_of, authenticate_request,
  require_authentication, refusal, is_public_path, has_header,
}
use aithena.Auth.Routes.{
  is_admin, handle, as_user, with_user, auth_update_user, update_found, gated, respond,
}

module _ (world : World) where
  gated-gate_of :
      (found : Result AuthError AuthenticatedUser) (call : UserCall) (request : Request)
      (at : Moment) (state : State)
      → gated world (gate_of found) (signed_in call) request at state
        ≡ with_user world found call at state
  unfolding respond
  gated-gate_of (ok user) call request at state = refl
  gated-gate_of (err e) call request at state = refl

  gated-user_or_none :
      (found : Result AuthError AuthenticatedUser) (call : UserCall) (request : Request)
      (at : Moment) (state : State)
      → authenticate_request world request at.seconds ≡ found
      → gated world (passed (user_or_none found)) (signed_in call) request at state
        ≡ with_user world found call at state
  unfolding respond
  gated-user_or_none (ok user) call request at state e = refl
  gated-user_or_none (err x) call request at state e = rw e refl

  -- Whatever way the middleware lets a request through, the endpoint sees the user of its token.
  pub handle-signed_in :
      (call : UserCall) (request : Request) (at : Moment) (state : State)
      → handle world (signed_in call) request at state
        ≡ with_user world (authenticate_request world request at.seconds) call at state
  unfolding handle require_authentication respond
  handle-signed_in call request at state =
      elim (Bool-cases (request.is_options || is_public_path request.path)) [
        | inl e ↦ rw (e, require_authentication) refl
        | inr e ↦
            elim (Bool-cases
              (has_header request.api_key && is_prefix (codes "/v1/admin/") request.path)) [
                | inl h ↦
                    rw (e, h, require_authentication)
                      (gated-user_or_none (authenticate_request world request at.seconds) call
                        request at state refl)
                | inr h ↦
                    rw (e, h, require_authentication)
                      (gated-gate_of (authenticate_request world request at.seconds) call request at
                        state)
              ]
      ]

-- The ids with their roles.
abbrev pub roles : List User → List (ℕ × Text)
roles = map (λ user. (user.id, user.role))

-- Nothing but the row of the id differs, no row came or went, and no role differs.
abbrev pub IsOwnChange : ℕ → List User → List User → Type 0
IsOwnChange id before after =
    ((other : ℕ) → (id == other) ≡ false → find (has_id other) after ≡ find (has_id other) before)
    × (roles after ≡ roles before)

update_where-IsOwnChange :
    (id : ℕ) (f : User → User)
    → ((user : User) → (f user).id ≡ user.id)
    → ((user : User) → (f user).role ≡ user.role)
    → (rows : List User) → IsOwnChange id rows (update_where (has_id id) f rows)
unfolding update_where find
update_where-IsOwnChange id f same_id same_role [] = (λ other ne. refl, refl)
update_where-IsOwnChange id f same_id same_role (user ∷ rows) =
    let (others, same) = update_where-IsOwnChange id f same_id same_role rows in
    (
      λ other ne. ground (arith, same_id user, others other ne),
      ground (arith, same, same_id user, same_role user),
    )

abbrev OwnChange : ℕ → Users → Users → Type 0
OwnChange id before after = IsOwnChange id before.rows after.rows

same-OwnChange : (id : ℕ) (users : Users) → OwnChange id users users
same-OwnChange id users = (λ other ne. refl, refl)

if-OwnChange :
    {R : Type 0} (id : ℕ) (before : Users) (b : Bool) (x y : R × Users)
    → OwnChange id before x.1
    → OwnChange id before y.1
    → OwnChange id before (if b then x else y).1
if-OwnChange id before true x y hx hy = hx
if-OwnChange id before false x y hx hy = hy

module _ (hasher : Hasher) (casefold : Text → Text) (salt : Text) where
  change_hash-OwnChange :
      (id : ℕ) (user : User) (current new : Text) (users : Users)
      → OwnChange id users (change_hash hasher casefold salt id user current new users).1
  change_hash-OwnChange id user current new users =
      let hash = hasher.hash_password salt new in
      let stored : Result UserError Unit × Users = (ok tt, store_hash id hash users) in
      let is_new = hasher.verify_password user.password_hash new in
      let same = same-OwnChange id users in
      elim (List-cases (validate_password casefold new user.username)) [
        | inl e ↦
            rw (e, change_hash)
              (if-OwnChange id users (hasher.verify_password user.password_hash current)
                (if is_new then (err same_password, users) else stored)
                (err current_incorrect, users)
                (if-OwnChange id users is_new (err same_password, users) stored same
                  (update_where-IsOwnChange id (set_hash hash) (λ user. refl) (λ user. refl)
                    users.rows))
                same)
        | inr (v, vs, e) ↦ rw (e, change_hash) same
      ]

  change_password-OwnChange :
      (id : ℕ) (current new : Text) (users : Users)
      → OwnChange id users (change_password hasher casefold salt id current new users).1
  unfolding change_password
  change_password-OwnChange id current new users =
      let same = same-OwnChange id users in
      elim (Option-cases (find (has_id id) users.rows)) [
        | inl e ↦ rw (e, change_password) same
        | inr (user, e) ↦
            rw (e, change_password)
              (if-OwnChange id users (ltb max_password_length (length current))
                (err current_incorrect, users)
                (change_hash hasher casefold salt id user current new users) same
                (change_hash-OwnChange id user current new users))
      ]

update_row-OwnChange :
    (id : ℕ) (name : Text) (users : Users)
    → OwnChange id users (update_row id (some name) none users).1
update_row-OwnChange id name users = elim (Bool-cases (collides id (some name) users)) [
  | inl e ↦ rw e (same-OwnChange id users)
  | inr e ↦ rw e (
      update_where-IsOwnChange id (set_columns (some name) none) (λ user. refl) (λ user. refl)
        users.rows)
]

update_checked-OwnChange :
    (id : ℕ) (username : Option Text) (users : Users)
    → OwnChange id users (update_checked id (ok username) (ok none) users).1
update_checked-OwnChange id none users = same-OwnChange id users
update_checked-OwnChange id (some name) users = update_row-OwnChange id name users

update_user-OwnChange :
    (id : ℕ) (username : Option Text) (users : Users)
    → OwnChange id users (update_user id username none users).1
unfolding update_user
update_user-OwnChange id username users = elim (Result-cases (new_username username)) [
  | inr (x, e) ↦ rw (e, update_user) (same-OwnChange id users)
  | inl (n, e) ↦ rw (e, update_user) (update_checked-OwnChange id n users)
]

module _ (world : World) where
  update_found-OwnChange :
      (target : Option Account) (id : ℕ) (username : Option Text) (state : State)
      → OwnChange id state.users (update_found world target id username none state).1.users
  update_found-OwnChange none id username state = same-OwnChange id state.users
  update_found-OwnChange (some target) id username state =
      update_user-OwnChange id username state.users

  auth_update_user-OwnChange :
      (id : ℕ) (username role : Option Text) (user : AuthenticatedUser) (state : State)
      → is_admin user ≡ false
      → OwnChange user.id state.users (auth_update_user world id username role user state).1.users
  auth_update_user-OwnChange id username (some r) user state plain =
      elim (Bool-cases (user.id == id)) [
        | inl e ↦ rw (plain, e) (same-OwnChange user.id state.users)
        | inr e ↦ rw (plain, e) (same-OwnChange user.id state.users)
      ]
  auth_update_user-OwnChange id username none user state plain = elim (Bool-cases (user.id == id)) [
    | inr e ↦ rw (plain, e) (same-OwnChange user.id state.users)
    | inl e ↦
        let own : user.id ≡ id = ground arith in
        rw (plain, e, own)
          (update_found-OwnChange (get_user_by_id id state.users) id username state)
  ]

  as_user-OwnChange :
      (call : UserCall) (user : AuthenticatedUser) (at : Moment) (state : State)
      → is_admin user ≡ false
      → OwnChange user.id state.users (as_user world call user at state).1.users
  as_user-OwnChange get_me user at state plain = same-OwnChange user.id state.users
  as_user-OwnChange get_users user at state plain = rw plain (same-OwnChange user.id state.users)
  as_user-OwnChange (put_password a b) user at state plain =
      change_password-OwnChange world.hasher world.casefold at.salt user.id a b state.users
  as_user-OwnChange (register a b c) user at state plain =
      rw plain (same-OwnChange user.id state.users)
  as_user-OwnChange (put_user id a b) user at state plain =
      auth_update_user-OwnChange id a b user state plain
  as_user-OwnChange (remove_user id) user at state plain =
      rw plain (same-OwnChange user.id state.users)

-- A request of a logged-in user who is not an administrator changes at most the user's own row of the
-- users table: every other row stays as it was, no row is added or removed, and no role changes,
-- the user's own included.
pub handle-IsOwnChange :
    (world : World) (call : UserCall) (request : Request) (at : Moment) (state : State)
    (user : AuthenticatedUser)
    → authenticate_request world request at.seconds ≡ ok user
    → is_admin user ≡ false
    → IsOwnChange user.id state.users.rows
        (handle world (signed_in call) request at state).1.users.rows
handle-IsOwnChange world call request at state user e plain =
    rw (handle-signed_in world call request at state)
      (rw e (as_user-OwnChange world call user at state plain))

-- A request for an endpoint that needs a user is answered with 401 and changes nothing when its token is
-- missing, expired or not valid, whatever its method, its path and its API key.
pub handle-refused :
    (world : World) (call : UserCall) (request : Request) (at : Moment) (state : State)
    (e : AuthError)
    → authenticate_request world request at.seconds ≡ err e
    → handle world (signed_in call) request at state ≡ (refusal e, state)
handle-refused world call request at state e h =
    rw (handle-signed_in world call request at state) (rw h refl)
