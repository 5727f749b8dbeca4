-- ===== src/Auth/Invariant.antt =====
-- The users table stays well formed under every operation.
use aithena.Base.{
  ℕ, ◌≡◌, refl, inl, inr, Bool, true, false, Option, none, some, String, any, arith, if◌then◌else◌,
  Bool-cases, Option-cases, List-cases, ◌⊎◌, length, ltb,
}
use aithena.Base.Text.{Text, codes, text_eq, strip}
use aithena.Base.Tables.{find}
use aithena.Base.Rows.{Unique-delete_where, All-delete_where}
use aithena.Password.{is_given, validate_password}
use aithena.Auth.{Result, ok, err}
use aithena.Auth.Users.{
  User, Users, Hasher, UserError, has_id, clashes, store_hash, load_user_by_username,
  authenticate_user, validate_role, is_taken, add_user, create_user, delete_user, authenticated,
  current_incorrect, same_password,
}
use aithena.Auth.Accounts.{
  new_username, new_role, update_checked, update_user, change_hash, change_password,
  max_password_length, seed_default_admin,
}
use aithena.Auth.Keys.{
  IsRole, IsUser, IsValid, IsNewRole, store_hash-IsValid, insert_user-IsValid, update_row-IsValid,
}

pub Result-cases :
    {E A : Type 0} (r : Result E A) → ((a : A) × (r ≡ ok a)) ⊎ ((e : E) × (r ≡ err e))
Result-cases (ok a) = inl (a, refl)
Result-cases (err e) = inr (e, refl)

-- Every result of a check on a role is one of the three.
validate_role-IsRole : (role valid : Text) → validate_role role ≡ ok valid → IsRole valid
unfolding validate_role
validate_role-IsRole role valid h = ground arith

new_role-IsNewRole : (role valid : Option Text) → new_role role ≡ ok valid → IsNewRole valid
new_role-IsNewRole none none h = tt
new_role-IsNewRole none (some valid) h = cc
new_role-IsNewRole (some role) valid h = elim (Result-cases (validate_role role)) [
  | inl (r, e) ↦
      let same : some r ≡ valid = ground arith in rw (← same) (validate_role-IsRole role r e)
  | inr (x, e) ↦ absurd (ground arith)
]

if-IsValid :
    {R : Type 0} (b : Bool) (x y : R × Users)
    → IsValid x.1
    → IsValid y.1
    → IsValid (if b then x else y).1
if-IsValid true x y hx hy = hx
if-IsValid false x y hx hy = hy

module _ (hasher : Hasher) where
  abbrev rehashed : Text → Text → User → Users → Users
  rehashed salt password user users =
      if hasher.check_needs_rehash user.password_hash
      then store_hash user.id (hasher.hash_password salt password) users
      else users

  rehashed-IsValid :
      (salt password : Text) (user : User) (users : Users)
      → IsValid users
      → IsValid (rehashed salt password user users)
  rehashed-IsValid salt password user users valid =
      elim (Bool-cases (hasher.check_needs_rehash user.password_hash)) [
        | inl e ↦ rw e (store_hash-IsValid user.id (hasher.hash_password salt password) users valid)
        | inr e ↦ rw e valid
      ]

  pub authenticate_user-IsValid :
      (salt username password : Text) (users : Users)
      → IsValid users
      → IsValid (authenticate_user hasher salt username password users).1
  unfolding authenticate_user
  authenticate_user-IsValid salt username password users valid =
      elim (Option-cases (load_user_by_username username users)) [
        | inl e ↦ rw (e, authenticate_user) valid
        | inr (user, e) ↦
            rw (e, authenticate_user)
              (if-IsValid (hasher.verify_password user.password_hash password)
                (some (authenticated user), rehashed salt password user users) (none, users)
                (rehashed-IsValid salt password user users valid) valid)
      ]

module _ (hasher : Hasher) (casefold : Text → Text) (salt : Text) where
  add_user-IsValid :
      (now : String) (username password role : Text) (users : Users)
      → IsRole role
      → IsValid users
      → IsValid (add_user hasher casefold salt now username password role users).1
  add_user-IsValid now username password role users r valid =
      elim (List-cases (validate_password casefold password username)) [
        | inl e ↦
            rw (e, add_user)
              (elim (Bool-cases (is_taken username users)) [
                | inl t ↦ rw t valid
                | inr t ↦ rw t (
                    insert_user-IsValid username (hasher.hash_password salt password) role now users
                      t r valid)
              ])
        | inr (v, vs, e) ↦ rw (e, add_user) valid
      ]

  pub create_user-IsValid :
      (now : String) (username password role : Text) (users : Users)
      → IsValid users
      → IsValid (create_user hasher casefold salt now username password role users).1
  unfolding create_user
  create_user-IsValid now username password role users valid =
      elim (Result-cases (validate_role role)) [
        | inl (r, e) ↦
            rw (e, create_user)
              (elim (Bool-cases (is_given (strip username))) [
                | inl g ↦ rw g (
                    add_user-IsValid now (strip username) password r users
                      (validate_role-IsRole role r e) valid)
                | inr g ↦ rw g valid
              ])
        | inr (x, e) ↦ rw (e, create_user) valid
      ]

  change_hash-IsValid :
      (id : ℕ) (user : User) (current new : Text) (users : Users)
      → IsValid users
      → IsValid (change_hash hasher casefold salt id user current new users).1
  change_hash-IsValid id user current new users valid =
      let stored : Result UserError Unit × Users =
        (ok tt, store_hash id (hasher.hash_password salt new) users) in
      let is_new = hasher.verify_password user.password_hash new in
      elim (List-cases (validate_password casefold new user.username)) [
        | inl e ↦
            rw (e, change_hash)
              (if-IsValid (hasher.verify_password user.password_hash current)
                (if is_new then (err same_password, users) else stored)
                (err current_incorrect, users)
                (if-IsValid is_new (err same_password, users) stored valid
                  (store_hash-IsValid id (hasher.hash_password salt new) users valid))
                valid)
        | inr (v, vs, e) ↦ rw (e, change_hash) valid
      ]

  pub change_password-IsValid :
      (id : ℕ) (current new : Text) (users : Users)
      → IsValid users
      → IsValid (change_password hasher casefold salt id current new users).1
  unfolding change_password
  change_password-IsValid id current new users valid =
      elim (Option-cases (find (has_id id) users.rows)) [
        | inl e ↦ rw (e, change_password) valid
        | inr (user, e) ↦
            rw (e, change_password)
              (if-IsValid (ltb max_password_length (length current)) (err current_incorrect, users)
                (change_hash hasher casefold salt id user current new users) valid
                (change_hash-IsValid id user current new users valid))
      ]

update_checked-IsValid :
    (id : ℕ) (username role : Option Text) (users : Users)
    → IsNewRole role
    → IsValid users
    → IsValid (update_checked id (ok username) (ok role) users).1
update_checked-IsValid id none none users r valid = valid
update_checked-IsValid id none (some role) users r valid =
    update_row-IsValid id none (some role) users r valid
update_checked-IsValid id (some username) role users r valid =
    update_row-IsValid id (some username) role users r valid

pub update_user-IsValid :
    (id : ℕ) (username role : Option Text) (users : Users)
    → IsValid users
    → IsValid (update_user id username role users).1
unfolding update_user
update_user-IsValid id username role users valid = elim (Result-cases (new_username username)) [
  | inr (x, e) ↦ rw (e, update_user) valid
  | inl (n, e) ↦ elim (Result-cases (new_role role)) [
    | inr (x, d) ↦ rw (e, d, update_user) (elim n [ none ↦ valid | some name ↦ valid ])
    | inl (r, d) ↦
        rw (e, d, update_user)
          (update_checked-IsValid id n r users (new_role-IsNewRole role r d) valid)
  ]
]

pub delete_user-IsValid :
    (id : ℕ) (users : Users) → IsValid users → IsValid (delete_user id users).1
delete_user-IsValid id users valid = (
  Unique-delete_where clashes (has_id id) users.rows valid.0,
  All-delete_where (IsUser users.sequence) (IsUser users.sequence) (has_id id) (λ x e h. h)
      users.rows valid.1,
)

admin-IsRole : IsRole (codes "admin")
unfolding any text_eq
admin-IsRole = refl

pub seed_default_admin-IsValid :
    (hasher : Hasher) (username password salt : Text) (now : String) (users : Users)
    → IsValid users
    → IsValid (seed_default_admin hasher username password salt now users)
unfolding seed_default_admin any
seed_default_admin-IsValid hasher username password salt now users valid =
    elim (List-cases users.rows) [
      | inr (user, rows, e) ↦ rw (e, seed_default_admin) valid
      | inl e ↦ elim (Bool-cases (is_given password)) [
        | inl g ↦
            let free : is_taken username users ≡ false = rw e refl in
            let seeded =
              insert_user-IsValid username (hasher.hash_password salt password) (codes "admin") now
                users free admin-IsRole valid in
            rw (e, g, seed_default_admin) seeded
        | inr g ↦ rw (e, g, seed_default_admin) valid
      ]
    ]
