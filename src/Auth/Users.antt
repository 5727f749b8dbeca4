-- ===== src/Auth/Users.antt =====
-- The users table of src/aithena-common/aithena_common/auth_db.py and the operations on it of
-- src/solr-search/auth.py.
--
-- `username` compares without the case of ASCII letters (NOCASE) and AUTOINCREMENT never gives an id
-- twice: `sequence` is the largest it gave. Argon2, its salt and the time of a new row are arguments.
use aithena.Base.{
  ℕ, suc, Bool, ◌||◌, Option, none, some, List, [], ◌∷◌, ◌++◌, String, map, any, ltb, ◌==◌,
  if◌then◌else◌,
}
use aithena.Base.Text.{Text, codes, text_eq, lower, strip}
use aithena.Base.Tables.{update_where, delete_where, find}
use aithena.Base.Sort.{sort_by}
use aithena.Password.{Violation, is_given, validate_password}
use aithena.Auth.{Result, ok, err, AuthenticatedUser}

-- A row of the table, which is also StoredUser with the time of its creation.
pub record User : Type 0 where
  pub id : ℕ
  pub username : Text
  pub password_hash : Text
  pub role : Text
  pub created_at : String

pub record Users : Type 0 where
  pub rows : List User
  pub sequence : ℕ

-- What list_users and get_user_by_id show of a row.
pub record Account : Type 0 where
  pub id : ℕ
  pub username : Text
  pub role : Text
  pub created_at : String

-- passwords.py over Argon2: hashing with a salt, verifying, and whether a hash is outdated.
pub record Hasher : Type 0 where
  pub hash_password : Text → Text → Text
  pub verify_password : Text → Text → Bool
  pub check_needs_rehash : Text → Bool

-- ValueError with its texts, PasswordPolicyError and UserExistsError.
pub data UserError : Type 0 where
  empty_username invalid_role user_exists user_not_found : UserError
  current_incorrect same_password : UserError
  weak_password : List Violation → UserError

-- equality of the collation NOCASE
unfoldable pub same_name : Text → Text → Bool
same_name a b = text_eq (lower a) (lower b)

abbrev pub has_id : ℕ → User → Bool
has_id id user = user.id == id

-- two rows that the keys of the table keep apart
abbrev pub clashes : User → User → Bool
clashes a b = a.id == b.id || same_name a.username b.username

abbrev pub empty : Users
empty = record { rows = []; sequence = 0 }

abbrev pub account_of : User → Account
account_of user = record {
  id = user.id;
  username = user.username;
  role = user.role;
  created_at = user.created_at;
}

abbrev pub set_hash : Text → User → User
set_hash password_hash user = record user { password_hash = password_hash }

-- `UPDATE users SET password_hash = ? WHERE id = ?`
abbrev pub store_hash : ℕ → Text → Users → Users
store_hash id password_hash users = record users {
  rows = update_where (has_id id) (set_hash password_hash) users.rows;
}

-- _load_user_by_username
unfoldable pub load_user_by_username : Text → Users → Option User
unfolding same_name
load_user_by_username username users =
    let name = strip username in
    if is_given name then find (λ user. same_name user.username name) users.rows else none

abbrev pub authenticated : User → AuthenticatedUser
authenticated user = record { id = user.id; username = user.username; role = user.role }

-- authenticate_user, with the salt of a new hash
unfoldable pub authenticate_user :
    Hasher → Text → Text → Text → Users → Option AuthenticatedUser × Users
unfolding load_user_by_username
authenticate_user hasher salt username password users =
    elim (load_user_by_username username users) [
      | none ↦ (none, users)
      | some user ↦
          if hasher.verify_password user.password_hash password
          then (
            some (authenticated user),
            (if hasher.check_needs_rehash user.password_hash
                then store_hash user.id (hasher.hash_password salt password) users
                else users),
          )
          else (none, users)
    ]

-- VALID_ROLES
abbrev pub valid_roles : List Text
valid_roles = codes "admin" ∷ codes "user" ∷ codes "viewer" ∷ []

-- validate_role
unfoldable pub validate_role : Text → Result UserError Text
validate_role role =
    let normalized = lower (strip role) in
    if any (text_eq normalized) valid_roles then ok normalized else err invalid_role

-- the INSERT, with the id that AUTOINCREMENT gives
abbrev pub insert_user : Text → Text → Text → String → Users → Users
insert_user username password_hash role created_at users = record {
  rows =
      users.rows
      ++ (record {
        id = suc users.sequence;
        username = username;
        password_hash = password_hash;
        role = role;
        created_at = created_at;
      })
        ∷ [];
  sequence = suc users.sequence;
}

abbrev pub is_taken : Text → Users → Bool
is_taken username users = any (λ user. same_name user.username username) users.rows

-- create_user once the role is valid
abbrev pub add_user :
    Hasher
    → (Text → Text)
    → Text
    → String
    → Text
    → Text
    → Text
    → Users
    → Result UserError Account × Users
add_user hasher casefold salt now username password role users =
    elim (validate_password casefold password username) [
      | v ∷ violations ↦ (err (weak_password (v ∷ violations)), users)
      | [] ↦ if is_taken username users then (err user_exists, users) else (
        ok (record { id = suc users.sequence; username = username; role = role; created_at = now }),
        insert_user username (hasher.hash_password salt password) role now users,
      )
    ]

-- create_user, with the salt and the time
unfoldable pub create_user :
    Hasher
    → (Text → Text)
    → Text
    → String
    → Text
    → Text
    → Text
    → Users
    → Result UserError Account × Users
unfolding validate_role
create_user hasher casefold salt now username password role users =
    let name = strip username in
    elim (validate_role role) [
      | err e ↦ (err (if is_given name then e else empty_username), users)
      | ok valid ↦
          if is_given name
          then add_user hasher casefold salt now name password valid users
          else (err empty_username, users)
    ]

-- list_users, `ORDER BY id`
abbrev pub list_users : Users → List Account
list_users users = map account_of (sort_by (λ a b. ltb a.id b.id) users.rows)

abbrev pub shown : Option User → Option Account
shown none = none
shown (some user) = some (account_of user)

-- get_user_by_id
abbrev pub get_user_by_id : ℕ → Users → Option Account
get_user_by_id id users = shown (find (has_id id) users.rows)

-- delete_user
abbrev pub delete_user : ℕ → Users → Bool × Users
delete_user id users =
    (any (has_id id) users.rows, record users { rows = delete_where (has_id id) users.rows })
