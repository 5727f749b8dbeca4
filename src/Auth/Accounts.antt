-- ===== src/Auth/Accounts.antt =====
-- update_user, change_password and _seed_default_admin of src/solr-search/auth.py.
use aithena.Base.{
  ℕ, Bool, false, not, ◌&&◌, Option, none, some, [], ◌∷◌, String, any, length, ltb, ◌==◌,
  if◌then◌else◌,
}
use aithena.Base.Text.{Text, codes, strip}
use aithena.Base.Tables.{update_where, find}
use aithena.Password.{is_given, validate_password}
use aithena.Auth.{Result, ok, err}
use aithena.Auth.Users.{
  User, Users, Account, Hasher, UserError, empty_username, user_exists, user_not_found,
  current_incorrect, same_password, weak_password, same_name, has_id, store_hash, validate_role,
  insert_user, get_user_by_id,
}

-- the arguments once they are normalised: the name, if there is one, and the role, if there is one
abbrev pub new_username : Option Text → Result UserError (Option Text)
new_username none = ok none
new_username (some username) =
    let name = strip username in if is_given name then ok (some name) else err empty_username

abbrev pub validated : Result UserError Text → Result UserError (Option Text)
validated (ok role) = ok (some role)
validated (err e) = err e

abbrev pub new_role : Option Text → Result UserError (Option Text)
new_role none = ok none
new_role (some role) = validated (validate_role role)

abbrev pub set_name : Option Text → User → User
set_name none user = user
set_name (some username) user = record user { username = username }

abbrev pub set_role : Option Text → User → User
set_role none user = user
set_role (some role) user = record user { role = role }

abbrev pub set_columns : Option Text → Option Text → User → User
set_columns username role user = set_role role (set_name username user)

-- whether the UPDATE breaks UNIQUE: there is a row to change, and the name is that of another
abbrev pub collides : ℕ → Option Text → Users → Bool
collides id none users = false
collides id (some username) users =
    any (has_id id) users.rows
    && any (λ user. not (user.id == id) && same_name user.username username) users.rows

-- The three UPDATE statements of update_user, which differ in the columns they set.
abbrev pub update_row :
    ℕ → Option Text → Option Text → Users → Result UserError (Option Account) × Users
update_row id username role users =
    let updated : Users = record users {
      rows = update_where (has_id id) (set_columns username role) users.rows;
    } in
    if collides id username users
    then (err user_exists, users)
    else (ok (get_user_by_id id updated), updated)

abbrev pub update_checked :
    ℕ
    → Result UserError (Option Text)
    → Result UserError (Option Text)
    → Users
    → Result UserError (Option Account) × Users
update_checked id (err e) role users = (err e, users)
update_checked id (ok username) (err e) users = (err e, users)
update_checked id (ok none) (ok none) users = (ok (get_user_by_id id users), users)
update_checked id (ok none) (ok (some role)) users = update_row id none (some role) users
update_checked id (ok (some username)) (ok role) users = update_row id (some username) role users

-- update_user
unfoldable pub update_user :
    ℕ → Option Text → Option Text → Users → Result UserError (Option Account) × Users
update_user id username role users = update_checked id (new_username username) (new_role role) users

-- MAX_PASSWORD_LENGTH
abbrev pub max_password_length : ℕ
max_password_length = 128

-- change_password of the row, once it is found
abbrev pub change_hash :
    Hasher → (Text → Text) → Text → ℕ → User → Text → Text → Users → Result UserError Unit × Users
change_hash hasher casefold salt id user current_password new_password users =
    elim (validate_password casefold new_password user.username) [
      | v ∷ violations ↦ (err (weak_password (v ∷ violations)), users)
      | [] ↦
          if hasher.verify_password user.password_hash current_password
          then (if hasher.verify_password user.password_hash new_password
              then (err same_password, users)
              else (ok tt, store_hash id (hasher.hash_password salt new_password) users))
          else (err current_incorrect, users)
    ]

-- change_password, with the salt of the new hash
unfoldable pub change_password :
    Hasher → (Text → Text) → Text → ℕ → Text → Text → Users → Result UserError Unit × Users
change_password hasher casefold salt id current_password new_password users =
    elim (find (has_id id) users.rows) [
      | none ↦ (
        err (
            if ltb max_password_length (length current_password)
            then current_incorrect
            else user_not_found),
        users,
      )
      | some user ↦
          if ltb max_password_length (length current_password)
          then (err current_incorrect, users)
          else change_hash hasher casefold salt id user current_password new_password users
    ]

-- _seed_default_admin, with the two settings, the salt and the time
unfoldable pub seed_default_admin : Hasher → Text → Text → Text → String → Users → Users
seed_default_admin hasher username password salt now users = elim users.rows [
  | [] ↦
      if is_given password
      then insert_user username (hasher.hash_password salt password) (codes "admin") now users
      else users
  | user ∷ rows ↦ users
]
