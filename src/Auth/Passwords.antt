-- ===== src/Auth/Passwords.antt =====
-- A changed password replaces the old one.
use aithena.Base.{
  ℕ, ◌≡◌, ◌≢◌, refl, sym, ◌∙◌, inl, inr, Bool, true, none, some, List, [], ◌∷◌, arith, ltb, length,
  if◌then◌else◌, Bool-cases, Option-cases, List-cases,
}
use aithena.Base.Text.{Text, strip}
use aithena.Base.Tables.{find, update_where}
use aithena.Password.{is_given, validate_password}
use aithena.Auth.{ok}
use aithena.Auth.Users.{
  User, Users, Hasher, has_id, same_name, set_hash, store_hash, load_user_by_username,
  authenticate_user, authenticated,
}
use aithena.Auth.Accounts.{change_hash, change_password, max_password_length}
use aithena.Auth.Laws.{HasherLaws}

module _ (hasher : Hasher) (casefold : Text → Text) (salt : Text) where
  -- A password change that succeeds stores the new hash, and the two passwords differ.
  abbrev Changed : ℕ → Text → Text → Users → Users → Type 0
  Changed id current new users after =
      (current ≢ new) × (after ≡ store_hash id (hasher.hash_password salt new) users)

  change_hash-Changed :
      (id : ℕ) (user : User) (current new : Text) (users after : Users)
      → change_hash hasher casefold salt id user current new users ≡ (ok tt, after)
      → Changed id current new users after
  change_hash-Changed id user current new users after h =
      elim (List-cases (validate_password casefold new user.username)) [
        | inr (v, vs, e) ↦ absurd (ground arith)
        | inl e ↦ elim (Bool-cases (hasher.verify_password user.password_hash current)) [
          | inr c ↦ absurd (ground arith)
          | inl c ↦ elim (Bool-cases (hasher.verify_password user.password_hash new)) [
            | inl n ↦ absurd (ground arith)
            | inr n ↦ (λ same. ground arith, ground arith)
          ]
        ]
      ]

  change_password-Changed :
      (id : ℕ) (current new : Text) (users after : Users)
      → change_password hasher casefold salt id current new users ≡ (ok tt, after)
      → Changed id current new users after
  unfolding change_password
  change_password-Changed id current new users after h =
      elim (Option-cases (find (has_id id) users.rows)) [
        | inl e ↦ absurd (ground arith)
        | inr (user, e) ↦ elim (Bool-cases (ltb max_password_length (length current))) [
          | inl long ↦ absurd (ground arith)
          | inr short ↦
              change_hash-Changed id user current new users after
                (rw (e, short, change_password) at h)
        ]
      ]

find-updated :
    (q p : User → Bool) (f : User → User) (rows : List User) (user : User)
    → ((row : User) → q (f row) ≡ q row)
    → find q rows ≡ some user
    → p user ≡ true
    → find q (update_where p f rows) ≡ some (f user)
unfolding find update_where
find-updated q p f [] user same h t = absurd (ground arith)
find-updated q p f (row ∷ rows) user same h t =
    ground (arith, same row, find-updated q p f rows user same)

load_user_by_username-store_hash :
    (username hash : Text) (id : ℕ) (users : Users) (user : User)
    → load_user_by_username username users ≡ some user
    → user.id ≡ id
    → load_user_by_username username (store_hash id hash users) ≡ some (set_hash hash user)
unfolding load_user_by_username
load_user_by_username-store_hash username hash id users user h own =
    elim (Bool-cases (is_given (strip username))) [
      | inr e ↦ absurd (ground arith)
      | inl e ↦ rw e (
          find-updated (λ row. same_name row.username (strip username)) (has_id id) (set_hash hash)
            users.rows user (λ row. refl) (rw e at h) (ground arith))
    ]

authenticate_user-verified :
    (hasher : Hasher) (salt username password : Text) (users : Users) (user : User)
    → load_user_by_username username users ≡ some user
    → (authenticate_user hasher salt username password users).0 ≡ (
        if hasher.verify_password user.password_hash password
        then some (authenticated user)
        else none)
unfolding authenticate_user
authenticate_user-verified hasher salt username password users user e =
    elim (Bool-cases (hasher.verify_password user.password_hash password)) [
      | inl v ↦ rw (e, v, authenticate_user) refl
      | inr v ↦ rw (e, v, authenticate_user) refl
    ]

-- After a password change that succeeds, the user logs in with the new password, and the old one is
-- refused. The user is whom the name finds before the change, and the hash function verifies the
-- password of a hash and no other.
pub change_password-replaces :
    (hasher : Hasher) (casefold : Text → Text) (salt later : Text) (id : ℕ)
    (current new username : Text) (users after : Users) (user : User)
    → HasherLaws hasher
    → change_password hasher casefold salt id current new users ≡ (ok tt, after)
    → load_user_by_username username users ≡ some user
    → user.id ≡ id
    → ((authenticate_user hasher later username new after).0 ≡ some (authenticated user))
      × ((authenticate_user hasher later username current after).0 ≡ none)
change_password-replaces hasher casefold salt later id current new username users after user laws h
      found own =
    let (differ, stored) =
      change_password-Changed hasher casefold salt id current new users after h in
    let hash = hasher.hash_password salt new in
    let changed = load_user_by_username-store_hash username hash id users user found own in
    rw stored (
      authenticate_user-verified hasher later username new (store_hash id hash users)
            (set_hash hash user) changed
          ∙ rw (laws.verifies salt new) refl,
      authenticate_user-verified hasher later username current (store_hash id hash users)
            (set_hash hash user) changed
          ∙ elim (Bool-cases (hasher.verify_password hash current)) [
            | inl v ↦ absurd (differ (sym (laws.separates salt new current v)))
            | inr v ↦ rw v refl
          ],
    )
