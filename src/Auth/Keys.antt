-- ===== src/Auth/Keys.antt =====
-- The keys of the users table: what a well-formed table is, and that its statements keep it so.
use aithena.Base.{
  ℕ, suc, ◌≤◌, ◌≡◌, refl, inl, inr, Bool, true, false, not, ◌&&◌, Option, none, some, List, [], ◌∷◌,
  String, any, All, All-append, All-map, ◌==◌, arith, Bool-cases,
}
use aithena.Base.Text.{Text, text_eq, lower}
use aithena.Base.Tables.{update_where}
use aithena.Base.Rows.{Unique, Unique-append, Unique-update_where, All-update_where}
use aithena.Auth.Users.{
  User, Users, same_name, has_id, clashes, set_hash, store_hash, valid_roles, insert_user, is_taken,
}
use aithena.Auth.Accounts.{set_columns, collides, update_row}

pub text_eq_comm : (s t : Text) → text_eq s t ≡ text_eq t s
unfolding text_eq
text_eq_comm [] [] = refl
text_eq_comm [] (d ∷ t) = refl
text_eq_comm (c ∷ s) [] = refl
text_eq_comm (c ∷ s) (d ∷ t) = ground (arith, text_eq_comm s t)

same_name_comm : (a b : Text) → same_name a b ≡ same_name b a
unfolding same_name
same_name_comm a b = text_eq_comm (lower a) (lower b)

clashes_comm : (a b : User) → clashes a b ≡ clashes b a
clashes_comm a b = ground (arith, same_name_comm a.username b.username)

-- A role is one of VALID_ROLES.
abbrev pub IsRole : Text → Type 0
IsRole role = any (text_eq role) valid_roles ≡ true

-- The id was given by the table, and the role is one of the three.
abbrev pub IsUser : ℕ → User → Type 0
IsUser sequence user = (user.id ≤ sequence) × IsRole user.role

-- No two rows have one id, or names that differ in the case of letters only.
abbrev pub IsValid : Users → Type 0
IsValid users = Unique clashes users.rows × All (IsUser users.sequence) users.rows

pub store_hash-IsValid :
    (id : ℕ) (hash : Text) (users : Users) → IsValid users → IsValid (store_hash id hash users)
store_hash-IsValid id hash users valid = (
  Unique-update_where clashes (has_id id) (set_hash hash) (λ x y. refl) (λ x y. refl) users.rows
      valid.0,
  All-update_where (IsUser users.sequence) (IsUser users.sequence) (has_id id) (set_hash hash)
      (λ x h. h) (λ x h. h) users.rows valid.1,
)

fresh-clashes :
    (user : User) (n : ℕ) (rows : List User)
    → All (IsUser n) rows
    → any (λ row. same_name row.username user.username) rows ≡ false
    → user.id ≡ suc n
    → any (clashes user) rows ≡ false
unfolding any
fresh-clashes user n [] all h e = refl
fresh-clashes user n (row ∷ rows) all h e =
    ground
      (arith, same_name_comm row.username user.username, fresh-clashes user n rows all.1, all.0.0)

pub insert_user-IsValid :
    (username hash role : Text) (now : String) (users : Users)
    → is_taken username users ≡ false
    → IsRole role
    → IsValid users
    → IsValid (insert_user username hash role now users)
insert_user-IsValid username hash role now users free is_role valid =
    let user : User = record {
      id = suc users.sequence;
      username = username;
      password_hash = hash;
      role = role;
      created_at = now;
    } in
    (
      Unique-append clashes clashes_comm users.rows user
          (fresh-clashes user users.sequence users.rows valid.1 free refl) valid.0,
      All-append (IsUser (suc users.sequence)) users.rows (user ∷ [])
          (All-map (IsUser users.sequence) (IsUser (suc users.sequence))
            (λ x h. (omega (arith, h.0), h.1)) users.rows valid.1)
          ((omega arith, is_role), tt),
    )

-- The rows other than the one of the id that have a name.
abbrev others_named : ℕ → Text → List User → Bool
others_named id name rows = any (λ user. not (user.id == id) && same_name user.username name) rows

module _ (id : ℕ) (role : Option Text) where
  renamed-apart :
      (x : User) (name : Text) (rows : List User)
      → any (clashes x) rows ≡ false
      → (x.id == id) ≡ false
      → same_name x.username name ≡ false
      → any (clashes x) (update_where (has_id id) (set_columns (some name) role) rows) ≡ false
  unfolding any update_where
  renamed-apart x name [] h ne apart = refl
  renamed-apart x name (y ∷ rows) h ne apart = elim role [
    | none ↦ ground (arith, renamed-apart x name rows)
    | some r ↦ ground (arith, renamed-apart x name rows)
  ]

  -- In rows that do not clash with x, none has its id.
  renamed-first :
      (x : User) (name : Text) (rows : List User)
      → any (clashes x) rows ≡ false
      → (x.id == id) ≡ true
      → others_named id name rows ≡ false
      → any
          (clashes (set_columns (some name) role x))
          (update_where (has_id id) (set_columns (some name) role) rows)
        ≡ false
  unfolding any update_where
  renamed-first x name [] h eq free = refl
  renamed-first x name (y ∷ rows) h eq free = elim role [
    | none ↦ ground (arith, same_name_comm y.username name, renamed-first x name rows)
    | some r ↦ ground (arith, same_name_comm y.username name, renamed-first x name rows)
  ]

  renamed-Unique :
      (name : Text) (rows : List User)
      → others_named id name rows ≡ false
      → Unique clashes rows
      → Unique clashes (update_where (has_id id) (set_columns (some name) role) rows)
  unfolding any update_where
  renamed-Unique name [] free u = tt
  renamed-Unique name (x ∷ rows) free u =
      let rest = renamed-Unique name rows (ground arith) u.1 in
      elim (Bool-cases (x.id == id)) [
        | inl e ↦ rw e (renamed-first x name rows u.0 e (ground arith), rest)
        | inr e ↦ rw e (renamed-apart x name rows u.0 e (ground arith), rest)
      ]

update_where_none :
    (f : User → User) (id : ℕ) (rows : List User)
    → any (has_id id) rows ≡ false
    → update_where (has_id id) f rows ≡ rows
unfolding any update_where
update_where_none f id [] h = refl
update_where_none f id (x ∷ rows) h = ground (arith, update_where_none f id rows)

-- The role of an update is one of the three, if there is one.
abbrev pub IsNewRole : Option Text → Type 0
IsNewRole none = Unit
IsNewRole (some role) = IsRole role

set_columns-IsUser :
    (n : ℕ) (username role : Option Text)
    → IsNewRole role
    → (x : User) → IsUser n x
    → IsUser n (set_columns username role x)
set_columns-IsUser n none none r x h = h
set_columns-IsUser n none (some role) r x h = (h.0, r)
set_columns-IsUser n (some name) none r x h = h
set_columns-IsUser n (some name) (some role) r x h = (h.0, r)

set_columns-Unique :
    (id : ℕ) (username role : Option Text) (users : Users)
    → collides id username users ≡ false
    → Unique clashes users.rows
    → Unique clashes (update_where (has_id id) (set_columns username role) users.rows)
set_columns-Unique id none none users free u =
    Unique-update_where clashes (has_id id) (set_columns none none) (λ x y. refl) (λ x y. refl)
      users.rows u
set_columns-Unique id none (some role) users free u =
    Unique-update_where clashes (has_id id) (set_columns none (some role)) (λ x y. refl)
      (λ x y. refl) users.rows u
set_columns-Unique id (some name) role users free u =
    elim (Bool-cases (any (has_id id) users.rows)) [
      | inl e ↦ renamed-Unique id role name users.rows (rw e at free) u
      | inr e ↦ rw (update_where_none (set_columns (some name) role) id users.rows e) u
    ]

pub update_row-IsValid :
    (id : ℕ) (username role : Option Text) (users : Users)
    → IsNewRole role
    → IsValid users
    → IsValid (update_row id username role users).1
update_row-IsValid id username role users r valid = elim (Bool-cases (collides id username users)) [
  | inl e ↦ rw e valid
  | inr e ↦ rw e (
    set_columns-Unique id username role users e valid.0,
    All-update_where (IsUser users.sequence) (IsUser users.sequence) (has_id id)
        (set_columns username role) (set_columns-IsUser users.sequence username role r) (λ x h. h)
        users.rows valid.1,
  )
]
