-- ===== src/Collections/Valid.antt =====
-- The constraints of the schema, and the list operations that keep them.
use aithena.Base.{
  ℕ, ◌+◌, ◌≡◌, refl, inl, inr, Bool, true, false, ◌&&◌, some, List, [], ◌∷◌, ◌++◌, String, str_eq,
  eq_iff, arith, All, All-append, any, Bool-cases, Option-cases,
}
use aithena.Collections.{
  Collection, Item, Db, has_id, in_collection, clashes, is_item_of, new_item, owned_row,
  verify_collection_owner, insert_all, place, place_all,
}
use aithena.Base.Tables.{update_where, find}
use aithena.Base.Rows.{Unique, Unique-append, Unique-update_where, All-update_where}

abbrev pub same_id : Collection → Collection → Bool
same_id a b = has_id a.id b

abbrev pub HasHome : List Collection → Item → Type 0
HasHome collections i = any (has_id i.collection_id) collections ≡ true

-- The primary keys are unique, no document is twice in a collection, and every item's collection
-- exists.
pub record IsValid (db : Db) : Type 0 where
  pub unique_collections : Unique same_id db.collections
  pub unique_items : Unique clashes db.items
  pub homes : All (HasHome db.collections) db.items

pub str_eq_comm : (a b : String) → str_eq a b ≡ str_eq b a
str_eq_comm a b = ground (arith, eq_iff a b, eq_iff b a)

clashes_comm : (a b : Item) → clashes a b ≡ clashes b a
clashes_comm a b = ground (
  arith,
  str_eq_comm a.id b.id,
  str_eq_comm a.collection_id b.collection_id,
  str_eq_comm a.document_id b.document_id,
)

-- An update that keeps the key columns keeps the constraints.
module _ (p : Item → Bool) (f : Item → Item) where
  pub items-update_where :
      (collections : List Collection) (items : List Item)
      → ((i : Item) → (f i).id ≡ i.id)
      → ((i : Item) → (f i).collection_id ≡ i.collection_id)
      → ((i : Item) → (f i).document_id ≡ i.document_id)
      → Unique clashes items × All (HasHome collections) items
      → Unique clashes (update_where p f items) × All (HasHome collections) (update_where p f items)
  items-update_where collections items same_key same_home same_doc h = (
    Unique-update_where clashes p f (λ a b. ground (arith, same_key a, same_home a, same_doc a))
        (λ a b. ground (arith, same_key b, same_home b, same_doc b)) items h.0,
    All-update_where (HasHome collections) (HasHome collections) p f
        (λ i home. rw (same_home i) home) (λ i home. home) items h.1,
  )

pub insert_all-valid :
    (id : String) (now next_pos : ℕ) (docs : List (String × String)) (collections : List Collection)
    (items : List Item)
    → any (has_id id) collections ≡ true
    → Unique clashes items × All (HasHome collections) items
    → Unique clashes (insert_all id now next_pos docs items).1
      × All (HasHome collections) (insert_all id now next_pos docs items).1
unfolding insert_all
insert_all-valid id now next_pos [] collections items home h = h
insert_all-valid id now next_pos ((doc_id, item_id) ∷ docs) collections items home h =
    let row = new_item item_id id doc_id next_pos now in
    elim (Bool-cases (any (clashes row) items)) [
      | inl taken ↦ rw taken (insert_all-valid id now next_pos docs collections items home h)
      | inr free ↦ rw free (
          insert_all-valid id now (next_pos + 1) docs collections (items ++ row ∷ []) home (
            Unique-append clashes clashes_comm items row free h.0,
            All-append (HasHome collections) items (row ∷ []) h.1 (home, tt),
          ))
    ]

pub place_all-valid :
    (id : String) (now position : ℕ) (ids : List String) (collections : List Collection)
    (items : List Item)
    → Unique clashes items × All (HasHome collections) items
    → Unique clashes (place_all id now position ids items)
      × All (HasHome collections) (place_all id now position ids items)
unfolding place_all
place_all-valid id now position [] collections items h = h
place_all-valid id now position (item_id ∷ ids) collections items h =
    place_all-valid id now (position + 1) ids collections
      (update_where (is_item_of item_id id) (place position now) items)
      (items-update_where (is_item_of item_id id) (place position now) collections items (λ i. refl)
        (λ i. refl) (λ i. refl) h)

pub apart :
    (c : Collection) (i : Item) (id : String)
    → in_collection id i ≡ false
    → (has_id id c && has_id i.collection_id c) ≡ false
apart c i id away =
    ground (arith, eq_iff c.id id, eq_iff c.id i.collection_id, eq_iff i.collection_id id)

find→any : {A : Type 0} (q : A → Bool) (xs : List A) (x : A) → find q xs ≡ some x → any q xs ≡ true
unfolding find any
find→any q [] x h = cc
find→any q (y ∷ xs) x h = ground (arith, find→any q xs x)

pub owned_row-find :
    (id user_id : String) (db : Db) (row : Collection)
    → owned_row id user_id db ≡ some row
    → find (has_id id) db.collections ≡ some row
unfolding owned_row
owned_row-find id user_id db row h = ground arith

pub owner-home :
    (id user_id : String) (db : Db)
    → verify_collection_owner id user_id db ≡ true
    → any (has_id id) db.collections ≡ true
unfolding verify_collection_owner
owner-home id user_id db own = elim (Option-cases (owned_row id user_id db)) [
  | inl other ↦ absurd (ground arith)
  | inr (row, e) ↦ find→any (has_id id) db.collections row (owned_row-find id user_id db row e)
]
