-- ===== src/Collections/Integrity.antt =====
-- The constraints of the schema hold after every operation.
use aithena.Base.{
  ℕ, ◌≡◌, refl, ◌∙◌, inl, inr, false, ◌&&◌, ◌||◌, Option, none, some, List, [], ◌∷◌, ◌++◌, String,
  arith, All, All-map, any, Bool-cases, Option-cases,
}
use aithena.Base.Text.{Text}
use aithena.Collections.{
  Collection, Item, Db, has_id, item_has_id, in_collection, clashes, is_item_of, owned_row,
  verify_collection_owner, is_some, create_collection, set_collection, update_collection,
  delete_collection, add_items, remove_item, set_item, update_item, next_position, too_long,
  reorder_items,
}
use aithena.Base.Tables.{update_where, delete_where, every-All}
use aithena.Base.Rows.{
  any-append, any-update_where, any-delete_where_ne, Unique, Unique-append, Unique-update_where,
  Unique-delete_where, All-delete_where,
}
use aithena.Collections.Valid.{
  IsValid, same_id, HasHome, items-update_where, insert_all-valid, place_all-valid, apart,
  owner-home, str_eq_comm,
}

-- What the operations of the service do to the database, by any user.
pub data Op : Type 0 where
  create : String → ℕ → String → String → Option String → Op
  update : String → String → Option String → Option String → ℕ → Op
  delete : String → String → Op
  add : String → String → ℕ → List (String × String) → Op
  remove : String → String → String → Op
  change : String → String → String → Option Text → Option ℕ → ℕ → ℕ → Op
  reorder : String → String → ℕ → List String → Op

abbrev pub or_same : {A : Type 0} → Option (A × Db) → Db → Db
or_same none db = db
or_same (some (a, db')) db = db'

unfoldable pub apply : Op → Db → Db
apply (create new_id now user_id name description) db =
    or_same (create_collection new_id now user_id name description db) db
apply (update id user_id name description now) db =
    (update_collection id user_id name description now db).1
apply (delete id user_id) db = (delete_collection id user_id db).1
apply (add id user_id now docs) db = (add_items id user_id now docs db).1
apply (remove id user_id item_id) db = (remove_item id user_id item_id db).1
apply (change id user_id item_id text position limit now) db =
    (update_item id user_id item_id text position limit now db).1
apply (reorder id user_id now item_ids) db = (reorder_items id user_id now item_ids db).1

create-IsValid :
    (new_id : String) (now : ℕ) (user_id name : String) (description : Option String) (db : Db)
    → IsValid db
    → IsValid (or_same (create_collection new_id now user_id name description db) db)
unfolding create_collection
create-IsValid new_id now user_id name description db h =
    elim (Bool-cases (any (has_id new_id) db.collections)) [
      | inl taken ↦ rw taken h
      | inr free ↦
          let row : Collection = record {
            id = new_id;
            user_id = user_id;
            name = name;
            description = description;
            created_at = now;
            updated_at = now;
          } in
          rw free (record {
            unique_collections =
                Unique-append same_id (λ a b. str_eq_comm b.id a.id) db.collections row free
                  h.unique_collections;
            unique_items = h.unique_items;
            homes =
                All-map (HasHome db.collections) (HasHome (db.collections ++ row ∷ []))
                  (λ i home. ground (arith, any-append (has_id i.collection_id) db.collections row))
                  db.items h.homes;
          })
    ]

update-IsValid :
    (id user_id : String) (name description : Option String) (now : ℕ) (db : Db)
    → IsValid db
    → IsValid (update_collection id user_id name description now db).1
unfolding update_collection
update-IsValid id user_id name description now db h =
    let f = set_collection name description now in
    elim (Option-cases (owned_row id user_id db)) [
      | inl other ↦ rw (other, update_collection) h
      | inr (row, own) ↦ elim (Bool-cases (is_some name || is_some description)) [
        | inr nothing ↦ rw (own, nothing, update_collection) h
        | inl given ↦
            rw (own, given, update_collection)
              (record {
                unique_collections =
                    Unique-update_where same_id (has_id id) f (λ a b. refl) (λ a b. refl)
                      db.collections h.unique_collections;
                unique_items = h.unique_items;
                homes =
                    All-map (HasHome db.collections)
                      (HasHome (update_where (has_id id) f db.collections))
                      (λ i home.
                        any-update_where (has_id i.collection_id) (has_id id) f db.collections
                          (λ c. refl)
                        ∙ home)
                      db.items h.homes;
              })
      ]
    ]

delete-IsValid :
    (id user_id : String) (db : Db) → IsValid db → IsValid (delete_collection id user_id db).1
unfolding delete_collection
delete-IsValid id user_id db h = elim (Option-cases (owned_row id user_id db)) [
  | inl other ↦ rw (other, delete_collection) h
  | inr (row, own) ↦
      rw (own, delete_collection)
        (record {
          unique_collections =
              Unique-delete_where same_id (has_id id) db.collections h.unique_collections;
          unique_items = Unique-delete_where clashes (in_collection id) db.items h.unique_items;
          homes =
              All-delete_where (HasHome db.collections)
                (HasHome (delete_where (has_id id) db.collections)) (in_collection id)
                (λ i away home.
                  any-delete_where_ne (has_id i.collection_id) (has_id id) db.collections (
                    every-All (λ c. (has_id id c && has_id i.collection_id c) ≡ false)
                      (λ c. apart c i id away) db.collections)
                  ∙ home)
                db.items h.homes;
        })
]

module _ (id user_id : String) (db : Db) (h : IsValid db) where
  -- Only the items change, and they keep the constraints.
  with_items :
      {items : List Item}
      → Unique clashes items × All (HasHome db.collections) items
      → IsValid (record db { items = items })
  with_items kept = record {
    unique_collections = h.unique_collections;
    unique_items = kept.0;
    homes = kept.1;
  }

  add-IsValid :
      (now : ℕ) (docs : List (String × String)) → IsValid (add_items id user_id now docs db).1
  unfolding add_items
  add-IsValid now docs = elim (Bool-cases (verify_collection_owner id user_id db)) [
    | inr other ↦ rw other h
    | inl own ↦ rw own (
        with_items (
          insert_all-valid id now (next_position id db.items) docs db.collections db.items
            (owner-home id user_id db own) (h.unique_items, h.homes)))
  ]

  remove-IsValid : (item_id : String) → IsValid (remove_item id user_id item_id db).1
  unfolding remove_item
  remove-IsValid item_id = elim (Bool-cases (verify_collection_owner id user_id db)) [
    | inr other ↦ rw other h
    | inl own ↦ rw own (
        with_items (
          Unique-delete_where clashes (is_item_of item_id id) db.items h.unique_items,
          All-delete_where (HasHome db.collections) (HasHome db.collections) (is_item_of item_id id)
              (λ i away home. home) db.items h.homes,
        ))
  ]

  change-IsValid :
      (item_id : String) (text : Option Text) (position : Option ℕ) (limit now : ℕ)
      → IsValid (update_item id user_id item_id text position limit now db).1
  unfolding update_item
  change-IsValid item_id text position limit now =
      let kept =
        items-update_where (item_has_id item_id) (set_item text position now) db.collections
          db.items (λ i. refl) (λ i. refl) (λ i. refl) (h.unique_items, h.homes) in
      elim (Bool-cases (verify_collection_owner id user_id db)) [
        | inr other ↦ rw other h
        | inl own ↦ elim (Bool-cases (any (is_item_of item_id id) db.items)) [
          | inr absent ↦ rw (own, absent) h
          | inl there ↦ elim (Bool-cases (too_long text limit)) [
            | inl long ↦ rw (own, there, long) h
            | inr fits ↦ elim (Bool-cases (is_some text || is_some position)) [
              | inr nothing ↦ rw (own, there, fits, nothing) h
              | inl given ↦ rw (own, there, fits, given) (with_items kept)
            ]
          ]
        ]
      ]

  reorder-IsValid :
      (now : ℕ) (item_ids : List String) → IsValid (reorder_items id user_id now item_ids db).1
  unfolding reorder_items
  reorder-IsValid now item_ids = elim (Bool-cases (verify_collection_owner id user_id db)) [
    | inr other ↦ rw other h
    | inl own ↦ rw own (
        with_items
          (place_all-valid id now 1 item_ids db.collections db.items (h.unique_items, h.homes)))
  ]

apply-IsValid : (op : Op) (db : Db) → IsValid db → IsValid (apply op db)
unfolding apply
apply-IsValid (create new_id now user_id name description) db h =
    create-IsValid new_id now user_id name description db h
apply-IsValid (update id user_id name description now) db h =
    update-IsValid id user_id name description now db h
apply-IsValid (delete id user_id) db h = delete-IsValid id user_id db h
apply-IsValid (add id user_id now docs) db h = add-IsValid id user_id db h now docs
apply-IsValid (remove id user_id item_id) db h = remove-IsValid id user_id db h item_id
apply-IsValid (change id user_id item_id text position limit now) db h =
    change-IsValid id user_id db h item_id text position limit now
apply-IsValid (reorder id user_id now item_ids) db h = reorder-IsValid id user_id db h now item_ids

unfoldable pub run_ops : List Op → Db → Db
unfolding apply
run_ops [] db = db
run_ops (op ∷ ops) db = run_ops ops (apply op db)

abbrev pub empty : Db
empty = record { collections = []; items = [] }

run_ops-keeps : (ops : List Op) (db : Db) → IsValid db → IsValid (run_ops ops db)
unfolding run_ops
run_ops-keeps [] db h = h
run_ops-keeps (op ∷ ops) db h = run_ops-keeps ops (apply op db) (apply-IsValid op db h)

-- From the empty database, after any operations of any users with any ids and times: collection ids
-- are unique, no two items have the same id or the same document in the same collection, and the
-- collection of every item exists.
pub run_ops-IsValid : (ops : List Op) → IsValid (run_ops ops empty)
run_ops-IsValid ops =
    run_ops-keeps ops empty (record { unique_collections = tt; unique_items = tt; homes = tt })
