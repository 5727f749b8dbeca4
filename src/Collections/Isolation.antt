-- ===== src/Collections/Isolation.antt =====
-- No operation of one user changes a collection of another.
use aithena.Base.{
  ℕ, ◌+◌, ◌≡◌, ◌≢◌, refl, ◌∙◌, inl, inr, true, false, ◌&&◌, ◌||◌, Option, some, List, [], ◌∷◌, ◌++◌,
  String, str_eq, eq_iff, arith, All, All-map, sym, any, keep, Bool-cases, Option-cases,
}
use mathlib.Core.List.{append-nil}
use aithena.Base.Text.{Text}
use aithena.Collections.{
  Collection, Item, Db, has_id, item_has_id, in_collection, clashes, is_item_of, new_item, is_some,
  owned_row, verify_collection_owner, too_long, next_position, create_collection, set_collection,
  update_collection, delete_collection, insert_all, add_items, remove_item, set_item, update_item,
  place, place_all, reorder_items,
}
use aithena.Base.Tables.{
  find, update_where, keep-update_where, keep-delete_where, keep-append, find-append,
  find-update_where, find-delete_where, every-All,
}
use aithena.Base.Rows.{Unique}
use aithena.Collections.Valid.{IsValid, owned_row-find}
use aithena.Collections.Integrity.{
  Op, create, update, delete, add, remove, change, reorder, apply, or_same,
}

-- The user whose request an operation carries out.
abbrev pub actor : Op → String
actor (create new_id now user_id name description) = user_id
actor (update id user_id name description now) = user_id
actor (delete id user_id) = user_id
actor (add id user_id now docs) = user_id
actor (remove id user_id item_id) = user_id
actor (change id user_id item_id text position limit now) = user_id
actor (reorder id user_id now item_ids) = user_id

-- The row of collection c and its items, in order, are the same in both databases.
pub record Same (c : String) (db' db : Db) : Type 0 where
  pub row : find (has_id c) db'.collections ≡ find (has_id c) db.collections
  pub items : keep (in_collection c) db'.items ≡ keep (in_collection c) db.items

owned_row-user :
    (id user_id : String) (db : Db) (row : Collection)
    → owned_row id user_id db ≡ some row
    → row.user_id ≡ user_id
unfolding owned_row
owned_row-user id user_id db row h = elim (Option-cases (find (has_id id) db.collections)) [
  | inl absent ↦ absurd (ground arith)
  | inr (r, e) ↦ ground (arith, eq_iff r.user_id user_id)
]

-- A collection that the user owns is not the one of somebody else.
owned_apart :
    (c id user_id : String) (db : Db) (row mine : Collection)
    → find (has_id c) db.collections ≡ some row
    → row.user_id ≢ user_id
    → owned_row id user_id db ≡ some mine
    → str_eq id c ≡ false
owned_apart c id user_id db row mine theirs other own = elim (Bool-cases (str_eq id c)) [
  | inr e ↦ e
  | inl e ↦
      let same = (eq_iff id c).0 e in
      let found = owned_row-find id user_id db mine own in
      absurd (other (cc (theirs, rw same at found, owned_row-user id user_id db mine own)))
]

verified_apart :
    (c id user_id : String) (db : Db) (row : Collection)
    → find (has_id c) db.collections ≡ some row
    → row.user_id ≢ user_id
    → verify_collection_owner id user_id db ≡ true
    → str_eq id c ≡ false
unfolding verify_collection_owner
verified_apart c id user_id db row theirs other own =
    elim (Option-cases (owned_row id user_id db)) [
      | inl e ↦ absurd (ground arith)
      | inr (mine, e) ↦ owned_apart c id user_id db row mine theirs other e
    ]

-- Two collections have no row and no item in common.
module _ (c id : String) (e : str_eq id c ≡ false) where
  rows_apart : (x : Collection) → (has_id id x && has_id c x) ≡ false
  rows_apart x = ground (arith, eq_iff x.id id, eq_iff x.id c, eq_iff id c)

  items_apart : (x : Item) → (in_collection id x && in_collection c x) ≡ false
  items_apart x = ground (arith, eq_iff x.collection_id id, eq_iff x.collection_id c, eq_iff id c)

  item_apart :
      (item_id : String) (x : Item) → (is_item_of item_id id x && in_collection c x) ≡ false
  item_apart item_id x =
      ground (arith, eq_iff x.collection_id id, eq_iff x.collection_id c, eq_iff id c)

  keep_new :
      (now next_pos : ℕ) (doc_id item_id : String)
      → keep (in_collection c) (new_item item_id id doc_id next_pos now ∷ []) ≡ []
  unfolding keep
  keep_new now next_pos doc_id item_id = rw e

  insert_all-keep :
      (now next_pos : ℕ) (docs : List (String × String)) (items : List Item)
      → keep (in_collection c) (insert_all id now next_pos docs items).1
        ≡ keep (in_collection c) items
  unfolding insert_all
  insert_all-keep now next_pos [] items = refl
  insert_all-keep now next_pos ((doc_id, item_id) ∷ docs) items =
      let row = new_item item_id id doc_id next_pos now in
      elim (Bool-cases (any (clashes row) items)) [
        | inl taken ↦ rw taken (insert_all-keep now next_pos docs items)
        | inr free ↦ rw free (
            insert_all-keep now (next_pos + 1) docs (items ++ row ∷ [])
            ∙ keep-append (in_collection c) items (row ∷ [])
            ∙ rw (keep_new now next_pos doc_id item_id, append-nil))
      ]

  place_all-keep :
      (now position : ℕ) (ids : List String) (items : List Item)
      → keep (in_collection c) (place_all id now position ids items) ≡ keep (in_collection c) items
  unfolding place_all
  place_all-keep now position [] items = refl
  place_all-keep now position (item_id ∷ ids) items =
      place_all-keep now (position + 1) ids
        (update_where (is_item_of item_id id) (place position now) items)
      ∙ keep-update_where (in_collection c) (is_item_of item_id id) (place position now) items
          (every-All _ (λ x. (item_apart item_id x, refl)) items)

-- Where ids are unique, the item that was found in one collection is in no other.
no_other :
    (x : Item) (item_id : String) (items : List Item)
    → any (clashes x) items ≡ false
    → str_eq x.id item_id ≡ true
    → All (λ y. item_has_id item_id y ≡ false) items
unfolding any
no_other x item_id [] h e = tt
no_other x item_id (y ∷ items) h e = (
  ground (arith, eq_iff x.id item_id, eq_iff y.id item_id, eq_iff y.id x.id),
  no_other x item_id items (ground arith) e,
)

no_item :
    (x : Item) (item_id id : String) (items : List Item)
    → any (clashes x) items ≡ false
    → any (is_item_of item_id id) items ≡ true
    → str_eq x.id item_id ≡ false
unfolding any
no_item x item_id id [] h there = absurd (cc)
no_item x item_id id (y ∷ items) h there =
    ground (
      arith,
      no_item x item_id id items,
      eq_iff x.id item_id,
      eq_iff y.id item_id,
      eq_iff y.id x.id,
    )

only_here :
    (c id item_id : String) (items : List Item)
    → str_eq id c ≡ false
    → Unique clashes items
    → any (is_item_of item_id id) items ≡ true
    → All (λ x. (item_has_id item_id x && in_collection c x) ≡ false) items
unfolding any
only_here c id item_id [] e u there = tt
only_here c id item_id (x ∷ items) e u there = elim (Bool-cases (is_item_of item_id id x)) [
  | inl here ↦ (
    ground (arith, eq_iff x.collection_id id, eq_iff x.collection_id c, eq_iff id c),
    All-map (λ y. item_has_id item_id y ≡ false) _ (λ y h. ground arith) items
        (no_other x item_id items u.0 (ground arith)),
  )
  | inr elsewhere ↦
      let rest : any (is_item_of item_id id) items ≡ true = ground arith in
      (ground (arith, no_item x item_id id items u.0 rest), only_here c id item_id items e u.1 rest)
]

Same-refl : (c : String) (db : Db) → Same c db db
Same-refl c db = record { row = refl; items = refl }

module _ (c : String) (db : Db) (theirs : Collection) (h : IsValid db)
    (found : find (has_id c) db.collections ≡ some theirs) where
  create-Same :
      (new_id : String) (now : ℕ) (user_id name : String) (description : Option String)
      → Same c (or_same (create_collection new_id now user_id name description db) db) db
  unfolding create_collection
  create-Same new_id now user_id name description =
      elim (Bool-cases (any (has_id new_id) db.collections)) [
        | inl taken ↦ rw taken (Same-refl c db)
        | inr free ↦ rw free (record {
          row = find-append (has_id c) db.collections _ theirs found ∙ sym found;
          items = refl;
        })
      ]

  module _ (id user_id : String) (other : theirs.user_id ≢ user_id) where
    apart_by : verify_collection_owner id user_id db ≡ true → str_eq id c ≡ false
    apart_by own = verified_apart c id user_id db theirs found other own

    update-Same :
        (name description : Option String) (now : ℕ)
        → Same c (update_collection id user_id name description now db).1 db
    unfolding update_collection
    update-Same name description now = elim (Option-cases (owned_row id user_id db)) [
      | inl e ↦ rw (e, update_collection) (Same-refl c db)
      | inr (mine, e) ↦ elim (Bool-cases (is_some name || is_some description)) [
        | inr nothing ↦ rw (e, nothing, update_collection) (Same-refl c db)
        | inl given ↦
            let away = owned_apart c id user_id db theirs mine found other e in
            rw (e, given, update_collection)
              (record {
                row =
                    find-update_where (has_id c) (has_id id) (set_collection name description now)
                      db.collections
                      (every-All _ (λ x. (rows_apart c id away x, refl)) db.collections);
                items = refl;
              })
      ]
    ]

    delete-Same : Same c (delete_collection id user_id db).1 db
    unfolding delete_collection
    delete-Same = elim (Option-cases (owned_row id user_id db)) [
      | inl e ↦ rw (e, delete_collection) (Same-refl c db)
      | inr (mine, e) ↦
          let away = owned_apart c id user_id db theirs mine found other e in
          rw (e, delete_collection)
            (record {
              row =
                  find-delete_where (has_id c) (has_id id) db.collections
                    (every-All _ (rows_apart c id away) db.collections);
              items =
                  keep-delete_where (in_collection c) (in_collection id) db.items
                    (every-All _ (items_apart c id away) db.items);
            })
    ]

    add-Same :
        (now : ℕ) (docs : List (String × String)) → Same c (add_items id user_id now docs db).1 db
    unfolding add_items
    add-Same now docs = elim (Bool-cases (verify_collection_owner id user_id db)) [
      | inr e ↦ rw e (Same-refl c db)
      | inl own ↦ rw own (record {
        row = refl;
        items = insert_all-keep c id (apart_by own) now (next_position id db.items) docs db.items;
      })
    ]

    remove-Same : (item_id : String) → Same c (remove_item id user_id item_id db).1 db
    unfolding remove_item
    remove-Same item_id = elim (Bool-cases (verify_collection_owner id user_id db)) [
      | inr e ↦ rw e (Same-refl c db)
      | inl own ↦ rw own (record {
        row = refl;
        items =
            keep-delete_where (in_collection c) (is_item_of item_id id) db.items
              (every-All _ (item_apart c id (apart_by own) item_id) db.items);
      })
    ]

    change-Same :
        (item_id : String) (text : Option Text) (position : Option ℕ) (limit now : ℕ)
        → Same c (update_item id user_id item_id text position limit now db).1 db
    unfolding update_item
    change-Same item_id text position limit now =
        elim (Bool-cases (verify_collection_owner id user_id db)) [
          | inr e ↦ rw e (Same-refl c db)
          | inl own ↦ elim (Bool-cases (any (is_item_of item_id id) db.items)) [
            | inr absent ↦ rw (own, absent) (Same-refl c db)
            | inl there ↦ elim (Bool-cases (too_long text limit)) [
              | inl long ↦ rw (own, there, long) (Same-refl c db)
              | inr fits ↦ elim (Bool-cases (is_some text || is_some position)) [
                | inr nothing ↦ rw (own, there, fits, nothing) (Same-refl c db)
                | inl given ↦
                    rw (own, there, fits, given)
                      (record {
                        row = refl;
                        items =
                            keep-update_where (in_collection c) (item_has_id item_id)
                              (set_item text position now) db.items
                              (All-map _ _ (λ x e. (e, refl)) db.items
                                (only_here c id item_id db.items (apart_by own) h.unique_items
                                  there));
                      })
              ]
            ]
          ]
        ]

    reorder-Same :
        (now : ℕ) (item_ids : List String) → Same c (reorder_items id user_id now item_ids db).1 db
    unfolding reorder_items
    reorder-Same now item_ids = elim (Bool-cases (verify_collection_owner id user_id db)) [
      | inr e ↦ rw e (Same-refl c db)
      | inl own ↦ rw own (record {
        row = refl;
        items = place_all-keep c id (apart_by own) now 1 item_ids db.items;
      })
    ]

-- Where the constraints hold, an operation of one user leaves every collection of another user as it
-- is: the row of the collection, and its items in their order. This holds for every operation and
-- every argument, an item id of the other user's collection included.
pub apply-Same :
    (op : Op) (c : String) (db : Db) (theirs : Collection)
    → IsValid db
    → find (has_id c) db.collections ≡ some theirs
    → theirs.user_id ≢ actor op
    → Same c (apply op db) db
unfolding apply
apply-Same (create new_id now user_id name description) c db theirs h found other =
    create-Same c db theirs h found new_id now user_id name description
apply-Same (update id user_id name description now) c db theirs h found other =
    update-Same c db theirs h found id user_id other name description now
apply-Same (delete id user_id) c db theirs h found other =
    delete-Same c db theirs h found id user_id other
apply-Same (add id user_id now docs) c db theirs h found other =
    add-Same c db theirs h found id user_id other now docs
apply-Same (remove id user_id item_id) c db theirs h found other =
    remove-Same c db theirs h found id user_id other item_id
apply-Same (change id user_id item_id text position limit now) c db theirs h found other =
    change-Same c db theirs h found id user_id other item_id text position limit now
apply-Same (reorder id user_id now item_ids) c db theirs h found other =
    reorder-Same c db theirs h found id user_id other now item_ids
