-- ===== src/Collections.antt =====
-- src/solr-search/collections_service.py: user document collections in SQLite, over the tables of
-- src/solr-search/migrations/001_collections_init.py.
--
-- A table is the list of its rows, and each SQL statement is read as SQL defines it: SELECT and
-- DELETE filter, UPDATE maps, INSERT appends or fails with IntegrityError by the table's
-- constraints, ON DELETE CASCADE is written out. Each method is one transaction. Times (isoformat
-- texts, whose order is that of the instants) are natural numbers; `_utcnow()` and `_new_id()` are
-- arguments. Rows that tie in an ORDER BY keep their order in the table.
pub mod Valid
pub mod Integrity
pub mod Isolation
pub mod Items
mod Tests
use aithena.Base.{
  ℕ, suc, ◌+◌, ◌≡◌, Bool, true, false, not, ◌&&◌, ◌||◌, Option, none, some, List, [], ◌∷◌, ◌++◌,
  map, String, str_eq, ltb, leb, max, ◌==◌, if◌then◌else◌, length, keep, any,
}
use aithena.Base.Text.{Text}
use aithena.Base.Sort.{sort_by}
use aithena.Base.Tables.{update_where, delete_where, find}

-- A row of `collections`.
pub record Collection : Type 0 where
  pub id : String
  pub user_id : String
  pub name : String
  pub description : Option String
  pub created_at : ℕ
  pub updated_at : ℕ

-- A row of `collection_items`.
pub record Item : Type 0 where
  pub id : String
  pub collection_id : String
  pub document_id : String
  pub position : Option ℕ
  pub note : Option Text
  pub added_at : ℕ
  pub updated_at : ℕ

pub record Db : Type 0 where
  pub collections : List Collection
  pub items : List Item

abbrev pub has_id : String → Collection → Bool
has_id id c = str_eq c.id id

abbrev pub item_has_id : String → Item → Bool
item_has_id id i = str_eq i.id id

abbrev pub in_collection : String → Item → Bool
in_collection id i = str_eq i.collection_id id

-- the dict that create_collection and list_collections give for a row
pub record Summary : Type 0 where
  pub row : Collection
  pub item_count : ℕ

-- create_collection; `none` is the IntegrityError of a primary key that is taken
unfoldable pub create_collection :
    String → ℕ → String → String → Option String → Db → Option (Summary × Db)
create_collection new_id now user_id name description db =
    let row : Collection = record {
      id = new_id;
      user_id = user_id;
      name = name;
      description = description;
      created_at = now;
      updated_at = now;
    } in
    if any (has_id new_id) db.collections
    then none
    else some (
      record { row = row; item_count = 0 },
      record db { collections = db.collections ++ row ∷ [] },
    )

abbrev newer : Collection → Collection → Bool
newer a b = ltb b.created_at a.created_at

summary : Db → Collection → Summary
summary db c = record { row = c; item_count = length (keep (in_collection c.id) db.items) }

-- list_collections
unfoldable pub list_collections : String → Db → List Summary
unfolding summary
list_collections user_id db =
    map (summary db) (sort_by newer (keep (λ c. str_eq c.user_id user_id) db.collections))

-- `ORDER BY position ASC NULLS LAST, added_at ASC`
abbrev position_before : Option ℕ → Option ℕ → Bool → Bool
position_before none none tie = tie
position_before none (some q) tie = false
position_before (some p) none tie = true
position_before (some p) (some q) tie = ltb p q || (p == q && tie)

pub before : Item → Item → Bool
before a b = position_before a.position b.position (ltb a.added_at b.added_at)

pub record Detail : Type 0 where
  pub row : Collection
  pub items : List Item

-- the row of a collection that the user owns: the first SELECT of each method, and its test
unfoldable pub owned_row : String → String → Db → Option Collection
owned_row collection_id user_id db = elim (find (has_id collection_id) db.collections) [
  | none ↦ none
  | some row ↦ if str_eq row.user_id user_id then some row else none
]

-- get_collection
unfoldable pub get_collection : String → String → Db → Option Detail
unfolding before
get_collection collection_id user_id db = elim (owned_row collection_id user_id db) [
  | none ↦ none
  | some row ↦
      some
        (record { row = row; items = sort_by before (keep (in_collection collection_id) db.items) })
]

abbrev or_old : {A : Type 0} → Option A → A → A
or_old none old = old
or_old (some new) old = new

abbrev pub is_some : {A : Type 0} → Option A → Bool
is_some none = false
is_some (some a) = true

abbrev or_old_text : Option String → Option String → Option String
or_old_text none old = old
or_old_text (some new) old = some new

pub set_collection : Option String → Option String → ℕ → Collection → Collection
set_collection name description now c = record c {
  name = or_old name c.name;
  description = or_old_text description c.description;
  updated_at = now;
}

-- update_collection
unfoldable pub update_collection :
    String → String → Option String → Option String → ℕ → Db → Option Detail × Db
unfolding set_collection
update_collection collection_id user_id name description now db =
    elim (owned_row collection_id user_id db) [
      | none ↦ (none, db)
      | some row ↦
          let db' : Db =
            if is_some name || is_some description
            then record db {
              collections =
                  update_where (has_id collection_id) (set_collection name description now)
                    db.collections;
            }
            else db in
          (get_collection collection_id user_id db', db')
    ]

-- delete_collection, with the cascade to the items
unfoldable pub delete_collection : String → String → Db → Bool × Db
delete_collection collection_id user_id db = elim (owned_row collection_id user_id db) [
  | none ↦ (false, db)
  | some row ↦ (
    true,
    record {
      collections = delete_where (has_id collection_id) db.collections;
      items = delete_where (in_collection collection_id) db.items;
    },
  )
]

-- _verify_collection_owner
unfoldable pub verify_collection_owner : String → String → Db → Bool
unfolding owned_row
verify_collection_owner collection_id user_id db = is_some (owned_row collection_id user_id db)

abbrev larger : Option ℕ → Option ℕ → Option ℕ
larger none m = m
larger (some p) none = some p
larger (some p) (some q) = some (max p q)

-- `MAX(position)`: NULLs are ignored, and no value gives NULL
pub max_position : List Item → Option ℕ
max_position [] = none
max_position (i ∷ items) = larger i.position (max_position items)

-- `(max_pos or 0) + 1` if it is not NULL, else 1
abbrev pub after : Option ℕ → ℕ
after none = 1
after (some p) = p + 1

-- `next_pos` for a collection
pub next_position : String → List Item → ℕ
unfolding max_position
next_position collection_id items = after (max_position (keep (in_collection collection_id) items))

-- whether an INSERT breaks the primary key or UNIQUE (collection_id, document_id)
abbrev pub clashes : Item → Item → Bool
clashes new old =
    str_eq old.id new.id
    || (str_eq old.collection_id new.collection_id && str_eq old.document_id new.document_id)

abbrev pub new_item : String → String → String → ℕ → ℕ → Item
new_item item_id collection_id doc_id next_pos now = record {
  id = item_id;
  collection_id = collection_id;
  document_id = doc_id;
  position = some next_pos;
  note = none;
  added_at = now;
  updated_at = now;
}

-- The loop of add_items over the documents, each with the id made for it: the items added, and the
-- table. A document whose INSERT fails is passed over.
unfoldable pub insert_all :
    String → ℕ → ℕ → List (String × String) → List Item → List Item × List Item
insert_all collection_id now next_pos [] items = ([], items)
insert_all collection_id now next_pos ((doc_id, item_id) ∷ docs) items =
    let row = new_item item_id collection_id doc_id next_pos now in
    let skip = insert_all collection_id now next_pos docs items in
    let rest = insert_all collection_id now (next_pos + 1) docs (items ++ row ∷ []) in
    if any (clashes row) items then skip else (row ∷ rest.0, rest.1)

-- add_items
unfoldable pub add_items : String → String → ℕ → List (String × String) → Db → List Item × Db
add_items collection_id user_id now docs db =
    let done = insert_all collection_id now (next_position collection_id db.items) docs db.items in
    if verify_collection_owner collection_id user_id db
    then (done.0, record db { items = done.1 })
    else ([], db)

abbrev pub is_item_of : String → String → Item → Bool
is_item_of item_id collection_id i = str_eq i.id item_id && str_eq i.collection_id collection_id

-- remove_item; the result is `rowcount > 0`
unfoldable pub remove_item : String → String → String → Db → Bool × Db
remove_item collection_id user_id item_id db =
    if verify_collection_owner collection_id user_id db
    then (
      any (is_item_of item_id collection_id) db.items,
      record db { items = delete_where (is_item_of item_id collection_id) db.items },
    )
    else (false, db)

pub data ItemUpdate : Type 0 where
  updated : Item → ItemUpdate
  not_found note_too_long : ItemUpdate

abbrev pub too_long : Option Text → ℕ → Bool
too_long none limit = false
too_long (some text) limit = ltb limit (length text)

abbrev or_old_some : {A : Type 0} → Option A → Option A → Option A
or_old_some none old = old
or_old_some (some new) old = some new

-- The three UPDATEs of update_item set what is given, and the time.
pub set_item : Option Text → Option ℕ → ℕ → Item → Item
set_item text position now i = record i {
  note = or_old_some text i.note;
  position = or_old_some position i.position;
  updated_at = now;
}

abbrev to_update : Option Item → ItemUpdate
to_update none = not_found
to_update (some i) = updated i

-- update_item
unfoldable pub update_item :
    String → String → String → Option Text → Option ℕ → ℕ → ℕ → Db → ItemUpdate × Db
unfolding set_item
update_item collection_id user_id item_id text position note_max_length now db =
    if not (verify_collection_owner collection_id user_id db)
    then (not_found, db)
    else if not (any (is_item_of item_id collection_id) db.items)
    then (not_found, db)
    else if too_long text note_max_length
    then (note_too_long, db)
    else let db' : Db =
        if is_some text || is_some position
        then record db {
          items = update_where (item_has_id item_id) (set_item text position now) db.items;
        }
        else db in
      (to_update (find (item_has_id item_id) db'.items), db')

pub place : ℕ → ℕ → Item → Item
place position now i = record i { position = some position; updated_at = now }

-- the loop of reorder_items, from a position
unfoldable pub place_all : String → ℕ → ℕ → List String → List Item → List Item
unfolding place
place_all collection_id now position [] items = items
place_all collection_id now position (item_id ∷ ids) items =
    place_all collection_id now (position + 1) ids
      (update_where (is_item_of item_id collection_id) (place position now) items)

-- reorder_items
unfoldable pub reorder_items : String → String → ℕ → List String → Db → Bool × Db
reorder_items collection_id user_id now item_ids db =
    if verify_collection_owner collection_id user_id db
    then (true, record db { items = place_all collection_id now 1 item_ids db.items })
    else (false, db)

-- `result[key].append(value)` on a defaultdict, its keys in order of first use
unfoldable pub push : String → String → List (String × List String) → List (String × List String)
push key value [] = (key, value ∷ []) ∷ []
push key value ((k, vs) ∷ entries) =
    if str_eq k key then (k, vs ++ value ∷ []) ∷ entries else (k, vs) ∷ push key value entries

pub push_all : List Item → List (String × List String) → List (String × List String)
unfolding push
push_all [] entries = entries
push_all (i ∷ rows) entries = push_all rows (push i.document_id i.collection_id entries)

-- get_collection_ids_for_documents; the rows of the join in the order of the items
unfoldable pub get_collection_ids_for_documents :
    String → List String → Db → List (String × List String)
unfolding push_all
get_collection_ids_for_documents user_id document_ids db =
    push_all
      (keep
        (λ i.
          is_some (owned_row i.collection_id user_id db)
          && any (λ d. str_eq i.document_id d) document_ids)
        db.items)
      []
