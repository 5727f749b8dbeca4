-- ===== src/Collections/Items.antt =====
-- get_collection_ids_for_documents: which documents the mapping has.
use aithena.Base.{
  ◌≡◌, refl, ◌∙◌, Bool, false, ◌&&◌, ◌||◌, List, [], ◌∷◌, String, str_eq, eq_iff, arith, keep, any,
}
use aithena.Base.Dict.{has_key}
use aithena.Collections.{
  Item, Db, owned_row, is_some, push, push_all, get_collection_ids_for_documents,
}

has_key-push :
    (key value doc : String) (entries : List (String × List String))
    → has_key doc (push key value entries) ≡ (str_eq key doc || has_key doc entries)
unfolding has_key push
has_key-push key value doc [] = refl
has_key-push key value doc ((k, vs) ∷ entries) =
    ground (arith, eq_iff k key, eq_iff k doc, eq_iff key doc, has_key-push key value doc entries)

has_key-push_all :
    (doc : String) (rows : List Item) (entries : List (String × List String))
    → has_key doc (push_all rows entries)
      ≡ (any (λ i. str_eq i.document_id doc) rows || has_key doc entries)
unfolding push_all any
has_key-push_all doc [] entries = refl
has_key-push_all doc (i ∷ rows) entries = ground (
  arith,
  has_key-push_all doc rows (push i.document_id i.collection_id entries),
  has_key-push i.document_id i.collection_id doc entries,
)

any-keep :
    {A : Type 0} (p q : A → Bool) (xs : List A) → any q (keep p xs) ≡ any (λ x. p x && q x) xs
unfolding any keep
any-keep p q [] = refl
any-keep p q (x ∷ xs) = ground (arith, any-keep p q xs)

or_false : (b : Bool) → (b || false) ≡ b
or_false b = ground arith

-- Item i links a requested document to a collection of the user.
abbrev pub links : String → List String → Db → Item → Bool
links user_id document_ids db i =
    is_some (owned_row i.collection_id user_id db) && any (λ d. str_eq i.document_id d) document_ids

-- The mapping has an entry for a document exactly when it was asked for and is in a collection that
-- the user owns; any other document, asked for or not, has no entry.
pub get_collection_ids_for_documents-has_key :
    (user_id : String) (document_ids : List String) (db : Db) (doc : String)
    → has_key doc (get_collection_ids_for_documents user_id document_ids db)
      ≡ any (λ i. links user_id document_ids db i && str_eq i.document_id doc) db.items
unfolding get_collection_ids_for_documents has_key
get_collection_ids_for_documents-has_key user_id document_ids db doc =
    has_key-push_all doc (keep (links user_id document_ids db) db.items) []
    ∙ or_false _
    ∙ any-keep (links user_id document_ids db) (λ i. str_eq i.document_id doc) db.items
