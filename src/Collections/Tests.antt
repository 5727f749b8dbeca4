-- ===== src/Collections/Tests.antt =====
-- The collections service at concrete inputs.
use aithena.Base.{
  ◌≡◌, ◌≢◌, refl, ◌&&◌, none, some, List, [], ◌∷◌, String, str_eq, eq_iff, arith, keep, any,
}
use aithena.Base.Text.{codes}
use aithena.Base.Dict.{has_key}
use aithena.Collections.{
  Collection, Item, Db, has_id, in_collection, create_collection, add_items, insert_all,
  get_collection_ids_for_documents,
}
use aithena.Base.Tables.{find}
use aithena.Collections.Valid.{IsValid}
use aithena.Collections.Integrity.{
  Op, create, add, change, reorder, apply, run_ops, empty, run_ops-IsValid,
}
use aithena.Collections.Isolation.{Same, apply-Same}
use aithena.Collections.Items.{links, get_collection_ids_for_documents-has_key}

abbrev history : List Op
history =
    create "c1" 1 "ann" "Novels" none
    ∷ create "c2" 2 "bob" "Maps" none
    ∷ add "c1" "ann" 3 (("d1", "i1") ∷ ("d2", "i2") ∷ ("d1", "i3") ∷ [])
    ∷ add "c2" "bob" 4 (("d1", "i4") ∷ [])
    ∷ reorder "c1" "ann" 5 ("i2" ∷ "i1" ∷ [])
    ∷ []

run_ops-IsValid_example : IsValid (run_ops history empty)
run_ops-IsValid_example = run_ops-IsValid history

abbrev anns : Collection
anns = record {
  id = "c1";
  user_id = "ann";
  name = "Novels";
  description = none;
  created_at = 1;
  updated_at = 1;
}

abbrev ann : String
ann = "ann"

abbrev bob : String
bob = "bob"

differ : ann ≢ bob
differ e = ground (arith, eq_iff ann bob)

ann_owns : find (has_id "c1") (run_ops history empty).collections ≡ some anns
unfolding run_ops apply find aithena.Collections.reorder_items
    aithena.Collections.verify_collection_owner add_items create_collection any
ann_owns = refl

apply-Same_example :
    Same "c1"
      (apply (change "c2" "bob" "i1" (some (codes "x")) none 1000 9) (run_ops history empty))
      (run_ops history empty)
apply-Same_example =
    apply-Same (change "c2" "bob" "i1" (some (codes "x")) none 1000 9) "c1" (run_ops history empty)
      anns (run_ops-IsValid history) ann_owns differ

get_collection_ids_for_documents-has_key_example :
    has_key "d3" (get_collection_ids_for_documents "ann" ("d3" ∷ []) (run_ops history empty))
    ≡ any
        (λ i. links "ann" ("d3" ∷ []) (run_ops history empty) i && str_eq i.document_id "d3")
        (run_ops history empty).items
get_collection_ids_for_documents-has_key_example =
    get_collection_ids_for_documents-has_key "ann" ("d3" ∷ []) (run_ops history empty) "d3"

no_entry :
    get_collection_ids_for_documents "ann" ("d3" ∷ "d2" ∷ []) (run_ops history empty)
    ≡ ("d2", "c1" ∷ []) ∷ []
unfolding run_ops apply get_collection_ids_for_documents keep aithena.Collections.reorder_items
    aithena.Collections.verify_collection_owner find add_items create_collection any
    aithena.Collections.place_all aithena.Base.Tables.update_where insert_all
no_entry = refl
