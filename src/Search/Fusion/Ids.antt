-- ===== src/Search/Fusion/Ids.antt =====
-- The documents of a fused list: which ids it has, and which document stands under an id.
use aithena.Base.{
  ℕ, suc, ◌≡◌, refl, ◌∙◌, ap, Bool, false, ◌||◌, Option, none, some, List, [], ◌∷◌, String, str_eq,
  eq_iff, arith, if◌then◌else◌, any, All,
}
use aithena.Base.Dict.{
  Dict, lookup, has_key, insert, has_key-insert, lookup-insert, lookup-has_key, lookup-none,
}
use aithena.Base.Sort.{sort_by, any-sort_by}
use aithena.Search.Fusion.{
  Scores, Doc, Fused, new_score, add_rank, rank_keyword, rank_semantic, rank_both, fuse, higher,
  reciprocal_rank_fusion,
}

module _ (S : Scores) where
  open S use {Score}

  has_key_lem : (id : String) (d : Dict Score) → any (λ r. str_eq r.0 id) d ≡ has_key id d
  unfolding any has_key
  has_key_lem id [] = refl
  has_key_lem id ((j, s) ∷ d) = ap (λ b. str_eq j id || b) (has_key_lem id d)

  module _ {A : Type 0} where
    -- Some document has the id.
    abbrev pub has_doc : String → List (Doc A) → Bool
    has_doc id [] = false
    has_doc id (doc ∷ docs) = str_eq doc.id id || has_doc id docs

    -- Some result has the id.
    abbrev pub has_result : String → List (Fused S A) → Bool
    has_result id [] = false
    has_result id (r ∷ rs) = str_eq r.doc_id id || has_result id rs

    abbrev pub or_else : Option (Doc A) → Option (Doc A) → Option (Doc A)
    or_else none other = other
    or_else (some doc) other = some doc

    abbrev pub when : Bool → Doc A → Option (Doc A)
    when found doc = if found then some doc else none

    -- The last document with the id, and the first one.
    abbrev pub last_doc : String → List (Doc A) → Option (Doc A)
    last_doc id [] = none
    last_doc id (doc ∷ docs) = or_else (last_doc id docs) (when (str_eq doc.id id) doc)

    abbrev pub first_doc : String → List (Doc A) → Option (Doc A)
    first_doc id [] = none
    first_doc id (doc ∷ docs) = or_else (when (str_eq doc.id id) doc) (first_doc id docs)

    scores_keyword :
        (k rank : ℕ) (id : String) (docs : List (Doc A)) (scores : Dict Score) (m : Dict (Doc A))
        → has_key id (rank_keyword S k rank docs (scores, m)).0
          ≡ (has_key id scores || has_doc id docs)
    unfolding rank_keyword add_rank has_key
    scores_keyword k rank id [] scores m = ground arith
    scores_keyword k rank id (doc ∷ docs) scores m = ground (
      arith,
      scores_keyword k (suc rank) id docs (add_rank S k rank doc.id scores) (insert doc.id doc m),
      has_key-insert doc.id id (new_score S k rank doc.id scores) scores,
    )

    scores_semantic :
        (k rank : ℕ) (id : String) (docs : List (Doc A)) (scores : Dict Score) (m : Dict (Doc A))
        → has_key id (rank_semantic S k rank docs (scores, m)).0
          ≡ (has_key id scores || has_doc id docs)
    unfolding rank_semantic add_rank
    scores_semantic k rank id [] scores m = ground arith
    scores_semantic k rank id (doc ∷ docs) scores m = ground (
      arith,
      scores_semantic k (suc rank) id docs (add_rank S k rank doc.id scores)
          (if has_key doc.id m then m else insert doc.id doc m),
      has_key-insert doc.id id (new_score S k rank doc.id scores) scores,
    )

    docs_keyword :
        (k rank : ℕ) (id : String) (docs : List (Doc A)) (scores : Dict Score) (m : Dict (Doc A))
        → lookup id (rank_keyword S k rank docs (scores, m)).1
          ≡ or_else (last_doc id docs) (lookup id m)
    unfolding rank_keyword
    docs_keyword k rank id [] scores m = refl
    docs_keyword k rank id (doc ∷ docs) scores m = ground (
      arith,
      docs_keyword k (suc rank) id docs (add_rank S k rank doc.id scores) (insert doc.id doc m),
      lookup-insert doc.id id doc m,
    )

    docs_semantic :
        (k rank : ℕ) (id : String) (docs : List (Doc A)) (scores : Dict Score) (m : Dict (Doc A))
        → lookup id (rank_semantic S k rank docs (scores, m)).1
          ≡ or_else (lookup id m) (first_doc id docs)
    unfolding rank_semantic
    docs_semantic k rank id [] scores m = ground arith
    docs_semantic k rank id (doc ∷ docs) scores m = ground (
      arith,
      docs_semantic k (suc rank) id docs (add_rank S k rank doc.id scores)
          (if has_key doc.id m then m else insert doc.id doc m),
      lookup-insert doc.id id doc m,
      lookup-none id m,
      lookup-has_key id m,
      eq_iff doc.id id,
    )

    both_docs :
        (k : ℕ) (id : String) (keyword_results semantic_results : List (Doc A))
        → lookup id (rank_both S keyword_results semantic_results k).1
          ≡ or_else (last_doc id keyword_results) (first_doc id semantic_results)
    unfolding rank_both lookup
    both_docs k id keyword_results semantic_results =
        let after = rank_keyword S k 1 keyword_results ([], []) in
        ground (
          arith,
          docs_keyword k 1 id keyword_results [] [],
          docs_semantic k 1 id semantic_results after.0 after.1,
        )

    both_scores :
        (k : ℕ) (id : String) (keyword_results semantic_results : List (Doc A))
        → has_key id (rank_both S keyword_results semantic_results k).0
          ≡ (has_doc id keyword_results || has_doc id semantic_results)
    unfolding rank_both has_key
    both_scores k id keyword_results semantic_results =
        let after = rank_keyword S k 1 keyword_results ([], []) in
        ground (
          arith,
          scores_keyword k 1 id keyword_results [] [],
          scores_semantic k 1 id semantic_results after.0 after.1,
        )

    has_result-fuse :
        (id : String) (m : Dict (Doc A)) (ranked : List (String × Score))
        → has_result id (fuse S m ranked) ≡ any (λ r. str_eq r.0 id) ranked
    unfolding fuse any
    has_result-fuse id m [] = refl
    has_result-fuse id m ((j, s) ∷ ranked) =
        ap (λ b. str_eq j id || b) (has_result-fuse id m ranked)

    -- A result stands under its own id, and it is the last keyword document with that id or, if there
    -- is none, the first semantic one.
    abbrev pub IsMerged : List (Doc A) → List (Doc A) → Fused S A → Type 0
    IsMerged keyword_results semantic_results r =
        r.doc ≡ or_else (last_doc r.doc_id keyword_results) (first_doc r.doc_id semantic_results)

    fuse-IsMerged :
        (k : ℕ) (keyword_results semantic_results : List (Doc A)) (ranked : List (String × Score))
        → All
            (IsMerged keyword_results semantic_results)
            (fuse S (rank_both S keyword_results semantic_results k).1 ranked)
    unfolding fuse
    fuse-IsMerged k keyword_results semantic_results [] = tt
    fuse-IsMerged k keyword_results semantic_results ((id, s) ∷ ranked) = (
      both_docs k id keyword_results semantic_results,
      fuse-IsMerged k keyword_results semantic_results ranked,
    )

    -- A fused list has a result under an id exactly when one of the two lists has a document with that
    -- id, and each result carries the last keyword document with its id or, if there is none, the first
    -- semantic one.
    pub reciprocal_rank_fusion-merges :
        (keyword_results semantic_results : List (Doc A)) (k : ℕ)
        → ((id : String)
            → has_result id (reciprocal_rank_fusion S keyword_results semantic_results k)
              ≡ (has_doc id keyword_results || has_doc id semantic_results))
          × All
              (IsMerged keyword_results semantic_results)
              (reciprocal_rank_fusion S keyword_results semantic_results k)
    unfolding reciprocal_rank_fusion
    reciprocal_rank_fusion-merges keyword_results semantic_results k =
        let ranked = rank_both S keyword_results semantic_results k in
        let sorted = sort_by (higher S) ranked.0 in
        (
          λ id.
              has_result-fuse id ranked.1 sorted
              ∙ any-sort_by (λ r. str_eq r.0 id) (higher S) ranked.0
              ∙ has_key_lem id ranked.0
              ∙ both_scores k id keyword_results semantic_results,
          fuse-IsMerged k keyword_results semantic_results sorted,
        )
