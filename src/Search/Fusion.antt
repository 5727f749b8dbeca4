-- ===== src/Search/Fusion.antt =====
-- reciprocal_rank_fusion of src/solr-search/search_service.py.
--
-- Scores are floats in the source; here they are a parameter: a type with zero, addition, 1 / n and a
-- strict comparison that is a strict weak order, as it is on floats other than NaN.
pub mod Ids
pub mod Order
use aithena.Base.{
  ℕ, suc, ◌+◌, ◌≡◌, Bool, true, false, Option, none, some, List, [], ◌∷◌, String, str_eq,
  if◌then◌else◌,
}
use aithena.Base.Dict.{Dict, lookup, has_key, insert}
use aithena.Base.Sort.{sort_by}

pub record Scores : Type 1 where
  pub Score : Type 0
  pub zero_score : Score
  pub plus : Score → Score → Score
  pub one_over : ℕ → Score
  pub below : Score → Score → Bool
  pub below_asym : (a b : Score) → below a b ≡ true → below b a ≡ false
  pub below_chain : (a b c : Score) → below a b ≡ false → below b c ≡ false → below a c ≡ false

-- A normalised book: its id and whatever else the dict holds.
pub record Doc (A : Type 0) : Type 0 where
  pub id : String
  pub body : A

module _ (S : Scores) where
  open S use {Score, zero_score, plus, one_over, below}

  abbrev or_zero : Option Score → Score
  or_zero none = zero_score
  or_zero (some s) = s

  abbrev pub new_score : ℕ → ℕ → String → Dict Score → Score
  new_score k rank id scores = plus (or_zero (lookup id scores)) (one_over (k + rank))

  -- `scores[doc_id] = scores.get(doc_id, 0.0) + 1.0 / (k + rank)`
  unfoldable pub add_rank : ℕ → ℕ → String → Dict Score → Dict Score
  add_rank k rank id scores = insert id (new_score k rank id scores) scores

  -- `sorted(…, key=score, reverse=True)`, which keeps the order of equal scores
  abbrev pub higher : String × Score → String × Score → Bool
  higher a b = below b.1 a.1

  -- A fused result: the key, the document under it (`none` would be a KeyError), and its score.
  pub record Fused (A : Type 0) : Type 0 where
    pub doc_id : String
    pub doc : Option (Doc A)
    pub score : Score

  module _ {A : Type 0} where
    -- The first loop, from a rank on: each document replaces an earlier one of its id.
    unfoldable pub rank_keyword :
        ℕ → ℕ → List (Doc A) → Dict Score × Dict (Doc A) → Dict Score × Dict (Doc A)
    unfolding add_rank
    rank_keyword k rank [] state = state
    rank_keyword k rank (doc ∷ docs) (scores, result_map) =
        rank_keyword k (suc rank) docs (add_rank k rank doc.id scores, insert doc.id doc result_map)

    -- The second loop: a document that is there stays.
    unfoldable pub rank_semantic :
        ℕ → ℕ → List (Doc A) → Dict Score × Dict (Doc A) → Dict Score × Dict (Doc A)
    unfolding add_rank
    rank_semantic k rank [] state = state
    rank_semantic k rank (doc ∷ docs) (scores, result_map) = rank_semantic k (suc rank) docs (
      add_rank k rank doc.id scores,
      if has_key doc.id result_map then result_map else insert doc.id doc result_map,
    )

    unfoldable pub fuse : Dict (Doc A) → List (String × Score) → List (Fused A)
    fuse result_map [] = []
    fuse result_map ((id, s) ∷ ranked) =
        record { doc_id = id; doc = lookup id result_map; score = s } ∷ fuse result_map ranked

    -- both loops
    unfoldable pub rank_both : List (Doc A) → List (Doc A) → ℕ → Dict Score × Dict (Doc A)
    unfolding rank_keyword rank_semantic
    rank_both keyword_results semantic_results k =
        rank_semantic k 1 semantic_results (rank_keyword k 1 keyword_results ([], []))

    -- reciprocal_rank_fusion
    unfoldable pub reciprocal_rank_fusion : List (Doc A) → List (Doc A) → ℕ → List (Fused A)
    unfolding fuse
    reciprocal_rank_fusion keyword_results semantic_results k =
        let ranked = rank_both keyword_results semantic_results k in
        fuse ranked.1 (sort_by higher ranked.0)
