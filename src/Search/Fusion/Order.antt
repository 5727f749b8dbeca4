-- ===== src/Search/Fusion/Order.antt =====
-- The order of a fused list.
use aithena.Base.{◌≡◌, false, List, [], ◌∷◌, String, All, ℕ}
use aithena.Base.Dict.{Dict}
use aithena.Base.Sort.{sort_by, Sorted, sort_by-Sorted}
use aithena.Search.Fusion.{Scores, Doc, Fused, rank_both, fuse, higher, reciprocal_rank_fusion}

module _ (S : Scores) where
  open S use {Score, below, below_asym, below_chain}

  module _ {A : Type 0} where
    -- No result is scored below a later one.
    abbrev pub Descending : List (Fused S A) → Type 0
    Descending [] = Unit
    Descending (r ∷ rs) = All (λ later. below r.score later.score ≡ false) rs × Descending rs

    All-fuse :
        (m : Dict (Doc A)) (x : String × Score) (ranked : List (String × Score))
        → All (λ y. higher S y x ≡ false) ranked
        → All (λ later. below x.1 later.score ≡ false) (fuse S m ranked)
    unfolding fuse
    All-fuse m x [] h = tt
    All-fuse m x (y ∷ ranked) h = (h.0, All-fuse m x ranked h.1)

    fuse-Descending :
        (m : Dict (Doc A)) (ranked : List (String × Score))
        → Sorted (higher S) ranked
        → Descending (fuse S m ranked)
    unfolding fuse
    fuse-Descending m [] h = tt
    fuse-Descending m (x ∷ ranked) h = (All-fuse m x ranked h.0, fuse-Descending m ranked h.1)

    -- In a fused list no result has a lower score than a later one.
    pub reciprocal_rank_fusion-Descending :
        (keyword_results semantic_results : List (Doc A)) (k : ℕ)
        → Descending (reciprocal_rank_fusion S keyword_results semantic_results k)
    unfolding reciprocal_rank_fusion
    reciprocal_rank_fusion-Descending keyword_results semantic_results k =
        let ranked = rank_both S keyword_results semantic_results k in
        fuse-Descending ranked.1 (sort_by (higher S) ranked.0) (
          sort_by-Sorted (higher S) (λ x y e. below_asym y.1 x.1 e)
            (λ x y z e f. below_chain x.1 y.1 z.1 e f) ranked.0)
