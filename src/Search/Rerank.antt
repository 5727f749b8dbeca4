-- ===== src/Search/Rerank.antt =====
-- _search_hybrid_rerank of src/solr-search/main.py: which requests are reranked, and what is made of
-- the keyword results and the reranked ids.
--
-- The vectors, their fetching and cosine_rerank are not modelled: their outcome, whether any book has a
-- vector and the ids with their similarities, is an argument.
pub mod Pages
use aithena.Base.{
  ℕ, ◌+◌, ◌-◌, ◌*◌, ◌≡◌, Bool, true, false, not, ◌||◌, Option, none, some, List, [], ◌∷◌, map, take,
  drop, length, min, max, ◌==◌, String, if◌then◌else◌,
}
use aithena.Base.Dict.{Dict, lookup, insert}
use aithena.Base.Text.{Text, codes, text_eq, strip, split}
use aithena.Password.{is_given}
use aithena.Search.{page_start, Pagination, build_pagination}
use aithena.Search.Fusion.{Scores, Doc, Fused, reciprocal_rank_fusion}

-- _RERANK_CANDIDATE_LIMIT
abbrev pub rerank_candidate_limit : ℕ
rerank_candidate_limit = 200

-- `min(_RERANK_CANDIDATE_LIMIT, max(page_size * 10, 50))`
abbrev pub candidate_limit : ℕ → ℕ
candidate_limit page_size = min rerank_candidate_limit (max (page_size * 10) 50)

-- How a request goes on: HTTP 400, the keyword search, reranking, or the IndexError of a sort that is
-- only whitespace.
pub data Route : Type 0 where
  empty_query keyword_only rerank index_error : Route

abbrev first_word : List Text → Option Text
first_word [] = none
first_word (w ∷ words) = some w

-- `effective_sort`, where `none` is the IndexError
abbrev pub effective_sort : Text → Option Text → Option Text
effective_sort sort_by none = some sort_by
effective_sort sort_by (some sort) = if is_given sort then first_word (split sort) else some sort_by

abbrev route_of : Option Text → Route
route_of none = index_error
route_of (some sort) = if text_eq sort (codes "score") then rerank else keyword_only

-- the guards at the start of _search_hybrid_rerank
unfoldable pub route : Text → Text → Option Text → Route
route q sort_by sort =
    if is_given (strip q) then route_of (effective_sort sort_by sort) else empty_query

module _ (S : Scores) where
  -- A result of the answer: a keyword result, or a fused one.
  pub data Entry (A : Type 0) : Type 0 where
    plain : Doc A → Entry A
    fused : Fused S A → Entry A

  -- The entries of the answer that depend on more than the request.
  pub record Response (A : Type 0) : Type 0 where
    pub degraded : Bool
    pub pagination : Pagination
    pub results : List (Entry A)

module _ (S : Scores) {A : Type 0} where
  open S use {Score}

  -- `{r["id"]: r for r in kw_results}`
  unfoldable pub result_map_of : List (Doc A) → Dict (Doc A) → Dict (Doc A)
  result_map_of [] result_map = result_map
  result_map_of (doc ∷ docs) result_map = result_map_of docs (insert doc.id doc result_map)

  abbrev found_entry : (Score → A → A) → Score → Option (Doc A) → List (Doc A) → List (Doc A)
  found_entry set_score score none entries = entries
  found_entry set_score score (some doc) entries =
      (record doc { body = set_score score doc.body }) ∷ entries

  -- the loop that makes `sem_results`, with `entry["score"] = sim_score`
  unfoldable pub semantic_results :
      (Score → A → A) → Dict (Doc A) → List (String × Score) → List (Doc A)
  semantic_results set_score result_map [] = []
  semantic_results set_score result_map ((id, score) ∷ reranked) =
      found_entry set_score score (lookup id result_map)
        (semantic_results set_score result_map reranked)

  -- `fused`
  abbrev pub fused_results :
      ℕ → (Score → A → A) → List (Doc A) → List (String × Score) → List (Fused S A)
  fused_results rrf_k set_score kw_results reranked =
      reciprocal_rank_fusion S kw_results
        (semantic_results set_score (result_map_of kw_results []) reranked) rrf_k

  -- the rest of _search_hybrid_rerank once the ids are reranked
  unfoldable pub rerank_response :
      ℕ → (Score → A → A) → List (Doc A) → ℕ → Bool → List (String × Score) → ℕ → ℕ → Response S A
  unfolding page_start build_pagination
  rerank_response rrf_k set_score [] bm25_total has_vectors reranked page page_size = record {
    degraded = false;
    pagination = build_pagination 0 page page_size;
    results = [];
  }
  rerank_response rrf_k set_score (doc ∷ docs) bm25_total has_vectors reranked page page_size =
      if has_vectors
      then record {
        degraded = false;
        pagination = build_pagination (min bm25_total (candidate_limit page_size)) page page_size;
        results = map fused (
            take page_size (
              drop (page_start page page_size)
                (fused_results rrf_k set_score (doc ∷ docs) reranked)));
      }
      else record {
        degraded = true;
        pagination = build_pagination bm25_total page page_size;
        results = map plain (take page_size (doc ∷ docs));
      }
