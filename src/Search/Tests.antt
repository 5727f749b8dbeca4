-- ===== src/Search/Tests.antt =====
-- Search at concrete inputs.
use aithena.Base.{
  get_elem?, ◌%◌, ℕ, ◌+◌, ◌-◌, ◌*◌, ◌/◌, ◌≤◌, ◌<◌, ◌≡◌, refl, Bool, true, false, ◌||◌, Option, none,
  some, List, [], ◌∷◌, String, str_eq, any, map, arith, leb, ltb, All,
}
use aithena.Base.Text.{Text, codes, strip}
use aithena.Search.{
  Result, ok, err, special, solr_escape, normalize_search_query, build_sort_clause,
  build_filter_queries, page_start, total_pages, build_solr_params, build_pagination,
}
use aithena.Search.Escape.{
  unescape, is_exposed, IsSafe, solr_escape-safe, normalize_search_query-IsSafe,
}
use aithena.Search.Rerank.{fused, fused_results, rerank_response}
use aithena.Search.Rerank.Pages.{rerank_response-pages}
use aithena.Search.Paging.{page_start-covers}
use aithena.Search.ChunkPages.{Chunk, Book, enrich_results_with_chunk_pages}
use aithena.Search.ChunkPages.Expected.{belongs, smallest_start, largest_end, expected}
use aithena.Search.ChunkPages.Ranges.{enrich_results_with_chunk_pages-follows}
use aithena.Search.Fusion.{Scores, Doc, reciprocal_rank_fusion}
use aithena.Search.Fusion.Ids.{has_result, has_doc, IsMerged, reciprocal_rank_fusion-merges}
use aithena.Search.Fusion.Order.{Descending, reciprocal_rank_fusion-Descending}

special_codes :
    special
    ≡ 92 ∷ 43 ∷ 45 ∷ 38 ∷ 124 ∷ 33 ∷ 40 ∷ 41 ∷ 123 ∷ 125 ∷ 91 ∷ 93 ∷ 94 ∷ 34 ∷ 126 ∷ 42 ∷ 63 ∷ 58
      ∷ 47 ∷ 32 ∷ []
special_codes = refl

sort_title :
    build_sort_clause (codes "score") (codes "desc") (some (codes " year  ASC"))
    ≡ ok (codes "year_i asc")
unfolding build_sort_clause aithena.Base.Text.split aithena.Base.Text.is_space
sort_title = refl

languages :
    build_filter_queries ((codes "language", codes " en ") ∷ (codes "author", []) ∷ [])
    ≡ ok (codes "(language_detected_s:en OR language_s:en)" ∷ [])
unfolding build_filter_queries aithena.Base.Text.strip aithena.Base.Text.is_space aithena.Search.get
    aithena.Base.Text.text_eq aithena.Base.Text.join aithena.Base.Text.has_char
languages = refl

solr_escape-safe_example :
    (unescape false (solr_escape (codes "a:(b)")) ≡ codes "a:(b)")
    × (is_exposed false (solr_escape (codes "a:(b)")) ≡ false)
solr_escape-safe_example = solr_escape-safe (codes "a:(b)")

normalize_search_query-IsSafe_example :
    IsSafe (strip (codes " {!x} ")) (normalize_search_query (codes " {!x} "))
normalize_search_query-IsSafe_example = normalize_search_query-IsSafe (codes " {!x} ")

page_start-covers_example :
    let page = 40 / 20 + 1 in
    (page ≤ total_pages 41 20) × (page_start page 20 ≤ 40) × (40 < page_start page 20 + 20)
page_start-covers_example = page_start-covers 41 20 40 (omega arith) (omega arith)

-- Scores in units of which a rank r gives 1000 / r.
below_asym_ℕ : (a b : ℕ) → ltb a b ≡ true → ltb b a ≡ false
below_asym_ℕ a b h = ground arith

below_chain_ℕ : (a b c : ℕ) → ltb a b ≡ false → ltb b c ≡ false → ltb a c ≡ false
below_chain_ℕ a b c h g = ground arith

abbrev counted : Scores
counted = record {
  Score = ℕ;
  zero_score = 0;
  plus = λ a b. a + b;
  one_over = λ n. 1000 / n;
  below = ltb;
  below_asym = below_asym_ℕ;
  below_chain = below_chain_ℕ;
}

abbrev book : String → Doc String
book id = record { id = id; body = id }

abbrev by_words : List (Doc String)
by_words = book "a" ∷ book "b" ∷ []

abbrev by_vectors : List (Doc String)
by_vectors = book "c" ∷ book "b" ∷ []

reciprocal_rank_fusion-merges_example :
    ((id : String)
      → has_result counted id (reciprocal_rank_fusion counted by_words by_vectors 60)
        ≡ (has_doc counted id by_words || has_doc counted id by_vectors))
    × All
        (IsMerged counted by_words by_vectors)
        (reciprocal_rank_fusion counted by_words by_vectors 60)
reciprocal_rank_fusion-merges_example = reciprocal_rank_fusion-merges counted by_words by_vectors 60

reciprocal_rank_fusion-Descending_example :
    Descending counted (reciprocal_rank_fusion counted by_words by_vectors 60)
reciprocal_rank_fusion-Descending_example =
    reciprocal_rank_fusion-Descending counted by_words by_vectors 60

abbrev books : List Book
books = record { id = "a"; pages = none; page_start = none; page_end = none } ∷ []

abbrev chunk_docs : List Chunk
chunk_docs =
    record { parent_id_s = "a"; page_start_i = some 5; page_end_i = some 6 }
    ∷ record { parent_id_s = "a"; page_start_i = some 2; page_end_i = none }
    ∷ []

enrich_results_with_chunk_pages-follows_example :
    enrich_results_with_chunk_pages books chunk_docs
    ≡ map
        (λ book.
          expected book.pages
            (any (belongs book.id) chunk_docs)
            (smallest_start book.id chunk_docs)
            (largest_end book.id chunk_docs)
            book)
        books
enrich_results_with_chunk_pages-follows_example =
    enrich_results_with_chunk_pages-follows books chunk_docs

-- The third of the fused results, on the second page of two.
rerank_response-pages_example :
    get_elem?
      (rerank_response counted 60
        (λ score body. body)
        (book "x" ∷ book "y" ∷ book "z" ∷ [])
        3
        true
        (("z", 9) ∷ ("x", 5) ∷ [])
        (2 / 2 + 1)
        2).results
      (2 % 2)
    ≡ get_elem?
        (map
          (λ f. fused f)
          (fused_results counted 60
            (λ score body. body)
            (book "x" ∷ book "y" ∷ book "z" ∷ [])
            (("z", 9) ∷ ("x", 5) ∷ [])))
        2
rerank_response-pages_example =
    rerank_response-pages counted 60 (λ score body. body) (book "x") (book "y" ∷ book "z" ∷ []) 3
      (("z", 9) ∷ ("x", 5) ∷ []) 2 2 (omega arith)
