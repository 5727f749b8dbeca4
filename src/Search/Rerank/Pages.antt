-- ===== src/Search/Rerank/Pages.antt =====
-- The pages of a reranked search.
use aithena.Base.{
  ℕ, zero, suc, ◌+◌, ◌-◌, ◌*◌, ◌/◌, ◌%◌, ◌<◌, ◌≡◌, refl, sym, String, ap, ◌∙◌, true, Option, none,
  some, List, [], ◌∷◌, map, take, drop, get_elem?, arith,
}
use native.Mathlib.Nat.{mod-lt, div-add-mod'}
use aithena.Search.{page_start}
use aithena.Search.Fusion.{Scores, Doc, Fused}
use aithena.Search.Rerank.{Entry, fused, fused_results, rerank_response}

in_page : (i size : ℕ) → (i / size + 1 - 1) * size + i % size ≡ i
in_page i size =
    let page : i / size + 1 - 1 ≡ i / size = omega arith in rw page (div-add-mod' i size)

abbrev mapped : {A B : Type 0} → (A → B) → Option A → Option B
mapped f none = none
mapped f (some a) = some (f a)

get_elem?-map :
    {A B : Type 0} (f : A → B) (xs : List A) (i : ℕ)
    → get_elem? (map f xs) i ≡ mapped f (get_elem? xs i)
get_elem?-map f [] i = refl
get_elem?-map f (x ∷ xs) zero = refl
get_elem?-map f (x ∷ xs) (suc i) = get_elem?-map f xs i

module _ {A : Type 0} where
  get_elem?-drop : (n j : ℕ) (xs : List A) → get_elem? (drop n xs) j ≡ get_elem? xs (n + j)
  get_elem?-drop zero j xs = ap (get_elem? xs) (omega arith)
  get_elem?-drop (suc n) j [] = refl
  get_elem?-drop (suc n) j (x ∷ xs) =
      let step : suc (n + j) ≡ suc n + j = omega arith in
      get_elem?-drop n j xs ∙ ap (get_elem? (x ∷ xs)) step

  get_elem?-take : (n j : ℕ) (xs : List A) → j < n → get_elem? (take n xs) j ≡ get_elem? xs j
  get_elem?-take zero j xs h = absurd (omega (arith, h))
  get_elem?-take (suc n) j [] h = refl
  get_elem?-take (suc n) zero (x ∷ xs) h = refl
  get_elem?-take (suc n) (suc j) (x ∷ xs) h = get_elem?-take n j xs (omega (arith, h))

  -- The page of an index has its element at the index within the page.
  get_elem?-page :
      (size i : ℕ) (xs : List A)
      → 0 < size
      → get_elem? (take size (drop (page_start (i / size + 1) size) xs)) (i % size) ≡ get_elem? xs i
  unfolding page_start
  get_elem?-page size i xs pos =
      get_elem?-take size (i % size) (drop ((i / size + 1 - 1) * size) xs) (mod-lt i pos)
      ∙ (get_elem?-drop ((i / size + 1 - 1) * size) (i % size) xs
          ∙ ap (get_elem? xs) (in_page i size))

-- When keyword results have vectors, every fused result is on its page: with a positive page size,
-- result number i (from 0) is result number i % size of the answer for page i / size + 1, and behind
-- the last fused result there is nothing.
pub rerank_response-pages :
    (S : Scores) {A : Type 0} (rrf_k : ℕ) (set_score : S.Score → A → A) (doc : Doc A)
    (docs : List (Doc A)) (bm25_total : ℕ) (reranked : List (String × S.Score)) (size i : ℕ)
    → 0 < size
    → get_elem?
        (rerank_response S rrf_k set_score
          (doc ∷ docs)
          bm25_total
          true
          reranked
          (i / size + 1)
          size).results
        (i % size)
      ≡ get_elem? (map (λ f. fused f) (fused_results S rrf_k set_score (doc ∷ docs) reranked)) i
unfolding rerank_response
rerank_response-pages S {A = A} rrf_k set_score doc docs bm25_total reranked size i pos =
    let all = fused_results S rrf_k set_score (doc ∷ docs) reranked in
    let entry : Fused S A → Entry S A = λ f. fused f in
    get_elem?-map entry (take size (drop (page_start (i / size + 1) size) all)) (i % size)
    ∙ (ap (mapped entry) (get_elem?-page size i all pos) ∙ sym (get_elem?-map entry all i))
