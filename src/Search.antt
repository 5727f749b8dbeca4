-- ===== src/Search.antt =====
-- src/solr-search/search_service.py: building Solr queries and shaping their results.
--
-- Text that is taken apart is a list of code points (Base/Text); ids and whole texts that are only
-- compared are native strings. A dict that the source writes out is an association list.
pub mod Escape
pub mod Paging
pub mod Fusion
pub mod Results
pub mod ChunkPages
pub mod Rerank
mod Tests
use aithena.Base.{
  ℕ, suc, ◌+◌, ◌-◌, ◌*◌, ◌/◌, ◌≡◌, Bool, true, false, not, ◌&&◌, ◌||◌, Option, none, some, List, [],
  ◌∷◌, ◌++◌, map, ltb, leb, ◌==◌, if◌then◌else◌, any,
}
use aithena.Base.Text.{lower, Text, codes, text_eq, has_char, strip, split, join}

-- The ValueErrors that the builders raise, without their texts.
pub data Error : Type 0 where
  bad_sort bad_sort_by bad_sort_order bad_filter local_params : Error

pub data Result (A : Type 0) : Type 0 where
  ok : A → Result A
  err : Error → Result A

infixl 5 ◌>>=◌
abbrev pub ◌>>=◌ : {A B : Type 0} → Result A → (A → Result B) → Result B
ok a >>= f = f a
err e >>= f = err e

-- `d.get(key)`
unfoldable pub get : {A : Type 0} → Text → List (Text × A) → Option A
get key [] = none
get key ((k, a) ∷ d) = if text_eq k key then some a else get key d

-- FACET_FIELDS
abbrev pub facet_fields : List (Text × List Text)
facet_fields =
    (codes "author", codes "author_s" ∷ [])
    ∷ (codes "category", codes "category_s" ∷ [])
    ∷ (codes "year", codes "year_i" ∷ [])
    ∷ (codes "language", codes "language_detected_s" ∷ codes "language_s" ∷ [])
    ∷ (codes "series", codes "series_s" ∷ [])
    ∷ (codes "folder", codes "folder_path_s" ∷ [])
    ∷ []

-- SORT_FIELDS
abbrev pub sort_fields : List (Text × Text)
sort_fields =
    (codes "score", codes "score")
    ∷ (codes "title", codes "title_s")
    ∷ (codes "title_s", codes "title_s")
    ∷ (codes "author", codes "author_s")
    ∷ (codes "author_s", codes "author_s")
    ∷ (codes "year", codes "year_i")
    ∷ (codes "year_i", codes "year_i")
    ∷ (codes "category", codes "category_s")
    ∷ (codes "category_s", codes "category_s")
    ∷ (codes "language", codes "language_s")
    ∷ (codes "language_s", codes "language_s")
    ∷ (codes "language_detected_s", codes "language_detected_s")
    ∷ []

abbrev clause_order : Text → Text → Result Text
clause_order field_name order =
    if text_eq order (codes "asc") || text_eq order (codes "desc")
    then ok (field_name ++ (32 ∷ order))
    else err bad_sort_order

-- build_sort_clause after `sort` has been taken apart
unfoldable pub sort_clause : Text → Text → Result Text
unfolding get lower text_eq
sort_clause sort_by sort_order = elim (get sort_by sort_fields) [
  | none ↦ err bad_sort_by
  | some field_name ↦ clause_order field_name (lower sort_order)
]

abbrev two_parts : List Text → Result Text
two_parts [] = err bad_sort
two_parts (a ∷ []) = err bad_sort
two_parts (a ∷ b ∷ []) = sort_clause a b
two_parts (a ∷ b ∷ c ∷ rest) = err bad_sort

-- build_sort_clause
unfoldable pub build_sort_clause : Text → Text → Option Text → Result Text
unfolding sort_clause
build_sort_clause sort_by sort_order none = sort_clause sort_by sort_order
build_sort_clause sort_by sort_order (some sort) = two_parts (split sort)

-- the characters of `special` in solr_escape
abbrev pub special : Text
special = codes "\\+-&|!(){}[]^\"~*?:/ "

-- solr_escape
unfoldable pub solr_escape : Text → Text
solr_escape [] = []
solr_escape (ch ∷ value) =
    if has_char ch special then b'\\' ∷ ch ∷ solr_escape value else ch ∷ solr_escape value

abbrev is_empty : Text → Bool
is_empty [] = true
is_empty (c ∷ t) = false

-- the query for the fields of one filter
abbrev pub filter_query : List Text → Text → Text
filter_query [] escaped = []
filter_query (field ∷ []) escaped = field ++ (b':' ∷ escaped)
filter_query (field ∷ other ∷ fields) escaped =
    b'('
    ∷ (join (codes " OR ") (map (λ f. f ++ (b':' ∷ escaped)) (field ∷ other ∷ fields)) ++ b')' ∷ [])

-- build_filter_queries
unfoldable pub build_filter_queries : List (Text × Text) → Result (List Text)
unfolding solr_escape
build_filter_queries [] = ok []
build_filter_queries ((filter_name, raw_value) ∷ filters) =
    let rest = build_filter_queries filters in
    let found : Result (List Text) = elim (get filter_name facet_fields) [
      | none ↦ err bad_filter
      | some fields ↦
          (rest >>= λ queries. ok (filter_query fields (solr_escape (strip raw_value)) ∷ queries))
    ] in
    if is_empty (strip raw_value) then rest else found

-- `"{!" in query`
unfoldable pub has_local_params : Text → Bool
has_local_params [] = false
has_local_params (c ∷ []) = false
has_local_params (c ∷ d ∷ t) = (c == b'{' && d == b'!') || has_local_params (d ∷ t)

abbrev pub or_all : Text → Text
or_all [] = codes "*:*"
or_all (c ∷ t) = c ∷ t

-- normalize_search_query
unfoldable pub normalize_search_query : Text → Result Text
unfolding has_local_params
normalize_search_query query =
    let search_query = or_all (strip query) in
    if has_local_params search_query then err local_params else ok search_query

-- EXCLUDE_CHUNKS_FQ
abbrev pub exclude_chunks_fq : Text
exclude_chunks_fq = codes "-parent_id_s:[* TO *]"

-- The entries of build_solr_params that depend on its arguments; the rest are constants.
pub record SolrParams : Type 0 where
  pub q : Text
  pub start : ℕ
  pub rows : ℕ
  pub sort : Text
  pub facet_limit : ℕ
  pub fq : List Text

abbrev or_size : Option ℕ → ℕ → ℕ
or_size none page_size = page_size
or_size (some rows) page_size = rows

-- `max(page - 1, 0) * page_size`
unfoldable pub page_start : ℕ → ℕ → ℕ
page_start page page_size = (page - 1) * page_size

-- build_solr_params; a negative page gives what page 0 gives
unfoldable pub build_solr_params :
    Text → ℕ → ℕ → Text → Text → ℕ → Option ℕ → Option Text → List (Text × Text) → Result SolrParams
unfolding normalize_search_query page_start build_sort_clause build_filter_queries
build_solr_params query page page_size sort_by sort_order facet_limit rows sort filters = do
  search_query ← normalize_search_query query
  clause ← build_sort_clause sort_by sort_order sort
  filter_queries ← build_filter_queries filters
  ok (record {
    q = search_query;
    start = page_start page page_size;
    rows = or_size rows page_size;
    sort = clause;
    facet_limit = facet_limit;
    fq = filter_queries ++ exclude_chunks_fq ∷ [];
  })

-- `math.ceil(total / page_size)`, exact for totals that a float holds (below 2 ^ 53)
unfoldable pub total_pages : ℕ → ℕ → ℕ
total_pages total page_size = if total == 0 then 0 else (total + page_size - 1) / page_size

pub record Pagination : Type 0 where
  pub page : ℕ
  pub limit : ℕ
  pub page_size : ℕ
  pub total : ℕ
  pub total_results : ℕ
  pub pages : ℕ

-- build_pagination, for a number of results that Solr gave
unfoldable pub build_pagination : ℕ → ℕ → ℕ → Pagination
unfolding total_pages
build_pagination num_found page page_size = record {
  page = page;
  limit = page_size;
  page_size = page_size;
  total = num_found;
  total_results = num_found;
  pages = total_pages num_found page_size;
}
