-- ===== src/Search/ChunkPages.antt =====
-- enrich_results_with_chunk_pages of src/solr-search/search_service.py: page ranges from chunks.
--
-- The results are changed in place there; here the function gives the new list.
pub mod Expected
pub mod Ranges
use aithena.Base.{
  ℕ, ◌≡◌, Bool, true, false, not, ◌&&◌, ◌||◌, Option, none, some, List, [], ◌∷◌, map, min, max,
  String, str_eq, if◌then◌else◌,
}
use aithena.Base.Dict.{Dict, lookup, insert}

-- The fields of a chunk document that are read; a parent that is missing is the empty text.
pub record Chunk : Type 0 where
  pub parent_id_s : String
  pub page_start_i : Option ℕ
  pub page_end_i : Option ℕ

-- The fields of a result that are read or set.
pub record Book : Type 0 where
  pub id : String
  pub pages : Option (Option ℕ × Option ℕ)
  pub page_start : Option ℕ
  pub page_end : Option ℕ

abbrev pub given : Option ℕ → Bool
given none = false
given (some n) = true

abbrev pub lower : Option ℕ → Option ℕ → Option ℕ
lower a none = a
lower none (some b) = some b
lower (some a) (some b) = some (min a b)

abbrev pub upper : Option ℕ → Option ℕ → Option ℕ
upper a none = a
upper none (some b) = some b
upper (some a) (some b) = some (max a b)

-- whether the loop does not `continue`
abbrev pub is_usable : Chunk → Bool
is_usable chunk =
    not (str_eq chunk.parent_id_s "") && (given chunk.page_start_i || given chunk.page_end_i)

-- an entry of `page_map` with one more chunk
abbrev pub widen : Option (Option ℕ × Option ℕ) → Chunk → Option ℕ × Option ℕ
widen none chunk = (chunk.page_start_i, chunk.page_end_i)
widen (some (first, last)) chunk = (lower first chunk.page_start_i, upper last chunk.page_end_i)

-- the loop over `chunk_docs`
unfoldable pub collect_pages : List Chunk → Dict (Option ℕ × Option ℕ) → Dict (Option ℕ × Option ℕ)
collect_pages [] page_map = page_map
collect_pages (chunk ∷ chunks) page_map =
    let skip = collect_pages chunks page_map in
    let widened =
      collect_pages chunks
        (insert chunk.parent_id_s (widen (lookup chunk.parent_id_s page_map) chunk) page_map) in
    if is_usable chunk then widened else skip

abbrev pub or_other : Option ℕ → Option ℕ → Option ℕ
or_other none other = other
or_other (some n) other = some n

abbrev pub set_pages : Option ℕ → Option ℕ → Book → Book
set_pages first last book = record book {
  pages = some (first, last);
  page_start = or_other book.page_start first;
  page_end = or_other book.page_end last;
}

-- one result, with the entry of its id
abbrev pub enrich_from : Option (Option ℕ × Option ℕ) → Book → Book
enrich_from none book = book
enrich_from (some (first, last)) book = set_pages (or_other first last) (or_other last first) book

abbrev pub unless_pages : Option (Option ℕ × Option ℕ) → Book → Book → Book
unless_pages none book enriched = enriched
unless_pages (some pages) book enriched = book

abbrev pub enrich : Option (Option ℕ × Option ℕ) → Book → Book
enrich range book = unless_pages book.pages book (enrich_from range book)

-- enrich_results_with_chunk_pages
unfoldable pub enrich_results_with_chunk_pages : List Book → List Chunk → List Book
unfolding collect_pages
enrich_results_with_chunk_pages results chunk_docs =
    let page_map = collect_pages chunk_docs [] in
    map (λ book. enrich (lookup book.id page_map) book) results
