-- ===== src/Search/ChunkPages/Expected.antt =====
-- What enrich_results_with_chunk_pages of src/solr-search/search_service.py must give, without its
-- functions: the smallest and the largest page of the chunks that name the book and a page.
use aithena.Base.{
  ℕ, Bool, true, false, not, ◌&&◌, Option, none, some, List, [], ◌∷◌, String, str_eq, leb,
  if◌then◌else◌,
}
use aithena.Search.ChunkPages.{Chunk, Book}

abbrev pub some_page : Option ℕ → Option ℕ → Bool
some_page none none = false
some_page none (some last) = true
some_page (some first) last = true

abbrev pub belongs : String → Chunk → Bool
belongs id chunk =
    str_eq chunk.parent_id_s id
    && not (str_eq chunk.parent_id_s "")
    && some_page chunk.page_start_i chunk.page_end_i

abbrev pub least_with : Option ℕ → Option ℕ → Option ℕ
least_with none rest = rest
least_with (some n) none = some n
least_with (some n) (some m) = some (if leb n m then n else m)

abbrev pub greatest_with : Option ℕ → Option ℕ → Option ℕ
greatest_with none rest = rest
greatest_with (some n) none = some n
greatest_with (some n) (some m) = some (if leb n m then m else n)

unfoldable pub smallest_start : String → List Chunk → Option ℕ
smallest_start id [] = none
smallest_start id (chunk ∷ chunks) =
    let rest = smallest_start id chunks in
    if belongs id chunk then least_with chunk.page_start_i rest else rest

unfoldable pub largest_end : String → List Chunk → Option ℕ
largest_end id [] = none
largest_end id (chunk ∷ chunks) =
    let rest = largest_end id chunks in
    if belongs id chunk then greatest_with chunk.page_end_i rest else rest

-- A missing bound is the other one; a page that the result has stays.
abbrev both_bounds : Option ℕ → Option ℕ → Option ℕ × Option ℕ
both_bounds none none = (none, none)
both_bounds none (some last) = (some last, some last)
both_bounds (some first) none = (some first, some first)
both_bounds (some first) (some last) = (some first, some last)

abbrev pub unless_there : Option ℕ → Option ℕ → Option ℕ
unless_there none new = new
unless_there (some old) new = some old

abbrev pub with_bounds : Option ℕ × Option ℕ → Book → Book
with_bounds (first, last) book = record book {
  pages = some (first, last);
  page_start = unless_there book.page_start first;
  page_end = unless_there book.page_end last;
}

-- What a result must be: whether it has pages, and whether its book has chunks with pages.
abbrev pub expected : Option (Option ℕ × Option ℕ) → Bool → Option ℕ → Option ℕ → Book → Book
expected (some pages) has_chunks first last book = book
expected none false first last book = book
expected none true first last book = with_bounds (both_bounds first last) book
