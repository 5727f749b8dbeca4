-- ===== src/Search/ChunkPages/Ranges.antt =====
-- The page ranges that enrich_results_with_chunk_pages sets.
use aithena.Base.{
  ℕ, ◌≡◌, refl, ap, ◌∙◌, inl, inr, Bool, true, false, ◌&&◌, Option, none, some, List, [], ◌∷◌, map,
  String, str_eq, eq_iff, arith, if◌then◌else◌, any, Bool-cases, ◌||◌, sym,
}
use aithena.Base.Dict.{Dict, lookup, insert, lookup-insert}
use aithena.Search.ChunkPages.Expected.{
  some_page, belongs, least_with, greatest_with, smallest_start, largest_end, unless_there,
  with_bounds, expected,
}
use aithena.Search.ChunkPages.{
  Chunk, Book, lower, upper, is_usable, widen, given, or_other, set_pages, enrich_from,
  unless_pages, collect_pages, enrich, enrich_results_with_chunk_pages,
}

-- A chunk with pages of the book.
abbrev pub is_of : String → Chunk → Bool
is_of id chunk = is_usable chunk && str_eq chunk.parent_id_s id

-- The smallest first page and the largest last page among the book's chunks.
abbrev pub first_page : String → List Chunk → Option ℕ
first_page id [] = none
first_page id (chunk ∷ chunks) =
    if is_of id chunk then lower chunk.page_start_i (first_page id chunks) else first_page id chunks

abbrev pub last_page : String → List Chunk → Option ℕ
last_page id [] = none
last_page id (chunk ∷ chunks) =
    if is_of id chunk then upper chunk.page_end_i (last_page id chunks) else last_page id chunks

-- A known range, extended by the chunks of the book, if it has any.
abbrev pub start_of : Option (Option ℕ × Option ℕ) → Option ℕ
start_of none = none
start_of (some (first, last)) = first

abbrev pub end_of : Option (Option ℕ × Option ℕ) → Option ℕ
end_of none = none
end_of (some (first, last)) = last

abbrev extend :
    Option (Option ℕ × Option ℕ) → Bool → Option ℕ → Option ℕ → Option (Option ℕ × Option ℕ)
extend known true first last = some (lower (start_of known) first, upper (end_of known) last)
extend known false first last = known

lower_assoc : (a b c : Option ℕ) → lower (lower a b) c ≡ lower a (lower b c)
lower_assoc a b none = refl
lower_assoc a none (some c) = refl
lower_assoc none (some b) (some c) = refl
lower_assoc (some a) (some b) (some c) = ap some (omega arith)

upper_assoc : (a b c : Option ℕ) → upper (upper a b) c ≡ upper a (upper b c)
upper_assoc a b none = refl
upper_assoc a none (some c) = refl
upper_assoc none (some b) (some c) = refl
upper_assoc (some a) (some b) (some c) = ap some (omega arith)

lower-none : (a : Option ℕ) → lower none a ≡ a
lower-none none = refl
lower-none (some a) = refl

upper-none : (a : Option ℕ) → upper none a ≡ a
upper-none none = refl
upper-none (some a) = refl

no_pages :
    (id : String) (chunks : List Chunk)
    → any (is_of id) chunks ≡ false
    → (first_page id chunks ≡ none) × (last_page id chunks ≡ none)
unfolding any
no_pages id [] h = (refl, refl)
no_pages id (chunk ∷ chunks) h = elim (Bool-cases (is_of id chunk)) [
  | inl e ↦ absurd (ground arith)
  | inr e ↦ rw e (no_pages id chunks (rw e at h))
]

-- Widening by one chunk and extending by the rest is extending by all.
extend-widen :
    (known : Option (Option ℕ × Option ℕ)) (chunk : Chunk) (b : Bool) (first last : Option ℕ)
    → (b ≡ false → (first ≡ none) × (last ≡ none))
    → extend (some (widen known chunk)) b first last
      ≡ some (
        lower (start_of known) (lower chunk.page_start_i first),
        upper (end_of known) (upper chunk.page_end_i last),
      )
extend-widen none chunk true first last h =
    rw (lower-none (lower chunk.page_start_i first), upper-none (upper chunk.page_end_i last)) refl
extend-widen (some (lo, hi)) chunk true first last h =
    rw (lower_assoc lo chunk.page_start_i first, upper_assoc hi chunk.page_end_i last) refl
extend-widen none chunk false first last h =
    rw ((h refl).0, (h refl).1, lower-none chunk.page_start_i, upper-none chunk.page_end_i) refl
extend-widen (some (lo, hi)) chunk false first last h = rw ((h refl).0, (h refl).1) refl

lookup-collect_pages :
    (id : String) (chunks : List Chunk) (m : Dict (Option ℕ × Option ℕ))
    → lookup id (collect_pages chunks m)
      ≡ extend (lookup id m) (any (is_of id) chunks) (first_page id chunks) (last_page id chunks)
unfolding collect_pages any
lookup-collect_pages id [] m = refl
lookup-collect_pages id (chunk ∷ chunks) m = elim (Bool-cases (is_usable chunk)) [
  | inr unusable ↦ rw unusable (lookup-collect_pages id chunks m)
  | inl usable ↦
      let entry = widen (lookup chunk.parent_id_s m) chunk in
      let rest = lookup-collect_pages id chunks (insert chunk.parent_id_s entry m) in
      let found = lookup-insert chunk.parent_id_s id entry m in
      elim (Bool-cases (str_eq chunk.parent_id_s id)) [
        | inr other ↦
            rw (usable, other)
              (rest
                ∙ ap
                    (λ k.
                      extend k (any (is_of id) chunks) (first_page id chunks) (last_page id chunks))
                    (rw other at found))
        | inl mine ↦
            rw (usable, mine)
              (rest
                ∙ ap
                    (λ k.
                      extend k (any (is_of id) chunks) (first_page id chunks) (last_page id chunks))
                    (rw mine at found)
                ∙ extend-widen (lookup chunk.parent_id_s m) chunk (any (is_of id) chunks)
                    (first_page id chunks) (last_page id chunks) (no_pages id chunks)
                ∙ ap
                    (λ (t : String). some (
                      lower (start_of (lookup t m))
                          (lower chunk.page_start_i (first_page id chunks)),
                      upper (end_of (lookup t m)) (upper chunk.page_end_i (last_page id chunks)),
                    ))
                    ((eq_iff chunk.parent_id_s id).0 mine))
      ]
]

extend-none :
    (b : Bool) (first last : Option ℕ)
    → extend none b first last ≡ (if b then some (first, last) else none)
extend-none true first last = rw (lower-none first, upper-none last) refl
extend-none false first last = refl

map_ext :
    (f g : Book → Book)
    → ((book : Book) → f book ≡ g book)
    → (results : List Book) → map f results ≡ map g results
map_ext f g h [] = refl
map_ext f g h (book ∷ results) = rw (h book, map_ext f g h results) refl

least_with-lower : (a b : Option ℕ) → lower a b ≡ least_with a b
least_with-lower none none = refl
least_with-lower none (some b) = refl
least_with-lower (some a) none = refl
least_with-lower (some a) (some b) = ap some (ground arith)

greatest_with-upper : (a b : Option ℕ) → upper a b ≡ greatest_with a b
greatest_with-upper none none = refl
greatest_with-upper none (some b) = refl
greatest_with-upper (some a) none = refl
greatest_with-upper (some a) (some b) = ap some (ground arith)

some_page-given : (a b : Option ℕ) → (given a || given b) ≡ some_page a b
some_page-given none none = refl
some_page-given none (some b) = refl
some_page-given (some a) b = refl

is_of-belongs : (id : String) (chunk : Chunk) → is_of id chunk ≡ belongs id chunk
is_of-belongs id chunk =
    let same = some_page-given chunk.page_start_i chunk.page_end_i in ground (arith, same)

is_of_lem :
    (id : String) (chunks : List Chunk)
    → (any (is_of id) chunks ≡ any (belongs id) chunks)
      × (first_page id chunks ≡ smallest_start id chunks)
      × (last_page id chunks ≡ largest_end id chunks)
unfolding any smallest_start largest_end
is_of_lem id [] = (refl, refl, refl)
is_of_lem id (chunk ∷ chunks) =
    let (some_chunk, first, last) = is_of_lem id chunks in
    let same = is_of-belongs id chunk in
    elim (Bool-cases (is_of id chunk)) [
      | inl e ↦
          let mine : belongs id chunk ≡ true = sym same ∙ e in
          rw (e, mine, first, last)
            (
              refl,
              least_with-lower chunk.page_start_i (smallest_start id chunks),
              greatest_with-upper chunk.page_end_i (largest_end id chunks),
            )
      | inr e ↦
          let other : belongs id chunk ≡ false = sym same ∙ e in
          rw (e, other) (some_chunk, first, last)
    ]

or_other-unless_there : (a b : Option ℕ) → or_other a b ≡ unless_there a b
or_other-unless_there none b = refl
or_other-unless_there (some a) b = refl

set_pages-expected :
    (first last : Option ℕ) (book : Book)
    → set_pages first last book ≡ with_bounds (first, last) book
set_pages-expected first last book =
    rw (or_other-unless_there book.page_start first, or_other-unless_there book.page_end last) refl

enrich-expected :
    (pages : Option (Option ℕ × Option ℕ)) (b : Bool) (first last : Option ℕ) (book : Book)
    → unless_pages pages book (enrich_from (if b then some (first, last) else none) book)
      ≡ expected pages b first last book
enrich-expected (some pages) b first last book = refl
enrich-expected none false first last book = refl
enrich-expected none true none none book = set_pages-expected none none book
enrich-expected none true none (some last) book = set_pages-expected (some last) (some last) book
enrich-expected none true (some first) none book = set_pages-expected (some first) (some first) book
enrich-expected none true (some first) (some last) book =
    set_pages-expected (some first) (some last) book

-- A result that has pages, or whose book has no chunk with pages, stays as it is; every other gets the
-- smallest first page and the largest last page of its book's chunks (a missing one is the other
-- one) as its pages, and as page_start and page_end where it has none.
pub enrich_results_with_chunk_pages-follows :
    (results : List Book) (chunk_docs : List Chunk)
    → enrich_results_with_chunk_pages results chunk_docs
      ≡ map
          (λ book.
            expected book.pages
              (any (belongs book.id) chunk_docs)
              (smallest_start book.id chunk_docs)
              (largest_end book.id chunk_docs)
              book)
          results
unfolding enrich_results_with_chunk_pages lookup
enrich_results_with_chunk_pages-follows results chunk_docs =
    map_ext (λ book. enrich (lookup book.id (collect_pages chunk_docs [])) book)
      (λ book.
        expected book.pages (any (belongs book.id) chunk_docs) (smallest_start book.id chunk_docs)
          (largest_end book.id chunk_docs) book)
      (λ book.
        let (some_chunk, first, last) = is_of_lem book.id chunk_docs in
        let looked =
          lookup-collect_pages book.id chunk_docs []
          ∙ extend-none (any (is_of book.id) chunk_docs) (first_page book.id chunk_docs)
              (last_page book.id chunk_docs) in
        rw (looked, some_chunk, first, last)
          (enrich-expected book.pages (any (belongs book.id) chunk_docs)
            (smallest_start book.id chunk_docs) (largest_end book.id chunk_docs) book))
      results
