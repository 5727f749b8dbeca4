-- ===== src/Chunker/Pages.antt =====
-- The chunks that chunker.py returns: their words, their pages, and when it raises.
use mathlib.Core.List.{append-nil}
use mathlib.Core.Path.{subst}
use aithena.Base.{
  ℕ, zero, suc, ◌+◌, ◌-◌, ◌≤◌, ◌<◌, ◌≡◌, refl, ap, ◌⊎◌, ◌↔◌, inl, inr, false, List, [], ◌∷◌, ◌++◌,
  map, All, arith, length, get_or, take, drop, replicate, length-append, length-replicate,
  length-take, length-drop, lt→leb-false,
}
use aithena.Base.Text.{Text, strip, collapse, split, IsWord}
use aithena.Base.Text.Words.{split-IsWord, split-join}
use aithena.Base.Int.{ℤ, pos, negsuc, ◌≤ℤ◌}
use aithena.Chunker.{
  Error, chunk_size_not_positive, overlap_negative, overlap_too_large, Result, ok, err, check_sizes,
  slice, page_words, collect_words, cut_chunks, sentence_aware_ranges, chunk_text_with_pages,
  join_ranges, chunk_text, split_words,
}
use aithena.Chunker.Cover.{Tiles, sentence_aware_ranges-Tiles}

abbrev InRange : ℕ → ℕ → ℕ × ℕ → Type 0
InRange n size (s, e) = (s < e) × (e ≤ s + size) × (e ≤ n)

Tiles-InRange :
    (n size overlap start : ℕ) (ranges : List (ℕ × ℕ))
    → Tiles n size overlap start ranges
    → All (InRange n size) ranges
Tiles-InRange n size overlap start [] t = tt
Tiles-InRange n size overlap start ((s, e) ∷ []) t = ((t.1, t.2, omega arith), tt)
Tiles-InRange n size overlap start ((s, e) ∷ (s', e') ∷ rest) t =
    ((t.1, t.2, omega arith), Tiles-InRange n size overlap s' ((s', e') ∷ rest) t.7)

ranges-InRange :
    (words : List Text) (size overlap : ℕ)
    → overlap < size
    → All (InRange (length words) size) (sentence_aware_ranges words size overlap)
unfolding sentence_aware_ranges
ranges-InRange [] size overlap fits = tt
ranges-InRange (w ∷ words) size overlap fits =
    Tiles-InRange (length (w ∷ words)) size overlap 0
      (sentence_aware_ranges (w ∷ words) size overlap)
      (sentence_aware_ranges-Tiles (w ∷ words) size overlap (omega arith) fits)

module _ {ℓ κ} {A : Type ℓ} (P : A → Type κ) where
  All-take : (n : ℕ) (xs : List A) → All P xs → All P (take n xs)
  All-take zero xs h = tt
  All-take (suc n) [] h = tt
  All-take (suc n) (x ∷ xs) h = (h.0, All-take n xs h.1)

  All-drop : (n : ℕ) (xs : List A) → All P xs → All P (drop n xs)
  All-drop zero xs h = h
  All-drop (suc n) [] h = tt
  All-drop (suc n) (x ∷ xs) h = All-drop n xs h.1

length-slice {ℓ} :
    {A : Type ℓ} (s e : ℕ) (xs : List A) → s < e → e ≤ length xs → length (slice s e xs) ≡ e - s
length-slice s e xs h fits = omega (arith, length-take (e - s) (drop s xs), length-drop s xs)

abbrev pub HasWords : ℕ → Text → Type 0
HasWords size t = (0 < length (split t)) × (length (split t) ≤ size)

join_ranges-HasWords :
    (words : List Text) (size : ℕ) (ranges : List (ℕ × ℕ))
    → All IsWord words
    → All (InRange (length words) size) ranges
    → All (HasWords size) (join_ranges words ranges)
unfolding join_ranges
join_ranges-HasWords words size [] hw hr = tt
join_ranges-HasWords words size ((s, e) ∷ ranges) hw hr =
    let cut = slice s e words in
    let same =
      split-join cut (All-take IsWord (e - s) (drop s words) (All-drop IsWord s words hw)) in
    let many = length-slice s e words hr.0.0 hr.0.2 in
    (rw same (omega arith, omega arith), join_ranges-HasWords words size ranges hw hr.1)

abbrev pub Returns : {A : Type 0} → Result A → (A → Type 0) → Type 0
Returns (ok a) P = P a
Returns (err e) P = ⊥

check_sizes_pass :
    (size overlap : ℕ) → overlap < size → check_sizes (pos size) (pos overlap) ≡ ok (size, overlap)
unfolding check_sizes
check_sizes_pass zero overlap h = elim h [ ]
check_sizes_pass (suc c) overlap h = rw (lt→leb-false (suc c) overlap h)

-- With sizes 0 ≤ overlap < chunk_size, chunk_text returns, and every chunk has at least one word and
-- at most `chunk_size` words.
pub chunk_text-HasWords :
    (text : Text) (size overlap : ℕ)
    → overlap < size
    → Returns (chunk_text text (pos size) (pos overlap)) (All (HasWords size))
unfolding chunk_text
chunk_text-HasWords text size overlap fits =
    let words = split_words (strip (collapse false text)) in
    rw (check_sizes_pass size overlap fits) (
      join_ranges-HasWords words size (sentence_aware_ranges words size overlap)
        (split-IsWord (strip (collapse false text))) (ranges-InRange words size overlap fits))

Result-cases : {A : Type 0} (r : Result A) → ((e : Error) × (r ≡ err e)) ⊎ ((a : A) × (r ≡ ok a))
Result-cases (ok a) = inr (a, refl)
Result-cases (err e) = inl (e, refl)

-- The condition under which each ValueError is the one to raise, the guards taken in order.
abbrev pub Fails : ℤ → ℤ → Error → Type 0
Fails size overlap chunk_size_not_positive = size ≤ℤ pos 0
Fails size overlap overlap_negative = (pos 1 ≤ℤ size) × (overlap ≤ℤ negsuc 0)
Fails size overlap overlap_too_large = (pos 1 ≤ℤ size) × (pos 0 ≤ℤ overlap) × (size ≤ℤ overlap)

check_sizes-err_iff :
    (size overlap : ℤ) (e : Error) → (check_sizes size overlap ≡ err e) ↔ Fails size overlap e
unfolding check_sizes
check_sizes-err_iff (negsuc c) overlap chunk_size_not_positive = ground arith
check_sizes-err_iff (negsuc c) overlap _ = ground arith
check_sizes-err_iff (pos zero) overlap chunk_size_not_positive = ground arith
check_sizes-err_iff (pos zero) overlap _ = ground arith
check_sizes-err_iff (pos (suc c)) (negsuc o) chunk_size_not_positive = ground arith
check_sizes-err_iff (pos (suc c)) (negsuc o) _ = ground arith
check_sizes-err_iff (pos (suc c)) (pos o) chunk_size_not_positive = ground arith
check_sizes-err_iff (pos (suc c)) (pos o) _ = ground arith

-- chunk_text raises an error exactly when its condition holds: chunk_size ≤ 0; or chunk_size > 0 and
-- overlap < 0; or chunk_size > 0, overlap ≥ 0 and overlap ≥ chunk_size. Otherwise it returns chunks.
pub chunk_text-err_iff :
    (text : Text) (size overlap : ℤ) (e : Error)
    → (chunk_text text size overlap ≡ err e) ↔ Fails size overlap e
unfolding chunk_text
chunk_text-err_iff text size overlap e =
    let guards = check_sizes-err_iff size overlap e in
    elim (Result-cases (check_sizes size overlap)) [
      | inl (d, raised) ↦ rw raised (λ h. guards.0 (cc (raised, h)), λ f. cc (raised, guards.1 f))
      | inr (sizes, passed) ↦ rw passed (λ h. cc, λ f. absurd (cc (passed, guards.1 f)))
    ]

-- Given one page, chunk_text_with_pages returns the chunks of chunk_text and raises its errors.
abbrev pub texts : Result (List (Text × ℕ × ℕ)) → Result (List Text)
texts (ok chunks) = ok (map (λ c. c.0) chunks)
texts (err e) = err e

cut_chunks-texts :
    (words : List Text) (nums : List ℕ) (ranges : List (ℕ × ℕ))
    → map (λ c. c.0) (cut_chunks words nums ranges) ≡ join_ranges words ranges
unfolding cut_chunks join_ranges
cut_chunks-texts words nums [] = refl
cut_chunks-texts words nums ((s, e) ∷ ranges) = rw (cut_chunks-texts words nums ranges)

-- For every text, page number and sizes, chunk_text gives the texts of the chunks that
-- chunk_text_with_pages gives for the one page with that text, and the same errors.
pub chunk_text-eq-pages :
    (text : Text) (page : ℕ) (size overlap : ℤ)
    → texts (chunk_text_with_pages ((page, text) ∷ []) size overlap) ≡ chunk_text text size overlap
unfolding chunk_text chunk_text_with_pages
chunk_text-eq-pages text page size overlap = elim (Result-cases (check_sizes size overlap)) [
  | inl (e, raised) ↦ rw raised
  | inr (sizes, passed) ↦
      rw (passed, append-nil)
        (ap ok (
          cut_chunks-texts (page_words text) (replicate (length (page_words text)) page ++ [])
            (sentence_aware_ranges (page_words text) sizes.0 sizes.1)))
]

-- The page numbers of the input do not fall.
abbrev pub Rises : ℕ → List ℕ → Type 0
Rises lo [] = Unit
Rises lo (p ∷ ps) = (lo ≤ p) × Rises p ps

Rises-le : (lo : ℕ) (nums : List ℕ) (j : ℕ) → Rises lo nums → j < length nums → lo ≤ get_or nums j 0
Rises-le lo [] j r k = elim k [ ]
Rises-le lo (p ∷ ps) zero r k = r.0
Rises-le lo (p ∷ ps) (suc j) r k = omega (arith, Rises-le p ps j r.1)

get_or-Rises :
    (lo : ℕ) (nums : List ℕ) (i j : ℕ)
    → Rises lo nums
    → i ≤ j
    → j < length nums
    → get_or nums i 0 ≤ get_or nums j 0
get_or-Rises lo [] i j r h k = elim k [ ]
get_or-Rises lo (p ∷ ps) zero zero r h k = omega arith
get_or-Rises lo (p ∷ ps) zero (suc j) r h k = Rises-le p ps j r.1 (omega arith)
get_or-Rises lo (p ∷ ps) (suc i) zero r h k = absurd (omega arith)
get_or-Rises lo (p ∷ ps) (suc i) (suc j) r h k =
    get_or-Rises p ps i j r.1 (omega arith) (omega arith)

length-collect_words :
    (pages : List (ℕ × Text)) → length (collect_words pages).0 ≡ length (collect_words pages).1
unfolding collect_words
length-collect_words [] = refl
length-collect_words ((p, t) ∷ pages) = omega (
  arith,
  length-collect_words pages,
  length-append (page_words t) (collect_words pages).0,
  length-append (replicate (length (page_words t)) p) (collect_words pages).1,
  length-replicate (length (page_words t)) p,
)

-- The pages of the input, in order, have numbers that do not fall.
abbrev pub PagesRise : ℕ → List (ℕ × Text) → Type 0
PagesRise lo [] = Unit
PagesRise lo ((p, t) ∷ pages) = (lo ≤ p) × PagesRise p pages

Rises-weaken : (lo lo' : ℕ) (nums : List ℕ) → lo' ≤ lo → Rises lo nums → Rises lo' nums
Rises-weaken lo lo' [] h r = tt
Rises-weaken lo lo' (p ∷ ps) h r = (omega arith, r.1)

Rises-replicate : (n p : ℕ) (nums : List ℕ) → Rises p nums → Rises p (replicate n p ++ nums)
Rises-replicate zero p nums r = r
Rises-replicate (suc n) p nums r = (omega arith, Rises-replicate n p nums r)

collect_words-Rises :
    (lo : ℕ) (pages : List (ℕ × Text)) → PagesRise lo pages → Rises lo (collect_words pages).1
unfolding collect_words
collect_words-Rises lo [] h = tt
collect_words-Rises lo ((p, t) ∷ pages) h =
    Rises-weaken p lo (collect_words ((p, t) ∷ pages)).1 h.0 (
      Rises-replicate (length (page_words t)) p (collect_words pages).1
        (collect_words-Rises p pages h.1))

abbrev pub Ordered : Text × ℕ × ℕ → Type 0
Ordered (text, page_start, page_end) = page_start ≤ page_end

cut_chunks-Ordered :
    (words : List Text) (nums : List ℕ) (size lo : ℕ) (ranges : List (ℕ × ℕ))
    → Rises lo nums
    → All (InRange (length nums) size) ranges
    → All Ordered (cut_chunks words nums ranges)
unfolding cut_chunks
cut_chunks-Ordered words nums size lo [] r h = tt
cut_chunks-Ordered words nums size lo ((s, e) ∷ ranges) r h = (
  get_or-Rises lo nums s (e - 1) r (omega arith) (omega arith),
  cut_chunks-Ordered words nums size lo ranges r h.1,
)

-- With sizes 0 ≤ overlap < chunk_size and pages whose numbers do not fall, chunk_text_with_pages
-- returns, and in every chunk the first page is not after the last.
pub chunk_text_with_pages-Ordered :
    (pages : List (ℕ × Text)) (size overlap : ℕ)
    → overlap < size
    → PagesRise 0 pages
    → Returns (chunk_text_with_pages pages (pos size) (pos overlap)) (All Ordered)
unfolding chunk_text_with_pages
chunk_text_with_pages-Ordered pages size overlap fits rises =
    let (words, nums) = collect_words pages in
    rw (check_sizes_pass size overlap fits) (
      cut_chunks-Ordered words nums size 0 (sentence_aware_ranges words size overlap)
        (collect_words-Rises 0 pages rises)
        (subst (λ k. All (InRange k size) (sentence_aware_ranges words size overlap))
          (length-collect_words pages) (ranges-InRange words size overlap fits)))
