-- ===== src/Chunker.antt =====
-- src/document-indexer/document_indexer/chunker.py: overlapping, sentence-aware chunks with pages.
--
-- A word index is a natural number; Python's `best_end - overlap` is only used under
-- `max(start + 1, …)`, so stopping the subtraction at 0 changes nothing. Both loops take fuel, one
-- round for each unit; the number of words is enough (Chunker/Cover).
pub mod Cover
pub mod Cuts
pub mod Pages
mod Tests
use aithena.Base.{
  ℕ, zero, suc, ◌+◌, ◌-◌, ◌≡◌, Bool, true, false, not, ◌&&◌, ◌||◌, Option, none, some, List, [],
  ◌∷◌, ◌++◌, max, min, ltb, leb, ◌==◌, if◌then◌else◌, length, get_or, take, drop, replicate,
}
use aithena.Base.Int.{ℤ, pos, negsuc}
use aithena.Base.Text.{Text, strip, collapse, split, join}

-- _split_words
pub split_words : Text → List Text
split_words text = split text

-- `w and w[-1] in ".!?"`
pub ends_sentence : Text → Bool
ends_sentence [] = false
ends_sentence (c ∷ []) = c == b'.' || c == b'!' || c == b'?'
ends_sentence (c ∷ d ∷ w) = ends_sentence (d ∷ w)

-- the loop over `enumerate(words)`, from index i
pub sentence_marks : ℕ → List Text → List ℕ
sentence_marks i [] = []
sentence_marks i (w ∷ ws) =
    let rest = sentence_marks (suc i) ws in if ends_sentence w then suc i ∷ rest else rest

-- `not ends or ends[-1] != n`
pub lacks_end : List ℕ → ℕ → Bool
lacks_end [] n = true
lacks_end (e ∷ []) n = not (e == n)
lacks_end (e ∷ f ∷ ends) n = lacks_end (f ∷ ends) n

-- _find_sentence_ends
pub find_sentence_ends : List Text → List ℕ
unfolding sentence_marks lacks_end
find_sentence_ends words =
    let ends = sentence_marks 0 words in
    if lacks_end ends (length words) then ends ++ length words ∷ [] else ends

-- the loop of _word_based_ranges from `start`
pub word_loop : ℕ → ℕ → ℕ → ℕ → ℕ → List (ℕ × ℕ)
word_loop zero n chunk_size stride start = []
word_loop (suc fuel) n chunk_size stride start =
    let rest = word_loop fuel n chunk_size stride (start + stride) in
    let end = min (start + chunk_size) n in
    if ltb start n then (start, end) ∷ (if end == n then [] else rest) else []

-- _word_based_ranges
pub word_based_ranges : ℕ → ℕ → ℕ → List (ℕ × ℕ)
unfolding word_loop
word_based_ranges n chunk_size overlap = word_loop n n chunk_size (max 1 (chunk_size - overlap)) 0

-- the scan for `best_end`: the last sentence end past `start` and not past `max_end`
pub scan_ends : ℕ → ℕ → Option ℕ → List ℕ → Option ℕ
scan_ends start max_end best [] = best
scan_ends start max_end best (se ∷ ends) =
    let skip = scan_ends start max_end best ends in
    let take_it = scan_ends start max_end (some se) ends in
    if leb se start then skip else if leb se max_end then take_it else best

-- the scan for `next_start`: the first sentence start from `target` on and before `best_end`
pub scan_starts : ℕ → ℕ → List ℕ → ℕ
scan_starts target best_end [] = best_end
scan_starts target best_end (ss ∷ starts) =
    let rest = scan_starts target best_end starts in
    if ltb ss target then rest else if leb best_end ss then best_end else ss

-- `sent_ends[:-1]`
pub drop_last : List ℕ → List ℕ
drop_last [] = []
drop_last (e ∷ []) = []
drop_last (e ∷ f ∷ ends) = e ∷ drop_last (f ∷ ends)

-- `best_end`, and whether it is at a sentence end
abbrev pub choose_end : ℕ → Option ℕ → ℕ × Bool
choose_end max_end none = (max_end, false)
choose_end max_end (some best) = (best, true)

-- the start of the next chunk
pub next_start : ℕ → Bool → ℕ → ℕ → List ℕ → ℕ
unfolding scan_starts
next_start overlap at_sentence start best_end sent_starts =
    if ltb 0 overlap && at_sentence
    then scan_starts (max (suc start) (best_end - overlap)) best_end sent_starts
    else if ltb 0 overlap
    then max (suc start) (best_end - overlap)
    else best_end

-- the end of the chunk that starts at `start`
pub chunk_end : ℕ → ℕ → List ℕ → ℕ → ℕ × Bool
unfolding scan_ends
chunk_end n chunk_size sent_ends start =
    let max_end = min (start + chunk_size) n in
    choose_end max_end (scan_ends start max_end none sent_ends)

-- the loop of _sentence_aware_ranges from `start`
pub sentence_loop : ℕ → ℕ → ℕ → ℕ → List ℕ → List ℕ → ℕ → List (ℕ × ℕ)
sentence_loop zero n chunk_size overlap sent_ends sent_starts start = []
sentence_loop (suc fuel) n chunk_size overlap sent_ends sent_starts start =
    let chosen = chunk_end n chunk_size sent_ends start in
    let rest =
      sentence_loop fuel n chunk_size overlap sent_ends sent_starts
        (next_start overlap chosen.1 start chosen.0 sent_starts) in
    if ltb start n then (start, chosen.0) ∷ (if leb n chosen.0 then [] else rest) else []

-- _sentence_aware_ranges
pub sentence_aware_ranges : List Text → ℕ → ℕ → List (ℕ × ℕ)
unfolding find_sentence_ends word_based_ranges sentence_loop drop_last chunk_end next_start
sentence_aware_ranges words chunk_size overlap =
    let n = length words in
    let sent_ends = find_sentence_ends words in
    if n == 0
    then []
    else if leb (length sent_ends) 1
    then word_based_ranges n chunk_size overlap
    else sentence_loop n n chunk_size overlap sent_ends (0 ∷ drop_last sent_ends) 0

-- The ValueErrors of chunk_text and chunk_text_with_pages.
pub data Error : Type 0 where
  chunk_size_not_positive overlap_negative overlap_too_large : Error

pub data Result (A : Type 0) : Type 0 where
  ok : A → Result A
  err : Error → Result A

-- the three guards, in order; the sizes as natural numbers once they hold
pub check_sizes : ℤ → ℤ → Result (ℕ × ℕ)
check_sizes (negsuc c) overlap = err chunk_size_not_positive
check_sizes (pos zero) overlap = err chunk_size_not_positive
check_sizes (pos (suc c)) (negsuc o) = err overlap_negative
check_sizes (pos (suc c)) (pos o) = if leb (suc c) o then err overlap_too_large else ok (suc c, o)

-- `words[s:e]`
abbrev pub slice {ℓ} : {A : Type ℓ} → ℕ → ℕ → List A → List A
slice s e xs = take (e - s) (drop s xs)

-- `re.sub(r"\s+", " ", text).strip()`, then split
pub page_words : Text → List Text
unfolding strip collapse split
page_words text = split (strip (collapse false text))

-- the loop over `pages`: all words, and the page of each
pub collect_words : List (ℕ × Text) → List Text × List ℕ
collect_words [] = ([], [])
collect_words ((page, text) ∷ pages) =
    let (words, nums) = collect_words pages in
    (page_words text ++ words, replicate (length (page_words text)) page ++ nums)

pub cut_chunks : List Text → List ℕ → List (ℕ × ℕ) → List (Text × ℕ × ℕ)
cut_chunks words nums [] = []
cut_chunks words nums ((s, e) ∷ ranges) =
    (join (32 ∷ []) (slice s e words), get_or nums s 0, get_or nums (e - 1) 0)
    ∷ cut_chunks words nums ranges

abbrev with_sizes : {A : Type 0} → Result (ℕ × ℕ) → (ℕ → ℕ → A) → Result A
with_sizes (ok (c, o)) f = ok (f c o)
with_sizes (err e) f = err e

-- chunk_text_with_pages; the early return on no words gives what the rest gives
pub chunk_text_with_pages : List (ℕ × Text) → ℤ → ℤ → Result (List (Text × ℕ × ℕ))
unfolding check_sizes collect_words sentence_aware_ranges cut_chunks page_words
chunk_text_with_pages pages chunk_size overlap = with_sizes (check_sizes chunk_size overlap) λ c o.
    let (words, nums) = collect_words pages in
    cut_chunks words nums (sentence_aware_ranges words c o)

pub join_ranges : List Text → List (ℕ × ℕ) → List Text
join_ranges words [] = []
join_ranges words ((s, e) ∷ ranges) = join (32 ∷ []) (slice s e words) ∷ join_ranges words ranges

-- chunk_text
pub chunk_text : Text → ℤ → ℤ → Result (List Text)
unfolding check_sizes sentence_aware_ranges join_ranges split_words strip collapse
chunk_text text chunk_size overlap = with_sizes (check_sizes chunk_size overlap) λ c o.
    let words = split_words (strip (collapse false text)) in
    join_ranges words (sentence_aware_ranges words c o)
