-- ===== src/Chunker/Cover.antt =====
-- The ranges of chunker.py cover every word: they tile [0, n) with bounded chunks and overlaps.
use aithena.Base.{
  ℕ, zero, suc, ◌+◌, ◌-◌, ◌≤◌, ◌<◌, ◌≡◌, refl, inl, inr, Bool, false, Option, none, some, List, [],
  ◌∷◌, max, min, arith, leb, ◌==◌, length, Bool-cases, Option-cases, lt→ltb,
}
use aithena.Base.Text.{Text}
use aithena.Chunker.{
  word_loop, word_based_ranges, scan_ends, scan_starts, next_start, chunk_end, sentence_loop,
  find_sentence_ends, drop_last, sentence_aware_ranges,
}

-- A non-empty list of ranges from `start` to n: each holds at least one word and at most `size`; the
-- next one starts later, but not past the end of this one, and repeats at most `overlap` words; the
-- last one, and no other, ends at n.
abbrev pub Tiles : ℕ → ℕ → ℕ → ℕ → List (ℕ × ℕ) → Type 0
Tiles n size overlap start [] = ⊥
Tiles n size overlap start ((s, e) ∷ []) = (s ≡ start) × (s < e) × (e ≤ s + size) × (e ≡ n)
Tiles n size overlap start ((s, e) ∷ (s', e') ∷ rest) =
    (s ≡ start)
    × (s < e)
    × (e ≤ s + size)
    × (e < n)
    × (s < s')
    × (s' ≤ e)
    × (e ≤ s' + overlap)
    × Tiles n size overlap s' ((s', e') ∷ rest)

Tiles-cons :
    (n size overlap s e s' : ℕ) (rest : List (ℕ × ℕ))
    → s < e
    → e ≤ s + size
    → e < n
    → s < s'
    → s' ≤ e
    → e ≤ s' + overlap
    → Tiles n size overlap s' rest
    → Tiles n size overlap s ((s, e) ∷ rest)
Tiles-cons n size overlap s e s' [] a b c d f g t = elim t [ ]
Tiles-cons n size overlap s e s' ((u, v) ∷ []) a b c d f g t = ground arith
Tiles-cons n size overlap s e s' ((u, v) ∷ (x, y) ∷ rest) a b c d f g t = ground arith

word_loop-Tiles :
    (fuel n size stride overlap start : ℕ)
    → 0 < stride
    → stride ≤ size
    → size ≤ stride + overlap
    → start < n
    → n ≤ start + fuel
    → Tiles n size overlap start (word_loop fuel n size stride start)
unfolding word_loop
word_loop-Tiles zero n size stride overlap start p q r inside enough = absurd (omega arith)
word_loop-Tiles (suc fuel) n size stride overlap start p q r inside enough =
    rw (lt→ltb start n inside) (elim (Bool-cases (min (start + size) n == n)) [
      | inl last ↦ rw last (refl, omega arith, omega arith, ground arith)
      | inr more ↦ rw more (
          Tiles-cons n size overlap start (min (start + size) n) (start + stride)
            (word_loop fuel n size stride (start + stride)) (omega arith) (omega arith)
            (ground arith) (omega arith) (ground arith) (ground arith)
            (word_loop-Tiles fuel n size stride overlap (start + stride) p q r (ground arith)
              (omega arith)))
    ])

pub word_based_ranges-Tiles :
    (n size overlap : ℕ)
    → 0 < n
    → overlap < size
    → Tiles n size overlap 0 (word_based_ranges n size overlap)
unfolding word_based_ranges
word_based_ranges-Tiles n size overlap some_words fits =
    word_loop-Tiles n n size (max 1 (size - overlap)) overlap 0 (omega arith) (omega arith)
      (omega arith) some_words (omega arith)

pub scan_ends-range :
    (start max_end : ℕ) (best : Option ℕ) (ends : List ℕ) {e : ℕ}
    → ((b : ℕ) → best ≡ some b → (start < b) × (b ≤ max_end))
    → scan_ends start max_end best ends ≡ some e
    → (start < e) × (e ≤ max_end)
unfolding scan_ends
scan_ends-range start max_end best [] h found = h _ found
scan_ends-range start max_end best (se ∷ ends) h found = elim (Bool-cases (leb se start)) [
  | inl skip ↦ scan_ends-range start max_end best ends h (rw skip at found)
  | inr later ↦ elim (Bool-cases (leb se max_end)) [
    | inl fits ↦
        scan_ends-range start max_end (some se) ends (λ b p. ground (arith, p))
          (rw (later, fits) at found)
    | inr past ↦ h _ (rw (later, past) at found)
  ]
]

pub chunk_end_bounds :
    (n size start : ℕ) (ends : List ℕ)
    → start < n
    → 0 < size
    → let (e, _) = chunk_end n size ends start in (start < e) × (e ≤ start + size) × (e ≤ n)
unfolding chunk_end
chunk_end_bounds n size start ends inside pos =
    elim (Option-cases (scan_ends start (min (start + size) n) none ends)) [
      | inl nothing ↦ rw nothing (omega arith, omega arith, omega arith)
      | inr (e, found) ↦
          let fits = scan_ends-range start (min (start + size) n) none ends (λ b p. cc) found in
          rw found (omega arith, omega arith, omega arith)
    ]

scan_starts-range :
    (target e : ℕ) (starts : List ℕ)
    → target ≤ e
    → (target ≤ scan_starts target e starts) × (scan_starts target e starts ≤ e)
unfolding scan_starts
scan_starts-range target e [] h = (h, omega arith)
scan_starts-range target e (ss ∷ starts) h = ground (arith, scan_starts-range target e starts h)

next_start_bounds :
    (overlap start e : ℕ) (at_sentence : Bool) (starts : List ℕ)
    → start < e
    → let s = next_start overlap at_sentence start e starts in
      (start < s) × (s ≤ e) × (e ≤ s + overlap)
unfolding next_start
next_start_bounds overlap start e at_sentence starts h =
    ground (arith, scan_starts-range (max (suc start) (e - overlap)) e starts)

sentence_loop-Tiles :
    (fuel n size overlap start : ℕ) (ends starts : List ℕ)
    → 0 < size
    → start < n
    → n ≤ start + fuel
    → Tiles n size overlap start (sentence_loop fuel n size overlap ends starts start)
unfolding sentence_loop
sentence_loop-Tiles zero n size overlap start ends starts pos inside enough = absurd (omega arith)
sentence_loop-Tiles (suc fuel) n size overlap start ends starts pos inside enough =
    let chosen = chunk_end n size ends start in
    let fits = chunk_end_bounds n size start ends inside pos in
    let s = next_start overlap chosen.1 start chosen.0 starts in
    let later = next_start_bounds overlap start chosen.0 chosen.1 starts fits.0 in
    rw (lt→ltb start n inside) (elim (Bool-cases (leb n chosen.0)) [
      | inl last ↦ rw last (refl, fits.0, fits.1, ground arith)
      | inr more ↦ rw more (
          Tiles-cons n size overlap start chosen.0 s
            (sentence_loop fuel n size overlap ends starts s) fits.0 fits.1 (ground arith) later.0
            later.1 later.2
            (sentence_loop-Tiles fuel n size overlap s ends starts pos (ground arith)
              (omega arith)))
    ])

pos→==zero-false : (n : ℕ) → 0 < n → (n == 0) ≡ false
pos→==zero-false n h = ground arith

-- For any words (at least one) and sizes that pass the guards, the ranges of
-- _sentence_aware_ranges tile the words from 0 to their number: no word is left out, each range has
-- at least one word and at most `chunk_size`, successive ranges start later each time and share at
-- most `overlap` words, and the last range ends at the last word. So the loops end with the fuel given.
pub sentence_aware_ranges-Tiles :
    (words : List Text) (size overlap : ℕ)
    → 0 < length words
    → overlap < size
    → Tiles (length words) size overlap 0 (sentence_aware_ranges words size overlap)
unfolding sentence_aware_ranges
sentence_aware_ranges-Tiles words size overlap some_words fits =
    let n = length words in
    let ends = find_sentence_ends words in
    rw (pos→==zero-false n some_words) (elim (Bool-cases (leb (length ends) 1)) [
      | inl one ↦ rw one (word_based_ranges-Tiles n size overlap some_words fits)
      | inr several ↦ rw several (
          sentence_loop-Tiles n n size overlap 0 ends (0 ∷ drop_last ends) (omega arith) some_words
            (omega arith))
    ])
