-- ===== src/Chunker/Cuts.antt =====
-- Where the chunks of chunker.py end: at the last sentence end that fits, or at the size limit.
pub mod Marks
use aithena.Base.{
  ℕ, zero, suc, ◌+◌, ◌≤◌, ◌<◌, ◌≡◌, refl, ◌⊎◌, inl, inr, Bool, true, false, Option, none, some,
  List, [], ◌∷◌, min, All, arith, ltb, leb, ◌==◌, if◌then◌else◌, length, Bool-cases, Option-cases,
  leb-false→lt, lt→leb-false, ltb→lt, ◌≢◌,
}
use aithena.Base.Text.{Text}
use aithena.Chunker.{
  scan_ends, chunk_end, sentence_loop, next_start, find_sentence_ends, drop_last,
  sentence_aware_ranges,
}
use aithena.Chunker.Cuts.Marks.{
  Has, Ascends, Has→lt, closes, closes-le, IsBoundary, Has-find_sentence_ends,
  find_sentence_ends-Ascends, two_members,
}

-- What the scan finds is no smaller than what it began with.
scan_ends-ge :
    (start max_end lo b e : ℕ) (ends : List ℕ)
    → Ascends lo ends
    → b ≤ lo
    → scan_ends start max_end (some b) ends ≡ some e
    → b ≤ e
unfolding scan_ends
scan_ends-ge start max_end lo b e [] a le found = ground arith
scan_ends-ge start max_end lo b e (se ∷ ends) a le found =
    let le' : b ≤ se = omega arith in
    elim (Bool-cases (leb se start)) [
      | inl skip ↦ scan_ends-ge start max_end se b e ends a.1 le' (rw skip at found)
      | inr later ↦ elim (Bool-cases (leb se max_end)) [
        | inl fits ↦
            let up =
              scan_ends-ge start max_end se se e ends a.1 (omega arith)
                (rw (later, fits) at found) in
            omega arith
        | inr past ↦ let found' = rw (later, past) at found in ground arith
      ]
    ]

-- What the scan finds is a sentence end, or what it began with.
scan_ends-Has :
    (start max_end e : ℕ) (best : Option ℕ) (ends : List ℕ)
    → scan_ends start max_end best ends ≡ some e
    → Has e ends ⊎ (best ≡ some e)
unfolding scan_ends
scan_ends-Has start max_end e best [] found = inr found
scan_ends-Has start max_end e best (se ∷ ends) found =
    ground
      (arith, scan_ends-Has start max_end e best ends, scan_ends-Has start max_end e (some se) ends)

-- It is the largest that fits.
scan_ends-max :
    (start max_end lo e x : ℕ) (best : Option ℕ) (ends : List ℕ)
    → Ascends lo ends
    → scan_ends start max_end best ends ≡ some e
    → Has x ends
    → start < x
    → x ≤ max_end
    → x ≤ e
unfolding scan_ends
scan_ends-max start max_end lo e x best [] a found h after fits = elim h [ ]
scan_ends-max start max_end lo e x best (se ∷ ends) a found (inl same) after fits =
    elim (Bool-cases (leb se start)) [
      | inl skip ↦ absurd (ground arith)
      | inr later ↦ elim (Bool-cases (leb se max_end)) [
        | inl fit ↦
            let up =
              scan_ends-ge start max_end se se e ends a.1 (omega arith)
                (rw (later, fit) at found) in
            omega arith
        | inr past ↦ absurd (ground arith)
      ]
    ]
scan_ends-max start max_end lo e x best (se ∷ ends) a found (inr h) after fits =
    elim (Bool-cases (leb se start)) [
      | inl skip ↦ scan_ends-max start max_end se e x best ends a.1 (rw skip at found) h after fits
      | inr later ↦ elim (Bool-cases (leb se max_end)) [
        | inl fit ↦
            scan_ends-max start max_end se e x (some se) ends a.1 (rw (later, fit) at found) h after
              fits
        | inr past ↦ absurd (omega (arith, Has→lt x se ends a.1 h, leb-false→lt se max_end past))
      ]
    ]

scan_ends-some :
    (start max_end b : ℕ) (ends : List ℕ) → scan_ends start max_end (some b) ends ≢ none
unfolding scan_ends
scan_ends-some start max_end b [] h = cc
scan_ends-some start max_end b (se ∷ ends) h =
    ground (arith, scan_ends-some start max_end b ends, scan_ends-some start max_end se ends)

-- If it finds none, none fits.
scan_ends-none :
    (start max_end lo x : ℕ) (ends : List ℕ)
    → Ascends lo ends
    → scan_ends start max_end none ends ≡ none
    → Has x ends
    → start < x
    → max_end < x
unfolding scan_ends
scan_ends-none start max_end lo x [] a found h after = elim h [ ]
scan_ends-none start max_end lo x (se ∷ ends) a found h after = elim (Bool-cases (leb se start)) [
  | inl skip ↦ elim h [
    | inl same ↦ absurd (ground arith)
    | inr h' ↦ scan_ends-none start max_end se x ends a.1 (rw skip at found) h' after
  ]
  | inr later ↦ elim (Bool-cases (leb se max_end)) [
    | inl fit ↦ absurd (scan_ends-some start max_end se ends (rw (later, fit) at found))
    | inr past ↦ elim h [
      | inl same ↦ ground arith
      | inr h' ↦ omega (arith, Has→lt x se ends a.1 h', leb-false→lt se max_end past)
    ]
  ]
]

-- What the scan finds lies past `start` and not past `max_end`.
scan_ends-within_best :
    (start max_end b e : ℕ) (ends : List ℕ)
    → start < b
    → b ≤ max_end
    → scan_ends start max_end (some b) ends ≡ some e
    → (start < e) × (e ≤ max_end)
unfolding scan_ends
scan_ends-within_best start max_end b e [] after fits found = (ground arith, ground arith)
scan_ends-within_best start max_end b e (se ∷ ends) after fits found = ground (
  arith,
  scan_ends-within_best start max_end b e ends,
  scan_ends-within_best start max_end se e ends,
)

scan_ends-within :
    (start max_end e : ℕ) (ends : List ℕ)
    → scan_ends start max_end none ends ≡ some e
    → (start < e) × (e ≤ max_end)
unfolding scan_ends
scan_ends-within start max_end e [] found = absurd (ground arith)
scan_ends-within start max_end e (se ∷ ends) found =
    ground
      (arith, scan_ends-within start max_end e ends, scan_ends-within_best start max_end se e ends)

-- A range ends at the last boundary within `size` words, or, where there is none, is `size` long.
abbrev pub CutWell : List Text → ℕ → ℕ × ℕ → Type 0
CutWell words size (s, e) =
    (IsBoundary words e
      × (s < e)
      × (e ≤ s + size)
      × ((x : ℕ) → IsBoundary words x → s < x → x ≤ s + size → x ≤ e))
    ⊎ ((e ≡ s + size) × ((x : ℕ) → IsBoundary words x → s < x → s + size < x))

IsBoundary-le : (words : List Text) (x : ℕ) → IsBoundary words x → x ≤ length words
IsBoundary-le words x (inl e) = omega arith
IsBoundary-le words x (inr c) = closes-le words x c

chunk_end-CutWell :
    (words : List Text) (size start : ℕ)
    → start < length words
    → CutWell words size (start, (chunk_end (length words) size (find_sentence_ends words) start).0)
unfolding chunk_end
chunk_end-CutWell words size start inside =
    let n = length words in
    let ends = find_sentence_ends words in
    let m = min (start + size) n in
    let up = find_sentence_ends-Ascends words (omega arith) in
    elim (Option-cases (scan_ends start m none ends)) [
      | inl nothing ↦
          let past : (x : ℕ) → IsBoundary words x → start < x → m < x = λ x b after.
            scan_ends-none start m 0 x ends up nothing ((Has-find_sentence_ends words x).1 b)
              after in
          let short = past n (inl refl) inside in
          rw nothing (inr (omega arith, λ x b after. let far = past x b after in omega arith))
      | inr (e, found) ↦ rw found (
          inl (
            elim (scan_ends-Has start m e none ends found) [
              | inl h ↦ (Has-find_sentence_ends words e).0 h
              | inr no_best ↦ absurd (cc)
            ],
            (scan_ends-within start m e ends found).0,
            let within = (scan_ends-within start m e ends found).1 in omega arith,
            λ x b after fits.
                let le = IsBoundary-le words x b in
                scan_ends-max start m 0 e x none ends up found
                  ((Has-find_sentence_ends words x).1 b) after (omega arith),
          ))
    ]

sentence_loop-CutWell :
    (fuel size overlap start : ℕ) (words : List Text) (starts : List ℕ)
    → All
        (CutWell words size)
        (sentence_loop fuel (length words) size overlap (find_sentence_ends words) starts start)
unfolding sentence_loop
sentence_loop-CutWell zero size overlap start words starts = tt
sentence_loop-CutWell (suc fuel) size overlap start words starts =
    let n = length words in
    let ends = find_sentence_ends words in
    let chosen = chunk_end n size ends start in
    elim (Bool-cases (ltb start n)) [
      | inr over ↦ rw over tt
      | inl inside ↦
          let cut = chunk_end-CutWell words size start (ltb→lt start n inside) in
          elim (Bool-cases (leb n chosen.0)) [
            | inl last ↦ rw (inside, last) (cut, tt)
            | inr more ↦
                rw (inside, more)
                  (
                    cut,
                    sentence_loop-CutWell fuel size overlap
                        (next_start overlap chosen.1 start chosen.0 starts) words starts,
                  )
          ]
    ]

-- If some word before the last closes a sentence, then every range of _sentence_aware_ranges ends
-- past its start, at the last sentence end (or end of text) that is at most `chunk_size` words after
-- that start, or, where no sentence ends so soon, is exactly `chunk_size` words long.
pub sentence_aware_ranges-CutWell :
    (words : List Text) (size overlap x : ℕ)
    → closes words x ≡ true
    → x < length words
    → All (CutWell words size) (sentence_aware_ranges words size overlap)
unfolding sentence_aware_ranges
sentence_aware_ranges-CutWell words size overlap x closing inner =
    let n = length words in
    let ends = find_sentence_ends words in
    let several =
      two_members x n ends ((Has-find_sentence_ends words x).1 (inr closing))
        ((Has-find_sentence_ends words n).1 (inl refl)) inner in
    let some_words : (n == 0) ≡ false = ground arith in
    rw (some_words, lt→leb-false (length ends) 1 several)
      (sentence_loop-CutWell n size overlap 0 words (0 ∷ drop_last ends))
