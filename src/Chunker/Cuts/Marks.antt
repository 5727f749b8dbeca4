-- ===== src/Chunker/Cuts/Marks.antt =====
-- The list of sentence ends: ascending, and exactly the positions after a closing word, with the end.
use aithena.Base.{
  ℕ, zero, suc, ◌+◌, ◌≤◌, ◌<◌, ◌≡◌, refl, ◌⊎◌, ◌↔◌, inl, inr, Bool, true, false, List, [], ◌∷◌,
  ◌++◌, arith, length, Bool-cases,
}
use aithena.Base.Text.{Text}
use aithena.Chunker.{ends_sentence, sentence_marks, lacks_end, find_sentence_ends}

abbrev pub Has : ℕ → List ℕ → Type 0
Has x [] = ⊥
Has x (y ∷ ys) = (x ≡ y) ⊎ Has x ys

-- Strictly ascending, and above `lo`.
abbrev pub Ascends : ℕ → List ℕ → Type 0
Ascends lo [] = Unit
Ascends lo (x ∷ xs) = (lo < x) × Ascends x xs

-- Word number x (from 1) closes a sentence.
abbrev pub closes : List Text → ℕ → Bool
closes [] x = false
closes (w ∷ ws) zero = false
closes (w ∷ ws) (suc zero) = ends_sentence w
closes (w ∷ ws) (suc (suc x)) = closes ws (suc x)

-- x is the number of all words, or word x closes a sentence.
abbrev pub IsBoundary : List Text → ℕ → Type 0
IsBoundary words x = (x ≡ length words) ⊎ (closes words x ≡ true)

pub Has→lt : (x lo : ℕ) (xs : List ℕ) → Ascends lo xs → Has x xs → lo < x
Has→lt x lo [] a h = elim h [ ]
Has→lt x lo (y ∷ ys) a (inl e) = rw e a.0
Has→lt x lo (y ∷ ys) a (inr h) = omega (arith, Has→lt x y ys a.1 h)

Has-append : (x y : ℕ) (xs : List ℕ) → Has x (xs ++ y ∷ []) ↔ (Has x xs ⊎ (x ≡ y))
Has-append x y [] = ground arith
Has-append x y (z ∷ zs) = ground (arith, Has-append x y zs)

pub closes-le : (words : List Text) (x : ℕ) → closes words x ≡ true → x ≤ length words
closes-le [] x h = cc
closes-le (w ∷ ws) zero h = cc
closes-le (w ∷ ws) (suc zero) h = omega arith
closes-le (w ∷ ws) (suc (suc x)) h = omega (arith, closes-le ws (suc x) h)

closes-zero : (words : List Text) → closes words 0 ≡ false
closes-zero [] = refl
closes-zero (w ∷ ws) = refl

Ascends-weaken : (lo lo' : ℕ) (xs : List ℕ) → lo' ≤ lo → Ascends lo xs → Ascends lo' xs
Ascends-weaken lo lo' [] h a = tt
Ascends-weaken lo lo' (x ∷ xs) h a = (omega arith, a.1)

marks-Ascends : (i : ℕ) (words : List Text) → Ascends i (sentence_marks i words)
unfolding sentence_marks
marks-Ascends i [] = tt
marks-Ascends i (w ∷ ws) =
    let rest = marks-Ascends (suc i) ws in
    elim (Bool-cases (ends_sentence w)) [
      | inl e ↦ rw e (omega arith, rest)
      | inr e ↦ rw e (Ascends-weaken (suc i) i (sentence_marks (suc i) ws) (omega arith) rest)
    ]

not-Has-marks : (i : ℕ) (words : List Text) → ¬ Has i (sentence_marks i words)
not-Has-marks i words h =
    absurd (omega (arith, Has→lt i i (sentence_marks i words) (marks-Ascends i words) h))

Has-marks :
    (i x y : ℕ) (words : List Text)
    → y ≡ i + x
    → Has y (sentence_marks i words) ↔ (closes words x ≡ true)
unfolding sentence_marks
Has-marks i x y [] e = (λ h. elim h [ ], λ h. cc)
Has-marks i zero y (w ∷ ws) e =
    let same : y ≡ i = omega arith in
    (λ h. absurd (not-Has-marks i (w ∷ ws) (rw same at h)), λ h. cc)
Has-marks i (suc zero) y (w ∷ ws) e =
    let same : y ≡ suc i = omega arith in
    elim (Bool-cases (ends_sentence w)) [
      | inl t ↦ rw t (λ h. refl, λ h. inl same)
      | inr f ↦ rw f (λ h. absurd (not-Has-marks (suc i) ws (rw same at h)), λ h. cc)
    ]
Has-marks i (suc (suc x)) y (w ∷ ws) e =
    let rest = Has-marks (suc i) (suc x) y ws (omega arith) in
    elim (Bool-cases (ends_sentence w)) [
      | inl t ↦ rw t (ground (arith, rest), λ h. inr (rest.1 h))
      | inr f ↦ rw f rest
    ]

-- The list ends at n when the test says that nothing is lacking.
Has-lacks_end : (xs : List ℕ) (n : ℕ) → lacks_end xs n ≡ false → Has n xs
unfolding lacks_end
Has-lacks_end [] n h = cc
Has-lacks_end (x ∷ []) n h = ground arith
Has-lacks_end (x ∷ y ∷ xs) n h = inr (Has-lacks_end (y ∷ xs) n h)

Ascends-append :
    (lo n : ℕ) (xs : List ℕ)
    → lo < n
    → Ascends lo xs
    → ((x : ℕ) → Has x xs → x ≤ n)
    → lacks_end xs n ≡ true
    → Ascends lo (xs ++ n ∷ [])
unfolding lacks_end
Ascends-append lo n [] h a below lack = (h, tt)
Ascends-append lo n (x ∷ []) h a below lack =
    let le = below x (inl refl) in (a.0, (ground arith, tt))
Ascends-append lo n (x ∷ y ∷ xs) h a below lack =
    let lt = below y (inr (inl refl)) in
    (a.0, Ascends-append x n (y ∷ xs) (omega arith) a.1 (λ z p. below z (inr p)) lack)

marks-le : (words : List Text) (x : ℕ) → Has x (sentence_marks 0 words) → x ≤ length words
marks-le words x h = closes-le words x ((Has-marks 0 x x words (omega arith)).0 h)

-- The sentence ends are exactly the boundaries of the words.
pub Has-find_sentence_ends :
    (words : List Text) (x : ℕ) → Has x (find_sentence_ends words) ↔ IsBoundary words x
unfolding find_sentence_ends
Has-find_sentence_ends words x =
    let marks = sentence_marks 0 words in
    let n = length words in
    let inner = Has-marks 0 x x words (omega arith) in
    elim (Bool-cases (lacks_end marks n)) [
      | inl t ↦ rw t (
        λ h. elim ((Has-append x n marks).0 h) [ inl m ↦ inr (inner.0 m) | inr e ↦ inl e ],
        λ b. (Has-append x n marks).1 (elim b [ inl e ↦ inr e | inr c ↦ inl (inner.1 c) ]),
      )
      | inr f ↦ rw f (
        λ h. inr (inner.0 h),
        λ b. elim b [ inl e ↦ rw e (Has-lacks_end marks n f) | inr c ↦ inner.1 c ],
      )
    ]

-- They ascend from above 0, if there is a word.
pub find_sentence_ends-Ascends :
    (words : List Text) → 0 < length words → Ascends 0 (find_sentence_ends words)
unfolding find_sentence_ends
find_sentence_ends-Ascends words h =
    let marks = sentence_marks 0 words in
    elim (Bool-cases (lacks_end marks (length words))) [
      | inl t ↦
          rw t (Ascends-append 0 (length words) marks h (marks-Ascends 0 words) (marks-le words) t)
      | inr f ↦ rw f (marks-Ascends 0 words)
    ]

-- A list with two different members has at least two entries.
pub two_members : (x y : ℕ) (xs : List ℕ) → Has x xs → Has y xs → x < y → 1 < length xs
two_members x y [] hx hy h = elim hx [ ]
two_members x y (z ∷ []) hx hy h = ground arith
two_members x y (z ∷ w ∷ zs) hx hy h = omega arith
