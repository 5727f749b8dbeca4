-- ===== src/Base/Text/Words.antt =====
-- Laws of splitting: it does not see stripping or collapsing, it yields words, and it undoes `join`.
use aithena.Base.{
  ◌≡◌, refl, ap, ◌∙◌, inl, inr, true, false, List, [], ◌∷◌, ◌++◌, All, arith, Bool-cases,
}
use aithena.Base.Text.{
  Text, is_space, lstrip, rstrip, strip, collapse, flush, split_parts, split, join, IsWord,
}

abbrev NoSpace : Text → Type 0
NoSpace = All (λ d. is_space d ≡ false)

space_is_space : is_space 32 ≡ true
unfolding is_space
space_is_space = refl

split-lstrip : (t : Text) → split (lstrip t) ≡ split t
unfolding split lstrip
split-lstrip [] = refl
split-lstrip (c ∷ t) = ground (arith, split-lstrip t)

split_parts-rstrip : (t : Text) → split_parts (rstrip t) ≡ split_parts t
unfolding split_parts rstrip
split_parts-rstrip [] = refl
split_parts-rstrip (c ∷ t) = ground (arith, split_parts-rstrip t)

split-strip : (t : Text) → split (strip t) ≡ split t
unfolding split strip
split-strip t = rw (split_parts-rstrip (lstrip t)) (split-lstrip t)

collapse-parts :
    (t : Text)
    → (split_parts (collapse false t) ≡ split_parts t) × (split (collapse true t) ≡ split t)
unfolding split collapse
collapse-parts [] = (refl, refl)
collapse-parts (c ∷ t) = ground (arith, space_is_space, collapse-parts t)

-- Collapsing whitespace and stripping do not change the words.
pub split-strip-collapse : (t : Text) → split (strip (collapse false t)) ≡ split t
unfolding split
split-strip-collapse t =
    split-strip (collapse false t)
    ∙ ap (λ (p : Text × List Text). flush p.0 p.1) (collapse-parts t).0

flush-IsWord : (w : Text) (ws : List Text) → NoSpace w → All IsWord ws → All IsWord (flush w ws)
flush-IsWord [] ws h hs = hs
flush-IsWord (c ∷ w) ws h hs = (h, hs)

parts_are_words : (t : Text) → NoSpace (split_parts t).0 × All IsWord (split_parts t).1
unfolding split_parts
parts_are_words [] = (tt, tt)
parts_are_words (c ∷ t) =
    let (w, ws) = parts_are_words t in
    elim (Bool-cases (is_space c)) [
      | inl e ↦ rw e (tt, flush-IsWord (split_parts t).0 (split_parts t).1 w ws)
      | inr e ↦ rw e ((e, w), ws)
    ]

-- What `split` yields are words: not empty, and with no whitespace.
pub split-IsWord : (t : Text) → All IsWord (split t)
unfolding split
split-IsWord t =
    flush-IsWord (split_parts t).0 (split_parts t).1 (parts_are_words t).0 (parts_are_words t).1

split_parts-append : (w r : Text) → NoSpace w → split_parts (w ++ 32 ∷ r) ≡ (w, split r)
unfolding split
split_parts-append [] r h = ground (arith, space_is_space)
split_parts-append (c ∷ w) r h = ground (arith, split_parts-append w r h.1)

split_parts-word : (w : Text) → NoSpace w → split_parts w ≡ (w, [])
unfolding split_parts
split_parts-word [] h = refl
split_parts-word (c ∷ w) h = ground (arith, split_parts-word w h.1)

-- Splitting undoes joining words with single spaces.
pub split-join : (ws : List Text) → All IsWord ws → split (join (32 ∷ []) ws) ≡ ws
unfolding split join
split-join [] h = refl
split-join ([] ∷ ws) h = elim h.0 [ ]
split-join ((c ∷ w) ∷ []) h = ground (arith, split_parts-word (c ∷ w) h.0)
split-join ((c ∷ w) ∷ v ∷ ws) h =
    ground
      (arith, split_parts-append (c ∷ w) (join (32 ∷ []) (v ∷ ws)) h.0, split-join (v ∷ ws) h.1)
