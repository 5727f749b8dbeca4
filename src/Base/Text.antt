-- ===== src/Base/Text.antt =====
-- Python text as its code points: whitespace, strip, split, join, and `re.sub(r"\s+", " ", t)`.
pub mod Words
use aithena.Base.{
  map, ◌+◌, ℕ, ◌≡◌, refl, ap, ◌⊎◌, inl, inr, Bool, true, false, not, ◌&&◌, ◌||◌, List, [], ◌∷◌,
  ◌++◌, All, arith, leb, ◌==◌, if◌then◌else◌, String, Bool-cases,
}
use Prim.Native.Char.{code}

abbrev pub Text : Type 0
Text = List ℕ

-- The code points of a literal.
abbrev pub codes : String → Text
codes String.[] = []
codes (String.◌∷◌ c s) = code c ∷ codes s

-- `str.isspace` of one character, which `split`, `strip` and `\s` share.
unfoldable pub is_space : ℕ → Bool
is_space c =
    (leb 9 c && leb c 13)
    || (leb 28 c && leb c 32)
    || (c == 133)
    || (c == 160)
    || (c == 5760)
    || (leb 8192 c && leb c 8202)
    || (c == 8232)
    || (c == 8233)
    || (c == 8239)
    || (c == 8287)
    || (c == 12288)

-- `a == b` on texts.
unfoldable pub text_eq : Text → Text → Bool
text_eq [] [] = true
text_eq [] (d ∷ t) = false
text_eq (c ∷ s) [] = false
text_eq (c ∷ s) (d ∷ t) = c == d && text_eq s t

pub text_eq→eq : (s t : Text) → text_eq s t ≡ true → s ≡ t
unfolding text_eq
text_eq→eq [] [] h = refl
text_eq→eq [] (d ∷ t) h = cc
text_eq→eq (c ∷ s) [] h = cc
text_eq→eq (c ∷ s) (d ∷ t) h = ground (arith, text_eq→eq s t)

pub text_eq_refl : (s : Text) → text_eq s s ≡ true
unfolding text_eq
text_eq_refl [] = refl
text_eq_refl (c ∷ s) = ground (arith, text_eq_refl s)

-- `c in t` for one character.
unfoldable pub has_char : ℕ → Text → Bool
has_char c [] = false
has_char c (d ∷ t) = c == d || has_char c t

-- `text.startswith(prefix)`
unfoldable pub is_prefix : Text → Text → Bool
is_prefix [] text = true
is_prefix (c ∷ p) [] = false
is_prefix (c ∷ p) (d ∷ text) = c == d && is_prefix p text

-- `str.lower` on the letters A to Z. It is used where the result is compared with an ASCII text without
-- a "k": no other character has another ASCII letter alone as its lower case.
unfoldable pub lower : Text → Text
lower = map (λ c. if leb b'A' c && leb c b'Z' then c + 32 else c)

unfoldable pub lstrip : Text → Text
lstrip [] = []
lstrip (c ∷ t) = let rest = lstrip t in if is_space c then rest else c ∷ t

abbrev trim_end : ℕ → Text → Text
trim_end c [] = if is_space c then [] else c ∷ []
trim_end c (d ∷ t) = c ∷ d ∷ t

unfoldable pub rstrip : Text → Text
rstrip [] = []
rstrip (c ∷ t) = trim_end c (rstrip t)

unfoldable pub strip : Text → Text
unfolding lstrip rstrip
strip t = rstrip (lstrip t)

-- `re.sub(r"\s+", " ", t)`; the flag says whether the character before was whitespace
unfoldable pub collapse : Bool → Text → Text
collapse in_run [] = []
collapse in_run (c ∷ t) =
    let rest = collapse (is_space c) t in
    if is_space c then (if in_run then rest else 32 ∷ rest) else c ∷ rest

-- puts a word before the words after it, unless it is empty
abbrev pub flush : Text → List Text → List Text
flush [] ws = ws
flush (c ∷ w) ws = (c ∷ w) ∷ ws

-- the word that goes on at the front of the text (or none, `[]`), and the words after it
unfoldable pub split_parts : Text → Text × List Text
split_parts [] = ([], [])
split_parts (c ∷ t) =
    let (w, ws) = split_parts t in if is_space c then ([], flush w ws) else (c ∷ w, ws)

-- `t.split()`
unfoldable pub split : Text → List Text
unfolding split_parts
split t = let (w, ws) = split_parts t in flush w ws

-- `sep.join(ws)`
unfoldable pub join : Text → List Text → Text
join sep [] = []
join sep (w ∷ []) = w
join sep (w ∷ v ∷ ws) = w ++ (sep ++ join sep (v ∷ ws))

-- Splitting does not see how much whitespace stands between words.
abbrev pub IsWord : Text → Type 0
IsWord [] = ⊥
IsWord (c ∷ w) = All (λ d. is_space d ≡ false) (c ∷ w)
