-- ===== src/Search/Escape.antt =====
-- What reaches Solr's query parser: escaped values and refused queries.
use aithena.Base.{
  ℕ, ◌≡◌, ◌≢◌, refl, ◌∙◌, ap, sym, inl, inr, Bool, true, false, ◌||◌, ◌&&◌, ◌⊎◌, [], ◌∷◌, ◌++◌,
  arith, ◌==◌, if◌then◌else◌, Bool-cases,
}
use aithena.Base.Text.{Text, has_char, strip}
use aithena.Search.{
  local_params, Result, ok, err, special, solr_escape, has_local_params, or_all,
  normalize_search_query,
}

-- A reader of escaped text: a backslash makes the next character a literal one. The flag says that a
-- backslash has just been read.
pub unescape : Bool → Text → Text
unescape quoted [] = []
unescape true (c ∷ t) = c ∷ unescape false t
unescape false (c ∷ t) =
    let rest = unescape false t in if c == b'\\' then unescape true t else c ∷ rest

-- The characters with a meaning in a Solr query, and the space that ends a term.
abbrev pub reserved : Text
reserved =
    b'\\' ∷ b'+' ∷ b'-' ∷ b'&' ∷ b'|' ∷ b'!' ∷ b'(' ∷ b')' ∷ b'{' ∷ b'}' ∷ b'[' ∷ b']' ∷ b'^' ∷ b'"'
    ∷ b'~' ∷ b'*' ∷ b'?' ∷ b':' ∷ b'/' ∷ b' ' ∷ []

-- Whether the reader meets a reserved character that no backslash quotes, or text that ends in the
-- middle of an escape.
pub is_exposed : Bool → Text → Bool
is_exposed quoted [] = quoted
is_exposed true (c ∷ t) = is_exposed false t
is_exposed false (c ∷ t) =
    if c == b'\\' then is_exposed true t else has_char c reserved || is_exposed false t

backslash_special : (c : ℕ) → has_char c special ≡ false → (c == b'\\') ≡ false
unfolding has_char
backslash_special c h = ground arith

-- What is not escaped is not reserved.
special-reserved : (c : ℕ) → has_char c special ≡ false → has_char c reserved ≡ false
unfolding has_char
special-reserved c h = h

-- Escaping loses nothing and hides every character that a Solr query reserves, and the space: for
-- every value, reading the escaped text gives the value back, and the reader meets none of
-- \ + - & | ! ( ) { } [ ] ^ " ~ * ? : / and the space outside an escape.
pub solr_escape-safe :
    (value : Text)
    → (unescape false (solr_escape value) ≡ value) × (is_exposed false (solr_escape value) ≡ false)
unfolding solr_escape unescape is_exposed
solr_escape-safe [] = (refl, refl)
solr_escape-safe (c ∷ value) =
    let rest = solr_escape-safe value in
    elim (Bool-cases (has_char c special)) [
      | inl e ↦ rw e (ap (λ (t : Text). c ∷ t) rest.0, rest.1)
      | inr e ↦
          rw (e, backslash_special c e)
            (ap (λ (t : Text). c ∷ t) rest.0, rw (special-reserved c e) rest.1)
    ]

-- "{!" stands somewhere in the text.
abbrev pub HoldsLocal : Text → Type 0
HoldsLocal t = (pre : Text) × (post : Text) × (t ≡ pre ++ (b'{' ∷ b'!' ∷ post))

HoldsLocal-found : (t : Text) → has_local_params t ≡ true → HoldsLocal t
unfolding has_local_params
HoldsLocal-found [] h = absurd (cc)
HoldsLocal-found (c ∷ []) h = absurd (cc)
HoldsLocal-found (c ∷ d ∷ t) h = elim (Bool-cases (c == b'{' && d == b'!')) [
  | inl e ↦
      let first : c ≡ b'{' = ground arith in
      let second : d ≡ b'!' = ground arith in ([], t, rw (first, second) refl)
  | inr e ↦
      let found = HoldsLocal-found (d ∷ t) (rw e at h) in
      (c ∷ found.0, found.1, ap (λ (x : Text). c ∷ x) found.2)
]

found_later : (c : ℕ) (t : Text) → has_local_params t ≡ true → has_local_params (c ∷ t) ≡ true
unfolding has_local_params
found_later c [] h = absurd (cc)
found_later c (d ∷ t) h = ground arith

found_at : (pre post : Text) → has_local_params (pre ++ (b'{' ∷ b'!' ∷ post)) ≡ true
unfolding has_local_params
found_at [] post = refl
found_at (c ∷ pre) post = found_later c (pre ++ (b'{' ∷ b'!' ∷ post)) (found_at pre post)

not_held : (t : Text) → has_local_params t ≡ false → ¬ HoldsLocal t
not_held t h (pre, post, e) = let found : has_local_params t ≡ true = rw e (found_at pre post) in cc

-- What the result says of the stripped query.
abbrev pub IsSafe : Text → Result Text → Type 0
IsSafe stripped (ok q) =
    (¬ HoldsLocal q)
    × (((stripped ≡ []) × (q ≡ b'*' ∷ b':' ∷ b'*' ∷ [])) ⊎ ((stripped ≢ []) × (q ≡ stripped)))
IsSafe stripped (err e) = (e ≡ local_params) × HoldsLocal stripped

or_all-IsSafe : (t : Text) → has_local_params (or_all t) ≡ false → IsSafe t (ok (or_all t))
or_all-IsSafe [] h = (not_held (or_all []) h, inl (refl, refl))
or_all-IsSafe (c ∷ t) h = (not_held (c ∷ t) h, inr (λ e. cc, refl))

or_all_local : (t : Text) → has_local_params (or_all t) ≡ has_local_params t
unfolding has_local_params
or_all_local [] = refl
or_all_local (c ∷ t) = refl

-- Every query is either refused because "{!" stands somewhere in its stripped text, or is passed on as
-- a text in which "{!" stands nowhere: the stripped text, or "*:*" where that is empty.
pub normalize_search_query-IsSafe :
    (query : Text) → IsSafe (strip query) (normalize_search_query query)
unfolding normalize_search_query
normalize_search_query-IsSafe query = elim (Bool-cases (has_local_params (or_all (strip query)))) [
  | inl e ↦ rw e (refl, HoldsLocal-found (strip query) (sym (or_all_local (strip query)) ∙ e))
  | inr e ↦ rw e (or_all-IsSafe (strip query) e)
]
