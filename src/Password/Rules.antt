-- ===== src/Password/Rules.antt =====
-- The passwords that validate_password accepts.
use aithena.Base.{
  ℕ, ◌≤◌, ◌≡◌, refl, ap, ◌↔◌, ◌⊎◌, inl, inr, Bool, true, false, ◌&&◌, [], ◌∷◌, ◌++◌, arith, ltb,
  if◌then◌else◌, length, Bool-cases, ==_iff, any, ◌||◌, ◌+◌,
}
use aithena.Base.Text.{Text, is_prefix, has_char}
use aithena.Password.{
  validate_password, categories, is_part, is_given, too_long, too_short, too_simple,
  contains_username, when, is_upper, is_lower, is_digit, is_special, one_if,
}

-- `part` stands somewhere in `text`.
abbrev pub Occurs : Text → Text → Type 0
Occurs part text = (pre : Text) × (post : Text) × (text ≡ pre ++ (part ++ post))

prefix_at : (p t : Text) → is_prefix p t ≡ true → (post : Text) × (t ≡ p ++ post)
unfolding is_prefix
prefix_at [] t h = (t, refl)
prefix_at (c ∷ p) [] h = absurd (cc)
prefix_at (c ∷ p) (d ∷ t) h =
    let rest = prefix_at p t (ground arith) in (rest.0, ground (arith, ==_iff c d, rest.1))

prefix_of : (p post : Text) → is_prefix p (p ++ post) ≡ true
unfolding is_prefix
prefix_of [] post = refl
prefix_of (c ∷ p) post = ground (arith, prefix_of p post)

part_at : (p t : Text) → is_part p t ≡ true → Occurs p t
unfolding is_part
part_at p [] h = let found = prefix_at p [] h in ([], found.0, found.1)
part_at p (c ∷ t) h = elim (Bool-cases (is_prefix p (c ∷ t))) [
  | inl e ↦ let found = prefix_at p (c ∷ t) e in ([], found.0, found.1)
  | inr e ↦
      let found = part_at p t (ground arith) in
      (c ∷ found.0, found.1, ap (λ (x : Text). c ∷ x) found.2)
]

part_of : (pre p post : Text) → is_part p (pre ++ (p ++ post)) ≡ true
unfolding is_part
part_of [] [] [] = refl
part_of [] [] (c ∷ post) = refl
part_of [] (c ∷ p) post = ground (arith, prefix_of (c ∷ p) post)
part_of (c ∷ pre) p post = ground (arith, part_of pre p post)

-- Some character of the text is of the kind.
abbrev pub HasOne : (ℕ → Type 0) → Text → Type 0
HasOne Kind [] = ⊥
HasOne Kind (c ∷ text) = Kind c ⊎ HasOne Kind text

-- The four kinds of characters, by code point: A to Z, a to z, 0 to 9, and the punctuation of ASCII.
abbrev pub IsUpper : ℕ → Type 0
IsUpper c = (65 ≤ c) × (c ≤ 90)

abbrev pub IsLower : ℕ → Type 0
IsLower c = (97 ≤ c) × (c ≤ 122)

abbrev pub IsDigit : ℕ → Type 0
IsDigit c = (48 ≤ c) × (c ≤ 57)

abbrev pub IsPunctuation : ℕ → Type 0
IsPunctuation c =
    ((33 ≤ c) × (c ≤ 47)) ⊎ ((58 ≤ c) × (c ≤ 64)) ⊎ ((91 ≤ c) × (c ≤ 96)) ⊎ ((123 ≤ c) × (c ≤ 126))

-- Characters of at least three of the four kinds.
abbrev pub IsMixed : Text → Type 0
IsMixed t =
    (HasOne IsUpper t × HasOne IsLower t × HasOne IsDigit t)
    ⊎ (HasOne IsUpper t × HasOne IsLower t × HasOne IsPunctuation t)
    ⊎ (HasOne IsUpper t × HasOne IsDigit t × HasOne IsPunctuation t)
    ⊎ (HasOne IsLower t × HasOne IsDigit t × HasOne IsPunctuation t)

or_right : (b : Bool) → (b || true) ≡ true
or_right b = ground arith

any-HasOne :
    (test : ℕ → Bool) (Kind : ℕ → Type 0)
    → ((c : ℕ) → (test c ≡ true) ↔ Kind c)
    → (t : Text) → (any test t ≡ true) ↔ HasOne Kind t
unfolding any
any-HasOne test Kind h [] = (λ e. absurd (cc), λ f. elim f [ ])
any-HasOne test Kind h (c ∷ t) =
    let rest = any-HasOne test Kind h t in
    (
      λ e. elim (Bool-cases (test c)) [
        | inl here ↦ inl ((h c).0 here)
        | inr other ↦ inr (rest.0 (rw other at e))
      ],
      λ f. elim f [
        | inl here ↦ rw ((h c).1 here) refl
        | inr later ↦ rw (rest.1 later) (or_right (test c))
      ],
    )

HasUpper_iff : (t : Text) → (any is_upper t ≡ true) ↔ HasOne IsUpper t
HasUpper_iff t = any-HasOne is_upper IsUpper (λ c. (λ e. ground arith, λ k. ground arith)) t

HasLower_iff : (t : Text) → (any is_lower t ≡ true) ↔ HasOne IsLower t
HasLower_iff t = any-HasOne is_lower IsLower (λ c. (λ e. ground arith, λ k. ground arith)) t

HasDigit_iff : (t : Text) → (any is_digit t ≡ true) ↔ HasOne IsDigit t
HasDigit_iff t = any-HasOne is_digit IsDigit (λ c. (λ e. ground arith, λ k. ground arith)) t

special-IsPunctuation : (c : ℕ) → is_special c ≡ true → IsPunctuation c
unfolding has_char
special-IsPunctuation c e = ground arith

IsPunctuation-special : (c : ℕ) → IsPunctuation c → is_special c ≡ true
unfolding has_char
IsPunctuation-special c k = ground arith

HasPunctuation_iff : (t : Text) → (any is_special t ≡ true) ↔ HasOne IsPunctuation t
HasPunctuation_iff t =
    any-HasOne is_special IsPunctuation (λ c. (special-IsPunctuation c, IsPunctuation-special c)) t

three_of :
    (u l d s : Bool)
    → 3 ≤ one_if u + one_if l + one_if d + one_if s
    → ((u ≡ true) × (l ≡ true) × (d ≡ true))
      ⊎ ((u ≡ true) × (l ≡ true) × (s ≡ true))
      ⊎ ((u ≡ true) × (d ≡ true) × (s ≡ true))
      ⊎ ((l ≡ true) × (d ≡ true) × (s ≡ true))
three_of u l d s h = ground arith

categories-IsMixed : (t : Text) → 3 ≤ categories t → IsMixed t
unfolding categories
categories-IsMixed t h = elim (three_of _ _ _ _ h) [
  | inl (u, l, d) ↦ inl ((HasUpper_iff t).0 u, (HasLower_iff t).0 l, (HasDigit_iff t).0 d)
  | inr (inl (u, l, s)) ↦
      inr (inl ((HasUpper_iff t).0 u, (HasLower_iff t).0 l, (HasPunctuation_iff t).0 s))
  | inr (inr (inl (u, d, s))) ↦
      inr (inr (inl ((HasUpper_iff t).0 u, (HasDigit_iff t).0 d, (HasPunctuation_iff t).0 s)))
  | inr (inr (inr (l, d, s))) ↦
      inr (inr (inr ((HasLower_iff t).0 l, (HasDigit_iff t).0 d, (HasPunctuation_iff t).0 s)))
]

IsMixed-categories : (t : Text) → IsMixed t → 3 ≤ categories t
unfolding categories
IsMixed-categories t (inl (u, l, d)) =
    rw ((HasUpper_iff t).1 u, (HasLower_iff t).1 l, (HasDigit_iff t).1 d) (omega arith)
IsMixed-categories t (inr (inl (u, l, s))) =
    rw ((HasUpper_iff t).1 u, (HasLower_iff t).1 l, (HasPunctuation_iff t).1 s) (omega arith)
IsMixed-categories t (inr (inr (inl (u, d, s)))) =
    rw ((HasUpper_iff t).1 u, (HasDigit_iff t).1 d, (HasPunctuation_iff t).1 s) (ground arith)
IsMixed-categories t (inr (inr (inr (l, d, s)))) =
    rw ((HasLower_iff t).1 l, (HasDigit_iff t).1 d, (HasPunctuation_iff t).1 s) (ground arith)

-- What a password must be: long enough and not too long, of three of the four kinds of characters, and without
-- the user name up to case, if there is one.
pub record IsAcceptable (casefold : Text → Text) (password username : Text) : Type 0 where
  pub long : 10 ≤ length password
  pub short : length password ≤ 128
  pub mixed : IsMixed password
  pub private_name : (username ≡ []) ⊎ (¬ Occurs (casefold username) (casefold password))

given_or : (u : Text) → (u ≡ []) ⊎ (is_given u ≡ true)
given_or [] = inl refl
given_or (c ∷ u) = inr refl

Occurs-is_part : (p t : Text) → Occurs p t → is_part p t ≡ true
Occurs-is_part p t (pre, post, e) = rw e (part_of pre p post)

not_ltb : (a b : ℕ) → b ≤ a → ltb a b ≡ false
not_ltb a b h = ground arith

and_right : (a b : Bool) → (a && b) ≡ true → b ≡ true
and_right a b h = ground arith

named_given : (u p t : Text) → u ≡ [] → (is_given u && is_part p t) ≡ true → ⊥
named_given [] p t nameless h = cc
named_given (c ∷ u) p t nameless h = cc

-- The tests behind an empty list of violations.
accepted-tests :
    (long short simple named : Bool)
    → (if long
        then too_long ∷ []
        else when short too_short ++ when simple too_simple ++ when named contains_username)
      ≡ []
    → (long ≡ false) × (short ≡ false) × (simple ≡ false) × (named ≡ false)
accepted-tests long short simple named h = ground arith

-- validate_password gives no violation exactly when the password has 10 to 128 characters, has
-- characters of at least 3 of the 4 kinds (A to Z, a to z, 0 to 9, ASCII punctuation), and, where
-- there is a user name, does not contain it (both case-folded).
pub validate_password_iff :
    (casefold : Text → Text) (password username : Text)
    → (validate_password casefold password username ≡ []) ↔ IsAcceptable casefold password username
unfolding validate_password
validate_password_iff casefold password username = (accept, refuse)
  where
    accept :
        validate_password casefold password username ≡ [] → IsAcceptable casefold password username
    accept h =
        let (short, long, mixed, named) = accepted-tests _ _ _ _ h in
        record {
          long = ground arith;
          short = ground arith;
          mixed = categories-IsMixed password (ground arith);
          private_name = elim (given_or username) [
            | inl e ↦ inl e
            | inr given ↦ inr (λ occurs.
                let inside = Occurs-is_part (casefold username) (casefold password) occurs in
                ground arith)
          ];
        }

    refuse :
        IsAcceptable casefold password username → validate_password casefold password username ≡ []
    refuse h =
        elim (Bool-cases (is_given username && is_part (casefold username) (casefold password))) [
          | inr e ↦
              rw
                (
                  not_ltb 128 (length password) h.short,
                  not_ltb (length password) 10 h.long,
                  not_ltb (categories password) 3 (IsMixed-categories password h.mixed),
                  e,
                )
                refl
          | inl e ↦ absurd (elim h.private_name [
            | inl nameless ↦ named_given username (casefold username) (casefold password) nameless e
            | inr apart ↦ apart (part_at (casefold username) (casefold password) (and_right _ _ e))
          ])
        ]
