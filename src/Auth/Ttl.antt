-- ===== src/Auth/Ttl.antt =====
-- Reading a time to live.
use aithena.Base.{
  ℕ, zero, suc, ◌+◌, ◌*◌, ◌/◌, ◌%◌, ◌≤◌, ◌<◌, ◌≡◌, refl, ap, ◌∙◌, inl, inr, true, false, ◌&&◌,
  Option, some, [], ◌∷◌, All, All-map, arith, ◌==◌, leb, ltb, if◌then◌else◌, Bool-cases,
}
use aithena.Base.Text.{Text, is_space, strip, lower}
use aithena.Indexer.{digits}
use aithena.Auth.{
  ok, err, not_positive, multiplier, read_value, starts_with_digit, positive, parse_ttl_to_seconds,
}
use aithena.Auth.Laws.{DecimalLaws, strip-NoSpace}

-- A character that neither `strip` nor `lower` changes.
abbrev IsPlain : ℕ → Type 0
IsPlain c = (is_space c ≡ false) × ((leb b'A' c && leb c b'Z') ≡ false)

digit-IsPlain : (d : ℕ) → d < 10 → IsPlain (48 + d)
unfolding is_space
digit-IsPlain d h = (ground arith, ground arith)

digits-IsPlain : (fuel n : ℕ) (rest : Text) → All IsPlain rest → All IsPlain (digits fuel n rest)
unfolding digits
digits-IsPlain zero n rest h = (digit-IsPlain (n % 10) (omega arith), h)
digits-IsPlain (suc fuel) n rest h =
    let last = digit-IsPlain (n % 10) (omega arith) in
    elim (Bool-cases (ltb n 10)) [
      | inl e ↦ rw e (last, h)
      | inr e ↦ rw e (digits-IsPlain fuel (n / 10) ((48 + n % 10) ∷ rest) (last, h))
    ]

IsPlain-strip : (text : Text) → All IsPlain text → strip text ≡ text
IsPlain-strip text h =
    strip-NoSpace text (All-map IsPlain (λ c. is_space c ≡ false) (λ c p. p.0) text h)

IsPlain-lower : (text : Text) → All IsPlain text → lower text ≡ text
unfolding lower
IsPlain-lower [] h = refl
IsPlain-lower (c ∷ text) h = rw h.0.1 (ap (λ t. c ∷ t) (IsPlain-lower text h.1))

-- The units of a time to live: how each is written and how many seconds it has.
pub data TimeUnit : Type 0 where
  bare seconds minutes hours days : TimeUnit

abbrev pub letter_of : TimeUnit → Text
letter_of bare = []
letter_of seconds = b's' ∷ []
letter_of minutes = b'm' ∷ []
letter_of hours = b'h' ∷ []
letter_of days = b'd' ∷ []

abbrev pub seconds_of : TimeUnit → ℕ
seconds_of bare = 1
seconds_of seconds = 1
seconds_of minutes = 60
seconds_of hours = 3600
seconds_of days = 86400

multiplier-letter_of : (unit : TimeUnit) → multiplier (letter_of unit) ≡ some (seconds_of unit)
multiplier-letter_of bare = refl
multiplier-letter_of seconds = refl
multiplier-letter_of minutes = refl
multiplier-letter_of hours = refl
multiplier-letter_of days = refl

multiplier-IsPlain : (unit : Text) (m : ℕ) → multiplier unit ≡ some m → All IsPlain unit
unfolding is_space
multiplier-IsPlain [] m h = tt
multiplier-IsPlain (c ∷ []) m h = ((ground arith, ground arith), tt)
multiplier-IsPlain (c ∷ d ∷ text) m h = absurd (ground arith)

multiplier_positive : (unit : Text) (m : ℕ) → multiplier unit ≡ some m → 0 < m
multiplier_positive [] m h = ground arith
multiplier_positive (c ∷ []) m h = ground arith
multiplier_positive (c ∷ d ∷ text) m h = absurd (ground arith)

module _ (decimal : ℕ → Option ℕ) (laws : DecimalLaws decimal) where
  read_value-digit :
      (value n : ℕ) (rest : Text)
      → read_value decimal value ((48 + n % 10) ∷ rest)
        ≡ read_value decimal (value * 10 + n % 10) rest
  unfolding read_value
  read_value-digit value n rest = rw (laws.digit (n % 10) (omega arith), read_value) refl

  read_value-digits :
      (fuel n : ℕ) (rest : Text)
      → n ≤ fuel
      → read_value decimal 0 (digits fuel n rest) ≡ read_value decimal n rest
  unfolding digits
  read_value-digits zero n rest h =
      read_value-digit 0 n rest ∙ ap (λ v. read_value decimal v rest) (omega arith)
  read_value-digits (suc fuel) n rest h = elim (Bool-cases (ltb n 10)) [
    | inl e ↦ rw e (read_value-digit 0 n rest ∙ ap (λ v. read_value decimal v rest) (ground arith))
    | inr e ↦ rw e (
        read_value-digits fuel (n / 10) ((48 + n % 10) ∷ rest) (ground arith)
        ∙ (read_value-digit (n / 10) n rest ∙ ap (λ v. read_value decimal v rest) (omega arith)))
  ]

  starts_with_digit-digits :
      (fuel n : ℕ) (rest : Text) → starts_with_digit decimal (digits fuel n rest) ≡ true
  unfolding digits
  starts_with_digit-digits zero n rest = rw (laws.digit (n % 10) (omega arith)) refl
  starts_with_digit-digits (suc fuel) n rest = elim (Bool-cases (ltb n 10)) [
    | inl e ↦ rw e (rw (laws.digit (n % 10) (omega arith)) refl)
    | inr e ↦ rw e (starts_with_digit-digits fuel (n / 10) ((48 + n % 10) ∷ rest))
  ]

  read_value-unit :
      (n : ℕ) (unit : Text) (m : ℕ)
      → multiplier unit ≡ some m
      → read_value decimal n unit ≡ (n, unit)
  unfolding read_value
  read_value-unit n [] m h = refl
  read_value-unit n (c ∷ []) m h = rw (laws.letter c (ground arith), read_value) refl
  read_value-unit n (c ∷ d ∷ text) m h = absurd (ground arith)

  positive-given : (k : ℕ) → 0 < k → positive decimal k ≡ ok k
  positive-given zero h = absurd (omega (arith, h))
  positive-given (suc k) h = refl

  positive-seconds :
      (n m : ℕ)
      → 0 < m
      → positive decimal (n * m) ≡ (if n == 0 then err not_positive else ok (n * m))
  positive-seconds zero m h = let none : 0 * m ≡ 0 = omega arith in rw none refl
  positive-seconds (suc n) m h =
      let given : (suc n == 0) ≡ false = ground arith in
      rw given (positive-given (suc n * m) (omega arith))

  seconds-text :
      (n : ℕ) (unit : Text) (m : ℕ)
      → multiplier unit ≡ some m
      → parse_ttl_to_seconds decimal (digits n n unit)
        ≡ (if n == 0 then err not_positive else ok (n * m))
  unfolding parse_ttl_to_seconds
  seconds-text n unit m h =
      let plain = digits-IsPlain n n unit (multiplier-IsPlain unit m h) in
      rw (IsPlain-strip (digits n n unit) plain) (
        rw (IsPlain-lower (digits n n unit) plain) (
          rw (starts_with_digit-digits n n unit) (
            rw (read_value-digits n n unit (omega arith)) (
              rw (read_value-unit n unit m h)
                (rw h (positive-seconds n m (multiplier_positive unit m h)))))))

  -- The decimal digits of a number, then "s", "m", "h", "d" or nothing, are read as that number times
  -- 1, 60, 3600, 86400 or 1; 0 is refused.
  pub parse_ttl_to_seconds-digits :
      (n : ℕ) (unit : TimeUnit)
      → parse_ttl_to_seconds decimal (digits n n (letter_of unit))
        ≡ (if n == 0 then err not_positive else ok (n * seconds_of unit))
  parse_ttl_to_seconds-digits n unit =
      seconds-text n (letter_of unit) (seconds_of unit) (multiplier-letter_of unit)
