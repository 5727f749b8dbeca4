-- ===== src/Password.antt =====
-- src/solr-search/password_policy.py.
--
-- A password and a user name are lists of code points. `str.casefold` is Unicode's table and is a
-- parameter.
pub mod Rules
mod Tests
use aithena.Base.{
  ℕ, ◌+◌, ◌≡◌, Bool, true, false, not, ◌&&◌, ◌||◌, List, [], ◌∷◌, ◌++◌, ltb, leb, ◌==◌,
  if◌then◌else◌, length, any,
}
use aithena.Base.Text.{Text, codes, has_char, is_prefix}

-- The violations, without their texts.
pub data Violation : Type 0 where
  too_long too_short too_simple contains_username : Violation

-- MIN_LENGTH, MAX_LENGTH and MIN_COMPLEXITY_CATEGORIES
abbrev pub min_length : ℕ
min_length = 10

abbrev pub max_length : ℕ
max_length = 128

abbrev pub min_complexity_categories : ℕ
min_complexity_categories = 3

-- _UPPER, _LOWER, _DIGIT and _SPECIAL
abbrev pub is_upper : ℕ → Bool
is_upper c = leb b'A' c && leb c b'Z'

abbrev pub is_lower : ℕ → Bool
is_lower c = leb b'a' c && leb c b'z'

abbrev pub is_digit : ℕ → Bool
is_digit c = leb b'0' c && leb c b'9'

abbrev pub special : Text
special = codes "!@#$%^&*()-_=+[]{}|;:'\",.<>?/~`\\"

abbrev pub is_special : ℕ → Bool
is_special c = has_char c special

-- an element of the list that `sum` adds up
abbrev pub one_if : Bool → ℕ
one_if true = 1
one_if false = 0

-- `categories`
unfoldable pub categories : Text → ℕ
categories password =
    one_if (any is_upper password)
    + one_if (any is_lower password)
    + one_if (any is_digit password)
    + one_if (any is_special password)

-- `part in text`
unfoldable pub is_part : Text → Text → Bool
unfolding is_prefix
is_part part [] = is_prefix part []
is_part part (c ∷ text) = is_prefix part (c ∷ text) || is_part part text

abbrev pub is_given : Text → Bool
is_given [] = false
is_given (c ∷ t) = true

abbrev pub when : Bool → Violation → List Violation
when true v = v ∷ []
when false v = []

-- validate_password
unfoldable pub validate_password : (Text → Text) → Text → Text → List Violation
validate_password casefold password username =
    if ltb max_length (length password)
    then too_long ∷ []
    else when (ltb (length password) min_length) too_short
      ++ when (ltb (categories password) min_complexity_categories) too_simple
      ++ when (is_given username && is_part (casefold username) (casefold password))
          contains_username
