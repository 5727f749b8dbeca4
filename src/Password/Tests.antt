-- ===== src/Password/Tests.antt =====
-- The password policy at concrete inputs, with a casefold that leaves texts as they are.
use aithena.Base.{◌≡◌, ◌↔◌, refl, List, [], ◌∷◌, ℕ}
use aithena.Base.Text.{Text, codes}
use aithena.Password.{validate_password, too_short, too_simple, contains_username, special}
use aithena.Password.Rules.{IsAcceptable, validate_password_iff}

special_codes :
    special
    ≡ 33 ∷ 64 ∷ 35 ∷ 36 ∷ 37 ∷ 94 ∷ 38 ∷ 42 ∷ 40 ∷ 41 ∷ 45 ∷ 95 ∷ 61 ∷ 43 ∷ 91 ∷ 93 ∷ 123 ∷ 125
      ∷ 124 ∷ 59 ∷ 58 ∷ 39 ∷ 34 ∷ 44 ∷ 46 ∷ 60 ∷ 62 ∷ 63 ∷ 47 ∷ 126 ∷ 96 ∷ 92 ∷ []
special_codes = refl

all_wrong :
    validate_password (λ t. t) (codes "xyann") (codes "ann")
    ≡ too_short ∷ too_simple ∷ contains_username ∷ []
unfolding validate_password aithena.Password.categories aithena.Password.is_part aithena.Base.any
    aithena.Base.Text.has_char
all_wrong = refl

validate_password_iff_example :
    (validate_password (λ t. t) (codes "Correct-Horse-7") (codes "ann") ≡ [])
    ↔ IsAcceptable (λ t. t) (codes "Correct-Horse-7") (codes "ann")
validate_password_iff_example =
    validate_password_iff (λ t. t) (codes "Correct-Horse-7") (codes "ann")
