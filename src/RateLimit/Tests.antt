-- ===== src/RateLimit/Tests.antt =====
-- The rate limiter at concrete inputs.
use aithena.Base.{ℕ, ◌≡◌, refl, ◌≤◌, List, [], ◌∷◌, Bool, true, false, arith}
use aithena.RateLimit.{init}
use aithena.RateLimit.Window.{Request, answers, reference}
use aithena.RateLimit.Reference.{is_allowed-follows}

abbrev visits : List Request
visits = ("a", 1) ∷ ("a", 2) ∷ ("b", 2) ∷ ("a", 3) ∷ ("a", 12) ∷ []

limited : answers visits (init 2 10) ≡ true ∷ true ∷ true ∷ false ∷ true ∷ []
unfolding answers aithena.RateLimit.is_allowed aithena.Base.Dict.lookup aithena.Base.Dict.insert
limited = refl

is_allowed-follows_example : answers visits (init 2 10) ≡ reference 2 10 visits []
is_allowed-follows_example =
    is_allowed-follows 2 10 visits
      (omega arith, (omega arith, (omega arith, (omega arith, (omega arith, tt)))))
