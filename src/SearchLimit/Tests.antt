-- ===== src/SearchLimit/Tests.antt =====
-- The limit on searches at concrete inputs: two a minute, in a clock of ten units a second.
use aithena.Base.{ℕ, ◌≡◌, refl, true, false, none, some, List, [], ◌∷◌, arith}
use aithena.Base.Text.{codes, strip, is_space, text_eq}
use aithena.SearchLimit.{Request, Answers, nobody, get_client_ip, check_rate_limit}
use aithena.SearchLimit.Within.{check_all, AreOthers}
use aithena.SearchLimit.Retry.{check_rate_limit-retry}

abbrev asking : ℕ → Request
asking id = record { forwarded = some (codes " 1.2.3.4, 5.6.7.8"); host = none; id = id }

abbrev well : Answers
well = record { counts = true; shows_oldest = true; records = true }

abbrev before : List (Answers × Request × ℕ)
before = (well, asking 1, 1000) ∷ (well, asking 2, 1105) ∷ []

refused :
    (check_rate_limit 10 2 well (asking 3) 1203 (check_all 10 2 before nobody)).0 ≡ (false, 40)
unfolding check_rate_limit check_all text_eq strip is_space
refused = refl

-- Two requests of another client, the second of them at the time of the retry.
abbrev other_client : Request
other_client = record { forwarded = none; host = some (codes "9.9.9.9"); id = 5 }

abbrev between : List (Answers × Request × ℕ)
between = (well, other_client, 1204) ∷ (well, other_client, 1603) ∷ []

are_others : AreOthers (get_client_ip (asking 3)) between
unfolding get_client_ip strip is_space
are_others = (λ e. cc, (λ e. cc, tt))

check_rate_limit-retry_example :
    let refused = check_rate_limit 10 2 well (asking 3) 1203 (check_all 10 2 before nobody) in
    (check_rate_limit 10 2 well (asking 4) 1603 (check_all 10 2 between refused.1)).0 ≡ (true, 0)
unfolding get_client_ip
check_rate_limit-retry_example =
    check_rate_limit-retry 10 2 before between well well (asking 3) (asking 4) 1203 1603 40
      (omega arith) are_others refl refused (omega arith)
