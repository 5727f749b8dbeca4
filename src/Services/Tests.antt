-- ===== src/Services/Tests.antt =====
-- Calls of the services at concrete inputs.
use aithena.Base.{ℕ, ◌≡◌, refl, [], ◌∷◌, arith}
use aithena.Breaker.{CircuitBreaker, closed, Readings}
use aithena.Services.{timeout, gave, http}
use aithena.Services.Outage.{fetch_all, after_failures, fetch_all-spared}

abbrev at : ℕ → Readings
at t = record { promoted = t; elapsed = t; failed = t; reopened = t }

abbrev circuit : CircuitBreaker
circuit = record {
  failure_threshold = 2;
  recovery_timeout = 30;
  success_threshold = 1;
  state = closed;
  failure_count = 0;
  success_count = 0;
  last_failure_time = 0;
  opened_at = 0;
}

-- Two timeouts, then two fetches that would succeed.
abbrev down : CircuitBreaker
down = after_failures ℕ timeout (at 10 ∷ at 11 ∷ []) circuit

fetch_all-spared_example :
    fetch_all {A = ℕ} ((gave 7, at 20) ∷ (gave 7, at 40) ∷ []) down
    ≡ (http 503 ∷ http 503 ∷ [], down)
unfolding fetch_all aithena.Breaker.call
fetch_all-spared_example =
    fetch_all-spared ℕ timeout (at 10 ∷ at 11 ∷ []) circuit ((gave 7, at 20) ∷ (gave 7, at 40) ∷ [])
      refl refl refl (omega arith) refl (omega arith, (omega arith, tt))
