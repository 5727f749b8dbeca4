-- ===== src/Breaker/Tests.antt =====
-- The breaker at concrete inputs.
use aithena.Base.{ℕ, ◌≡◌, refl, [], ◌∷◌, arith}
use aithena.Breaker.{CircuitBreaker, closed, open_circuit, init, record_failure, Readings}
use aithena.Breaker.Invariant.{IsValid, here, next, failure, Reach-IsValid}
use aithena.Breaker.Calls.{succeed_all, succeed_all-recovers}

abbrev at : ℕ → Readings
at n = record { promoted = n; elapsed = n; failed = n; reopened = n }

abbrev fresh : CircuitBreaker
fresh = init 2 30 1

abbrev tripped : CircuitBreaker
tripped = record {
  failure_threshold = 2;
  recovery_timeout = 30;
  success_threshold = 2;
  state = open_circuit;
  failure_count = 2;
  success_count = 0;
  last_failure_time = 10;
  opened_at = 10;
}

two_failures : (record_failure 5 5 (record_failure 3 3 fresh)).state ≡ open_circuit
unfolding record_failure init
two_failures = refl

Reach-IsValid_example : IsValid (record_failure 5 5 (record_failure 3 3 (init 2 30 1)))
Reach-IsValid_example =
    Reach-IsValid 2 30 1 (omega arith) (omega arith) (next (next here (failure 3 3)) (failure 5 5))

succeed_all-recovers_example :
    ((succeed_all {A = ℕ} 1 (at 40 ∷ at 41 ∷ []) tripped).state ≡ closed)
    × ((succeed_all {A = ℕ} 1 (at 40 ∷ at 41 ∷ []) tripped).failure_count ≡ 0)
succeed_all-recovers_example =
    succeed_all-recovers 1 (at 40) (at 41 ∷ []) tripped refl (omega arith) refl
