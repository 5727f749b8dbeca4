-- ===== src/Breaker/Invariant.antt =====
-- The invariant of the breaker, kept under every interleaving of its atomic steps.
use aithena.Base.{ℕ, ◌<◌, ◌≡◌, refl, arith}
use aithena.Breaker.{
  CircuitState, closed, open_circuit, half_open, CircuitBreaker, init, maybe_promote,
  record_failure, record_success, reset,
}

abbrev pub Counts : CircuitState → CircuitBreaker → Type 0
Counts closed b = (b.failure_count < b.failure_threshold) × (b.success_count ≡ 0)
Counts open_circuit b = (0 < b.failure_count) × (b.success_count ≡ 0)
Counts half_open b = (0 < b.failure_count) × (b.success_count < b.success_threshold)

-- A closed breaker has fewer failures than would open it and no trial successes; an open or
-- half-open one has failed, and in a trial the successes do not yet suffice.
pub record IsValid (b : CircuitBreaker) : Type 0 where
  pub can_trip : 0 < b.failure_threshold
  pub can_close : 0 < b.success_threshold
  pub counts : Counts b.state b

-- One atomic step by some thread. Reports may come in any state, since calls overlap.
pub data Step (b : CircuitBreaker) : CircuitBreaker → Type 0 where
  promote : (now : ℕ) → Step b (maybe_promote now b)
  failure : (now later : ℕ) → Step b (record_failure now later b)
  success : Step b (record_success b)
  manual_reset : Step b (reset b)

pub data Reach (b : CircuitBreaker) : CircuitBreaker → Type 0 where
  here : Reach b b
  next : {c d : CircuitBreaker} → Reach b c → Step c d → Reach b d

init-IsValid : (f r s : ℕ) → 0 < f → 0 < s → IsValid (init f r s)
unfolding init
init-IsValid f r s hf hs = record { can_trip = hf; can_close = hs; counts = (hf, refl) }

pub maybe_promote-IsValid :
    (now : ℕ) (b : CircuitBreaker) → IsValid b → IsValid (maybe_promote now b)
unfolding maybe_promote
maybe_promote-IsValid now b h = ground arith

pub record_failure-IsValid :
    (now later : ℕ) (b : CircuitBreaker) → IsValid b → IsValid (record_failure now later b)
unfolding record_failure
record_failure-IsValid now later b h = ground arith

pub record_success-IsValid : (b : CircuitBreaker) → IsValid b → IsValid (record_success b)
unfolding record_success
record_success-IsValid b h = ground arith

reset-IsValid : (b : CircuitBreaker) → IsValid b → IsValid (reset b)
unfolding reset
reset-IsValid b h = ground arith

Step-IsValid : {b c : CircuitBreaker} → Step b c → IsValid b → IsValid c
Step-IsValid {b} (promote now) h = maybe_promote-IsValid now b h
Step-IsValid {b} (failure now later) h = record_failure-IsValid now later b h
Step-IsValid {b} success h = record_success-IsValid b h
Step-IsValid {b} manual_reset h = reset-IsValid b h

Reach-keeps : {b c : CircuitBreaker} → Reach b c → IsValid b → IsValid c
Reach-keeps here h = h
Reach-keeps (next r s) h = Step-IsValid s (Reach-keeps r h)

-- From a new breaker with positive thresholds, every interleaving of promotions, failure reports,
-- success reports and resets leads to a valid state: when closed, the failure count is below the
-- threshold and the success count is 0; when open, there was a failure and the success count is 0;
-- when half-open, there was a failure and the success count is below its threshold.
pub Reach-IsValid :
    (f r s : ℕ) {b : CircuitBreaker} → 0 < f → 0 < s → Reach (init f r s) b → IsValid b
Reach-IsValid f r s hf hs reach = Reach-keeps reach (init-IsValid f r s hf hs)
