-- ===== src/Breaker.antt =====
-- src/solr-search/circuit_breaker.py: the three-state circuit breaker.
--
-- Clock readings (`time.monotonic()`) are arguments, in ticks, one for each reading. The breaker's
-- lock is held for each of `maybe_promote` + test, `record_failure`, `record_success`, `reset`, and
-- is free while the wrapped function runs, so each of these is one atomic step. Log calls are left
-- out. `failure_threshold`, `success_threshold` and `recovery_timeout` are natural numbers.
pub mod Invariant
pub mod Calls
mod Tests
use aithena.Base.{
  ℕ, ◌+◌, ◌-◌, ◌≤◌, ◌<◌, ◌≡◌, Bool, true, false, List, [], ◌∷◌, ltb, leb, ◌==◌, if◌then◌else◌,
}

-- CircuitState
pub data CircuitState : Type 0 where
  closed open_circuit half_open : CircuitState

-- The fields of CircuitBreaker; `name` is used in messages alone.
pub record CircuitBreaker : Type 0 where
  pub failure_threshold : ℕ
  pub recovery_timeout : ℕ
  pub success_threshold : ℕ
  pub state : CircuitState
  pub failure_count : ℕ
  pub success_count : ℕ
  pub last_failure_time : ℕ
  pub opened_at : ℕ

-- CircuitBreaker.__init__
pub init : ℕ → ℕ → ℕ → CircuitBreaker
init failure_threshold recovery_timeout success_threshold = record {
  failure_threshold = failure_threshold;
  recovery_timeout = recovery_timeout;
  success_threshold = success_threshold;
  state = closed;
  failure_count = 0;
  success_count = 0;
  last_failure_time = 0;
  opened_at = 0;
}

abbrev pub is_open : CircuitState → Bool
is_open closed = false
is_open open_circuit = true
is_open half_open = false

-- `now - opened_at >= recovery_timeout`, with nothing subtracted
abbrev pub timed_out : CircuitBreaker → ℕ → Bool
timed_out b now = leb (b.opened_at + b.recovery_timeout) now

abbrev promote : CircuitState → ℕ → CircuitBreaker → CircuitBreaker
promote closed now b = b
promote open_circuit now b =
    if timed_out b now then record b { state = half_open; success_count = 0 } else b
promote half_open now b = b

-- _maybe_promote
unfoldable pub maybe_promote : ℕ → CircuitBreaker → CircuitBreaker
maybe_promote now b = promote b.state now b

-- _transition_to_open
unfoldable pub transition_to_open : ℕ → CircuitBreaker → CircuitBreaker
transition_to_open now b = record b { state = open_circuit; opened_at = now; success_count = 0 }

-- whether a failure, already counted, opens the circuit
abbrev opens : CircuitState → CircuitBreaker → Bool
opens closed b = leb b.failure_threshold b.failure_count
opens open_circuit b = false
opens half_open b = true

-- _record_failure; `now` is read for `last_failure_time`, `later` on opening
unfoldable pub record_failure : ℕ → ℕ → CircuitBreaker → CircuitBreaker
unfolding transition_to_open
record_failure now later b =
    let counted : CircuitBreaker = record b {
      failure_count = b.failure_count + 1;
      last_failure_time = now;
    } in
    if opens b.state counted then transition_to_open later counted else counted

abbrev note_success : CircuitState → CircuitBreaker → CircuitBreaker
note_success closed b = record b { failure_count = 0 }
note_success open_circuit b = b
note_success half_open b =
    if leb b.success_threshold (b.success_count + 1)
    then record b { state = closed; failure_count = 0; success_count = 0 }
    else record b { success_count = b.success_count + 1 }

-- _record_success
unfoldable pub record_success : CircuitBreaker → CircuitBreaker
record_success b = note_success b.state b

-- reset
pub reset : CircuitBreaker → CircuitBreaker
reset b = record b { state = closed; failure_count = 0; success_count = 0 }

-- The property `state`: promotes, then reads.
pub read_state : ℕ → CircuitBreaker → CircuitState × CircuitBreaker
unfolding maybe_promote
read_state now b = ((maybe_promote now b).state, maybe_promote now b)

-- The counters and settings that get_status reports, after promoting.
pub record Status : Type 0 where
  pub state : CircuitState
  pub failure_count : ℕ
  pub failure_threshold : ℕ
  pub recovery_timeout_seconds : ℕ
  pub success_threshold : ℕ

-- get_status
pub get_status : ℕ → CircuitBreaker → Status × CircuitBreaker
unfolding maybe_promote
get_status now b =
    let b' = maybe_promote now b in
    (
      record {
        state = b'.state;
        failure_count = b'.failure_count;
        failure_threshold = b'.failure_threshold;
        recovery_timeout_seconds = b'.recovery_timeout;
        success_threshold = b'.success_threshold;
      },
      b',
    )

-- How the wrapped function ended: a result, or an exception that is in `expected_exceptions` or not.
pub data Outcome (A E : Type 0) : Type 0 where
  returned : A → Outcome A E
  raised : Bool → E → Outcome A E

-- What `call` gives: the result, the function's exception again, or CircuitOpenError with the
-- remaining time (the subtraction stops at 0, as `max(…, 0.0)` does).
pub data Reply (A E : Type 0) : Type 0 where
  result : A → Reply A E
  reraised : E → Reply A E
  circuit_open : ℕ → Reply A E

-- The clock readings of one call, in the order in which they are made.
pub record Readings : Type 0 where
  pub promoted : ℕ
  pub elapsed : ℕ
  pub failed : ℕ
  pub reopened : ℕ

-- the part of `call` after the lock is released
unfoldable pub report :
    {A E : Type 0} → Outcome A E → ℕ → ℕ → CircuitBreaker → Reply A E × CircuitBreaker
unfolding record_failure record_success
report (returned a) now later b = (result a, record_success b)
report (raised true e) now later b = (reraised e, record_failure now later b)
report (raised false e) now later b = (reraised e, b)

-- call, where no other thread reports while the function runs; the function is not run where the
-- outcome is not read
unfoldable pub call :
    {A E : Type 0} → Outcome A E → Readings → CircuitBreaker → Reply A E × CircuitBreaker
unfolding maybe_promote report
call outcome times b =
    let b' = maybe_promote times.promoted b in
    if is_open b'.state
    then (circuit_open (b'.recovery_timeout + b'.opened_at - times.elapsed), b')
    else report outcome times.failed times.reopened b'
