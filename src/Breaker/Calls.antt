-- ===== src/Breaker/Calls.antt =====
-- Sequences of calls: when the breaker opens, what it refuses, how it recovers.
use aithena.Base.{
  ◌+◌, ◌-◌, ◌≤◌, ◌<◌, ◌≡◌, refl, ◌⊎◌, ◌↔◌, inl, inr, Bool, true, false, map, All, List, [], ◌∷◌,
  length, arith, Bool-cases, ltb, if◌then◌else◌,
}
use aithena.Breaker.{
  closed, open_circuit, half_open, CircuitBreaker, Outcome, returned, raised, Reply, Reply, result,
  reraised, circuit_open, Readings, record_failure, call,
}

-- Calls that all fail with an expected exception, one after the other.
unfoldable pub fail_all : {E : Type 0} → E → List Readings → CircuitBreaker → CircuitBreaker
fail_all e [] b = b
fail_all e (t ∷ ts) b = fail_all e ts (call {A = Unit} (raised true e) t b).1

-- Calls that all return.
pub succeed_all : {A : Type 0} → A → List Readings → CircuitBreaker → CircuitBreaker
succeed_all a [] b = b
succeed_all a (t ∷ ts) b = succeed_all a ts (call {E = Unit} (returned a) t b).1

fail_all_below :
    {E : Type 0} (e : E) (ts : List Readings) (b : CircuitBreaker)
    → b.state ≡ closed
    → b.failure_count + length ts < b.failure_threshold
    → ((fail_all e ts b).state ≡ closed)
      × ((fail_all e ts b).failure_count ≡ b.failure_count + length ts)
unfolding fail_all call record_failure
fail_all_below e [] b h room = (h, omega arith)
fail_all_below e (t ∷ ts) b h room =
    ground (arith, fail_all_below e ts (call {A = Unit} (raised true e) t b).1)

fail_all_at :
    {E : Type 0} (e : E) (ts : List Readings) (b : CircuitBreaker)
    → b.state ≡ closed
    → b.failure_count < b.failure_threshold
    → b.failure_count + length ts ≡ b.failure_threshold
    → (fail_all e ts b).state ≡ open_circuit
unfolding fail_all call record_failure
fail_all_at e [] b h room full = absurd (omega arith)
fail_all_at e (t ∷ []) b h room full = ground arith
fail_all_at e (t ∷ u ∷ ts) b h room full =
    ground (arith, fail_all_at e (u ∷ ts) (call {A = Unit} (raised true e) t b).1)

-- From a closed breaker with no failure counted and a positive threshold, a run of consecutive
-- calls that raise expected exceptions, no longer than the threshold, leaves the breaker closed if
-- it is shorter than the threshold and open if it is as long.
pub fail_all-threshold :
    {E : Type 0} (e : E) (ts : List Readings) (b : CircuitBreaker)
    → b.state ≡ closed
    → b.failure_count ≡ 0
    → 0 < b.failure_threshold
    → length ts ≤ b.failure_threshold
    → (fail_all e ts b).state
      ≡ (if ltb (length ts) b.failure_threshold then closed else open_circuit)
fail_all-threshold e ts b h none_yet pos fits =
    elim (Bool-cases (ltb (length ts) b.failure_threshold)) [
      | inl short ↦ rw short (fail_all_below e ts b h (ground arith)).0
      | inr exact ↦ rw exact (fail_all_at e ts b h (omega arith) (ground arith))
    ]

-- What a failing call does to the breaker does not depend on the type of its results.
pub call_raised-any :
    (A B : Type 0) {E : Type 0} (e : E) (t : Readings) (b : CircuitBreaker)
    → (call {A = A} (raised true e) t b).1 ≡ (call {A = B} (raised true e) t b).1
unfolding call
call_raised-any A B e t b = ground arith

abbrev pub is_refused : {A E : Type 0} → Reply A E → Bool
is_refused (result a) = false
is_refused (reraised e) = false
is_refused (circuit_open remaining) = true

-- A call is refused with CircuitOpenError exactly when the breaker is open and the first reading
-- comes before its timeout, whatever the function would do.
pub call-refused_iff :
    {A E : Type 0} (o : Outcome A E) (t : Readings) (b : CircuitBreaker)
    → (is_refused (call o t b).0 ≡ true)
      ↔ ((b.state ≡ open_circuit) × (t.promoted < b.opened_at + b.recovery_timeout))
unfolding call
call-refused_iff (returned a) t b = ground arith
call-refused_iff (raised true e) t b = ground arith
call-refused_iff (raised false e) t b = ground arith

-- Calls one after the other, with what they reply.
unfoldable pub call_all :
    {A E : Type 0}
    → List (Outcome A E × Readings)
    → CircuitBreaker
    → List (Reply A E) × CircuitBreaker
call_all [] b = ([], b)
call_all ((o, t) ∷ calls) b =
    let (r, b') = call o t b in let (rs, c) = call_all calls b' in (r ∷ rs, c)

call_early :
    {A E : Type 0} (o : Outcome A E) (t : Readings) (b : CircuitBreaker)
    → b.state ≡ open_circuit
    → t.promoted < b.opened_at + b.recovery_timeout
    → call o t b ≡ (circuit_open (b.recovery_timeout + b.opened_at - t.elapsed), b)
unfolding call
call_early o t b h early = ground arith

-- While an open breaker's timeout runs, any number of calls, whatever their functions would do, are
-- all refused with the time that is left at each, and no field of the breaker changes.
pub call_all-refused :
    {A E : Type 0} (calls : List (Outcome A E × Readings)) (b : CircuitBreaker)
    → b.state ≡ open_circuit
    → All (λ c. c.1.promoted < b.opened_at + b.recovery_timeout) calls
    → call_all calls b
      ≡ (map (λ c. circuit_open (b.recovery_timeout + b.opened_at - c.1.elapsed)) calls, b)
unfolding call_all
call_all-refused [] b h early = refl
call_all-refused ((o, t) ∷ calls) b h early =
    rw (call_early o t b h early.0) (cc (call_all-refused calls b h early.1))

-- A call that is let through a breaker in trial (open past its timeout, or half-open) and raises an
-- expected exception opens it again: the timeout runs anew from the second reading, the failure is
-- counted, and the caller gets the function's own exception.
pub call_reopens :
    {A E : Type 0} (e : E) (t : Readings) (b : CircuitBreaker)
    → ((b.state ≡ open_circuit) × (b.opened_at + b.recovery_timeout ≤ t.promoted))
      ⊎ (b.state ≡ half_open)
    → let (r, c) = call {A = A} (raised true e) t b in
      (r ≡ reraised e)
      × (c.state ≡ open_circuit)
      × (c.opened_at ≡ t.reopened)
      × (c.success_count ≡ 0)
      × (c.failure_count ≡ b.failure_count + 1)
unfolding call
call_reopens e t b (inl h) = ground arith
call_reopens e t b (inr h) = ground arith

succeed_half_open :
    {A : Type 0} (a : A) (ts : List Readings) (b : CircuitBreaker)
    → b.state ≡ half_open
    → b.success_count < b.success_threshold
    → b.success_count + length ts ≡ b.success_threshold
    → ((succeed_all a ts b).state ≡ closed) × ((succeed_all a ts b).failure_count ≡ 0)
unfolding succeed_all call
succeed_half_open a [] b h room full = absurd (omega arith)
succeed_half_open a (t ∷ []) b h room full = ground arith
succeed_half_open a (t ∷ u ∷ ts) b h room full =
    ground (arith, succeed_half_open a (u ∷ ts) (call {E = Unit} (returned a) t b).1)

-- An open breaker recovers: if the first of `success_threshold` successful calls (at least one)
-- comes after the timeout, then after the last of them the breaker is closed with no failure
-- counted. No bound on the times of the later calls is needed.
pub succeed_all-recovers :
    {A : Type 0} (a : A) (t : Readings) (ts : List Readings) (b : CircuitBreaker)
    → b.state ≡ open_circuit
    → b.opened_at + b.recovery_timeout ≤ t.promoted
    → length (t ∷ ts) ≡ b.success_threshold
    → ((succeed_all a (t ∷ ts) b).state ≡ closed) × ((succeed_all a (t ∷ ts) b).failure_count ≡ 0)
unfolding succeed_all call
succeed_all-recovers a t [] b h late full = ground arith
succeed_all-recovers a t (u ∷ ts) b h late full =
    ground (arith, succeed_half_open a (u ∷ ts) (call {E = Unit} (returned a) t b).1)
