-- ===== src/Services/Outage.antt =====
-- What searches see of an embeddings server that is down.
use aithena.Base.{
  ℕ, ◌+◌, ◌-◌, ◌<◌, ◌≡◌, refl, ap, ◌∙◌, Bool, true, false, List, [], ◌∷◌, map, All, length, arith,
  ltb,
}
use aithena.Breaker.{
  CircuitBreaker, closed, open_circuit, Outcome, raised, Reply, Readings, result, reraised,
  circuit_open, call,
}
use aithena.Breaker.Calls.{
  fail_all, fail_all-threshold, call_raised-any, call_all, call_all-refused,
}
use aithena.Services.{
  Failure, timeout, request_failed, invalid_response, unexpected, Asked, failed, Answer, http,
  is_expected, outcome_of, embedding_answer, fetch_embedding, should_degrade_to_keyword,
}

module _ {A : Type 0} where
  -- Fetches one after another.
  unfoldable pub fetch_all :
      List (Asked A × Readings) → CircuitBreaker → List (Answer A) × CircuitBreaker
  unfolding fetch_embedding
  fetch_all [] b = ([], b)
  fetch_all ((asked, times) ∷ fetches) b =
      let (answer, c) = fetch_embedding asked times b in
      let (answers, d) = fetch_all fetches c in (answer ∷ answers, d)

  abbrev calls_of : List (Asked A × Readings) → List (Outcome A Failure × Readings)
  calls_of = map (λ f. (outcome_of f.0, f.1))

  fetch_all-call_all :
      (fetches : List (Asked A × Readings)) (b : CircuitBreaker)
      → fetch_all fetches b ≡ (
        map embedding_answer (call_all (calls_of fetches) b).0,
        (call_all (calls_of fetches) b).1,
      )
  unfolding fetch_all fetch_embedding call_all
  fetch_all-call_all [] b = refl
  fetch_all-call_all ((asked, times) ∷ fetches) b =
      rw (fetch_all-call_all fetches (call (outcome_of asked) times b).1) refl

-- The breaker after fetches that all fail in one way.
abbrev pub after_failures : Type 0 → Failure → List Readings → CircuitBreaker → CircuitBreaker
after_failures A e ts b = (fetch_all {A = A} (map (λ t. (failed e, t)) ts) b).1

fetch_embedding-failed :
    (A : Type 0) (e : Failure) (t : Readings) (b : CircuitBreaker)
    → is_expected e ≡ true
    → (fetch_embedding {A = A} (failed e) t b).1 ≡ (call {A = Unit} (raised true e) t b).1
unfolding fetch_embedding
fetch_embedding-failed A e t b h =
    ap (λ (x : Bool). (call {A = A} (raised x e) t b).1) h ∙ call_raised-any A Unit e t b

after_failures-fail_all :
    (A : Type 0) (e : Failure) (ts : List Readings) (b : CircuitBreaker)
    → is_expected e ≡ true
    → after_failures A e ts b ≡ fail_all e ts b
unfolding fetch_all fetch_embedding fail_all
after_failures-fail_all A e [] b h = refl
after_failures-fail_all A e (t ∷ ts) b h =
    after_failures-fail_all A e ts (fetch_embedding {A = A} (failed e) t b).1 h
    ∙ ap (λ c. fail_all e ts c) (fetch_embedding-failed A e t b h)

-- However the embeddings server fails, the status makes a search fall back to keywords.
embedding_answer_degrades :
    {A : Type 0} (reply : Reply A Failure) (status : ℕ)
    → embedding_answer reply ≡ http status
    → should_degrade_to_keyword status ≡ true
embedding_answer_degrades (result a) status h = absurd (ground arith)
embedding_answer_degrades (circuit_open remaining) status h = ground arith
embedding_answer_degrades (reraised timeout) status h = ground arith
embedding_answer_degrades (reraised request_failed) status h = ground arith
embedding_answer_degrades (reraised invalid_response) status h = ground arith
embedding_answer_degrades (reraised unexpected) status h = ground arith

lt_self : (n m : ℕ) → n ≡ m → ltb n m ≡ false
lt_self n m h = ground arith

module _ {A : Type 0} where
  early_calls :
      (fetches : List (Asked A × Readings)) (b : CircuitBreaker)
      → All (λ f. f.1.promoted < b.opened_at + b.recovery_timeout) fetches
      → All (λ c. c.1.promoted < b.opened_at + b.recovery_timeout) (calls_of fetches)
  early_calls [] b h = tt
  early_calls (f ∷ fetches) b h = (h.0, early_calls fetches b h.1)

  all_unavailable :
      (fetches : List (Asked A × Readings)) (b : CircuitBreaker)
      → ◌≡◌ {A = List (Answer A) × CircuitBreaker}
          (
            map embedding_answer (
                map
                  (λ c. circuit_open (b.recovery_timeout + b.opened_at - c.1.elapsed))
                  (calls_of fetches)),
            b,
          )
          (map (λ f. http 503) fetches, b)
  all_unavailable [] b = refl
  all_unavailable (f ∷ fetches) b =
      ap (λ (p : List (Answer A) × CircuitBreaker). (http 503 ∷ p.0, p.1))
        (all_unavailable fetches b)

-- The embeddings server is spared while it is down: once as many fetches as the threshold failed in a
-- row with an expected exception, from a closed circuit that counts no failure, every fetch before
-- the recovery timeout is over is answered with 503, whatever the server would do, and leaves the
-- circuit as it is.
pub fetch_all-spared :
    (A : Type 0) (e : Failure) (ts : List Readings) (b : CircuitBreaker)
    (fetches : List (Asked A × Readings))
    → is_expected e ≡ true
    → b.state ≡ closed
    → b.failure_count ≡ 0
    → 0 < b.failure_threshold
    → length ts ≡ b.failure_threshold
    → All
        (λ f.
          f.1.promoted
          < (after_failures A e ts b).opened_at + (after_failures A e ts b).recovery_timeout)
        fetches
    → fetch_all fetches (after_failures A e ts b)
      ≡ (map (λ f. http 503) fetches, after_failures A e ts b)
fetch_all-spared A e ts b fetches known fresh none_yet pos full early =
    let down = after_failures A e ts b in
    let opened : down.state ≡ open_circuit = rw (after_failures-fail_all A e ts b known) (
      fail_all-threshold e ts b fresh none_yet pos (omega (arith, full))
      ∙ rw (lt_self (length ts) b.failure_threshold full) refl) in
    fetch_all-call_all fetches down
    ∙ rw (call_all-refused (calls_of fetches) down opened (early_calls fetches down early))
        (all_unavailable fetches down)
