-- ===== src/Services.antt =====
-- src/solr-search/main.py: query_solr and _fetch_embedding, the calls of Solr and of the embeddings
-- server through their circuit breakers.
--
-- What a service does is an argument. The latencies that are noted for the metrics are left out.
mod Outage
mod Tests
use aithena.Base.{ℕ, ◌≡◌, Bool, true, false, ◌||◌, List, [], ◌∷◌, ◌==◌}
use aithena.Breaker.{
  CircuitBreaker, Outcome, returned, raised, Reply, result, reraised, circuit_open, Readings, call,
}

-- The exceptions of the two functions: requests.Timeout, other requests.RequestExceptions, an answer
-- that cannot be read (ValueError, and KeyError, TypeError or IndexError for embeddings), and others.
pub data Failure : Type 0 where
  timeout request_failed invalid_response unexpected : Failure

pub data Asked (A : Type 0) : Type 0 where
  gave : A → Asked A
  failed : Failure → Asked A

-- `expected_exceptions` of solr_circuit and of embeddings_circuit; for Solr, KeyError, TypeError and
-- IndexError are `unexpected`
abbrev pub is_expected : Failure → Bool
is_expected timeout = true
is_expected request_failed = true
is_expected invalid_response = true
is_expected unexpected = false

-- What the caller gets: a value, an HTTPException with a status, or another exception.
pub data Answer (A : Type 0) : Type 0 where
  value : A → Answer A
  http : ℕ → Answer A
  exception : Failure → Answer A

module _ {A : Type 0} where
  abbrev pub outcome_of : Asked A → Outcome A Failure
  outcome_of (gave a) = returned a
  outcome_of (failed e) = raised (is_expected e) e

  abbrev pub solr_answer : Reply A Failure → Answer A
  solr_answer (result a) = value a
  solr_answer (circuit_open remaining) = http 503
  solr_answer (reraised timeout) = http 504
  solr_answer (reraised request_failed) = http 502
  solr_answer (reraised invalid_response) = http 502
  solr_answer (reraised unexpected) = exception unexpected

  -- query_solr
  unfoldable pub query_solr : Asked A → Readings → CircuitBreaker → Answer A × CircuitBreaker
  query_solr asked times solr_circuit =
      let (reply, circuit) = call (outcome_of asked) times solr_circuit in
      (solr_answer reply, circuit)

  abbrev pub embedding_answer : Reply A Failure → Answer A
  embedding_answer (result a) = value a
  embedding_answer (circuit_open remaining) = http 503
  embedding_answer (reraised timeout) = http 504
  embedding_answer (reraised request_failed) = http 502
  embedding_answer (reraised invalid_response) = http 502
  embedding_answer (reraised unexpected) = http 502

  -- _fetch_embedding
  unfoldable pub fetch_embedding : Asked A → Readings → CircuitBreaker → Answer A × CircuitBreaker
  fetch_embedding asked times embeddings_circuit =
      let (reply, circuit) = call (outcome_of asked) times embeddings_circuit in
      (embedding_answer reply, circuit)

-- _should_degrade_to_keyword, of the status
abbrev pub should_degrade_to_keyword : ℕ → Bool
should_degrade_to_keyword status = status == 502 || status == 503 || status == 504
