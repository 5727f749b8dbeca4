-- ===== src/Indexer/Startup.antt =====
-- wait_for_solr_collection of src/document-indexer/document_indexer/__main__.py.
use aithena.Base.{
  ℕ, zero, suc, ◌+◌, ◌-◌, ◌<◌, ◌≡◌, refl, Bool, true, false, not, ◌&&◌, ◌||◌, arith, min, ◌==◌,
  if◌then◌else◌,
}

-- What one attempt finds: a request that fails, no collection, no /update/extract handler, or all of
-- it, or a reply whose JSON is no object (AttributeError) or has no list of collections (TypeError).
-- The first three raise exceptions that the loop catches, the last does not.
pub data Probe : Type 0 where
  request_failed no_collection no_handler ready malformed : Probe

abbrev pub is_ready : Probe → Bool
is_ready ready = true
is_ready request_failed = false
is_ready no_collection = false
is_ready no_handler = false
is_ready malformed = false

-- the exception passes through the loop
abbrev pub is_uncaught : Probe → Bool
is_uncaught malformed = true
is_uncaught ready = false
is_uncaught request_failed = false
is_uncaught no_collection = false
is_uncaught no_handler = false

-- after an attempt that failed: the last one breaks, any other sleeps and goes on
abbrev again : Bool → Bool × ℕ → Bool × ℕ
again true rest = (false, 0)
again false (returned, sleeps) = (returned, suc sleeps)

-- The loop with some attempts left, from a number on: whether it returns (else the RuntimeError or the
-- exception that is not caught is raised), and how often it sleeps.
unfoldable pub wait_loop : ℕ → ℕ → ℕ → (ℕ → Probe) → Bool × ℕ
wait_loop zero attempt max_attempts probe = (false, 0)
wait_loop (suc left) attempt max_attempts probe =
    let rest = wait_loop left (suc attempt) max_attempts probe in
    if is_ready (probe attempt)
    then (true, 0)
    else if is_uncaught (probe attempt)
    then (false, 0)
    else again (attempt == max_attempts) rest

-- wait_for_solr_collection
unfoldable pub wait_for_solr_collection : ℕ → (ℕ → Probe) → Bool × ℕ
unfolding wait_loop
wait_for_solr_collection max_attempts probe = wait_loop max_attempts 1 max_attempts probe

-- Some of the next attempts is ready, and none before it raises what is not caught; how many fail
-- before the first that is ready or raises that.
abbrev pub some_ready : ℕ → ℕ → (ℕ → Probe) → Bool
some_ready zero attempt probe = false
some_ready (suc left) attempt probe =
    is_ready (probe attempt)
    || (not (is_uncaught (probe attempt)) && some_ready left (suc attempt) probe)

abbrev count_one : Bool → ℕ → ℕ
count_one true n = 0
count_one false n = suc n

abbrev pub failures : ℕ → ℕ → (ℕ → Probe) → ℕ
failures zero attempt probe = 0
failures (suc left) attempt probe =
    count_one (is_ready (probe attempt) || is_uncaught (probe attempt))
      (failures left (suc attempt) probe)

not_last : (attempt max_attempts : ℕ) → attempt < max_attempts → (attempt == max_attempts) ≡ false
not_last attempt max_attempts less = ground arith

one_attempt :
    (found thrown : Bool) (rest : Bool × ℕ) (later : Bool) (n left : ℕ)
    → rest.0 ≡ later
    → rest.1 ≡ min n (suc left - 1)
    → let after = if found then (true, 0) else if thrown then (false, 0) else again false rest in
      (after.0 ≡ (found || (not thrown && later)))
      × (after.1 ≡ min (count_one (found || thrown) n) (suc (suc left) - 1))
one_attempt true thrown rest later n left same count = (refl, omega arith)
one_attempt false true rest later n left same count = (refl, omega arith)
one_attempt false false rest later n left same count = (same, omega arith)

wait_loop-lem :
    (left attempt max_attempts : ℕ) (probe : ℕ → Probe)
    → attempt + left ≡ suc max_attempts
    → ((wait_loop left attempt max_attempts probe).0 ≡ some_ready left attempt probe)
      × ((wait_loop left attempt max_attempts probe).1
          ≡ min (failures left attempt probe) (left - 1))
unfolding wait_loop
wait_loop-lem zero attempt max_attempts probe e = (refl, omega arith)
wait_loop-lem (suc zero) attempt max_attempts probe e = ground arith
wait_loop-lem (suc (suc left)) attempt max_attempts probe e =
    let rest = wait_loop-lem (suc left) (suc attempt) max_attempts probe (omega arith) in
    rw (not_last attempt max_attempts (omega arith)) (
      one_attempt (is_ready (probe attempt)) (is_uncaught (probe attempt))
        (wait_loop (suc left) (suc attempt) max_attempts probe)
        (some_ready (suc left) (suc attempt) probe) (failures (suc left) (suc attempt) probe) left
        rest.0 rest.1)

-- For every number of attempts and whatever each of them finds: the wait returns exactly when one of
-- the attempts 1 to `max_attempts` finds the collection ready and none before it raises an exception
-- that the loop does not catch, and else raises; it sleeps once after each failed attempt before the
-- one that ends it, but not after the last attempt.
pub wait_for_solr_collection-follows :
    (max_attempts : ℕ) (probe : ℕ → Probe)
    → ((wait_for_solr_collection max_attempts probe).0 ≡ some_ready max_attempts 1 probe)
      × ((wait_for_solr_collection max_attempts probe).1
          ≡ min (failures max_attempts 1 probe) (max_attempts - 1))
unfolding wait_for_solr_collection
wait_for_solr_collection-follows max_attempts probe =
    wait_loop-lem max_attempts 1 max_attempts probe (omega arith)
