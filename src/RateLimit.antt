-- ===== src/RateLimit.antt =====
-- RateLimiter of src/solr-search/main.py: sliding-window limits per client.
--
-- Times are natural numbers of some unit in which the clock's readings and the window are whole; the
-- reading `time.time()` is an argument. Before one window has passed since time 0 the difference of
-- the source is negative where the one here is 0, and both are at most every time.
pub mod Window
pub mod Reference
mod Tests
use aithena.Base.{
  ℕ, suc, ◌+◌, ◌-◌, ◌≡◌, Bool, true, false, Option, none, some, List, [], ◌∷◌, ◌++◌, String, ltb,
  leb, ◌==◌, if◌then◌else◌, length,
}
use aithena.Base.Dict.{Dict, lookup, insert}

pub record RateLimiter : Type 0 where
  pub max_requests : ℕ
  pub window_seconds : ℕ
  pub requests : Dict (List ℕ)

-- __init__
abbrev pub init : ℕ → ℕ → RateLimiter
init max_requests window_seconds = record {
  max_requests = max_requests;
  window_seconds = window_seconds;
  requests = [];
}

abbrev or_empty : Option (List ℕ) → List ℕ
or_empty none = []
or_empty (some times) = times

-- `self.requests[client_ip]` of the defaultdict
unfoldable pub requests_of : String → RateLimiter → List ℕ
requests_of client_ip limiter = or_empty (lookup client_ip limiter.requests)

-- the `while` loop, which pops from the left
unfoldable pub pop_old : ℕ → List ℕ → List ℕ
pop_old cutoff [] = []
pop_old cutoff (t ∷ times) =
    let rest = pop_old cutoff times in if ltb t cutoff then rest else t ∷ times

abbrev pub store : String → List ℕ → RateLimiter → RateLimiter
store client_ip times limiter = record limiter {
  requests = insert client_ip times limiter.requests;
}

-- is_allowed at a time
unfoldable pub is_allowed : String → ℕ → RateLimiter → Bool × RateLimiter
unfolding pop_old requests_of
is_allowed client_ip now limiter =
    let recent = pop_old (now - limiter.window_seconds) (requests_of client_ip limiter) in
    if leb limiter.max_requests 0
    then (true, limiter)
    else if leb limiter.max_requests (length recent)
    then (false, store client_ip recent limiter)
    else (true, store client_ip (recent ++ now ∷ []) limiter)
