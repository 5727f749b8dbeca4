-- ===== src/SearchLimit.antt =====
-- RedisRateLimiter and get_client_ip of src/solr-search/main.py: the limit on searches, in Redis.
--
-- A second has `second` units of the clock, a parameter above 0; scores are readings of the clock. The
-- members of a sorted set are a score with the id of the request. A score is past the start of the
-- window, `now - window_seconds` in the source, where it is past `now` with a window added to it: so
-- no difference is needed that could be negative.
mod Within
mod Retry
mod Tests
use aithena.Base.{
  ℕ, suc, ◌+◌, ◌-◌, ◌*◌, ◌/◌, ◌≡◌, Bool, true, false, not, ◌&&◌, ◌||◌, Option, none, some, List, [],
  ◌∷◌, length, keep, ltb, leb, ◌==◌, max, if◌then◌else◌,
}
use aithena.Base.Text.{Text, codes, text_eq, strip}
use aithena.Password.{is_given}

-- What a request says about where it comes from: X-Forwarded-For and the connection's host.
pub record Request : Type 0 where
  pub forwarded : Option Text
  pub host : Option Text
  pub id : ℕ

-- `text.split(",")[0]`
unfoldable pub before_comma : Text → Text
before_comma [] = []
before_comma (c ∷ text) = let rest = before_comma text in if c == b',' then [] else c ∷ rest

abbrev pub or_host : Text → Option Text → Text
or_host (c ∷ ip) host = c ∷ ip
or_host [] (some host) = host
or_host [] none = codes "unknown"

abbrev pub first_address : Option Text → Text
first_address none = []
first_address (some forwarded) = strip (before_comma forwarded)

-- get_client_ip
unfoldable pub get_client_ip : Request → Text
unfolding before_comma
get_client_ip request = or_host (first_address request.forwarded) request.host

-- A member of a sorted set: its score, and the request.
abbrev pub Member : Type 0
Member = ℕ × ℕ

-- A sorted set with the time at which its key expires.
pub record SortedSet : Type 0 where
  pub members : List Member
  pub expires : ℕ

-- The sorted set of each client's key.
abbrev pub Redis : Type 0
Redis = Text → SortedSet

-- Redis without any key.
abbrev pub nobody : Redis
nobody = λ key. record { members = []; expires = 0 }

abbrev pub is_before : Member → Member → Bool
is_before (s, i) (t, j) = ltb s t || (s == t && ltb i j)

-- `zadd` of a member with its score
unfoldable pub zadd : Member → List Member → List Member
zadd m [] = m ∷ []
zadd m (n ∷ members) =
    let rest = zadd m members in
    if is_before m n then m ∷ n ∷ members else if is_before n m then n ∷ rest else n ∷ members

-- The members that a command at a time sees: none once the key expired.
abbrev pub members_at : ℕ → SortedSet → List Member
members_at now set = if leb set.expires now then [] else set.members

-- `zremrangebyscore(key, "-inf", window_start)`
abbrev pub remove_old : ℕ → ℕ → List Member → List Member
remove_old second now members = keep (λ m. ltb now (m.0 + 60 * second)) members

abbrev pub put : Text → SortedSet → Redis → Redis
put key set redis = λ k. if text_eq k key then set else redis k

-- What Redis answers to the first pipeline, to `zrange` and to the second pipeline: RedisError, OSError
-- or ConnectionError, if not all is well.
pub record Answers : Type 0 where
  pub counts : Bool
  pub shows_oldest : Bool
  pub records : Bool

-- `int(oldest + window - now) + 1`, at least 1
abbrev pub retry_seconds : ℕ → ℕ → ℕ → ℕ
retry_seconds second now oldest = max (suc ((oldest + 60 * second - now) / second)) 1

abbrev pub refusal : ℕ → ℕ → List Member → Bool × ℕ
refusal second now [] = (false, 60)
refusal second now (m ∷ members) = (false, retry_seconds second now m.0)

-- check_rate_limit at a time, with whether Redis answers
unfoldable pub check_rate_limit : ℕ → ℕ → Answers → Request → ℕ → Redis → (Bool × ℕ) × Redis
unfolding get_client_ip zadd keep
check_rate_limit second requests_per_minute answers request now redis =
    let key = get_client_ip request in
    let set = redis key in
    let members = remove_old second now (members_at now set) in
    let cleaned : SortedSet = record { members = members; expires = set.expires } in
    let recorded : SortedSet = record {
      members = zadd (now, request.id) members;
      expires = now + 60 * second;
    } in
    if requests_per_minute == 0
    then ((true, 0), redis)
    else if not answers.counts
    then ((true, 0), redis)
    else if leb requests_per_minute (length members)
    then (
      if answers.shows_oldest then refusal second now members else (true, 0),
      put key cleaned redis,
    )
    else if answers.records
    then ((true, 0), put key recorded redis)
    else ((true, 0), put key cleaned redis)
