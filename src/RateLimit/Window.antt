-- ===== src/RateLimit/Window.antt =====
-- RateLimiter against a log of every request it allowed.
use aithena.Base.{
  ℕ, suc, ◌-◌, ◌≤◌, ◌≡◌, refl, sym, inl, inr, Bool, true, false, ◌&&◌, ◌||◌, List, [], ◌∷◌, ◌++◌,
  String, str_eq, arith, ltb, leb, length, All, All-append, All-map, Bool-cases,
}
use aithena.RateLimit.{RateLimiter, pop_old, is_allowed}

-- A request: a client and a time. A log has the latest request first.
abbrev pub Request : Type 0
Request = String × ℕ

abbrev pub count_if : Bool → ℕ → ℕ
count_if true n = suc n
count_if false n = n

-- How many of the times are not before the cutoff.
abbrev pub count : ℕ → List ℕ → ℕ
count cutoff [] = 0
count cutoff (t ∷ times) = count_if (leb cutoff t) (count cutoff times)

-- How many requests of the client in the log are not before the cutoff.
abbrev pub count_log : String → ℕ → List Request → ℕ
count_log client_ip cutoff [] = 0
count_log client_ip cutoff ((c, t) ∷ log) =
    count_if (str_eq c client_ip && leb cutoff t) (count_log client_ip cutoff log)

-- The reference: a request is allowed if there is no limit, or if fewer requests than the limit of
-- the same client were allowed in the window before it.
abbrev pub in_limit : ℕ → ℕ → Request → List Request → Bool
in_limit max_requests window_seconds (client_ip, now) log =
    leb max_requests 0 || ltb (count_log client_ip (now - window_seconds) log) max_requests

abbrev pub log_if : Bool → Request → List Request → List Request
log_if true request log = request ∷ log
log_if false request log = log

-- The answers of the reference, and of the limiter, to some requests.
unfoldable pub reference : ℕ → ℕ → List Request → List Request → List Bool
reference max_requests window_seconds [] log = []
reference max_requests window_seconds (request ∷ rest) log =
    let allowed = in_limit max_requests window_seconds request log in
    allowed ∷ reference max_requests window_seconds rest (log_if allowed request log)

unfoldable pub answers : List Request → RateLimiter → List Bool
answers [] limiter = []
answers ((client_ip, now) ∷ rest) limiter =
    let reply = is_allowed client_ip now limiter in reply.0 ∷ answers rest reply.1

-- The times of the requests do not go back.
abbrev pub InOrder : ℕ → List Request → Type 0
InOrder earlier [] = Unit
InOrder earlier ((client_ip, now) ∷ rest) = (earlier ≤ now) × InOrder now rest

abbrev pub Ascending : List ℕ → Type 0
Ascending [] = Unit
Ascending (t ∷ times) = All (λ later. t ≤ later) times × Ascending times

pub pop_old-All :
    (P : ℕ → Type 0) (cutoff : ℕ) (times : List ℕ) → All P times → All P (pop_old cutoff times)
unfolding pop_old
pop_old-All P cutoff [] h = tt
pop_old-All P cutoff (t ∷ times) h = elim (Bool-cases (ltb t cutoff)) [
  | inl e ↦ rw e (pop_old-All P cutoff times h.1)
  | inr e ↦ rw e h
]

pub pop_old-Ascending :
    (cutoff : ℕ) (times : List ℕ) → Ascending times → Ascending (pop_old cutoff times)
unfolding pop_old
pop_old-Ascending cutoff [] h = tt
pop_old-Ascending cutoff (t ∷ times) h = elim (Bool-cases (ltb t cutoff)) [
  | inl e ↦ rw e (pop_old-Ascending cutoff times h.1)
  | inr e ↦ rw e h
]

pub append-Ascending :
    (times : List ℕ) (now : ℕ)
    → Ascending times
    → All (λ t. t ≤ now) times
    → Ascending (times ++ now ∷ [])
append-Ascending [] now h bound = (tt, tt)
append-Ascending (t ∷ times) now h bound = (
  All-append (λ later. t ≤ later) times (now ∷ []) h.0 (bound.0, tt),
  append-Ascending times now h.1 bound.1,
)

count-All :
    (cutoff : ℕ) (times : List ℕ) → All (λ t. cutoff ≤ t) times → count cutoff times ≡ length times
count-All cutoff [] h = refl
count-All cutoff (t ∷ times) h = let rest = count-All cutoff times h.1 in ground arith

-- What is left after popping is what lies in the window.
pub length-pop_old :
    (cutoff : ℕ) (times : List ℕ)
    → Ascending times
    → length (pop_old cutoff times) ≡ count cutoff times
unfolding pop_old
length-pop_old cutoff [] h = refl
length-pop_old cutoff (t ∷ times) h = elim (Bool-cases (ltb t cutoff)) [
  | inl e ↦ rw e (let rest = length-pop_old cutoff times h.1 in ground arith)
  | inr e ↦ rw e (
      sym (
        count-All cutoff (t ∷ times) (
          ground arith,
          All-map (λ later. t ≤ later) (λ later. cutoff ≤ later) (λ later k. ground arith) times
              h.0,
        )))
]

pub count-pop_old :
    (cutoff later : ℕ) (times : List ℕ)
    → cutoff ≤ later
    → count later (pop_old cutoff times) ≡ count later times
unfolding pop_old
count-pop_old cutoff later [] le = refl
count-pop_old cutoff later (t ∷ times) le = ground (arith, count-pop_old cutoff later times le)

pub count-append :
    (cutoff now : ℕ) (times : List ℕ)
    → count cutoff (times ++ now ∷ []) ≡ count_if (leb cutoff now) (count cutoff times)
count-append cutoff now [] = refl
count-append cutoff now (t ∷ times) = ground (arith, count-append cutoff now times)
