-- ===== src/RateLimit/Reference.antt =====
-- RateLimiter answers like the log of every request it allowed.
use aithena.Base.{
  ℕ, zero, suc, ◌-◌, ◌≤◌, ◌<◌, ◌≡◌, refl, sym, ap, ◌∙◌, inl, inr, Bool, true, false, List, [], ◌∷◌,
  ◌++◌, String, str_eq, eq_iff, arith, ltb, leb, if◌then◌else◌, length, All, All-append, All-map,
  Bool-cases,
}
use aithena.Base.Dict.{lookup, lookup-insert}
use aithena.RateLimit.{RateLimiter, init, requests_of, pop_old, store, is_allowed}
use aithena.RateLimit.Window.{
  Request, count, count_log, in_limit, log_if, reference, answers, InOrder, Ascending, pop_old-All,
  pop_old-Ascending, append-Ascending, length-pop_old, count-pop_old, count-append,
}

requests_of-store :
    (c j : String) (times : List ℕ) (limiter : RateLimiter)
    → requests_of j (store c times limiter) ≡ (if str_eq c j then times else requests_of j limiter)
unfolding requests_of
requests_of-store c j times limiter = ground (arith, lookup-insert c j times limiter.requests)

-- What the limiter keeps is the part of the log that later windows can reach.
record Tracks (last : ℕ) (limiter : RateLimiter) (log : List Request) : Type 0 where
  limited : 0 < limiter.max_requests
  tracked :
      (c : String) (cutoff : ℕ)
      → last - limiter.window_seconds ≤ cutoff
      → count cutoff (requests_of c limiter) ≡ count_log c cutoff log
  ordered :
      (c : String) → Ascending (requests_of c limiter) × All (λ t. t ≤ last) (requests_of c limiter)

module _ (last now : ℕ) (c : String) (limiter : RateLimiter) (log : List Request) (le : last ≤ now)
    (h : Tracks last limiter log) where
  abbrev cutoff : ℕ
  cutoff = now - limiter.window_seconds

  abbrev recent : List ℕ
  recent = pop_old cutoff (requests_of c limiter)

  recent_count : length recent ≡ count_log c cutoff log
  recent_count =
      length-pop_old cutoff (requests_of c limiter) (h.ordered c).0
      ∙ h.tracked c cutoff (omega arith)

  bound : (j : String) → All (λ t. t ≤ now) (requests_of j limiter)
  bound j =
      All-map (λ t. t ≤ last) (λ t. t ≤ now) (λ t k. omega arith) (requests_of j limiter)
        (h.ordered j).1

  recent_own : (k : ℕ) → cutoff ≤ k → count k recent ≡ count_log c k log
  recent_own k within =
      count-pop_old cutoff k (requests_of c limiter) within ∙ h.tracked c k (omega arith)

  recent-ordered : Ascending recent × All (λ t. t ≤ now) recent
  recent-ordered = (
    pop_old-Ascending cutoff (requests_of c limiter) (h.ordered c).0,
    pop_old-All (λ t. t ≤ now) cutoff (requests_of c limiter) (bound c),
  )

  -- Storing times of client c that agree with a log keeps the agreement.
  store-Tracks :
      (times : List ℕ) (log' : List Request)
      → Ascending times × All (λ t. t ≤ now) times
      → ((k : ℕ) → cutoff ≤ k → count k times ≡ count_log c k log')
      → ((j : String) (k : ℕ) → str_eq c j ≡ false → count_log j k log' ≡ count_log j k log)
      → Tracks now (store c times limiter) log'
  store-Tracks times log' sorted own others = record {
    limited = h.limited;
    tracked = λ j k within. elim (Bool-cases (str_eq c j)) [
      | inl e ↦
          rw (requests_of-store c j times limiter, e)
            (own k within ∙ ap (λ x. count_log x k log') ((eq_iff c j).0 e))
      | inr e ↦
          rw (requests_of-store c j times limiter, e)
            (h.tracked j k (omega arith) ∙ sym (others j k e))
    ];
    ordered = λ j. elim (Bool-cases (str_eq c j)) [
      | inl e ↦ rw (requests_of-store c j times limiter, e) sorted
      | inr e ↦ rw (requests_of-store c j times limiter, e) ((h.ordered j).0, bound j)
    ];
  }

  -- One request gets the answer of the reference, and the agreement goes on.
  is_allowed-Tracks :
      let allowed = in_limit limiter.max_requests limiter.window_seconds (c, now) log in
      ((is_allowed c now limiter).0 ≡ allowed)
      × Tracks now (is_allowed c now limiter).1 (log_if allowed (c, now) log)
  unfolding is_allowed
  is_allowed-Tracks = elim (Bool-cases (leb limiter.max_requests (length recent))) [
    | inl full ↦
        rw (unlimited, full, over full)
          (refl, store-Tracks recent log recent-ordered recent_own (λ j k e. refl))
    | inr room ↦
        rw (unlimited, room, under room)
          (
            refl,
            store-Tracks (recent ++ now ∷ []) ((c, now) ∷ log)
                (
                  append-Ascending recent now recent-ordered.0 recent-ordered.1,
                  All-append (λ t. t ≤ now) recent (now ∷ []) recent-ordered.1 (omega arith, tt),
                )
                (λ k within.
                  ground (arith, count-append k now recent, recent_own k within, eq_iff c c))
                (λ j k e. rw e refl),
          )
  ]
    where
      unlimited : leb limiter.max_requests 0 ≡ false
      unlimited = let limited = h.limited in ground arith

      over :
          leb limiter.max_requests (length recent) ≡ true
          → ltb (count_log c cutoff log) limiter.max_requests ≡ false
      over full = let same = recent_count in ground arith

      under :
          leb limiter.max_requests (length recent) ≡ false
          → ltb (count_log c cutoff log) limiter.max_requests ≡ true
      under room = let same = recent_count in ground arith

is_allowed-limits :
    (c : String) (now : ℕ) (limiter : RateLimiter)
    → ((is_allowed c now limiter).1.max_requests ≡ limiter.max_requests)
      × ((is_allowed c now limiter).1.window_seconds ≡ limiter.window_seconds)
unfolding is_allowed
is_allowed-limits c now limiter = ground arith

answers-Tracks :
    (requests : List Request) (last : ℕ) (limiter : RateLimiter) (log : List Request)
    → InOrder last requests
    → Tracks last limiter log
    → answers requests limiter ≡ reference limiter.max_requests limiter.window_seconds requests log
unfolding answers reference
answers-Tracks [] last limiter log order h = refl
answers-Tracks ((c, now) ∷ requests) last limiter log order h =
    let step = is_allowed-Tracks last now c limiter log order.0 h in
    let same = is_allowed-limits c now limiter in
    let rest =
      answers-Tracks requests now (is_allowed c now limiter).1
        (log_if (in_limit limiter.max_requests limiter.window_seconds (c, now) log) (c, now) log)
        order.1 step.1 in
    rw (step.0, rest, same.0, same.1) refl

is_allowed-unlimited :
    (c : String) (now : ℕ) (limiter : RateLimiter)
    → leb limiter.max_requests 0 ≡ true
    → is_allowed c now limiter ≡ (true, limiter)
unfolding is_allowed
is_allowed-unlimited c now limiter e = rw e refl

-- With a limit of 0 both allow everything.
answers-unlimited :
    (window_seconds : ℕ) (requests log : List Request) (limiter : RateLimiter)
    → leb limiter.max_requests 0 ≡ true
    → answers requests limiter ≡ reference 0 window_seconds requests log
unfolding answers reference
answers-unlimited window_seconds [] log limiter e = refl
answers-unlimited window_seconds ((c, now) ∷ requests) log limiter e =
    rw (is_allowed-unlimited c now limiter e) (
      ap (λ (rest : List Bool). true ∷ rest)
        (answers-unlimited window_seconds requests ((c, now) ∷ log) limiter e))

-- A new limiter answers any requests whose times do not go back like a log of all requests that were
-- allowed, in which a request is allowed if there is no limit or the log has fewer than the limit of
-- the same client in the window before it.
pub is_allowed-follows :
    (max_requests window_seconds : ℕ) (requests : List Request)
    → InOrder 0 requests
    → answers requests (init max_requests window_seconds)
      ≡ reference max_requests window_seconds requests []
unfolding requests_of lookup
is_allowed-follows zero window_seconds requests order =
    answers-unlimited window_seconds requests [] (init 0 window_seconds) refl
is_allowed-follows (suc n) window_seconds requests order =
    answers-Tracks requests 0 (init (suc n) window_seconds) [] order
      (record { limited = omega arith; tracked = λ c cutoff within. refl; ordered = λ c. (tt, tt) })
