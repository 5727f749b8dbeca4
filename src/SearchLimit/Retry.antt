-- ===== src/SearchLimit/Retry.antt =====
-- What a refused client is told holds.
use aithena.Base.{
  ℕ, suc, ◌+◌, ◌-◌, ◌*◌, ◌/◌, ◌≤◌, ◌<◌, ◌≡◌, refl, sym, ap, ◌∙◌, inl, inr, Bool, true, false, List,
  [], ◌∷◌, length, length-keep, keep, ltb, leb, lt→leb-false, leb-false→lt, ◌==◌, max, arith,
  Bool-cases,
}
use aithena.Base.Text.{text_eq_refl}
use native.Mathlib.Nat.{lt-div-mul-add}
use aithena.SearchLimit.Within.{
  left_at, length-members_at, check_all, check_all-IsWithin, AreOthers, check_all-others,
}
use aithena.SearchLimit.{
  Request, get_client_ip, Member, SortedSet, members_at, Redis, put, Answers, retry_seconds,
  refusal, check_rate_limit, nobody,
}

long_enough :
    (q second x now oldest later : ℕ)
    → x < q * second + second
    → x ≡ oldest + 60 * second - now
    → now + max (suc q) 1 * second ≤ later
    → ltb later (oldest + 60 * second) ≡ false
long_enough q second x now oldest later wide same wait =
    let one : max (suc q) 1 ≡ suc q = omega arith in
    let unfolded : now + suc q * second ≤ later = (rw one at wait) in
    ground (arith, wide, same, unfolded)

-- At the end of the wait the oldest member is out of the window.
retry_seconds-enough :
    (second now oldest later : ℕ)
    → 0 < second
    → now + retry_seconds second now oldest * second ≤ later
    → ltb later (oldest + 60 * second) ≡ false
retry_seconds-enough second now oldest later pos wait =
    let x = oldest + 60 * second - now in
    long_enough (x / second) second x now oldest later (lt-div-mul-add {a = x} pos) refl wait

-- With fewer members left than the limit, the request is let in.
check_rate_limit-allows :
    (second limit : ℕ) (answers : Answers) (request : Request) (now : ℕ) (redis : Redis)
    → length (left_at second now (redis (get_client_ip request))) < limit
    → (check_rate_limit second limit answers request now redis).0 ≡ (true, 0)
unfolding check_rate_limit
check_rate_limit-allows second limit answers request now redis few =
    let full : leb limit (length (left_at second now (redis (get_client_ip request)))) ≡ false =
      lt→leb-false _ _ few in
    elim (Bool-cases (limit == 0)) [
      | inl e ↦ rw (e, check_rate_limit) refl
      | inr e ↦ elim (Bool-cases answers.counts) [
        | inr c ↦ rw (e, c, check_rate_limit) refl
        | inl c ↦ elim (Bool-cases answers.records) [
          | inl r ↦ rw (e, c, full, r, check_rate_limit) refl
          | inr r ↦ rw (e, c, full, r, check_rate_limit) refl
        ]
      ]
    ]

let_in : (wait : ℕ) → ◌≡◌ {A = Bool × ℕ} (true, 0) (false, wait) → ⊥
let_in wait h = ground arith

-- A refusal names the limit, the wait and the set it leaves.
abbrev Refused : ℕ → ℕ → Request → ℕ → ℕ → Redis → Redis → Type 0
Refused second limit request now wait redis after =
    let key = get_client_ip request in
    let members = left_at second now (redis key) in
    ((limit == 0) ≡ false)
    × (leb limit (length members) ≡ true)
    × (refusal second now members ≡ (false, wait))
    × (after ≡ put key (record { members = members; expires = (redis key).expires }) redis)

check_rate_limit-Refused :
    (second limit : ℕ) (answers : Answers) (request : Request) (now wait : ℕ) (redis : Redis)
    → (check_rate_limit second limit answers request now redis).0 ≡ (false, wait)
    → Refused second limit request now wait redis
        (check_rate_limit second limit answers request now redis).1
unfolding check_rate_limit
check_rate_limit-Refused second limit answers request now wait redis h =
    elim (Bool-cases (limit == 0)) [
      | inl e ↦ absurd (let_in wait (rw (e, check_rate_limit) at h))
      | inr e ↦ elim (Bool-cases answers.counts) [
        | inr c ↦ absurd (let_in wait (rw (e, c, check_rate_limit) at h))
        | inl c ↦
            elim (Bool-cases
              (leb limit (length (left_at second now (redis (get_client_ip request)))))) [
                | inl full ↦ elim (Bool-cases answers.shows_oldest) [
                  | inr hidden ↦
                      absurd (let_in wait (rw (e, c, full, hidden, check_rate_limit) at h))
                  | inl shown ↦ (
                    e,
                    full,
                    rw (e, c, full, shown, check_rate_limit) at h,
                    rw (e, c, full, check_rate_limit) refl,
                  )
                ]
                | inr few ↦ absurd (
                    let_in wait (
                      sym (
                        check_rate_limit-allows second limit answers request now redis
                          (leb-false→lt _ _ few))
                      ∙ h))
              ]
      ]
    ]

refusal_wait :
    (second now wait : ℕ) (m : Member) (members : List Member)
    → refusal second now (m ∷ members) ≡ (false, wait)
    → retry_seconds second now m.0 ≡ wait
refusal_wait second now wait m members h = ap (λ (p : Bool × ℕ). p.1) h

-- What is left of the set of a refused client is below the limit when the wait is over.
left_after_wait :
    (second limit now wait later expires : ℕ) (members : List Member)
    → 0 < second
    → (limit == 0) ≡ false
    → length members ≤ limit
    → leb limit (length members) ≡ true
    → refusal second now members ≡ (false, wait)
    → now + wait * second ≤ later
    → length (left_at second later (record { members = members; expires = expires })) < limit
unfolding keep
left_after_wait second limit now wait later expires [] pos limited few full refused over =
    absurd (ground arith)
left_after_wait second limit now wait later expires (m ∷ members) pos limited few full refused
      over =
    let told = refusal_wait second now wait m members refused in
    let gone = retry_seconds-enough second now m.0 later pos (rw told over) in
    elim (Bool-cases (leb expires later)) [
      | inl e ↦ rw e (ground arith)
      | inr e ↦
          rw (e, gone)
            (omega
              (arith, length-keep (λ (n : Member). ltb later (n.0 + 60 * second)) members, few))
    ]

-- The set that a refusal leaves, at its client's next check.
retry_within :
    (second limit : ℕ) (answers again : Answers) (request retried : Request) (now later wait : ℕ)
    (redis next : Redis)
    → 0 < second
    → length (redis (get_client_ip request)).members ≤ limit
    → get_client_ip retried ≡ get_client_ip request
    → (check_rate_limit second limit answers request now redis).0 ≡ (false, wait)
    → now + wait * second ≤ later
    → next (get_client_ip request)
      ≡ (check_rate_limit second limit answers request now redis).1 (get_client_ip request)
    → (check_rate_limit second limit again retried later next).0 ≡ (true, 0)
retry_within second limit answers again request retried now later wait redis next pos few same
      refused over untouched =
    let (limited, full, told, left) =
      check_rate_limit-Refused second limit answers request now wait redis refused in
    let key = get_client_ip request in
    let members = left_at second now (redis key) in
    let kept : SortedSet = record { members = members; expires = (redis key).expires } in
    let found : next (get_client_ip retried) ≡ kept =
      ap next same ∙ untouched ∙ ap (λ (r : Redis). r key) left ∙ rw (text_eq_refl key) refl in
    let bound : length members ≤ limit = omega (
      arith,
      length-keep (λ (n : Member). ltb now (n.0 + 60 * second)) (members_at now (redis key)),
      length-members_at now (redis key),
      few,
    ) in
    check_rate_limit-allows second limit again retried later next (
      rw found (
        left_after_wait second limit now wait later (redis key).expires members pos limited bound
          full told over))

-- After any checks one after another, from an empty Redis: a client that is refused and told to retry
-- after some seconds is let in when it asks again once that time is over, if in between only clients
-- with other addresses asked. A second has at least one unit of the clock.
pub check_rate_limit-retry :
    (second limit : ℕ) (checks between : List (Answers × Request × ℕ)) (answers again : Answers)
    (request retried : Request) (now later wait : ℕ)
    → 0 < second
    → AreOthers (get_client_ip request) between
    → get_client_ip retried ≡ get_client_ip request
    → (check_rate_limit second limit answers request now (check_all second limit checks nobody)).0
      ≡ (false, wait)
    → now + wait * second ≤ later
    → let refused =
        check_rate_limit second limit answers request now (check_all second limit checks nobody) in
      (check_rate_limit second limit again retried later
        (check_all second limit between refused.1)).0
      ≡ (true, 0)
check_rate_limit-retry second limit checks between answers again request retried now later wait pos
      others same refused over =
    let within = check_all-IsWithin second limit checks nobody (λ key. omega arith) in
    let before = check_all second limit checks nobody in
    let after = (check_rate_limit second limit answers request now before).1 in
    retry_within second limit answers again request retried now later wait before
      (check_all second limit between after) pos (within (get_client_ip request)) same refused over
      (check_all-others second limit between after (get_client_ip request) others)
