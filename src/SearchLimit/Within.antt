-- ===== src/SearchLimit/Within.antt =====
-- The sets of a client stay within the limit.
use aithena.Base.{
  ℕ, suc, ◌+◌, ◌*◌, ◌≤◌, inl, inr, List, [], ◌∷◌, length, length-keep, ltb, leb, leb-false→lt, ◌==◌,
  arith, Bool-cases, ◌≡◌, ◌≢◌, refl, sym, ◌∙◌, All, false,
}
use aithena.Base.Text.{Text, text_eq, text_eq→eq}
use aithena.SearchLimit.{
  Request, get_client_ip, Member, SortedSet, members_at, remove_old, Redis, put, Answers,
  check_rate_limit, zadd,
}

-- The members of a set that are left in the window.
abbrev pub left_at : ℕ → ℕ → SortedSet → List Member
left_at second now set = remove_old second now (members_at now set)

pub length-members_at :
    (now : ℕ) (set : SortedSet) → length (members_at now set) ≤ length set.members
length-members_at now set = ground arith

-- No client's set has more members than the limit.
abbrev pub IsWithin : ℕ → Redis → Type 0
IsWithin limit redis = (key : Text) → length (redis key).members ≤ limit

length-zadd : (m : Member) (members : List Member) → length (zadd m members) ≤ suc (length members)
unfolding zadd
length-zadd m [] = omega arith
length-zadd m (n ∷ members) = ground (arith, length-zadd m members)

put-IsWithin :
    (limit : ℕ) (key : Text) (set : SortedSet) (redis : Redis)
    → length set.members ≤ limit
    → IsWithin limit redis
    → IsWithin limit (put key set redis)
put-IsWithin limit key set redis few within k = elim (Bool-cases (text_eq k key)) [
  | inl e ↦ rw e few
  | inr e ↦ rw e (within k)
]

check_rate_limit-IsWithin :
    (second limit : ℕ) (answers : Answers) (request : Request) (now : ℕ) (redis : Redis)
    → IsWithin limit redis
    → IsWithin limit (check_rate_limit second limit answers request now redis).1
unfolding check_rate_limit
check_rate_limit-IsWithin second limit answers request now redis within =
    let key = get_client_ip request in
    let members = left_at second now (redis key) in
    let few : length members ≤ limit = omega (
      arith,
      length-keep (λ (n : Member). ltb now (n.0 + 60 * second)) (members_at now (redis key)),
      length-members_at now (redis key),
      within key,
    ) in
    let cleaned : SortedSet = record { members = members; expires = (redis key).expires } in
    let recorded : SortedSet = record {
      members = zadd (now, request.id) members;
      expires = now + 60 * second;
    } in
    elim (Bool-cases (limit == 0)) [
      | inl e ↦ rw (e, check_rate_limit) within
      | inr e ↦ elim (Bool-cases answers.counts) [
        | inr c ↦ rw (e, c, check_rate_limit) within
        | inl c ↦ elim (Bool-cases (leb limit (length members))) [
          | inl full ↦
              rw (e, c, full, check_rate_limit) (put-IsWithin limit key cleaned redis few within)
          | inr left ↦ elim (Bool-cases answers.records) [
            | inr r ↦
                rw (e, c, left, r, check_rate_limit)
                  (put-IsWithin limit key cleaned redis few within)
            | inl r ↦
                let room = leb-false→lt limit (length members) left in
                rw (e, c, left, r, check_rate_limit)
                  (put-IsWithin limit key recorded redis
                    (omega (arith, length-zadd (now, request.id) members, room)) within)
          ]
        ]
      ]
    ]

-- The checks of requests one after another, each with what Redis answers and its time.
unfoldable pub check_all : ℕ → ℕ → List (Answers × Request × ℕ) → Redis → Redis
check_all second limit [] redis = redis
check_all second limit ((answers, request, now) ∷ checks) redis =
    check_all second limit checks (check_rate_limit second limit answers request now redis).1

pub check_all-IsWithin :
    (second limit : ℕ) (checks : List (Answers × Request × ℕ)) (redis : Redis)
    → IsWithin limit redis
    → IsWithin limit (check_all second limit checks redis)
unfolding check_all
check_all-IsWithin second limit [] redis within = within
check_all-IsWithin second limit ((answers, request, now) ∷ checks) redis within =
    check_all-IsWithin second limit checks
      (check_rate_limit second limit answers request now redis).1
      (check_rate_limit-IsWithin second limit answers request now redis within)

-- A check of one client leaves the sets of the others.
check_rate_limit-others :
    (second limit : ℕ) (answers : Answers) (request : Request) (now : ℕ) (redis : Redis)
    (key : Text)
    → text_eq key (get_client_ip request) ≡ false
    → (check_rate_limit second limit answers request now redis).1 key ≡ redis key
unfolding check_rate_limit
check_rate_limit-others second limit answers request now redis key apart =
    elim (Bool-cases (limit == 0)) [
      | inl e ↦ rw (e, check_rate_limit) refl
      | inr e ↦ elim (Bool-cases answers.counts) [
        | inr c ↦ rw (e, c, check_rate_limit) refl
        | inl c ↦
            elim (Bool-cases
              (leb limit (length (left_at second now (redis (get_client_ip request)))))) [
                | inl full ↦ rw (e, c, full, check_rate_limit, apart) refl
                | inr left ↦ elim (Bool-cases answers.records) [
                  | inr unrecorded ↦ rw (e, c, left, unrecorded, check_rate_limit, apart) refl
                  | inl recorded ↦ rw (e, c, left, recorded, check_rate_limit, apart) refl
                ]
              ]
      ]
    ]

-- Every check is that of a client with another address.
abbrev pub AreOthers : Text → List (Answers × Request × ℕ) → Type 0
AreOthers key checks = All (λ (c : Answers × Request × ℕ). get_client_ip c.1 ≢ key) checks

pub check_all-others :
    (second limit : ℕ) (checks : List (Answers × Request × ℕ)) (redis : Redis) (key : Text)
    → AreOthers key checks
    → check_all second limit checks redis key ≡ redis key
unfolding check_all
check_all-others second limit [] redis key others = refl
check_all-others second limit ((answers, request, now) ∷ checks) redis key others =
    check_all-others second limit checks (check_rate_limit second limit answers request now redis).1
      key others.1
    ∙ elim (Bool-cases (text_eq key (get_client_ip request))) [
      | inl same ↦ absurd (others.0 (sym (text_eq→eq key (get_client_ip request) same)))
      | inr apart ↦ check_rate_limit-others second limit answers request now redis key apart
    ]
