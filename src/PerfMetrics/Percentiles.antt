-- ===== src/PerfMetrics/Percentiles.antt =====
-- The order of the percentiles of a summary.
use aithena.Base.{
  ℕ, zero, suc, ◌-◌, ◌≤◌, ◌<◌, ◌≡◌, true, false, List, [], ◌∷◌, map, min, ltb, arith, All, length,
  get_or,
}
use aithena.Base.Sort.{Sorted, sort_by-Sorted}
use aithena.PerfMetrics.{TimedSample, nearest_rank, percentile, sorted_values, summarize}
use native.Mathlib.Nat.{mul-le-mul_left}

-- The value at an index inside a sorted list is at least a bound of all.
All-get_or :
    (b : ℕ) (values : List ℕ) (j : ℕ)
    → All (λ y. ltb y b ≡ false) values
    → j < length values
    → b ≤ get_or values j 0
All-get_or b [] j h inside = absurd (omega arith)
All-get_or b (v ∷ values) zero h inside = let first = h.0 in ground arith
All-get_or b (v ∷ values) (suc j) h inside = All-get_or b values j h.1 (omega arith)

get_or_mono :
    (values : List ℕ) (i j : ℕ)
    → Sorted ltb values
    → i ≤ j
    → j < length values
    → get_or values i 0 ≤ get_or values j 0
get_or_mono [] i j h le inside = absurd (omega arith)
get_or_mono (v ∷ values) zero zero h le inside = omega arith
get_or_mono (v ∷ values) zero (suc j) h le inside = All-get_or v values j h.0 (omega arith)
get_or_mono (v ∷ values) (suc i) zero h le inside = absurd (omega arith)
get_or_mono (v ∷ values) (suc i) (suc j) h le inside =
    get_or_mono values i j h.1 (omega arith) (omega arith)

nearest_rank_mono : (n p q : ℕ) → p ≤ q → nearest_rank n p ≤ nearest_rank n q
unfolding nearest_rank
nearest_rank_mono n p q le = let scaled = mul-le-mul_left n le in omega arith

percentile_mono :
    (values : List ℕ) (p q : ℕ)
    → Sorted ltb values
    → p ≤ q
    → percentile values p ≤ percentile values q
unfolding percentile
percentile_mono [] p q h le = omega arith
percentile_mono (v ∷ values) p q h le =
    let n = length (v ∷ values) in
    let rank = nearest_rank_mono n p q le in
    get_or_mono (v ∷ values) (min (nearest_rank n p - 1) (n - 1))
      (min (nearest_rank n q - 1) (n - 1)) h (omega arith) (omega arith)

ltb_asym : (a b : ℕ) → ltb a b ≡ true → ltb b a ≡ false
ltb_asym a b h = ground arith

ltb_chain : (a b c : ℕ) → ltb b a ≡ false → ltb c b ≡ false → ltb c a ≡ false
ltb_chain a b c h g = ground arith

-- In a summary of any samples, in any order, p50 ≤ p95 ≤ p99.
pub summarize_bounds :
    (samples : List TimedSample)
    → ((summarize samples).p50 ≤ (summarize samples).p95)
      × ((summarize samples).p95 ≤ (summarize samples).p99)
unfolding summarize
summarize_bounds samples =
    let sorted =
      sort_by-Sorted ltb ltb_asym ltb_chain (map (λ (s : TimedSample). s.value) samples) in
    (
      percentile_mono (sorted_values samples) 50 95 sorted (omega arith),
      percentile_mono (sorted_values samples) 95 99 sorted (omega arith),
    )
