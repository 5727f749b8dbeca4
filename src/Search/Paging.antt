-- ===== src/Search/Paging.antt =====
-- Pages: build_pagination against the offsets that build_solr_params asks for.
use aithena.Base.{ℕ, ◌+◌, ◌-◌, ◌*◌, ◌/◌, ◌≤◌, ◌<◌, ◌≡◌, arith}
use native.Mathlib.Nat.{div-mul-le_self, lt-div-mul-add, div-lt_iff_lt-mul}
use aithena.Search.{page_start, total_pages}

-- The pages just cover the results: with a positive page size, the results fit on the pages that
-- build_pagination reports, and not on one fewer.
pub total_pages_bounds :
    (total size : ℕ)
    → 0 < size
    → (total ≤ total_pages total size * size) × (total_pages total size * size < total + size)
unfolding total_pages
total_pages_bounds total size pos =
    grind
      (arith, div-mul-le_self (total + size - 1) size, lt-div-mul-add {a = total + size - 1} pos)

add_sub_one : (n : ℕ) → n + 1 - 1 ≡ n
add_sub_one n = omega arith

-- Every result has one page: with a positive page size, result number i (from 0) of `total` stands
-- on page i / size + 1, which is among the reported pages and whose request asks for it.
pub page_start-covers :
    (total size i : ℕ)
    → 0 < size
    → i < total
    → let page = i / size + 1 in
      (page ≤ total_pages total size)
      × (page_start page size ≤ i)
      × (i < page_start page size + size)
unfolding page_start
page_start-covers total size i pos inside =
    let covered = total_pages_bounds total size pos in
    let lt : i / size < total_pages total size = (div-lt_iff_lt-mul pos).1 (omega arith) in
    (
      omega arith,
      rw (add_sub_one (i / size)) (div-mul-le_self i size),
      rw (add_sub_one (i / size)) (lt-div-mul-add pos),
    )
