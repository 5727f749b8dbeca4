-- ===== src/Migrations/Once.antt =====
-- Each migration is applied once, in order.
use aithena.Base.{
  ℕ, suc, ◌+◌, ◌≤◌, ◌<◌, ◌≡◌, refl, sym, ap, ◌∙◌, inl, inr, true, false, Option, none, some, List,
  [], ◌∷◌, ◌++◌, map, length, append_assoc, append_nil, max, ltb, leb, le→leb, leb→le, leb-false→lt,
  lt→ltb, keep, All, arith, Bool-cases, ◌⊎◌,
}
use aithena.Base.Text.{Text}
use aithena.Migrations.{
  Upgrade, completed, raised, Migration, Info, Database, current_version, discover_migrations,
  row_of, upgraded, apply_loop, apply_pending_migrations,
}

current_version-append :
    (rows : List (ℕ × Text)) (row : ℕ × Text)
    → current_version (rows ++ row ∷ []) ≡ max (current_version rows) row.0
unfolding current_version
current_version-append [] row = omega arith
current_version-append (r ∷ rows) row = omega (arith, current_version-append rows row)

module _ {S : Type 0} where
  Upgrade-cases : (u : Upgrade S) → ((s : S) × (u ≡ raised s)) ⊎ ((s : S) × (u ≡ completed s))
  Upgrade-cases (raised s) = inl (s, refl)
  Upgrade-cases (completed s) = inr (s, refl)

  -- The migrations of the list that are above a version, where none is twice.
  abbrev pub pending : ℕ → List (Migration S) → List (Migration S)
  pending current migrations = keep (λ m. ltb current m.version) migrations

  -- The versions ascend, and no two are the same.
  abbrev pub Ascending : List (Migration S) → Type 0
  Ascending [] = Unit
  Ascending (m ∷ migrations) = All (λ n. m.version < n.version) migrations × Ascending migrations

  none_left :
      (migrations : List (Migration S)) (current applied : ℕ) (db : Database S)
      → All (λ m. m.version ≤ current) migrations
      → apply_loop migrations current applied db ≡ (some applied, db)
  unfolding apply_loop
  none_left [] current applied db h = refl
  none_left (m ∷ migrations) current applied db h =
      rw (le→leb m.version current h.0) (none_left migrations current applied db h.1)

  apply_loop-done :
      (migrations : List (Migration S)) (current applied n : ℕ) (db after : Database S)
      → current_version db.schema_version ≡ current
      → apply_loop migrations current applied db ≡ (some n, after)
      → (current ≤ current_version after.schema_version)
        × All (λ m. m.version ≤ current_version after.schema_version) migrations
  unfolding apply_loop
  apply_loop-done [] current applied n db after at h =
      let same : db ≡ after = ap (λ (p : Option ℕ × Database S). p.1) h in
      rw (← same) (omega (arith, at), tt)
  apply_loop-done (m ∷ migrations) current applied n db after at h =
      elim (Bool-cases (leb m.version current)) [
        | inl e ↦
            let (above, all) =
              apply_loop-done migrations current applied n db after at (rw (e, apply_loop) at h) in
            (above, (omega (arith, above, leb→le m.version current e), all))
        | inr e ↦ elim (Upgrade-cases (m.upgrade db.schema)) [
          | inl (schema, u) ↦
              let bad : none ≡ some n =
                ap (λ (p : Option ℕ × Database S). p.0) (rw (e, u, apply_loop) at h) in
              absurd (cc)
          | inr (schema, u) ↦
              let next : current_version (upgraded m schema db).schema_version ≡ m.version = omega (
                arith,
                current_version-append db.schema_version (row_of m),
                at,
                leb-false→lt m.version current e,
              ) in
              let (above, all) =
                apply_loop-done migrations m.version (suc applied) n (upgraded m schema db) after
                  next (rw (e, u, apply_loop) at h) in
              (omega (arith, above, leb-false→lt m.version current e), (above, all))
        ]
      ]

  pending-above :
      (current v : ℕ) (migrations : List (Migration S))
      → current ≤ v
      → All (λ n. v < n.version) migrations
      → pending current migrations ≡ migrations
  unfolding keep
  pending-above current v [] le h = refl
  pending-above current v (m ∷ migrations) le h =
      rw (lt→ltb current m.version (omega (arith, le, h.0)))
        (ap (λ ms. m ∷ ms) (pending-above current v migrations le h.1))

  -- What a run that completes records: the rows after those before, and how many.
  abbrev Records : ℕ → List (Migration S) → ℕ → Database S → ℕ → Database S → Type 0
  Records current migrations applied db n after =
      (after.schema_version ≡ db.schema_version ++ map row_of (pending current migrations))
      × (n ≡ applied + length (pending current migrations))

  apply_loop-Records :
      (migrations : List (Migration S)) (current applied n : ℕ) (db after : Database S)
      → Ascending migrations
      → apply_loop migrations current applied db ≡ (some n, after)
      → Records current migrations applied db n after
  unfolding apply_loop keep
  apply_loop-Records [] current applied n db after up h =
      let same : db ≡ after = ap (λ (p : Option ℕ × Database S). p.1) h in
      let count : some applied ≡ some n = ap (λ (p : Option ℕ × Database S). p.0) h in
      let equal : applied ≡ n = cc in
      rw (← same, ← equal) (sym (append_nil db.schema_version), omega arith)
  apply_loop-Records (m ∷ migrations) current applied n db after up h =
      elim (Bool-cases (leb m.version current)) [
        | inl e ↦
            let old : ltb current m.version ≡ false = ground arith in
            rw old (
              apply_loop-Records migrations current applied n db after up.1
                (rw (e, apply_loop) at h))
        | inr e ↦ elim (Upgrade-cases (m.upgrade db.schema)) [
          | inl (schema, u) ↦
              let bad : none ≡ some n =
                ap (λ (p : Option ℕ × Database S). p.0) (rw (e, u, apply_loop) at h) in
              absurd (cc)
          | inr (schema, u) ↦
              let new : ltb current m.version ≡ true = ground arith in
              let (rows, count) =
                apply_loop-Records migrations m.version (suc applied) n (upgraded m schema db) after
                  up.1 (rw (e, u, apply_loop) at h) in
              let here = pending-above m.version m.version migrations (omega arith) up.0 in
              let there =
                pending-above current m.version migrations
                  (omega (arith, leb-false→lt m.version current e)) up.0 in
              rw (new, there)
                (
                  (rw here at rows)
                      ∙ sym
                          (append_assoc db.schema_version (row_of m ∷ []) (map row_of migrations)),
                  omega (arith, rw here at count),
                )
        ]
      ]

-- A run that completes, of migrations whose versions ascend, records exactly those above the version
-- it found, each once and in order, and gives their number; a second run applies none and changes
-- nothing.
pub apply_pending_migrations-once :
    {S : Type 0} (infos : List (Info S)) (db after : Database S) (n : ℕ)
    → Ascending (discover_migrations infos)
    → apply_pending_migrations infos db ≡ (some n, after)
    → (after.schema_version
        ≡ db.schema_version
          ++ map row_of (pending (current_version db.schema_version) (discover_migrations infos)))
      × (n ≡ length (pending (current_version db.schema_version) (discover_migrations infos)))
      × (apply_pending_migrations infos after ≡ (some 0, after))
unfolding apply_pending_migrations
apply_pending_migrations-once infos db after n up h =
    let migrations = discover_migrations infos in
    let current = current_version db.schema_version in
    let (rows, count) = apply_loop-Records migrations current 0 n db after up h in
    let (above, all) = apply_loop-done migrations current 0 n db after refl h in
    (
      rows,
      omega (arith, count),
      none_left migrations (current_version after.schema_version) 0 after all,
    )
