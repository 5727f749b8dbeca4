-- ===== src/Base/Dict.antt =====
-- A Python dict with text keys, as an association list in insertion order.
use aithena.Base.{
  ◌≡◌, refl, Bool, true, false, ◌||◌, Option, none, some, List, [], ◌∷◌, String, str_eq, eq_iff,
  arith, if◌then◌else◌, Bool-cases, inl, inr,
}

abbrev pub Dict {ℓ} : Type ℓ → Type ℓ
Dict V = List (String × V)

module _ {ℓ} {V : Type ℓ} where
  unfoldable pub lookup : String → Dict V → Option V
  lookup k [] = none
  lookup k ((j, v) ∷ d) = if str_eq j k then some v else lookup k d

  -- `k in d`
  unfoldable pub has_key : String → Dict V → Bool
  has_key k [] = false
  has_key k ((j, v) ∷ d) = str_eq j k || has_key k d

  -- `d[k] = v`, which keeps the place of a key that is there
  unfoldable pub insert : String → V → Dict V → Dict V
  insert k v [] = (k, v) ∷ []
  insert k v ((j, w) ∷ d) = if str_eq j k then (j, v) ∷ d else (j, w) ∷ insert k v d

  -- No key is listed twice.
  abbrev pub KeysUnique : Dict V → Type 0
  KeysUnique [] = Unit
  KeysUnique ((k, v) ∷ d) = (has_key k d ≡ false) × KeysUnique d

  pub lookup-insert :
      (k j : String) (v : V) (d : Dict V)
      → lookup j (insert k v d) ≡ (if str_eq k j then some v else lookup j d)
  unfolding lookup insert
  lookup-insert k j v [] = refl
  lookup-insert k j v ((i, w) ∷ d) =
      ground (arith, eq_iff k j, eq_iff i k, eq_iff i j, lookup-insert k j v d)

  pub has_key-insert :
      (k j : String) (v : V) (d : Dict V) → has_key j (insert k v d) ≡ (str_eq k j || has_key j d)
  unfolding has_key insert
  has_key-insert k j v [] = refl
  has_key-insert k j v ((i, w) ∷ d) =
      ground (arith, eq_iff k j, eq_iff i k, eq_iff i j, has_key-insert k j v d)

  pub KeysUnique-insert :
      (k : String) (v : V) (d : Dict V) → KeysUnique d → KeysUnique (insert k v d)
  unfolding insert has_key
  KeysUnique-insert k v [] h = (refl, tt)
  KeysUnique-insert k v ((j, w) ∷ d) h =
      ground (arith, eq_iff j k, eq_iff k j, has_key-insert k j v d, KeysUnique-insert k v d h.1)

  pub lookup-has_key :
      (k : String) (d : Dict V) → has_key k d ≡ true → (v : V) × (lookup k d ≡ some v)
  unfolding lookup has_key
  lookup-has_key k [] h = absurd (cc)
  lookup-has_key k ((j, v) ∷ d) h = elim (Bool-cases (str_eq j k)) [
    | inl e ↦ (v, rw e)
    | inr e ↦ rw e (lookup-has_key k d (rw e at h))
  ]

  pub lookup-none : (k : String) (d : Dict V) → has_key k d ≡ false → lookup k d ≡ none
  unfolding lookup has_key
  lookup-none k [] h = refl
  lookup-none k ((j, v) ∷ d) h = ground (arith, lookup-none k d)
