-- ===== src/Base/Sort.antt =====
-- `sorted` and `ORDER BY`: a stable insertion sort by a strict order given as a test.
use aithena.Base.{
  ◌≡◌, refl, Bool, true, false, ◌||◌, List, [], ◌∷◌, arith, if◌then◌else◌, any, All, Bool-cases,
  inl, inr,
}

module _ {ℓ} {A : Type ℓ} where
  -- puts an element before the first one that is not strictly before it
  unfoldable pub insert_by : (A → A → Bool) → A → List A → List A
  insert_by before x [] = x ∷ []
  insert_by before x (y ∷ ys) = if before y x then y ∷ insert_by before x ys else x ∷ y ∷ ys

  unfoldable pub sort_by : (A → A → Bool) → List A → List A
  unfolding insert_by
  sort_by before [] = []
  sort_by before (x ∷ xs) = insert_by before x (sort_by before xs)

  pub any-insert_by :
      (q : A → Bool) (before : A → A → Bool) (x : A) (xs : List A)
      → any q (insert_by before x xs) ≡ (q x || any q xs)
  unfolding any insert_by
  any-insert_by q before x [] = refl
  any-insert_by q before x (y ∷ ys) = ground (arith, any-insert_by q before x ys)

  -- Sorting keeps which elements there are.
  pub any-sort_by :
      (q : A → Bool) (before : A → A → Bool) (xs : List A) → any q (sort_by before xs) ≡ any q xs
  unfolding any sort_by
  any-sort_by q before [] = refl
  any-sort_by q before (x ∷ xs) =
      ground (arith, any-insert_by q before x (sort_by before xs), any-sort_by q before xs)

  module _ (before : A → A → Bool) where
    -- No element stands somewhere after one that it is strictly before.
    abbrev pub Sorted : List A → Type 0
    Sorted [] = Unit
    Sorted (x ∷ xs) = All (λ y. before y x ≡ false) xs × Sorted xs

    All-insert_by :
        (P : A → Type 0) (x : A) (xs : List A) → P x → All P xs → All P (insert_by before x xs)
    unfolding insert_by
    All-insert_by P x [] px h = (px, tt)
    All-insert_by P x (y ∷ ys) px h = elim (Bool-cases (before y x)) [
      | inl e ↦ rw e (h.0, All-insert_by P x ys px h.1)
      | inr e ↦ rw e (px, h)
    ]

    module _ (asym : (x y : A) → before x y ≡ true → before y x ≡ false)
        (chain : (x y z : A) → before y x ≡ false → before z y ≡ false → before z x ≡ false) where
      insert_by-Sorted : (x : A) (xs : List A) → Sorted xs → Sorted (insert_by before x xs)
      unfolding insert_by
      insert_by-Sorted x [] h = (tt, tt)
      insert_by-Sorted x (y ∷ ys) h = elim (Bool-cases (before y x)) [
        | inl e ↦ rw e (
          All-insert_by (λ z. before z y ≡ false) x ys (asym y x e) h.0,
          insert_by-Sorted x ys h.1,
        )
        | inr e ↦ rw e ((e, All-chain x y ys e h.0), h)
      ]
        where
          All-chain :
              (x y : A) (ys : List A)
              → before y x ≡ false
              → All (λ z. before z y ≡ false) ys
              → All (λ z. before z x ≡ false) ys
          All-chain x y [] e k = tt
          All-chain x y (z ∷ zs) e k = (chain x y z e k.0, All-chain x y zs e k.1)

      pub sort_by-Sorted : (xs : List A) → Sorted (sort_by before xs)
      unfolding sort_by
      sort_by-Sorted [] = tt
      sort_by-Sorted (x ∷ xs) = insert_by-Sorted x (sort_by before xs) (sort_by-Sorted xs)
