-- ===== src/Base/Tables.antt =====
-- SQL statements on a table as a list of rows.
use aithena.Base.{
  ◌≡◌, refl, Bool, false, ◌&&◌, Option, none, some, List, [], ◌∷◌, ◌++◌, arith, if◌then◌else◌, All,
  keep,
}

module _ {ℓ} {A : Type ℓ} where
  -- `UPDATE … SET … WHERE p`
  unfoldable pub update_where : (A → Bool) → (A → A) → List A → List A
  update_where p f [] = []
  update_where p f (x ∷ xs) = (if p x then f x else x) ∷ update_where p f xs

  -- `DELETE … WHERE p`
  unfoldable pub delete_where : (A → Bool) → List A → List A
  delete_where p [] = []
  delete_where p (x ∷ xs) = let rest = delete_where p xs in if p x then rest else x ∷ rest

  -- `SELECT … WHERE p`, then `fetchone`
  unfoldable pub find : (A → Bool) → List A → Option A
  find p [] = none
  find p (x ∷ xs) = let rest = find p xs in if p x then some x else rest

  -- An UPDATE that keeps q and touches only rows outside q does not change the rows of q.
  pub keep-update_where :
      (q p : A → Bool) (f : A → A) (xs : List A)
      → All (λ x. ((p x && q x) ≡ false) × (q (f x) ≡ q x)) xs
      → keep q (update_where p f xs) ≡ keep q xs
  unfolding keep update_where
  keep-update_where q p f [] h = refl
  keep-update_where q p f (x ∷ xs) h = ground (arith, keep-update_where q p f xs h.1)

  pub keep-delete_where :
      (q p : A → Bool) (xs : List A)
      → All (λ x. (p x && q x) ≡ false) xs
      → keep q (delete_where p xs) ≡ keep q xs
  unfolding keep delete_where
  keep-delete_where q p [] h = refl
  keep-delete_where q p (x ∷ xs) h = ground (arith, keep-delete_where q p xs h.1)

  pub keep-append : (q : A → Bool) (xs ys : List A) → keep q (xs ++ ys) ≡ keep q xs ++ keep q ys
  unfolding keep
  keep-append q [] ys = refl
  keep-append q (x ∷ xs) ys = ground (arith, keep-append q xs ys)

  pub find-append :
      (q : A → Bool) (xs : List A) (y r : A) → find q xs ≡ some r → find q (xs ++ y ∷ []) ≡ some r
  unfolding find
  find-append q [] y r h = cc
  find-append q (x ∷ xs) y r h = ground (arith, find-append q xs y r)

  pub find-update_where :
      (q p : A → Bool) (f : A → A) (xs : List A)
      → All (λ x. ((p x && q x) ≡ false) × (q (f x) ≡ q x)) xs
      → find q (update_where p f xs) ≡ find q xs
  unfolding find update_where
  find-update_where q p f [] h = refl
  find-update_where q p f (x ∷ xs) h = ground (arith, find-update_where q p f xs h.1)

  pub find-delete_where :
      (q p : A → Bool) (xs : List A)
      → All (λ x. (p x && q x) ≡ false) xs
      → find q (delete_where p xs) ≡ find q xs
  unfolding find delete_where
  find-delete_where q p [] h = refl
  find-delete_where q p (x ∷ xs) h = ground (arith, find-delete_where q p xs h.1)

  pub every-All {κ} : (P : A → Type κ) → ((x : A) → P x) → (xs : List A) → All P xs
  every-All P f [] = tt
  every-All P f (x ∷ xs) = (f x, every-All P f xs)
