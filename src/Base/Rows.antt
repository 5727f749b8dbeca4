-- ===== src/Base/Rows.antt =====
-- Tables whose rows do not clash, under INSERT, UPDATE and DELETE.
use aithena.Base.{
  ◌≡◌, refl, ◌∙◌, inl, inr, Bool-cases, Bool, false, ◌||◌, ◌&&◌, List, [], ◌∷◌, ◌++◌, arith, All,
  any,
}
use mathlib.Core.Path.{fun_ext}
use aithena.Base.Tables.{update_where, delete_where}

module _ {ℓ} {A : Type ℓ} where
  pub any-append : (q : A → Bool) (xs : List A) (y : A) → any q (xs ++ y ∷ []) ≡ (any q xs || q y)
  unfolding any
  any-append q [] y = ground arith
  any-append q (x ∷ xs) y = ground (arith, any-append q xs y)

  pub any-update_where :
      (q p : A → Bool) (f : A → A) (xs : List A)
      → ((x : A) → q (f x) ≡ q x)
      → any q (update_where p f xs) ≡ any q xs
  unfolding any update_where
  any-update_where q p f [] same = refl
  any-update_where q p f (x ∷ xs) same = ground (arith, same x, any-update_where q p f xs same)

  pub any-delete_where :
      (q p : A → Bool) (xs : List A) → any q xs ≡ false → any q (delete_where p xs) ≡ false
  unfolding any delete_where
  any-delete_where q p [] h = refl
  any-delete_where q p (x ∷ xs) h = ground (arith, any-delete_where q p xs)

  pub any-delete_where_ne :
      (q p : A → Bool) (xs : List A)
      → All (λ x. (p x && q x) ≡ false) xs
      → any q (delete_where p xs) ≡ any q xs
  unfolding any delete_where
  any-delete_where_ne q p [] h = refl
  any-delete_where_ne q p (x ∷ xs) h = ground (arith, any-delete_where_ne q p xs h.1)

module _ {ℓ} {A : Type ℓ} (clash : A → A → Bool) where
  -- No two rows clash.
  abbrev pub Unique : List A → Type 0
  Unique [] = Unit
  Unique (x ∷ xs) = (any (clash x) xs ≡ false) × Unique xs

  pub Unique-append :
      ((x y : A) → clash x y ≡ clash y x)
      → (xs : List A) (y : A) → any (clash y) xs ≡ false
      → Unique xs
      → Unique (xs ++ y ∷ [])
  unfolding any
  Unique-append comm [] y h u = (refl, tt)
  Unique-append comm (x ∷ xs) y h u = (
    ground (arith, comm x y, any-append (clash x) xs y),
    Unique-append comm xs y (ground arith) u.1,
  )

  pub Unique-update_where :
      (p : A → Bool) (f : A → A)
      → ((x y : A) → clash (f x) y ≡ clash x y)
      → ((x y : A) → clash x (f y) ≡ clash x y)
      → (xs : List A) → Unique xs
      → Unique (update_where p f xs)
  unfolding update_where
  Unique-update_where p f left right [] u = tt
  Unique-update_where p f left right (x ∷ xs) u =
      let rest = Unique-update_where p f left right xs u.1 in
      let same = any-update_where (clash x) p f xs (right x) ∙ u.0 in
      elim (Bool-cases (p x)) [
        | inl e ↦ rw (e, fun_ext (left x)) (same, rest)
        | inr e ↦ rw e (same, rest)
      ]

  pub Unique-delete_where : (p : A → Bool) (xs : List A) → Unique xs → Unique (delete_where p xs)
  unfolding delete_where
  Unique-delete_where p [] u = tt
  Unique-delete_where p (x ∷ xs) u =
      let rest = Unique-delete_where p xs u.1 in
      elim (Bool-cases (p x)) [
        | inl e ↦ rw e rest
        | inr e ↦ rw e (any-delete_where (clash x) p xs u.0, rest)
      ]

module _ {ℓ κ μ} {A : Type ℓ} (P : A → Type κ) (Q : A → Type μ) where
  pub All-update_where :
      (p : A → Bool) (f : A → A)
      → ((x : A) → P x → Q (f x))
      → ((x : A) → P x → Q x)
      → (xs : List A) → All P xs
      → All Q (update_where p f xs)
  unfolding update_where
  All-update_where p f changed same [] h = tt
  All-update_where p f changed same (x ∷ xs) h =
      let rest = All-update_where p f changed same xs h.1 in
      elim (Bool-cases (p x)) [
        | inl e ↦ rw e (changed x h.0, rest)
        | inr e ↦ rw e (same x h.0, rest)
      ]

  pub All-delete_where :
      (p : A → Bool)
      → ((x : A) → p x ≡ false → P x → Q x)
      → (xs : List A) → All P xs
      → All Q (delete_where p xs)
  unfolding delete_where
  All-delete_where p left [] h = tt
  All-delete_where p left (x ∷ xs) h =
      let rest = All-delete_where p left xs h.1 in
      elim (Bool-cases (p x)) [ inl e ↦ rw e rest | inr e ↦ rw e (left x e h.0, rest) ]
