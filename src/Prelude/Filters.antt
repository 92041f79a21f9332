-- ===== src/Prelude/Filters.antt =====
-- Filters that agree, filters of filters, and sums over them.
use mathlib.Core.Path.{◌≡◌, refl}
use mathlib.Core.Bool.{Bool, true, ◌&&◌}
use mathlib.Core.Logic.{◌⊎◌, inl, inr}
use mathlib.Core.List.{List, [], ◌∷◌, ◌++◌}
use native.Mathlib.Omega.{arith}
use spv_wallet.Prelude.Tests.{Bool-cases}
use spv_wallet.Prelude.Lists.{filter, In}

pub Bool_ext : {a b : Bool} → (a ≡ true → b ≡ true) → (b ≡ true → a ≡ true) → a ≡ b
Bool_ext h k = ground arith

module _ {A : Type 0} where
  pub filter_congr :
      (p q : A → Bool) (xs : List A) → ((x : A) → In x xs → p x ≡ q x) → filter p xs ≡ filter q xs
  filter_congr p q [] h = refl
  filter_congr p q (x ∷ xs) h = rw (h x (inl refl), filter_congr p q xs (λ y i. h y (inr i))) refl

  pub filter-filter :
      (p q : A → Bool) (xs : List A) → filter p (filter q xs) ≡ filter (λ x. q x && p x) xs
  filter-filter p q [] = refl
  filter-filter p q (x ∷ xs) = ground (arith, filter-filter p q xs)

  In-filter_head :
      (p : A → Bool) (y : A) (xs : List A) (x : A)
      → p y ≡ true
      → (In x (filter p xs) → In x xs × (p x ≡ true))
      → (x ≡ y) ⊎ In x (filter p xs)
      → ((x ≡ y) ⊎ In x xs) × (p x ≡ true)
  In-filter_head p y xs x t ih (inl e) = (inl e, rw e t)
  In-filter_head p y xs x t ih (inr j) = let (k, u) = ih j in (inr k, u)

  pub In-filter : (p : A → Bool) (xs : List A) (x : A) → In x (filter p xs) → In x xs × (p x ≡ true)
  In-filter p [] x i = absurd i
  In-filter p (y ∷ xs) x i = elim (Bool-cases (p y)) [
    | inr no_y ↦ let (j, t) = In-filter p xs x (rw no_y at i) in (inr j, t)
    | inl yes_y ↦ In-filter_head p y xs x yes_y (In-filter p xs x) (rw yes_y at i)
  ]

  pub filter-In : (p : A → Bool) (xs : List A) (x : A) → In x xs → p x ≡ true → In x (filter p xs)
  filter-In p [] x i t = i
  filter-In p (y ∷ xs) x (inl e) t = let u : p y ≡ true = rw e at t in rw u (inl e)
  filter-In p (y ∷ xs) x (inr i) t = elim (Bool-cases (p y)) [
    | inl yes_y ↦ rw yes_y (inr (filter-In p xs x i t))
    | inr no_y ↦ rw no_y (filter-In p xs x i t)
  ]

module _ {A : Type 0} where
  pub In-append : (a : A) (xs ys : List A) → In a (xs ++ ys) → In a xs ⊎ In a ys
  In-append a [] ys i = inr i
  In-append a (x ∷ xs) ys (inl e) = inl (inl e)
  In-append a (x ∷ xs) ys (inr i) = elim (In-append a xs ys i) [
    | inl j ↦ inl (inr j)
    | inr j ↦ inr j
  ]

  pub append-In_left : (a : A) (xs ys : List A) → In a xs → In a (xs ++ ys)
  append-In_left a [] ys i = absurd i
  append-In_left a (x ∷ xs) ys (inl e) = inl e
  append-In_left a (x ∷ xs) ys (inr i) = inr (append-In_left a xs ys i)

  pub append-In_right : (a : A) (xs ys : List A) → In a ys → In a (xs ++ ys)
  append-In_right a [] ys i = i
  append-In_right a (x ∷ xs) ys i = inr (append-In_right a xs ys i)
