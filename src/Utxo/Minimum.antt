-- ===== src/Utxo/Minimum.antt =====
-- The least change that is not negative, and the last row of the window order with a property.
use spv_wallet.Prelude.{
  ℕ, ◌≤◌, ◌≡◌, refl, ◌⊎◌, inl, inr, Bool, true, false, Option, none, some, List, [], ◌∷◌, arith, In,
  Bool-cases, Option-cases,
}
use spv_wallet.Prelude.Int.{ℤ, pos, ◌≤ℤ◌, ◌<ℤ◌}
use spv_wallet.Utxo.{Utxo, min_case, min_change}
use spv_wallet.Utxo.Order.{IsTotal, IsTransitive}

min_case-some :
    (z : ℤ) (m : Option ℕ) (n : ℕ)
    → min_case z m ≡ some n
    → ((z ≡ pos n) ⊎ (m ≡ some n)) × (pos 0 ≤ℤ z → pos n ≤ℤ z) × ((k : ℕ) → m ≡ some k → n ≤ k)
min_case-some z m n h = (ground arith, ground arith, λ k e. ground arith)

min_case-none : (z : ℤ) (m : Option ℕ) → min_case z m ≡ none → (z <ℤ pos 0) × (m ≡ none)
min_case-none z m h = ground arith

bool_clash : {b : Bool} → b ≡ false → b ≡ true → ⊥
bool_clash e f = cc

module _ (f : Utxo → ℤ) where
  pub min_change_none :
      (rows : List Utxo) → min_change f rows ≡ none → (r : Utxo) → In r rows → f r <ℤ pos 0
  unfolding min_change
  min_change_none [] h r i = absurd i
  min_change_none (x ∷ rows) h r (inl e) = rw e (min_case-none (f x) (min_change f rows) h).0
  min_change_none (x ∷ rows) h r (inr i) =
      min_change_none rows (min_case-none (f x) (min_change f rows) h).1 r i

  pub min_change_attained :
      (rows : List Utxo) (m : ℕ)
      → min_change f rows ≡ some m
      → (r : Utxo) × In r rows × (f r ≡ pos m)
  unfolding min_change
  min_change_attained [] m h = cc
  min_change_attained (x ∷ rows) m h = elim (min_case-some (f x) (min_change f rows) m h).0 [
    | inl e ↦ (x, inl refl, e)
    | inr e ↦ let (r, i, q) = min_change_attained rows m e in (r, inr i, q)
  ]

  pub min_change_least :
      (rows : List Utxo) (m : ℕ)
      → min_change f rows ≡ some m
      → (r : Utxo) → In r rows
      → pos 0 ≤ℤ f r
      → pos m ≤ℤ f r
  unfolding min_change
  min_change_least [] m h r i p = absurd i
  min_change_least (x ∷ rows) m h r (inl e) p =
      rw e ((min_case-some (f x) (min_change f rows) m h).1 (rw e at p))
  min_change_least (x ∷ rows) m h r (inr i) p = elim (Option-cases (min_change f rows)) [
    | inl e ↦ absurd (omega (arith, min_change_none rows e r i))
    | inr (k, e) ↦ omega (
      arith,
      min_change_least rows k e r i p,
      (min_case-some (f x) (min_change f rows) m h).2 k e,
    )
  ]

-- Of the rows that pass a test there is a last one.
module _ {A : Type 0} (le : A → A → Bool) (total : IsTotal le) (trans : IsTransitive le) where
  abbrev pub IsLast : (A → Bool) → A → List A → Type 0
  IsLast p u rows = In u rows × (p u ≡ true) × ((r : A) → In r rows → p r ≡ true → le r u ≡ true)

  le_self : (u : A) → le u u ≡ true
  le_self u = ground (arith, total u u)

  module _ (p : A → Bool) (x : A) (rows : List A) where
    IsLast-here :
        p x ≡ true → ((r : A) → In r rows → p r ≡ true → le r x ≡ true) → IsLast p x (x ∷ rows)
    IsLast-here t l = (inl refl, t, above)
      where
        above : (r : A) → (r ≡ x) ⊎ In r rows → p r ≡ true → le r x ≡ true
        above r (inl e) q = rw e (le_self x)
        above r (inr j) q = l r j q

    IsLast-there : (u : A) → IsLast p u rows → (p x ≡ true → le x u ≡ true) → IsLast p u (x ∷ rows)
    IsLast-there u (i, t, l) h = (inr i, t, above)
      where
        above : (r : A) → (r ≡ x) ⊎ In r rows → p r ≡ true → le r u ≡ true
        above r (inl e) q = rw e (h (rw e at q))
        above r (inr j) q = l r j q

    IsLast-cons : (u : A) → IsLast p u rows → (v : A) × IsLast p v (x ∷ rows)
    IsLast-cons u (i, t, l) = elim (Bool-cases (p x)) [
      | inr no_x ↦ (u, IsLast-there u (i, t, l) (λ q. cc))
      | inl yes_x ↦ elim (Bool-cases (le x u)) [
        | inl earlier ↦ (u, IsLast-there u (i, t, l) (λ q. earlier))
        | inr later ↦ (x, IsLast-here yes_x (λ r j q. trans r u x (l r j q) (total x u later)))
      ]
    ]

  only-IsLast :
      (p : A → Bool) (x : A) (rows : List A)
      → p x ≡ true
      → ((u : A) × IsLast p u rows) ⊎ ((r : A) → In r rows → p r ≡ false)
      → (v : A) × IsLast p v (x ∷ rows)
  only-IsLast p x rows t (inl (u, l)) = IsLast-cons p x rows u l
  only-IsLast p x rows t (inr nowhere) =
      (x, IsLast-here p x rows t (λ r j q. absurd (bool_clash (nowhere r j) q)))

  IsLast-or_none :
      (p : A → Bool) (rows : List A)
      → ((u : A) × IsLast p u rows) ⊎ ((r : A) → In r rows → p r ≡ false)
  IsLast-or_none p [] = inr (λ r i. absurd i)
  IsLast-or_none p (x ∷ rows) = elim (Bool-cases (p x)) [
    | inl t ↦ inl (only-IsLast p x rows t (IsLast-or_none p rows))
    | inr no_x ↦ elim (IsLast-or_none p rows) [
      | inl (u, l) ↦ inl (IsLast-cons p x rows u l)
      | inr nowhere ↦ inr (nowhere_cons no_x nowhere)
    ]
  ]
    where
      nowhere_cons :
          p x ≡ false
          → ((r : A) → In r rows → p r ≡ false)
          → (r : A) → (r ≡ x) ⊎ In r rows
          → p r ≡ false
      nowhere_cons no_x n r (inl e) = rw e no_x
      nowhere_cons no_x n r (inr j) = n r j

  pub IsLast-exists :
      (p : A → Bool) (rows : List A) (r : A) → In r rows → p r ≡ true → (u : A) × IsLast p u rows
  IsLast-exists p rows r i t = elim (IsLast-or_none p rows) [
    | inl last ↦ last
    | inr nowhere ↦ absurd (bool_clash (nowhere r i) t)
  ]
