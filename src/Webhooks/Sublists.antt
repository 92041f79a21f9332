-- ===== src/Webhooks/Sublists.antt =====
-- Lists with some elements left out, in their order.
use mathlib.Core.Path.{subst}
use spv_wallet.Prelude.{◌≡◌, refl, ap, List, [], ◌∷◌, ◌++◌}

module _ {E : Type 0} where
  pub append_assoc : (xs ys zs : List E) → (xs ++ ys) ++ zs ≡ xs ++ (ys ++ zs)
  append_assoc [] ys zs = refl
  append_assoc (x ∷ xs) ys zs = ap (λ l. x ∷ l) (append_assoc xs ys zs)

  append_nil : (xs : List E) → xs ++ [] ≡ xs
  append_nil [] = refl
  append_nil (x ∷ xs) = ap (λ l. x ∷ l) (append_nil xs)

-- The first list is the second with some elements left out.
pub data Sublist {E : Type 0} : List E → List E → Type 0 where
  empty : Sublist [] []
  skip : (x : E) {xs ys : List E} → Sublist xs ys → Sublist xs (x ∷ ys)
  keep : (x : E) {xs ys : List E} → Sublist xs ys → Sublist (x ∷ xs) (x ∷ ys)

module _ {E : Type 0} where
  pub Sublist_refl : (xs : List E) → Sublist xs xs
  Sublist_refl [] = empty
  Sublist_refl (x ∷ xs) = keep x (Sublist_refl xs)

  pub Sublist_trans :
      {ys zs : List E} → Sublist ys zs → {xs : List E} → Sublist xs ys → Sublist xs zs
  Sublist_trans empty p = p
  Sublist_trans (skip x q) p = skip x (Sublist_trans q p)
  Sublist_trans (keep x q) (skip _ p) = skip x (Sublist_trans q p)
  Sublist_trans (keep x q) (keep _ p) = keep x (Sublist_trans q p)

  pub Sublist-append_both :
      {xs ys : List E} (e : E) → Sublist xs ys → Sublist (xs ++ e ∷ []) (ys ++ e ∷ [])
  Sublist-append_both e empty = keep e empty
  Sublist-append_both e (skip x p) = skip x (Sublist-append_both e p)
  Sublist-append_both e (keep x p) = keep x (Sublist-append_both e p)

  pub Sublist-append : {xs ys : List E} (e : E) → Sublist xs ys → Sublist xs (ys ++ e ∷ [])
  Sublist-append e empty = skip e empty
  Sublist-append e (skip x p) = skip x (Sublist-append e p)
  Sublist-append e (keep x p) = keep x (Sublist-append e p)

  pub Sublist-right : (xs ys : List E) → Sublist ys (xs ++ ys)
  Sublist-right [] ys = Sublist_refl ys
  Sublist-right (x ∷ xs) ys = skip x (Sublist-right xs ys)

  pub Sublist-without : (xs ys zs : List E) → Sublist (xs ++ zs) (xs ++ (ys ++ zs))
  Sublist-without [] ys zs = Sublist-right ys zs
  Sublist-without (x ∷ xs) ys zs = keep x (Sublist-without xs ys zs)

  pub Sublist-left : (xs ys : List E) → Sublist xs (xs ++ ys)
  Sublist-left xs ys =
      subst (λ l. Sublist l (xs ++ ys)) (append_nil xs)
        (subst (λ l. Sublist (xs ++ []) (xs ++ l)) (append_nil ys) (Sublist-without xs ys []))
