-- ===== src/Record/Sets.antt =====
-- The addresses as a set of pairs of an address and an index.
use spv_wallet.Prelude.{
  ℕ, ◌≡◌, refl, Bool, true, false, not, ◌&&◌, ◌||◌, String, none, List, [], ◌∷◌, ◌=?◌, ◌==◌, =?_iff,
  any, filter, arith, if◌then◌else◌,
}
use spv_wallet.Record.Addresses.{
  Addresses, vouts_of, insert_vout, add_address, contains, entry_or_nothing, remove,
}

any-insert_vout :
    (v w : ℕ) (l : List ℕ) → any (λ x. x == v) (insert_vout w l) ≡ ((w == v) || any (λ x. x == v) l)
unfolding insert_vout
any-insert_vout v w l = elim_test (any (λ x. x == w) l) refl
  where
    already :
        (k : List ℕ)
        → any (λ x. x == w) k ≡ true
        → ((w == v) || any (λ x. x == v) k) ≡ any (λ x. x == v) k
    already [] h = ground arith
    already (x ∷ k) h = ground (arith, already k)

    elim_test :
        (b : Bool)
        → any (λ x. x == w) l ≡ b
        → any (λ x. x == v) (if b then l else w ∷ l) ≡ ((w == v) || any (λ x. x == v) l)
    elim_test true h = ground (arith, already l h)
    elim_test false h = refl

-- After a pair is added, the addresses contain it and the pairs that they contained, and no other.
pub contains-add_address :
    (a b : String) (v w : ℕ) (m : Addresses)
    → contains b w (add_address a v m) ≡ (((a =? b) && (v == w)) || contains b w m)
unfolding contains add_address vouts_of
contains-add_address a b v w [] = ground arith
contains-add_address a b v w ((c, vouts) ∷ m) = ground (
  arith,
  contains-add_address a b v w m,
  any-insert_vout w v vouts,
  =?_iff c a,
  =?_iff c b,
  =?_iff a b,
)

-- The map has one entry for an address.
abbrev pub IsUnique : Addresses → Type 0
IsUnique [] = Unit
IsUnique ((a, vouts) ∷ m) = (vouts_of a m ≡ none) × IsUnique m

any-filter :
    (v w : ℕ) (l : List ℕ)
    → any (λ x. x == w) (filter (λ x. not (x == v)) l) ≡ (any (λ x. x == w) l && not (v == w))
any-filter v w [] = refl
any-filter v w (x ∷ l) = ground (arith, any-filter v w l)

contains-entry :
    (a b : String) (w : ℕ) (l : List ℕ) (m : Addresses)
    → vouts_of a m ≡ none
    → contains b w (entry_or_nothing a l m)
      ≡ (if a =? b then any (λ x. x == w) l else contains b w m)
unfolding contains entry_or_nothing vouts_of
contains-entry a b w [] m n = ground (arith, =?_iff a b)
contains-entry a b w (x ∷ l) m n = ground arith

-- In a map with one entry for an address, after a pair is removed the addresses contain the pairs that
-- they contained, except this one.
pub contains-remove :
    (a b : String) (v w : ℕ) (m : Addresses)
    → IsUnique m
    → contains b w (remove a v m) ≡ (contains b w m && not ((a =? b) && (v == w)))
unfolding contains remove vouts_of
contains-remove a b v w [] u = ground arith
contains-remove a b v w ((c, vouts) ∷ m) u = ground (
  arith,
  contains-remove a b v w m u.1,
  any-filter v w vouts,
  contains-entry c b w (filter (λ x. not (x == v)) vouts) m u.0,
  =?_iff c a,
  =?_iff c b,
  =?_iff a b,
)
