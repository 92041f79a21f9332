-- ===== src/Record/Addresses.antt =====
-- The addresses of a transaction and the outputs that each locks: addresses.go. A set of indexes is
-- a list without repetitions, and so is the map, by address.
use spv_wallet.Prelude.{
  ℕ, Bool, false, not, String, Option, none, some, List, [], ◌∷◌, ◌=?◌, ◌==◌, if◌then◌else◌, any,
  filter,
}

abbrev pub Addresses : Type 0
Addresses = List (String × List ℕ)

unfoldable pub vouts_of : String → Addresses → Option (List ℕ)
vouts_of addr [] = none
vouts_of addr ((a, vouts) ∷ rest) = if a =? addr then some vouts else vouts_of addr rest

-- `vouts[vout] = struct{}{}`
unfoldable pub insert_vout : ℕ → List ℕ → List ℕ
insert_vout vout vouts = if any (λ v. v == vout) vouts then vouts else vout ∷ vouts

-- `append`
unfoldable pub add_address : String → ℕ → Addresses → Addresses
add_address addr vout [] = (addr, vout ∷ []) ∷ []
add_address addr vout ((a, vouts) ∷ rest) =
    if a =? addr
    then (a, insert_vout vout vouts) ∷ rest
    else (a, vouts) ∷ add_address addr vout rest

unfoldable pub contains : String → ℕ → Addresses → Bool
contains addr vout a = elim (vouts_of addr a) [
  | none ↦ false
  | some vouts ↦ any (λ v. v == vout) vouts
]

-- What is left of the entry of an address.
unfoldable pub entry_or_nothing : String → List ℕ → Addresses → Addresses
entry_or_nothing addr [] rest = rest
entry_or_nothing addr (v ∷ vs) rest = (addr, v ∷ vs) ∷ rest

-- `remove`
unfoldable pub remove : String → ℕ → Addresses → Addresses
unfolding entry_or_nothing
remove addr vout [] = []
remove addr vout ((a, vouts) ∷ rest) =
    if a =? addr
    then entry_or_nothing a (filter (λ v. not (v == vout)) vouts) rest
    else (a, vouts) ∷ remove addr vout rest
