-- ===== src/Utxo/Order.antt =====
-- The order of the window.
use spv_wallet.Prelude.{ℕ, ◌≡◌, Bool, true, false, String, arith, leb, if◌then◌else◌}
use spv_wallet.Utxo.{Utxo, then_by, before}

abbrev pub IsTotal : {A : Type 0} → (A → A → Bool) → Type 0
IsTotal le = (a b : _) → le a b ≡ false → le b a ≡ true

abbrev pub IsTransitive : {A : Type 0} → (A → A → Bool) → Type 0
IsTransitive le = (a b c : _) → le a b ≡ true → le b c ≡ true → le a c ≡ true

then_by_total :
    (a b : ℕ) (r s : Bool) → (r ≡ false → s ≡ true) → then_by a b r ≡ false → then_by b a s ≡ true
then_by_total a b r s h e = ground arith

then_by_trans :
    (a b c : ℕ) (r s t : Bool)
    → (r ≡ true → s ≡ true → t ≡ true)
    → then_by a b r ≡ true
    → then_by b c s ≡ true
    → then_by a c t ≡ true
then_by_trans a b c r s t h e f = ground arith

module _ (text_leb : String → String → Bool) where
  -- The last two columns.
  abbrev tail_key : Utxo → Utxo → Bool
  tail_key a b =
      if text_leb a.tx_id b.tx_id
      then (if text_leb b.tx_id a.tx_id then leb a.vout b.vout else true)
      else false

  tail_key-IsTotal : IsTotal text_leb → IsTotal tail_key
  tail_key-IsTotal total a b e = ground (arith, total a.tx_id b.tx_id)

  tail_key_trans : IsTransitive text_leb → IsTransitive tail_key
  tail_key_trans trans a b c e f = ground (
    arith,
    trans a.tx_id b.tx_id c.tx_id,
    trans c.tx_id a.tx_id b.tx_id,
    trans b.tx_id c.tx_id a.tx_id,
  )

  pub before-IsTotal : IsTotal text_leb → IsTotal (before text_leb)
  unfolding before
  before-IsTotal total a b =
      then_by_total a.touched_at b.touched_at _ _
        (then_by_total a.created_at b.created_at _ _ (tail_key-IsTotal total a b))

  pub before_trans : IsTransitive text_leb → IsTransitive (before text_leb)
  unfolding before
  before_trans trans a b c =
      then_by_trans a.touched_at b.touched_at c.touched_at _ _ _
        (then_by_trans a.created_at b.created_at c.created_at _ _ _ (tail_key_trans trans a b c))
