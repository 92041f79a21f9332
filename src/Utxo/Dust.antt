-- ===== src/Utxo/Dust.antt =====
-- A later row that is worth less than the fee that its size adds.
use spv_wallet.Prelude.{
  ℕ, ◌+◌, ◌-◌, ◌*◌, ◌/◌, ◌≤◌, ◌<◌, ◌≡◌, ◌⊎◌, inl, inr, Bool, true, false, String, List, [], ◌∷◌,
  arith, filter,
}
use spv_wallet.Prelude.Int.{pos}
use native.Mathlib.Nat.{lt-mul-div-succ}
use spv_wallet.Bsv.{FeeUnit}
use spv_wallet.Utxo.Growth.{ceil_growth}
use spv_wallet.Utxo.Selection.{Pays, change-Pays}
use spv_wallet.Utxo.{
  estimated_change_output_size, Utxo, Composer, fee_of, before, change, min_change, choose_inputs,
}

-- The fee of a sum of sizes is at most the sum of their fees.
le_mul : {a b : ℕ} → a ≤ b → (k : ℕ) → a * k ≤ b * k
le_mul h k = grind arith

fee_of-add :
    (u : FeeUnit) (x e z : ℕ) → 0 < u.bytes → z ≤ x + e → fee_of u z ≤ fee_of u x + fee_of u e
unfolding fee_of
fee_of-add u x e z p h =
    let d = (e + u.bytes - 1) / u.bytes in
    let room : e ≤ u.bytes * d = omega (arith, lt-mul-div-succ (e + u.bytes - 1) p) in
    omega (arith, le_mul (ceil_growth u.bytes x z d p (omega arith)) u.satoshis)

fee_of_mono : (u : FeeUnit) (x z : ℕ) → 0 < u.bytes → x ≤ z → fee_of u x ≤ fee_of u z
unfolding fee_of
fee_of_mono u x z p h = omega (arith, le_mul (ceil_growth u.bytes z x 0 p (omega arith)) u.satoshis)

module _ (text_leb : String → String → Bool) (c : Composer) (a b : Utxo) where
  abbrev pub two : List Utxo
  two = a ∷ b ∷ []

  change_pair :
      (x y : ℕ)
      → change text_leb c two a ≡ pos x
      → change text_leb c two b ≡ pos y
      → y < x
      → choose_inputs text_leb c two ≡ b ∷ []
  unfolding choose_inputs min_change
  change_pair x y h k l = ground arith

  abbrev size : Utxo → ℕ
  size r = r.estimated_input_size + c.tx_without_inputs_size

  -- What the first row alone pays for.
  paid_a :
      (x : ℕ)
      → change text_leb c two a ≡ pos x
      → before text_leb a a ≡ true
      → before text_leb b a ≡ false
      → 0 < x
      → a.satoshis
        ≡ c.outputs_total_value + fee_of c.fee_unit (size a + estimated_change_output_size) + x
  paid_a x h aa ba px =
      let rows : filter (λ r. before text_leb r a) two ≡ a ∷ [] = ground arith in
      let pays : Pays c (a ∷ []) x = rw rows at (change-Pays text_leb c two a x h) in grind arith

  -- What both rows pay for.
  paid_b :
      (y : ℕ)
      → change text_leb c two b ≡ pos y
      → before text_leb a b ≡ true
      → before text_leb b b ≡ true
      → ((y ≡ 0)
          × (a.satoshis + b.satoshis
              ≡ c.outputs_total_value + fee_of c.fee_unit (size a + b.estimated_input_size)))
        ⊎ (a.satoshis + b.satoshis
            ≡ c.outputs_total_value
              + fee_of c.fee_unit (size a + b.estimated_input_size + estimated_change_output_size)
              + y)
  paid_b y k ab bb =
      let rows : filter (λ r. before text_leb r b) two ≡ two = ground arith in
      let pays : Pays c two y = rw rows at (change-Pays text_leb c two b y k) in grind arith

  -- In any two rows of a user, the second after the first in the window order: if both have a
  -- change that is not negative and the second's is the lower, the query selects the second row
  -- alone, and its value does not cover the outputs and the fee of a transaction with that input.
  pub underfunded_selection :
      (x y : ℕ)
      → before text_leb a a ≡ true
      → before text_leb b b ≡ true
      → before text_leb a b ≡ true
      → before text_leb b a ≡ false
      → 0 < c.fee_unit.bytes
      → change text_leb c two a ≡ pos x
      → change text_leb c two b ≡ pos y
      → y < x
      → (choose_inputs text_leb c two ≡ b ∷ [])
        × (b.satoshis
            < c.outputs_total_value
              + fee_of c.fee_unit (b.estimated_input_size + c.tx_without_inputs_size))
  underfunded_selection x y aa bb ab ba p h k l = (
    change_pair x y h k l,
    elim (paid_b y k ab bb) [
      | inl (zero_y, e) ↦ omega (
        arith,
        paid_a x h aa ba (omega arith),
        fee_of-add c.fee_unit (size a + estimated_change_output_size) b.estimated_input_size
            (size a + b.estimated_input_size) p (omega arith),
        fee_of_mono c.fee_unit b.estimated_input_size (size b) p (omega arith),
      )
      | inr e ↦ omega (
        arith,
        paid_a x h aa ba (omega arith),
        fee_of-add c.fee_unit (size a + estimated_change_output_size) b.estimated_input_size
            (size a + b.estimated_input_size + estimated_change_output_size) p (omega arith),
        fee_of_mono c.fee_unit b.estimated_input_size (size b) p (omega arith),
      )
    ],
  )
