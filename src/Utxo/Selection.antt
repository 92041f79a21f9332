-- ===== src/Utxo/Selection.antt =====
-- What the query selects where the change never falls along the window order, and what it pays for.
use spv_wallet.Prelude.{
  ℕ, ◌+◌, ◌≡◌, ◌⊎◌, Bool, true, String, some, List, arith, if◌then◌else◌, filter, sum_by, In,
  Bool_ext, filter_congr,
}
use spv_wallet.Prelude.Int.{ℤ, pos, ◌-ℤ◌, ◌≤ℤ◌, leb_ℤ, leb_ℤ→le, le→leb_ℤ, int_laws}
use spv_wallet.Utxo.{
  Utxo, Composer, fee_of, estimated_change_output_size, before, window, remaining_value,
  fee_no_change_output, fee_with_change_output, change, min_change, choose_inputs,
}
use spv_wallet.Utxo.Order.{IsTotal, IsTransitive, before-IsTotal, before_trans}
use spv_wallet.Utxo.Minimum.{min_change_attained, IsLast-exists}

-- The rows pay for the outputs and the fee of a transaction with these inputs, to the satoshi;
-- what is left over is the change, and a change output is paid for unless there is no change.
abbrev pub Pays : Composer → List Utxo → ℕ → Type 0
Pays c rows m =
    let value = sum_by (λ r. r.satoshis) rows in
    let size = sum_by (λ r. r.estimated_input_size) rows + c.tx_without_inputs_size in
    ((m ≡ 0) × (value ≡ c.outputs_total_value + fee_of c.fee_unit size))
    ⊎ (value ≡ c.outputs_total_value + fee_of c.fee_unit (size + estimated_change_output_size) + m)

≤ℤ_antisym : (a b : ℤ) → a ≤ℤ b → b ≤ℤ a → a ≡ b
≤ℤ_antisym a b h k = omega int_laws

settle :
    (value outputs fee fee_with_change m : ℕ)
    → (let without = pos value -ℤ pos outputs -ℤ pos fee in
        if leb_ℤ without (pos 0) then without else pos value -ℤ pos outputs -ℤ pos fee_with_change)
      ≡ pos m
    → ((m ≡ 0) × (value ≡ outputs + fee)) ⊎ (value ≡ outputs + fee_with_change + m)
unfolding ◌-ℤ◌
settle value outputs fee fee_with_change m h = ground arith

module _ (text_leb : String → String → Bool) (c : Composer) (rows : List Utxo) where
  -- Along the order of the window the change does not fall.
  abbrev pub IsOrderly : Type 0
  IsOrderly =
      (r s : Utxo)
      → In r rows
      → In s rows
      → before text_leb r s ≡ true
      → change text_leb c rows r ≤ℤ change text_leb c rows s

  -- A row whose change is the natural number `m` pays with the rows before it.
  pub change-Pays :
      (u : Utxo) (m : ℕ)
      → change text_leb c rows u ≡ pos m
      → Pays c (filter (λ r. before text_leb r u) rows) m
  unfolding change remaining_value fee_no_change_output fee_with_change_output window
  change-Pays u m h =
      settle (sum_by (λ r. r.satoshis) (filter (λ r. before text_leb r u) rows))
        c.outputs_total_value _ _ m h

  module _ (total : IsTotal text_leb) (trans : IsTransitive text_leb) (orderly : IsOrderly) where
    -- The row with the least change that comes last.
    last_needed :
        (m : ℕ)
        → min_change (change text_leb c rows) rows ≡ some m
        → (u : Utxo) × In u rows
          × (change text_leb c rows u ≡ pos m)
          × ((r : Utxo)
              → In r rows
              → leb_ℤ (change text_leb c rows r) (pos m) ≡ before text_leb r u)
    last_needed m h =
        let (r₀, i₀, e₀) = min_change_attained (change text_leb c rows) rows m h in
        let t₀ : leb_ℤ (change text_leb c rows r₀) (pos m) ≡ true =
          le→leb_ℤ (change text_leb c rows r₀) (pos m) (rw e₀ (omega arith)) in
        let (u, l) =
          IsLast-exists (before text_leb) (before-IsTotal text_leb total)
            (before_trans text_leb trans) (λ r. leb_ℤ (change text_leb c rows r) (pos m)) rows r₀ i₀
            t₀ in
        let (i, t, last) = l in
        let below : change text_leb c rows u ≤ℤ pos m =
          leb_ℤ→le (change text_leb c rows u) (pos m) t in
        let above : change text_leb c rows r₀ ≤ℤ change text_leb c rows u =
          orderly r₀ u i₀ i (last r₀ i₀ t₀) in
        let e : change text_leb c rows u ≡ pos m =
          ≤ℤ_antisym (change text_leb c rows u) (pos m) below (rw e₀ at above) in
        (
          u,
          i,
          e,
          λ r j.
              Bool_ext (last r j)
                (λ b. le→leb_ℤ (change text_leb c rows r) (pos m) (rw e at (orderly r u j i b))),
        )

    pub choose_inputs-window :
        (m : ℕ)
        → min_change (change text_leb c rows) rows ≡ some m
        → (u : Utxo) × In u rows
          × (change text_leb c rows u ≡ pos m)
          × (choose_inputs text_leb c rows ≡ filter (λ r. before text_leb r u) rows)
    unfolding choose_inputs
    choose_inputs-window m h =
        let (u, i, e, same) = last_needed m h in
        (u, i, e, rw (h, choose_inputs) (filter_congr _ _ rows same))

    -- Where the change never falls along the window order and some row has a change that is not
    -- negative, the selected inputs pay exactly for the outputs, the fee and the least change.
    pub choose_inputs-Pays :
        (m : ℕ)
        → min_change (change text_leb c rows) rows ≡ some m
        → Pays c (choose_inputs text_leb c rows) m
    choose_inputs-Pays m h =
        let (u, i, e, same) = choose_inputs-window m h in rw same (change-Pays u m e)
