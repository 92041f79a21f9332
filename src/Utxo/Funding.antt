-- ===== src/Utxo/Funding.antt =====
-- What the selection returns to the transaction outline.
use spv_wallet.Prelude.{
  ℕ, ◌≤◌, ◌<◌, ◌+◌, ◌≡◌, ◌≢◌, ◌⊎◌, Bool-cases, if◌then◌else◌, refl, sym, ap, ◌∙◌, ◌↔◌, inl, inr,
  Bool, true, false, String, some, List, [], ◌∷◌, map, arith, In, Option-cases, filter-In,
}
use spv_wallet.Prelude.Int.{pos, ◌<ℤ◌, ◌-ℤ◌, leb_ℤ, le→leb_ℤ, leb_ℤ→le, leb_ℤ_false, -ℤ_parts}
use spv_wallet.Prelude.Results.{ok}
use spv_wallet.Utxo.{
  Utxo, Composer, Faults, estimated_change_output_size, fee_of, window, remaining_value,
  fee_no_change_output, fee_with_change_output, utxos, change, min_change, choose_inputs, build,
  select_inputs_for_transaction, first_change,
}
use spv_wallet.Utxo.Order.{IsTotal, IsTransitive}
use spv_wallet.Utxo.Minimum.{min_change_none, min_change_attained}
use spv_wallet.Utxo.Selection.{Pays, IsOrderly, choose_inputs-Pays}
use spv_wallet.Utxo.Growth.{IsWorthSize, change-IsOrderly}
use spv_wallet.Utxo.Join.{HasUniqueOutpoints, build-some, build-none}

abbrev pub faultless : Faults
faultless = record { find_fails = false; update_fails = false }

-- The rows without the column `change`.
abbrev pub rows_of : List (Utxo × ℕ) → List Utxo
rows_of l = map (λ (p : Utxo × ℕ). p.0) l

abbrev pub with_change : ℕ → List Utxo → List (Utxo × ℕ)
with_change m l = map (λ (r : Utxo). let p : Utxo × ℕ = (r, m) in p) l

pub rows_of-with_change : (m : ℕ) (l : List Utxo) → rows_of (with_change m l) ≡ l
rows_of-with_change m [] = refl
rows_of-with_change m (x ∷ l) = ap (λ t. x ∷ t) (rows_of-with_change m l)

first_change-with_change :
    (m : ℕ) (l : List Utxo) → with_change m l ≢ [] → first_change (with_change m l) ≡ m
first_change-with_change m [] h = absurd (h refl)
first_change-with_change m (x ∷ l) h = refl

with_change_nil : (m : ℕ) (l : List Utxo) → with_change m l ≡ [] → l ≡ []
with_change_nil m [] h = refl
with_change_nil m (x ∷ l) h = cc

-- The size of the transaction with the row and those before it as inputs, without a change output.
abbrev pub inputs_size : (String → String → Bool) → Composer → List Utxo → Utxo → ℕ
inputs_size text_leb c rows r =
    window text_leb (λ x. x.estimated_input_size) rows r + c.tx_without_inputs_size

-- The row and those before it are worth less than the outputs and the fee, or worth more but less than the
-- outputs and the fee of a transaction that has a change output too.
abbrev pub CannotPay : (String → String → Bool) → Composer → List Utxo → Utxo → Type 0
CannotPay text_leb c rows r =
    let value = window text_leb (λ x. x.satoshis) rows r in
    let size = inputs_size text_leb c rows r in
    (value < c.outputs_total_value + fee_of c.fee_unit size)
    ⊎ ((c.outputs_total_value + fee_of c.fee_unit size < value)
        × (value < c.outputs_total_value + fee_of c.fee_unit (size + estimated_change_output_size)))

change_sign :
    (value outputs fee more : ℕ)
    → let remaining = pos value -ℤ pos outputs in
      let without = remaining -ℤ pos fee in
      ((if leb_ℤ without (pos 0) then without else remaining -ℤ pos more) <ℤ pos 0)
      ↔ ((value < outputs + fee) ⊎ ((outputs + fee < value) × (value < outputs + more)))
change_sign value outputs fee more =
    let remaining = pos value -ℤ pos outputs in
    let a = -ℤ_parts (pos value) (pos outputs) in
    let b = -ℤ_parts remaining (pos fee) in
    let d = -ℤ_parts remaining (pos more) in
    elim (Bool-cases (leb_ℤ (remaining -ℤ pos fee) (pos 0))) [
      | inl low ↦
          let k = leb_ℤ→le (remaining -ℤ pos fee) (pos 0) low in
          rw low (
            λ h. inl (omega arith),
            λ s. elim s [ inl l ↦ omega arith | inr q ↦ absurd (omega (arith, q.0)) ],
          )
      | inr high ↦
          let k = leb_ℤ_false (remaining -ℤ pos fee) (pos 0) high in
          rw high (
            λ h. inr (omega arith, omega arith),
            λ s. elim s [ inl l ↦ absurd (omega arith) | inr q ↦ omega (arith, q.1) ],
          )
    ]

module _ (text_leb : String → String → Bool) (c : Composer) (table : List Utxo) where
  build-Pays :
      IsTotal text_leb
      → IsTransitive text_leb
      → HasUniqueOutpoints table
      → IsOrderly text_leb c (utxos text_leb c table)
      → build text_leb c table ≢ []
      → Pays c (rows_of (build text_leb c table)) (first_change (build text_leb c table))
  build-Pays total trans unique orderly some_rows =
      elim (Option-cases
        (min_change (change text_leb c (utxos text_leb c table)) (utxos text_leb c table))) [
          | inl h ↦ absurd (some_rows (build-none text_leb c table h))
          | inr (m, h) ↦
              let e = build-some text_leb c table m unique h in
              let rows = choose_inputs text_leb c (utxos text_leb c table) in
              let first : first_change (build text_leb c table) ≡ m =
                ap first_change e ∙ first_change-with_change m rows (λ n. some_rows (e ∙ n)) in
              let all : rows_of (build text_leb c table) ≡ rows =
                ap rows_of e ∙ rows_of-with_change m rows in
              rw (first, all)
                (choose_inputs-Pays text_leb c (utxos text_leb c table) total trans orderly m h)
        ]

  pub result_rows :
      (db : Faults) (now : ℕ) (rows : List (Utxo × ℕ))
      → (select_inputs_for_transaction text_leb c db now table).0 ≡ ok rows
      → build text_leb c table ≡ rows
  unfolding select_inputs_for_transaction
  result_rows db now rows h = ground arith

  -- A fee unit of at most one satoshi that covers a change output, a total and transitive
  -- collation, outpoints that are unique in the table, and a user's rows each worth the fee for
  -- its own size: if the selection returns inputs, they pay exactly for the outputs, the fee of
  -- the transaction with these inputs and the change that is returned.
  pub select_inputs-Pays :
      IsTotal text_leb
      → IsTransitive text_leb
      → HasUniqueOutpoints table
      → c.fee_unit.satoshis ≤ 1
      → estimated_change_output_size ≤ c.fee_unit.bytes
      → IsWorthSize c.fee_unit.bytes (utxos text_leb c table)
      → (db : Faults) (now : ℕ) (rows : List (Utxo × ℕ))
      → (select_inputs_for_transaction text_leb c db now table).0 ≡ ok rows
      → rows ≢ []
      → Pays c (rows_of rows) (first_change rows)
  select_inputs-Pays total trans unique one room worth db now rows h n =
      let e = result_rows db now rows h in
      let orderly = change-IsOrderly text_leb c (utxos text_leb c table) trans one room worth in
      rw e at (build-Pays total trans unique orderly (λ z. n (sym e ∙ z)))

  choose_inputs-ne-nil :
      (m : ℕ)
      → min_change (change text_leb c (utxos text_leb c table)) (utxos text_leb c table) ≡ some m
      → choose_inputs text_leb c (utxos text_leb c table) ≢ []
  unfolding choose_inputs
  choose_inputs-ne-nil m h e =
      let rows = utxos text_leb c table in
      let f = change text_leb c rows in
      let (r, i, q) = min_change_attained f rows m h in
      let t : leb_ℤ (f r) (pos m) ≡ true = le→leb_ℤ (f r) (pos m) (rw q (omega arith)) in
      let inside : In r (choose_inputs text_leb c rows) =
        rw (h, choose_inputs) (filter-In (λ x. leb_ℤ (f x) (pos m)) rows r i t) in
      rw e at inside

  build-nil :
      HasUniqueOutpoints table
      → build text_leb c table ≡ []
      → (r : Utxo) → In r (utxos text_leb c table)
      → change text_leb c (utxos text_leb c table) r <ℤ pos 0
  build-nil unique e r i =
      elim (Option-cases
        (min_change (change text_leb c (utxos text_leb c table)) (utxos text_leb c table))) [
          | inl h ↦ min_change_none _ (utxos text_leb c table) h r i
          | inr (m, h) ↦ absurd (
              choose_inputs-ne-nil m h
                (with_change_nil m _ (sym (build-some text_leb c table m unique h) ∙ e)))
        ]

  nil-build :
      ((r : Utxo)
        → In r (utxos text_leb c table)
        → change text_leb c (utxos text_leb c table) r <ℤ pos 0)
      → build text_leb c table ≡ []
  nil-build short =
      elim (Option-cases
        (min_change (change text_leb c (utxos text_leb c table)) (utxos text_leb c table))) [
          | inl h ↦ build-none text_leb c table h
          | inr (m, h) ↦
              let (r, i, q) =
                min_change_attained (change text_leb c (utxos text_leb c table))
                  (utxos text_leb c table) m h in
              let neg : pos m <ℤ pos 0 = rw q at (short r i) in absurd (omega arith)
        ]

  change-CannotPay :
      (rows : List Utxo) (r : Utxo)
      → (change text_leb c rows r <ℤ pos 0) ↔ CannotPay text_leb c rows r
  unfolding change remaining_value fee_no_change_output fee_with_change_output
  change-CannotPay rows r =
      change_sign (window text_leb (λ x. x.satoshis) rows r) c.outputs_total_value
        (fee_of c.fee_unit (inputs_size text_leb c rows r))
        (fee_of c.fee_unit (inputs_size text_leb c rows r + estimated_change_output_size))

  -- Without database faults, and where no outpoint stands in two rows of the table, the selection is
  -- empty exactly when no row of the user, with the user's rows before it, pays: their value is below the
  -- outputs and the fee, or it is above these and below the outputs and the fee with a change output.
  pub select_inputs_empty_iff :
      HasUniqueOutpoints table
      → (now : ℕ)
      → ((select_inputs_for_transaction text_leb c faultless now table).0 ≡ ok []) ↔ (
          (r : Utxo)
          → In r (utxos text_leb c table)
          → CannotPay text_leb c (utxos text_leb c table) r)
  unfolding select_inputs_for_transaction
  select_inputs_empty_iff unique now = (
    λ h r i.
        (change-CannotPay (utxos text_leb c table) r).0
          (build-nil unique (result_rows faultless now [] h) r i),
    λ short.
        rw
          (
            nil-build (λ r i. (change-CannotPay (utxos text_leb c table) r).1 (short r i)),
            select_inputs_for_transaction,
          )
          refl,
  )
