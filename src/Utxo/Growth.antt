-- ===== src/Utxo/Growth.antt =====
-- When the change never falls along the window order.
use spv_wallet.Prelude.{
  ℕ, zero, suc, ◌+◌, ◌-◌, ◌*◌, ◌/◌, ◌≤◌, ◌<◌, ◌≡◌, refl, ap, Bool, true, false, String, List, [],
  ◌∷◌, inl, inr, arith, if◌then◌else◌, filter, sum_by, In, Bool-cases,
}
use spv_wallet.Prelude.Int.{ℤ, pos, ◌+ℤ◌, ◌-ℤ◌, ◌≤ℤ◌, leb_ℤ, leb_ℤ→le, leb_ℤ_false, int_laws}
use mathlib.Core.Path.{subst}
use native.Mathlib.Nat.{lt-mul-div-succ, div-lt_iff_lt-mul}
use spv_wallet.Bsv.{FeeUnit}
use spv_wallet.Utxo.{
  Utxo, Composer, fee_of, estimated_change_output_size, before, window, remaining_value,
  fee_no_change_output, fee_with_change_output, change,
}
use spv_wallet.Utxo.Order.{IsTransitive, before_trans}
use spv_wallet.Utxo.Selection.{IsOrderly}

pub ceil_growth : (b x y d : ℕ) → 0 < b → y ≤ x + b * d → (y + b - 1) / b ≤ (x + b - 1) / b + d
ceil_growth b x y d p h =
    let q = (x + b - 1) / b in
    let below : y + b - 1 < (q + d + 1) * b = omega (arith, lt-mul-div-succ (x + b - 1) p) in
    omega (arith, (div-lt_iff_lt-mul {x = y + b - 1} {y = q + d + 1} p).1 below)

-- The fee of a larger size, where the size grows by at most `bytes` for each of `d` satoshis.
pub fee_of_growth :
    (u : FeeUnit) (x y d : ℕ)
    → u.satoshis ≤ 1
    → 0 < u.bytes
    → y ≤ x + u.bytes * d
    → fee_of u y ≤ fee_of u x + d
unfolding fee_of
fee_of_growth u x y d one pos_bytes h =
    times_small _ _ d u.satoshis one (ceil_growth u.bytes x y d pos_bytes h)
  where
    times_small : (a b d s : ℕ) → s ≤ 1 → a ≤ b + d → a * s ≤ b * s + d
    times_small a b d zero l h = omega arith
    times_small a b d (suc zero) l h = omega arith
    times_small a b d (suc (suc s)) l h = absurd (omega arith)

abbrev pick : ℤ → ℤ → ℤ
pick w v = if leb_ℤ w (pos 0) then w else v

pick_mono : (w w' v v' : ℤ) → w ≤ℤ w' → v ≤ℤ v' → w' ≤ℤ v' +ℤ pos 1 → pick w v ≤ℤ pick w' v'
pick_mono w w' v v' h k l = elim (Bool-cases (leb_ℤ w (pos 0))) [
  | inl t ↦ elim (Bool-cases (leb_ℤ w' (pos 0))) [
    | inl t' ↦ rw (t, t') h
    | inr f' ↦ rw (t, f') (omega (int_laws, leb_ℤ→le w (pos 0) t, leb_ℤ_false w' (pos 0) f'))
  ]
  | inr f ↦ elim (Bool-cases (leb_ℤ w' (pos 0))) [
    | inl t' ↦ absurd (omega (int_laws, leb_ℤ→le w' (pos 0) t', leb_ℤ_false w (pos 0) f))
    | inr f' ↦ rw (f, f') k
  ]
]

change_growth :
    (s s' o f0 f0' f1 f1' d : ℕ)
    → s + d ≤ s'
    → f0' ≤ f0 + d
    → f1' ≤ f1 + d
    → f1' ≤ f0' + 1
    → pick (pos s -ℤ pos o -ℤ pos f0) (pos s -ℤ pos o -ℤ pos f1)
      ≤ℤ pick (pos s' -ℤ pos o -ℤ pos f0') (pos s' -ℤ pos o -ℤ pos f1')
change_growth s s' o f0 f0' f1 f1' d h i j k =
    pick_mono (pos s -ℤ pos o -ℤ pos f0) (pos s' -ℤ pos o -ℤ pos f0') (pos s -ℤ pos o -ℤ pos f1)
      (pos s' -ℤ pos o -ℤ pos f1') (omega int_laws) (omega int_laws) (omega int_laws)

-- The change of a transaction with inputs of value `v` and size `w`.
abbrev change_at : FeeUnit → ℕ → ℕ → ℕ → ℕ → ℤ
change_at u o tx w v =
    pick (pos v -ℤ pos o -ℤ pos (fee_of u (w + tx)))
      (pos v -ℤ pos o -ℤ pos (fee_of u (w + tx + estimated_change_output_size)))

-- It does not fall where each further satoshi brings at most `bytes` of size.
module _ (u : FeeUnit) (one : u.satoshis ≤ 1) (room : estimated_change_output_size ≤ u.bytes)
    (o tx w w' : ℕ) where
  change_at_add :
      (v d : ℕ) → w' ≤ w + u.bytes * d → change_at u o tx w v ≤ℤ change_at u o tx w' (v + d)
  change_at_add v d h =
      change_growth v (v + d) o (fee_of u (w + tx)) (fee_of u (w' + tx))
        (fee_of u (w + tx + estimated_change_output_size))
        (fee_of u (w' + tx + estimated_change_output_size)) d (omega arith)
        (fee_of_growth u (w + tx) (w' + tx) d one (omega arith) (omega arith))
        (fee_of_growth u (w + tx + estimated_change_output_size)
          (w' + tx + estimated_change_output_size) d one (omega arith) (omega arith))
        (fee_of_growth u (w' + tx) (w' + tx + estimated_change_output_size) 1 one (omega arith)
          (omega arith))

  change_at_le :
      (v v' : ℕ)
      → v ≤ v'
      → w' + u.bytes * v ≤ w + u.bytes * v'
      → change_at u o tx w v ≤ℤ change_at u o tx w' v'
  change_at_le v v' h k =
      let e : v + (v' - v) ≡ v' = omega arith in
      let l : w' ≤ w + u.bytes * (v' - v) = omega (arith, ap (λ (t : ℕ). u.bytes * t) e) in
      subst (λ t. change_at u o tx w v ≤ℤ change_at u o tx w' t) e (change_at_add v (v' - v) l)

-- The rows of a narrower filter, where each row is worth its own size at `b` bytes a satoshi.
abbrev pub IsWorthSize : ℕ → List Utxo → Type 0
IsWorthSize b rows = (r : Utxo) → In r rows → r.estimated_input_size ≤ b * r.satoshis

window_growth :
    (b : ℕ) (p q : Utxo → Bool) (rows : List Utxo)
    → IsWorthSize b rows
    → ((r : Utxo) → In r rows → p r ≡ true → q r ≡ true)
    → (sum_by (λ r. r.satoshis) (filter p rows) ≤ sum_by (λ r. r.satoshis) (filter q rows))
      × (sum_by (λ r. r.estimated_input_size) (filter q rows)
            + b * sum_by (λ r. r.satoshis) (filter p rows)
          ≤ sum_by (λ r. r.estimated_input_size) (filter p rows)
            + b * sum_by (λ r. r.satoshis) (filter q rows))
window_growth b p q [] worth sub = (omega arith, omega arith)
window_growth b p q (x ∷ rows) worth sub =
    let (values, sizes) =
      window_growth b p q rows (λ r i. worth r (inr i)) (λ r i. sub r (inr i)) in
    let worth_x : x.estimated_input_size ≤ b * x.satoshis = worth x (inl refl) in
    elim (Bool-cases (q x)) [
      | inl yes_q ↦ elim (Bool-cases (p x)) [
        | inl yes_p ↦ rw (yes_p, yes_q) (omega arith, omega arith)
        | inr no_p ↦ rw (no_p, yes_q) (omega arith, omega arith)
      ]
      | inr no_q ↦
          let no_p : p x ≡ false = ground (arith, sub x (inl refl)) in
          rw (no_p, no_q) (values, sizes)
    ]

module _ (text_leb : String → String → Bool) (c : Composer) (rows : List Utxo) where
  -- Where a fee unit asks at most one satoshi, covers a change output, and every row is worth
  -- the fee for its size, the change never falls along the window order.
  pub change-IsOrderly :
      IsTransitive text_leb
      → c.fee_unit.satoshis ≤ 1
      → estimated_change_output_size ≤ c.fee_unit.bytes
      → IsWorthSize c.fee_unit.bytes rows
      → IsOrderly text_leb c rows
  unfolding change remaining_value fee_no_change_output fee_with_change_output window
  change-IsOrderly trans one room worth r s i j b =
      let earlier = λ (t : Utxo). before text_leb t r in
      let later = λ (t : Utxo). before text_leb t s in
      let (values, sizes) =
        window_growth c.fee_unit.bytes earlier later rows worth
          (λ t k e. before_trans text_leb trans t r s e b) in
      change_at_le c.fee_unit one room c.outputs_total_value c.tx_without_inputs_size
        (window text_leb (λ t. t.estimated_input_size) rows r)
        (window text_leb (λ t. t.estimated_input_size) rows s)
        (window text_leb (λ t. t.satoshis) rows r) (window text_leb (λ t. t.satoshis) rows s) values
        sizes
