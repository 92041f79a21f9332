-- ===== src/Utxo/Tests.antt =====
-- Runs of the selection on small tables.
use Prim.Native.String.{len}
use spv_wallet.Prelude.{
  ℕ, ◌+◌, ◌<◌, ◌≡◌, refl, ◌↔◌, inl, inr, Bool, String, List, [], ◌∷◌, map, arith, leb, In,
}
use spv_wallet.Prelude.Int.{◌-ℤ◌}
use spv_wallet.Prelude.Results.{ok, err}
use spv_wallet.Utxo.{
  Utxo, Composer, unexpected_error_during_inputs_selection, fee_of, before, window, utxos,
  remaining_value, fee_no_change_output, fee_with_change_output, change, min_change, choose_inputs,
  join, build, touch, select_inputs_for_transaction, first_change,
}
use spv_wallet.Utxo.Order.{IsTotal, IsTransitive}
use spv_wallet.Utxo.Selection.{Pays}
use spv_wallet.Utxo.Growth.{IsWorthSize}
use spv_wallet.Utxo.Join.{HasUniqueOutpoints}
use spv_wallet.Utxo.Funding.{
  CannotPay, faultless, rows_of, select_inputs-Pays, select_inputs_empty_iff,
}
use spv_wallet.Utxo.Touch.{untouched, after, select_inputs_keeps, select_inputs-Owned}
use spv_wallet.Utxo.Dust.{two, underfunded_selection}

-- A collation that compares lengths.
abbrev by_length : String → String → Bool
by_length s t = leb (len s) (len t)

by_length-IsTotal : IsTotal by_length
by_length-IsTotal a b h = ground arith

by_length_trans : IsTransitive by_length
by_length_trans a b c h k = ground arith

abbrev row : String → String → ℕ → ℕ → ℕ → Utxo
row user tx vout value touched = record {
  user_id = user;
  tx_id = tx;
  vout = vout;
  satoshis = value;
  estimated_input_size = 148;
  bucket = "bsv";
  created_at = 1;
  touched_at = touched;
  custom_instructions = [];
}

abbrev table : List Utxo
table =
    row "alice" "t1" 0 1000 5
    ∷ row "bob" "t1" 1 9000 1
    ∷ row "alice" "t2" 0 1000 3
    ∷ row "alice" "t3" 7 4000 9
    ∷ []

abbrev composer : ℕ → Composer
composer value = record {
  user_id = "alice";
  outputs_total_value = value;
  tx_without_inputs_size = 44;
  fee_unit = record { satoshis = 1; bytes = 1000 };
}

abbrev picked : List (Utxo × ℕ)
picked = (row "alice" "t1" 0 1000 5, 499) ∷ (row "alice" "t2" 0 1000 3, 499) ∷ []

picks_two :
    (select_inputs_for_transaction by_length (composer 1500) faultless 20 table).0 ≡ ok picked
unfolding select_inputs_for_transaction build join choose_inputs utxos change min_change
    remaining_value fee_no_change_output fee_with_change_output window before fee_of ◌-ℤ◌
picks_two = refl

touches_two :
    after by_length (composer 1500) faultless 20 table
    ≡ row "alice" "t1" 0 1000 20
      ∷ row "bob" "t1" 1 9000 1
      ∷ row "alice" "t2" 0 1000 20
      ∷ row "alice" "t3" 7 4000 9
      ∷ []
unfolding select_inputs_for_transaction build join choose_inputs utxos change min_change
    remaining_value fee_no_change_output fee_with_change_output window before fee_of ◌-ℤ◌ touch
touches_two = refl

table-HasUniqueOutpoints : HasUniqueOutpoints table
table-HasUniqueOutpoints = ground arith

table-IsWorthSize : IsWorthSize 1000 (utxos by_length (composer 1500) table)
unfolding utxos
table-IsWorthSize r i = ground arith

select_inputs-Pays_example : Pays (composer 1500) (rows_of picked) (first_change picked)
select_inputs-Pays_example =
    select_inputs-Pays by_length (composer 1500) table by_length-IsTotal by_length_trans
      table-HasUniqueOutpoints (omega arith) (omega arith) table-IsWorthSize faultless 20 picked
      picks_two (λ e. cc)

select_inputs_keeps_example :
    (map untouched (after by_length (composer 1500) faultless 20 table) ≡ map untouched table)
    × ((select_inputs_for_transaction by_length (composer 1500) faultless 20 table).0
          ≡ err unexpected_error_during_inputs_selection
        → after by_length (composer 1500) faultless 20 table ≡ table)
select_inputs_keeps_example = select_inputs_keeps by_length (composer 1500) faultless 20 table

select_inputs-Owned_example :
    In (row "alice" "t2" 0 1000 3) table
    × ((row "alice" "t2" 0 1000 3).user_id ≡ (composer 1500).user_id)
select_inputs-Owned_example =
    select_inputs-Owned by_length (composer 1500) faultless 20 table table-HasUniqueOutpoints picked
      picks_two (row "alice" "t2" 0 1000 3) (inr (inl refl))

-- A wallet of 6000 satoshis cannot pay 6000 and a fee.
select_inputs_empty_iff_example :
    ((select_inputs_for_transaction by_length (composer 6000) faultless 20 table).0 ≡ ok []) ↔ (
      (r : Utxo)
      → In r (utxos by_length (composer 6000) table)
      → CannotPay by_length (composer 6000) (utxos by_length (composer 6000) table) r)
select_inputs_empty_iff_example =
    select_inputs_empty_iff by_length (composer 6000) table table-HasUniqueOutpoints 20

-- At 50 satoshis for 1000 bytes a second row of 10 satoshis adds 50 to the fee.
abbrev dear : Composer
dear = record {
  user_id = "alice";
  outputs_total_value = 1000;
  tx_without_inputs_size = 800;
  fee_unit = record { satoshis = 50; bytes = 1000 };
}

abbrev big : Utxo
big = row "alice" "t1" 0 1500 1

abbrev dust : Utxo
dust = row "alice" "t2" 0 10 2

underfunded_selection_example :
    (choose_inputs by_length dear (two by_length dear big dust) ≡ dust ∷ [])
    × (dust.satoshis
        < dear.outputs_total_value + fee_of dear.fee_unit (dust.estimated_input_size + 800))
unfolding change remaining_value fee_no_change_output fee_with_change_output window before fee_of
    ◌-ℤ◌
underfunded_selection_example =
    underfunded_selection by_length dear big dust 450 410 refl refl refl refl (omega arith) refl
      refl (omega arith)
