-- ===== src/Ledger/Tests.antt =====
-- A transaction that spends the one output of a user and pays back a part of it.
use Prim.Native.String.{len}
use spv_wallet.Prelude.{
  ℕ, Bool, ◌≡◌, ◌≢◌, ◌=?◌, true, false, refl, ap, ◌∙◌, sym, inl, inr, String, [], ◌∷◌, none, some,
  In, leb,
}
use spv_wallet.Prelude.Int.{negsuc, ◌-ℤ◌}
use spv_wallet.Prelude.Results.{ok}
use spv_wallet.Utxo.{
  Utxo, Composer, outpoint_of, fee_of, before, window, utxos, remaining_value, fee_no_change_output,
  fee_with_change_output, change, min_change, choose_inputs, join, build,
  select_inputs_for_transaction,
}
use spv_wallet.Utxo.Join.{HasUniqueOutpoints}
use spv_wallet.Utxo.Funding.{faultless}
use spv_wallet.Tx.Model.{broadcasted}
use spv_wallet.Record.Model.{
  TrackedOutput, NewTransaction, NewOperation, new_output_for_p2pkh, new_output_for_data,
}
use spv_wallet.Ledger.Tables.{
  Tables, new_utxo, create_utxo, create_data_output, add_output, add_all_outputs, map_transaction,
  map_operations, output_outpoint,
}
use spv_wallet.Ledger.Save.{
  insert_transaction, insert_tx_inputs, mark_spent, unstored, insert_outputs, insert_data,
  insert_operations, after_create, save_rows, save_all,
}
use spv_wallet.Ledger.Backing.{IsBacked}
use spv_wallet.Ledger.Rows.{save_all-IsBacked, saved_inputs_not_selected}

abbrev utxo : String → ℕ → ℕ → ℕ → Utxo
utxo tx vout satoshis now = record {
  user_id = "alice";
  tx_id = tx;
  vout = vout;
  satoshis = satoshis;
  estimated_input_size = 148;
  bucket = "bsv";
  created_at = now;
  touched_at = 0;
  custom_instructions = [];
}

abbrev output : String → ℕ → String → ℕ → TrackedOutput
output tx vout spending satoshis = record {
  tx_id = tx;
  vout = vout;
  spending_tx = spending;
  user_id = "alice";
  satoshis = satoshis;
}

abbrev tables : Tables
tables = record {
  transactions = [];
  tx_inputs = [];
  outputs = output "t1" 0 "" 1000 ∷ [];
  utxos = utxo "t1" 0 1000 1 ∷ [];
  data_rows = [];
  operations = [];
}

abbrev spending : NewTransaction
spending = record {
  id = "t2";
  tx_status = broadcasted;
  inputs = output "t1" 0 "" 1000 ∷ [];
  outputs =
      new_output_for_p2pkh (record { tx_id = "t2"; vout = 0 }) "alice" 900 []
      ∷ new_output_for_data (record { tx_id = "t2"; vout = 1 }) "alice" (1 ∷ 2 ∷ [])
      ∷ [];
  input_sources = record { source_tx_id = "t1"; tx_id = "t2" } ∷ [];
  beef_hex = "beef";
  raw_hex = "";
}

abbrev spent : NewOperation
spent = record { user_id = "alice"; counterparty = ""; type = "outgoing"; value = negsuc 99 }

abbrev saved : Tables
saved = record {
  transactions =
      record {
        id = "t2";
        tx_status = broadcasted;
        created_at = 7;
        updated_at = 7;
        block_height = none;
        block_hash = none;
        beef_hex = some "beef";
        raw_hex = none;
      }
      ∷ [];
  tx_inputs = record { tx_id = "t2"; source_tx_id = "t1" } ∷ [];
  outputs = output "t1" 0 "t2" 1000 ∷ output "t2" 0 "" 900 ∷ [];
  utxos = utxo "t2" 0 900 7 ∷ [];
  data_rows = record { tx_id = "t2"; vout = 1; user_id = "alice"; blob = 1 ∷ 2 ∷ [] } ∷ [];
  operations =
      record {
        tx_id = "t2";
        user_id = "alice";
        counterparty = "";
        type = "outgoing";
        value = negsuc 99;
      }
      ∷ [];
}

saves_spending : save_all 7 spending (spent ∷ []) tables ≡ some saved
unfolding save_all save_rows after_create insert_operations insert_data insert_outputs unstored
    mark_spent insert_tx_inputs insert_transaction map_transaction map_operations add_all_outputs
    add_output create_data_output create_utxo new_utxo new_output_for_p2pkh new_output_for_data
saves_spending = refl

tables-IsBacked : IsBacked tables.utxos tables.outputs
tables-IsBacked = (
  λ u i. elim i [
    | inl e ↦ (output "t1" 0 "" 1000, inl refl, refl, rw e (refl, refl, refl))
    | inr j ↦ absurd j
  ],
  λ o i k. elim i [
    | inl e ↦ (utxo "t1" 0 1000 1, inl refl, rw e (refl, refl, refl))
    | inr j ↦ absurd j
  ],
)

stored_are_older : (o : TrackedOutput) → In o tables.outputs → o.tx_id ≢ spending.id
stored_are_older o (inl e) =
    λ q. (let same : false ≡ true = ap (λ s. s =? "t2") (sym (ap TrackedOutput.tx_id e) ∙ q) in cc)
stored_are_older o (inr i) = absurd i

save_all-IsBacked_example : IsBacked saved.utxos saved.outputs
save_all-IsBacked_example =
    save_all-IsBacked 7 spending (spent ∷ []) tables saved (λ e. cc) stored_are_older
      stored_are_older tables-IsBacked saves_spending

-- A collation that compares lengths.
abbrev by_length : String → String → Bool
by_length s t = leb (len s) (len t)

abbrev composer : Composer
composer = record {
  user_id = "alice";
  outputs_total_value = 500;
  tx_without_inputs_size = 44;
  fee_unit = record { satoshis = 1; bytes = 1000 };
}

picks_one :
    (select_inputs_for_transaction by_length composer faultless 20 saved.utxos).0
    ≡ ok ((utxo "t2" 0 900 7, 399) ∷ [])
unfolding select_inputs_for_transaction build join choose_inputs utxos change min_change
    remaining_value fee_no_change_output fee_with_change_output window before fee_of ◌-ℤ◌
picks_one = refl

saved-HasUniqueOutpoints : HasUniqueOutpoints saved.utxos
saved-HasUniqueOutpoints = (tt, tt)

saved_inputs_not_selected_example :
    ((i : TrackedOutput)
      → In i spending.inputs
      → outpoint_of (utxo "t2" 0 900 7) ≢ output_outpoint i)
    × ((o : TrackedOutput) × In o saved.outputs
        × (o.spending_tx ≡ "")
        × (o.user_id ≡ composer.user_id)
        × (outpoint_of (utxo "t2" 0 900 7) ≡ output_outpoint o)
        × ((utxo "t2" 0 900 7).satoshis ≡ o.satoshis))
saved_inputs_not_selected_example =
    saved_inputs_not_selected 7 spending (spent ∷ []) tables saved by_length composer faultless 20
      ((utxo "t2" 0 900 7, 399) ∷ []) (utxo "t2" 0 900 7) (λ e. cc) stored_are_older
      stored_are_older tables-IsBacked saves_spending saved-HasUniqueOutpoints picks_one (inl refl)
