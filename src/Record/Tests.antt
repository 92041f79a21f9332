-- ===== src/Record/Tests.antt =====
-- Recordings of a small transaction, and conversions at the bounds.
use spv_wallet.Prelude.{
  ◌=?◌, ◌==◌, ◌&&◌, ◌||◌, not, ◌≢◌, inl, sym, =?_iff, ◌≡◌, ◌≤◌, ◌<◌, ◌↔◌, refl, true, false, String,
  none, some, [], ◌∷◌, length, arith,
}
use spv_wallet.Prelude.Int.{pos, negsuc, ◌+ℤ◌, ◌-ℤ◌}
use spv_wallet.Prelude.Results.{ok, err}
use spv_wallet.Conv.{
  int_to_uint32, uint64_to_int64, int64_to_uint64, max_uint32, max_int64, int_to_uint32_iff,
  uint64_to_int64_iff,
}
use spv_wallet.Tx.Model.{created, seen_on_network}
use spv_wallet.Record.Model.{
  RecordError, Transaction, TrackedOutput, is_spent, set_raw_hex, add_row_inputs, add_row_outputs,
  subtract, add, new_output_for_p2pkh,
}
use spv_wallet.Record.Flow.{
  Env, Flow, new_tx_flow, set_hex, process_inputs, operation_of_user, change_operation,
  all_p2pkh_addresses, p2pkh_addresses_from, create_utxos_for_tracked_addresses,
  outputs_of_addresses, new_outputs_at, new_output_at, add_outputs, verify,
}
use spv_wallet.Record.Addresses.{Addresses, add_address, vouts_of, contains, remove}
use spv_wallet.Record.Sets.{IsUnique, contains-add_address, contains-remove}
use spv_wallet.Record.Service.{
  prepare_paymail, spend_by_one, receive_by_one, record_paymail_transaction,
  record_transaction_outline,
}
use spv_wallet.Record.Effects.{IsOrdered, recording-IsOrdered}
use spv_wallet.Record.Guards.{double_spend_refused, paymail_of_two}

abbrev payment : Transaction
payment = record {
  tx_id = "t2";
  inputs = record { tx_id = "t1"; vout = 0 } ∷ [];
  outputs =
      record {
        satoshis = 90;
        locking_script = record {
          is_p2pkh = true;
          address = some "bob1";
          is_data = false;
          chunks = none;
        };
      }
      ∷ [];
  hex = "raw t2";
  beef_hex = some "beef t2";
  verifies = some true;
}

abbrev spent_by : String → TrackedOutput
spent_by spender = record {
  tx_id = "t1";
  vout = 0;
  spending_tx = spender;
  user_id = "alice";
  satoshis = 100;
}

abbrev services : String → Env
services spender = record {
  beef_transaction = λ h. some payment;
  is_raw_tx = λ h. false;
  has_input_sources = λ ids. some true;
  find_by_outpoints = λ os. some (spent_by spender ∷ []);
  find_by_addresses =
      λ l. some (record { address = "bob1"; user_id = "bob"; custom_instructions = [] } ∷ []);
  pub_key = λ u. some "key";
  interpret = λ k i. some "bob1";
  notifies = λ r s f. true;
  broadcasts = λ t. some seen_on_network;
  saves = true;
}

recording-IsOrdered_example :
    IsOrdered (record_transaction_outline (services "") "alice" "beef t2" [])
    × IsOrdered (record_paymail_transaction (services "") payment "alice@host" "bob@host")
recording-IsOrdered_example =
    recording-IsOrdered (services "") "alice" "beef t2" [] payment "alice@host" "bob@host"

t9_is_some : ◌≢◌ {A = String} "t9" ""
t9_is_some h = apart (sym ((=?_iff "t9" "").1 h))
  where
    apart : true ≡ false → ⊥
    apart e = cc

t9_is_other : ◌≢◌ {A = String} "t9" "t2"
t9_is_other h = apart (sym ((=?_iff "t9" "t2").1 h))
  where
    apart : true ≡ false → ⊥
    apart e = cc

double_spend_refused_example :
    ((e : RecordError) × (record_paymail_transaction (services "t9") payment "alice@host" "bob@host"
        ≡ (err e, [])))
    × ((e : RecordError) × (record_transaction_outline (services "t9") "alice" "beef t2" []
          ≡ (err e, [])))
double_spend_refused_example =
    double_spend_refused (services "t9") payment (spent_by "t9" ∷ []) (spent_by "t9") "alice@host"
      "bob@host" "alice" "beef t2" [] refl (inl refl) t9_is_some t9_is_other refl

abbrev prepared : Flow
prepared = record {
  tx = payment;
  row = record {
    id = "t2";
    tx_status = created;
    inputs = spent_by "" ∷ [];
    outputs =
        record {
          user_id = "bob";
          tx_id = "t2";
          vout = 0;
          satoshis = 90;
          bucket = "bsv";
          utxo = some (record { estimated_input_size = 148; custom_instructions = [] });
          data_bytes = [];
        }
        ∷ [];
    input_sources = record { source_tx_id = "t1"; tx_id = "t2" } ∷ [];
    beef_hex = "";
    raw_hex = "raw t2";
  };
  operations =
      record { user_id = "alice"; counterparty = "bob@host"; type = "outgoing"; value = negsuc 99 }
      ∷ record { user_id = "bob"; counterparty = "alice@host"; type = "incoming"; value = pos 90 }
      ∷ [];
}

payment_is_prepared : prepare_paymail (services "") payment "alice@host" "bob@host" ≡ ok prepared
unfolding prepare_paymail new_tx_flow set_hex set_raw_hex process_inputs is_spent add_row_inputs
    spend_by_one operation_of_user change_operation subtract all_p2pkh_addresses
    p2pkh_addresses_from add_address create_utxos_for_tracked_addresses outputs_of_addresses
    vouts_of new_outputs_at new_output_at new_output_for_p2pkh receive_by_one add add_outputs
    add_row_outputs verify int_to_uint32 uint64_to_int64 ◌+ℤ◌ ◌-ℤ◌
payment_is_prepared = refl

paymail_of_two_example : length prepared.operations ≤ 2
paymail_of_two_example =
    paymail_of_two (services "") payment "alice@host" "bob@host" prepared payment_is_prepared

int_to_uint32_iff_example :
    (int_to_uint32 (pos 4294967295) ≡ ok 4294967295)
    ↔ ((pos 4294967295 ≡ pos 4294967295) × (4294967295 ≤ max_uint32))
int_to_uint32_iff_example = int_to_uint32_iff (pos 4294967295) 4294967295

below_2_64 : 9223372036854775808 < 18446744073709551616
below_2_64 = omega arith

uint64_to_int64_iff_example :
    ((uint64_to_int64 9223372036854775808 ≡ ok (negsuc 5))
      ↔ ((negsuc 5 ≡ pos 9223372036854775808) × (9223372036854775808 ≤ max_int64)))
    × ((uint64_to_int64 9223372036854775808 ≡ ok (negsuc 5))
        → int64_to_uint64 (negsuc 5) ≡ ok 9223372036854775808)
uint64_to_int64_iff_example = uint64_to_int64_iff 9223372036854775808 (negsuc 5) below_2_64

abbrev two_addresses : Addresses
two_addresses = ("bob1", 0 ∷ 2 ∷ []) ∷ ("carol1", 1 ∷ []) ∷ []

two_addresses-IsUnique : IsUnique two_addresses
unfolding vouts_of
two_addresses-IsUnique = (refl, (refl, tt))

contains-add_address_example :
    contains "bob1" 3 (add_address "bob1" 3 two_addresses)
    ≡ ((("bob1" =? "bob1") && (3 == 3)) || contains "bob1" 3 two_addresses)
contains-add_address_example = contains-add_address "bob1" "bob1" 3 3 two_addresses

contains-remove_example :
    contains "carol1" 1 (remove "carol1" 1 two_addresses)
    ≡ (contains "carol1" 1 two_addresses && not (("carol1" =? "carol1") && (1 == 1)))
contains-remove_example = contains-remove "carol1" "carol1" 1 1 two_addresses two_addresses-IsUnique
