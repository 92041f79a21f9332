-- ===== src/Record/Model.antt =====
-- The new rows of txmodels and what the flow reads of a transaction. Go maps are association lists
-- in the order in which the range statement visits them.
use spv_wallet.Prelude.{ℕ, Bool, not, String, Option, none, some, List, [], ◌++◌, map, ◌=?◌}
use spv_wallet.Prelude.Int.{ℤ, ◌+ℤ◌, ◌-ℤ◌}
use spv_wallet.Prelude.Results.{Result, ok, ◌>>=◌, wrap}
use spv_wallet.Bsv.{CustomInstructions, Outpoint}
use spv_wallet.Conv.{uint64_to_int64, to_uint64, to_int64}
use spv_wallet.Tx.Model.{TxStatus}

pub data RecordError : Type 0 where
  not_implemented tx_validation database_failed beef_failed getting_outputs utxo_spent : RecordError
  multi_recipients multi_senders getting_addresses no_operations tx_broadcast save_failed :
      RecordError
  notify_failed no_pub_key bad_instructions wrong_address annotation_mismatch : RecordError
  parsing_script only_push_data index_out_of_range panicked : RecordError

-- A chunk of a locking script.
pub record Chunk : Type 0 where
  pub op : ℕ
  pub data_bytes : List ℕ

-- What the go-sdk says of a locking script.
pub record Script : Type 0 where
  pub is_p2pkh : Bool
  pub address : Option String
  pub is_data : Bool
  pub chunks : Option (List Chunk)

pub record TxOutput : Type 0 where
  pub satoshis : ℕ
  pub locking_script : Script

-- What the go-sdk says of a transaction: `verifies` is the result of `spv.VerifyScripts`.
pub record Transaction : Type 0 where
  pub tx_id : String
  pub inputs : List Outpoint
  pub outputs : List TxOutput
  pub hex : String
  pub beef_hex : Option String
  pub verifies : Option Bool

-- `TrackedOutput`
pub record TrackedOutput : Type 0 where
  pub tx_id : String
  pub vout : ℕ
  pub spending_tx : String
  pub user_id : String
  pub satoshis : ℕ

unfoldable pub is_spent : TrackedOutput → Bool
is_spent o = not (o.spending_tx =? "")

-- `SpendableUTXO`
pub record SpendableUtxo : Type 0 where
  pub estimated_input_size : ℕ
  pub custom_instructions : CustomInstructions

pub record NewOutput : Type 0 where
  pub user_id : String
  pub tx_id : String
  pub vout : ℕ
  pub satoshis : ℕ
  pub bucket : String
  pub utxo : Option SpendableUtxo
  pub data_bytes : List ℕ

abbrev pub estimated_input_size_for_p2pkh : ℕ
estimated_input_size_for_p2pkh = 148

unfoldable pub new_output_for_p2pkh : Outpoint → String → ℕ → CustomInstructions → NewOutput
new_output_for_p2pkh outpoint user satoshis instructions = record {
  user_id = user;
  tx_id = outpoint.tx_id;
  vout = outpoint.vout;
  satoshis = satoshis;
  bucket = "bsv";
  utxo = some record {
    estimated_input_size = estimated_input_size_for_p2pkh;
    custom_instructions = instructions;
  };
  data_bytes = [];
}

unfoldable pub new_output_for_data : Outpoint → String → List ℕ → NewOutput
new_output_for_data outpoint user bytes = record {
  user_id = user;
  tx_id = outpoint.tx_id;
  vout = outpoint.vout;
  satoshis = 0;
  bucket = "";
  utxo = none;
  data_bytes = bytes;
}

-- `TransactionInputSource`
pub record InputSource : Type 0 where
  pub source_tx_id : String
  pub tx_id : String

pub record NewTransaction : Type 0 where
  pub id : String
  pub tx_status : TxStatus
  pub inputs : List TrackedOutput
  pub outputs : List NewOutput
  pub input_sources : List InputSource
  pub beef_hex : String
  pub raw_hex : String

unfoldable pub add_row_outputs : List NewOutput → NewTransaction → NewTransaction
add_row_outputs outputs t = record t { outputs = t.outputs ++ outputs }

unfoldable pub add_row_inputs : List TrackedOutput → NewTransaction → NewTransaction
add_row_inputs tracked t = record t { inputs = t.inputs ++ tracked }

unfoldable pub set_raw_hex : String → List String → NewTransaction → NewTransaction
set_raw_hex hex sources t = record t {
  raw_hex = hex;
  input_sources = map (λ s. record { source_tx_id = s; tx_id = t.id }) sources;
}

unfoldable pub set_beef_hex : String → NewTransaction → NewTransaction
set_beef_hex hex t = record t { beef_hex = hex }

-- `NewOperation`; its transaction is the row of the flow.
pub record NewOperation : Type 0 where
  pub user_id : String
  pub counterparty : String
  pub type : String
  pub value : ℤ

-- The sum of two signed numbers of 64 bits wraps around.
abbrev pub wrap_int64 : ℤ → ℤ
wrap_int64 z = to_int64 (to_uint64 z)

-- A value of 2 ^ 63 or more panics.
unfoldable pub add : ℕ → NewOperation → Result RecordError NewOperation
add satoshi o = do
  signed ← wrap (λ e. panicked) (uint64_to_int64 satoshi)
  ok (record o { value = wrap_int64 (o.value +ℤ signed) })

unfoldable pub subtract : ℕ → NewOperation → Result RecordError NewOperation
subtract satoshi o = do
  signed ← wrap (λ e. panicked) (uint64_to_int64 satoshi)
  ok (record o { value = wrap_int64 (o.value -ℤ signed) })
