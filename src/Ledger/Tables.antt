-- ===== src/Ledger/Tables.antt =====
-- The rows, and the mapping of a new transaction and its operations to them.
use spv_wallet.Prelude.{
  ℕ, Bool, String, Option, none, some, List, [], ◌∷◌, ◌++◌, map, ◌=?◌, if◌then◌else◌, any, filter,
}
use spv_wallet.Prelude.Int.{ℤ}
use spv_wallet.Bsv.{Outpoint, same_outpoint}
use spv_wallet.Utxo.{Utxo}
use spv_wallet.Tx.Model.{TrackedTransaction}
use spv_wallet.Tx.Repository.{TxInput}
use spv_wallet.Record.Model.{
  TrackedOutput, SpendableUtxo, NewOutput, InputSource, NewTransaction, NewOperation,
}

-- `database.Data`
pub record DataRow : Type 0 where
  pub tx_id : String
  pub vout : ℕ
  pub user_id : String
  pub blob : List ℕ

-- `database.Operation`
pub record OperationRow : Type 0 where
  pub tx_id : String
  pub user_id : String
  pub counterparty : String
  pub type : String
  pub value : ℤ

pub record Tables : Type 0 where
  pub transactions : List TrackedTransaction
  pub tx_inputs : List TxInput
  pub outputs : List TrackedOutput
  pub utxos : List Utxo
  pub data_rows : List DataRow
  pub operations : List OperationRow

-- `database.TrackedTransaction` with the rows that are created with it.
pub record TransactionRows : Type 0 where
  pub row : TrackedTransaction
  pub source_tx_inputs : List TxInput
  pub inputs : List TrackedOutput
  pub outputs : List TrackedOutput
  pub new_utxos : List Utxo
  pub data_rows : List DataRow

-- `NewUTXO`; the time of creation is set by gorm, and the row has not been touched.
unfoldable pub new_utxo : ℕ → TrackedOutput → String → SpendableUtxo → Utxo
new_utxo now o bucket utxo = record {
  user_id = o.user_id;
  tx_id = o.tx_id;
  vout = o.vout;
  satoshis = o.satoshis;
  estimated_input_size = utxo.estimated_input_size;
  bucket = bucket;
  created_at = now;
  touched_at = 0;
  custom_instructions = utxo.custom_instructions;
}

-- `CreateUTXO`
unfoldable pub create_utxo :
    ℕ → TrackedOutput → String → SpendableUtxo → TransactionRows → TransactionRows
create_utxo now o bucket utxo t = record t {
  outputs = t.outputs ++ o ∷ [];
  new_utxos = t.new_utxos ++ new_utxo now o bucket utxo ∷ [];
}

-- `CreateDataOutput`
unfoldable pub create_data_output : DataRow → TransactionRows → TransactionRows
create_data_output d t = record t { data_rows = t.data_rows ++ d ∷ [] }

-- One output of the loop in `mapTransaction`. The bytes of a data output are nil when there are none.
unfoldable pub add_output : ℕ → String → NewOutput → TransactionRows → TransactionRows
add_output now id o t = elim o.utxo [
  | some utxo ↦
      create_utxo now
        (record {
          tx_id = id;
          vout = o.vout;
          spending_tx = "";
          user_id = o.user_id;
          satoshis = o.satoshis;
        })
        o.bucket utxo t
  | none ↦ elim o.data_bytes [
    | [] ↦ t
    | b ∷ bytes ↦
        create_data_output
          (record { tx_id = id; vout = o.vout; user_id = o.user_id; blob = b ∷ bytes }) t
  ]
]

unfoldable pub add_all_outputs : ℕ → String → List NewOutput → TransactionRows → TransactionRows
add_all_outputs now id [] t = t
add_all_outputs now id (o ∷ outputs) t = add_all_outputs now id outputs (add_output now id o t)

abbrev pub text_or_nil : String → Option String
text_or_nil s = if s =? "" then none else some s

-- `mapTransaction`; the times of creation and update are set by gorm.
unfoldable pub map_transaction : ℕ → NewTransaction → TransactionRows
map_transaction now t = add_all_outputs now t.id t.outputs record {
  row = record {
    id = t.id;
    tx_status = t.tx_status;
    created_at = now;
    updated_at = now;
    block_height = none;
    block_hash = none;
    beef_hex = text_or_nil t.beef_hex;
    raw_hex = text_or_nil t.raw_hex;
  };
  source_tx_inputs =
      map (λ (i : InputSource). record { tx_id = i.tx_id; source_tx_id = i.source_tx_id })
        t.input_sources;
  inputs = map (λ (i : TrackedOutput). record i { spending_tx = t.id }) t.inputs;
  outputs = [];
  new_utxos = [];
  data_rows = [];
}

-- `mapOperations`; the operations of a flow share its transaction.
unfoldable pub map_operations : String → List NewOperation → List OperationRow
map_operations id ops =
    map
      (λ (o : NewOperation). record {
        tx_id = id;
        user_id = o.user_id;
        counterparty = o.counterparty;
        type = o.type;
        value = o.value;
      })
      ops

abbrev pub output_outpoint : TrackedOutput → Outpoint
output_outpoint o = record { tx_id = o.tx_id; vout = o.vout }

-- The outpoint is among those of the outputs.
abbrev pub is_among : Outpoint → List TrackedOutput → Bool
is_among p outs = any (λ o. same_outpoint (output_outpoint o) p) outs

-- `FindByOutpoints`
unfoldable pub find_by_outpoints : List Outpoint → Tables → List TrackedOutput
find_by_outpoints ps db = filter (λ o. any (λ p. same_outpoint p (output_outpoint o)) ps) db.outputs
