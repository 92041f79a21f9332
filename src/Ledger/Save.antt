-- ===== src/Ledger/Save.antt =====
-- `SaveAll`: the operations with their transaction, its outputs, inputs and data, and the hook
-- `AfterCreate`, in one transaction. A row whose key is stored: an operation is replaced, an
-- associated row gets the foreign key of its transaction, and others stay as they are; these are the
-- rules of gorm for `OnConflict` and for associations. A UTXO that is stored already is an error.
use spv_wallet.Prelude.{
  ℕ, Bool, not, ◌&&◌, String, Option, none, some, List, [], ◌∷◌, ◌++◌, ◌=?◌, ◌==◌, if◌then◌else◌,
  any, filter,
}
use spv_wallet.Bsv.{same_outpoint}
use spv_wallet.Utxo.{Utxo, outpoint_of}
use spv_wallet.Tx.Model.{TrackedTransaction}
use spv_wallet.Tx.Repository.{TxInput}
use spv_wallet.Record.Model.{TrackedOutput, NewTransaction, NewOperation}
use spv_wallet.Ledger.Tables.{
  DataRow, OperationRow, Tables, TransactionRows, map_transaction, map_operations, output_outpoint,
  is_among,
}

unfoldable pub insert_transaction :
    TrackedTransaction → List TrackedTransaction → List TrackedTransaction
insert_transaction t rows = if any (λ r. r.id =? t.id) rows then rows else rows ++ t ∷ []

unfoldable pub insert_tx_inputs : List TxInput → List TxInput → List TxInput
insert_tx_inputs [] rows = rows
insert_tx_inputs (i ∷ inputs) rows = insert_tx_inputs inputs (
    if any (λ r. (r.tx_id =? i.tx_id) && (r.source_tx_id =? i.source_tx_id)) rows
    then rows
    else rows ++ i ∷ [])

-- The stored outputs that the transaction spends get its id.
unfoldable pub mark_spent : String → List TrackedOutput → List TrackedOutput → List TrackedOutput
mark_spent id inputs [] = []
mark_spent id inputs (o ∷ rows) =
    (if is_among (output_outpoint o) inputs then record o { spending_tx = id } else o)
    ∷ mark_spent id inputs rows

-- The outputs of the transaction whose keys are not stored.
unfoldable pub unstored : List TrackedOutput → List TrackedOutput → List TrackedOutput
unstored rows outputs = filter (λ o. not (is_among (output_outpoint o) rows)) outputs

unfoldable pub insert_outputs : TransactionRows → List TrackedOutput → List TrackedOutput
insert_outputs t rows =
    let marked = mark_spent t.row.id t.inputs (rows ++ unstored rows t.inputs) in
    marked ++ unstored marked t.outputs

unfoldable pub insert_data : List DataRow → List DataRow → List DataRow
insert_data [] rows = rows
insert_data (d ∷ new) rows =
    insert_data new
      (if any (λ r. (r.tx_id =? d.tx_id) && (r.vout == d.vout)) rows then rows else rows ++ d ∷ [])

unfoldable pub insert_operations : List OperationRow → List OperationRow → List OperationRow
insert_operations [] rows = rows
insert_operations (o ∷ ops) rows =
    insert_operations ops
      (filter (λ r. not ((r.tx_id =? o.tx_id) && (r.user_id =? o.user_id))) rows ++ o ∷ [])

-- The primary key of `UserUTXO`.
abbrev pub same_key : Utxo → Utxo → Bool
same_key u v = (u.user_id =? v.user_id) && same_outpoint (outpoint_of u) (outpoint_of v)

-- `AfterCreate`: the new UTXOs are added, and then those that are spent removed.
unfoldable pub after_create : TransactionRows → List Utxo → Option (List Utxo)
after_create t utxos =
    if any (λ u. any (same_key u) utxos) t.new_utxos
    then none
    else some (filter (λ u. not (is_among (outpoint_of u) t.inputs)) (utxos ++ t.new_utxos))

-- The rows of a transaction and of its operations; an error rolls them back.
unfoldable pub save_rows : TransactionRows → List OperationRow → Tables → Option Tables
save_rows t ops db = elim (after_create t db.utxos) [
  | none ↦ none
  | some utxos ↦ some record {
    transactions = insert_transaction t.row db.transactions;
    tx_inputs = insert_tx_inputs t.source_tx_inputs db.tx_inputs;
    outputs = insert_outputs t db.outputs;
    utxos = utxos;
    data_rows = insert_data t.data_rows db.data_rows;
    operations = insert_operations ops db.operations;
  }
]

-- `SaveAll`; gorm refuses to create no rows.
unfoldable pub save_all : ℕ → NewTransaction → List NewOperation → Tables → Option Tables
save_all now t [] db = none
save_all now t (o ∷ ops) db = save_rows (map_transaction now t) (map_operations t.id (o ∷ ops)) db
