-- ===== src/Record/Flow.antt =====
-- The flow of recording one transaction: tx_flow.go. The services that the flow calls are the record
-- `Env`; the flow's own state is the row and the operations. Log calls are left out.
use spv_wallet.Prelude.{
  ℕ, suc, Bool, not, ◌&&◌, String, Option, none, some, List, [], ◌∷◌, ◌++◌, map, ◌=?◌,
  if◌then◌else◌, any, get_elem?,
}
use spv_wallet.Prelude.Int.{pos}
use spv_wallet.Prelude.Results.{Result, ok, err, ◌>>=◌, ◌>>◌, or_fail, fail_if}
use spv_wallet.Bsv.{CustomInstructions, Outpoint}
use spv_wallet.Conv.{int_to_uint32}
use spv_wallet.Tx.Model.{created, ChainStatus}
use spv_wallet.Record.Model.{
  RecordError, tx_validation, database_failed, beef_failed, getting_outputs, utxo_spent,
  getting_addresses, no_operations, panicked, Transaction, TxOutput, TrackedOutput, is_spent,
  NewOutput, new_output_for_p2pkh, NewTransaction, add_row_outputs, add_row_inputs, set_raw_hex,
  set_beef_hex, NewOperation,
}
use spv_wallet.Record.Addresses.{Addresses, add_address, vouts_of}

-- `addressesmodels.Address`, as the flow reads it.
pub record TrackedAddress : Type 0 where
  pub address : String
  pub user_id : String
  pub custom_instructions : CustomInstructions

-- The repositories, the users' keys with the interpreter of custom instructions, the
-- notifier of paymail hosts, the broadcaster and the store of operations. `none` is an error.
pub record Env : Type 0 where
  pub beef_transaction : String → Option Transaction
  pub is_raw_tx : String → Bool
  pub has_input_sources : List String → Option Bool
  pub find_by_outpoints : List Outpoint → Option (List TrackedOutput)
  pub find_by_addresses : List String → Option (List TrackedAddress)
  pub pub_key : String → Option String
  pub interpret : String → CustomInstructions → Option String
  pub notifies : String → String → String → Bool
  pub broadcasts : Transaction → Option ChainStatus
  pub saves : Bool

pub record Flow : Type 0 where
  pub tx : Transaction
  pub row : NewTransaction
  pub operations : List NewOperation

-- `setHex`
unfoldable pub set_hex : Env → Transaction → NewTransaction → Result RecordError NewTransaction
set_hex env tx row = do
  let sources = map Outpoint.tx_id tx.inputs
  found_all ← or_fail (env.has_input_sources sources) database_failed
  if found_all
      then ok (set_raw_hex tx.hex sources row)
      else (or_fail tx.beef_hex beef_failed >>= λ hex. ok (set_beef_hex hex row))

-- `newTxFlow`
unfoldable pub new_tx_flow : Env → Transaction → Result RecordError Flow
new_tx_flow env tx = do
  row ← set_hex env tx record {
    id = tx.tx_id;
    tx_status = created;
    inputs = [];
    outputs = [];
    input_sources = [];
    beef_hex = "";
    raw_hex = "";
  }
  ok (record { tx = tx; row = row; operations = [] })

unfoldable pub verify_scripts : Flow → Result RecordError (Unit {0})
verify_scripts f = elim f.tx.verifies [
  | none ↦ err tx_validation
  | some b ↦ fail_if (not b) tx_validation
]

-- The check for double spending.
abbrev pub is_double_spend : String → TrackedOutput → Bool
is_double_spend tx_id o = is_spent o && not (o.spending_tx =? tx_id)

-- `processInputs`
unfoldable pub process_inputs : Env → Flow → Result RecordError (List TrackedOutput × Flow)
process_inputs env f = do
  tracked ← or_fail (env.find_by_outpoints f.tx.inputs) getting_outputs
  fail_if (any (is_double_spend f.tx.tx_id) tracked) utxo_spent
  ok (tracked, record f { row = add_row_inputs tracked f.row })

abbrev pub has_user : String → List NewOperation → Bool
has_user user ops = any (λ o. o.user_id =? user) ops

-- `operationOfUser`: the operations with one for the user among them.
unfoldable pub operation_of_user : String → String → String → List NewOperation → List NewOperation
operation_of_user user type counterparty ops =
    if has_user user ops
    then ops
    else ops
      ++ record { user_id = user; counterparty = counterparty; type = type; value = pos 0 } ∷ []

-- The change of a user's operation through the pointer that `operationOfUser` returns.
unfoldable pub change_operation :
    (NewOperation → Result RecordError NewOperation)
    → String
    → List NewOperation
    → Result RecordError (List NewOperation)
change_operation change user [] = ok []
change_operation change user (o ∷ ops) =
    if o.user_id =? user
    then (change o >>= λ o'. ok (o' ∷ ops))
    else (change_operation change user ops >>= λ rest. ok (o ∷ rest))

-- `addOutputs`
unfoldable pub add_outputs : List NewOutput → Flow → Flow
add_outputs outputs f = record f { row = add_row_outputs outputs f.row }

-- The loop of `allP2PKHAddresses` from an index on.
unfoldable pub p2pkh_addresses_from : ℕ → List TxOutput → Addresses → Addresses
p2pkh_addresses_from vout [] addrs = addrs
p2pkh_addresses_from vout (o ∷ outputs) addrs = p2pkh_addresses_from (suc vout) outputs (
    if not o.locking_script.is_p2pkh then addrs else elim o.locking_script.address [
      | none ↦ addrs
      | some address ↦ elim (int_to_uint32 (pos vout)) [
        | err e ↦ addrs
        | ok vout32 ↦ add_address address vout32 addrs
      ]
    ])

unfoldable pub all_p2pkh_addresses : Flow → Addresses
all_p2pkh_addresses f = p2pkh_addresses_from 0 f.tx.outputs []

-- The new output at an index; the index panics when the transaction has no such output.
unfoldable pub new_output_at : Flow → ℕ → String → CustomInstructions → Result RecordError NewOutput
new_output_at f vout user instructions = do
  output ← or_fail (get_elem? f.tx.outputs vout) panicked
  ok (
      new_output_for_p2pkh (record { tx_id = f.tx.tx_id; vout = vout }) user output.satoshis
        instructions)

unfoldable pub new_outputs_at :
    Flow → List ℕ → String → CustomInstructions → Result RecordError (List NewOutput)
new_outputs_at f [] user instructions = ok []
new_outputs_at f (v ∷ vouts) user instructions = do
  output ← new_output_at f v user instructions
  rest ← new_outputs_at f vouts user instructions
  ok (output ∷ rest)

-- The outputs of the tracked addresses.
unfoldable pub outputs_of_addresses :
    Flow → Addresses → List TrackedAddress → Result RecordError (List NewOutput)
outputs_of_addresses f potential [] = ok []
outputs_of_addresses f potential (t ∷ tracked) = elim (vouts_of t.address potential) [
  | none ↦ outputs_of_addresses f potential tracked
  | some vouts ↦
      (new_outputs_at f vouts t.user_id t.custom_instructions >>= λ outputs.
      outputs_of_addresses f potential tracked >>= λ rest. ok (outputs ++ rest))
]

-- `createUTXOsForTrackedAddresses`
unfoldable pub create_utxos_for_tracked_addresses :
    Env → Flow → Addresses → Result RecordError (List NewOutput)
create_utxos_for_tracked_addresses env f potential = do
  tracked ← or_fail (env.find_by_addresses (map (λ p. p.0) potential)) getting_addresses
  outputs_of_addresses f potential tracked

-- `verify`
unfoldable pub verify : Flow → Result RecordError (Unit {0})
verify f = elim f.operations [ [] ↦ err no_operations | o ∷ ops ↦ ok tt ]
