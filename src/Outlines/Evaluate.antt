-- ===== src/Outlines/Evaluate.antt =====
-- The evaluation of a whole specification: transaction_spec.go, output_specifications.go,
-- inputs_specifications.go, add_change.go and transaction_outlines_service.go. The state is the table
-- of unspent outputs, of which the selector marks the rows it picks.
use spv_wallet.Prelude.{
  ℕ, Bool, String, Option, none, some, List, [], ◌∷◌, ◌++◌, map, ◌=?◌, ltb, if◌then◌else◌,
}
use spv_wallet.Prelude.Results.{Result, ok, err, ◌>>=◌, or_fail}
use spv_wallet.Bsv.{CustomInstructions, FeeUnit}
use spv_wallet.Record.Outputs.{bsv_bucket}
use spv_wallet.Utxo.{Utxo, Sdk, Faults, SelectError, FundingUtxo, select}
use spv_wallet.Outlines.Model.{
  OutlineError, specification_required, user_id_required, at_least_one_output, selection_failed,
  insufficient_funds, bad_source_tx_id, add_change_failed, beef_failed, Env, OutputSpec,
  paymail_output, op_return_spec, TransactionSpec, AnnotatedOutputs, to_transaction_outputs,
  to_annotations, AnnotatedInput, default_sequence_number, input_annotations_from,
  OutlineTransaction, Annotations, Outline,
}
use spv_wallet.Outlines.Paymail.{evaluate_paymail}
use spv_wallet.Outlines.OpReturn.{evaluate_op_return}

-- The database of the selector: its collation, its faults and its clock, and the fee unit.
pub record Funds : Type 0 where
  pub sdk : Sdk
  pub text_leb : String → String → Bool
  pub fee_unit : FeeUnit
  pub faults : Faults
  pub now : ℕ

module _ (env : Env) where
  unfoldable pub evaluate_output : String → OutputSpec → Result OutlineError AnnotatedOutputs
  evaluate_output user (paymail_output p) = evaluate_paymail env user p
  evaluate_output user (op_return_spec o) = evaluate_op_return env o

  -- The loop of `OutputsSpec.evaluate`.
  unfoldable pub evaluate_each : String → List OutputSpec → Result OutlineError AnnotatedOutputs
  evaluate_each user [] = ok []
  evaluate_each user (spec ∷ specs) = do
    outs ← evaluate_output user spec
    rest ← evaluate_each user specs
    ok (outs ++ rest)

  -- `OutputsSpec.evaluate`
  unfoldable pub evaluate_outputs : String → List OutputSpec → Result OutlineError AnnotatedOutputs
  evaluate_outputs user [] = err at_least_one_output
  evaluate_outputs user (spec ∷ specs) = evaluate_each user (spec ∷ specs)

  -- The loop of `InputsSpec.evaluate`.
  unfoldable pub to_inputs : List FundingUtxo → Result OutlineError (List AnnotatedInput)
  to_inputs [] = ok []
  to_inputs (u ∷ utxos) = do
    tx_id ← or_fail (env.hash_from_hex u.tx_id) bad_source_tx_id
    rest ← to_inputs utxos
    ok (
        record {
          custom_instructions = u.custom_instructions;
          input = record {
            source_tx_id = tx_id;
            source_tx_out_index = u.vout;
            sequence_number = default_sequence_number;
          };
        }
        ∷ rest)

  -- `InputsSpec.evaluate` after the selection.
  unfoldable pub inputs_of :
      Result SelectError (List FundingUtxo × ℕ) → Result OutlineError (List AnnotatedInput × ℕ)
  inputs_of (err e) = err selection_failed
  inputs_of (ok ([], change)) = err insufficient_funds
  inputs_of (ok (u ∷ utxos, change)) = do inputs ← to_inputs (u ∷ utxos); ok (inputs, change)

  -- `InputsSpec.evaluate`
  unfoldable pub evaluate_inputs :
      Funds
      → String
      → AnnotatedOutputs
      → List Utxo
      → Result OutlineError (List AnnotatedInput × ℕ) × List Utxo
  evaluate_inputs funds user outputs table =
      let (r, table') =
        select funds.sdk funds.text_leb funds.fee_unit funds.faults funds.now
          (to_transaction_outputs outputs) user table in
      (inputs_of r, table')

  -- `lockingScriptForChangeOutput`
  unfoldable pub locking_script_for_change : String → Option (List ℕ × CustomInstructions)
  locking_script_for_change key = elim (env.new_destination key) [
    | none ↦ none
    | some dest ↦ elim (env.address_of dest.0) [
      | none ↦ none
      | some address ↦ elim (env.lock address) [
        | none ↦ none
        | some script ↦ some (script, record { kind = "type42"; instruction = dest.1 } ∷ [])
      ]
    ]
  ]

  -- `addChangeOutput`
  unfoldable pub add_change_output :
      String → AnnotatedOutputs → ℕ → Result OutlineError AnnotatedOutputs
  add_change_output user outputs change = do
    key ← or_fail (env.pub_key user) add_change_failed
    locking ← or_fail (locking_script_for_change key) add_change_failed
    ok (
        outputs
        ++ record {
          annotation = record {
            bucket = bsv_bucket;
            paymail = none;
            custom_instructions = some locking.1;
          };
          output = record { satoshis = change; locking_script = locking.0 };
        }
          ∷ [])

  -- The end of `TransactionSpec.evaluate`.
  unfoldable pub assemble :
      String
      → AnnotatedOutputs
      → List AnnotatedInput × ℕ
      → Result OutlineError (OutlineTransaction × Annotations)
  assemble user outputs (inputs, change) = do
    all ← if ltb 0 change then add_change_output user outputs change else ok outputs
    annotations ← to_annotations all
    ok (
      record {
        inputs = map (λ (i : AnnotatedInput). i.input) inputs;
        outputs = to_transaction_outputs all;
      },
      record { inputs = input_annotations_from 0 inputs; outputs = annotations },
    )

  -- `TransactionSpec.evaluate` once the outputs are evaluated.
  unfoldable pub fund_outputs :
      Funds
      → String
      → AnnotatedOutputs
      → List Utxo
      → Result OutlineError (OutlineTransaction × Annotations) × List Utxo
  fund_outputs funds user outputs table =
      let (r, table') = evaluate_inputs funds user outputs table in
      (r >>= assemble user outputs, table')

  -- `TransactionSpec.evaluate`
  unfoldable pub evaluate_spec :
      Funds
      → TransactionSpec
      → List Utxo
      → Result OutlineError (OutlineTransaction × Annotations) × List Utxo
  evaluate_spec funds spec table = elim (evaluate_outputs spec.user_id spec.outputs) [
    | err e ↦ (err e, table)
    | ok outputs ↦ fund_outputs funds spec.user_id outputs table
  ]

  -- `evaluateSpec` of the service; the specification may be nil.
  unfoldable pub evaluate_required :
      Funds
      → Option TransactionSpec
      → List Utxo
      → Result OutlineError (OutlineTransaction × Annotations) × List Utxo
  evaluate_required funds none table = (err specification_required, table)
  evaluate_required funds (some spec) table =
      if spec.user_id =? "" then (err user_id_required, table) else evaluate_spec funds spec table

  -- `CreateRawTx`; the hexadecimal form is the go-sdk's.
  unfoldable pub create_raw_tx :
      (OutlineTransaction → String)
      → Funds
      → Option TransactionSpec
      → List Utxo
      → Result OutlineError Outline × List Utxo
  create_raw_tx hex funds spec table =
      let (r, table') = evaluate_required funds spec table in
      (r >>= λ p. ok (record { hex = hex p.0; annotations = p.1 }), table')

  -- `CreateBEEF`; the BEEF service is the argument.
  unfoldable pub create_beef :
      (OutlineTransaction → Option String)
      → Funds
      → Option TransactionSpec
      → List Utxo
      → Result OutlineError Outline × List Utxo
  create_beef prepare_beef funds spec table =
      let (r, table') = evaluate_required funds spec table in
      (
        r >>= λ p. or_fail (prepare_beef p.0) beef_failed >>= λ beef.
            ok (record { hex = beef; annotations = p.1 }),
        table',
      )
