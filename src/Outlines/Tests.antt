-- ===== src/Outlines/Tests.antt =====
-- An outline for a paymail, and a split.
use Prim.Native.String.{len}
use spv_wallet.Prelude.{
  ◌+◌, ◌%◌, ◌/◌, ◌≡◌, ◌≢◌, ◌<◌, refl, ◌⊎◌, inl, inr, Bool, String, none, some, List, [], ◌∷◌, leb,
  sum_by, In, All, arith, length,
}
use spv_wallet.Prelude.Int.{◌-ℤ◌}
use spv_wallet.Prelude.Results.{ok, err}
use spv_wallet.Conv.{int_to_uint32}
use spv_wallet.Record.Outputs.{bsv_bucket}
use spv_wallet.Utxo.{
  Utxo, TransactionOutput, output_only_tx_size, fee_of, estimated_change_output_size, utxos, select,
  select_inputs_for_transaction, build, join, choose_inputs, change, min_change, remaining_value,
  fee_no_change_output, fee_with_change_output, window, before, outputs_size, outputs_size_from,
}
use spv_wallet.Utxo.Order.{IsTotal, IsTransitive}
use spv_wallet.Utxo.Growth.{IsWorthSize}
use spv_wallet.Utxo.Funding.{faultless}
use spv_wallet.Outlines.Model.{
  Env, owned, part_too_big, Paymail, paymail_output, TransactionSpec, AnnotatedOutput,
  AnnotatedOutputs, to_transaction_outputs, annotations_from, to_annotations,
  input_annotations_from, default_sequence_number, OutlineTransaction, Annotations,
}
use spv_wallet.Outlines.Paymail.{
  sum_satoshis, validate_destinations, ensure_defaults, validate_paymail, get_p2p_destinations,
  sender_of_paymail, create_bsv_paymail_output, split_output, split_single, map_to_split_outputs,
  map_destinations, evaluate_defaulted, evaluate_paymail,
}
use spv_wallet.Outlines.Evaluate.{
  Funds, evaluate_output, evaluate_each, evaluate_outputs, to_inputs, inputs_of, evaluate_inputs,
  locking_script_for_change, add_change_output, assemble, fund_outputs, evaluate_spec,
}
use spv_wallet.Outlines.Sums.{total, IsPaidTo, evaluate_paymail-Pays}
use spv_wallet.Outlines.Funds.{output_total, composer_of, Spends, fund_outputs-Pays}
use spv_wallet.Outlines.Indexes.{AnnotatesOutputs, evaluate_spec-AnnotatesOutputs}

abbrev by_length : String → String → Bool
by_length s t = leb (len s) (len t)

by_length-IsTotal : IsTotal by_length
by_length-IsTotal a b h = ground arith

by_length_trans : IsTransitive by_length
by_length_trans a b c h k = ground arith

abbrev table : List Utxo
table =
    record {
      user_id = "alice";
      tx_id = "t1";
      vout = 3;
      satoshis = 1000;
      estimated_input_size = 148;
      bucket = "bsv";
      created_at = 1;
      touched_at = 5;
      custom_instructions = [];
    }
    ∷ []

abbrev services : Env
services = record {
  sanitize = λ s. some s;
  p2p_destination_url = λ a. some "https://host/p2p";
  host_destinations = λ url a n.
      some
        (record { outputs = record { satoshis = n; script = "script" } ∷ []; reference = "ref" });
  has_paymail = λ u s. owned;
  default_paymail = λ u. some "alice@host";
  script_from_hex = λ s. some (1 ∷ 2 ∷ []);
  op_return_output = λ l. err part_too_big;
  hash_from_hex = λ s. some s;
  pub_key = λ u. some "key";
  new_destination = λ k. some (k, "reference");
  address_of = λ k. some k;
  lock = λ a. some (7 ∷ []);
}

abbrev to_bob : Paymail
to_bob = record { to = "bob@host"; satoshis = 600; splits = 3; from = none }

abbrev part : AnnotatedOutput
part = record {
  annotation = record {
    bucket = bsv_bucket;
    paymail = some (record { receiver = "bob@host"; reference = "ref"; sender = "alice@host" });
    custom_instructions = none;
  };
  output = record { satoshis = 200; locking_script = 1 ∷ 2 ∷ [] };
}

abbrev parts : AnnotatedOutputs
parts = part ∷ part ∷ part ∷ []

evaluates_to_parts : evaluate_paymail services "alice" to_bob ≡ ok parts
unfolding evaluate_paymail evaluate_defaulted ensure_defaults validate_paymail sender_of_paymail
    get_p2p_destinations validate_destinations sum_satoshis map_destinations map_to_split_outputs
    split_single split_output create_bsv_paymail_output
evaluates_to_parts = refl

evaluate_paymail-Pays_example :
    (to_bob.satoshis ≢ 0)
    × (total parts % 18446744073709551616 ≡ 600)
    × All (IsPaidTo to_bob) parts
    × (1 < to_bob.splits
        → (length parts ≡ to_bob.splits)
          × (total parts ≡ to_bob.satoshis)
          × All
              (λ (o : AnnotatedOutput). o.output.satoshis ≡ to_bob.satoshis / to_bob.splits)
              parts)
evaluate_paymail-Pays_example =
    evaluate_paymail-Pays services "alice" to_bob parts evaluates_to_parts

abbrev funds : Funds
funds = record {
  sdk = record {
    total_output_satoshis = λ outs. sum_by (λ (o : TransactionOutput). o.satoshis) outs;
    var_int_length = λ n. 1;
  };
  text_leb = by_length;
  fee_unit = record { satoshis = 1; bytes = 1000 };
  faults = faultless;
  now = 9;
}

abbrev outline : OutlineTransaction
outline = record {
  inputs =
      record {
        source_tx_id = "t1";
        source_tx_out_index = 3;
        sequence_number = default_sequence_number;
      }
      ∷ [];
  outputs =
      part.output
      ∷ part.output
      ∷ part.output
      ∷ record { satoshis = 399; locking_script = 7 ∷ [] }
      ∷ [];
}

abbrev annotations : Annotations
annotations = record {
  inputs = (0, []) ∷ [];
  outputs =
      (0, part.annotation)
      ∷ (1, part.annotation)
      ∷ (2, part.annotation)
      ∷ (
        3,
        record {
          bucket = bsv_bucket;
          paymail = none;
          custom_instructions = some (record { kind = "type42"; instruction = "reference" } ∷ []);
        },
      )
      ∷ [];
}

fund_outputs-parts : (fund_outputs services funds "alice" parts table).0 ≡ ok (outline, annotations)
unfolding fund_outputs evaluate_inputs to_transaction_outputs select output_only_tx_size
    outputs_size outputs_size_from select_inputs_for_transaction build join choose_inputs utxos
    change min_change remaining_value fee_no_change_output fee_with_change_output window before
    fee_of inputs_of to_inputs assemble add_change_output locking_script_for_change to_annotations
    annotations_from int_to_uint32 input_annotations_from ◌-ℤ◌
fund_outputs-parts = refl

table-IsWorthSize :
    IsWorthSize 1000
      (utxos by_length (composer_of funds "alice" (to_transaction_outputs parts)) table)
unfolding utxos to_transaction_outputs
table-IsWorthSize r (inl e) = rw e (omega arith)
table-IsWorthSize r (inr i) = absurd i

adds_up :
    sum_by (λ (o : TransactionOutput). o.satoshis) (to_transaction_outputs parts)
    ≡ output_total (to_transaction_outputs parts)
adds_up = refl

fund_outputs-Pays_example :
    (rows : List Utxo) × Spends services rows outline.inputs
    × ((r : Utxo) → In r rows → In r table × (r.user_id ≡ "alice"))
    × (let size =
          sum_by (λ (r : Utxo). r.estimated_input_size) rows
          + output_only_tx_size funds.sdk.var_int_length (to_transaction_outputs parts) in
        let value = sum_by (λ (r : Utxo). r.satoshis) rows in
        (value ≡ output_total outline.outputs + fee_of funds.fee_unit size)
        ⊎ (value
            ≡ output_total outline.outputs
              + fee_of funds.fee_unit (size + estimated_change_output_size)))
fund_outputs-Pays_example =
    fund_outputs-Pays services funds "alice" parts table outline annotations by_length-IsTotal
      by_length_trans (tt, tt) (omega arith) (omega arith) table-IsWorthSize adds_up
      fund_outputs-parts

abbrev spec : TransactionSpec
spec = record { outputs = paymail_output to_bob ∷ []; user_id = "alice" }

evaluates_spec : (evaluate_spec services funds spec table).0 ≡ ok (outline, annotations)
unfolding evaluate_spec evaluate_outputs evaluate_each evaluate_output evaluate_paymail
    evaluate_defaulted ensure_defaults validate_paymail sender_of_paymail get_p2p_destinations
    validate_destinations sum_satoshis map_destinations map_to_split_outputs split_single
    split_output create_bsv_paymail_output fund_outputs evaluate_inputs to_transaction_outputs
    select output_only_tx_size outputs_size outputs_size_from select_inputs_for_transaction build
    join choose_inputs utxos change min_change remaining_value fee_no_change_output
    fee_with_change_output window before fee_of inputs_of to_inputs assemble add_change_output
    locking_script_for_change to_annotations annotations_from int_to_uint32 input_annotations_from
    ◌-ℤ◌
evaluates_spec = refl

evaluate_spec-AnnotatesOutputs_example : AnnotatesOutputs (outline, annotations)
evaluate_spec-AnnotatesOutputs_example =
    evaluate_spec-AnnotatesOutputs services funds spec table (outline, annotations) evaluates_spec
