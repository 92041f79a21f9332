-- ===== src/Outlines/Paymail.antt =====
-- An output to a paymail: output_paymail.go, and GetP2PDestinations with the check of the host's
-- answer in engine/paymail/paymail_service_client.go.
use spv_wallet.Prelude.{
  ℕ, zero, suc, ◌+◌, ◌/◌, ◌%◌, not, ◌&&◌, String, Option, none, some, List, [], ◌∷◌, ◌==◌, ◌=?◌,
  ltb, if◌then◌else◌,
}
use spv_wallet.Prelude.Results.{Result, ok, err, ◌>>=◌, ◌>>◌, or_fail, fail_if}
use spv_wallet.Record.Outputs.{bsv_bucket}
use spv_wallet.Outlines.Model.{
  OutlineError, receiver_paymail_invalid, sender_paymail_invalid, no_default_sender,
  paymail_check_failed, output_value_too_low, not_divisible_by_splits, cannot_split,
  host_response_error, host_not_supporting_p2p, host_invalid_response, PaymentOutput, Destinations,
  owned, not_owned, unknown_paymail, check_failed, Env, Paymail, AnnotatedOutput, AnnotatedOutputs,
}

-- The sum of `validatePaymentDestinationResponse`, in 64 bits.
unfoldable pub sum_satoshis : ℕ → List PaymentOutput → ℕ
sum_satoshis sum [] = sum
sum_satoshis sum (out ∷ outputs) =
    sum_satoshis ((sum + out.satoshis) % 18446744073709551616) outputs

unfoldable pub validate_destinations : Destinations → ℕ → Result OutlineError (Unit {0})
validate_destinations response satoshis =
    fail_if (not (sum_satoshis 0 response.outputs == satoshis)) host_invalid_response

unfoldable pub ensure_defaults : Paymail → Paymail
ensure_defaults p = if p.splits == 0 then record p { splits = 1 } else p

unfoldable pub validate_paymail : Paymail → Result OutlineError (Unit {0})
validate_paymail p = do
  fail_if (p.satoshis == 0) output_value_too_low
  fail_if (ltb 1 p.splits && not (p.satoshis % p.splits == 0)) not_divisible_by_splits

module _ (env : Env) where
  unfoldable pub get_p2p_destinations : String → ℕ → Result OutlineError Destinations
  get_p2p_destinations address satoshis = do
    url ← or_fail (env.p2p_destination_url address) host_response_error
    fail_if (url =? "") host_not_supporting_p2p
    response ← or_fail (env.host_destinations url address satoshis) host_response_error
    validate_destinations response satoshis
    ok response

  unfoldable pub validate_provided_sender : String → String → Result OutlineError (Unit {0})
  validate_provided_sender user sender = do
    sanitized ← or_fail (env.sanitize sender) sender_paymail_invalid
    elim (env.has_paymail user sender) [
      | owned ↦ ok tt
      | not_owned ↦ err sender_paymail_invalid
      | unknown_paymail ↦ err sender_paymail_invalid
      | check_failed ↦ err paymail_check_failed
    ]

  unfoldable pub sender_of_paymail : String → Option String → Result OutlineError String
  sender_of_paymail user none = or_fail (env.default_paymail user) no_default_sender
  sender_of_paymail user (some sender) = validate_provided_sender user sender >> ok sender

  unfoldable pub create_bsv_paymail_output :
      Paymail → PaymentOutput → String → String → Result OutlineError AnnotatedOutput
  create_bsv_paymail_output p output reference from = do
    script ← or_fail (env.script_from_hex output.script) host_invalid_response
    ok record {
      annotation = record {
        bucket = bsv_bucket;
        paymail = some (record { receiver = p.to; reference = reference; sender = from });
        custom_instructions = none;
      };
      output = record { satoshis = output.satoshis; locking_script = script };
    }

  -- `mapToAnnotatedOutputs`
  unfoldable pub map_outputs :
      Paymail → List PaymentOutput → String → String → Result OutlineError AnnotatedOutputs
  map_outputs p [] reference sender = ok []
  map_outputs p (output ∷ outputs) reference sender = do
    out ← create_bsv_paymail_output p output reference sender
    rest ← map_outputs p outputs reference sender
    ok (out ∷ rest)

  -- The loop of `mapToSplitOutputs`.
  unfoldable pub split_output :
      Paymail → ℕ → PaymentOutput → String → String → Result OutlineError AnnotatedOutputs
  split_output p zero output reference sender = ok []
  split_output p (suc n) output reference sender = do
    out ← create_bsv_paymail_output p output reference sender
    rest ← split_output p n output reference sender
    ok (out ∷ rest)

  -- The outputs that are to be split must be a single one.
  unfoldable pub split_single :
      Paymail → List PaymentOutput → String → String → Result OutlineError AnnotatedOutputs
  split_single p [] reference sender = err cannot_split
  split_single p (output ∷ []) reference sender =
      split_output p p.splits (record output { satoshis = p.satoshis / p.splits }) reference sender
  split_single p (output ∷ other ∷ rest) reference sender = err cannot_split

  unfoldable pub map_to_split_outputs :
      Paymail → Destinations → String → Result OutlineError AnnotatedOutputs
  map_to_split_outputs p destinations sender =
      split_single p destinations.outputs destinations.reference sender

  -- The choice of `wantToSplit`.
  unfoldable pub map_destinations :
      Paymail → Destinations → String → Result OutlineError AnnotatedOutputs
  map_destinations p destinations sender =
      if ltb 1 p.splits
      then map_to_split_outputs p destinations sender
      else map_outputs p destinations.outputs destinations.reference sender

  -- `Paymail.evaluate` once the defaults are set.
  unfoldable pub evaluate_defaulted : String → Paymail → Result OutlineError AnnotatedOutputs
  evaluate_defaulted user p = do
    receiver ← or_fail (env.sanitize p.to) receiver_paymail_invalid
    validate_paymail p
    sender ← sender_of_paymail user p.from
    destinations ← get_p2p_destinations receiver p.satoshis
    map_destinations p destinations sender

  -- `Paymail.evaluate`
  unfoldable pub evaluate_paymail : String → Paymail → Result OutlineError AnnotatedOutputs
  evaluate_paymail user p = evaluate_defaulted user (ensure_defaults p)
