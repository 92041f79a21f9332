-- ===== src/Record/Service.antt =====
-- Recording an outline and recording a paymail transaction: record_outline.go,
-- record_paymail_transaction.go and the end of a flow in tx_flow.go and paymail.go. A run returns a
-- result and the effects on other systems that succeeded, in order.
use spv_wallet.Prelude.{true, String, none, some, List, [], ◌∷◌, ◌++◌, if◌then◌else◌, length, ltb}
use spv_wallet.Prelude.Results.{Result, ok, err, ◌>>=◌, ◌>>◌, or_fail, fail_if}
use spv_wallet.Tx.Model.{mined, broadcasted, is_mined}
use spv_wallet.Record.Model.{
  RecordError, not_implemented, tx_validation, multi_recipients, multi_senders, tx_broadcast,
  save_failed, notify_failed, Transaction, TrackedOutput, NewOutput, NewTransaction, NewOperation,
  add, subtract,
}
use spv_wallet.Record.Flow.{
  Env, Flow, new_tx_flow, verify_scripts, process_inputs, operation_of_user, change_operation,
  add_outputs, all_p2pkh_addresses, create_utxos_for_tracked_addresses, verify,
}
use spv_wallet.Record.Outputs.{
  OutputsAnnotations, PaymailInfo, process_paymail_outputs, has_vout, sender_of, receiver_of,
  reference_of, receive, custom_outputs, process_data_outputs,
}

pub data Effect : Type 0 where
  notified : String → String → String → Effect
  sent : Transaction → Effect
  saved : NewTransaction → List NewOperation → Effect

abbrev pub Run : Type 0
Run = Result RecordError String × List Effect

-- The loop over the tracked outputs that the transaction spends.
unfoldable pub spend_all : String → List TrackedOutput → Flow → Result RecordError Flow
spend_all receiver [] f = ok f
spend_all receiver (o ∷ tracked) f = do
  operations ←
      change_operation (subtract o.satoshis) o.user_id
        (operation_of_user o.user_id "outgoing" receiver f.operations)
  spend_all receiver tracked (record f { operations = operations })

-- The loop over the outputs of tracked addresses.
unfoldable pub receive_all :
    String → List NewOutput → Flow → PaymailInfo → Result RecordError (Flow × PaymailInfo)
receive_all sender [] f info = ok (f, info)
receive_all sender (o ∷ outputs) f info = do
  next ← receive sender o f
  receive_all sender outputs next
      (if has_vout o.vout info then record info { skip_notification = true } else info)

-- The records of data outputs give the user an operation, unless there are none.
unfoldable pub add_data : String → String → List NewOutput → Flow → Flow
add_data user sender [] f = f
add_data user sender (o ∷ outputs) f =
    add_outputs (o ∷ outputs)
      (record f { operations = operation_of_user user "data" sender f.operations })

-- `RecordTransactionOutline` up to the first effect.
unfoldable pub prepare_outline :
    Env → String → String → OutputsAnnotations → Result RecordError (Flow × PaymailInfo)
prepare_outline env user hex annotations = do
  fail_if (env.is_raw_tx hex) not_implemented
  tx ← or_fail (env.beef_transaction hex) tx_validation
  flow ← new_tx_flow env tx
  verify_scripts flow
  info ← process_paymail_outputs annotations
  inputs ← process_inputs env flow
  spent ← spend_all (receiver_of info) inputs.0 inputs.1
  custom ← custom_outputs env user (sender_of info) annotations spent (all_p2pkh_addresses spent)
  outputs ← create_utxos_for_tracked_addresses env custom.0 custom.1
  received ← receive_all (sender_of info) outputs custom.0 info
  records ← process_data_outputs tx user annotations
  let complete = add_data user (sender_of info) records received.0
  verify complete
  ok (complete, received.1)

-- `save`
unfoldable pub save_flow : Env → Flow → List Effect → Run
save_flow env f before =
    if env.saves
    then (ok f.tx.tx_id, before ++ saved f.row f.operations ∷ [])
    else (err save_failed, before)

-- `broadcast`, then `save`
unfoldable pub broadcast_and_save : Env → Flow → List Effect → Run
broadcast_and_save env f before = elim (env.broadcasts f.tx) [
  | none ↦ (err tx_broadcast, before)
  | some status ↦
      save_flow env
        (record f {
          row = record f.row { tx_status = if is_mined status then mined else broadcasted };
        })
        (before ++ sent f.tx ∷ [])
]

-- The call of the notifier in `notifyPaymailExternalRecipient`, then the rest.
unfoldable pub notify_and_broadcast : Env → Flow → PaymailInfo → Run
notify_and_broadcast env f info =
    if env.notifies (receiver_of info) (sender_of info) (reference_of info)
    then broadcast_and_save env f
        (notified (receiver_of info) (sender_of info) (reference_of info) ∷ [])
    else (err notify_failed, [])

-- `notifyPaymailExternalRecipient`, then the rest.
unfoldable pub finish : Env → Flow → PaymailInfo → Run
finish env f info =
    if info.skip_notification then broadcast_and_save env f [] else notify_and_broadcast env f info

-- `RecordTransactionOutline`
unfoldable pub record_transaction_outline : Env → String → String → OutputsAnnotations → Run
record_transaction_outline env user hex annotations =
    elim (prepare_outline env user hex annotations) [
      | err e ↦ (err e, [])
      | ok p ↦ finish env p.0 p.1
    ]

-- The first loop of `RecordPaymailTransaction`.
unfoldable pub spend_by_one : String → List TrackedOutput → Flow → Result RecordError Flow
spend_by_one receiver [] f = ok f
spend_by_one receiver (o ∷ tracked) f = do
  let found = operation_of_user o.user_id "outgoing" receiver f.operations
  fail_if (ltb 1 (length found)) multi_senders
  operations ← change_operation (subtract o.satoshis) o.user_id found
  spend_by_one receiver tracked (record f { operations = operations })

-- The second loop of `RecordPaymailTransaction`.
unfoldable pub receive_by_one : String → List NewOutput → Flow → Result RecordError Flow
receive_by_one sender [] f = ok f
receive_by_one sender (o ∷ outputs) f = do
  let found = operation_of_user o.user_id "incoming" sender f.operations
  fail_if (ltb 2 (length found)) multi_recipients
  operations ← change_operation (add o.satoshis) o.user_id found
  receive_by_one sender outputs (add_outputs (o ∷ []) (record f { operations = operations }))

-- `RecordPaymailTransaction` up to the broadcast.
unfoldable pub prepare_paymail : Env → Transaction → String → String → Result RecordError Flow
prepare_paymail env tx sender receiver = do
  flow ← new_tx_flow env tx
  inputs ← process_inputs env flow
  spent ← spend_by_one receiver inputs.0 inputs.1
  outputs ← create_utxos_for_tracked_addresses env spent (all_p2pkh_addresses spent)
  received ← receive_by_one sender outputs spent
  verify received
  ok received

-- `RecordPaymailTransaction`
unfoldable pub record_paymail_transaction : Env → Transaction → String → String → Run
record_paymail_transaction env tx sender receiver = elim (prepare_paymail env tx sender receiver) [
  | err e ↦ (err e, [])
  | ok f ↦ broadcast_and_save env f []
]
