-- ===== src/Record/Effects.antt =====
-- The order of the effects of a run.
use spv_wallet.Prelude.{
  ◌≡◌, ◌≢◌, refl, ap, ◌∙◌, ◌⊎◌, inl, inr, Bool, true, false, String, List, [], ◌∷◌, ◌++◌, any,
  arith, Bool-cases, Option-cases, if◌then◌else◌,
}
use spv_wallet.Prelude.Results.{Result, ok, err, fail_if, or_fail, Result-cases, bind-ok}
use mathlib.Core.List.{append_assoc}
use spv_wallet.Tx.Model.{mined, broadcasted, is_mined}
use spv_wallet.Record.Model.{
  RecordError, not_implemented, tx_broadcast, tx_validation, Transaction, NewTransaction,
  NewOperation,
}
use spv_wallet.Record.Flow.{
  Env, Flow, verify, new_tx_flow, process_inputs, create_utxos_for_tracked_addresses,
  all_p2pkh_addresses, verify_scripts,
}
use spv_wallet.Record.Outputs.{
  OutputsAnnotations, PaymailInfo, process_paymail_outputs, custom_outputs, process_data_outputs,
  receiver_of, sender_of, reference_of,
}
use spv_wallet.Record.Service.{
  Effect, notified, sent, saved, Run, prepare_outline, save_flow, broadcast_and_save, finish,
  notify_and_broadcast, record_transaction_outline, prepare_paymail, record_paymail_transaction,
  spend_by_one, receive_by_one, spend_all, receive_all, add_data,
}

abbrev pub is_saved : Effect → Bool
is_saved (saved row ops) = true
is_saved e = false

-- A run that fails has saved nothing. A run that succeeds has saved last, once, and right after the
-- broadcast, with operations and with the status of a transaction that was sent.
abbrev pub IsOrdered : Run → Type 0
IsOrdered (err e, log) = any is_saved log ≡ false
IsOrdered (ok id, log) =
    (before : List Effect) × (tx : Transaction) × (row : NewTransaction) × (ops : List NewOperation)
    × (log ≡ before ++ sent tx ∷ saved row ops ∷ [])
    × (any is_saved before ≡ false)
    × (tx.tx_id ≡ id)
    × (ops ≢ [])
    × ((row.tx_status ≡ mined) ⊎ (row.tx_status ≡ broadcasted))

verify-ok : (f : Flow) (u : Unit {0}) → verify f ≡ ok u → f.operations ≢ []
unfolding verify
verify-ok f u h e = ground arith

pub prepare_paymail-verified :
    (env : Env) (tx : Transaction) (sender receiver : String) (f : Flow)
    → prepare_paymail env tx sender receiver ≡ ok f
    → f.operations ≢ []
unfolding prepare_paymail
prepare_paymail-verified env tx sender receiver f h =
    let (flow, h1, k1) = bind-ok (new_tx_flow env tx) _ f h in
    let (inputs, h2, k2) = bind-ok (process_inputs env flow) _ f k1 in
    let (spent, h3, k3) = bind-ok (spend_by_one receiver inputs.0 inputs.1) _ f k2 in
    let (outputs, h4, k4) =
      bind-ok (create_utxos_for_tracked_addresses env spent (all_p2pkh_addresses spent)) _ f k3 in
    let (received, h5, k5) = bind-ok (receive_by_one sender outputs spent) _ f k4 in
    let (u, h6, k6) = bind-ok (verify received) _ f k5 in
    let same : received ≡ f = cc in rw same at (verify-ok received u h6)

pub prepare_outline-verified :
    (env : Env) (user hex : String) (annotations : OutputsAnnotations) (p : Flow × PaymailInfo)
    → prepare_outline env user hex annotations ≡ ok p
    → p.0.operations ≢ []
unfolding prepare_outline
prepare_outline-verified env user hex annotations p h =
    let (u0, h0, k0) = bind-ok (fail_if (env.is_raw_tx hex) not_implemented) _ p h in
    let (tx, h1, k1) = bind-ok (or_fail (env.beef_transaction hex) tx_validation) _ p k0 in
    let (flow, h2, k2) = bind-ok (new_tx_flow env tx) _ p k1 in
    let (u3, h3, k3) = bind-ok (verify_scripts flow) _ p k2 in
    let (info, h4, k4) = bind-ok (process_paymail_outputs annotations) _ p k3 in
    let (inputs, h5, k5) = bind-ok (process_inputs env flow) _ p k4 in
    let (spent, h6, k6) = bind-ok (spend_all (receiver_of info) inputs.0 inputs.1) _ p k5 in
    let (custom, h7, k7) =
      bind-ok
        (custom_outputs env user (sender_of info) annotations spent (all_p2pkh_addresses spent)) _ p
        k6 in
    let (outputs, h8, k8) =
      bind-ok (create_utxos_for_tracked_addresses env custom.0 custom.1) _ p k7 in
    let (received, h9, k9) = bind-ok (receive_all (sender_of info) outputs custom.0 info) _ p k8 in
    let (records, ha, ka) = bind-ok (process_data_outputs tx user annotations) _ p k9 in
    let (u, hb, kb) = bind-ok (verify (add_data user (sender_of info) records received.0)) _ p ka in
    λ q.
      verify-ok (add_data user (sender_of info) records received.0) u hb
        (ap Flow.operations (ok_same kb) ∙ q)
  where
    ok_same :
        {a b : Flow × PaymailInfo}
        → ◌≡◌ {A = Result RecordError (Flow × PaymailInfo)} (ok a) (ok b)
        → a.0 ≡ b.0
    ok_same e = cc

-- The log before the broadcast has no save.
save_flow-IsOrdered :
    (env : Env) (f : Flow) (before : List Effect)
    → f.operations ≢ []
    → (f.row.tx_status ≡ mined) ⊎ (f.row.tx_status ≡ broadcasted)
    → any is_saved before ≡ false
    → IsOrdered (save_flow env f (before ++ sent f.tx ∷ []))
unfolding save_flow
save_flow-IsOrdered env f before ops status none_saved = elim (Bool-cases env.saves) [
  | inl s ↦ rw s (
    before,
    f.tx,
    f.row,
    f.operations,
    append_assoc before (sent f.tx ∷ []) _,
    none_saved,
    refl,
    ops,
    status,
  )
  | inr s ↦ rw s (not_saved before none_saved)
]
  where
    not_saved :
        (l : List Effect) → any is_saved l ≡ false → any is_saved (l ++ sent f.tx ∷ []) ≡ false
    not_saved [] h = refl
    not_saved (e ∷ l) h = ground (arith, not_saved l)

same_run : {r r' : Run} → r ≡ r' → IsOrdered r' → IsOrdered r
same_run e o = rw e o

broadcast-IsOrdered :
    (env : Env) (f : Flow) (before : List Effect)
    → f.operations ≢ []
    → any is_saved before ≡ false
    → IsOrdered (broadcast_and_save env f before)
unfolding broadcast_and_save
broadcast-IsOrdered env f before ops none_saved = elim (Option-cases (env.broadcasts f.tx)) [
  | inl b ↦ same_run {r' = (err tx_broadcast, before)} (rw (b, broadcast_and_save) refl) none_saved
  | inr (status, b) ↦
      let f' : Flow = record f {
        row = record f.row { tx_status = if is_mined status then mined else broadcasted };
      } in
      same_run {r' = save_flow env f' (before ++ sent f.tx ∷ [])} (rw (b, broadcast_and_save) refl)
        (save_flow-IsOrdered env f' before ops (ground arith) none_saved)
]

noticed-IsOrdered :
    (env : Env) (f : Flow) (info : PaymailInfo)
    → f.operations ≢ []
    → IsOrdered (notify_and_broadcast env f info)
unfolding notify_and_broadcast
noticed-IsOrdered env f info ops =
    elim (Bool-cases (env.notifies (receiver_of info) (sender_of info) (reference_of info))) [
      | inl n ↦ rw n (
          broadcast-IsOrdered env f
            (notified (receiver_of info) (sender_of info) (reference_of info) ∷ []) ops refl)
      | inr n ↦ rw n refl
    ]

finish-IsOrdered :
    (env : Env) (f : Flow) (info : PaymailInfo) → f.operations ≢ [] → IsOrdered (finish env f info)
unfolding finish
finish-IsOrdered env f info ops = elim (Bool-cases info.skip_notification) [
  | inl s ↦ same_run (rw (s, finish) refl) (broadcast-IsOrdered env f [] ops refl)
  | inr s ↦ same_run (rw (s, finish) refl) (noticed-IsOrdered env f info ops)
]

-- Recording an outline and recording a paymail transaction save last and once, after the broadcast
-- and with at least one operation, or fail and save nothing.
pub recording-IsOrdered :
    (env : Env) (user hex : String) (annotations : OutputsAnnotations) (tx : Transaction)
    (sender receiver : String)
    → IsOrdered (record_transaction_outline env user hex annotations)
      × IsOrdered (record_paymail_transaction env tx sender receiver)
unfolding record_transaction_outline record_paymail_transaction
recording-IsOrdered env user hex annotations tx sender receiver = (outline, paymail)
  where
    outline : IsOrdered (record_transaction_outline env user hex annotations)
    outline = elim (Result-cases (prepare_outline env user hex annotations)) [
      | inr (e, h) ↦ same_run {r' = (err e, [])} (rw (h, record_transaction_outline) refl) refl
      | inl (p, h) ↦
          same_run (rw (h, record_transaction_outline) refl)
            (finish-IsOrdered env p.0 p.1 (prepare_outline-verified env user hex annotations p h))
    ]

    paymail : IsOrdered (record_paymail_transaction env tx sender receiver)
    paymail = elim (Result-cases (prepare_paymail env tx sender receiver)) [
      | inr (e, h) ↦ same_run {r' = (err e, [])} (rw (h, record_paymail_transaction) refl) refl
      | inl (f, h) ↦
          same_run (rw (h, record_paymail_transaction) refl) (
            broadcast-IsOrdered env f [] (prepare_paymail-verified env tx sender receiver f h) refl)
    ]
