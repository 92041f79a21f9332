-- ===== src/Record/Guards.antt =====
-- What a recording refuses.
use spv_wallet.Prelude.{
  Bool, In, =?_iff, ℕ, ◌≡◌, ◌≤◌, ◌≢◌, refl, inl, inr, true, false, String, some, List, [], ◌∷◌, any,
  length, ltb, arith,
}
use spv_wallet.Prelude.Results.{Result, ok, err, fail_if, or_fail, Result-cases, bind-ok}
use spv_wallet.Record.Model.{
  RecordError, not_implemented, tx_validation, multi_senders, multi_recipients, Transaction,
  TrackedOutput, is_spent, NewOutput, NewOperation, add, subtract,
}
use spv_wallet.Record.Flow.{
  Env, Flow, is_double_spend, new_tx_flow, process_inputs, operation_of_user, change_operation,
  add_outputs, create_utxos_for_tracked_addresses, all_p2pkh_addresses, verify, verify_scripts,
}
use spv_wallet.Record.Outputs.{OutputsAnnotations, PaymailInfo, process_paymail_outputs}
use spv_wallet.Record.Service.{
  prepare_outline, record_transaction_outline, spend_by_one, receive_by_one, prepare_paymail,
  record_paymail_transaction,
}

new_tx_flow-tx : (env : Env) (tx : Transaction) (f : Flow) → new_tx_flow env tx ≡ ok f → f.tx ≡ tx
unfolding new_tx_flow
new_tx_flow-tx env tx f h = ground arith

process_inputs-spent :
    (env : Env) (f : Flow) (tracked : List TrackedOutput) (p : List TrackedOutput × Flow)
    → env.find_by_outpoints f.tx.inputs ≡ some tracked
    → process_inputs env f ≡ ok p
    → any (is_double_spend f.tx.tx_id) tracked ≡ false
unfolding process_inputs
process_inputs-spent env f tracked p found h = ground arith

-- A failed preparation of either run is an error with no effect.
paymail_refused :
    (env : Env) (tx : Transaction) (sender receiver : String)
    → ((f : Flow) → prepare_paymail env tx sender receiver ≢ ok f)
    → (e : RecordError) × (record_paymail_transaction env tx sender receiver ≡ (err e, []))
unfolding record_paymail_transaction
paymail_refused env tx sender receiver n =
    elim (Result-cases (prepare_paymail env tx sender receiver)) [
      | inl (f, h) ↦ absurd (n f h)
      | inr (e, h) ↦ (e, rw (h, record_paymail_transaction) refl)
    ]

outline_refused :
    (env : Env) (user hex : String) (annotations : OutputsAnnotations)
    → ((p : Flow × PaymailInfo) → prepare_outline env user hex annotations ≢ ok p)
    → (e : RecordError) × (record_transaction_outline env user hex annotations ≡ (err e, []))
unfolding record_transaction_outline
outline_refused env user hex annotations n =
    elim (Result-cases (prepare_outline env user hex annotations)) [
      | inl (f, h) ↦ absurd (n f h)
      | inr (e, h) ↦ (e, rw (h, record_transaction_outline) refl)
    ]

spent_refused :
    (env : Env) (tx : Transaction) (tracked : List TrackedOutput)
    (sender receiver user hex : String) (annotations : OutputsAnnotations)
    → env.find_by_outpoints tx.inputs ≡ some tracked
    → any (is_double_spend tx.tx_id) tracked ≡ true
    → env.beef_transaction hex ≡ some tx
    → ((e : RecordError) × (record_paymail_transaction env tx sender receiver ≡ (err e, [])))
      × ((e : RecordError) × (record_transaction_outline env user hex annotations ≡ (err e, [])))
unfolding prepare_paymail prepare_outline
spent_refused env tx tracked sender receiver user hex annotations found spent parsed = (
  paymail_refused env tx sender receiver paymail,
  outline_refused env user hex annotations outline,
)
  where
    flow_spent :
        (flow : Flow) (p : List TrackedOutput × Flow)
        → new_tx_flow env tx ≡ ok flow
        → process_inputs env flow ≡ ok p
        → ⊥
    flow_spent flow p h k =
        let same = new_tx_flow-tx env tx flow h in
        let fine = process_inputs-spent env flow tracked p (rw same found) k in
        clash (rw same at fine)
      where
        clash : any (is_double_spend tx.tx_id) tracked ≡ false → ⊥
        clash e = ground arith

    paymail : (f : Flow) → prepare_paymail env tx sender receiver ≢ ok f
    paymail f h =
        let (flow, h1, k1) = bind-ok (new_tx_flow env tx) _ f h in
        let (inputs, h2, k2) = bind-ok (process_inputs env flow) _ f k1 in
        flow_spent flow inputs h1 h2

    outline : (p : Flow × PaymailInfo) → prepare_outline env user hex annotations ≢ ok p
    outline p h =
        let (u0, h0, k0) = bind-ok (fail_if (env.is_raw_tx hex) not_implemented) _ p h in
        let (tx', h1, k1) = bind-ok (or_fail (env.beef_transaction hex) tx_validation) _ p k0 in
        let (flow, h2, k2) = bind-ok (new_tx_flow env tx') _ p k1 in
        let (u3, h3, k3) = bind-ok (verify_scripts flow) _ p k2 in
        let (info, h4, k4) = bind-ok (process_paymail_outputs annotations) _ p k3 in
        let (inputs, h5, k5) = bind-ok (process_inputs env flow) _ p k4 in
        let same : tx' ≡ tx = parsed_as h1 in flow_spent flow inputs (rw same at h2) h5
      where
        parsed_as :
            {t : Transaction} → or_fail (env.beef_transaction hex) tx_validation ≡ ok t → t ≡ tx
        parsed_as e = ground arith

any-In : {A : Type 0} (p : A → Bool) (a : A) (l : List A) → In a l → p a ≡ true → any p l ≡ true
any-In p a [] i h = absurd i
any-In p a (b ∷ l) (inl e) h = let t : p b ≡ true = rw e at h in ground arith
any-In p a (b ∷ l) (inr i) h = let ih = any-In p a l i h in ground arith

is_double_spend-other :
    (tx_id : String) (o : TrackedOutput)
    → o.spending_tx ≢ ""
    → o.spending_tx ≢ tx_id
    → is_double_spend tx_id o ≡ true
unfolding is_spent
is_double_spend-other tx_id o some_tx other =
    ground (arith, =?_iff o.spending_tx "", =?_iff o.spending_tx tx_id)

-- When one of the tracked outputs that a transaction spends is already spent by another one,
-- recording it, as a paymail transaction or as the transaction of an outline, fails with no effect.
pub double_spend_refused :
    (env : Env) (tx : Transaction) (tracked : List TrackedOutput) (o : TrackedOutput)
    (sender receiver user hex : String) (annotations : OutputsAnnotations)
    → env.find_by_outpoints tx.inputs ≡ some tracked
    → In o tracked
    → o.spending_tx ≢ ""
    → o.spending_tx ≢ tx.tx_id
    → env.beef_transaction hex ≡ some tx
    → ((e : RecordError) × (record_paymail_transaction env tx sender receiver ≡ (err e, [])))
      × ((e : RecordError) × (record_transaction_outline env user hex annotations ≡ (err e, [])))
double_spend_refused env tx tracked o sender receiver user hex annotations found i some_tx other
      parsed =
    spent_refused env tx tracked sender receiver user hex annotations found
      (any-In (is_double_spend tx.tx_id) o tracked i
        (is_double_spend-other tx.tx_id o some_tx other))
      parsed

change_operation-length :
    (change : NewOperation → Result RecordError NewOperation) (user : String)
    (ops ops' : List NewOperation)
    → change_operation change user ops ≡ ok ops'
    → length ops' ≡ length ops
unfolding change_operation
change_operation-length change user [] ops' h = ground arith
change_operation-length change user (o ∷ ops) ops' h =
    elim (Result-cases (change_operation change user ops)) [
      | inl (rest, a) ↦ let ih = change_operation-length change user ops rest a in ground arith
      | inr (e, a) ↦ ground arith
    ]

few : (n k : ℕ) (e : RecordError) (u : Unit {0}) → fail_if (ltb k n) e ≡ ok u → n ≤ k
few n k e u h = ground arith

spend_by_one-length :
    (receiver : String) (tracked : List TrackedOutput) (f f' : Flow)
    → length f.operations ≤ 2
    → spend_by_one receiver tracked f ≡ ok f'
    → length f'.operations ≤ 2
unfolding spend_by_one
spend_by_one-length receiver [] f f' l h = ground arith
spend_by_one-length receiver (o ∷ tracked) f f' l h =
    let found = operation_of_user o.user_id "outgoing" receiver f.operations in
    let (u, a, b) = bind-ok (fail_if (ltb 1 (length found)) multi_senders) _ f' h in
    let (ops, c, d) = bind-ok (change_operation (subtract o.satoshis) o.user_id found) _ f' b in
    let short : length found ≤ 1 = few (length found) 1 multi_senders u a in
    let kept = change_operation-length (subtract o.satoshis) o.user_id found ops c in
    let room : length ops ≤ 2 = omega arith in
    spend_by_one-length receiver tracked (record f { operations = ops }) f' room d

receive_by_one-length :
    (sender : String) (outputs : List NewOutput) (f f' : Flow)
    → length f.operations ≤ 2
    → receive_by_one sender outputs f ≡ ok f'
    → length f'.operations ≤ 2
unfolding receive_by_one add_outputs
receive_by_one-length sender [] f f' l h = ground arith
receive_by_one-length sender (o ∷ outputs) f f' l h =
    let found = operation_of_user o.user_id "incoming" sender f.operations in
    let (u, a, b) = bind-ok (fail_if (ltb 2 (length found)) multi_recipients) _ f' h in
    let (ops, c, d) = bind-ok (change_operation (add o.satoshis) o.user_id found) _ f' b in
    let short : length found ≤ 2 = few (length found) 2 multi_recipients u a in
    let kept = change_operation-length (add o.satoshis) o.user_id found ops c in
    let room : length ops ≤ 2 = omega arith in
    receive_by_one-length sender outputs (add_outputs (o ∷ []) (record f { operations = ops })) f'
      room d

starts_empty :
    (env : Env) (tx : Transaction) (flow : Flow) (inputs : List TrackedOutput × Flow)
    → new_tx_flow env tx ≡ ok flow
    → process_inputs env flow ≡ ok inputs
    → length inputs.1.operations ≤ 2
unfolding new_tx_flow process_inputs
starts_empty env tx flow inputs h k = ground arith

-- A paymail transaction that is prepared for its broadcast has operations of at most two users.
pub paymail_of_two :
    (env : Env) (tx : Transaction) (sender receiver : String) (f : Flow)
    → prepare_paymail env tx sender receiver ≡ ok f
    → length f.operations ≤ 2
unfolding prepare_paymail
paymail_of_two env tx sender receiver f h =
    let (flow, h1, k1) = bind-ok (new_tx_flow env tx) _ f h in
    let (inputs, h2, k2) = bind-ok (process_inputs env flow) _ f k1 in
    let (spent, h3, k3) = bind-ok (spend_by_one receiver inputs.0 inputs.1) _ f k2 in
    let (outputs, h4, k4) =
      bind-ok (create_utxos_for_tracked_addresses env spent (all_p2pkh_addresses spent)) _ f k3 in
    let (received, h5, k5) = bind-ok (receive_by_one sender outputs spent) _ f k4 in
    let (u, h6, k6) = bind-ok (verify received) _ f k5 in
    let start = starts_empty env tx flow inputs h1 h2 in
    let after = spend_by_one-length receiver inputs.0 inputs.1 spent start h3 in
    let last = receive_by_one-length sender outputs spent received after h5 in of_ok k6 last
  where
    of_ok :
        {a b : Flow}
        → ◌≡◌ {A = Result RecordError Flow} (ok a) (ok b)
        → length a.operations ≤ 2
        → length b.operations ≤ 2
    of_ok {a} {b} e l = let same : a ≡ b = cc in rw (← same) l
