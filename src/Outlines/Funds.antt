-- ===== src/Outlines/Funds.antt =====
-- The inputs of an outline, and what they pay for.
use spv_wallet.Prelude.{
  ℕ, ◌+◌, ◌≤◌, ◌≡◌, ◌≢◌, refl, ap, ◌∙◌, sym, ◌⊎◌, inl, inr, String, some, List, [], ◌∷◌, ◌++◌, map,
  ltb, sum_by, In, Bool-cases, if◌then◌else◌, arith,
}
use spv_wallet.Prelude.Results.{Result, ok, err, or_fail, bind-ok, ok_injective}
use spv_wallet.Utxo.{
  Utxo, Composer, TransactionOutput, SelectError, FundingUtxo, to_funding, first_change, select,
  select_inputs_for_transaction, output_only_tx_size, fee_of, estimated_change_output_size, utxos,
}
use spv_wallet.Utxo.Order.{IsTotal, IsTransitive}
use spv_wallet.Utxo.Growth.{IsWorthSize}
use spv_wallet.Utxo.Join.{HasUniqueOutpoints}
use spv_wallet.Utxo.Funding.{rows_of, select_inputs-Pays}
use spv_wallet.Utxo.Touch.{select_inputs-Owned}
use spv_wallet.Outlines.Model.{
  OutlineError, bad_source_tx_id, add_change_failed, Env, AnnotatedOutput, AnnotatedOutputs,
  to_transaction_outputs, to_annotations, OutlineInput, AnnotatedInput, OutlineTransaction,
  Annotations,
}
use spv_wallet.Outlines.Evaluate.{
  Funds, to_inputs, inputs_of, evaluate_inputs, locking_script_for_change, add_change_output,
  assemble, fund_outputs,
}
use spv_wallet.Outlines.Sums.{total}

abbrev pub output_total : List TransactionOutput → ℕ
output_total outs = sum_by (λ (o : TransactionOutput). o.satoshis) outs

-- The composer that `Select` builds for the outputs.
abbrev pub composer_of : Funds → String → List TransactionOutput → Composer
composer_of f user outs = record {
  user_id = user;
  outputs_total_value = f.sdk.total_output_satoshis outs;
  tx_without_inputs_size = output_only_tx_size f.sdk.var_int_length outs;
  fee_unit = f.fee_unit;
}

-- The inputs spend the rows, one each and in order.
abbrev pub Spends : Env → List Utxo → List OutlineInput → Type 0
Spends env [] [] = Unit
Spends env (r ∷ rows) (i ∷ inputs) =
    ((env.hash_from_hex r.tx_id ≡ some i.source_tx_id) × (i.source_tx_out_index ≡ r.vout))
    × Spends env rows inputs
Spends env rows inputs = ⊥

select-ok :
    (f : Funds) (outs : List TransactionOutput) (user : String) (table : List Utxo)
    (p : List FundingUtxo × ℕ)
    → (select f.sdk f.text_leb f.fee_unit f.faults f.now outs user table).0 ≡ ok p
    → (rows : List (Utxo × ℕ)) × ((select_inputs_for_transaction f.text_leb
          (composer_of f user outs)
          f.faults
          f.now
          table).0
        ≡ ok rows)
      × (p ≡ (map to_funding rows, first_change rows))
unfolding select
select-ok f outs user table p h =
    of_result
      (select_inputs_for_transaction f.text_leb (composer_of f user outs) f.faults f.now table).0
      refl h
  where
    of_result :
        (r : Result SelectError (List (Utxo × ℕ)))
        → (select_inputs_for_transaction f.text_leb
            (composer_of f user outs)
            f.faults
            f.now
            table).0
          ≡ r
        → (let q : Result SelectError (List FundingUtxo × ℕ) × List Utxo = elim r [
          | ok rows ↦ (
            ok (map to_funding rows, first_change rows),
            (select_inputs_for_transaction f.text_leb
                (composer_of f user outs)
                f.faults
                f.now
                table).1,
          )
          | err e ↦ (
            err e,
            (select_inputs_for_transaction f.text_leb
                (composer_of f user outs)
                f.faults
                f.now
                table).1,
          )
        ] in
            q.0)
          ≡ ok p
        → (rows : List (Utxo × ℕ)) × ((select_inputs_for_transaction f.text_leb
              (composer_of f user outs)
              f.faults
              f.now
              table).0
            ≡ ok rows)
          × (p ≡ (map to_funding rows, first_change rows))
    of_result (ok rows) e k = (rows, e, sym (ok_injective k))
    of_result (err x) e k = cc

to_inputs-Spends :
    (env : Env) (rows : List (Utxo × ℕ)) (inputs : List AnnotatedInput)
    → to_inputs env (map to_funding rows) ≡ ok inputs
    → Spends env (rows_of rows) (map (λ (i : AnnotatedInput). i.input) inputs)
unfolding to_inputs
to_inputs-Spends env [] inputs h = rw (← ok_injective h) tt
to_inputs-Spends env ((r, m) ∷ rows) inputs h =
    let (id, a, b) = bind-ok (or_fail (env.hash_from_hex r.tx_id) bad_source_tx_id) _ inputs h in
    let (rest, c, d) = bind-ok (to_inputs env (map to_funding rows)) _ inputs b in
    let hash : env.hash_from_hex r.tx_id ≡ some id = ground arith in
    rw (← ok_injective d) ((hash, refl), to_inputs-Spends env rows rest c)

sum_append : (a b : List AnnotatedOutput) → total (a ++ b) ≡ total a + total b
sum_append [] b = omega arith
sum_append (o ∷ a) b = omega (arith, sum_append a b)

output_total-to_transaction_outputs :
    (outs : AnnotatedOutputs) → output_total (to_transaction_outputs outs) ≡ total outs
unfolding to_transaction_outputs
output_total-to_transaction_outputs [] = refl
output_total-to_transaction_outputs (o ∷ outs) =
    ap (λ n. o.output.satoshis + n) (output_total-to_transaction_outputs outs)

add_change_output-total :
    (env : Env) (user : String) (outs all : AnnotatedOutputs) (change : ℕ)
    → add_change_output env user outs change ≡ ok all
    → total all ≡ total outs + change
unfolding add_change_output
add_change_output-total env user outs all change h =
    let (key, a, b) = bind-ok (or_fail (env.pub_key user) add_change_failed) _ all h in
    let (locking, c, d) =
      bind-ok (or_fail (locking_script_for_change env key) add_change_failed) _ all b in
    rw (← ok_injective d) (omega (arith, sum_append outs (_ ∷ [])))

-- The change, when there is any, is an output.
with_change : Env → String → AnnotatedOutputs → ℕ → Result OutlineError AnnotatedOutputs
with_change env user outs change =
    if ltb 0 change then add_change_output env user outs change else ok outs

with_change-total :
    (env : Env) (user : String) (outs all : AnnotatedOutputs) (change : ℕ)
    → with_change env user outs change ≡ ok all
    → total all ≡ total outs + change
unfolding with_change
with_change-total env user outs all change h = elim (Bool-cases (ltb 0 change)) [
  | inl more ↦ add_change_output-total env user outs all change (rw more at h)
  | inr nothing ↦
      let same = ok_injective (rw nothing at h) in
      let zero_change : change ≡ 0 = ground arith in rw (← same) (omega arith)
]

assemble-lem :
    (env : Env) (user : String) (outs : AnnotatedOutputs) (inputs : List AnnotatedInput)
    (change : ℕ) (p : OutlineTransaction × Annotations)
    → assemble env user outs (inputs, change) ≡ ok p
    → (p.0.inputs ≡ map (λ (i : AnnotatedInput). i.input) inputs)
      × (output_total p.0.outputs ≡ total outs + change)
unfolding assemble with_change
assemble-lem env user outs inputs change p h =
    let (all, a, b) = bind-ok (with_change env user outs change) _ p h in
    let (annotations, c, d) = bind-ok (to_annotations all) _ p b in
    rw (← ok_injective d)
      (refl, output_total-to_transaction_outputs all ∙ with_change-total env user outs all change a)

-- The change that is an output is no longer beside the outputs.
settle :
    (m change outputs spec counted fee fee_with_change value : ℕ)
    → ((m ≡ 0) × (value ≡ counted + fee)) ⊎ (value ≡ counted + fee_with_change + m)
    → outputs ≡ spec + change
    → change ≡ m
    → counted ≡ spec
    → (value ≡ outputs + fee) ⊎ (value ≡ outputs + fee_with_change)
settle m change outputs spec counted fee fee_with_change value x y z w = ground arith

inputs_of-ok :
    (env : Env) (r : Result SelectError (List FundingUtxo × ℕ)) (p : List AnnotatedInput × ℕ)
    → inputs_of env r ≡ ok p
    → (utxos : List FundingUtxo) × (r ≡ ok (utxos, p.1))
      × (to_inputs env utxos ≡ ok p.0)
      × (utxos ≢ [])
unfolding inputs_of
inputs_of-ok env (err e) p h = cc
inputs_of-ok env (ok ([], change)) p h = cc
inputs_of-ok env (ok (u ∷ utxos, change)) p h =
    let (inputs, a, b) = bind-ok (to_inputs env (u ∷ utxos)) _ p h in
    rw (← ok_injective b) (u ∷ utxos, refl, a, λ e. cc)

map_nil : (rows : List (Utxo × ℕ)) → rows ≡ [] → map to_funding rows ≡ []
map_nil rows e = ap (map to_funding) e

-- With a fee unit of at most one satoshi that covers a change output, a total and transitive
-- collation, outpoints that are unique in the table, a user's rows each worth the fee for its own
-- size, and a library that adds up the outputs, an outline that is funded spends rows of the table
-- that belong to the user, one input for each, and these are worth the outputs of the outline, its
-- change included, and the fee for the size of the transaction, with or without a change output.
pub fund_outputs-Pays :
    (env : Env) (f : Funds) (user : String) (outs : AnnotatedOutputs) (table : List Utxo)
    (tx : OutlineTransaction) (annotations : Annotations)
    → IsTotal f.text_leb
    → IsTransitive f.text_leb
    → HasUniqueOutpoints table
    → f.fee_unit.satoshis ≤ 1
    → estimated_change_output_size ≤ f.fee_unit.bytes
    → IsWorthSize f.fee_unit.bytes
        (utxos f.text_leb (composer_of f user (to_transaction_outputs outs)) table)
    → f.sdk.total_output_satoshis (to_transaction_outputs outs)
      ≡ output_total (to_transaction_outputs outs)
    → (fund_outputs env f user outs table).0 ≡ ok (tx, annotations)
    → (rows : List Utxo) × Spends env rows tx.inputs
      × ((r : Utxo) → In r rows → In r table × (r.user_id ≡ user))
      × (let size =
            sum_by (λ (r : Utxo). r.estimated_input_size) rows
            + output_only_tx_size f.sdk.var_int_length (to_transaction_outputs outs) in
          let value = sum_by (λ (r : Utxo). r.satoshis) rows in
          (value ≡ output_total tx.outputs + fee_of f.fee_unit size)
          ⊎ (value
              ≡ output_total tx.outputs + fee_of f.fee_unit (size + estimated_change_output_size)))
unfolding fund_outputs evaluate_inputs
fund_outputs-Pays env f user outs table tx annotations total_leb trans unique one room worth adds
      h =
    let c = composer_of f user (to_transaction_outputs outs) in
    let (p, a, b) =
      bind-ok
        (inputs_of env
          (select f.sdk f.text_leb f.fee_unit f.faults f.now (to_transaction_outputs outs) user
            table).0)
        _ (tx, annotations) h in
    let (utxos, q, i, some_utxos) = inputs_of-ok env _ p a in
    let (rows, k, e) = select-ok f (to_transaction_outputs outs) user table (utxos, p.1) q in
    let chosen : utxos ≡ map to_funding rows = ap (λ (x : List FundingUtxo × ℕ). x.0) e in
    let left : p.1 ≡ first_change rows = ap (λ (x : List FundingUtxo × ℕ). x.1) e in
    let (ins, worth_of) = assemble-lem env user outs p.0 p.1 (tx, annotations) b in
    let pays =
      select_inputs-Pays f.text_leb c table total_leb trans unique one room worth f.faults f.now
        rows k (λ z. some_utxos (chosen ∙ map_nil rows z)) in
    let value : output_total tx.outputs ≡ output_total (to_transaction_outputs outs) + p.1 =
      worth_of ∙ ap (λ n. n + p.1) (sym (output_total-to_transaction_outputs outs)) in
    (
      rows_of rows,
      rw (← ins) at (to_inputs-Spends env rows p.0 (rw chosen at i)),
      λ r j. select_inputs-Owned f.text_leb c f.faults f.now table unique rows k r j,
      settle (first_change rows) p.1 (output_total tx.outputs)
          (output_total (to_transaction_outputs outs)) c.outputs_total_value _ _ _ pays value left
          adds,
    )
