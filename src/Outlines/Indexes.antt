-- ===== src/Outlines/Indexes.antt =====
-- The outputs of an outline and their annotations, which `splitIntoTransactionOutputsAndAnnotations` of
-- engine/v2/transaction/outlines/output_specifications.go makes.
use spv_wallet.Prelude.{
  ℕ, zero, suc, ◌+◌, ◌≡◌, refl, ap, ◌∙◌, sym, inl, inr, String, Option, some, List, [], ◌∷◌, ltb,
  get_elem?, length, arith, if◌then◌else◌,
}
use spv_wallet.Prelude.Int.{pos}
use spv_wallet.Prelude.Results.{Result, ok, err, wrap, bind-ok, ok_injective, Result-cases}
use spv_wallet.Conv.{ConvError, int_to_uint32, int_to_uint32_iff}
use spv_wallet.Record.Outputs.{OutputAnnotation, OutputsAnnotations}
use spv_wallet.Utxo.{Utxo, TransactionOutput}
use spv_wallet.Outlines.Model.{
  panicked, Env, TransactionSpec, AnnotatedOutput, AnnotatedOutputs, to_transaction_outputs,
  annotations_from, to_annotations, AnnotatedInput, OutlineTransaction, Annotations,
}
use spv_wallet.Outlines.Evaluate.{
  Funds, evaluate_outputs, evaluate_inputs, add_change_output, assemble, fund_outputs,
  evaluate_spec,
}

wrapped_index :
    (index v : ℕ)
    → wrap (λ (e : ConvError). panicked) (int_to_uint32 (pos index)) ≡ ok v
    → v ≡ index
wrapped_index index v h = of_result (int_to_uint32 (pos index)) refl h
  where
    same : (w : ℕ) → int_to_uint32 (pos index) ≡ ok w → w ≡ index
    same w e = let k = ((int_to_uint32_iff (pos index) w).0 e).0 in ground arith

    of_result :
        (r : Result ConvError ℕ)
        → int_to_uint32 (pos index) ≡ r
        → wrap (λ (e : ConvError). panicked) r ≡ ok v
        → v ≡ index
    of_result (ok w) e k = sym (ok_injective k) ∙ same w e
    of_result (err x) e k = cc

-- The annotations are numbered from the index on, each the annotation of the output in its place.
abbrev IsNumbered : ℕ → AnnotatedOutputs → OutputsAnnotations → Type 0
IsNumbered index outs l =
    (k v : ℕ) (a : OutputAnnotation)
    → get_elem? l k ≡ some (v, a)
    → (v ≡ index + k) × ((o : AnnotatedOutput) × (get_elem? outs k ≡ some o) × (o.annotation ≡ a))

head_of :
    {p q : ℕ × OutputAnnotation} → ◌≡◌ {A = Option (ℕ × OutputAnnotation)} (some p) (some q) → p ≡ q
head_of h = cc

annotations_from-IsNumbered :
    (index : ℕ) (outs : AnnotatedOutputs) (l : OutputsAnnotations)
    → annotations_from index outs ≡ ok l
    → (length l ≡ length outs) × IsNumbered index outs l
unfolding annotations_from
annotations_from-IsNumbered index [] l h = rw (← ok_injective h) (refl, λ k v a i. cc)
annotations_from-IsNumbered index (o ∷ outs) l h =
    let (v, a, b) =
      bind-ok (wrap (λ (e : ConvError). panicked) (int_to_uint32 (pos index))) _ l h in
    let (rest, c, d) = bind-ok (annotations_from (suc index) outs) _ l b in
    let (size, numbered) = annotations_from-IsNumbered (suc index) outs rest c in
    let here = wrapped_index index v a in
    rw (← ok_injective d) (ap suc size, at v here rest numbered)
  where
    at :
        (v : ℕ)
        → v ≡ index
        → (rest : OutputsAnnotations) → IsNumbered (suc index) outs rest
        → IsNumbered index (o ∷ outs) ((v, o.annotation) ∷ rest)
    at v here rest numbered zero w a i =
        let e = head_of i in
        let first : v ≡ w = ap (λ (q : ℕ × OutputAnnotation). q.0) e in
        (sym first ∙ here ∙ omega arith, (o, refl, ap (λ (q : ℕ × OutputAnnotation). q.1) e))
    at v here rest numbered (suc k) w a i =
        let (e, found) = numbered k w a i in (e ∙ omega arith, found)

get_elem?-to_transaction_outputs :
    (outs : AnnotatedOutputs) (k : ℕ) (o : AnnotatedOutput)
    → get_elem? outs k ≡ some o
    → get_elem? (to_transaction_outputs outs) k ≡ some o.output
unfolding to_transaction_outputs
get_elem?-to_transaction_outputs [] k o h = cc
get_elem?-to_transaction_outputs (x ∷ outs) zero o h = ground arith
get_elem?-to_transaction_outputs (x ∷ outs) (suc k) o h =
    get_elem?-to_transaction_outputs outs k o h

length-to_transaction_outputs :
    (outs : AnnotatedOutputs) → length (to_transaction_outputs outs) ≡ length outs
unfolding to_transaction_outputs
length-to_transaction_outputs [] = refl
length-to_transaction_outputs (x ∷ outs) = ap suc (length-to_transaction_outputs outs)

-- Each output of the transaction has one annotation, and the annotation in a place has the number of that
-- place and is about the output there.
abbrev pub AnnotatesOutputs : OutlineTransaction × Annotations → Type 0
AnnotatesOutputs p =
    (length p.1.outputs ≡ length p.0.outputs)
    × ((k v : ℕ) (a : OutputAnnotation)
        → get_elem? p.1.outputs k ≡ some (v, a)
        → (v ≡ k) × ((o : TransactionOutput) × (get_elem? p.0.outputs v ≡ some o)))

assemble-AnnotatesOutputs :
    (env : Env) (user : String) (outs : AnnotatedOutputs) (q : List AnnotatedInput × ℕ)
    (p : OutlineTransaction × Annotations)
    → assemble env user outs q ≡ ok p
    → AnnotatesOutputs p
unfolding assemble to_annotations
assemble-AnnotatesOutputs env user outs (inputs, change) p h =
    let (all, a, b) =
      bind-ok (if ltb 0 change then add_change_output env user outs change else ok outs) _ p h in
    let (annotations, c, d) = bind-ok (to_annotations all) _ p b in
    let (size, numbered) = annotations_from-IsNumbered 0 all annotations c in
    rw (← ok_injective d) (
      size ∙ sym (length-to_transaction_outputs all),
      λ k v x i.
          let (e, found) = numbered k v x i in
          let (o, at_k, same) = found in
          let at_v : v ≡ k = omega (arith, e) in
          (at_v, (o.output, rw at_v (get_elem?-to_transaction_outputs all k o at_k))),
    )

-- In an outline that is created, there are as many annotations of outputs as outputs; the annotation at
-- place k has index k, and there is an output at that index.
pub evaluate_spec-AnnotatesOutputs :
    (env : Env) (f : Funds) (spec : TransactionSpec) (table : List Utxo)
    (p : OutlineTransaction × Annotations)
    → (evaluate_spec env f spec table).0 ≡ ok p
    → AnnotatesOutputs p
unfolding evaluate_spec fund_outputs
evaluate_spec-AnnotatesOutputs env f spec table p h =
    elim (Result-cases (evaluate_outputs env spec.user_id spec.outputs)) [
      | inr (e, r) ↦ let clash : err e ≡ ok p = rw (r, evaluate_spec) at h in cc
      | inl (outs, r) ↦
          let (q, a, b) =
            bind-ok (evaluate_inputs env f spec.user_id outs table).0 _ p
              (rw (r, evaluate_spec) at h) in
          assemble-AnnotatesOutputs env spec.user_id outs q p b
    ]
