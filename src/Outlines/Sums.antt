-- ===== src/Outlines/Sums.antt =====
-- What the outputs of a paymail specification are worth.
use spv_wallet.Prelude.{
  ℕ, zero, suc, ◌+◌, ◌*◌, ◌/◌, ◌%◌, ◌<◌, ◌≡◌, ◌≢◌, refl, ap, ◌∙◌, sym, ◌⊎◌, inl, inr, true, false,
  not, String, some, List, [], ◌∷◌, ◌==◌, ◌=?◌, ltb, length, sum_by, All, Bool-cases, arith,
}
use spv_wallet.Prelude.Results.{ok, or_fail, fail_if, bind-ok, ok_injective}
use spv_wallet.Record.Outputs.{bsv_bucket, PaymailAnnotation}
use spv_wallet.Outlines.Model.{
  host_invalid_response, host_response_error, host_not_supporting_p2p, receiver_paymail_invalid,
  PaymentOutput, Destinations, Env, Paymail, AnnotatedOutput, AnnotatedOutputs,
}
use spv_wallet.Outlines.Paymail.{
  sum_satoshis, validate_destinations, ensure_defaults, validate_paymail, get_p2p_destinations,
  sender_of_paymail, create_bsv_paymail_output, map_outputs, map_destinations, split_single,
  split_output, map_to_split_outputs, evaluate_defaulted, evaluate_paymail,
}

-- What the outputs are worth together.
abbrev pub total : AnnotatedOutputs → ℕ
total outs = sum_by (λ (o : AnnotatedOutput). o.output.satoshis) outs

abbrev pub payment_total : List PaymentOutput → ℕ
payment_total outs = sum_by (λ (o : PaymentOutput). o.satoshis) outs

-- The output goes to the paymail, in the bucket for satoshis.
abbrev pub IsPaidTo : Paymail → AnnotatedOutput → Type 0
IsPaidTo p o =
    (o.annotation.bucket ≡ bsv_bucket)
    × ((a : PaymailAnnotation) × (o.annotation.paymail ≡ some a) × (a.receiver ≡ p.to))

sum_satoshis-total :
    (s : ℕ) (outs : List PaymentOutput)
    → s < 18446744073709551616
    → sum_satoshis s outs ≡ (s + payment_total outs) % 18446744073709551616
unfolding sum_satoshis
sum_satoshis-total s [] h = omega arith
sum_satoshis-total s (o ∷ outs) h =
    let ih = sum_satoshis-total ((s + o.satoshis) % 18446744073709551616) outs (omega arith) in
    omega (arith, ih)

module _ (env : Env) (p : Paymail) where
  create_lem :
      (output : PaymentOutput) (reference from : String) (o : AnnotatedOutput)
      → create_bsv_paymail_output env p output reference from ≡ ok o
      → (o.output.satoshis ≡ output.satoshis) × IsPaidTo p o
  unfolding create_bsv_paymail_output
  create_lem output reference from o h =
      let (script, a, b) =
        bind-ok (or_fail (env.script_from_hex output.script) host_invalid_response) _ o h in
      let e = ok_injective b in
      (sym (ap (λ (x : AnnotatedOutput). x.output.satoshis) e), rw (← e) (refl, (_, refl, refl)))

  map_outputs-total :
      (outputs : List PaymentOutput) (reference sender : String) (outs : AnnotatedOutputs)
      → map_outputs env p outputs reference sender ≡ ok outs
      → (total outs ≡ payment_total outputs) × All (IsPaidTo p) outs
  unfolding map_outputs
  map_outputs-total [] reference sender outs h = rw (← ok_injective h) (refl, tt)
  map_outputs-total (o ∷ outputs) reference sender outs h =
      let (out, a, b) = bind-ok (create_bsv_paymail_output env p o reference sender) _ outs h in
      let (rest, c, d) = bind-ok (map_outputs env p outputs reference sender) _ outs b in
      let (value, paid) = create_lem o reference sender out a in
      let (sum, all) = map_outputs-total outputs reference sender rest c in
      rw (← ok_injective d) (omega (arith, value, sum), (paid, all))

  -- The outputs of a split are alike.
  split_output-lem :
      (n : ℕ) (output : PaymentOutput) (reference sender : String) (outs : AnnotatedOutputs)
      → split_output env p n output reference sender ≡ ok outs
      → (length outs ≡ n)
        × (total outs ≡ n * output.satoshis)
        × All (λ (o : AnnotatedOutput). o.output.satoshis ≡ output.satoshis) outs
        × All (IsPaidTo p) outs
  unfolding split_output
  split_output-lem zero output reference sender outs h =
      rw (← ok_injective h) (refl, omega arith, tt, tt)
  split_output-lem (suc n) output reference sender outs h =
      let (out, a, b) =
        bind-ok (create_bsv_paymail_output env p output reference sender) _ outs h in
      let (rest, c, d) = bind-ok (split_output env p n output reference sender) _ outs b in
      let (value, paid) = create_lem output reference sender out a in
      let (size, sum, same, all) = split_output-lem n output reference sender rest c in
      rw (← ok_injective d)
        (omega (arith, size), grind (arith, value, sum), (value, same), (paid, all))

  split_single-lem :
      (outputs : List PaymentOutput) (reference sender : String) (outs : AnnotatedOutputs)
      → split_single env p outputs reference sender ≡ ok outs
      → (length outs ≡ p.splits)
        × (total outs ≡ p.splits * (p.satoshis / p.splits))
        × All (λ (o : AnnotatedOutput). o.output.satoshis ≡ p.satoshis / p.splits) outs
        × All (IsPaidTo p) outs
  unfolding split_single
  split_single-lem [] reference sender outs h = cc
  split_single-lem (output ∷ []) reference sender outs h =
      split_output-lem p.splits (record output { satoshis = p.satoshis / p.splits }) reference
        sender outs h
  split_single-lem (output ∷ other ∷ rest) reference sender outs h = cc

  -- What the steps before the outputs have checked.
  Checked : Destinations → Type 0
  Checked d =
      (p.satoshis ≢ 0)
      × (1 < p.splits → p.satoshis % p.splits ≡ 0)
      × (sum_satoshis 0 d.outputs ≡ p.satoshis)

  get_p2p_destinations-sum :
      (address : String) (satoshis : ℕ) (d : Destinations)
      → get_p2p_destinations env address satoshis ≡ ok d
      → sum_satoshis 0 d.outputs ≡ satoshis
  unfolding get_p2p_destinations validate_destinations
  get_p2p_destinations-sum address satoshis d h =
      let (url, _, j) =
        bind-ok (or_fail (env.p2p_destination_url address) host_response_error) _ d h in
      let (_, _, k) = bind-ok (fail_if (url =? "") host_not_supporting_p2p) _ d j in
      let (r, a, b) =
        bind-ok (or_fail (env.host_destinations url address satoshis) host_response_error) _ d k in
      let (u, c, e) =
        bind-ok (fail_if (not (sum_satoshis 0 r.outputs == satoshis)) host_invalid_response) _ d
          b in
      let same = ok_injective e in ground arith

  validate_paymail-lem :
      (u : Unit {0})
      → validate_paymail p ≡ ok u
      → (p.satoshis ≢ 0) × (1 < p.splits → p.satoshis % p.splits ≡ 0)
  unfolding validate_paymail
  validate_paymail-lem u h = (λ z. ground arith, λ l. ground arith)

  -- The outputs are worth what the host's are, or are those of a split.
  map_destinations-lem :
      (d : Destinations) (sender : String) (outs : AnnotatedOutputs)
      → map_destinations env p d sender ≡ ok outs
      → All (IsPaidTo p) outs
        × (((ltb 1 p.splits ≡ false) × (total outs ≡ payment_total d.outputs))
            ⊎ ((ltb 1 p.splits ≡ true)
                × (length outs ≡ p.splits)
                × (total outs ≡ p.splits * (p.satoshis / p.splits))
                × All (λ (o : AnnotatedOutput). o.output.satoshis ≡ p.satoshis / p.splits) outs))
  unfolding map_destinations map_to_split_outputs
  map_destinations-lem d sender outs h = elim (Bool-cases (ltb 1 p.splits)) [
    | inl more ↦
        let (size, value, parts, paid) =
          split_single-lem d.outputs d.reference sender outs (rw more at h) in
        (paid, inr (more, size, value, parts))
    | inr one ↦
        let (value, paid) = map_outputs-total d.outputs d.reference sender outs (rw one at h) in
        (paid, inl (one, value))
  ]

  whole_splits : (s n : ℕ) → s % n ≡ 0 → n * (s / n) ≡ s
  whole_splits s n h = grind arith

  evaluate_defaulted-lem :
      (user : String) (outs : AnnotatedOutputs)
      → evaluate_defaulted env user p ≡ ok outs
      → (p.satoshis ≢ 0)
        × (total outs % 18446744073709551616 ≡ p.satoshis)
        × All (IsPaidTo p) outs
        × (1 < p.splits
            → (length outs ≡ p.splits)
              × (total outs ≡ p.satoshis)
              × All (λ (o : AnnotatedOutput). o.output.satoshis ≡ p.satoshis / p.splits) outs)
  unfolding evaluate_defaulted
  evaluate_defaulted-lem user outs h =
      let (receiver, h1, k1) =
        bind-ok (or_fail (env.sanitize p.to) receiver_paymail_invalid) _ outs h in
      let (u, h2, k2) = bind-ok (validate_paymail p) _ outs k1 in
      let (sender, h3, k3) = bind-ok (sender_of_paymail env user p.from) _ outs k2 in
      let (d, h4, k4) = bind-ok (get_p2p_destinations env receiver p.satoshis) _ outs k3 in
      let (some_value, divides) = validate_paymail-lem u h2 in
      let host = get_p2p_destinations-sum receiver p.satoshis d h4 in
      let sum = sum_satoshis-total 0 d.outputs (omega arith) in
      let below : p.satoshis < 18446744073709551616 = omega (arith, host, sum) in
      let (paid, choice) = map_destinations-lem d sender outs k4 in
      elim choice [
        | inl (one, value) ↦
            (some_value, omega (arith, value, host, sum), paid, λ l. absurd (ground arith))
        | inr (more, size, value, parts) ↦
            let whole = value ∙ whole_splits p.satoshis p.splits (divides (ground arith)) in
            (some_value, omega (arith, whole, below), paid, λ l. (size, whole, parts))
      ]

ensure_defaults-lem :
    (p : Paymail)
    → ((ensure_defaults p).satoshis ≡ p.satoshis)
      × ((ensure_defaults p).to ≡ p.to)
      × (1 < p.splits → ensure_defaults p ≡ p)
unfolding ensure_defaults
ensure_defaults-lem p = elim (Bool-cases (p.splits == 0)) [
  | inl z ↦ rw z (refl, refl, λ l. absurd (ground arith))
  | inr z ↦ rw z (refl, refl, λ l. refl)
]

-- The outputs that a paymail specification evaluates to are worth the requested satoshis, in the 64
-- bits in which Go adds them up, and all go to the paymail; when more than one split is requested
-- there are as many outputs as splits, equal in value, and worth the requested satoshis exactly.
pub evaluate_paymail-Pays :
    (env : Env) (user : String) (p : Paymail) (outs : AnnotatedOutputs)
    → evaluate_paymail env user p ≡ ok outs
    → (p.satoshis ≢ 0)
      × (total outs % 18446744073709551616 ≡ p.satoshis)
      × All (IsPaidTo p) outs
      × (1 < p.splits
          → (length outs ≡ p.splits)
            × (total outs ≡ p.satoshis)
            × All (λ (o : AnnotatedOutput). o.output.satoshis ≡ p.satoshis / p.splits) outs)
unfolding evaluate_paymail
evaluate_paymail-Pays env user p outs h =
    let (value, to, same) = ensure_defaults-lem p in
    let (some_value, sum, paid, split) =
      evaluate_defaulted-lem env (ensure_defaults p) user outs h in
    (
      λ z. some_value (value ∙ z),
      sum ∙ value,
      paid_to (ensure_defaults p) p to outs paid,
      λ l. let e = same l in rw e at (split (rw e l)),
    )
  where
    paid_to :
        (q p : Paymail)
        → q.to ≡ p.to
        → (l : AnnotatedOutputs) → All (IsPaidTo q) l
        → All (IsPaidTo p) l
    paid_to q p e [] h = tt
    paid_to q p e (o ∷ l) h =
        let (b, k) = h.0 in let (a, s, r) = k in ((b, (a, s, r ∙ e)), paid_to q p e l h.1)
