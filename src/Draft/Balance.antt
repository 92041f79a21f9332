-- ===== src/Draft/Balance.antt =====
-- The balance of a draft: its inputs, its outputs and its fee.
use mathlib.Core.Path.{subst}
use spv_wallet.Prelude.{
  ℕ, ◌+◌, ◌*◌, ◌%◌, ◌<◌, ◌≡◌, ◌≢◌, ap, ◌∙◌, true, String, Option, none, some, List, [], map,
  Bool-cases, Option-cases, inl, inr, arith, ◌==◌, ltb,
}
use spv_wallet.Prelude.Results.{Result, ok, or_fail, bind-ok, ok_injective}
use spv_wallet.Bsv.{FeeUnit}
use spv_wallet.Draft.Change.{
  AreDistinct, total_from_lem, share_out_lem, get_change_satoshis_lem, total_from-append,
  sum_of-change_output,
}
use spv_wallet.Draft.Model.{
  DraftError, add64, sub64, Numbers, Config, total_from, share_out, count_for_change,
  get_change_satoshis, change_output, add_change_outputs, put_change_outputs,
  set_change_destination, calculate_and_set_fee, estimate_fee, estimate_size, destinations_failed,
}

-- The destinations that the draft has or gets are different, and there is one.
abbrev pub AreUsable : Config → (ℕ → Option (List String)) → Type 0
AreUsable c make =
    ((ds : List String) → c.change_destinations ≡ some ds → AreDistinct ds × (ds ≢ []))
    × ((n : ℕ) (ds : List String) → make n ≡ some ds → AreDistinct ds × (ds ≢ []))

module _ (numbers : Numbers) (make : ℕ → Option (List String))
    (small_fee : (unit : FeeUnit) (n : ℕ) → numbers.ceil_fee unit n < 18446744073709551616) where
  destinations_usable :
      (c : Config) (n : ℕ) (ds : List String)
      → AreUsable c make
      → (let r : Result DraftError (List String) = elim c.change_destinations [
        | some l ↦ ok l
        | none ↦ or_fail (make n) destinations_failed
      ] in
          r ≡ ok ds)
      → AreDistinct ds × (ds ≢ [])
  destinations_usable c n ds usable h = elim (Option-cases c.change_destinations) [
    | inr (l, e) ↦ let k = ok_injective (rw e at h) in usable.0 ds (e ∙ ap some k)
    | inl e ↦ elim (Option-cases (make n)) [
      | inr (l, f) ↦ let k = ok_injective (rw (e, f) at h) in usable.1 n ds (f ∙ ap some k)
      | inl f ↦ let k = rw (e, f) at h in cc
    ]
  ]

  put_change_outputs_lem :
      (c : Config) (new_fee rest : ℕ) (ds : List String) (p : ℕ × Config)
      → AreDistinct ds
      → ds ≢ []
      → put_change_outputs numbers c new_fee rest ds ≡ ok p
      → add64 (total_from 0 p.1.outputs) p.0
        ≡ (total_from 0 c.outputs + rest + new_fee) % 18446744073709551616
  unfolding put_change_outputs
  put_change_outputs_lem c new_fee rest ds p distinct some_ds h =
      let (amounts, split, e) =
        bind-ok (get_change_satoshis numbers c.change_strategy ds rest) _ p h in
      let sum =
        get_change_satoshis_lem numbers c.change_strategy ds rest amounts distinct some_ds split in
      let outs = total_from-append c.outputs (map (change_output amounts) ds) in
      let new = sum_of-change_output amounts ds in
      subst
        (λ (q : ℕ × Config).
          add64 (total_from 0 q.1.outputs) q.0
          ≡ (total_from 0 c.outputs + rest + new_fee) % 18446744073709551616)
        (ok_injective e) (omega arith)

  add_change_outputs_lem :
      (c : Config) (change fee : ℕ) (p : ℕ × Config)
      → AreUsable c make
      → fee < 18446744073709551616
      → add_change_outputs numbers make c change fee ≡ ok p
      → add64 (total_from 0 p.1.outputs) p.0
        ≡ (total_from 0 c.outputs + change + fee) % 18446744073709551616
  unfolding add_change_outputs estimate_fee
  add_change_outputs_lem c change fee p usable small h =
      let (ds, got, k) =
        bind-ok
          (elim c.change_destinations [
            | some l ↦ ok l
            | none ↦ or_fail (make _) destinations_failed
          ])
          _ p h in
      let (distinct, some_ds) = destinations_usable c _ ds usable got in
      let put = put_change_outputs_lem c _ _ ds p distinct some_ds k in
      let below = small_fee c.fee_unit _ in
      put ∙ telescopes (total_from 0 c.outputs) change fee _ small below
    where
      telescopes :
          (total change fee new_fee : ℕ)
          → fee < 18446744073709551616
          → new_fee < 18446744073709551616
          → (total + sub64 change (sub64 new_fee fee) + new_fee) % 18446744073709551616
            ≡ (total + change + fee) % 18446744073709551616
      telescopes total change fee new_fee small below = omega arith

  set_change_destination_lem :
      (c : Config) (change fee : ℕ) (p : ℕ × Config)
      → AreUsable c make
      → fee < 18446744073709551616
      → set_change_destination numbers make c change fee ≡ ok p
      → add64 (total_from 0 p.1.outputs) p.0
        ≡ (total_from 0 c.outputs + change + fee) % 18446744073709551616
  unfolding set_change_destination
  set_change_destination_lem c change fee p usable small h =
      elim (Bool-cases (count_for_change c.outputs == 0)) [
        | inl nobody ↦
            add_change_outputs_lem c change fee p usable small
              (rw (nobody, set_change_destination) at h)
        | inr takers ↦
            let some_takers : count_for_change c.outputs ≢ 0 = λ e. ground arith in
            let each = numbers.quotient change (count_for_change c.outputs) in
            let e = ok_injective (rw (takers, set_change_destination) at h) in
            let shared =
              share_out_lem each
                (sub64 change ((each * count_for_change c.outputs) % 18446744073709551616))
                c.outputs some_takers in
            let before = total_from_lem 0 c.outputs (omega arith) in
            let after =
              total_from_lem 0
                (share_out each
                  (sub64 change ((each * count_for_change c.outputs) % 18446744073709551616))
                  c.outputs)
                (omega arith) in
            subst
              (λ (q : ℕ × Config).
                add64 (total_from 0 q.1.outputs) q.0
                ≡ (total_from 0 c.outputs + change + fee) % 18446744073709551616)
              e (omega arith)
      ]

-- Where the inputs hold a value below 2 ^ 64, the outputs of the configuration sum up to the satoshis that are
-- needed, fees are below 2 ^ 64, the destinations for change are different and there is one, and the
-- fee is calculated: the sum of the outputs and the fee, as a number of 64 bits, is the value of the
-- inputs.
pub calculate_and_set_fee_lem :
    (numbers : Numbers) (make : ℕ → Option (List String)) (c c' : Config) (reserved : ℕ)
    → ((unit : FeeUnit) (n : ℕ) → numbers.ceil_fee unit n < 18446744073709551616)
    → AreUsable c make
    → reserved < 18446744073709551616
    → calculate_and_set_fee numbers make c reserved (total_from 0 c.outputs) ≡ ok c'
    → add64 (total_from 0 c'.outputs) c'.fee ≡ reserved
unfolding calculate_and_set_fee estimate_fee
calculate_and_set_fee_lem numbers make c c' reserved small_fee usable small h =
    let fee = estimate_fee numbers c 0 in
    let below = small_fee c.fee_unit (estimate_size numbers c + 0) in
    let total = total_from_lem 0 c.outputs (omega arith) in
    let change = sub64 (sub64 reserved (total_from 0 c.outputs)) fee in
    elim (Bool-cases (ltb reserved (add64 (total_from 0 c.outputs) fee))) [
      | inl poor ↦ let k = rw (poor, calculate_and_set_fee) at h in cc
      | inr rich ↦ elim (Bool-cases (change == 0)) [
        | inl exact ↦
            let e = ok_injective (rw (rich, exact, calculate_and_set_fee) at h) in
            subst (λ (q : Config). add64 (total_from 0 q.outputs) q.fee ≡ reserved) e
              (balanced (total_from 0 c.outputs) fee small below (omega arith) exact)
        | inr more ↦
            let (p, set, e) =
              bind-ok (set_change_destination numbers make (record c { fee = fee }) change fee) _ c'
                (rw (rich, more, calculate_and_set_fee) at h) in
            let sum =
              set_change_destination_lem numbers make small_fee (record c { fee = fee }) change fee
                p usable below set in
            subst (λ (q : Config). add64 (total_from 0 q.outputs) q.fee ≡ reserved) (ok_injective e)
              (sum ∙ remains (total_from 0 c.outputs) fee small below (omega arith))
      ]
    ]
  where
    balanced :
        (total fee : ℕ)
        → reserved < 18446744073709551616
        → fee < 18446744073709551616
        → total < 18446744073709551616
        → (sub64 (sub64 reserved total) fee == 0) ≡ true
        → add64 total fee ≡ reserved
    balanced total fee small below in_range exact = ground arith

    remains :
        (total fee : ℕ)
        → reserved < 18446744073709551616
        → fee < 18446744073709551616
        → total < 18446744073709551616
        → (total + sub64 (sub64 reserved total) fee + fee) % 18446744073709551616 ≡ reserved
    remains total fee small below in_range = omega arith

-- Where fees are below 2 ^ 64, the change gets new outputs and the fee with them is more than the change and the
-- fee without them: the change of the draft is 2 ^ 64 less the part of the fee that it lacks.
pub change_wraps :
    (numbers : Numbers) (make : ℕ → Option (List String)) (c : Config) (change fee : ℕ)
    (p : ℕ × Config)
    → ((unit : FeeUnit) (n : ℕ) → numbers.ceil_fee unit n < 18446744073709551616)
    → add_change_outputs numbers make c change fee ≡ ok p
    → change + fee < p.0
    → p.1.change_satoshis + p.0 ≡ 18446744073709551616 + change + fee
unfolding add_change_outputs estimate_fee put_change_outputs
change_wraps numbers make c change fee p small_fee h less =
    let (ds, got, k) =
      bind-ok
        (elim c.change_destinations [ some l ↦ ok l | none ↦ or_fail (make _) destinations_failed ])
        _ p h in
    let (amounts, split, e) = bind-ok (get_change_satoshis numbers c.change_strategy ds _) _ p k in
    let same = ok_injective e in
    wraps _ (ap (λ (q : ℕ × Config). q.0) same) (small_fee c.fee_unit _)
      (ap (λ (q : ℕ × Config). q.1.change_satoshis) same)
  where
    wraps :
        (new_fee : ℕ)
        → new_fee ≡ p.0
        → new_fee < 18446744073709551616
        → sub64 change (sub64 new_fee fee) ≡ p.1.change_satoshis
        → p.1.change_satoshis + p.0 ≡ 18446744073709551616 + change + fee
    wraps new_fee same small rest = omega arith
