-- ===== src/Draft/Change.antt =====
-- The amounts of the change, over its outputs or destinations.
use mathlib.Core.Path.{subst}
use spv_wallet.Prelude.{
  ℕ, ◌+◌, ◌*◌, ◌%◌, ◌<◌, ◌≡◌, ◌≢◌, refl, sym, ap, ◌∙◌, ◌⊎◌, false, String, Option, List, [], ◌∷◌,
  ◌++◌, map, ◌=?◌, =?_iff, =?_refl, length, sum_by, In, Bool-cases, inl, inr, arith,
}
use spv_wallet.Prelude.Results.{ok, or_fail, fail_if, bind-ok, ok_injective}
use spv_wallet.Draft.Model.{
  ChangeStrategy, is_nominations, share_of, change_strategy_not_implemented, random_failed, add64,
  sub64, Numbers, Output, total_from, share_out, count_for_change, amount_of, Split, split_change,
  get_change_satoshis, change_output,
}

-- The sum without a bound.
abbrev pub sum_of : List Output → ℕ
sum_of outputs = sum_by (λ (o : Output). o.satoshis) outputs

pub total_from_lem :
    (acc : ℕ) (outputs : List Output)
    → acc < 18446744073709551616
    → total_from acc outputs ≡ (acc + sum_of outputs) % 18446744073709551616
unfolding total_from
total_from_lem acc [] h = omega arith
total_from_lem acc (o ∷ outputs) h =
    let ih = total_from_lem (add64 acc o.satoshis) outputs (omega arith) in omega arith

share_out_one :
    (each : ℕ) (outputs : List Output)
    → sum_of (share_out each 0 outputs) % 18446744073709551616
      ≡ (sum_of outputs + each * count_for_change outputs) % 18446744073709551616
unfolding share_out count_for_change
share_out_one each [] = omega arith
share_out_one each (o ∷ outputs) =
    let ih = share_out_one each outputs in
    elim (Bool-cases o.use_for_change) [
      | inl takes ↦ rw (takes, share_out) (omega arith)
      | inr keeps ↦ rw (keeps, share_out) (omega arith)
    ]

-- The outputs that take the change take all of it.
pub share_out_lem :
    (each remainder : ℕ) (outputs : List Output)
    → count_for_change outputs ≢ 0
    → sum_of (share_out each remainder outputs) % 18446744073709551616
      ≡ (sum_of outputs + each * count_for_change outputs + remainder) % 18446744073709551616
unfolding share_out count_for_change
share_out_lem each remainder [] h = absurd (h refl)
share_out_lem each remainder (o ∷ outputs) h = elim (Bool-cases o.use_for_change) [
  | inl takes ↦ let one = share_out_one each outputs in rw (takes, share_out) (omega arith)
  | inr keeps ↦
      let ih = share_out_lem each remainder outputs (rw keeps at h) in
      rw (keeps, share_out) (omega arith)
]

-- The destinations are different.
abbrev pub AreDistinct : List String → Type 0
AreDistinct [] = Unit {0}
AreDistinct (d ∷ ds) = ((x : String) → In x ds → (d =? x) ≡ false) × AreDistinct ds

abbrev pub sum_amounts : List (String × ℕ) → List String → ℕ
sum_amounts amounts destinations = sum_by (λ d. amount_of d amounts) destinations

sum_amounts_skip :
    (k : String) (n : ℕ) (amounts : List (String × ℕ)) (ds : List String)
    → ((x : String) → In x ds → (k =? x) ≡ false)
    → sum_amounts ((k, n) ∷ amounts) ds ≡ sum_amounts amounts ds
unfolding amount_of
sum_amounts_skip k n amounts [] h = refl
sum_amounts_skip k n amounts (d ∷ ds) h =
    let ih = sum_amounts_skip k n amounts ds (λ x i. h x (inr i)) in
    rw (h d (inl refl)) (omega arith)

-- One amount is replaced.
sum_amounts_put :
    (k : String) (n : ℕ) (amounts : List (String × ℕ)) (ds : List String)
    → AreDistinct ds
    → In k ds
    → sum_amounts ((k, n) ∷ amounts) ds + amount_of k amounts ≡ sum_amounts amounts ds + n
unfolding amount_of
sum_amounts_put k n amounts [] distinct i = absurd i
sum_amounts_put k n amounts (d ∷ ds) distinct (inl e) =
    let skip = sum_amounts_skip k n amounts ds (λ x i. ap (λ y. y =? x) e ∙ distinct.0 x i) in
    let hit = (=?_iff k d).1 e in let same = ap (λ y. amount_of y amounts) e in rw hit (omega arith)
sum_amounts_put k n amounts (d ∷ ds) distinct (inr i) =
    let ih = sum_amounts_put k n amounts ds distinct.1 i in
    let other = distinct.0 k i in
    let other' : (k =? d) ≡ false = ground (arith, =?_iff k d, =?_iff d k) in
    rw other' (omega arith)

-- Other destinations keep their amounts.
split_change_keeps :
    (share : ℕ → Option ℕ) (ds : List String) (s s' : Split) (x : String)
    → ((d : String) → In d ds → (d =? x) ≡ false)
    → split_change share ds s ≡ ok s'
    → amount_of x s'.amounts ≡ amount_of x s.amounts
unfolding split_change amount_of
split_change_keeps share [] s s' x h run =
    ap (λ (t : Split). amount_of x t.amounts) (sym (ok_injective run))
split_change_keeps share (d ∷ ds) s s' x h run =
    let (n, _, rest) = bind-ok (or_fail (share (length ds)) _) _ s' run in
    split_change_keeps share ds _ s' x (λ e i. h e (inr i)) rest ∙ rw (h d (inl refl)) refl

split_change_last :
    (share : ℕ → Option ℕ) (ds : List String) (s s' : Split)
    → split_change share ds s ≡ ok s'
    → (s'.last ≡ s.last) ⊎ In s'.last ds
unfolding split_change
split_change_last share [] s s' run = inl (ap Split.last (sym (ok_injective run)))
split_change_last share (d ∷ ds) s s' run =
    let (n, _, rest) = bind-ok (or_fail (share (length ds)) _) _ s' run in
    elim (split_change_last share ds _ s' rest) [ inl e ↦ inr (inl e) | inr i ↦ inr (inr i) ]

split_change_used :
    (share : ℕ → Option ℕ) (ds : List String) (s s' : Split)
    → AreDistinct ds
    → s.used < 18446744073709551616
    → split_change share ds s ≡ ok s'
    → s'.used ≡ (s.used + sum_amounts s'.amounts ds) % 18446744073709551616
unfolding split_change amount_of
split_change_used share [] s s' distinct small run =
    let used = ap Split.used (ok_injective run) in omega arith
split_change_used share (d ∷ ds) s s' distinct small run =
    let (n, _, rest) = bind-ok (or_fail (share (length ds)) _) _ s' run in
    let used = split_change_used share ds _ s' distinct.1 (omega arith) rest in
    let kept : amount_of d s'.amounts ≡ n =
      split_change_keeps share ds _ s' d
        (λ x i. let other = distinct.0 x i in ground (arith, =?_iff x d, =?_iff d x)) rest
      ∙ rw (=?_refl d) refl in
    omega arith

abbrev nothing_split : Split
nothing_split = record { amounts = []; used = 0; last = "" }

-- The amounts of the destinations add up to the change.
pub get_change_satoshis_lem :
    (numbers : Numbers) (strategy : ChangeStrategy) (ds : List String) (change : ℕ)
    (amounts : List (String × ℕ))
    → AreDistinct ds
    → ds ≢ []
    → get_change_satoshis numbers strategy ds change ≡ ok amounts
    → sum_amounts amounts ds % 18446744073709551616 ≡ change % 18446744073709551616
unfolding get_change_satoshis split_change
get_change_satoshis_lem numbers strategy [] change amounts distinct some_ds h =
    absurd (some_ds refl)
get_change_satoshis_lem numbers strategy (d ∷ ds) change amounts distinct some_ds h =
    let (_, _, k) =
      bind-ok (fail_if (is_nominations strategy) change_strategy_not_implemented) _ amounts h in
    let share = share_of numbers strategy change (length (d ∷ ds)) in
    let (s, run, e) = bind-ok (split_change share (d ∷ ds) nothing_split) _ amounts k in
    let used = split_change_used share (d ∷ ds) nothing_split s distinct (omega arith) run in
    let (n, _, rest) = bind-ok (or_fail (share (length ds)) random_failed) _ s run in
    let put =
      sum_amounts_put s.last (add64 (amount_of s.last s.amounts) (sub64 change s.used)) s.amounts
        (d ∷ ds) distinct (last s (split_change_last share ds _ s rest)) in
    let total : sum_amounts
            ((s.last, add64 (amount_of s.last s.amounts) (sub64 change s.used)) ∷ s.amounts)
            (d ∷ ds)
          % 18446744073709551616
        ≡ change % 18446744073709551616 =
      omega arith in
    subst (λ a. sum_amounts a (d ∷ ds) % 18446744073709551616 ≡ change % 18446744073709551616)
      (ok_injective e) total
  where
    last : (s : Split) → (s.last ≡ d) ⊎ In s.last ds → In s.last (d ∷ ds)
    last s (inl e) = inl e
    last s (inr i) = inr i

pub total_from-append :
    (xs ys : List Output)
    → total_from 0 (xs ++ ys) ≡ (total_from 0 xs + sum_of ys) % 18446744073709551616
total_from-append xs ys =
    let a = total_from_lem 0 (xs ++ ys) (omega arith) in
    let b = total_from_lem 0 xs (omega arith) in let c = sum_of-append xs ys in omega arith
  where
    sum_of-append : (xs ys : List Output) → sum_of (xs ++ ys) ≡ sum_of xs + sum_of ys
    sum_of-append [] ys = omega arith
    sum_of-append (x ∷ xs) ys = let ih = sum_of-append xs ys in omega arith

pub sum_of-change_output :
    (amounts : List (String × ℕ)) (ds : List String)
    → sum_of (map (change_output amounts) ds) ≡ sum_amounts amounts ds
unfolding change_output
sum_of-change_output amounts [] = refl
sum_of-change_output amounts (d ∷ ds) = let ih = sum_of-change_output amounts ds in omega arith
