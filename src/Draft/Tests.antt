-- ===== src/Draft/Tests.antt =====
-- A draft with one input and one output.
use spv_wallet.Prelude.{
  ℕ, ◌+◌, ◌/◌, ◌%◌, ◌<◌, ◌≡◌, ◌≢◌, refl, false, String, Option, none, some, List, [], ◌∷◌, arith,
}
use spv_wallet.Prelude.Int.{pos}
use spv_wallet.Prelude.Results.{ok}
use spv_wallet.Bsv.{FeeUnit}
use spv_wallet.Draft.Model.{
  Numbers, Config, Output, default_strategy, add64, total_from, estimate_size, estimate_fee,
  get_input_size_for_type, get_output_size, count_for_change, share_of, amount_of, split_change,
  get_change_satoshis, change_output, put_change_outputs, add_change_outputs,
  set_change_destination, calculate_and_set_fee,
}
use mathlib.Core.Path.{subst}
use spv_wallet.Draft.Change.{AreDistinct}
use spv_wallet.Draft.Balance.{AreUsable, calculate_and_set_fee_lem, change_wraps}

abbrev numbers : Numbers
numbers = record {
  quotient = λ a n. a / n;
  is_less_each = λ a n m. false;
  ceil_fee = λ unit n. n % 1000;
  random_share = λ a n i. none;
  decoded_length = λ s. some 25;
  var_int_length = λ n. 1;
  script_type_pub_key_hash = "pubkeyhash";
}

abbrev make : ℕ → Option (List String)
make n = some ("d" ∷ [])

abbrev payment : Output
payment = record {
  satoshis = 500;
  use_for_change = false;
  scripts = record { script = "s"; satoshis = 500 } ∷ [];
}

abbrev draft : Config
draft = record {
  inputs = record { utxo_id = "u"; satoshis = 1000; type = "pubkeyhash" } ∷ [];
  outputs = payment ∷ [];
  fee_unit = record { satoshis = 1; bytes = 1 };
  fee = 0;
  change_satoshis = 0;
  change_destinations = none;
  change_strategy = default_strategy;
  change_number_of_destinations = pos 0;
  change_minimum_satoshis = 0;
}

abbrev change_of : ℕ → Output
change_of satoshis = record {
  satoshis = satoshis;
  use_for_change = false;
  scripts = record { script = "d"; satoshis = satoshis } ∷ [];
}

abbrev with_change : ℕ → ℕ → Config
with_change fee satoshis = record draft {
  fee = fee;
  change_satoshis = satoshis;
  change_destinations = some ("d" ∷ []);
  outputs = payment ∷ change_of satoshis ∷ [];
}

fees_are_small : (unit : FeeUnit) (n : ℕ) → numbers.ceil_fee unit n < 18446744073709551616
fees_are_small unit n = omega arith

draft-AreUsable : AreUsable draft make
draft-AreUsable = (
  λ ds e. cc,
  λ n ds e.
      let same : "d" ∷ [] ≡ ds = some_injective e in
      subst (λ l. AreDistinct l × (l ≢ [])) same ((λ x i. absurd i, tt), λ q. cc),
)
  where
    some_injective : {a b : List String} → ◌≡◌ {A = Option (List String)} (some a) (some b) → a ≡ b
    some_injective q = cc

calculates : calculate_and_set_fee numbers make draft 1000 500 ≡ ok (with_change 227 273)
unfolding calculate_and_set_fee set_change_destination add_change_outputs put_change_outputs
    get_change_satoshis split_change share_of amount_of change_output count_for_change estimate_fee
    estimate_size get_input_size_for_type get_output_size
calculates = refl

total : total_from 0 draft.outputs ≡ 500
unfolding total_from
total = refl

calculate_and_set_fee_lem_example :
    add64 (total_from 0 (with_change 227 273).outputs) (with_change 227 273).fee ≡ 1000
calculate_and_set_fee_lem_example =
    calculate_and_set_fee_lem numbers make draft (with_change 227 273) 1000 fees_are_small
      draft-AreUsable (omega arith) (rw total calculates)

wrapped :
    add_change_outputs numbers make draft 10 192 ≡ ok (227, with_change 0 18446744073709551591)
unfolding add_change_outputs put_change_outputs get_change_satoshis split_change share_of amount_of
    change_output estimate_fee estimate_size get_input_size_for_type get_output_size
wrapped = refl

change_wraps_example :
    (with_change 0 18446744073709551591).change_satoshis + 227 ≡ 18446744073709551616 + 10 + 192
change_wraps_example =
    change_wraps numbers make draft 10 192 (227, with_change 0 18446744073709551591) fees_are_small
      wrapped (omega arith)
