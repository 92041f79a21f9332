-- ===== src/Draft/Model.antt =====
-- The configuration of a draft, its fee and its change. Satoshis are numbers of 64 bits whose sums and
-- differences wrap around.
use spv_wallet.Prelude.{
  ℕ, zero, suc, ◌+◌, ◌-◌, ◌*◌, ◌%◌, Bool, true, false, not, String, Option, none, some, List, [],
  ◌∷◌, ◌++◌, map, ◌=?◌, ◌==◌, ltb, if◌then◌else◌, length, sum_by, any,
}
use spv_wallet.Prelude.Int.{ℤ, pos, negsuc}
use spv_wallet.Prelude.Results.{Result, ok, err, ◌>>=◌, ◌>>◌, or_fail, fail_if}
use spv_wallet.Bsv.{FeeUnit}

pub data DraftError : Type 0 where
  not_enough_utxos change_strategy_not_implemented random_failed : DraftError
  destinations_failed duplicate_utxos output_value_too_high transaction_fee_invalid : DraftError

abbrev pub add64 : ℕ → ℕ → ℕ
add64 a b = (a + b) % 18446744073709551616

abbrev pub sub64 : ℕ → ℕ → ℕ
sub64 a b = (a + (18446744073709551616 - b)) % 18446744073709551616

-- Go's arithmetic of floating point numbers, its random numbers and the decoding of hexadecimal, and
-- the go-sdk's lengths of variable integers and name of a type of scripts.
pub record Numbers : Type 0 where
  pub quotient : ℕ → ℕ → ℕ
  pub is_less_each : ℕ → ℕ → ℕ → Bool
  pub ceil_fee : FeeUnit → ℕ → ℕ
  pub random_share : ℕ → ℕ → ℕ → Option ℕ
  pub decoded_length : String → Option ℕ
  pub var_int_length : ℕ → ℕ
  pub script_type_pub_key_hash : String

pub record ScriptOutput : Type 0 where
  pub script : String
  pub satoshis : ℕ

pub record Output : Type 0 where
  pub satoshis : ℕ
  pub use_for_change : Bool
  pub scripts : List ScriptOutput

pub record Input : Type 0 where
  pub utxo_id : String
  pub satoshis : ℕ
  pub type : String

-- Any other text is the default strategy.
pub data ChangeStrategy : Type 0 where
  default_strategy random nominations : ChangeStrategy

-- `TransactionConfig`; a destination is its locking script, and none is nil.
pub record Config : Type 0 where
  pub inputs : List Input
  pub outputs : List Output
  pub fee_unit : FeeUnit
  pub fee : ℕ
  pub change_satoshis : ℕ
  pub change_destinations : Option (List String)
  pub change_strategy : ChangeStrategy
  pub change_number_of_destinations : ℤ
  pub change_minimum_satoshis : ℕ

-- `getTotalSatoshis`
unfoldable pub total_from : ℕ → List Output → ℕ
total_from satoshis [] = satoshis
total_from satoshis (o ∷ outputs) = total_from (add64 satoshis o.satoshis) outputs

-- `GetInputSizeForType`
unfoldable pub get_input_size_for_type : Numbers → String → ℕ
get_input_size_for_type numbers type = if type =? numbers.script_type_pub_key_hash then 148 else 500

unfoldable pub get_output_size : Numbers → String → ℕ
get_output_size numbers script =
    if script =? ""
    then 500
    else elim (numbers.decoded_length script) [ none ↦ 500 | some n ↦ n + 9 ]

-- `estimateSize`
unfoldable pub estimate_size : Numbers → Config → ℕ
estimate_size numbers c =
    8
    + numbers.var_int_length (length c.inputs)
    + sum_by (λ (i : Input). get_input_size_for_type numbers i.type) c.inputs
    + numbers.var_int_length (length c.outputs)
    + sum_by
        (λ (o : Output). sum_by (λ (s : ScriptOutput). get_output_size numbers s.script) o.scripts)
        c.outputs

unfoldable pub estimate_fee : Numbers → Config → ℕ → ℕ
estimate_fee numbers c add_to_size =
    numbers.ceil_fee c.fee_unit (estimate_size numbers c + add_to_size)

-- The outputs that take the change, the first of which takes the remainder.
unfoldable pub share_out : ℕ → ℕ → List Output → List Output
share_out each remainder [] = []
share_out each remainder (o ∷ outputs) = elim o.use_for_change [
  | true ↦
      record o { satoshis = add64 o.satoshis (add64 each remainder) } ∷ share_out each 0 outputs
  | false ↦ o ∷ share_out each remainder outputs
]

-- A Go map from locking scripts to satoshis.
unfoldable pub amount_of : String → List (String × ℕ) → ℕ
amount_of script [] = 0
amount_of script ((k, n) ∷ amounts) = if k =? script then n else amount_of script amounts

pub record Split : Type 0 where
  pub amounts : List (String × ℕ)
  pub used : ℕ
  pub last : String

-- The loops over the destinations in `getChangeSatoshis`.
unfoldable pub split_change : (ℕ → Option ℕ) → List String → Split → Result DraftError Split
split_change share [] s = ok s
split_change share (d ∷ destinations) s = do
  n ← or_fail (share (length destinations)) random_failed
  split_change share destinations
      (record { amounts = (d, n) ∷ s.amounts; used = add64 s.used n; last = d })

abbrev pub is_nominations : ChangeStrategy → Bool
is_nominations nominations = true
is_nominations strategy = false

-- The share of a destination, told by the number of those after it.
unfoldable pub share_of : Numbers → ChangeStrategy → ℕ → ℕ → ℕ → Option ℕ
share_of numbers random change count i = numbers.random_share change count i
share_of numbers strategy change count i = some (numbers.quotient change count)

-- `getChangeSatoshis`
unfoldable pub get_change_satoshis :
    Numbers → ChangeStrategy → List String → ℕ → Result DraftError (List (String × ℕ))
get_change_satoshis numbers strategy destinations change = do
  fail_if (is_nominations strategy) change_strategy_not_implemented
  s ←
      split_change (share_of numbers strategy change (length destinations)) destinations
        (record { amounts = []; used = 0; last = "" })
  ok ((s.last, add64 (amount_of s.last s.amounts) (sub64 change s.used)) ∷ s.amounts)

unfoldable pub change_output : List (String × ℕ) → String → Output
change_output amounts script = record {
  satoshis = amount_of script amounts;
  use_for_change = false;
  scripts = record { script = script; satoshis = amount_of script amounts } ∷ [];
}

-- The number of the outputs that take the change.
unfoldable pub count_for_change : List Output → ℕ
count_for_change [] = 0
count_for_change (o ∷ outputs) =
    let rest = count_for_change outputs in if o.use_for_change then 1 + rest else rest

abbrev pub destinations_wanted : ℤ → ℕ
destinations_wanted (pos zero) = 1
destinations_wanted (pos (suc n)) = suc n
destinations_wanted (negsuc n) = 1

-- The outputs of the change, once there are destinations.
unfoldable pub put_change_outputs :
    Numbers → Config → ℕ → ℕ → List String → Result DraftError (ℕ × Config)
put_change_outputs numbers c new_fee rest destinations = do
  amounts ← get_change_satoshis numbers c.change_strategy destinations rest
  ok (
    new_fee,
    record c {
      change_satoshis = rest;
      change_destinations = some destinations;
      outputs = c.outputs ++ map (change_output amounts) destinations;
    },
  )

module _ (numbers : Numbers) (make : ℕ → Option (List String)) where
  -- The branch of `setChangeDestination` that makes new outputs; `make` creates the destinations.
  unfoldable pub add_change_outputs : Config → ℕ → ℕ → Result DraftError (ℕ × Config)
  add_change_outputs c change fee = do
    let wanted = destinations_wanted c.change_number_of_destinations
    let minimum = if c.change_minimum_satoshis == 0 then 1250 else c.change_minimum_satoshis
    let count = if numbers.is_less_each change wanted minimum then 1 else wanted
    let new_fee = estimate_fee numbers c ((count * 35) % 18446744073709551616)
    let rest = sub64 change (sub64 new_fee fee)
    destinations ← elim c.change_destinations [
      | some l ↦ ok l
      | none ↦ or_fail (make count) destinations_failed
    ]
    put_change_outputs numbers c new_fee rest destinations

  -- `setChangeDestination`
  unfoldable pub set_change_destination : Config → ℕ → ℕ → Result DraftError (ℕ × Config)
  set_change_destination c change fee =
      let count = count_for_change c.outputs in
      let each = numbers.quotient change count in
      if count == 0
      then add_change_outputs c change fee
      else ok (
        fee,
        record c {
          change_satoshis = change;
          change_destinations = none;
          change_strategy = default_strategy;
          outputs = share_out each (sub64 change ((each * count) % 18446744073709551616)) c.outputs;
        },
      )

  -- `calculateAndSetFee` where `SendAllTo` is nil.
  unfoldable pub calculate_and_set_fee : Config → ℕ → ℕ → Result DraftError Config
  calculate_and_set_fee c reserved needed =
      let fee = estimate_fee numbers c 0 in
      let change = sub64 (sub64 reserved needed) fee in
      if ltb reserved (add64 needed fee)
      then err not_enough_utxos
      else if change == 0
      then ok (record c { fee = fee })
      else set_change_destination (record c { fee = fee }) change fee >>= λ p.
          ok (record p.1 { fee = p.0 })

-- `validateOutputsInputs`
unfoldable pub check_inputs : List String → ℕ → List Input → Result DraftError ℕ
check_inputs used value [] = ok value
check_inputs used value (i ∷ inputs) =
    let rest = check_inputs (i.utxo_id ∷ used) (add64 value i.satoshis) inputs in
    if any (λ u. u =? i.utxo_id) used then err duplicate_utxos else rest

unfoldable pub validate_outputs_inputs : List Input → List Output → ℕ → Result DraftError (Unit {0})
validate_outputs_inputs inputs outputs fee = do
  value ← check_inputs [] 0 inputs
  fail_if (ltb value (total_from 0 outputs)) output_value_too_high
  fail_if (not (sub64 value (total_from 0 outputs) == fee)) transaction_fee_invalid
