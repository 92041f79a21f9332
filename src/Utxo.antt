-- ===== src/Utxo.antt =====
-- The selection of a user's UTXOs that fund a transaction outline: the SQL query that
-- engine/v2/transaction/outlines/utxo/internal/sql/inputs_query_composer.go builds, and the
-- transaction of selector.go around it. The table is a list of rows. A window
-- `sum(f) over (order by ...)` is the sum over the rows that come before a row or with it.
-- The order of the column tx_id is the database's collation, the parameter `text_leb`.
-- The quotient by `cast(... as float)` is exact below 2 ^ 53 and is written as a ceiling of ℕ.
mod Size
pub mod Order
pub mod Minimum
pub mod Selection
pub mod Growth
pub mod Dust
pub mod Join
pub mod Funding
pub mod Touch
mod Tests
unfoldable pub use Size.*
use spv_wallet.Prelude.{
  ℕ, ◌+◌, ◌-◌, ◌*◌, ◌/◌, Bool, true, false, ◌&&◌, String, Option, none, some, List, [], ◌∷◌, ◌++◌,
  map, ◌=?◌, ◌==◌, ltb, leb, if◌then◌else◌, filter, sum_by, any,
}
use spv_wallet.Prelude.Int.{ℤ, pos, negsuc, ◌-ℤ◌, leb_ℤ}
use spv_wallet.Prelude.Results.{Result, ok, err}
use spv_wallet.Bsv.{CustomInstructions, FeeUnit, Outpoint, same_outpoint}

-- A row of the table of `database.UserUTXO`.
pub record Utxo : Type 0 where
  pub user_id : String
  pub tx_id : String
  pub vout : ℕ
  pub satoshis : ℕ
  pub estimated_input_size : ℕ
  pub bucket : String
  pub created_at : ℕ
  pub touched_at : ℕ
  pub custom_instructions : CustomInstructions

-- `inputsQueryComposer`
pub record Composer : Type 0 where
  pub user_id : String
  pub outputs_total_value : ℕ
  pub tx_without_inputs_size : ℕ
  pub fee_unit : FeeUnit

abbrev pub estimated_change_output_size : ℕ
estimated_change_output_size = 34

-- `ceil(size / bytes) * satoshis`
unfoldable pub fee_of : FeeUnit → ℕ → ℕ
fee_of u size = (size + u.bytes - 1) / u.bytes * u.satoshis

-- A comparison of one column, with the columns that follow it for a tie.
abbrev pub then_by : ℕ → ℕ → Bool → Bool
then_by a b rest = if ltb a b then true else if ltb b a then false else rest

-- `min(case when change >= 0 then change end) over ()`
abbrev pub min_case : ℤ → Option ℕ → Option ℕ
min_case (negsuc n) m = m
min_case (pos n) none = some n
min_case (pos n) (some m) = if leb n m then some n else some m

unfoldable pub min_change : (Utxo → ℤ) → List Utxo → Option ℕ
min_change f [] = none
min_change f (r ∷ rows) = min_case (f r) (min_change f rows)

abbrev pub outpoint_of : Utxo → Outpoint
outpoint_of r = record { tx_id = r.tx_id; vout = r.vout }

-- The rows of the table, each with the rows of the subquery `sel` of the same outpoint.
unfoldable pub join : List Utxo → List Utxo → List Utxo
join [] sel = []
join (ux ∷ table) sel =
    map (λ s. ux) (filter (λ s. same_outpoint (outpoint_of s) (outpoint_of ux)) sel)
    ++ join table sel

-- `Update("touched_at", now)` where (tx_id, vout) is one of the selected.
unfoldable pub touch : ℕ → List Utxo → List Utxo → List Utxo
touch now selected [] = []
touch now selected (r ∷ table) =
    let rest = touch now selected table in
    if any (λ s. same_outpoint (outpoint_of s) (outpoint_of r)) selected
    then record r { touched_at = now } ∷ rest
    else r ∷ rest

-- What the database reports: whether the query and the update fail.
pub record Faults : Type 0 where
  pub find_fails : Bool
  pub update_fails : Bool

pub data SelectError : Type 0 where
  unexpected_error_during_inputs_selection : SelectError

module _ (text_leb : String → String → Bool) where
  -- `order by touched_at ASC, created_at ASC, tx_id ASC, vout ASC`: not after the other row.
  unfoldable pub before : Utxo → Utxo → Bool
  before a b = then_by a.touched_at b.touched_at (
      then_by a.created_at b.created_at (
        if text_leb a.tx_id b.tx_id
        then (if text_leb b.tx_id a.tx_id then leb a.vout b.vout else true)
        else false))

  -- `sum(f) over (order by ...)`
  unfoldable pub window : (Utxo → ℕ) → List Utxo → Utxo → ℕ
  window f rows u = sum_by f (filter (λ r. before r u) rows)

  module _ (c : Composer) where
    unfoldable pub utxos : List Utxo → List Utxo
    utxos table = filter (λ r. r.user_id =? c.user_id) table

    unfoldable pub remaining_value : List Utxo → Utxo → ℤ
    remaining_value rows u = pos (window (λ r. r.satoshis) rows u) -ℤ pos c.outputs_total_value

    unfoldable pub fee_no_change_output : List Utxo → Utxo → ℕ
    fee_no_change_output rows u =
        fee_of c.fee_unit (window (λ r. r.estimated_input_size) rows u + c.tx_without_inputs_size)

    unfoldable pub fee_with_change_output : List Utxo → Utxo → ℕ
    fee_with_change_output rows u = fee_of c.fee_unit (
        window (λ r. r.estimated_input_size) rows u
        + c.tx_without_inputs_size
        + estimated_change_output_size)

    -- The column `change` of `addChangeValueCalculation`.
    unfoldable pub change : List Utxo → Utxo → ℤ
    change rows u =
        let without = remaining_value rows u -ℤ pos (fee_no_change_output rows u) in
        if leb_ℤ without (pos 0)
        then without
        else remaining_value rows u -ℤ pos (fee_with_change_output rows u)

    -- `change <= min_change` and `min_change is not null`
    unfoldable pub choose_inputs : List Utxo → List Utxo
    choose_inputs rows = elim (min_change (change rows) rows) [
      | none ↦ []
      | some m ↦ filter (λ r. leb_ℤ (change rows r) (pos m)) rows
    ]

    -- `build`: the rows of the table joined with the selected outpoints, and the column
    -- `sel.min_change as change`.
    unfoldable pub build : List Utxo → List (Utxo × ℕ)
    build table =
        let rows = utxos table in
        elim (min_change (change rows) rows) [
          | none ↦ []
          | some m ↦ map (λ r. (r, m)) (join table (choose_inputs rows))
        ]

    -- The database transaction of `selectInputsForTransaction`; an error rolls it back.
    unfoldable pub select_inputs_for_transaction :
        Faults → ℕ → List Utxo → Result SelectError (List (Utxo × ℕ)) × List Utxo
    select_inputs_for_transaction db now table =
        let found = build table in
        if db.find_fails
        then (err unexpected_error_during_inputs_selection, table)
        else elim found [
          | [] ↦ (ok [], table)
          | f ∷ fs ↦
              if db.update_fails
              then (err unexpected_error_during_inputs_selection, table)
              else (ok (f ∷ fs), touch now (map (λ p. p.0) (f ∷ fs)) table)
        ]

-- `outlines.UTXO`
pub record FundingUtxo : Type 0 where
  pub tx_id : String
  pub vout : ℕ
  pub custom_instructions : CustomInstructions

abbrev pub to_funding : Utxo × ℕ → FundingUtxo
to_funding (u, m) = record {
  tx_id = u.tx_id;
  vout = u.vout;
  custom_instructions = u.custom_instructions;
}

-- The change of the first row stands for the change of all.
abbrev pub first_change : List (Utxo × ℕ) → ℕ
first_change [] = 0
first_change ((u, m) ∷ rest) = m

module _ (sdk : Sdk) (text_leb : String → String → Bool) where
  open sdk use {total_output_satoshis, var_int_length}

  -- `UTXOSelector.Select`
  unfoldable pub select :
      FeeUnit
      → Faults
      → ℕ
      → List TransactionOutput
      → String
      → List Utxo
      → Result SelectError (List FundingUtxo × ℕ) × List Utxo
  select unit db now outputs user table =
      let c : Composer = record {
        user_id = user;
        outputs_total_value = total_output_satoshis outputs;
        tx_without_inputs_size = output_only_tx_size var_int_length outputs;
        fee_unit = unit;
      } in
      let (r, table') = select_inputs_for_transaction text_leb c db now table in
      elim r [
        | ok rows ↦ (ok (map to_funding rows, first_change rows), table')
        | err e ↦ (err e, table')
      ]
