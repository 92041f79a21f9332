-- ===== src/Tx/Repository.antt =====
-- The tables of transactions and of their input sources, and the repository's reads and writes:
-- database/tracked_transaction.go and repository/transactions.go.
use spv_wallet.Prelude.{
  ℕ, Bool, not, ◌&&◌, String, Option, none, some, List, [], ◌∷◌, ◌=?◌, filter, if◌then◌else◌,
  is_some,
}
use spv_wallet.Prelude.Results.{Result, ok, err}
use spv_wallet.Tx.Model.{TrackedTransaction, TxError, get_failed, update_failed, no_hex}

-- `TxInput`
pub record TxInput : Type 0 where
  pub tx_id : String
  pub source_tx_id : String

pub record Database : Type 0 where
  pub transactions : List TrackedTransaction
  pub tx_inputs : List TxInput

-- Whether the database fails, and its clock.
pub record Weather : Type 0 where
  pub get_fails : Bool
  pub update_fails : Bool
  pub now : ℕ

unfoldable pub find : String → List TrackedTransaction → Option TrackedTransaction
find id [] = none
find id (t ∷ rest) = if t.id =? id then some t else find id rest

-- `GetTransaction`
unfoldable pub get_transaction : Weather → Database → String → Result TxError TrackedTransaction
unfolding find
get_transaction w db id =
    if w.get_fails
    then err get_failed
    else elim (find id db.transactions) [ none ↦ err get_failed | some t ↦ ok t ]

-- The columns that `UpdateTransaction` writes, with the time of the update that gorm sets.
unfoldable pub written : ℕ → TrackedTransaction → TrackedTransaction → TrackedTransaction
written now t row = record row {
  block_hash = t.block_hash;
  block_height = t.block_height;
  tx_status = t.tx_status;
  beef_hex = t.beef_hex;
  raw_hex = if is_some t.beef_hex then none else t.raw_hex;
  updated_at = now;
}

unfoldable pub set_row : ℕ → TrackedTransaction → List TrackedTransaction → List TrackedTransaction
set_row now t [] = []
set_row now t (row ∷ rest) =
    (if row.id =? t.id then written now t row else row) ∷ set_row now t rest

-- `UpdateTransaction`: the row, and the removal of its input sources, in one transaction.
unfoldable pub update_transaction :
    Weather → TrackedTransaction → Database → Result TxError (Unit {0}) × Database
update_transaction w t db =
    if not (is_some t.beef_hex) && not (is_some t.raw_hex)
    then (err no_hex, db)
    else if w.update_fails
    then (err update_failed, db)
    else (
      ok tt,
      record {
        transactions = set_row w.now t db.transactions;
        tx_inputs = filter (λ i. not (i.tx_id =? t.id)) db.tx_inputs;
      },
    )
