-- ===== src/Tx/Sync.antt =====
-- The handler of the miners' callback: txsync/txsync_service.go. Log calls are left out, and with
-- them the test for a changed block hash, which only logs.
use spv_wallet.Prelude.{not, ◌=?◌, ltb, if◌then◌else◌}
use spv_wallet.Prelude.Int.{pos}
use spv_wallet.Prelude.Results.{Result, ok, err, fail_if, ◌>>=◌, ◌>>◌}
use spv_wallet.Tx.Model.{
  problematic, is_mined, is_problematic, TxInfo, TrackedTransaction, TxError, empty_tx_id,
  height_mismatch, Sdk, ◌=ℤ◌, set_mined, parse_merkle_path,
}
use spv_wallet.Tx.Repository.{Database, Weather, get_transaction, update_transaction}

module _ (sdk : Sdk) where
  -- The mined transaction that `Handle` stores, or why it stores none.
  unfoldable pub confirm : TxInfo → TrackedTransaction → Result TxError TrackedTransaction
  confirm info t = do
    bump ← parse_merkle_path sdk info.merkle_path info.tx_id
    fail_if (not (pos (sdk.height_of bump) =ℤ info.block_height)) height_mismatch
    set_mined sdk info.block_hash bump t

  -- `UpdateTransaction` of a result, or its error.
  unfoldable pub store :
      Weather → Result TxError TrackedTransaction → Database → Result TxError (Unit {0}) × Database
  store w (err e) db = (err e, db)
  store w (ok t) db = update_transaction w t db

  -- `Handle` after the transaction is read.
  unfoldable pub handle_tracked :
      Weather → TxInfo → TrackedTransaction → Database → Result TxError (Unit {0}) × Database
  handle_tracked w info t db =
      if ltb info.timestamp t.updated_at
      then (ok tt, db)
      else if is_problematic info.status
      then update_transaction w (record t { tx_status = problematic }) db
      else if not (is_mined info.status)
      then (ok tt, db)
      else store w (confirm info t) db

  -- `Handle`
  unfoldable pub handle : Weather → TxInfo → Database → Result TxError (Unit {0}) × Database
  handle w info db =
      if info.tx_id =? "" then (err empty_tx_id, db) else elim (get_transaction w db info.tx_id) [
        | err e ↦ (err e, db)
        | ok t ↦ handle_tracked w info t db
      ]
