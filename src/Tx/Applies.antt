-- ===== src/Tx/Applies.antt =====
-- A callback that is applied: from the answers of the go-sdk to the stored row.
use spv_wallet.Prelude.{
  ◌≡◌, ◌≢◌, refl, ◌⊎◌, inl, inr, true, false, String, none, some, [], ◌=?◌, =?_iff, ltb, is_some,
  filter, arith, ◌≤◌, ℕ,
}
use spv_wallet.Prelude.Int.{pos}
use spv_wallet.Prelude.Results.{ok}
use spv_wallet.Tx.Model.{
  mined, mined_on_chain, parse, is_mined, is_problematic, TxInfo, TrackedTransaction, Sdk, ◌=ℤ◌,
  set_mined, parse_merkle_path,
}
use spv_wallet.Tx.Repository.{Database, Weather, find, get_transaction, written, update_transaction}
use spv_wallet.Tx.Sync.{confirm, store, handle_tracked, handle}
use spv_wallet.Tx.Frame.{find-id, find_own-set_row, saved}
use spv_wallet.Tx.Callback.{none_left, confirm-MinedAs}

update_transaction-ok :
    (w : Weather) (t : TrackedTransaction) (db : Database)
    → w.update_fails ≡ false
    → is_some t.beef_hex ≡ true
    → update_transaction w t db ≡ (ok tt, saved w t db)
unfolding update_transaction
update_transaction-ok w t db u h = rw h (rw u refl)

handle-confirmed :
    (sdk : Sdk) (w : Weather) (info : TxInfo) (db : Database) (t t' : TrackedTransaction)
    → (info.tx_id =? "") ≡ false
    → get_transaction w db info.tx_id ≡ ok t
    → w.update_fails ≡ false
    → ltb info.timestamp t.updated_at ≡ false
    → is_problematic info.status ≡ false
    → is_mined info.status ≡ true
    → confirm sdk info t ≡ ok t'
    → handle sdk w info db ≡ (ok tt, saved w t' db)
unfolding handle handle_tracked store
handle-confirmed sdk w info db t t' named got u fresh np m c =
    let beef = (confirm-MinedAs sdk info t t' c).3 in
    rw named (rw got (rw fresh (rw np (rw m (rw c (update_transaction-ok w t' db u beef))))))

-- The go-sdk reads the transaction from its stored form: BEEF, or else the raw form.
abbrev pub IsRead : (sdk : Sdk) → TrackedTransaction → sdk.Transaction → Type 0
IsRead sdk t tx =
    ((hex : String) × (t.beef_hex ≡ some hex) × (sdk.from_beef_hex hex ≡ some tx))
    ⊎ ((hex : String) × (t.beef_hex ≡ none) × (t.raw_hex ≡ some hex) × (sdk.from_hex hex ≡ some tx))

parse-IsRead :
    (sdk : Sdk) (t : TrackedTransaction) (tx : sdk.Transaction)
    → IsRead sdk t tx
    → parse sdk t.beef_hex t.raw_hex ≡ ok tx
unfolding parse
parse-IsRead sdk t tx (inl (hex, b, p)) = rw b (rw p refl)
parse-IsRead sdk t tx (inr (hex, b, r, p)) = rw b (rw r (rw p refl))

same_height : (n : ℕ) → (pos n =ℤ pos n) ≡ true
same_height n = ground arith

-- The row of a transaction that the block has confirmed.
abbrev pub confirmed_row :
    (sdk : Sdk) → TxInfo → sdk.MerklePath → String → TrackedTransaction → TrackedTransaction
confirmed_row sdk info bump beef t = record t {
  beef_hex = some beef;
  raw_hex = none;
  block_hash = some info.block_hash;
  block_height = some (pos (sdk.height_of bump));
  tx_status = mined;
}

confirm-ok :
    (sdk : Sdk) (info : TxInfo) (t : TrackedTransaction) (bump : sdk.MerklePath)
    (root beef : String) (tx : sdk.Transaction)
    → sdk.path_from_hex info.merkle_path ≡ some bump
    → sdk.compute_root bump info.tx_id ≡ some root
    → info.block_height ≡ pos (sdk.height_of bump)
    → IsRead sdk t tx
    → sdk.to_beef_hex (sdk.with_merkle_path tx bump) ≡ some beef
    → confirm sdk info t ≡ ok (confirmed_row sdk info bump beef t)
unfolding confirm parse_merkle_path set_mined
confirm-ok sdk info t bump root beef tx path rooted height read encoded = rw path (
    rw rooted (
      rw height (
        rw (same_height (sdk.height_of bump)) (rw (parse-IsRead sdk t tx read) (rw encoded refl)))))

-- A callback that says mined is applied, when the database works, the callback names a stored transaction
-- that was not updated after it, its merkle path is read, gives a root for the transaction and has the
-- callback's height, and the transaction is read from its stored form and printed with the path: the
-- handler succeeds, the stored row is the one it was but for the callback's block and height, the status,
-- the printed BEEF form without a raw one and the time, and the transaction has no input sources left.
pub handle_applies :
    (sdk : Sdk) (w : Weather) (info : TxInfo) (db : Database) (t : TrackedTransaction)
    (bump : sdk.MerklePath) (root beef : String) (tx : sdk.Transaction)
    → info.tx_id ≢ ""
    → w.get_fails ≡ false
    → w.update_fails ≡ false
    → find info.tx_id db.transactions ≡ some t
    → t.updated_at ≤ info.timestamp
    → info.status ≡ mined_on_chain
    → sdk.path_from_hex info.merkle_path ≡ some bump
    → sdk.compute_root bump info.tx_id ≡ some root
    → info.block_height ≡ pos (sdk.height_of bump)
    → IsRead sdk t tx
    → sdk.to_beef_hex (sdk.with_merkle_path tx bump) ≡ some beef
    → let (r, after) = handle sdk w info db in
      (r ≡ ok tt)
      × (find info.tx_id after.transactions
          ≡ some (record t {
            tx_status = mined;
            block_hash = some info.block_hash;
            block_height = some info.block_height;
            beef_hex = some beef;
            raw_hex = none;
            updated_at = w.now;
          }))
      × (filter (λ i. i.tx_id =? info.tx_id) after.tx_inputs ≡ [])
unfolding get_transaction is_problematic is_mined written
handle_applies sdk w info db t bump root beef tx named g u f fresh says path rooted height read
      encoded =
    let t' = confirmed_row sdk info bump beef t in
    let got : get_transaction w db info.tx_id ≡ ok t = rw g (rw f refl) in
    let np : is_problematic info.status ≡ false = rw says refl in
    let m : is_mined info.status ≡ true = rw says refl in
    let in_time : ltb info.timestamp t.updated_at ≡ false = ground arith in
    let not_empty : (info.tx_id =? "") ≡ false = ground (arith, =?_iff info.tx_id "") in
    let whole =
      handle-confirmed sdk w info db t t' not_empty got u in_time np m
        (confirm-ok sdk info t bump root beef tx path rooted height read encoded) in
    let own : t.id ≡ info.tx_id = find-id info.tx_id db.transactions t f in
    let row = find_own-set_row w.now t' db.transactions t info.tx_id own f in
    rw whole (refl, rw height row, none_left t'.id info.tx_id own db.tx_inputs)
