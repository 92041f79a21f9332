-- ===== src/Tx/Model.antt =====
-- A tracked transaction and its methods: txmodels/tracked_transaction.go, txmodels/tx_status.go and
-- the callback of engine/chain/models. Times are numbers; the go-sdk library is the record `Sdk`.
use spv_wallet.Prelude.{ℕ, ◌==◌, Bool, true, false, String, Option, none, some}
use spv_wallet.Prelude.Int.{ℤ, pos, negsuc}
use spv_wallet.Prelude.Results.{Result, ok, err, or_fail, ◌>>=◌}

-- `TxStatus`; `reverted` is declared and never set.
pub data TxStatus : Type 0 where
  created broadcasted mined reverted problematic : TxStatus

-- `TXStatus` of the miners' service; `status_other` is any other text.
pub data ChainStatus : Type 0 where
  unknown queued received stored announced_to_network requested_by_network : ChainStatus
  sent_to_network accepted_by_network seen_in_orphan_mempool seen_on_network : ChainStatus
  double_spend_attempted rejected mined_on_chain : ChainStatus
  status_other : String → ChainStatus

unfoldable pub is_mined : ChainStatus → Bool
is_mined mined_on_chain = true
is_mined s = false

unfoldable pub is_problematic : ChainStatus → Bool
is_problematic rejected = true
is_problematic double_spend_attempted = true
is_problematic unknown = true
is_problematic seen_in_orphan_mempool = true
is_problematic s = false

-- `TXInfo`, without the field that the handler does not read.
pub record TxInfo : Type 0 where
  pub tx_id : String
  pub timestamp : ℕ
  pub status : ChainStatus
  pub block_hash : String
  pub block_height : ℤ
  pub merkle_path : String

pub record TrackedTransaction : Type 0 where
  pub id : String
  pub tx_status : TxStatus
  pub created_at : ℕ
  pub updated_at : ℕ
  pub block_height : Option ℤ
  pub block_hash : Option String
  pub beef_hex : Option String
  pub raw_hex : Option String

pub data TxError : Type 0 where
  empty_tx_id get_failed update_failed no_hex parse_failed beef_failed : TxError
  bad_merkle_path root_failed height_mismatch : TxError

-- What the go-sdk library offers: parsing and printing of transactions and of merkle paths.
pub record Sdk : Type 1 where
  pub Transaction : Type 0
  pub MerklePath : Type 0
  pub from_beef_hex : String → Option Transaction
  pub from_hex : String → Option Transaction
  pub with_merkle_path : Transaction → MerklePath → Transaction
  pub to_beef_hex : Transaction → Option String
  pub path_from_hex : String → Option MerklePath
  pub compute_root : MerklePath → String → Option String
  pub height_of : MerklePath → ℕ

infix 50 ◌=ℤ◌
abbrev pub ◌=ℤ◌ : ℤ → ℤ → Bool
pos a =ℤ pos b = a == b
negsuc a =ℤ negsuc b = a == b
a =ℤ b = false

module _ (sdk : Sdk) where
  open sdk use {
    Transaction, MerklePath, from_beef_hex, from_hex, with_merkle_path, to_beef_hex, path_from_hex,
    compute_root, height_of,
  }

  -- `TX`
  unfoldable pub parse : Option String → Option String → Result TxError Transaction
  parse (some beef) raw = or_fail (from_beef_hex beef) parse_failed
  parse none (some raw) = or_fail (from_hex raw) parse_failed
  parse none none = err no_hex

  -- `Mined`
  unfoldable pub set_mined :
      String → MerklePath → TrackedTransaction → Result TxError TrackedTransaction
  set_mined hash bump t = do
    tx ← parse t.beef_hex t.raw_hex
    beef ← or_fail (to_beef_hex (with_merkle_path tx bump)) beef_failed
    ok (record t {
      beef_hex = some beef;
      raw_hex = none;
      block_hash = some hash;
      block_height = some (pos (height_of bump));
      tx_status = mined;
    })

  -- `parseMerklePath`
  unfoldable pub parse_merkle_path : String → String → Result TxError MerklePath
  parse_merkle_path path tx_id = do
    bump ← or_fail (path_from_hex path) bad_merkle_path
    root ← or_fail (compute_root bump tx_id) root_failed
    ok bump
