-- ===== src/Bsv.antt =====
-- The shared BSV values of models/bsv: fee units, outpoints and custom instructions.
use spv_wallet.Prelude.{ℕ, Bool, ◌&&◌, String, List, ◌=?◌, ◌==◌, ltb}

pub record CustomInstruction : Type 0 where
  pub kind : String  -- the field `Type`
  pub instruction : String

abbrev pub CustomInstructions : Type 0
CustomInstructions = List CustomInstruction

-- `Bytes` is an int that is never negative in a configuration or a policy.
pub record FeeUnit : Type 0 where
  pub satoshis : ℕ
  pub bytes : ℕ

abbrev pub is_zero : FeeUnit → Bool
is_zero f = f.satoshis == 0

abbrev pub is_valid : FeeUnit → Bool
is_valid f = ltb 0 f.bytes

pub record Outpoint : Type 0 where
  pub tx_id : String
  pub vout : ℕ

abbrev pub same_outpoint : Outpoint → Outpoint → Bool
same_outpoint a b = (a.tx_id =? b.tx_id) && (a.vout == b.vout)
