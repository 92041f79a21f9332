-- ===== src/Utxo/Size.antt =====
-- The size of a transaction with no inputs, in
-- engine/v2/transaction/outlines/utxo/internal/sql/calculate_size.go.
use spv_wallet.Prelude.{ℕ, ◌+◌, List, [], ◌∷◌, length}

-- `sdk.TransactionOutput`; a locking script is a list of bytes.
pub record TransactionOutput : Type 0 where
  pub satoshis : ℕ
  pub locking_script : List ℕ

-- What the selector calls of the go-sdk.
pub record Sdk : Type 0 where
  pub total_output_satoshis : List TransactionOutput → ℕ
  pub var_int_length : ℕ → ℕ

abbrev pub tx_envelope_size : ℕ
tx_envelope_size = 8

module _ (var_int_size : ℕ → ℕ) where
  -- The loop of `outputsSize`.
  unfoldable pub outputs_size_from : ℕ → List TransactionOutput → ℕ
  outputs_size_from size [] = size
  outputs_size_from size (out ∷ outputs) =
      outputs_size_from
        (size + 8 + (var_int_size (length out.locking_script) + length out.locking_script)) outputs

  unfoldable pub outputs_size : List TransactionOutput → ℕ
  outputs_size outputs = outputs_size_from (0 + var_int_size (length outputs)) outputs

  unfoldable pub output_only_tx_size : List TransactionOutput → ℕ
  output_only_tx_size outputs = 0 + tx_envelope_size + var_int_size 0 + outputs_size outputs
