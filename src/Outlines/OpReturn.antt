-- ===== src/Outlines/OpReturn.antt =====
-- An output that holds data: output_op_return.go, with the decoding of hexadecimal texts that it
-- takes from the standard library.
use spv_wallet.Prelude.{
  ℕ, ◌+◌, ◌-◌, ◌*◌, Bool, true, false, ◌&&◌, Option, none, some, List, [], ◌∷◌, leb, if◌then◌else◌,
}
use spv_wallet.Prelude.Results.{Result, ok, err, ◌>>=◌, ◌>>◌, or_fail, fail_if, wrap}
use spv_wallet.Record.Outputs.{OutputAnnotation, data_bucket}
use spv_wallet.Outlines.Model.{
  OutlineError, data_required, decode_hex_failed, unsupported_data_type, data_too_large,
  op_return_failed, OpReturnError, part_too_big, other_error, Env, DataType, strings, hexes,
  unsupported, OpReturn, AnnotatedOutputs, single_annotated_output,
}

-- The value of a hexadecimal digit, of either case.
unfoldable pub hex_digit : ℕ → Option ℕ
hex_digit c =
    if leb 48 c && leb c 57
    then some (c - 48)
    else if leb 97 c && leb c 102
    then some (c - 87)
    else if leb 65 c && leb c 70
    then some (c - 55)
    else none

-- `hex.DecodeString`
unfoldable pub decode_hex : List ℕ → Option (List ℕ)
decode_hex [] = some []
decode_hex (c ∷ []) = none
decode_hex (c ∷ d ∷ rest) = elim (hex_digit c) [
  | none ↦ none
  | some high ↦ elim (hex_digit d) [
    | none ↦ none
    | some low ↦ elim (decode_hex rest) [
      | none ↦ none
      | some bytes ↦ some ((high * 16 + low) ∷ bytes)
    ]
  ]
]

unfoldable pub to_bytes : List ℕ → DataType → Result OutlineError (List ℕ)
to_bytes bytes strings = ok bytes
to_bytes bytes hexes = or_fail (decode_hex bytes) decode_hex_failed
to_bytes bytes unsupported = err unsupported_data_type

-- `OpReturn.getData`
unfoldable pub get_data : DataType → List (List ℕ) → Result OutlineError (List (List ℕ))
get_data type [] = ok []
get_data type (item ∷ items) = do
  bytes ← to_bytes item type
  rest ← get_data type items
  ok (bytes ∷ rest)

abbrev pub new_data_output_annotation : OutputAnnotation
new_data_output_annotation = record {
  bucket = data_bucket;
  paymail = none;
  custom_instructions = none;
}

abbrev pub op_return_error : OpReturnError → OutlineError
op_return_error part_too_big = data_too_large
op_return_error other_error = op_return_failed

abbrev pub is_nil : List (List ℕ) → Bool
is_nil [] = true
is_nil (x ∷ xs) = false

-- `OpReturn.evaluate`
unfoldable pub evaluate_op_return : Env → OpReturn → Result OutlineError AnnotatedOutputs
evaluate_op_return env o = do
  fail_if (is_nil o.items) data_required
  parts ← get_data o.data_type o.items
  output ← wrap op_return_error (env.op_return_output parts)
  ok (single_annotated_output output new_data_output_annotation)
