-- ===== src/Record/Outputs.antt =====
-- The outputs that the annotations of an outline speak of: paymail.go, custom_outputs.go and
-- op_return.go. The annotations are a list in the order in which the range statement visits them.
use spv_wallet.Prelude.{
  ℕ, zero, suc, Bool, true, false, not, ◌&&◌, ◌||◌, String, Option, none, some, List, [], ◌∷◌, ◌++◌,
  ◌=?◌, ◌==◌, if◌then◌else◌, any, get_elem?, length, ltb, leb, is_none,
}
use spv_wallet.Prelude.Int.{pos}
use spv_wallet.Prelude.Results.{Result, ok, err, ◌>>=◌, ◌>>◌, or_fail, fail_if, wrap}
use spv_wallet.Bsv.{CustomInstructions}
use spv_wallet.Conv.{int_to_uint32}
use spv_wallet.Record.Model.{
  RecordError, multi_recipients, no_pub_key, bad_instructions, wrong_address, annotation_mismatch,
  parsing_script, only_push_data, index_out_of_range, panicked, Chunk, Script, Transaction,
  NewOutput, new_output_for_data, add,
}
use spv_wallet.Record.Addresses.{Addresses, contains, remove}
use spv_wallet.Record.Flow.{
  Env, Flow, operation_of_user, change_operation, add_outputs, new_output_at,
}

-- `bucket.Name`
pub data Bucket : Type 0 where
  bsv_bucket data_bucket : Bucket
  other_bucket : String → Bucket

pub record PaymailAnnotation : Type 0 where
  pub receiver : String
  pub reference : String
  pub sender : String

pub record OutputAnnotation : Type 0 where
  pub bucket : Bucket
  pub paymail : Option PaymailAnnotation
  pub custom_instructions : Option CustomInstructions

abbrev pub OutputsAnnotations : Type 0
OutputsAnnotations = List (ℕ × OutputAnnotation)

pub record PaymailInfo : Type 0 where
  pub annotation : Option PaymailAnnotation
  pub vouts : List ℕ
  pub skip_notification : Bool

unfoldable pub new_paymail_info : PaymailInfo
new_paymail_info = record { annotation = none; vouts = []; skip_notification = false }

abbrev pub equals_to_annotation : PaymailAnnotation → PaymailAnnotation → Bool
equals_to_annotation a b =
    (a.receiver =? b.receiver) && (a.reference =? b.reference) && (a.sender =? b.sender)

-- `paymailInfo.add`
unfoldable pub add_paymail : ℕ → PaymailAnnotation → PaymailInfo → Result RecordError PaymailInfo
add_paymail vout a info = elim info.annotation [
  | none ↦ ok (record info { annotation = some a; vouts = vout ∷ info.vouts })
  | some b ↦
      if not (equals_to_annotation b a)
      then err multi_recipients
      else ok (record info { annotation = some a; vouts = vout ∷ info.vouts })
]

unfoldable pub has_vout : ℕ → PaymailInfo → Bool
has_vout vout info = elim info.annotation [
  | none ↦ false
  | some a ↦ any (λ v. v == vout) info.vouts
]

unfoldable pub sender_of : PaymailInfo → String
sender_of info = elim info.annotation [ none ↦ "" | some a ↦ a.sender ]

unfoldable pub receiver_of : PaymailInfo → String
receiver_of info = elim info.annotation [ none ↦ "" | some a ↦ a.receiver ]

unfoldable pub reference_of : PaymailInfo → String
reference_of info = elim info.annotation [ none ↦ "" | some a ↦ a.reference ]

abbrev pub is_bsv : Bucket → Bool
is_bsv bsv_bucket = true
is_bsv b = false

abbrev pub is_data_bucket : Bucket → Bool
is_data_bucket data_bucket = true
is_data_bucket b = false

-- One annotation of the loop of `processPaymailOutputs`.
unfoldable pub visit_paymail : ℕ → OutputAnnotation → PaymailInfo → Result RecordError PaymailInfo
visit_paymail vout a info = elim a.paymail [
  | none ↦ ok info
  | some p ↦ if not (is_bsv a.bucket) then ok info else add_paymail vout p info
]

unfoldable pub paymail_outputs_from :
    OutputsAnnotations → PaymailInfo → Result RecordError PaymailInfo
paymail_outputs_from [] info = ok info
paymail_outputs_from ((vout, a) ∷ rest) info =
    (visit_paymail vout a info >>= λ next. paymail_outputs_from rest next)

-- `processPaymailOutputs`
unfoldable pub process_paymail_outputs : OutputsAnnotations → Result RecordError PaymailInfo
process_paymail_outputs annotations = do
  info ← paymail_outputs_from annotations new_paymail_info
  ok (if is_none info.annotation then record info { skip_notification = true } else info)

-- The address of an annotated output, and the output: the body of `annotatedOutputs`.
unfoldable pub annotated_output :
    Env
    → Flow
    → String
    → Addresses
    → ℕ
    → CustomInstructions
    → Result RecordError (String × NewOutput)
annotated_output env f user addrs vout instructions = do
  key ← or_fail (env.pub_key user) no_pub_key
  address ← or_fail (env.interpret key instructions) bad_instructions
  fail_if (not (contains address vout addrs)) wrong_address
  output ← new_output_at f vout user instructions
  ok (address, output)

-- A user's incoming output: the operation and the row.
unfoldable pub receive : String → NewOutput → Flow → Result RecordError Flow
receive sender output f = do
  operations ←
      change_operation (add output.satoshis) output.user_id
        (operation_of_user output.user_id "incoming" sender f.operations)
  ok (add_outputs (output ∷ []) (record f { operations = operations }))

-- The loop over the custom outputs in `RecordTransactionOutline`.
unfoldable pub custom_outputs :
    Env
    → String
    → String
    → OutputsAnnotations
    → Flow
    → Addresses
    → Result RecordError (Flow × Addresses)
custom_outputs env user sender [] f addrs = ok (f, addrs)
custom_outputs env user sender ((vout, a) ∷ rest) f addrs = elim a.custom_instructions [
  | none ↦ custom_outputs env user sender rest f addrs
  | some instructions ↦
      (annotated_output env f user addrs vout instructions >>= λ p. receive sender p.1 f >>= λ next.
      custom_outputs env user sender rest next (remove p.0 p.1.vout addrs))
]

abbrev pub op_return : ℕ
op_return = 106

abbrev pub op_pushdata4 : ℕ
op_pushdata4 = 78

unfoldable pub drop_chunks : ℕ → List Chunk → Option (List Chunk)
drop_chunks zero chunks = some chunks
drop_chunks (suc n) [] = none
drop_chunks (suc n) (c ∷ chunks) = drop_chunks n chunks

unfoldable pub pushed_bytes : List Chunk → Result RecordError (List ℕ)
pushed_bytes [] = ok []
pushed_bytes (c ∷ chunks) = do
  fail_if (ltb op_pushdata4 c.op || (c.op == 0)) only_push_data
  rest ← pushed_bytes chunks
  ok (c.data_bytes ++ rest)

-- The chunks after `OP_RETURN` or `OP_FALSE OP_RETURN`; `chunks[0]` panics on an empty script.
unfoldable pub payload : List Chunk → Result RecordError (List ℕ)
payload [] = err panicked
payload (c ∷ chunks) = do
  rest ← or_fail (drop_chunks (if c.op == op_return then 1 else 2) (c ∷ chunks)) panicked
  pushed_bytes rest

-- `getDataFromOpReturn`
unfoldable pub get_data_from_op_return : Script → Result RecordError (List ℕ)
get_data_from_op_return script = do
  fail_if (not script.is_data) annotation_mismatch
  chunks ← or_fail script.chunks parsing_script
  payload chunks

unfoldable pub data_output : Transaction → String → ℕ → Result RecordError NewOutput
data_output tx user vout = do
  len32 ← wrap (λ e. index_out_of_range) (int_to_uint32 (pos (length tx.outputs)))
  fail_if (leb len32 vout) index_out_of_range
  output ← or_fail (get_elem? tx.outputs vout) panicked
  bytes ← get_data_from_op_return output.locking_script
  ok (new_output_for_data (record { tx_id = tx.tx_id; vout = vout }) user bytes)

-- `processDataOutputs`
unfoldable pub process_data_outputs :
    Transaction → String → OutputsAnnotations → Result RecordError (List NewOutput)
process_data_outputs tx user [] = ok []
process_data_outputs tx user ((vout, a) ∷ rest) =
    if not (is_data_bucket a.bucket)
    then process_data_outputs tx user rest
    else (data_output tx user vout >>= λ output.
        process_data_outputs tx user rest >>= λ outputs. ok (output ∷ outputs))
