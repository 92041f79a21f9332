-- ===== src/Outlines/Model.antt =====
-- The specification of an outline, its outputs, and what the evaluation calls:
-- evaluation_context.go, interface.go and the types of output_specifications.go.
use spv_wallet.Prelude.{ℕ, suc, String, Option, List, [], ◌∷◌, map}
use spv_wallet.Prelude.Int.{pos}
use spv_wallet.Prelude.Results.{Result, ok, ◌>>=◌, wrap}
use spv_wallet.Bsv.{CustomInstructions}
use spv_wallet.Conv.{int_to_uint32}
use spv_wallet.Record.Outputs.{OutputAnnotation, OutputsAnnotations}
use spv_wallet.Utxo.{TransactionOutput}

pub data OutlineError : Type 0 where
  specification_required user_id_required at_least_one_output : OutlineError
  receiver_paymail_invalid sender_paymail_invalid no_default_sender paymail_check_failed :
      OutlineError
  output_value_too_low not_divisible_by_splits cannot_split : OutlineError
  host_response_error host_not_supporting_p2p host_invalid_response : OutlineError
  data_required decode_hex_failed unsupported_data_type data_too_large op_return_failed :
      OutlineError
  selection_failed insufficient_funds bad_source_tx_id add_change_failed beef_failed : OutlineError
  panicked : OutlineError

-- `paymail.PaymentOutput` and `paymail.PaymentDestinationPayload`
pub record PaymentOutput : Type 0 where
  pub satoshis : ℕ
  pub script : String

pub record Destinations : Type 0 where
  pub outputs : List PaymentOutput
  pub reference : String

-- What the repository answers to `HasPaymailAddress`.
pub data Ownership : Type 0 where
  owned not_owned unknown_paymail check_failed : Ownership

pub data OpReturnError : Type 0 where
  part_too_big other_error : OpReturnError

-- The paymail library and hosts, with the url in an address's capabilities (the empty text where there
-- is none) and the answer of the host there, the users' paymails and keys, and the go-sdk. `none` is an error.
pub record Env : Type 0 where
  pub sanitize : String → Option String
  pub p2p_destination_url : String → Option String
  pub host_destinations : String → String → ℕ → Option Destinations
  pub has_paymail : String → String → Ownership
  pub default_paymail : String → Option String
  pub script_from_hex : String → Option (List ℕ)
  pub op_return_output : List (List ℕ) → Result OpReturnError TransactionOutput
  pub hash_from_hex : String → Option String
  pub pub_key : String → Option String
  pub new_destination : String → Option (String × String)
  pub address_of : String → Option String
  pub lock : String → Option (List ℕ)

-- `Paymail`; the sender may be left out.
pub record Paymail : Type 0 where
  pub to : String
  pub satoshis : ℕ
  pub splits : ℕ
  pub from : Option String

-- `DataType`; other numbers are not supported.
pub data DataType : Type 0 where
  strings hexes unsupported : DataType

-- `OpReturn`; a Go string is a list of bytes.
pub record OpReturn : Type 0 where
  pub data_type : DataType
  pub items : List (List ℕ)

-- The implementations of `OutputSpec`.
pub data OutputSpec : Type 0 where
  paymail_output : Paymail → OutputSpec
  op_return_spec : OpReturn → OutputSpec

pub record TransactionSpec : Type 0 where
  pub outputs : List OutputSpec
  pub user_id : String

-- `annotatedOutput`
pub record AnnotatedOutput : Type 0 where
  pub annotation : OutputAnnotation
  pub output : TransactionOutput

abbrev pub AnnotatedOutputs : Type 0
AnnotatedOutputs = List AnnotatedOutput

unfoldable pub single_annotated_output : TransactionOutput → OutputAnnotation → AnnotatedOutputs
single_annotated_output out annotation = record { annotation = annotation; output = out } ∷ []

unfoldable pub to_transaction_outputs : AnnotatedOutputs → List TransactionOutput
to_transaction_outputs a = map (λ o. o.output) a

-- The loop of `annotatedOutputs.toAnnotations` from an index on; an index above 32 bits panics.
unfoldable pub annotations_from : ℕ → AnnotatedOutputs → Result OutlineError OutputsAnnotations
annotations_from index [] = ok []
annotations_from index (out ∷ rest) = do
  vout32 ← wrap (λ e. panicked) (int_to_uint32 (pos index))
  annotations ← annotations_from (suc index) rest
  ok ((vout32, out.annotation) ∷ annotations)

unfoldable pub to_annotations : AnnotatedOutputs → Result OutlineError OutputsAnnotations
to_annotations a = annotations_from 0 a

-- `sdk.TransactionInput` as the outline fills it, and the annotation of an input.
pub record OutlineInput : Type 0 where
  pub source_tx_id : String
  pub source_tx_out_index : ℕ
  pub sequence_number : ℕ

pub record AnnotatedInput : Type 0 where
  pub custom_instructions : CustomInstructions
  pub input : OutlineInput

abbrev pub default_sequence_number : ℕ
default_sequence_number = 4294967295

unfoldable pub input_annotations_from : ℕ → List AnnotatedInput → List (ℕ × CustomInstructions)
input_annotations_from index [] = []
input_annotations_from index (a ∷ rest) =
    (index, a.custom_instructions) ∷ input_annotations_from (suc index) rest

-- `sdk.Transaction` with the fields that the outline sets.
pub record OutlineTransaction : Type 0 where
  pub inputs : List OutlineInput
  pub outputs : List TransactionOutput

pub record Annotations : Type 0 where
  pub inputs : List (ℕ × CustomInstructions)
  pub outputs : OutputsAnnotations

-- `Transaction`, the outline that the client gets.
pub record Outline : Type 0 where
  pub hex : String
  pub annotations : Annotations
