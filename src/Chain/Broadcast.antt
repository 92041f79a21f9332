-- ===== src/Chain/Broadcast.antt =====
-- arc/broadcast.go and arc/request.go. The request is sent by a library, whose answer is a parameter.
use spv_wallet.Prelude.{
  ℕ, String, Option, none, some, List, [], ◌∷◌, ◌++◌, ◌=?◌, ◌==◌, ◌||◌, if◌then◌else◌,
}
use spv_wallet.Prelude.Results.{Result, ok, err, ◌>>=◌}
use spv_wallet.Tx.Model.{TxInfo, is_problematic}

pub data ArcError : Type 0 where
  ctx_interrupted unreachable internal problematic_status unauthorized : ArcError
  not_extended_format wrong_fee unprocessable : ArcError

-- The result of the converter to the extended format.
pub data Conversion : Type 0 where
  converted : String → Conversion
  interrupted conversion_failed : Conversion

-- An answer of the service: its status, and the information that a status of 200 has.
pub record Response : Type 0 where
  pub status_code : ℕ
  pub info : TxInfo

-- The end of a request: an answer, an error of the network, or another error.
pub data Reply : Type 0 where
  answered : Response → Reply
  net_error other_error : Reply

pub record Callback : Type 0 where
  pub url : String
  pub token : String

pub record ArcConfig : Type 0 where
  pub token : String
  pub deployment_id : String
  pub callback : Option Callback
  pub wait_for : String

-- The headers of `prepareARCRequest`.
unfoldable pub prepare_arc_request : ArcConfig → List (String × String)
prepare_arc_request config =
    ("Content-Type", "application/json")
      ∷ (if config.token =? "" then [] else ("Authorization", config.token) ∷ [])
    ++ (if config.deployment_id =? "" then [] else ("XDeployment-ID", config.deployment_id) ∷ [])

-- `prepareTxHex`; the raw form is the fallback.
unfoldable pub prepare_tx_hex : Conversion → String → Result ArcError String
prepare_tx_hex (converted ef) raw = ok ef
prepare_tx_hex interrupted raw = err ctx_interrupted
prepare_tx_hex conversion_failed raw = ok raw

unfoldable pub set_callback_headers : ArcConfig → List (String × String)
set_callback_headers config = elim config.callback [
  | none ↦ []
  | some cb ↦
      if cb.url =? ""
      then []
      else ("X-CallbackUrl", cb.url)
        ∷ (if cb.token =? "" then [] else ("X-CallbackToken", cb.token) ∷ [])
]

unfoldable pub set_wait_for_header : ArcConfig → List (String × String)
set_wait_for_header config =
    if config.wait_for =? "" then [] else ("X-WaitFor", config.wait_for) ∷ []

-- The errors in the switch over the status.
unfoldable pub error_of_status : ℕ → ArcError
error_of_status status =
    if (status == 401) || ((status == 403) || (status == 404))
    then unauthorized
    else if status == 460
    then not_extended_format
    else if (status == 465) || (status == 473)
    then wrong_fee
    else unprocessable

-- The switch over the status.
unfoldable pub read_response : Response → Result ArcError TxInfo
read_response r =
    if r.status_code == 200
    then (if is_problematic r.info.status then err problematic_status else ok r.info)
    else err (error_of_status r.status_code)

-- `Broadcast`; `post` takes the headers and the body.
unfoldable pub broadcast :
    ArcConfig
    → (List (String × String) → String → Reply)
    → Conversion
    → String
    → Result ArcError TxInfo
broadcast config post conversion raw = do
  hex ← prepare_tx_hex conversion raw
  let headers =
      prepare_arc_request config ++ set_callback_headers config ++ set_wait_for_header config
  elim (post headers hex) [
    | answered response ↦ read_response response
    | net_error ↦ err unreachable
    | other_error ↦ err internal
  ]
