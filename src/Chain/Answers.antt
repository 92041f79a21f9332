-- ===== src/Chain/Answers.antt =====
-- What a broadcast sends, and what it is told, when it succeeds.
use spv_wallet.Prelude.{
  ◌≡◌, ◌≢◌, refl, sym, ap, inl, inr, ◌⊎◌, ◌↔◌, Bool, true, false, String, Option, none, some, List,
  [], ◌∷◌, ◌++◌, ◌==◌, ◌=?◌, =?_iff, In-append, append-In_left, append-In_right, Bool-cases, arith,
  In, if◌then◌else◌,
}
use spv_wallet.Prelude.Results.{Result, ok, err, bind-ok, ok_injective}
use spv_wallet.Tx.Model.{TxInfo, is_problematic}
use spv_wallet.Chain.Broadcast.{
  ArcError, unreachable, internal, Conversion, converted, interrupted, conversion_failed, Response,
  Reply, answered, net_error, other_error, ArcConfig, Callback, prepare_tx_hex, prepare_arc_request,
  set_callback_headers, set_wait_for_header, read_response, broadcast,
}

abbrev Header : Type 0
Header = String × String

-- The body of the request: the extended format, or the raw form where the conversion fails.
abbrev pub IsBody : Conversion → String → String → Type 0
IsBody conversion raw body =
    (conversion ≡ converted body) ⊎ ((conversion ≡ conversion_failed) × (body ≡ raw))

-- A header of a text that is not empty.
abbrev pub IsGiven : String → String → String × String → Type 0
IsGiven name text h = (h ≡ (name, text)) × (text ≢ "")

abbrev pub IsOfCallback : Option Callback → String × String → Type 0
IsOfCallback none h = ⊥
IsOfCallback (some cb) h =
    IsGiven "X-CallbackUrl" cb.url h ⊎ (IsGiven "X-CallbackToken" cb.token h × (cb.url ≢ ""))

-- The headers of the request that the configuration asks for.
abbrev pub IsHeader : ArcConfig → String × String → Type 0
IsHeader config h =
    (((h ≡ ("Content-Type", "application/json"))
        ⊎ (IsGiven "Authorization" config.token h
            ⊎ IsGiven "XDeployment-ID" config.deployment_id h))
      ⊎ IsOfCallback config.callback h)
    ⊎ IsGiven "X-WaitFor" config.wait_for h

In-IsGiven :
    (name text : String) (h : Header)
    → In h (if text =? "" then [] else (name, text) ∷ []) ↔ IsGiven name text h
In-IsGiven name text h = elim (Bool-cases (text =? "")) [
  | inl none_given ↦
      rw none_given (λ i. absurd i, λ g. absurd (g.1 ((=?_iff text "").0 none_given)))
  | inr given ↦ rw given (
    λ i. elim i [ inl e ↦ (e, λ q. clash ((=?_iff text "").1 q) given) | inr j ↦ absurd j ],
    λ g. inl g.0,
  )
]
  where
    clash : {b : Bool} → b ≡ true → b ≡ false → ⊥
    clash p q = cc

In-callback :
    (config : ArcConfig) (h : Header)
    → In h (set_callback_headers config) ↔ IsOfCallback config.callback h
unfolding set_callback_headers
In-callback config h = of_callback config.callback
  where
    clash : {b : Bool} → b ≡ true → b ≡ false → ⊥
    clash p q = cc

    of_callback :
        (o : Option Callback)
        → In h (elim o [
          | none ↦ []
          | some cb ↦
              if cb.url =? ""
              then []
              else ("X-CallbackUrl", cb.url)
                ∷ (if cb.token =? "" then [] else ("X-CallbackToken", cb.token) ∷ [])
        ])
          ↔ IsOfCallback o h
    of_callback none = (λ i. i, λ i. i)
    of_callback (some cb) = elim (Bool-cases (cb.url =? "")) [
      | inl no_url ↦
          let empty : cb.url ≡ "" = (=?_iff cb.url "").0 no_url in
          rw no_url
            (λ i. absurd i, λ g. elim g [ inl q ↦ absurd (q.1 empty) | inr q ↦ absurd (q.1 empty) ])
      | inr url ↦
          let not_empty : cb.url ≢ "" = λ q. clash ((=?_iff cb.url "").1 q) url in
          rw url (
            λ i. elim i [
              | inl e ↦ inl (e, not_empty)
              | inr j ↦ inr ((In-IsGiven "X-CallbackToken" cb.token h).0 j, not_empty)
            ],
            λ g. elim g [
              | inl q ↦ inl q.0
              | inr q ↦ inr ((In-IsGiven "X-CallbackToken" cb.token h).1 q.0)
            ],
          )
    ]

In-both :
    (xs ys : List Header) (h : Header) {P Q : Type 0}
    → In h xs ↔ P
    → In h ys ↔ Q
    → In h (xs ++ ys) ↔ (P ⊎ Q)
In-both xs ys h p q = (
  λ i. elim (In-append h xs ys i) [ inl j ↦ inl (p.0 j) | inr j ↦ inr (q.0 j) ],
  λ s. elim s [ inl j ↦ append-In_left h xs ys (p.1 j) | inr j ↦ append-In_right h xs ys (q.1 j) ],
)

-- The headers of a request.
abbrev headers_of : ArcConfig → List Header
headers_of config =
    prepare_arc_request config ++ set_callback_headers config ++ set_wait_for_header config

In-headers_of : (config : ArcConfig) (h : Header) → In h (headers_of config) ↔ IsHeader config h
unfolding prepare_arc_request set_wait_for_header
In-headers_of config h =
    let given =
      In-both (if config.token =? "" then [] else ("Authorization", config.token) ∷ [])
        (if config.deployment_id =? "" then [] else ("XDeployment-ID", config.deployment_id) ∷ []) h
        (In-IsGiven "Authorization" config.token h)
        (In-IsGiven "XDeployment-ID" config.deployment_id h) in
    let first : In h (prepare_arc_request config) ↔ (
        (h ≡ ("Content-Type", "application/json"))
        ⊎ (IsGiven "Authorization" config.token h
            ⊎ IsGiven "XDeployment-ID" config.deployment_id h)) =
      (
        λ i. elim i [ inl e ↦ inl e | inr j ↦ inr (given.0 j) ],
        λ i. elim i [ inl e ↦ inl e | inr j ↦ inr (given.1 j) ],
      ) in
    let second =
      In-both (prepare_arc_request config) (set_callback_headers config) h first
        (In-callback config h) in
    In-both (prepare_arc_request config ++ set_callback_headers config) (set_wait_for_header config)
      h second (In-IsGiven "X-WaitFor" config.wait_for h)

prepare_tx_hex-IsBody :
    (conversion : Conversion) (raw hex : String)
    → prepare_tx_hex conversion raw ≡ ok hex
    → IsBody conversion raw hex
unfolding prepare_tx_hex
prepare_tx_hex-IsBody (converted ef) raw hex h = inl (ap converted (ok_injective h))
prepare_tx_hex-IsBody interrupted raw hex h = cc
prepare_tx_hex-IsBody conversion_failed raw hex h = inr (refl, sym (ok_injective h))

read_response-ok :
    (r : Response) (info : TxInfo)
    → read_response r ≡ ok info
    → (r.status_code ≡ 200) × (r.info ≡ info) × (is_problematic info.status ≡ false)
unfolding read_response
read_response-ok r info h = elim (Bool-cases (r.status_code == 200)) [
  | inr other ↦ let k = rw other at h in cc
  | inl good ↦ elim (Bool-cases (is_problematic r.info.status)) [
    | inl bad ↦ let k = rw (good, bad) at h in cc
    | inr fine ↦
        let same = ok_injective (rw (good, fine) at h) in (ground arith, same, rw (sym same) fine)
  ]
]

-- Where a broadcast returns information on a transaction: a request was sent with the extended format,
-- or with the raw form where the conversion failed (and never where it was interrupted); its headers are
-- the type of its content, and the tokens, the callback and the status to wait for that the configuration
-- gives, and no others; the service answered with status 200 and this information, and the status of the
-- transaction is not problematic.
pub broadcast-ok :
    (config : ArcConfig) (post : List (String × String) → String → Reply) (conversion : Conversion)
    (raw : String) (info : TxInfo)
    → broadcast config post conversion raw ≡ ok info
    → (headers : List (String × String)) × (body : String) × (response : Response) × (post headers
          body
        ≡ answered response)
      × ((h : String × String) → In h headers ↔ IsHeader config h)
      × IsBody conversion raw body
      × (response.status_code ≡ 200)
      × (response.info ≡ info)
      × (is_problematic info.status ≡ false)
unfolding broadcast
broadcast-ok config post conversion raw info h =
    let (hex, prepared, k) = bind-ok (prepare_tx_hex conversion raw) _ info h in
    let (response, replied, good) = of_reply (post (headers_of config) hex) k in
    (
      headers_of config,
      hex,
      response,
      replied,
      In-headers_of config,
      prepare_tx_hex-IsBody conversion raw hex prepared,
      good.0,
      good.1,
      good.2,
    )
  where
    of_reply :
        (reply : Reply)
        → let r : Result ArcError TxInfo = elim reply [
          | answered response ↦ read_response response
          | net_error ↦ err unreachable
          | other_error ↦ err internal
        ] in
          r ≡ ok info
          → (response : Response) × (reply ≡ answered response)
            × ((response.status_code ≡ 200)
                × (response.info ≡ info)
                × (is_problematic info.status ≡ false))
    of_reply (answered response) k = (response, refl, read_response-ok response info k)
    of_reply net_error k = cc
    of_reply other_error k = cc
