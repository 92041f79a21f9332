-- ===== src/Beef/Resolver.antt =====
-- source_transaction_resolver.go and beef_service.go. A transaction of the go-sdk is its id and its inputs; the
-- pointers that the resolver sets make a tree of sources, and those of a transaction that was parsed
-- from BEEF are part of it. The recursion follows the ids of the map, and a level is a unit of fuel.
use spv_wallet.Prelude.{
  ℕ, zero, suc, Bool, true, false, not, String, Option, none, some, List, [], ◌∷◌, ◌=?◌,
  if◌then◌else◌,
}
use spv_wallet.Prelude.Results.{Result, ok, err, ◌>>=◌, ◌>>◌, or_fail, fail_if, wrap}
use spv_wallet.Beef.Search.{TxQueryResult, SearchError}

-- A pointer to an input, and its source id, may be nil.
pub data Input : Type 0 where
  nil_input no_source_id : Input
  spends : String → Input

-- A transaction of the go-sdk.
pub record Transaction : Type 0 where
  pub tx_id : String
  pub inputs : List Input

pub data BeefError : Type 0 where
  nil_subject_tx zero_input_count missing_input_source_tx_id database_failed : BeefError
  invalid_beef_hex invalid_raw_hex bad_query_result_type : BeefError
  nil_transaction_input input_source_tx_id_not_found invalid_transaction_input : BeefError
  scripts_failed beef_hex_failed panicked too_deep : BeefError

pub record SourceTx : Type 0 where
  pub tx : Transaction
  pub had_beef : Bool

-- A Go map with the last entry first.
abbrev pub SourceTxMap : Type 0
SourceTxMap = List (String × SourceTx)

-- A source transaction, with the sources of its inputs where it was raw.
mutual
  pub data Source : Type 0 where
    of_beef : Transaction → Source
    of_raw : Transaction → Sources → Source

  pub data Sources : Type 0 where
    no_sources : Sources
    source_then : Source → Sources → Sources

-- What the go-sdk offers.
pub record Sdk : Type 0 where
  pub from_beef_hex : String → Option Transaction
  pub from_hex : String → Option Transaction
  pub verify_scripts : Source → Bool
  pub beef_hex : Transaction → Sources → Option String

-- `Value`
unfoldable pub value : SourceTxMap → String → Option SourceTx
value [] id = none
value ((k, s) ∷ m) id = if k =? id then some s else value m id

module _ (sdk : Sdk) where
  -- `Add`
  unfoldable pub source_tx : TxQueryResult → Result BeefError SourceTx
  source_tx q = elim q.beef_hex [
    | some hex ↦ or_fail (sdk.from_beef_hex hex) invalid_beef_hex >>= λ tx.
        ok (record { tx = tx; had_beef = true })
    | none ↦ elim q.raw_hex [
      | some hex ↦ or_fail (sdk.from_hex hex) invalid_raw_hex >>= λ tx.
          ok (record { tx = tx; had_beef = false })
      | none ↦ err bad_query_result_type
    ]
  ]

  -- The loop of `SourceTxMap`.
  unfoldable pub source_tx_map : SourceTxMap → List TxQueryResult → Result BeefError SourceTxMap
  source_tx_map m [] = ok m
  source_tx_map m (q ∷ qs) = do s ← source_tx q; source_tx_map ((q.source_tx_id, s) ∷ m) qs

  -- `resolveRecursive`; a source id that is nil is a nil pointer.
  unfoldable pub resolve_recursive : SourceTxMap → ℕ → List Input → Result BeefError Sources
  resolve_recursive m fuel [] = ok no_sources
  resolve_recursive m fuel (nil_input ∷ inputs) = err nil_transaction_input
  resolve_recursive m fuel (no_source_id ∷ inputs) = err panicked
  resolve_recursive m zero (spends id ∷ inputs) = err too_deep
  resolve_recursive m (suc fuel) (spends id ∷ inputs) = do
    s ← or_fail (value m id) input_source_tx_id_not_found
    source ←
        if s.had_beef
        then ok (of_beef s.tx)
        else (resolve_recursive m fuel s.tx.inputs >>= λ sources. ok (of_raw s.tx sources))
    rest ← resolve_recursive m (suc fuel) inputs
    ok (source_then source rest)

  -- The check of the scripts in `Resolve`.
  unfoldable pub verify_sources : Sources → Result BeefError (Unit {0})
  verify_sources no_sources = ok tt
  verify_sources (source_then s rest) =
      fail_if (not (sdk.verify_scripts s)) scripts_failed >> verify_sources rest

  -- `Resolve`
  unfoldable pub resolve : SourceTxMap → ℕ → Transaction → Result BeefError Sources
  resolve m fuel subject = do
    sources ← resolve_recursive m fuel subject.inputs
    verify_sources sources
    ok sources

  unfoldable pub ids_of : List Input → Result BeefError (List String)
  ids_of [] = ok []
  ids_of (nil_input ∷ inputs) = err panicked
  ids_of (no_source_id ∷ inputs) = err missing_input_source_tx_id
  ids_of (spends id ∷ inputs) = ids_of inputs >>= λ ids. ok (id ∷ ids)

  -- `extractSourceTXIDs`
  unfoldable pub extract_source_tx_ids : Transaction → Result BeefError (List String)
  extract_source_tx_ids tx = elim tx.inputs [
    | [] ↦ err zero_input_count
    | input ∷ inputs ↦ ids_of (input ∷ inputs)
  ]

  -- `PrepareBEEF`; the repository is the argument.
  unfoldable pub prepare_beef :
      (List String → Result SearchError (List TxQueryResult))
      → ℕ
      → Option Transaction
      → Result BeefError String
  prepare_beef find fuel none = err nil_subject_tx
  prepare_beef find fuel (some tx) = do
    ids ← extract_source_tx_ids tx
    results ← wrap (λ e. database_failed) (find ids)
    m ← source_tx_map [] results
    sources ← resolve m fuel tx
    or_fail (sdk.beef_hex tx sources) beef_hex_failed
