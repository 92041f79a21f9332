-- ===== src/Beef/Search.antt =====
-- The search for the input sources of a transaction in repository/transactions.go. It is recursive; a
-- round is a unit of fuel.
use spv_wallet.Prelude.{
  ℕ, zero, suc, ◌+◌, Bool, true, false, String, Option, List, [], ◌∷◌, ◌++◌, map, ◌=?◌,
  if◌then◌else◌, any, filter, is_some, length,
}
use spv_wallet.Prelude.Results.{Result, ok, err, ◌>>=◌}
use spv_wallet.Tx.Model.{TrackedTransaction}
use spv_wallet.Tx.Repository.{TxInput, Database}

pub data SearchError : Type 0 where
  query_failed out_of_fuel : SearchError

-- `TxQueryResult`
pub record TxQueryResult : Type 0 where
  pub source_tx_id : String
  pub raw_hex : Option String
  pub beef_hex : Option String

-- `ToTxQueryResult`
unfoldable pub to_tx_query_result : TrackedTransaction → TxQueryResult
to_tx_query_result t = record { source_tx_id = t.id; raw_hex = t.raw_hex; beef_hex = t.beef_hex }

-- `HasBeefHex`
abbrev pub has_beef_hex : TrackedTransaction → Bool
has_beef_hex t = is_some t.beef_hex

-- The id is among the ids, as in `isNotVisited` and in `id IN (?)`.
abbrev pub is_member : String → List String → Bool
is_member id ids = any (λ v. v =? id) ids

-- The ids that are not visited yet, and the visited ones with them.
unfoldable pub filter_visited : List String → List String → List String × List String
filter_visited [] visited = ([], visited)
filter_visited (id ∷ ids) visited = elim (is_member id visited) [
  | true ↦ filter_visited ids visited
  | false ↦
      let (filtered, visited') = filter_visited ids (id ∷ visited) in (id ∷ filtered, visited')
]

-- `id IN (?)`
unfoldable pub rows_in : List String → List TrackedTransaction → List TrackedTransaction
rows_in ids rows = filter (λ t. is_member t.id ids) rows

-- The rows of the preload of `SourceTxInputs`.
unfoldable pub source_ids : List TxInput → TrackedTransaction → List String
source_ids inputs t = map (λ (i : TxInput). i.source_tx_id) (filter (λ i. i.tx_id =? t.id) inputs)

unfoldable pub next_batch : List TxInput → List TrackedTransaction → List String
next_batch inputs [] = []
next_batch inputs (row ∷ rows) =
    (if has_beef_hex row then [] else source_ids inputs row) ++ next_batch inputs rows

-- The queries that fail are told by their ids.
module _ (fails : List String → Bool) (db : Database) where
  -- `queryInputSourcesBatch`
  unfoldable pub query_input_sources_batch :
      ℕ → List String → List String → Result SearchError (List TrackedTransaction)
  query_input_sources_batch zero ids visited = err out_of_fuel
  query_input_sources_batch (suc fuel) [] visited = ok []
  query_input_sources_batch (suc fuel) (id ∷ ids) visited =
      let (filtered, visited') = filter_visited (id ∷ ids) visited in
      let rows = rows_in filtered db.transactions in
      let next = query_input_sources_batch fuel (next_batch db.tx_inputs rows) visited' in
      elim filtered [
        | [] ↦ ok []
        | first ∷ more ↦
            if fails (first ∷ more)
            then err query_failed
            else (next >>= λ results. ok (rows ++ results))
      ]

  -- `FindTransactionInputSources`; each round but the last two finds a row that was not visited.
  unfoldable pub find_transaction_input_sources :
      List String → Result SearchError (List TxQueryResult)
  find_transaction_input_sources ids =
      query_input_sources_batch (2 + length db.transactions) ids [] >>= λ rows.
      ok (map to_tx_query_result rows)
