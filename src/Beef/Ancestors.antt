-- ===== src/Beef/Ancestors.antt =====
-- The rows that the search finds, against the stored ancestors.
use mathlib.Core.Path.{subst}
use spv_wallet.Prelude.{
  ℕ, zero, suc, ◌+◌, ◌<◌, ◌≤◌, ◌≡◌, refl, sym, ap, ◌∙◌, ◌⊎◌, inl, inr, ◌↔◌, Bool, true, false,
  String, List, [], ◌∷◌, ◌++◌, map, if◌then◌else◌, length, In, In-filter, filter-In, In-append,
  append-In_left, append-In_right, Bool-cases, arith,
}
use spv_wallet.Prelude.Results.{Result, ok, err, ◌>>=◌}
use spv_wallet.Tx.Model.{TrackedTransaction}
use spv_wallet.Tx.Repository.{Database}
use spv_wallet.Beef.Search.{
  SearchError, query_failed, to_tx_query_result, has_beef_hex, is_member, filter_visited, rows_in,
  source_ids, next_batch, query_input_sources_batch, find_transaction_input_sources,
}
use spv_wallet.Beef.Visits.{
  filter_visited_lem, unvisited, unvisited_lt, IsClosed, next_batch_lem, next_batch_inv,
}

-- The stored rows of the ids, and the stored sources of such rows that are raw.
pub data IsAncestor (db : Database) (ids : List String) : TrackedTransaction → Type 0 where
  of_input :
      (t : TrackedTransaction)
      → In t db.transactions
      → is_member t.id ids ≡ true
      → IsAncestor db ids t
  of_source :
      (r t : TrackedTransaction)
      → IsAncestor db ids r
      → has_beef_hex r ≡ false
      → In t db.transactions
      → is_member t.id (source_ids db.tx_inputs r) ≡ true
      → IsAncestor db ids t

module _ (db : Database) (base : List String) where
  abbrev AllAncestors : List TrackedTransaction → Type 0
  AllAncestors rows = (r : TrackedTransaction) → In r rows → IsAncestor db base r

  -- The stored rows of the ids are ancestors.
  abbrev LeadsTo : List String → Type 0
  LeadsTo ids =
      (t : TrackedTransaction)
      → In t db.transactions
      → is_member t.id ids ≡ true
      → IsAncestor db base t

  rows_in_lem :
      (ids v : List String) (t : TrackedTransaction)
      → In t (rows_in (filter_visited ids v).0 db.transactions)
      → In t db.transactions
        × (is_member t.id ids ≡ true)
        × (is_member t.id v ≡ false)
        × (is_member t.id (filter_visited ids v).1 ≡ true)
  unfolding rows_in
  rows_in_lem ids v t i =
      let (stored, member) = In-filter _ db.transactions t i in
      let (kept, all) = filter_visited_lem ids v t.id in
      (stored, ground arith, ground arith, ground arith)

  rows_in-In :
      (ids v : List String) (t : TrackedTransaction)
      → In t db.transactions
      → is_member t.id ids ≡ true
      → In t (rows_in (filter_visited ids v).0 db.transactions) ⊎ (is_member t.id v ≡ true)
  unfolding rows_in
  rows_in-In ids v t i m =
      let (kept, all) = filter_visited_lem ids v t.id in
      elim (Bool-cases (is_member t.id v)) [
        | inl old ↦ inr old
        | inr new ↦ inl (filter-In _ db.transactions t i (ground arith))
      ]

  next-LeadsTo :
      (ids v : List String)
      → LeadsTo ids
      → LeadsTo (next_batch db.tx_inputs (rows_in (filter_visited ids v).0 db.transactions))
  next-LeadsTo ids v h t i m =
      let (r, in_r, raw, k) = next_batch_inv db _ t.id m in
      let (stored, member, _, _) = rows_in_lem ids v r in_r in
      of_source r t (h r stored member) raw i k

  -- The rows of a batch, with those of the batches after it.
  IsClosed-append :
      (ids v : List String) (rest : List TrackedTransaction)
      → (let rows = rows_in (filter_visited ids v).0 db.transactions in
          IsClosed db (next_batch db.tx_inputs rows) (filter_visited ids v).1 rest
          → IsClosed db ids v (rows ++ rest))
  unfolding IsClosed
  IsClosed-append ids v rest (of_ids, of_rows) = (
    λ t i m. elim (rows_in-In ids v t i m) [
      | inl j ↦ inl (append-In_left t _ rest j)
      | inr old ↦ inr old
    ],
    λ r t in_r raw i m. elim (In-append r _ rest in_r) [
      | inl j ↦ place t i (of_ids t i (next_batch_lem db _ r t.id j raw m))
      | inr j ↦ place t i (of_rows r t j raw i m)
    ],
  )
    where
      place :
          (t : TrackedTransaction)
          → In t db.transactions
          → In t rest ⊎ (is_member t.id (filter_visited ids v).1 ≡ true)
          → In t (rows_in (filter_visited ids v).0 db.transactions ++ rest)
            ⊎ (is_member t.id v ≡ true)
      place t i (inl j) = inl (append-In_right t _ rest j)
      place t i (inr all) =
          let (kept, both) = filter_visited_lem ids v t.id in
          elim (Bool-cases (is_member t.id v)) [
            | inl old ↦ inr old
            | inr new ↦ elim (rows_in-In ids v t i (ground arith)) [
              | inl j ↦ inl (append-In_left t _ rest j)
              | inr old ↦ inr old
            ]
          ]

module _ (fails : List String → Bool) (db : Database) (base : List String)
    (up : (ids : List String) → fails ids ≡ false) where
  -- The rows of the batches, which explain the ids.
  abbrev Finds : ℕ → List String → List String → Type 0
  Finds fuel ids v =
      (rows : List TrackedTransaction) × (query_input_sources_batch fails db fuel ids v ≡ ok rows)
      × IsClosed db ids v rows
      × AllAncestors db base rows

  empty_batch-Finds : (fuel : ℕ) (v : List String) → 0 < fuel → Finds fuel [] v
  unfolding query_input_sources_batch IsClosed
  empty_batch-Finds zero v h = absurd (omega arith)
  empty_batch-Finds (suc fuel) v h =
      ([], refl, (λ t i m. cc, λ r t in_r. absurd in_r), λ r i. absurd i)

  extends_batch :
      (filtered : List String) (next : Result SearchError (List TrackedTransaction))
      (rows rest : List TrackedTransaction)
      → next ≡ ok rest
      → (filtered ≡ [] → rows ++ rest ≡ [])
      → elim filtered [
        | [] ↦ ok []
        | first ∷ more ↦
            if fails (first ∷ more)
            then err query_failed
            else (next >>= λ results. ok (rows ++ results))
      ]
        ≡ ok (rows ++ rest)
  extends_batch [] next rows rest found empty = rw (empty refl) refl
  extends_batch (first ∷ more) next rows rest found empty = rw (up (first ∷ more), found) refl

  rows_in_nothing : (rows : List TrackedTransaction) → rows_in [] rows ≡ []
  unfolding rows_in
  rows_in_nothing [] = refl
  rows_in_nothing (t ∷ rows) = rows_in_nothing rows

  nothing_found :
      (fuel : ℕ) (v : List String) (rest : List TrackedTransaction)
      → query_input_sources_batch fails db fuel [] v ≡ ok rest
      → rest ≡ []
  unfolding query_input_sources_batch
  nothing_found zero v rest h = cc
  nothing_found (suc fuel) v rest h = cc

  batch-Finds :
      (fuel : ℕ) (id : String) (ids v : List String)
      → LeadsTo db base (id ∷ ids)
      → Finds fuel
          (next_batch db.tx_inputs (rows_in (filter_visited (id ∷ ids) v).0 db.transactions))
          (filter_visited (id ∷ ids) v).1
      → Finds (suc fuel) (id ∷ ids) v
  unfolding query_input_sources_batch next_batch
  batch-Finds fuel id ids v leads (rest, found, closed, all) = (
    rows_in (filter_visited (id ∷ ids) v).0 db.transactions ++ rest,
    extends_batch (filter_visited (id ∷ ids) v).0 _ _ rest found λ none_left.
        let no_rows =
          ap (λ f. rows_in f db.transactions) none_left ∙ rows_in_nothing db.transactions in
        ap (λ rows. rows ++ rest) no_rows
        ∙ nothing_found fuel (filter_visited (id ∷ ids) v).1 rest (
            ap
              (λ rows.
                query_input_sources_batch fails db fuel (next_batch db.tx_inputs rows)
                  (filter_visited (id ∷ ids) v).1)
              (sym no_rows)
            ∙ found),
    IsClosed-append db base (id ∷ ids) v rest closed,
    λ r i. elim (In-append r _ rest i) [
      | inl j ↦
          let (stored, member, _, _) = rows_in_lem db base (id ∷ ids) v r j in leads r stored member
      | inr j ↦ all r j
    ],
  )

  -- A round that finds rows leaves fewer rows that are not visited.
  query-Finds :
      (fuel : ℕ) (ids v : List String)
      → 2 + unvisited v db.transactions ≤ fuel
      → LeadsTo db base ids
      → Finds fuel ids v
  unfolding next_batch
  query-Finds zero ids v h leads = absurd (omega arith)
  query-Finds (suc fuel) [] v h leads = empty_batch-Finds (suc fuel) v (omega arith)
  query-Finds (suc fuel) (id ∷ ids) v h leads = batch-Finds fuel id ids v leads (
      next (λ ids' w. query-Finds fuel ids' w)
        (rows_in (filter_visited (id ∷ ids) v).0 db.transactions) refl)
    where
      next :
          ((ids' w : List String)
            → 2 + unvisited w db.transactions ≤ fuel
            → LeadsTo db base ids'
            → Finds fuel ids' w)
          → (rows : List TrackedTransaction)
          → rows ≡ rows_in (filter_visited (id ∷ ids) v).0 db.transactions
          → Finds fuel (next_batch db.tx_inputs rows) (filter_visited (id ∷ ids) v).1
      next again [] e = empty_batch-Finds fuel (filter_visited (id ∷ ids) v).1 (omega arith)
      next again (t ∷ rows) e =
          let (stored, member, new, old) =
            rows_in_lem db base (id ∷ ids) v t (subst (λ l. In t l) e (inl refl)) in
          let less =
            unvisited_lt v (filter_visited (id ∷ ids) v).1 t db.transactions
              (λ x m. let (kept, all) = filter_visited_lem (id ∷ ids) v x in ground arith) stored
              new old in
          again (next_batch db.tx_inputs (t ∷ rows)) (filter_visited (id ∷ ids) v).1 (omega arith) (
            subst (λ l. LeadsTo db base (next_batch db.tx_inputs l)) (sym e)
              (next-LeadsTo db base (id ∷ ids) v leads))

  unvisited_all : (rows : List TrackedTransaction) → unvisited [] rows ≡ length rows
  unfolding unvisited
  unvisited_all [] = refl
  unvisited_all (t ∷ rows) = ap suc (unvisited_all rows)

only : {A : Type 0} → A ⊎ (false ≡ true) → A
only (inl a) = a
only (inr e) = cc

ancestor-In :
    (db : Database) (ids : List String) (rows : List TrackedTransaction)
    → IsClosed db ids [] rows
    → (t : TrackedTransaction) → IsAncestor db ids t
    → In t rows
unfolding IsClosed
ancestor-In db ids rows closed _ (of_input t i m) = only (closed.0 t i m)
ancestor-In db ids rows closed _ (of_source r t a raw i m) =
    only (closed.1 r t (ancestor-In db ids rows closed r a) raw i m)

-- Where no query fails, the search for the sources of some ids returns, and the transactions it
-- returns are exactly the ancestors of the ids: the stored rows of the ids, and the stored rows that
-- are input sources of a row among them that has no BEEF.
pub find_sources_iff :
    (fails : List String → Bool) (db : Database) (ids : List String)
    → ((l : List String) → fails l ≡ false)
    → (rows : List TrackedTransaction) × (find_transaction_input_sources fails db ids
        ≡ ok (map to_tx_query_result rows))
      × ((t : TrackedTransaction) → In t rows ↔ IsAncestor db ids t)
unfolding find_transaction_input_sources IsClosed
find_sources_iff fails db ids up =
    let (rows, found, closed, all) =
      query-Finds fails db ids up (2 + length db.transactions) ids []
        (rw (unvisited_all fails db ids up db.transactions) (omega arith))
        (λ t i m. of_input t i m) in
    (rows, rw found refl, λ t. (all t, ancestor-In db ids rows closed t))
