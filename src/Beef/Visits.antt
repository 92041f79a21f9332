-- ===== src/Beef/Visits.antt =====
-- Lemmas on the visited ids and the batches of the search.
use spv_wallet.Prelude.{
  ℕ, ◌<◌, ◌≤◌, ◌≡◌, refl, ◌⊎◌, inl, inr, true, false, not, ◌&&◌, ◌||◌, String, List, [], ◌∷◌, ◌++◌,
  ◌=?◌, =?_iff, if◌then◌else◌, filter, length, In, Bool-cases, arith,
}
use spv_wallet.Tx.Model.{TrackedTransaction}
use spv_wallet.Tx.Repository.{Database}
use spv_wallet.Beef.Search.{has_beef_hex, is_member, filter_visited, source_ids, next_batch}

is_member-same :
    (x id : String) (v : List String) → (x =? id) ≡ true → is_member id v ≡ is_member x v
is_member-same x id v e = rw ((=?_iff x id).0 e) refl

-- The filter keeps the ids that are not visited, and all of them are visited then.
pub filter_visited_lem :
    (ids v : List String) (id : String)
    → (is_member id (filter_visited ids v).0 ≡ (is_member id ids && not (is_member id v)))
      × (is_member id (filter_visited ids v).1 ≡ (is_member id ids || is_member id v))
unfolding filter_visited
filter_visited_lem [] v id = (refl, refl)
filter_visited_lem (x ∷ ids) v id = elim (Bool-cases (is_member x v)) [
  | inl old ↦
      let (kept, all) = filter_visited_lem ids v id in
      let same = is_member-same x id v in rw (old, filter_visited) (ground arith, ground arith)
  | inr new ↦
      let (kept, all) = filter_visited_lem ids (x ∷ v) id in
      let same = is_member-same x id v in rw (new, filter_visited) (ground arith, ground arith)
]

-- The number of rows that are not visited.
unfoldable pub unvisited : List String → List TrackedTransaction → ℕ
unvisited v rows = length (filter (λ t. not (is_member t.id v)) rows)

pub unvisited_mono :
    (v w : List String) (rows : List TrackedTransaction)
    → ((id : String) → is_member id v ≡ true → is_member id w ≡ true)
    → unvisited w rows ≤ unvisited v rows
unfolding unvisited
unvisited_mono v w [] h = omega arith
unvisited_mono v w (t ∷ rows) h =
    let ih = unvisited_mono v w rows h in let k = h t.id in ground arith

pub unvisited_lt :
    (v w : List String) (t : TrackedTransaction) (rows : List TrackedTransaction)
    → ((id : String) → is_member id v ≡ true → is_member id w ≡ true)
    → In t rows
    → is_member t.id v ≡ false
    → is_member t.id w ≡ true
    → unvisited w rows < unvisited v rows
unfolding unvisited
unvisited_lt v w t [] h i new old = absurd i
unvisited_lt v w t (r ∷ rows) h (inl e) new old =
    let le = unvisited_mono v w rows h in rw (rw e at new, rw e at old) (omega arith)
unvisited_lt v w t (r ∷ rows) h (inr i) new old =
    let ih = unvisited_lt v w t rows h i new old in let k = h r.id in ground arith

module _ (db : Database) where
  -- The rows are closed: a row of the ids, and a row that a source of a raw row names, is among them
  -- or was visited.
  unfoldable pub IsClosed : List String → List String → List TrackedTransaction → Type 0
  IsClosed ids v rows =
      ((t : TrackedTransaction)
        → In t db.transactions
        → is_member t.id ids ≡ true
        → In t rows ⊎ (is_member t.id v ≡ true))
      × ((r t : TrackedTransaction)
          → In r rows
          → has_beef_hex r ≡ false
          → In t db.transactions
          → is_member t.id (source_ids db.tx_inputs r) ≡ true
          → In t rows ⊎ (is_member t.id v ≡ true))

  is_member-append :
      (id : String) (xs ys : List String)
      → is_member id (xs ++ ys) ≡ (is_member id xs || is_member id ys)
  is_member-append id [] ys = refl
  is_member-append id (x ∷ xs) ys = let ih = is_member-append id xs ys in ground arith

  -- The next ids are those that the raw rows name.
  pub next_batch_lem :
      (rows : List TrackedTransaction) (r : TrackedTransaction) (id : String)
      → In r rows
      → has_beef_hex r ≡ false
      → is_member id (source_ids db.tx_inputs r) ≡ true
      → is_member id (next_batch db.tx_inputs rows) ≡ true
  unfolding next_batch
  next_batch_lem [] r id i raw m = absurd i
  next_batch_lem (x ∷ rows) r id (inl e) raw m =
      let raw_x : has_beef_hex x ≡ false = rw e at raw in
      let m_x : is_member id (source_ids db.tx_inputs x) ≡ true = rw e at m in
      rw
        (raw_x, is_member-append id (source_ids db.tx_inputs x) (next_batch db.tx_inputs rows), m_x)
        refl
  next_batch_lem (x ∷ rows) r id (inr i) raw m =
      let ih = next_batch_lem rows r id i raw m in
      rw
        (
          is_member-append id (if has_beef_hex x then [] else source_ids db.tx_inputs x)
              (next_batch db.tx_inputs rows),
          ih,
        )
        (ground arith)

  pub next_batch_inv :
      (rows : List TrackedTransaction) (id : String)
      → is_member id (next_batch db.tx_inputs rows) ≡ true
      → (r : TrackedTransaction) × In r rows
        × (has_beef_hex r ≡ false)
        × (is_member id (source_ids db.tx_inputs r) ≡ true)
  unfolding next_batch
  next_batch_inv [] id m = cc
  next_batch_inv (x ∷ rows) id m = elim (Bool-cases (has_beef_hex x)) [
    | inl beef ↦ let (r, i, raw, k) = next_batch_inv rows id (rw beef at m) in (r, inr i, raw, k)
    | inr raw_x ↦
        let m' =
          rw (raw_x, is_member-append id (source_ids db.tx_inputs x) (next_batch db.tx_inputs rows))
            at m in
        elim (Bool-cases (is_member id (source_ids db.tx_inputs x))) [
          | inl here ↦ (x, inl refl, raw_x, here)
          | inr not_here ↦
              let (r, i, raw, k) = next_batch_inv rows id (rw not_here at m') in (r, inr i, raw, k)
        ]
  ]
