-- ===== src/Ledger/Backing.antt =====
-- The table of UTXOs against the tracked outputs that are not spent, through the save of rows.
use spv_wallet.Prelude.{
  ◌≡◌, ◌≢◌, refl, ap, ◌∙◌, sym, ◌⊎◌, inl, inr, Bool, true, false, not, String, Option, none, some,
  List, [], ◌∷◌, ◌++◌, =?_iff, filter, In, In-filter, filter-In, In-append, append-In_left,
  append-In_right, Bool-cases, Option-cases, arith,
}
use spv_wallet.Bsv.{Outpoint, same_outpoint}
use spv_wallet.Utxo.{Utxo, outpoint_of}
use spv_wallet.Record.Model.{TrackedOutput}
use spv_wallet.Ledger.Tables.{OperationRow, Tables, TransactionRows, output_outpoint, is_among}
use spv_wallet.Ledger.Save.{mark_spent, unstored, insert_outputs, after_create, save_rows}

-- The row stands for the output.
abbrev pub StandsFor : Utxo → TrackedOutput → Type 0
StandsFor u o =
    (outpoint_of u ≡ output_outpoint o) × (u.user_id ≡ o.user_id) × (u.satoshis ≡ o.satoshis)

-- Each UTXO stands for a tracked output that is not spent, and each such output has a UTXO.
abbrev pub IsBacked : List Utxo → List TrackedOutput → Type 0
IsBacked utxos outputs =
    ((u : Utxo)
      → In u utxos
      → (o : TrackedOutput) × In o outputs × (o.spending_tx ≡ "") × StandsFor u o)
    × ((o : TrackedOutput)
        → In o outputs
        → o.spending_tx ≡ ""
        → (u : Utxo) × In u utxos × StandsFor u o)

-- The rows of a transaction that the tables do not know yet: its id is not empty, no stored output
-- and no input is of it, and its outputs are of it and have their UTXOs.
abbrev pub IsFresh : TransactionRows → List TrackedOutput → Type 0
IsFresh t stored =
    (t.row.id ≢ "")
    × ((o : TrackedOutput) → In o stored → o.tx_id ≢ t.row.id)
    × ((o : TrackedOutput) → In o t.inputs → o.tx_id ≢ t.row.id)
    × ((o : TrackedOutput) → In o t.outputs → o.tx_id ≡ t.row.id)
    × IsBacked t.new_utxos t.outputs

same_outpoint_refl : (p : Outpoint) → same_outpoint p p ≡ true
same_outpoint_refl p = ground (arith, =?_iff p.tx_id p.tx_id)

pub is_among-In :
    (o : TrackedOutput) (l : List TrackedOutput) → In o l → is_among (output_outpoint o) l ≡ true
is_among-In o [] i = absurd i
is_among-In o (x ∷ l) (inl e) =
    let same = rw e at (same_outpoint_refl (output_outpoint o)) in
    rw e (rw (same_outpoint_refl (output_outpoint x)) refl)
is_among-In o (x ∷ l) (inr i) = let ih = is_among-In o l i in ground arith

is_among-other :
    (p : Outpoint) (l : List TrackedOutput)
    → ((o : TrackedOutput) → In o l → o.tx_id ≢ p.tx_id)
    → is_among p l ≡ false
is_among-other p [] h = refl
is_among-other p (x ∷ l) h =
    let ih = is_among-other p l (λ o i. h o (inr i)) in
    let n = h x (inl refl) in ground (arith, =?_iff x.tx_id p.tx_id)

mark_spent-kept :
    (id : String) (inputs rows : List TrackedOutput) (o : TrackedOutput)
    → In o rows
    → is_among (output_outpoint o) inputs ≡ false
    → In o (mark_spent id inputs rows)
unfolding mark_spent
mark_spent-kept id inputs [] o i n = i
mark_spent-kept id inputs (x ∷ rows) o (inl e) n =
    let m : is_among (output_outpoint x) inputs ≡ false = rw e at n in rw m (inl e)
mark_spent-kept id inputs (x ∷ rows) o (inr i) n = inr (mark_spent-kept id inputs rows o i n)

mark_spent-unspent :
    (id : String) (inputs rows : List TrackedOutput) (o : TrackedOutput)
    → id ≢ ""
    → In o (mark_spent id inputs rows)
    → o.spending_tx ≡ ""
    → In o rows × (is_among (output_outpoint o) inputs ≡ false)
unfolding mark_spent
mark_spent-unspent id inputs [] o n i s = absurd i
mark_spent-unspent id inputs (x ∷ rows) o n (inr i) s =
    let (j, m) = mark_spent-unspent id inputs rows o n i s in (inr j, m)
mark_spent-unspent id inputs (x ∷ rows) o n (inl e) s =
    elim (Bool-cases (is_among (output_outpoint x) inputs)) [
      | inl among ↦
          let marked : o ≡ record x { spending_tx = id } = rw among at e in
          absurd (n (sym (ap TrackedOutput.spending_tx marked) ∙ s))
      | inr other ↦ let same : o ≡ x = rw other at e in (inl same, rw same other)
    ]

mark_spent-tx_id :
    (id key : String) (inputs rows : List TrackedOutput)
    → ((o : TrackedOutput) → In o rows → o.tx_id ≢ key)
    → (o : TrackedOutput) → In o (mark_spent id inputs rows)
    → o.tx_id ≢ key
unfolding mark_spent
mark_spent-tx_id id key inputs [] h o i = absurd i
mark_spent-tx_id id key inputs (x ∷ rows) h o (inr i) =
    mark_spent-tx_id id key inputs rows (λ r j. h r (inr j)) o i
mark_spent-tx_id id key inputs (x ∷ rows) h o (inl e) =
    elim (Bool-cases (is_among (output_outpoint x) inputs)) [
      | inl among ↦
          let marked : o ≡ record x { spending_tx = id } = rw among at e in
          λ q. h x (inl refl) (sym (ap TrackedOutput.tx_id marked) ∙ q)
      | inr other ↦
          let same : o ≡ x = rw other at e in
          λ q. h x (inl refl) (sym (ap TrackedOutput.tx_id same) ∙ q)
    ]

-- The outputs before the new ones: those stored and the inputs that are not.
module _ (t : TransactionRows) (stored : List TrackedOutput) (fresh : IsFresh t stored) where
  abbrev marked : List TrackedOutput
  marked = mark_spent t.row.id t.inputs (stored ++ unstored stored t.inputs)

  marked-tx_id : (o : TrackedOutput) → In o marked → o.tx_id ≢ t.row.id
  unfolding unstored
  marked-tx_id =
      mark_spent-tx_id t.row.id t.row.id t.inputs (stored ++ unstored stored t.inputs) (λ o i.
        elim (In-append o stored (unstored stored t.inputs) i) [
          | inl j ↦ fresh.1 o j
          | inr j ↦ fresh.2 o (In-filter _ t.inputs o j).0
        ])

  not_among :
      (p : Outpoint) (l : List TrackedOutput)
      → p.tx_id ≡ t.row.id
      → ((o : TrackedOutput) → In o l → o.tx_id ≢ t.row.id)
      → is_among p l ≡ false
  not_among p l e h = is_among-other p l (λ o i q. h o i (q ∙ e))

  new-In : (o : TrackedOutput) → In o t.outputs → In o (insert_outputs t stored)
  unfolding insert_outputs unstored
  new-In o i = append-In_right o marked (unstored marked t.outputs) (
      filter-In (λ (x : TrackedOutput). not (is_among (output_outpoint x) marked)) t.outputs o i
        (ap not (not_among (output_outpoint o) marked (fresh.3 o i) marked-tx_id)))

  stored-In :
      (o : TrackedOutput)
      → In o stored
      → is_among (output_outpoint o) t.inputs ≡ false
      → In o (insert_outputs t stored)
  unfolding insert_outputs
  stored-In o i n = append-In_left o marked (unstored marked t.outputs) (
      mark_spent-kept t.row.id t.inputs (stored ++ unstored stored t.inputs) o
        (append-In_left o stored (unstored stored t.inputs) i) n)

  unspent_cases :
      (o : TrackedOutput)
      → In o (insert_outputs t stored)
      → o.spending_tx ≡ ""
      → (In o stored × (is_among (output_outpoint o) t.inputs ≡ false)) ⊎ In o t.outputs
  unfolding insert_outputs unstored
  unspent_cases o i s = elim (In-append o marked (unstored marked t.outputs) i) [
    | inr j ↦ inr (In-filter _ t.outputs o j).0
    | inl j ↦
        let (k, n) =
          mark_spent-unspent t.row.id t.inputs (stored ++ unstored stored t.inputs) o fresh.0 j s in
        elim (In-append o stored (unstored stored t.inputs) k) [
          | inl l ↦ inl (l, n)
          | inr l ↦
              let among = is_among-In o t.inputs (In-filter _ t.inputs o l).0 in
              absurd (clash among n)
        ]
  ]
    where
      clash : {b : Bool} → b ≡ true → b ≡ false → ⊥
      clash a b = cc

  kept : List Utxo → List Utxo
  kept utxos = filter (λ (u : Utxo). not (is_among (outpoint_of u) t.inputs)) (utxos ++ t.new_utxos)

  utxo_backed :
      (utxos : List Utxo)
      → IsBacked utxos stored
      → (u : Utxo) → In u (kept utxos)
      → (o : TrackedOutput) × In o (insert_outputs t stored) × (o.spending_tx ≡ "") × StandsFor u o
  unfolding kept
  utxo_backed utxos b u i =
      let (j, n) = In-filter _ (utxos ++ t.new_utxos) u i in
      let free : is_among (outpoint_of u) t.inputs ≡ false = ground arith in
      elim (In-append u utxos t.new_utxos j) [
        | inl k ↦
            let (o, in_o, s, stands) = b.0 u k in
            (
              o,
              stored-In o in_o (sym (ap (λ (p : Outpoint). is_among p t.inputs) stands.0) ∙ free),
              s,
              stands,
            )
        | inr k ↦ let (o, in_o, s, stands) = fresh.4.0 u k in (o, new-In o in_o, s, stands)
      ]

  output_backed :
      (utxos : List Utxo)
      → IsBacked utxos stored
      → (o : TrackedOutput) → In o (insert_outputs t stored)
      → o.spending_tx ≡ ""
      → (u : Utxo) × In u (kept utxos) × StandsFor u o
  unfolding kept
  output_backed utxos b o i s = elim (unspent_cases o i s) [
    | inl (j, n) ↦
        let (u, in_u, stands) = b.1 o j s in
        let free : is_among (outpoint_of u) t.inputs ≡ false =
          ap (λ (p : Outpoint). is_among p t.inputs) stands.0 ∙ n in
        (
          u,
          filter-In _ (utxos ++ t.new_utxos) u (append-In_left u utxos t.new_utxos in_u)
              (ap not free),
          stands,
        )
    | inr j ↦
        let (u, in_u, stands) = fresh.4.1 o j s in
        let free : is_among (outpoint_of u) t.inputs ≡ false =
          ap (λ (p : Outpoint). is_among p t.inputs) stands.0
          ∙ not_among (output_outpoint o) t.inputs (fresh.3 o j) fresh.2 in
        (
          u,
          filter-In _ (utxos ++ t.new_utxos) u (append-In_right u utxos t.new_utxos in_u)
              (ap not free),
          stands,
        )
  ]

after_create-is_filter :
    (t : TransactionRows) (utxos l : List Utxo)
    → after_create t utxos ≡ some l
    → l ≡ filter (λ (u : Utxo). not (is_among (outpoint_of u) t.inputs)) (utxos ++ t.new_utxos)
unfolding after_create
after_create-is_filter t utxos l h = ground arith

-- When the rows of a fresh transaction are saved to tables whose UTXOs are exactly the outputs that
-- are not spent, then the UTXOs are exactly these outputs again.
pub save_rows-IsBacked :
    (t : TransactionRows) (ops : List OperationRow) (db db' : Tables)
    → IsFresh t db.outputs
    → IsBacked db.utxos db.outputs
    → save_rows t ops db ≡ some db'
    → IsBacked db'.utxos db'.outputs
unfolding save_rows kept
save_rows-IsBacked t ops db db' fresh b h = elim (Option-cases (after_create t db.utxos)) [
  | inl failed ↦ let clash : none ≡ some db' = rw (failed, save_rows) at h in cc
  | inr (utxos, done) ↦
      let e = some_injective (rw (done, save_rows) at h) in
      let left = after_create-is_filter t db.utxos utxos done in
      rw (← e) (
        rw left
          (utxo_backed t db.outputs fresh db.utxos b, output_backed t db.outputs fresh db.utxos b))
]
  where
    some_injective : {a b : Tables} → ◌≡◌ {A = Option Tables} (some a) (some b) → a ≡ b
    some_injective e = cc

-- After a save no UTXO is at the outpoint of an input.
pub save_rows-spent :
    (t : TransactionRows) (ops : List OperationRow) (db db' : Tables)
    → save_rows t ops db ≡ some db'
    → (u : Utxo) → In u db'.utxos
    → is_among (outpoint_of u) t.inputs ≡ false
unfolding save_rows
save_rows-spent t ops db db' h u i = elim (Option-cases (after_create t db.utxos)) [
  | inl failed ↦ let clash : none ≡ some db' = rw (failed, save_rows) at h in cc
  | inr (utxos, done) ↦
      let e = utxos_of (rw (done, save_rows) at h) in
      let j : In u utxos = rw (← e) at i in
      let k = rw (after_create-is_filter t db.utxos utxos done) at j in
      let free = (In-filter _ (db.utxos ++ t.new_utxos) u k).1 in ground arith
]
  where
    utxos_of : {a b : Tables} → ◌≡◌ {A = Option Tables} (some a) (some b) → a.utxos ≡ b.utxos
    utxos_of k = cc
