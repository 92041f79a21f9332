-- ===== src/Ledger/Rows.antt =====
-- The table of UTXOs after a save, and what the selector picks from it later.
use spv_wallet.Prelude.{
  ℕ, ◌≡◌, ◌≢◌, refl, ap, ◌∙◌, sym, inl, inr, Bool, true, false, ◌||◌, String, Option, none, some,
  List, [], ◌∷◌, ◌++◌, map, In, In-append, append-In_left, append-In_right, Option-cases,
}
use spv_wallet.Prelude.Results.{ok}
use spv_wallet.Bsv.{Outpoint, same_outpoint}
use spv_wallet.Utxo.{Utxo, Composer, Faults, outpoint_of, select_inputs_for_transaction}
use spv_wallet.Utxo.Join.{HasUniqueOutpoints}
use spv_wallet.Utxo.Funding.{rows_of}
use spv_wallet.Utxo.Touch.{select_inputs-Owned}
use spv_wallet.Record.Model.{TrackedOutput, SpendableUtxo, NewOutput, NewTransaction, NewOperation}
use spv_wallet.Ledger.Tables.{
  Tables, TransactionRows, output_outpoint, is_among, new_utxo, create_utxo, create_data_output,
  add_output, add_all_outputs, map_transaction, map_operations,
}
use spv_wallet.Ledger.Save.{save_all}
use spv_wallet.Ledger.Backing.{
  IsBacked, StandsFor, is_among-In, save_rows-IsBacked, save_rows-spent,
}

-- The outputs so far are of the transaction, not spent, and have their UTXOs.
HasRows : String → TransactionRows → Type 0
HasRows id t =
    ((o : TrackedOutput) → In o t.outputs → o.tx_id ≡ id) × IsBacked t.new_utxos t.outputs

-- What the loop over the outputs leaves alone.
SameSource : TransactionRows → TransactionRows → Type 0
SameSource a b = (a.row ≡ b.row) × (a.inputs ≡ b.inputs)

IsBacked-add :
    (us : List Utxo) (os : List TrackedOutput) (u : Utxo) (o : TrackedOutput)
    → o.spending_tx ≡ ""
    → StandsFor u o
    → IsBacked us os
    → IsBacked (us ++ u ∷ []) (os ++ o ∷ [])
IsBacked-add us os u o s stands b = (from_utxo, from_output)
  where
    from_utxo :
        (v : Utxo)
        → In v (us ++ u ∷ [])
        → (p : TrackedOutput) × In p (os ++ o ∷ []) × (p.spending_tx ≡ "") × StandsFor v p
    from_utxo v i = elim (In-append v us (u ∷ []) i) [
      | inl j ↦ let (p, in_p, k, l) = b.0 v j in (p, append-In_left p os (o ∷ []) in_p, k, l)
      | inr (inl e) ↦ (o, append-In_right o os (o ∷ []) (inl refl), s, rw e stands)
      | inr (inr j) ↦ absurd j
    ]

    from_output :
        (p : TrackedOutput)
        → In p (os ++ o ∷ [])
        → p.spending_tx ≡ ""
        → (v : Utxo) × In v (us ++ u ∷ []) × StandsFor v p
    from_output p i k = elim (In-append p os (o ∷ []) i) [
      | inl j ↦ let (v, in_v, l) = b.1 p j k in (v, append-In_left v us (u ∷ []) in_v, l)
      | inr (inl e) ↦ (u, append-In_right u us (u ∷ []) (inl refl), rw e stands)
      | inr (inr j) ↦ absurd j
    ]

create_utxo-HasRows :
    (now : ℕ) (id bucket : String) (o : TrackedOutput) (utxo : SpendableUtxo) (t : TransactionRows)
    → o.tx_id ≡ id
    → o.spending_tx ≡ ""
    → HasRows id t
    → HasRows id (create_utxo now o bucket utxo t)
unfolding create_utxo new_utxo HasRows
create_utxo-HasRows now id bucket o utxo t e s h = (
  λ p i. elim (In-append p t.outputs (o ∷ []) i) [
    | inl j ↦ h.0 p j
    | inr (inl q) ↦ ap TrackedOutput.tx_id q ∙ e
    | inr (inr j) ↦ absurd j
  ],
  IsBacked-add t.new_utxos t.outputs _ o s (refl, refl, refl) h.1,
)

add_output-HasRows :
    (now : ℕ) (id : String) (o : NewOutput) (t : TransactionRows)
    → HasRows id t
    → HasRows id (add_output now id o t) × SameSource (add_output now id o t) t
unfolding add_output create_data_output create_utxo HasRows SameSource
add_output-HasRows now id o t h = elim (Option-cases o.utxo) [
  | inr (utxo, e) ↦
      rw (e, add_output) (create_utxo-HasRows now id o.bucket _ utxo t refl refl h, (refl, refl))
  | inl e ↦ rw (e, add_output) (of_bytes o.data_bytes)
]
  where
    of_bytes :
        (bytes : List ℕ)
        → let t' : TransactionRows = elim bytes [
          | [] ↦ t
          | b ∷ rest ↦
              create_data_output
                (record { tx_id = id; vout = o.vout; user_id = o.user_id; blob = b ∷ rest })
                t
        ] in
          HasRows id t' × SameSource t' t
    of_bytes [] = (h, (refl, refl))
    of_bytes (b ∷ rest) = (h, (refl, refl))

add_all_outputs-HasRows :
    (now : ℕ) (id : String) (outputs : List NewOutput) (t : TransactionRows)
    → HasRows id t
    → HasRows id (add_all_outputs now id outputs t)
      × SameSource (add_all_outputs now id outputs t) t
unfolding add_all_outputs SameSource
add_all_outputs-HasRows now id [] t h = (h, (refl, refl))
add_all_outputs-HasRows now id (o ∷ outputs) t h =
    let (rows, source) = add_output-HasRows now id o t h in
    let (all, same) = add_all_outputs-HasRows now id outputs (add_output now id o t) rows in
    (all, (same.0 ∙ source.0, same.1 ∙ source.1))

marked_inputs :
    (id key : String) (l : List TrackedOutput)
    → ((o : TrackedOutput) → In o l → o.tx_id ≢ key)
    → (o : TrackedOutput) → In o (map (λ (i : TrackedOutput). record i { spending_tx = id }) l)
    → o.tx_id ≢ key
marked_inputs id key [] h o i = absurd i
marked_inputs id key (x ∷ l) h o (inl e) = λ q. h x (inl refl) (sym (ap TrackedOutput.tx_id e) ∙ q)
marked_inputs id key (x ∷ l) h o (inr i) = marked_inputs id key l (λ r j. h r (inr j)) o i

refused : {db : Tables} → ◌≡◌ {A = Option Tables} none (some db) → ⊥
refused h = cc

-- When a recorded transaction with a nonempty id is saved, no stored output and no input of it has
-- its id, and the UTXOs are exactly the tracked outputs that are not spent, then this is so after
-- the save.
pub save_all-IsBacked :
    (now : ℕ) (t : NewTransaction) (ops : List NewOperation) (db db' : Tables)
    → t.id ≢ ""
    → ((o : TrackedOutput) → In o db.outputs → o.tx_id ≢ t.id)
    → ((o : TrackedOutput) → In o t.inputs → o.tx_id ≢ t.id)
    → IsBacked db.utxos db.outputs
    → save_all now t ops db ≡ some db'
    → IsBacked db'.utxos db'.outputs
unfolding save_all map_transaction HasRows SameSource
save_all-IsBacked now t [] db db' some_id new_id no_own b h = absurd (refused h)
save_all-IsBacked now t (op ∷ ops) db db' some_id new_id no_own b h =
    let (rows, source) =
      add_all_outputs-HasRows now t.id t.outputs _
        (λ o i. absurd i, (λ u i. absurd i, λ o i. absurd i)) in
    let id = ap (λ r. r.id) source.0 in
    save_rows-IsBacked (map_transaction now t) (map_operations t.id (op ∷ ops)) db db'
      (
        λ e. some_id (sym id ∙ e),
        λ o i e. new_id o i (e ∙ id),
        λ o i e. marked_inputs t.id t.id t.inputs no_own o (rw source.1 at i) (e ∙ id),
        λ o i. rows.0 o i ∙ sym id,
        rows.1,
      )
      b h

is_among-marked :
    (id : String) (p : Outpoint) (l : List TrackedOutput)
    → is_among p (map (λ (i : TrackedOutput). record i { spending_tx = id }) l) ≡ is_among p l
is_among-marked id p [] = refl
is_among-marked id p (x ∷ l) =
    ap (λ b. same_outpoint (output_outpoint x) p || b) (is_among-marked id p l)

-- After a save no UTXO is at the outpoint of an input of the transaction.
save_all-spent :
    (now : ℕ) (t : NewTransaction) (ops : List NewOperation) (db db' : Tables)
    → save_all now t ops db ≡ some db'
    → (u : Utxo) → In u db'.utxos
    → is_among (outpoint_of u) t.inputs ≡ false
unfolding save_all map_transaction HasRows SameSource
save_all-spent now t [] db db' h u i = absurd (refused h)
save_all-spent now t (op ∷ ops) db db' h u i =
    let (rows, source) =
      add_all_outputs-HasRows now t.id t.outputs _
        (λ o j. absurd j, (λ v j. absurd j, λ o j. absurd j)) in
    let free =
      save_rows-spent (map_transaction now t) (map_operations t.id (op ∷ ops)) db db' h u i in
    sym (is_among-marked t.id (outpoint_of u) t.inputs)
    ∙ ap (is_among (outpoint_of u)) (sym source.1)
    ∙ free

-- When a recorded transaction with a nonempty id is saved, no stored output and no input of it has its id,
-- the UTXOs were exactly the tracked outputs that are not spent, and no outpoint stands in two UTXOs after
-- the save: then no row that a later selection returns is at the outpoint of an input of the transaction,
-- and each stands for a tracked output of the user that is not spent.
pub saved_inputs_not_selected :
    (now : ℕ) (t : NewTransaction) (ops : List NewOperation) (db db' : Tables)
    (text_leb : String → String → Bool) (c : Composer) (faults : Faults) (later : ℕ)
    (rows : List (Utxo × ℕ)) (r : Utxo)
    → t.id ≢ ""
    → ((o : TrackedOutput) → In o db.outputs → o.tx_id ≢ t.id)
    → ((o : TrackedOutput) → In o t.inputs → o.tx_id ≢ t.id)
    → IsBacked db.utxos db.outputs
    → save_all now t ops db ≡ some db'
    → HasUniqueOutpoints db'.utxos
    → (select_inputs_for_transaction text_leb c faults later db'.utxos).0 ≡ ok rows
    → In r (rows_of rows)
    → ((i : TrackedOutput) → In i t.inputs → outpoint_of r ≢ output_outpoint i)
      × ((o : TrackedOutput) × In o db'.outputs
          × (o.spending_tx ≡ "")
          × (o.user_id ≡ c.user_id)
          × (outpoint_of r ≡ output_outpoint o)
          × (r.satoshis ≡ o.satoshis))
saved_inputs_not_selected now t ops db db' text_leb c faults later rows r some_id new_id no_own b
      saves unique h i =
    let backed = save_all-IsBacked now t ops db db' some_id new_id no_own b saves in
    let (in_table, owner) =
      select_inputs-Owned text_leb c faults later db'.utxos unique rows h r i in
    let (o, in_o, s, stands) = backed.0 r in_table in
    (
      λ x in_x e. clash (is_among-In x t.inputs in_x) (
          sym (ap (λ p. is_among p t.inputs) e) ∙ save_all-spent now t ops db db' saves r in_table),
      (o, in_o, s, sym stands.1 ∙ owner, stands.0, stands.2),
    )
  where
    clash : {b : Bool} → b ≡ true → b ≡ false → ⊥
    clash p q = cc
