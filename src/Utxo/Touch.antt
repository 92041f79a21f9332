-- ===== src/Utxo/Touch.antt =====
-- What the selection leaves in the table, and whose rows it returns.
use spv_wallet.Prelude.{
  ℕ, ◌≡◌, refl, ap, sym, ◌∙◌, inl, inr, Bool, String, List, [], ◌∷◌, map, arith, In, Option-cases,
  ◌=?◌, =?_iff, In-filter,
}
use spv_wallet.Prelude.Results.{ok, err}
use spv_wallet.Utxo.{
  Utxo, Composer, Faults, touch, utxos, change, min_change, choose_inputs, build,
  select_inputs_for_transaction, unexpected_error_during_inputs_selection,
}
use spv_wallet.Utxo.Join.{HasUniqueOutpoints, build-some, build-none}
use spv_wallet.Utxo.Funding.{rows_of, rows_of-with_change, result_rows}

abbrev pub untouched : Utxo → Utxo
untouched r = record r { touched_at = 0 }

touch_keeps :
    (now : ℕ) (selected table : List Utxo)
    → map untouched (touch now selected table) ≡ map untouched table
unfolding touch
touch_keeps now selected [] = refl
touch_keeps now selected (r ∷ table) = ground (arith, touch_keeps now selected table)

module _ (text_leb : String → String → Bool) (c : Composer) (db : Faults) (now : ℕ)
    (table : List Utxo) where
  abbrev pub after : List Utxo
  after = (select_inputs_for_transaction text_leb c db now table).1

  -- Whatever the database reports, the selection changes nothing in the table but `touched_at`,
  -- and after an error not even that.
  pub select_inputs_keeps :
      (map untouched after ≡ map untouched table)
      × ((select_inputs_for_transaction text_leb c db now table).0
            ≡ err unexpected_error_during_inputs_selection
          → after ≡ table)
  unfolding select_inputs_for_transaction
  select_inputs_keeps =
      (ground (arith, touch_keeps now (rows_of (build text_leb c table)) table), λ h. ground arith)

  chosen_owned :
      (r : Utxo)
      → In r (choose_inputs text_leb c (utxos text_leb c table))
      → In r table × (r.user_id ≡ c.user_id)
  unfolding choose_inputs utxos
  chosen_owned r i =
      elim (Option-cases
        (min_change (change text_leb c (utxos text_leb c table)) (utxos text_leb c table))) [
          | inl h ↦ absurd (rw (h, choose_inputs) at i)
          | inr (m, h) ↦
              let j = (In-filter _ _ r (rw (h, choose_inputs) at i)).0 in
              let (k, t) = In-filter (λ x. x.user_id =? c.user_id) table r j in
              (k, (=?_iff r.user_id c.user_id).0 t)
        ]

  -- Where no outpoint stands in two rows of the table, every row that the selection returns is a
  -- row of the table that belongs to the user.
  pub select_inputs-Owned :
      HasUniqueOutpoints table
      → (rows : List (Utxo × ℕ))
      → (select_inputs_for_transaction text_leb c db now table).0 ≡ ok rows
      → (r : Utxo) → In r (rows_of rows)
      → In r table × (r.user_id ≡ c.user_id)
  select_inputs-Owned unique rows h r i =
      let e = result_rows text_leb c table db now rows h in
      elim (Option-cases
        (min_change (change text_leb c (utxos text_leb c table)) (utxos text_leb c table))) [
          | inl none_found ↦
              let nothing : rows_of rows ≡ [] =
                ap rows_of (sym e ∙ build-none text_leb c table none_found) in
              absurd (rw nothing at i)
          | inr (m, found) ↦
              let chosen : rows_of rows ≡ choose_inputs text_leb c (utxos text_leb c table) =
                ap rows_of (sym e ∙ build-some text_leb c table m unique found)
                ∙ rows_of-with_change m _ in
              chosen_owned r (rw chosen at i)
        ]
