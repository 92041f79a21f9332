-- ===== src/Utxo/Join.antt =====
-- The join on (tx_id, vout).
use spv_wallet.Prelude.{
  ℕ, ◌≡◌, refl, ap, ◌∙◌, inl, inr, Bool, true, false, ◌&&◌, String, none, some, List, [], ◌∷◌, map,
  arith, ◌=?◌, =?_iff, =?_refl, if◌then◌else◌, filter, In, All, all_in, filter-filter, In-filter,
}
use spv_wallet.Prelude.Int.{pos, leb_ℤ}
use spv_wallet.Bsv.{same_outpoint}
use spv_wallet.Utxo.{
  Utxo, Composer, outpoint_of, join, utxos, change, min_change, choose_inputs, build,
}

abbrev pub same_row : Utxo → Utxo → Bool
same_row a b = same_outpoint (outpoint_of a) (outpoint_of b)

-- No two rows of the table have one outpoint.
abbrev pub HasUniqueOutpoints : List Utxo → Type 0
HasUniqueOutpoints [] = Unit
HasUniqueOutpoints (x ∷ rows) = All (λ r. same_row r x ≡ false) rows × HasUniqueOutpoints rows

pub same_row_refl : (r : Utxo) → same_row r r ≡ true
same_row_refl r = ground (arith, =?_refl r.tx_id)

pub same_row_sym : (a b : Utxo) → same_row a b ≡ same_row b a
same_row_sym a b = ground (arith, =?_iff a.tx_id b.tx_id, =?_iff b.tx_id a.tx_id)

filter_none :
    (p : Utxo → Bool) (xs : List Utxo) → ((x : Utxo) → In x xs → p x ≡ false) → filter p xs ≡ []
filter_none p [] h = refl
filter_none p (x ∷ xs) h = rw (h x (inl refl)) (filter_none p xs (λ y i. h y (inr i)))

-- Of the selected rows those with the outpoint of a row of the table are that row, if selected.
filter-same_row :
    (q : Utxo → Bool) (table : List Utxo) (x : Utxo)
    → HasUniqueOutpoints table
    → In x table
    → map (λ s. x) (filter (λ s. same_row s x) (filter q table)) ≡ (if q x then x ∷ [] else [])
filter-same_row q [] x u i = absurd i
filter-same_row q (y ∷ table) x (alone, u) (inl e) =
    let others : filter (λ s. same_row s y) (filter q table) ≡ [] =
      filter_none _ (filter q table)
        (λ r i. all_in (λ s. same_row s y ≡ false) table alone r (In-filter q table r i).0) in
    rw e (ground (arith, others, same_row_refl y))
filter-same_row q (y ∷ table) x (alone, u) (inr i) =
    let other : same_row y x ≡ false =
      same_row_sym y x ∙ all_in (λ s. same_row s y ≡ false) table alone x i in
    ground (arith, other, filter-same_row q table x u i)

join_part :
    (q : Utxo → Bool) (table part : List Utxo)
    → HasUniqueOutpoints table
    → ((x : Utxo) → In x part → In x table)
    → join part (filter q table) ≡ filter q part
unfolding join
join_part q table [] u h = refl
join_part q table (x ∷ part) u h =
    rw (filter-same_row q table x u (h x (inl refl)), join_part q table part u (λ y i. h y (inr i)))
      (ground arith)

module _ (text_leb : String → String → Bool) (c : Composer) (table : List Utxo) where
  abbrev owned : List Utxo
  owned = utxos text_leb c table

  choose_filter :
      (m : ℕ)
      → min_change (change text_leb c owned) owned ≡ some m
      → choose_inputs text_leb c owned
        ≡ filter (λ r. (r.user_id =? c.user_id) && leb_ℤ (change text_leb c owned r) (pos m)) table
  unfolding utxos choose_inputs
  choose_filter m h = rw (h, choose_inputs) (filter-filter _ (λ r. r.user_id =? c.user_id) table)

  -- The query gives the selected rows, each with the least change.
  pub build-some :
      (m : ℕ)
      → HasUniqueOutpoints table
      → min_change (change text_leb c owned) owned ≡ some m
      → build text_leb c table ≡ map (λ r. (r, m)) (choose_inputs text_leb c owned)
  unfolding build choose_inputs
  build-some m u h =
      let e = choose_filter m h in
      let joined : join table (choose_inputs text_leb c owned) ≡ choose_inputs text_leb c owned =
        rw e (join_part _ table table u (λ x i. i)) in
      rw (h, build) (ap (map (λ r. (r, m))) joined)

  pub build-none : min_change (change text_leb c owned) owned ≡ none → build text_leb c table ≡ []
  unfolding build
  build-none h = rw (h, build) refl
