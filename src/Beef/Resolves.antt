-- ===== src/Beef/Resolves.antt =====
-- The tree that the resolver makes of the sources of a transaction.
use mathlib.Core.Path.{subst}
use spv_wallet.Prelude.{
  ℕ, zero, suc, ◌<◌, ◌≡◌, refl, sym, inl, inr, true, false, String, some, List, [], ◌∷◌, In,
  Bool-cases, arith,
}
use spv_wallet.Prelude.Results.{ok}
use spv_wallet.Tx.Model.{TrackedTransaction}
use spv_wallet.Tx.Repository.{Database}
use spv_wallet.Beef.Search.{to_tx_query_result, is_member, source_ids}
use spv_wallet.Beef.Resolver.{
  Input, nil_input, no_source_id, spends, SourceTx, SourceTxMap, Source, Sources, of_beef, of_raw,
  no_sources, source_then, Sdk, value, source_tx, resolve_recursive,
}

module _ (sdk : Sdk) (db : Database) where
  -- The id is that of a stored row, whose form in BEEF or whose raw form parses.
  abbrev pub IsStored : String → SourceTx → Type 0
  IsStored id s =
      (t : TrackedTransaction) × In t db.transactions
      × (t.id ≡ id)
      × (source_tx sdk (to_tx_query_result t) ≡ ok s)

  -- The sources are the stored transactions that the inputs spend, down to those in BEEF.
  unfoldable mutual
    pub IsSourceOf : String → Source → Type 0
    IsSourceOf id (of_beef tx) = IsStored id (record { tx = tx; had_beef = true })
    IsSourceOf id (of_raw tx sources) =
        IsStored id (record { tx = tx; had_beef = false }) × AreSourcesOf tx.inputs sources

    pub AreSourcesOf : List Input → Sources → Type 0
    AreSourcesOf [] no_sources = Unit {0}
    AreSourcesOf (spends id ∷ inputs) (source_then s rest) =
        IsSourceOf id s × AreSourcesOf inputs rest
    AreSourcesOf _ _ = ⊥

  -- Each input spends an output of a stored row, of a lower rank.
  abbrev pub SpendsBelow : (String → ℕ) → ℕ → List Input → Type 0
  SpendsBelow rank n inputs =
      (i : Input)
      → In i inputs
      → (r : TrackedTransaction) × In r db.transactions × (i ≡ spends r.id) × (rank r.id < n)

  -- Each stored row parses, and the inputs of a raw one are its input sources, which are stored too.
  abbrev pub IsComplete : (String → ℕ) → Type 0
  IsComplete rank =
      (t : TrackedTransaction)
      → In t db.transactions
      → (s : SourceTx) × (source_tx sdk (to_tx_query_result t) ≡ ok s)
        × (s.had_beef ≡ false
            → SpendsBelow rank (rank t.id) s.tx.inputs
              × ((id : String)
                  → In (spends id) s.tx.inputs
                  → is_member id (source_ids db.tx_inputs t) ≡ true))

  -- The map has what the transactions with the inputs need.
  abbrev pub Supplies : (String → ℕ) → SourceTxMap → ℕ → List Input → Type 0
  Supplies rank m n inputs =
      (i : Input)
      → In i inputs
      → (id : String) × (s : SourceTx) × (i ≡ spends id) × (value m id ≡ some s) × (rank id < n)

  abbrev pub IsSupplied : (String → ℕ) → SourceTxMap → Type 0
  IsSupplied rank m =
      (id : String) (s : SourceTx)
      → value m id ≡ some s
      → IsStored id s × (s.had_beef ≡ false → Supplies rank m (rank id) s.tx.inputs)

  pub resolves :
      (rank : String → ℕ) (m : SourceTxMap)
      → IsSupplied rank m
      → (n : ℕ) (inputs : List Input) → Supplies rank m n inputs
      → (sources : Sources) × (resolve_recursive sdk m n inputs ≡ ok sources)
        × AreSourcesOf inputs sources
  unfolding resolve_recursive AreSourcesOf IsSourceOf
  resolves rank m supplied n [] h = (no_sources, refl, tt)
  resolves rank m supplied n (nil_input ∷ inputs) h =
      let (id, s, e, _, _) = h nil_input (inl refl) in cc
  resolves rank m supplied n (no_source_id ∷ inputs) h =
      let (id, s, e, _, _) = h no_source_id (inl refl) in cc
  resolves rank m supplied zero (spends id ∷ inputs) h =
      let (_, s, e, _, low) = h (spends id) (inl refl) in absurd (omega arith)
  resolves rank m supplied (suc n) (spends id ∷ inputs) h =
      let (id', s, e, found, low) = h (spends id) (inl refl) in
      let same : id' ≡ id = spends_injective (sym e) in
      let entry : value m id ≡ some s = rw same at found in
      let (stored, below) = supplied id s entry in
      let (rest, run, trees) = resolves rank m supplied (suc n) inputs (λ i k. h i (inr k)) in
      elim (Bool-cases s.had_beef) [
        | inl beef ↦ (
          source_then (of_beef s.tx) rest,
          rw (entry, beef, run) refl,
          (subst (λ b. IsStored id (record { tx = s.tx; had_beef = b })) beef stored, trees),
        )
        | inr raw ↦
            let (sources, resolved, tree) = resolves rank m supplied n s.tx.inputs (λ i k.
              let (j, r, q, at_j, less) = below raw i k in
              (
                j,
                r,
                q,
                at_j,
                let l : rank id' < suc n = low in
                    let l' : rank id < suc n = rw same at l in omega arith,
              )) in
            (
              source_then (of_raw s.tx sources) rest,
              rw (entry, raw, resolved, run) refl,
              (
                (subst (λ b. IsStored id (record { tx = s.tx; had_beef = b })) raw stored, tree),
                trees,
              ),
            )
      ]
    where
      spends_injective : {a b : String} → ◌≡◌ {A = Input} (spends a) (spends b) → a ≡ b
      spends_injective q = cc
