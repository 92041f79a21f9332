-- ===== src/Beef/Prepares.antt =====
-- `PrepareBEEF` over the search and the resolver.
use mathlib.Core.Path.{subst}
use spv_wallet.Prelude.{
  ℕ, ◌≡◌, ◌≢◌, refl, sym, ap, ◌∙◌, ◌⊎◌, inl, inr, Bool, true, false, String, Option, some, ◌↔◌,
  List, [], ◌∷◌, map, ◌=?◌, =?_iff, In, Bool-cases, Option-cases, arith,
}
use spv_wallet.Prelude.Results.{Result, ok, err, or_fail, bind-ok}
use spv_wallet.Tx.Model.{TrackedTransaction}
use spv_wallet.Tx.Repository.{Database}
use spv_wallet.Beef.Search.{
  to_tx_query_result, is_member, has_beef_hex, find_transaction_input_sources,
}
use spv_wallet.Beef.Ancestors.{IsAncestor, of_input, of_source, find_sources_iff}
use spv_wallet.Beef.Resolver.{
  Input, nil_input, no_source_id, spends, Transaction, BeefError, zero_input_count, beef_hex_failed,
  SourceTx, SourceTxMap, Source, Sources, no_sources, source_then, Sdk, value, source_tx,
  source_tx_map, verify_sources, resolve, ids_of, extract_source_tx_ids, prepare_beef,
}
use spv_wallet.Beef.Resolves.{AreSourcesOf, SpendsBelow, IsComplete, Supplies, IsSupplied, resolves}

module _ (sdk : Sdk) where
  source_tx-had_beef :
      (t : TrackedTransaction) (s : SourceTx)
      → source_tx sdk (to_tx_query_result t) ≡ ok s
      → s.had_beef ≡ has_beef_hex t
  unfolding source_tx to_tx_query_result
  source_tx-had_beef t s h = elim (Option-cases t.beef_hex) [
    | inr (hex, e) ↦
        let h' = rw (e, source_tx) at h in
        let (tx, _, q) = bind-ok (or_fail (sdk.from_beef_hex hex) _) _ s h' in rw e (sym (had q))
    | inl e ↦ elim (Option-cases t.raw_hex) [
      | inr (hex, f) ↦
          let h' = rw (e, f, source_tx) at h in
          let (tx, _, q) = bind-ok (or_fail (sdk.from_hex hex) _) _ s h' in rw e (sym (had q))
      | inl f ↦ let h' = rw (e, f, source_tx) at h in cc
    ]
  ]
    where
      had :
          {a b : SourceTx}
          → ◌≡◌ {A = Result BeefError SourceTx} (ok a) (ok b)
          → a.had_beef ≡ b.had_beef
      had q = cc

  abbrev Has : SourceTxMap → String → Type 0
  Has m id = (s : SourceTx) × (value m id ≡ some s)

  value-same : (m : SourceTxMap) (id : String) (s : SourceTx) → value ((id, s) ∷ m) id ≡ some s
  unfolding value
  value-same m id s = rw ((=?_iff id id).1 refl) refl

  -- The map of the rows has an entry for each of them, and no other.
  source_tx_map_lem :
      (rows : List TrackedTransaction) (m : SourceTxMap)
      → ((t : TrackedTransaction)
          → In t rows
          → (s : SourceTx) × (source_tx sdk (to_tx_query_result t) ≡ ok s))
      → (m' : SourceTxMap) × (source_tx_map sdk m (map to_tx_query_result rows) ≡ ok m')
        × ((t : TrackedTransaction) → In t rows → Has m' t.id)
        × ((id : String) (s : SourceTx)
            → value m' id ≡ some s
            → (value m id ≡ some s)
              ⊎ ((t : TrackedTransaction) × In t rows
                  × (t.id ≡ id)
                  × (source_tx sdk (to_tx_query_result t) ≡ ok s)))
        × ((id : String) → Has m id → Has m' id)
  unfolding source_tx_map value to_tx_query_result
  source_tx_map_lem [] m h = (m, refl, λ t i. absurd i, λ id s e. inl e, λ id k. k)
  source_tx_map_lem (t ∷ rows) m h =
      let (s, parsed) = h t (inl refl) in
      let (m', run, all, only, keeps) =
        source_tx_map_lem rows ((t.id, s) ∷ m) (λ r i. h r (inr i)) in
      (
        m',
        rw parsed run,
        λ r i. elim i [ inl e ↦ rw e (keeps t.id (s, value-same m t.id s)) | inr j ↦ all r j ],
        λ id s' e. elim (only id s' e) [
          | inr (r, i, same, p) ↦ inr (r, inr i, same, p)
          | inl q ↦ elim (Bool-cases (t.id =? id)) [
            | inl hit ↦ inr (
              t,
              inl refl,
              (=?_iff t.id id).0 hit,
              let w = rw hit at q in parsed ∙ ap ok (some_injective w),
            )
            | inr miss ↦ inl (rw miss at q)
          ]
        ],
        λ id k. elim (Bool-cases (t.id =? id)) [
          | inl hit ↦ keeps id (s, rw hit refl)
          | inr miss ↦ keeps id (k.0, rw miss k.1)
        ],
      )
    where
      some_injective : {a b : SourceTx} → ◌≡◌ {A = Option SourceTx} (some a) (some b) → a ≡ b
      some_injective w = cc

  verify_sources_lem :
      ((s : Source) → sdk.verify_scripts s ≡ true)
      → (sources : Sources) → verify_sources sdk sources ≡ ok tt
  unfolding verify_sources
  verify_sources_lem good no_sources = refl
  verify_sources_lem good (source_then s rest) = rw (good s) (verify_sources_lem good rest)

  ids_of_lem :
      (inputs : List Input)
      → ((i : Input) → In i inputs → (id : String) × (i ≡ spends id))
      → (ids : List String) × (ids_of sdk inputs ≡ ok ids)
        × ((id : String) → In (spends id) inputs → is_member id ids ≡ true)
  unfolding ids_of
  ids_of_lem [] h = ([], refl, λ id i. absurd i)
  ids_of_lem (nil_input ∷ inputs) h = let (id, e) = h nil_input (inl refl) in cc
  ids_of_lem (no_source_id ∷ inputs) h = let (id, e) = h no_source_id (inl refl) in cc
  ids_of_lem (spends id ∷ inputs) h =
      let (ids, run, all) = ids_of_lem inputs (λ i k. h i (inr k)) in
      (
        id ∷ ids,
        rw run refl,
        λ x i. elim i [
          | inl e ↦
              let same : id ≡ x = id_same (sym e) in
              let found = (=?_iff id x).1 same in ground arith
          | inr j ↦ let found = all x j in ground arith
        ],
      )
    where
      id_same : {a b : String} → ◌≡◌ {A = Input} (spends a) (spends b) → a ≡ b
      id_same q = cc

  extract_ids-ids_of :
      (tx : Transaction) → tx.inputs ≢ [] → extract_source_tx_ids sdk tx ≡ ids_of sdk tx.inputs
  unfolding extract_source_tx_ids
  extract_ids-ids_of tx h = of_inputs tx.inputs h
    where
      of_inputs :
          (inputs : List Input)
          → inputs ≢ []
          → elim inputs [ [] ↦ err zero_input_count | i ∷ is ↦ ids_of sdk (i ∷ is) ]
            ≡ ids_of sdk inputs
      of_inputs [] some_input = absurd (some_input refl)
      of_inputs (i ∷ is) some_input = refl

stored_row :
    (db : Database) (ids : List String) (t : TrackedTransaction)
    → IsAncestor db ids t
    → In t db.transactions
stored_row db ids _ (of_input t i m) = i
stored_row db ids _ (of_source r t a raw i m) = i

ok_same : {a b : SourceTx} → ◌≡◌ {A = Result BeefError SourceTx} (ok a) (ok b) → a ≡ b
ok_same q = cc

-- The map of the ancestors.
module _ (sdk : Sdk) (db : Database) (rank : String → ℕ) (ids : List String)
    (rows : List TrackedTransaction) (m : SourceTxMap)
    (exact : (t : TrackedTransaction) → In t rows ↔ IsAncestor db ids t)
    (all : (t : TrackedTransaction) → In t rows → Has sdk m t.id)
    (complete : IsComplete sdk db rank) where
  inputs-Supplies :
      (t : TrackedTransaction) (s : SourceTx)
      → IsAncestor db ids t
      → source_tx sdk (to_tx_query_result t) ≡ ok s
      → s.had_beef ≡ false
      → Supplies sdk db rank m (rank t.id) s.tx.inputs
  inputs-Supplies t s anc parsed raw i k =
      let (s', parsed', of_raw_row) = complete t (stored_row db ids t anc) in
      let same : s ≡ s' = ok_same (sym parsed ∙ parsed') in
      let (below, among) = of_raw_row (rw same at raw) in
      let k' : In i s'.tx.inputs = rw same at k in
      let (r, stored, e, less) = below i k' in
      let raw_row : has_beef_hex t ≡ false = sym (source_tx-had_beef sdk t s parsed) ∙ raw in
      let found = (exact r).1 (of_source t r anc raw_row stored (among r.id (rw e at k'))) in
      let (s'', entry) = all r found in (r.id, s'', e, entry, less)

  map-IsSupplied :
      ((id : String) (s : SourceTx)
        → value m id ≡ some s
        → (value [] id ≡ some s)
          ⊎ ((t : TrackedTransaction) × In t rows
              × (t.id ≡ id)
              × (source_tx sdk (to_tx_query_result t) ≡ ok s)))
      → IsSupplied sdk db rank m
  unfolding value
  map-IsSupplied only id s e = elim (only id s e) [
    | inl q ↦ cc
    | inr (t, i, same, parsed) ↦
        let anc = (exact t).0 i in
        (
          (t, stored_row db ids t anc, same, parsed),
          λ raw.
              subst (λ x. Supplies sdk db rank m (rank x) s.tx.inputs) same
                (inputs-Supplies t s anc parsed raw),
        )
  ]

  subject-Supplies :
      (n : ℕ) (inputs : List Input)
      → SpendsBelow sdk db rank n inputs
      → ((id : String) → In (spends id) inputs → is_member id ids ≡ true)
      → Supplies sdk db rank m n inputs
  subject-Supplies n inputs low all_ids i k =
      let (r, stored, e, less) = low i k in
      let (s, entry) = all r ((exact r).1 (of_input r stored (all_ids r.id (rw e at k)))) in
      (r.id, s, e, entry, less)

-- Where no query fails, every stored row parses, the inputs of a raw row are among its input sources
-- and spend stored rows of lower rank, the scripts verify and the transaction has inputs, all of which
-- spend stored rows of rank below the fuel: `PrepareBEEF` finds and resolves a tree of sources that
-- are the stored transactions of the ids the inputs spend, and its result is the encoding of the tree
-- in BEEF or the error of the encoding.
pub prepare_beef-Resolves :
    (sdk : Sdk) (db : Database) (fails : List String → Bool) (rank : String → ℕ) (n : ℕ)
    (tx : Transaction)
    → ((l : List String) → fails l ≡ false)
    → IsComplete sdk db rank
    → ((s : Source) → sdk.verify_scripts s ≡ true)
    → tx.inputs ≢ []
    → SpendsBelow sdk db rank n tx.inputs
    → (sources : Sources) × (prepare_beef sdk (find_transaction_input_sources fails db) n (some tx)
        ≡ or_fail (sdk.beef_hex tx sources) beef_hex_failed)
      × AreSourcesOf sdk db tx.inputs sources
unfolding prepare_beef resolve
prepare_beef-Resolves sdk db fails rank n tx up complete good some_input low =
    let (ids, ids_found, all_ids) =
      ids_of_lem sdk tx.inputs (λ i k. let (r, _, e, _) = low i k in (r.id, e)) in
    let (rows, found, exact) = find_sources_iff fails db ids up in
    let (m, mapped, all, only, keeps) =
      source_tx_map_lem sdk rows []
        (λ t i. let (s, e, _) = complete t (stored_row db ids t ((exact t).0 i)) in (s, e)) in
    let (sources, resolved, tree) =
      resolves sdk db rank m (map-IsSupplied sdk db rank ids rows m exact all complete only) n
        tx.inputs
        (subject-Supplies sdk db rank ids rows m exact all complete n tx.inputs low all_ids) in
    (
      sources,
      rw
          (
            extract_ids-ids_of sdk tx some_input,
            ids_found,
            found,
            mapped,
            resolved,
            verify_sources_lem sdk good sources,
          )
          refl,
      tree,
    )
