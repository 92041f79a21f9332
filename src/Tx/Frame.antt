-- ===== src/Tx/Frame.antt =====
-- What a callback leaves alone.
use spv_wallet.Prelude.{
  ℕ, ◌≡◌, ◌≢◌, refl, ap, ◌⊎◌, inl, inr, true, false, not, ◌&&◌, String, some, List, [], ◌∷◌, ◌=?◌,
  =?_iff, ltb, is_some, filter, Bool-cases, Option-cases, arith,
}
use spv_wallet.Prelude.Results.{Result, ok, err, Result-cases}
use spv_wallet.Tx.Model.{
  problematic, is_mined, is_problematic, TxInfo, TrackedTransaction, TxError, Sdk, set_mined,
}
use spv_wallet.Tx.Repository.{
  Database, Weather, find, get_transaction, written, set_row, update_transaction,
}
use spv_wallet.Tx.Sync.{confirm, store, handle_tracked, handle}

pub find-id :
    (id : String) (rows : List TrackedTransaction) (t : TrackedTransaction)
    → find id rows ≡ some t
    → t.id ≡ id
unfolding find
find-id id [] t h = cc
find-id id (r ∷ rows) t h = ground (arith, find-id id rows t, =?_iff r.id id)

pub find_other-set_row :
    (now : ℕ) (t : TrackedTransaction) (rows : List TrackedTransaction) (id : String)
    → id ≢ t.id
    → find id (set_row now t rows) ≡ find id rows
unfolding find set_row written
find_other-set_row now t [] id n = refl
find_other-set_row now t (r ∷ rows) id n =
    ground (arith, find_other-set_row now t rows id n, =?_iff r.id id, =?_iff r.id t.id)

pub find_own-set_row :
    (now : ℕ) (t : TrackedTransaction) (rows : List TrackedTransaction) (old : TrackedTransaction)
    → (id : String) → t.id ≡ id
    → find id rows ≡ some old
    → find id (set_row now t rows) ≡ some (written now t old)
unfolding find set_row written
find_own-set_row now t [] old id q h = cc
find_own-set_row now t (r ∷ rows) old id q h = ground (arith, find_own-set_row now t rows old id q)

-- The database after the update of a transaction.
abbrev pub saved : Weather → TrackedTransaction → Database → Database
saved w t db = record {
  transactions = set_row w.now t db.transactions;
  tx_inputs = filter (λ i. not (i.tx_id =? t.id)) db.tx_inputs;
}

pub update_transaction-Cases :
    (w : Weather) (t : TrackedTransaction) (db : Database)
    → ((e : TxError) × (update_transaction w t db ≡ (err e, db)))
      ⊎ (update_transaction w t db ≡ (ok tt, saved w t db))
unfolding update_transaction
update_transaction-Cases w t db =
    elim (Bool-cases (not (is_some t.beef_hex) && not (is_some t.raw_hex))) [
      | inl a ↦ rw a (inl (_, refl))
      | inr a ↦ elim (Bool-cases w.update_fails) [
        | inl b ↦ rw a (rw b (inl (_, refl)))
        | inr b ↦ rw a (rw b (inr refl))
      ]
    ]

-- How a callback that changes the transaction `t` writes it.
abbrev pub Verdict : Sdk → TxInfo → TrackedTransaction → TrackedTransaction → Type 0
Verdict sdk info t t' =
    ((is_problematic info.status ≡ true) × (t' ≡ record t { tx_status = problematic }))
    ⊎ ((is_mined info.status ≡ true) × (confirm sdk info t ≡ ok t'))

-- A callback changes nothing, or it succeeds and saves one transaction that it was not too old for.
abbrev pub Outcome :
    Sdk → Weather → TxInfo → Database → Result TxError (Unit {0}) × Database → Type 0
Outcome sdk w info db out =
    ((r : Result TxError (Unit {0})) × (out ≡ (r, db)))
    ⊎ ((t : TrackedTransaction) × (t' : TrackedTransaction) × (find info.tx_id db.transactions
          ≡ some t)
        × (ltb info.timestamp t.updated_at ≡ false)
        × Verdict sdk info t t'
        × (out ≡ (ok tt, saved w t' db)))

set_mined-id :
    (sdk : Sdk) (hash : String) (bump : sdk.MerklePath) (t t' : TrackedTransaction)
    → set_mined sdk hash bump t ≡ ok t'
    → t'.id ≡ t.id
unfolding set_mined
set_mined-id sdk hash bump t t' h = ground arith

pub Verdict-id :
    (sdk : Sdk) (info : TxInfo) (t t' : TrackedTransaction) → Verdict sdk info t t' → t'.id ≡ t.id
unfolding confirm set_mined
Verdict-id sdk info t t' (inl (p, e)) = ap TrackedTransaction.id e
Verdict-id sdk info t t' (inr (p, e)) = ground arith

module _ (sdk : Sdk) (w : Weather) (info : TxInfo) (db : Database) where
  same_Outcome :
      {out out' : Result TxError (Unit {0}) × Database}
      → out ≡ out'
      → Outcome sdk w info db out'
      → Outcome sdk w info db out
  same_Outcome e o = rw e o

  updated-Outcome :
      (t t' : TrackedTransaction)
      → find info.tx_id db.transactions ≡ some t
      → ltb info.timestamp t.updated_at ≡ false
      → Verdict sdk info t t'
      → Outcome sdk w info db (update_transaction w t' db)
  updated-Outcome t t' f s v = elim (update_transaction-Cases w t' db) [
    | inl (e, h) ↦ inl (err e, h)
    | inr h ↦ inr (t, t', f, s, v, h)
  ]

  handle_tracked-Outcome :
      (t : TrackedTransaction)
      → find info.tx_id db.transactions ≡ some t
      → Outcome sdk w info db (handle_tracked sdk w info t db)
  unfolding handle_tracked store
  handle_tracked-Outcome t f = elim (Bool-cases (ltb info.timestamp t.updated_at)) [
    | inl late ↦ rw late (inl (ok tt, refl))
    | inr s ↦ elim (Bool-cases (is_problematic info.status)) [
      | inl p ↦
          same_Outcome (rw s (rw p refl))
            (updated-Outcome t (record t { tx_status = problematic }) f s (inl (p, refl)))
      | inr p ↦ elim (Bool-cases (is_mined info.status)) [
        | inr m ↦ rw s (rw p (rw m (inl (ok tt, refl))))
        | inl m ↦ elim (Result-cases (confirm sdk info t)) [
          | inr (e, c) ↦ rw s (rw p (rw m (rw c (inl (err e, refl)))))
          | inl (t', c) ↦
              same_Outcome (rw s (rw p (rw m (rw c refl)))) (updated-Outcome t t' f s (inr (m, c)))
        ]
      ]
    ]
  ]

  get_transaction-Cases :
      ((e : TxError) × (get_transaction w db info.tx_id ≡ err e))
      ⊎ ((t : TrackedTransaction) × (find info.tx_id db.transactions ≡ some t)
          × (get_transaction w db info.tx_id ≡ ok t))
  unfolding get_transaction
  get_transaction-Cases = elim (Bool-cases w.get_fails) [
    | inl g ↦ rw g (inl (_, refl))
    | inr g ↦ elim (Option-cases (find info.tx_id db.transactions)) [
      | inl f ↦ rw g (rw f (inl (_, refl)))
      | inr (t, f) ↦ inr (t, f, rw g (rw f refl))
    ]
  ]

  pub handle-Outcome : Outcome sdk w info db (handle sdk w info db)
  unfolding handle
  handle-Outcome = elim (Bool-cases (info.tx_id =? "")) [
    | inl e ↦ rw e (inl (err _, refl))
    | inr e ↦ elim get_transaction-Cases [
      | inl (x, g) ↦ same_Outcome (rw e (rw g refl)) (inl (err x, refl))
      | inr (t, f, g) ↦ same_Outcome (rw e (rw g refl)) (handle_tracked-Outcome t f)
    ]
  ]
