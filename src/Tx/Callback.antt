-- ===== src/Tx/Callback.antt =====
-- What the handler of callbacks does to the database.
use spv_wallet.Prelude.{
  ◌≡◌, ◌≢◌, refl, ◌∙◌, ap, ◌⊎◌, inl, inr, Bool, true, false, not, ◌&&◌, String, Option, none, some,
  List, [], ◌∷◌, ◌=?◌, =?_iff, ltb, is_some, filter, filter-filter, filter_congr, arith, ◌<◌, ◌≤◌,
}
use spv_wallet.Prelude.Int.{ℤ}
use spv_wallet.Prelude.Results.{Result, ok, err}
use spv_wallet.Tx.Model.{
  mined, is_problematic, TxInfo, TrackedTransaction, TxError, Sdk, ◌=ℤ◌, set_mined,
  parse_merkle_path,
}
use spv_wallet.Tx.Repository.{TxInput, Database, Weather, find, written}
use spv_wallet.Tx.Sync.{confirm, handle}
use spv_wallet.Tx.Frame.{
  find-id, find_other-set_row, find_own-set_row, saved, Verdict-id, handle-Outcome,
}

-- A callback leaves every other transaction alone, its input sources too.
pub handle_keeps_others :
    (sdk : Sdk) (w : Weather) (info : TxInfo) (db : Database) (id : String)
    → id ≢ info.tx_id
    → let after = (handle sdk w info db).1 in
      (find id after.transactions ≡ find id db.transactions)
      × (filter (λ i. i.tx_id =? id) after.tx_inputs ≡ filter (λ i. i.tx_id =? id) db.tx_inputs)
handle_keeps_others sdk w info db id n = elim (handle-Outcome sdk w info db) [
  | inl (r, e) ↦ rw e (refl, refl)
  | inr (t, t', f, s, v, e) ↦
      let own : t'.id ≡ info.tx_id =
        Verdict-id sdk info t t' v ∙ find-id info.tx_id db.transactions t f in
      rw e (
        find_other-set_row w.now t' db.transactions id (λ q. n (q ∙ own)),
        filter-filter (λ (i : TxInput). i.tx_id =? id) (λ i. not (i.tx_id =? t'.id)) db.tx_inputs
            ∙ filter_congr _ _ db.tx_inputs (λ i p. other i.tx_id t'.id (λ q. n (q ∙ own))),
      )
]
  where
    other : (a b : String) → id ≢ b → (not (a =? b) && (a =? id)) ≡ (a =? id)
    other a b q = ground (arith, =?_iff a b, =?_iff a id)

-- A callback that fails leaves the database as it was.
pub handle-Atomic :
    (sdk : Sdk) (w : Weather) (info : TxInfo) (db : Database) (e : TxError)
    → (handle sdk w info db).0 ≡ err e
    → (handle sdk w info db).1 ≡ db
handle-Atomic sdk w info db e h = elim (handle-Outcome sdk w info db) [
  | inl (r, q) ↦ ap (λ (p : Result TxError (Unit {0}) × Database). p.1) q
  | inr (t, t', f, s, v, q) ↦ clash (ap (λ (p : Result TxError (Unit {0}) × Database). p.0) q) h
]
  where
    clash : {r : Result TxError (Unit {0})} {P : Type 0} → r ≡ ok tt → r ≡ err e → P
    clash a b = cc

-- Input sources that are removed by their transaction are gone.
pub none_left :
    (own id : String)
    → own ≡ id
    → (l : List TxInput) → filter (λ i. i.tx_id =? id) (filter (λ i. not (i.tx_id =? own)) l) ≡ []
none_left own id q [] = refl
none_left own id q (i ∷ l) = ground (arith, none_left own id q l)

-- A transaction that has been mined as the callback says.
abbrev pub MinedAs : TxInfo → TrackedTransaction → Type 0
MinedAs info row =
    (row.tx_status ≡ mined)
    × (row.block_hash ≡ some info.block_hash)
    × (row.block_height ≡ some info.block_height)
    × (is_some row.beef_hex ≡ true)
    × (row.raw_hex ≡ none)

=ℤ_sound : (a b : ℤ) → (a =ℤ b) ≡ true → a ≡ b
=ℤ_sound a b h = ground arith

pub confirm-MinedAs :
    (sdk : Sdk) (info : TxInfo) (t t' : TrackedTransaction)
    → confirm sdk info t ≡ ok t'
    → MinedAs info t'
unfolding confirm set_mined parse_merkle_path
confirm-MinedAs sdk info t t' h = grind (arith, =ℤ_sound)

-- When a callback with a status that is not problematic changes the database, the transaction it names was
-- stored, at a time that is not after the callback's; it is then stored as mined in the callback's block,
-- in the self-contained BEEF form alone and with the time of the update, and has no input sources left.
-- So such a callback that is older than the stored row, or names no stored transaction, changes nothing.
pub handle_mined :
    (sdk : Sdk) (w : Weather) (info : TxInfo) (db : Database)
    → is_problematic info.status ≡ false
    → let after = (handle sdk w info db).1 in
      (after ≡ db)
      ⊎ ((old : TrackedTransaction) × (row : TrackedTransaction) × (find info.tx_id db.transactions
            ≡ some old)
          × (old.updated_at ≤ info.timestamp)
          × (find info.tx_id after.transactions ≡ some row)
          × MinedAs info row
          × (row.updated_at ≡ w.now)
          × (filter (λ i. i.tx_id =? info.tx_id) after.tx_inputs ≡ []))
unfolding written
handle_mined sdk w info db np = elim (handle-Outcome sdk w info db) [
  | inl (r, e) ↦ inl (ap (λ (p : Result TxError (Unit {0}) × Database). p.1) e)
  | inr (t, t', f, s, inl (p, q), e) ↦ inl (clash p np)
  | inr (t, t', f, s, inr (m, c), e) ↦
      let own : t'.id ≡ info.tx_id =
        Verdict-id sdk info t t' (inr (m, c)) ∙ find-id info.tx_id db.transactions t f in
      let stored = find_own-set_row w.now t' db.transactions t info.tx_id own f in
      let fresh = confirm-MinedAs sdk info t t' c in
      rw e (
        inr (
          t,
          written w.now t' t,
          f,
          in_time t s,
          stored,
          (fresh.0, fresh.1, fresh.2, fresh.3, raw_gone t' fresh.3),
          refl,
          none_left t'.id info.tx_id own db.tx_inputs,
        ))
]
  where
    clash : {b : Bool} {P : Type 0} → b ≡ true → b ≡ false → P
    clash a b = cc

    in_time :
        (t : TrackedTransaction)
        → ltb info.timestamp t.updated_at ≡ false
        → t.updated_at ≤ info.timestamp
    in_time t s = ground arith

    raw_gone :
        (t' : TrackedTransaction)
        → is_some t'.beef_hex ≡ true
        → (written w.now t' t').raw_hex ≡ none
    raw_gone t' h = rw h refl

-- A callback that changed the database at a time after its own timestamp changes nothing when it is
-- delivered again.
pub handle_redelivered :
    (sdk : Sdk) (w w' : Weather) (info : TxInfo) (db : Database)
    → info.timestamp < w.now
    → let after = (handle sdk w info db).1 in (after ≡ db) ⊎ ((handle sdk w' info after).1 ≡ after)
unfolding written
handle_redelivered sdk w w' info db late = elim (handle-Outcome sdk w info db) [
  | inl (r, e) ↦ inl (ap (λ (p : Result TxError (Unit {0}) × Database). p.1) e)
  | inr (t, t', f, s, v, e) ↦
      let own : t'.id ≡ info.tx_id =
        Verdict-id sdk info t t' v ∙ find-id info.tx_id db.transactions t f in
      rw e (
        inr (
          again (saved w t' db) (written w.now t' t)
            (find_own-set_row w.now t' db.transactions t info.tx_id own f) (stale t' t)))
]
  where
    stale : (t' t : TrackedTransaction) → ltb info.timestamp (written w.now t' t).updated_at ≡ true
    stale t' t = ground arith

    second :
        {t r : TrackedTransaction} {o : Option TrackedTransaction} {P : Type 0}
        → o ≡ some r
        → o ≡ some t
        → ltb info.timestamp r.updated_at ≡ true
        → ltb info.timestamp t.updated_at ≡ false
        → P
    second a b c d = ground arith

    again :
        (d : Database) (row : TrackedTransaction)
        → find info.tx_id d.transactions ≡ some row
        → ltb info.timestamp row.updated_at ≡ true
        → (handle sdk w' info d).1 ≡ d
    again d row f l = elim (handle-Outcome sdk w' info d) [
      | inl (r, e) ↦ ap (λ (p : Result TxError (Unit {0}) × Database). p.1) e
      | inr (t, t', g, s, v, e) ↦ second f g l s
    ]
