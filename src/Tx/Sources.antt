-- ===== src/Tx/Sources.antt =====
-- What a callback about a problematic transaction does to its input sources.
use spv_wallet.Prelude.{
  ℕ, ◌≡◌, refl, ◌∙◌, ap, ◌⊎◌, inl, inr, Bool, true, false, Option, none, some, [], ◌=?◌, filter,
  arith,
}
use spv_wallet.Prelude.Results.{Result}
use spv_wallet.Tx.Model.{
  problematic, is_mined, is_problematic, TxInfo, TrackedTransaction, TxError, Sdk, ChainStatus,
}
use spv_wallet.Tx.Repository.{Database, Weather, find, written}
use spv_wallet.Tx.Sync.{handle}
use spv_wallet.Tx.Frame.{find-id, find_own-set_row, handle-Outcome, Verdict-id}
use spv_wallet.Tx.Callback.{none_left}

problematic_not_mined : (s : ChainStatus) → is_problematic s ≡ true → is_mined s ≡ false
unfolding is_problematic is_mined
problematic_not_mined s h = ground arith

kept_raw :
    (now : ℕ) (t : TrackedTransaction)
    → t.beef_hex ≡ none
    → (written now (record t { tx_status = problematic }) t).raw_hex ≡ t.raw_hex
unfolding written
kept_raw now t h = rw h refl

-- When a callback about a problematic transaction changes the database and the transaction was
-- stored in raw form, then it is stored as problematic, still in raw form, and the input sources
-- from which its BEEF form is built are gone.
pub handle_problematic_raw :
    (sdk : Sdk) (w : Weather) (info : TxInfo) (db : Database) (old : TrackedTransaction)
    → is_problematic info.status ≡ true
    → find info.tx_id db.transactions ≡ some old
    → old.beef_hex ≡ none
    → let after = (handle sdk w info db).1 in
      (after ≡ db)
      ⊎ ((row : TrackedTransaction) × (find info.tx_id after.transactions ≡ some row)
          × (row.tx_status ≡ problematic)
          × (row.beef_hex ≡ none)
          × (row.raw_hex ≡ old.raw_hex)
          × (filter (λ i. i.tx_id =? info.tx_id) after.tx_inputs ≡ []))
unfolding written
handle_problematic_raw sdk w info db old p stored raw = elim (handle-Outcome sdk w info db) [
  | inl (r, e) ↦ inl (ap (λ (o : Result TxError (Unit {0}) × Database). o.1) e)
  | inr (t, t', f, s, inr (m, c), e) ↦ inl (clash m (problematic_not_mined info.status p))
  | inr (t, t', f, s, inl (q, d), e) ↦
      let own : t'.id ≡ info.tx_id =
        Verdict-id sdk info t t' (inl (q, d)) ∙ find-id info.tx_id db.transactions t f in
      let same : t ≡ old = one stored f in
      rw e (
        inr (
          written w.now t' t,
          find_own-set_row w.now t' db.transactions t info.tx_id own f,
          rw d refl,
          rw d (rw same raw),
          rw d (rw same (kept_raw w.now old raw)),
          none_left t'.id info.tx_id own db.tx_inputs,
        ))
]
  where
    clash : {b : Bool} {P : Type 0} → b ≡ true → b ≡ false → P
    clash a b = cc

    one :
        {a b : TrackedTransaction} {o : Option TrackedTransaction} → o ≡ some a → o ≡ some b → b ≡ a
    one a b = cc
