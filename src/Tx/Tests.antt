-- ===== src/Tx/Tests.antt =====
-- The callbacks on a small database.
use spv_wallet.Prelude.{
  ℕ, ◌≡◌, ◌≢◌, ◌<◌, ◌≤◌, refl, inr, ◌⊎◌, Bool, true, false, String, Option, none, some, [], ◌∷◌,
  ◌=?◌, =?_iff, sym, filter, arith,
}
use spv_wallet.Prelude.Int.{pos}
use spv_wallet.Prelude.Results.{ok, err}
use spv_wallet.Tx.Model.{
  broadcasted, mined, problematic, ChainStatus, mined_on_chain, rejected, TxInfo,
  TrackedTransaction, get_failed, Sdk, is_mined, is_problematic, set_mined, parse,
  parse_merkle_path,
}
use spv_wallet.Tx.Repository.{Database, Weather, find, get_transaction, update_transaction}
use spv_wallet.Tx.Sync.{confirm, handle, handle_tracked, store}
use spv_wallet.Tx.Callback.{
  handle_keeps_others, handle-Atomic, MinedAs, handle_mined, handle_redelivered,
}
use spv_wallet.Tx.Applies.{handle_applies}
use spv_wallet.Tx.Sources.{handle_problematic_raw}

-- Texts stand for transactions, and a path holds its height.
abbrev texts : Sdk
texts = record {
  Transaction = String;
  MerklePath = ℕ;
  from_beef_hex = λ s. some s;
  from_hex = λ s. some s;
  with_merkle_path = λ t m. t;
  to_beef_hex = λ t. some t;
  path_from_hex = λ s. if_path (s =? "path");
  compute_root = λ m id. some id;
  height_of = λ m. m;
}
  where
    if_path : Bool → Option ℕ
    if_path true = some 800
    if_path false = none

abbrev row : String → Option String → Option String → TrackedTransaction
row id beef raw = record {
  id = id;
  tx_status = broadcasted;
  created_at = 1;
  updated_at = 10;
  block_height = none;
  block_hash = none;
  beef_hex = beef;
  raw_hex = raw;
}

abbrev two_rows : Database
two_rows = record {
  transactions = row "a" none (some "raw_a") ∷ row "b" (some "beef_b") none ∷ [];
  tx_inputs = record { tx_id = "a"; source_tx_id = "b" } ∷ [];
}

abbrev calm : Weather
calm = record { get_fails = false; update_fails = false; now = 30 }

abbrev info : ChainStatus → TxInfo
info s = record {
  tx_id = "a";
  timestamp = 20;
  status = s;
  block_hash = "block";
  block_height = pos 800;
  merkle_path = "path";
}

mined_a : (handle texts calm (info mined_on_chain) two_rows).0 ≡ ok tt
unfolding handle get_transaction handle_tracked is_problematic is_mined store confirm
    parse_merkle_path set_mined parse update_transaction
mined_a = refl

b_is_not_a : ◌≢◌ {A = String} "b" "a"
b_is_not_a h = true_is_not_false (b_test h)
  where
    b_test : ◌≡◌ {A = String} "b" "a" → true ≡ false
    b_test h = sym ((=?_iff "b" "a").1 h)

    true_is_not_false : true ≡ false → ⊥
    true_is_not_false h = cc

handle_keeps_others_example :
    let after = (handle texts calm (info mined_on_chain) two_rows).1 in
    (find "b" after.transactions ≡ find "b" two_rows.transactions)
    × (filter (λ i. i.tx_id =? "b") after.tx_inputs
        ≡ filter (λ i. i.tx_id =? "b") two_rows.tx_inputs)
handle_keeps_others_example =
    handle_keeps_others texts calm (info mined_on_chain) two_rows "b" b_is_not_a

abbrev unread : Weather
unread = record { get_fails = true; update_fails = false; now = 30 }

unread_fails : (handle texts unread (info mined_on_chain) two_rows).0 ≡ err get_failed
unfolding handle get_transaction
unread_fails = refl

handle-Atomic_example : (handle texts unread (info mined_on_chain) two_rows).1 ≡ two_rows
handle-Atomic_example =
    handle-Atomic texts unread (info mined_on_chain) two_rows get_failed unread_fails

mined_is_fine : is_problematic mined_on_chain ≡ false
unfolding is_problematic
mined_is_fine = refl

handle_mined_example :
    let after = (handle texts calm (info mined_on_chain) two_rows).1 in
    (after ≡ two_rows)
    ⊎ ((old : TrackedTransaction) × (r : TrackedTransaction) × (find "a" two_rows.transactions
          ≡ some old)
        × (old.updated_at ≤ 20)
        × (find "a" after.transactions ≡ some r)
        × MinedAs (info mined_on_chain) r
        × (r.updated_at ≡ 30)
        × (filter (λ i. i.tx_id =? "a") after.tx_inputs ≡ []))
handle_mined_example = handle_mined texts calm (info mined_on_chain) two_rows mined_is_fine

find_a : find "a" two_rows.transactions ≡ some (row "a" none (some "raw_a"))
unfolding find
find_a = refl

a_is_named : ◌≢◌ {A = String} "a" ""
a_is_named e = let h : ("a" =? "") ≡ true = (=?_iff "a" "").1 e in cc

handle_applies_example :
    let (r, after) = handle texts calm (info mined_on_chain) two_rows in
    (r ≡ ok tt)
    × (find "a" after.transactions
        ≡ some (record (row "a" none (some "raw_a")) {
          tx_status = mined;
          block_hash = some "block";
          block_height = some (pos 800);
          beef_hex = some "raw_a";
          raw_hex = none;
          updated_at = 30;
        }))
    × (filter (λ i. i.tx_id =? "a") after.tx_inputs ≡ [])
handle_applies_example =
    handle_applies texts calm (info mined_on_chain) two_rows (row "a" none (some "raw_a")) 800 "a"
      "raw_a" "raw_a" a_is_named refl refl find_a (omega arith) refl refl refl refl
      (inr ("raw_a", refl, refl, refl)) refl

in_time : 20 < 30
in_time = omega arith

handle_redelivered_example :
    let after = (handle texts calm (info mined_on_chain) two_rows).1 in
    (after ≡ two_rows) ⊎ ((handle texts calm (info mined_on_chain) after).1 ≡ after)
handle_redelivered_example =
    handle_redelivered texts calm calm (info mined_on_chain) two_rows in_time

says_rejected : is_problematic rejected ≡ true
unfolding is_problematic
says_rejected = refl

found_a : find "a" two_rows.transactions ≡ some (row "a" none (some "raw_a"))
unfolding find
found_a = refl

handle_problematic_raw_example :
    let after = (handle texts calm (info rejected) two_rows).1 in
    (after ≡ two_rows)
    ⊎ ((r : TrackedTransaction) × (find "a" after.transactions ≡ some r)
        × (r.tx_status ≡ problematic)
        × (r.beef_hex ≡ none)
        × (r.raw_hex ≡ some "raw_a")
        × (filter (λ i. i.tx_id =? "a") after.tx_inputs ≡ []))
handle_problematic_raw_example =
    handle_problematic_raw texts calm (info rejected) two_rows (row "a" none (some "raw_a"))
      says_rejected found_a refl
