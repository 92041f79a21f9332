-- ===== src/Beef/Tests.antt =====
-- A transaction that spends a raw transaction, which spends one in BEEF.
use spv_wallet.Prelude.{
  ℕ, ◌≡◌, refl, inl, inr, ◌↔◌, Bool, true, false, String, none, some, List, [], ◌∷◌, map, ◌=?◌,
  if◌then◌else◌, In, arith,
}
use spv_wallet.Prelude.Results.{ok, or_fail}
use spv_wallet.Tx.Model.{TrackedTransaction, mined, broadcasted}
use spv_wallet.Tx.Repository.{Database}
use spv_wallet.Beef.Search.{to_tx_query_result, find_transaction_input_sources, source_ids}
use spv_wallet.Beef.Ancestors.{IsAncestor, find_sources_iff}
use spv_wallet.Beef.Resolver.{
  Input, spends, Transaction, beef_hex_failed, Sources, Sdk, source_tx, prepare_beef,
}
use spv_wallet.Beef.Resolves.{AreSourcesOf, SpendsBelow, IsComplete}
use spv_wallet.Beef.Prepares.{prepare_beef-Resolves}

abbrev oldest : TrackedTransaction
oldest = record {
  id = "t1";
  tx_status = mined;
  created_at = 1;
  updated_at = 2;
  block_height = none;
  block_hash = none;
  beef_hex = some "beef";
  raw_hex = none;
}

abbrev middle : TrackedTransaction
middle = record {
  id = "t2";
  tx_status = broadcasted;
  created_at = 3;
  updated_at = 3;
  block_height = none;
  block_hash = none;
  beef_hex = none;
  raw_hex = some "raw";
}

abbrev stored : Database
stored = record {
  transactions = oldest ∷ middle ∷ [];
  tx_inputs = record { tx_id = "t2"; source_tx_id = "t1" } ∷ [];
}

abbrev up : List String → Bool
up ids = false

find_sources_iff_example :
    (rows : List TrackedTransaction) × (find_transaction_input_sources up stored ("t2" ∷ [])
      ≡ ok (map to_tx_query_result rows))
    × ((t : TrackedTransaction) → In t rows ↔ IsAncestor stored ("t2" ∷ []) t)
find_sources_iff_example = find_sources_iff up stored ("t2" ∷ []) (λ l. refl)

abbrev parsed_oldest : Transaction
parsed_oldest = record { tx_id = "t1"; inputs = spends "t0" ∷ [] }

abbrev parsed_middle : Transaction
parsed_middle = record { tx_id = "t2"; inputs = spends "t1" ∷ [] }

abbrev subject : Transaction
subject = record { tx_id = "t3"; inputs = spends "t2" ∷ [] }

abbrev sdk : Sdk
sdk = record {
  from_beef_hex = λ hex. some parsed_oldest;
  from_hex = λ hex. some parsed_middle;
  verify_scripts = λ s. true;
  beef_hex = λ tx sources. some "encoded";
}

abbrev rank : String → ℕ
rank id = if id =? "t2" then 1 else 0

middle-SpendsBelow : SpendsBelow sdk stored rank 1 parsed_middle.inputs
middle-SpendsBelow i (inl e) = (oldest, inl refl, e, omega arith)
middle-SpendsBelow i (inr k) = absurd k

subject-SpendsBelow : SpendsBelow sdk stored rank 2 subject.inputs
subject-SpendsBelow i (inl e) = (middle, inr (inl refl), e, omega arith)
subject-SpendsBelow i (inr k) = absurd k

stored-IsComplete : IsComplete sdk stored rank
unfolding source_tx to_tx_query_result source_ids
stored-IsComplete t (inl e) = rw e (record { tx = parsed_oldest; had_beef = true }, refl, λ raw. cc)
stored-IsComplete t (inr (inl e)) = rw e (
  record { tx = parsed_middle; had_beef = false },
  refl,
  λ raw.
      (middle-SpendsBelow, λ id i. elim i [ inl q ↦ rw (spends_same q) refl | inr k ↦ absurd k ]),
)
  where
    spends_same : {a b : String} → ◌≡◌ {A = Input} (spends a) (spends b) → a ≡ b
    spends_same q = cc
stored-IsComplete t (inr (inr i)) = absurd i

prepare_beef-Resolves_example :
    (sources : Sources) × (prepare_beef sdk
        (find_transaction_input_sources up stored)
        2
        (some subject)
      ≡ or_fail (sdk.beef_hex subject sources) beef_hex_failed)
    × AreSourcesOf sdk stored subject.inputs sources
prepare_beef-Resolves_example =
    prepare_beef-Resolves sdk stored up rank 2 subject (λ l. refl) stored-IsComplete (λ s. refl)
      (λ e. cc) subject-SpendsBelow
