-- ===== src/Chain/Getters.antt =====
-- combined_txs_getter.go. A getter takes ids and returns transactions or an error; it may be nil. A Go map
-- with values true is the list of its keys.
use spv_wallet.Prelude.{
  true, false, not, String, Option, none, some, List, [], ◌∷◌, ◌++◌, ◌=?◌, filter, if◌then◌else◌,
}
use spv_wallet.Prelude.Results.{Result, ok, err, ◌>>=◌, or_fail}
use spv_wallet.Beef.Search.{is_member}

pub data GetterError : Type 0 where
  nil_getter get_transactions_failed : GetterError

module _ {A : Type 0} (tx_id : A → String) where
  -- The keys of `missingTxs`.
  unfoldable pub to_set : List String → List String
  to_set [] = []
  to_set (id ∷ ids) = let keys = to_set ids in if is_member id keys then keys else id ∷ keys

  unfoldable pub delete_key : String → List String → List String
  delete_key id keys = filter (λ k. not (k =? id)) keys

  -- The loop over the transactions of a getter: the new ones, and the ids that are still missing.
  unfoldable pub take_missing : List A → List String → List A × List String
  take_missing [] missing = ([], missing)
  take_missing (tx ∷ txs) missing = elim (is_member (tx_id tx) missing) [
    | false ↦ take_missing txs missing
    | true ↦
        let (taken, rest) = take_missing txs (delete_key (tx_id tx) missing) in (tx ∷ taken, rest)
  ]

  -- The loop over the getters.
  unfoldable pub get_from :
      List (Option (List String → Option (List A))) → List String → Result GetterError (List A)
  get_from [] missing = ok []
  get_from (getter ∷ getters) [] = ok []
  get_from (none ∷ getters) (id ∷ ids) = err nil_getter
  get_from (some getter ∷ getters) (id ∷ ids) = do
    txs ← or_fail (getter (id ∷ ids)) get_transactions_failed
    let taken = take_missing txs (id ∷ ids)
    rest ← get_from getters taken.1
    ok (taken.0 ++ rest)

  -- `GetTransactions`
  unfoldable pub get_transactions :
      List (Option (List String → Option (List A))) → List String → Result GetterError (List A)
  get_transactions getters ids = get_from getters (to_set ids)

  unfoldable pub filter_nil_getters :
      List (Option (List String → Option (List A))) → List (List String → Option (List A))
  filter_nil_getters [] = []
  filter_nil_getters (none ∷ getters) = filter_nil_getters getters
  filter_nil_getters (some getter ∷ getters) = getter ∷ filter_nil_getters getters

  unfoldable pub as_getters :
      List (List String → Option (List A)) → List (Option (List String → Option (List A)))
  as_getters [] = []
  as_getters (getter ∷ getters) = some getter ∷ as_getters getters

  -- `CombineTxsGetters`, and the getter that it makes.
  unfoldable pub combine_txs_getters :
      List (Option (List String → Option (List A))) → List String → Result GetterError (List A)
  combine_txs_getters getters ids = elim (filter_nil_getters getters) [
    | [] ↦ ok []
    | getter ∷ others ↦ elim others [
      | [] ↦ or_fail (getter ids) get_transactions_failed
      | _ ∷ _ ↦ get_transactions (as_getters (filter_nil_getters getters)) ids
    ]
  ]
