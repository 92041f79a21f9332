-- ===== src/Chain/Tests.antt =====
-- A broadcast that is answered, and two getters.
use spv_wallet.Prelude.{◌≡◌, ◌↔◌, refl, true, false, String, Option, some, List, [], ◌∷◌, In}
use spv_wallet.Prelude.Int.{pos}
use spv_wallet.Prelude.Results.{ok}
use spv_wallet.Tx.Model.{TxInfo, seen_on_network, is_problematic}
use spv_wallet.Beef.Search.{is_member}
use spv_wallet.Chain.Broadcast.{
  conversion_failed, Response, Reply, answered, ArcConfig, prepare_tx_hex, read_response, broadcast,
}
use spv_wallet.Chain.Getters.{to_set, delete_key, take_missing, get_from, get_transactions}
use spv_wallet.Chain.Answers.{IsBody, IsHeader, broadcast-ok}
use spv_wallet.Chain.Fetched.{HasUniqueIds, get_transactions-HasUniqueIds}

abbrev seen : TxInfo
seen = record {
  tx_id = "t1";
  timestamp = 5;
  status = seen_on_network;
  block_hash = "";
  block_height = pos 0;
  merkle_path = "";
}

abbrev config : ArcConfig
config = record {
  token = "secret";
  deployment_id = "";
  callback = some (record { url = "http://me"; token = "" });
  wait_for = "";
}

abbrev answers : List (String × String) → String → Reply
answers headers body = answered (record { status_code = 200; info = seen })

broadcasts : broadcast config answers conversion_failed "raw" ≡ ok seen
unfolding broadcast prepare_tx_hex read_response is_problematic
broadcasts = refl

broadcast-ok_example :
    (headers : List (String × String)) × (body : String) × (response : Response) × (answers headers
        body
      ≡ answered response)
    × ((h : String × String) → In h headers ↔ IsHeader config h)
    × IsBody conversion_failed "raw" body
    × (response.status_code ≡ 200)
    × (response.info ≡ seen)
    × (is_problematic seen.status ≡ false)
broadcast-ok_example = broadcast-ok config answers conversion_failed "raw" seen broadcasts

-- A transaction that is its id.
abbrev itself : String → String
itself id = id

abbrev getters : List (Option (List String → Option (List String)))
getters = some (λ ids. some ("a" ∷ "c" ∷ [])) ∷ some (λ ids. some ("b" ∷ "a" ∷ [])) ∷ []

gets_two : get_transactions itself getters ("a" ∷ "b" ∷ "a" ∷ []) ≡ ok ("a" ∷ "b" ∷ [])
unfolding get_transactions get_from take_missing delete_key to_set
gets_two = refl

get_transactions-HasUniqueIds_example :
    HasUniqueIds itself ("a" ∷ "b" ∷ [])
    × ((tx : String) → In tx ("a" ∷ "b" ∷ []) → is_member tx ("a" ∷ "b" ∷ "a" ∷ []) ≡ true)
get_transactions-HasUniqueIds_example =
    get_transactions-HasUniqueIds itself getters ("a" ∷ "b" ∷ "a" ∷ []) ("a" ∷ "b" ∷ []) gets_two
