-- ===== src/Webhooks/Model.antt =====
-- model_webhook.go: the record, its methods and its repository.
use spv_wallet.Prelude.{
  ℕ, Bool, false, not, String, Option, none, some, List, [], ◌∷◌, ◌=?◌, ltb, filter, if◌then◌else◌,
  is_some, is_none,
}

pub record Webhook : Type 0 where
  pub url : String
  pub token_header : String
  pub token : String
  pub banned_to : Option ℕ
  pub deleted_at : Option ℕ

pub data WebhookError : Type 0 where
  check_failed store_failed not_found unsubscription_failed get_all_failed panicked : WebhookError

unfoldable pub new_webhook : String → String → String → Webhook
new_webhook url token_header token = record {
  url = url;
  token_header = token_header;
  token = token;
  banned_to = none;
  deleted_at = none;
}

-- `Banned`: the ban is over after its last moment.
unfoldable pub banned : ℕ → Webhook → Bool
banned now w = elim w.banned_to [ none ↦ false | some t ↦ not (ltb t now) ]

unfoldable pub ban_until : ℕ → Webhook → Webhook
ban_until t w = record w { banned_to = some t }

unfoldable pub refresh : String → String → Webhook → Webhook
refresh token_header token w = record w {
  deleted_at = none;
  banned_to = none;
  token_header = token_header;
  token = token;
}

abbrev pub deleted : Webhook → Bool
deleted w = is_some w.deleted_at

-- `delete`
unfoldable pub mark_deleted : ℕ → Webhook → Webhook
mark_deleted now w = record w { deleted_at = some now }

-- Whether the database fails, and the clock.
pub record Weather : Type 0 where
  pub get_fails : Bool
  pub save_fails : Bool
  pub get_all_fails : Bool
  pub now : ℕ

-- `GetByURL`, which finds deleted webhooks too.
unfoldable pub get_by_url : String → List Webhook → Option Webhook
get_by_url url [] = none
get_by_url url (w ∷ table) = if w.url =? url then some w else get_by_url url table

-- `Save` of a model that was read: the row with its key is replaced.
unfoldable pub save_row : Webhook → List Webhook → List Webhook
save_row w [] = []
save_row w (r ∷ table) = (if r.url =? w.url then w else r) ∷ save_row w table

-- `GetAll`
unfoldable pub get_all : List Webhook → List Webhook
get_all table = filter (λ w. is_none w.deleted_at) table
