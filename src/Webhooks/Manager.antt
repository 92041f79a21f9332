-- ===== src/Webhooks/Manager.antt =====
-- webhook_manager.go. The state is the table of webhooks, the map of notifiers with their current
-- definitions, and the keys of the output channels of notifications.go. The manager's goroutine handles
-- one message at a time.
use spv_wallet.Prelude.{
  ℕ, ◌+◌, Bool, not, String, Option, none, some, List, [], ◌∷◌, ◌++◌, map, ◌=?◌, filter, any,
  if◌then◌else◌, is_some,
}
use spv_wallet.Prelude.Results.{Result, ok, err}
use spv_wallet.Webhooks.Model.{
  Webhook, WebhookError, check_failed, store_failed, not_found, unsubscription_failed, panicked,
  new_webhook, banned, ban_until, refresh, deleted, mark_deleted, Weather, get_by_url, save_row,
  get_all,
}

-- A Go map from urls to the definitions of their notifiers.
abbrev pub Notifiers : Type 0
Notifiers = List (String × Webhook)

unfoldable pub load : String → Notifiers → Option Webhook
load url [] = none
load url ((k, w) ∷ rest) = if k =? url then some w else load url rest

unfoldable pub unload : String → Notifiers → Notifiers
unload url [] = []
unload url ((k, w) ∷ rest) =
    let others = unload url rest in if k =? url then others else (k, w) ∷ others

unfoldable pub put_notifier : String → Webhook → Notifiers → Notifiers
put_notifier url w notifiers = (url, w) ∷ unload url notifiers

abbrev pub has_channel : String → List String → Bool
has_channel url channels = any (λ c. c =? url) channels

-- `Notifications.AddNotifier`
unfoldable pub add_channel : String → List String → List String
add_channel url channels = if has_channel url channels then channels else url ∷ channels

-- `Notifications.RemoveNotifier`
unfoldable pub remove_channel : String → List String → List String
remove_channel url channels = filter (λ c. not (c =? url)) channels

pub record Manager : Type 0 where
  pub webhooks : List Webhook
  pub notifiers : Notifiers
  pub channels : List String

unfoldable pub add_notifier : Webhook → Manager → Manager
add_notifier w m = record m {
  notifiers = put_notifier w.url w m.notifiers;
  channels = add_channel w.url m.channels;
}

unfoldable pub remove_notifier : String → Manager → Manager
remove_notifier url m = elim (load url m.notifiers) [
  | none ↦ m
  | some w ↦ record m {
    notifiers = unload url m.notifiers;
    channels = remove_channel url m.channels;
  }
]

unfoldable pub contains_webhook : List Webhook → String → Bool
contains_webhook webhooks url = any (λ w. w.url =? url) webhooks

-- The loop that adds notifiers.
unfoldable pub add_missing : List Webhook → Manager → Manager
add_missing [] m = m
add_missing (w ∷ webhooks) m =
    add_missing webhooks (if is_some (load w.url m.notifiers) then m else add_notifier w m)

-- The range that removes notifiers.
unfoldable pub remove_stale : List Webhook → List String → Manager → Manager
remove_stale webhooks [] m = m
remove_stale webhooks (url ∷ urls) m =
    remove_stale webhooks urls (if contains_webhook webhooks url then m else remove_notifier url m)

-- The loop that updates the definitions.
unfoldable pub update_definitions : List Webhook → Notifiers → Notifiers
update_definitions [] notifiers = notifiers
update_definitions (w ∷ webhooks) notifiers =
    update_definitions webhooks
      (if is_some (load w.url notifiers) then put_notifier w.url w notifiers else notifiers)

-- The webhooks that are neither deleted nor banned.
unfoldable pub active : ℕ → List Webhook → List Webhook
active now webhooks = filter (λ w. not (banned now w)) (get_all webhooks)

-- The notifiers and channels after `update` with these webhooks.
unfoldable pub serve : List Webhook → Manager → Manager
serve webhooks m =
    let added = add_missing webhooks m in
    let kept = remove_stale webhooks (map (λ (e : String × Webhook). e.0) added.notifiers) added in
    record kept { notifiers = update_definitions webhooks kept.notifiers }

-- `update`
unfoldable pub update : Weather → Manager → Manager
update w m = if w.get_all_fails then m else serve (active w.now m.webhooks) m

-- `Subscribe`; the update follows as a message.
unfoldable pub subscribe :
    Weather → String → String → String → Manager → Result WebhookError (Unit {0}) × Manager
subscribe w url token_header token m =
    if w.get_fails then (err check_failed, m) else if w.save_fails then (err store_failed, m) else (
      ok tt,
      elim (get_by_url url m.webhooks) [
        | some found ↦ record m {
          webhooks = save_row (refresh token_header token found) m.webhooks;
        }
        | none ↦ record m { webhooks = m.webhooks ++ new_webhook url token_header token ∷ [] }
      ],
    )

-- `Unsubscribe`
unfoldable pub unsubscribe : Weather → String → Manager → Result WebhookError (Unit {0}) × Manager
unsubscribe w url m = if w.get_fails then (err not_found, m) else elim (get_by_url url m.webhooks) [
  | none ↦ (err not_found, m)
  | some found ↦
      if deleted found
      then (err not_found, m)
      else if w.save_fails
      then (err unsubscription_failed, m)
      else (ok tt, record m { webhooks = save_row (mark_deleted w.now found) m.webhooks })
]

-- `banTime`: sixty minutes, in seconds.
abbrev pub ban_time : ℕ
ban_time = 3600

-- `markWebhookAsBanned`; a webhook that is not in the table is a nil pointer.
unfoldable pub mark_webhook_as_banned :
    Weather → String → Manager → Result WebhookError (Unit {0}) × Manager
mark_webhook_as_banned w url m =
    if w.get_fails then (err check_failed, m) else elim (get_by_url url m.webhooks) [
      | none ↦ (err panicked, m)
      | some found ↦ if w.save_fails then (err store_failed, m) else (
        ok tt,
        record m { webhooks = save_row (ban_until (w.now + ban_time) found) m.webhooks },
      )
    ]

-- The case of `banMsg` in `checkForUpdates`; the result is logged, and a panic ends the process.
unfoldable pub handle_ban : Weather → String → Manager → Option Manager
handle_ban w url m =
    let (r, m') = mark_webhook_as_banned w url m in
    elim r [
      | ok done ↦ some (remove_notifier url m')
      | err panicked ↦ none
      | err e ↦ some (remove_notifier url m')
    ]
