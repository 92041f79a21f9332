-- ===== src/Webhooks/Tests.antt =====
-- A webhook that is served, one that is banned and one that is deleted.
use spv_wallet.Prelude.{
  ℕ, ◌≤◌, ◌≡◌, refl, ◌↔◌, ◌⊎◌, false, String, Option, none, some, [], ◌∷◌, ◌++◌, In, length, arith,
}
use spv_wallet.Webhooks.Model.{Webhook, Weather, deleted, banned}
use spv_wallet.Webhooks.Manager.{Manager, contains_webhook, load, update}
use spv_wallet.Webhooks.Notifier.{accumulate_events, send_event_to_channel}
use spv_wallet.Webhooks.Consumer.{
  waiting, accumulating, sending, pausing, in_hand, Run, run, start, notifies, receives,
  receives_more, finds_none, sends, fails, retries, Steps, done, then_step,
}
use spv_wallet.Webhooks.Update.{IsSynced}
use spv_wallet.Webhooks.Serves.{HasUniqueUrls, update-Serves}
use spv_wallet.Webhooks.Sublists.{Sublist}
use spv_wallet.Webhooks.Batches.{accumulate_events_lem, runs_deliver_in_order}

abbrev webhook : String → Option ℕ → Option ℕ → Webhook
webhook url banned_to deleted_at = record {
  url = url;
  token_header = "";
  token = "";
  banned_to = banned_to;
  deleted_at = deleted_at;
}

abbrev manager : Manager
manager = record {
  webhooks =
      webhook "http://a" none none
      ∷ webhook "http://b" (some 50) none
      ∷ webhook "http://c" none (some 3)
      ∷ [];
  notifiers = ("http://b", webhook "http://b" none none) ∷ [];
  channels = "http://b" ∷ [];
}

abbrev weather : Weather
weather = record { get_fails = false; save_fails = false; get_all_fails = false; now = 20 }

manager-HasUniqueUrls : HasUniqueUrls manager.webhooks
unfolding contains_webhook
manager-HasUniqueUrls = (refl, (refl, (refl, tt)))

manager-IsSynced : IsSynced manager
unfolding load
manager-IsSynced u = ground arith

update-Serves_example :
    IsSynced (update weather manager)
    × ((u : String) (w : Webhook)
        → (load u (update weather manager).notifiers ≡ some w)
          ↔ (In w manager.webhooks × (w.url ≡ u) × (deleted w ≡ false) × (banned 20 w ≡ false)))
update-Serves_example = update-Serves weather manager refl manager-HasUniqueUrls manager-IsSynced

accumulate_events_lem_example :
    let (batch, rest) = accumulate_events {E = ℕ} 1 (2 ∷ 3 ∷ []) in
    (batch ++ rest ≡ 1 ∷ 2 ∷ 3 ∷ []) × (length batch ≤ 101) × ((rest ≡ []) ⊎ (length batch ≡ 101))
accumulate_events_lem_example = accumulate_events_lem 1 (2 ∷ 3 ∷ [])

-- One event is sent and received, and a second one is sent before the consumer looks for more.
two_in_hand : Steps {E = ℕ} start (run (7 ∷ 8 ∷ []) [] [] (accumulating 99 (7 ∷ 8 ∷ [])))
unfolding send_event_to_channel
two_in_hand =
    then_step start (run (7 ∷ 8 ∷ []) [] (8 ∷ []) (accumulating 100 (7 ∷ [])))
      (run (7 ∷ 8 ∷ []) [] [] (accumulating 99 (7 ∷ 8 ∷ [])))
      (then_step start (run (7 ∷ []) [] [] (accumulating 100 (7 ∷ [])))
        (run (7 ∷ 8 ∷ []) [] (8 ∷ []) (accumulating 100 (7 ∷ [])))
        (then_step start (run (7 ∷ []) [] (7 ∷ []) waiting)
          (run (7 ∷ []) [] [] (accumulating 100 (7 ∷ [])))
          (then_step start start (run (7 ∷ []) [] (7 ∷ []) waiting) (done start)
            (notifies [] [] [] waiting 7))
          (receives (7 ∷ []) [] [] 7))
        (notifies (7 ∷ []) [] [] (accumulating 100 (7 ∷ [])) 8))
      (receives_more (7 ∷ 8 ∷ []) [] [] 99 (7 ∷ []) 8)

-- They are sent at the second try.
abbrev two_taken : Run ℕ
two_taken = run (7 ∷ 8 ∷ []) (7 ∷ 8 ∷ []) [] waiting

takes_two : Steps {E = ℕ} start two_taken
takes_two =
    then_step start (run (7 ∷ 8 ∷ []) [] [] (sending 1 (7 ∷ 8 ∷ []))) two_taken
      (then_step start (run (7 ∷ 8 ∷ []) [] [] (pausing 1 (7 ∷ 8 ∷ [])))
        (run (7 ∷ 8 ∷ []) [] [] (sending 1 (7 ∷ 8 ∷ [])))
        (then_step start (run (7 ∷ 8 ∷ []) [] [] (sending 2 (7 ∷ 8 ∷ [])))
          (run (7 ∷ 8 ∷ []) [] [] (pausing 1 (7 ∷ 8 ∷ [])))
          (then_step start (run (7 ∷ 8 ∷ []) [] [] (accumulating 99 (7 ∷ 8 ∷ [])))
            (run (7 ∷ 8 ∷ []) [] [] (sending 2 (7 ∷ 8 ∷ []))) two_in_hand
            (finds_none (7 ∷ 8 ∷ []) [] 98 (7 ∷ 8 ∷ [])))
          (fails (7 ∷ 8 ∷ []) [] [] 1 (7 ∷ 8 ∷ [])))
        (retries (7 ∷ 8 ∷ []) [] [] 1 (7 ∷ 8 ∷ [])))
      (sends (7 ∷ 8 ∷ []) [] [] 0 (7 ∷ 8 ∷ []))

runs_deliver_in_order_example :
    Sublist (two_taken.taken ++ (in_hand two_taken.phase ++ two_taken.queue)) two_taken.notified
    × (length (in_hand two_taken.phase) ≤ 101)
    × (length two_taken.queue ≤ 100)
runs_deliver_in_order_example = runs_deliver_in_order two_taken takes_two
