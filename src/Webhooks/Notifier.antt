-- ===== src/Webhooks/Notifier.antt =====
-- sendEventToChannel of notifications.go, and accumulateEvents of webhook_notifier.go as a function of the
-- channel. A channel is a queue of events.
use spv_wallet.Prelude.{ℕ, zero, suc, List, [], ◌∷◌, ◌++◌, ltb, if◌then◌else◌, length}

abbrev pub max_batch_size : ℕ
max_batch_size = 100

abbrev pub max_retries : ℕ
max_retries = 2

abbrev pub length_of_webhook_channel : ℕ
length_of_webhook_channel = 100

module _ {E : Type 0} where
  -- `sendEventToChannel`: an event that finds the channel full is dropped.
  unfoldable pub send_event_to_channel : E → List E → List E
  send_event_to_channel event channel =
      if ltb (length channel) length_of_webhook_channel then channel ++ event ∷ [] else channel

  -- The loop of `accumulateEvents`, with the events it has and the queue.
  unfoldable pub accumulate : ℕ → List E → List E → List E × List E
  accumulate zero events queue = (events, queue)
  accumulate (suc n) events [] = (events, [])
  accumulate (suc n) events (event ∷ queue) = accumulate n (events ++ event ∷ []) queue

  -- `accumulateEvents`, while the context is not done and nothing is sent to the channel.
  unfoldable pub accumulate_events : E → List E → List E × List E
  accumulate_events event queue = accumulate max_batch_size (event ∷ []) queue
