-- ===== src/Webhooks/Consumer.antt =====
-- The consumer of webhook_notifier.go as steps: a goroutine that runs beside the exchange, which may send
-- to the channel between any two of its steps. The encoding of the events and the HTTP call are a send that
-- succeeds or fails.
use spv_wallet.Prelude.{ℕ, zero, suc, ◌≡◌, Bool, true, false, List, [], ◌∷◌, ◌++◌}
use spv_wallet.Webhooks.Notifier.{max_batch_size, max_retries, send_event_to_channel}

-- Where the consumer is. In `accumulateEvents` it has events and may receive some more; at a try to send
-- and in the delay after a failed one it has a batch and some tries left.
pub data Phase (E : Type 0) : Type 0 where
  waiting : Phase E
  accumulating : ℕ → List E → Phase E
  sending pausing : ℕ → List E → Phase E
  banning : Phase E
  returned : Phase E

module _ {E : Type 0} where
  -- The events that the consumer has received and not sent.
  unfoldable pub in_hand : Phase E → List E
  in_hand waiting = []
  in_hand (accumulating n events) = events
  in_hand (sending n events) = events
  in_hand (pausing n events) = events
  in_hand banning = []
  in_hand returned = []

  -- The phases with a `select` on `ctx.Done()`.
  unfoldable pub selects_done : Phase E → Bool
  selects_done waiting = true
  selects_done (accumulating zero events) = false
  selects_done (accumulating (suc n) events) = true
  selects_done (sending n events) = false
  selects_done (pausing n events) = true
  selects_done banning = false
  selects_done returned = false

-- The events that were sent to the channel, those in the batches that were sent to the webhook, the
-- channel, and the consumer.
pub record Run (E : Type 0) : Type 0 where
  pub notified : List E
  pub taken : List E
  pub queue : List E
  pub phase : Phase E

abbrev pub run : {E : Type 0} → List E → List E → List E → Phase E → Run E
run notified taken queue phase = record {
  notified = notified;
  taken = taken;
  queue = queue;
  phase = phase;
}

abbrev pub start : {E : Type 0} → Run E
start = run [] [] [] waiting

-- A step of the exchange, `notifies`, or of the consumer.
pub data Step {E : Type 0} : Run E → Run E → Type 0 where
  notifies :
      (notified taken queue : List E) (phase : Phase E) (event : E)
      → Step
          (run notified taken queue phase)
          (run (notified ++ event ∷ []) taken (send_event_to_channel event queue) phase)
  receives :
      (notified taken queue : List E) (event : E)
      → Step
          (run notified taken (event ∷ queue) waiting)
          (run notified taken queue (accumulating max_batch_size (event ∷ [])))
  receives_more :
      (notified taken queue : List E) (n : ℕ) (events : List E) (event : E)
      → Step
          (run notified taken (event ∷ queue) (accumulating (suc n) events))
          (run notified taken queue (accumulating n (events ++ event ∷ [])))
  finds_none :
      (notified taken : List E) (n : ℕ) (events : List E)
      → Step
          (run notified taken [] (accumulating (suc n) events))
          (run notified taken [] (sending max_retries events))
  is_full :
      (notified taken queue events : List E)
      → Step
          (run notified taken queue (accumulating zero events))
          (run notified taken queue (sending max_retries events))
  sends :
      (notified taken queue : List E) (n : ℕ) (events : List E)
      → Step
          (run notified taken queue (sending (suc n) events))
          (run notified (taken ++ events) queue waiting)
  fails :
      (notified taken queue : List E) (n : ℕ) (events : List E)
      → Step
          (run notified taken queue (sending (suc n) events))
          (run notified taken queue (pausing n events))
  retries :
      (notified taken queue : List E) (n : ℕ) (events : List E)
      → Step
          (run notified taken queue (pausing n events))
          (run notified taken queue (sending n events))
  gives_up :
      (notified taken queue events : List E)
      → Step (run notified taken queue (sending zero events)) (run notified taken queue banning)
  asks_for_ban :
      (notified taken queue : List E)
      → Step (run notified taken queue banning) (run notified taken queue returned)
  is_cancelled :
      (notified taken queue : List E) (phase : Phase E)
      → selects_done phase ≡ true
      → Step (run notified taken queue phase) (run notified taken queue returned)

pub data Steps {E : Type 0} : Run E → Run E → Type 0 where
  done : (r : Run E) → Steps r r
  then_step : (r s t : Run E) → Steps r s → Step s t → Steps r t
