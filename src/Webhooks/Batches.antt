-- ===== src/Webhooks/Batches.antt =====
-- The batches of a notifier, and the events it delivers over any run of the exchange and the consumer.
use spv_wallet.Prelude.{
  ℕ, zero, suc, ◌+◌, ◌≤◌, ◌≡◌, refl, ◌∙◌, sym, ap, ◌⊎◌, inl, inr, List, [], ◌∷◌, ◌++◌, ltb, length,
  Bool-cases, arith,
}
use mathlib.Core.Path.{subst}
use spv_wallet.Webhooks.Sublists.{
  Sublist, empty, append_assoc, Sublist_trans, Sublist-append_both, Sublist-append, Sublist-without,
}
use spv_wallet.Webhooks.Notifier.{
  max_retries, length_of_webhook_channel, send_event_to_channel, accumulate, accumulate_events,
}
use spv_wallet.Webhooks.Consumer.{
  Phase, waiting, accumulating, sending, pausing, banning, returned, in_hand, Run, run, start, Step,
  notifies, receives, receives_more, finds_none, is_full, sends, fails, retries, gives_up,
  asks_for_ban, is_cancelled, Steps, done, then_step,
}

module _ {E : Type 0} where
  length-append : (xs : List E) (e : E) → length (xs ++ e ∷ []) ≡ suc (length xs)
  length-append [] e = refl
  length-append (x ∷ xs) e = ap suc (length-append xs e)

  accumulate_lem :
      (n : ℕ) (events queue : List E)
      → let (batch, rest) = accumulate n events queue in
        (batch ++ rest ≡ events ++ queue)
        × (length batch ≤ length events + n)
        × ((rest ≡ []) ⊎ (length batch ≡ length events + n))
  unfolding accumulate
  accumulate_lem zero events queue = (refl, omega arith, inr (omega arith))
  accumulate_lem (suc n) events [] = (refl, omega arith, inl refl)
  accumulate_lem (suc n) events (e ∷ queue) =
      let (all, most, full) = accumulate_lem n (events ++ e ∷ []) queue in
      let grown = length-append events e in
      (
        all ∙ append_assoc events (e ∷ []) queue,
        omega arith,
        elim full [ inl none_left ↦ inl none_left | inr at_most ↦ inr (omega arith) ],
      )

-- A batch and the events that stay in the queue are the events there were, in their order. A batch has
-- at most 101 events, and has 101 where events stay in the queue.
pub accumulate_events_lem :
    {E : Type 0} (event : E) (queue : List E)
    → let (batch, rest) = accumulate_events event queue in
      (batch ++ rest ≡ event ∷ queue) × (length batch ≤ 101) × ((rest ≡ []) ⊎ (length batch ≡ 101))
unfolding accumulate_events
accumulate_events_lem event queue = accumulate_lem 100 (event ∷ []) queue

module _ {E : Type 0} where
  -- The batch is within its bound, with the events that may still come.
  abbrev HasRoom : Phase E → Type 0
  HasRoom (accumulating n events) = length events + n ≤ 101
  HasRoom (sending n events) = length events ≤ 101
  HasRoom (pausing n events) = length events ≤ 101
  HasRoom phase = Unit

  abbrev IsInOrder : Run E → Type 0
  IsInOrder r =
      Sublist (r.taken ++ (in_hand r.phase ++ r.queue)) r.notified
      × (length r.queue ≤ length_of_webhook_channel)
      × HasRoom r.phase

  send_lem :
      (event : E) (taken queue notified : List E)
      → Sublist (taken ++ queue) notified
      → length queue ≤ length_of_webhook_channel
      → Sublist (taken ++ send_event_to_channel event queue) (notified ++ event ∷ [])
        × (length (send_event_to_channel event queue) ≤ length_of_webhook_channel)
  unfolding send_event_to_channel
  send_lem event taken queue notified s h =
      elim (Bool-cases (ltb (length queue) length_of_webhook_channel)) [
        | inr full ↦ rw full (Sublist-append event s, h)
        | inl room ↦
            let grown = length-append queue event in
            rw room (
              subst (λ l. Sublist l (notified ++ event ∷ []))
                  (append_assoc taken queue (event ∷ [])) (Sublist-append_both event s),
              ground arith,
            )
      ]

  Step-IsInOrder : (r s : Run E) → Step r s → IsInOrder r → IsInOrder s
  unfolding in_hand
  Step-IsInOrder _ _ (notifies notified taken queue phase event) (ordered, short, room) =
      let (more, fits) =
        send_lem event (taken ++ in_hand phase) queue notified
          (subst (λ l. Sublist l notified) (sym (append_assoc taken (in_hand phase) queue)) ordered)
          short in
      (
        subst (λ l. Sublist l (notified ++ event ∷ []))
            (append_assoc taken (in_hand phase) (send_event_to_channel event queue)) more,
        fits,
        room,
      )
  Step-IsInOrder _ _ (receives notified taken queue event) (ordered, short, room) =
      (ordered, omega arith, omega arith)
  Step-IsInOrder _ _ (receives_more notified taken queue n events event) (ordered, short, room) =
      let grown = length-append events event in
      (
        subst (λ l. Sublist (taken ++ l) notified) (sym (append_assoc events (event ∷ []) queue))
            ordered,
        omega arith,
        omega arith,
      )
  Step-IsInOrder _ _ (finds_none notified taken n events) (ordered, short, room) =
      (ordered, short, omega arith)
  Step-IsInOrder _ _ (is_full notified taken queue events) (ordered, short, room) =
      (ordered, short, omega arith)
  Step-IsInOrder _ _ (sends notified taken queue n events) (ordered, short, room) =
      (subst (λ l. Sublist l notified) (sym (append_assoc taken events queue)) ordered, short, tt)
  Step-IsInOrder _ _ (fails notified taken queue n events) h = h
  Step-IsInOrder _ _ (retries notified taken queue n events) h = h
  Step-IsInOrder _ _ (gives_up notified taken queue events) (ordered, short, room) =
      (Sublist_trans ordered (Sublist-without taken events queue), short, tt)
  Step-IsInOrder _ _ (asks_for_ban notified taken queue) h = h
  Step-IsInOrder _ _ (is_cancelled notified taken queue phase selects) (ordered, short, room) =
      (Sublist_trans ordered (Sublist-without taken (in_hand phase) queue), short, tt)

  Steps-IsInOrder : (r s : Run E) → Steps r s → IsInOrder r → IsInOrder s
  Steps-IsInOrder _ _ (done r) h = h
  Steps-IsInOrder _ _ (then_step r s t before last) h =
      Step-IsInOrder s t last (Steps-IsInOrder r s before h)

  in_hand_le : (phase : Phase E) → HasRoom phase → length (in_hand phase) ≤ 101
  unfolding in_hand
  in_hand_le waiting h = omega arith
  in_hand_le (accumulating n events) h = omega arith
  in_hand_le (sending n events) h = h
  in_hand_le (pausing n events) h = h
  in_hand_le banning h = omega arith
  in_hand_le returned h = omega arith

Steps-first : {E : Type 0} (r s t : Run E) → Step r s → Steps s t → Steps r t
Steps-first r _ _ first (done s) = then_step r r s (done r) first
Steps-first r _ _ first (then_step s u t before last) =
    then_step r u t (Steps-first r s u first before) last

-- While the exchange sends nothing, the steps of the consumer lead from a batch in hand to the batch that
-- `accumulate` makes of it.
accumulate-Steps :
    {E : Type 0} (notified taken : List E) (n : ℕ) (events queue : List E)
    → let (batch, rest) = accumulate n events queue in
      Steps
        (run notified taken queue (accumulating n events))
        (run notified taken rest (sending max_retries batch))
unfolding accumulate
accumulate-Steps notified taken zero events queue =
    then_step _ _ _ (done _) (is_full notified taken queue events)
accumulate-Steps notified taken (suc n) events [] =
    then_step _ _ _ (done _) (finds_none notified taken n events)
accumulate-Steps notified taken (suc n) events (e ∷ queue) =
    Steps-first _ _ _ (receives_more notified taken queue n events e)
      (accumulate-Steps notified taken n (events ++ e ∷ []) queue)

-- Over any run of the exchange and the consumer from an empty channel, in which the exchange may send
-- between any two steps of the consumer: the events of the batches that were sent with success, of the
-- batch in hand and of the channel, in this order, are events that were sent to the channel, none of them
-- twice and in the order of sending; the batch in hand has at most 101 events and the channel at most 100.
pub runs_deliver_in_order :
    {E : Type 0} (r : Run E)
    → Steps start r
    → Sublist (r.taken ++ (in_hand r.phase ++ r.queue)) r.notified
      × (length (in_hand r.phase) ≤ 101)
      × (length r.queue ≤ 100)
unfolding in_hand
runs_deliver_in_order r steps =
    let (ordered, short, room) = Steps-IsInOrder start r steps (empty, omega arith, tt) in
    (ordered, in_hand_le r.phase room, short)
