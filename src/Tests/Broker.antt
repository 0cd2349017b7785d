-- ===== src/Tests/Broker.antt =====
-- The broker at concrete subscribers: one with an empty queue, one that is full.
use selfevals.Prelude.{ℕ, zero, suc, ◌≡◌, refl, false, none, some, List, [], ◌∷◌, arith, length}
use selfevals.Broker.{
  Event, span, closed, Subscriber, Channel, Key, SpanBroker, find_channel, find_sub, close_run,
}
use selfevals.Broker.Delivery.{Subscribed, publish_all, close_run-publish_all, close_run-full}

abbrev run : Key
run = ("ws", "run")

abbrev subscriber : Subscriber
subscriber = record { queue = span "old" ∷ []; is_closed = false }

abbrev channel : Channel
channel = record { subscribers = 7 ∷ 8 ∷ []; is_closed = false; final_state = none }

abbrev broker : SpanBroker
broker = record { channels = (run, channel) ∷ []; store = (7, subscriber) ∷ (8, subscriber) ∷ [] }

broker-Subscribed : Subscribed run 8 broker channel
unfolding find_channel
broker-Subscribed = record { found = refl; open_yet = refl; once = refl }

close_run-publish_all_example :
    find_sub 8 (close_run run "completed" (publish_all run ("a" ∷ "b" ∷ []) broker)).store
    ≡ some
        (record subscriber { queue = span "old" ∷ span "a" ∷ span "b" ∷ closed "completed" ∷ [] })
unfolding find_sub
close_run-publish_all_example =
    close_run-publish_all run 8 ("a" ∷ "b" ∷ []) "completed" broker channel subscriber
      broker-Subscribed refl (omega arith)

abbrev repeated : ℕ → List Event
repeated zero = []
repeated (suc n) = span "x" ∷ repeated n

length-repeated : (n : ℕ) → length (repeated n) ≡ n
length-repeated zero = refl
length-repeated (suc n) = omega (arith, length-repeated n)

abbrev stuck : Subscriber
stuck = record { queue = repeated 256; is_closed = false }

abbrev stuck_broker : SpanBroker
stuck_broker = record broker { store = (8, stuck) ∷ [] }

stuck_broker-Subscribed : Subscribed run 8 stuck_broker channel
unfolding find_channel
stuck_broker-Subscribed = record { found = refl; open_yet = refl; once = refl }

stuck_found : find_sub 8 stuck_broker.store ≡ some stuck
unfolding find_sub
stuck_found = refl

close_run-full_example :
    (t : Subscriber) × (find_sub 8
        (close_run run "completed" (publish_all run ("a" ∷ []) stuck_broker)).store
      ≡ some t)
    × (t.queue ≡ stuck.queue)
close_run-full_example =
    close_run-full run 8 ("a" ∷ []) "completed" stuck_broker channel stuck stuck_broker-Subscribed
      stuck_found (length-repeated 256)
