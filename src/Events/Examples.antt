-- ===== src/Events/Examples.antt =====
-- A bus with a subscriber that is there and one that is gone.
use liz.Prelude.{◌<◌, String, ◌≡◌, true, false, none, [], ◌∷◌, map, All, arith}
use liz.Events.{PendingEvent, EventBus, publish_all}
use liz.Events.Delivery.{
  after_all, still_connected, number, HasIncreasingIds, publish_all-subscribers,
  publish_all-HasIncreasingIds,
}

abbrev hello : PendingEvent String
hello = record { thread_id = "t1"; turn_id = none; payload = "hello" }

abbrev bye : PendingEvent String
bye = record { thread_id = "t1"; turn_id = none; payload = "bye" }

abbrev bus : EventBus String
bus = record {
  subscribers =
      record { received = []; connected = true } ∷ record { received = []; connected = false } ∷ [];
  sequence = 0;
  clock = λ n. n;
  readings = 0;
}

publish_all-subscribers_example :
    let (events, after) = publish_all (hello ∷ bye ∷ []) bus in
    after.subscribers ≡ map (after_all events) (still_connected bus.subscribers)
publish_all-subscribers_example = publish_all-subscribers hello (bye ∷ []) bus

publish_all-HasIncreasingIds_example :
    All (λ event. bus.sequence < number event) (publish_all (hello ∷ bye ∷ []) bus).0
    × HasIncreasingIds (publish_all (hello ∷ bye ∷ []) bus).0
publish_all-HasIncreasingIds_example =
    publish_all-HasIncreasingIds (hello ∷ bye ∷ []) bus (omega arith)
