-- ===== src/Events/Delivery.antt =====
-- What subscribers of the event bus get, and the numbers in the ids of events.
use text.Mathlib.TextLemmas.{append_assoc}
use liz.Prelude.{
  ℕ, ◌+◌, ◌^◌, ◌≤◌, ◌<◌, ◌≡◌, refl, ap, ◌∙◌, List, [], ◌∷◌, ◌++◌, map, All, retain, length, arith,
}
use liz.Text.Digits.{to_decimal, last_number, last_number-to_decimal, last_number-append}
use liz.Events.{
  PendingEvent, ServerEvent, Subscriber, EventBus, send_all, next_sequence, event_of, publish,
  publish_all,
}

module _ {P : Type 0} where
  -- What a subscriber has when all of some events were sent to it.
  abbrev pub after_all : List (ServerEvent P) → Subscriber P → Subscriber P
  after_all events s = record s { received = s.received ++ events }

  abbrev pub still_connected : List (Subscriber P) → List (Subscriber P)
  still_connected subscribers = retain (λ (s : Subscriber P). s.connected) subscribers

  append_assoc_list : (xs ys zs : List (ServerEvent P)) → (xs ++ ys) ++ zs ≡ xs ++ (ys ++ zs)
  append_assoc_list [] ys zs = refl
  append_assoc_list (x ∷ xs) ys zs = cc (append_assoc_list xs ys zs)

  send_all-map :
      (event : ServerEvent P) (subs : List (Subscriber P))
      → send_all event subs ≡ map (after_all (event ∷ [])) (still_connected subs)
  unfolding send_all retain
  send_all-map event [] = refl
  send_all-map event (s ∷ subs) = ground (arith, send_all-map event subs)

  send_all-more :
      (event : ServerEvent P) (events : List (ServerEvent P)) (subs : List (Subscriber P))
      → map (after_all events) (still_connected (send_all event subs))
        ≡ map (after_all (event ∷ events)) (still_connected subs)
  unfolding send_all retain
  send_all-more event events [] = refl
  send_all-more event events (s ∷ subs) =
      ground
        (arith, send_all-more event events subs, append_assoc_list s.received (event ∷ []) events)

  -- Publishing events, at least one, leaves the subscribers that are still connected, and adds to
  -- each of them exactly these events, in the order in which they were published.
  pub publish_all-subscribers :
      (pending : PendingEvent P) (rest : List (PendingEvent P)) (bus : EventBus P)
      → let (events, after) = publish_all (pending ∷ rest) bus in
        after.subscribers ≡ map (after_all events) (still_connected bus.subscribers)
  unfolding publish_all publish
  publish_all-subscribers pending [] bus = send_all-map (event_of pending bus) bus.subscribers
  publish_all-subscribers pending (next ∷ rest) bus =
      publish_all-subscribers next rest (publish pending bus).1
      ∙ send_all-more (event_of pending bus) (publish_all (next ∷ rest) (publish pending bus).1).0
          bus.subscribers

  -- The number in the id of an event.
  abbrev pub number : ServerEvent P → ℕ
  number event = last_number 0 event.event_id

  number-event_of :
      (pending : PendingEvent P) (bus : EventBus P)
      → number (event_of pending bus) ≡ next_sequence bus
  unfolding event_of
  number-event_of pending bus =
      ap (last_number 0) (append_assoc "event" "_" (to_decimal (next_sequence bus)))
      ∙ last_number-append "event" (to_decimal (next_sequence bus)) 0
      ∙ last_number-to_decimal (next_sequence bus)

  abbrev pub HasIncreasingIds : List (ServerEvent P) → Type 0
  HasIncreasingIds [] = Unit
  HasIncreasingIds (event ∷ events) =
      All (λ later. number event < number later) events × HasIncreasingIds events

  publish_all-above :
      (n : ℕ) (pendings : List (PendingEvent P)) (bus : EventBus P)
      → n ≤ bus.sequence
      → bus.sequence + length pendings < 2 ^ 64
      → All (λ later. n < number later) (publish_all pendings bus).0
  unfolding publish_all publish next_sequence
  publish_all-above n [] bus l room = tt
  publish_all-above n (pending ∷ rest) bus l room = (
    omega (arith, number-event_of pending bus),
    publish_all-above n rest (publish pending bus).1 (omega arith) (omega arith),
  )

  -- The numbers in the ids of the events that are published are larger than those given out before
  -- and increase from each event to those after it, as long as the counter does not wrap around.
  pub publish_all-HasIncreasingIds :
      (pendings : List (PendingEvent P)) (bus : EventBus P)
      → bus.sequence + length pendings < 2 ^ 64
      → All (λ event. bus.sequence < number event) (publish_all pendings bus).0
        × HasIncreasingIds (publish_all pendings bus).0
  unfolding publish_all publish next_sequence
  publish_all-HasIncreasingIds [] bus room = (tt, tt)
  publish_all-HasIncreasingIds (pending ∷ rest) bus room =
      let sent : EventBus P = (publish pending bus).1 in
      (
        publish_all-above bus.sequence (pending ∷ rest) bus (omega arith) room,
        (
          publish_all-above (number (event_of pending bus)) rest sent
              (omega (arith, number-event_of pending bus)) (omega arith),
          (publish_all-HasIncreasingIds rest sent (omega arith)).1,
        ),
      )
