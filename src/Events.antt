-- ===== src/Events.antt =====
-- `EventBus` in crates/liz-app-server/src/events/mod.rs. The payload of an event is any type. A
-- subscriber is the channel behind its `Sender`: what was sent so far, and whether the `Receiver` is
-- still there, without which a send fails.
pub mod Delivery
mod Examples
use liz.Prelude.{ℕ, ◌+◌, ◌%◌, ◌^◌, Bool, true, Option, List, [], ◌∷◌, ◌++◌, if◌then◌else◌}
use liz.Text.{format}
use liz.Text.Digits.{to_decimal}
use liz.Protocol.Ids.{EventId, ThreadId, TurnId, Timestamp}
use liz.Runtime.Ids.{timestamp}

pub record PendingEvent (P : Type 0) : Type 0 where
  pub thread_id : ThreadId
  pub turn_id : Option TurnId
  pub payload : P

-- crates/liz-protocol/src/events.rs.
pub record ServerEvent (P : Type 0) : Type 0 where
  pub event_id : EventId
  pub thread_id : ThreadId
  pub turn_id : Option TurnId
  pub created_at : Timestamp
  pub payload : P

pub record Subscriber (P : Type 0) : Type 0 where
  pub received : List (ServerEvent P)
  pub connected : Bool

-- The clock of `now_timestamp` is part of the state: `clock n` is its n-th reading.
pub record EventBus (P : Type 0) : Type 0 where
  pub subscribers : List (Subscriber P)
  pub sequence : ℕ
  pub clock : ℕ → ℕ
  pub readings : ℕ

module _ {P : Type 0} where
  unfoldable pub subscribe : EventBus P → EventBus P
  subscribe bus = record bus {
    subscribers = bus.subscribers ++ record { received = []; connected = true } ∷ [];
  }

  -- `retain(|sender| sender.send(event.clone()).is_ok())`.
  unfoldable pub send_all : ServerEvent P → List (Subscriber P) → List (Subscriber P)
  send_all event [] = []
  send_all event (s ∷ rest) =
      let later = send_all event rest in
      if s.connected then record s { received = s.received ++ event ∷ [] } ∷ later else later

  -- `fetch_add` wraps at 2 ^ 64, and so does the `+ 1` on what it returns.
  unfoldable pub next_sequence : EventBus P → ℕ
  next_sequence bus = (bus.sequence + 1) % 2 ^ 64

  unfoldable pub event_of : PendingEvent P → EventBus P → ServerEvent P
  unfolding next_sequence
  event_of pending bus = record {
    event_id = format ("event_" ∷ to_decimal (next_sequence bus) ∷ []);
    thread_id = pending.thread_id;
    turn_id = pending.turn_id;
    created_at = timestamp (bus.clock bus.readings);
    payload = pending.payload;
  }

  unfoldable pub publish : PendingEvent P → EventBus P → ServerEvent P × EventBus P
  unfolding event_of send_all
  publish pending bus = (
    event_of pending bus,
    record bus {
      subscribers = send_all (event_of pending bus) bus.subscribers;
      sequence = next_sequence bus;
      readings = bus.readings + 1;
    },
  )

  unfoldable pub publish_all :
      List (PendingEvent P) → EventBus P → List (ServerEvent P) × EventBus P
  unfolding publish
  publish_all [] bus = ([], bus)
  publish_all (pending ∷ rest) bus =
      let (event, sent) = publish pending bus in
      let (events, after) = publish_all rest sent in (event ∷ events, after)
