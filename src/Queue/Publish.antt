-- ===== src/Queue/Publish.antt =====
-- eventforge/queue.py, `publish`: which handlers a message reaches.
use observer_pattern.Prelude.{
  ◌<◌, ℕ, ◌≤◌, ◌⊎◌, length, ◌≡◌, Option, none, some, List, [], ◌∷◌, ◌++◌, if◌then◌else◌, Text,
  nat_eq, text_eq,
}
use observer_pattern.Prelude.Dict
use observer_pattern.Prelude.Dict.{Dict}
use observer_pattern.Types.{Message, Error, Result, ok, err, transport_full}
use observer_pattern.Transport.Patterns.{memory_matches}
use observer_pattern.Transport.Memory
use observer_pattern.Transport.Memory.{MemoryTransport, World}
use observer_pattern.Transport.Memory.Delivery.{HasRoom, enqueued}
use observer_pattern.Observers.Dispatch.Broadcast.{noting, reached}
use observer_pattern.Observers.Channel.{Eventful}
use observer_pattern.Observers.Channel.Fire.{afterwards}
use observer_pattern.Observers.Channel.Lift.{lifted}
use observer_pattern.Queue.{MessageQueue}

module _ {H : Type 0} (raises : H → Message → Option Error) where
  -- The handlers of a channel that a fire calls: up to the first that raises.
  abbrev pub reach : Message → Option (Eventful H) → List H
  reach message none = []
  reach message (some channel) =
      (reached raises message channel.subscribers).0
      ++ afterwards [] channel (reached raises message channel.subscribers).1

  -- Those of all topics whose subscription matches, oldest subscription first.
  abbrev pub delivered :
      MemoryTransport Text → Dict Text (Eventful H) → Message → List (ℕ × Text) → List H
  delivered t topics message [] = []
  delivered t topics message ((sub_id, name) ∷ subs) = elim (Dict.get sub_id t.sub_topic) [
    | none ↦ delivered t topics message subs
    | some pattern ↦
        if memory_matches message.topic pattern
        then reach message (Dict.get name topics) ++ delivered t topics message subs
        else delivered t topics message subs
  ]

  -- Handlers that note the call, may raise, and leave the queue alone.
  abbrev pub watching :
      H
      → Message
      → World Text (Dict Text (Eventful H) × List H)
      → Result (Unit {0}) × World Text (Dict Text (Eventful H) × List H)
  watching = lifted (lifted (noting raises))

  -- What `publish` answers and leaves of the transport.
  abbrev pub Published : Message → MessageQueue H → Result ℕ × MemoryTransport Text → Type 0
  Published message q (r, t) =
      (HasRoom message.topic q.transport × (r ≡ ok message.id) × (t ≡ enqueued message q.transport))
      ⊎ ((0 < q.transport.max_queue_size)
          × (q.transport.max_queue_size ≤ length (Memory.queue_of message.topic q.transport))
          × (r ≡ err transport_full)
          × (t ≡ q.transport))
