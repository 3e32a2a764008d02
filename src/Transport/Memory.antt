-- ===== src/Transport/Memory.antt =====
-- eventforge/transports/memory.py, `MemoryTransport`. `C` names the callbacks; `invoke` runs one
-- on the transport and the rest of the world, and answers whether it raised. A missing key of
-- `_queues` reads as an empty queue.
pub mod Index
pub mod Delivery
use observer_pattern.Prelude.{
  ℕ, zero, suc, ◌+◌, Bool, true, false, ◌&&◌, Option, none, some, List, [], ◌∷◌, ◌++◌,
  if◌then◌else◌, ltb, leb, ◌==◌, Text, length, filter, nat_eq, text_eq, not,
}
use observer_pattern.Prelude.Dict
use observer_pattern.Prelude.Dict.{Dict}
use observer_pattern.Types.{Message, Error, Result, ok, err, runtime_error, transport_full}
use observer_pattern.Transport.Patterns.{memory_matches}

pub record MemoryTransport (C : Type 0) : Type 0 where
  pub max_queue_size : ℕ
  pub queues : Dict Text (List Message)
  pub subscribers : Dict ℕ C
  pub topic_subs : Dict Text (List ℕ)
  pub sub_topic : Dict ℕ Text
  pub closed : Bool
  pub uuids : ℕ

-- `subs.remove(x)`: the first occurrence
unfoldable pub remove_first : ℕ → List ℕ → List ℕ
remove_first x [] = []
remove_first x (y ∷ l) = if y == x then l else y ∷ remove_first x l

-- `_topic_subs` without the id, on the topic that `_sub_topic` gave
unfoldable pub drop_sub : ℕ → Option Text → Dict Text (List ℕ) → Dict Text (List ℕ)
drop_sub sub_id none subs = subs
drop_sub sub_id (some topic) subs = elim (Dict.get topic subs) [
  | none ↦ subs
  | some ids ↦ Dict.set topic (remove_first sub_id ids) subs
]

module _ {C : Type 0} where
  unfoldable pub init : ℕ → MemoryTransport C
  init max_queue_size = record {
    max_queue_size = max_queue_size;
    queues = [];
    subscribers = [];
    topic_subs = [];
    sub_topic = [];
    closed = false;
    uuids = 0;
  }

  unfoldable pub queue_of : Text → MemoryTransport C → List Message
  queue_of topic t = Dict.get_or topic [] t.queues

  -- `self._queues[topic].put_nowait(message)`; a size of 0 is no bound
  unfoldable pub put_nowait : Message → MemoryTransport C → Result (Unit {0}) × MemoryTransport C
  put_nowait message t =
      let q = queue_of message.topic t in
      if ltb 0 t.max_queue_size && leb t.max_queue_size (length q)
      then (err transport_full, t)
      else (ok tt, record t { queues = Dict.set message.topic (q ++ message ∷ []) t.queues })

  unfoldable pub subscribe : Text → C → MemoryTransport C → Result ℕ × MemoryTransport C
  subscribe topic callback t = if t.closed then (err runtime_error, t) else (
    ok t.uuids,
    record t {
      uuids = suc t.uuids;
      subscribers = Dict.set t.uuids callback t.subscribers;
      topic_subs = Dict.set topic (Dict.get_or topic [] t.topic_subs ++ t.uuids ∷ []) t.topic_subs;
      sub_topic = Dict.set t.uuids topic t.sub_topic;
    },
  )

  unfoldable pub unsubscribe : ℕ → MemoryTransport C → Bool × MemoryTransport C
  unsubscribe sub_id t = if not (Dict.contains sub_id t.subscribers) then (false, t) else (
    true,
    record t {
      subscribers = Dict.erase sub_id t.subscribers;
      sub_topic = Dict.erase sub_id t.sub_topic;
      topic_subs = drop_sub sub_id (Dict.get sub_id t.sub_topic) t.topic_subs;
    },
  )

  unfoldable pub close : MemoryTransport C → MemoryTransport C
  close t = record t { closed = true; subscribers = []; topic_subs = []; sub_topic = [] }

module _ {C : Type 0} where
  abbrev pub take_first :
      Text → List Message → MemoryTransport C → Option Message × MemoryTransport C
  take_first topic [] t = (none, t)
  take_first topic (message ∷ rest) t =
      (some message, record t { queues = Dict.set topic rest t.queues })

-- The transport and whatever else the callbacks change.
abbrev pub World : Type 0 → Type 0 → Type 0
World C E = MemoryTransport C × E

module _ {C E : Type 0} where
  module _ (invoke : C → Message → World C E → Bool × World C E) where
    -- One turn of the loop in `send`: an exception of the callback is swallowed, what it did stays.
    unfoldable pub notify_one : Message → ℕ × C → World C E → World C E
    notify_one message (sub_id, callback) world = elim (Dict.get sub_id world.0.sub_topic) [
      | none ↦ world
      | some pattern ↦
          if memory_matches message.topic pattern then (invoke callback message world).1 else world
    ]

    unfoldable pub notify : Message → List (ℕ × C) → World C E → World C E
    notify message [] world = world
    notify message (sub ∷ subs) world = notify message subs (notify_one message sub world)

    unfoldable pub send : Message → World C E → Result (Unit {0}) × World C E
    send message (t, env) =
        if t.closed
        then (err runtime_error, (t, env))
        else (let (t₁, env₁) = notify message t.subscribers (t, env) in
            let (r, t₂) = put_nowait message t₁ in (r, (t₂, env₁)))

  -- `Queue.get(timeout)`: what other threads do while it waits comes from the list; where that ends
  -- the timeout has passed.
  unfoldable pub get_queued :
      Text → List (World C E → World C E) → World C E → Option Message × World C E
  get_queued topic [] (t, env) =
      let (r, t₁) = take_first topic (queue_of topic t) t in (r, (t₁, env))
  get_queued topic (others ∷ waits) (t, env) =
      let (r, t₁) = take_first topic (queue_of topic t) t in
      let waited = get_queued topic waits (others (t₁, env)) in
      elim r [ none ↦ waited | some message ↦ (some message, (t₁, env)) ]

  unfoldable pub receive :
      Text → List (World C E → World C E) → World C E → Option Message × World C E
  receive topic waits (t, env) =
      if t.closed then (none, (t, env)) else get_queued topic waits (t, env)
