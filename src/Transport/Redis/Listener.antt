-- ===== src/Transport/Redis/Listener.antt =====
-- eventforge/transports/redis.py: `_listen`, `_dispatch` and `receive`. The bytes of a message are
-- decoded to a text (or raise), and the text to a message (or is no message).
pub mod Due
pub mod Heard
use observer_pattern.Prelude.{
  ℕ, Bool, true, false, Option, none, some, List, [], ◌∷◌, ◌++◌, if◌then◌else◌, Text, not, nat_eq,
  text_eq,
}
use observer_pattern.Prelude.Dict
use observer_pattern.Types.{Message, Result, ok, err, application}
use observer_pattern.Transport.Segments.{segment_matches}
use observer_pattern.Transport.Redis.{RedisTransport, queue_of, ensure_queue_subscription}

-- `data` of what `get_message` returns.
pub data Datum : Type 0 where
  bytes text : Text → Datum
  other : Datum

-- What `get_message` does: it raises, and the flag is read once more; it returns None, or something
-- of a type that is no message, or a message.
pub data Reading : Type 0 where
  raises : Bool → Reading
  nothing irrelevant : Reading
  message : Datum → Reading

-- The transport and whatever else the callbacks change.
abbrev pub World : Type 0 → Type 0 → Type 0
World C E = RedisTransport C × E

module _ {C : Type 0} where
  -- `self._queues[topic].put(msg)`
  unfoldable pub put : Message → RedisTransport C → RedisTransport C
  put msg t = record t { queues = Dict.set msg.topic (queue_of msg.topic t ++ msg ∷ []) t.queues }

  -- The first message of a queue, if there is one.
  unfoldable pub take_first :
      Text → List Message → RedisTransport C → Option Message × RedisTransport C
  take_first topic [] t = (none, t)
  take_first topic (msg ∷ later) t = (some msg, record t { queues = Dict.set topic later t.queues })

module _ {C E : Type 0} where
  module _ (invoke : C → Message → World C E → Bool × World C E) where
    -- One turn of the loop in `_dispatch`: an exception of the callback is swallowed.
    unfoldable pub notify_one : Message → ℕ × C → World C E → World C E
    notify_one msg (sub_id, callback) world = elim (Dict.get sub_id world.0.sub_topic) [
      | none ↦ world
      | some pattern ↦
          if segment_matches msg.topic pattern then (invoke callback msg world).1 else world
    ]

    unfoldable pub notify : Message → List (ℕ × C) → World C E → World C E
    notify msg [] world = world
    notify msg (sub ∷ subs) world = notify msg subs (notify_one msg sub world)

    unfoldable pub dispatch : Message → World C E → World C E
    dispatch msg world = let (t, env) = notify msg world.0.subscribers world in (put msg t, env)

    unfoldable pub dispatch_json : (Text → Option Message) → Text → World C E → World C E
    dispatch_json validate payload world = elim (validate payload) [
      | none ↦ world
      | some msg ↦ dispatch msg world
    ]

    module _ (decode : Text → Option Text) (validate : Text → Option Message) where
      -- One turn: whether the loop goes on. Decoding bytes that are no UTF-8 raises out of the
      -- loop.
      unfoldable pub turn : Reading → World C E → Result Bool × World C E
      turn (raises running) world = (ok running, world)
      turn nothing world = (ok true, world)
      turn irrelevant world = (ok true, world)
      turn (message other) world = (ok true, world)
      turn (message (text payload)) world = (ok true, dispatch_json validate payload world)
      turn (message (bytes raw)) world = elim (decode raw) [
        | none ↦ (err (application 1), world)
        | some payload ↦ (ok true, dispatch_json validate payload world)
      ]

      -- `_listen`: each reading with the flag that the loop read before it.
      unfoldable pub listen : List (Bool × Reading) → World C E → Result (Unit {0}) × World C E
      listen [] world = (ok tt, world)
      listen ((running, reading) ∷ later) world =
          let (r, after) = turn reading world in
          let rest = listen later after in
          if running
          then (elim r [
            | err e ↦ (err e, after)
            | ok goes_on ↦ if goes_on then rest else (ok tt, after)
          ])
          else (ok tt, world)

  -- `Queue.get(timeout)`: what other threads do while it waits comes from the list; where that ends
  -- the timeout has passed.
  unfoldable pub get_queued :
      Text → List (World C E → World C E) → World C E → Option Message × World C E
  get_queued topic [] (t, env) = let (r, u) = take_first topic (queue_of topic t) t in (r, (u, env))
  get_queued topic (others ∷ waits) (t, env) =
      let (r, u) = take_first topic (queue_of topic t) t in
      let waited = get_queued topic waits (others (u, env)) in
      elim r [ none ↦ waited | some msg ↦ (some msg, (u, env)) ]

  unfoldable pub receive :
      Bool → Text → List (World C E → World C E) → World C E → Result (Option Message) × World C E
  receive reached topic waits (t, env) =
      if not t.running
      then (ok none, (t, env))
      else (let (r, u) = ensure_queue_subscription reached topic t in
          let (found, after) = get_queued topic waits (u, env) in
          elim r [ err e ↦ (err e, (u, env)) | ok done ↦ (ok found, after) ])
