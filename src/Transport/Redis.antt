-- ===== src/Transport/Redis.antt =====
-- eventforge/transports/redis.py, `RedisTransport`. The redis client is not in the repository: of
-- its PubSub the model keeps the calls that went through, the newest first, and an argument says
-- whether the next one does. `C` names the callbacks; `invoke` runs one on the transport and the
-- rest of the world, and answers whether it raised.
pub mod Refs
pub mod Users
pub mod Interest
pub mod Listener
use observer_pattern.Prelude.{
  ℕ, zero, suc, ◌+◌, ◌-◌, Bool, true, false, Option, none, some, List, [], ◌∷◌, ◌++◌, not,
  if◌then◌else◌, ltb, ◌==◌, Text, codes, nat_eq, text_eq,
}
use observer_pattern.Prelude.Dict
use observer_pattern.Prelude.Dict.{Dict}
use observer_pattern.Types.{Message, Error, Result, ok, err, runtime_error, application}
use observer_pattern.Transport.Glob.{replace}

pub data PubSubCall : Type 0 where
  psubscribe punsubscribe : Text → PubSubCall
  closed : PubSubCall

pub record RedisTransport (C : Type 0) : Type 0 where
  pub pubsub : List PubSubCall
  pub subscribers : Dict ℕ C
  pub sub_topic : Dict ℕ Text
  pub sub_pattern : Dict ℕ Text
  pub pattern_refs : Dict Text ℕ
  pub queues : Dict Text (List Message)
  pub queue_patterns : Dict Text Text
  pub running : Bool
  pub uuids : ℕ

unfoldable pub to_redis_pattern : Text → Text
to_redis_pattern topic = replace (codes "**") (codes "*") topic

module _ {C : Type 0} where
  unfoldable pub init : RedisTransport C
  init = record {
    pubsub = [];
    subscribers = [];
    sub_topic = [];
    sub_pattern = [];
    pattern_refs = [];
    queues = [];
    queue_patterns = [];
    running = true;
    uuids = 0;
  }

  unfoldable pub queue_of : Text → RedisTransport C → List Message
  queue_of topic t = Dict.get_or topic [] t.queues

  -- `_psubscribe`; a call that does not go through raises, and leaves the count that was read.
  unfoldable pub add_ref : Bool → Text → RedisTransport C → Result (Unit {0}) × RedisTransport C
  add_ref reached pattern t =
      let refs = Dict.get_or pattern 0 t.pattern_refs in
      if refs == 0
      then (if reached
          then (
            ok tt,
            record t {
              pubsub = psubscribe pattern ∷ t.pubsub;
              pattern_refs = Dict.set pattern 1 t.pattern_refs;
            },
          )
          else (err (application 0), record t { pattern_refs = Dict.set pattern 0 t.pattern_refs }))
      else (ok tt, record t { pattern_refs = Dict.set pattern (suc refs) t.pattern_refs })

  -- `_punsubscribe`; the exception of a call that does not go through is swallowed.
  unfoldable pub drop_ref : Bool → Text → RedisTransport C → RedisTransport C
  drop_ref reached pattern t =
      let refs = Dict.get_or pattern 0 t.pattern_refs in
      if refs == 0
      then t
      else if refs - 1 == 0
      then record t {
        pattern_refs = Dict.erase pattern t.pattern_refs;
        pubsub = if reached then punsubscribe pattern ∷ t.pubsub else t.pubsub;
      }
      else record t { pattern_refs = Dict.set pattern (refs - 1) t.pattern_refs }

  unfoldable pub ensure_queue_subscription :
      Bool → Text → RedisTransport C → Result (Unit {0}) × RedisTransport C
  ensure_queue_subscription reached topic t =
      if Dict.contains topic t.queue_patterns
      then (ok tt, t)
      else add_ref reached (to_redis_pattern topic)
          (record t { queue_patterns = Dict.set topic (to_redis_pattern topic) t.queue_patterns })

  -- What `subscribe` files before it asks for the pattern.
  abbrev pub filed : Text → C → RedisTransport C → RedisTransport C
  filed topic callback t = record t {
    uuids = suc t.uuids;
    subscribers = Dict.set t.uuids callback t.subscribers;
    sub_topic = Dict.set t.uuids topic t.sub_topic;
    sub_pattern = Dict.set t.uuids (to_redis_pattern topic) t.sub_pattern;
  }

  unfoldable pub subscribe : Bool → Text → C → RedisTransport C → Result ℕ × RedisTransport C
  subscribe reached topic callback t =
      if not t.running
      then (err runtime_error, t)
      else (let (r, u) = add_ref reached (to_redis_pattern topic) (filed topic callback t) in
          (elim r [ err e ↦ err e | ok done ↦ ok t.uuids ], u))

  -- `_sub_pattern.pop(subscription_id, None)`, and the reference to what was there
  unfoldable pub drop_pattern : Bool → ℕ → RedisTransport C → RedisTransport C
  drop_pattern reached sub_id t =
      let u : RedisTransport C = record t { sub_pattern = Dict.erase sub_id t.sub_pattern } in
      elim (Dict.get sub_id t.sub_pattern) [ none ↦ u | some pattern ↦ drop_ref reached pattern u ]

  unfoldable pub unsubscribe : Bool → ℕ → RedisTransport C → Bool × RedisTransport C
  unsubscribe reached sub_id t = if not (Dict.contains sub_id t.subscribers) then (false, t) else (
    true,
    drop_pattern reached sub_id (record t {
      subscribers = Dict.erase sub_id t.subscribers;
      sub_topic = Dict.erase sub_id t.sub_topic;
    }),
  )

  unfoldable pub close : Bool → RedisTransport C → RedisTransport C
  close reached t = record t {
    running = false;
    subscribers = [];
    sub_topic = [];
    sub_pattern = [];
    pattern_refs = [];
    queue_patterns = [];
    pubsub = if reached then closed ∷ t.pubsub else t.pubsub;
  }

  -- `send`: what the client publishes
  unfoldable pub send :
      {B : Type 0} → (Message → B) → Bool → Message → RedisTransport C → Result (Text × B)
  send serialize reached message t =
      if not t.running
      then err runtime_error
      else if reached
      then ok (message.topic, serialize message)
      else err (application 0)
