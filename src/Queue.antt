-- ===== src/Queue.antt =====
-- eventforge/queue.py, `MessageQueue` over the in-memory transport. The transport calls back a
-- channel's `fire`, which is named by the channel's topic. `H` names the handlers; `handle` calls
-- one on the transport, the channels and the rest of the world `E`. `uuid_text` is the text of a
-- uuid4.
pub mod Wiring
pub mod Publish
mod Tests
use observer_pattern.Prelude.{
  ℕ, suc, Bool, true, false, Option, none, some, List, [], ◌∷◌, ◌++◌, if◌then◌else◌, Eq, Text,
  codes, nat_eq, text_eq,
}
use observer_pattern.Prelude.Dict
use observer_pattern.Prelude.Dict.{Dict}
use observer_pattern.Types.{Value, Headers, Message, Result, ok, err, value_error}
use observer_pattern.Transport.Memory
use observer_pattern.Transport.Memory.{MemoryTransport, World}
use observer_pattern.Observers.Dispatch.{broadcast}
use observer_pattern.Observers.Channel
use observer_pattern.Observers.Channel.{Eventful, fire}

-- `uuids` counts the draws of the queue itself.
pub record MessageQueue (H : Type 0) : Type 0 where
  pub transport : MemoryTransport Text
  pub topics : Dict Text (Eventful H)
  pub sub_ids : Dict ℕ (Text × H)
  pub transport_subs : Dict Text ℕ
  pub uuids : ℕ

module _ {H : Type 0} where
  unfoldable pub init : MemoryTransport Text → MessageQueue H
  init transport = record {
    transport = transport;
    topics = [];
    sub_ids = [];
    transport_subs = [];
    uuids = 0;
  }

  abbrev pub channel : Eventful H
  channel = record { subscribers = []; owner = none; name = none }

  -- `topic(name)`: on a closed transport it raises with the channel already recorded.
  unfoldable pub topic : Text → MessageQueue H → Result (Unit {0}) × MessageQueue H
  topic name q =
      if Dict.contains name q.topics
      then (ok tt, q)
      else (let (r, t) = Memory.subscribe name name q.transport in
          let q₁ : MessageQueue H = record q {
            topics = Dict.set name channel q.topics;
            transport = t;
          } in
          elim r [
            | err e ↦ (err e, q₁)
            | ok sub_id ↦
                (ok tt, record q₁ { transport_subs = Dict.set name sub_id q₁.transport_subs })
          ])

  unfoldable pub subscribe : Text → H → MessageQueue H → Result ℕ × MessageQueue H
  subscribe name fn q =
      let (r, q₁) = topic name q in
      elim r [
        | err e ↦ (err e, q₁)
        | ok u ↦ (
          ok q₁.uuids,
          record q₁ {
            uuids = suc q₁.uuids;
            topics =
                Dict.set name (Channel.subscribe fn (Dict.get_or name channel q₁.topics)) q₁.topics;
            sub_ids = Dict.set q₁.uuids (name, fn) q₁.sub_ids;
          },
        )
      ]

  -- `close`
  unfoldable pub close : MessageQueue H → MessageQueue H
  close q = record q { transport = Memory.close q.transport }

  -- `topics()`
  unfoldable pub topic_names : MessageQueue H → List Text
  topic_names q = Dict.keys q.topics

module _ {H : Type 0} ⦃e : Eq H⦄ where
  unfoldable pub unsubscribe : ℕ → MessageQueue H → Bool × MessageQueue H
  unsubscribe handler_id q = elim (Dict.get handler_id q.sub_ids) [
    | none ↦ (false, q)
    | some (name, fn) ↦
        let q₁ : MessageQueue H = record q { sub_ids = Dict.erase handler_id q.sub_ids } in
        elim (Dict.get name q.topics) [
          | none ↦ (false, q₁)
          | some channel ↦
              let (removed, channel₁) = Channel.unsubscribe fn channel in
              (removed, record q₁ { topics = Dict.set name channel₁ q.topics })
        ]
  ]

-- The message that `publish`, `request` or `reply` sends.
abbrev pub message_of : ℕ → ℕ → Text → Value → Headers → Option Text → Option ℕ → Message
message_of now id topic payload headers reply_to correlation_id = record {
  id = id;
  topic = topic;
  payload = payload;
  headers = headers;
  timestamp = now;
  reply_to = reply_to;
  correlation_id = correlation_id;
}

module _ {H E : Type 0}
    (handle : H
      → Message
      → World Text (Dict Text (Eventful H) × E)
      → Result (Unit {0}) × World Text (Dict Text (Eventful H) × E)) where
  -- The callback of a topic: its channel fires; whether that raised.
  unfoldable pub relay :
      Text
      → Message
      → World Text (Dict Text (Eventful H) × E)
      → Bool × World Text (Dict Text (Eventful H) × E)
  relay name message (t, (topics, env)) = elim (Dict.get name topics) [
    | none ↦ (false, (t, (topics, env)))
    | some channel ↦
        let (r, world) = fire handle (broadcast handle) [] channel message (t, (topics, env)) in
        (elim r [ err e ↦ true | ok u ↦ false ], world)
  ]

  -- `self._transport.send(message)`
  unfoldable pub transmit : Message → MessageQueue H × E → Result (Unit {0}) × (MessageQueue H × E)
  transmit message (q, env) =
      let (r, (t, (topics, env₁))) = Memory.send relay message (q.transport, (q.topics, env)) in
      (r, (record q { transport = t; topics = topics }, env₁))

  unfoldable pub publish :
      ℕ → Text → Value → Headers → MessageQueue H × E → Result ℕ × (MessageQueue H × E)
  publish now name payload headers (q, env) =
      let (r, world) =
        transmit (message_of now q.uuids name payload headers none none)
          (record q { uuids = suc q.uuids }, env) in
      (elim r [ err e ↦ err e | ok u ↦ ok q.uuids ], world)

  -- `reply`; an empty `reply_to` counts as none
  unfoldable pub reply :
      ℕ → Message → Value → Headers → MessageQueue H × E → Result ℕ × (MessageQueue H × E)
  reply now original payload headers (q, env) = elim original.reply_to [
    | none ↦ (err value_error, (q, env))
    | some [] ↦ (err value_error, (q, env))
    | some (c ∷ name) ↦
        let (r, world) =
          transmit (message_of now q.uuids (c ∷ name) payload headers none original.correlation_id)
            (record q { uuids = suc q.uuids }, env) in
        (elim r [ err e ↦ err e | ok u ↦ ok q.uuids ], world)
  ]

  -- `request`, where nobody else runs while it waits: the reply topic, the correlation id and the
  -- message's id are three draws.
  unfoldable pub request :
      (ℕ → Text)
      → ℕ
      → Text
      → Value
      → Headers
      → MessageQueue H × E
      → Result (Option Message) × (MessageQueue H × E)
  request uuid_text now name payload headers (q, env) =
      let reply_topic = codes "_reply." ++ uuid_text q.uuids in
      let (r, (q₁, env₁)) =
        transmit
          (message_of now (suc (suc q.uuids)) name payload headers (some reply_topic)
            (some (suc q.uuids)))
          (record q { uuids = suc (suc (suc q.uuids)) }, env) in
      elim r [
        | err e ↦ (err e, (q₁, env₁))
        | ok u ↦
            let (answer, (t, env₂)) = Memory.receive reply_topic [] (q₁.transport, env₁) in
            (ok answer, (record q₁ { transport = t }, env₂))
      ]
