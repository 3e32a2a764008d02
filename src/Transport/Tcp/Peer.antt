-- ===== src/Transport/Tcp/Peer.antt =====
-- eventforge/transports/tcp.py: what the server and the client keep and do alike: `subscribe`,
-- `unsubscribe`, `_dispatch`, `receive`. The source has each of them twice, word for word.
pub mod Routing
use observer_pattern.Prelude.{
  ℕ, suc, Bool, true, false, ◌&&◌, Option, none, some, List, [], ◌∷◌, ◌++◌, if◌then◌else◌, ◌==◌,
  Text, nat_eq, text_eq, not, ◌||◌,
}
use observer_pattern.Prelude.Dict
use observer_pattern.Prelude.Dict.{Dict}
use observer_pattern.Types.{Message}
use observer_pattern.Transport.Patterns.{tcp_matches}
use observer_pattern.Transport.Memory.{remove_first}
use observer_pattern.Transport.Tcp.Framing.{Bytes, Socket, recv_msg}

-- `C` names the callbacks; `uuids` counts the draws of uuid4.
pub record Peer (C : Type 0) : Type 0 where
  pub subscribers : Dict ℕ C
  pub topic_subs : Dict Text (List ℕ)
  pub queues : Dict Text (List Message)
  pub uuids : ℕ

unfoldable pub elem : ℕ → List ℕ → Bool
elem x [] = false
elem x (y ∷ l) = y == x || elem x l

-- The first topic whose list has the id.
unfoldable pub topic_of : ℕ → Dict Text (List ℕ) → Option Text
topic_of sub_id [] = none
topic_of sub_id ((topic, subs) ∷ rest) =
    if elem sub_id subs then some topic else topic_of sub_id rest

-- The loop of `unsubscribe`: the id leaves the first list that has it.
unfoldable pub forget : ℕ → Dict Text (List ℕ) → Dict Text (List ℕ)
forget sub_id [] = []
forget sub_id ((topic, subs) ∷ rest) =
    if elem sub_id subs
    then (topic, remove_first sub_id subs) ∷ rest
    else (topic, subs) ∷ forget sub_id rest

-- `sub_topic and _topic_matches(topic, sub_topic)`: an empty topic counts as none
unfoldable pub wants : Text → Option Text → Bool
wants topic none = false
wants topic (some []) = false
wants topic (some (c ∷ s)) = tcp_matches topic (c ∷ s)

module _ {C : Type 0} where
  unfoldable pub init : Peer C
  init = record { subscribers = []; topic_subs = []; queues = []; uuids = 0 }

  unfoldable pub subscribe : Text → C → Peer C → ℕ × Peer C
  subscribe topic callback p = (
    p.uuids,
    record p {
      uuids = suc p.uuids;
      subscribers = Dict.set p.uuids callback p.subscribers;
      topic_subs = Dict.set topic (Dict.get_or topic [] p.topic_subs ++ p.uuids ∷ []) p.topic_subs;
    },
  )

  unfoldable pub unsubscribe : ℕ → Peer C → Bool × Peer C
  unsubscribe sub_id p = if not (Dict.contains sub_id p.subscribers) then (false, p) else (
    true,
    record p {
      subscribers = Dict.erase sub_id p.subscribers;
      topic_subs = forget sub_id p.topic_subs;
    },
  )

  unfoldable pub clear : Peer C → Peer C
  clear p = record p { subscribers = []; topic_subs = [] }

  unfoldable pub queue_of : Text → Peer C → List Message
  queue_of topic p = Dict.get_or topic [] p.queues

  -- `self._queues[topic].put(msg)`: these queues have no bound
  unfoldable pub put : Message → Peer C → Peer C
  put message p = record p {
    queues = Dict.set message.topic (queue_of message.topic p ++ message ∷ []) p.queues;
  }

  -- `self._queues[topic].get(...)` where nothing more arrives: none where the queue is empty
  unfoldable pub receive : Text → Peer C → Option Message × Peer C
  receive topic p = elim (queue_of topic p) [
    | [] ↦ (none, p)
    | message ∷ rest ↦ (some message, record p { queues = Dict.set topic rest p.queues })
  ]

module _ {C E : Type 0} where
  -- `invoke` runs a callback on this end of the connection and on the rest of the world `E`, and
  -- answers whether it raised.
  module _ (invoke : C → Message → Peer C × E → Bool × (Peer C × E)) where
    unfoldable pub notify : Message → List (ℕ × C) → Peer C × E → Peer C × E
    notify message [] world = world
    notify message ((sub_id, callback) ∷ subs) world = notify message subs (
        if wants message.topic (topic_of sub_id world.0.topic_subs)
        then (invoke callback message world).1
        else world)

    -- `_dispatch`: over a copy of the subscribers; an exception of a callback is logged.
    unfoldable pub dispatch : Message → Peer C × E → Peer C × E
    dispatch message world =
        let (p, env) = notify message world.0.subscribers world in (put message p, env)

    -- The loops of `_client_loop` and `_recv_loop`, by the readings of `_running`, over the bytes
    -- that arrive. An exception of `_deserialize` ends the loop; `none` is a loop that still runs
    -- when the readings end.
    unfoldable pub read_loop :
        (Bytes → Option Message) → List Bool → Socket → Peer C × E → Option (Peer C × E)
    read_loop deserialize [] bytes world = none
    read_loop deserialize (false ∷ running) bytes world = some world
    read_loop deserialize (true ∷ running) bytes world =
        let (answer, later) = recv_msg bytes in
        elim answer [
          | none ↦ none
          | some none ↦ some world
          | some (some raw) ↦ elim (deserialize raw) [
            | none ↦ some world
            | some message ↦ read_loop deserialize running later (dispatch message world)
          ]
        ]
