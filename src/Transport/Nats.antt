-- ===== src/Transport/Nats.antt =====
-- eventforge/transports/nats.py, `NatsTransport`. The nats client is not in the repository: of the
-- connection the model keeps the calls that went through, the newest first, and an argument says
-- whether the next one does. A `NatsSubscription` is the number of its call. `C` names the
-- callbacks; those that `_dispatch` hands to the pool of threads wait in `callback_pool`, oldest
-- first.
pub mod Live
pub mod Changes
pub mod Run
pub mod Dispatch
use observer_pattern.Prelude.{
  ℕ, suc, Bool, true, false, Option, none, some, List, [], ◌∷◌, ◌++◌, ◌&&◌, not, map, if◌then◌else◌,
  ◌==◌, Text, codes, nat_eq, text_eq,
}
use observer_pattern.Prelude.Dict
use observer_pattern.Prelude.Dict.{Dict}
use observer_pattern.Types.{Message, Result, ok, err, runtime_error, application}
use observer_pattern.Transport.Segments.{segment_matches}

pub data NatsCall : Type 0 where
  subscribed : ℕ → Text → NatsCall
  unsubscribed : ℕ → NatsCall
  drained : NatsCall

-- `connected` says that `_nc` is set.
pub record NatsTransport (C : Type 0) : Type 0 where
  pub calls : List NatsCall
  pub next_sub : ℕ
  pub connected : Bool
  pub subscribers : Dict ℕ C
  pub sub_topic : Dict ℕ Text
  pub nats_subs : Dict ℕ ℕ
  pub queues : Dict Text (List Message)
  pub queue_subs : Dict Text ℕ
  pub callback_pool : List (C × Message)
  pub running : Bool
  pub uuids : ℕ

abbrev cons_first : ℕ → List Text → List Text
cons_first c [] = (c ∷ []) ∷ []
cons_first c (t ∷ ts) = (c ∷ t) ∷ ts

-- `topic.split(".")`
unfoldable pub split_dots : Text → List Text
split_dots [] = [] ∷ []
split_dots (c ∷ s) = if c == b'.' then [] ∷ split_dots s else cons_first c (split_dots s)

-- `".".join(out)`
unfoldable pub join_dots : List Text → Text
join_dots [] = []
join_dots (t ∷ []) = t
join_dots (t ∷ u ∷ ts) = t ++ b'.' ∷ join_dots (u ∷ ts)

abbrev pub nats_token : Text → Text
nats_token tok = if tok == codes "**" then codes ">" else tok

unfoldable pub to_nats_subject : Text → Text
to_nats_subject topic = join_dots (map nats_token (split_dots topic))

-- `_matches` is the text of that in redis.py.
unfoldable pub nats_matches : Text → Text → Bool
nats_matches = segment_matches

module _ {C : Type 0} where
  abbrev pub started : NatsTransport C
  started = record {
    calls = [];
    next_sub = 0;
    connected = true;
    subscribers = [];
    sub_topic = [];
    nats_subs = [];
    queues = [];
    queue_subs = [];
    callback_pool = [];
    running = true;
    uuids = 0;
  }

  -- `__init__`, by whether the server was reached in time.
  unfoldable pub init : Bool → Result (NatsTransport C)
  init reached = if reached then ok started else err (application 0)

  unfoldable pub queue_of : Text → NatsTransport C → List Message
  queue_of topic t = Dict.get_or topic [] t.queues

  -- The coroutine `_sub` on the loop: the assertion, then the call.
  unfoldable pub nats_subscribe : Bool → Text → NatsTransport C → Result ℕ × NatsTransport C
  nats_subscribe reached subject t =
      if t.connected && reached
      then (
        ok t.next_sub,
        record t { calls = subscribed t.next_sub subject ∷ t.calls; next_sub = suc t.next_sub },
      )
      else (err (application 0), t)

  unfoldable pub ensure_queue_subscription :
      Bool → Text → NatsTransport C → Result (Unit {0}) × NatsTransport C
  ensure_queue_subscription reached topic t =
      if Dict.contains topic t.queue_subs
      then (ok tt, t)
      else (let (r, u) = nats_subscribe reached (to_nats_subject topic) t in
          elim r [
            | err e ↦ (err e, u)
            | ok s ↦ (ok tt, record u { queue_subs = Dict.set topic s u.queue_subs })
          ])

  unfoldable pub subscribe : Bool → Text → C → NatsTransport C → Result ℕ × NatsTransport C
  subscribe reached topic callback t =
      if not (t.running && t.connected)
      then (err runtime_error, t)
      else (let sub_id = t.uuids in
          let (r, u) =
            nats_subscribe reached (to_nats_subject topic) (record t { uuids = suc sub_id }) in
          elim r [
            | err e ↦ (err e, u)
            | ok s ↦ (
              ok sub_id,
              record u {
                subscribers = Dict.set sub_id callback u.subscribers;
                sub_topic = Dict.set sub_id topic u.sub_topic;
                nats_subs = Dict.set sub_id s u.nats_subs;
              },
            )
          ])

  -- `nats_sub.unsubscribe()` on the loop; the exception of one that does not go through is
  -- swallowed.
  unfoldable pub drop_sub : Bool → Option ℕ → NatsTransport C → NatsTransport C
  drop_sub reached none t = t
  drop_sub reached (some s) t = record t {
    calls = if reached then unsubscribed s ∷ t.calls else t.calls;
  }

  unfoldable pub unsubscribe : Bool → ℕ → NatsTransport C → Bool × NatsTransport C
  unsubscribe reached sub_id t = if not (Dict.contains sub_id t.subscribers) then (false, t) else (
    true,
    drop_sub reached (Dict.get sub_id t.nats_subs) (record t {
      subscribers = Dict.erase sub_id t.subscribers;
      sub_topic = Dict.erase sub_id t.sub_topic;
      nats_subs = Dict.erase sub_id t.nats_subs;
    }),
  )

  -- `close`; `reached` says that the drain, or the close after it, goes through.
  unfoldable pub close : Bool → NatsTransport C → NatsTransport C
  close reached t = if not t.running then t else record t {
    running = false;
    connected = false;
    calls = if t.connected && reached then drained ∷ t.calls else t.calls;
    subscribers = [];
    sub_topic = [];
    nats_subs = [];
    queue_subs = [];
  }

  -- `send`: the subject and the data that are published
  unfoldable pub send :
      {B : Type 0} → (Message → B) → Bool → Message → NatsTransport C → Result (Text × B)
  send serialize reached message t =
      if not (t.running && t.connected)
      then err runtime_error
      else if reached
      then ok (to_nats_subject message.topic, serialize message)
      else err (application 0)
