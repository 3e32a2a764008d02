-- ===== src/Transport/Nats/Dispatch.antt =====
-- eventforge/transports/nats.py: `_dispatch`, the callback of a subscription, the pool and
-- `receive`.
use observer_pattern.Prelude.{
  ℕ, Bool, Option, none, some, List, [], ◌∷◌, ◌++◌, not, if◌then◌else◌, Text, nat_eq, text_eq,
}
use observer_pattern.Prelude.Dict
use observer_pattern.Prelude.Dict.{Dict}
use observer_pattern.Types.{Message, Result, ok, err}
use observer_pattern.Transport.Nats.{
  NatsTransport, nats_matches, queue_of, ensure_queue_subscription,
}

module _ {C : Type 0} where
  -- The loop of `_dispatch`: `_callback_pool.submit(self._safe_call, callback, msg)`
  unfoldable pub submit_due : Message → List (ℕ × C) → NatsTransport C → NatsTransport C
  submit_due msg [] t = t
  submit_due msg ((sub_id, callback) ∷ subs) t =
      submit_due msg subs (elim (Dict.get sub_id t.sub_topic) [
        | none ↦ t
        | some pattern ↦
            if nats_matches msg.topic pattern
            then record t { callback_pool = t.callback_pool ++ (callback, msg) ∷ [] }
            else t
      ])

  unfoldable pub dispatch : Message → NatsTransport C → NatsTransport C
  dispatch msg t =
      let u = submit_due msg t.subscribers t in
      record u { queues = Dict.set msg.topic (queue_of msg.topic u ++ msg ∷ []) u.queues }

  -- The callback of a subscription: what does not decode, or is no message, is dropped.
  unfoldable pub received :
      (Text → Option Message) → Option Text → NatsTransport C → NatsTransport C
  received validate none t = t
  received validate (some payload) t = elim (validate payload) [
    | none ↦ t
    | some msg ↦ dispatch msg t
  ]

  unfoldable pub take_first :
      Text → List Message → NatsTransport C → Option Message × NatsTransport C
  take_first topic [] t = (none, t)
  take_first topic (msg ∷ later) t = (some msg, record t { queues = Dict.set topic later t.queues })

abbrev pub World : Type 0 → Type 0 → Type 0
World C E = NatsTransport C × E

module _ {C E : Type 0} where
  -- `_safe_call` in a thread of the pool, on the oldest call that waits.
  unfoldable pub safe_call : (C → Message → World C E → Bool × World C E) → World C E → World C E
  safe_call invoke (t, env) = elim t.callback_pool [
    | [] ↦ (t, env)
    | (callback, msg) ∷ later ↦ (invoke callback msg (record t { callback_pool = later }, env)).1
  ]

  -- `Queue.get(timeout)`: what other threads do while it waits comes from the list; where that ends
  -- the timeout has passed.
  unfoldable pub get_queued :
      Text → List (World C E → World C E) → World C E → Option Message × World C E
  get_queued topic [] (t, env) = let (r, u) = take_first topic (queue_of topic t) t in (r, (u, env))
  get_queued topic (others ∷ waits) (t, env) =
      let (r, u) = take_first topic (queue_of topic t) t in
      let waited = get_queued topic waits (others (u, env)) in
      elim r [ none ↦ waited | some msg ↦ (some msg, (u, env)) ]

  unfoldable pub receive :
      Bool → Text → List (World C E → World C E) → World C E → Result (Option Message) × World C E
  receive reached topic waits (t, env) =
      if not t.running
      then (ok none, (t, env))
      else (let (r, u) = ensure_queue_subscription reached topic t in
          let (found, after) = get_queued topic waits (u, env) in
          elim r [ err e ↦ (err e, (u, env)) | ok done ↦ (ok found, after) ])
