-- ===== src/WorkQueue/Enqueue.antt =====
-- eventforge/work_queue.py: `enqueue`, `dequeue`, `ack`. Each is a chain of critical sections of
-- `_wq_lock`; a section has its own name where another thread can come between.
use observer_pattern.Prelude.{
  ℕ, suc, ◌+◌, Bool, true, false, ◌&&◌, Option, none, some, List, [], ◌∷◌, ◌++◌, if◌then◌else◌, ltb,
  leb, Text, codes, length, nat_eq, text_eq, pair_eq,
}
use observer_pattern.Prelude.Dict
use observer_pattern.Prelude.Dict.{Dict}
use observer_pattern.Types.{Value, Message, Headers, Result, ok, err, queue_full, num, str, time}
use observer_pattern.WorkQueue.State.{
  WorkQueue, pending_of, set_pending, push_back, retry_key, visibility_key, original_topic_key,
  enqueued_at_key,
}
use observer_pattern.WorkQueue.Delivery.{make_in_flight, try_dispatch}

-- `{**base, **headers}`
unfoldable pub merge : Headers → Headers → Headers
merge base [] = base
merge base ((k, v) ∷ headers) = merge (Dict.set k v base) headers

-- The message that `enqueue` builds: a header of the caller overrides one of the queue's.
abbrev pub work_message : ℕ → ℕ → Text → Value → ℕ → Headers → Message
work_message now id topic payload vt headers = record {
  id = id;
  topic = topic;
  payload = payload;
  headers =
      merge
        ((retry_key, num 0)
          ∷ (original_topic_key, str topic)
          ∷ (enqueued_at_key, time now)
          ∷ (visibility_key, num vt)
          ∷ [])
        headers;
  timestamp = now;
  reply_to = none;
  correlation_id = none;
}

module _ {C Q : Type 0} where
  -- The section of `enqueue` that holds the lock.
  unfoldable pub put_message : Text → Message → WorkQueue C Q → Result ℕ × WorkQueue C Q
  put_message topic message s =
      if ltb 0 s.max_work_queue_size && leb s.max_work_queue_size (length (pending_of topic s))
      then (err queue_full, s)
      else (ok message.id, push_back topic message s)

  abbrev then_dispatch : ℕ → Text → Result ℕ × WorkQueue C Q → Result ℕ × WorkQueue C Q
  then_dispatch now topic (ok id, s) = (ok id, try_dispatch now topic s)
  then_dispatch now topic (err e, s) = (err e, s)

  unfoldable pub enqueue :
      ℕ → Text → Value → Option ℕ → Headers → WorkQueue C Q → Result ℕ × WorkQueue C Q
  enqueue now topic payload visibility_timeout headers s =
      let vt : ℕ = elim visibility_timeout [ none ↦ s.default_visibility_timeout | some t ↦ t ] in
      let message = work_message now s.uuids topic payload vt headers in
      then_dispatch now topic (put_message topic message (record s { uuids = suc s.uuids }))

  -- One round of the loop in `dequeue`, with the lock held: `some r` returns `r`, `none` waits.
  unfoldable pub take_pending :
      ℕ → Text → List Message → WorkQueue C Q → Option (Option Message) × WorkQueue C Q
  take_pending now topic [] s = (none, s)
  take_pending now topic (msg ∷ rest) s =
      let (delivered, s₁) =
        make_in_flight now msg topic (topic ++ codes "._pull") (set_pending topic rest s) in
      (some (some delivered), s₁)

  unfoldable pub dequeue_round : ℕ → Text → WorkQueue C Q → Option (Option Message) × WorkQueue C Q
  dequeue_round now topic s =
      if s.closed_wq then (some none, s) else take_pending now topic (pending_of topic s) s

  -- The loop. A round reads the clock, and a wait lets other threads change the state: both come
  -- from the list. `none` is a call that still waits when the list ends.
  unfoldable pub dequeue_loop :
      Text
      → Option ℕ
      → List (ℕ × (WorkQueue C Q → WorkQueue C Q))
      → WorkQueue C Q
      → Option (Option Message) × WorkQueue C Q
  dequeue_loop topic deadline [] s = (none, s)
  dequeue_loop topic deadline ((now, others) ∷ rest) s =
      let (answer, s₁) = dequeue_round now topic s in
      let waited = dequeue_loop topic deadline rest (others s₁) in
      elim answer [
        | some r ↦ (some r, s₁)
        | none ↦ elim deadline [
          | none ↦ waited
          | some d ↦ if leb d now then (some none, s₁) else waited
        ]
      ]

  unfoldable pub dequeue :
      ℕ
      → Text
      → Option ℕ
      → List (ℕ × (WorkQueue C Q → WorkQueue C Q))
      → WorkQueue C Q
      → Option (Option Message) × WorkQueue C Q
  dequeue start topic timeout rounds s =
      dequeue_loop topic (elim timeout [ none ↦ none | some t ↦ some (start + t) ]) rounds s

  unfoldable pub ack : ℕ → WorkQueue C Q → Bool × WorkQueue C Q
  ack delivery_id s =
      if Dict.contains delivery_id s.in_flight
      then (true, record s { in_flight = Dict.erase delivery_id s.in_flight })
      else (false, s)
