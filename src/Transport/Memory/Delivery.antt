-- ===== src/Transport/Memory/Delivery.antt =====
-- eventforge/transports/memory.py, `send` and `receive`: who is notified, and what is queued.
use observer_pattern.Prelude.{
  ℕ, zero, suc, ◌≤◌, ◌<◌, ◌≡◌, ◌≢◌, refl, ap, sym, subst, ◌∙◌, ◌⊎◌, inl, inr, Bool, false, ◌&&◌,
  Option, none, some, List, [], ◌∷◌, ◌++◌, arith, if◌then◌else◌, if_cases, ltb, leb, Text, length,
  nat_eq, text_eq, Bool-cases, Option-cases,
}
use mathlib.Core.List.{append_assoc, append-nil}
use observer_pattern.Prelude.Dict
use observer_pattern.Prelude.Dict.{Dict}
use observer_pattern.Types.{Message, Result, ok, err, transport_full}
use observer_pattern.Transport.Patterns.{memory_matches}
use observer_pattern.Transport.Memory.{
  MemoryTransport, World, queue_of, put_nowait, notify_one, notify, send, get_queued, receive,
  take_first,
}

-- What noting callbacks write: each call, oldest first.
abbrev pub Log : Type 0 → Type 0
Log C = List (C × Message)

module _ {C : Type 0} where
  -- Callbacks that note each call, may raise, and leave the transport alone.
  abbrev pub noting : (C → Message → Bool) → C → Message → World C (Log C) → Bool × World C (Log C)
  noting raises callback message (t, log) =
      (raises callback message, (t, log ++ (callback, message) ∷ []))

  -- The calls that are due: the subscriptions whose pattern matches, in order.
  abbrev pub due : MemoryTransport C → Message → List (ℕ × C) → Log C
  due t message [] = []
  due t message ((sub_id, callback) ∷ subs) = elim (Dict.get sub_id t.sub_topic) [
    | none ↦ due t message subs
    | some pattern ↦
        if memory_matches message.topic pattern
        then (callback, message) ∷ due t message subs
        else due t message subs
  ]

  notify-due :
      (raises : C → Message → Bool) (message : Message) (subs : List (ℕ × C))
      (t : MemoryTransport C) (log : Log C)
      → notify (noting raises) message subs (t, log) ≡ (t, log ++ due t message subs)
  unfolding notify notify_one
  notify-due raises message [] t log = simp append-nil
  notify-due raises message ((sub_id, callback) ∷ subs) t log =
      elim (Option-cases (Dict.get sub_id t.sub_topic)) [
        | inl q ↦ rw (q, due, notify, notify_one) (notify-due raises message subs t log)
        | inr (p, q) ↦ elim (Bool-cases (memory_matches message.topic p)) [
          | inl m ↦
              rw (q, m, due, notify, notify_one)
                (notify-due raises message subs t (log ++ (callback, message) ∷ [])
                  ∙ ap (λ l. (t, l))
                      (append_assoc log ((callback, message) ∷ []) (due t message subs)))
          | inr m ↦ rw (q, m, due, notify, notify_one) (notify-due raises message subs t log)
        ]
      ]

  -- A queue has room: it has no bound, or it is shorter than its bound.
  abbrev pub HasRoom : Text → MemoryTransport C → Type 0
  HasRoom topic t = (t.max_queue_size ≡ 0) ⊎ (length (queue_of topic t) < t.max_queue_size)

  abbrev pub enqueued : Message → MemoryTransport C → MemoryTransport C
  enqueued message t = record t {
    queues = Dict.set message.topic (queue_of message.topic t ++ message ∷ []) t.queues;
  }

  -- What `put_nowait` answers, by whether there is room.
  abbrev pub Stored : Message → MemoryTransport C → Result (Unit {0}) × MemoryTransport C → Type 0
  Stored message t after =
      (HasRoom message.topic t × (after ≡ (ok tt, enqueued message t)))
      ⊎ ((0 < t.max_queue_size)
          × (t.max_queue_size ≤ length (queue_of message.topic t))
          × (after ≡ (err transport_full, t)))

  pub put_nowait-Stored :
      (message : Message) (t : MemoryTransport C) → Stored message t (put_nowait message t)
  unfolding put_nowait
  put_nowait-Stored message t =
      if_cases (Stored message t)
        (ltb 0 t.max_queue_size && leb t.max_queue_size (length (queue_of message.topic t))) _ _
        (λ full. inr (ground arith, ground arith, refl))
        (λ room. inl (
          elim (Bool-cases (ltb 0 t.max_queue_size)) [
            | inl b ↦ inr (ground arith)
            | inr b ↦ inl (ground arith)
          ],
          refl,
        ))

  -- On an open transport, if the callbacks leave the transport alone, whichever of them raise,
  -- `send` calls exactly the subscriptions whose pattern matches, oldest first, and then either
  -- appends the message to the topic's queue (when it has no bound or is below it) or answers
  -- "transport full" and leaves the transport as it was.
  pub send_notifies_then_stores :
      (raises : C → Message → Bool) (message : Message) (t : MemoryTransport C) (log : Log C)
      → t.closed ≡ false
      → let sent = send (noting raises) message (t, log) in
        (sent.1.1 ≡ log ++ due t message t.subscribers) × Stored message t (sent.0, sent.1.0)
  unfolding send
  send_notifies_then_stores raises message t log not_closed =
      if_cases {A = Result (Unit {0}) × World C (Log C)}
        (λ sent.
          (sent.1.1 ≡ log ++ due t message t.subscribers) × Stored message t (sent.0, sent.1.0))
        t.closed _ _ (λ closed. cc)
        (λ _.
          rw (notify-due raises message t.subscribers t log) (refl, put_nowait-Stored message t))

module _ {C : Type 0} where
  pub queue_of-set :
      (topic : Text) (q : List Message) (t : MemoryTransport C)
      → queue_of topic (record t { queues = Dict.set topic q t.queues }) ≡ q
  unfolding queue_of Dict.get_or
  queue_of-set topic q t = rw (queue_of, Dict.get_or, Dict.get-set_self topic q t.queues) refl

  pub queue_of-set_ne :
      (topic other : Text) (q : List Message) (t : MemoryTransport C)
      → topic ≢ other
      → queue_of other (record t { queues = Dict.set topic q t.queues }) ≡ queue_of other t
  unfolding queue_of Dict.get_or
  queue_of-set_ne topic other q t n =
      rw (queue_of, Dict.get_or, Dict.get-set_ne topic other q t.queues n) refl

module _ {C E : Type 0} where
  -- So many calls of `receive` that do not wait, and what they answer.
  abbrev pub drain : Text → ℕ → World C E → List Message × World C E
  drain topic zero world = ([], world)
  drain topic (suc n) world =
      let (r, world₁) = receive topic [] world in
      let (rest, world₂) = drain topic n world₁ in
      (elim r [ none ↦ rest | some message ↦ message ∷ rest ], world₂)

  -- A message that waits is received without waiting, and leaves the queue behind it.
  pub receive_first :
      (topic : Text) (waits : List (World C E → World C E)) (message : Message)
      (rest : List Message) (t : MemoryTransport C) (env : E)
      → t.closed ≡ false
      → queue_of topic t ≡ message ∷ rest
      → receive topic waits (t, env)
        ≡ (some message, (record t { queues = Dict.set topic rest t.queues }, env))
  unfolding receive get_queued
  receive_first topic [] message rest t env not_closed queued =
      if_cases {A = Option Message × World C E}
        (λ r. r ≡ (some message, (record t { queues = Dict.set topic rest t.queues }, env)))
        t.closed _ _ (λ closed. cc) (λ _. rw queued refl)
  receive_first topic (others ∷ waits) message rest t env not_closed queued =
      if_cases {A = Option Message × World C E}
        (λ r. r ≡ (some message, (record t { queues = Dict.set topic rest t.queues }, env)))
        t.closed _ _ (λ closed. cc)
        (λ _.
          ap {A = List Message} {B = Option Message × World C E}
            (λ q.
              let (r, t₁) = take_first topic q t in
              elim r [
                | none ↦ get_queued topic waits (others (t₁, env))
                | some m ↦ (some m, (t₁, env))
              ])
            queued)

  drain_queue :
      (topic : Text) (q : List Message) (t : MemoryTransport C) (env : E)
      → t.closed ≡ false
      → queue_of topic t ≡ q
      → let drained = drain topic (length q) (t, env) in
        (drained.0 ≡ q) × (queue_of topic drained.1.0 ≡ [])
  drain_queue topic [] t env not_closed queued = (refl, queued)
  drain_queue topic (message ∷ rest) t env not_closed queued =
      let t₁ : MemoryTransport C = record t { queues = Dict.set topic rest t.queues } in
      let ih = drain_queue topic rest t₁ env not_closed (queue_of-set topic rest t) in
      subst {A = Option Message × World C E}
        (λ r.
          ((elim r.0 [
            | none ↦ (drain topic (length rest) r.1).0
            | some m ↦ m ∷ (drain topic (length rest) r.1).0
          ])
            ≡ message ∷ rest)
          × (queue_of topic (drain topic (length rest) r.1).1.0 ≡ []))
        (sym (receive_first topic [] message rest t env not_closed queued))
        (ap (◌∷◌ message) ih.0, ih.1)

module _ {C : Type 0} where
  -- Through an open transport whose callbacks leave it alone, whichever raise, a message sent to a
  -- topic with room is received after exactly the messages that waited there before, in their
  -- order, and then the topic's queue is empty.
  pub send_then_drain :
      (raises : C → Message → Bool) (message : Message) (t : MemoryTransport C) (log : Log C)
      → t.closed ≡ false
      → HasRoom message.topic t
      → let sent = (send (noting raises) message (t, log)).1 in
        let drained =
          drain message.topic (length (queue_of message.topic t ++ message ∷ [])) sent in
        (drained.0 ≡ queue_of message.topic t ++ message ∷ [])
        × (queue_of message.topic drained.1.0 ≡ [])
  send_then_drain raises message t log not_closed room =
      let q : List Message = queue_of message.topic t ++ message ∷ [] in
      elim (send_notifies_then_stores raises message t log not_closed).1 [
        | inl (r, after) ↦
            let t₁ : MemoryTransport C = (send (noting raises) message (t, log)).1.0 in
            let same : t₁ ≡ enqueued message t = ap (λ p. p.1) after in
            drain_queue message.topic q t₁ (send (noting raises) message (t, log)).1.1
              (rw (same) not_closed) (rw (same) (queue_of-set message.topic q t))
        | inr (bounded, full, after) ↦ elim room [ inl h ↦ ground arith | inr h ↦ ground arith ]
      ]
