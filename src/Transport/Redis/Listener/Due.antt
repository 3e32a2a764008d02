-- ===== src/Transport/Redis/Listener/Due.antt =====
-- eventforge/transports/redis.py, `_dispatch`: who is called, and what is queued.
use observer_pattern.Prelude.{
  ℕ, ◌≡◌, refl, ap, sym, ◌∙◌, inl, inr, Bool, none, some, List, [], ◌∷◌, ◌++◌, if◌then◌else◌,
  if_cases, Text, filter, ◌==◌, arith, nat_eq, text_eq, Bool-cases, Option-cases,
}
use mathlib.Core.List.{append_assoc, append-nil}
use observer_pattern.Prelude.Keys.{text_beq_iff}
use observer_pattern.Prelude.Dict
use observer_pattern.Types.{Message}
use observer_pattern.Transport.Segments.{segment_matches}
use observer_pattern.Transport.Redis.{RedisTransport, queue_of}
use observer_pattern.Transport.Redis.Listener.{World, put, notify_one, notify, dispatch}

module _ {C : Type 0} where
  -- The calls that are due: the subscriptions whose pattern matches, in order.
  abbrev pub due : RedisTransport C → Message → List (ℕ × C) → List (C × Message)
  due t msg [] = []
  due t msg ((sub_id, callback) ∷ subs) = elim (Dict.get sub_id t.sub_topic) [
    | none ↦ due t msg subs
    | some pattern ↦
        if segment_matches msg.topic pattern
        then (callback, msg) ∷ due t msg subs
        else due t msg subs
  ]

  -- The calls for one message after the other.
  abbrev pub all_due : RedisTransport C → List Message → List (C × Message)
  all_due t [] = []
  all_due t (msg ∷ msgs) = due t msg t.subscribers ++ all_due t msgs

  abbrev pub arrived : RedisTransport C → List Message → RedisTransport C
  arrived t [] = t
  arrived t (msg ∷ msgs) = arrived (put msg t) msgs

  due-put :
      (m msg : Message) (t : RedisTransport C) (subs : List (ℕ × C))
      → due (put m t) msg subs ≡ due t msg subs
  unfolding put
  due-put m msg t [] = refl
  due-put m msg t ((sub_id, callback) ∷ subs) = ground (arith, due-put m msg t subs)

  pub all_due-put :
      (m : Message) (t : RedisTransport C) (msgs : List Message)
      → all_due (put m t) msgs ≡ all_due t msgs
  unfolding put
  all_due-put m t [] = refl
  all_due-put m t (msg ∷ msgs) = cc (due-put m msg t t.subscribers, all_due-put m t msgs)

  queue_of-put :
      (topic : Text) (m : Message) (t : RedisTransport C)
      → queue_of topic (put m t) ≡ queue_of topic t ++ (if m.topic == topic then m ∷ [] else [])
  unfolding queue_of put Dict.get_or
  queue_of-put topic m t = ground (
    arith,
    text_beq_iff m.topic topic,
    append-nil (queue_of topic t),
    Dict.get-set m.topic topic (queue_of m.topic t ++ m ∷ []) t.queues,
  )

  pub queue_of-arrived :
      (topic : Text) (msgs : List Message) (t : RedisTransport C)
      → queue_of topic (arrived t msgs) ≡ queue_of topic t ++ filter (λ m. m.topic == topic) msgs
  queue_of-arrived topic [] t = sym (append-nil _)
  queue_of-arrived topic (m ∷ msgs) t =
      queue_of-arrived topic msgs (put m t)
      ∙ ap (λ q. q ++ filter (λ m. m.topic == topic) msgs) (queue_of-put topic m t)
      ∙ append_assoc (queue_of topic t) _ _
      ∙ ap (λ l. queue_of topic t ++ l)
          (if_cases
            (λ l. l ++ filter (λ m. m.topic == topic) msgs ≡ (
              if m.topic == topic
              then m ∷ filter (λ m. m.topic == topic) msgs
              else filter (λ m. m.topic == topic) msgs))
            (m.topic == topic) _ _ (λ e. rw e refl) (λ e. rw e refl))

module _ {C : Type 0} (fails : C → Message → Bool) where
  -- Callbacks that note each call, may raise, and leave the transport alone.
  abbrev pub noting :
      C → Message → World C (List (C × Message)) → Bool × World C (List (C × Message))
  noting callback msg (t, log) = (fails callback msg, (t, log ++ (callback, msg) ∷ []))

  notify-due :
      (msg : Message) (subs : List (ℕ × C)) (t : RedisTransport C) (log : List (C × Message))
      → notify noting msg subs (t, log) ≡ (t, log ++ due t msg subs)
  unfolding notify notify_one
  notify-due msg [] t log = simp append-nil
  notify-due msg ((sub_id, callback) ∷ subs) t log =
      elim (Option-cases (Dict.get sub_id t.sub_topic)) [
        | inl q ↦ rw (q, due, notify, notify_one) (notify-due msg subs t log)
        | inr (p, q) ↦ elim (Bool-cases (segment_matches msg.topic p)) [
          | inl m ↦
              rw (q, m, due, notify, notify_one)
                (notify-due msg subs t (log ++ (callback, msg) ∷ [])
                  ∙ ap (λ l. (t, l)) (append_assoc log ((callback, msg) ∷ []) (due t msg subs)))
          | inr m ↦ rw (q, m, due, notify, notify_one) (notify-due msg subs t log)
        ]
      ]

  pub dispatch-due :
      (msg : Message) (t : RedisTransport C) (log : List (C × Message))
      → dispatch noting msg (t, log) ≡ (put msg t, log ++ due t msg t.subscribers)
  unfolding dispatch
  dispatch-due msg t log =
      ap {A = World C (List (C × Message))} {B = World C (List (C × Message))}
        (λ w. (put msg w.0, w.1)) (notify-due msg t.subscribers t log)
