-- ===== src/WorkQueue/Tracked/Methods.antt =====
-- eventforge/work_queue.py: the methods keep `IsTracked`.
use observer_pattern.Prelude.{
  ℕ, suc, ◌<◌, inl, inr, Bool, Option, none, some, List, [], ◌∷◌, arith, ◌&&◌, if_cases, ltb, leb,
  Text, length, nat_eq, text_eq, pair_eq, Bool-cases, Option-cases, List-cases, length-append,
}
use observer_pattern.Prelude.Dict
use observer_pattern.Prelude.Dict.{Dict}
use observer_pattern.Types.{Message, Result, plus_one}
use observer_pattern.WorkQueue.State.{InFlightEntry, WorkQueue, pending_of}
use observer_pattern.WorkQueue.Enqueue.{put_message, take_pending, dequeue_round, ack}
use observer_pattern.WorkQueue.Nack.{nack_entry, nack_locked}
use observer_pattern.WorkQueue.Consumers.{
  register_consumer, remove_entry, remove_from_group, remove_consumer,
}
use observer_pattern.WorkQueue.Tracked.{
  IsKeyed, IsTracked, make_in_flight-IsTracked, push_back-IsTracked, push_front-IsTracked,
  set_pending-IsTracked, draw-IsTracked, dead_letter-IsTracked,
}

module _ {C Q : Type 0} where
  pub put_message-IsTracked :
      (topic : Text) (msg : Message) (s : WorkQueue C Q)
      → IsTracked s
      → IsTracked (put_message topic msg s).1
  unfolding put_message
  put_message-IsTracked topic msg s v =
      elim (Bool-cases
        (ltb 0 s.max_work_queue_size && leb s.max_work_queue_size (length (pending_of topic s)))) [
          | inl q ↦ rw q v
          | inr q ↦ rw q (push_back-IsTracked topic msg s v)
        ]

  pub register_consumer-IsTracked :
      (topic group : Text) (handler : C) (s : WorkQueue C Q)
      → IsTracked s
      → IsTracked (register_consumer topic group handler s).1
  unfolding register_consumer
  register_consumer-IsTracked topic group handler s v =
      let u = draw-IsTracked (suc s.uuids) s (omega arith) v in
      record {
        keyed = u.keyed;
        distinct = u.distinct;
        manned =
            Dict.All-set (λ g. 0 < length g.1) (topic, group) _ s.consumer_groups
              (omega (
                arith,
                length-append (Dict.get_or (topic, group) [] s.consumer_groups)
                    ((s.uuids, handler) ∷ []),
              ))
              v.manned;
      }

  pub dequeue_round-IsTracked :
      (now : ℕ) (topic : Text) (s : WorkQueue C Q)
      → IsTracked s
      → IsTracked (dequeue_round now topic s).1
  unfolding dequeue_round take_pending
  dequeue_round-IsTracked now topic s v =
      if_cases {A = Option (Option Message) × WorkQueue C Q} (λ r. IsTracked r.1) s.closed_wq
        (some none, s) _ (λ _. v)
        λ _. elim (List-cases (pending_of topic s)) [
          | inl p ↦ rw (p, take_pending) v
          | inr (msg, rest, p) ↦
              rw (p, take_pending)
                (make_in_flight-IsTracked now msg topic _ _ (set_pending-IsTracked topic rest s v))
        ]

  pub forget-IsTracked :
      (delivery_id : ℕ) (s : WorkQueue C Q)
      → IsTracked s
      → IsTracked (record s { in_flight = Dict.erase delivery_id s.in_flight })
  forget-IsTracked delivery_id s v = record {
    keyed = Dict.All-erase (IsKeyed s.uuids) delivery_id s.in_flight v.keyed;
    distinct = Dict.erase-IsDict delivery_id s.in_flight v.distinct;
    manned = v.manned;
  }

  pub ack-IsTracked :
      (delivery_id : ℕ) (s : WorkQueue C Q) → IsTracked s → IsTracked (ack delivery_id s).1
  unfolding ack
  ack-IsTracked delivery_id s v = elim (Bool-cases (Dict.contains delivery_id s.in_flight)) [
    | inl q ↦ rw q (forget-IsTracked delivery_id s v)
    | inr q ↦ rw q v
  ]

  pub nack_entry-IsTracked :
      (now : ℕ) (entry : InFlightEntry) (requeue : Bool) (s : WorkQueue C Q)
      → IsTracked s
      → IsTracked (nack_entry now entry requeue s).1
  unfolding nack_entry
  nack_entry-IsTracked now entry requeue s v = elim (Option-cases (plus_one entry.retry_count)) [
    | inl q ↦ rw (q, nack_entry) v
    | inr (n, q) ↦
        rw (q, nack_entry)
          (if_cases {A = Result (Option Text) × WorkQueue C Q} (λ r. IsTracked r.1)
            (requeue && ltb n s.max_retries) _ _ (λ _. push_front-IsTracked _ _ s v)
            (λ _. dead_letter-IsTracked _ _ _ _ s v))
  ]

  pub nack_locked-IsTracked :
      (now delivery_id : ℕ) (requeue : Bool) (s : WorkQueue C Q)
      → IsTracked s
      → IsTracked (nack_locked now delivery_id requeue s).1
  unfolding nack_locked
  nack_locked-IsTracked now delivery_id requeue s v =
      elim (Option-cases (Dict.get delivery_id s.in_flight)) [
        | inl q ↦ rw (q, nack_locked) v
        | inr (entry, q) ↦
            rw (q, nack_locked)
              (nack_entry-IsTracked now entry requeue _ (forget-IsTracked delivery_id s v))
      ]

  remove_from_group-IsTracked :
      (key : Text × Text) (l : List (ℕ × C)) (s : WorkQueue C Q)
      → IsTracked s
      → IsTracked (remove_from_group key l s)
  unfolding remove_from_group
  remove_from_group-IsTracked key [] s v = record {
    keyed = v.keyed;
    distinct = v.distinct;
    manned = Dict.All-erase (λ g. 0 < length g.1) key s.consumer_groups v.manned;
  }
  remove_from_group-IsTracked key (e ∷ l) s v = record {
    keyed = v.keyed;
    distinct = v.distinct;
    manned =
        Dict.All-set (λ g. 0 < length g.1) key (e ∷ l) s.consumer_groups (omega arith) v.manned;
  }

  pub remove_consumer-IsTracked :
      (consumer_id : ℕ) (s : WorkQueue C Q)
      → IsTracked s
      → IsTracked (remove_consumer consumer_id s).1
  unfolding remove_consumer
  remove_consumer-IsTracked consumer_id s v =
      elim (Option-cases (Dict.get consumer_id s.consumer_registry)) [
        | inl q ↦ rw (q, remove_consumer) v
        | inr (key, q) ↦
            let s₁ : WorkQueue C Q = record s {
              consumer_registry = Dict.erase consumer_id s.consumer_registry;
            } in
            let u : IsTracked s₁ = record {
              keyed = v.keyed;
              distinct = v.distinct;
              manned = v.manned;
            } in
            elim (List-cases (Dict.get_or key [] s.consumer_groups)) [
              | inl r ↦ rw (q, r, remove_consumer) u
              | inr (e, es, r) ↦
                  rw (q, r, remove_consumer)
                    (remove_from_group-IsTracked key (remove_entry consumer_id (e ∷ es)) s₁ u)
            ]
      ]
