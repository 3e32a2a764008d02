-- ===== src/WorkQueue/Sound/Methods.antt =====
-- eventforge/work_queue.py: the methods keep the queue's own headers in order.
use observer_pattern.Prelude.{
  ℕ, suc, ◌≡◌, refl, ap, ◌∙◌, inl, inr, Bool, Option, none, some, List, [], ◌∷◌, arith, ◌&&◌,
  if_cases, ltb, leb, Text, length, All, nat_eq, text_eq, pair_eq, Bool-cases, Option-cases,
  List-cases, subst,
}
use observer_pattern.Prelude.Keys.{text_beq}
use observer_pattern.Prelude.Dict
use observer_pattern.Prelude.Dict.{Dict}
use observer_pattern.Types.{Value, num, Headers, Message, Result, ok, plus_one}
use observer_pattern.WorkQueue.State.{
  InFlightEntry, WorkQueue, pending_of, retry_key, visibility_key,
}
use observer_pattern.WorkQueue.Enqueue.{
  merge, work_message, put_message, take_pending, dequeue_round, ack,
}
use observer_pattern.WorkQueue.Nack.{nack_entry, nack_locked, known}
use observer_pattern.WorkQueue.Consumers.{
  register_consumer, remove_entry, remove_from_group, remove_consumer,
}
use observer_pattern.WorkQueue.Sound.{
  HasCounts, IsCounted, with_retry_count-HasCounts, IsSound, pending_of-HasCounts,
  set_pending-IsSound, push_back-IsSound, push_front-IsSound, dead_letter-IsSound,
  make_in_flight-IsSound,
}

-- Headers of a caller that leave alone what the queue counts by.
abbrev pub IsClean : Headers → Type 0
IsClean headers = (Dict.get retry_key headers ≡ none) × (Dict.get visibility_key headers ≡ none)

get-merge :
    (k : Text) (base headers : Headers)
    → Dict.get k headers ≡ none
    → Dict.get k (merge base headers) ≡ Dict.get k base
unfolding merge Dict.get
get-merge k base [] h = refl
get-merge k base ((j, v) ∷ headers) h = elim (Bool-cases (text_beq j k)) [
  | inl q ↦ absurd (ground arith)
  | inr q ↦
      get-merge k (Dict.set j v base) headers (ground arith)
      ∙ ground (arith, Dict.get-set j k v base)
]

work_message-HasCounts :
    (limit now id : ℕ) (topic : Text) (payload : Value) (vt : ℕ) (headers : Headers)
    → IsClean headers
    → HasCounts limit (work_message now id topic payload vt headers).headers
unfolding Dict.get text_beq
work_message-HasCounts limit now id topic payload vt headers (p, q) = (
  (num 0, get-merge retry_key _ headers p, (0, refl, omega arith)),
  (num vt, get-merge visibility_key _ headers q, (vt, refl)),
)

pub count_bump : (limit n : ℕ) (v : Value) → v ≡ num n → plus_one v ≡ some (suc n)
unfolding plus_one
count_bump limit n v e = rw e refl

module _ {C Q : Type 0} where
  pub put_message-IsSound :
      (limit now id : ℕ) (topic : Text) (payload : Value) (vt : ℕ) (headers : Headers)
      (s : WorkQueue C Q)
      → IsClean headers
      → IsSound limit s
      → IsSound limit (put_message topic (work_message now id topic payload vt headers) s).1
  unfolding put_message
  put_message-IsSound limit now id topic payload vt headers s c v =
      if_cases {A = Result ℕ × WorkQueue C Q} (λ r. IsSound limit r.1)
        (ltb 0 s.max_work_queue_size && leb s.max_work_queue_size (length (pending_of topic s))) _ _
        (λ _. v)
        (λ _.
          push_back-IsSound limit topic _ s
            (work_message-HasCounts limit now id topic payload vt headers c) v)

  pub register_consumer-IsSound :
      (limit : ℕ) (topic group : Text) (handler : C) (s : WorkQueue C Q)
      → IsSound limit s
      → IsSound limit (register_consumer topic group handler s).1
  unfolding register_consumer
  register_consumer-IsSound limit topic group handler s v = record {
    bound = v.bound;
    waiting = v.waiting;
    flying = v.flying;
    alive = v.alive;
  }

  pub dequeue_round-IsSound :
      (limit now : ℕ) (topic : Text) (s : WorkQueue C Q)
      → IsSound limit s
      → IsSound limit (dequeue_round now topic s).1
  unfolding dequeue_round take_pending
  dequeue_round-IsSound limit now topic s v =
      let h = pending_of-HasCounts limit topic s v in
      if_cases {A = Option (Option Message) × WorkQueue C Q} (λ r. IsSound limit r.1) s.closed_wq
        (some none, s) _ (λ _. v)
        λ _. elim (List-cases (pending_of topic s)) [
          | inl p ↦ rw (p, take_pending) v
          | inr (msg, rest, p) ↦
              let (first, later) : HasCounts limit msg.headers
                  × All (λ m. HasCounts limit m.headers) rest =
                subst (All (λ m. HasCounts limit m.headers)) p h in
              rw (p, take_pending)
                (make_in_flight-IsSound limit now msg topic _ _ first
                  (set_pending-IsSound limit topic rest s later v))
        ]

  pub forget-IsSound :
      (limit delivery_id : ℕ) (s : WorkQueue C Q)
      → IsSound limit s
      → IsSound limit (record s { in_flight = Dict.erase delivery_id s.in_flight })
  forget-IsSound limit delivery_id s v = record {
    bound = v.bound;
    waiting = v.waiting;
    flying = Dict.All-erase (λ e. IsCounted limit e.1) delivery_id s.in_flight v.flying;
    alive = v.alive;
  }

  pub ack-IsSound :
      (limit delivery_id : ℕ) (s : WorkQueue C Q)
      → IsSound limit s
      → IsSound limit (ack delivery_id s).1
  unfolding ack
  ack-IsSound limit delivery_id s v =
      if_cases {A = Bool × WorkQueue C Q} (λ r. IsSound limit r.1)
        (Dict.contains delivery_id s.in_flight) _ _ (λ _. forget-IsSound limit delivery_id s v)
        (λ _. v)

  -- An entry with a count goes back, or to the dead letters.
  pub nack_entry-IsSound :
      (limit now : ℕ) (entry : InFlightEntry) (requeue : Bool) (s : WorkQueue C Q)
      → IsCounted limit entry
      → IsSound limit s
      → IsSound limit (nack_entry now entry requeue s).1
        × (r : Option Text) × ((nack_entry now entry requeue s).0 ≡ ok r)
  unfolding nack_entry
  nack_entry-IsSound limit now entry requeue s ((n, e, h), t, m) v =
      rw (count_bump limit n entry.retry_count e, nack_entry)
        (if_cases {A = Result (Option Text) × WorkQueue C Q}
          (λ x. IsSound limit x.1 × (r : Option Text) × (x.0 ≡ ok r))
          (requeue && ltb (suc n) s.max_retries) _ _
          (λ q. (
            push_front-IsSound limit _ _ s
                (with_retry_count-HasCounts limit (suc n) entry.message (ground (arith, v.bound)) m)
                v,
            some entry.topic,
            refl,
          ))
          (λ q. (dead_letter-IsSound limit _ _ _ _ s m v, none, refl)))

  pub nack_locked-IsSound :
      (limit now delivery_id : ℕ) (requeue : Bool) (s : WorkQueue C Q)
      → IsSound limit s
      → IsSound limit (nack_locked now delivery_id requeue s).1
        × (r : Option (Option Text)) × ((nack_locked now delivery_id requeue s).0 ≡ ok r)
  unfolding nack_locked
  nack_locked-IsSound limit now delivery_id requeue s v =
      elim (Option-cases (Dict.get delivery_id s.in_flight)) [
        | inl q ↦ rw (q, nack_locked) (v, none, refl)
        | inr (entry, q) ↦
            let c =
              Dict.get-All (λ e. IsCounted limit e.1) delivery_id entry s.in_flight v.flying q in
            let (u, r, e) =
              nack_entry-IsSound limit now entry requeue _ c
                (forget-IsSound limit delivery_id s v) in
            rw (q, nack_locked) (u, some r, ap known e)
      ]

  remove_from_group-IsSound :
      (limit : ℕ) (key : Text × Text) (l : List (ℕ × C)) (s : WorkQueue C Q)
      → IsSound limit s
      → IsSound limit (remove_from_group key l s)
  unfolding remove_from_group
  remove_from_group-IsSound limit key [] s v = record {
    bound = v.bound;
    waiting = v.waiting;
    flying = v.flying;
    alive = v.alive;
  }
  remove_from_group-IsSound limit key (e ∷ l) s v = record {
    bound = v.bound;
    waiting = v.waiting;
    flying = v.flying;
    alive = v.alive;
  }

  pub remove_consumer-IsSound :
      (limit consumer_id : ℕ) (s : WorkQueue C Q)
      → IsSound limit s
      → IsSound limit (remove_consumer consumer_id s).1
  unfolding remove_consumer
  remove_consumer-IsSound limit consumer_id s v =
      elim (Option-cases (Dict.get consumer_id s.consumer_registry)) [
        | inl q ↦ rw (q, remove_consumer) v
        | inr (key, q) ↦
            let s₁ : WorkQueue C Q = record s {
              consumer_registry = Dict.erase consumer_id s.consumer_registry;
            } in
            let u : IsSound limit s₁ = record {
              bound = v.bound;
              waiting = v.waiting;
              flying = v.flying;
              alive = v.alive;
            } in
            elim (List-cases (Dict.get_or key [] s.consumer_groups)) [
              | inl r ↦ rw (q, r, remove_consumer) u
              | inr (e, es, r) ↦
                  rw (q, r, remove_consumer)
                    (remove_from_group-IsSound limit key (remove_entry consumer_id (e ∷ es)) s₁ u)
            ]
      ]
