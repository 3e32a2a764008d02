-- ===== src/Transport/Nats/Run.antt =====
-- eventforge/transports/nats.py: the methods, in any order, and what lives on the connection.
use observer_pattern.Prelude.{
  ℕ, ◌≡◌, ◌↔◌, ◌⊎◌, refl, subst, sym, inl, inr, Bool, true, false, none, some, List, [], ◌∷◌, ◌&&◌,
  not, if◌then◌else◌, if_cases, arith, Text, nat_eq, text_eq, nat_beq_iff, Bool-cases, Option-cases,
}
use observer_pattern.Prelude.Dict
use observer_pattern.Prelude.Dict.{Dict}
use observer_pattern.Types.{Message}
use observer_pattern.Transport.Nats.{
  unsubscribed, drained, NatsTransport, started, nats_subscribe, ensure_queue_subscription,
  subscribe, unsubscribe, drop_sub, close,
}
use observer_pattern.Transport.Nats.Live.{live, Held, IsLive, IsLive-Held}
use observer_pattern.Transport.Nats.Changes.{
  joined, received_from, joined-IsLive, received_from-IsLive, without-IsLive,
}

module _ {C : Type 0} where
  subscribe-joined :
      (topic : Text) (callback : C) (t : NatsTransport C)
      → (t.running && t.connected) ≡ true
      → (subscribe true topic callback t).1 ≡ joined topic callback t
  unfolding subscribe nats_subscribe
  subscribe-joined topic callback t b = ground arith

  subscribe-IsLive :
      (topic : Text) (callback : C) (t : NatsTransport C)
      → IsLive t
      → IsLive (subscribe true topic callback t).1
  unfolding subscribe
  subscribe-IsLive topic callback t i = elim (Bool-cases (t.running && t.connected)) [
    | inl b ↦
        subst IsLive (sym (subscribe-joined topic callback t b)) (joined-IsLive topic callback t i)
    | inr b ↦ rw b i
  ]

  ensure-received_from :
      (topic : Text) (t : NatsTransport C)
      → Dict.get topic t.queue_subs ≡ none
      → t.connected ≡ true
      → (ensure_queue_subscription true topic t).1 ≡ received_from topic t
  unfolding ensure_queue_subscription nats_subscribe Dict.contains
  ensure-received_from topic t new b = ground arith

  ensure_same :
      (topic : Text) (t : NatsTransport C)
      → (Dict.contains topic t.queue_subs ≡ true) ⊎ (t.connected ≡ false)
      → (ensure_queue_subscription true topic t).1 ≡ t
  unfolding ensure_queue_subscription nats_subscribe
  ensure_same topic t h = ground arith

  ensure_queue_subscription-IsLive :
      (topic : Text) (t : NatsTransport C)
      → IsLive t
      → IsLive (ensure_queue_subscription true topic t).1
  unfolding Dict.contains
  ensure_queue_subscription-IsLive topic t i = elim (Option-cases (Dict.get topic t.queue_subs)) [
    | inl new ↦ elim (Bool-cases t.connected) [
      | inl b ↦
          subst IsLive (sym (ensure-received_from topic t new b))
            (received_from-IsLive topic t new i)
      | inr b ↦ subst IsLive (sym (ensure_same topic t (inr b))) i
    ]
    | inr (s, old) ↦ subst IsLive (sym (ensure_same topic t (inl (rw (old, Dict.contains) refl)))) i
  ]

  unsubscribe-IsLive :
      (sub_id : ℕ) (t : NatsTransport C) → IsLive t → IsLive (unsubscribe true sub_id t).1
  unfolding unsubscribe drop_sub live
  unsubscribe-IsLive sub_id t i =
      if_cases {A = Bool × NatsTransport C} (λ r. IsLive r.1)
        (not (Dict.contains sub_id t.subscribers)) _ _ (λ _. i)
        λ b. elim (Option-cases (Dict.get sub_id t.nats_subs)) [
          | inl q ↦
              rw (q, drop_sub)
                (without-IsLive sub_id t.calls t (λ s n. refl) (λ s subject l. (l, λ h. cc (q, h)))
                  i)
          | inr (n, q) ↦
              rw (q, drop_sub)
                (without-IsLive sub_id (unsubscribed n ∷ t.calls) t
                  (λ s h. ground (arith, λ (e : n ≡ s). h (cc (q, e))))
                  (λ s subject l. (ground arith, λ h. ground (arith, nat_beq_iff n s))) i)
        ]

  closed-IsLive :
      (t : NatsTransport C)
      → IsLive (record t {
        running = false;
        connected = false;
        calls = drained ∷ t.calls;
        subscribers = [];
        sub_topic = [];
        nats_subs = [];
        queue_subs = [];
      })
  unfolding live Dict.get
  closed-IsLive t = record {
    flags = refl;
    new_subs = λ s h. refl;
    new_ids = λ k h. refl;
    subs_live = λ k s g. absurd (cc g);
    queues_live = λ topic s g. absurd (cc g);
    held = λ s subject l. absurd (cc l);
    once = λ k j s g h. absurd (cc g);
    apart = λ k s topic g h. cc g;
  }

  close-IsLive : (t : NatsTransport C) → IsLive t → IsLive (close true t)
  unfolding close
  close-IsLive t i =
      if_cases {A = NatsTransport C} IsLive (not t.running) _ _ (λ b. i)
        λ b.
          let c : t.connected ≡ true = ground (arith, i.flags) in
          subst
            (λ x. IsLive (record t {
              running = false;
              connected = false;
              calls = if x && true then drained ∷ t.calls else t.calls;
              subscribers = [];
              sub_topic = [];
              nats_subs = [];
              queue_subs = [];
            }))
            (sym c) (closed-IsLive t)

  -- What the methods do, in any order; no call of the connection fails. Messages that arrive,
  -- receivers and the pool change the queues and the calls that wait besides.
  pub data Step (t : NatsTransport C) : NatsTransport C → Type 0 where
    subscribes : (topic : Text) (callback : C) → Step t (subscribe true topic callback t).1
    unsubscribes : (sub_id : ℕ) → Step t (unsubscribe true sub_id t).1
    receives : (topic : Text) → Step t (ensure_queue_subscription true topic t).1
    messages :
        (queues : Dict Text (List Message)) (pool : List (C × Message))
        → Step t (record t { queues = queues; callback_pool = pool })
    closes : Step t (close true t)

  pub data Run : NatsTransport C → Type 0 where
    start : Run started
    next : {t u : NatsTransport C} → Run t → Step t u → Run u

  Step-IsLive : {t u : NatsTransport C} → Step t u → IsLive t → IsLive u
  Step-IsLive (subscribes topic callback) i = subscribe-IsLive topic callback _ i
  Step-IsLive (unsubscribes sub_id) i = unsubscribe-IsLive sub_id _ i
  Step-IsLive (receives topic) i = ensure_queue_subscription-IsLive topic _ i
  Step-IsLive (messages queues pool) i = record {
    flags = i.flags;
    new_subs = i.new_subs;
    new_ids = i.new_ids;
    subs_live = i.subs_live;
    queues_live = i.queues_live;
    held = i.held;
    once = i.once;
    apart = i.apart;
  }
  Step-IsLive closes i = close-IsLive _ i

  started-IsLive : IsLive {C = C} started
  unfolding live Dict.get
  started-IsLive = record {
    flags = refl;
    new_subs = λ s h. refl;
    new_ids = λ k h. refl;
    subs_live = λ k s g. absurd (cc g);
    queues_live = λ topic s g. absurd (cc g);
    held = λ s subject l. absurd (cc l);
    once = λ k j s g h. absurd (cc g);
    apart = λ k s topic g h. cc g;
  }

  Run-IsLive : {t : NatsTransport C} → Run t → IsLive t
  Run-IsLive start = started-IsLive
  Run-IsLive (next r step) = Step-IsLive step (Run-IsLive r)

  -- However `subscribe`, `unsubscribe`, `receive` and `close` follow one another, if no call of the
  -- connection fails, then a subscription lives on the connection with some subject exactly if the
  -- transport holds it for a subscriber or for a topic that is received from, of that subject.
  pub Run-Held :
      {t : NatsTransport C}
      → Run t
      → (s : ℕ) (subject : Text) → (live s t.calls ≡ some subject) ↔ Held t s subject
  Run-Held r s subject = IsLive-Held (Run-IsLive r) s subject
