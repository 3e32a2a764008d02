-- ===== src/Transport/Redis/Interest.antt =====
-- eventforge/transports/redis.py: what is asked of Redis is what the subscriptions and the waiting
-- receivers need.
use observer_pattern.Prelude.{
  ℕ, ◌+◌, ◌≤◌, ◌≡◌, ◌↔◌, ◌⊎◌, refl, sym, ap, inl, inr, Bool, true, none, some, List, not, arith,
  if_cases, Text, nat_eq, text_eq, Option-cases,
}
use mathlib.Core.Option
use observer_pattern.Prelude.Keys.{text_beq, text_beq_iff}
use observer_pattern.Prelude.Dict
use observer_pattern.Prelude.Dict.{Dict}
use observer_pattern.Types.{Message, Result}
use observer_pattern.Transport.Redis.{
  RedisTransport, to_redis_pattern, init, filed, subscribe, drop_pattern, unsubscribe,
  ensure_queue_subscription, close,
}
use observer_pattern.Transport.Redis.Refs.{
  in_force, same, add_ref-Serves, drop_ref-Serves, add_ref-Keeps, drop_ref-Keeps,
}
use observer_pattern.Transport.Redis.Users.{
  total_new, total_taken, users, IsCounted, Wanted, Serves-cong, IsCounted-Wanted,
}

module _ {C : Type 0} where
  subscribe-IsCounted :
      (topic : Text) (callback : C) (t : RedisTransport C)
      → IsCounted t
      → IsCounted (subscribe true topic callback t).1
  unfolding subscribe
  subscribe-IsCounted topic callback t i =
      if_cases {A = Result ℕ × RedisTransport C} (λ r. IsCounted r.1) (not t.running) _ _ (λ _. i)
        λ b.
          let q = to_redis_pattern topic in
          let f : RedisTransport C = filed topic callback t in
          let k = add_ref-Keeps true q f in
          let new = i.fresh t.uuids (omega arith) in
          record {
            served =
                Serves-cong
                  (λ p.
                    rw (k.sub_pattern, k.queue_patterns)
                      (omega (arith, total_new p q t.uuids t.sub_pattern new)))
                  (add_ref-Serves (users t) q f
                    (record { refs = i.served.refs; force = i.served.force }));
            subs_distinct =
                rw k.sub_pattern (Dict.set-IsDict t.uuids q t.sub_pattern i.subs_distinct);
            queues_distinct = rw k.queue_patterns i.queues_distinct;
            fresh = λ j h.
                rw k.sub_pattern
                  (ground (arith, Dict.get-set t.uuids j q t.sub_pattern, i.fresh j, k.uuids));
            agrees = λ j.
                rw (k.sub_pattern, k.sub_topic)
                  (ground (
                    arith,
                    Dict.get-set t.uuids j q t.sub_pattern,
                    Dict.get-set t.uuids j topic t.sub_topic,
                    i.agrees j,
                  ));
            queue_agrees = rw k.queue_patterns i.queue_agrees;
          }

  ensure_queue_subscription-IsCounted :
      (topic : Text) (t : RedisTransport C)
      → IsCounted t
      → IsCounted (ensure_queue_subscription true topic t).1
  unfolding ensure_queue_subscription Dict.contains
  ensure_queue_subscription-IsCounted topic t i = elim (i.queue_agrees topic) [
    | inl new ↦
        let q = to_redis_pattern topic in
        let f : RedisTransport C = record t {
          queue_patterns = Dict.set topic q t.queue_patterns;
        } in
        let k = add_ref-Keeps true q f in
        rw (new, Dict.contains)
          (record {
            served =
                Serves-cong
                  (λ p.
                    rw (k.sub_pattern, k.queue_patterns)
                      (omega (arith, total_new p q topic t.queue_patterns new)))
                  (add_ref-Serves (users t) q f
                    (record { refs = i.served.refs; force = i.served.force }));
            subs_distinct = rw k.sub_pattern i.subs_distinct;
            queues_distinct =
                rw k.queue_patterns (Dict.set-IsDict topic q t.queue_patterns i.queues_distinct);
            fresh = λ j h. rw k.sub_pattern (i.fresh j (omega (arith, k.uuids)));
            agrees = λ j. rw (k.sub_pattern, k.sub_topic) (i.agrees j);
            queue_agrees = λ other. rw k.queue_patterns (
                rw (Dict.get-set topic other q t.queue_patterns) (
                  if_cases (λ o. (o ≡ none) ⊎ (o ≡ some (to_redis_pattern other)))
                    (text_beq topic other) _ _
                    (λ e.
                      inr (ap (λ x. some (to_redis_pattern x)) ((text_beq_iff topic other).0 e)))
                    (λ _. i.queue_agrees other)));
          })
    | inr old ↦ rw (old, Dict.contains) i
  ]

  unsubscribe-IsCounted :
      (sub_id : ℕ) (t : RedisTransport C) → IsCounted t → IsCounted (unsubscribe true sub_id t).1
  unfolding unsubscribe drop_pattern
  unsubscribe-IsCounted sub_id t i =
      if_cases {A = Bool × RedisTransport C} (λ r. IsCounted r.1)
        (not (Dict.contains sub_id t.subscribers)) _ _ (λ _. i)
        λ b.
          let f : RedisTransport C = record t {
            subscribers = Dict.erase sub_id t.subscribers;
            sub_topic = Dict.erase sub_id t.sub_topic;
            sub_pattern = Dict.erase sub_id t.sub_pattern;
          } in
          let erased_fresh : (j : ℕ) → t.uuids ≤ j → Dict.get j f.sub_pattern ≡ none =
            λ j h. ground (arith, Dict.get-erase sub_id j t.sub_pattern, i.fresh j) in
          let erased_agrees : (j : ℕ)
              → Dict.get j f.sub_pattern ≡ Option.map to_redis_pattern (Dict.get j f.sub_topic) =
            λ j. ground (
              arith,
              Dict.get-erase sub_id j t.sub_pattern,
              Dict.get-erase sub_id j t.sub_topic,
              i.agrees j,
            ) in
          elim (Option-cases (Dict.get sub_id t.sub_pattern)) [
            | inl q ↦
                rw (q, drop_pattern)
                  (record {
                    served =
                        Serves-cong
                          (λ p.
                            ap (λ d. Dict.total (same p) d + Dict.total (same p) t.queue_patterns)
                              (sym (Dict.erase_absent sub_id t.sub_pattern q)))
                          (record { refs = i.served.refs; force = i.served.force });
                    subs_distinct = Dict.erase-IsDict sub_id t.sub_pattern i.subs_distinct;
                    queues_distinct = i.queues_distinct;
                    fresh = λ j h. erased_fresh j h;
                    agrees = erased_agrees;
                    queue_agrees = i.queue_agrees;
                  })
            | inr (q, g) ↦
                let k = drop_ref-Keeps true q f in
                rw (g, drop_pattern)
                  (record {
                    served =
                        Serves-cong (λ p. rw (k.sub_pattern, k.queue_patterns) refl)
                          (drop_ref-Serves (users f) q f (
                            Serves-cong
                              (λ p.
                                omega
                                  (arith, total_taken p q sub_id t.sub_pattern i.subs_distinct g))
                              (record { refs = i.served.refs; force = i.served.force })));
                    subs_distinct =
                        rw k.sub_pattern (Dict.erase-IsDict sub_id t.sub_pattern i.subs_distinct);
                    queues_distinct = rw k.queue_patterns i.queues_distinct;
                    fresh = λ j h. rw k.sub_pattern (erased_fresh j (omega (arith, k.uuids)));
                    agrees = λ j. rw (k.sub_pattern, k.sub_topic) (erased_agrees j);
                    queue_agrees = rw k.queue_patterns i.queue_agrees;
                  })
          ]

  close-IsCounted : (t : RedisTransport C) → IsCounted t → IsCounted (close true t)
  unfolding close Dict.get Dict.get_or Dict.total in_force
  close-IsCounted t i = record {
    served = record { refs = λ p. refl; force = λ p. refl };
    subs_distinct = tt;
    queues_distinct = tt;
    fresh = λ k h. refl;
    agrees = λ k. refl;
    queue_agrees = λ topic. inl refl;
  }

  -- What the methods do, in any order; no call of the PubSub fails. A dispatch and a receive change
  -- the queues besides.
  pub data Step (t : RedisTransport C) : RedisTransport C → Type 0 where
    subscribes : (topic : Text) (callback : C) → Step t (subscribe true topic callback t).1
    unsubscribes : (sub_id : ℕ) → Step t (unsubscribe true sub_id t).1
    receives : (topic : Text) → Step t (ensure_queue_subscription true topic t).1
    queues : (queues : Dict Text (List Message)) → Step t (record t { queues = queues })
    closes : Step t (close true t)

  pub data Run : RedisTransport C → Type 0 where
    start : Run init
    next : {t u : RedisTransport C} → Run t → Step t u → Run u

  Step-IsCounted : {t u : RedisTransport C} → Step t u → IsCounted t → IsCounted u
  Step-IsCounted (subscribes topic callback) i = subscribe-IsCounted topic callback _ i
  Step-IsCounted (unsubscribes sub_id) i = unsubscribe-IsCounted sub_id _ i
  Step-IsCounted (receives topic) i = ensure_queue_subscription-IsCounted topic _ i
  Step-IsCounted (queues q) i = record {
    served = record { refs = i.served.refs; force = i.served.force };
    subs_distinct = i.subs_distinct;
    queues_distinct = i.queues_distinct;
    fresh = i.fresh;
    agrees = i.agrees;
    queue_agrees = i.queue_agrees;
  }
  Step-IsCounted closes i = close-IsCounted _ i

  Run-IsCounted : {t : RedisTransport C} → Run t → IsCounted t
  unfolding init Dict.get Dict.get_or Dict.total in_force
  Run-IsCounted start = record {
    served = record { refs = λ p. refl; force = λ p. refl };
    subs_distinct = tt;
    queues_distinct = tt;
    fresh = λ k h. refl;
    agrees = λ k. refl;
    queue_agrees = λ topic. inl refl;
  }
  Run-IsCounted (next r step) = Step-IsCounted step (Run-IsCounted r)

  -- However `subscribe`, `unsubscribe`, `receive` and `close` follow one another, if no call of the
  -- PubSub fails, then a pattern is in force exactly if some subscription or some topic that is
  -- received from wants it.
  pub Run-Wanted :
      {t : RedisTransport C} → Run t → (p : Text) → (in_force p t.pubsub ≡ true) ↔ Wanted t p
  Run-Wanted {t = t} r p = IsCounted-Wanted t (Run-IsCounted r) p
