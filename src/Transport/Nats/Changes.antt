-- ===== src/Transport/Nats/Changes.antt =====
-- eventforge/transports/nats.py: what a subscription more, and one less, make of what lives.
use observer_pattern.Prelude.{
  ℕ, suc, ◌<◌, ◌≡◌, ◌≢◌, ap, ◌∙◌, inl, inr, none, some, List, ◌∷◌, if◌then◌else◌, ltb, ◌==◌, arith,
  Text, nat_eq, text_eq, nat_beq, nat_beq_iff, Bool-cases,
}
use observer_pattern.Prelude.Keys.{text_beq_iff}
use observer_pattern.Prelude.Dict
use observer_pattern.Prelude.Dict.{Dict}
use observer_pattern.Transport.Nats.{NatsCall, subscribed, NatsTransport, to_nats_subject}
use observer_pattern.Transport.Nats.Live.{live, IsLive}

module _ {C : Type 0} where
  -- What a successful `subscribe` and a first `receive` come to.
  abbrev pub joined : Text → C → NatsTransport C → NatsTransport C
  joined topic callback t = record t {
    calls = subscribed t.next_sub (to_nats_subject topic) ∷ t.calls;
    next_sub = suc t.next_sub;
    uuids = suc t.uuids;
    subscribers = Dict.set t.uuids callback t.subscribers;
    sub_topic = Dict.set t.uuids topic t.sub_topic;
    nats_subs = Dict.set t.uuids t.next_sub t.nats_subs;
  }

  abbrev pub received_from : Text → NatsTransport C → NatsTransport C
  received_from topic t = record t {
    calls = subscribed t.next_sub (to_nats_subject topic) ∷ t.calls;
    next_sub = suc t.next_sub;
    queue_subs = Dict.set topic t.next_sub t.queue_subs;
  }

  live_lt :
      (t : NatsTransport C)
      → IsLive t
      → (s : ℕ) (subject : Text) → live s t.calls ≡ some subject
      → s < t.next_sub
  live_lt t i s subject l = elim (Bool-cases (ltb s t.next_sub)) [
    | inl b ↦ ground arith
    | inr b ↦ absurd (cc (l, i.new_subs s (ground arith)))
  ]

  sub_lt :
      (t : NatsTransport C)
      → IsLive t
      → (k s : ℕ) → Dict.get k t.nats_subs ≡ some s
      → s < t.next_sub
  sub_lt t i k s g =
      let (topic, f, l) = i.subs_live k s g in live_lt t i s (to_nats_subject topic) l

  queue_lt :
      (t : NatsTransport C)
      → IsLive t
      → (topic : Text) (s : ℕ) → Dict.get topic t.queue_subs ≡ some s
      → s < t.next_sub
  queue_lt t i topic s g = live_lt t i s (to_nats_subject topic) (i.queues_live topic s g)

  pub joined-IsLive :
      (topic : Text) (callback : C) (t : NatsTransport C)
      → IsLive t
      → IsLive (joined topic callback t)
  unfolding live
  joined-IsLive topic callback t i =
      let key : (k : ℕ)
          → Dict.get k (Dict.set t.uuids t.next_sub t.nats_subs)
            ≡ (if t.uuids == k then some t.next_sub else Dict.get k t.nats_subs) =
        λ k. Dict.get-set t.uuids k t.next_sub t.nats_subs in
      let name : (k : ℕ)
          → Dict.get k (Dict.set t.uuids topic t.sub_topic)
            ≡ (if t.uuids == k then some topic else Dict.get k t.sub_topic) =
        λ k. Dict.get-set t.uuids k topic t.sub_topic in
      record {
        flags = i.flags;
        new_subs = λ s h. ground (arith, i.new_subs s);
        new_ids = λ k h. ground (arith, key k, i.new_ids k);
        subs_live = λ k s g. elim (Bool-cases (nat_beq t.uuids k)) [
          | inl q ↦ (topic, ground (arith, name k), ground (arith, key k))
          | inr q ↦
              let g' : Dict.get k t.nats_subs ≡ some s = ground (arith, key k) in
              let (other, f, l) = i.subs_live k s g' in
              (other, ground (arith, name k), ground (arith, sub_lt t i k s g'))
        ];
        queues_live = λ other s g. ground (arith, queue_lt t i other s g, i.queues_live other s g);
        held = λ s subject l. elim (Bool-cases (nat_beq t.next_sub s)) [
          | inl q ↦ inl (
            t.uuids,
            topic,
            ground (arith, key t.uuids),
            ground (arith, name t.uuids),
            ground arith,
          )
          | inr q ↦ elim (i.held s subject (ground arith)) [
            | inl (k, other, g, f, e) ↦ inl (
              k,
              other,
              ground (arith, key k, i.new_ids k),
              ground (arith, name k, i.new_ids k),
              e,
            )
            | inr h ↦ inr h
          ]
        ];
        once =
            λ k j s g h. ground (arith, key k, key j, i.once k j s, sub_lt t i k s, sub_lt t i j s);
        apart = λ k s other g h. ground (arith, key k, i.apart k s other, queue_lt t i other s h);
      }

  pub received_from-IsLive :
      (topic : Text) (t : NatsTransport C)
      → Dict.get topic t.queue_subs ≡ none
      → IsLive t
      → IsLive (received_from topic t)
  unfolding live
  received_from-IsLive topic t new i =
      let key : (k : Text)
          → Dict.get k (Dict.set topic t.next_sub t.queue_subs)
            ≡ (if topic == k then some t.next_sub else Dict.get k t.queue_subs) =
        λ k. Dict.get-set topic k t.next_sub t.queue_subs in
      record {
        flags = i.flags;
        new_subs = λ s h. ground (arith, i.new_subs s);
        new_ids = i.new_ids;
        subs_live = λ k s g.
            let (other, f, l) = i.subs_live k s g in (other, f, ground (arith, sub_lt t i k s g));
        queues_live = λ other s g. ground (
          arith,
          key other,
          text_beq_iff topic other,
          queue_lt t i other s,
          i.queues_live other s,
        );
        held = λ s subject l. elim (Bool-cases (nat_beq t.next_sub s)) [
          | inl q ↦ inr (topic, ground (arith, key topic, text_beq_iff topic topic), ground arith)
          | inr q ↦ elim (i.held s subject (ground arith)) [
            | inl h ↦ inl h
            | inr (other, g, e) ↦
                inr (other, ground (arith, key other, text_beq_iff topic other), e)
          ]
        ];
        once = i.once;
        apart = λ k s other g h. ground (arith, key other, i.apart k s other g, sub_lt t i k s g);
      }

  -- A subscription that is taken out, with the calls that are left.
  abbrev pub without : ℕ → List NatsCall → NatsTransport C → NatsTransport C
  without sub_id calls t = record t {
    calls = calls;
    subscribers = Dict.erase sub_id t.subscribers;
    sub_topic = Dict.erase sub_id t.sub_topic;
    nats_subs = Dict.erase sub_id t.nats_subs;
  }

  pub without-IsLive :
      (sub_id : ℕ) (calls : List NatsCall) (t : NatsTransport C)
      → ((s : ℕ) → Dict.get sub_id t.nats_subs ≢ some s → live s calls ≡ live s t.calls)
      → ((s : ℕ) (subject : Text)
          → live s calls ≡ some subject
          → (live s t.calls ≡ some subject) × (Dict.get sub_id t.nats_subs ≢ some s))
      → IsLive t
      → IsLive (without sub_id calls t)
  without-IsLive sub_id calls t kept only i =
      let key : (k : ℕ)
          → Dict.get k (Dict.erase sub_id t.nats_subs)
            ≡ (if sub_id == k then none else Dict.get k t.nats_subs) =
        λ k. Dict.get-erase sub_id k t.nats_subs in
      let name : (k : ℕ)
          → Dict.get k (Dict.erase sub_id t.sub_topic)
            ≡ (if sub_id == k then none else Dict.get k t.sub_topic) =
        λ k. Dict.get-erase sub_id k t.sub_topic in
      record {
        flags = i.flags;
        new_subs = λ s h. kept s (λ g. omega (arith, sub_lt t i sub_id s g)) ∙ i.new_subs s h;
        new_ids = λ k h. ground (arith, key k, i.new_ids k);
        subs_live = λ k s g.
            let g' : Dict.get k t.nats_subs ≡ some s = ground (arith, key k) in
            let ne : sub_id ≢ k = λ e. ground (arith, key k, nat_beq_iff sub_id k) in
            let (topic, f, l) = i.subs_live k s g' in
            (
              topic,
              ground (arith, name k, nat_beq_iff sub_id k),
              kept s (λ h. ne (i.once sub_id k s h g')) ∙ l,
            );
        queues_live =
            λ topic s g. kept s (λ h. i.apart sub_id s topic h g) ∙ i.queues_live topic s g;
        held = λ s subject l.
            let (l', n) = only s subject l in
            elim (i.held s subject l') [
              | inl (k, topic, g, f, e) ↦
                  let ne : sub_id ≢ k = λ q. n (ap (λ x. Dict.get x t.nats_subs) q ∙ g) in
                  inl (
                    k,
                    topic,
                    ground (arith, key k, nat_beq_iff sub_id k),
                    ground (arith, name k, nat_beq_iff sub_id k),
                    e,
                  )
              | inr h ↦ inr h
            ];
        once = λ k j s g h. i.once k j s (ground (arith, key k)) (ground (arith, key j));
        apart = λ k s topic g. i.apart k s topic (ground (arith, key k));
      }
