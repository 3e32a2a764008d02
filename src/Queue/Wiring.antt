-- ===== src/Queue/Wiring.antt =====
-- eventforge/queue.py, `topic`: every topic of an open queue is wired to the transport.
use observer_pattern.Prelude.{
  ℕ, suc, ◌<◌, ◌≡◌, ◌≢◌, refl, ap, subst, sym, ◌∙◌, inl, inr, true, false, none, some, [], ◌∷◌,
  ◌++◌, arith, if_cases, ◌==◌, Text, nat_eq, text_eq, Bool-cases,
}
use observer_pattern.Prelude.Dict
use observer_pattern.Types.{Result, ok, err}
use observer_pattern.Transport.Memory
use observer_pattern.Transport.Memory.{MemoryTransport}
use observer_pattern.Observers.Channel
use observer_pattern.Queue.{MessageQueue, channel, topic, subscribe}

-- The open transport with one more subscription, to a topic on behalf of its channel.
abbrev pub listening : Text → MemoryTransport Text → MemoryTransport Text
listening name t = record t {
  uuids = suc t.uuids;
  subscribers = Dict.set t.uuids name t.subscribers;
  topic_subs = Dict.set name (Dict.get_or name [] t.topic_subs ++ t.uuids ∷ []) t.topic_subs;
  sub_topic = Dict.set t.uuids name t.sub_topic;
}

subscribe_open :
    (name : Text) (t : MemoryTransport Text)
    → t.closed ≡ false
    → Memory.subscribe name name t ≡ (ok t.uuids, listening name t)
unfolding Memory.subscribe
subscribe_open name t is_open =
    if_cases {A = Result ℕ × MemoryTransport Text} (λ x. x ≡ (ok t.uuids, listening name t))
      t.closed _ _ (λ closed. cc) (λ b. refl)

module _ {H : Type 0} where
  -- The topic's channel is what the transport calls for messages of that topic.
  abbrev pub IsWired : Text → MessageQueue H → Type 0
  IsWired name q =
      (sub_id : ℕ) × (Dict.get name q.transport_subs ≡ some sub_id)
      × (sub_id < q.transport.uuids)
      × (Dict.get sub_id q.transport.subscribers ≡ some name)
      × (Dict.get sub_id q.transport.sub_topic ≡ some name)

  abbrev pub AreWired : MessageQueue H → Type 0
  AreWired q = (name : Text) → Dict.contains name q.topics ≡ true → IsWired name q

  -- A new topic: what `topic` leaves on an open transport.
  abbrev opened : Text → MessageQueue H → MessageQueue H
  opened name q = record q {
    topics = Dict.set name channel q.topics;
    transport_subs = Dict.set name q.transport.uuids q.transport_subs;
    transport = listening name q.transport;
  }

  opened-AreWired : (name : Text) (q : MessageQueue H) → AreWired q → AreWired (opened name q)
  unfolding Dict.contains
  opened-AreWired name q wired other h =
      let u = q.transport.uuids in
      let g = Dict.get-set name other u q.transport_subs in
      elim (Bool-cases (name == other)) [
        | inl b ↦
            let same : name ≡ other = (text_eq.beq_iff name other).0 b in
            (
              u,
              ground (arith, g, b),
              omega arith,
              Dict.get-set_self u name q.transport.subscribers ∙ ap some same,
              Dict.get-set_self u name q.transport.sub_topic ∙ ap some same,
            )
        | inr b ↦
            let old : Dict.contains other q.topics ≡ true =
              ground (arith, Dict.get-set name other channel q.topics, b, h) in
            let (sub_id, a, lt, c, d) = wired other old in
            let differs : u ≢ sub_id = λ e. absurd (omega (arith, e, lt)) in
            (
              sub_id,
              ground (arith, g, b, a),
              omega (arith, lt),
              Dict.get-set_ne u sub_id name q.transport.subscribers differs ∙ c,
              Dict.get-set_ne u sub_id name q.transport.sub_topic differs ∙ d,
            )
      ]

  -- What `topic` gives on an open transport.
  abbrev Opens : Text → MessageQueue H → Result (Unit {0}) × MessageQueue H → Type 0
  Opens name q (r, after) = (r ≡ ok tt) × AreWired after × (Dict.contains name after.topics ≡ true)

  topic-Opens :
      (name : Text) (q : MessageQueue H)
      → q.transport.closed ≡ false
      → AreWired q
      → Opens name q (topic name q)
  unfolding topic
  topic-Opens name q is_open wired =
      if_cases {A = Result (Unit {0}) × MessageQueue H} (Opens name q) (Dict.contains name q.topics)
        _ _ (λ known. (refl, wired, known))
        (λ fresh.
          subst {A = Result ℕ × MemoryTransport Text}
            (λ x. Opens name q (elim x.0 [
              | err e ↦
                  (err e, record q { topics = Dict.set name channel q.topics; transport = x.1 })
              | ok sub_id ↦ (
                ok tt,
                record q {
                  topics = Dict.set name channel q.topics;
                  transport = x.1;
                  transport_subs = Dict.set name sub_id q.transport_subs;
                },
              )
            ]))
            (sym (subscribe_open name q.transport is_open))
            (refl, opened-AreWired name q wired, Dict.contains-set_self name channel q.topics))

  -- What `subscribe` gives on an open transport.
  abbrev pub Subscribes : Text → H → MessageQueue H → Result ℕ × MessageQueue H → Type 0
  Subscribes name fn q (r, after) =
      (handler_id : ℕ) × (r ≡ ok handler_id)
      × (Dict.get handler_id after.sub_ids ≡ some (name, fn))
      × AreWired after
      × IsWired name after

  -- The rest of `subscribe`, from what `topic` gave.
  subscribe_rest :
      (name : Text) (fn : H) (q : MessageQueue H) (x : Result (Unit {0}) × MessageQueue H)
      → Opens name q x
      → Subscribes name fn q (elim x.0 [
        | err e ↦ (err e, x.1)
        | ok u ↦ (
          ok x.1.uuids,
          record x.1 {
            uuids = suc x.1.uuids;
            topics =
                Dict.set name
                  (Channel.subscribe fn (Dict.get_or name channel x.1.topics))
                  x.1.topics;
            sub_ids = Dict.set x.1.uuids (name, fn) x.1.sub_ids;
          },
        )
      ])
  unfolding Dict.contains
  subscribe_rest name fn q (err e, q₁) h = absurd (cc (h.0))
  subscribe_rest name fn q (ok u, q₁) h =
      let c = Channel.subscribe fn (Dict.get_or name channel q₁.topics) in
      (
        q₁.uuids,
        refl,
        Dict.get-set_self q₁.uuids (name, fn) q₁.sub_ids,
        λ other o.
            if_cases (λ y. (elim y [ none ↦ false | some z ↦ true ]) ≡ true → IsWired other q₁)
              (name == other) (some c) (Dict.get other q₁.topics)
              (λ b k.
                let same : name ≡ other = (text_eq.beq_iff name other).0 b in
                subst (λ n. IsWired n q₁) same (h.1 name h.2))
              (λ b k. h.1 other k) (rw (← Dict.get-set name other c q₁.topics) o),
        h.1 name h.2,
      )

  -- While the transport is open, if every topic of the queue is wired to it, so is every topic
  -- after a `subscribe`, that of the new handler among them: the transport calls the topic's
  -- channel for it. The handler's id is answered and recorded.
  pub subscribe-Subscribes :
      (name : Text) (fn : H) (q : MessageQueue H)
      → q.transport.closed ≡ false
      → AreWired q
      → Subscribes name fn q (subscribe name fn q)
  unfolding subscribe
  subscribe-Subscribes name fn q is_open wired =
      subscribe_rest name fn q (topic name q) (topic-Opens name q is_open wired)
