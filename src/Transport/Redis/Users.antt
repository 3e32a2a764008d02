-- ===== src/Transport/Redis/Users.antt =====
-- eventforge/transports/redis.py: the users of a pattern are its subscriptions and the topics that
-- are received from; the references count them.
use observer_pattern.Prelude.{
  Eq, ℕ, ◌+◌, ◌<◌, ◌≤◌, ◌≡◌, ◌↔◌, ◌⊎◌, refl, sym, ap, ◌∙◌, inl, inr, true, Option, none, some, [],
  ◌∷◌, arith, ltb, ◌==◌, ==_refl, Text, nat_eq, text_eq, Bool-cases,
}
use mathlib.Core.Option
use observer_pattern.Prelude.Keys.{text_beq, text_beq_iff}
use observer_pattern.Prelude.Dict
use observer_pattern.Prelude.Dict.{Dict}
use observer_pattern.Transport.Redis.{RedisTransport, to_redis_pattern}
use observer_pattern.Transport.Redis.Refs.{in_force, same, Serves}

module _ {K : Type 0} ⦃e : Eq K⦄ where
  pub some_key :
      (p : Text) (d : Dict K Text)
      → Dict.IsDict d
      → 0 < Dict.total (same p) d
      → (k : K) × (Dict.get k d ≡ some p)
  unfolding Dict.total Dict.get
  some_key p [] h t = absurd (omega arith)
  some_key p ((j, q) ∷ d) h t = elim (Bool-cases (text_beq q p)) [
    | inl b ↦ (j, ground (arith, ==_refl j, text_beq_iff q p))
    | inr b ↦
        let (k, g) = some_key p d h.1 (ground arith) in
        elim (Bool-cases (j == k)) [
          | inl c ↦ absurd (ground (arith, e.beq_iff j k))
          | inr c ↦ (k, rw c g)
        ]
  ]

  pub total_pos :
      (p : Text) (k : K) (d : Dict K Text) → Dict.get k d ≡ some p → 0 < Dict.total (same p) d
  unfolding Dict.total Dict.get
  total_pos p k [] h = absurd (cc h)
  total_pos p k ((j, q) ∷ d) h = ground (arith, total_pos p k d, text_beq_iff q p)

  -- A value that is new under its key, and one that is taken from under its key.
  pub total_new :
      (p q : Text) (k : K) (d : Dict K Text)
      → Dict.get k d ≡ none
      → Dict.total (same p) (Dict.set k q d) ≡ Dict.total (same p) d + same p q
  unfolding Dict.weight_at
  total_new p q k d h = ground (arith, Dict.total-set (same p) k q d)

  pub total_taken :
      (p q : Text) (k : K) (d : Dict K Text)
      → Dict.IsDict d
      → Dict.get k d ≡ some q
      → Dict.total (same p) d ≡ Dict.total (same p) (Dict.erase k d) + same p q
  unfolding Dict.weight_at
  total_taken p q k d i h = ground (arith, Dict.total-erase (same p) k d i)

pub map-some :
    (o : Option Text) (p : Text)
    → Option.map to_redis_pattern o ≡ some p
    → (topic : Text) × (o ≡ some topic) × (to_redis_pattern topic ≡ p)
map-some none p h = absurd (cc h)
map-some (some topic) p h = (topic, refl, ground arith)

module _ {C : Type 0} where
  abbrev pub users : RedisTransport C → Text → ℕ
  users t p = Dict.total (same p) t.sub_pattern + Dict.total (same p) t.queue_patterns

  pub record IsCounted (t : RedisTransport C) : Type 0 where
    pub served : Serves (users t) t
    pub subs_distinct : Dict.IsDict t.sub_pattern
    pub queues_distinct : Dict.IsDict t.queue_patterns
    pub fresh : (k : ℕ) → t.uuids ≤ k → Dict.get k t.sub_pattern ≡ none
    pub agrees :
        (k : ℕ) → Dict.get k t.sub_pattern ≡ Option.map to_redis_pattern (Dict.get k t.sub_topic)
    pub queue_agrees :
        (topic : Text)
        → (Dict.get topic t.queue_patterns ≡ none)
          ⊎ (Dict.get topic t.queue_patterns ≡ some (to_redis_pattern topic))

  -- A pattern is wanted: by a subscription, or by a topic that is received from.
  abbrev pub Wanted : RedisTransport C → Text → Type 0
  Wanted t p =
      ((k : ℕ) × (topic : Text) × (Dict.get k t.sub_topic ≡ some topic)
        × (to_redis_pattern topic ≡ p))
      ⊎ ((topic : Text) × (Dict.contains topic t.queue_patterns ≡ true)
          × (to_redis_pattern topic ≡ p))

  pub Serves-cong :
      {n m : Text → ℕ} {t : RedisTransport C} → ((p : Text) → n p ≡ m p) → Serves n t → Serves m t
  Serves-cong {t = t} h s = record {
    refs = λ p. s.refs p ∙ h p;
    force = λ p. s.force p ∙ ap (ltb 0) (h p);
  }

  pub IsCounted-Wanted :
      (t : RedisTransport C) → IsCounted t → (p : Text) → (in_force p t.pubsub ≡ true) ↔ Wanted t p
  unfolding Dict.contains
  IsCounted-Wanted t i p =
      let pos : (0 < users t p) ↔ (in_force p t.pubsub ≡ true) =
        (λ h. ground (arith, i.served.force p), λ h. ground (arith, i.served.force p)) in
      (
        λ h. elim (Bool-cases (ltb 0 (Dict.total (same p) t.sub_pattern))) [
          | inl b ↦
              let (k, g) = some_key p t.sub_pattern i.subs_distinct (ground arith) in
              let (topic, a, q) = map-some (Dict.get k t.sub_topic) p (sym (i.agrees k) ∙ g) in
              inl (k, topic, a, q)
          | inr b ↦
              let (topic, g) =
                some_key p t.queue_patterns i.queues_distinct (ground (arith, pos.1 h)) in
              inr (
                topic,
                rw (g, Dict.contains) refl,
                elim (i.queue_agrees topic) [ inl q ↦ absurd (cc (q, g)) | inr q ↦ cc (q, g) ],
              )
        ],
        λ w. elim w [
          | inl (k, topic, g, q) ↦ pos.0 (
              omega (
                arith,
                total_pos p k t.sub_pattern
                    (i.agrees k ∙ ap (Option.map to_redis_pattern) g ∙ ap some q),
              ))
          | inr (topic, g, q) ↦ elim (i.queue_agrees topic) [
            | inl r ↦ absurd (ground (arith, r))
            | inr r ↦ pos.0 (omega (arith, total_pos p topic t.queue_patterns (r ∙ ap some q)))
          ]
        ],
      )
