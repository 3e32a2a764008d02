-- ===== src/Transport/Redis/Refs.antt =====
-- eventforge/transports/redis.py, `_psubscribe` and `_punsubscribe`: the references of the
-- patterns, and what has been asked of the PubSub.
use observer_pattern.Prelude.{
  ℕ, suc, ◌+◌, ◌-◌, ◌≡◌, Bool, true, false, List, [], ◌∷◌, arith, if◌then◌else◌, ltb, ◌==◌, Text,
  nat_eq, text_eq,
}
use observer_pattern.Prelude.Keys.{text_beq_iff}
use observer_pattern.Prelude.Dict
use observer_pattern.Prelude.Dict.{Dict}
use observer_pattern.Transport.Redis.{
  PubSubCall, psubscribe, punsubscribe, closed, RedisTransport, add_ref, drop_ref,
}

-- Whether a pattern is in force after the calls: the newest that names it subscribed to it, and the
-- PubSub has not been closed since.
unfoldable pub in_force : Text → List PubSubCall → Bool
in_force p [] = false
in_force p (psubscribe q ∷ calls) = if q == p then true else in_force p calls
in_force p (punsubscribe q ∷ calls) = if q == p then false else in_force p calls
in_force p (closed ∷ calls) = false

abbrev pub same : Text → Text → ℕ
same p q = if q == p then 1 else 0

get_or-set :
    (p q : Text) (v : ℕ) (d : Dict Text ℕ)
    → Dict.get_or p 0 (Dict.set q v d) ≡ (if q == p then v else Dict.get_or p 0 d)
unfolding Dict.get_or
get_or-set p q v d = ground (arith, Dict.get-set q p v d)

get_or-erase :
    (p q : Text) (d : Dict Text ℕ)
    → Dict.get_or p 0 (Dict.erase q d) ≡ (if q == p then 0 else Dict.get_or p 0 d)
unfolding Dict.get_or
get_or-erase p q d = ground (arith, Dict.get-erase q p d)

module _ {C : Type 0} where
  -- `n` counts the users of each pattern; those in use are in force.
  pub record Serves (n : Text → ℕ) (t : RedisTransport C) : Type 0 where
    pub refs : (p : Text) → Dict.get_or p 0 t.pattern_refs ≡ n p
    pub force : (p : Text) → in_force p t.pubsub ≡ ltb 0 (n p)

  pub add_ref-Serves :
      (n : Text → ℕ) (q : Text) (t : RedisTransport C)
      → Serves n t
      → Serves (λ p. n p + same p q) (add_ref true q t).1
  unfolding add_ref in_force
  add_ref-Serves n q t s = record {
    refs = λ p. ground (
      arith,
      s.refs p,
      s.refs q,
      text_beq_iff q p,
      get_or-set p q 1 t.pattern_refs,
      get_or-set p q (suc (Dict.get_or q 0 t.pattern_refs)) t.pattern_refs,
    );
    force = λ p. ground (arith, s.force p, s.force q, s.refs q, text_beq_iff q p);
  }

  pub drop_ref-Serves :
      (n : Text → ℕ) (q : Text) (t : RedisTransport C)
      → Serves (λ p. n p + same p q) t
      → Serves n (drop_ref true q t)
  unfolding drop_ref in_force
  drop_ref-Serves n q t s = record {
    refs = λ p. ground (
      arith,
      s.refs p,
      s.refs q,
      text_beq_iff q p,
      text_beq_iff q q,
      get_or-erase p q t.pattern_refs,
      get_or-set p q (Dict.get_or q 0 t.pattern_refs - 1) t.pattern_refs,
    );
    force = λ p. ground (arith, s.force p, s.force q, s.refs q, text_beq_iff q p, text_beq_iff q q);
  }

  -- What they leave alone.
  pub record Keeps (t u : RedisTransport C) : Type 0 where
    pub subscribers : u.subscribers ≡ t.subscribers
    pub sub_topic : u.sub_topic ≡ t.sub_topic
    pub sub_pattern : u.sub_pattern ≡ t.sub_pattern
    pub queue_patterns : u.queue_patterns ≡ t.queue_patterns
    pub uuids : u.uuids ≡ t.uuids
    pub queues : u.queues ≡ t.queues
    pub running : u.running ≡ t.running

  pub add_ref-Keeps :
      (reached : Bool) (q : Text) (t : RedisTransport C) → Keeps t (add_ref reached q t).1
  unfolding add_ref
  add_ref-Keeps reached q t = ground arith

  pub drop_ref-Keeps :
      (reached : Bool) (q : Text) (t : RedisTransport C) → Keeps t (drop_ref reached q t)
  unfolding drop_ref
  drop_ref-Keeps reached q t = ground arith
