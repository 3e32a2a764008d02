-- ===== src/Transport/Nats/Live.antt =====
-- eventforge/transports/nats.py: the subscriptions that live on the connection are those that the
-- transport holds.
use observer_pattern.Prelude.{
  ℕ, ◌≤◌, ◌≡◌, ◌≢◌, ◌↔◌, ◌⊎◌, ap, ◌∙◌, inl, inr, Option, none, some, List, [], ◌∷◌, if◌then◌else◌,
  ◌==◌, Text, nat_eq, text_eq,
}
use observer_pattern.Prelude.Dict
use observer_pattern.Prelude.Dict.{Dict}
use observer_pattern.Transport.Nats.{
  NatsCall, subscribed, unsubscribed, drained, NatsTransport, to_nats_subject,
}

-- The subject of a subscription after the calls, if it lives: it has been neither cancelled nor
-- drained since it was made.
unfoldable pub live : ℕ → List NatsCall → Option Text
live s [] = none
live s (subscribed n subject ∷ calls) = if n == s then some subject else live s calls
live s (unsubscribed n ∷ calls) = if n == s then none else live s calls
live s (drained ∷ calls) = none

module _ {C : Type 0} where
  -- A subscription that the transport holds, for a topic of that subject.
  abbrev pub Held : NatsTransport C → ℕ → Text → Type 0
  Held t s subject =
      ((k : ℕ) × (topic : Text) × (Dict.get k t.nats_subs ≡ some s)
        × (Dict.get k t.sub_topic ≡ some topic)
        × (to_nats_subject topic ≡ subject))
      ⊎ ((topic : Text) × (Dict.get topic t.queue_subs ≡ some s)
          × (to_nats_subject topic ≡ subject))

  pub record IsLive (t : NatsTransport C) : Type 0 where
    pub flags : t.running ≡ t.connected
    pub new_subs : (s : ℕ) → t.next_sub ≤ s → live s t.calls ≡ none
    pub new_ids : (k : ℕ) → t.uuids ≤ k → Dict.get k t.nats_subs ≡ none
    pub subs_live :
        (k s : ℕ)
        → Dict.get k t.nats_subs ≡ some s
        → (topic : Text) × (Dict.get k t.sub_topic ≡ some topic)
          × (live s t.calls ≡ some (to_nats_subject topic))
    pub queues_live :
        (topic : Text) (s : ℕ)
        → Dict.get topic t.queue_subs ≡ some s
        → live s t.calls ≡ some (to_nats_subject topic)
    pub held : (s : ℕ) (subject : Text) → live s t.calls ≡ some subject → Held t s subject
    pub once :
        (k j s : ℕ) → Dict.get k t.nats_subs ≡ some s → Dict.get j t.nats_subs ≡ some s → k ≡ j
    pub apart :
        (k s : ℕ) (topic : Text)
        → Dict.get k t.nats_subs ≡ some s
        → Dict.get topic t.queue_subs ≢ some s

  pub IsLive-Held :
      {t : NatsTransport C}
      → IsLive t
      → (s : ℕ) (subject : Text) → (live s t.calls ≡ some subject) ↔ Held t s subject
  IsLive-Held i s subject = (
    i.held s subject,
    λ h. elim h [
      | inl (k, topic, g, f, e) ↦
          let (topic', f', l) = i.subs_live k s g in
          l ∙ ap some (ap to_nats_subject (cc (f, f')) ∙ e)
      | inr (topic, g, e) ↦ i.queues_live topic s g ∙ ap some e
    ],
  )
