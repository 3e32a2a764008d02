-- ===== src/WorkQueue/Conservation/Failures.antt =====
-- eventforge/work_queue.py: what `nack` and the reaper do to what the queue holds.
use observer_pattern.Prelude.{
  ℕ, ◌+◌, ◌≡◌, refl, inl, inr, Bool, Option, none, some, arith, ◌&&◌, if_cases, ltb, Text, nat_eq,
  text_eq, pair_eq, Option-cases,
}
use observer_pattern.Prelude.Dict
use observer_pattern.Prelude.Dict.{Dict}
use observer_pattern.Types.{Value, Result, ok, err, type_error, plus_one}
use observer_pattern.WorkQueue.State.{InFlightEntry, WorkQueue, set_pending, push_back, push_front}
use observer_pattern.WorkQueue.Delivery.{dead_letter}
use observer_pattern.WorkQueue.Nack.{nack_entry, nack_locked, known, with_retry_count}
use observer_pattern.WorkQueue.Tracked.{IsTracked}
use observer_pattern.WorkQueue.Conservation.Methods.{delivery_weight, outstanding-forget}
use observer_pattern.WorkQueue.Conservation.{
  entry_weight, outstanding, outstanding-push_front, outstanding-dead_letter,
}

module _ (w : Value → ℕ) {C Q : Type 0} where
  -- What a rejected delivery leaves: all of its message, or an exception and the message lost.
  abbrev Settles : InFlightEntry → WorkQueue C Q → Result (Option Text) × WorkQueue C Q → Type 0
  Settles entry s (ok topic, t) =
      ((n : ℕ) × (plus_one entry.retry_count ≡ some n))
      × (outstanding w t ≡ outstanding w s + entry_weight w entry)
  Settles entry s (err e, t) = (e ≡ type_error) × (t ≡ s) × (plus_one entry.retry_count ≡ none)

  nack_entry-Settles :
      (now : ℕ) (entry : InFlightEntry) (requeue : Bool) (s : WorkQueue C Q)
      → Settles entry s (nack_entry now entry requeue s)
  unfolding nack_entry
  nack_entry-Settles now entry requeue s = elim (Option-cases (plus_one entry.retry_count)) [
    | inl q ↦ rw (q, nack_entry) (refl, refl, q)
    | inr (n, q) ↦
        rw (q, nack_entry)
          (if_cases {A = Result (Option Text) × WorkQueue C Q} (Settles entry s)
            (requeue && ltb n s.max_retries) _ _
            (λ _.
              ((n, q), outstanding-push_front w entry.topic (with_retry_count n entry.message) s))
            (λ _. ((n, q), outstanding-dead_letter w now entry.message entry.topic _ s)))
  ]

  -- A delivery in flight, and its retry count plus one, if that is a number.
  abbrev pub Flies : ℕ → WorkQueue C Q → Option ℕ → Type 0
  Flies delivery_id s count =
      (entry : InFlightEntry) × (Dict.get delivery_id s.in_flight ≡ some entry)
      × (plus_one entry.retry_count ≡ count)

  -- What the locked part of `nack` has done, by its answer, and to what delivery.
  abbrev pub Rejects : ℕ → WorkQueue C Q → Result (Option (Option Text)) × WorkQueue C Q → Type 0
  Rejects delivery_id s (ok none, t) = (t ≡ s) × (Dict.get delivery_id s.in_flight ≡ none)
  Rejects delivery_id s (ok (some topic), t) =
      ((n : ℕ) × Flies delivery_id s (some n))
      × (outstanding w t ≡ outstanding w s)
      × (Dict.get delivery_id t.in_flight ≡ none)
  Rejects delivery_id s (err e, t) =
      Flies delivery_id s none
      × (e ≡ type_error)
      × (Dict.get delivery_id t.in_flight ≡ none)
      × (outstanding w t + delivery_weight w delivery_id s ≡ outstanding w s)

  nack_entry-in_flight :
      (now : ℕ) (entry : InFlightEntry) (requeue : Bool) (s : WorkQueue C Q)
      → (nack_entry now entry requeue s).1.in_flight ≡ s.in_flight
  unfolding nack_entry push_front set_pending dead_letter push_back
  nack_entry-in_flight now entry requeue s = ground arith

  Settles-Rejects :
      (delivery_id : ℕ) (entry : InFlightEntry) (s : WorkQueue C Q)
      (r : Result (Option Text) × WorkQueue C Q)
      → IsTracked s
      → Dict.get delivery_id s.in_flight ≡ some entry
      → r.1.in_flight ≡ Dict.erase delivery_id s.in_flight
      → Settles entry (record s { in_flight = Dict.erase delivery_id s.in_flight }) r
      → Rejects delivery_id s (known r.0, r.1)
  unfolding Dict.weight_at
  Settles-Rejects delivery_id entry s (ok topic, t) v q f h =
      let x = outstanding-forget w delivery_id s v in
      (
        (h.0.0, (entry, q, h.0.1)),
        ground (arith, x, q, h.1),
        rw f (Dict.get-erase_self delivery_id s.in_flight),
      )
  Settles-Rejects delivery_id entry s (err e, t) v q f h =
      let x = outstanding-forget w delivery_id s v in
      ((entry, q, h.2), h.0, rw f (Dict.get-erase_self delivery_id s.in_flight), rw h.1 x)

  -- The locked part of `nack` answers that a delivery is unknown only where it is, and changes
  -- nothing then. A known delivery whose retry count is a number has its message moved from the
  -- deliveries to a queue, so that all that was outstanding still is; one whose retry count is no
  -- number makes it raise a TypeError, and the message is lost. Either way the delivery id is
  -- spent.
  pub nack_locked-Rejects :
      (now delivery_id : ℕ) (requeue : Bool) (s : WorkQueue C Q)
      → IsTracked s
      → Rejects delivery_id s (nack_locked now delivery_id requeue s)
  unfolding nack_locked
  nack_locked-Rejects now delivery_id requeue s v =
      elim (Option-cases (Dict.get delivery_id s.in_flight)) [
        | inl q ↦ rw (q, nack_locked) (refl, q)
        | inr (entry, q) ↦
            rw (q, nack_locked)
              (Settles-Rejects delivery_id entry s _ v q (nack_entry-in_flight now entry requeue _)
                (nack_entry-Settles now entry requeue _))
      ]
