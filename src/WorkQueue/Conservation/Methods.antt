-- ===== src/WorkQueue/Conservation/Methods.antt =====
-- eventforge/work_queue.py: what `enqueue`, `dequeue`, `ack`, `nack` and the reaper add to or take
-- from the queue.
use observer_pattern.Prelude.{
  ℕ, ◌+◌, ◌≤◌, ◌<◌, ◌≡◌, refl, ap, ◌⊎◌, inl, inr, true, false, Option, none, some, List, [], ◌∷◌,
  ◌++◌, arith, if_cases, Text, length, nat_eq, text_eq, pair_eq, Option-cases, codes,
}
use observer_pattern.Prelude.Dict
use observer_pattern.Prelude.Dict.{Dict}
use observer_pattern.Types.{Value, Message, ok, err, queue_full}
use observer_pattern.WorkQueue.State.{WorkQueue, pending_of, set_pending}
use observer_pattern.WorkQueue.Delivery.{entry_for, start_reaper_if_needed, make_in_flight, stamped}
use observer_pattern.WorkQueue.Enqueue.{put_message, dequeue_round, take_pending, ack}
use observer_pattern.WorkQueue.Tracked.{IsTracked, set_pending-IsTracked}
use observer_pattern.WorkQueue.Conservation.Dispatch.{pending_of-set_pending, pending_of-push_back}
use observer_pattern.WorkQueue.Conservation.{
  weigh, entry_weight, outstanding, outstanding-set_pending, outstanding-make_in_flight,
  outstanding-push_back,
}

module _ (w : Value → ℕ) {C Q : Type 0} where
  -- The weight of a delivery, zero where it is not in flight.
  abbrev pub delivery_weight : ℕ → WorkQueue C Q → ℕ
  delivery_weight delivery_id s = Dict.weight_at (entry_weight w) delivery_id s.in_flight

  pub outstanding-forget :
      (delivery_id : ℕ) (s : WorkQueue C Q)
      → IsTracked s
      → outstanding w (record s { in_flight = Dict.erase delivery_id s.in_flight })
          + delivery_weight delivery_id s
        ≡ outstanding w s
  unfolding outstanding
  outstanding-forget delivery_id s v =
      omega (arith, Dict.total-erase (entry_weight w) delivery_id s.in_flight v.distinct)

  -- `ack` answers whether the delivery was in flight, takes that delivery out and nothing else, and
  -- leaves it unknown, so that a second `ack` answers False.
  pub outstanding-ack :
      (delivery_id : ℕ) (s : WorkQueue C Q)
      → IsTracked s
      → let (found, t) = ack delivery_id s in
        (found ≡ Dict.contains delivery_id s.in_flight)
        × (outstanding w t + delivery_weight delivery_id s ≡ outstanding w s)
        × (t.pending ≡ s.pending)
        × ((ack delivery_id t).0 ≡ false)
  unfolding ack Dict.contains Dict.weight_at
  outstanding-ack delivery_id s v = elim (Option-cases (Dict.get delivery_id s.in_flight)) [
    | inl q ↦
        rw (q, ack, Dict.contains, Dict.weight_at)
          (refl, omega arith, refl, rw (q, ack, Dict.contains))
    | inr (e, q) ↦
        let x = outstanding-forget delivery_id s v in
        let g = Dict.get-erase_self delivery_id s.in_flight in
        rw (q, ack, Dict.contains, Dict.weight_at)
          (refl, ground (arith, x, q), refl, rw (g, ack, Dict.contains))
  ]

  -- What a round of `dequeue` on an open queue answers and leaves.
  abbrev pub Fifo : Text → WorkQueue C Q → Option (Option Message) × WorkQueue C Q → Type 0
  Fifo topic s (answer, t) =
      (outstanding w t ≡ outstanding w s)
      × (((pending_of topic s ≡ []) × (answer ≡ none) × (t ≡ s))
          ⊎ ((msg : Message) × (rest : List Message) × (pending_of topic s ≡ msg ∷ rest)
              × (answer ≡ some (some (stamped msg s.uuids)))
              × (pending_of topic t ≡ rest)
              × (Dict.contains s.uuids t.in_flight ≡ true)))

  take_pending-Fifo :
      (now : ℕ) (topic : Text) (l : List Message) (s : WorkQueue C Q)
      → IsTracked s
      → pending_of topic s ≡ l
      → Fifo topic s (take_pending now topic l s)
  unfolding take_pending make_in_flight start_reaper_if_needed
  take_pending-Fifo now topic [] s v p = (refl, inl (p, refl, refl))
  take_pending-Fifo now topic (msg ∷ rest) s v p =
      let s₁ = set_pending topic rest s in
      let x = outstanding-set_pending w topic rest s in
      let y =
        outstanding-make_in_flight w now msg topic (topic ++ codes "._pull") s₁
          (set_pending-IsTracked topic rest s v) in
      (
        unfold weigh in omega (arith, x, y, ap (weigh w) p),
        inr (
          msg,
          rest,
          p,
          unfold set_pending in refl,
          unfold pending_of in pending_of-set_pending topic rest s,
          unfold set_pending in
              Dict.contains-set_self s.uuids
                (entry_for s.default_visibility_timeout now topic (topic ++ codes "._pull") msg
                  s.uuids)
                s.in_flight,
        ),
      )

  -- A round of `dequeue` on an open queue hands out the oldest pending message, and only then: it
  -- moves from the front of its topic to the deliveries in flight. On a closed queue it returns
  -- None.
  pub dequeue_round-Fifo :
      (now : ℕ) (topic : Text) (s : WorkQueue C Q)
      → IsTracked s
      → (s.closed_wq ≡ true → dequeue_round now topic s ≡ (some none, s))
        × (s.closed_wq ≡ false → Fifo topic s (dequeue_round now topic s))
  unfolding dequeue_round
  dequeue_round-Fifo now topic s v = (
    if_cases {A = Option (Option Message) × WorkQueue C Q}
        (λ r. s.closed_wq ≡ true → r ≡ (some none, s)) s.closed_wq (some none, s)
        (take_pending now topic (pending_of topic s) s) (λ _ _. refl) (λ e f. cc),
    if_cases {A = Option (Option Message) × WorkQueue C Q}
        (λ r. s.closed_wq ≡ false → Fifo topic s r) s.closed_wq (some none, s)
        (take_pending now topic (pending_of topic s) s) (λ e f. cc)
        (λ _ _. take_pending-Fifo now topic (pending_of topic s) s v refl),
  )

  -- A put is refused exactly at the limit, where there is one, and changes nothing then; otherwise
  -- the message joins the end of its topic.
  pub put_message_bounded :
      (topic : Text) (m : Message) (s : WorkQueue C Q)
      → let (r, t) = put_message topic m s in
        (((0 < s.max_work_queue_size) × (s.max_work_queue_size ≤ length (pending_of topic s)))
          × (r ≡ err queue_full)
          × (t ≡ s))
        ⊎ ((s.max_work_queue_size ≡ 0) ⊎ (length (pending_of topic s) < s.max_work_queue_size))
          × (r ≡ ok m.id)
          × (pending_of topic t ≡ pending_of topic s ++ m ∷ [])
          × (outstanding w t ≡ outstanding w s + w m.payload)
  unfolding put_message
  put_message_bounded topic m s =
      ground (arith, outstanding-push_back w topic m s, pending_of-push_back topic m s)
