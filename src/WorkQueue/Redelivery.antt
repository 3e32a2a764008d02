-- ===== src/WorkQueue/Redelivery.antt =====
-- eventforge/work_queue.py, `dequeue` and `nack`: a rejected message comes back first, until its
-- retries are used up.
use observer_pattern.Prelude.{
  ℕ, suc, ◌<◌, ◌≤◌, ◌≡◌, ◌≢◌, refl, ap, sym, ◌∙◌, ◌⊎◌, inl, inr, true, false, Option, none, some,
  List, [], ◌∷◌, ◌++◌, arith, if_cases, ltb, leb, Text, codes, length, length-append, nat_eq,
  text_eq, pair_eq, Bool-cases, subst,
}
use observer_pattern.Prelude.Dict
use observer_pattern.Prelude.Dict.{Dict}
use observer_pattern.Types.{Message, Result, ok, num, plus_one}
use observer_pattern.WorkQueue.State.{
  InFlightEntry, WorkQueue, pending_of, set_pending, push_back, push_front, retry_key,
}
use observer_pattern.WorkQueue.Delivery.{
  make_in_flight, start_reaper_if_needed, entry_for, dead_letter, dead_topic, dead_message,
}
use observer_pattern.WorkQueue.Enqueue.{take_pending, dequeue_round}
use observer_pattern.WorkQueue.Nack.{
  nack_entry, nack_locked, known, with_retry_count, max_retries_exceeded,
}
use observer_pattern.WorkQueue.Conservation.Dispatch.{pending_of-set_pending, pending_of-push_back}

dead_topic_differs : (topic : Text) → topic ≢ dead_topic topic
dead_topic_differs topic e =
    absurd (omega (arith, ap length e, length-append topic (codes ".dead_letter")))

module _ {C Q : Type 0} where
  -- What a rejection of the delivery of `msg` leaves, whose next retry count is `n`.
  abbrev pub Returned :
      ℕ
      → Text
      → Message
      → List Message
      → ℕ
      → WorkQueue C Q
      → Result (Option (Option Text)) × WorkQueue C Q
      → Type 0
  Returned later topic msg rest n s (r, u) =
      ((n < s.max_retries)
        × (r ≡ ok (some (some topic)))
        × (pending_of topic u ≡ with_retry_count n msg ∷ rest))
      ⊎ ((s.max_retries ≤ n)
          × (r ≡ ok (some none))
          × (pending_of topic u ≡ rest)
          × (pending_of (dead_topic topic) u
              ≡ pending_of (dead_topic topic) s
                ++ dead_message later (suc s.uuids) msg topic max_retries_exceeded ∷ []))

  pending_of-push_front :
      (topic : Text) (m : Message) (s : WorkQueue C Q)
      → pending_of topic (push_front topic m s) ≡ m ∷ pending_of topic s
  unfolding push_front
  pending_of-push_front topic m s = pending_of-set_pending topic _ s

  -- The other topics' queues.
  pending_of-push_back_ne :
      (topic other : Text) (m : Message) (s : WorkQueue C Q)
      → other ≢ topic
      → pending_of topic (push_back other m s) ≡ pending_of topic s
  unfolding push_back pending_of set_pending Dict.get_or
  pending_of-push_back_ne topic other m s h =
      ap (λ o. elim o [ none ↦ [] | some l ↦ l ]) (Dict.get-set_ne other topic _ s.pending h)

  -- A state whose pending messages are those of `s`, but for `rest` on one topic.
  taken_pending :
      (topic : Text) (rest : List Message) (s t : WorkQueue C Q)
      → t.pending ≡ Dict.set topic rest s.pending
      → (pending_of topic t ≡ rest)
        × ((other : Text) → topic ≢ other → pending_of other t ≡ pending_of other s)
  unfolding pending_of Dict.get_or
  taken_pending topic rest s t p = (
    ap (λ o. elim o [ none ↦ [] | some l ↦ l ])
        (ap (Dict.get topic) p ∙ Dict.get-set_self topic rest s.pending),
    λ other h.
        ap (λ o. elim o [ none ↦ [] | some l ↦ l ])
          (ap (Dict.get other) p ∙ Dict.get-set_ne topic other rest s.pending h),
  )

  dead_letter_pending :
      (later : ℕ) (m : Message) (topic reason : Text) (t : WorkQueue C Q)
      → (pending_of topic (dead_letter later m topic reason t) ≡ pending_of topic t)
        × (pending_of (dead_topic topic) (dead_letter later m topic reason t)
            ≡ pending_of (dead_topic topic) t ++ dead_message later t.uuids m topic reason ∷ [])
  unfolding dead_letter
  dead_letter_pending later m topic reason t =
      let t₁ : WorkQueue C Q = record t { uuids = suc t.uuids } in
      let d = dead_message later t.uuids m topic reason in
      let same : (o : Text) → pending_of o t₁ ≡ pending_of o t = λ o. unfold pending_of in refl in
      (
        pending_of-push_back_ne topic (dead_topic topic) d t₁
              (λ e. dead_topic_differs topic (sym e))
            ∙ same topic,
        pending_of-push_back (dead_topic topic) d t₁
            ∙ ap (λ l. l ++ d ∷ []) (same (dead_topic topic)),
      )

  nack_entry-Returned :
      (later : ℕ) (rest : List Message) (n : ℕ) (entry : InFlightEntry) (s t : WorkQueue C Q)
      → plus_one entry.retry_count ≡ some n
      → t.max_retries ≡ s.max_retries
      → t.uuids ≡ suc s.uuids
      → t.pending ≡ Dict.set entry.topic rest s.pending
      → let (r, u) = nack_entry later entry true t in
        Returned later entry.topic entry.message rest n s (known r, u)
  unfolding nack_entry
  nack_entry-Returned later rest n entry s t q x y p =
      let f = taken_pending entry.topic rest s t p in
      elim (Bool-cases (ltb n t.max_retries)) [
        | inl b ↦
            rw (q, nack_entry, b)
              (inl (
                ground (arith, b, x),
                refl,
                pending_of-push_front entry.topic (with_retry_count n entry.message) t
                    ∙ ap (λ l. with_retry_count n entry.message ∷ l) f.0,
              ))
        | inr b ↦
            let d = dead_letter_pending later entry.message entry.topic max_retries_exceeded t in
            let full : leb t.max_retries n ≡ true = ground (arith, b) in
            rw (q, nack_entry, b, full)
              (inr (
                ground (arith, b, x),
                refl,
                d.0 ∙ f.0,
                d.1
                    ∙ ap
                        (λ l.
                          l
                          ++ dead_message later t.uuids entry.message entry.topic
                              max_retries_exceeded
                            ∷ [])
                        (f.1 (dead_topic entry.topic) (dead_topic_differs entry.topic))
                    ∙ ap
                        (λ k.
                          pending_of (dead_topic entry.topic) s
                          ++ dead_message later k entry.message entry.topic max_retries_exceeded
                            ∷ [])
                        y,
              ))
      ]

  nack_locked_found :
      (later delivery_id : ℕ) (entry : InFlightEntry) (t : WorkQueue C Q)
      → Dict.get delivery_id t.in_flight ≡ some entry
      → let (r, u) =
          nack_entry later entry true
            (record t { in_flight = Dict.erase delivery_id t.in_flight }) in
        nack_locked later delivery_id true t ≡ (known r, u)
  unfolding nack_locked
  nack_locked_found later delivery_id entry t q = rw (q, nack_locked) refl

  take_pending-nack :
      (now later : ℕ) (topic : Text) (msg : Message) (rest : List Message) (n : ℕ)
      (s : WorkQueue C Q)
      → plus_one (Dict.get_or retry_key (num 0) msg.headers) ≡ some n
      → Returned later topic msg rest n s
          (nack_locked later s.uuids true (take_pending now topic (msg ∷ rest) s).1)
  unfolding take_pending make_in_flight start_reaper_if_needed set_pending
  take_pending-nack now later topic msg rest n s count =
      let entry =
        entry_for s.default_visibility_timeout now topic (topic ++ codes "._pull") msg s.uuids in
      let t : WorkQueue C Q = (take_pending now topic (msg ∷ rest) s).1 in
      subst (Returned later topic msg rest n s)
        (sym
          (nack_locked_found later s.uuids entry t (Dict.get-set_self s.uuids entry s.in_flight)))
        (nack_entry-Returned later rest n entry s _ count refl refl refl)

  -- A message that `dequeue` hands out and the consumer then rejects comes back to the front of its
  -- topic with its retry count raised, as long as that is below the limit; at the limit it goes to
  -- the end of the dead-letter topic instead. What waits behind it stays as it was.
  pub dequeue-nack :
      (now later : ℕ) (topic : Text) (msg : Message) (rest : List Message) (n : ℕ)
      (s : WorkQueue C Q)
      → s.closed_wq ≡ false
      → pending_of topic s ≡ msg ∷ rest
      → plus_one (Dict.get_or retry_key (num 0) msg.headers) ≡ some n
      → Returned later topic msg rest n s
          (nack_locked later s.uuids true (dequeue_round now topic s).1)
  unfolding dequeue_round
  dequeue-nack now later topic msg rest n s open_queue waits count =
      if_cases {A = Option (Option Message) × WorkQueue C Q}
        (λ r. Returned later topic msg rest n s (nack_locked later s.uuids true r.1)) s.closed_wq _
        _ (λ closed. cc)
        (λ is_open. rw waits (take_pending-nack now later topic msg rest n s count))
