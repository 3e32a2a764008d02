-- ===== src/WorkQueue/Tracked/Run.antt =====
-- eventforge/work_queue.py: the reaper keeps `IsTracked`, and so does every interleaving.
use observer_pattern.Prelude.{
  ℕ, suc, ◌≡◌, inl, inr, true, false, none, List, [], ◌∷◌, arith, if_cases, ltb, Text, All, nat_eq,
  text_eq, pair_eq, Bool-cases, Option-cases,
}
use observer_pattern.Prelude.Dict
use observer_pattern.Prelude.Dict.{Dict}
use observer_pattern.Types.{plus_one}
use observer_pattern.WorkQueue.State.{InFlightEntry, WorkQueue, init}
use observer_pattern.WorkQueue.Reaper.{collect_expired, has_expired, requeue_expired, reap_locked}
use observer_pattern.WorkQueue.Tracked.{
  IsKeyed, IsTracked, push_front-IsTracked, draw-IsTracked, dead_letter-IsTracked,
  try_dispatch-IsTracked,
}
use observer_pattern.WorkQueue.Consumers.{stop_reaper, join_reaper, clear, close_parent}
use observer_pattern.WorkQueue.Sections.{
  Section, puts, dispatches, registers, takes, acks, nacks, removes, reaps, stops, joins, clears,
  closes_parent, Run, here, next,
}
use observer_pattern.WorkQueue.Tracked.Methods.{
  put_message-IsTracked, register_consumer-IsTracked, dequeue_round-IsTracked, ack-IsTracked,
  nack_locked-IsTracked, remove_consumer-IsTracked,
}

module _ {ℓ} (P : ℕ × InFlightEntry → Type ℓ) where
  pub collect_expired-All :
      (now : ℕ) (d : Dict ℕ InFlightEntry) → All P d → All P (collect_expired now d).2
  unfolding collect_expired
  collect_expired-All now [] h = h
  collect_expired-All now ((k, e) ∷ d) h = elim (Option-cases (has_expired now e)) [
    | inl q ↦ rw (q, collect_expired) h
    | inr (true, q) ↦ rw (q, collect_expired) (collect_expired-All now d h.1)
    | inr (false, q) ↦ rw (q, collect_expired) (h.0, collect_expired-All now d h.1)
  ]

collect_expired_absent :
    (now k : ℕ) (d : Dict ℕ InFlightEntry)
    → Dict.get k d ≡ none
    → Dict.get k (collect_expired now d).2 ≡ none
unfolding collect_expired Dict.get
collect_expired_absent now k [] h = h
collect_expired_absent now k ((j, e) ∷ d) h = ground (arith, collect_expired_absent now k d)

pub collect_expired-IsDict :
    (now : ℕ) (d : Dict ℕ InFlightEntry) → Dict.IsDict d → Dict.IsDict (collect_expired now d).2
unfolding collect_expired
collect_expired-IsDict now [] h = h
collect_expired-IsDict now ((k, e) ∷ d) h = elim (Option-cases (has_expired now e)) [
  | inl q ↦ rw (q, collect_expired) h
  | inr (true, q) ↦ rw (q, collect_expired) (collect_expired-IsDict now d h.1)
  | inr (false, q) ↦
      rw (q, collect_expired) (collect_expired_absent now k d h.0, collect_expired-IsDict now d h.1)
]

module _ {C Q : Type 0} where
  requeue_expired-IsTracked :
      (now : ℕ) (l : List InFlightEntry) (topics : List Text) (s : WorkQueue C Q)
      → IsTracked s
      → IsTracked (requeue_expired now l topics s).2
  unfolding requeue_expired
  requeue_expired-IsTracked now [] topics s v = v
  requeue_expired-IsTracked now (e ∷ l) topics s v = elim (Option-cases (plus_one e.retry_count)) [
    | inl q ↦ rw (q, requeue_expired) v
    | inr (n, q) ↦ elim (Bool-cases (ltb n s.max_retries)) [
      | inl p ↦
          rw (q, requeue_expired)
            (rw (p, requeue_expired)
              (requeue_expired-IsTracked now l _ _ (push_front-IsTracked _ _ s v)))
      | inr p ↦
          rw (q, requeue_expired)
            (rw (p, requeue_expired)
              (requeue_expired-IsTracked now l _ _ (dead_letter-IsTracked _ _ _ _ s v)))
    ]
  ]

  -- A change of `reaper_alive` alone.
  dead-IsTracked : (s : WorkQueue C Q) → IsTracked s → IsTracked (record s { reaper_alive = false })
  dead-IsTracked s v = record { keyed = v.keyed; distinct = v.distinct; manned = v.manned }

  reap_locked-IsTracked :
      (now : ℕ) (s : WorkQueue C Q) → IsTracked s → IsTracked (reap_locked now s).1
  unfolding reap_locked
  reap_locked-IsTracked now s v =
      let s₁ : WorkQueue C Q = record s { in_flight = (collect_expired now s.in_flight).2 } in
      let u : IsTracked s₁ = record {
        keyed = collect_expired-All (IsKeyed s.uuids) now s.in_flight v.keyed;
        distinct = collect_expired-IsDict now s.in_flight v.distinct;
        manned = v.manned;
      } in
      let w = requeue_expired-IsTracked now (collect_expired now s.in_flight).1 [] s₁ u in
      if_cases {A = List Text × WorkQueue C Q} (λ r. IsTracked r.1)
        (collect_expired now s.in_flight).0 _ _
        (λ _.
          if_cases {A = List Text × WorkQueue C Q} (λ r. IsTracked r.1) _ _ _ (λ _. w)
            (λ _. dead-IsTracked _ w))
        (λ _. dead-IsTracked s₁ u)

  Section-IsTracked : {s t : WorkQueue C Q} → Section s t → IsTracked s → IsTracked t
  unfolding stop_reaper join_reaper clear close_parent
  Section-IsTracked {s} (puts now vt topic payload headers) v =
      put_message-IsTracked topic _ _ (draw-IsTracked (suc s.uuids) s (omega arith) v)
  Section-IsTracked {s} (dispatches now topic) v = try_dispatch-IsTracked now topic s v
  Section-IsTracked {s} (registers topic group handler) v =
      register_consumer-IsTracked topic group handler s v
  Section-IsTracked {s} (takes now topic) v = dequeue_round-IsTracked now topic s v
  Section-IsTracked {s} (acks id) v = ack-IsTracked id s v
  Section-IsTracked {s} (nacks now id requeue) v = nack_locked-IsTracked now id requeue s v
  Section-IsTracked {s} (removes id) v = remove_consumer-IsTracked id s v
  Section-IsTracked {s} (reaps now) v = reap_locked-IsTracked now s v
  Section-IsTracked stops v = record { keyed = v.keyed; distinct = v.distinct; manned = v.manned }
  Section-IsTracked joins v = record { keyed = v.keyed; distinct = v.distinct; manned = v.manned }
  Section-IsTracked clears v = record { keyed = tt; distinct = tt; manned = tt }
  Section-IsTracked (closes_parent close_queue) v = record {
    keyed = v.keyed;
    distinct = v.distinct;
    manned = v.manned;
  }

  Run-IsTracked_from : {s t : WorkQueue C Q} → IsTracked s → Run s t → IsTracked t
  Run-IsTracked_from v here = v
  Run-IsTracked_from v (next r x) = Section-IsTracked x (Run-IsTracked_from v r)

  init-IsTracked :
      (parent : Q) (size timeout retries : ℕ) → IsTracked (init {C = C} parent size timeout retries)
  unfolding init
  init-IsTracked parent size timeout retries = record { keyed = tt; distinct = tt; manned = tt }

  -- However the critical sections of the methods and the steps of `close` interleave from an empty
  -- queue on, the deliveries in flight have distinct delivery ids, each filed under its own and
  -- drawn before, and no consumer group that is listed is empty.
  pub Run-IsTracked :
      (parent : Q) (size timeout retries : ℕ) {t : WorkQueue C Q}
      → Run (init parent size timeout retries) t
      → IsTracked t
  Run-IsTracked parent size timeout retries r =
      Run-IsTracked_from (init-IsTracked parent size timeout retries) r
