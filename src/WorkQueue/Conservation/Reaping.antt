-- ===== src/WorkQueue/Conservation/Reaping.antt =====
-- eventforge/work_queue.py, `_reaper_loop`: a round takes the overdue deliveries back, and loses
-- none as long as the headers it reads are numbers.
use observer_pattern.Prelude.{
  ℕ, ◌+◌, ◌≡◌, ◌≢◌, refl, ◌∙◌, inl, inr, true, false, none, some, List, [], ◌∷◌, arith, ltb, Text,
  All, nat_eq, text_eq, pair_eq, Bool-cases, Option-cases, codes,
}
use observer_pattern.Prelude.Dict
use observer_pattern.Prelude.Dict.{Dict}
use observer_pattern.Types.{Value, Message, plus_one}
use observer_pattern.WorkQueue.State.{InFlightEntry, WorkQueue, set_pending, push_back, push_front}
use observer_pattern.WorkQueue.Delivery.{dead_letter}
use observer_pattern.WorkQueue.Nack.{with_retry_count}
use observer_pattern.WorkQueue.Reaper.{
  as_number, collect_expired, has_expired, requeue_expired, reap_locked, add_topic,
}
use observer_pattern.WorkQueue.Conservation.{
  entry_weight, outstanding, outstanding-push_front, outstanding-dead_letter,
}

-- The two fields that the reaper computes with are numbers.
abbrev pub IsNumbered : InFlightEntry → Type 0
IsNumbered e = (plus_one e.retry_count ≢ none) × (as_number e.visibility_timeout ≢ none)

abbrev pub weigh_entries : (Value → ℕ) → List InFlightEntry → ℕ
weigh_entries w [] = 0
weigh_entries w (e ∷ l) = entry_weight w e + weigh_entries w l

collect_expired_sorts :
    (w : Value → ℕ) (now : ℕ) (d : Dict ℕ InFlightEntry)
    → All (λ e. IsNumbered e.1) d
    → let (ended, expired, kept) = collect_expired now d in
      (ended ≡ true)
      × (Dict.total (entry_weight w) kept + weigh_entries w expired ≡ Dict.total (entry_weight w) d)
      × All (λ e. has_expired now e.1 ≡ some false) kept
      × All IsNumbered expired
unfolding collect_expired Dict.total
collect_expired_sorts w now [] a = (refl, omega arith, tt, tt)
collect_expired_sorts w now ((k, e) ∷ d) a =
    let u = collect_expired_sorts w now d a.1 in
    elim (Option-cases (has_expired now e)) [
      | inl q ↦ absurd (unfold has_expired in ground (arith, q, a.0.1))
      | inr (true, q) ↦ rw (q, collect_expired) (u.0, omega (arith, u.1), u.2, (a.0, u.3))
      | inr (false, q) ↦ rw (q, collect_expired) (u.0, omega (arith, u.1), (q, u.2), u.3)
    ]

module _ (w : Value → ℕ) {C Q : Type 0} where
  push_front_frame :
      (topic : Text) (m : Message) (s : WorkQueue C Q)
      → ((push_front topic m s).in_flight ≡ s.in_flight)
        × ((push_front topic m s).reaper_alive ≡ s.reaper_alive)
  unfolding push_front set_pending
  push_front_frame topic m s = (refl, refl)

  dead_letter_frame :
      (now : ℕ) (m : Message) (topic reason : Text) (s : WorkQueue C Q)
      → ((dead_letter now m topic reason s).in_flight ≡ s.in_flight)
        × ((dead_letter now m topic reason s).reaper_alive ≡ s.reaper_alive)
  unfolding dead_letter push_back set_pending
  dead_letter_frame now m topic reason s = (refl, refl)

  requeue_expired_keeps :
      (now : ℕ) (l : List InFlightEntry) (topics : List Text) (s : WorkQueue C Q)
      → All IsNumbered l
      → let (ended, _, t) = requeue_expired now l topics s in
        (ended ≡ true)
        × (outstanding w t ≡ outstanding w s + weigh_entries w l)
        × (t.in_flight ≡ s.in_flight)
        × (t.reaper_alive ≡ s.reaper_alive)
  unfolding requeue_expired
  requeue_expired_keeps now [] topics s a = (refl, omega arith, refl, refl)
  requeue_expired_keeps now (e ∷ l) topics s a = elim (Option-cases (plus_one e.retry_count)) [
    | inl q ↦ absurd (a.0.0 q)
    | inr (n, q) ↦
        let msg = with_retry_count n e.message in
        let fp = push_front_frame e.topic msg s in
        let fd = dead_letter_frame now e.message e.topic (codes "visibility_timeout_exceeded") s in
        let f = outstanding-push_front w e.topic msg s in
        let d =
          outstanding-dead_letter w now e.message e.topic (codes "visibility_timeout_exceeded") s in
        elim (Bool-cases (ltb n s.max_retries)) [
          | inl p ↦
              let u =
                requeue_expired_keeps now l (add_topic e.topic topics) (push_front e.topic msg s)
                  a.1 in
              rw (q, requeue_expired)
                (rw (p, requeue_expired) (u.0, omega (arith, u.1, f), u.2 ∙ fp.0, u.3 ∙ fp.1))
          | inr p ↦
              let u =
                requeue_expired_keeps now l topics
                  (dead_letter now e.message e.topic (codes "visibility_timeout_exceeded") s) a.1 in
              rw (q, requeue_expired)
                (rw (p, requeue_expired) (u.0, omega (arith, u.1, d), u.2 ∙ fd.0, u.3 ∙ fd.1))
        ]
  ]

  -- If the retry counts and timeouts in flight are numbers, a round of the reaper keeps all that
  -- was outstanding, leaves no overdue delivery in flight, and goes on running.
  pub reap_locked_keeps :
      (now : ℕ) (s : WorkQueue C Q)
      → All (λ e. IsNumbered e.1) s.in_flight
      → let t = (reap_locked now s).1 in
        (outstanding w t ≡ outstanding w s)
        × All (λ e. has_expired now e.1 ≡ some false) t.in_flight
        × (t.reaper_alive ≡ s.reaper_alive)
  unfolding reap_locked outstanding
  reap_locked_keeps now s a =
      let c = collect_expired_sorts w now s.in_flight a in
      let s₁ : WorkQueue C Q = record s { in_flight = (collect_expired now s.in_flight).2 } in
      let u = requeue_expired_keeps now (collect_expired now s.in_flight).1 [] s₁ c.3 in
      rw (c.0, u.0) (omega (arith, c.1, u.1), rw u.2 c.2, u.3)
