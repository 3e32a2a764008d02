-- ===== src/WorkQueue/Reaper.antt =====
-- eventforge/work_queue.py: one round of `_reaper_loop`. An arithmetic error on a header that is
-- not a number ends the thread where it stands.
use observer_pattern.Prelude.{
  ℕ, ◌+◌, Bool, true, false, ◌&&◌, Option, none, some, List, [], ◌∷◌, if◌then◌else◌, ltb, leb, ◌==◌,
  Text, codes, nat_eq, text_eq,
}
use observer_pattern.Prelude.Dict.{Dict}
use observer_pattern.Types.{Value, num, bool, plus_one}
use observer_pattern.WorkQueue.State.{InFlightEntry, WorkQueue, push_front}
use observer_pattern.WorkQueue.Delivery.{dead_letter, try_dispatch}
use observer_pattern.WorkQueue.Nack.{with_retry_count}

-- A number that Python compares with a float.
unfoldable pub as_number : Value → Option ℕ
as_number (num n) = some n
as_number (bool b) = some (if b then 1 else 0)
as_number _ = none

-- `now - entry.delivered_at >= entry.visibility_timeout`, which may be below zero on the left
unfoldable pub has_expired : ℕ → InFlightEntry → Option Bool
unfolding as_number
has_expired now entry = elim (as_number entry.visibility_timeout) [
  | none ↦ none
  | some t ↦ some (leb (t + entry.delivered_at) now)
]

-- The first loop: whether it ended, the expired entries, and `_in_flight` without them.
unfoldable pub collect_expired :
    ℕ → Dict ℕ InFlightEntry → Bool × List InFlightEntry × Dict ℕ InFlightEntry
collect_expired now [] = (true, [], [])
collect_expired now ((delivery_id, entry) ∷ rest) =
    let (ended, expired, kept) = collect_expired now rest in
    elim (has_expired now entry) [
      | none ↦ (false, [], (delivery_id, entry) ∷ rest)
      | some true ↦ (ended, entry ∷ expired, kept)
      | some false ↦ (ended, expired, (delivery_id, entry) ∷ kept)
    ]

-- `requeued_topics.add`: a set, kept here in the order of its first additions.
unfoldable pub add_topic : Text → List Text → List Text
add_topic topic [] = topic ∷ []
add_topic topic (t ∷ topics) = if t == topic then t ∷ topics else t ∷ add_topic topic topics

module _ {C Q : Type 0} where
  -- The second loop: whether it ended, and the topics that got a message back.
  unfoldable pub requeue_expired :
      ℕ → List InFlightEntry → List Text → WorkQueue C Q → Bool × List Text × WorkQueue C Q
  requeue_expired now [] topics s = (true, topics, s)
  requeue_expired now (entry ∷ expired) topics s = elim (plus_one entry.retry_count) [
    | none ↦ (false, topics, s)
    | some new_retry ↦ elim (ltb new_retry s.max_retries) [
      | true ↦
          requeue_expired now expired (add_topic entry.topic topics)
            (push_front entry.topic (with_retry_count new_retry entry.message) s)
      | false ↦
          requeue_expired now expired topics
            (dead_letter now entry.message entry.topic (codes "visibility_timeout_exceeded") s)
    ]
  ]

  unfoldable pub dispatch_all : ℕ → List Text → WorkQueue C Q → WorkQueue C Q
  dispatch_all now [] s = s
  dispatch_all now (topic ∷ topics) s = dispatch_all now topics (try_dispatch now topic s)

  -- What the round does while it holds the lock: the topics to dispatch.
  unfoldable pub reap_locked : ℕ → WorkQueue C Q → List Text × WorkQueue C Q
  reap_locked now s =
      let (collected, expired, kept) = collect_expired now s.in_flight in
      let s₁ = record s { in_flight = kept } in
      let (ended, topics, s₂) = requeue_expired now expired [] s₁ in
      if collected
      then (if ended then (topics, s₂) else ([], record s₂ { reaper_alive = false }))
      else ([], record s₁ { reaper_alive = false })

  unfoldable pub reap : ℕ → WorkQueue C Q → WorkQueue C Q
  reap now s = let (topics, s₁) = reap_locked now s in dispatch_all now topics s₁

  -- One round of the thread: nothing once it has stopped.
  unfoldable pub reaper_round : ℕ → WorkQueue C Q → WorkQueue C Q
  reaper_round now s = if s.reaper_running && s.reaper_alive then reap now s else s
