-- ===== src/WorkQueue/Nack.antt =====
-- eventforge/work_queue.py: `nack` and `_invoke_handler`.
use observer_pattern.Prelude.{
  ℕ, Bool, true, false, ◌&&◌, Option, none, some, if◌then◌else◌, ltb, leb, Text, codes, nat_eq,
  text_eq, pair_eq,
}
use observer_pattern.Prelude.Dict
use observer_pattern.Prelude.Dict.{Dict}
use observer_pattern.Types.{Message, Result, ok, err, type_error, num, plus_one}
use observer_pattern.WorkQueue.State.{InFlightEntry, Invocation, WorkQueue, push_front, retry_key}
use observer_pattern.WorkQueue.Delivery.{dead_letter, try_dispatch}

-- A message with its `_wq_retry_count` replaced.
abbrev pub with_retry_count : ℕ → Message → Message
with_retry_count n message = record message { headers = Dict.set retry_key (num n) message.headers }

abbrev pub max_retries_exceeded : Text
max_retries_exceeded = codes "max_retries_exceeded"

abbrev pub nack_no_requeue : Text
nack_no_requeue = codes "nack_no_requeue"

-- The answer for a delivery that was in flight.
abbrev pub known : Result (Option Text) → Result (Option (Option Text))
known (ok topic) = ok (some topic)
known (err e) = err e

module _ {C Q : Type 0} where
  -- `nack` from the popped entry on, with the lock held: the topic to dispatch, if any.
  unfoldable pub nack_entry :
      ℕ → InFlightEntry → Bool → WorkQueue C Q → Result (Option Text) × WorkQueue C Q
  nack_entry now entry requeue s = elim (plus_one entry.retry_count) [
    | none ↦ (err type_error, s)
    | some new_retry ↦
        if requeue && ltb new_retry s.max_retries
        then (
          ok (some entry.topic),
          push_front entry.topic (with_retry_count new_retry entry.message) s,
        )
        else (
          ok none,
          dead_letter now entry.message entry.topic
              (if leb s.max_retries new_retry then max_retries_exceeded else nack_no_requeue) s,
        )
  ]

  -- `nack` with the lock held: `ok none` where the delivery is not known.
  unfoldable pub nack_locked :
      ℕ → ℕ → Bool → WorkQueue C Q → Result (Option (Option Text)) × WorkQueue C Q
  nack_locked now delivery_id requeue s = elim (Dict.get delivery_id s.in_flight) [
    | none ↦ (ok none, s)
    | some entry ↦
        let (r, s₁) =
          nack_entry now entry requeue
            (record s { in_flight = Dict.erase delivery_id s.in_flight }) in
        (known r, s₁)
  ]

  unfoldable pub nack : ℕ → ℕ → Bool → WorkQueue C Q → Result Bool × WorkQueue C Q
  nack now delivery_id requeue s =
      let (r, s₁) = nack_locked now delivery_id requeue s in
      elim r [
        | err e ↦ (err e, s₁)
        | ok none ↦ (ok false, s₁)
        | ok (some none) ↦ (ok true, s₁)
        | ok (some (some topic)) ↦ (ok true, try_dispatch now topic s₁)
      ]

  -- `_invoke_handler` of a started thread, by whether the handler raised.
  unfoldable pub invoke_handler : ℕ → Bool → Invocation C → WorkQueue C Q → WorkQueue C Q
  invoke_handler now raised call s = if raised then (nack now call.delivery_id true s).1 else s
