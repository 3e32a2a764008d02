-- ===== src/WorkQueue/Sound/Run.antt =====
-- eventforge/work_queue.py: while no caller brings headers of the queue's own, however the critical
-- sections interleave.
use observer_pattern.Prelude.{
  ℕ, suc, ◌≡◌, refl, inl, inr, Bool, true, false, Option, List, [], ◌∷◌, arith, ltb, Text, All,
  nat_eq, text_eq, pair_eq, Bool-cases, Option-cases,
}
use observer_pattern.Prelude.Dict.{Dict}
use observer_pattern.Types.{ok}
use observer_pattern.WorkQueue.State.{InFlightEntry, WorkQueue, init}
use observer_pattern.WorkQueue.Nack.{nack_locked}
use observer_pattern.WorkQueue.Reaper.{
  as_number, has_expired, collect_expired, requeue_expired, reap_locked,
}
use observer_pattern.WorkQueue.Consumers.{stop_reaper, join_reaper, clear, close_parent}
use observer_pattern.WorkQueue.Sections.{
  Section, puts, dispatches, registers, takes, acks, nacks, removes, reaps, stops, joins, clears,
  closes_parent, Run, here, next,
}
use observer_pattern.WorkQueue.Sound.{
  IsCounted, with_retry_count-HasCounts, IsSound, push_front-IsSound, draw-IsSound,
  dead_letter-IsSound, try_dispatch-IsSound,
}
use observer_pattern.WorkQueue.Sound.Methods.{
  IsClean, count_bump, put_message-IsSound, register_consumer-IsSound, dequeue_round-IsSound,
  ack-IsSound, nack_locked-IsSound, remove_consumer-IsSound,
}

-- Where the timeouts are numbers the first loop of a round ends.
collect_expired-IsCounted :
    (limit now : ℕ) (d : Dict ℕ InFlightEntry)
    → All (λ e. IsCounted limit e.1) d
    → ((collect_expired now d).0 ≡ true)
      × All (IsCounted limit) (collect_expired now d).1
      × All (λ e. IsCounted limit e.1) (collect_expired now d).2
unfolding collect_expired has_expired as_number
collect_expired-IsCounted limit now [] h = (refl, tt, tt)
collect_expired-IsCounted limit now ((k, e) ∷ d) ((c, (t, q), m), h) =
    let (a, b, f) = collect_expired-IsCounted limit now d h in
    elim (Option-cases (has_expired now e)) [
      | inl r ↦ absurd (ground arith)
      | inr (true, r) ↦ rw (r, collect_expired) (a, ((c, (t, q), m), b), f)
      | inr (false, r) ↦ rw (r, collect_expired) (a, b, ((c, (t, q), m), f))
    ]

module _ {C Q : Type 0} where
  requeue_expired-IsSound :
      (limit now : ℕ) (l : List InFlightEntry) (topics : List Text) (s : WorkQueue C Q)
      → All (IsCounted limit) l
      → IsSound limit s
      → ((requeue_expired now l topics s).0 ≡ true)
        × IsSound limit (requeue_expired now l topics s).2
  unfolding requeue_expired
  requeue_expired-IsSound limit now [] topics s h v = (refl, v)
  requeue_expired-IsSound limit now (e ∷ l) topics s (((n, q, b), t, m), h) v =
      elim (Bool-cases (ltb (suc n) s.max_retries)) [
        | inl p ↦
            rw (count_bump limit n e.retry_count q, requeue_expired)
              (rw (p, requeue_expired)
                (requeue_expired-IsSound limit now l _ _ h (
                  push_front-IsSound limit _ _ s
                    (with_retry_count-HasCounts limit (suc n) e.message (ground (arith, v.bound)) m)
                    v)))
        | inr p ↦
            rw (count_bump limit n e.retry_count q, requeue_expired)
              (rw (p, requeue_expired)
                (requeue_expired-IsSound limit now l _ _ h
                  (dead_letter-IsSound limit _ _ _ _ s m v)))
      ]

  reap_locked-IsSound :
      (limit now : ℕ) (s : WorkQueue C Q) → IsSound limit s → IsSound limit (reap_locked now s).1
  unfolding reap_locked
  reap_locked-IsSound limit now s v =
      let (a, b, f) = collect_expired-IsCounted limit now s.in_flight v.flying in
      let s₁ : WorkQueue C Q = record s { in_flight = (collect_expired now s.in_flight).2 } in
      let u : IsSound limit s₁ = record {
        bound = v.bound;
        waiting = v.waiting;
        flying = f;
        alive = v.alive;
      } in
      let (e, w) =
        requeue_expired-IsSound limit now (collect_expired now s.in_flight).1 [] s₁ b u in
      rw (a, e) w

  -- A section whose caller, if it enqueues, brings no header of the queue's own.
  abbrev pub IsCleanSection : {s t : WorkQueue C Q} → Section s t → Type 0
  IsCleanSection (puts now vt topic payload headers) = IsClean headers
  IsCleanSection _ = Unit

  abbrev pub IsCleanRun : {s t : WorkQueue C Q} → Run s t → Type 0
  IsCleanRun here = Unit
  IsCleanRun (next r x) = IsCleanRun r × IsCleanSection x

  Section-IsSound :
      (limit : ℕ) {s t : WorkQueue C Q} (x : Section s t)
      → IsCleanSection x
      → IsSound limit s
      → IsSound limit t
  unfolding stop_reaper join_reaper clear close_parent
  Section-IsSound limit {s} (puts now vt topic payload headers) c v =
      put_message-IsSound limit now s.uuids topic payload vt headers _ c
        (draw-IsSound limit (suc s.uuids) s v)
  Section-IsSound limit {s} (dispatches now topic) c v = try_dispatch-IsSound limit now topic s v
  Section-IsSound limit {s} (registers topic group handler) c v =
      register_consumer-IsSound limit topic group handler s v
  Section-IsSound limit {s} (takes now topic) c v = dequeue_round-IsSound limit now topic s v
  Section-IsSound limit {s} (acks id) c v = ack-IsSound limit id s v
  Section-IsSound limit {s} (nacks now id requeue) c v =
      (nack_locked-IsSound limit now id requeue s v).0
  Section-IsSound limit {s} (removes id) c v = remove_consumer-IsSound limit id s v
  Section-IsSound limit {s} (reaps now) c v = reap_locked-IsSound limit now s v
  Section-IsSound limit stops c v = record {
    bound = v.bound;
    waiting = v.waiting;
    flying = v.flying;
    alive = λ e. cc e;
  }
  Section-IsSound limit {s} joins c v = record {
    bound = v.bound;
    waiting = v.waiting;
    flying = v.flying;
    alive = λ e. rw e (v.alive e);
  }
  Section-IsSound limit clears c v = record {
    bound = v.bound;
    waiting = tt;
    flying = tt;
    alive = v.alive;
  }
  Section-IsSound limit (closes_parent close_queue) c v = record {
    bound = v.bound;
    waiting = v.waiting;
    flying = v.flying;
    alive = v.alive;
  }

  Run-IsSound_from :
      (limit : ℕ) {s t : WorkQueue C Q} (r : Run s t)
      → IsCleanRun r
      → IsSound limit s
      → IsSound limit t
  Run-IsSound_from limit here c v = v
  Run-IsSound_from limit (next r x) c v =
      Section-IsSound limit x c.1 (Run-IsSound_from limit r c.0 v)

  init-IsSound :
      (parent : Q) (size timeout retries : ℕ)
      → IsSound retries (init {C = C} parent size timeout retries)
  unfolding init
  init-IsSound parent size timeout retries = record {
    bound = refl;
    waiting = tt;
    flying = tt;
    alive = λ e. cc e;
  }

  -- If no caller of `enqueue` brings a retry count or a visibility timeout among its headers, then
  -- however the critical sections and the steps of `close` interleave from an empty queue on: the
  -- retry count of every message that is pending, in flight or dead-lettered is a number below
  -- `max_retries`, or 0; every timeout is a number; while the reaper is to run it is alive; and a
  -- `nack` does not raise.
  pub Run-IsSound :
      (parent : Q) (size timeout retries : ℕ) {t : WorkQueue C Q}
      (r : Run (init parent size timeout retries) t)
      → IsCleanRun r
      → IsSound retries t
        × ((now delivery_id : ℕ) (requeue : Bool)
            → (x : Option (Option Text)) × ((nack_locked now delivery_id requeue t).0 ≡ ok x))
  Run-IsSound parent size timeout retries {t = t} r c =
      let v = Run-IsSound_from retries r c (init-IsSound parent size timeout retries) in
      (
        v,
        λ now delivery_id requeue.
            let (u, x, e) = nack_locked-IsSound retries now delivery_id requeue t v in (x, e),
      )
