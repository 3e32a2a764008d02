-- ===== src/WorkQueue/Conservation.antt =====
-- eventforge/work_queue.py: what the queue holds, weighed by payload. No helper that runs under
-- the lock loses or invents a message.
pub mod Dispatch
pub mod Methods
pub mod Failures
pub mod Reaping
use observer_pattern.Prelude.{
  ℕ, zero, suc, ◌+◌, ◌*◌, ◌≤◌, ◌<◌, ◌≡◌, refl, ap, inl, inr, Bool, true, false, Option, none, some,
  List, [], ◌∷◌, ◌++◌, arith, ◌||◌, if◌then◌else◌, ltb, ◌==◌, Text, length, All, All-filter, nat_eq,
  text_eq, pair_eq, Bool-cases, Option-cases, List-cases, ==_refl,
}
use observer_pattern.Prelude.Dict
use observer_pattern.Prelude.Dict.{Dict}
use observer_pattern.Types.{Value, Message}
use observer_pattern.WorkQueue.State.{
  InFlightEntry, WorkQueue, pending_of, set_pending, push_back, push_front,
}
use observer_pattern.WorkQueue.Delivery.{
  start_reaper_if_needed, make_in_flight, dead_letter, deliver_to, deliver_to_group,
  deliver_to_groups, drain, try_dispatch, entry_for, groups_of, dead_topic, dead_message,
}
use observer_pattern.WorkQueue.Tracked.{
  IsTracked, fresh_key, set_pending-IsTracked, draw-IsTracked, deliver_to-IsTracked,
  deliver_to_groups-IsTracked,
}

module _ (w : Value → ℕ) where
  unfoldable pub weigh : List Message → ℕ
  weigh [] = 0
  weigh (m ∷ l) = w m.payload + weigh l

  abbrev pub entry_weight : InFlightEntry → ℕ
  entry_weight e = w e.message.payload

  -- The weight of all that is pending or in flight.
  unfoldable pub outstanding : {C Q : Type 0} → WorkQueue C Q → ℕ
  outstanding s = Dict.total weigh s.pending + Dict.total entry_weight s.in_flight

  pub weigh-append : (l k : List Message) → weigh (l ++ k) ≡ weigh l + weigh k
  unfolding weigh
  weigh-append [] k = omega arith
  weigh-append (m ∷ l) k = omega (arith, weigh-append l k)

  weight_at-weigh :
      (topic : Text) (d : Dict Text (List Message))
      → Dict.weight_at weigh topic d ≡ weigh (Dict.get_or topic [] d)
  unfolding weigh Dict.weight_at Dict.get_or
  weight_at-weigh topic d = ground arith

  module _ {C Q : Type 0} where
    pub outstanding-set_pending :
        (topic : Text) (l : List Message) (s : WorkQueue C Q)
        → outstanding (set_pending topic l s) + weigh (pending_of topic s) ≡ outstanding s + weigh l
    unfolding outstanding set_pending pending_of
    outstanding-set_pending topic l s =
        omega (arith, Dict.total-set weigh topic l s.pending, weight_at-weigh topic s.pending)

    pub outstanding-push_back :
        (topic : Text) (m : Message) (s : WorkQueue C Q)
        → outstanding (push_back topic m s) ≡ outstanding s + w m.payload
    unfolding push_back weigh
    outstanding-push_back topic m s = omega (
      arith,
      outstanding-set_pending topic (pending_of topic s ++ m ∷ []) s,
      weigh-append (pending_of topic s) (m ∷ []),
    )

    pub outstanding-push_front :
        (topic : Text) (m : Message) (s : WorkQueue C Q)
        → outstanding (push_front topic m s) ≡ outstanding s + w m.payload
    unfolding push_front weigh
    outstanding-push_front topic m s =
        omega (arith, outstanding-set_pending topic (m ∷ pending_of topic s) s)

    pub outstanding-make_in_flight :
        (now : ℕ) (m : Message) (topic group : Text) (s : WorkQueue C Q)
        → IsTracked s
        → outstanding (make_in_flight now m topic group s).1 ≡ outstanding s + w m.payload
    unfolding make_in_flight start_reaper_if_needed outstanding Dict.weight_at
    outstanding-make_in_flight now m topic group s v =
        let e = entry_for s.default_visibility_timeout now topic group m s.uuids in
        let f = fresh_key s.uuids s.in_flight v.keyed in
        ground (arith, f, Dict.total-set entry_weight s.uuids e s.in_flight)

    pub outstanding-dead_letter :
        (now : ℕ) (m : Message) (topic reason : Text) (s : WorkQueue C Q)
        → outstanding (dead_letter now m topic reason s) ≡ outstanding s + w m.payload
    unfolding dead_letter
    outstanding-dead_letter now m topic reason s =
        unfold outstanding in
        outstanding-push_back (dead_topic topic) (dead_message now s.uuids m topic reason)
          (record s { uuids = suc s.uuids })

    outstanding-deliver_to :
        (now : ℕ) (many : Bool) (m : Message) (topic : Text) (key : Text × Text)
        (entries : List (ℕ × C)) (s : WorkQueue C Q)
        → IsTracked s
        → outstanding (deliver_to now many m topic key entries s) ≡ outstanding s + w m.payload
    unfolding deliver_to
    outstanding-deliver_to now many m topic key entries s v =
        let n : ℕ = if many then suc s.uuids else s.uuids in
        let m' : Message = record m { id = if many then s.uuids else m.id } in
        unfold outstanding in
        outstanding-make_in_flight now m' topic key.1 (record s { uuids = n })
          (draw-IsTracked n s (ground arith) v)
