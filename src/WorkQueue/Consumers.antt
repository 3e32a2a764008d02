-- ===== src/WorkQueue/Consumers.antt =====
-- eventforge/work_queue.py: `consume`, `remove_consumer`, `close`.
use observer_pattern.Prelude.{
  ℕ, suc, Bool, true, false, Option, none, some, List, [], ◌∷◌, ◌++◌, if◌then◌else◌, ◌==◌, Text,
  codes, nat_eq, text_eq, pair_eq,
}
use observer_pattern.Prelude.Dict
use observer_pattern.Prelude.Dict.{Dict}
use observer_pattern.WorkQueue.State.{WorkQueue}
use observer_pattern.WorkQueue.Delivery.{try_dispatch}

-- `consumer_group or f"{topic}.default"`: an empty name is no name either
abbrev pub group_or_default : Text → Option Text → Text
group_or_default topic none = topic ++ codes ".default"
group_or_default topic (some []) = topic ++ codes ".default"
group_or_default topic (some (c ∷ name)) = c ∷ name

module _ {C : Type 0} where
  -- `for i, (cid, _handler) in enumerate(entries): if cid == consumer_id: entries.pop(i); break`
  unfoldable pub remove_entry : ℕ → List (ℕ × C) → List (ℕ × C)
  remove_entry consumer_id [] = []
  remove_entry consumer_id ((cid, handler) ∷ entries) =
      if cid == consumer_id then entries else (cid, handler) ∷ remove_entry consumer_id entries

module _ {C Q : Type 0} where
  -- The section of `consume` that holds the lock.
  unfoldable pub register_consumer : Text → Text → C → WorkQueue C Q → ℕ × WorkQueue C Q
  register_consumer topic group handler s =
      let consumer_id = s.uuids in
      let key : Text × Text = (topic, group) in
      (
        consumer_id,
        record s {
          uuids = suc consumer_id;
          consumer_groups =
              Dict.set key (Dict.get_or key [] s.consumer_groups ++ (consumer_id, handler) ∷ [])
                s.consumer_groups;
          consumer_registry = Dict.set consumer_id key s.consumer_registry;
        },
      )

  unfoldable pub consume : ℕ → Text → C → Option Text → WorkQueue C Q → ℕ × WorkQueue C Q
  consume now topic handler consumer_group s =
      let (consumer_id, s₁) =
        register_consumer topic (group_or_default topic consumer_group) handler s in
      (consumer_id, try_dispatch now topic s₁)

  unfoldable pub remove_from_group : Text × Text → List (ℕ × C) → WorkQueue C Q → WorkQueue C Q
  remove_from_group key [] s = record s {
    consumer_groups = Dict.erase key s.consumer_groups;
    rr_index = Dict.erase key s.rr_index;
  }
  remove_from_group key (e ∷ entries) s = record s {
    consumer_groups = Dict.set key (e ∷ entries) s.consumer_groups;
  }

  unfoldable pub remove_consumer : ℕ → WorkQueue C Q → Bool × WorkQueue C Q
  remove_consumer consumer_id s = elim (Dict.get consumer_id s.consumer_registry) [
    | none ↦ (false, s)
    | some key ↦
        let s₁ = record s { consumer_registry = Dict.erase consumer_id s.consumer_registry } in
        elim (Dict.get_or key [] s.consumer_groups) [
          | [] ↦ (true, s₁)
          | e ∷ entries ↦ (true, remove_from_group key (remove_entry consumer_id (e ∷ entries)) s₁)
        ]
  ]

  -- The first two lines of `close`, which do not hold the lock.
  unfoldable pub stop_reaper : WorkQueue C Q → WorkQueue C Q
  stop_reaper s = record s { reaper_running = false; closed_wq = true }

  -- The `join`: a reaper that is not to run any more ends; one started meanwhile stays.
  unfoldable pub join_reaper : WorkQueue C Q → WorkQueue C Q
  join_reaper s = record s { reaper_alive = if s.reaper_running then s.reaper_alive else false }

  -- The section of `close` that holds the lock.
  unfoldable pub clear : WorkQueue C Q → WorkQueue C Q
  clear s = record s { pending = []; in_flight = []; consumer_groups = []; consumer_registry = [] }

  -- `super().close()`
  unfoldable pub close_parent : (Q → Q) → WorkQueue C Q → WorkQueue C Q
  close_parent close_queue s = record s { parent = close_queue s.parent }

  unfoldable pub close : (Q → Q) → WorkQueue C Q → WorkQueue C Q
  close close_queue s = close_parent close_queue (clear (join_reaper (stop_reaper s)))
