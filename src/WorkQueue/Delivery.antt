-- ===== src/WorkQueue/Delivery.antt =====
-- eventforge/work_queue.py: `_make_in_flight`, `_start_reaper_if_needed`, `_dead_letter`,
-- `_try_dispatch`. Each runs while `_wq_lock` is held; `now` is the clock's reading.
use observer_pattern.Prelude.{
  ℕ, suc, ◌+◌, ◌%◌, Bool, true, false, Option, none, some, ◌||◌, none, some, List, [], ◌∷◌, ◌++◌,
  if◌then◌else◌, ltb, ◌==◌, Text, codes, length, filter, get_elem?, nat_eq, text_eq, pair_eq,
}
use observer_pattern.Prelude.Dict
use observer_pattern.Prelude.Dict.{Dict}
use observer_pattern.Types.{Message, num, str, uuid, time}
use observer_pattern.WorkQueue.State.{
  InFlightEntry, Invocation, WorkQueue, pending_of, set_pending, push_back, push_front, retry_key,
  visibility_key, delivery_id_key, original_topic_key, dead_lettered_at_key, dead_letter_reason_key,
}

-- The entry that `_make_in_flight` records for `msg`.
abbrev pub entry_for : ℕ → ℕ → Text → Text → Message → ℕ → InFlightEntry
entry_for default now topic group msg delivery_id = record {
  message = msg;
  delivery_id = delivery_id;
  topic = topic;
  consumer_group = group;
  delivered_at = now;
  visibility_timeout = Dict.get_or visibility_key (num default) msg.headers;
  retry_count = Dict.get_or retry_key (num 0) msg.headers;
}

-- The message as it is handed out.
abbrev pub stamped : Message → ℕ → Message
stamped msg delivery_id = record msg {
  headers = Dict.set delivery_id_key (uuid delivery_id) msg.headers;
}

-- The message that `_dead_letter` puts on the dead-letter topic.
abbrev pub dead_topic : Text → Text
dead_topic topic = topic ++ codes ".dead_letter"

abbrev pub dead_message : ℕ → ℕ → Message → Text → Text → Message
dead_message now id msg topic reason = record msg {
  topic = dead_topic topic;
  id = id;
  headers = Dict.set original_topic_key (Dict.get_or original_topic_key (str topic) msg.headers) (
      Dict.set dead_letter_reason_key (str reason)
        (Dict.set dead_lettered_at_key (time now) msg.headers));
}

module _ {C : Type 0} where
  -- The thread that is started for `entries[idx]`.
  abbrev pub started : Option (ℕ × C) → Message → ℕ → List (Invocation C)
  started none message delivery_id = []
  started (some (_, handler)) message delivery_id =
      record { handler = handler; message = message; delivery_id = delivery_id } ∷ []

module _ {C Q : Type 0} where
  -- The new thread is alive from here on, until an exception ends its loop.
  unfoldable pub start_reaper_if_needed : WorkQueue C Q → WorkQueue C Q
  start_reaper_if_needed s = record s {
    reaper_running = true;
    reaper_alive = if s.reaper_running then s.reaper_alive else true;
  }

  unfoldable pub make_in_flight :
      ℕ → Message → Text → Text → WorkQueue C Q → Message × WorkQueue C Q
  make_in_flight now msg topic group s =
      let delivery_id = s.uuids in
      (
        stamped msg delivery_id,
        start_reaper_if_needed (record s {
          uuids = suc delivery_id;
          in_flight =
              Dict.set delivery_id
                (entry_for s.default_visibility_timeout now topic group msg delivery_id)
                s.in_flight;
        }),
      )

  unfoldable pub dead_letter : ℕ → Message → Text → Text → WorkQueue C Q → WorkQueue C Q
  dead_letter now msg topic reason s =
      push_back (dead_topic topic) (dead_message now s.uuids msg topic reason)
        (record s { uuids = suc s.uuids })

  -- The body of `for key in groups`, once the group's entries are known not to be empty.
  unfoldable pub deliver_to :
      ℕ → Bool → Message → Text → Text × Text → List (ℕ × C) → WorkQueue C Q → WorkQueue C Q
  deliver_to now many msg topic key entries s =
      let copy : Message = record msg { id = if many then s.uuids else msg.id } in
      let s₁ : WorkQueue C Q = record s { uuids = if many then suc s.uuids else s.uuids } in
      let (delivered, s₂) = make_in_flight now copy topic key.1 s₁ in
      let idx = Dict.get_or key 0 s₂.rr_index % length entries in
      record s₂ {
        rr_index = Dict.set key (idx + 1) s₂.rr_index;
        threads = s₂.threads ++ started (get_elem? entries idx) delivered s₁.uuids;
      }

  unfoldable pub deliver_to_group :
      ℕ → Bool → Message → Text → Text × Text → WorkQueue C Q → Bool × WorkQueue C Q
  deliver_to_group now many msg topic key s = elim (Dict.get_or key [] s.consumer_groups) [
    | [] ↦ (false, s)
    | e ∷ entries ↦ (true, deliver_to now many msg topic key (e ∷ entries) s)
  ]

  -- `for key in groups`: whether any group took the message
  unfoldable pub deliver_to_groups :
      ℕ → Bool → Message → Text → List (Text × Text) → WorkQueue C Q → Bool × WorkQueue C Q
  deliver_to_groups now many msg topic [] s = (false, s)
  deliver_to_groups now many msg topic (key ∷ keys) s =
      let (here, s₁) = deliver_to_group now many msg topic key s in
      let (later, s₂) = deliver_to_groups now many msg topic keys s₁ in (here || later, s₂)

  -- `while self._pending[topic]`, over the messages that are pending when it begins: the loop adds
  -- none to them, but puts back one that no group took.
  unfoldable pub drain :
      ℕ → Text → List (Text × Text) → List Message → WorkQueue C Q → WorkQueue C Q
  drain now topic groups [] s = s
  drain now topic groups (msg ∷ rest) s =
      let many = ltb 1 (length groups) in
      let (dispatched, s₁) =
        deliver_to_groups now many msg topic groups (set_pending topic rest s) in
      let more = drain now topic groups rest s₁ in
      if dispatched then more else push_front topic msg s₁

  -- `[key for key in self._consumer_groups if key[0] == topic]`
  abbrev pub groups_of : Text → WorkQueue C Q → List (Text × Text)
  groups_of topic s = filter (λ key. key.0 == topic) (Dict.keys s.consumer_groups)

  unfoldable pub try_dispatch : ℕ → Text → WorkQueue C Q → WorkQueue C Q
  try_dispatch now topic s = elim (groups_of topic s) [
    | [] ↦ s
    | key ∷ keys ↦ drain now topic (key ∷ keys) (pending_of topic s) s
  ]
