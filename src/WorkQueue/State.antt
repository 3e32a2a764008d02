-- ===== src/WorkQueue/State.antt =====
-- eventforge/work_queue.py: the state of a `WorkQueue` and its containers. `C` is the type of the
-- handlers, `Q` the state of the parent `MessageQueue`. A missing key of `_pending` reads as an
-- empty deque; the empty deque that a `defaultdict` stores on a read is not kept.
use observer_pattern.Prelude.{
  ℕ, Bool, false, Option, none, some, List, [], ◌∷◌, ◌++◌, ◌==◌, Text, codes, length, filter,
  nat_eq, text_eq, pair_eq,
}
use observer_pattern.Prelude.Dict
use observer_pattern.Prelude.Dict.{Dict}
use observer_pattern.Types.{Value, Message}

pub record InFlightEntry : Type 0 where
  pub message : Message
  pub delivery_id : ℕ
  pub topic : Text
  pub consumer_group : Text
  pub delivered_at : ℕ
  pub visibility_timeout : Value
  pub retry_count : Value

-- What `_try_dispatch` hands to a new thread.
pub record Invocation (C : Type 0) : Type 0 where
  pub handler : C
  pub message : Message
  pub delivery_id : ℕ

-- `uuids` counts the draws of uuid4; `threads` holds the invocations that were started and have not
-- returned; `reaper_alive` says that the reaper thread runs.
pub record WorkQueue (C Q : Type 0) : Type 0 where
  pub parent : Q
  pub max_work_queue_size : ℕ
  pub default_visibility_timeout : ℕ
  pub max_retries : ℕ
  pub pending : Dict Text (List Message)
  pub in_flight : Dict ℕ InFlightEntry
  pub consumer_groups : Dict (Text × Text) (List (ℕ × C))
  pub rr_index : Dict (Text × Text) ℕ
  pub consumer_registry : Dict ℕ (Text × Text)
  pub closed_wq : Bool
  pub reaper_running : Bool
  pub reaper_alive : Bool
  pub uuids : ℕ
  pub threads : List (Invocation C)

abbrev pub retry_key : Text
retry_key = codes "_wq_retry_count"

abbrev pub original_topic_key : Text
original_topic_key = codes "_wq_original_topic"

abbrev pub enqueued_at_key : Text
enqueued_at_key = codes "_wq_enqueued_at"

abbrev pub visibility_key : Text
visibility_key = codes "_wq_visibility_timeout"

abbrev pub delivery_id_key : Text
delivery_id_key = codes "_wq_delivery_id"

abbrev pub dead_lettered_at_key : Text
dead_lettered_at_key = codes "_wq_dead_lettered_at"

abbrev pub dead_letter_reason_key : Text
dead_letter_reason_key = codes "_wq_dead_letter_reason"

module _ {C Q : Type 0} where
  -- `WorkQueue.__init__`
  unfoldable pub init : Q → ℕ → ℕ → ℕ → WorkQueue C Q
  init parent max_size timeout retries = record {
    parent = parent;
    max_work_queue_size = max_size;
    default_visibility_timeout = timeout;
    max_retries = retries;
    pending = [];
    in_flight = [];
    consumer_groups = [];
    rr_index = [];
    consumer_registry = [];
    closed_wq = false;
    reaper_running = false;
    reaper_alive = false;
    uuids = 0;
    threads = [];
  }

  -- `self._pending[topic]`
  unfoldable pub pending_of : Text → WorkQueue C Q → List Message
  pending_of topic s = Dict.get_or topic [] s.pending

  unfoldable pub set_pending : Text → List Message → WorkQueue C Q → WorkQueue C Q
  set_pending topic l s = record s { pending = Dict.set topic l s.pending }

  -- `self._pending[topic].append(message)`
  unfoldable pub push_back : Text → Message → WorkQueue C Q → WorkQueue C Q
  unfolding pending_of set_pending
  push_back topic message s = set_pending topic (pending_of topic s ++ message ∷ []) s

  -- `self._pending[topic].appendleft(message)`
  unfoldable pub push_front : Text → Message → WorkQueue C Q → WorkQueue C Q
  unfolding pending_of set_pending
  push_front topic message s = set_pending topic (message ∷ pending_of topic s) s

  -- `pending_count`
  unfoldable pub pending_count : Text → WorkQueue C Q → ℕ
  unfolding pending_of
  pending_count topic s = length (pending_of topic s)

  -- `in_flight_count`: of all topics, or of one
  unfoldable pub in_flight_count : Option Text → WorkQueue C Q → ℕ
  in_flight_count none s = length s.in_flight
  in_flight_count (some topic) s = length (filter (λ e. e.topic == topic) (Dict.values s.in_flight))
