-- ===== src/WorkQueue/Sections.antt =====
-- eventforge/work_queue.py: threads interleave by whole critical sections of `_wq_lock`. A step
-- of the relation is one section of one thread, and each method is a chain of steps.
use observer_pattern.Prelude.{ℕ, suc, Bool, Text, nat_eq, text_eq, pair_eq}
use observer_pattern.Types.{Value, Headers}
use observer_pattern.WorkQueue.State.{WorkQueue}
use observer_pattern.WorkQueue.Delivery.{try_dispatch}
use observer_pattern.WorkQueue.Enqueue.{work_message, put_message, dequeue_round, ack}
use observer_pattern.WorkQueue.Nack.{nack_locked}
use observer_pattern.WorkQueue.Consumers.{
  register_consumer, remove_consumer, stop_reaper, join_reaper, clear, close_parent,
}
use observer_pattern.WorkQueue.Reaper.{reap_locked}

module _ {C Q : Type 0} where
  -- One critical section, or one of the steps of `close` outside the lock.
  pub data Section (s : WorkQueue C Q) : WorkQueue C Q → Type 0 where
    puts :
        (now vt : ℕ) (topic : Text) (payload : Value) (headers : Headers)
        → Section s
            (put_message topic
              (work_message now s.uuids topic payload vt headers)
              (record s { uuids = suc s.uuids })).1
    dispatches : (now : ℕ) (topic : Text) → Section s (try_dispatch now topic s)
    registers :
        (topic group : Text) (handler : C) → Section s (register_consumer topic group handler s).1
    takes : (now : ℕ) (topic : Text) → Section s (dequeue_round now topic s).1
    acks : (delivery_id : ℕ) → Section s (ack delivery_id s).1
    nacks :
        (now delivery_id : ℕ) (requeue : Bool) → Section s (nack_locked now delivery_id requeue s).1
    removes : (consumer_id : ℕ) → Section s (remove_consumer consumer_id s).1
    reaps : (now : ℕ) → Section s (reap_locked now s).1
    stops : Section s (stop_reaper s)
    joins : Section s (join_reaper s)
    clears : Section s (clear s)
    closes_parent : (close_queue : Q → Q) → Section s (close_parent close_queue s)

  pub data Run (s : WorkQueue C Q) : WorkQueue C Q → Type 0 where
    here : Run s s
    next : {t u : WorkQueue C Q} → Run s t → Section t u → Run s u
