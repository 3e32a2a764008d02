-- ===== src/WorkQueue/Tests.antt =====
-- eventforge/work_queue.py: runs at concrete inputs, and the theorems at inputs that meet their
-- hypotheses.
use observer_pattern.Prelude.{
  ℕ, suc, ◌+◌, ◌*◌, ◌≤◌, ◌<◌, ◌≡◌, refl, ◌⊎◌, Bool, true, false, Option, none, some, [], ◌∷◌, ◌++◌,
  map, length, All, arith, Text, codes, nat_eq, text_eq, pair_eq,
}
use observer_pattern.Prelude.Keys.{text_beq, pair_beq}
use observer_pattern.Prelude.Dict
use observer_pattern.Types.{Value, Message, num, ok, err, queue_full, plus_one}
use observer_pattern.WorkQueue.Sections.{Run, here, next, puts, takes, nacks}
use observer_pattern.WorkQueue.Tracked.{IsTracked}
use observer_pattern.WorkQueue.Tracked.Run.{Run-IsTracked}
use observer_pattern.WorkQueue.Conservation.{weigh, outstanding}
use observer_pattern.WorkQueue.Conservation.Dispatch.{outstanding-try_dispatch}
use observer_pattern.WorkQueue.Conservation.Methods.{
  delivery_weight, outstanding-ack, Fifo, dequeue_round-Fifo, put_message_bounded,
}
use observer_pattern.WorkQueue.Conservation.Failures.{Rejects, nack_locked-Rejects}
use observer_pattern.WorkQueue.Conservation.Reaping.{IsNumbered, reap_locked_keeps}
use observer_pattern.WorkQueue.Sound.{IsSound}
use observer_pattern.WorkQueue.Sound.Run.{IsCleanRun, Run-IsSound}
use observer_pattern.WorkQueue.Redelivery.{Returned, dequeue-nack}
use observer_pattern.WorkQueue.{
  retry_key, WorkQueue, init, work_message, groups_of, pending_of, set_pending, push_back,
  push_front, pending_count, in_flight_count, start_reaper_if_needed, make_in_flight, dead_letter,
  deliver_to, deliver_to_group, deliver_to_groups, drain, try_dispatch, merge, put_message, enqueue,
  register_consumer, consume, take_pending, dequeue_round, dequeue_loop, dequeue, ack, nack_entry,
  nack_locked, nack, remove_entry, remove_from_group, remove_consumer, invoke_handler, has_expired,
  collect_expired, as_number, add_topic, requeue_expired, dispatch_all, reap_locked, reap,
  reaper_round,
}

program : Unit {0}
unfolding text_beq pair_beq Dict.get Dict.set Dict.erase Dict.get_or Dict.contains plus_one init
    pending_of set_pending push_back push_front pending_count in_flight_count start_reaper_if_needed
    make_in_flight dead_letter deliver_to deliver_to_group deliver_to_groups drain try_dispatch
    merge put_message enqueue register_consumer consume take_pending dequeue_round dequeue_loop
    dequeue ack nack_entry nack_locked nack remove_entry remove_from_group remove_consumer
    invoke_handler has_expired collect_expired as_number add_topic requeue_expired dispatch_all
    reap_locked reap reaper_round
program = tt

abbrev jobs : Text
jobs = codes "jobs"

abbrev empty : WorkQueue ℕ (Unit {0})
empty = init tt 0 30 3

-- Two jobs and no consumer.
abbrev two : WorkQueue ℕ (Unit {0})
two = (enqueue 6 jobs (num 2) none [] (enqueue 5 jobs (num 1) none [] empty).1).1

two_pending : pending_count jobs two ≡ 2
unfolding program
two_pending = refl

-- Consumers 7 and 8 get one job each.
abbrev shared : WorkQueue ℕ (Unit {0})
shared =
    let s = (consume 9 jobs 8 none (consume 8 jobs 7 none empty).1).1 in
    (enqueue 11 jobs (num 2) none [] (enqueue 10 jobs (num 1) none [] s).1).1

spread :
    (map (λ t. t.handler) shared.threads ≡ 7 ∷ 8 ∷ [])
    × (in_flight_count none shared ≡ 2)
    × (pending_count jobs shared ≡ 0)
unfolding program
spread = (refl, refl, refl)

-- A message that is rejected until its retries are used up ends on the dead-letter topic.
abbrev buried : WorkQueue ℕ (Unit {0})
buried =
    let round =
      λ (k : ℕ) (s : WorkQueue ℕ (Unit {0})). (nack 20 k true (dequeue_round 20 jobs s).1).1 in
    round 4 (round 3 (round 2 two))

buried_counts :
    (pending_count jobs buried ≡ 1) × (pending_count (codes "jobs.dead_letter") buried ≡ 1)
unfolding program
buried_counts = (refl, refl)

-- The reaper hands an expired message to the consumers again.
reaped : map (λ t. t.delivery_id) (reaper_round 100 shared).threads ≡ 3 ∷ 5 ∷ 6 ∷ 7 ∷ []
unfolding program
reaped = refl

-- A job is put and taken.
abbrev taken : WorkQueue ℕ (Unit {0})
taken = (dequeue_round 6 jobs two).1

Run-IsTracked_example :
    IsTracked
      (dequeue_round 6 jobs
        (put_message jobs
          (work_message 5 empty.uuids jobs (num 1) 30 [])
          (record empty { uuids = suc empty.uuids })).1).1
Run-IsTracked_example =
    Run-IsTracked tt 0 30 3 (next (next here (puts 5 30 jobs (num 1) [])) (takes 6 jobs))

-- The job that was taken is rejected.
abbrev rejected : WorkQueue ℕ (Unit {0})
rejected =
    (nack_locked 7 1 true
      (dequeue_round 6 jobs
        (put_message jobs (work_message 5 empty.uuids jobs (num 1) 30 [])
          (record empty { uuids = suc empty.uuids })).1).1).1

rejected_retry :
    map (λ m. Dict.get retry_key m.headers) (pending_of jobs rejected) ≡ some (num 1) ∷ []
unfolding program
rejected_retry = refl

abbrev clean_run : Run empty rejected
clean_run = next (next (next here (puts 5 30 jobs (num 1) [])) (takes 6 jobs)) (nacks 7 1 true)

clean_run-IsCleanRun : IsCleanRun clean_run
unfolding Dict.get
clean_run-IsCleanRun = (((tt, (refl, refl)), tt), tt)

Run-IsSound_example :
    IsSound 3 rejected
    × ((now delivery_id : ℕ) (requeue : Bool)
        → (x : Option (Option Text)) × ((nack_locked now delivery_id requeue rejected).0 ≡ ok x))
Run-IsSound_example = Run-IsSound tt 0 30 3 clean_run clean_run-IsCleanRun

two-IsTracked : IsTracked two
unfolding program
two-IsTracked = record { keyed = tt; distinct = tt; manned = tt }

taken-IsTracked : IsTracked taken
unfolding program
taken-IsTracked = record { keyed = ((omega arith, refl), tt); distinct = (refl, tt); manned = tt }

-- Every message counts for one.
abbrev count : Value → ℕ
count v = 1

outstanding-ack_example :
    let (found, t) = ack 2 taken in
    (found ≡ Dict.contains 2 taken.in_flight)
    × (outstanding count t + delivery_weight count 2 taken ≡ outstanding count taken)
    × (t.pending ≡ taken.pending)
    × ((ack 2 t).0 ≡ false)
outstanding-ack_example = outstanding-ack count 2 taken taken-IsTracked

-- A group listens now, and both jobs are still pending.
abbrev listened : WorkQueue ℕ (Unit {0})
listened = (register_consumer jobs (codes "workers") 7 two).1

listened-IsTracked : IsTracked listened
unfolding program
listened-IsTracked = record { keyed = tt; distinct = tt; manned = (omega arith, tt) }

outstanding-try_dispatch_example :
    ((groups_of jobs listened ≡ []) × (try_dispatch 7 jobs listened ≡ listened))
    ⊎ ((0 < length (groups_of jobs listened))
        × (pending_of jobs (try_dispatch 7 jobs listened) ≡ [])
        × (outstanding count (try_dispatch 7 jobs listened) + weigh count (pending_of jobs listened)
            ≡ outstanding count listened
              + length (groups_of jobs listened) * weigh count (pending_of jobs listened)))
outstanding-try_dispatch_example = outstanding-try_dispatch count 7 jobs listened listened-IsTracked

nack_locked-Rejects_example : Rejects count 2 taken (nack_locked 9 2 true taken)
nack_locked-Rejects_example = nack_locked-Rejects count 9 2 true taken taken-IsTracked

taken-IsNumbered : All (λ e. IsNumbered e.1) taken.in_flight
unfolding program
taken-IsNumbered = ((λ e. cc, λ e. cc), tt)

reap_locked_keeps_example :
    let t = (reap_locked 60 taken).1 in
    (outstanding count t ≡ outstanding count taken)
    × All (λ e. has_expired 60 e.1 ≡ some false) t.in_flight
    × (t.reaper_alive ≡ taken.reaper_alive)
reap_locked_keeps_example = reap_locked_keeps count 60 taken taken-IsNumbered

dequeue_round-Fifo_example :
    (two.closed_wq ≡ true → dequeue_round 6 jobs two ≡ (some none, two))
    × (two.closed_wq ≡ false → Fifo count jobs two (dequeue_round 6 jobs two))
dequeue_round-Fifo_example = dequeue_round-Fifo count 6 jobs two two-IsTracked

abbrev job : Message
job = work_message 5 9 jobs (num 1) 30 []

put_message_bounded_example :
    let (r, t) = put_message jobs job two in
    (((0 < two.max_work_queue_size) × (two.max_work_queue_size ≤ length (pending_of jobs two)))
      × (r ≡ err queue_full)
      × (t ≡ two))
    ⊎ ((two.max_work_queue_size ≡ 0) ⊎ (length (pending_of jobs two) < two.max_work_queue_size))
      × (r ≡ ok job.id)
      × (pending_of jobs t ≡ pending_of jobs two ++ job ∷ [])
      × (outstanding count t ≡ outstanding count two + count job.payload)
put_message_bounded_example = put_message_bounded count jobs job two

abbrev first : Message
first = work_message 5 0 jobs (num 1) 30 []

abbrev second : Message
second = work_message 6 1 jobs (num 2) 30 []

two_open : two.closed_wq ≡ false
unfolding program
two_open = refl

two_waiting : pending_of jobs two ≡ first ∷ second ∷ []
unfolding program
two_waiting = refl

first_count : plus_one (Dict.get_or retry_key (num 0) first.headers) ≡ some 1
unfolding program
first_count = refl

dequeue-nack_example :
    Returned 9 jobs first
      (second ∷ [])
      1
      two
      (nack_locked 9 two.uuids true (dequeue_round 8 jobs two).1)
dequeue-nack_example =
    dequeue-nack 8 9 jobs first (second ∷ []) 1 two two_open two_waiting first_count
