-- ===== src/Task/Tests.antt =====
-- eventforge/task.py: the theorems at inputs that meet their hypotheses.
use observer_pattern.Prelude.{
  false, if◌then◌else◌, ℕ, ◌+◌, ◌≤◌, ◌≡◌, refl, ◌⊎◌, true, none, some, List, [], ◌∷◌, ◌++◌, codes,
}
use observer_pattern.Types.{num, application, timeout_error, ok, err}
use observer_pattern.Executor.{Executor, thread}
use observer_pattern.Executor as Executors
use observer_pattern.Executor.Lifecycle.{init-IsSound}
use observer_pattern.Observers.Channel.{Eventful}
use observer_pattern.Task.Pool.{TaskPool, init, enter, take_permit, settle, release}
use observer_pattern.Task.Pool.Bounds.{
  Threads, idle, enters, takes, counts_in, Run, here, next, Run-bounded,
}
use observer_pattern.Task.Runner.{TaskRunner, execute, run}
use observer_pattern.Task.Runner.Slot.{Waits, served, refused, run_returns_slot}
use observer_pattern.Task.Runner.Lifecycle.{
  Entry, seen, noting, recording, calls, running, ran, context_at, context_after, branch,
  execute_notes,
}

abbrev pool : TaskPool
pool = record { max_instances = 2; permits = 2; active = 0; total_processed = 0; queued = 0 }

pool_made : init 2 ≡ ok pool
unfolding init
pool_made = refl

-- One thread has come in.
abbrev one_busy : Threads
one_busy = record { waiting = 0; entering = 0; refused = 0; busy = 1; leaving = 0 }

came_in : Run (pool, idle) (settle true (take_permit (enter pool)).1, one_busy)
unfolding enter take_permit settle
came_in = next (next (next here enters) (takes 0 refl refl)) (counts_in 0 refl)

Run-bounded_example :
    let q = settle true (take_permit (enter pool)).1 in
    (q.active + q.permits ≤ 2)
    × (one_busy.entering + one_busy.busy + one_busy.leaving + q.permits ≡ 2)
    × (q.queued ≡ one_busy.waiting + one_busy.entering + one_busy.refused)
Run-bounded_example =
    Run-bounded 2 pool (settle true (take_permit (enter pool)).1) one_busy pool_made came_in

abbrev channel : ℕ → Eventful ℕ
channel k = record { subscribers = k ∷ []; owner = none; name = none }

abbrev runner : TaskRunner ℕ
runner = record {
  topic = codes "t";
  has_queue = true;
  publish_result = true;
  start = channel 1;
  success = channel 2;
  failure = channel 3;
  complete = channel 4;
}

abbrev executor : Executor (List (Entry ℕ))
executor = Executors.init thread

-- A pool whose only slot is taken, until another thread gives it back.
abbrev busy_pool : TaskPool
busy_pool = record { max_instances = 1; permits = 0; active = 1; total_processed = 0; queued = 0 }

abbrev Site : Type 0
Site = TaskPool × (Executor (List (Entry ℕ)) × List (Entry ℕ))

abbrev gives_back : Site → Site
gives_back (p, world) = (release p, world)

run_returns_slot_example :
    let func = running (ok (num 1)) in
    let answer =
      run noting
        (recording (ok tt))
        runner
        5
        func
        true
        (gives_back ∷ [])
        (some busy_pool)
        (executor, []) in
    (y : Site) × ((Waits (gives_back ∷ []) (enter busy_pool, (executor, [])) true y
        × (answer
            ≡ some (
              (execute noting (recording (ok tt)) runner 5 func y.1).0,
              (some (served y.0), (execute noting (recording (ok tt)) runner 5 func y.1).1),
            )))
      ⊎ (Waits (gives_back ∷ []) (enter busy_pool, (executor, [])) false y
          × (answer
              ≡ (if true then some (err timeout_error, (some (refused y.0), y.1)) else none))))
run_returns_slot_example =
    run_returns_slot noting (recording (ok tt)) runner 5 (running (ok (num 1))) true
      (gives_back ∷ []) busy_pool (executor, [])

-- In a thread pool, a function that raises.
execute_notes_example :
    let s = seen executor.mode (err (application 3)) in
    let ctx = context_after runner 5 s in
    let (answer, (_, log)) =
      execute noting (recording (ok tt)) runner 5 (running (err (application 3))) (executor, []) in
    (answer ≡ s)
    × (log
        ≡ []
          ++ (calls runner.start (context_at runner 5)
              ++ ran ∷ (branch runner ctx s ++ calls runner.complete ctx)))
execute_notes_example =
    execute_notes (ok tt) runner 5 (err (application 3)) executor [] (refl, refl, refl, refl)
      (init-IsSound thread)
